-- ===== src/Chain/Trigger.antt =====
-- migrations/20260501000001_add_event_hash_chain.sql: the BEFORE INSERT trigger on `events`, which
-- writes the chain that src/background/audit_chain.rs verifies.
use mathlib.Core.List.{append_assoc}
use open_pincery.Prelude.{
  ℕ, ◌+◌, ◌%◌, ◌^◌, ◌≡◌, String, Option, none, some, List, [], ◌∷◌, ◌++◌, length, leb,
  if◌then◌else◌, refl,
}
use open_pincery.Bytes.{be_bytes, utf8}
use open_pincery.Chain.{Hashing, Event, or_empty, push_field, wake_text, canonical_payload, rows_of}

-- What the INSERT of `append_event` supplies.
pub record NewEvent : Type 0 where
  pub agent_id : ℕ
  pub event_type : String
  pub source : String
  pub wake_id : Option ℕ
  pub tool_name : Option String
  pub tool_input : Option String
  pub tool_output : Option String
  pub content : Option String
  pub termination_reason : Option String

-- `events_chain_field`; `int4send` writes the low 32 bits.
unfoldable pub events_chain_field : Option String → List ℕ
events_chain_field none = be_bytes 4 (length (utf8 "") % 2 ^ 32) ++ utf8 ""
events_chain_field (some v) = be_bytes 4 (length (utf8 v) % 2 ^ 32) ++ utf8 v

module _ (h : Hashing) where
  unfoldable pub events_chain_canonical_payload : NewEvent → ℕ → List ℕ
  events_chain_canonical_payload e created_at =
      events_chain_field (some e.event_type)
      ++ (events_chain_field (some (h.uuid_text e.agent_id))
          ++ (events_chain_field (some e.source)
              ++ (events_chain_field (some (or_empty (wake_text h e.wake_id)))
                  ++ (events_chain_field e.tool_name
                      ++ (events_chain_field e.tool_input
                          ++ (events_chain_field e.tool_output
                              ++ (events_chain_field e.content
                                  ++ (events_chain_field e.termination_reason
                                      ++ (be_bytes 4 8 ++ be_bytes 8 (created_at % 2 ^ 64))))))))))

  push_field-eq :
      (out : List ℕ) (f : Option String) → push_field out f ≡ out ++ events_chain_field f
  unfolding push_field events_chain_field
  push_field-eq out none = append_assoc out _ _
  push_field-eq out (some v) = append_assoc out _ _

  events_chain_field-or_empty :
      (f : Option String) → events_chain_field (some (or_empty f)) ≡ events_chain_field f
  unfolding events_chain_field
  events_chain_field-or_empty none = refl
  events_chain_field-or_empty (some v) = refl

  -- The trigger and the Rust verifier hash the same bytes, for every row and every time.
  pub events_chain_canonical_payload-eq :
      (e : NewEvent) (created_at : ℕ)
      → events_chain_canonical_payload e created_at
        ≡ canonical_payload h e.event_type e.agent_id
            (some e.source)
            e.wake_id
            e.tool_name
            e.tool_input
            e.tool_output
            e.content
            e.termination_reason
            created_at
  unfolding events_chain_canonical_payload canonical_payload
  events_chain_canonical_payload-eq e created_at =
      simp (events_chain_field-or_empty, push_field-eq, append_assoc)

-- `ORDER BY created_at DESC, id DESC LIMIT 1`
unfoldable pub last_row : List Event → Option Event
last_row [] = none
last_row (r ∷ []) = some r
last_row (r ∷ s ∷ rows) = last_row (s ∷ rows)

-- `created_at` is moved past the prior row's.
unfoldable pub bump_time : Option Event → ℕ → ℕ
bump_time none now = now
bump_time (some prior) now = if leb now prior.created_at then prior.created_at + 1 else now

abbrev pub prior_hash : Option Event → List ℕ
prior_hash none = []
prior_hash (some prior) = prior.entry_hash

-- `NEW` when the trigger returns it: the digest is over the decoded prior hash and the payload.
unfoldable pub new_row : Hashing → NewEvent → ℕ → ℕ → List ℕ → List ℕ → Event
new_row h e id at prev bytes = record {
  id = id;
  agent_id = e.agent_id;
  event_type = e.event_type;
  source = e.source;
  wake_id = e.wake_id;
  tool_name = e.tool_name;
  tool_input = e.tool_input;
  tool_output = e.tool_output;
  content = e.content;
  termination_reason = e.termination_reason;
  created_at = at;
  prev_hash = prev;
  entry_hash = h.hex_encode (h.sha256 (bytes ++ events_chain_canonical_payload h e at));
}

-- `events_chain_compute_hash`; `decode` raises on a text that is no hex.
unfoldable pub complete_row : Hashing → NewEvent → ℕ → ℕ → Option Event → Option Event
unfolding bump_time new_row
complete_row h e id now prior = elim (h.hex_decode (prior_hash prior)) [
  | none ↦ none
  | some bytes ↦ some (new_row h e id (bump_time prior now) (prior_hash prior) bytes)
]

-- The INSERT of `append_event`: the new row goes to the end of the table.
unfoldable pub insert_event : Hashing → NewEvent → ℕ → ℕ → List Event → Option (Event × List Event)
unfolding complete_row last_row
insert_event h e id now table =
    elim (complete_row h e id now (last_row (rows_of e.agent_id table))) [
      | none ↦ none
      | some row ↦ some (row, table ++ row ∷ [])
    ]
