-- ===== src/Chain.antt =====
-- src/background/audit_chain.rs: the canonical pre-image, the entry hash and the chain walk.
-- SHA-256, the hex codec and the text of a UUID are other packages' code: the fields of `Hashing`.
pub mod Walk
pub mod Fields
pub mod Pins
pub mod Gate
pub mod Trigger
pub mod Append
use open_pincery.Prelude.{
  ℕ, suc, ◌+◌, ◌%◌, ◌^◌, ◌≡◌, String, Bool, true, false, Option, none, some, List, [], ◌∷◌, ◌++◌,
  length, ltb, ◌==◌, ◌||◌, ◌&&◌, if◌then◌else◌, keep, not,
}
use open_pincery.Bytes.{be_bytes, utf8, eq_bytes}

-- The packages `sha2`, `hex` and `uuid`, with what their documentation promises: a digest has 32
-- bytes, decoding undoes encoding, no bytes encode to no text, and a UUID prints as 36 ASCII
-- characters. A hex text is the list of its bytes.
pub record Hashing : Type 0 where
  pub sha256 : List ℕ → List ℕ
  pub hex_encode : List ℕ → List ℕ
  pub hex_decode : List ℕ → Option (List ℕ)
  pub uuid_text : ℕ → String
  pub length-sha256 : (b : List ℕ) → length (sha256 b) ≡ 32
  pub hex_decode-hex_encode : (b : List ℕ) → hex_decode (hex_encode b) ≡ some b
  pub hex_encode-nil : hex_encode [] ≡ []
  pub length-uuid_text : (u : ℕ) → length (utf8 (uuid_text u)) ≡ 36

-- A row of the `events` table. Times are microseconds since the UNIX epoch.
pub record Event : Type 0 where
  pub id : ℕ
  pub agent_id : ℕ
  pub event_type : String
  pub source : String
  pub wake_id : Option ℕ
  pub tool_name : Option String
  pub tool_input : Option String
  pub tool_output : Option String
  pub content : Option String
  pub termination_reason : Option String
  pub created_at : ℕ
  pub prev_hash : List ℕ
  pub entry_hash : List ℕ

-- `Option::unwrap_or("")`
abbrev pub or_empty : Option String → String
or_empty none = ""
or_empty (some s) = s

-- `bytes.len() as u32` drops the high bits.
unfoldable pub push_field : List ℕ → Option String → List ℕ
push_field out field =
    let bytes = utf8 (or_empty field) in (out ++ be_bytes 4 (length bytes % 2 ^ 32)) ++ bytes

module _ (h : Hashing) where
  unfoldable pub wake_text : Option ℕ → Option String
  wake_text none = none
  wake_text (some w) = some (h.uuid_text w)

  unfoldable pub canonical_payload :
      String
      → ℕ
      → Option String
      → Option ℕ
      → Option String
      → Option String
      → Option String
      → Option String
      → Option String
      → ℕ
      → List ℕ
  unfolding wake_text
  canonical_payload event_type agent_id source wake_id tool_name tool_input tool_output content
        termination_reason created_at =
      let out = push_field [] (some event_type) in
      let out = push_field out (some (h.uuid_text agent_id)) in
      let out = push_field out source in
      let out = push_field out (wake_text wake_id) in
      let out = push_field out tool_name in
      let out = push_field out tool_input in
      let out = push_field out tool_output in
      let out = push_field out content in
      let out = push_field out termination_reason in
      (out ++ be_bytes 4 8) ++ be_bytes 8 (created_at % 2 ^ 64)

  -- `hex::decode(prev).unwrap_or_default()`, and no bytes for the empty text.
  unfoldable pub prev_bytes : List ℕ → List ℕ
  prev_bytes [] = []
  prev_bytes (c ∷ cs) = elim (h.hex_decode (c ∷ cs)) [ none ↦ [] | some b ↦ b ]

  unfoldable pub compute_entry_hash : List ℕ → List ℕ → List ℕ
  unfolding prev_bytes
  compute_entry_hash prev_hash_hex payload =
      h.hex_encode (h.sha256 (prev_bytes prev_hash_hex ++ payload))

pub data ChainStatus : Type 0 where
  -- events_in_chain, last_entry_hash
  verified : ℕ → List ℕ → ChainStatus
  -- first_divergent_event_id, expected_hash, actual_hash, events_walked
  broken : ℕ → List ℕ → List ℕ → ℕ → ChainStatus

module _ (h : Hashing) (agent_id : ℕ) where
  -- The payload of a row, as the loop of `verify_audit_chain` builds it.
  unfoldable pub row_payload : Event → List ℕ
  row_payload r =
      canonical_payload h r.event_type agent_id (some r.source) r.wake_id r.tool_name r.tool_input
        r.tool_output r.content r.termination_reason r.created_at

  -- The loop of `verify_audit_chain`, over `expected_prev`, `last_entry_hash` and `walked`.
  unfoldable pub walk : List ℕ → List ℕ → ℕ → List Event → ChainStatus
  walk expected_prev last_entry_hash walked [] = verified walked last_entry_hash
  walk expected_prev last_entry_hash walked (r ∷ rows) =
      let recomputed = compute_entry_hash h r.prev_hash (row_payload r) in
      let rest = walk r.entry_hash r.entry_hash (walked + 1) rows in
      if not (eq_bytes r.prev_hash expected_prev)
      then broken r.id expected_prev r.prev_hash walked
      else if not (eq_bytes recomputed r.entry_hash)
      then broken r.id recomputed r.entry_hash walked
      else rest

-- `ORDER BY created_at ASC, id ASC`
unfoldable pub before : Event → Event → Bool
before a b = ltb a.created_at b.created_at || ((a.created_at == b.created_at) && ltb a.id b.id)

unfoldable pub insert_ordered : Event → List Event → List Event
insert_ordered r [] = r ∷ []
insert_ordered r (s ∷ rows) =
    let rest = insert_ordered r rows in if before r s then r ∷ s ∷ rows else s ∷ rest

unfoldable pub order_rows : List Event → List Event
unfolding insert_ordered before
order_rows [] = []
order_rows (r ∷ rows) = insert_ordered r (order_rows rows)

unfoldable pub rows_of : ℕ → List Event → List Event
rows_of agent_id table = order_rows (keep (λ r. r.agent_id == agent_id) table)

unfoldable pub verify_audit_chain : Hashing → List Event → ℕ → ChainStatus
verify_audit_chain h table agent_id = walk h agent_id [] [] 0 (rows_of agent_id table)
