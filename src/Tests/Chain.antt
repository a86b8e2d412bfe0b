-- ===== src/Tests/Chain.antt =====
-- The audit chain at concrete tables.
use open_pincery.Prelude.{
  ℕ, ◌+◌, ◌≡◌, refl, sym, ap, subst, ◌↔◌, ◌⊎◌, true, false, none, some, List, [], ◌∷◌, length,
  arith,
}
use open_pincery.Bytes.{utf8, utf8_char}
use open_pincery.Chain.{
  Event, compute_entry_hash, row_payload, canonical_payload, verified, broken, rows_of, order_rows,
  insert_ordered, wake_text, verify_audit_chain,
}
use open_pincery.Chain.Walk.{
  Explains, Linked, tail_hash, verify_audit_chain-Explains, verify_audit_chain_iff,
}
use open_pincery.Chain.Fields.{IsStorable, SameContents, row_payload-injective}
use open_pincery.Chain.Pins.{AllRows, Collision, SameHistory, verified_pins_history}
use open_pincery.Chain.Gate.{
  AgentChainResult, evaluate_startup_gate, gate_of, broken_of, all_results,
  evaluate_startup_gate-eq,
}
use open_pincery.Chain.Trigger.{
  NewEvent, events_chain_canonical_payload, insert_event, events_chain_canonical_payload-eq,
}
use open_pincery.Chain.Append.{IsChained, own, verify-insert_event}
use open_pincery.Tests.{checksum, event}

-- A row without hashes, the same row at the head of a chain, and a forged one.
abbrev bare : Event
bare = event 1 100 (some "hello") [] []

abbrev first : Event
first = event 1 100 (some "hello") [] (compute_entry_hash checksum [] (row_payload checksum 7 bare))

abbrev forged : Event
forged = event 2 200 (some "bye") (1 ∷ []) []

verify_audit_chain-Explains_example :
    Explains checksum 7 [] 0
      (rows_of 7 (first ∷ forged ∷ []))
      (verify_audit_chain checksum (first ∷ forged ∷ []) 7)
verify_audit_chain-Explains_example = verify_audit_chain-Explains checksum 7 (first ∷ forged ∷ [])

verify_audit_chain_iff_example :
    (verify_audit_chain checksum (first ∷ []) 7
      ≡ verified (length (rows_of 7 (first ∷ []))) (tail_hash [] (rows_of 7 (first ∷ []))))
    ↔ Linked checksum 7 [] (rows_of 7 (first ∷ []))
verify_audit_chain_iff_example = verify_audit_chain_iff checksum 7 (first ∷ [])

first-IsStorable :
    (entry_hash : List ℕ) → IsStorable checksum 7 (event 1 100 (some "hello") [] entry_hash)
unfolding utf8 utf8_char wake_text
first-IsStorable entry_hash = record {
  texts = (
    omega arith,
    (
      omega arith,
      (
        omega arith,
        (
          omega arith,
          (omega arith, (omega arith, (omega arith, (omega arith, (omega arith, tt))))),
        ),
      ),
    ),
  );
  time = omega arith;
}

same_payload : row_payload checksum 7 first ≡ row_payload checksum 7 bare
unfolding row_payload
same_payload = refl

row_payload-injective_example : SameContents checksum 7 first bare
row_payload-injective_example =
    row_payload-injective checksum 7 first bare (first-IsStorable _) (first-IsStorable _)
      same_payload

first-rows : rows_of 7 (first ∷ []) ≡ first ∷ []
unfolding rows_of order_rows insert_ordered
first-rows = refl

first-verified : verify_audit_chain checksum (first ∷ []) 7 ≡ verified 1 first.entry_hash
first-verified =
    subst
      (λ rows.
        verify_audit_chain checksum (first ∷ []) 7 ≡ verified (length rows) (tail_hash [] rows))
      first-rows
      ((verify_audit_chain_iff checksum 7 (first ∷ [])).1 (
        subst (Linked checksum 7 []) (sym first-rows)
          (refl, ap (compute_entry_hash checksum []) (sym same_payload), tt)))

first-rows-IsStorable : AllRows (IsStorable checksum 7) (rows_of 7 (first ∷ []))
first-rows-IsStorable =
    subst (AllRows (IsStorable checksum 7)) (sym first-rows) (first-IsStorable _, tt)

verified_pins_history_example :
    Collision checksum ⊎ SameHistory checksum 7 (rows_of 7 (first ∷ [])) (rows_of 7 (first ∷ []))
verified_pins_history_example =
    verified_pins_history checksum 7 (first ∷ []) (first ∷ []) 1 first.entry_hash
      first-rows-IsStorable first-rows-IsStorable first-verified first-verified

-- Two workspaces, with one broken chain.
abbrev walks : List (ℕ × List AgentChainResult)
walks =
    (1, record { agent_id = 7; status = verified 3 [] } ∷ [])
    ∷ (2, record { agent_id = 8; status = broken 5 [] (1 ∷ []) 0 } ∷ [])
    ∷ []

evaluate_startup_gate-eq_example :
    evaluate_startup_gate walks true false ≡ gate_of (broken_of (all_results walks)) 2 2 true false
evaluate_startup_gate-eq_example = evaluate_startup_gate-eq walks true false

abbrev incoming : NewEvent
incoming = record {
  agent_id = 7;
  event_type = "wake_start";
  source = "agent";
  wake_id = some 9;
  tool_name = none;
  tool_input = none;
  tool_output = none;
  content = none;
  termination_reason = none;
}

events_chain_canonical_payload-eq_example :
    events_chain_canonical_payload checksum incoming 300
    ≡ canonical_payload checksum "wake_start" 7 (some "agent") (some 9) none none none none none 300
events_chain_canonical_payload-eq_example = events_chain_canonical_payload-eq checksum incoming 300

nothing-IsChained : (a : ℕ) → IsChained checksum a []
nothing-IsChained a = record { times = tt; links = tt }

verify-insert_event_example :
    (row : Event) × (later : List Event) × (insert_event checksum incoming 4 300 []
      ≡ some (row, later))
    × (verify_audit_chain checksum later 7 ≡ verified (length (own 7 []) + 1) row.entry_hash)
    × ((a : ℕ) → IsChained checksum a later)
verify-insert_event_example = verify-insert_event checksum incoming 4 300 [] nothing-IsChained
