-- ===== src/Chain/Append.antt =====
-- Rows that the trigger completes keep every agent's chain verified.
use mathlib.Core.List.{append-nil}
use open_pincery.Prelude.{
  ℕ, ◌+◌, ◌<◌, ◌≡◌, refl, sym, ap, ◌∙◌, subst, inl, inr, false, some, List, [], ◌∷◌, ◌++◌, arith,
  length, keep, keep-append, ◌==◌, Bool-cases, ==→≡, length-append,
}
use open_pincery.Chain.{
  Hashing, Event, verified, before, insert_ordered, order_rows, rows_of, compute_entry_hash,
  prev_bytes, row_payload, verify_audit_chain,
}
use open_pincery.Chain.Walk.{Linked, tail_hash, verify_audit_chain_iff}
use open_pincery.Chain.Trigger.{
  NewEvent, last_row, bump_time, prior_hash, complete_row, new_row, insert_event,
  events_chain_canonical_payload-eq,
}

-- Every row is later than all before it.
abbrev pub LaterThan : ℕ → List Event → Type 0
LaterThan t [] = Unit {0}
LaterThan t (r ∷ rows) = (t < r.created_at) × LaterThan t rows

abbrev pub Ascending : List Event → Type 0
Ascending [] = Unit {0}
Ascending (r ∷ rows) = LaterThan r.created_at rows × Ascending rows

insert_ordered_first :
    (r : Event) (rows : List Event) → LaterThan r.created_at rows → insert_ordered r rows ≡ r ∷ rows
unfolding insert_ordered before
insert_ordered_first r [] h = refl
insert_ordered_first r (s ∷ rows) h = ground arith

order_rows-Ascending : (rows : List Event) → Ascending rows → order_rows rows ≡ rows
unfolding order_rows
order_rows-Ascending [] h = refl
order_rows-Ascending (r ∷ rows) h =
    rw (order_rows-Ascending rows h.1) (insert_ordered_first r rows h.0)

-- The rows of an agent, in the order of insertion.
abbrev pub own : ℕ → List Event → List Event
own a table = keep (λ r. r.agent_id == a) table

LaterThan-snoc :
    (t : ℕ) (rows : List Event) (r : Event)
    → LaterThan t rows
    → t < r.created_at
    → LaterThan t (rows ++ r ∷ [])
LaterThan-snoc t [] r l h = (h, tt)
LaterThan-snoc t (s ∷ rows) r l h = (l.0, LaterThan-snoc t rows r l.1 h)

LaterThan-end :
    (t : ℕ) (rows : List Event) (r : Event) → LaterThan t (rows ++ r ∷ []) → t < r.created_at
LaterThan-end t [] r l = l.0
LaterThan-end t (s ∷ rows) r l = LaterThan-end t rows r l.1

tail_hash-snoc :
    (prev : List ℕ) (rows : List Event) (r : Event) → tail_hash prev (rows ++ r ∷ []) ≡ r.entry_hash
tail_hash-snoc prev [] r = refl
tail_hash-snoc prev (s ∷ rows) r = tail_hash-snoc s.entry_hash rows r

prior_hash-last_row :
    (prev : List ℕ) (rows : List Event) (r : Event)
    → prior_hash (last_row (r ∷ rows)) ≡ tail_hash prev (r ∷ rows)
unfolding last_row
prior_hash-last_row prev [] r = refl
prior_hash-last_row prev (s ∷ rows) r = prior_hash-last_row r.entry_hash rows s

own-snoc :
    (a : ℕ) (table : List Event) (row : Event)
    → row.agent_id ≡ a
    → own a (table ++ row ∷ []) ≡ own a table ++ row ∷ []
own-snoc a table row e =
    keep-append (λ r. r.agent_id == a) table (row ∷ []) ∙ ap (◌++◌ (own a table)) (ground arith)

own-snoc_other :
    (a : ℕ) (table : List Event) (row : Event)
    → (row.agent_id == a) ≡ false
    → own a (table ++ row ∷ []) ≡ own a table
own-snoc_other a table row e =
    keep-append (λ r. r.agent_id == a) table (row ∷ [])
    ∙ ap (◌++◌ (own a table)) (ground arith)
    ∙ append-nil (own a table)

module _ (h : Hashing) where
  pub record IsChained (a : ℕ) (table : List Event) : Type 0 where
    pub times : Ascending (own a table)
    pub links : Linked h a [] (own a table)

  pub rows_of-IsChained :
      (a : ℕ) (table : List Event) → IsChained a table → rows_of a table ≡ own a table
  unfolding rows_of
  rows_of-IsChained a table c = order_rows-Ascending (own a table) c.times

  Ascending-snoc :
      (rows : List Event) (r : Event) (now : ℕ)
      → Ascending rows
      → r.created_at ≡ bump_time (last_row rows) now
      → Ascending (rows ++ r ∷ [])
  unfolding last_row bump_time
  Ascending-snoc [] r now asc e = (tt, tt)
  Ascending-snoc (s ∷ []) r now asc e = ground arith
  Ascending-snoc (s ∷ t ∷ rows) r now asc e =
      let rest = Ascending-snoc (t ∷ rows) r now asc.1 e in
      let later = LaterThan-end t.created_at rows r rest.0 in
      ((asc.0.0, LaterThan-snoc s.created_at rows r asc.0.1 (omega arith)), rest)

  Linked-snoc :
      (a : ℕ) (prev : List ℕ) (rows : List Event) (r : Event)
      → Linked h a prev rows
      → r.prev_hash ≡ tail_hash prev rows
      → r.entry_hash ≡ compute_entry_hash h (tail_hash prev rows) (row_payload h a r)
      → Linked h a prev (rows ++ r ∷ [])
  Linked-snoc a prev [] r l p e = (p, e, tt)
  Linked-snoc a prev (s ∷ rows) r (q, d, l) p e = (q, d, Linked-snoc a s.entry_hash rows r l p e)

  -- The trigger's `decode` and the verifier's agree on this hash.
  abbrev Decodes : List ℕ → Type 0
  Decodes p = h.hex_decode p ≡ some (prev_bytes h p)

  Decodes-nil : Decodes []
  unfolding prev_bytes
  Decodes-nil = subst (λ z. h.hex_decode z ≡ some []) h.hex_encode-nil (h.hex_decode-hex_encode [])

  Decodes-encoded : (p b : List ℕ) → p ≡ h.hex_encode b → Decodes p
  unfolding prev_bytes
  Decodes-encoded [] b e = Decodes-nil
  Decodes-encoded (c ∷ cs) b e =
      let d = ap h.hex_decode e ∙ h.hex_decode-hex_encode b in rw (d, prev_bytes)

  Decodes-tail :
      (a : ℕ) (prev : List ℕ) (rows : List Event)
      → Decodes prev
      → Linked h a prev rows
      → Decodes (tail_hash prev rows)
  unfolding compute_entry_hash
  Decodes-tail a prev [] d l = d
  Decodes-tail a prev (r ∷ rows) d (p, e, l) =
      Decodes-tail a r.entry_hash rows (Decodes-encoded _ _ e) l

  prior-eq-tail : (rows : List Event) → prior_hash (last_row rows) ≡ tail_hash [] rows
  unfolding last_row
  prior-eq-tail [] = refl
  prior-eq-tail (r ∷ rows) = prior_hash-last_row [] rows r

  -- The row that the trigger completes follows the rows of its agent.
  record Follows (e : NewEvent) (rows : List Event) (now : ℕ) (row : Event) : Type 0 where
    agent : row.agent_id ≡ e.agent_id
    time : row.created_at ≡ bump_time (last_row rows) now
    prev : row.prev_hash ≡ tail_hash [] rows
    entry : row.entry_hash ≡ compute_entry_hash h (tail_hash [] rows) (row_payload h e.agent_id row)

  new_row-Follows :
      (e : NewEvent) (id now : ℕ) (rows : List Event)
      → let prior = last_row rows in
        Follows e rows now (
          new_row h e id
            (bump_time prior now)
            (prior_hash prior)
            (prev_bytes h (tail_hash [] rows)))
  unfolding new_row compute_entry_hash row_payload
  new_row-Follows e id now rows = record {
    agent = refl;
    time = refl;
    prev = prior-eq-tail rows;
    entry =
        ap (λ z. h.hex_encode (h.sha256 (prev_bytes h (tail_hash [] rows) ++ z)))
          (events_chain_canonical_payload-eq h e (bump_time (last_row rows) now));
  }

  complete_row-Follows :
      (e : NewEvent) (id now : ℕ) (rows : List Event)
      → Linked h e.agent_id [] rows
      → (row : Event) × (complete_row h e id now (last_row rows) ≡ some row)
        × Follows e rows now row
  unfolding complete_row
  complete_row-Follows e id now rows l =
      let prior = last_row rows in
      let prev = tail_hash [] rows in
      let d : h.hex_decode (prior_hash prior) ≡ some (prev_bytes h prev) =
        ap h.hex_decode (prior-eq-tail rows) ∙ Decodes-tail e.agent_id [] rows Decodes-nil l in
      (
        new_row h e id (bump_time prior now) (prior_hash prior) (prev_bytes h prev),
        rw (d, complete_row),
        new_row-Follows e id now rows,
      )

  extended :
      (a : ℕ) (e : NewEvent) (now : ℕ) (table : List Event) (row : Event)
      → IsChained a table
      → Follows e (own e.agent_id table) now row
      → IsChained a (table ++ row ∷ [])
  extended a e now table row c f = elim (Bool-cases (row.agent_id == a)) [
    | inl same ↦
        let here : row.agent_id ≡ a = ==→≡ _ _ same in
        let ours : e.agent_id ≡ a = sym f.agent ∙ here in
        let rows = own-snoc a table row here in
        let step = subst (λ (z : ℕ). Follows e (own z table) now row) ours f in
        record {
          times =
              subst Ascending (sym rows) (Ascending-snoc (own a table) row now c.times step.time);
          links = subst (Linked h a []) (sym rows) (
              Linked-snoc a [] (own a table) row c.links step.prev (
                subst
                  (λ z.
                    row.entry_hash
                    ≡ compute_entry_hash h (tail_hash [] (own a table)) (row_payload h z row))
                  ours step.entry));
        }
    | inr other ↦
        let rows = own-snoc_other a table row other in
        record {
          times = subst Ascending (sym rows) c.times;
          links = subst (Linked h a []) (sym rows) c.links;
        }
  ]

  -- A new row for an agent with a verified chain is accepted, goes to the end of that chain and
  -- leaves every agent's chain verified.
  pub insert_event-IsChained :
      (e : NewEvent) (id now : ℕ) (table : List Event)
      → ((a : ℕ) → IsChained a table)
      → (row : Event) × (insert_event h e id now table ≡ some (row, table ++ row ∷ []))
        × (own e.agent_id (table ++ row ∷ []) ≡ own e.agent_id table ++ row ∷ [])
        × ((a : ℕ) → IsChained a (table ++ row ∷ []))
  unfolding insert_event
  insert_event-IsChained e id now table c =
      let rows = own e.agent_id table in
      let sorted = rows_of-IsChained e.agent_id table (c e.agent_id) in
      let (row, done, f) = complete_row-Follows e id now rows (c e.agent_id).links in
      let same = ap (λ z. complete_row h e id now (last_row z)) sorted ∙ done in
      (
        row,
        rw (same, insert_event),
        own-snoc e.agent_id table row f.agent,
        λ a. extended a e now table row (c a) f,
      )

  -- Where the rows of every agent have ascending times and are linked, an INSERT through the
  -- trigger succeeds, the verifier accepts the agent's chain with one row more and the new
  -- row's hash as the last, and the rows of every agent have ascending times and are linked
  -- again.
  pub verify-insert_event :
      (e : NewEvent) (id now : ℕ) (table : List Event)
      → ((a : ℕ) → IsChained a table)
      → (row : Event) × (later : List Event) × (insert_event h e id now table ≡ some (row, later))
        × (verify_audit_chain h later e.agent_id
            ≡ verified (length (own e.agent_id table) + 1) row.entry_hash)
        × ((a : ℕ) → IsChained a later)
  verify-insert_event e id now table c =
      let (row, done, rows, all) = insert_event-IsChained e id now table c in
      let later = table ++ row ∷ [] in
      let sorted = rows_of-IsChained e.agent_id later (all e.agent_id) ∙ rows in
      let one_more : length (own e.agent_id table ++ row ∷ []) ≡ length (own e.agent_id table) + 1 =
        omega (arith, length-append (own e.agent_id table) (row ∷ [])) in
      (
        row,
        later,
        done,
        (verify_audit_chain_iff h e.agent_id later).1 (
              subst (Linked h e.agent_id [])
                (sym (rows_of-IsChained e.agent_id later (all e.agent_id))) (all e.agent_id).links)
            ∙ ap (λ z. verified (length z) (tail_hash [] z)) sorted
            ∙ λ i. verified (one_more i) (tail_hash-snoc [] (own e.agent_id table) row i),
        all,
      )
