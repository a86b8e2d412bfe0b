-- ===== src/Chain/Walk.antt =====
-- What the loop of `verify_audit_chain` decides: `Linked` rows, or the first row that is not.
use open_pincery.Prelude.{
  ℕ, ◌+◌, ◌≡◌, ◌≢◌, refl, sym, ◌∙◌, ◌⊎◌, ◌↔◌, inl, inr, true, false, List, [], ◌∷◌, ◌++◌, arith,
  length, Bool-cases, ap, subst,
}
use open_pincery.Bytes.{eq_bytes}
use open_pincery.Bytes.Injective.{eq_bytes→≡, eq_bytes_refl}
use open_pincery.Chain.{
  Hashing, Event, ChainStatus, verified, broken, compute_entry_hash, row_payload, walk, rows_of,
  verify_audit_chain,
}

-- The hash that the next row must name.
abbrev pub tail_hash : List ℕ → List Event → List ℕ
tail_hash prev [] = prev
tail_hash prev (r ∷ rows) = tail_hash r.entry_hash rows

module _ (h : Hashing) (agent_id : ℕ) where
  -- Every row names its predecessor's hash and stores its own.
  abbrev pub Linked : List ℕ → List Event → Type 0
  Linked prev [] = Unit {0}
  Linked prev (r ∷ rows) =
      (r.prev_hash ≡ prev)
      × (r.entry_hash ≡ compute_entry_hash h prev (row_payload h agent_id r))
      × Linked r.entry_hash rows

  -- How the row fails: by the hash of its predecessor, else by its own.
  abbrev pub Diverges : List ℕ → Event → List ℕ → List ℕ → Type 0
  Diverges prev r expected actual =
      ((expected ≡ prev) × (actual ≡ r.prev_hash) × (r.prev_hash ≢ prev))
      ⊎ ((r.prev_hash ≡ prev)
          × (expected ≡ compute_entry_hash h prev (row_payload h agent_id r))
          × (actual ≡ r.entry_hash)
          × (r.entry_hash ≢ compute_entry_hash h prev (row_payload h agent_id r)))

  -- What a result says of the rows that were walked.
  abbrev pub Explains : List ℕ → ℕ → List Event → ChainStatus → Type 0
  Explains prev walked rows (verified n last) =
      Linked prev rows × (n ≡ walked + length rows) × (last ≡ tail_hash prev rows)
  Explains prev walked rows (broken id expected actual n) =
      (good : List Event) × (r : Event) × (rest : List Event) × (rows ≡ good ++ r ∷ rest)
      × Linked prev good
      × (n ≡ walked + length good)
      × (id ≡ r.id)
      × Diverges (tail_hash prev good) r expected actual

  Explains-cons :
      (prev : List ℕ) (walked : ℕ) (r : Event) (rows : List Event) (s : ChainStatus)
      → r.prev_hash ≡ prev
      → r.entry_hash ≡ compute_entry_hash h prev (row_payload h agent_id r)
      → Explains r.entry_hash (walked + 1) rows s
      → Explains prev walked (r ∷ rows) s
  Explains-cons prev walked r rows (verified n last) p e x = ((p, e, x.0), omega arith, x.2)
  Explains-cons prev walked r rows (broken id expected actual n) p e x =
      (r ∷ x.0, x.1, x.2, ap (◌∷◌ r) x.3, (p, e, x.4), omega arith, x.6, x.7)

  eq_bytes-false : (xs ys : List ℕ) → eq_bytes xs ys ≡ false → xs ≢ ys
  eq_bytes-false xs ys e p = cc (subst (λ z. eq_bytes xs z ≡ true) p (eq_bytes_refl xs))

  eq_bytes-true : (xs ys : List ℕ) → xs ≡ ys → eq_bytes xs ys ≡ true
  eq_bytes-true xs ys p = subst (λ z. eq_bytes xs z ≡ true) p (eq_bytes_refl xs)

  walk-Explains :
      (prev last : List ℕ) (walked : ℕ) (rows : List Event)
      → last ≡ prev
      → Explains prev walked rows (walk h agent_id prev last walked rows)
  unfolding walk
  walk-Explains prev last walked [] e = (tt, omega arith, e)
  walk-Explains prev last walked (r ∷ rows) e = elim (Bool-cases (eq_bytes r.prev_hash prev)) [
    | inr bad ↦
        rw bad ([], r, rows, refl, tt, omega arith, refl, inl (refl, refl, eq_bytes-false _ _ bad))
    | inl good ↦
        let p : r.prev_hash ≡ prev = eq_bytes→≡ r.prev_hash prev good in
        let x = ap (λ z. compute_entry_hash h z (row_payload h agent_id r)) p in
        elim (Bool-cases
          (eq_bytes (compute_entry_hash h r.prev_hash (row_payload h agent_id r)) r.entry_hash)) [
            | inr bad ↦
                rw (good, bad)
                  (
                    [],
                    r,
                    rows,
                    refl,
                    tt,
                    omega arith,
                    refl,
                    inr (p, x, refl, λ q. eq_bytes-false _ _ bad (x ∙ sym q)),
                  )
            | inl same ↦
                rw (good, same)
                  (Explains-cons prev walked r rows _ p (sym (eq_bytes→≡ _ _ same) ∙ x)
                    (walk-Explains r.entry_hash r.entry_hash (walked + 1) rows refl))
          ]
  ]

  -- Linked rows are walked to the end.
  pub walk-Linked :
      (prev last : List ℕ) (walked : ℕ) (rows : List Event)
      → last ≡ prev
      → Linked prev rows
      → walk h agent_id prev last walked rows
        ≡ verified (walked + length rows) (tail_hash prev rows)
  unfolding walk
  walk-Linked prev last walked [] e l = ground arith
  walk-Linked prev last walked (r ∷ rows) e (p, q, l) =
      let own = ap (λ z. compute_entry_hash h z (row_payload h agent_id r)) p ∙ sym q in
      rw (eq_bytes-true _ _ p, eq_bytes-true _ _ own)
        (walk-Linked r.entry_hash r.entry_hash (walked + 1) rows refl l
          ∙ ap (λ n. verified n (tail_hash r.entry_hash rows)) (omega arith))

  -- The verdict on the rows of an agent: `Verified` counts them all, is reached only when they are
  -- linked from the empty hash, and carries the last hash; `Broken` names the first row that does
  -- not follow, with the rows before it linked and counted, and the two hashes that differ.
  pub verify_audit_chain-Explains :
      (table : List Event)
      → Explains [] 0 (rows_of agent_id table) (verify_audit_chain h table agent_id)
  unfolding verify_audit_chain
  verify_audit_chain-Explains table = walk-Explains [] [] 0 (rows_of agent_id table) refl

  -- The verifier accepts the rows of an agent, with their number and their last hash, exactly where
  -- they are linked: each has the hash of its predecessor, and the hash that its payload gives.
  pub verify_audit_chain_iff :
      (table : List Event)
      → (verify_audit_chain h table agent_id
          ≡ verified (length (rows_of agent_id table)) (tail_hash [] (rows_of agent_id table)))
        ↔ Linked [] (rows_of agent_id table)
  unfolding verify_audit_chain
  verify_audit_chain_iff table = (
    λ e.
        (subst (Explains [] 0 (rows_of agent_id table)) e
          (walk-Explains [] [] 0 (rows_of agent_id table) refl)).0,
    λ l.
        walk-Linked [] [] 0 (rows_of agent_id table) refl l
        ∙ ap (λ n. verified n (tail_hash [] (rows_of agent_id table))) (omega arith),
  )
