-- ===== src/Chain/Pins.antt =====
-- The count and the last hash of a verified chain pin its whole history.
use open_pincery.Prelude.{
  ℕ, ◌≡◌, ◌≢◌, refl, sym, ◌∙◌, ◌⊎◌, inl, inr, true, List, [], ◌∷◌, ◌++◌, arith, length, ap,
  Bool-cases, subst,
}
use open_pincery.Bytes.{eq_bytes}
use open_pincery.Bytes.Injective.{eq_bytes→≡, eq_bytes_refl}
use open_pincery.Chain.{
  Hashing, Event, verified, compute_entry_hash, prev_bytes, rows_of, verify_audit_chain,
}
use open_pincery.Chain.Walk.{Linked, tail_hash, Explains, verify_audit_chain-Explains}
use open_pincery.Chain.Fields.{IsStorable, SameContents, row_payload-injective, append_cancel}

abbrev pub AllRows {ℓ} : (Event → Type ℓ) → List Event → Type ℓ
AllRows P [] = Unit
AllRows P (r ∷ rows) = P r × AllRows P rows

module _ (h : Hashing) where
  -- Two inputs that SHA-256 does not tell apart.
  pub record Collision : Type 0 where
    pub left : List ℕ
    pub right : List ℕ
    pub differ : left ≢ right
    pub collide : h.sha256 left ≡ h.sha256 right

  sha256-equal :
      (a b : List ℕ) → h.hex_encode (h.sha256 a) ≡ h.hex_encode (h.sha256 b) → Collision ⊎ (a ≡ b)
  sha256-equal a b e =
      let same : h.sha256 a ≡ h.sha256 b =
        cc (h.hex_decode-hex_encode (h.sha256 a), h.hex_decode-hex_encode (h.sha256 b)) in
      elim (Bool-cases (eq_bytes a b)) [
        | inl y ↦ inr (eq_bytes→≡ a b y)
        | inr n ↦ inl (record {
          left = a;
          right = b;
          differ = λ p. cc (subst (λ z. eq_bytes a z ≡ true) p (eq_bytes_refl a));
          collide = same;
        })
      ]

  -- Both hashes of predecessors are empty, or both are digests.
  abbrev SameKind : List ℕ → List ℕ → Type 0
  SameKind p q =
      ((p ≡ []) × (q ≡ []))
      ⊎ ((x : List ℕ) × (y : List ℕ) × (p ≡ h.hex_encode (h.sha256 x))
          × (q ≡ h.hex_encode (h.sha256 y)))

  prev_bytes-digest : (x p : List ℕ) → p ≡ h.hex_encode (h.sha256 x) → prev_bytes h p ≡ h.sha256 x
  unfolding prev_bytes
  prev_bytes-digest x [] e =
      let gone : h.sha256 x ≡ [] =
        cc (h.hex_decode-hex_encode (h.sha256 x), h.hex_decode-hex_encode [], h.hex_encode-nil) in
      absurd (omega (arith, h.length-sha256 x, ap length gone))
  prev_bytes-digest x (c ∷ cs) e =
      rw (ap h.hex_decode e ∙ h.hex_decode-hex_encode (h.sha256 x), prev_bytes)

  -- Predecessors of one kind that are followed by equal pre-images are equal, and so are the payloads.
  prev_bytes_split :
      (p q us vs : List ℕ)
      → SameKind p q
      → prev_bytes h p ++ us ≡ prev_bytes h q ++ vs
      → (p ≡ q) × (us ≡ vs)
  prev_bytes_split p q us vs (inl (a, b)) e =
      let nil : prev_bytes h [] ≡ [] = unfold prev_bytes in refl in
      let split =
        append_cancel (prev_bytes h p) (prev_bytes h q) us vs
          (ap length (ap (prev_bytes h) a ∙ ap (prev_bytes h) (sym b))) e in
      (a ∙ sym b, split.1)
  prev_bytes_split p q us vs (inr (x, y, a, b)) e =
      let dp = prev_bytes-digest x p a in
      let dq = prev_bytes-digest y q b in
      let split =
        append_cancel (prev_bytes h p) (prev_bytes h q) us vs
          (ap length dp ∙ h.length-sha256 x ∙ sym (h.length-sha256 y) ∙ sym (ap length dq)) e in
      (a ∙ ap h.hex_encode (sym dp ∙ split.0 ∙ dq) ∙ sym b, split.1)

  module _ (agent_id : ℕ) where
    -- Row by row the same contents.
    abbrev pub SameHistory : List Event → List Event → Type 0
    SameHistory [] [] = Unit {0}
    SameHistory [] (s ∷ ss) = ⊥
    SameHistory (r ∷ rs) [] = ⊥
    SameHistory (r ∷ rs) (s ∷ ss) = SameContents h agent_id r s × SameHistory rs ss

    Linked-pinned :
        (p q : List ℕ) (rs ss : List Event)
        → SameKind p q
        → Linked h agent_id p rs
        → Linked h agent_id q ss
        → AllRows (IsStorable h agent_id) rs
        → AllRows (IsStorable h agent_id) ss
        → length rs ≡ length ss
        → tail_hash p rs ≡ tail_hash q ss
        → Collision ⊎ ((p ≡ q) × SameHistory rs ss)
    unfolding compute_entry_hash
    Linked-pinned p q [] [] k lr ls fr fs n t = inr (t, tt)
    Linked-pinned p q [] (s ∷ ss) k lr ls fr fs n t = absurd (omega arith)
    Linked-pinned p q (r ∷ rs) [] k lr ls fr fs n t = absurd (omega arith)
    Linked-pinned p q (r ∷ rs) (s ∷ ss) k (_, er, lr) (_, es, ls) (hr, fr) (hs, fs) n t =
        elim (Linked-pinned r.entry_hash s.entry_hash rs ss (inr (_, _, er, es)) lr ls fr fs
          (omega arith) t) [
            | inl c ↦ inl c
            | inr (e, rest) ↦ elim (sha256-equal _ _ (sym er ∙ e ∙ es)) [
              | inl c ↦ inl c
              | inr pre ↦
                  let split = prev_bytes_split p q _ _ k pre in
                  inr (split.0, (row_payload-injective h agent_id r s hr hs split.1, rest))
            ]
          ]

    -- Two event tables whose chains for an agent verify with the same count and the same last
    -- hash hold the same history of that agent, or a SHA-256 collision is at hand, where every
    -- text of the rows is below 4 GiB and every time below `2 ^ 63`.
    pub verified_pins_history :
        (table other : List Event) (n : ℕ) (last : List ℕ)
        → AllRows (IsStorable h agent_id) (rows_of agent_id table)
        → AllRows (IsStorable h agent_id) (rows_of agent_id other)
        → verify_audit_chain h table agent_id ≡ verified n last
        → verify_audit_chain h other agent_id ≡ verified n last
        → Collision ⊎ SameHistory (rows_of agent_id table) (rows_of agent_id other)
    verified_pins_history table other n last ft fo vt vo =
        let et =
          subst (Explains h agent_id [] 0 (rows_of agent_id table)) vt
            (verify_audit_chain-Explains h agent_id table) in
        let eo =
          subst (Explains h agent_id [] 0 (rows_of agent_id other)) vo
            (verify_audit_chain-Explains h agent_id other) in
        elim (Linked-pinned [] [] _ _ (inl (refl, refl)) et.0 eo.0 ft fo (omega (arith, et.1, eo.1))
          (sym et.2 ∙ eo.2)) [ inl c ↦ inl c | inr same ↦ inr same.1 ]
