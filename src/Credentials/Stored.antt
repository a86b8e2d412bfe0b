-- ===== src/Credentials/Stored.antt =====
-- What is found after a credential was stored, and after it was revoked.
use open_pincery.Prelude.{
  ℕ, ◌≡◌, refl, ◌∙◌, ap, sym, String, true, Option, none, some, List, is_some, ◌==◌, Bool-cases,
  arith, inl, inr, ==ˢ_refl,
}
use open_pincery.Db.{Credential, World, answered, pure, ◌>>=◌}
use open_pincery.Db.Triple.{
  Triple, Post, Triple-pure, Triple-or_raise, Triple-bind, Triple-statement,
}
use open_pincery.Env.{Env}
use open_pincery.Tools.{is_active, find_named}
use open_pincery.Tools.Shell.{find_active}
use open_pincery.Credentials.{
  is_storable, insert_named, set_rows, insert_credential, revoke_rows, Seal, create, revoke,
}
use open_pincery.Credentials.Rows.{find_named-revoke_rows, find_named-insert_named}

module _ (env : Env) (membership : ℕ → ℕ → Option String) (seal : ℕ → String → List ℕ → Seal)
    (ws_id : ℕ) (name : String) where
  abbrev Named : Option Credential → World → Type 0
  Named o w = find_named name (w.credentials ws_id) ≡ o

  -- The row of a workspace after its rows were replaced.
  here-Named :
      (rows : List Credential) (w : World) (o : Option Credential)
      → find_named name rows ≡ o
      → Named o (set_rows ws_id rows w)
  here-Named rows w o h = rw (ws_refl) h
    where
      ws_refl : ws_id == ws_id ≡ true
      ws_refl = ground arith

  find-Named :
      (o : Option Credential)
      → Triple (Named o) (find_active env ws_id name) (λ found w. found ≡ o) (λ w. Unit)
  unfolding find_active
  find-Named o = Triple-statement env.fault _ (λ w h. tt) (λ w h. h)

  create-Named :
      (ciphertext nonce : List ℕ) (created_by : ℕ)
      → Triple
          (λ w. Unit)
          (create env membership seal ws_id name ciphertext nonce created_by)
          (λ row. Named (some row))
          (λ w. Unit)
  unfolding create
  create-Named ciphertext nonce created_by =
      Triple-bind {Q = λ o w. (row : Credential) → o ≡ some row → Named (some row) w}
        (Triple-statement env.fault _ (λ w h. tt)
          λ w h.
            inserts w
              (record {
                name = name;
                ciphertext = ciphertext;
                nonce = nonce;
                created_by = created_by;
                created_at = env.now w.tick;
                revoked_at = none;
              })
              refl refl)
        λ o. Triple-or_raise o _ (λ w h lost. tt) (λ row w h got. h row got)
    where
      inserts :
          (w : World) (row : Credential)
          → row.name ≡ name
          → is_active row ≡ true
          → Post
              (λ o w'. (r : Credential) → o ≡ some r → Named (some r) w')
              (λ w'. Unit)
              (answered (insert_credential ws_id row w) w)
      inserts w row same active = elim (Bool-cases (is_storable row)) [
        | inr refused_row ↦ rw refused_row tt
        | inl ok_row ↦ elim (Bool-cases (is_some (find_named row.name (w.credentials ws_id)))) [
          | inl there ↦ rw (ok_row, there) (λ r h. absurd (cc))
          | inr absent ↦
              rw (ok_row, absent)
                (λ r h. here-Named (insert_named row (w.credentials ws_id)) w (some r) (
                  ap (λ n. find_named n (insert_named row (w.credentials ws_id))) (sym same)
                  ∙ (find_named-insert_named row (w.credentials ws_id) active absent
                        (==ˢ_refl row.name)
                      ∙ h)))
        ]
      ]

  revoke-Named :
      Triple (λ w. Unit) (revoke env membership seal ws_id name) (λ done. Named none) (λ w. Unit)
  unfolding revoke
  revoke-Named =
      Triple-statement env.fault _ (λ w h. tt)
        λ w h.
          here-Named (revoke_rows (env.now w.tick) name (w.credentials ws_id)) w none
            (find_named-revoke_rows name (env.now w.tick) (w.credentials ws_id))

  -- A credential that was created is the one that is found under its name in its workspace, and
  -- after a revocation of the name none is found, where the statements go through.
  pub create-revoke-find_active :
      (ciphertext nonce : List ℕ) (created_by : ℕ)
      → Triple {A = Credential × Option Credential}
          (λ w. Unit)
          (create env membership seal ws_id name ciphertext nonce created_by >>= λ row.
            find_active env ws_id name >>= λ found. pure (row, found))
          (λ p w. p.1 ≡ some p.0)
          (λ w. Unit)
        × Triple
            (λ w. Unit)
            (revoke env membership seal ws_id name >>= λ done. find_active env ws_id name)
            (λ found w. found ≡ none)
            (λ w. Unit)
  create-revoke-find_active ciphertext nonce created_by = (
    Triple-bind (create-Named ciphertext nonce created_by)
        λ row. Triple-bind (find-Named (some row)) λ found. Triple-pure (row, found) λ w h. h,
    Triple-bind revoke-Named λ done. find-Named none,
  )
