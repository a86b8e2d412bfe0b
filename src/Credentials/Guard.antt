-- ===== src/Credentials/Guard.antt =====
-- Who changes the rows of the vault, and what stays true of them.
use open_pincery.Prelude.{
  ℕ, ◌≤◌, ◌≡◌, ◌≢◌, ==ˢ→≡, refl, ◌∙◌, sym, subst, ◌⊎◌, inl, inr, String, Bool, true, false, ◌&&◌,
  not, Option, none, List, is_some, if◌then◌else◌, ◌==◌, ==→≡, ◌==ˢ◌, Bool-cases, arith, leb,
  length,
}
use open_pincery.Bytes.{utf8}
use open_pincery.Db.{Credential, World, answered}
use open_pincery.Db.Triple.{
  Triple, Post, Triple-pure, Triple-raise, Triple-or_raise, Triple-if, Triple-weaken, Triple-bind,
  Triple-attempt, Triple-statement,
}
use open_pincery.Env.{Env}
use open_pincery.Tools.{find_named}
use open_pincery.Tools.Dispatch.{list_active}
use open_pincery.Credentials.{
  every, is_name_byte, validate_name, validate_value_bytes, is_storable, insert_named, set_rows,
  insert_credential, revoke_rows, count_active, is_admin_role, AuthUser, Seal, sealed, unsealed,
  create, revoke, is_workspace_admin, append_audit, require_workspace_admin, stored, create_handler,
  list_handler, revoke_handler,
}
use open_pincery.Credentials.Rows.{
  count_active-insert_named, count_active-find_named, count_active-revoke_rows,
}

-- At most one active row for a name of a workspace.
abbrev pub OneActive : World → Type 0
OneActive w = (j : ℕ) (name : String) → count_active name (w.credentials j) ≤ 1

-- The rows of one workspace are replaced by rows with at most one active row for a name.
set_rows-OneActive :
    (workspace_id : ℕ) (rows : List Credential) (w : World)
    → OneActive w
    → ((name : String) → count_active name rows ≤ 1)
    → OneActive (set_rows workspace_id rows w)
set_rows-OneActive workspace_id rows w one fine j name = elim (Bool-cases (j == workspace_id)) [
  | inl here ↦ rw here (fine name)
  | inr there ↦ rw there (one j name)
]

inserted-le :
    (row : Credential) (rows : List Credential) (name : String)
    → count_active name rows ≤ 1
    → is_some (find_named row.name rows) ≡ false
    → count_active name (insert_named row rows) ≤ 1
inserted-le row rows name le absent = elim (Bool-cases (row.name ==ˢ name)) [
  | inl same ↦
      let none_active = count_active-find_named row.name rows absent in
      let e = ==ˢ→≡ row.name name same in
      let zero_here = subst (λ n. count_active n rows ≡ 0) e none_active in
      ground (arith, count_active-insert_named name row rows, zero_here)
  | inr other ↦ rw (count_active-insert_named name row rows) (rw other (omega (arith, le)))
]

module _ (env : Env) (membership : ℕ → ℕ → Option String) (seal : ℕ → String → List ℕ → Seal)
    (auth : AuthUser) (ws_id : ℕ) (base : World) where
  -- The request is for the caller's own workspace, and the caller administers it.
  abbrev pub Admin : Type 0
  Admin = (ws_id ≡ auth.workspace_id) × (is_admin_role (membership ws_id auth.user_id) ≡ true)

  abbrev pub Before : World → Type 0
  Before w = OneActive w × (w.credentials ≡ base.credentials)

  abbrev pub Held : World → Type 0
  Held w =
      OneActive w
      × ((w.credentials ≡ base.credentials)
          ⊎ (Admin × ((j : ℕ) → j ≢ ws_id → w.credentials j ≡ base.credentials j)))

  Before-Held : (w : World) → Before w → Held w
  Before-Held w b = (b.0, inl b.1)

  validate_name-Before : (name : String) → Triple Before (validate_name name) (λ u. Before) Held
  unfolding validate_name
  validate_name-Before name =
      Triple-if (not (leb 1 (length (utf8 name)) && leb (length (utf8 name)) 64))
        (λ h. Triple-raise _ Before-Held)
        λ h.
          Triple-if (not (every is_name_byte (utf8 name))) (λ h. Triple-raise _ Before-Held)
            λ h. Triple-pure tt λ w b. b

  validate_value-Before :
      (value : List ℕ) → Triple Before (validate_value_bytes value) (λ u. Before) Held
  unfolding validate_value_bytes
  validate_value-Before value =
      Triple-if (not (leb 1 (length value) && leb (length value) 8192))
        (λ h. Triple-raise _ Before-Held) λ h. Triple-pure tt λ w b. b

  audit-Held :
      (event_type name : String)
      → Triple Held
          (append_audit env membership seal ws_id auth.user_id event_type name)
          (λ u. Held)
          Held
  unfolding append_audit
  audit-Held event_type name = Triple-statement env.fault _ (λ w h. h) (λ w h. h)

  require-Admin :
      (intent : String)
      → Triple Before
          (require_workspace_admin env membership seal auth ws_id intent)
          (λ u w. Before w × Admin)
          Held
  unfolding require_workspace_admin is_workspace_admin
  require-Admin intent =
      Triple-if (not (ws_id == auth.workspace_id)) (λ h. Triple-raise _ Before-Held)
        λ own.
          Triple-bind
            {Q = λ admin w. Before w × (admin ≡ is_admin_role (membership ws_id auth.user_id))}
            (Triple-statement env.fault _ Before-Held (λ w b. (b, refl)))
            λ admin.
              Triple-if (not admin)
                (λ outside.
                  Triple-bind {Q = λ o. Held}
                    (Triple-attempt (
                      Triple-weaken (audit-Held "credential_forbidden" intent)
                        (λ w b. Before-Held w b.0) (λ u w h. h)))
                    λ o. Triple-raise _ (λ w h. h))
                λ inside.
                  Triple-pure tt λ w b. (b.0, (own-ws own, sym b.1 ∙ admin-true admin inside))
    where
      own-ws : not (ws_id == auth.workspace_id) ≡ false → ws_id ≡ auth.workspace_id
      own-ws h = ground arith

      admin-true : (b : Bool) → not b ≡ false → b ≡ true
      admin-true b h = ground arith

  -- Replacing the rows of the caller's own workspace.
  set_rows-Held :
      (w : World) (rows : List Credential)
      → Before w
      → Admin
      → ((name : String) → count_active name rows ≤ 1)
      → Held (set_rows ws_id rows w)
  set_rows-Held w rows b admin fine = (
    set_rows-OneActive ws_id rows w b.0 fine,
    inr (admin, λ j other. elsewhere j other (j == ws_id) refl ∙ (λ i. b.1 i j)),
  )
    where
      elsewhere :
          (j : ℕ)
          → j ≢ ws_id
          → (t : Bool) → (j == ws_id) ≡ t
          → (if j == ws_id then rows else w.credentials j) ≡ w.credentials j
      elsewhere j other true e = absurd (other (==→≡ j ws_id e))
      elsewhere j other false e = rw e refl

  create-Held :
      (name : String) (ciphertext nonce : List ℕ)
      → Triple
          (λ w. Before w × Admin)
          (create env membership seal ws_id name ciphertext nonce auth.user_id)
          (λ row. Held)
          Held
  unfolding create
  create-Held name ciphertext nonce =
      Triple-bind {Q = λ row. Held}
        (Triple-statement env.fault _ (λ w b. Before-Held w b.0)
          λ w b. inserts w b (record {
            name = name;
            ciphertext = ciphertext;
            nonce = nonce;
            created_by = auth.user_id;
            created_at = env.now w.tick;
            revoked_at = none;
          }))
        λ row. Triple-or_raise row _ (λ w h lost. h) (λ r w h got. h)
    where
      inserts :
          (w : World)
          → Before w × Admin
          → (row : Credential) → Post (λ o. Held) Held (answered (insert_credential ws_id row w) w)
      inserts w b row = elim (Bool-cases (is_storable row)) [
        | inr refused_row ↦ rw refused_row (Before-Held w b.0)
        | inl ok_row ↦ elim (Bool-cases (is_some (find_named row.name (w.credentials ws_id)))) [
          | inl there ↦ rw (ok_row, there) (Before-Held w b.0)
          | inr absent ↦
              rw (ok_row, absent)
                (set_rows-Held w (insert_named row (w.credentials ws_id)) b.0 b.1
                  λ n. inserted-le row (w.credentials ws_id) n (b.0.0 ws_id n) absent)
        ]
      ]

  revoke-Held :
      (name : String)
      → Triple (λ w. Before w × Admin) (revoke env membership seal ws_id name) (λ done. Held) Held
  unfolding revoke
  revoke-Held name =
      Triple-statement env.fault _ (λ w b. Before-Held w b.0)
        λ w b.
          set_rows-Held w (revoke_rows (env.now w.tick) name (w.credentials ws_id)) b.0 b.1 λ n.
            omega (
              arith,
              count_active-revoke_rows n name (env.now w.tick) (w.credentials ws_id),
              b.0.0 ws_id n,
            )

  list-Held : Triple Held (list_active env ws_id) (λ rows. Held) Held
  unfolding list_active
  list-Held = Triple-statement env.fault _ (λ w h. h) (λ w h. h)

  create_handler-Held :
      (name value : String)
      → Triple Before (create_handler env membership seal auth ws_id name value) (λ row. Held) Held
  unfolding create_handler
  create_handler-Held name value = Triple-bind (validate_name-Before name) λ u.
      Triple-bind (validate_value-Before (utf8 value)) λ u. Triple-bind (require-Admin name) λ u.
        Triple-bind (stored-Held (seal ws_id name (utf8 value)))
          λ row. Triple-bind (audit-Held "credential_added" name) λ u. Triple-pure row λ w h. h
    where
      stored-Held :
          (s : Seal)
          → Triple
              (λ w. Before w × Admin)
              (stored env membership seal auth ws_id name s)
              (λ row. Held)
              Held
      stored-Held (sealed ciphertext nonce) = create-Held name ciphertext nonce
      stored-Held (unsealed e) = Triple-raise _ λ w b. Before-Held w b.0

  list_handler-Held :
      Triple Before (list_handler env membership seal auth ws_id) (λ rows. Held) Held
  unfolding list_handler
  list_handler-Held =
      Triple-bind (require-Admin "list")
        λ u. Triple-weaken list-Held (λ w b. Before-Held w b.0) (λ rows w h. h)

  revoke_handler-Held :
      (name : String)
      → Triple Before (revoke_handler env membership seal auth ws_id name) (λ u. Held) Held
  unfolding revoke_handler
  revoke_handler-Held name = Triple-bind (validate_name-Before name) λ u.
      Triple-bind (require-Admin name) λ u. Triple-bind (revoke-Held name) λ done.
        Triple-if (not done) (λ none_there. Triple-raise _ λ w h. h)
          λ there. audit-Held "credential_revoked" name

  -- The three requests: from rows with at most one active row for each name of each workspace,
  -- every request leaves such rows, whether it succeeds or fails; it changes no row at all, or the
  -- caller administers the workspace of the request, which is the caller's own, and no row of
  -- another workspace is changed.
  pub handlers-Held :
      (name value : String)
      → Triple
          (λ w. OneActive w × (w.credentials ≡ base.credentials))
          (create_handler env membership seal auth ws_id name value)
          (λ row. Held)
          Held
        × Triple
            (λ w. OneActive w × (w.credentials ≡ base.credentials))
            (list_handler env membership seal auth ws_id)
            (λ rows. Held)
            Held
        × Triple
            (λ w. OneActive w × (w.credentials ≡ base.credentials))
            (revoke_handler env membership seal auth ws_id name)
            (λ u. Held)
            Held
  handlers-Held name value =
      (create_handler-Held name value, list_handler-Held, revoke_handler-Held name)
