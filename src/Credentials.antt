-- ===== src/Credentials.antt =====
-- src/models/credential.rs and the handlers of src/api/credentials.rs. The vault's cipher and the
-- memberships, which no handler here changes, are parameters.
pub mod Rows
pub mod Guard
pub mod Stored
use open_pincery.Prelude.{
  ℕ, ◌+◌, String, Bool, true, false, ◌&&◌, ◌||◌, not, Option, none, some, List, [], ◌∷◌, is_some,
  if◌then◌else◌, ltb, leb, length, ◌==◌, ◌==ˢ◌, ◌++ˢ◌,
}
use open_pincery.Bytes.{utf8}
use open_pincery.Db.{
  Credential, AuthAudit, not_found, conflict, forbidden, bad_request, internal, World, M, Answer,
  fails, gives, statement, attempt, raise, or_raise, pure, ◌>>=◌, ◌>>◌,
}
use open_pincery.Env.{Env}
use open_pincery.Shape.{text_lt}
use open_pincery.Tools.{is_active, find_named}
use open_pincery.Tools.Dispatch.{list_active}

unfoldable pub every : (ℕ → Bool) → List ℕ → Bool
every ok [] = true
every ok (b ∷ bs) = ok b && every ok bs

abbrev pub is_name_byte : ℕ → Bool
is_name_byte b = (leb 97 b && leb b 122) || ((leb 48 b && leb b 57) || (b == 95))

unfoldable pub validate_name : String → M (Unit {0})
unfolding every
validate_name name =
    if not (leb 1 (length (utf8 name)) && leb (length (utf8 name)) 64)
    then raise (bad_request "credential name must be 1..=64 bytes")
    else if not (every is_name_byte (utf8 name))
    then raise (bad_request "credential name must match [a-z0-9_]+")
    else pure tt

unfoldable pub validate_value_bytes : List ℕ → M (Unit {0})
validate_value_bytes value =
    if not (leb 1 (length value) && leb (length value) 8192)
    then raise (bad_request "credential value must be 1..=8192 bytes")
    else pure tt

-- The CHECK constraints of the table.
unfoldable pub is_storable : Credential → Bool
unfolding every
is_storable row =
    (length row.nonce == 12)
    && (leb 16 (length row.ciphertext)
        && (leb 1 (length (utf8 row.name))
            && (leb (length (utf8 row.name)) 64 && every is_name_byte (utf8 row.name))))

-- `ORDER BY name ASC`
unfoldable pub insert_named : Credential → List Credential → List Credential
insert_named row [] = row ∷ []
insert_named row (q ∷ rest) =
    let later = insert_named row rest in
    if text_lt q.name row.name then q ∷ later else row ∷ q ∷ rest

abbrev pub set_rows : ℕ → List Credential → World → World
set_rows workspace_id rows w = record w {
  credentials = λ j. if j == workspace_id then rows else w.credentials j;
}

-- The INSERT: `none` is the violation of `credentials_one_active_per_name`.
abbrev pub insert_credential : ℕ → Credential → World → Answer (Option Credential)
insert_credential workspace_id row w =
    if not (is_storable row)
    then fails
    else if is_some (find_named row.name (w.credentials workspace_id))
    then gives none w
    else gives (some row) (set_rows workspace_id (insert_named row (w.credentials workspace_id)) w)

-- `SET revoked_at = NOW()` on the active rows of a name, and how many there are.
unfoldable pub revoke_rows : ℕ → String → List Credential → List Credential
revoke_rows now name [] = []
revoke_rows now name (row ∷ rest) =
    let later = revoke_rows now name rest in
    if (row.name ==ˢ name) && is_active row
    then record row { revoked_at = some now } ∷ later
    else row ∷ later

unfoldable pub count_active : String → List Credential → ℕ
count_active name [] = 0
count_active name (row ∷ rest) =
    let n = count_active name rest in if (row.name ==ˢ name) && is_active row then n + 1 else n

abbrev pub is_admin_role : Option String → Bool
is_admin_role none = false
is_admin_role (some role) =
    (role ==ˢ "owner")
    || ((role ==ˢ "workspace_owner") || ((role ==ˢ "admin") || (role ==ˢ "workspace_admin")))

pub record AuthUser : Type 0 where
  pub user_id : ℕ
  pub workspace_id : ℕ

-- Ciphertext and nonce, or the text of an error.
pub data Seal : Type 0 where
  sealed : List ℕ → List ℕ → Seal
  unsealed : String → Seal

-- The role of a user's active membership, and `Vault::seal`.
module _ (env : Env) (membership : ℕ → ℕ → Option String) (seal : ℕ → String → List ℕ → Seal) where
  unfoldable pub create : ℕ → String → List ℕ → List ℕ → ℕ → M Credential
  create workspace_id name ciphertext nonce created_by = do
    row ← statement env.fault λ n w.
        insert_credential workspace_id
          (record {
            name = name;
            ciphertext = ciphertext;
            nonce = nonce;
            created_by = created_by;
            created_at = env.now n;
            revoked_at = none;
          })
          w
    or_raise row (conflict ("credential '" ++ˢ name ++ˢ "' already exists in this workspace"))

  unfoldable pub revoke : ℕ → String → M Bool
  revoke workspace_id name = statement env.fault λ n w.
      gives (count_active name (w.credentials workspace_id) == 1)
        (set_rows workspace_id (revoke_rows (env.now n) name (w.credentials workspace_id)) w)

  unfoldable pub is_workspace_admin : ℕ → ℕ → M Bool
  is_workspace_admin workspace_id user_id =
      statement env.fault λ n w. gives (is_admin_role (membership workspace_id user_id)) w

  unfoldable pub append_audit : ℕ → ℕ → String → String → M (Unit {0})
  append_audit workspace_id actor_user_id event_type credential_name = statement env.fault λ n w.
      gives tt (record w {
        audits =
            record {
              workspace_id = workspace_id;
              actor_user_id = actor_user_id;
              event_type = event_type;
              credential_name = credential_name;
            }
            ∷ w.audits;
      })

  unfoldable pub require_workspace_admin : AuthUser → ℕ → String → M (Unit {0})
  unfolding is_workspace_admin append_audit
  require_workspace_admin auth path_ws_id intent =
      if not (path_ws_id == auth.workspace_id) then raise (not_found "workspace not found") else do
        admin ← is_workspace_admin path_ws_id auth.user_id
        if not admin
            then (attempt (append_audit path_ws_id auth.user_id "credential_forbidden" intent)
                >> raise (forbidden "workspace admin role required"))
            else pure tt

  abbrev pub stored : AuthUser → ℕ → String → Seal → M Credential
  stored auth ws_id name (unsealed e) = raise (internal ("seal failed: " ++ˢ e))
  stored auth ws_id name (sealed ciphertext nonce) = create ws_id name ciphertext nonce auth.user_id

  -- The summary of the row is the answer.
  unfoldable pub create_handler : AuthUser → ℕ → String → String → M Credential
  create_handler auth ws_id name value = do
    validate_name name
    validate_value_bytes (utf8 value)
    require_workspace_admin auth ws_id name
    row ← stored auth ws_id name (seal ws_id name (utf8 value))
    append_audit ws_id auth.user_id "credential_added" name
    pure row

  unfoldable pub list_handler : AuthUser → ℕ → M (List Credential)
  list_handler auth ws_id = do require_workspace_admin auth ws_id "list"; list_active env ws_id

  unfoldable pub revoke_handler : AuthUser → ℕ → String → M (Unit {0})
  revoke_handler auth ws_id name = do
    validate_name name
    require_workspace_admin auth ws_id name
    revoked ← revoke ws_id name
    if not revoked
        then raise (not_found ("credential '" ++ˢ name ++ˢ "' not found"))
        else append_audit ws_id auth.user_id "credential_revoked" name
