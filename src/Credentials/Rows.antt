-- ===== src/Credentials/Rows.antt =====
-- How the statements change the rows of a workspace.
use open_pincery.Prelude.{
  ℕ, ◌+◌, ◌≤◌, ◌≡◌, refl, String, true, false, ◌&&◌, none, some, List, [], ◌∷◌, is_some,
  if◌then◌else◌, ◌==ˢ◌, arith,
}
use open_pincery.Db.{Credential}
use open_pincery.Tools.{is_active, find_named}
use open_pincery.Credentials.{insert_named, revoke_rows, count_active}

-- One more of the row's own name, if it is active.
pub count_active-insert_named :
    (name : String) (row : Credential) (rows : List Credential)
    → count_active name (insert_named row rows)
      ≡ count_active name rows + (if (row.name ==ˢ name) && is_active row then 1 else 0)
unfolding count_active insert_named
count_active-insert_named name row [] = ground arith
count_active-insert_named name row (q ∷ rest) =
    ground (arith, count_active-insert_named name row rest)

-- A name that is not found has no active row.
pub count_active-find_named :
    (name : String) (rows : List Credential)
    → is_some (find_named name rows) ≡ false
    → count_active name rows ≡ 0
unfolding count_active
count_active-find_named name [] h = refl
count_active-find_named name (row ∷ rest) h = ground (arith, count_active-find_named name rest)

pub count_active-revoke_rows :
    (name other : String) (now : ℕ) (rows : List Credential)
    → count_active name (revoke_rows now other rows) ≤ count_active name rows
unfolding count_active revoke_rows
count_active-revoke_rows name other now [] = omega arith
count_active-revoke_rows name other now (row ∷ rest) =
    ground (arith, count_active-revoke_rows name other now rest)

-- After the UPDATE no active row has the name.
pub find_named-revoke_rows :
    (name : String) (now : ℕ) (rows : List Credential)
    → find_named name (revoke_rows now name rows) ≡ none
unfolding revoke_rows
find_named-revoke_rows name now [] = refl
find_named-revoke_rows name now (row ∷ rest) = ground (arith, find_named-revoke_rows name now rest)

-- A new row is found under its name, where none was.
pub find_named-insert_named :
    (row : Credential) (rows : List Credential)
    → is_active row ≡ true
    → is_some (find_named row.name rows) ≡ false
    → row.name ==ˢ row.name ≡ true
    → find_named row.name (insert_named row rows) ≡ some row
unfolding insert_named
find_named-insert_named row [] active absent same = ground arith
find_named-insert_named row (q ∷ rest) active absent same =
    ground (arith, find_named-insert_named row rest active)
