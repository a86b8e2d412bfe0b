-- ===== src/Tests/Vault.antt =====
-- Requests to the credential vault on empty tables.
use open_pincery.Prelude.{
  ℕ, ◌≡◌, String, Option, none, some, List, [], ◌∷◌, ◌==◌, ◌&&◌, if◌then◌else◌,
}
use open_pincery.Db.{Credential, pure, ◌>>=◌}
use open_pincery.Db.Triple.{Triple}
use open_pincery.Tools.Shell.{find_active}
use open_pincery.Credentials.{
  AuthUser, Seal, sealed, create, revoke, create_handler, list_handler, revoke_handler,
}
use open_pincery.Credentials.Guard.{OneActive, Held, handlers-Held}
use open_pincery.Credentials.Stored.{create-revoke-find_active}
use open_pincery.Tests.{quiet, world}

-- User 2 owns workspace 1.
abbrev membership : ℕ → ℕ → Option String
membership ws user = if (ws == 1) && (user == 2) then some "owner" else none

abbrev twelve : List ℕ
twelve = 1 ∷ 2 ∷ 3 ∷ 4 ∷ 5 ∷ 6 ∷ 7 ∷ 8 ∷ 9 ∷ 10 ∷ 11 ∷ 12 ∷ []

abbrev cipher : List ℕ
cipher = 1 ∷ 2 ∷ 3 ∷ 4 ∷ twelve

abbrev seal : ℕ → String → List ℕ → Seal
seal ws name value = sealed cipher twelve

abbrev owner : AuthUser
owner = record { user_id = 2; workspace_id = 1 }

handlers-Held_example :
    Triple
      (λ w. OneActive w × (w.credentials ≡ (world "asleep").credentials))
      (create_handler quiet membership seal owner 1 "api_key" "secret")
      (λ row. Held quiet membership seal owner 1 (world "asleep"))
      (Held quiet membership seal owner 1 (world "asleep"))
    × Triple
        (λ w. OneActive w × (w.credentials ≡ (world "asleep").credentials))
        (list_handler quiet membership seal owner 1)
        (λ rows. Held quiet membership seal owner 1 (world "asleep"))
        (Held quiet membership seal owner 1 (world "asleep"))
    × Triple
        (λ w. OneActive w × (w.credentials ≡ (world "asleep").credentials))
        (revoke_handler quiet membership seal owner 1 "api_key")
        (λ u. Held quiet membership seal owner 1 (world "asleep"))
        (Held quiet membership seal owner 1 (world "asleep"))
handlers-Held_example =
    handlers-Held quiet membership seal owner 1 (world "asleep") "api_key" "secret"

create-revoke-find_active_example :
    Triple {A = Credential × Option Credential}
      (λ w. Unit)
      (create quiet membership seal 1 "api_key" cipher twelve 2 >>= λ row.
        find_active quiet 1 "api_key" >>= λ found. pure (row, found))
      (λ p w. p.1 ≡ some p.0)
      (λ w. Unit)
    × Triple
        (λ w. Unit)
        (revoke quiet membership seal 1 "api_key" >>= λ done. find_active quiet 1 "api_key")
        (λ found w. found ≡ none)
        (λ w. Unit)
create-revoke-find_active_example =
    create-revoke-find_active quiet membership seal 1 "api_key" cipher twelve 2
