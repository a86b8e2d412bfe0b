-- ===== src/Tools/Bindings.antt =====
-- The environment that the shell tool hands to a command (`resolve_env_placeholders`).
use open_pincery.Prelude.{
  ℕ, ◌≡◌, refl, inl, inr, String, Option, none, some, List, [], ◌∷◌, length, ◌==◌, Bool-cases,
  strip_prefix,
}
use open_pincery.Db.{Credential, ShellCommand, World, M, pure, ◌>>=◌}
use open_pincery.Db.Triple.{Triple, Triple-pure, Triple-bind}
use open_pincery.Env.{Env, parsed}
use open_pincery.Tools.{placeholder_prefix}
use open_pincery.Tools.Shell.{
  Resolved, resolved, unresolved, add_binding, Opened, plaintext, sealed, decoded, opened, open_row,
  find_active, credential_value, resolve_name, bind_then, resolve_entry, resolve_env_placeholders,
}
use open_pincery.Tools.Keeps.{Stable, attempt-Keeps, read-Keeps, emit_credential_unresolved-Keeps}

-- A text that the vault opened from a stored credential under this name.
pub record Opens (env : Env) (workspace_id : ℕ) (name s : String) : Type 0 where
  pub row : Credential
  pub bytes : List ℕ
  pub unsealed : env.vault_open workspace_id name row ≡ some bytes
  pub text : env.from_utf8 bytes ≡ some s

-- The keys of one list in their order, each with its value, or with the credential that the value
-- names.
pub data Bound (env : Env) (workspace_id : ℕ)
    : List (String × String) → List (String × String) → Type 0 where
  bound_none : Bound env workspace_id [] []
  as_written :
      {key value : String} {rest out : List (String × String)}
      → strip_prefix "PLACEHOLDER:" value ≡ none
      → Bound env workspace_id rest out
      → Bound env workspace_id ((key, value) ∷ rest) ((key, value) ∷ out)
  substituted :
      {key value name s : String} {rest out : List (String × String)}
      → strip_prefix "PLACEHOLDER:" value ≡ some name
      → Opens env workspace_id name s
      → Bound env workspace_id rest out
      → Bound env workspace_id ((key, value) ∷ rest) ((key, s) ∷ out)

-- The command that a call's arguments ask for.
pub record Asked (env : Env) (workspace_id : ℕ) (arguments : String) (command : ShellCommand)
    : Type 0 where
  pub args : ShellCommand
  pub read : env.parse_shell_args arguments ≡ parsed args
  pub same : command.command ≡ args.command
  pub bound : Bound env workspace_id args.env command.env

module _ (env : Env) (workspace_id : ℕ) where
  abbrev Sound : String → Opened → Type 0
  Sound name (plaintext s) = Opens env workspace_id name s
  Sound name (sealed reason) = Unit

  -- What a resolution of some bindings may answer.
  abbrev pub BoundTo : List (String × String) → Resolved → Type 0
  BoundTo bindings (resolved out) = Bound env workspace_id bindings out
  BoundTo bindings (unresolved message) = Unit

  open_row-Sound :
      (name : String) (o : Option (Option Credential))
      → Sound name (open_row env workspace_id name o)
  unfolding open_row
  open_row-Sound name none = tt
  open_row-Sound name (some none) = tt
  open_row-Sound name (some (some row)) = elim (Bool-cases (length row.nonce == 12)) [
    | inr e ↦ rw e tt
    | inl e ↦ rw e (opened-Sound (env.vault_open workspace_id name row) refl)
  ]
    where
      decoded-Sound :
          (bytes : List ℕ)
          → env.vault_open workspace_id name row ≡ some bytes
          → (o : Option String) → env.from_utf8 bytes ≡ o
          → Sound name (decoded env o)
      decoded-Sound bytes h none t = tt
      decoded-Sound bytes h (some s) t = record { row = row; bytes = bytes; unsealed = h; text = t }

      opened-Sound :
          (o : Option (List ℕ))
          → env.vault_open workspace_id name row ≡ o
          → Sound name (opened env o)
      opened-Sound none h = tt
      opened-Sound (some bytes) h = decoded-Sound bytes h (env.from_utf8 bytes) refl

module _ (env : Env) {I : World → Type 0} (stable : Stable I)
    (agent_id wake_id workspace_id : ℕ) where
  abbrev Resolves : List (String × String) → M Resolved → Type 0
  Resolves bindings m = Triple I m (λ r w. BoundTo env workspace_id bindings r × I w) I

  credential_value-Sound :
      (name : String) (o : Opened)
      → Sound env workspace_id name o
      → Triple I
          (credential_value env agent_id wake_id workspace_id name o)
          (λ o w. Sound env workspace_id name o × I w)
          I
  unfolding credential_value
  credential_value-Sound name (plaintext s) opens = Triple-pure _ (λ w h. (opens, h))
  credential_value-Sound name (sealed reason) opens =
      Triple-bind
        (emit_credential_unresolved-Keeps env stable agent_id wake_id workspace_id name reason)
        (λ _. Triple-pure _ (λ w h. (tt, h)))

  resolve_name-Sound :
      (name : String)
      → Triple I
          (resolve_name env agent_id wake_id workspace_id name)
          (λ o w. Sound env workspace_id name o × I w)
          I
  unfolding resolve_name find_active
  resolve_name-Sound name =
      Triple-bind (attempt-Keeps env stable (read-Keeps env stable _))
        (λ row. credential_value-Sound name _ (open_row-Sound env workspace_id name row))

  add_binding-Resolves :
      (bindings : List (String × String)) (key value s : String) {rest : M Resolved}
      → ((out : List (String × String))
          → Bound env workspace_id bindings out
          → Bound env workspace_id ((key, value) ∷ bindings) ((key, s) ∷ out))
      → Resolves bindings rest
      → Resolves ((key, value) ∷ bindings) (do r ← rest; pure (add_binding key s r))
  add_binding-Resolves bindings key value s more t =
      Triple-bind t (λ r. Triple-pure _ (λ w (b, h). (added r b, h)))
    where
      added :
          (r : Resolved)
          → BoundTo env workspace_id bindings r
          → BoundTo env workspace_id ((key, value) ∷ bindings) (add_binding key s r)
      added (resolved out) b = more out b
      added (unresolved message) b = tt

  bind_then-Resolves :
      (bindings : List (String × String)) (key value name : String) (rest : M Resolved) (o : Opened)
      → strip_prefix "PLACEHOLDER:" value ≡ some name
      → Sound env workspace_id name o
      → Resolves bindings rest
      → Resolves
          ((key, value) ∷ bindings)
          (bind_then env agent_id wake_id workspace_id key name rest o)
  unfolding bind_then
  bind_then-Resolves bindings key value name rest (sealed reason) e sound t =
      Triple-pure _ (λ w h. (tt, h))
  bind_then-Resolves bindings key value name rest (plaintext s) e sound t =
      add_binding-Resolves bindings key value s (λ out b. substituted e sound b) t

  resolve_entry-Resolves :
      (bindings : List (String × String)) (key value : String) (o : Option String)
      (rest : M Resolved)
      → strip_prefix "PLACEHOLDER:" value ≡ o
      → Resolves bindings rest
      → Resolves
          ((key, value) ∷ bindings)
          (resolve_entry env agent_id wake_id workspace_id key value o rest)
  unfolding resolve_entry
  resolve_entry-Resolves bindings key value none rest e t =
      add_binding-Resolves bindings key value value (λ out b. as_written e b) t
  resolve_entry-Resolves bindings key value (some name) rest e t =
      Triple-bind (resolve_name-Sound name) (λ o. record {
        at = λ w (s, h). (bind_then-Resolves bindings key value name rest o e s t).at w h;
      })

  -- A map of variables is resolved to the same keys, with a credential for each placeholder, or is
  -- refused.
  pub resolve_env_placeholders-Resolves :
      (bindings : List (String × String))
      → Resolves bindings (resolve_env_placeholders env agent_id wake_id workspace_id bindings)
  unfolding resolve_env_placeholders
  resolve_env_placeholders-Resolves [] = Triple-pure _ (λ w h. (bound_none, h))
  resolve_env_placeholders-Resolves ((key, value) ∷ rest) =
      resolve_entry-Resolves rest key value (strip_prefix placeholder_prefix value) _ refl
        (resolve_env_placeholders-Resolves rest)
