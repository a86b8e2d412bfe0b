-- ===== src/Tools/Shell.antt =====
-- The effects of the shell tool: `resolve_env_placeholders`, `emit_credential_unresolved`, the run
-- itself, and the audit events after it (src/observability/landlock_audit.rs, seccomp_audit.rs).
use open_pincery.Prelude.{
  ℕ, ◌+◌, String, Option, none, some, List, [], ◌∷◌, ◌++◌, map, length, if◌then◌else◌, ◌==◌, ◌++ˢ◌,
  decimal, strip_prefix,
}
use open_pincery.Json.{str, obj, field, end}
use open_pincery.Db.{
  Credential, ShellCommand, ok, M, gives, statement, ask, attempt, pure, ◌>>=◌, ◌>>◌,
}
use open_pincery.Env.{Env, Parsed, parsed, unparsed}
use open_pincery.Events.{append_event}
use open_pincery.Shape.{join_commas}
use open_pincery.Tools.{
  placeholder_prefix, ToolResult, error, ShellExecution, shell_execution, is_sigsys, find_named,
}

-- `Result<HashMap<String, String>, String>`: an error is answered to the model.
pub data Resolved : Type 0 where
  resolved : List (String × String) → Resolved
  unresolved : String → Resolved

abbrev pub add_binding : String → String → Resolved → Resolved
add_binding key value (resolved rest) = resolved ((key, value) ∷ rest)
add_binding key value (unresolved message) = unresolved message

-- A decrypted plaintext, or the reason why there is none.
pub data Opened : Type 0 where
  plaintext : String → Opened
  sealed : String → Opened

module _ (env : Env) where
  abbrev pub decoded : Option String → Opened
  decoded none = sealed "non_utf8"
  decoded (some s) = plaintext s

  abbrev pub opened : Option (List ℕ) → Opened
  opened none = sealed "authentication_failed"
  opened (some bytes) = decoded (env.from_utf8 bytes)

  -- What `credential::find_active` answered: `none` is an error, `some none` no row.
  unfoldable pub open_row : ℕ → String → Option (Option Credential) → Opened
  open_row workspace_id name none = sealed "lookup_error"
  open_row workspace_id name (some none) = sealed "missing_or_revoked"
  open_row workspace_id name (some (some row)) =
      if length row.nonce == 12
      then opened (env.vault_open workspace_id name row)
      else sealed "invalid_nonce"

  unfoldable pub find_active : ℕ → String → M (Option Credential)
  find_active workspace_id name =
      statement env.fault λ n w. gives (find_named name (w.credentials workspace_id)) w

  module _ (agent_id wake_id workspace_id : ℕ) where
    unfoldable pub emit_credential_unresolved : String → String → M (Unit {0})
    emit_credential_unresolved name reason = do
      let payload = env.to_json (obj (field "name" (str name) (field "reason" (str reason) end)))
      attempt (
          append_event env agent_id "credential_unresolved" "runtime" (some wake_id) (some "shell")
            (some payload) none none none)
      pure tt

    -- The value of an environment variable that names a credential.
    unfoldable pub credential_value : String → Opened → M Opened
    unfolding emit_credential_unresolved
    credential_value name (plaintext s) = pure (plaintext s)
    credential_value name (sealed reason) = do
      emit_credential_unresolved name reason
      pure (sealed reason)

    unfoldable pub resolve_name : String → M Opened
    unfolding credential_value find_active
    resolve_name name = do
      row ← attempt (find_active workspace_id name)
      credential_value name (open_row workspace_id name row)

    -- One entry, before the rest of the map: an unresolved credential ends the walk.
    unfoldable pub bind_then : String → String → M Resolved → Opened → M Resolved
    bind_then key name rest (sealed reason) = pure (unresolved ("credential not found: " ++ˢ name))
    bind_then key name rest (plaintext s) = do r ← rest; pure (add_binding key s r)

    unfoldable pub resolve_entry : String → String → Option String → M Resolved → M Resolved
    unfolding resolve_name
    resolve_entry key value none rest = do r ← rest; pure (add_binding key value r)
    resolve_entry key value (some name) rest = do o ← resolve_name name; bind_then key name rest o

    unfoldable pub resolve_env_placeholders : List (String × String) → M Resolved
    unfolding resolve_entry
    resolve_env_placeholders [] = pure (resolved [])
    resolve_env_placeholders ((key, value) ∷ rest) =
        resolve_entry key value (strip_prefix placeholder_prefix value)
          (resolve_env_placeholders rest)

    -- `append_landlock_denials_within`: the first failing append ends it, and is ignored.
    unfoldable pub append_denials : List String → M (Unit {0})
    append_denials [] = pure tt
    append_denials (payload ∷ payloads) = do
      append_event env agent_id "landlock_denied" "runtime" (some wake_id) (some "shell")
          (some payload) none none none
      append_denials payloads

    -- `sandbox_syscall_denied_payload` without a correlated record.
    unfoldable pub sandbox_syscall_denied_payload : List ℕ → String
    sandbox_syscall_denied_payload audit_pids =
        "{\"tool_name\":"
        ++ˢ env.to_json (str "shell")
        ++ˢ ",\"agent_id\":"
        ++ˢ env.to_json (str (env.hashing.uuid_text agent_id))
        ++ˢ ",\"wake_id\":"
        ++ˢ env.to_json (str (env.hashing.uuid_text wake_id))
        ++ˢ ",\"correlation_pids\":["
        ++ˢ join_commas (map decimal audit_pids)
        ++ˢ "],\"syscall_nr\":-1,\"syscall_name\":null,\"audit_pid\":null"
        ++ˢ ",\"audit_epoch_millis\":null,\"record_correlated\":false}"

    unfoldable pub audit_sigsys : ShellExecution → M (Unit {0})
    unfolding sandbox_syscall_denied_payload
    audit_sigsys execution =
        if is_sigsys execution.exit_code
        then attempt (
            append_event env agent_id "sandbox_syscall_denied" "runtime" (some wake_id)
              (some "shell") (some (sandbox_syscall_denied_payload execution.audit_pids)) none none
              none)
          >> pure tt
        else pure tt

    -- `ToolExecutor::run`, which records the command it was handed.
    unfoldable pub execute_shell : ShellCommand → M ShellExecution
    execute_shell command w = (
      ok (shell_execution (env.execute w.tick command)),
      record w { runs = w.runs ++ command ∷ []; tick = w.tick + 1 },
    )

    -- From the resolved environment on.
    unfoldable pub run_shell : ShellCommand → M ToolResult
    unfolding execute_shell append_denials audit_sigsys
    run_shell command = do
      execution ← execute_shell command
      payloads ← ask env.landlock_payloads
      attempt (append_denials payloads)
      audit_sigsys execution
      pure execution.result

    unfoldable pub run_resolved : String → Resolved → M ToolResult
    unfolding run_shell
    run_resolved command (unresolved message) = pure (error message)
    run_resolved command (resolved bindings) =
        run_shell (record { command = command; env = bindings })

    unfoldable pub shell_tool : Parsed ShellCommand → M ToolResult
    unfolding resolve_env_placeholders run_resolved
    shell_tool (unparsed e) = pure (error ("Invalid shell args: " ++ˢ e))
    shell_tool (parsed args) = do r ← resolve_env_placeholders args.env; run_resolved args.command r
