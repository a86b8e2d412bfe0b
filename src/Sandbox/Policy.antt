-- ===== src/Sandbox/Policy.antt =====
-- src/runtime/sandbox/init_policy.rs: what the server hands to the wrapper inside the sandbox.
use open_pincery.Prelude.{ℕ, String, Bool, List}

abbrev pub landlock_scope_abstract_unix_socket : ℕ
landlock_scope_abstract_unix_socket = 1

abbrev pub landlock_scope_signal : ℕ
landlock_scope_signal = 2

abbrev pub landlock_scope_all : ℕ
landlock_scope_all = 3

abbrev pub landlock_audit_abi_floor : ℕ
landlock_audit_abi_floor = 7

abbrev pub landlock_restrict_self_log_new_exec_on : ℕ
landlock_restrict_self_log_new_exec_on = 2

pub record SandboxInitPolicy : Type 0 where
  pub landlock_rx_paths : List String
  pub landlock_rwx_paths : List String
  pub landlock_scopes : ℕ
  pub landlock_restrict_flags : ℕ
  pub seccomp_bpf : List ℕ
  pub target_uid : ℕ
  pub target_gid : ℕ
  pub require_fully_enforced : Bool
  pub user_argv : List String

-- `from_bytes`: the policy, or the text of a codec error.
pub data Decoded : Type 0 where
  policy : SandboxInitPolicy → Decoded
  codec : String → Decoded

-- The package `serde_json` at the derived instances: `to_vec` and `from_slice`.
pub record Codec : Type 0 where
  pub to_bytes : SandboxInitPolicy → List ℕ
  pub from_bytes : List ℕ → Decoded
