-- ===== src/Sandbox/Bwrap.antt =====
-- src/runtime/sandbox/bwrap.rs: the identity inside the sandbox, the features of the kernel's ABI,
-- the command line of `bwrap` and the policy for the wrapper.
pub mod Wiring
use open_pincery.Prelude.{
  ℕ, ◌≡◌, String, Bool, true, false, ◌&&◌, not, Option, none, some, List, [], ◌∷◌, ◌++◌,
  if◌then◌else◌, ◌==◌, leb, ltb, ◌++ˢ◌, decimal, trim, is_empty, parse_unsigned, max_u32,
}
use open_pincery.Config.{SandboxMode, enforce, audit, disabled}
use open_pincery.Sandbox.Landlock.{etc_allowlist, default_for_cwd}
use open_pincery.Sandbox.Policy.{
  SandboxInitPolicy, landlock_scope_all, landlock_audit_abi_floor,
  landlock_restrict_self_log_new_exec_on,
}

-- src/runtime/sandbox/preflight.rs
abbrev pub landlock_abi_floor : ℕ
landlock_abi_floor = 6

abbrev pub sandbox_init_path : String
sandbox_init_path = "/sandbox/init"

abbrev pub default_sandbox_uid : ℕ
default_sandbox_uid = 65534

abbrev pub default_sandbox_gid : ℕ
default_sandbox_gid = 65534

pub record SandboxIdentity : Type 0 where
  pub uid : ℕ
  pub gid : ℕ

pub record PinceryInitWiring : Type 0 where
  pub host_path : String
  pub policy_fd : ℕ

pub data Resolved (A : Type 0) : Type 0 where
  resolved : A → Resolved A
  wrong : String → Resolved A

-- `Debug` of a text, and the text of a number that does not parse.
module _ (debug : String → String) (number_error : String → String) where
  parsed_id : String → String → String → Option ℕ → Resolved (Option ℕ)
  parsed_id env_key raw trimmed none =
      wrong (env_key ++ˢ "=" ++ˢ debug raw ++ˢ " is not a valid u32: " ++ˢ number_error trimmed)
  parsed_id env_key raw trimmed (some n) = resolved (some n)

  unfoldable pub parse_optional_id : Option String → String → Resolved (Option ℕ)
  unfolding parsed_id
  parse_optional_id none env_key = resolved none
  parse_optional_id (some raw) env_key =
      let trimmed = trim raw in
      if is_empty trimmed
      then resolved none
      else parsed_id env_key raw trimmed (parse_unsigned max_u32 trimmed)

  abbrev pub or_default : ℕ → Option ℕ → ℕ
  or_default d none = d
  or_default d (some n) = n

  abbrev pub check_identity :
      Resolved (Option ℕ) → Resolved (Option ℕ) → Bool → Resolved SandboxIdentity
  check_identity (wrong e) gid allow_unsafe = wrong e
  check_identity (resolved uid) (wrong e) allow_unsafe = wrong e
  check_identity (resolved uid) (resolved gid) allow_unsafe =
      if (or_default default_sandbox_uid uid == 0) && not allow_unsafe
      then wrong
          "OPEN_PINCERY_SANDBOX_UID=0 requires OPEN_PINCERY_ALLOW_UNSAFE=true (refusing to run)"
      else if (or_default default_sandbox_gid gid == 0) && not allow_unsafe
      then wrong
          "OPEN_PINCERY_SANDBOX_GID=0 requires OPEN_PINCERY_ALLOW_UNSAFE=true (refusing to run)"
      else resolved (record {
        uid = or_default default_sandbox_uid uid;
        gid = or_default default_sandbox_gid gid;
      })

  unfoldable pub resolve_sandbox_identity_from_raw :
      Option String → Option String → Bool → Resolved SandboxIdentity
  unfolding parse_optional_id
  resolve_sandbox_identity_from_raw uid_raw gid_raw allow_unsafe =
      check_identity (parse_optional_id uid_raw "OPEN_PINCERY_SANDBOX_UID")
        (parse_optional_id gid_raw "OPEN_PINCERY_SANDBOX_GID") allow_unsafe

abbrev pub is_enforce : SandboxMode → Bool
is_enforce enforce = true
is_enforce _ = false

unfoldable pub build_init_policy_with_identity :
    String → String → SandboxMode → SandboxIdentity → ℕ → ℕ → SandboxInitPolicy
unfolding default_for_cwd
build_init_policy_with_identity cwd cmd mode identity landlock_scopes landlock_restrict_flags =
    let landlock = default_for_cwd cwd in
    record {
      landlock_rx_paths = landlock.rx_paths;
      landlock_rwx_paths = landlock.rwx_paths;
      landlock_scopes = landlock_scopes;
      landlock_restrict_flags = landlock_restrict_flags;
      seccomp_bpf = [];
      target_uid = identity.uid;
      target_gid = identity.gid;
      require_fully_enforced = is_enforce mode;
      user_argv = "sh" ∷ "-c" ∷ cmd ∷ [];
    }

unfoldable pub landlock_abi_below_required_floor : Option ℕ → Option String
landlock_abi_below_required_floor none =
    some "Landlock unsupported: landlock_create_ruleset returned ENOSYS"
landlock_abi_below_required_floor (some found) =
    if leb landlock_abi_floor found
    then none
    else some (
        "Landlock ABI "
        ++ˢ decimal found
        ++ˢ " is below required ABI "
        ++ˢ decimal landlock_abi_floor)

unfoldable pub landlock_scope_bits_for_abi : Option ℕ → ℕ
landlock_scope_bits_for_abi none = 0
landlock_scope_bits_for_abi (some found) =
    if leb landlock_abi_floor found then landlock_scope_all else 0

unfoldable pub landlock_restrict_flags_for_abi : Option ℕ → ℕ
landlock_restrict_flags_for_abi none = 0
landlock_restrict_flags_for_abi (some found) =
    if leb landlock_audit_abi_floor found then landlock_restrict_self_log_new_exec_on else 0

ro_binds : List String → List String
ro_binds [] = []
ro_binds (entry ∷ rest) = "--ro-bind-try" ∷ entry ∷ entry ∷ ro_binds rest

seccomp_args : Option ℕ → List String
seccomp_args none = []
seccomp_args (some fd) = "--seccomp" ∷ decimal fd ∷ []

-- What `bwrap` starts, from the `--` on, and the bind that it needs.
unfoldable pub command_args : Option PinceryInitWiring → String → List String
command_args none command = "--" ∷ "sh" ∷ "-c" ∷ command ∷ []
command_args (some wiring) command =
    "--ro-bind"
    ∷ wiring.host_path
    ∷ sandbox_init_path
    ∷ "--"
    ∷ sandbox_init_path
    ∷ "--policy-fd"
    ∷ decimal wiring.policy_fd
    ∷ "--"
    ∷ "sh"
    ∷ "-c"
    ∷ command
    ∷ []

-- The flags for namespaces, identity and mounts.
fixed_args : String → SandboxIdentity → List String
fixed_args cwd identity =
    "--die-with-parent"
    ∷ "--unshare-user"
    ∷ "--disable-userns"
    ∷ "--uid"
    ∷ decimal identity.uid
    ∷ "--gid"
    ∷ decimal identity.gid
    ∷ "--cap-drop"
    ∷ "ALL"
    ∷ "--unshare-pid"
    ∷ "--unshare-ipc"
    ∷ "--unshare-uts"
    ∷ "--unshare-cgroup-try"
    ∷ "--new-session"
    ∷ "--hostname"
    ∷ "sandbox"
    ∷ "--ro-bind"
    ∷ "/usr"
    ∷ "/usr"
    ∷ "--ro-bind-try"
    ∷ "/bin"
    ∷ "/bin"
    ∷ "--ro-bind-try"
    ∷ "/sbin"
    ∷ "/sbin"
    ∷ "--ro-bind-try"
    ∷ "/lib"
    ∷ "/lib"
    ∷ "--ro-bind-try"
    ∷ "/lib64"
    ∷ "/lib64"
    ∷ "--proc"
    ∷ "/proc"
    ∷ "--dev"
    ∷ "/dev"
    ∷ "--tmpfs"
    ∷ "/tmp"
    ∷ "--bind"
    ∷ cwd
    ∷ cwd
    ∷ "--chdir"
    ∷ cwd
    ∷ []

unfoldable pub build_bwrap_args_with_identity :
    String → String → Bool → Option ℕ → Option PinceryInitWiring → SandboxIdentity → List String
unfolding ro_binds seccomp_args fixed_args command_args
build_bwrap_args_with_identity cwd command deny_net seccomp_fd init_wiring identity =
    fixed_args cwd identity
    ++ (ro_binds etc_allowlist
        ++ ((if deny_net then "--unshare-net" ∷ [] else [])
            ++ (seccomp_args seccomp_fd ++ command_args init_wiring command)))
