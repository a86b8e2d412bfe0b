-- ===== src/Sandbox/Bwrap/Wiring.antt =====
-- The hand-over: the command line that the server gives to `bwrap`, as the wrapper reads it.
use open_pincery.Prelude.{
  ℕ, ◌≡◌, ◌≢◌, String, Bool, true, false, Option, List, [], ◌∷◌, ◌++◌, if◌then◌else◌, decimal,
}
use open_pincery.Config.{SandboxMode, enforce}
use open_pincery.Sandbox.Kernel.{started, Log, Kernel}
use open_pincery.Sandbox.Policy.{SandboxInitPolicy}
use open_pincery.Sandbox.Init.Facts.{Restricted}
use open_pincery.Sandbox.Landlock.{etc_allowlist}
use open_pincery.Sandbox.Bwrap.{
  SandboxIdentity, PinceryInitWiring, sandbox_init_path, seccomp_args, ro_binds, fixed_args,
}

-- What `bwrap` is to start.
abbrev pub wrapper_argv : PinceryInitWiring → String → List String
wrapper_argv wiring command =
    sandbox_init_path ∷ "--policy-fd" ∷ decimal wiring.policy_fd ∷ "--" ∷ "sh" ∷ "-c" ∷ command ∷ []

-- The options before the command.
options : String → Bool → Option ℕ → PinceryInitWiring → SandboxIdentity → List String
options cwd deny_net seccomp_fd wiring identity =
    fixed_args cwd identity
    ++ (ro_binds etc_allowlist
        ++ ((if deny_net then "--unshare-net" ∷ [] else [])
            ++ (seccomp_args seccomp_fd
                ++ ("--ro-bind" ∷ wiring.host_path ∷ sandbox_init_path ∷ []))))

-- What the policy for a command says, every field of it.
pub record Served (cwd command : String) (mode : SandboxMode) (identity : SandboxIdentity)
    (scopes flags : ℕ) (p : SandboxInitPolicy) : Type 0 where
  pub readable :
      p.landlock_rx_paths
      ≡ "/usr" ∷ "/bin" ∷ "/sbin" ∷ "/lib" ∷ "/lib64" ∷ "/sys" ∷ "/etc/ld.so.cache"
        ∷ "/etc/ld.so.conf" ∷ "/etc/ld.so.conf.d" ∷ "/etc/nsswitch.conf" ∷ "/etc/passwd"
        ∷ "/etc/group" ∷ "/etc/hosts" ∷ "/etc/host.conf" ∷ "/etc/resolv.conf" ∷ "/etc/gai.conf"
        ∷ "/etc/localtime" ∷ "/etc/timezone" ∷ "/etc/os-release" ∷ "/etc/alternatives"
        ∷ "/etc/ssl/certs" ∷ "/etc/ssl/openssl.cnf" ∷ "/etc/ca-certificates"
        ∷ "/etc/ca-certificates.conf" ∷ "/etc/pki/tls/certs" ∷ "/etc/pki/ca-trust/extracted" ∷ []
  pub writable : p.landlock_rwx_paths ≡ "/proc" ∷ "/dev" ∷ cwd ∷ []
  pub scoped : p.landlock_scopes ≡ scopes
  pub flagged : p.landlock_restrict_flags ≡ flags
  pub unfiltered : p.seccomp_bpf ≡ []
  pub user : p.target_uid ≡ identity.uid
  pub group : p.target_gid ≡ identity.gid
  pub strict : mode ≡ enforce → p.require_fully_enforced ≡ true
  pub lenient : mode ≢ enforce → p.require_fully_enforced ≡ false
  pub shell : p.user_argv ≡ "sh" ∷ "-c" ∷ command ∷ []

-- The server's policy for a command, as the wrapper's outcome shows it.
pub record Handed (k : Kernel) (p : SandboxInitPolicy) (command : String) (log log' : Log)
    : Type 0 where
  pub end : Log
  pub restricted : Restricted k p log end
  pub last : log' ≡ started ("sh" ∷ "-c" ∷ command ∷ []) ∷ end
