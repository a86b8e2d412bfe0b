-- ===== src/Tests/Sandbox.antt =====
-- The wrapper, the path rules and the hand-over at a kernel that grants every call.
use open_pincery.Prelude.{
  decimal, ℕ, ◌≡◌, ◌≢◌, refl, ◌⊎◌, Bool, true, false, Option, none, some, List, [], ◌∷◌, length,
  if◌then◌else◌, ◌==ˢ◌, ◌==◌,
}
use open_pincery.Config.{enforce}
use open_pincery.Sandbox.Kernel.{
  refused, gave, fully_enforced, set_uids, Log, Kernel, Outcome, done, ◌>>=◌, call, pure,
}
use open_pincery.Sandbox.Cgroup.{
  CgroupLimits, kept_dir, removed_dir, created_dir, wrote, failed, Changes, Files, drop_guard,
  settled, limited, apply_writes, planned_writes, new_guard,
}
use open_pincery.Sandbox.Cgroup.Guard.{Ends, new_guard-Ends}
use open_pincery.Sandbox.Landlock.{
  LandlockProfile, hard_requirement, install_landlock_with_restrict_flags, validate,
  restriction_error,
}
use open_pincery.Sandbox.Landlock.Install.{InForce, install_landlock-InForce}
use open_pincery.Sandbox.Policy.{SandboxInitPolicy, Codec, policy, codec}
use open_pincery.Sandbox.Init.{InitError, run_inner}
use open_pincery.Sandbox.Init.Args.{run}
use open_pincery.Sandbox.Kernel.Quiet.{starts}
use open_pincery.Sandbox.Init.Start.{Confined, run_inner-Confined}
use open_pincery.Sandbox.Bwrap.{SandboxIdentity, PinceryInitWiring, build_init_policy_with_identity}
use open_pincery.Sandbox.Bwrap.Wiring.{wrapper_argv}

abbrev changed : Log → Bool
changed [] = false
changed (set_uids n ∷ log) = true
changed (_ ∷ log) = changed log

-- Root until the identity is changed to that of `nobody`.
abbrev pub kernel : Kernel
kernel = record {
  set_no_new_privs = λ l. gave tt;
  get_no_new_privs = λ l. gave 1;
  geteuid = λ l. if changed l then 65534 else 0;
  getegid = λ l. if changed l then 65534 else 0;
  setresgid = λ l n. gave tt;
  setgroups = λ l. gave tt;
  setresuid = λ l n. gave tt;
  getresuid = λ l. gave (65534, 65534, 65534);
  getresgid = λ l. gave (65534, 65534, 65534);
  capset = λ l. gave tt;
  proc_status = λ l. gave "CapEff:\t0000000000000000\nSeccomp:\t2\n";
  create_ruleset = λ l handled scoped. gave tt;
  open_path = λ l path. gave tt;
  is_dir = λ l path. true;
  add_rule = λ l path access. gave tt;
  restrict_self = λ l flags. gave tt;
  crate_create = λ l hard. gave tt;
  crate_open_path = λ l path. gave tt;
  crate_add_rule = λ l path access. gave tt;
  crate_restrict_self = λ l. gave (record { ruleset_status = fully_enforced; no_new_privs = true });
  access_from_all = 8191;
  access_from_read = 13;
  access_from_file = 5;
  set_filter = λ l bytes. gave tt;
  exec = λ l argv. none;
  last_os_error = λ l. "";
  debug = λ s. s;
  var = λ name. none;
}

abbrev identity : SandboxIdentity
identity = record { uid = 65534; gid = 65534 }

abbrev wiring : PinceryInitWiring
wiring = record { host_path = "/usr/bin/pincery-init"; policy_fd = 9 }

-- One rule of each kind, and a filter of one instruction.
abbrev handed : SandboxInitPolicy
handed = record {
  landlock_rx_paths = "/usr" ∷ [];
  landlock_rwx_paths = "/work" ∷ [];
  landlock_scopes = 3;
  landlock_restrict_flags = 2;
  seccomp_bpf = 0 ∷ 0 ∷ 0 ∷ 0 ∷ 0 ∷ 0 ∷ 0 ∷ 0 ∷ [];
  target_uid = 65534;
  target_gid = 65534;
  require_fully_enforced = true;
  user_argv = "sh" ∷ "-c" ∷ "ls" ∷ [];
}

abbrev only : SandboxInitPolicy → Codec
only p = record {
  to_bytes = λ q. 7 ∷ [];
  from_bytes = λ bytes. if length bytes == 1 then policy p else codec "EOF";
}

abbrev outcome : Outcome InitError (Unit {0}) × Log
outcome = run_inner kernel (only handed) (7 ∷ []) []

run_inner-Confined_example :
    ((outcome.0 ≢ done tt) × (starts outcome.1 ≡ starts []))
    ⊎ ((outcome.0 ≡ done tt) × Confined kernel (only handed) (7 ∷ []) [] outcome.1)
run_inner-Confined_example = run_inner-Confined kernel (only handed) (7 ∷ []) [] refl

-- The server's own policy for a command in a working directory.
abbrev served : SandboxInitPolicy
served = build_init_policy_with_identity "/work" "ls" enforce identity 3 2

abbrev descriptors : ℕ → Outcome InitError (List ℕ)
descriptors fd = done (7 ∷ [])

abbrev served_run : Option ℕ × Outcome InitError (Unit {0}) × Log
served_run = run kernel (λ s. "") (only served) descriptors (wrapper_argv wiring "ls") []

abbrev profile : LandlockProfile
profile = record { rx_paths = "/usr" ∷ []; rwx_paths = "/work" ∷ [] }

abbrev native_log : Log
native_log = (install_landlock_with_restrict_flags kernel profile hard_requirement 2 []).1

native :
    install_landlock_with_restrict_flags kernel profile hard_requirement 2 []
    ≡ (done (record { ruleset_status = fully_enforced; no_new_privs = true }), native_log)
unfolding install_landlock_with_restrict_flags ◌>>=◌ call pure validate restriction_error
native = refl

install_landlock-InForce_example :
    InForce kernel profile hard_requirement [] 2
      (record { ruleset_status = fully_enforced; no_new_privs = true })
      native_log
install_landlock-InForce_example =
    install_landlock-InForce kernel profile hard_requirement 2 [] native

-- The second limit is refused, after the group was created and the first was written, and the
-- directory is removed at the second attempt.
abbrev kept_once : Changes → Bool
kept_once (kept_dir path ∷ l) = true
kept_once _ = false

abbrev refusing : Files
refusing = record {
  create_dir = λ l path. gave tt;
  remove_dir = λ l path.
      if kept_once l
      then gave tt
      else refused (record { raw_os_error = some 16; text = "Device or resource busy" });
  write = λ l path file content.
      if file ==ˢ "pids.max"
      then refused (record { raw_os_error = some 22; text = "Invalid argument" })
      else gave tt;
}

abbrev caps : CgroupLimits
caps = record {
  memory_max_bytes = some 268435456;
  pids_max = some 64;
  cpu_max_micros = some (50000, 100000);
}

new_guard-Ends_example :
    Ends refusing "/sys/fs/cgroup/pincery-a" caps []
      (new_guard refusing "a" caps []).0
      (new_guard refusing "a" caps []).1
new_guard-Ends_example = new_guard-Ends refusing "a" caps []

twice : new_guard refusing "a" caps [] ≡ (
  failed (record { raw_os_error = some 22; text = "Invalid argument" }),
  removed_dir "/sys/fs/cgroup/pincery-a"
      ∷ kept_dir "/sys/fs/cgroup/pincery-a"
      ∷ wrote "/sys/fs/cgroup/pincery-a" "memory.max" (decimal 268435456)
      ∷ created_dir "/sys/fs/cgroup/pincery-a"
      ∷ [],
)
unfolding new_guard limited settled drop_guard apply_writes planned_writes
twice = refl
