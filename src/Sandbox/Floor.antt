-- ===== src/Sandbox/Floor.antt =====
-- src/runtime/sandbox/preflight.rs: what the host must offer before the server starts.
pub mod Meets
use open_pincery.Prelude.{
  ℕ, ◌+◌, ◌≡◌, String, Bool, true, false, ◌&&◌, ◌||◌, not, Option, none, some, List, [], ◌∷◌,
  if◌then◌else◌, ltb, leb, ◌==◌, ◌==ˢ◌, ◌++ˢ◌, decimal, trim, lines, split, is_digit, is_empty,
  strip_prefix, parse_unsigned, max_u32, max_u64,
}
use Prim.Native.Char.{code}
use open_pincery.Config.{SandboxMode, enforce, says}
use open_pincery.Sandbox.Bwrap.{landlock_abi_floor, is_enforce}

abbrev pub landlock_abi_relaxed_floor : ℕ
landlock_abi_relaxed_floor = 1

abbrev pub Version : Type 0
Version = ℕ × ℕ × ℕ

abbrev pub bwrap_min_version : Version
bwrap_min_version = (0, 8, 0)

-- The trait `KernelProbe`: what one host answers.
pub record KernelProbe : Type 0 where
  pub landlock_abi : Option ℕ
  pub seccomp_available : Bool
  pub cgroup_v2_mounted : Bool
  pub unprivileged_userns_clone_allowed : Bool
  pub userns_quota_available : Bool
  pub bwrap_version : Option Version
  pub is_root : Bool

pub record FloorEnv : Type 0 where
  pub relaxed : Bool
  pub allow_unsafe : Bool

-- `FloorEnv::from_env`
unfoldable pub floor_env : (String → Option String) → FloorEnv
floor_env var = record {
  relaxed = says "relaxed" (var "OPEN_PINCERY_SANDBOX_FLOOR");
  allow_unsafe = says "true" (var "OPEN_PINCERY_ALLOW_UNSAFE");
}

pub data FloorError : Type 0 where
  landlock_unsupported seccomp_unavailable cgroup_v2_not_mounted : FloorError
  unprivileged_userns_disabled bwrap_missing relaxed_without_allow_unsafe : FloorError
  -- found, required
  landlock_too_old : ℕ → ℕ → FloorError
  bwrap_too_old : Version → Version → FloorError

pub data FloorResult : Type 0 where
  passed relaxed_to : ℕ → FloorResult
  unmet : FloorError → FloorResult

-- `<` on triples.
abbrev pub older : Version → Version → Bool
older v w = ltb v.0 w.0 || ((v.0 == w.0) && (ltb v.1 w.1 || ((v.1 == w.1) && ltb v.2 w.2)))

abbrev pub floor_of : FloorEnv → ℕ
floor_of env = if env.relaxed then landlock_abi_relaxed_floor else landlock_abi_floor

-- Step 6, and the outcome.
abbrev pub check_bwrap : FloorEnv → ℕ → Option Version → FloorResult
check_bwrap env abi none = unmet bwrap_missing
check_bwrap env abi (some version) =
    if older version bwrap_min_version
    then unmet (bwrap_too_old version bwrap_min_version)
    else if env.relaxed
    then relaxed_to abi
    else passed abi

-- Steps 2 to 5.
abbrev pub check_kernel : KernelProbe → FloorEnv → Option ℕ → FloorResult
check_kernel probe env none = unmet landlock_unsupported
check_kernel probe env (some abi) =
    if ltb abi (floor_of env)
    then unmet (landlock_too_old abi (floor_of env))
    else if not probe.seccomp_available
    then unmet seccomp_unavailable
    else if not probe.cgroup_v2_mounted
    then unmet cgroup_v2_not_mounted
    else if not probe.userns_quota_available
        || (not probe.is_root && not probe.unprivileged_userns_clone_allowed)
    then unmet unprivileged_userns_disabled
    else check_bwrap env abi probe.bwrap_version

unfoldable pub assert_kernel_floor : KernelProbe → FloorEnv → FloorResult
assert_kernel_floor probe env =
    if env.relaxed && not env.allow_unsafe
    then unmet relaxed_without_allow_unsafe
    else check_kernel probe env probe.landlock_abi

-- A gate of the start: the process goes on, or exits with a code.
pub data Gate : Type 0 where
  continues : Gate
  exits : ℕ → Gate

abbrev pub gate_of_floor : FloorResult → Gate
gate_of_floor (passed abi) = continues
gate_of_floor (relaxed_to abi) = continues
gate_of_floor (unmet e) = exits 4

unfoldable pub run_startup_preflight_with : KernelProbe → FloorEnv → Gate
run_startup_preflight_with probe env = gate_of_floor (assert_kernel_floor probe env)

unfoldable pub parse_zero_one_sysctl : String → Option Bool
parse_zero_one_sysctl raw =
    let text = trim raw in
    if text ==ˢ "0" then some false else if text ==ˢ "1" then some true else none

abbrev pub is_positive : Option ℕ → Option Bool
is_positive none = none
is_positive (some limit) = some (ltb 0 limit)

unfoldable pub parse_max_user_namespaces : String → Option Bool
parse_max_user_namespaces raw = is_positive (parse_unsigned max_u64 (trim raw))

abbrev pub or_false : Option Bool → Bool
or_false none = false
or_false (some b) = b

unfoldable pub userns_quota_available_from_sysctl : Option String → Bool
unfolding parse_max_user_namespaces
userns_quota_available_from_sysctl none = false
userns_quota_available_from_sysctl (some raw) = or_false (parse_max_user_namespaces raw)

-- What reading a file gives.
pub data ReadFile : Type 0 where
  contents : String → ReadFile
  not_found read_failed : ReadFile

unfoldable pub userns_clone_allowed : ReadFile → Bool
unfolding parse_zero_one_sysctl
userns_clone_allowed (contents s) = or_false (parse_zero_one_sysctl s)
userns_clone_allowed not_found = true
userns_clone_allowed read_failed = false

unfoldable pub leading_digits : String → String
leading_digits String.[] = ""
leading_digits (String.◌∷◌ c s) =
    let rest = leading_digits s in if is_digit (code c) then String.◌∷◌ c rest else ""

abbrev pub version_of : Option ℕ → Option ℕ → Option ℕ → Option Version
version_of (some major) (some minor) (some patch) = some (major, minor, patch)
version_of _ _ _ = none

-- An empty run of digits does not parse.
abbrev pub version_parts : List String → Option Version
version_parts (major ∷ minor ∷ patch ∷ rest) =
    version_of (parse_unsigned max_u32 major) (parse_unsigned max_u32 minor)
      (parse_unsigned max_u32 (leading_digits patch))
version_parts _ = none

abbrev pub without_prefix : String → Option String → String
without_prefix whole none = whole
without_prefix whole (some rest) = rest

abbrev pub first_version : List String → Option Version
first_version [] = none
first_version (line ∷ rest) =
    let first_line = trim line in
    version_parts
      (split b'.' (trim (without_prefix first_line (strip_prefix "bubblewrap " first_line))))

unfoldable pub parse_bwrap_version : String → Option Version
unfolding leading_digits
parse_bwrap_version raw = first_version (lines raw)

-- src/runtime/sandbox/cgroup.rs, `MemoryProbeOutcome`
pub data MemoryProbeOutcome : Type 0 where
  enforced : MemoryProbeOutcome
  -- evidence, reason
  not_enforced skipped : String → MemoryProbeOutcome

pub data MemoryGateDecision : Type 0 where
  cap_enforced : MemoryGateDecision
  acknowledged_unsafe refuse : String → MemoryGateDecision

unfoldable pub evaluate_memory_gate : MemoryProbeOutcome → Bool → MemoryGateDecision
evaluate_memory_gate enforced allow_unsafe = cap_enforced
evaluate_memory_gate (not_enforced evidence) allow_unsafe =
    if allow_unsafe then acknowledged_unsafe evidence else refuse evidence
evaluate_memory_gate (skipped reason) allow_unsafe =
    if allow_unsafe
    then acknowledged_unsafe ("probe skipped: " ++ˢ reason)
    else refuse ("probe skipped: " ++ˢ reason)

abbrev pub gate_of_memory : MemoryGateDecision → Gate
gate_of_memory cap_enforced = continues
gate_of_memory (acknowledged_unsafe reason) = continues
gate_of_memory (refuse reason) = exits 4

unfoldable pub enforce_memory_cap_at_startup : MemoryProbeOutcome → SandboxMode → Bool → Gate
unfolding evaluate_memory_gate
enforce_memory_cap_at_startup outcome mode allow_unsafe =
    if not (is_enforce mode)
    then continues
    else gate_of_memory (evaluate_memory_gate outcome allow_unsafe)
