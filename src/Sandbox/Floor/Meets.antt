-- ===== src/Sandbox/Floor/Meets.antt =====
-- What the kernel floor demands, written down without its order of checks.
use open_pincery.Prelude.{
  ℕ, ◌≤◌, ◌≡◌, ◌↔◌, ◌⊎◌, inl, inr, refl, true, false, Option, none, some, arith,
}
use open_pincery.Sandbox.Floor.{
  Version, KernelProbe, FloorEnv, FloorResult, continues, exits, passed, relaxed_to, unmet,
  assert_kernel_floor, run_startup_preflight_with, older, gate_of_floor,
}

-- A version of 0.8.0 or later.
abbrev pub RecentEnough : Option Version → Type 0
RecentEnough none = ⊥
RecentEnough (some v) = (1 ≤ v.0) ⊎ (8 ≤ v.1)

abbrev pub AbiAtLeast : ℕ → Option ℕ → Type 0
AbiAtLeast floor none = ⊥
AbiAtLeast floor (some abi) = floor ≤ abi

-- A host and an operator's choice with which the server may start.
pub record Meets (probe : KernelProbe) (env : FloorEnv) : Type 0 where
  pub confirmed : env.relaxed ≡ true → env.allow_unsafe ≡ true
  pub strict_abi : env.relaxed ≡ false → AbiAtLeast 6 probe.landlock_abi
  pub relaxed_abi : AbiAtLeast 1 probe.landlock_abi
  pub seccomp : probe.seccomp_available ≡ true
  pub cgroup : probe.cgroup_v2_mounted ≡ true
  pub quota : probe.userns_quota_available ≡ true
  pub userns : (probe.is_root ≡ true) ⊎ (probe.unprivileged_userns_clone_allowed ≡ true)
  pub bwrap : RecentEnough probe.bwrap_version

older-RecentEnough : (v : Version) → older v (0, 8, 0) ≡ false → RecentEnough (some v)
older-RecentEnough v h = ground arith

RecentEnough-older : (v : Version) → RecentEnough (some v) → older v (0, 8, 0) ≡ false
RecentEnough-older v h = ground arith

preflight-Meets :
    (probe : KernelProbe) (env : FloorEnv)
    → run_startup_preflight_with probe env ≡ continues
    → Meets probe env
unfolding run_startup_preflight_with assert_kernel_floor
preflight-Meets probe env h = ground arith

Meets-preflight :
    (probe : KernelProbe) (env : FloorEnv)
    → Meets probe env
    → run_startup_preflight_with probe env ≡ continues
unfolding run_startup_preflight_with assert_kernel_floor
Meets-preflight probe env m = ground arith

exits-4 :
    (probe : KernelProbe) (env : FloorEnv)
    → (run_startup_preflight_with probe env ≡ continues)
      ⊎ (run_startup_preflight_with probe env ≡ exits 4)
unfolding run_startup_preflight_with
exits-4 probe env = split (assert_kernel_floor probe env)
  where
    split : (r : FloorResult) → (gate_of_floor r ≡ continues) ⊎ (gate_of_floor r ≡ exits 4)
    split (passed abi) = inl refl
    split (relaxed_to abi) = inl refl
    split (unmet e) = inr refl

-- The preflight lets the server start exactly when the host and the operator's choice meet the
-- floor (Landlock ABI 6, or 1 with both relaxing variables; seccomp; cgroup v2; a quota of user
-- namespaces, and root or the unprivileged gate; bubblewrap 0.8.0), and otherwise exits with 4.
pub run_startup_preflight_with_iff :
    (probe : KernelProbe) (env : FloorEnv)
    → ((run_startup_preflight_with probe env ≡ continues) ↔ Meets probe env)
      × ((run_startup_preflight_with probe env ≡ continues)
          ⊎ (run_startup_preflight_with probe env ≡ exits 4))
run_startup_preflight_with_iff probe env =
    ((preflight-Meets probe env, Meets-preflight probe env), exits-4 probe env)
