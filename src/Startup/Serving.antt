-- ===== src/Startup/Serving.antt =====
-- What holds of every server that serves.
use open_pincery.Prelude.{
  ℕ, ◌≡◌, refl, ◌⊎◌, String, Bool, true, false, List, arith, not, if◌then◌else◌,
}
use open_pincery.Config.{
  Config, Checked, valid, bad, enforce, disabled, ResolvedSandboxMode, from_env,
}
use open_pincery.Config.Modes.{IsSafe, from_env-IsSafe}
use open_pincery.Db.{World}
use open_pincery.Db.Triple.{Triple, Triple-pure, Triple-bind, Triple-if}
use open_pincery.Env.{Env}
use open_pincery.Sandbox.Floor.{
  Gate, continues, exits, MemoryProbeOutcome, enforced, floor_env, run_startup_preflight_with,
  enforce_memory_cap_at_startup, evaluate_memory_gate,
}
use open_pincery.Sandbox.Floor.Meets.{Meets, run_startup_preflight_with_iff}
use open_pincery.Startup.{
  ExecutorKind, process, executor_kind_for, Boot, stopped, panicked, serves, after_chains, Host,
  after_memory, after_config, after_floor, main,
}
use open_pincery.Startup.Chains.{IsSound, enforce_audit_chain_floor-IsSound}

-- The memory cap was seen to hold, or does not apply, or the operator has taken the risk.
abbrev pub Capped : MemoryProbeOutcome → ResolvedSandboxMode → Type 0
Capped outcome sandbox =
    sandbox.mode ≡ enforce → (outcome ≡ enforced) ⊎ (sandbox.allow_unsafe ≡ true)

-- A server that serves.
pub record IsCleared (host : Host) (config : Config) (kind : ExecutorKind) : Type 0 where
  pub floor : Meets host.probe (floor_env host.var)
  pub configured : from_env host.var host.number_error host.debug ≡ valid config
  pub settings : IsSafe config
  pub memory : Capped host.memory config.sandbox
  pub sandboxed : kind ≡ process → config.sandbox.mode ≡ disabled

abbrev pub Cleared : Host → Boot → Type 0
Cleared host (stopped code) = Unit
Cleared host panicked = Unit
Cleared host (serves config kind) = IsCleared host config kind

Cleared-if :
    {host : Host} {config : Config} {kind : ExecutorKind} (b : Bool)
    → IsCleared host config kind
    → Cleared host (if b then serves config kind else panicked)
Cleared-if true c = c
Cleared-if false c = tt

memory-Capped :
    (outcome : MemoryProbeOutcome) (sandbox : ResolvedSandboxMode)
    → enforce_memory_cap_at_startup outcome sandbox.mode sandbox.allow_unsafe ≡ continues
    → Capped outcome sandbox
unfolding enforce_memory_cap_at_startup evaluate_memory_gate
memory-Capped outcome sandbox h = ground arith

kind-disabled :
    (sandbox : ResolvedSandboxMode) → executor_kind_for sandbox ≡ process → sandbox.mode ≡ disabled
unfolding executor_kind_for
kind-disabled sandbox h = ground arith

floor-Meets :
    (host : Host)
    → run_startup_preflight_with host.probe (floor_env host.var) ≡ continues
    → Meets host.probe (floor_env host.var)
floor-Meets host = (run_startup_preflight_with_iff host.probe (floor_env host.var)).0.0

module _ (env : Env) (hash_text : List ℕ → String) (workspace_ids : World → List ℕ)
    (agent_ids : World → ℕ → List ℕ) (host : Host) where
  abbrev Good : Boot → World → Type 0
  Good b w = IsSound env w × Cleared host b

  memory-Cleared :
      (config : Config) (gate : Gate)
      → Meets host.probe (floor_env host.var)
      → from_env host.var host.number_error host.debug ≡ valid config
      → IsSafe config
      → (gate ≡ continues → Capped host.memory config.sandbox)
      → Triple
          (IsSound env)
          (after_memory env hash_text workspace_ids agent_ids host config gate)
          Good
          (λ w. ⊥)
  unfolding after_memory after_chains
  memory-Cleared config (exits code) meets configured safe capped =
      Triple-pure (stopped code) λ w s. (s, tt)
  memory-Cleared config continues meets configured safe capped =
      Triple-if (not host.database_up) (λ down. Triple-pure panicked λ w s. (s, tt))
        λ up.
          Triple-bind (enforce_audit_chain_floor-IsSound env hash_text workspace_ids agent_ids _ _)
            λ gate. Triple-pure (after_chains host config gate) λ w d. (d.0, cleared gate)
    where
      cleared : (gate : Gate) → Cleared host (after_chains host config gate)
      cleared (exits code) = tt
      cleared continues = Cleared-if _ (record {
        floor = meets;
        configured = configured;
        settings = safe;
        memory = capped refl;
        sandboxed = kind-disabled config.sandbox;
      })

  config-Cleared :
      (c : Checked String Config)
      → Meets host.probe (floor_env host.var)
      → from_env host.var host.number_error host.debug ≡ c
      → Triple
          (IsSound env)
          (after_config env hash_text workspace_ids agent_ids host c)
          Good
          (λ w. ⊥)
  unfolding after_config
  config-Cleared (bad e) meets configured = Triple-pure panicked λ w s. (s, tt)
  config-Cleared (valid config) meets configured =
      memory-Cleared config _ meets configured
        (from_env-IsSafe host.var host.number_error host.debug configured)
        (memory-Capped host.memory config.sandbox)

  floor-Cleared :
      (gate : Gate)
      → (gate ≡ continues → Meets host.probe (floor_env host.var))
      → Triple
          (IsSound env)
          (after_floor env hash_text workspace_ids agent_ids host gate)
          Good
          (λ w. ⊥)
  unfolding after_floor
  floor-Cleared (exits code) meets = Triple-pure (stopped code) λ w s. (s, tt)
  floor-Cleared continues meets = config-Cleared _ (meets refl) refl

  -- From a sound log the start keeps the log sound and raises no error of a statement. A server
  -- that comes to serve has met the kernel floor, runs on a configuration that the environment
  -- gives and whose settings are safe, has a memory cap that was seen to hold unless the mode is
  -- not enforce or the risk is acknowledged, and runs tools outside the sandbox only in the
  -- disabled mode.
  pub main-Cleared :
      Triple
        (IsSound env)
        (main env hash_text workspace_ids agent_ids host)
        (λ b w. IsSound env w × Cleared host b)
        (λ w. ⊥)
  unfolding main
  main-Cleared = floor-Cleared _ (floor-Meets host)
