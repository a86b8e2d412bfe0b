-- ===== src/Startup.antt =====
-- The gates that the server passes before it serves: `verify_and_emit`, `verify_workspace` and
-- `enforce_audit_chain_floor_at_startup` of src/background/audit_chain.rs, and `main` of
-- src/main.rs up to the creation of the executor.
pub mod Chains
pub mod Serving
use open_pincery.Prelude.{
  ℕ, ◌≡◌, String, Bool, true, false, Option, none, some, List, [], ◌∷◌, if◌then◌else◌, decimal, not,
  ◌&&◌,
}
use open_pincery.Chain.{Event, ChainStatus, verified, broken, verify_audit_chain}
use open_pincery.Chain.Gate.{
  AgentChainResult, StartupGateDecision, all_verified, acknowledged_unsafe, refuse,
  evaluate_startup_gate,
}
use open_pincery.Config.{
  Config, Checked, valid, bad, SandboxMode, enforce, audit, disabled, ResolvedSandboxMode, from_env,
  says, env_or,
}
use open_pincery.Db.{
  World, M, Result, ok, err, Answer, gives, statement, attempt, pure, ◌>>=◌, ◌>>◌,
}
use open_pincery.Env.{Env}
use open_pincery.Events.{append_event}
use open_pincery.Json.{Json, Fields, str, num, obj, field, end}
use open_pincery.Sandbox.Floor.{
  KernelProbe, Gate, continues, exits, MemoryProbeOutcome, floor_env, run_startup_preflight_with,
  enforce_memory_cap_at_startup,
}

abbrev pub exit_code_audit_chain_broken : ℕ
exit_code_audit_chain_broken = 5

-- The rows that a query gives, in the order of its ORDER BY: the workspaces, and a workspace's
-- agents.
module _ (env : Env) (hash_text : List ℕ → String) (workspace_ids : World → List ℕ)
    (agent_ids : World → ℕ → List ℕ) where
  uuid : ℕ → Json
  uuid u = str (env.hashing.uuid_text u)

  unfoldable pub status_event : ℕ → ChainStatus → M Event
  unfolding uuid
  status_event agent_id (verified events_in_chain last_entry_hash) =
      append_event env agent_id "audit_chain_verified" "runtime" none none none none
        (some (
          env.to_json (
            obj (
              field "agent_id" (uuid agent_id) (
                field "events_in_chain" (num (decimal events_in_chain))
                  (field "last_entry_hash" (str (hash_text last_entry_hash)) end))))))
        none
  status_event agent_id (broken first_divergent_event_id expected_hash actual_hash events_walked) =
      append_event env agent_id "audit_chain_broken" "runtime" none none none none
        (some (
          env.to_json (
            obj (
              field "agent_id" (uuid agent_id) (
                field "first_divergent_event_id" (uuid first_divergent_event_id) (
                  field "expected_hash" (str (hash_text expected_hash)) (
                    field "actual_hash" (str (hash_text actual_hash))
                      (field "events_walked" (num (decimal events_walked)) end))))))))
        none

  -- The SELECT of the agent's rows and the walk over them.
  unfoldable pub read_status : ℕ → M ChainStatus
  read_status agent_id =
      statement env.fault λ n w. gives (verify_audit_chain env.hashing w.events agent_id) w

  unfoldable pub verify_and_emit : ℕ → M ChainStatus
  unfolding read_status status_event
  verify_and_emit agent_id = do
    status ← read_status agent_id
    status_event agent_id status
    pure status

  unfoldable pub verify_agents : List ℕ → M (List AgentChainResult)
  unfolding verify_and_emit
  verify_agents [] = pure []
  verify_agents (agent_id ∷ rest) = do
    status ← verify_and_emit agent_id
    results ← verify_agents rest
    pure (record { agent_id = agent_id; status = status } ∷ results)

  unfoldable pub verify_workspace : ℕ → M (List AgentChainResult)
  unfolding verify_agents
  verify_workspace workspace_id = do
    agents ← statement env.fault (λ n w. gives (agent_ids w workspace_id) w)
    verify_agents agents

  unfoldable pub verify_workspaces : List ℕ → M (List (ℕ × List AgentChainResult))
  unfolding verify_workspace
  verify_workspaces [] = pure []
  verify_workspaces (ws ∷ rest) = do
    results ← verify_workspace ws
    per_workspace ← verify_workspaces rest
    pure ((ws, results) ∷ per_workspace)

  -- A failure to note the override is logged, and the start goes on.
  unfoldable pub note_relaxed : List ℕ → M (Unit {0})
  unfolding uuid
  note_relaxed [] = pure tt
  note_relaxed (agent_id ∷ rest) = do
    attempt (
        append_event env agent_id "audit_chain_floor_relaxed" "runtime" none none none none
          (some (
            env.to_json (
              obj (
                field "agent_id" (uuid agent_id) (
                  field "reason"
                    (str "OPEN_PINCERY_AUDIT_CHAIN_FLOOR=relaxed + OPEN_PINCERY_ALLOW_UNSAFE=true")
                    end)))))
          none)
    note_relaxed rest

  unfoldable pub conclude : StartupGateDecision → M Gate
  unfolding note_relaxed
  conclude (all_verified ws agents) = pure continues
  conclude (acknowledged_unsafe broken_agent_ids) = note_relaxed broken_agent_ids >> pure continues
  conclude (refuse broken_agent_ids) = pure (exits exit_code_audit_chain_broken)

  -- A query that fails refuses the start.
  unfoldable pub judge : Bool → Bool → Option (List (ℕ × List AgentChainResult)) → M Gate
  unfolding conclude
  judge relaxed allow_unsafe none = pure (exits exit_code_audit_chain_broken)
  judge relaxed allow_unsafe (some per_workspace) =
      conclude (evaluate_startup_gate per_workspace relaxed allow_unsafe)

  unfoldable pub enforce_audit_chain_floor_at_startup : Bool → Bool → M Gate
  unfolding judge verify_workspaces
  enforce_audit_chain_floor_at_startup relaxed allow_unsafe = do
    per_workspace ← attempt (do
      workspaces ← statement env.fault (λ n w. gives (workspace_ids w) w)
      verify_workspaces workspaces)
    judge relaxed allow_unsafe per_workspace

-- src/runtime/sandbox/mod.rs, `ExecutorKind`, and `executor_kind_for` on Linux.
pub data ExecutorKind : Type 0 where
  process real : ExecutorKind

unfoldable pub executor_kind_for : ResolvedSandboxMode → ExecutorKind
executor_kind_for sandbox = elim sandbox.mode [ disabled ↦ process | enforce ↦ real | audit ↦ real ]

-- How `main` ends or goes on: an exit code, a failed `expect`, or the tasks and the listener.
pub data Boot : Type 0 where
  stopped : ℕ → Boot
  panicked : Boot
  serves : Config → ExecutorKind → Boot

-- What the host answers: the kernel's probes, the experiment with `memory.max`, whether the
-- pool and the migrations come up, and whether `rust_decimal` reads a text.
pub record Host : Type 0 where
  pub var : String → Option String
  pub number_error : String → String
  pub debug : String → String
  pub probe : KernelProbe
  pub memory : MemoryProbeOutcome
  pub database_up : Bool
  pub is_decimal : String → Bool

-- `price_from_env`, which panics where it is false.
unfoldable pub price_from_env : Host → String → String → Bool
price_from_env host key default =
    host.is_decimal (env_or host.var host.number_error host.debug key default)

unfoldable pub after_chains : Host → Config → Gate → Boot
unfolding executor_kind_for price_from_env
after_chains host config (exits code) = stopped code
after_chains host config continues =
    if price_from_env host "LLM_PRICE_INPUT_PER_MTOK" "3.0"
      && (price_from_env host "LLM_PRICE_OUTPUT_PER_MTOK" "15.0"
          && (price_from_env host "LLM_MAINTENANCE_PRICE_INPUT_PER_MTOK" "3.0"
              && price_from_env host "LLM_MAINTENANCE_PRICE_OUTPUT_PER_MTOK" "15.0"))
    then serves config (executor_kind_for config.sandbox)
    else panicked

module _ (env : Env) (hash_text : List ℕ → String) (workspace_ids : World → List ℕ)
    (agent_ids : World → ℕ → List ℕ) (host : Host) where
  unfoldable pub after_memory : Config → Gate → M Boot
  unfolding after_chains enforce_audit_chain_floor_at_startup
  after_memory config (exits code) = pure (stopped code)
  after_memory config continues = if not host.database_up then pure panicked else do
    gate ←
        enforce_audit_chain_floor_at_startup env hash_text workspace_ids agent_ids
          (says "relaxed" (host.var "OPEN_PINCERY_AUDIT_CHAIN_FLOOR"))
          (says "true" (host.var "OPEN_PINCERY_ALLOW_UNSAFE"))
    pure (after_chains host config gate)

  unfoldable pub after_config : Checked String Config → M Boot
  unfolding after_memory
  after_config (bad e) = pure panicked
  after_config (valid config) =
      after_memory config
        (enforce_memory_cap_at_startup host.memory config.sandbox.mode config.sandbox.allow_unsafe)

  unfoldable pub after_floor : Gate → M Boot
  unfolding after_config
  after_floor (exits code) = pure (stopped code)
  after_floor continues = after_config (from_env host.var host.number_error host.debug)

  unfoldable pub main : M Boot
  unfolding after_floor
  main = after_floor (run_startup_preflight_with host.probe (floor_env host.var))
