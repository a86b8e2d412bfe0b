-- ===== src/Listener.antt =====
-- `handle_wake` of src/background/listener.rs, and src/runtime/drain.rs.
pub mod Budget
pub mod Drain
use open_pincery.Prelude.{
  ℕ, ◌+◌, String, Bool, true, false, ◌&&◌, Option, none, some, ◌++ˢ◌, if◌then◌else◌, ltb, leb,
}
use open_pincery.Status.{db_asleep, db_wake_acquiring, db_maintenance}
use open_pincery.Json.{str}
use open_pincery.Db.{Agent, not_found, World, M, or_raise, raise, internal, ◌>>=◌, ◌>>◌, pure}
use open_pincery.Env.{Env}
use open_pincery.Agents.{
  get_agent, attempt_wake_acquire, drain_attempt_wake_acquire, release_to_asleep,
}
use open_pincery.Events.{append_event, has_pending_events}
use open_pincery.Lifecycle.{emit}
use open_pincery.Maintenance.{run_maintenance}
use open_pincery.Wake.{WakeConfig}
use open_pincery.Wake.Run.{run_wake_loop}

abbrev pub over_budget : Agent → Bool
over_budget a = ltb 0 a.budget_limit_usd && leb a.budget_limit_usd a.budget_used_usd

-- `reacquired.is_some()`
abbrev pub is_row : Option Agent → Bool
is_row none = false
is_row (some a) = true

module _ (env : Env) where
  module _ (agent_id : ℕ) where
    abbrev pub note_wake : Option ℕ → M (Unit {0})
    note_wake none = pure tt
    note_wake (some new_wake_id) =
        emit env agent_id new_wake_id db_maintenance db_wake_acquiring "AttemptWakeAcquire"

    abbrev pub note_reacquired : Option Agent → M (Unit {0})
    note_reacquired none = pure tt
    note_reacquired (some a) = note_wake a.wake_id

    unfoldable pub reacquire : M Bool
    reacquire = do
      reacquired ← drain_attempt_wake_acquire env agent_id
      note_reacquired reacquired
      pure (is_row reacquired)

    unfoldable pub let_go : M Bool
    let_go = do release_to_asleep env agent_id; pure false

    unfoldable pub check_drain : ℕ → M Bool
    unfolding reacquire let_go
    check_drain wake_started_at = do
      has_new ← has_pending_events env agent_id wake_started_at
      if has_new then reacquire else let_go

  module _ (config : WakeConfig) (fuel agent_id : ℕ) where
    -- `Ok(())` is `true`; `false` is a wake whose fuel did not last.
    unfoldable pub second_done : ℕ → Option String → M Bool
    second_done new_wake_id none = pure false
    second_done new_wake_id (some reason) = do
      run_maintenance env agent_id new_wake_id
      release_to_asleep env agent_id
      pure true

    unfoldable pub drained_with : Option ℕ → Option ℕ → M Bool
    unfolding second_done
    drained_with (some new_wake_id) (some started) = do
      reason ← run_wake_loop env config agent_id new_wake_id fuel
      second_done new_wake_id reason
    drained_with none started = pure true
    drained_with (some new_wake_id) none = pure true

    unfoldable pub drained : Bool → M Bool
    unfolding drained_with
    drained false = pure true
    drained true = do
      row ← get_agent env agent_id
      new_agent ← or_raise row (not_found "Agent not found after drain")
      drained_with new_agent.wake_id new_agent.wake_started_at

    unfoldable pub first_done : ℕ → ℕ → Option String → M Bool
    unfolding drained
    first_done wake_id wake_started_at none = pure false
    first_done wake_id wake_started_at (some reason) = do
      run_maintenance env agent_id wake_id
      reacquired ← check_drain agent_id wake_started_at
      drained reacquired

    -- From the columns of the acquired row; without them the code panics, which ends the task.
    unfoldable pub wake_up : Option ℕ → Option ℕ → M Bool
    unfolding first_done
    wake_up (some wake_id) (some wake_started_at) = do
      emit env agent_id wake_id db_asleep db_wake_acquiring "AttemptWakeAcquire"
      reason ← run_wake_loop env config agent_id wake_id fuel
      first_done wake_id wake_started_at reason
    wake_up none started = raise (internal "panic")
    wake_up (some wake_id) none = raise (internal "panic")

    unfoldable pub acquired : Option Agent → M Bool
    unfolding wake_up
    acquired none = pure true
    acquired (some agent_data) = wake_up agent_data.wake_id agent_data.wake_started_at

    unfoldable pub refuse_budget : Agent → M Bool
    refuse_budget candidate = do
      append_event env agent_id "budget_exceeded" "runtime" none none none none
          (some (
            "{\"limit_usd\":"
            ++ˢ env.money_text candidate.budget_limit_usd
            ++ˢ ",\"used_usd\":"
            ++ˢ env.money_text candidate.budget_used_usd
            ++ˢ "}"))
          none
      pure true

    unfoldable pub try_wake : M Bool
    unfolding acquired
    try_wake = do row ← attempt_wake_acquire env agent_id; acquired row

    unfoldable pub handle_wake : M Bool
    unfolding refuse_budget try_wake
    handle_wake = do
      row ← get_agent env agent_id
      candidate ← or_raise row (not_found "Agent not found for wake")
      if over_budget candidate then refuse_budget candidate else try_wake
