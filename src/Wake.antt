-- ===== src/Wake.antt =====
-- src/runtime/wake_loop.rs: one wake of an agent. Here its limits, its status changes and the steps
-- that several parts of the loop share; the children hold the tool calls, one turn, and the run.
pub mod Calls
pub mod Turn
pub mod Run
pub mod Moves
pub mod Trail
pub mod Turns
pub mod Course
pub mod Limits
use open_pincery.Prelude.{
  ℕ, ◌+◌, String, Option, none, some, ◌++ˢ◌, if◌then◌else◌, ltb, leb, ◌-◌, ◌^◌,
}
use open_pincery.Status.{
  db_wake_acquiring, db_prompt_assembling, db_awake, db_tool_dispatching, db_tool_executing,
  db_tool_result_processing, db_mid_wake_event_polling, db_wake_ending, db_maintenance,
}
use open_pincery.Db.{Agent, AppError, not_found, M, or_raise, ◌>>=◌, ◌>>◌, pure}
use open_pincery.Env.{Env}
use open_pincery.Agents.{
  wake_acquire_succeeds, prompt_assembly_completes, enter_tool_dispatching, enter_tool_executing,
  enter_tool_result_processing, enter_mid_wake_event_polling, mid_wake_poll_finds_nothing,
  wake_end_transitions_to_maintenance, enter_wake_ending,
}
use open_pincery.Events.{append_event}
use open_pincery.Lifecycle.{emit}

-- The fields of `Config` that the loop reads. `iteration_cap` is an `i32`; a negative one acts as 0.
pub record WakeConfig : Type 0 where
  pub iteration_cap : ℕ
  pub schema_invalid_retry_cap : ℕ
  pub tool_call_rate_limit_per_wake : ℕ

-- `u32::saturating_add(1)`
unfoldable pub saturating_suc : ℕ → ℕ
saturating_suc n = if ltb (n + 1) (2 ^ 32) then n + 1 else 2 ^ 32 - 1

module _ (env : Env) (agent_id wake_id : ℕ) where
  -- An event without tool columns.
  unfoldable pub note : String → String → Option String → Option String → M (Unit {0})
  note event_type source content termination_reason = do
    append_event env agent_id event_type source (some wake_id) none none none content
        termination_reason
    pure tt

  abbrev pub misplaced : String → String → AppError
  misplaced step place =
      not_found
        ("AC-82 " ++ˢ step ++ˢ ": agent " ++ˢ env.hashing.uuid_text agent_id ++ˢ " " ++ˢ place)

  -- A compare-and-set that must succeed, and its event.
  unfoldable pub hop : M (Option Agent) → AppError → String → String → String → M (Unit {0})
  hop cas lost from to action = do
    row ← cas
    or_raise row lost
    emit env agent_id wake_id from to action

  unfoldable pub hop_acquired : M (Unit {0})
  unfolding hop
  hop_acquired =
      hop (wake_acquire_succeeds env agent_id)
        (misplaced "G7b" "not in wake_acquiring at run_wake_loop entry") db_wake_acquiring
        db_prompt_assembling "WakeAcquireSucceeds"

  unfoldable pub hop_assembled : M (Unit {0})
  unfolding hop
  hop_assembled =
      hop (prompt_assembly_completes env agent_id)
        (misplaced "G7b" "not in prompt_assembling after wake_acquire_succeeds")
        db_prompt_assembling db_awake "PromptAssemblyCompletes"

  unfoldable pub hop_dispatching : M (Unit {0})
  unfolding hop
  hop_dispatching =
      hop (enter_tool_dispatching env agent_id) (misplaced "G7c" "not in awake at tool dispatch")
        db_awake db_tool_dispatching "ToolDispatches"

  unfoldable pub hop_executing : M (Unit {0})
  unfolding hop
  hop_executing =
      hop (enter_tool_executing env agent_id)
        (misplaced "G7c" "not in tool_dispatching at authorize") db_tool_dispatching
        db_tool_executing "AuthorizeExecution"

  unfoldable pub hop_result : M (Unit {0})
  unfolding hop
  hop_result =
      hop (enter_tool_result_processing env agent_id)
        (misplaced "G7c" "not in tool_executing after dispatch") db_tool_executing
        db_tool_result_processing "ReceiveToolResult"

  unfoldable pub hop_polling : M (Unit {0})
  unfolding hop
  hop_polling =
      hop (enter_mid_wake_event_polling env agent_id)
        (misplaced "G7c" "not in tool_result_processing at mid-wake poll") db_tool_result_processing
        db_mid_wake_event_polling "ToolResultProcessedToolLoop"

  unfoldable pub hop_polled : M (Unit {0})
  unfolding hop
  hop_polled =
      hop (mid_wake_poll_finds_nothing env agent_id)
        (misplaced "G7c" "not in mid_wake_event_polling at return-to-awake")
        db_mid_wake_event_polling db_awake "MidWakePollFindsNothing"

  -- The end of a wake, logged as leaving the given status.
  unfoldable pub end_wake : String → String → String → M String
  unfolding hop note
  end_wake prior_status place termination_reason = do
    hop (enter_wake_ending env agent_id) (misplaced "G7d" place) prior_status db_wake_ending
        "TerminalEndsWake"
    note "wake_end" "agent" none (some termination_reason)
    hop (wake_end_transitions_to_maintenance env agent_id)
        (misplaced "G7d" "not in wake_ending at maintenance entry") db_wake_ending db_maintenance
        "WakeEndTransitionsToMaintenance"
    pure termination_reason
