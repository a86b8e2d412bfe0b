-- ===== src/Wake/Calls.antt =====
-- The tool calls of one response: the inner `for` of the wake loop.
use open_pincery.Prelude.{
  ℕ, ◌+◌, String, none, some, List, [], ◌∷◌, ◌++ˢ◌, if◌then◌else◌, leb, decimal,
}
use open_pincery.Status.{db_tool_result_processing}
use open_pincery.Llm.{ToolCallRequest}
use open_pincery.Db.{Agent, M, ◌>>=◌, ◌>>◌, pure}
use open_pincery.Env.{Env}
use open_pincery.Agents.{increment_iteration}
use open_pincery.Capability.{from_db_str}
use open_pincery.Events.{append_event}
use open_pincery.Nonce.{mint}
use open_pincery.Tools.{ToolResult, output, sleep, error}
use open_pincery.Tools.Dispatch.{dispatch_tool}
use open_pincery.Wake.{
  WakeConfig, saturating_suc, note, hop_dispatching, hop_executing, hop_result, hop_polling,
  hop_polled, end_wake,
}

-- How a batch of tool calls ends: all were answered, with the wake's count of them; `break 'wake`
-- with a reason; or the wake was put to sleep.
pub data Batch : Type 0 where
  answered : ℕ → Batch
  broke : String → Batch
  slept : String → Batch

module _ (env : Env) (config : WakeConfig) (agent_id wake_id : ℕ) (current : Agent) where
  -- From the recorded call to the state in which its result is processed.
  unfoldable pub authorize_and_dispatch : ToolCallRequest → M ToolResult
  authorize_and_dispatch tc = do
    append_event env agent_id "tool_call" "agent" (some wake_id) (some tc.function.name)
        (some tc.function.arguments) none none none
    let mode = from_db_str current.permission_mode
    ticket ← mint env wake_id current.workspace_id tc.function.name tc.function.arguments
    hop_executing env agent_id wake_id
    result ← dispatch_tool env agent_id wake_id current.workspace_id tc mode ticket
    hop_result env agent_id wake_id
    pure result

  unfoldable pub tool_result : String → String → M (Unit {0})
  tool_result tool_name text = do
    append_event env agent_id "tool_result" "agent" (some wake_id) (some tool_name) none (some text)
        none none
    pure tt

  unfoldable pub fall_asleep : M Batch
  unfolding tool_result
  fall_asleep = do
    tool_result "sleep" "going to sleep"
    reason ←
        end_wake env agent_id wake_id db_tool_result_processing
          "not in admissible state at sleep terminal" "sleep"
    pure (slept reason)

  -- After a result that does not end the wake; `rest` goes on with the new count.
  unfoldable pub next_call : ℕ → (ℕ → M Batch) → M Batch
  next_call tool_calls_this_wake rest = do
    increment_iteration env agent_id
    hop_polling env agent_id wake_id
    hop_polled env agent_id wake_id
    rest (saturating_suc tool_calls_this_wake)

  unfoldable pub after_result : String → ℕ → (ℕ → M Batch) → ToolResult → M Batch
  unfolding fall_asleep tool_result next_call
  after_result tool_name tool_calls_this_wake rest sleep = fall_asleep
  after_result tool_name tool_calls_this_wake rest (output text) = do
    tool_result tool_name text
    next_call tool_calls_this_wake rest
  after_result tool_name tool_calls_this_wake rest (error text) = do
    tool_result tool_name text
    next_call tool_calls_this_wake rest

  unfoldable pub exceed_rate_limit : ℕ → M Batch
  exceed_rate_limit tool_calls_this_wake = do
    let payload =
        "{\"limit\":"
        ++ˢ decimal config.tool_call_rate_limit_per_wake
        ++ˢ ",\"attempted\":"
        ++ˢ decimal (tool_calls_this_wake + 1)
        ++ˢ "}"
    note env agent_id wake_id "tool_call_rate_limit_exceeded" "runtime" (some payload) none
    pure (broke "FailureAuditPending")

  -- A call that the rate limit lets through.
  unfoldable pub serve_call : ToolCallRequest → ℕ → (ℕ → M Batch) → M Batch
  unfolding authorize_and_dispatch after_result
  serve_call tc tool_calls_this_wake rest = do
    result ← authorize_and_dispatch tc
    after_result tc.function.name tool_calls_this_wake rest result

  unfoldable pub tool_calls : List ToolCallRequest → ℕ → M Batch
  unfolding exceed_rate_limit serve_call
  tool_calls [] tool_calls_this_wake = pure (answered tool_calls_this_wake)
  tool_calls (tc ∷ tcs) tool_calls_this_wake = do
    hop_dispatching env agent_id wake_id
    if leb config.tool_call_rate_limit_per_wake tool_calls_this_wake
        then exceed_rate_limit tool_calls_this_wake
        else serve_call tc tool_calls_this_wake (tool_calls tcs)
