-- ===== src/Wake/Turn.antt =====
-- One turn of the loop `'wake`.
use open_pincery.Prelude.{
  ℕ, ◌+◌, String, Option, none, some, List, [], ◌∷◌, ◌++ˢ◌, if◌then◌else◌, leb, ◌==ˢ◌, decimal,
  length, head?, ◌==◌,
}
use open_pincery.Json.{str}
use open_pincery.Llm.{ToolCallRequest, Choice, ChatResponse, Usage, cost_for}
use open_pincery.Llm.Canary.{scan_for_canary}
use open_pincery.Db.{Agent, not_found, M, gives, statement, ask, or_raise, ◌>>=◌, ◌>>◌, pure}
use open_pincery.Env.{Env}
use open_pincery.Agents.{get_agent}
use open_pincery.Events.{append_event}
use open_pincery.Tools.Dispatch.{validate_tool_call_arguments}
use open_pincery.Wake.{WakeConfig, note}
use open_pincery.Wake.Calls.{Batch, answered, broke, slept, tool_calls}

-- How a turn ends: `break` with a reason; the wake was put to sleep; or the next turn, with the
-- counts of schema-invalid responses and of tool calls.
pub data TurnEnd : Type 0 where
  stop : String → TurnEnd
  asleep : String → TurnEnd
  again : ℕ → ℕ → TurnEnd

abbrev pub charge : ℕ → Option Agent → Option Agent
charge cost none = none
charge cost (some a) = some (record a { budget_used_usd = a.budget_used_usd + cost })

-- `COALESCE($1, 0)` of the cost.
abbrev pub cost_of : Env → Option Usage → ℕ
cost_of env none = 0
cost_of env (some usage) = cost_for env.pricing usage

abbrev pub attempted_of : Option (List ToolCallRequest) → ℕ
attempted_of none = 0
attempted_of (some tcs) = length tcs

-- The number of calls in the first choice.
abbrev pub attempted_calls : Option Choice → ℕ
attempted_calls none = 0
attempted_calls (some choice) = attempted_of choice.message.tool_calls

module _ (env : Env) where
  -- src/models/llm_call.rs, `insert_llm_call`: one transaction, of which the agent's budget and the
  -- number of rows are kept.
  unfoldable pub insert_llm_call : ℕ → ℕ → M (Unit {0})
  insert_llm_call agent_id cost_usd = statement env.fault λ n w. gives tt (record w {
    agents = λ j. if j == agent_id then charge cost_usd (w.agents j) else w.agents j;
    spent_calls = w.spent_calls + 1;
  })

  -- The reads of `prompt::assemble_prompt`. The prompt itself is not kept: what the model answers
  -- to it is the environment's choice.
  unfoldable pub assemble_prompt : M (Unit {0})
  assemble_prompt = statement env.fault λ n w. gives tt w

  -- The first call that fails its schema.
  unfoldable pub first_invalid : List ToolCallRequest → Option (String × String)
  first_invalid [] = none
  first_invalid (tc ∷ tcs) =
      elim (validate_tool_call_arguments env tc.function.name tc.function.arguments) [
        | none ↦ first_invalid tcs
        | some why ↦ some (tc.function.name, why)
      ]

  module _ (config : WakeConfig) (agent_id wake_id : ℕ) (canary_hex : String) where
    unfoldable pub report_echo : ChatResponse → String → M TurnEnd
    report_echo response where_found = do
      let attempted = attempted_calls (head? response.choices)
      let payload =
          "{\"where_found\":"
          ++ˢ env.to_json (str where_found)
          ++ˢ ",\"model_attempted_tool_calls\":"
          ++ˢ decimal attempted
          ++ˢ "}"
      note env agent_id wake_id "prompt_injection_suspected" "runtime" (some payload) none
      pure (stop "prompt_injection_suspected")

    unfoldable pub report_invalid : ℕ → ℕ → String → String → M TurnEnd
    report_invalid schema_invalid_attempts tool_calls_this_wake tool_name why = do
      let payload =
          "{\"tool_name\":"
          ++ˢ env.to_json (str tool_name)
          ++ˢ ",\"schema_errors\":["
          ++ˢ env.to_json (str why)
          ++ˢ "],\"attempt\":"
          ++ˢ decimal (schema_invalid_attempts + 1)
          ++ˢ ",\"retry_cap\":"
          ++ˢ decimal config.schema_invalid_retry_cap
          ++ˢ "}"
      append_event env agent_id "model_response_schema_invalid" "runtime" (some wake_id)
          (some tool_name) none none (some payload) none
      if leb config.schema_invalid_retry_cap (schema_invalid_attempts + 1)
          then pure (stop "FailureAuditPending")
          else pure (again (schema_invalid_attempts + 1) tool_calls_this_wake)

    unfoldable pub say : Option String → M (Unit {0})
    say none = pure tt
    say (some text) = note env agent_id wake_id "assistant_message" "agent" (some text) none

    abbrev pub after_batch : Batch → TurnEnd
    after_batch (answered tool_calls_this_wake) = again 0 tool_calls_this_wake
    after_batch (broke reason) = stop reason
    after_batch (slept reason) = asleep reason

    -- All calls passed their schemas, so the count of invalid responses is 0 again.
    unfoldable pub answer_calls : Agent → ℕ → Choice → List ToolCallRequest → M TurnEnd
    unfolding say
    answer_calls current tool_calls_this_wake choice tcs = do
      say choice.message.content
      batch ← tool_calls env config agent_id wake_id current tcs tool_calls_this_wake
      pure (after_batch batch)

    unfoldable pub check_calls :
        Agent → ℕ → ℕ → Choice → List ToolCallRequest → Option (String × String) → M TurnEnd
    unfolding report_invalid answer_calls
    check_calls current attempts calls choice tcs (some (tool_name, why)) =
        report_invalid attempts calls tool_name why
    check_calls current attempts calls choice tcs none = answer_calls current calls choice tcs

    unfoldable pub no_calls : ℕ → ℕ → Choice → M TurnEnd
    unfolding say
    no_calls attempts calls choice = do
      say choice.message.content
      if choice.finish_reason ==ˢ "stop"
          then pure (stop "completed")
          else pure (again attempts calls)

    unfoldable pub follow : Agent → ℕ → ℕ → Choice → Option (List ToolCallRequest) → M TurnEnd
    unfolding first_invalid check_calls no_calls
    follow current attempts calls choice none = no_calls attempts calls choice
    follow current attempts calls choice (some tcs) =
        check_calls current attempts calls choice tcs (first_invalid tcs)

    unfoldable pub choose : Agent → ℕ → ℕ → Option Choice → M TurnEnd
    unfolding follow
    choose current attempts calls none = pure (stop "empty_response")
    choose current attempts calls (some choice) =
        follow current attempts calls choice choice.message.tool_calls

    unfoldable pub screen : Agent → ℕ → ℕ → ChatResponse → Option String → M TurnEnd
    unfolding report_echo choose
    screen current attempts calls response (some where_found) = report_echo response where_found
    screen current attempts calls response none = do
      insert_llm_call agent_id (cost_of env response.usage)
      choose current attempts calls (head? response.choices)

    unfoldable pub hear : Agent → ℕ → ℕ → Option ChatResponse → M TurnEnd
    unfolding screen
    hear current attempts calls none = pure (stop "llm_error")
    hear current attempts calls (some response) =
        screen current attempts calls response (scan_for_canary response canary_hex)

    unfoldable pub consult : Agent → ℕ → ℕ → M TurnEnd
    unfolding hear
    consult current attempts calls = do
      assemble_prompt
      response ← ask env.chat
      hear current attempts calls response

    unfoldable pub turn : ℕ → ℕ → M TurnEnd
    unfolding consult
    turn attempts calls = do
      row ← get_agent env agent_id
      current ← or_raise row (not_found "Agent disappeared")
      if leb config.iteration_cap current.wake_iteration_count
          then pure (stop "iteration_cap")
          else consult current attempts calls
