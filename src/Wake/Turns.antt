-- ===== src/Wake/Turns.antt =====
-- One turn of the loop: where it leaves the agent.
use open_pincery.Prelude.{
  ℕ, ◌+◌, ◌≡◌, refl, String, true, Option, none, some, List, leb, head?, ◌==ˢ◌, ==_refl,
}
use open_pincery.Status.{db_awake, db_tool_dispatching, db_maintenance}
use open_pincery.Llm.{ToolCallRequest, Choice, ChatResponse}
use open_pincery.Llm.Canary.{scan_for_canary}
use open_pincery.Db.{Agent, World}
use open_pincery.Db.Triple.{
  Triple, Triple-bind, Triple-pure, Triple-or_raise, Triple-off, Triple-if, Triple-ask,
  Triple-statement,
}
use open_pincery.Env.{Env}
use open_pincery.Agents.{is_live}
use open_pincery.Agents.Moves.{Triple-get_agent}
use open_pincery.Lifecycle.Trail.{At, Off, At-Off}
use open_pincery.Tools.Keeps.{append_event-Keeps, read-Keeps}
use open_pincery.Wake.{WakeConfig}
use open_pincery.Wake.Calls.{Batch, answered, broke, slept}
use open_pincery.Wake.Turn.{
  TurnEnd, stop, asleep, again, insert_llm_call, assemble_prompt, first_invalid, report_echo,
  report_invalid, say, after_batch, answer_calls, check_calls, no_calls, follow, choose, screen,
  hear, consult, turn,
}
use open_pincery.Wake.Moves.{At-Stable, Keeps-Off, note-At}
use open_pincery.Wake.Trail.{BatchAt, tool_calls-At}

module _ (env : Env) (agent_id wake_id : ℕ) (base : List (Option String)) (first : String) where
  abbrev Here : String → World → Type 0
  Here s w = At env agent_id wake_id base first s w

  abbrev Lost : World → Type 0
  Lost w = Off env agent_id wake_id base first w

  -- Somewhere from where a wake may be ended.
  abbrev pub Live : World → Type 0
  Live w = (s : String) × (is_live s ≡ true) × Here s w

  abbrev pub TurnAt : TurnEnd → World → Type 0
  TurnAt (stop reason) w = Live w
  TurnAt (asleep reason) w = Here db_maintenance w
  TurnAt (again attempts calls) w = Here db_awake w

  awake-Live : (w : World) → Here db_awake w → Live w
  unfolding is_live
  awake-Live w h = (db_awake, refl, h)

  dispatching-Live : (w : World) → Here db_tool_dispatching w → Live w
  unfolding is_live
  dispatching-Live w h = (db_tool_dispatching, refl, h)

  insert_llm_call-At :
      (cost : ℕ)
      → Triple (Here db_awake) (insert_llm_call env agent_id cost) (λ _. Here db_awake) Lost
  unfolding insert_llm_call
  insert_llm_call-At cost =
      Triple-off {E = Here db_awake}
        (Triple-statement env.fault _ (λ w h. record { status = h.status; trail = h.trail })
          (λ w h.
            let (a, there, standing) = h.status in
            record {
              status = (
                record a { budget_used_usd = a.budget_used_usd + cost },
                rw (==_refl agent_id, there) refl,
                standing,
              );
              trail = h.trail;
            }))
        (λ w h. At-Off _ _ _ _ _ h)

  module _ (config : WakeConfig) (canary_hex : String) where
    say-At :
        (o : Option String)
        → Triple
            (Here db_awake)
            (say env config agent_id wake_id canary_hex o)
            (λ _. Here db_awake)
            Lost
    unfolding say
    say-At none = Triple-pure tt (λ w h. h)
    say-At (some text) = note-At env agent_id wake_id base first db_awake _ _ _ _ refl

    report_invalid-At :
        (attempts calls : ℕ) (tool_name why : String)
        → Triple
            (Here db_awake)
            (report_invalid env config agent_id wake_id canary_hex attempts calls tool_name why)
            TurnAt
            Lost
    unfolding report_invalid
    report_invalid-At attempts calls tool_name why =
        Triple-bind
          (Keeps-Off _ _ _ _ _ db_awake
            (append_event-Keeps env (At-Stable _ _ _ _ _ db_awake) _ _ _ _ _ _ _ _ _ refl))
          (λ _.
            Triple-if (leb config.schema_invalid_retry_cap (attempts + 1))
              (λ _. Triple-pure _ awake-Live) (λ _. Triple-pure _ (λ w h. h)))

    after_batch-At :
        (current : Agent) (batch : Batch) (w : World)
        → BatchAt env agent_id wake_id base first config current batch w
        → TurnAt (after_batch env config agent_id wake_id canary_hex batch) w
    after_batch-At current (answered n) w h = h
    after_batch-At current (broke reason) w h = dispatching-Live w h
    after_batch-At current (slept reason) w h = h

    answer_calls-At :
        (current : Agent) (calls : ℕ) (choice : Choice) (tcs : List ToolCallRequest)
        → Triple
            (Here db_awake)
            (answer_calls env config agent_id wake_id canary_hex current calls choice tcs)
            TurnAt
            Lost
    unfolding answer_calls
    answer_calls-At current calls choice tcs = Triple-bind (say-At choice.message.content) (λ _.
        Triple-bind (tool_calls-At env agent_id wake_id base first config current tcs calls)
          (λ batch. Triple-pure _ (after_batch-At current batch)))

    no_calls-At :
        (attempts calls : ℕ) (choice : Choice)
        → Triple
            (Here db_awake)
            (no_calls env config agent_id wake_id canary_hex attempts calls choice)
            TurnAt
            Lost
    unfolding no_calls
    no_calls-At attempts calls choice = Triple-bind (say-At choice.message.content) (λ _.
        Triple-if (choice.finish_reason ==ˢ "stop") (λ _. Triple-pure _ awake-Live)
          (λ _. Triple-pure _ (λ w h. h)))

    check_calls-At :
        (current : Agent) (attempts calls : ℕ) (choice : Choice) (tcs : List ToolCallRequest)
        (invalid : Option (String × String))
        → Triple
            (Here db_awake)
            (check_calls env config agent_id wake_id canary_hex current attempts calls choice tcs
              invalid)
            TurnAt
            Lost
    unfolding check_calls
    check_calls-At current attempts calls choice tcs (some (tool_name, why)) =
        report_invalid-At attempts calls tool_name why
    check_calls-At current attempts calls choice tcs none = answer_calls-At current calls choice tcs

    follow-At :
        (current : Agent) (attempts calls : ℕ) (choice : Choice) (o : Option (List ToolCallRequest))
        → Triple
            (Here db_awake)
            (follow env config agent_id wake_id canary_hex current attempts calls choice o)
            TurnAt
            Lost
    unfolding follow
    follow-At current attempts calls choice none = no_calls-At attempts calls choice
    follow-At current attempts calls choice (some tcs) =
        check_calls-At current attempts calls choice tcs (first_invalid env tcs)

    choose-At :
        (current : Agent) (attempts calls : ℕ) (o : Option Choice)
        → Triple
            (Here db_awake)
            (choose env config agent_id wake_id canary_hex current attempts calls o)
            TurnAt
            Lost
    unfolding choose
    choose-At current attempts calls none = Triple-pure _ awake-Live
    choose-At current attempts calls (some choice) =
        follow-At current attempts calls choice choice.message.tool_calls

    screen-At :
        (current : Agent) (attempts calls : ℕ) (response : ChatResponse) (echo : Option String)
        → Triple
            (Here db_awake)
            (screen env config agent_id wake_id canary_hex current attempts calls response echo)
            TurnAt
            Lost
    unfolding screen report_echo
    screen-At current attempts calls response (some where_found) =
        Triple-bind (note-At env agent_id wake_id base first db_awake _ _ _ _ refl)
          (λ _. Triple-pure _ awake-Live)
    screen-At current attempts calls response none =
        Triple-bind (insert_llm_call-At _)
          (λ _. choose-At current attempts calls (head? response.choices))

    hear-At :
        (current : Agent) (attempts calls : ℕ) (o : Option ChatResponse)
        → Triple
            (Here db_awake)
            (hear env config agent_id wake_id canary_hex current attempts calls o)
            TurnAt
            Lost
    unfolding hear
    hear-At current attempts calls none = Triple-pure _ awake-Live
    hear-At current attempts calls (some response) =
        screen-At current attempts calls response (scan_for_canary response canary_hex)

    consult-At :
        (current : Agent) (attempts calls : ℕ)
        → Triple
            (Here db_awake)
            (consult env config agent_id wake_id canary_hex current attempts calls)
            TurnAt
            Lost
    unfolding consult assemble_prompt
    consult-At current attempts calls =
        Triple-bind (Keeps-Off _ _ _ _ _ db_awake (read-Keeps env (At-Stable _ _ _ _ _ db_awake) _))
          (λ _.
            Triple-bind
              (Triple-ask env.chat (λ _ w h. record { status = h.status; trail = h.trail }))
              (λ o. hear-At current attempts calls o))

    pub turn-At :
        (attempts calls : ℕ)
        → Triple
            (Here db_awake)
            (turn env config agent_id wake_id canary_hex attempts calls)
            TurnAt
            Lost
    unfolding turn
    turn-At attempts calls =
        Triple-bind
          (Triple-off (Triple-get_agent env agent_id wake_id base first)
            (λ w h. At-Off _ _ _ _ _ h))
          (λ row.
            Triple-bind {Q = λ _. Here db_awake}
              (Triple-or_raise row _ (λ w h e. At-Off _ _ _ _ _ h.1) (λ a w h e. h.1))
              (λ current.
                Triple-if (leb config.iteration_cap current.wake_iteration_count)
                  (λ _. Triple-pure _ awake-Live) (λ _. consult-At current attempts calls)))
