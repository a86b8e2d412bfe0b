-- ===== src/Wake/Trail.antt =====
-- A whole wake, as a path of the transition diagram that its log records step by step.
use open_pincery.Prelude.{
  ℕ, ◌≡◌, refl, ◌⊎◌, inl, inr, String, true, Option, List, [], ◌∷◌, Option-cases, leb,
}
use open_pincery.Status.{
  db_awake, db_tool_dispatching, db_tool_executing, db_tool_result_processing, db_maintenance,
}
use open_pincery.Llm.{ToolCallRequest}
use open_pincery.Db.{Agent, World, M}
use open_pincery.Db.Triple.{
  Triple, Triple-bind, Triple-pure, Triple-off, Triple-weaken, Triple-if, Triple-ask,
  Triple-statement,
}
use open_pincery.Env.{Env}
use open_pincery.Agents.{is_live}
use open_pincery.Agents.Moves.{Triple-increment_iteration}
use open_pincery.Capability.{PermissionMode}
use open_pincery.Lifecycle.Trail.{At, Off, At-Off}
use open_pincery.Nonce.{mint, CapabilityNonceTicket}
use open_pincery.Tools.{ToolResult, output, sleep, error}
use open_pincery.Tools.Dispatch.{dispatch_tool}
use open_pincery.Tools.Gate.{dispatch_tool-Outcome}
use open_pincery.Tools.Keeps.{Stable, Keeps, append_event-Keeps, then-Keeps, pure-Keeps}
use open_pincery.Wake.{WakeConfig, saturating_suc}
use open_pincery.Wake.Calls.{
  Batch, answered as calls_answered, broke, slept, authorize_and_dispatch, tool_result, fall_asleep,
  next_call, after_result, exceed_rate_limit, serve_call, tool_calls,
}
use open_pincery.Wake.Moves.{
  At-Stable, Keeps-Off, note-At, hop_dispatching-At, hop_executing-At, hop_result-At,
  hop_polling-At, hop_polled-At, end_wake-At,
}

module _ (env : Env) {I : World → Type 0} (stable : Stable I) where
  pub mint-Keeps :
      (wake_id workspace_id : ℕ) (tool_name args_json : String)
      → Keeps I (mint env wake_id workspace_id tool_name args_json)
  unfolding mint
  mint-Keeps wake_id workspace_id tool_name args_json =
      Triple-bind (Triple-ask env.random16 (λ _ w h. stable.ticks w _ h)) (λ nonce.
        Triple-bind
          (Triple-statement env.fault _ (λ w h. stable.ticks w _ h)
            (λ w h. elim (Option-cases (w.nonces workspace_id nonce)) [
              | inl absent ↦ rw absent (stable.ticks _ _ (stable.spends workspace_id nonce _ w h))
              | inr (row, there) ↦ rw there (stable.ticks w _ h)
            ]))
          (λ _. pure-Keeps env stable _))

module _ (env : Env) (agent_id wake_id : ℕ) (base : List (Option String)) (first : String) where
  abbrev Here : String → World → Type 0
  Here s w = At env agent_id wake_id base first s w

  abbrev Lost : World → Type 0
  Lost w = Off env agent_id wake_id base first w

  dispatch_tool-At :
      (s : String) (workspace_id : ℕ) (tc : ToolCallRequest) (mode : PermissionMode)
      (ticket : CapabilityNonceTicket)
      → Triple
          (Here s)
          (dispatch_tool env agent_id wake_id workspace_id tc mode ticket)
          (λ _. Here s)
          Lost
  dispatch_tool-At s workspace_id tc mode ticket =
      Triple-off
        (Triple-weaken {Q = λ _ w. Here s w ⊎ Here s w}
          (record {
            at = λ w h.
                dispatch_tool-Outcome env agent_id wake_id workspace_id
                  (At-Stable env agent_id wake_id base first s)
                  (At-Stable env agent_id wake_id base first s) tc mode ticket w h
                  (λ allowed ready is_shell command asked v here. record {
                    status = here.status;
                    trail = here.trail;
                  });
          })
          (λ w h. h) (λ a w h. either w h))
        (λ w h. At-Off _ _ _ _ _ (either w h))
    where
      either : (w : World) → Here s w ⊎ Here s w → Here s w
      either w (inl h) = h
      either w (inr h) = h

  module _ (config : WakeConfig) (current : Agent) where
    authorize_and_dispatch-At :
        (tc : ToolCallRequest)
        → Triple
            (Here db_tool_dispatching)
            (authorize_and_dispatch env config agent_id wake_id current tc)
            (λ _. Here db_tool_result_processing)
            Lost
    unfolding authorize_and_dispatch
    authorize_and_dispatch-At tc =
        Triple-bind
          (Keeps-Off _ _ _ _ _ db_tool_dispatching
            (append_event-Keeps env (At-Stable _ _ _ _ _ _) _ _ _ _ _ _ _ _ _ refl))
          (λ _.
            Triple-bind
              (Keeps-Off _ _ _ _ _ db_tool_dispatching
                (mint-Keeps env (At-Stable _ _ _ _ _ _) _ _ _ _))
              (λ ticket. Triple-bind (hop_executing-At env agent_id wake_id base first) (λ _.
                Triple-bind (dispatch_tool-At db_tool_executing _ tc _ ticket) (λ result.
                  Triple-bind (hop_result-At env agent_id wake_id base first)
                    (λ _. Triple-pure result (λ w h. h))))))

    tool_result-At :
        (s tool_name text : String)
        → Triple
            (Here s)
            (tool_result env config agent_id wake_id current tool_name text)
            (λ _. Here s)
            Lost
    unfolding tool_result
    tool_result-At s tool_name text = Keeps-Off _ _ _ _ _ s (
        then-Keeps env (At-Stable _ _ _ _ _ s)
          (append_event-Keeps env (At-Stable _ _ _ _ _ s) _ _ _ _ _ _ _ _ _ refl)
          (λ _. pure-Keeps env (At-Stable _ _ _ _ _ s) tt))

    -- Where a batch leaves the agent.
    abbrev pub BatchAt : Batch → World → Type 0
    BatchAt (calls_answered n) w = Here db_awake w
    BatchAt (broke reason) w = Here db_tool_dispatching w
    BatchAt (slept reason) w = Here db_maintenance w

    next_call-At :
        (n : ℕ) (rest : ℕ → M Batch)
        → Triple (Here db_awake) (rest (saturating_suc n)) BatchAt Lost
        → Triple
            (Here db_tool_result_processing)
            (next_call env config agent_id wake_id current n rest)
            BatchAt
            Lost
    unfolding next_call
    next_call-At n rest t =
        Triple-bind
          (Triple-off (Triple-increment_iteration env agent_id wake_id base first)
            (λ w h. At-Off _ _ _ _ _ h))
          (λ _.
            Triple-bind (hop_polling-At env agent_id wake_id base first)
              (λ _. Triple-bind (hop_polled-At env agent_id wake_id base first) (λ _. t)))

    is_live_result : is_live db_tool_result_processing ≡ true
    unfolding is_live
    is_live_result = refl

    after_result-At :
        (tool_name : String) (n : ℕ) (rest : ℕ → M Batch) (result : ToolResult)
        → Triple (Here db_awake) (rest (saturating_suc n)) BatchAt Lost
        → Triple
            (Here db_tool_result_processing)
            (after_result env config agent_id wake_id current tool_name n rest result)
            BatchAt
            Lost
    unfolding after_result fall_asleep
    after_result-At tool_name n rest sleep t =
        Triple-bind (tool_result-At db_tool_result_processing _ _) (λ _.
          Triple-bind
            (end_wake-At env agent_id wake_id base first db_tool_result_processing _ _
              is_live_result)
            (λ reason. Triple-pure (slept reason) (λ w h. h)))
    after_result-At tool_name n rest (output text) t =
        Triple-bind (tool_result-At db_tool_result_processing _ _) (λ _. next_call-At n rest t)
    after_result-At tool_name n rest (error text) t =
        Triple-bind (tool_result-At db_tool_result_processing _ _) (λ _. next_call-At n rest t)

    pub tool_calls-At :
        (tcs : List ToolCallRequest) (n : ℕ)
        → Triple (Here db_awake) (tool_calls env config agent_id wake_id current tcs n) BatchAt Lost
    unfolding tool_calls serve_call exceed_rate_limit
    tool_calls-At [] n = Triple-pure _ (λ w h. h)
    tool_calls-At (tc ∷ tcs) n =
        Triple-bind (hop_dispatching-At env agent_id wake_id base first) (λ _.
          Triple-if (leb config.tool_call_rate_limit_per_wake n)
            (λ _.
              Triple-bind (note-At env agent_id wake_id base first db_tool_dispatching _ _ _ _ refl)
                (λ _. Triple-pure _ (λ w h. h)))
            (λ _. Triple-bind (authorize_and_dispatch-At tc) (λ result.
              after_result-At tc.function.name n
                (tool_calls env config agent_id wake_id current tcs) result
                (tool_calls-At tcs (saturating_suc n)))))
