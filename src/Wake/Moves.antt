-- ===== src/Wake/Moves.antt =====
-- Each step of a wake takes an agent that stands where its log ends to the next such place.
use open_pincery.Prelude.{ℕ, ◌≡◌, refl, String, true, false, Option, some, List, ◌==ˢ◌, subst, sym}
use open_pincery.Status.{
  db_wake_acquiring, db_prompt_assembling, db_awake, db_tool_dispatching, db_tool_executing,
  db_tool_result_processing, db_mid_wake_event_polling, db_wake_ending, db_maintenance,
}
use open_pincery.Db.{Agent, AppError, M}
use open_pincery.Db.Triple.{Triple, Triple-bind, Triple-pure, Triple-or_raise, Triple-off}
use open_pincery.Env.{Env}
use open_pincery.Agents.{
  is_live, wake_acquire_succeeds, prompt_assembly_completes, enter_tool_dispatching,
  enter_tool_executing, enter_tool_result_processing, enter_mid_wake_event_polling,
  mid_wake_poll_finds_nothing, wake_end_transitions_to_maintenance,
}
use open_pincery.Agents.Moves.{Triple-status_cas, Triple-enter_wake_ending}
use open_pincery.Lifecycle.{event_kind}
use open_pincery.Lifecycle.Trail.{
  Trail, is_edge, transitions-other, At, Moved, Off, At-Off, Moved-Off, Triple-emit,
}
use open_pincery.Tools.Keeps.{Stable, Keeps}
use open_pincery.Wake.{
  note, hop, hop_acquired, hop_assembled, hop_dispatching, hop_executing, hop_result, hop_polling,
  hop_polled, end_wake,
}
use open_pincery.Tools.Keeps.{append_event-Keeps, then-Keeps, pure-Keeps}

module _ (env : Env) (agent_id wake_id : ℕ) (base : List (Option String)) (first : String) where
  pub At-Stable : (s : String) → Stable (At env agent_id wake_id base first s)
  At-Stable s = record {
    ticks = λ w n h. record { status = h.status; trail = h.trail };
    appends = λ by kind content row w other holds h. record {
      status = h.status;
      trail =
          subst (λ log. Trail env wake_id base first log s)
            (sym (transitions-other agent_id by w.events row kind content other holds)) h.trail;
    };
    spends = λ u n row w h. record { status = h.status; trail = h.trail };
  }

  -- What keeps the agent's place may break off at that place.
  pub Keeps-Off :
      {A : Type 0} {m : M A} (s : String)
      → Keeps (At env agent_id wake_id base first s) m
      → Triple
          (At env agent_id wake_id base first s)
          m
          (λ _. At env agent_id wake_id base first s)
          (Off env agent_id wake_id base first)
  Keeps-Off s t = Triple-off t (λ w h. At-Off _ _ _ _ _ h)

  pub note-At :
      (s event_type source : String) (content termination_reason : Option String)
      → (event_type ==ˢ event_kind) ≡ false
      → Triple
          (At env agent_id wake_id base first s)
          (note env agent_id wake_id event_type source content termination_reason)
          (λ _. At env agent_id wake_id base first s)
          (Off env agent_id wake_id base first)
  unfolding note
  note-At s event_type source content termination_reason other = Keeps-Off s (
      then-Keeps env (At-Stable s) (append_event-Keeps env (At-Stable s) _ _ _ _ _ _ _ _ _ other)
        (λ _. pure-Keeps env (At-Stable s) tt))

  hop-At :
      (cas : M (Option Agent)) (lost : AppError) (from to action : String)
      → Triple
          (At env agent_id wake_id base first from)
          cas
          (λ row w.
            ((a : Agent) × (row ≡ some a)) × Moved env agent_id wake_id base first action from to w)
          (Off env agent_id wake_id base first)
      → Triple
          (At env agent_id wake_id base first from)
          (hop env agent_id wake_id cas lost from to action)
          (λ _. At env agent_id wake_id base first to)
          (Off env agent_id wake_id base first)
  unfolding hop
  hop-At cas lost from to action moved = Triple-bind moved (λ row.
      Triple-bind {Q = λ _. Moved env agent_id wake_id base first action from to}
        (Triple-or_raise row lost (λ w h e. Moved-Off _ _ _ _ _ h.1) (λ a w h e. h.1))
        (λ _. Triple-emit env agent_id wake_id base first action from to))

  abbrev Goes : {A : Type 0} → M A → String → String → Type 0
  Goes m from to =
      Triple (At env agent_id wake_id base first from) m
        (λ _. At env agent_id wake_id base first to) (Off env agent_id wake_id base first)

  pub hop_acquired-At :
      Goes (hop_acquired env agent_id wake_id) db_wake_acquiring db_prompt_assembling
  unfolding hop_acquired wake_acquire_succeeds is_edge
  hop_acquired-At = hop-At _ _ _ _ _ (Triple-status_cas env agent_id wake_id base first _ _ _ refl)

  pub hop_assembled-At : Goes (hop_assembled env agent_id wake_id) db_prompt_assembling db_awake
  unfolding hop_assembled prompt_assembly_completes is_edge
  hop_assembled-At = hop-At _ _ _ _ _ (Triple-status_cas env agent_id wake_id base first _ _ _ refl)

  pub hop_dispatching-At : Goes (hop_dispatching env agent_id wake_id) db_awake db_tool_dispatching
  unfolding hop_dispatching enter_tool_dispatching is_edge
  hop_dispatching-At =
      hop-At _ _ _ _ _ (Triple-status_cas env agent_id wake_id base first _ _ _ refl)

  pub hop_executing-At :
      Goes (hop_executing env agent_id wake_id) db_tool_dispatching db_tool_executing
  unfolding hop_executing enter_tool_executing is_edge
  hop_executing-At = hop-At _ _ _ _ _ (Triple-status_cas env agent_id wake_id base first _ _ _ refl)

  pub hop_result-At :
      Goes (hop_result env agent_id wake_id) db_tool_executing db_tool_result_processing
  unfolding hop_result enter_tool_result_processing is_edge
  hop_result-At = hop-At _ _ _ _ _ (Triple-status_cas env agent_id wake_id base first _ _ _ refl)

  pub hop_polling-At :
      Goes (hop_polling env agent_id wake_id) db_tool_result_processing db_mid_wake_event_polling
  unfolding hop_polling enter_mid_wake_event_polling is_edge
  hop_polling-At = hop-At _ _ _ _ _ (Triple-status_cas env agent_id wake_id base first _ _ _ refl)

  pub hop_polled-At : Goes (hop_polled env agent_id wake_id) db_mid_wake_event_polling db_awake
  unfolding hop_polled mid_wake_poll_finds_nothing is_edge
  hop_polled-At = hop-At _ _ _ _ _ (Triple-status_cas env agent_id wake_id base first _ _ _ refl)

  -- A live wake is ended, under the status that it has.
  pub end_wake-At :
      (from place reason : String)
      → is_live from ≡ true
      → Goes (end_wake env agent_id wake_id from place reason) from db_maintenance
  unfolding end_wake wake_end_transitions_to_maintenance is_edge
  end_wake-At from place reason live =
      Triple-bind
        (hop-At _ _ _ _ _ (Triple-enter_wake_ending env agent_id wake_id base first from live))
        (λ _. Triple-bind (note-At db_wake_ending _ _ _ _ refl) (λ _.
          Triple-bind
            (hop-At _ _ _ _ _ (Triple-status_cas env agent_id wake_id base first _ _ _ refl))
            (λ _. Triple-pure reason (λ w h. h))))
