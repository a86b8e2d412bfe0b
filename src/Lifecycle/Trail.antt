-- ===== src/Lifecycle/Trail.antt =====
-- The transition diagram, and the log of a wake as a path through it.
use open_pincery.Prelude.{
  ℕ, ◌≡◌, refl, sym, ◌∙◌, ap, subst, ◌⊎◌, inl, inr, String, Bool, true, false, ◌&&◌, ◌||◌, Option,
  some, List, [], ◌∷◌, ◌++◌, keep, keep-append, map, arith, ◌==◌, ◌==ˢ◌, ==_refl, if◌then◌else◌,
}
use mathlib.Core.List.{map-append, append-nil}
use mathlib.Core.Path.{ap₂}
use open_pincery.Status.{
  db_asleep, db_wake_acquiring, db_prompt_assembling, db_awake, db_tool_dispatching,
  db_tool_executing, db_tool_result_processing, db_mid_wake_event_polling, db_wake_ending,
  db_maintenance,
}
use open_pincery.Chain.{Event}
use open_pincery.Db.{Agent, World}
use open_pincery.Db.Triple.{Triple, ticked, Triple-bind, Triple-pure}
use open_pincery.Env.{Env}
use open_pincery.Agents.{is_live}
use open_pincery.Events.{append_event}
use open_pincery.Events.Appends.{Holds, Triple-append_event}
use open_pincery.Lifecycle.{event_kind, canonical_payload, emit}

-- The diagram: the canonical action, the status before and the status after.
unfoldable pub is_edge : String → String → String → Bool
unfolding is_live
is_edge action from to =
    if action ==ˢ "AttemptWakeAcquire"
    then ((from ==ˢ db_asleep) || (from ==ˢ db_maintenance)) && (to ==ˢ db_wake_acquiring)
    else if action ==ˢ "WakeAcquireSucceeds"
    then (from ==ˢ db_wake_acquiring) && (to ==ˢ db_prompt_assembling)
    else if action ==ˢ "PromptAssemblyCompletes"
    then (from ==ˢ db_prompt_assembling) && (to ==ˢ db_awake)
    else if action ==ˢ "ToolDispatches"
    then (from ==ˢ db_awake) && (to ==ˢ db_tool_dispatching)
    else if action ==ˢ "AuthorizeExecution"
    then (from ==ˢ db_tool_dispatching) && (to ==ˢ db_tool_executing)
    else if action ==ˢ "ReceiveToolResult"
    then (from ==ˢ db_tool_executing) && (to ==ˢ db_tool_result_processing)
    else if action ==ˢ "ToolResultProcessedToolLoop"
    then (from ==ˢ db_tool_result_processing) && (to ==ˢ db_mid_wake_event_polling)
    else if action ==ˢ "MidWakePollFindsNothing"
    then (from ==ˢ db_mid_wake_event_polling) && (to ==ˢ db_awake)
    else if action ==ˢ "TerminalEndsWake"
    then is_live from && (to ==ˢ db_wake_ending)
    else if action ==ˢ "WakeEndTransitionsToMaintenance"
    then (from ==ˢ db_wake_ending) && (to ==ˢ db_maintenance)
    else false

-- The contents of the transition events of an agent, oldest first.
abbrev pub is_transition : ℕ → Event → Bool
is_transition agent_id r = (r.agent_id == agent_id) && (r.event_type ==ˢ event_kind)

abbrev pub transitions : ℕ → List Event → List (Option String)
transitions agent_id events = map (λ r. r.content) (keep (is_transition agent_id) events)

module _ (env : Env) (wake_id : ℕ) where
  -- `Trail base first log last`: beyond `base`, the log is a path of the diagram from `first` to
  -- `last`, each step recorded by its canonical payload.
  pub data Trail (base : List (Option String)) (first : String)
      : List (Option String) → String → Type 0 where
    start : Trail base first base first
    step :
        {log : List (Option String)} {from : String} (action to : String)
        → Trail base first log from
        → is_edge action from to ≡ true
        → Trail base first (log ++ some (canonical_payload env from to action wake_id) ∷ []) to

transitions-append :
    (agent_id : ℕ) (events : List Event) (row : Event)
    → transitions agent_id (events ++ row ∷ [])
      ≡ transitions agent_id events ++ transitions agent_id (row ∷ [])
transitions-append agent_id events row =
    ap (map (λ r. r.content)) (keep-append (is_transition agent_id) events (row ∷ []))
    ∙ map-append (λ r. r.content) _ _

-- A transition event adds its content, any other adds nothing.
pub transitions-emit :
    (agent_id : ℕ) (events : List Event) (row : Event) (content : Option String)
    → Holds agent_id event_kind content row
    → transitions agent_id (events ++ row ∷ []) ≡ transitions agent_id events ++ content ∷ []
transitions-emit agent_id events row content h =
    transitions-append agent_id events row
    ∙ ap (◌++◌ (transitions agent_id events)) (single is_ours)
  where
    is_ours : is_transition agent_id row ≡ true
    is_ours =
        ap₂ (λ x y. (x == agent_id) && (y ==ˢ event_kind)) h.same_agent h.same_type
        ∙ ap (λ b. b && (event_kind ==ˢ event_kind)) (==_refl agent_id)

    single : is_transition agent_id row ≡ true → transitions agent_id (row ∷ []) ≡ content ∷ []
    single e = rw e (ap (λ c. c ∷ []) h.same_content)

pub transitions-other :
    (agent_id by : ℕ) (events : List Event) (row : Event) (kind : String) (content : Option String)
    → (kind ==ˢ event_kind) ≡ false
    → Holds by kind content row
    → transitions agent_id (events ++ row ∷ []) ≡ transitions agent_id events
transitions-other agent_id by events row kind content other h =
    transitions-append agent_id events row
    ∙ ap (◌++◌ (transitions agent_id events)) (ground (arith, h.same_type, other))
    ∙ append-nil _

module _ (env : Env) (agent_id wake_id : ℕ) (base : List (Option String)) (first : String) where
  abbrev PathTo : String → World → Type 0
  PathTo s w = Trail env wake_id base first (transitions agent_id w.events) s

  abbrev HasStatus : String → World → Type 0
  HasStatus s w = (row : Agent) × (w.agents agent_id ≡ some row) × (row.status ≡ s)

  -- The agent stands where the log ends.
  pub record At (s : String) (w : World) : Type 0 where
    pub status : HasStatus s w
    pub trail : PathTo s w

  -- The status was written, and its event is due.
  pub record Moved (action from to : String) (w : World) : Type 0 where
    pub edge : is_edge action from to ≡ true
    pub status : HasStatus to w
    pub trail : PathTo from w

  -- The log ends where the agent stands, or one recordable step before.
  pub record Off (w : World) : Type 0 where
    pub logged : String
    pub actual : String
    pub status : HasStatus actual w
    pub trail : PathTo logged w
    pub gap : (logged ≡ actual) ⊎ ((action : String) × (is_edge action logged actual ≡ true))

  pub At-Off : {s : String} {w : World} → At s w → Off w
  At-Off {s = s} h = record {
    logged = s;
    actual = s;
    status = h.status;
    trail = h.trail;
    gap = inl refl;
  }

  pub Moved-Off : {action from to : String} {w : World} → Moved action from to w → Off w
  Moved-Off {action = action} {from = from} {to = to} h = record {
    logged = from;
    actual = to;
    status = h.status;
    trail = h.trail;
    gap = inr (action, h.edge);
  }

  pub At-ticked : {s : String} {w : World} → At s w → At s (ticked w)
  At-ticked h = record { status = h.status; trail = h.trail }

  pub Off-ticked : {w : World} → Off w → Off (ticked w)
  Off-ticked h = record {
    logged = h.logged;
    actual = h.actual;
    status = h.status;
    trail = h.trail;
    gap = h.gap;
  }

  -- The event of a written status brings the log up to it.
  pub Triple-emit :
      (action from to : String)
      → Triple
          (Moved action from to)
          (emit env agent_id wake_id from to action)
          (λ _ w. At to w)
          Off
  unfolding emit
  Triple-emit action from to =
      Triple-bind
        (Triple-append_event env agent_id event_kind _ _ _ _ _ _ _ (λ w h. Off-ticked (Moved-Off h))
          (λ row w h holds. record {
            status = h.status;
            trail =
                subst (λ log. Trail env wake_id base first log to)
                  (sym (transitions-emit agent_id w.events row _ holds))
                  (step action to h.trail h.edge);
          }))
        (λ _. Triple-pure tt (λ w h. h))

  -- Any other event leaves the agent where it was.
  pub Triple-append_other :
      {s : String} (by : ℕ) (event_type source : String) (wake : Option ℕ)
      (tool_name tool_input tool_output content termination_reason : Option String)
      → (event_type ==ˢ event_kind) ≡ false
      → Triple
          (At s)
          (append_event env by event_type source wake tool_name tool_input tool_output content
            termination_reason)
          (λ _ w. At s w)
          (λ w. At s w)
  Triple-append_other {s = s} by event_type source wake tool_name tool_input tool_output content
        termination_reason other =
      Triple-append_event env by event_type source wake tool_name tool_input tool_output content
        termination_reason (λ w h. At-ticked h)
        (λ row w h holds. record {
          status = h.status;
          trail =
              subst (λ log. Trail env wake_id base first log s)
                (sym (transitions-other agent_id by w.events row event_type content other holds))
                h.trail;
        })
