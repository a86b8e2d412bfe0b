-- ===== src/Wake/Course.antt =====
-- The loop and the whole run, from `wake_acquiring` to `maintenance`.
use open_pincery.Prelude.{
  ℕ, zero, suc, ◌≡◌, refl, String, true, Option, none, some, List, arith, ap, sym, subst, ◌∙◌,
}
use open_pincery.Status.{db_wake_acquiring, db_awake, db_maintenance}
use open_pincery.Db.{Agent, World, M}
use open_pincery.Db.Triple.{
  Post, Triple, Triple-bind, Triple-pure, Triple-or_raise, Triple-off, Triple-ask,
}
use open_pincery.Env.{Env}
use open_pincery.Agents.{is_live}
use open_pincery.Agents.Moves.{Triple-get_agent}
use open_pincery.Lifecycle.Trail.{At, Off, At-Off}
use open_pincery.Tools.Shell.{find_active}
use open_pincery.Tools.Keeps.{Keeps, then-Keeps, pure-Keeps, read-Keeps, attempt-Keeps}
use open_pincery.Wake.{WakeConfig}
use open_pincery.Wake.Turn.{TurnEnd, stop, asleep, again}
use open_pincery.Wake.Run.{
  LoopEnd, ending, ended, unfinished, keyed, resolve_default, resolve_workspace_llm, note_fallback,
  enter, proceed, wake_loop, finish, run_wake_loop,
}
use open_pincery.Wake.Moves.{
  At-Stable, Keeps-Off, note-At, hop_acquired-At, hop_assembled-At, end_wake-At,
}
use open_pincery.Wake.Turns.{Live, TurnAt, turn-At}

module _ (env : Env) (agent_id wake_id : ℕ) (base : List (Option String)) (first : String) where
  abbrev Here : String → World → Type 0
  Here s w = At env agent_id wake_id base first s w

  abbrev Lost : World → Type 0
  Lost w = Off env agent_id wake_id base first w

  module _ (config : WakeConfig) (canary_hex : String) where
    abbrev LoopAt : LoopEnd → World → Type 0
    LoopAt (ending reason) w = Live env agent_id wake_id base first w
    LoopAt (ended reason) w = Here db_maintenance w
    LoopAt unfinished w = Here db_awake w

    proceed-At :
        (rest : ℕ → ℕ → M LoopEnd) (e : TurnEnd)
        → ((attempts calls : ℕ) → Triple (Here db_awake) (rest attempts calls) LoopAt Lost)
        → Triple
            (TurnAt env agent_id wake_id base first e)
            (proceed env config agent_id wake_id canary_hex rest e)
            LoopAt
            Lost
    unfolding proceed
    proceed-At rest (stop reason) t = Triple-pure _ (λ w h. h)
    proceed-At rest (asleep reason) t = Triple-pure _ (λ w h. h)
    proceed-At rest (again attempts calls) t = t attempts calls

    wake_loop-At :
        (fuel attempts calls : ℕ)
        → Triple
            (Here db_awake)
            (wake_loop env config agent_id wake_id canary_hex fuel attempts calls)
            LoopAt
            Lost
    unfolding wake_loop
    wake_loop-At zero attempts calls = Triple-pure _ (λ w h. h)
    wake_loop-At (suc fuel) attempts calls =
        Triple-bind (turn-At env agent_id wake_id base first config canary_hex attempts calls)
          (λ e. proceed-At _ e (wake_loop-At fuel))

  module _ (config : WakeConfig) where
    resolve_workspace_llm-At :
        (workspace_id : ℕ) → Keeps (Here db_awake) (resolve_workspace_llm env workspace_id)
    unfolding resolve_workspace_llm resolve_default keyed find_active
    resolve_workspace_llm-At workspace_id =
        then-Keeps env (At-Stable _ _ _ _ _ db_awake)
          (attempt-Keeps env (At-Stable _ _ _ _ _ db_awake)
            (read-Keeps env (At-Stable _ _ _ _ _ db_awake) _))
          keyed-At
      where
        keyed-At :
            (o : Option (Option (String × String)))
            → Keeps (Here db_awake) (keyed env workspace_id o)
        keyed-At none = pure-Keeps env (At-Stable _ _ _ _ _ db_awake) _
        keyed-At (some none) = pure-Keeps env (At-Stable _ _ _ _ _ db_awake) _
        keyed-At (some (some (base_url, credential_name))) =
            then-Keeps env (At-Stable _ _ _ _ _ db_awake)
              (attempt-Keeps env (At-Stable _ _ _ _ _ db_awake)
                (read-Keeps env (At-Stable _ _ _ _ _ db_awake) _))
              (λ row. pure-Keeps env (At-Stable _ _ _ _ _ db_awake) _)

    note_fallback-At :
        (o : Option String)
        → Triple
            (Here db_awake)
            (note_fallback env config agent_id wake_id o)
            (λ _. Here db_awake)
            Lost
    unfolding note_fallback
    note_fallback-At (some api_key) = Triple-pure tt (λ w h. h)
    note_fallback-At none = note-At env agent_id wake_id base first db_awake _ _ _ _ refl

    enter-At :
        Triple
          (Here db_wake_acquiring)
          (enter env config agent_id wake_id)
          (λ _. Here db_awake)
          Lost
    unfolding enter
    enter-At = Triple-bind (hop_acquired-At env agent_id wake_id base first) (λ _.
        Triple-bind (hop_assembled-At env agent_id wake_id base first) (λ _.
          Triple-bind {Q = λ _. Here db_awake}
            (Triple-ask _ (λ _ w h. record { status = h.status; trail = h.trail }))
            (λ _.
              Triple-bind {Q = λ _. Here db_awake}
                (Triple-ask _ (λ _ w h. record { status = h.status; trail = h.trail }))
                (λ canary.
                  Triple-bind (note-At env agent_id wake_id base first db_awake _ _ _ _ refl) (λ _.
                    Triple-bind (note-At env agent_id wake_id base first db_awake _ _ _ _ refl)
                      (λ _.
                        Triple-bind
                          (Triple-off (Triple-get_agent env agent_id wake_id base first)
                            (λ w h. At-Off _ _ _ _ _ h))
                          (λ row.
                            Triple-bind {Q = λ _. Here db_awake}
                              (Triple-or_raise row _ (λ w h e. At-Off _ _ _ _ _ h.1)
                                (λ a w h e. h.1))
                              (λ resolved_agent.
                                Triple-bind
                                  (Keeps-Off _ _ _ _ _ db_awake
                                    (resolve_workspace_llm-At resolved_agent.workspace_id))
                                  (λ llm_override.
                                    Triple-bind (note_fallback-At llm_override)
                                      (λ _. Triple-pure _ (λ w h. h)))))))))))

    -- A run whose fuel lasts ends in `maintenance`.
    abbrev pub RunAt : Option String → World → Type 0
    RunAt none w = Here db_awake w
    RunAt (some reason) w = Here db_maintenance w

    same :
        (row : Option Agent) (a : Agent) (s : String)
        → ((b : Agent) × (row ≡ some b) × (b.status ≡ s))
        → row ≡ some a
        → a.status ≡ s
    same row a s (b, found, standing) e = ground (arith, found, standing, e)

    -- The terminal part, from wherever the loop was left.
    finish-At :
        (canary_hex : String) (e : LoopEnd)
        → Triple (LoopAt config canary_hex e) (finish env config agent_id wake_id e) RunAt Lost
    unfolding finish
    finish-At canary_hex unfinished = Triple-pure none (λ w h. h)
    finish-At canary_hex (ended reason) = Triple-pure (some reason) (λ w h. h)
    finish-At canary_hex (ending reason) = record {
      at = λ w (s, live, h). (ending_at s live reason).at w h;
    }
      where
        ending_at :
            (s : String)
            → is_live s ≡ true
            → (reason : String)
            → Triple (Here s) (finish env config agent_id wake_id (ending reason)) RunAt Lost
        ending_at s live reason =
            Triple-bind
              (Triple-off (Triple-get_agent env agent_id wake_id base first)
                (λ w h. At-Off _ _ _ _ _ h))
              (λ row.
                Triple-bind {Q = λ prior w. (prior.status ≡ s) × Here s w}
                  (Triple-or_raise row _ (λ w h e. At-Off _ _ _ _ _ h.1)
                    (λ a w h e. (same row a s h.0 e, h.1)))
                  (λ prior. record {
                    at = λ w (e, h).
                        (Triple-bind
                            (end_wake-At env agent_id wake_id base first prior.status _ reason
                              (ap is_live e ∙ live))
                            (λ done. Triple-pure (some done) (λ v here. here))).at
                          w (subst (λ t. Here t w) (sym e) h);
                  }))

    run-At :
        (fuel : ℕ)
        → Triple
            (Here db_wake_acquiring)
            (run_wake_loop env config agent_id wake_id fuel)
            RunAt
            Lost
    unfolding run_wake_loop
    run-At fuel = Triple-bind enter-At (λ canary_hex.
        Triple-bind (wake_loop-At config canary_hex fuel 0 0) (λ e. finish-At canary_hex e))

    -- From a world in which the agent is in `wake_acquiring`, where the path of its transition events
    -- ends, a wake that returns leaves the agent in `maintenance` (in `awake` where the fuel ran out),
    -- and its transition events are those from before, followed by a path of the diagram to that
    -- status, of which each records its own source and target; a wake that breaks off with an error
    -- leaves that path at the agent's status, or one transition of the diagram behind it.
    pub run_wake_loop-At :
        (fuel : ℕ) (w : World)
        → Here db_wake_acquiring w
        → Post RunAt Lost (run_wake_loop env config agent_id wake_id fuel w)
    run_wake_loop-At fuel w h = (run-At fuel).at w h
