-- ===== src/Listener/Budget.antt =====
-- The budget cap in front of a wake.
use open_pincery.Prelude.{ℕ, ◌≡◌, refl, ap, ◌⊎◌, inl, inr, true, some, [], ◌∷◌, ◌++◌, Bool-cases}
use open_pincery.Chain.{Event}
use open_pincery.Db.{Agent, World, or_raise, ◌>>=◌, statement}
use open_pincery.Db.Triple.{Post, Triple, ticked, Triple-bind, Triple-pure}
use open_pincery.Env.{Env}
use open_pincery.Agents.{get_agent}
use open_pincery.Events.Appends.{Triple-append_event}
use open_pincery.Wake.{WakeConfig}
use open_pincery.Listener.{over_budget, refuse_budget, handle_wake}

-- Nothing but the log and the tick differs, and the log by at most one `budget_exceeded` event of the
-- agent.
pub record Refused (agent_id : ℕ) (w v : World) : Type 0 where
  pub agents : v.agents ≡ w.agents
  pub runs : v.runs ≡ w.runs
  pub spent_calls : v.spent_calls ≡ w.spent_calls
  pub log :
      (v.events ≡ w.events)
      ⊎ ((row : Event) × (v.events ≡ w.events ++ row ∷ [])
          × (row.agent_id ≡ agent_id)
          × (row.event_type ≡ "budget_exceeded"))

module _ (env : Env) (config : WakeConfig) (fuel agent_id : ℕ) (w : World) where
  -- The tables are those of `w`.
  pub record Same (v : World) : Type 0 where
    pub agents : v.agents ≡ w.agents
    pub runs : v.runs ≡ w.runs
    pub spent_calls : v.spent_calls ≡ w.spent_calls
    pub events : v.events ≡ w.events

  Same-Refused : (v : World) → Same v → Refused agent_id w (ticked v)
  Same-Refused v h = record {
    agents = h.agents;
    runs = h.runs;
    spent_calls = h.spent_calls;
    log = inl h.events;
  }

  refuse_budget-Refused :
      (candidate : Agent)
      → Triple Same
          (refuse_budget env config fuel agent_id candidate)
          (λ _. Refused agent_id w)
          (Refused agent_id w)
  unfolding refuse_budget
  refuse_budget-Refused candidate =
      Triple-bind
        (Triple-append_event env agent_id "budget_exceeded" _ _ _ _ _ _ _ Same-Refused
          (λ row v h holds. record {
            agents = h.agents;
            runs = h.runs;
            spent_calls = h.spent_calls;
            log = inr (
              row,
              ap (λ events. events ++ row ∷ []) h.events,
              holds.same_agent,
              holds.same_type,
            );
          }))
        (λ row. Triple-pure true (λ v h. h))

  -- The wake of an agent whose positive budget limit is reached does not start: no agent is written,
  -- no command run and no model call charged, and at most one event is appended, the agent's
  -- `budget_exceeded`.
  pub handle_wake-Refused :
      (candidate : Agent)
      → w.agents agent_id ≡ some candidate
      → over_budget candidate ≡ true
      → Post (λ _. Refused agent_id w) (Refused agent_id w) (handle_wake env config fuel agent_id w)
  unfolding handle_wake get_agent statement or_raise ◌>>=◌
  handle_wake-Refused candidate there over = elim (Bool-cases (env.fault w.tick)) [
    | inl down ↦
        rw (down, statement)
          (Same-Refused w
            (record { agents = refl; runs = refl; spent_calls = refl; events = refl }))
    | inr up ↦
        rw (up, statement, there, over)
          ((refuse_budget-Refused candidate).at (ticked w)
            (record { agents = refl; runs = refl; spent_calls = refl; events = refl }))
  ]
