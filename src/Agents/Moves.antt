-- ===== src/Agents/Moves.antt =====
-- What the statements on `agents` do to an agent that stands where its log ends.
use open_pincery.Prelude.{
  ℕ, ◌+◌, ◌^◌, ◌≡◌, refl, ◌∙◌, ap, inl, inr, String, Bool, true, Option, some, List, arith,
  Bool-cases, ltb, ==_refl, ◌==ˢ◌, ==ˢ_refl,
}
use open_pincery.Status.{db_wake_ending}
use open_pincery.Db.{Agent, World, statement}
use open_pincery.Db.Triple.{Triple, ticked, Triple-statement}
use open_pincery.Env.{Env}
use open_pincery.Agents.{
  update_row, status_cas, is_live, enter_wake_ending, increment_iteration, increment_row, get_agent,
}
use open_pincery.Lifecycle.Trail.{is_edge, At, Moved, Off, At-Off, At-ticked}

module _ (env : Env) (agent_id wake_id : ℕ) (base : List (Option String)) (first : String) where
  -- An `UPDATE … RETURNING` whose test holds of a row with this status writes the row.
  Triple-update_row :
      {E : World → Type 0} (from to action : String) (test : Agent → Bool)
      → is_edge action from to ≡ true
      → ((a : Agent) → a.status ≡ from → test a ≡ true)
      → ((w : World) → At env agent_id wake_id base first from w → E (ticked w))
      → Triple
          (At env agent_id wake_id base first from)
          (statement env.fault
            λ n w. update_row agent_id test (λ a. record a { status = to }) (w.agents agent_id) w)
          (λ row w.
            ((a : Agent) × (row ≡ some a)) × Moved env agent_id wake_id base first action from to w)
          E
  Triple-update_row from to action test edge passes lost = Triple-statement env.fault _ lost λ w h.
      let (a, there, standing) = h.status in
      rw (there, passes a standing)
        (
          (_, refl),
          record {
            edge = edge;
            status = (record a { status = to }, ground (arith, ==_refl agent_id), refl);
            trail = h.trail;
          },
        )

  -- A compare-and-set along an edge of the diagram.
  pub Triple-status_cas :
      (from to action : String)
      → is_edge action from to ≡ true
      → Triple
          (At env agent_id wake_id base first from)
          (status_cas env from to agent_id)
          (λ row w.
            ((a : Agent) × (row ≡ some a)) × Moved env agent_id wake_id base first action from to w)
          (Off env agent_id wake_id base first)
  Triple-status_cas from to action edge =
      Triple-update_row from to action (λ a. a.status ==ˢ from) edge
        (λ a e. ap (λ s. s ==ˢ from) e ∙ ==ˢ_refl from)
        (λ w h. At-Off _ _ _ _ _ (At-ticked _ _ _ _ _ h))

  -- The end of a wake, from any status in which it may be terminated.
  pub Triple-enter_wake_ending :
      (from : String)
      → is_live from ≡ true
      → Triple
          (At env agent_id wake_id base first from)
          (enter_wake_ending env agent_id)
          (λ row w.
            ((a : Agent) × (row ≡ some a))
            × Moved env agent_id wake_id base first "TerminalEndsWake" from db_wake_ending w)
          (Off env agent_id wake_id base first)
  unfolding enter_wake_ending is_edge
  Triple-enter_wake_ending from live =
      Triple-update_row from db_wake_ending "TerminalEndsWake" (λ a. is_live a.status)
        (ground (arith, live)) (λ a e. ap is_live e ∙ live)
        (λ w h. At-Off _ _ _ _ _ (At-ticked _ _ _ _ _ h))

  pub Triple-get_agent :
      {s : String}
      → Triple
          (At env agent_id wake_id base first s)
          (get_agent env agent_id)
          (λ row w.
            ((a : Agent) × (row ≡ some a) × (a.status ≡ s))
            × At env agent_id wake_id base first s w)
          (At env agent_id wake_id base first s)
  unfolding get_agent
  Triple-get_agent =
      Triple-statement env.fault _ (λ w h. At-ticked _ _ _ _ _ h)
        λ w h. (h.status, At-ticked _ _ _ _ _ h)

  pub Triple-increment_iteration :
      {s : String}
      → Triple
          (At env agent_id wake_id base first s)
          (increment_iteration env agent_id)
          (λ _ w. At env agent_id wake_id base first s w)
          (At env agent_id wake_id base first s)
  unfolding increment_iteration increment_row
  Triple-increment_iteration {s = s} =
      Triple-statement env.fault _ (λ w h. At-ticked _ _ _ _ _ h)
        λ w h.
          let (a, there, standing) = h.status in
          elim (Bool-cases (ltb (a.wake_iteration_count + 1) (2 ^ 31))) [
            | inl fits ↦
                rw (there, fits, increment_row)
                  (record {
                    status = (
                      record a { wake_iteration_count = a.wake_iteration_count + 1 },
                      ground (arith, ==_refl agent_id),
                      standing,
                    );
                    trail = h.trail;
                  })
            | inr over ↦ rw (there, over, increment_row) (At-ticked _ _ _ _ _ h)
          ]
