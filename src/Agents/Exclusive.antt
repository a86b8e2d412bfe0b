-- ===== src/Agents/Exclusive.antt =====
-- The acquisition of a wake is exclusive.
use open_pincery.Prelude.{
  ℕ, ◌+◌, ◌≤◌, ◌≡◌, refl, inl, inr, Bool, true, false, ◌&&◌, Option, none, some, List, [], ◌∷◌,
  arith, Bool-cases, Option-cases, if◌then◌else◌, ◌==◌, ==_refl, ==→≡, ◌==ˢ◌,
}
use open_pincery.Status.{db_asleep, db_wake_acquiring}
use open_pincery.Db.{Agent, World, Result, ok, err, statement}
use open_pincery.Db.Triple.{ticked}
use open_pincery.Env.{Env}
use open_pincery.Agents.{attempt_wake_acquire, begin_wake, set_agent}

-- Whether an attempt got the wake.
unfoldable pub is_acquired : Result (Option Agent) → Bool
is_acquired (ok (some a)) = true
is_acquired (ok none) = false
is_acquired (err e) = false

module _ (env : Env) (id : ℕ) where
  -- How many of the attempts on several agents, one after the other, acquire a wake of this agent.
  unfoldable pub acquisitions : List ℕ → World → ℕ
  unfolding is_acquired
  acquisitions [] w = 0
  acquisitions (by ∷ attempts) w =
      let r = attempt_wake_acquire env by w in
      let rest = acquisitions attempts r.1 in
      if (by == id) && is_acquired r.0 then rest + 1 else rest

  -- The agent is there, and not asleep or not enabled.
  record Closed (w : World) : Type 0 where
    row : Agent
    there : w.agents id ≡ some row
    shut : ((row.status ==ˢ db_asleep) && row.is_enabled) ≡ false

  -- An attempt changes no agent, or opens a wake of an enabled agent that is asleep.
  attempt-cases :
      (Q : Result (Option Agent) × World → Type 0) (by : ℕ) (w : World)
      → ((r : Result (Option Agent)) → is_acquired r ≡ false → Q (r, ticked w))
      → ((a : Agent) (uuid now : ℕ)
          → w.agents by ≡ some a
          → ((a.status ==ˢ db_asleep) && a.is_enabled) ≡ true
          → Q (
            ok (some (begin_wake db_wake_acquiring uuid now a)),
            ticked (set_agent by (begin_wake db_wake_acquiring uuid now a) w),
          ))
      → Q (attempt_wake_acquire env by w)
  unfolding attempt_wake_acquire statement is_acquired
  attempt-cases Q by w kept opened = elim (Bool-cases (env.fault w.tick)) [
    | inl down ↦ rw (down, statement) (kept _ refl)
    | inr up ↦ elim (Option-cases (w.agents by)) [
      | inl absent ↦ rw (up, absent, statement) (kept _ refl)
      | inr (a, there) ↦ elim (Bool-cases ((a.status ==ˢ db_asleep) && a.is_enabled)) [
        | inl open_now ↦ rw (up, there, open_now, statement) (opened a _ _ there open_now)
        | inr shut ↦ rw (up, there, shut, statement) (kept _ refl)
      ]
    ]
  ]

  attempt-Closed : (by : ℕ) (w : World) → Closed w → Closed (attempt_wake_acquire env by w).1
  attempt-Closed by w c =
      attempt-cases (λ r. Closed r.1) by w
        (λ r no. record { row = c.row; there = c.there; shut = c.shut })
        (λ a uuid now there open_now. elim (Bool-cases (id == by)) [
          | inl e ↦ record {
            row = begin_wake db_wake_acquiring uuid now a;
            there = rw e refl;
            shut = refl;
          }
          | inr e ↦ record { row = c.row; there = rw e c.there; shut = c.shut }
        ])

  Closed-none :
      (by : ℕ) (w : World)
      → Closed w
      → ((by == id) && is_acquired (attempt_wake_acquire env by w).0) ≡ false
  unfolding is_acquired
  Closed-none by w c =
      attempt-cases (λ r. ((by == id) && is_acquired r.0) ≡ false) by w (λ r no. ground (arith, no))
        (λ a uuid now there open_now. elim (Bool-cases (by == id)) [
          | inl e ↦ ground (arith, ==→≡ by id e, there, open_now, c.there, c.shut)
          | inr e ↦ rw e refl
        ])

  hit-Closed :
      (by : ℕ) (w : World)
      → ((by == id) && is_acquired (attempt_wake_acquire env by w).0) ≡ true
      → Closed (attempt_wake_acquire env by w).1
  unfolding is_acquired
  hit-Closed by w =
      attempt-cases (λ r. ((by == id) && is_acquired r.0) ≡ true → Closed r.1) by w
        (λ r no h. ground (arith, no, h))
        (λ a uuid now there open_now h. record {
          row = begin_wake db_wake_acquiring uuid now a;
          there = ground (arith, h, ==_refl id);
          shut = refl;
        })

  Closed-acquisitions : (attempts : List ℕ) (w : World) → Closed w → acquisitions attempts w ≡ 0
  unfolding acquisitions
  Closed-acquisitions [] w c = refl
  Closed-acquisitions (by ∷ attempts) w c =
      rw (Closed-none by w c) (Closed-acquisitions attempts _ (attempt-Closed by w c))

  -- In every sequence of attempts on any agents, at most one acquires a wake of an agent, since none
  -- of them puts the agent back to sleep.
  pub acquisitions-le : (attempts : List ℕ) (w : World) → acquisitions attempts w ≤ 1
  unfolding acquisitions
  acquisitions-le [] w = omega arith
  acquisitions-le (by ∷ attempts) w =
      elim (Bool-cases ((by == id) && is_acquired (attempt_wake_acquire env by w).0)) [
        | inl e ↦ rw e (omega (arith, Closed-acquisitions attempts _ (hit-Closed by w e)))
        | inr e ↦ rw e (acquisitions-le attempts _)
      ]

  -- No sequence of attempts acquires a wake of an agent that is disabled or not asleep at its
  -- start.
  pub acquisitions-shut :
      (attempts : List ℕ) (w : World) (row : Agent)
      → w.agents id ≡ some row
      → ((row.status ==ˢ db_asleep) && row.is_enabled) ≡ false
      → acquisitions attempts w ≡ 0
  acquisitions-shut attempts w row there shut =
      Closed-acquisitions attempts w (record { row = row; there = there; shut = shut })
