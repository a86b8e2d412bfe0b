-- ===== src/Stale/Recovery.antt =====
-- What one tick of the recovery does to an agent.
use open_pincery.Prelude.{
  ℕ, ℤ, ◌≡◌, refl, ◌∙◌, sym, ap, subst, inl, inr, Bool, true, false, Option, none, some, List, [],
  ◌∷◌, arith, Bool-cases, Option-cases, if◌then◌else◌, keep, ◌==◌, ==→≡,
}
use open_pincery.Db.{Agent, World, Result, ok, err, pure, ◌>>=◌, statement, attempt, answered}
use open_pincery.Db.Triple.{
  Post, Triple, ticked, Triple-bind, Triple-pure, Triple-attempt, Triple-statement,
}
use open_pincery.Env.{Env}
use open_pincery.Agents.{is_stale, in_wake, clear_wake, force_release, force_row, set_agent}
use open_pincery.Events.Appends.{Triple-append_event}
use open_pincery.Stale.Threshold.{Stale, is_stale-Stale}
use open_pincery.Stale.{add_row, rows_in, find_stale_agents, note_recovery, recover, stale_tick}

module _ (env : Env) (hours : ℤ) (j : ℕ) (w : World) where
  -- The agent's row is the same as at the start, or it was stale then and is at rest now.
  pub data Kept (v : World) : Type 0 where
    untouched : v.agents j ≡ w.agents j → Kept v
    recovered :
        (a : Agent)
        → w.agents j ≡ some a
        → Stale hours (env.now w.tick) a
        → v.agents j
          ≡ some (record a {
            status = "asleep";
            wake_id = none;
            wake_started_at = none;
            wake_iteration_count = 0;
          })
        → Kept v

  -- Of rows that the query found, the one with this key is the agent's, and stale.
  abbrev Found : List Agent → Type 0
  Found [] = Unit
  Found (a ∷ rest) =
      (a.id ≡ j → (w.agents j ≡ some a) × (is_stale env (env.now w.tick) hours a ≡ true))
      × Found rest

  Kept-at : (v v' : World) → v'.agents j ≡ v.agents j → Kept v → Kept v'
  Kept-at v v' e (untouched h) = untouched (e ∙ h)
  Kept-at v v' e (recovered a there stale h) = recovered a there stale (e ∙ h)

  Kept-same : (v v' : World) → v'.agents ≡ v.agents → Kept v → Kept v'
  Kept-same v v' e (untouched h) = untouched (ap (λ f. f j) e ∙ h)
  Kept-same v v' e (recovered a there stale h) = recovered a there stale (ap (λ f. f j) e ∙ h)

  note_recovery-Kept :
      (a : Agent) (o : Option (Unit {0})) → Triple Kept (note_recovery env a o) (λ _. Kept) Kept
  note_recovery-Kept a none = Triple-pure tt (λ v h. h)
  note_recovery-Kept a (some done) =
      Triple-bind
        (Triple-attempt (
          Triple-append_event env a.id _ _ _ _ _ _ _ _ (λ v h. Kept-same v (ticked v) refl h)
            (λ row v h holds. Kept-same v _ refl h)))
        (λ _. Triple-pure tt (λ v h. h))

  same_agent :
      (P : Agent → Bool) (o : Option Agent) (a b : Agent) → o ≡ some a → o ≡ some b → P a ≡ P b
  same_agent P o a b ea eb = ap (λ p. elim p [ none ↦ false | some x ↦ P x ]) (sym ea ∙ eb)

  -- A row that is live was not put to rest in this tick.
  cleared-Kept :
      (a b : Agent) (v : World)
      → (w.agents j ≡ some a) × (is_stale env (env.now w.tick) hours a ≡ true)
      → v.agents j ≡ some b
      → in_wake b.status ≡ true
      → Kept v
      → (v' : World) → v'.agents j ≡ some (clear_wake b)
      → Kept v'
  unfolding in_wake
  cleared-Kept a b v (there, stale) vb live (untouched e) v' done =
      let was = sym e ∙ vb in
      recovered b was
        (is_stale-Stale env hours (env.now w.tick) b (
          sym (same_agent (is_stale env (env.now w.tick) hours) (w.agents j) a b there was)
          ∙ stale))
        done
  cleared-Kept a b v (there, stale) vb live (recovered c was old e) v' done =
      ground (arith, live, same_agent (λ x. in_wake x.status) (v.agents j) b (clear_wake c) vb e)

  written-Kept :
      (a b : Agent) (v : World)
      → (a.id ≡ j → (w.agents j ≡ some a) × (is_stale env (env.now w.tick) hours a ≡ true))
      → v.agents a.id ≡ some b
      → in_wake b.status ≡ true
      → Kept v
      → Kept (ticked (set_agent a.id (clear_wake b) v))
  written-Kept a b v found there live h = elim (Bool-cases (j == a.id)) [
    | inr other ↦ Kept-at v (ticked (set_agent a.id (clear_wake b) v)) (rw other refl) h
    | inl e ↦
        let mine = sym (==→≡ j a.id e) in
        cleared-Kept a b v (found mine) (subst (λ k. v.agents k ≡ some b) mine there) live h
          (ticked (set_agent a.id (clear_wake b) v)) (rw e refl)
  ]

  force_release-Kept :
      (a : Agent)
      → (a.id ≡ j → (w.agents j ≡ some a) × (is_stale env (env.now w.tick) hours a ≡ true))
      → Triple Kept (force_release env a.id) (λ _. Kept) Kept
  unfolding force_release force_row
  force_release-Kept a found =
      Triple-statement env.fault _ (λ v h. Kept-same v (ticked v) refl h) (λ v h. released v h)
    where
      released :
          (v : World)
          → Kept v
          → Post (λ _. Kept) Kept (answered (force_row env a.id (v.agents a.id) v) v)
      released v h = elim (Option-cases (v.agents a.id)) [
        | inl absent ↦ rw (absent, force_row) (Kept-same v (ticked v) refl h)
        | inr (b, there) ↦ elim (Bool-cases (in_wake b.status)) [
          | inr resting ↦ rw (there, resting, force_row) (Kept-same v (ticked v) refl h)
          | inl live ↦ rw (there, live, force_row) (written-Kept a b v found there live h)
        ]
      ]

  recover-Kept : (rows : List Agent) → Found rows → Triple Kept (recover env rows) (λ _. Kept) Kept
  unfolding recover
  recover-Kept [] found = Triple-pure tt (λ v h. h)
  recover-Kept (a ∷ rest) (mine, others) =
      Triple-bind (Triple-attempt (force_release-Kept a mine))
        (λ o. Triple-bind (note_recovery-Kept a o) (λ _. recover-Kept rest others))

  -- Each row is kept under its own key.
  abbrev pub Keyed : Type 0
  Keyed = (id : ℕ) (a : Agent) → w.agents id ≡ some a → a.id ≡ id

  add_row-Found :
      (id : ℕ) (o : Option Agent) (rows : List Agent)
      → w.agents id ≡ o
      → Keyed
      → Found (keep (is_stale env (env.now w.tick) hours) rows)
      → Found (keep (is_stale env (env.now w.tick) hours) (add_row env o rows))
  add_row-Found id none rows e keyed found = found
  add_row-Found id (some a) rows e keyed found =
      elim (Bool-cases (is_stale env (env.now w.tick) hours a)) [
        | inr fresh ↦
            subst
              (λ t. Found (
                if t
                then a ∷ keep (is_stale env (env.now w.tick) hours) rows
                else keep (is_stale env (env.now w.tick) hours) rows))
              (sym fresh) found
        | inl stale ↦
            subst
              (λ t. Found (
                if t
                then a ∷ keep (is_stale env (env.now w.tick) hours) rows
                else keep (is_stale env (env.now w.tick) hours) rows))
              (sym stale)
              (
                (λ mine. (subst (λ k. w.agents k ≡ some a) (sym (keyed id a e) ∙ mine) e, stale)),
                found,
              )
      ]

  rows_in-Found :
      (ids : List ℕ)
      → Keyed
      → Found (keep (is_stale env (env.now w.tick) hours) (rows_in env ids w))
  rows_in-Found [] keyed = tt
  rows_in-Found (id ∷ ids) keyed =
      add_row-Found id (w.agents id) _ refl keyed (rows_in-Found ids keyed)

  -- Where each row is kept under its own key, one tick of the stale recovery, with or without
  -- failing statements, leaves each agent's row as it was, or puts the row to rest: asleep, without
  -- a wake, the count at 0. It does the latter only where, when the tick read the agents, the row
  -- was in a status of a wake that had begun more than the threshold ago. The threshold is the
  -- setting's hours cut to 32 bits with their sign, so that a negative one reaches ahead.
  pub stale_tick-Kept :
      (ids : List ℕ)
      → ((id : ℕ) (a : Agent) → w.agents id ≡ some a → a.id ≡ id)
      → Kept (stale_tick env ids hours w).1
  unfolding stale_tick find_stale_agents attempt statement ◌>>=◌ pure
  stale_tick-Kept ids keyed = elim (Bool-cases (env.fault w.tick)) [
    | inl down ↦ rw (down, statement) (untouched refl)
    | inr up ↦
        rw (up, statement)
          (left_over _ ((recover-Kept _ (rows_in-Found ids keyed)).at (ticked w) (untouched refl)))
  ]
    where
      left_over : (r : Result (Unit {0}) × World) → Post (λ _. Kept) Kept r → Kept r.1
      left_over (ok x, v) h = h
      left_over (err e, v) h = h
