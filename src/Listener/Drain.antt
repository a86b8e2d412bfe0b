-- ===== src/Listener/Drain.antt =====
-- What the drain check leaves.
use open_pincery.Prelude.{
  ℕ, ◌≡◌, refl, ◌∙◌, ap, inl, inr, Bool, true, false, Option, none, some, arith, Bool-cases, keep,
  ==_refl, ◌==ˢ◌, ==ˢ→≡, ==→≡, ltb, ◌<◌, ◌==◌, List, [], ◌∷◌, both, lt→ltb,
}
use open_pincery.Status.{db_maintenance}
use open_pincery.Chain.{Event}
use open_pincery.Db.{Agent, World, pure, ◌>>=◌, statement}
use open_pincery.Db.Triple.{Post, Triple, ticked, Triple-bind, Triple-pure, Triple-statement}
use open_pincery.Env.{Env}
use open_pincery.Agents.{clear_wake, drain_attempt_wake_acquire, release_to_asleep}
use open_pincery.Events.{has_pending_events, is_pending, is_nonempty}
use open_pincery.Events.Appends.{Triple-append_event}
use open_pincery.Lifecycle.{emit}
use open_pincery.Listener.{reacquire, let_go, check_drain, note_reacquired, note_wake, is_row}

-- A message for the agent, later than the time.
pub record Message (agent_id since : ℕ) (r : Event) : Type 0 where
  pub addressed : r.agent_id ≡ agent_id
  pub later : since < r.created_at
  pub sent : r.event_type ≡ "message_received"

-- Some event of a log is such a message.
pub data Came (agent_id since : ℕ) : List Event → Type 0 where
  came_here :
      {r : Event} {rows : List Event} → Message agent_id since r → Came agent_id since (r ∷ rows)
  came_later :
      {r : Event} {rows : List Event} → Came agent_id since rows → Came agent_id since (r ∷ rows)

module _ (env : Env) (agent_id since : ℕ) where
  is_pending-Message :
      (r : Event) → is_pending env agent_id since r ≡ true → Message agent_id since r
  is_pending-Message r h =
      let (mine, rest) = both (r.agent_id == agent_id) _ h in
      let (late, kind) = both (ltb since r.created_at) _ rest in
      record {
        addressed = ==→≡ r.agent_id agent_id mine;
        later = ground (arith);
        sent = ==ˢ→≡ r.event_type "message_received" kind;
      }

  Message-is_pending :
      (r : Event) → Message agent_id since r → is_pending env agent_id since r ≡ true
  Message-is_pending r m =
      rw (m.addressed, m.sent, ==_refl agent_id, lt→ltb since r.created_at m.later) refl

  is_nonempty-Came :
      (rows : List Event)
      → is_nonempty env (keep (is_pending env agent_id since) rows) ≡ true
      → Came agent_id since rows
  is_nonempty-Came [] h = absurd (cc)
  is_nonempty-Came (r ∷ rows) h = elim (Bool-cases (is_pending env agent_id since r)) [
    | inl p ↦ came_here (is_pending-Message r p)
    | inr n ↦ came_later (is_nonempty-Came rows (rw n at h))
  ]

  Came-is_nonempty :
      {rows : List Event}
      → Came agent_id since rows
      → is_nonempty env (keep (is_pending env agent_id since) rows) ≡ true
  Came-is_nonempty (came_here {r = r} m) = rw (Message-is_pending r m) refl
  Came-is_nonempty (came_later {r = r} c) = elim (Bool-cases (is_pending env agent_id since r)) [
    | inl p ↦ rw p refl
    | inr n ↦ rw n (Came-is_nonempty c)
  ]

module _ (env : Env) (agent_id since : ℕ) (w : World) (a : Agent) where
  -- A new wake: a message came, the agent is enabled, and the row has a wake of its own.
  pub record Reacquired (v : World) : Type 0 where
    pub came : Came agent_id since w.events
    pub enabled : a.is_enabled ≡ true
    pub uuid : ℕ
    pub now : ℕ
    pub row :
        v.agents agent_id
        ≡ some (record a {
          status = "wake_acquiring";
          wake_id = some uuid;
          wake_started_at = some now;
          wake_iteration_count = 0;
        })

  -- No new wake: the row is at rest where no message came; otherwise the agent is disabled and its
  -- row stays in `maintenance`.
  pub data LetGo (v : World) : Type 0 where
    rested :
        ¬ Came agent_id since w.events
        → v.agents agent_id
          ≡ some (record a {
            status = "asleep";
            wake_id = none;
            wake_started_at = none;
            wake_iteration_count = 0;
          })
        → LetGo v
    stuck :
        Came agent_id since w.events → a.is_enabled ≡ false → v.agents agent_id ≡ some a → LetGo v

  pub Drained : Bool → World → Type 0
  Drained true v = Reacquired v
  Drained false v = LetGo v

  abbrev Any : World → Type 0
  Any v = Unit

  -- The agent's row, before the drain writes it.
  abbrev Row : World → Type 0
  Row v = v.agents agent_id ≡ some a

  note_wake-Reacquired :
      (o : Option ℕ) → Triple Reacquired (note_wake env agent_id o) (λ _. Reacquired) Any
  unfolding emit
  note_wake-Reacquired none = Triple-pure tt (λ v h. h)
  note_wake-Reacquired (some id) =
      Triple-bind
        (Triple-append_event env agent_id _ _ _ _ _ _ _ _ (λ v h. tt)
          (λ row v h holds. again v _ refl h))
        (λ _. Triple-pure tt (λ v h. h))
    where
      again : (v v' : World) → v'.agents ≡ v.agents → Reacquired v → Reacquired v'
      again v v' same h = record {
        came = h.came;
        enabled = h.enabled;
        uuid = h.uuid;
        now = h.now;
        row = ap (λ f. f agent_id) same ∙ h.row;
      }

  noted :
      (o : Option Agent)
      → is_row o ≡ true
      → Triple Reacquired (note_reacquired env agent_id o >>= (λ _. pure (is_row o))) Drained Any
  unfolding Drained
  noted none e = ground (arith, e)
  noted (some b) e = Triple-bind (note_wake-Reacquired b.wake_id) (λ _. Triple-pure true (λ v h. h))

  unnoted :
      Came agent_id since w.events
      → a.is_enabled ≡ false
      → (o : Option Agent) → is_row o ≡ false
      → Triple Row (note_reacquired env agent_id o >>= (λ _. pure (is_row o))) Drained Any
  unfolding Drained
  unnoted came off none e =
      Triple-bind {Q = λ _. Row} (Triple-pure tt (λ v h. h))
        (λ _. Triple-pure false (λ v h. stuck came off h))
  unnoted came off (some b) e = ground (arith, e)

  reacquire-Drained :
      a.status ≡ db_maintenance
      → Came agent_id since w.events
      → Triple Row (reacquire env agent_id) Drained Any
  unfolding reacquire drain_attempt_wake_acquire
  reacquire-Drained standing came = elim (Bool-cases a.is_enabled) [
    | inl on ↦
        Triple-bind {Q = λ o v. (is_row o ≡ true) × Reacquired v}
          (Triple-statement env.fault _ (λ v h. tt)
            (λ v there.
              rw (there, ap (λ s. s ==ˢ db_maintenance) standing, on)
                (
                  refl,
                  record {
                    came = came;
                    enabled = on;
                    uuid = env.uuid v.tick;
                    now = env.now v.tick;
                    row = ground (arith, ==_refl agent_id);
                  },
                )))
          (λ o. record { at = λ v (e, h). (noted o e).at v h })
    | inr off ↦
        Triple-bind {Q = λ o v. (is_row o ≡ false) × Row v}
          (Triple-statement env.fault _ (λ v h. tt)
            (λ v there. rw (there, ap (λ s. s ==ˢ db_maintenance) standing, off) (refl, there)))
          (λ o. record { at = λ v (e, h). (unnoted came off o e).at v h })
  ]

  let_go-Drained :
      a.status ≡ db_maintenance
      → ¬ Came agent_id since w.events
      → Triple Row (let_go env agent_id) Drained Any
  unfolding let_go release_to_asleep Drained
  let_go-Drained standing quiet =
      Triple-bind {Q = λ _ v. v.agents agent_id ≡ some (clear_wake a)}
        (Triple-statement env.fault _ (λ v h. tt)
          (λ v there.
            rw (there, ap (λ s. s ==ˢ db_maintenance) standing) (ground (arith, ==_refl agent_id))))
        (λ _. Triple-pure false (λ v h. rested quiet h))

  -- The drain check of an agent in "maintenance", unless a statement fails: it starts a new wake,
  -- in "wake_acquiring" with an identifier, a start and the count 0, exactly where the log has a
  -- "message_received" event of the agent created after the given time and the agent is enabled;
  -- without such an event it puts the agent to rest, asleep with the wake's columns cleared; and
  -- where there is one but the agent is disabled it leaves the row in "maintenance" as it is.
  pub check_drain-Drained :
      w.agents agent_id ≡ some a
      → a.status ≡ "maintenance"
      → Post Drained (λ _. Unit) (check_drain env agent_id since w)
  unfolding check_drain has_pending_events statement ◌>>=◌
  check_drain-Drained there standing = elim (Bool-cases (env.fault w.tick)) [
    | inl down ↦ rw (down, statement) tt
    | inr up ↦ elim (Bool-cases (is_nonempty env (keep (is_pending env agent_id since) w.events))) [
      | inl c ↦
          let came = is_nonempty-Came env agent_id since w.events c in
          rw (up, statement, c) ((reacquire-Drained standing came).at (ticked w) there)
      | inr n ↦
          let quiet : ¬ Came agent_id since w.events =
            λ came. absurd (cc (n, Came-is_nonempty env agent_id since came)) in
          rw (up, statement, n) ((let_go-Drained standing quiet).at (ticked w) there)
    ]
  ]
