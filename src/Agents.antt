-- ===== src/Agents.antt =====
-- src/models/agent.rs: the compare-and-set statements on `agents`. Each is one `UPDATE … RETURNING *`
-- on the row with the given key, so it is atomic against every other statement.
pub mod Moves
pub mod Exclusive
use open_pincery.Prelude.{
  ℕ, ◌+◌, ◌-◌, ◌%◌, ◌^◌, ℤ, pos, negsuc, ◌*◌, String, Bool, true, false, ◌&&◌, ◌||◌, Option, none,
  some, if◌then◌else◌, ◌==◌, ltb, ◌==ˢ◌,
}
use open_pincery.Status.{
  db_asleep, db_wake_acquiring, db_prompt_assembling, db_awake, db_tool_dispatching,
  db_tool_executing, db_tool_result_processing, db_mid_wake_event_polling, db_wake_ending,
  db_maintenance,
}
use open_pincery.Db.{Agent, World, M, Answer, fails, gives, statement}
use open_pincery.Env.{Env}

-- The table with the row of `id` replaced.
abbrev pub set_agent : ℕ → Agent → World → World
set_agent id a w = record w { agents = λ j. if j == id then some a else w.agents j }

-- `UPDATE agents SET … WHERE id = $1 AND …  RETURNING *` with `fetch_optional`.
abbrev pub update_row :
    ℕ → (Agent → Bool) → (Agent → Agent) → Option Agent → World → Answer (Option Agent)
update_row id test change none w = gives none w
update_row id test change (some a) w =
    if test a then gives (some (change a)) (set_agent id (change a) w) else gives none w

-- The statuses that a wake passes through, from `wake_acquiring` to `maintenance`.
unfoldable pub in_wake : String → Bool
in_wake s =
    (s ==ˢ db_wake_acquiring)
    || ((s ==ˢ db_prompt_assembling)
        || ((s ==ˢ db_awake)
            || ((s ==ˢ db_tool_dispatching)
                || ((s ==ˢ db_tool_executing)
                    || ((s ==ˢ db_tool_result_processing)
                        || ((s ==ˢ db_mid_wake_event_polling)
                            || ((s ==ˢ db_wake_ending) || (s ==ˢ db_maintenance))))))))

-- The statuses from which a wake may be terminated.
unfoldable pub is_live : String → Bool
is_live s =
    (s ==ˢ db_awake)
    || ((s ==ˢ db_tool_dispatching)
        || ((s ==ˢ db_tool_executing)
            || ((s ==ˢ db_tool_result_processing) || (s ==ˢ db_mid_wake_event_polling))))

-- A fresh wake: `wake_id = gen_random_uuid(), wake_started_at = NOW(), wake_iteration_count = 0`.
abbrev pub begin_wake : String → ℕ → ℕ → Agent → Agent
begin_wake next uuid now a = record a {
  status = next;
  wake_id = some uuid;
  wake_started_at = some now;
  wake_iteration_count = 0;
}

-- Back to rest: the wake's columns are cleared.
abbrev pub clear_wake : Agent → Agent
clear_wake a = record a {
  status = db_asleep;
  wake_id = none;
  wake_started_at = none;
  wake_iteration_count = 0;
}

-- `as i32` of an `i64`: the low 32 bits in two's complement; negsuc n is -(n + 1).
abbrev low_bits : ℕ → ℤ
low_bits m = if ltb m (2 ^ 31) then pos m else negsuc (2 ^ 32 - 1 - m)

abbrev pub as_i32 : ℤ → ℤ
as_i32 (pos n) = low_bits (n % 2 ^ 32)
as_i32 (negsuc n) = low_bits (2 ^ 32 - 1 - n % 2 ^ 32)

-- A time before a time so many hours ago, or so many hours ahead if the number is negative.
abbrev pub is_older : ℕ → ℕ → ℤ → Bool
is_older t now (pos h) = ltb (t + h * 3600000000) now
is_older t now (negsuc h) = ltb t (now + (h + 1) * 3600000000)

module _ (env : Env) where
  unfoldable pub get_agent : ℕ → M (Option Agent)
  get_agent id = statement env.fault λ n w. gives (w.agents id) w

  -- The entry statements, which ask for an enabled agent.
  abbrev pub entry_cas : String → String → ℕ → M (Option Agent)
  entry_cas prev next id = statement env.fault λ n w.
      update_row id (λ a. (a.status ==ˢ prev) && a.is_enabled)
        (begin_wake next (env.uuid n) (env.now n)) (w.agents id) w

  -- `UPDATE agents SET status = next WHERE id = $1 AND status = prev`
  abbrev pub status_cas : String → String → ℕ → M (Option Agent)
  status_cas prev next id = statement env.fault λ n w.
      update_row id (λ a. a.status ==ˢ prev) (λ a. record a { status = next }) (w.agents id) w

  unfoldable pub acquire_wake : ℕ → M (Option Agent)
  acquire_wake id = entry_cas db_asleep db_awake id

  unfoldable pub transition_to_maintenance : ℕ → M (Option Agent)
  transition_to_maintenance id = status_cas db_awake db_maintenance id

  unfoldable pub release_to_asleep : ℕ → M (Option Agent)
  release_to_asleep id =
      statement env.fault
        λ n w. update_row id (λ a. a.status ==ˢ db_maintenance) clear_wake (w.agents id) w

  unfoldable pub drain_reacquire : ℕ → M (Option Agent)
  drain_reacquire id = entry_cas db_maintenance db_awake id

  unfoldable pub attempt_wake_acquire : ℕ → M (Option Agent)
  attempt_wake_acquire id = entry_cas db_asleep db_wake_acquiring id

  unfoldable pub drain_attempt_wake_acquire : ℕ → M (Option Agent)
  drain_attempt_wake_acquire id = entry_cas db_maintenance db_wake_acquiring id

  unfoldable pub wake_acquire_succeeds : ℕ → M (Option Agent)
  wake_acquire_succeeds id = status_cas db_wake_acquiring db_prompt_assembling id

  unfoldable pub prompt_assembly_completes : ℕ → M (Option Agent)
  prompt_assembly_completes id = status_cas db_prompt_assembling db_awake id

  unfoldable pub enter_tool_dispatching : ℕ → M (Option Agent)
  enter_tool_dispatching id = status_cas db_awake db_tool_dispatching id

  unfoldable pub enter_tool_executing : ℕ → M (Option Agent)
  enter_tool_executing id = status_cas db_tool_dispatching db_tool_executing id

  unfoldable pub enter_tool_result_processing : ℕ → M (Option Agent)
  enter_tool_result_processing id = status_cas db_tool_executing db_tool_result_processing id

  unfoldable pub enter_mid_wake_event_polling : ℕ → M (Option Agent)
  enter_mid_wake_event_polling id =
      status_cas db_tool_result_processing db_mid_wake_event_polling id

  unfoldable pub mid_wake_poll_finds_nothing : ℕ → M (Option Agent)
  mid_wake_poll_finds_nothing id = status_cas db_mid_wake_event_polling db_awake id

  unfoldable pub enter_wake_ending : ℕ → M (Option Agent)
  unfolding is_live
  enter_wake_ending id = statement env.fault λ n w.
      update_row id (λ a. is_live a.status) (λ a. record a { status = db_wake_ending })
        (w.agents id) w

  unfoldable pub wake_end_transitions_to_maintenance : ℕ → M (Option Agent)
  wake_end_transitions_to_maintenance id = status_cas db_wake_ending db_maintenance id

  -- An `INTEGER` column: the statement fails where the sum does not fit, and `fetch_one` fails
  -- where there is no row.
  increment_row : ℕ → Option Agent → World → Answer ℕ
  increment_row id none w = fails
  increment_row id (some a) w =
      let count = a.wake_iteration_count + 1 in
      if ltb count (2 ^ 31)
      then gives count (set_agent id (record a { wake_iteration_count = count }) w)
      else fails

  unfoldable pub increment_iteration : ℕ → M ℕ
  unfolding increment_row
  increment_iteration id = statement env.fault λ n w. increment_row id (w.agents id) w

  -- `wake_started_at < NOW() - make_interval(hours => …)`, with `stale_hours as i32`. An hour is
  -- 3,600,000,000 microseconds. Where the difference is before the first timestamp the query fails,
  -- and here no row is older: either way the tick releases none.
  abbrev pub is_stale : ℕ → ℤ → Agent → Bool
  is_stale now stale_hours a =
      in_wake a.status
      && elim a.wake_started_at [ none ↦ false | some t ↦ is_older t now (as_i32 stale_hours) ]

  unfoldable pub force_row : ℕ → Option Agent → World → Answer (Unit {0})
  force_row id none w = gives tt w
  force_row id (some a) w =
      if in_wake a.status then gives tt (set_agent id (clear_wake a) w) else gives tt w

  unfoldable pub force_release : ℕ → M (Unit {0})
  unfolding force_row in_wake
  force_release id = statement env.fault λ n w. force_row id (w.agents id) w
