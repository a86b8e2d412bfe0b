-- ===== src/Stale.antt =====
-- One tick of `start_stale_recovery` of src/background/stale.rs.
pub mod Threshold
pub mod Recovery
use open_pincery.Prelude.{ℕ, ℤ, ◌+◌, String, Bool, Option, none, some, List, [], ◌∷◌, keep, ◌==◌}
use open_pincery.Db.{Agent, World, M, gives, statement, attempt, pure, ◌>>=◌, ◌>>◌}
use open_pincery.Env.{Env}
use open_pincery.Agents.{is_stale, force_release}
use open_pincery.Events.{append_event}

module _ (env : Env) where
  abbrev pub add_row : Option Agent → List Agent → List Agent
  add_row none rows = rows
  add_row (some a) rows = a ∷ rows

  abbrev pub rows_in : List ℕ → World → List Agent
  rows_in [] w = []
  rows_in (id ∷ ids) w = add_row (w.agents id) (rows_in ids w)

  -- The rows of the agents with these keys.
  unfoldable pub find_stale_agents : List ℕ → ℤ → M (List Agent)
  find_stale_agents ids stale_hours =
      statement env.fault
        λ n w. gives (keep (is_stale env (env.now n) stale_hours) (rows_in ids w)) w

  abbrev pub note_recovery : Agent → Option (Unit {0}) → M (Unit {0})
  note_recovery a none = pure tt
  note_recovery a (some done) =
      attempt (
        append_event env a.id "stale_wake_recovery" "system" a.wake_id none none none
          (some "Agent recovered from stale wake") none)
      >> pure tt

  unfoldable pub recover : List Agent → M (Unit {0})
  recover [] = pure tt
  recover (a ∷ rest) = do
    released ← attempt (force_release env a.id)
    note_recovery a released
    recover rest

  abbrev pub recover_found : Option (List Agent) → M (Unit {0})
  recover_found none = pure tt
  recover_found (some stale_agents) = recover stale_agents

  unfoldable pub stale_tick : List ℕ → ℤ → M (Unit {0})
  unfolding find_stale_agents recover
  stale_tick ids stale_hours = do
    found ← attempt (find_stale_agents ids stale_hours)
    recover_found found
