-- ===== src/Tests/Background.antt =====
-- The background tasks at concrete inputs.
use open_pincery.Prelude.{
  pos, negsuc, refl, ℕ, ◌≡◌, refl, none, some, [], ◌∷◌, arith, if◌then◌else◌, ◌==◌,
}
use open_pincery.Db.{Agent, World}
use open_pincery.Db.Triple.{Post}
use open_pincery.Listener.{handle_wake, check_drain}
use open_pincery.Listener.Budget.{Refused, handle_wake-Refused}
use open_pincery.Listener.Drain.{Drained, check_drain-Drained}
use open_pincery.Agents.{as_i32}
use open_pincery.Stale.{stale_tick}
use open_pincery.Stale.Recovery.{Kept, stale_tick-Kept}
use open_pincery.Tests.{quiet, world, limits, agent}

abbrev spent : Agent
spent = record (agent "asleep") { budget_used_usd = 1000000 }

abbrev spent_world : World
spent_world = record (world "asleep") { agents = λ j. if j == 7 then some spent else none }

handle_wake-Refused_example :
    Post
      (λ _. Refused 7 spent_world)
      (Refused 7 spent_world)
      (handle_wake quiet limits 200 7 spent_world)
handle_wake-Refused_example = handle_wake-Refused quiet limits 200 7 spent_world spent refl refl

check_drain-Drained_example :
    Post
      (Drained quiet 7 0 (world "maintenance") (agent "maintenance"))
      (λ _. Unit)
      (check_drain quiet 7 0 (world "maintenance"))
check_drain-Drained_example =
    check_drain-Drained quiet 7 0 (world "maintenance") (agent "maintenance") refl refl

awake-Keyed : (id : ℕ) (a : Agent) → (world "awake").agents id ≡ some a → a.id ≡ id
awake-Keyed id a e = ground (arith, e)

stale_tick-Kept_example :
    Kept quiet (pos 1) 7 (world "awake") (stale_tick quiet (7 ∷ 8 ∷ []) (pos 1) (world "awake")).1
stale_tick-Kept_example = stale_tick-Kept quiet (pos 1) 7 (world "awake") (7 ∷ 8 ∷ []) awake-Keyed

-- The setting keeps its sign in 32 bits, and 4294967295 becomes -1.
two_hours : as_i32 (pos 2) ≡ pos 2
two_hours = refl

minus_one : as_i32 (negsuc 0) ≡ negsuc 0
minus_one = refl

wrapped : as_i32 (pos 4294967295) ≡ negsuc 0
wrapped = refl

beyond : as_i32 (negsuc 2147483648) ≡ pos 2147483647
beyond = refl
