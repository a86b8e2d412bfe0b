-- ===== src/Tests/Wakes.antt =====
-- A wake at concrete inputs.
use open_pincery.Prelude.{◌≡◌, refl, inl, [], arith, is_some, true}
use open_pincery.Status.{db_wake_acquiring}
use open_pincery.Db.Triple.{Post}
use open_pincery.Lifecycle.Trail.{At, Off, start}
use open_pincery.Wake.Run.{run_wake_loop}
use open_pincery.Wake.Course.{RunAt, run_wake_loop-At}
use open_pincery.Wake.Limits.{Progressing, run_wake_loop-is_some}
use open_pincery.Tests.{quiet, world, limits, agent, call}

begun : At quiet 7 9 [] db_wake_acquiring db_wake_acquiring (world db_wake_acquiring)
begun = record { status = (agent db_wake_acquiring, refl, refl); trail = start }

run_wake_loop-At_example :
    Post
      (RunAt quiet 7 9 [] db_wake_acquiring limits)
      (Off quiet 7 9 [] db_wake_acquiring)
      (run_wake_loop quiet limits 7 9 200 (world db_wake_acquiring))
run_wake_loop-At_example =
    run_wake_loop-At quiet 7 9 [] db_wake_acquiring limits 200 (world db_wake_acquiring) begun

quiet-Progressing : Progressing quiet
quiet-Progressing = record {
  progress = λ n response choice e first. inl (call "sleep" "{}", [], ground (arith, e, first));
}

run_wake_loop-is_some_example :
    Post
      (λ o _. is_some o ≡ true)
      (λ _. Unit)
      (run_wake_loop quiet limits 7 9 200 (world db_wake_acquiring))
run_wake_loop-is_some_example =
    run_wake_loop-is_some quiet limits 7 9 200 (world db_wake_acquiring) quiet-Progressing
      (omega arith) (omega arith)
