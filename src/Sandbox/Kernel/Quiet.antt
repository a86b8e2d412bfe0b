-- ===== src/Sandbox/Kernel/Quiet.antt =====
-- Which commands a run has started.
use open_pincery.Prelude.{◌≡◌, refl, ◌∙◌, String, Bool, true, false, List, [], ◌∷◌, if◌then◌else◌}
use open_pincery.Sandbox.Kernel.{
  IoError, Sys, gave, refused, Fact, started, Log, Outcome, done, stop, panics, Run, proceed, ◌>>=◌,
  pure, fail, call, granted, require, map_err, renamed,
}

-- The commands of a log, the newest first.
abbrev pub start_of : Fact → List (List String) → List (List String)
start_of (started argv) rest = argv ∷ rest
start_of _ rest = rest

abbrev pub starts : Log → List (List String)
starts [] = []
starts (f ∷ log) = start_of f (starts log)

pub record Quiet {E A : Type 0} (m : Run E A) : Type 0 where
  pub at : (log : Log) → starts (m log).1 ≡ starts log

module _ {E A : Type 0} where
  pub Quiet-bind :
      {B : Type 0} {m : Run E A} {f : A → Run E B}
      → Quiet m
      → ((a : A) → Quiet (f a))
      → Quiet (m >>= f)
  unfolding ◌>>=◌
  Quiet-bind {B} {m} {f} q r = record { at = λ log. through (m log) (q.at log) }
    where
      through :
          {l : List (List String)} (s : Outcome E A × Log)
          → starts s.1 ≡ l
          → starts (proceed s.0 f s.1).1 ≡ l
      through (done a, mid) e = (r a).at mid ∙ e
      through (stop x, mid) e = e
      through (panics, mid) e = e

  pub Quiet-pure : (a : A) → Quiet {E = E} (pure a)
  unfolding pure
  Quiet-pure a = record { at = λ log. refl }

  pub Quiet-fail : (e : E) → Quiet {A = A} (fail e)
  unfolding fail
  Quiet-fail e = record { at = λ log. refl }

  pub Quiet-if : (b : Bool) {m n : Run E A} → Quiet m → Quiet n → Quiet (if b then m else n)
  Quiet-if true p q = p
  Quiet-if false p q = q

  pub Quiet-call :
      (ask : Log → Sys A) (fact : A → Fact) (error : IoError → E)
      → ((a : A) (log : Log) → starts (fact a ∷ log) ≡ starts log)
      → Quiet (call ask fact error)
  unfolding call
  Quiet-call ask fact error q = record { at = λ log. split (ask log) log }
    where
      split : (s : Sys A) (log : Log) → starts (granted s fact error log).1 ≡ starts log
      split (gave a) log = q a log
      split (refused e) log = refl

  pub Quiet-map_err : {F : Type 0} (f : E → F) {m : Run E A} → Quiet m → Quiet (map_err f m)
  unfolding map_err
  Quiet-map_err {F} f {m} q = record { at = λ log. split (m log) (q.at log) }
    where
      split :
          {l : List (List String)} (s : Outcome E A × Log)
          → starts s.1 ≡ l
          → starts (renamed f s).1 ≡ l
      split (done a, mid) e = e
      split (stop x, mid) e = e
      split (panics, mid) e = e

  -- An action that looks at its log first.
  pub Quiet-look : {m : Log → Run E A} → ((l : Log) → Quiet (m l)) → Quiet (λ log. m log log)
  Quiet-look q = record { at = λ log. (q log).at log }

pub Quiet-require : {E : Type 0} (b : Bool) (e : E) → Quiet (require b e)
unfolding require
Quiet-require true e = record { at = λ log. refl }
Quiet-require false e = record { at = λ log. refl }
