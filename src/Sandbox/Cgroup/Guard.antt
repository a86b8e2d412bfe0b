-- ===== src/Sandbox/Cgroup/Guard.antt =====
-- What a new group leaves behind.
use open_pincery.Prelude.{◌≡◌, refl, ap, String, Option, none, some, List, [], ◌∷◌, ◌++◌, ◌++ˢ◌}
use open_pincery.Sandbox.Kernel.{IoError, Sys, gave, refused}
use open_pincery.Sandbox.Cgroup.{
  cgroup_root, prefix, CgroupLimits, Write, planned_writes, created_dir, removed_dir, kept_dir,
  wrote, Changes, Files, Guarded, guard, failed, removed, drop_guard, apply_writes, settled,
  limited, new_guard,
}

-- The log after some writes to a directory, the first first.
abbrev pub written : String → List Write → Changes → Changes
written path [] log = log
written path (w ∷ rest) log = written path rest (wrote path w.0 w.1 ∷ log)

-- One attempt at removing the directory.
pub data Attempt (files : Files) (path : String) (log : Changes) : Changes → Type 0 where
  went : files.remove_dir log path ≡ gave tt → Attempt files path log (removed_dir path ∷ log)
  kept :
      {e : IoError}
      → files.remove_dir log path ≡ refused e
      → Attempt files path log (kept_dir path ∷ log)

-- Every write of some was granted, each after those before it.
pub data Granted (files : Files) (path : String) : List Write → Changes → Type 0 where
  nothing_left : {log : Changes} → Granted files path [] log
  granted :
      {w : Write} {rest : List Write} {log : Changes}
      → files.write log path w.0 w.1 ≡ gave tt
      → Granted files path rest (wrote path w.0 w.1 ∷ log)
      → Granted files path (w ∷ rest) log

-- How the creation ends: refused at once; or with every planned write, in order, and the guard; or
-- at a refused write, after two attempts at removing the directory.
pub data Ends (files : Files) (path : String) (limits : CgroupLimits) (log : Changes)
    : Guarded → Changes → Type 0 where
  untouched :
      {e : IoError}
      → files.create_dir log path ≡ refused e
      → Ends files path limits log (failed e) log
  owned :
      files.create_dir log path ≡ gave tt
      → Granted files path (planned_writes limits) (created_dir path ∷ log)
      → Ends files path limits log
          (guard path)
          (written path (planned_writes limits) (created_dir path ∷ log))
  undone :
      {e : IoError} {once twice : Changes} (before rest : List Write) (w : Write)
      → files.create_dir log path ≡ gave tt
      → planned_writes limits ≡ before ++ (w ∷ rest)
      → Granted files path before (created_dir path ∷ log)
      → files.write (written path before (created_dir path ∷ log)) path w.0 w.1 ≡ refused e
      → Attempt files path (written path before (created_dir path ∷ log)) once
      → Attempt files path once twice
      → Ends files path limits log (failed e) twice

-- The writes stop at the first that is refused.
data Stops (files : Files) (path : String) (ws : List Write) (log : Changes)
    : Option IoError → Changes → Type 0 where
  all_written : Granted files path ws log → Stops files path ws log none (written path ws log)
  stopped :
      {e : IoError} (before rest : List Write) (w : Write)
      → ws ≡ before ++ (w ∷ rest)
      → Granted files path before log
      → files.write (written path before log) path w.0 w.1 ≡ refused e
      → Stops files path ws log (some e) (written path before log)

module _ (files : Files) (path : String) where
  apply_writes-Stops :
      (ws : List Write) (log : Changes)
      → Stops files path ws log
          (apply_writes files path ws log).0
          (apply_writes files path ws log).1
  unfolding apply_writes
  apply_writes-Stops [] log = all_written nothing_left
  apply_writes-Stops (w ∷ rest) log =
      go (files.write log path w.0 w.1) refl (apply_writes-Stops rest (wrote path w.0 w.1 ∷ log))
    where
      onto :
          {o : Option IoError} {log' : Changes}
          → files.write log path w.0 w.1 ≡ gave tt
          → Stops files path rest (wrote path w.0 w.1 ∷ log) o log'
          → Stops files path (w ∷ rest) log o log'
      onto g (all_written gs) = all_written (granted g gs)
      onto g (stopped before later v e gs h) =
          stopped (w ∷ before) later v (ap (λ l. w ∷ l) e) (granted g gs) h

      next : Option IoError × Changes
      next = apply_writes files path rest (wrote path w.0 w.1 ∷ log)

      go :
          (s : Sys (Unit {0}))
          → files.write log path w.0 w.1 ≡ s
          → Stops files path rest (wrote path w.0 w.1 ∷ log) next.0 next.1
          → Stops files path
              (w ∷ rest)
              log
              (elim s as (λ _. Option IoError × Changes) [
                | gave _ ↦ next
                | refused e ↦ (some e, log)
              ]).0
              (elim s as (λ _. Option IoError × Changes) [
                | gave _ ↦ next
                | refused e ↦ (some e, log)
              ]).1
      go (gave _) h later = onto h later
      go (refused e) h later = stopped [] rest w refl nothing_left h

module _ (files : Files) (uuid : String) (limits : CgroupLimits) (log : Changes) where
  abbrev place : String
  place = cgroup_root ++ˢ "/" ++ˢ prefix ++ˢ uuid

  removed-Attempt :
      (mid : Changes) (s : Sys (Unit {0}))
      → files.remove_dir mid place ≡ s
      → Attempt files place mid (removed files place s mid)
  removed-Attempt mid (gave _) h = went h
  removed-Attempt mid (refused e) h = kept h

  drop_guard-Attempt : (mid : Changes) → Attempt files place mid (drop_guard files place mid)
  unfolding drop_guard
  drop_guard-Attempt mid = removed-Attempt mid (files.remove_dir mid place) refl

  settled-Ends :
      (end : Option IoError) (mid : Changes)
      → files.create_dir log place ≡ gave tt
      → Stops files place (planned_writes limits) (created_dir place ∷ log) end mid
      → Ends files place limits log (settled files place end mid).0 (settled files place end mid).1
  unfolding settled
  settled-Ends none mid made (all_written gs) = owned made gs
  settled-Ends (some e) mid made (stopped before rest w split gs refusal) =
      undone before rest w made split gs refusal
        (removed-Attempt mid (files.remove_dir mid place) refl)
        (drop_guard-Attempt (removed files place (files.remove_dir mid place) mid))

  -- A new group ends in one of three ways. The directory was refused, and then nothing changed; or
  -- it was created and every limit's write was granted, in the order of the plan, and the guard
  -- owns it; or the writes before some limit were granted and that one was refused, and then its
  -- error is returned after two attempts at removing the directory, each granted or refused.
  pub new_guard-Ends :
      Ends files
        (cgroup_root ++ˢ "/" ++ˢ prefix ++ˢ uuid)
        limits
        log
        (new_guard files uuid limits log).0
        (new_guard files uuid limits log).1
  unfolding new_guard limited
  new_guard-Ends = go (files.create_dir log place) refl
    where
      go :
          (s : Sys (Unit {0}))
          → files.create_dir log place ≡ s
          → Ends files place limits log
              (limited files place limits s log).0
              (limited files place limits s log).1
      go (refused e) h = untouched h
      go (gave _) h =
          settled-Ends _ _ h
            (apply_writes-Stops files place (planned_writes limits) (created_dir place ∷ log))
