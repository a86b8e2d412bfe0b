-- ===== src/Sandbox/Cgroup.antt =====
-- src/runtime/sandbox/cgroup.rs: the group of a sandboxed command and its limits. The file system is
-- a log of what it granted, with the removals it refused, and its answers are functions of the log.
pub mod Guard
use open_pincery.Prelude.{
  ℕ, ◌≡◌, String, Bool, true, false, Option, none, some, List, [], ◌∷◌, ◌++◌, ◌++ˢ◌, decimal,
}
use open_pincery.Sandbox.Kernel.{IoError, Sys, gave, refused}

abbrev pub cgroup_root : String
cgroup_root = "/sys/fs/cgroup"

abbrev pub prefix : String
prefix = "pincery-"

pub record CgroupLimits : Type 0 where
  pub memory_max_bytes : Option ℕ
  pub pids_max : Option ℕ
  -- quota, period
  pub cpu_max_micros : Option (ℕ × ℕ)

-- Name and content.
abbrev pub Write : Type 0
Write = String × String

abbrev pub limit_write : String → Option ℕ → List Write
limit_write file none = []
limit_write file (some n) = (file, decimal n) ∷ []

abbrev pub cpu_write : Option (ℕ × ℕ) → List Write
cpu_write none = []
cpu_write (some (quota, period)) = ("cpu.max", decimal quota ++ˢ " " ++ˢ decimal period) ∷ []

unfoldable pub planned_writes : CgroupLimits → List Write
planned_writes limits =
    limit_write "memory.max" limits.memory_max_bytes
    ++ (limit_write "pids.max" limits.pids_max ++ cpu_write limits.cpu_max_micros)

pub data Change : Type 0 where
  -- `kept_dir` is a removal that was refused; it is listed so that the next may be answered otherwise.
  created_dir removed_dir kept_dir : String → Change
  -- directory, name, content
  wrote : String → String → String → Change

-- The newest first.
abbrev pub Changes : Type 0
Changes = List Change

pub record Files : Type 0 where
  pub create_dir : Changes → String → Sys (Unit {0})
  pub remove_dir : Changes → String → Sys (Unit {0})
  pub write : Changes → String → String → String → Sys (Unit {0})

-- The guard owns the directory.
pub data Guarded : Type 0 where
  guard : String → Guarded
  failed : IoError → Guarded

module _ (files : Files) where
  -- `let _ = fs::remove_dir(…)`
  abbrev pub removed : String → Sys (Unit {0}) → Changes → Changes
  removed path (gave _) log = removed_dir path ∷ log
  removed path (refused e) log = kept_dir path ∷ log

  unfoldable pub drop_guard : String → Changes → Changes
  drop_guard path log = removed path (files.remove_dir log path) log

  -- The writes in order, up to the first that is refused.
  unfoldable pub apply_writes : String → List Write → Changes → Option IoError × Changes
  apply_writes path [] log = (none, log)
  apply_writes path (w ∷ rest) log =
      let later = apply_writes path rest (wrote path w.0 w.1 ∷ log) in
      elim (files.write log path w.0 w.1) [ gave _ ↦ later | refused e ↦ (some e, log) ]

  unfoldable pub settled : String → Option IoError → Changes → Guarded × Changes
  unfolding drop_guard
  settled path none log = (guard path, log)
  settled path (some e) log =
      -- Removed once here and once more as the guard is dropped.
      (failed e, drop_guard path (removed path (files.remove_dir log path) log))

  unfoldable pub limited : String → CgroupLimits → Sys (Unit {0}) → Changes → Guarded × Changes
  unfolding apply_writes planned_writes settled
  limited path limits (refused e) log = (failed e, log)
  limited path limits (gave _) log =
      let (end, log') = apply_writes path (planned_writes limits) (created_dir path ∷ log) in
      settled path end log'

  -- `CgroupGuard::new`, with the text of the fresh UUID.
  unfoldable pub new_guard : String → CgroupLimits → Changes → Guarded × Changes
  unfolding limited
  new_guard uuid limits log =
      let path = cgroup_root ++ˢ "/" ++ˢ prefix ++ˢ uuid in
      limited path limits (files.create_dir log path) log
