-- ===== src/Sandbox/Init/Facts.antt =====
-- The restrictions of a policy, as they are read off the log of what was granted and reported.
use open_pincery.Prelude.{
  ℕ, ◌%◌, ◌/◌, ◌≤◌, ◌≡◌, String, true, false, if◌then◌else◌, Option, none, some, ◌∷◌, length,
}
use open_pincery.Sandbox.Kernel.{
  set_no_new_privs, cleared_groups, cleared_caps, no_new_privs_read, effective_ids, set_gids,
  set_uids, uids_read, gids_read, status_read, set_filter, Log, Kernel, LandlockRestrictionStatus,
}
use open_pincery.Sandbox.Landlock.{best_effort, hard_requirement}
use open_pincery.Sandbox.Landlock.Install.{InForce, Scoped}
use open_pincery.Sandbox.Policy.{SandboxInitPolicy}
use open_pincery.Sandbox.Init.{
  status_value, no_caps, is_nil, wants_landlock, is_full, force_partial,
}

-- All three slots of both identities read as wanted.
abbrev pub slots_read : ℕ → ℕ → Log → Log
slots_read uid gid log = gids_read gid gid gid ∷ uids_read uid uid uid ∷ log

-- The identity is the target's: it was before, or the groups and both identities were set in the
-- order that keeps the right to do so. Either way all six slots are read afterwards.
pub data Dropped (p : SandboxInitPolicy) (log : Log) : Log → Type 0 where
  already :
      {log' : Log}
      → log' ≡ slots_read p.target_uid p.target_gid (effective_ids p.target_uid p.target_gid ∷ log)
      → Dropped p log log'
  changed :
      {log' : Log} (uid gid : ℕ)
      → log'
        ≡ slots_read p.target_uid p.target_gid (
            set_uids p.target_uid
            ∷ cleared_groups
            ∷ set_gids p.target_gid
            ∷ effective_ids uid gid
            ∷ log)
      → Dropped p log log'

-- A line of /proc/self/status was read last and has the value.
pub record Reports (name value : String) (log log' : Log) : Type 0 where
  pub status : String
  pub says : status_value name status ≡ some value
  pub last : log' ≡ status_read status ∷ log

-- The filter of the policy, if it has one, is whole and was granted, and the mode was read.
pub data Filtered (p : SandboxInitPolicy) (log : Log) : Log → Type 0 where
  unasked : {log' : Log} → is_nil p.seccomp_bpf ≡ true → log' ≡ log → Filtered p log log'
  filtered :
      {log' : Log}
      → length p.seccomp_bpf % 8 ≡ 0
      → 1 ≤ length p.seccomp_bpf / 8
      → length p.seccomp_bpf / 8 ≤ 65535
      → Reports "Seccomp:" "2" (set_filter p.seccomp_bpf ∷ log) log'
      → Filtered p log log'

-- The path rules are in force and then the scopes; a policy without paths asks for neither.
pub data Locked (k : Kernel) (p : SandboxInitPolicy) (log : Log)
    : Option LandlockRestrictionStatus → Log → Type 0 where
  unwanted :
      {status : Option LandlockRestrictionStatus} {log' : Log}
      → wants_landlock p ≡ false
      → status ≡ none
      → log' ≡ log
      → Locked k p log status log'
  locked :
      {status : Option LandlockRestrictionStatus} {log' mid : Log}
      → (st : LandlockRestrictionStatus)
      → InForce k
          (record { rx_paths = p.landlock_rx_paths; rwx_paths = p.landlock_rwx_paths })
          (if p.require_fully_enforced then hard_requirement else best_effort)
          log
          p.landlock_restrict_flags
          st
          mid
      → Scoped p.landlock_scopes mid log'
      → status ≡ some (force_partial k st)
      → Locked k p log status log'

-- What the last check of a policy that demands everything has seen.
pub data Verified (p : SandboxInitPolicy) (status : Option LandlockRestrictionStatus) (log : Log)
    : Log → Type 0 where
  not_demanded :
      {log' : Log} → p.require_fully_enforced ≡ false → log' ≡ log → Verified p status log log'
  demanded :
      {log' : Log}
      → (wants_landlock p ≡ true
          → (st : LandlockRestrictionStatus) × (status ≡ some st) × (is_full st ≡ true))
      → (is_nil p.seccomp_bpf ≡ true → log' ≡ log)
      → (is_nil p.seccomp_bpf ≡ false → Reports "Seccomp:" "2" log log')
      → Verified p status log log'

-- The steps of a policy in their order, each on the log that the one before has left.
pub record Restricted (k : Kernel) (p : SandboxInitPolicy) (log end : Log) : Type 0 where
  pub after_identity : Log
  pub after_caps : Log
  pub after_paths : Log
  pub after_filter : Log
  pub status : Option LandlockRestrictionStatus
  pub identity : Dropped p (set_no_new_privs ∷ log) after_identity
  pub caps : Reports "CapEff:" no_caps (cleared_caps ∷ after_identity) after_caps
  pub paths : Locked k p after_caps status after_paths
  pub filter : Filtered p after_paths after_filter
  pub checked : Verified p status (no_new_privs_read 1 ∷ after_filter) end
