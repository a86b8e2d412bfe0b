-- ===== src/Sandbox/Init.antt =====
-- src/bin/pincery_init.rs: the wrapper that runs inside the sandbox, installs every restriction of
-- the policy and starts the command.
pub mod Args
pub mod Facts
pub mod Restrict
pub mod Quiet
pub mod Start
use open_pincery.Prelude.{
  ℕ, ◌+◌, ◌/◌, ◌%◌, ◌≡◌, String, Bool, true, false, ◌&&◌, ◌||◌, not, Option, none, some, List, [],
  ◌∷◌, if◌then◌else◌, ◌==◌, ◌==ˢ◌, ◌++ˢ◌, leb, length, decimal, is_some, strip_prefix, trim, lines,
}
use open_pincery.Sandbox.Kernel.{
  IoError, RulesetStatus, fully_enforced, partially_enforced, not_enforced,
  LandlockRestrictionStatus, Fact, set_no_new_privs, cleared_groups, cleared_caps,
  no_new_privs_read, effective_ids, set_gids, set_uids, uids_read, gids_read, status_read,
  set_filter, started, Log, Kernel, Outcome, done, stop, panics, Run, ◌>>=◌, ◌>>◌, pure, fail, call,
  require, map_err,
}
use open_pincery.Sandbox.Landlock.{
  LandlockProfile, best_effort, hard_requirement, install_landlock_with_restrict_flags,
  install_landlock_scopes,
}
use open_pincery.Sandbox.Policy.{SandboxInitPolicy, Codec, Decoded, policy, codec}

pub data InitError : Type 0 where
  usage bad_policy_fd decode_policy apply_error verify_error : String → InitError
  read_policy exec_error : IoError → InitError

-- `InitError::stage`
unfoldable pub stage : InitError → String
stage (usage _) = "usage"
stage (bad_policy_fd _) = "bad_policy_fd"
stage (read_policy _) = "read_policy"
stage (decode_policy _) = "decode_policy"
stage (apply_error _) = "apply_policy"
stage (verify_error _) = "verify_policy"
stage (exec_error _) = "exec"

abbrev pub or_zero : Option ℕ → ℕ
or_zero none = 0
or_zero (some n) = n

-- `InitError::errno`
unfoldable pub errno : InitError → ℕ
errno (read_policy e) = or_zero e.raw_os_error
errno (exec_error e) = or_zero e.raw_os_error
errno _ = 0

-- `lines().find_map(|l| l.strip_prefix(name)).map(str::trim)`
abbrev pub or_next : Option String → Option String → Option String
or_next none next = next
or_next (some s) next = some (trim s)

unfoldable pub find_value : String → List String → Option String
find_value name [] = none
find_value name (l ∷ ls) = or_next (strip_prefix name l) (find_value name ls)

unfoldable pub status_value : String → String → Option String
unfolding find_value
status_value name status = find_value name (lines status)

abbrev pub no_caps : String
no_caps = "0000000000000000"

abbrev pub sock_filter_size : ℕ
sock_filter_size = 8

abbrev pub is_nil {ℓ} : {A : Type ℓ} → List A → Bool
is_nil [] = true
is_nil (x ∷ xs) = false

abbrev pub all_three : ℕ × ℕ × ℕ → ℕ → Bool
all_three ids want = (ids.0 == want) && ((ids.1 == want) && (ids.2 == want))

abbrev pub wants_landlock : SandboxInitPolicy → Bool
wants_landlock p = not (is_nil p.landlock_rx_paths) || not (is_nil p.landlock_rwx_paths)

abbrev pub is_full : LandlockRestrictionStatus → Bool
is_full status =
    elim status.ruleset_status [ fully_enforced ↦ true | _ ↦ false ] && status.no_new_privs

abbrev status_text : RulesetStatus → String
status_text fully_enforced = "FullyEnforced"
status_text partially_enforced = "PartiallyEnforced"
status_text not_enforced = "NotEnforced"

-- `execvp` returns only to report an error; a command that has started is in the log.
abbrev pub replaced : List String → Option IoError → Log → Outcome InitError (Unit {0}) × Log
replaced argv none log = (done tt, started argv ∷ log)
replaced argv (some e) log = (stop (exec_error e), log)

unfoldable pub decoded : Decoded → Run InitError SandboxInitPolicy
decoded (policy p) = pure p
decoded (codec e) = fail (decode_policy ("init policy codec error: " ++ˢ e))

unfoldable pub found : Option String → InitError → Run InitError String
found none e = fail e
found (some v) e = pure v

module _ (k : Kernel) where
  unfoldable pub apply_no_new_privs : Run InitError (Unit {0})
  apply_no_new_privs =
      call k.set_no_new_privs (λ _. set_no_new_privs)
        (λ e. apply_error ("prctl(PR_SET_NO_NEW_PRIVS, 1): " ++ˢ e.text))

  unfoldable pub verify_no_new_privs : Run InitError (Unit {0})
  verify_no_new_privs = do
    rc ←
        call k.get_no_new_privs no_new_privs_read
          (λ e. verify_error ("prctl(PR_GET_NO_NEW_PRIVS): " ++ˢ e.text))
    λ log.
        require (rc == 1)
          (verify_error (
            if rc == 0
            then "no_new_privs is 0 after apply (kernel did not honor prctl)"
            else "prctl(PR_GET_NO_NEW_PRIVS): " ++ˢ k.last_os_error log))
          log

  slots_message : String → String → ℕ × ℕ × ℕ → ℕ → String
  slots_message what after (r, e, s) want =
      what
      ++ˢ " slots mismatch after "
      ++ˢ after
      ++ˢ ": r="
      ++ˢ decimal r
      ++ˢ " e="
      ++ˢ decimal e
      ++ˢ " s="
      ++ˢ decimal s
      ++ˢ " want="
      ++ˢ decimal want

  unfoldable pub verify_uid_gid_slots : ℕ → ℕ → Run InitError (Unit {0})
  unfolding slots_message
  verify_uid_gid_slots uid gid = do
    uids ←
        call k.getresuid (λ ids. uids_read ids.0 ids.1 ids.2)
          (λ e. verify_error ("getresuid after drop: " ++ˢ e.text))
    require (all_three uids uid) (verify_error (slots_message "uid" "setresuid" uids uid))
    gids ←
        call k.getresgid (λ ids. gids_read ids.0 ids.1 ids.2)
          (λ e. verify_error ("getresgid after drop: " ++ˢ e.text))
    require (all_three gids gid) (verify_error (slots_message "gid" "setresgid" gids gid))

  -- `({n}, {n}, {n})`
  abbrev thrice : ℕ → String
  thrice n = "(" ++ˢ decimal n ++ˢ ", " ++ˢ decimal n ++ˢ ", " ++ˢ decimal n ++ˢ ")"

  -- The three calls that change the identity, in their order.
  unfoldable pub set_identity : ℕ → ℕ → Run InitError (Unit {0})
  set_identity uid gid = do
    call (λ l. k.setresgid l gid) (λ _. set_gids gid)
        (λ e. apply_error ("setresgid" ++ˢ thrice gid ++ˢ ": " ++ˢ e.text))
    call k.setgroups (λ _. cleared_groups) (λ e. apply_error ("setgroups(0, NULL): " ++ˢ e.text))
    call (λ l. k.setresuid l uid) (λ _. set_uids uid)
        (λ e. apply_error ("setresuid" ++ˢ thrice uid ++ˢ ": " ++ˢ e.text))

  unfoldable pub look_effective : Run InitError (ℕ × ℕ)
  look_effective log =
      let uid = k.geteuid log in
      let gid = k.getegid log in (done (uid, gid), effective_ids uid gid ∷ log)

  unfoldable pub apply_drop_privs : SandboxInitPolicy → Run InitError (Unit {0})
  unfolding verify_uid_gid_slots set_identity look_effective
  apply_drop_privs p = do
    cur ← look_effective
    if (cur.0 == p.target_uid) && (cur.1 == p.target_gid)
        then verify_uid_gid_slots p.target_uid p.target_gid
        else do
          set_identity p.target_uid p.target_gid
          verify_uid_gid_slots p.target_uid p.target_gid

  unfoldable pub proc_status_value : String → Run InitError String
  unfolding found status_value
  proc_status_value name = do
    status ←
        call k.proc_status status_read (λ e. verify_error ("read /proc/self/status: " ++ˢ e.text))
    found (status_value name status)
        (verify_error ("no " ++ˢ name ++ˢ " line in /proc/self/status"))

  unfoldable pub apply_empty_capabilities : Run InitError (Unit {0})
  unfolding proc_status_value
  apply_empty_capabilities = do
    call k.capset (λ _. cleared_caps) (λ e. apply_error ("capset(empty): " ++ˢ e.text))
    cap_eff ← proc_status_value "CapEff:"
    require (cap_eff ==ˢ no_caps)
        (verify_error ("effective capabilities not empty after capset(empty): CapEff=" ++ˢ cap_eff))

  -- The mode that `/proc/self/status` reports, demanded to be 2.
  -- The message is put together from its two ends.
  unfoldable pub verify_filter_mode : String → String → Run InitError (Unit {0})
  unfolding proc_status_value
  verify_filter_mode before after = do
    mode ← proc_status_value "Seccomp:"
    require (mode ==ˢ "2") (verify_error (before ++ˢ k.debug mode ++ˢ after))

  unfoldable pub apply_seccomp : SandboxInitPolicy → Run InitError (Unit {0})
  unfolding verify_filter_mode
  apply_seccomp p =
      let count = length p.seccomp_bpf / sock_filter_size in
      if is_nil p.seccomp_bpf then pure tt else do
        require (length p.seccomp_bpf % sock_filter_size == 0) (
            apply_error (
              "seccomp_bpf length "
              ++ˢ decimal (length p.seccomp_bpf)
              ++ˢ " not a multiple of sock_filter size 8"))
        require (not ((count == 0) || not (leb count 65535))) (
            apply_error (
              "seccomp_bpf instruction count "
              ++ˢ decimal count
              ++ˢ " out of range (1..=u16::MAX)"))
        call (λ l. k.set_filter l p.seccomp_bpf) (λ _. set_filter p.seccomp_bpf)
            (λ e. apply_error ("prctl(PR_SET_SECCOMP, SECCOMP_MODE_FILTER): " ++ˢ e.text))
        verify_filter_mode "Seccomp mode in /proc/self/status is " ", expected \"2\" (filter)"

  is_var : String → String → Bool
  is_var name value = elim (k.var name) [ none ↦ false | some v ↦ v ==ˢ value ]

  -- The override for tests, behind two variables.
  unfoldable pub force_partial : LandlockRestrictionStatus → LandlockRestrictionStatus
  unfolding is_var
  force_partial status =
      if is_var "OPEN_PINCERY_ALLOW_UNSAFE" "true"
      then if is_var "OPEN_PINCERY_INIT_FORCE_PARTIAL" "1"
        then record status { ruleset_status = partially_enforced }
        else status
      else status

  unfoldable pub apply_landlock :
      SandboxInitPolicy → Run InitError (Option LandlockRestrictionStatus)
  unfolding force_partial
  apply_landlock p =
      if is_nil p.landlock_rx_paths && is_nil p.landlock_rwx_paths then pure none else do
        status ←
            map_err (λ e. apply_error ("landlock: " ++ˢ e))
              (install_landlock_with_restrict_flags k
                (record { rx_paths = p.landlock_rx_paths; rwx_paths = p.landlock_rwx_paths })
                (if p.require_fully_enforced then hard_requirement else best_effort)
                p.landlock_restrict_flags)
        map_err (λ e. apply_error ("landlock scopes: " ++ˢ e))
            (install_landlock_scopes k p.landlock_scopes)
        pure (some (force_partial status))

  unfoldable pub verify_landlock : Option LandlockRestrictionStatus → Run InitError (Unit {0})
  verify_landlock none = fail (verify_error "landlock was skipped but require_fully_enforced=true")
  verify_landlock (some status) = require (is_full status) (
      verify_error (
        "landlock not FullyEnforced with no_new_privs=true: ruleset="
        ++ˢ status_text status.ruleset_status
        ++ˢ " no_new_privs="
        ++ˢ (if status.no_new_privs then "true" else "false")
        ++ˢ " (require_fully_enforced=true)"))

  unfoldable pub verify_fully_enforced :
      SandboxInitPolicy → Option LandlockRestrictionStatus → Run InitError (Unit {0})
  unfolding verify_landlock verify_filter_mode
  verify_fully_enforced p landlock_status = if not p.require_fully_enforced then pure tt else do
    if wants_landlock p then verify_landlock landlock_status else pure tt
    if not (is_nil p.seccomp_bpf)
        then verify_filter_mode "seccomp not in filter mode: Seccomp="
            " (require_fully_enforced=true)"
        else pure tt

  unfoldable pub apply_policy : SandboxInitPolicy → Run InitError (Unit {0})
  apply_policy p = do
    apply_no_new_privs
    apply_drop_privs p
    apply_empty_capabilities
    landlock_status ← apply_landlock p
    apply_seccomp p
    verify_no_new_privs
    verify_fully_enforced p landlock_status
    pure tt

  -- `iter.next().expect(…)` on an empty list.
  unfoldable pub exec_user_argv : List String → Run InitError (Unit {0})
  exec_user_argv [] log = (panics, log)
  exec_user_argv (program ∷ rest) log = replaced (program ∷ rest) (k.exec log (program ∷ rest)) log

  -- `run_inner`, from the bytes of the policy descriptor.
  unfoldable pub run_inner : Codec → List ℕ → Run InitError (Unit {0})
  unfolding decoded
  run_inner c bytes = do
    p ← decoded (c.from_bytes bytes)
    apply_policy p
    exec_user_argv p.user_argv
