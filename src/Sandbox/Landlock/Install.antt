-- ===== src/Sandbox/Landlock/Install.antt =====
-- What an installed path profile lets the command do.
use open_pincery.Prelude.{
  ℕ, ◌≡◌, ◌≢◌, refl, subst, ◌∙◌, ap, sym, String, Bool, true, false, inl, inr, Option, none, some,
  ◌∷◌, ◌++ˢ◌, if◌then◌else◌, arith, ◌==◌, ==→≡, Bool-cases,
}
use open_pincery.Sandbox.Kernel.{
  Sys, RulesetStatus, LandlockRestrictionStatus, fully_enforced, partially_enforced, not_enforced,
  created_ruleset, restricted, restricted_by_crate, no_new_privs_read, Log, Kernel, done, Run,
  ◌>>=◌, ◌>>◌, >>=-done, pure, fail, call, call-done,
}
use open_pincery.Sandbox.Landlock.{
  is_hard, LandlockProfile, LandlockCompatibility, best_effort, hard_requirement, access_fs_v1_all,
  crate_rx_rules, crate_rwx_rules, create_ruleset, restrict_ruleset, no_new_privs_enabled, flag_of,
  validate, validated, restriction_error, install_landlock_raw,
  install_landlock_with_restrict_flags, install_landlock_scopes,
}
use open_pincery.Sandbox.Landlock.Rules.{
  RxRules, RwxRules, RxRules-from, add_rx_rules-RxRules, add_rwx_rules-RwxRules,
  crate_rx_rules-RxRules, crate_rwx_rules-RwxRules,
}

-- The rules of a profile, between the creation of a ruleset that handles `all` and its end.
pub record Ruled (opens : Log → String → Sys (Unit {0})) (is_dir : Log → String → Bool)
    (dir file all : ℕ) (profile : LandlockProfile) (log end : Log) : Type 0 where
  pub read_only : Log
  pub rx : RxRules opens is_dir dir file profile.rx_paths (created_ruleset all 0 ∷ log) read_only
  pub rwx : RwxRules opens is_dir all profile.rwx_paths read_only end

-- The reports that are accepted: some enforcement, and the whole of it where it is a requirement.
pub record Accepted (compatibility : LandlockCompatibility) (status : LandlockRestrictionStatus)
    : Type 0 where
  pub some_enforced : status.ruleset_status ≢ not_enforced
  pub all_enforced :
      compatibility ≡ hard_requirement
      → (status.ruleset_status ≡ fully_enforced) × (status.no_new_privs ≡ true)

restriction_error-Accepted :
    (reported : RulesetStatus) (no_new_privs : Bool) (compatibility : LandlockCompatibility)
    → restriction_error reported no_new_privs compatibility ≡ none
    → Accepted compatibility (record { ruleset_status = reported; no_new_privs = no_new_privs })
unfolding restriction_error
restriction_error-Accepted fully_enforced true compatibility h = record {
  some_enforced = cc;
  all_enforced = λ e. (refl, refl);
}
restriction_error-Accepted fully_enforced false best_effort h = record {
  some_enforced = cc;
  all_enforced = λ e. absurd (cc);
}
restriction_error-Accepted fully_enforced false hard_requirement h = absurd (cc)
restriction_error-Accepted partially_enforced no_new_privs best_effort h = record {
  some_enforced = cc;
  all_enforced = λ e. absurd (cc);
}
restriction_error-Accepted partially_enforced no_new_privs hard_requirement h = absurd (cc)
restriction_error-Accepted not_enforced no_new_privs compatibility h = absurd (cc)

module _ (k : Kernel) where
  create_ruleset-done :
      (handled scoped : ℕ) (label : String) (log : Log) {log' : Log}
      → create_ruleset k handled scoped label log ≡ (done tt, log')
      → log' ≡ created_ruleset handled scoped ∷ log
  unfolding create_ruleset call
  create_ruleset-done handled scoped label log h = ground arith

  restrict_ruleset-done :
      (flags : ℕ) (label : String) (log : Log) {log' : Log}
      → restrict_ruleset k flags label log ≡ (done tt, log')
      → log' ≡ restricted flags ∷ log
  unfolding restrict_ruleset call
  restrict_ruleset-done flags label log h = ground arith

  flag_of-done :
      (rc : ℕ) (log : Log) {b : Bool} {log' : Log}
      → flag_of k rc log ≡ (done b, log')
      → (log' ≡ log) × (rc ≡ (if b then 1 else 0))
  unfolding flag_of pure fail
  flag_of-done rc log {b = true} h = (ground arith, ground arith)
  flag_of-done rc log {b = false} h = (ground arith, ground arith)

  no_new_privs_enabled-done :
      (log : Log) {b : Bool} {log' : Log}
      → no_new_privs_enabled k log ≡ (done b, log')
      → log' ≡ no_new_privs_read (if b then 1 else 0) ∷ log
  unfolding no_new_privs_enabled
  no_new_privs_enabled-done log h =
      let (rc, mid, asked, read) = >>=-done _ _ log h in
      let (same, value) = flag_of-done rc mid read in
      same
      ∙ (call-done k.get_no_new_privs no_new_privs_read
            (λ e. "prctl(PR_GET_NO_NEW_PRIVS) failed: " ++ˢ e.text) log asked
          ∙ ap (λ n. no_new_privs_read n ∷ log) value)

  validate-done :
      (status : LandlockRestrictionStatus) (compatibility : LandlockCompatibility) (log : Log)
      {out : LandlockRestrictionStatus} {log' : Log}
      → validate status compatibility log ≡ (done out, log')
      → Accepted compatibility out × (out ≡ status) × (log' ≡ log)
  unfolding validate validated pure fail
  validate-done status compatibility log h =
      let reported = status.ruleset_status in
      split (restriction_error reported status.no_new_privs compatibility)
        (restriction_error-Accepted reported status.no_new_privs compatibility) h
    where
      split :
          (o : Option String)
          → (o ≡ none → Accepted compatibility status)
          → {out : LandlockRestrictionStatus} {log' : Log}
          → validated o status log ≡ (done out, log')
          → Accepted compatibility out × (out ≡ status) × (log' ≡ log)
      split none accepted h =
          let same : status ≡ _ = ground arith in
          (subst (Accepted compatibility) same (accepted refl), sym same, ground arith)
      split (some e) accepted h = absurd (cc)

  -- The native calls: the rules of the profile with the access sets of ABI 1, the restriction with
  -- the wanted flags, and a status that repeats what the kernel said of `no_new_privs`.
  pub install_landlock_raw-Ruled :
      (profile : LandlockProfile) (compatibility : LandlockCompatibility) (flags : ℕ) (log : Log)
      {status : LandlockRestrictionStatus} {log' : Log}
      → install_landlock_raw k profile compatibility flags log ≡ (done status, log')
      → (end : Log) × Ruled k.open_path k.is_dir 13 5 8191 profile log end
        × (log' ≡ no_new_privs_read (if status.no_new_privs then 1 else 0) ∷ restricted flags ∷ end)
        × (status.ruleset_status ≡ fully_enforced)
        × Accepted compatibility status
  unfolding install_landlock_raw
  install_landlock_raw-Ruled profile compatibility flags log h =
      let (_, l1, h1, r1) = >>=-done _ _ log h in
      let (_, l2, h2, r2) = >>=-done _ _ l1 r1 in
      let (_, l3, h3, r3) = >>=-done _ _ l2 r2 in
      let (_, l4, h4, r4) = >>=-done _ _ l3 r3 in
      let (b, l5, h5, r5) = >>=-done _ _ l4 r4 in
      let (accepted, same, kept) = validate-done _ compatibility l5 r5 in
      (
        l3,
        record {
          read_only = l2;
          rx =
              RxRules-from k.open_path k.is_dir
                (create_ruleset-done access_fs_v1_all 0 "filesystem" log h1)
                (add_rx_rules-RxRules k profile.rx_paths l1 h2);
          rwx = add_rwx_rules-RwxRules k profile.rwx_paths l2 h3;
        },
        kept
            ∙ (no_new_privs_enabled-done l4 h5
                ∙ (let e = restrict_ruleset-done flags "filesystem" l3 h4 in
                    λ i. no_new_privs_read (if (sym same i).no_new_privs then 1 else 0) ∷ e i)),
        ap (λ (s : LandlockRestrictionStatus). s.ruleset_status) same,
        accepted,
      )

  -- The calls of the `landlock` package: the same rules, with its access sets.
  by_crate : LandlockProfile → LandlockCompatibility → Run String LandlockRestrictionStatus
  by_crate profile compatibility = do
    call (λ l. k.crate_create l (is_hard compatibility)) (λ _. created_ruleset k.access_from_all 0)
        (λ e. "landlock create failed: " ++ˢ e.text)
    crate_rx_rules k profile.rx_paths
    crate_rwx_rules k profile.rwx_paths
    status ←
        call k.crate_restrict_self restricted_by_crate
          (λ e. "landlock restrict_self failed: " ++ˢ e.text)
    validate status compatibility

  by_crate-Ruled :
      (profile : LandlockProfile) (compatibility : LandlockCompatibility) (log : Log)
      {status : LandlockRestrictionStatus} {log' : Log}
      → by_crate profile compatibility log ≡ (done status, log')
      → (end : Log) × Ruled k.crate_open_path k.is_dir k.access_from_read k.access_from_file
          k.access_from_all profile log end
        × (log' ≡ restricted_by_crate status ∷ end)
        × Accepted compatibility status
  unfolding by_crate
  by_crate-Ruled profile compatibility log h =
      let (_, l1, h1, r1) = >>=-done _ _ log h in
      let (_, l2, h2, r2) = >>=-done _ _ l1 r1 in
      let (_, l3, h3, r3) = >>=-done _ _ l2 r2 in
      let (s, l4, h4, r4) = >>=-done _ _ l3 r3 in
      let (accepted, same, kept) = validate-done s compatibility l4 r4 in
      (
        l3,
        record {
          read_only = l2;
          rx =
              RxRules-from k.crate_open_path k.is_dir
                (call-done (λ l. k.crate_create l (is_hard compatibility))
                  (λ _. created_ruleset k.access_from_all 0)
                  (λ e. "landlock create failed: " ++ˢ e.text) log h1)
                (crate_rx_rules-RxRules k profile.rx_paths l1 h2);
          rwx = crate_rwx_rules-RwxRules k profile.rwx_paths l2 h3;
        },
        kept
            ∙ (call-done k.crate_restrict_self restricted_by_crate
                  (λ e. "landlock restrict_self failed: " ++ˢ e.text) l3 h4
                ∙ (λ i. restricted_by_crate (sym same i) ∷ l3)),
        accepted,
      )

  -- A profile that is in force: by the native calls where flags are asked for, else by the package.
  -- Natively a directory to read gets execute, read file and read directory (1 + 4 + 8), another
  -- file execute and read (1 + 4), and a path to write the thirteen rights of ABI 1.
  pub data InForce (profile : LandlockProfile) (compatibility : LandlockCompatibility) (log : Log)
      : ℕ → LandlockRestrictionStatus → Log → Type 0 where
    natively :
        {flags : ℕ} {status : LandlockRestrictionStatus} {log' end : Log}
        → flags ≢ 0
        → Ruled k.open_path k.is_dir 13 5 8191 profile log end
        → log' ≡ no_new_privs_read (if status.no_new_privs then 1 else 0) ∷ restricted flags ∷ end
        → status.ruleset_status ≡ fully_enforced
        → Accepted compatibility status
        → InForce profile compatibility log flags status log'
    by_package :
        {flags : ℕ} {status : LandlockRestrictionStatus} {log' end : Log}
        → flags ≡ 0
        → Ruled k.crate_open_path k.is_dir k.access_from_read k.access_from_file k.access_from_all
            profile log end
        → log' ≡ restricted_by_crate status ∷ end
        → Accepted compatibility status
        → InForce profile compatibility log flags status log'

  -- If the installation goes through, the kernel has granted a ruleset whose rules are those of the
  -- profile in its order, and then the restriction itself. A read-only path is passed over exactly
  -- if it could not be opened, and else has the access of a directory or of another file, whichever
  -- it is; every writable path was opened and has all accesses. Where flags are asked for, the
  -- accesses are 13, 5 and 8191, and the status says what the kernel said of `no_new_privs`
  -- afterwards; else the accesses and the status are the package's own. The status is not "not
  -- enforced", and under a hard requirement it is "fully enforced" with `no_new_privs`.
  pub install_landlock-InForce :
      (profile : LandlockProfile) (compatibility : LandlockCompatibility) (flags : ℕ) (log : Log)
      {status : LandlockRestrictionStatus} {log' : Log}
      → install_landlock_with_restrict_flags k profile compatibility flags log ≡ (done status, log')
      → InForce profile compatibility log flags status log'
  unfolding install_landlock_with_restrict_flags by_crate
  install_landlock-InForce profile compatibility flags log h = elim (Bool-cases (flags == 0)) [
    | inl z ↦
        let (end, ruled, last, accepted) = by_crate-Ruled profile compatibility log (rw z at h) in
        by_package (==→≡ flags 0 z) ruled last accepted
    | inr nz ↦
        let (end, ruled, last, full, accepted) =
          install_landlock_raw-Ruled profile compatibility flags log (rw nz at h) in
        natively (ground arith) ruled last full accepted
  ]

-- The scopes, in a ruleset of their own; none asked for, none installed.
pub data Scoped (scopes : ℕ) (log : Log) : Log → Type 0 where
  unscoped : {log' : Log} → scopes ≡ 0 → log' ≡ log → Scoped scopes log log'
  scoped :
      {log' : Log} → log' ≡ restricted 0 ∷ created_ruleset 0 scopes ∷ log → Scoped scopes log log'

module _ (k : Kernel) where
  pub install_landlock_scopes-Scoped :
      (scopes : ℕ) (log : Log) {log' : Log}
      → install_landlock_scopes k scopes log ≡ (done tt, log')
      → Scoped scopes log log'
  unfolding install_landlock_scopes pure
  install_landlock_scopes-Scoped scopes log h = elim (Bool-cases (scopes == 0)) [
    | inl z ↦ unscoped (==→≡ scopes 0 z) (ground arith)
    | inr nz ↦
        let (_, mid, h1, r1) = >>=-done _ _ log (rw nz at h) in
        scoped (
          restrict_ruleset-done k 0 "scoped" mid r1
          ∙ ap (λ l. restricted 0 ∷ l) (create_ruleset-done k 0 scopes "scoped" log h1))
  ]
