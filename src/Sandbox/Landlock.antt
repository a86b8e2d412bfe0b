-- ===== src/Sandbox/Landlock.antt =====
-- src/runtime/sandbox/landlock.rs: the path profile and its installation.
pub mod Rules
pub mod Install
use open_pincery.Prelude.{
  ℕ, ◌+◌, ◌≡◌, String, Bool, true, false, Option, none, some, List, [], ◌∷◌, ◌++◌, if◌then◌else◌,
  ◌==◌, ◌++ˢ◌, not,
}
use open_pincery.Sandbox.Kernel.{
  IoError, Sys, gave, refused, RulesetStatus, fully_enforced, partially_enforced, not_enforced,
  LandlockRestrictionStatus, Fact, created_ruleset, allowed, restricted, restricted_by_crate,
  no_new_privs_read, Log, Kernel, Outcome, done, stop, Run, ◌>>=◌, ◌>>◌, pure, fail, call,
}

-- `LANDLOCK_ACCESS_FS_EXECUTE | READ_FILE | READ_DIR`
abbrev pub access_fs_v1_read : ℕ
access_fs_v1_read = 1 + 4 + 8

-- `LANDLOCK_ACCESS_FS_EXECUTE | READ_FILE`
abbrev pub access_fs_file : ℕ
access_fs_file = 1 + 4

-- The bits 0 to 12.
abbrev pub access_fs_v1_all : ℕ
access_fs_v1_all = 8191

pub data LandlockCompatibility : Type 0 where
  best_effort hard_requirement : LandlockCompatibility

abbrev pub is_hard : LandlockCompatibility → Bool
is_hard best_effort = false
is_hard hard_requirement = true

abbrev pub rootfs_rx_paths : List String
rootfs_rx_paths = "/usr" ∷ "/bin" ∷ "/sbin" ∷ "/lib" ∷ "/lib64" ∷ "/sys" ∷ []

abbrev pub etc_allowlist : List String
etc_allowlist =
    "/etc/ld.so.cache" ∷ "/etc/ld.so.conf" ∷ "/etc/ld.so.conf.d" ∷ "/etc/nsswitch.conf"
    ∷ "/etc/passwd" ∷ "/etc/group" ∷ "/etc/hosts" ∷ "/etc/host.conf" ∷ "/etc/resolv.conf"
    ∷ "/etc/gai.conf" ∷ "/etc/localtime" ∷ "/etc/timezone" ∷ "/etc/os-release" ∷ "/etc/alternatives"
    ∷ "/etc/ssl/certs" ∷ "/etc/ssl/openssl.cnf" ∷ "/etc/ca-certificates"
    ∷ "/etc/ca-certificates.conf" ∷ "/etc/pki/tls/certs" ∷ "/etc/pki/ca-trust/extracted" ∷ []

pub record LandlockProfile : Type 0 where
  pub rx_paths : List String
  pub rwx_paths : List String

unfoldable pub default_for_cwd : String → LandlockProfile
default_for_cwd cwd = record {
  rx_paths = rootfs_rx_paths ++ etc_allowlist;
  rwx_paths = "/proc" ∷ "/dev" ∷ cwd ∷ [];
}

-- `validate_restriction_parts`: `none` for `Ok`.
unfoldable pub restriction_error : RulesetStatus → Bool → LandlockCompatibility → Option String
restriction_error fully_enforced no_new_privs compatibility =
    if no_new_privs
    then none
    else if not (is_hard compatibility)
    then none
    else some "landlock FullyEnforced but no_new_privs=false under HardRequirement compatibility"
restriction_error partially_enforced no_new_privs compatibility =
    if not (is_hard compatibility)
    then none
    else some "landlock partially enforced under HardRequirement compatibility"
restriction_error not_enforced no_new_privs compatibility =
    some "landlock not enforced (kernel returned NotEnforced status)"

unfoldable pub validated :
    Option String → LandlockRestrictionStatus → Run String LandlockRestrictionStatus
validated none status = pure status
validated (some e) status = fail e

unfoldable pub validate :
    LandlockRestrictionStatus → LandlockCompatibility → Run String LandlockRestrictionStatus
unfolding validated
validate status compatibility =
    validated (restriction_error status.ruleset_status status.no_new_privs compatibility) status

module _ (k : Kernel) where
  -- A path that cannot be opened: an `rx` path is passed over, an `rwx` path is an error.
  unfoldable pub add_rx : Sys (Unit {0}) → String → Run String (Unit {0})
  add_rx (refused _) path log = (done tt, log)
  add_rx (gave _) path log =
      let access = if k.is_dir log path then access_fs_v1_read else access_fs_file in
      call (λ l. k.add_rule l path access) (λ _. allowed path access)
        (λ e. "landlock add_rule(" ++ˢ path ++ˢ ") failed: " ++ˢ e.text) log

  unfoldable pub add_rx_rules : List String → Run String (Unit {0})
  unfolding add_rx
  add_rx_rules [] = pure tt
  add_rx_rules (path ∷ paths) =
      (λ log. add_rx (k.open_path log path) path log) >> add_rx_rules paths

  unfoldable pub add_rwx : Sys (Unit {0}) → String → Run String (Unit {0})
  add_rwx (refused e) path log =
      (stop ("landlock open path " ++ˢ path ++ˢ " failed: " ++ˢ e.text), log)
  add_rwx (gave _) path log =
      call (λ l. k.add_rule l path access_fs_v1_all) (λ _. allowed path access_fs_v1_all)
        (λ e. "landlock add_rule(" ++ˢ path ++ˢ ") failed: " ++ˢ e.text) log

  unfoldable pub add_rwx_rules : List String → Run String (Unit {0})
  unfolding add_rwx
  add_rwx_rules [] = pure tt
  add_rwx_rules (path ∷ paths) =
      (λ log. add_rwx (k.open_path log path) path log) >> add_rwx_rules paths

  unfoldable pub create_ruleset : ℕ → ℕ → String → Run String (Unit {0})
  create_ruleset handled scoped label =
      call (λ l. k.create_ruleset l handled scoped) (λ _. created_ruleset handled scoped)
        (λ e. "landlock create " ++ˢ label ++ˢ " ruleset failed: " ++ˢ e.text)

  unfoldable pub restrict_ruleset : ℕ → String → Run String (Unit {0})
  restrict_ruleset flags label =
      call (λ l. k.restrict_self l flags) (λ _. restricted flags)
        (λ e. "landlock restrict " ++ˢ label ++ˢ " ruleset failed: " ++ˢ e.text)

  -- A `prctl` result that is neither 0 nor 1 is an error.
  unfoldable pub flag_of : ℕ → Run String Bool
  flag_of rc = if rc == 1 then pure true else if rc == 0 then pure false else λ log.
      fail ("prctl(PR_GET_NO_NEW_PRIVS) failed: " ++ˢ k.last_os_error log) log

  unfoldable pub no_new_privs_enabled : Run String Bool
  unfolding flag_of
  no_new_privs_enabled = do
    rc ←
        call k.get_no_new_privs no_new_privs_read
          (λ e. "prctl(PR_GET_NO_NEW_PRIVS) failed: " ++ˢ e.text)
    flag_of rc

  unfoldable pub install_landlock_raw :
      LandlockProfile → LandlockCompatibility → ℕ → Run String LandlockRestrictionStatus
  unfolding add_rx_rules add_rwx_rules create_ruleset restrict_ruleset no_new_privs_enabled
  install_landlock_raw profile compatibility restrict_flags = do
    create_ruleset access_fs_v1_all 0 "filesystem"
    add_rx_rules profile.rx_paths
    add_rwx_rules profile.rwx_paths
    restrict_ruleset restrict_flags "filesystem"
    no_new_privs ← no_new_privs_enabled
    validate (record { ruleset_status = fully_enforced; no_new_privs = no_new_privs }) compatibility

  -- The same by the `landlock` package.
  unfoldable pub crate_rx : Sys (Unit {0}) → String → Run String (Unit {0})
  crate_rx (refused _) path log = (done tt, log)
  crate_rx (gave _) path log =
      let access = if k.is_dir log path then k.access_from_read else k.access_from_file in
      call (λ l. k.crate_add_rule l path access) (λ _. allowed path access)
        (λ e. "landlock add_rule(" ++ˢ path ++ˢ ") failed: " ++ˢ e.text) log

  unfoldable pub crate_rx_rules : List String → Run String (Unit {0})
  unfolding crate_rx
  crate_rx_rules [] = pure tt
  crate_rx_rules (path ∷ paths) =
      (λ log. crate_rx (k.crate_open_path log path) path log) >> crate_rx_rules paths

  unfoldable pub crate_rwx : Sys (Unit {0}) → String → Run String (Unit {0})
  crate_rwx (refused e) path log =
      (stop ("landlock PathFd(" ++ˢ path ++ˢ ") failed: " ++ˢ e.text), log)
  crate_rwx (gave _) path log =
      call (λ l. k.crate_add_rule l path k.access_from_all) (λ _. allowed path k.access_from_all)
        (λ e. "landlock add_rule(" ++ˢ path ++ˢ ") failed: " ++ˢ e.text) log

  unfoldable pub crate_rwx_rules : List String → Run String (Unit {0})
  unfolding crate_rwx
  crate_rwx_rules [] = pure tt
  crate_rwx_rules (path ∷ paths) =
      (λ log. crate_rwx (k.crate_open_path log path) path log) >> crate_rwx_rules paths

  unfoldable pub install_landlock_with_restrict_flags :
      LandlockProfile → LandlockCompatibility → ℕ → Run String LandlockRestrictionStatus
  unfolding install_landlock_raw crate_rx_rules crate_rwx_rules
  install_landlock_with_restrict_flags profile compatibility restrict_flags =
      if not (restrict_flags == 0)
      then install_landlock_raw profile compatibility restrict_flags
      else do
        call (λ l. k.crate_create l (is_hard compatibility))
            (λ _. created_ruleset k.access_from_all 0) (λ e. "landlock create failed: " ++ˢ e.text)
        crate_rx_rules profile.rx_paths
        crate_rwx_rules profile.rwx_paths
        status ←
            call k.crate_restrict_self restricted_by_crate
              (λ e. "landlock restrict_self failed: " ++ˢ e.text)
        validate status compatibility

  unfoldable pub install_landlock_scopes : ℕ → Run String (Unit {0})
  install_landlock_scopes scopes =
      if scopes == 0
      then pure tt
      else do create_ruleset 0 scopes "scoped"; restrict_ruleset 0 "scoped"
