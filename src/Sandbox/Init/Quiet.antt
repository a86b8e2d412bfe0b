-- ===== src/Sandbox/Init/Quiet.antt =====
-- No step before the last one starts a command.
use open_pincery.Prelude.{ℕ, refl, String, true, false, Option, none, some, List, [], ◌∷◌}
use open_pincery.Sandbox.Kernel.{Sys, gave, refused, LandlockRestrictionStatus, Kernel}
use open_pincery.Sandbox.Landlock.{
  LandlockProfile, LandlockCompatibility, restriction_error, add_rx, add_rwx, add_rx_rules,
  add_rwx_rules, crate_rx, crate_rwx, crate_rx_rules, crate_rwx_rules, create_ruleset,
  restrict_ruleset, no_new_privs_enabled, validate, validated, install_landlock_with_restrict_flags,
  install_landlock_scopes,
}
use open_pincery.Sandbox.Policy.{SandboxInitPolicy}
use open_pincery.Sandbox.Init.{
  InitError, apply_no_new_privs, apply_drop_privs, apply_empty_capabilities, apply_landlock,
  apply_seccomp, apply_policy, verify_uid_gid_slots, verify_no_new_privs, verify_fully_enforced,
  verify_landlock, verify_filter_mode, set_identity, look_effective, proc_status_value, found,
}
use open_pincery.Sandbox.Kernel.Quiet.{
  Quiet, Quiet-bind, Quiet-pure, Quiet-fail, Quiet-if, Quiet-call, Quiet-map_err, Quiet-look,
  Quiet-require,
}

module _ (k : Kernel) where
  apply_no_new_privs-Quiet : Quiet (apply_no_new_privs k)
  unfolding apply_no_new_privs
  apply_no_new_privs-Quiet = Quiet-call _ _ _ (λ a log. refl)

  verify_uid_gid_slots-Quiet : (uid gid : ℕ) → Quiet (verify_uid_gid_slots k uid gid)
  unfolding verify_uid_gid_slots
  verify_uid_gid_slots-Quiet uid gid = Quiet-bind (Quiet-call _ _ _ (λ a log. refl)) λ uids.
      Quiet-bind (Quiet-require _ _)
        λ _. Quiet-bind (Quiet-call _ _ _ (λ a log. refl)) λ gids. Quiet-require _ _

  set_identity-Quiet : (uid gid : ℕ) → Quiet (set_identity k uid gid)
  unfolding set_identity
  set_identity-Quiet uid gid =
      Quiet-bind (Quiet-call _ _ _ (λ a log. refl))
        λ _. Quiet-bind (Quiet-call _ _ _ (λ a log. refl)) λ _. Quiet-call _ _ _ (λ a log. refl)

  apply_drop_privs-Quiet : (p : SandboxInitPolicy) → Quiet (apply_drop_privs k p)
  unfolding apply_drop_privs look_effective
  apply_drop_privs-Quiet p =
      Quiet-bind (record { at = λ log. refl })
        λ cur. Quiet-if _ (verify_uid_gid_slots-Quiet p.target_uid p.target_gid) (
          Quiet-bind (set_identity-Quiet p.target_uid p.target_gid)
            λ _. verify_uid_gid_slots-Quiet p.target_uid p.target_gid)

  found-Quiet : (o : Option String) (e : InitError) → Quiet (found o e)
  unfolding found
  found-Quiet none e = Quiet-fail e
  found-Quiet (some v) e = Quiet-pure v

  proc_status_value-Quiet : (name : String) → Quiet (proc_status_value k name)
  unfolding proc_status_value
  proc_status_value-Quiet name =
      Quiet-bind (Quiet-call _ _ _ (λ a log. refl)) λ status. found-Quiet _ _

  apply_empty_capabilities-Quiet : Quiet (apply_empty_capabilities k)
  unfolding apply_empty_capabilities
  apply_empty_capabilities-Quiet =
      Quiet-bind (Quiet-call _ _ _ (λ a log. refl))
        λ _. Quiet-bind (proc_status_value-Quiet "CapEff:") λ v. Quiet-require _ _

  verify_filter_mode-Quiet : (before after : String) → Quiet (verify_filter_mode k before after)
  unfolding verify_filter_mode
  verify_filter_mode-Quiet before after =
      Quiet-bind (proc_status_value-Quiet "Seccomp:") λ v. Quiet-require _ _

  apply_seccomp-Quiet : (p : SandboxInitPolicy) → Quiet (apply_seccomp k p)
  unfolding apply_seccomp
  apply_seccomp-Quiet p = Quiet-if _ (Quiet-pure tt) (
      Quiet-bind (Quiet-require _ _) λ _.
        Quiet-bind (Quiet-require _ _)
          λ _. Quiet-bind (Quiet-call _ _ _ (λ a log. refl)) λ _. verify_filter_mode-Quiet _ _)

  add_rx_rules-Quiet : (paths : List String) → Quiet (add_rx_rules k paths)
  unfolding add_rx_rules
  add_rx_rules-Quiet [] = Quiet-pure tt
  add_rx_rules-Quiet (path ∷ paths) =
      Quiet-bind (Quiet-look λ l. one (k.open_path l path)) λ _. add_rx_rules-Quiet paths
    where
      one : (s : Sys (Unit {0})) → Quiet (add_rx k s path)
      one (refused e) = record { at = λ log. refl }
      one (gave u) = Quiet-look λ l. Quiet-call _ _ _ (λ a log. refl)

  add_rwx_rules-Quiet : (paths : List String) → Quiet (add_rwx_rules k paths)
  unfolding add_rwx_rules
  add_rwx_rules-Quiet [] = Quiet-pure tt
  add_rwx_rules-Quiet (path ∷ paths) =
      Quiet-bind (Quiet-look λ l. one (k.open_path l path)) λ _. add_rwx_rules-Quiet paths
    where
      one : (s : Sys (Unit {0})) → Quiet (add_rwx k s path)
      one (refused e) = record { at = λ log. refl }
      one (gave u) = Quiet-call _ _ _ (λ a log. refl)

  crate_rx_rules-Quiet : (paths : List String) → Quiet (crate_rx_rules k paths)
  unfolding crate_rx_rules
  crate_rx_rules-Quiet [] = Quiet-pure tt
  crate_rx_rules-Quiet (path ∷ paths) =
      Quiet-bind (Quiet-look λ l. one (k.crate_open_path l path)) λ _. crate_rx_rules-Quiet paths
    where
      one : (s : Sys (Unit {0})) → Quiet (crate_rx k s path)
      one (refused e) = record { at = λ log. refl }
      one (gave u) = Quiet-look λ l. Quiet-call _ _ _ (λ a log. refl)

  crate_rwx_rules-Quiet : (paths : List String) → Quiet (crate_rwx_rules k paths)
  unfolding crate_rwx_rules
  crate_rwx_rules-Quiet [] = Quiet-pure tt
  crate_rwx_rules-Quiet (path ∷ paths) =
      Quiet-bind (Quiet-look λ l. one (k.crate_open_path l path)) λ _. crate_rwx_rules-Quiet paths
    where
      one : (s : Sys (Unit {0})) → Quiet (crate_rwx k s path)
      one (refused e) = record { at = λ log. refl }
      one (gave u) = Quiet-call _ _ _ (λ a log. refl)

  validate-Quiet :
      (status : LandlockRestrictionStatus) (c : LandlockCompatibility) → Quiet (validate status c)
  unfolding validate
  validate-Quiet status c = one (restriction_error status.ruleset_status status.no_new_privs c)
    where
      one : (o : Option String) → Quiet (validated o status)
      one none = Quiet-pure status
      one (some e) = Quiet-fail e

  create_ruleset-Quiet : (h s : ℕ) (label : String) → Quiet (create_ruleset k h s label)
  unfolding create_ruleset
  create_ruleset-Quiet h s label = Quiet-call _ _ _ (λ a log. refl)

  restrict_ruleset-Quiet : (flags : ℕ) (label : String) → Quiet (restrict_ruleset k flags label)
  unfolding restrict_ruleset
  restrict_ruleset-Quiet flags label = Quiet-call _ _ _ (λ a log. refl)

  no_new_privs_enabled-Quiet : Quiet (no_new_privs_enabled k)
  unfolding no_new_privs_enabled
  no_new_privs_enabled-Quiet = Quiet-bind (Quiet-call _ _ _ (λ a log. refl)) λ rc.
      Quiet-if _ (Quiet-pure true) (Quiet-if _ (Quiet-pure false) (Quiet-look λ l. Quiet-fail _))

  install_landlock-Quiet :
      (profile : LandlockProfile) (c : LandlockCompatibility) (flags : ℕ)
      → Quiet (install_landlock_with_restrict_flags k profile c flags)
  unfolding install_landlock_with_restrict_flags
  install_landlock-Quiet profile c flags =
      Quiet-if _
        (Quiet-bind (create_ruleset-Quiet _ _ _) λ _. Quiet-bind (add_rx_rules-Quiet _) λ _.
          Quiet-bind (add_rwx_rules-Quiet _) λ _.
            Quiet-bind (restrict_ruleset-Quiet _ _)
              λ _. Quiet-bind no_new_privs_enabled-Quiet λ b. validate-Quiet _ _)
        (Quiet-bind (Quiet-call _ _ _ (λ a log. refl)) λ _. Quiet-bind (crate_rx_rules-Quiet _) λ _.
          Quiet-bind (crate_rwx_rules-Quiet _)
            λ _. Quiet-bind (Quiet-call _ _ _ (λ a log. refl)) λ status. validate-Quiet _ _)

  install_landlock_scopes-Quiet : (scopes : ℕ) → Quiet (install_landlock_scopes k scopes)
  unfolding install_landlock_scopes
  install_landlock_scopes-Quiet scopes =
      Quiet-if _ (Quiet-pure tt)
        (Quiet-bind (create_ruleset-Quiet _ _ _) λ _. restrict_ruleset-Quiet _ _)

  apply_landlock-Quiet : (p : SandboxInitPolicy) → Quiet (apply_landlock k p)
  unfolding apply_landlock
  apply_landlock-Quiet p = Quiet-if _ (Quiet-pure none) (
      Quiet-bind (Quiet-map_err _ (install_landlock-Quiet _ _ _))
        λ status. Quiet-bind (Quiet-map_err _ (install_landlock_scopes-Quiet _)) λ _. Quiet-pure _)

  verify_no_new_privs-Quiet : Quiet (verify_no_new_privs k)
  unfolding verify_no_new_privs
  verify_no_new_privs-Quiet =
      Quiet-bind (Quiet-call _ _ _ (λ a log. refl)) λ rc. Quiet-look λ l. Quiet-require _ _

  verify_fully_enforced-Quiet :
      (p : SandboxInitPolicy) (status : Option LandlockRestrictionStatus)
      → Quiet (verify_fully_enforced k p status)
  unfolding verify_fully_enforced
  verify_fully_enforced-Quiet p status = Quiet-if _ (Quiet-pure tt) (
      Quiet-bind (Quiet-if _ (one status) (Quiet-pure tt))
        λ _. Quiet-if _ (verify_filter_mode-Quiet _ _) (Quiet-pure tt))
    where
      one : (s : Option LandlockRestrictionStatus) → Quiet (verify_landlock k s)
      one none = Quiet-fail _
      one (some s) = Quiet-require _ _

  pub apply_policy-Quiet : (p : SandboxInitPolicy) → Quiet (apply_policy k p)
  unfolding apply_policy
  apply_policy-Quiet p = Quiet-bind apply_no_new_privs-Quiet λ _.
      Quiet-bind (apply_drop_privs-Quiet p) λ _. Quiet-bind apply_empty_capabilities-Quiet λ _.
        Quiet-bind (apply_landlock-Quiet p) λ status. Quiet-bind (apply_seccomp-Quiet p) λ _.
          Quiet-bind verify_no_new_privs-Quiet
            λ _. Quiet-bind (verify_fully_enforced-Quiet p status) λ _. Quiet-pure tt
