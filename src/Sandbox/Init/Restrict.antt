-- ===== src/Sandbox/Init/Restrict.antt =====
-- What has been granted and checked by the time the wrapper starts the command.
use open_pincery.Prelude.{
  ℕ, ◌≡◌, refl, inl, inr, String, Bool, true, false, Option, none, some, ◌∷◌, if◌then◌else◌, ◌++ˢ◌,
  ◌==◌, ==→≡, ◌&&◌, ◌||◌, not, ◌∙◌, ap, subst, ◌==ˢ◌, ==ˢ→≡, arith, Bool-cases,
}
use open_pincery.Sandbox.Kernel.{
  set_no_new_privs, cleared_groups, cleared_caps, no_new_privs_read, effective_ids, set_gids,
  set_uids, status_read, set_filter, Log, Kernel, done, ◌>>=◌, >>=-done, map_err-done, pure, fail,
  call, call-done, require, LandlockRestrictionStatus,
}
use open_pincery.Sandbox.Landlock.Install.{
  Scoped, install_landlock-InForce, install_landlock_scopes-Scoped,
}
use open_pincery.Sandbox.Policy.{SandboxInitPolicy}
use open_pincery.Sandbox.Init.{
  InitError, apply_error, verify_error, apply_no_new_privs, apply_drop_privs,
  apply_empty_capabilities, apply_landlock, apply_seccomp, apply_policy, verify_landlock,
  verify_uid_gid_slots, verify_no_new_privs, verify_fully_enforced, verify_filter_mode,
  set_identity, look_effective, proc_status_value, status_value, no_caps, is_nil, found,
  wants_landlock, is_full,
}
use open_pincery.Sandbox.Init.Facts.{
  slots_read, Dropped, Reports, Filtered, Locked, Verified, Restricted, already, changed, unasked,
  filtered, unwanted, locked, not_demanded, demanded,
}

module _ (k : Kernel) where
  apply_no_new_privs-done :
      (log : Log) {log' : Log}
      → apply_no_new_privs k log ≡ (done tt, log')
      → log' ≡ set_no_new_privs ∷ log
  unfolding apply_no_new_privs call
  apply_no_new_privs-done log h = ground arith

  verify_no_new_privs-done :
      (log : Log) {log' : Log}
      → verify_no_new_privs k log ≡ (done tt, log')
      → log' ≡ no_new_privs_read 1 ∷ log
  unfolding verify_no_new_privs call require ◌>>=◌
  verify_no_new_privs-done log h = ground arith

  verify_uid_gid_slots-done :
      (uid gid : ℕ) (log : Log) {log' : Log}
      → verify_uid_gid_slots k uid gid log ≡ (done tt, log')
      → log' ≡ slots_read uid gid log
  unfolding verify_uid_gid_slots call require ◌>>=◌
  verify_uid_gid_slots-done uid gid log h = ground arith

  set_identity-done :
      (uid gid : ℕ) (log : Log) {log' : Log}
      → set_identity k uid gid log ≡ (done tt, log')
      → log' ≡ set_uids uid ∷ cleared_groups ∷ set_gids gid ∷ log
  unfolding set_identity call ◌>>=◌
  set_identity-done uid gid log h = ground arith

  apply_drop_privs-Dropped :
      (p : SandboxInitPolicy) (log : Log) {log' : Log}
      → apply_drop_privs k p log ≡ (done tt, log')
      → Dropped p log log'
  unfolding apply_drop_privs look_effective
  apply_drop_privs-Dropped p log h =
      let (cur, mid, looked, rest) = >>=-done (look_effective k) _ log h in
      let noted : mid ≡ effective_ids cur.0 cur.1 ∷ log = ground arith in
      elim (Bool-cases ((cur.0 == p.target_uid) && (cur.1 == p.target_gid))) [
        | inl same ↦ already (
            verify_uid_gid_slots-done p.target_uid p.target_gid mid (rw same at rest)
            ∙ ap (slots_read p.target_uid p.target_gid) (noted ∙ ground arith))
        | inr other ↦
            let (_, set, h1, r1) = >>=-done _ _ mid (rw other at rest) in
            changed cur.0 cur.1 (
              verify_uid_gid_slots-done p.target_uid p.target_gid set r1
              ∙ ap (slots_read p.target_uid p.target_gid) (
                  set_identity-done p.target_uid p.target_gid mid h1
                  ∙ ap (λ l. set_uids p.target_uid ∷ cleared_groups ∷ set_gids p.target_gid ∷ l)
                      noted))
      ]

  found-done :
      (o : Option String) (e : InitError) (log : Log) {v : String} {log' : Log}
      → found o e log ≡ (done v, log')
      → (o ≡ some v) × (log' ≡ log)
  unfolding found pure fail
  found-done none e log h = absurd (cc)
  found-done (some v) e log h = (ground arith, ground arith)

  require-done :
      (b : Bool) (e : InitError) (log : Log) {log' : Log}
      → require b e log ≡ (done tt, log')
      → (b ≡ true) × (log' ≡ log)
  unfolding require
  require-done true e log h = (refl, ground arith)
  require-done false e log h = absurd (cc)

  proc_status_value-Reports :
      (name : String) (log : Log) {v : String} {log' : Log}
      → proc_status_value k name log ≡ (done v, log')
      → Reports name v log log'
  unfolding proc_status_value
  proc_status_value-Reports name log h =
      let (status, mid, asked, rest) = >>=-done _ _ log h in
      let (says, kept) = found-done (status_value name status) _ mid rest in
      record {
        status = status;
        says = says;
        last =
            kept
            ∙ call-done k.proc_status status_read
                (λ e. verify_error ("read /proc/self/status: " ++ˢ e.text)) log asked;
      }

  -- A value that is then demanded to be `want`.
  Reports-want :
      (name v want : String) (e : InitError) (log mid : Log) {log' : Log}
      → Reports name v log mid
      → require (v ==ˢ want) e mid ≡ (done tt, log')
      → Reports name want log log'
  Reports-want name v want e log mid r h =
      let (same, kept) = require-done (v ==ˢ want) e mid h in
      record {
        status = r.status;
        says = r.says ∙ ap some (==ˢ→≡ v want same);
        last = kept ∙ r.last;
      }

  apply_empty_capabilities-Reports :
      (log : Log) {log' : Log}
      → apply_empty_capabilities k log ≡ (done tt, log')
      → Reports "CapEff:" no_caps (cleared_caps ∷ log) log'
  unfolding apply_empty_capabilities
  apply_empty_capabilities-Reports log h =
      let (_, l1, h1, r1) = >>=-done _ _ log h in
      let (v, l2, h2, r2) = >>=-done _ _ l1 r1 in
      let e : l1 ≡ cleared_caps ∷ log =
        call-done k.capset (λ _. cleared_caps) (λ e. apply_error ("capset(empty): " ++ˢ e.text)) log
          h1 in
      Reports-want "CapEff:" v no_caps _ (cleared_caps ∷ log) l2
        (subst (λ l. Reports "CapEff:" v l l2) e (proc_status_value-Reports "CapEff:" l1 h2)) r2

  verify_filter_mode-Reports :
      (before after : String) (log : Log) {log' : Log}
      → verify_filter_mode k before after log ≡ (done tt, log')
      → Reports "Seccomp:" "2" log log'
  unfolding verify_filter_mode
  verify_filter_mode-Reports before after log h =
      let (v, mid, h1, r1) = >>=-done _ _ log h in
      Reports-want "Seccomp:" v "2" _ log mid (proc_status_value-Reports "Seccomp:" log h1) r1

  apply_seccomp-Filtered :
      (p : SandboxInitPolicy) (log : Log) {log' : Log}
      → apply_seccomp k p log ≡ (done tt, log')
      → Filtered p log log'
  unfolding apply_seccomp pure
  apply_seccomp-Filtered p log {log' = log'} h = elim (Bool-cases (is_nil p.seccomp_bpf)) [
    | inl nil ↦ unasked nil (let e = rw nil at h in ground arith)
    | inr bpf ↦
        let (_, l1, h1, r1) = >>=-done _ _ log (rw bpf at h) in
        let (_, l2, h2, r2) = >>=-done _ _ l1 r1 in
        let (_, l3, h3, r3) = >>=-done _ _ l2 r2 in
        let (whole, e1) = require-done _ _ log h1 in
        let (fits, e2) = require-done _ _ l1 h2 in
        let e3 : l3 ≡ set_filter p.seccomp_bpf ∷ l2 = call-done _ _ _ l2 h3 in
        filtered (==→≡ _ 0 whole) (ground arith) (ground arith) (
          subst (λ l. Reports "Seccomp:" "2" l log')
            (e3 ∙ ap (λ l. set_filter p.seccomp_bpf ∷ l) (e2 ∙ e1))
            (verify_filter_mode-Reports _ _ l3 r3))
  ]

  apply_landlock-Locked :
      (p : SandboxInitPolicy) (log : Log) {status : Option LandlockRestrictionStatus} {log' : Log}
      → apply_landlock k p log ≡ (done status, log')
      → Locked k p log status log'
  unfolding apply_landlock pure
  apply_landlock-Locked p log h =
      elim (Bool-cases (is_nil p.landlock_rx_paths && is_nil p.landlock_rwx_paths)) [
        | inl none_wanted ↦
            let e = rw none_wanted at h in
            unwanted (not_both _ _ none_wanted) (ground arith) (ground arith)
        | inr wanted ↦
            let (st, l1, h1, r1) = >>=-done _ _ log (rw wanted at h) in
            let (_, l2, h2, r2) = >>=-done _ _ l1 r1 in
            locked st
              (install_landlock-InForce k _ _ p.landlock_restrict_flags log
                (map_err-done _ _ log h1))
              (subst (λ l. Scoped p.landlock_scopes l1 l) (ground arith)
                (install_landlock_scopes-Scoped k p.landlock_scopes l1 (map_err-done _ _ l1 h2)))
              (ground arith)
      ]
    where
      not_both : (a b : Bool) → (a && b) ≡ true → (not a || not b) ≡ false
      not_both true true h = refl
      not_both true false h = cc
      not_both false b h = cc

  verify_landlock-full :
      (status : Option LandlockRestrictionStatus) (log : Log) {log' : Log}
      → verify_landlock k status log ≡ (done tt, log')
      → (log' ≡ log) × ((st : LandlockRestrictionStatus) × (status ≡ some st) × (is_full st ≡ true))
  unfolding verify_landlock fail
  verify_landlock-full none log h = absurd (cc)
  verify_landlock-full (some st) log h =
      let (full, kept) = require-done (is_full st) _ log h in (kept, (st, refl, full))

  verify_fully_enforced-Verified :
      (p : SandboxInitPolicy) (status : Option LandlockRestrictionStatus) (log : Log) {log' : Log}
      → verify_fully_enforced k p status log ≡ (done tt, log')
      → Verified p status log log'
  unfolding verify_fully_enforced pure
  verify_fully_enforced-Verified p status log {log' = log'} h =
      elim (Bool-cases p.require_fully_enforced) [
        | inl demand ↦
            let (_, mid, h1, r1) = >>=-done _ _ log (rw demand at h) in
            let (same, full) = paths_checked (wants_landlock p) mid h1 in
            let r2 =
              subst
                (λ l.
                  (if not (is_nil p.seccomp_bpf)
                      then verify_filter_mode k "seccomp not in filter mode: Seccomp="
                          " (require_fully_enforced=true)"
                      else pure tt)
                    l
                  ≡ (done tt, log'))
                same r1 in
            demanded full (λ nil. let e = rw nil at r2 in ground arith)
              (λ bpf. verify_filter_mode-Reports _ _ log (rw bpf at r2))
        | inr free ↦ let e = rw free at h in not_demanded free (ground arith)
      ]
    where
      paths_checked :
          (wants : Bool) (mid : Log)
          → (if wants then verify_landlock k status else pure tt) log ≡ (done tt, mid)
          → (mid ≡ log)
            × (wants ≡ true
                → (st : LandlockRestrictionStatus) × (status ≡ some st) × (is_full st ≡ true))
      paths_checked true mid h =
          let (same, full) = verify_landlock-full status log h in (same, λ _. full)
      paths_checked false mid h = (ground arith, λ e. absurd (cc))

  pub apply_policy-Restricted :
      (p : SandboxInitPolicy) (log : Log) {log' : Log}
      → apply_policy k p log ≡ (done tt, log')
      → Restricted k p log log'
  unfolding apply_policy pure
  apply_policy-Restricted p log {log' = log'} h =
      let (_, l1, h1, r1) = >>=-done _ _ log h in
      let (_, l2, h2, r2) = >>=-done _ _ l1 r1 in
      let (_, l3, h3, r3) = >>=-done _ _ l2 r2 in
      let (status, l4, h4, r4) = >>=-done _ _ l3 r3 in
      let (_, l5, h5, r5) = >>=-done _ _ l4 r4 in
      let (_, l6, h6, r6) = >>=-done _ _ l5 r5 in
      let (_, l7, h7, r7) = >>=-done _ _ l6 r6 in
      let end : l7 ≡ log' = ground arith in
      record {
        after_identity = l2;
        after_caps = l3;
        after_paths = l4;
        after_filter = l5;
        status = status;
        identity =
            subst (λ l. Dropped p l l2) (apply_no_new_privs-done log h1)
              (apply_drop_privs-Dropped p l1 h2);
        caps = apply_empty_capabilities-Reports l2 h3;
        paths = apply_landlock-Locked p l3 h4;
        filter = apply_seccomp-Filtered p l4 h5;
        checked =
            subst (λ l. Verified p status l log') (verify_no_new_privs-done l5 h6)
              (subst (λ l. Verified p status l6 l) end
                (verify_fully_enforced-Verified p status l6 h7));
      }
