-- ===== src/Sandbox/Landlock/Rules.antt =====
-- The rules that the kernel was given, path by path.
use open_pincery.Prelude.{
  ℕ, ◌≡◌, refl, subst, sym, String, Bool, true, false, inl, inr, List, [], ◌∷◌, arith, Bool-cases,
}
use open_pincery.Sandbox.Kernel.{
  IoError, Sys, gave, refused, allowed, Log, Kernel, done, >>=-done, pure, call,
}
use open_pincery.Sandbox.Landlock.{
  access_fs_v1_read, access_fs_file, access_fs_v1_all, add_rx, add_rwx, add_rx_rules, add_rwx_rules,
  crate_rx, crate_rwx, crate_rx_rules, crate_rwx_rules,
}

-- How paths are opened and whether one is a directory.
module _ (opens : Log → String → Sys (Unit {0})) (is_dir : Log → String → Bool) where
  -- One read-only path: it could not be opened and is passed over, or it gets the access of a
  -- directory or of another file, whichever it is.
  pub data RxRule (dir file : ℕ) (path : String) (log : Log) : Log → Type 0 where
    rx_over : {e : IoError} → opens log path ≡ refused e → RxRule dir file path log log
    rx_dir :
        opens log path ≡ gave tt
        → is_dir log path ≡ true
        → RxRule dir file path log (allowed path dir ∷ log)
    rx_file :
        opens log path ≡ gave tt
        → is_dir log path ≡ false
        → RxRule dir file path log (allowed path file ∷ log)

  -- The rules of the read-only paths, in their order.
  pub data RxRules (dir file : ℕ) : List String → Log → Log → Type 0 where
    rx_none : {log : Log} → RxRules dir file [] log log
    rx_next :
        {path : String} {paths : List String} {log mid log' : Log}
        → RxRule dir file path log mid
        → RxRules dir file paths mid log'
        → RxRules dir file (path ∷ paths) log log'

  -- The rules of the writable paths: none is passed over.
  pub data RwxRules (all : ℕ) : List String → Log → Log → Type 0 where
    rwx_none : {log : Log} → RwxRules all [] log log
    rwx_next :
        {path : String} {paths : List String} {log log' : Log}
        → opens log path ≡ gave tt
        → RwxRules all paths (allowed path all ∷ log) log'
        → RwxRules all (path ∷ paths) log log'

  module _ {dir file : ℕ} {paths : List String} {log log' mid : Log} where
    pub RxRules-from : mid ≡ log → RxRules dir file paths mid log' → RxRules dir file paths log log'
    RxRules-from e r = subst (λ l. RxRules dir file paths l log') e r

  RxRules-done : {dir file : ℕ} {log log' : Log} → log ≡ log' → RxRules dir file [] log log'
  RxRules-done {dir} {file} {log} {log'} e = subst (λ l. RxRules dir file [] log l) e rx_none

  RxRule-to :
      {dir file : ℕ} {path : String} {log mid end : Log}
      → end ≡ mid
      → RxRule dir file path log mid
      → RxRule dir file path log end
  RxRule-to {dir} {file} {path} {log} e r = subst (RxRule dir file path log) (sym e) r

  RwxRules-after :
      {all : ℕ} {path : String} {paths : List String} {log mid log' : Log}
      → (opens log path ≡ gave tt) × (mid ≡ allowed path all ∷ log)
      → RwxRules all paths mid log'
      → RwxRules all (path ∷ paths) log log'
  RwxRules-after {all} {path} {paths} {log} {mid} {log'} (o, e) r =
      rwx_next o (subst (λ l. RwxRules all paths l log') e r)

  RwxRules-done : {all : ℕ} {log log' : Log} → log ≡ log' → RwxRules all [] log log'
  RwxRules-done {all} {log} {log'} e = subst (λ l. RwxRules all [] log l) e rwx_none

module _ (k : Kernel) where
  add_rx-RxRule :
      (s : Sys (Unit {0})) (path : String) (log : Log) {mid : Log}
      → k.open_path log path ≡ s
      → add_rx k s path log ≡ (done tt, mid)
      → RxRule k.open_path k.is_dir access_fs_v1_read access_fs_file path log mid
  unfolding add_rx call
  add_rx-RxRule (refused e) path log o h = RxRule-to k.open_path k.is_dir (ground arith) (rx_over o)
  add_rx-RxRule (gave _) path log o h = elim (Bool-cases (k.is_dir log path)) [
    | inl d ↦ RxRule-to k.open_path k.is_dir (ground arith) (rx_dir o d)
    | inr f ↦ RxRule-to k.open_path k.is_dir (ground arith) (rx_file o f)
  ]

  pub add_rx_rules-RxRules :
      (paths : List String) (log : Log) {log' : Log}
      → add_rx_rules k paths log ≡ (done tt, log')
      → RxRules k.open_path k.is_dir access_fs_v1_read access_fs_file paths log log'
  unfolding add_rx_rules pure
  add_rx_rules-RxRules [] log h = RxRules-done k.open_path k.is_dir (ground arith)
  add_rx_rules-RxRules (path ∷ paths) log h =
      let (_, mid, first, rest) = >>=-done _ _ log h in
      rx_next (add_rx-RxRule (k.open_path log path) path log refl first)
        (add_rx_rules-RxRules paths mid rest)

  add_rwx-done :
      (s : Sys (Unit {0})) (path : String) (log : Log) {mid : Log}
      → k.open_path log path ≡ s
      → add_rwx k s path log ≡ (done tt, mid)
      → (k.open_path log path ≡ gave tt) × (mid ≡ allowed path access_fs_v1_all ∷ log)
  unfolding add_rwx call
  add_rwx-done (refused _) path log o h = absurd (cc)
  add_rwx-done (gave _) path log o h = (o, ground arith)

  pub add_rwx_rules-RwxRules :
      (paths : List String) (log : Log) {log' : Log}
      → add_rwx_rules k paths log ≡ (done tt, log')
      → RwxRules k.open_path k.is_dir access_fs_v1_all paths log log'
  unfolding add_rwx_rules pure
  add_rwx_rules-RwxRules [] log h = RwxRules-done k.open_path k.is_dir (ground arith)
  add_rwx_rules-RwxRules (path ∷ paths) log h =
      let (_, mid, first, rest) = >>=-done _ _ log h in
      RwxRules-after k.open_path k.is_dir (add_rwx-done (k.open_path log path) path log refl first)
        (add_rwx_rules-RwxRules paths mid rest)

  crate_rx-RxRule :
      (s : Sys (Unit {0})) (path : String) (log : Log) {mid : Log}
      → k.crate_open_path log path ≡ s
      → crate_rx k s path log ≡ (done tt, mid)
      → RxRule k.crate_open_path k.is_dir k.access_from_read k.access_from_file path log mid
  unfolding crate_rx call
  crate_rx-RxRule (refused e) path log o h =
      RxRule-to k.crate_open_path k.is_dir (ground arith) (rx_over o)
  crate_rx-RxRule (gave _) path log o h = elim (Bool-cases (k.is_dir log path)) [
    | inl d ↦ RxRule-to k.crate_open_path k.is_dir (ground arith) (rx_dir o d)
    | inr f ↦ RxRule-to k.crate_open_path k.is_dir (ground arith) (rx_file o f)
  ]

  pub crate_rx_rules-RxRules :
      (paths : List String) (log : Log) {log' : Log}
      → crate_rx_rules k paths log ≡ (done tt, log')
      → RxRules k.crate_open_path k.is_dir k.access_from_read k.access_from_file paths log log'
  unfolding crate_rx_rules pure
  crate_rx_rules-RxRules [] log h = RxRules-done k.crate_open_path k.is_dir (ground arith)
  crate_rx_rules-RxRules (path ∷ paths) log h =
      let (_, mid, first, rest) = >>=-done _ _ log h in
      rx_next (crate_rx-RxRule (k.crate_open_path log path) path log refl first)
        (crate_rx_rules-RxRules paths mid rest)

  crate_rwx-done :
      (s : Sys (Unit {0})) (path : String) (log : Log) {mid : Log}
      → k.crate_open_path log path ≡ s
      → crate_rwx k s path log ≡ (done tt, mid)
      → (k.crate_open_path log path ≡ gave tt) × (mid ≡ allowed path k.access_from_all ∷ log)
  unfolding crate_rwx call
  crate_rwx-done (refused _) path log o h = absurd (cc)
  crate_rwx-done (gave _) path log o h = (o, ground arith)

  pub crate_rwx_rules-RwxRules :
      (paths : List String) (log : Log) {log' : Log}
      → crate_rwx_rules k paths log ≡ (done tt, log')
      → RwxRules k.crate_open_path k.is_dir k.access_from_all paths log log'
  unfolding crate_rwx_rules pure
  crate_rwx_rules-RwxRules [] log h = RwxRules-done k.crate_open_path k.is_dir (ground arith)
  crate_rwx_rules-RwxRules (path ∷ paths) log h =
      let (_, mid, first, rest) = >>=-done _ _ log h in
      RwxRules-after k.crate_open_path k.is_dir
        (crate_rwx-done (k.crate_open_path log path) path log refl first)
        (crate_rwx_rules-RwxRules paths mid rest)
