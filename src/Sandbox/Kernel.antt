-- ===== src/Sandbox/Kernel.antt =====
-- The operating system as the sandbox code sees it: a log of what it has granted and reported, and
-- its answers, each a function of the log. Nothing is assumed of the answers, so that what is
-- proved holds also where a call is granted and has no effect.
pub mod Quiet
use open_pincery.Prelude.{
  ℕ, ◌≡◌, refl, arith, String, Option, none, some, List, [], ◌∷◌, if◌then◌else◌, Bool, true, false,
}

-- `std::io::Error`
pub record IoError : Type 0 where
  pub raw_os_error : Option ℕ
  pub text : String

pub data Sys (A : Type 0) : Type 0 where
  gave : A → Sys A
  refused : IoError → Sys A

-- `landlock::RulesetStatus`
pub data RulesetStatus : Type 0 where
  fully_enforced partially_enforced not_enforced : RulesetStatus

-- src/runtime/sandbox/landlock.rs, `LandlockRestrictionStatus`.
pub record LandlockRestrictionStatus : Type 0 where
  pub ruleset_status : RulesetStatus
  pub no_new_privs : Bool

-- What the kernel has granted or reported.
pub data Fact : Type 0 where
  set_no_new_privs cleared_groups cleared_caps : Fact
  -- `prctl(PR_GET_NO_NEW_PRIVS)`
  no_new_privs_read : ℕ → Fact
  -- `geteuid`, `getegid`
  effective_ids : ℕ → ℕ → Fact
  set_gids set_uids : ℕ → Fact
  -- real, effective, saved
  uids_read gids_read : ℕ → ℕ → ℕ → Fact
  -- /proc/self/status
  status_read : String → Fact
  -- handled_access_fs, scoped
  created_ruleset : ℕ → ℕ → Fact
  -- path, allowed_access
  allowed : String → ℕ → Fact
  -- the flags of `landlock_restrict_self`
  restricted : ℕ → Fact
  -- `restrict_self` of the `landlock` package
  restricted_by_crate : LandlockRestrictionStatus → Fact
  -- the bytes of the filter
  set_filter : List ℕ → Fact
  started : List String → Fact

-- The newest first.
abbrev pub Log : Type 0
Log = List Fact

pub record Kernel : Type 0 where
  pub set_no_new_privs : Log → Sys (Unit {0})
  pub get_no_new_privs : Log → Sys ℕ
  pub geteuid : Log → ℕ
  pub getegid : Log → ℕ
  pub setresgid : Log → ℕ → Sys (Unit {0})
  pub setgroups : Log → Sys (Unit {0})
  pub setresuid : Log → ℕ → Sys (Unit {0})
  pub getresuid : Log → Sys (ℕ × ℕ × ℕ)
  pub getresgid : Log → Sys (ℕ × ℕ × ℕ)
  pub capset : Log → Sys (Unit {0})
  pub proc_status : Log → Sys String
  -- `landlock_create_ruleset`, with handled_access_fs and scoped
  pub create_ruleset : Log → ℕ → ℕ → Sys (Unit {0})
  pub open_path : Log → String → Sys (Unit {0})
  pub is_dir : Log → String → Bool
  -- path, allowed_access
  pub add_rule : Log → String → ℕ → Sys (Unit {0})
  pub restrict_self : Log → ℕ → Sys (Unit {0})
  -- the `landlock` package: whether to demand the whole ruleset
  pub crate_create : Log → Bool → Sys (Unit {0})
  pub crate_open_path : Log → String → Sys (Unit {0})
  pub crate_add_rule : Log → String → ℕ → Sys (Unit {0})
  pub crate_restrict_self : Log → Sys LandlockRestrictionStatus
  -- its access sets for ABI 1
  pub access_from_all : ℕ
  pub access_from_read : ℕ
  pub access_from_file : ℕ
  pub set_filter : Log → List ℕ → Sys (Unit {0})
  -- `execvp` answers only if it fails.
  pub exec : Log → List String → Option IoError
  -- `last_os_error` where no call of the above has failed
  pub last_os_error : Log → String
  -- `{:?}` of a text
  pub debug : String → String
  -- the process's environment
  pub var : String → Option String

pub data Outcome {ℓ} (E : Type 0) (A : Type ℓ) : Type ℓ where
  done : A → Outcome E A
  stop : E → Outcome E A
  panics : Outcome E A

abbrev pub Run : Type 0 → Type 0 → Type 0
Run E A = Log → Outcome E A × Log

module _ {E A B : Type 0} where
  abbrev pub proceed : Outcome E A → (A → Run E B) → Run E B
  proceed (done a) f log = f a log
  proceed (stop e) f log = (stop e, log)
  proceed panics f log = (panics, log)

  infixl 5 ◌>>=◌ ◌>>◌
  unfoldable pub ◌>>=◌ : Run E A → (A → Run E B) → Run E B
  ◌>>=◌ m f log = let (r, log') = m log in proceed r f log'

  abbrev pub ◌>>◌ : Run E A → Run E B → Run E B
  m >> k = m >>= λ _. k

  -- A run that goes through went through its first part.
  pub >>=-done :
      (m : Run E A) (f : A → Run E B) (log : Log) {b : B} {log' : Log}
      → (m >>= f) log ≡ (done b, log')
      → (a : A) × (mid : Log) × (m log ≡ (done a, mid)) × (f a mid ≡ (done b, log'))
  unfolding ◌>>=◌
  >>=-done m f log h = split (m log) refl h
    where
      split :
          (r : Outcome E A × Log) {b : B} {log' : Log}
          → m log ≡ r
          → proceed r.0 f r.1 ≡ (done b, log')
          → (a : A) × (mid : Log) × (m log ≡ (done a, mid)) × (f a mid ≡ (done b, log'))
      split (done a, mid) e h = (a, mid, e, h)
      split (stop e, mid) eq h = absurd (cc)
      split (panics, mid) eq h = absurd (cc)

module _ {E A : Type 0} where
  unfoldable pub pure : A → Run E A
  pure a log = (done a, log)

  unfoldable pub fail : E → Run E A
  fail e log = (stop e, log)

  abbrev pub granted : Sys A → (A → Fact) → (IoError → E) → Log → Outcome E A × Log
  granted (gave a) fact error log = (done a, fact a ∷ log)
  granted (refused e) fact error log = (stop (error e), log)

  -- A call that is noted if it is granted.
  unfoldable pub call : (Log → Sys A) → (A → Fact) → (IoError → E) → Run E A
  call ask fact error log = granted (ask log) fact error log

  -- A granted call is in the log, and nothing else is added.
  pub call-done :
      (ask : Log → Sys A) (fact : A → Fact) (error : IoError → E) (log : Log) {a : A} {log' : Log}
      → call ask fact error log ≡ (done a, log')
      → log' ≡ fact a ∷ log
  unfolding call
  call-done ask fact error log h = split (ask log) h
    where
      split :
          (s : Sys A) {a : A} {log' : Log}
          → granted s fact error log ≡ (done a, log')
          → log' ≡ fact a ∷ log
      split (gave a) h = ground arith
      split (refused e) h = absurd (cc)

module _ {E : Type 0} where
  -- `if !b { return Err(e) }`
  unfoldable pub require : Bool → E → Run E (Unit {0})
  require true e log = (done tt, log)
  require false e log = (stop e, log)

-- `Result::map_err`
module _ {E F A : Type 0} where
  abbrev pub renamed : (E → F) → Outcome E A × Log → Outcome F A × Log
  renamed f (done a, log) = (done a, log)
  renamed f (stop e, log) = (stop (f e), log)
  renamed f (panics, log) = (panics, log)

  unfoldable pub map_err : (E → F) → Run E A → Run F A
  map_err f m log = renamed f (m log)

  pub map_err-done :
      (f : E → F) (m : Run E A) (log : Log) {a : A} {log' : Log}
      → map_err f m log ≡ (done a, log')
      → m log ≡ (done a, log')
  unfolding map_err
  map_err-done f m log h = split (m log) h
    where
      split :
          (r : Outcome E A × Log) {a : A} {log' : Log}
          → renamed f r ≡ (done a, log')
          → r ≡ (done a, log')
      split (done a, mid) h = ground arith
      split (stop e, mid) h = absurd (cc)
      split (panics, mid) h = absurd (cc)
