-- ===== src/Sandbox/Init/Args.antt =====
-- `parse_args` and `run` of src/bin/pincery_init.rs: the wrapper's command line.
use open_pincery.Prelude.{
  ℕ, ℤ, pos, negsuc, String, Option, none, some, List, [], ◌∷◌, if◌then◌else◌, ◌==◌, ◌==ˢ◌, ◌++ˢ◌,
  decimal, decimal_int, parse_signed, max_i32,
}
use open_pincery.Sandbox.Kernel.{Log, Kernel, Outcome, done, stop, panics}
use open_pincery.Sandbox.Policy.{Codec}
use open_pincery.Sandbox.Init.{InitError, usage, bad_policy_fd, run_inner, is_nil}

pub record ParsedArgs : Type 0 where
  pub policy_fd : ℕ
  pub error_fd : Option ℕ
  pub user_argv : List String

pub data ArgsResult : Type 0 where
  parsed : ParsedArgs → ArgsResult
  refused : InitError → ArgsResult

pub data Flag : Type 0 where
  policy_flag error_flag end_mark unknown : Flag

abbrev pub flag_of : String → Flag
flag_of arg =
    if arg ==ˢ "--policy-fd"
    then policy_flag
    else if arg ==ˢ "--error-fd"
    then error_flag
    else if arg ==ˢ "--"
    then end_mark
    else unknown

-- The tests after the loop.
same_fd : ℕ → Option ℕ → ArgsResult → ArgsResult
same_fd policy_fd none r = r
same_fd policy_fd (some efd) r =
    if efd == policy_fd
    then refused (
        usage
          ("--error-fd " ++ˢ decimal efd ++ˢ " must not equal --policy-fd " ++ˢ decimal policy_fd))
    else r

unfoldable pub finish : Option ℕ → Option ℕ → Option (List String) → ArgsResult
unfolding same_fd
finish none error_fd argv = refused (usage "missing --policy-fd")
finish (some policy_fd) error_fd none = refused (usage "missing `--` before user argv")
finish (some policy_fd) error_fd (some argv) =
    if is_nil argv
    then refused (usage "user argv after `--` must be non-empty")
    else same_fd policy_fd error_fd
        (parsed (record { policy_fd = policy_fd; error_fd = error_fd; user_argv = argv }))

-- The kernel's `debug`, and the text of a number that does not parse.
module _ (k : Kernel) (int_error : String → String) where
  -- The value of a descriptor flag; `what` and `minus` open the messages.
  unfoldable pub descriptor : String → String → String → Option ℤ → (ℕ → ArgsResult) → ArgsResult
  descriptor what minus raw none next =
      refused (bad_policy_fd (what ++ˢ k.debug raw ++ˢ ": " ++ˢ int_error raw))
  descriptor what minus raw (some (negsuc n)) next =
      refused (bad_policy_fd (minus ++ˢ decimal_int (negsuc n)))
  descriptor what minus raw (some (pos n)) next = next n

  unexpected : String → ArgsResult
  unexpected arg = refused (
      usage
        ("unexpected argument " ++ˢ k.debug arg ++ˢ "; expected --policy-fd, --error-fd, or --"))

  unfoldable pub parse_loop : List String → Option ℕ → Option ℕ → ArgsResult
  unfolding descriptor unexpected
  parse_loop [] policy_fd error_fd = finish policy_fd error_fd none
  parse_loop (arg ∷ []) policy_fd error_fd = elim (flag_of arg) [
    | policy_flag ↦ refused (usage "--policy-fd requires a value")
    | error_flag ↦ refused (usage "--error-fd requires a value")
    | end_mark ↦ finish policy_fd error_fd (some [])
    | unknown ↦ unexpected arg
  ]
  parse_loop (arg ∷ raw ∷ rest) policy_fd error_fd = elim (flag_of arg) [
    | policy_flag ↦
        descriptor "" "negative fd " raw (parse_signed max_i32 raw)
          (λ n. parse_loop rest (some n) error_fd)
    | error_flag ↦
        descriptor "--error-fd " "negative --error-fd " raw (parse_signed max_i32 raw)
          (λ n. parse_loop rest policy_fd (some n))
    | end_mark ↦ finish policy_fd error_fd (some (raw ∷ rest))
    | unknown ↦ unexpected arg
  ]

  -- The first argument is the program's own name.
  unfoldable pub parse_args : List String → ArgsResult
  unfolding parse_loop
  parse_args [] = parse_loop [] none none
  parse_args (program ∷ rest) = parse_loop rest none none

  -- What the descriptor holds: a failed reading is an error of the wrapper.
  unfoldable pub run_parsed :
      Codec
      → (ℕ → Outcome InitError (List ℕ))
      → ArgsResult
      → Log
      → Option ℕ × Outcome InitError (Unit {0}) × Log
  run_parsed c read (refused e) log = (none, stop e, log)
  run_parsed c read (parsed args) log = elim (read args.policy_fd) [
    | done bytes ↦ let (r, log') = run_inner k c bytes log in (args.error_fd, r, log')
    | stop e ↦ (args.error_fd, stop e, log)
    | panics ↦ (args.error_fd, panics, log)
  ]

  -- The descriptor for error reports, the outcome and the log.
  unfoldable pub run :
      Codec
      → (ℕ → Outcome InitError (List ℕ))
      → List String
      → Log
      → Option ℕ × Outcome InitError (Unit {0}) × Log
  unfolding run_parsed parse_args
  run c read argv log = run_parsed c read (parse_args argv) log
