-- ===== src/Config.antt =====
-- src/config.rs: the settings that the server reads from its environment.
pub mod Modes
use open_pincery.Prelude.{
  ℕ, ℤ, ◌≡◌, refl, String, Bool, true, false, ◌&&◌, not, Option, none, some, if◌then◌else◌, ◌==◌,
  ◌++ˢ◌, trim, to_ascii_lowercase, ◌==ˢ◌, eq_ignore_ascii_case, parse_unsigned, parse_signed,
  max_u16, max_u32, max_u64, max_i32, max_i64,
}

pub data SandboxMode : Type 0 where
  enforce audit disabled : SandboxMode

pub data SandboxModeError : Type 0 where
  invalid : String → SandboxModeError
  disabled_requires_allow_unsafe : SandboxModeError

pub record ResolvedSandboxMode : Type 0 where
  pub mode : SandboxMode
  pub allow_unsafe : Bool

pub data Checked (E A : Type 0) : Type 0 where
  valid : A → Checked E A
  bad : E → Checked E A

unfoldable pub parse : String → Checked SandboxModeError SandboxMode
parse s =
    let text = to_ascii_lowercase (trim s) in
    if text ==ˢ "enforce"
    then valid enforce
    else if text ==ˢ "audit"
    then valid audit
    else if text ==ˢ "disabled"
    then valid disabled
    else bad (invalid text)

-- `SandboxMode::as_str`
unfoldable pub mode_str : SandboxMode → String
mode_str enforce = "enforce"
mode_str audit = "audit"
mode_str disabled = "disabled"

-- `matches!(v, Some(v) if v.trim().eq_ignore_ascii_case(word))`
unfoldable pub says : String → Option String → Bool
says word none = false
says word (some v) = eq_ignore_ascii_case (trim v) word

unfoldable pub parsed_mode : Option String → Checked SandboxModeError SandboxMode
unfolding parse
parsed_mode none = valid enforce
parsed_mode (some raw) = parse raw

abbrev pub is_disabled : SandboxMode → Bool
is_disabled disabled = true
is_disabled _ = false

abbrev pub guarded :
    Checked SandboxModeError SandboxMode → Bool → Checked SandboxModeError ResolvedSandboxMode
guarded (bad e) allow_unsafe = bad e
guarded (valid mode) allow_unsafe =
    if is_disabled mode && not allow_unsafe
    then bad disabled_requires_allow_unsafe
    else valid (record { mode = mode; allow_unsafe = allow_unsafe })

unfoldable pub resolve :
    Option String → Option String → Checked SandboxModeError ResolvedSandboxMode
unfolding parsed_mode says
resolve mode allow_unsafe = guarded (parsed_mode mode) (says "true" allow_unsafe)

pub record Config : Type 0 where
  pub database_url : String
  pub host : String
  pub port : ℕ
  pub bootstrap_token : String
  pub llm_api_base_url : String
  pub llm_api_key : String
  pub llm_model : String
  pub llm_maintenance_model : String
  pub max_prompt_chars : ℕ
  pub iteration_cap : ℤ
  pub schema_invalid_retry_cap : ℕ
  pub tool_call_rate_limit_per_wake : ℕ
  pub stale_wake_hours : ℤ
  pub wake_summary_limit : ℤ
  pub event_window_limit : ℤ
  pub vault_key_b64 : String
  pub sandbox : ResolvedSandboxMode

module _ {A B : Type 0} where
  infixl 5 ◌>>=◌
  unfoldable pub ◌>>=◌ : Checked String A → (A → Checked String B) → Checked String B
  valid a >>= f = f a
  bad e >>= f = bad e

  pub >>=-valid :
      (m : Checked String A) (f : A → Checked String B) {b : B}
      → (m >>= f) ≡ valid b
      → (a : A) × (m ≡ valid a) × (f a ≡ valid b)
  unfolding ◌>>=◌
  >>=-valid (valid a) f h = (a, refl, h)
  >>=-valid (bad e) f h = absurd (cc)

-- The process's environment, the text of a number that does not parse, and `{:?}` of a text.
module _ (var : String → Option String) (number_error debug : String → String) where
  abbrev pub env_or : String → String → String
  env_or key default = elim (var key) [ none ↦ default | some v ↦ v ]

  abbrev pub required : String → Option String → Checked String String
  required key none = bad ("Missing required environment variable: " ++ˢ key)
  required key (some v) = valid v

  abbrev pub require_env : String → Checked String String
  require_env key = required key (var key)

  abbrev pub numeric : {A : Type 0} → String → String → Option A → Checked String A
  numeric shown raw none = bad ("Invalid " ++ˢ shown ++ˢ ": " ++ˢ number_error raw)
  numeric shown raw (some n) = valid n

  unfoldable pub unsigned_setting : ℕ → String → String → Checked String ℕ
  unsigned_setting max key default =
      let raw = env_or key default in numeric key raw (parse_unsigned max raw)

  unfoldable pub signed_setting : ℕ → String → String → Checked String ℤ
  signed_setting max key default =
      let raw = env_or key default in numeric key raw (parse_signed max raw)

  abbrev pub nonzero : String → ℕ → Checked String ℕ
  nonzero message v = if v == 0 then bad message else valid v

  -- A cap that may be lowered and not switched off.
  unfoldable pub cap_setting : String → String → String → Checked String ℕ
  cap_setting key default message = do
    let raw = env_or key default
    v ← numeric (key ++ˢ "=" ++ˢ raw) raw (parse_unsigned max_u32 raw)
    nonzero message v

  mode_error : SandboxModeError → String
  mode_error (invalid v) =
      "OPEN_PINCERY_SANDBOX_MODE=" ++ˢ debug v ++ˢ " is not one of: enforce | audit | disabled"
  mode_error disabled_requires_allow_unsafe =
      "OPEN_PINCERY_SANDBOX_MODE=disabled requires the paired OPEN_PINCERY_ALLOW_UNSAFE=true opt-in (refusing to run)"

  shown_mode : Checked SandboxModeError ResolvedSandboxMode → Checked String ResolvedSandboxMode
  shown_mode (valid m) = valid m
  shown_mode (bad e) = bad (mode_error e)

  unfoldable pub from_env : Checked String Config
  unfolding unsigned_setting signed_setting cap_setting shown_mode mode_error
  from_env = do
    database_url ← require_env "DATABASE_URL"
    port ← unsigned_setting max_u16 "OPEN_PINCERY_PORT" "8080"
    bootstrap_token ← require_env "OPEN_PINCERY_BOOTSTRAP_TOKEN"
    llm_api_base_url ← require_env "LLM_API_BASE_URL"
    llm_api_key ← require_env "LLM_API_KEY"
    max_prompt_chars ← unsigned_setting max_u64 "MAX_PROMPT_CHARS" "100000"
    iteration_cap ← signed_setting max_i32 "ITERATION_CAP" "50"
    schema_invalid_retry_cap ←
        cap_setting "OPEN_PINCERY_SCHEMA_INVALID_RETRY_CAP" "3"
          "OPEN_PINCERY_SCHEMA_INVALID_RETRY_CAP=0 is rejected: operators may tighten the schema-invalid retry cap but not silently disable AC-79 validation; minimum 1"
    tool_call_rate_limit_per_wake ←
        cap_setting "OPEN_PINCERY_TOOL_CALL_RATE_LIMIT_PER_WAKE" "32"
          "OPEN_PINCERY_TOOL_CALL_RATE_LIMIT_PER_WAKE=0 is rejected: operators may tighten the per-wake tool-call rate limit but not silently disable AC-79 enforcement; minimum 1"
    stale_wake_hours ← signed_setting max_i64 "STALE_WAKE_HOURS" "2"
    wake_summary_limit ← signed_setting max_i64 "WAKE_SUMMARY_LIMIT" "20"
    event_window_limit ← signed_setting max_i64 "EVENT_WINDOW_LIMIT" "200"
    vault_key_b64 ← require_env "OPEN_PINCERY_VAULT_KEY"
    sandbox ←
        shown_mode (resolve (var "OPEN_PINCERY_SANDBOX_MODE") (var "OPEN_PINCERY_ALLOW_UNSAFE"))
    valid (record {
      database_url = database_url;
      host = env_or "OPEN_PINCERY_HOST" "0.0.0.0";
      port = port;
      bootstrap_token = bootstrap_token;
      llm_api_base_url = llm_api_base_url;
      llm_api_key = llm_api_key;
      llm_model = env_or "LLM_MODEL" "anthropic/claude-sonnet-4-20250514";
      llm_maintenance_model = env_or "LLM_MAINTENANCE_MODEL" "anthropic/claude-sonnet-4-20250514";
      max_prompt_chars = max_prompt_chars;
      iteration_cap = iteration_cap;
      schema_invalid_retry_cap = schema_invalid_retry_cap;
      tool_call_rate_limit_per_wake = tool_call_rate_limit_per_wake;
      stale_wake_hours = stale_wake_hours;
      wake_summary_limit = wake_summary_limit;
      event_window_limit = event_window_limit;
      vault_key_b64 = vault_key_b64;
      sandbox = sandbox;
    })
