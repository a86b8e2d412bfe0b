-- ===== src/Tests/Starts.antt =====
-- The start of a server at one host and one environment.
use open_pincery.Prelude.{
  ◌≡◌, ◌↔◌, refl, ◌⊎◌, String, true, false, Option, none, some, [], ◌∷◌, pos, parse_unsigned,
  parse_signed, if◌then◌else◌, ◌==ˢ◌, ◌++ˢ◌,
}
use open_pincery.Config.{Config, valid, enforce, resolve, ◌>>=◌, from_env}
use open_pincery.Config.Modes.{IsSafe, from_env-IsSafe}
use open_pincery.Db.Triple.{Triple}
use open_pincery.Sandbox.Floor.{
  KernelProbe, continues, exits, enforced, floor_env, run_startup_preflight_with,
}
use open_pincery.Sandbox.Floor.Meets.{Meets, run_startup_preflight_with_iff}
use open_pincery.Startup.{Host, enforce_audit_chain_floor_at_startup, main}
use open_pincery.Startup.Chains.{IsSound, Down, enforce_audit_chain_floor-IsSound}
use open_pincery.Startup.Serving.{Cleared, main-Cleared}
use open_pincery.Tests.{quiet}

-- The required variables, a port, and nothing else.
abbrev var : String → Option String
var name =
    if name ==ˢ "DATABASE_URL"
    then some "postgres://localhost"
    else if name ==ˢ "OPEN_PINCERY_BOOTSTRAP_TOKEN"
    then some "t"
    else if name ==ˢ "LLM_API_BASE_URL"
    then some "http://localhost"
    else if name ==ˢ "LLM_API_KEY"
    then some "k"
    else if name ==ˢ "OPEN_PINCERY_VAULT_KEY"
    then some "v"
    else if name ==ˢ "OPEN_PINCERY_PORT"
    then some "65535"
    else none

abbrev number_error : String → String
number_error raw = "invalid digit found in string"

abbrev debug : String → String
debug s = "\"" ++ˢ s ++ˢ "\""

abbrev settings : Config
settings = record {
  database_url = "postgres://localhost";
  host = "0.0.0.0";
  port = 65535;
  bootstrap_token = "t";
  llm_api_base_url = "http://localhost";
  llm_api_key = "k";
  llm_model = "anthropic/claude-sonnet-4-20250514";
  llm_maintenance_model = "anthropic/claude-sonnet-4-20250514";
  max_prompt_chars = 100000;
  iteration_cap = pos 50;
  schema_invalid_retry_cap = 3;
  tool_call_rate_limit_per_wake = 32;
  stale_wake_hours = pos 2;
  wake_summary_limit = pos 20;
  event_window_limit = pos 200;
  vault_key_b64 = "v";
  sandbox = record { mode = enforce; allow_unsafe = false };
}

accepted : from_env var number_error debug ≡ valid settings
unfolding from_env ◌>>=◌ parse_unsigned parse_signed resolve
accepted = refl

from_env-IsSafe_example : IsSafe settings
from_env-IsSafe_example = from_env-IsSafe var number_error debug accepted

abbrev probe : KernelProbe
probe = record {
  landlock_abi = some 6;
  seccomp_available = true;
  cgroup_v2_mounted = true;
  unprivileged_userns_clone_allowed = true;
  userns_quota_available = true;
  bwrap_version = some (0, 8, 0);
  is_root = false;
}

run_startup_preflight_with_iff_example :
    ((run_startup_preflight_with probe (floor_env var) ≡ continues) ↔ Meets probe (floor_env var))
    × ((run_startup_preflight_with probe (floor_env var) ≡ continues)
        ⊎ (run_startup_preflight_with probe (floor_env var) ≡ exits 4))
run_startup_preflight_with_iff_example = run_startup_preflight_with_iff probe (floor_env var)

-- One workspace, with one agent.
enforce_audit_chain_floor-IsSound_example :
    Triple
      (IsSound quiet)
      (enforce_audit_chain_floor_at_startup quiet
        (λ h. "hash")
        (λ w. 1 ∷ [])
        (λ w ws. 7 ∷ [])
        false
        false)
      (λ gate w. IsSound quiet w × ((gate ≡ continues) ⊎ ((gate ≡ exits 5) × Down quiet)))
      (λ w. ⊥)
enforce_audit_chain_floor-IsSound_example =
    enforce_audit_chain_floor-IsSound quiet (λ h. "hash") (λ w. 1 ∷ []) (λ w ws. 7 ∷ []) false false

abbrev host : Host
host = record {
  var = var;
  number_error = number_error;
  debug = debug;
  probe = probe;
  memory = enforced;
  database_up = true;
  is_decimal = λ s. true;
}

main-Cleared_example :
    Triple
      (IsSound quiet)
      (main quiet (λ h. "hash") (λ w. 1 ∷ []) (λ w ws. 7 ∷ []) host)
      (λ b w. IsSound quiet w × Cleared host b)
      (λ w. ⊥)
main-Cleared_example = main-Cleared quiet (λ h. "hash") (λ w. 1 ∷ []) (λ w ws. 7 ∷ []) host
