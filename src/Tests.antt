-- ===== src/Tests.antt =====
-- Concrete data on which the theorems are applied.
pub mod Chain
pub mod Gates
pub mod Wakes
pub mod Background
pub mod Sandbox
pub mod Starts
pub mod Prompts
pub mod Vault
use open_pincery.Prelude.{
  ℕ, suc, ◌+◌, ◌*◌, ◌%◌, ◌≡◌, refl, String, Bool, true, false, Option, none, some, List, [], ◌∷◌,
  length, if◌then◌else◌, ◌==◌, pos,
}
use open_pincery.Bytes.{utf8, utf8_char}
use open_pincery.Chain.{Hashing, Event}
use open_pincery.Json.{Json, null, str, obj, end}
use open_pincery.Llm.{
  FunctionCall, ToolCallRequest, ResponseMessage, Choice, Usage, ChatResponse, Pricing,
}
use open_pincery.Db.{Agent, World, ShellCommand, Credential}
use open_pincery.Env.{Env, finished, parsed, Parsed}
use open_pincery.Wake.{WakeConfig}

abbrev sum_of : List ℕ → ℕ
sum_of [] = 1
sum_of (b ∷ bs) = (b + 31 * sum_of bs) % 256

-- 31 bytes.
abbrev padding : List ℕ
padding =
    0 ∷ 0 ∷ 0 ∷ 0 ∷ 0 ∷ 0 ∷ 0 ∷ 0 ∷ 0 ∷ 0 ∷ 0 ∷ 0 ∷ 0 ∷ 0 ∷ 0 ∷ 0 ∷ 0 ∷ 0 ∷ 0 ∷ 0 ∷ 0 ∷ 0 ∷ 0 ∷ 0
    ∷ 0 ∷ 0 ∷ 0 ∷ 0 ∷ 0 ∷ 0 ∷ 0 ∷ []

abbrev uuid : String
uuid = "00000000-0000-0000-0000-000000000007"

pub length-uuid : length (utf8 uuid) ≡ 36
unfolding utf8 utf8_char
length-uuid = refl

-- A checksum in the place of the digest, and texts in the place of their hex codes.
abbrev pub checksum : Hashing
checksum = record {
  sha256 = λ b. sum_of b ∷ padding;
  hex_encode = λ b. b;
  hex_decode = λ b. some b;
  uuid_text = λ u. uuid;
  length-sha256 = λ b. refl;
  hex_decode-hex_encode = λ b. refl;
  hex_encode-nil = refl;
  length-uuid_text = λ u. length-uuid;
}

abbrev pub event : ℕ → ℕ → Option String → List ℕ → List ℕ → Event
event id created_at content prev_hash entry_hash = record {
  id = id;
  agent_id = 7;
  event_type = "message_received";
  source = "webhook";
  wake_id = none;
  tool_name = none;
  tool_input = none;
  tool_output = none;
  content = content;
  termination_reason = none;
  created_at = created_at;
  prev_hash = prev_hash;
  entry_hash = entry_hash;
}

abbrev pub call : String → String → ToolCallRequest
call name arguments = record {
  id = "call_1";
  call_type = "function";
  function = record { name = name; arguments = arguments };
}

abbrev pub choice : Option String → Option (List ToolCallRequest) → String → Choice
choice content tool_calls finish_reason = record {
  message = record { role = "assistant"; content = content; tool_calls = tool_calls };
  finish_reason = finish_reason;
}

abbrev pub response : Choice → ChatResponse
response c = record {
  id = "chat_1";
  choices = c ∷ [];
  usage = some (record { prompt_tokens = 100; completion_tokens = 10 });
}

-- The model asks to sleep; every statement reaches the server; time runs by the tick.
abbrev pub quiet : Env
quiet = record {
  hashing = checksum;
  fault = λ n. false;
  now = λ n. n;
  uuid = λ n. n;
  random16 = λ n. 1000 + n;
  to_json = λ v. "\"\"";
  money_text = λ n. "\"1.5\"";
  parse_json = λ s. some (obj end);
  parse_error = λ s. "";
  database_error = "database error";
  chat = λ n. some (response (choice none (some (call "sleep" "{}" ∷ [])) "tool_calls"));
  pricing = record { input_per_token = 3; output_per_token = 15 };
  maintenance_pricing = record { input_per_token = 1; output_per_token = 2 };
  parse_shell_args = λ s. parsed (record { command = s; env = [] });
  parse_plan_args = λ s. parsed s;
  schema_compiles = λ s. true;
  schema_error = λ s v. none;
  vault_open = λ ws name row. none;
  from_utf8 = λ b. none;
  time_text = λ t. "";
  landlock_payloads = λ n. [];
  execute = λ n c. finished "" "" (pos 0) [];
}

abbrev pub agent : String → Agent
agent status = record {
  id = 7;
  name = "ada";
  workspace_id = 1;
  owner_id = 2;
  status = status;
  wake_id = some 9;
  wake_started_at = some 0;
  wake_iteration_count = 0;
  permission_mode = "supervised";
  is_enabled = true;
  disabled_reason = none;
  disabled_at = none;
  budget_limit_usd = 1000000;
  budget_used_usd = 0;
  webhook_secret = "s";
  created_at = 0;
}

-- One agent, 7, and nothing else.
abbrev pub world : String → World
world status = record {
  agents = λ j. if j == 7 then some (agent status) else none;
  events = [];
  nonces = λ ws n. none;
  credentials = λ ws. [];
  providers = λ ws. none;
  projections = λ j. [];
  summaries = λ j. [];
  templates = λ s. none;
  audits = [];
  spent_calls = 0;
  runs = [];
  tick = 0;
}

abbrev pub limits : WakeConfig
limits = record {
  iteration_cap = 50;
  schema_invalid_retry_cap = 3;
  tool_call_rate_limit_per_wake = 32;
}
