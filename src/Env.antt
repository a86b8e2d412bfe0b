-- ===== src/Env.antt =====
-- What the runtime is given from outside: the database server, the operating system, the model
-- provider, and the packages whose code is not this repository's. A function of a tick is asked at
-- that moment; a run is a choice of all its answers.
use open_pincery.Prelude.{ℕ, ℤ, String, Bool, Option, List}
use open_pincery.Chain.{Hashing}
use open_pincery.Json.{Json}
use open_pincery.Llm.{ChatResponse, Pricing}
use open_pincery.Db.{ShellCommand, Credential}

-- src/runtime/sandbox/mod.rs, `ExecResult`. A signal is an exit code of 128 and more.
pub data ExecResult : Type 0 where
  -- stdout, stderr, exit_code, audit_pids
  finished : String → String → ℤ → List ℕ → ExecResult
  timeout : ExecResult
  rejected failed : String → ExecResult

-- What `serde_json::from_str` makes of a text, at a type with derived `Deserialize`.
pub data Parsed (A : Type 0) : Type 0 where
  parsed : A → Parsed A
  unparsed : String → Parsed A

pub record Env : Type 0 where
  pub hashing : Hashing
  -- PostgreSQL: a failing connection, the clock in microseconds, `gen_random_uuid()`.
  pub fault : ℕ → Bool
  pub now : ℕ → ℕ
  pub uuid : ℕ → ℕ
  -- `OsRng`, 16 bytes as a number.
  pub random16 : ℕ → ℕ
  -- `serde_json`: `Value::to_string`, `from_str`.
  pub to_json : Json → String
  -- `Decimal` as `json!` prints it.
  pub money_text : ℕ → String
  pub parse_json : String → Option Json
  pub parse_error : String → String
  -- The text of a database error.
  pub database_error : String
  -- `LlmClient::chat`, after its retries.
  pub chat : ℕ → Option ChatResponse
  pub pricing : Pricing
  pub maintenance_pricing : Pricing
  pub parse_shell_args : String → Parsed ShellCommand
  pub parse_plan_args : String → Parsed String
  -- `jsonschema`: whether a schema compiles, and the first error of an instance.
  pub schema_compiles : Json → Bool
  pub schema_error : Json → Json → Option String
  -- `aes-gcm` under the master key: workspace, name, sealed credential.
  pub vault_open : ℕ → String → Credential → Option (List ℕ)
  -- `String::from_utf8`
  pub from_utf8 : List ℕ → Option String
  -- RFC 3339 text of a time.
  pub time_text : ℕ → String
  -- The Landlock audit records that belong to the invocation that ended at this tick, as payloads.
  pub landlock_payloads : ℕ → List String
  -- The `ToolExecutor`.
  pub execute : ℕ → ShellCommand → ExecResult
