-- ===== src/Tools.antt =====
-- src/runtime/tools.rs: schema validation, the dispatch of one tool call, the substitution of
-- credentials, and the shell tool. Metrics and log lines are left out.
pub mod Shell
pub mod Dispatch
pub mod Keeps
pub mod Bindings
pub mod Gate
use Prim.Native.Char.{code}
use open_pincery.Prelude.{
  ℕ, zero, suc, ◌+◌, ◌-◌, ℤ, pos, negsuc, String, Bool, true, false, not, Option, none, some, List,
  [], ◌∷◌, ◌++◌, map, length, if◌then◌else◌, ◌==◌, ltb, leb, ◌==ˢ◌, ◌++ˢ◌, decimal, decimal_int,
  strip_prefix, keep,
}
use open_pincery.Bytes.{utf8, utf8_char}
use open_pincery.Json.{Json, null, bool, num, str, arr, obj, Items, nil, cons, Fields, end, field}
use open_pincery.Llm.{ToolCallRequest}
use open_pincery.Db.{
  Credential, ShellCommand, World, Result, ok, M, Answer, gives, statement, ask, attempt, pure,
  ◌>>=◌, ◌>>◌,
}
use open_pincery.Env.{
  Env, ExecResult, finished, timeout, rejected, failed, Parsed, parsed, unparsed,
}
use open_pincery.Capability.{
  ToolCapability, read_local, write_local, execute_local, network, destructive, PermissionMode,
  yolo, supervised, locked, required_for, mode_allows,
}
use open_pincery.Events.{append_event}
use open_pincery.Shape.{join_commas}
use open_pincery.Nonce.{CapabilityNonceTicket, Consumed, accepted, RejectionReason, as_str, consume}
use open_pincery.Nonce as nonces

abbrev placeholder_prefix : String
placeholder_prefix = "PLACEHOLDER:"

pub data ToolResult : Type 0 where
  output : String → ToolResult
  sleep : ToolResult
  error : String → ToolResult

-- The `parameters` of `tool_definitions()`, by the tool's name.
abbrev text_property : String → Fields
text_property description = field "type" (str "string") (field "description" (str description) end)

abbrev no_parameters : Json
no_parameters =
    obj
      (field "type" (str "object") (field "properties" (obj end) (field "required" (arr nil) end)))

abbrev shell_parameters : Json
shell_parameters = obj (
    field "type" (str "object") (
      field "properties"
        (obj (
          field "command" (obj (text_property "The shell command to execute")) (
            field "env"
              (obj (
                field "type" (str "object") (
                  field "description"
                    (str
                      "Environment variables for the child process. Values of the form `PLACEHOLDER:<name>` are resolved from the workspace credential vault.")
                    (field "additionalProperties" (obj (field "type" (str "string") end)) end))))
              end)))
        (field "required" (arr (cons (str "command") nil)) end)))

abbrev plan_parameters : Json
plan_parameters = obj (
    field "type" (str "object") (
      field "properties"
        (obj (field "content" (obj (text_property "The plan or intention to record")) end))
        (field "required" (arr (cons (str "content") nil)) end)))

unfoldable pub tool_definitions : List (String × Json)
tool_definitions =
    ("shell", shell_parameters)
    ∷ ("plan", plan_parameters)
    ∷ ("sleep", no_parameters)
    ∷ ("list_credentials", no_parameters)
    ∷ []

abbrev find_schema : String → List (String × Json) → Option Json
find_schema name [] = none
find_schema name ((n, s) ∷ rest) = if n ==ˢ name then some s else find_schema name rest

-- serde's names of the variants.
abbrev capability_text : ToolCapability → String
capability_text read_local = "read_local"
capability_text write_local = "write_local"
capability_text execute_local = "execute_local"
capability_text network = "network"
capability_text destructive = "destructive"

abbrev mode_text : PermissionMode → String
mode_text yolo = "yolo"
mode_text supervised = "supervised"
mode_text locked = "locked"

-- The characters of the longest prefix with at most this many bytes.
take_bytes : ℕ → String → String
take_bytes limit String.[] = ""
take_bytes limit (String.◌∷◌ c s) =
    let n = length (utf8_char (code c)) in
    let rest = take_bytes (limit - n) s in if leb n limit then String.◌∷◌ c rest else ""

unfoldable pub truncated : String → String
unfolding take_bytes
truncated combined =
    if ltb 50000 (length (utf8 combined))
    then take_bytes 50000 combined ++ˢ "...[truncated]"
    else combined

pub record ShellExecution : Type 0 where
  pub result : ToolResult
  pub exit_code : ℤ
  pub audit_pids : List ℕ

unfoldable pub shell_execution : ExecResult → ShellExecution
shell_execution (finished stdout stderr exit_code audit_pids) = record {
  result = output (
      truncated (
        "exit_code: "
        ++ˢ decimal_int exit_code
        ++ˢ "\nstdout:\n"
        ++ˢ stdout
        ++ˢ "\nstderr:\n"
        ++ˢ stderr));
  exit_code = exit_code;
  audit_pids = audit_pids;
}
shell_execution timeout = record {
  result = error "Shell execution timed out";
  exit_code = negsuc 0;
  audit_pids = [];
}
shell_execution (rejected reason) = record {
  result = error ("Shell execution rejected: " ++ˢ reason);
  exit_code = negsuc 0;
  audit_pids = [];
}
shell_execution (failed e) = record {
  result = error ("Shell execution failed: " ++ˢ e);
  exit_code = negsuc 0;
  audit_pids = [];
}

abbrev sigsys_exit_code : ℕ
sigsys_exit_code = 159

abbrev is_sigsys : ℤ → Bool
is_sigsys (pos n) = n == sigsys_exit_code
is_sigsys (negsuc n) = false

-- `SELECT * FROM credentials WHERE … AND name = $2 AND revoked_at IS NULL`
abbrev pub is_active : Credential → Bool
is_active row = elim row.revoked_at [ none ↦ true | some _ ↦ false ]

abbrev pub find_named : String → List Credential → Option Credential
find_named name [] = none
find_named name (row ∷ rows) =
    if row.name ==ˢ name
    then (if is_active row then some row else find_named name rows)
    else find_named name rows
