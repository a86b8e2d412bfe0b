-- ===== src/Tools/Dispatch.antt =====
-- `dispatch_tool` and `validate_tool_call_arguments` of src/runtime/tools.rs.
use open_pincery.Prelude.{
  ℕ, String, not, Option, none, some, List, [], ◌∷◌, if◌then◌else◌, ◌==ˢ◌, ◌++ˢ◌, keep,
}
use open_pincery.Json.{Json, str, obj, arr, Items, nil, cons, field, end}
use open_pincery.Llm.{ToolCallRequest}
use open_pincery.Db.{Credential, M, gives, statement, attempt, pure, ◌>>=◌, ◌>>◌}
use open_pincery.Env.{Env, Parsed, parsed, unparsed}
use open_pincery.Capability.{PermissionMode, required_for, mode_allows}
use open_pincery.Events.{append_event}
use open_pincery.Nonce.{CapabilityNonceTicket, Consumed, accepted, rejected, as_str, consume}
use open_pincery.Tools.{
  ToolResult, output, sleep, error, tool_definitions, find_schema, capability_text, mode_text,
  is_active,
}
use open_pincery.Tools.Shell.{shell_tool}

-- The reason of a refusal; `none` is `Ok(())`.
module _ (env : Env) where
  abbrev schema_verdict : String → Option String → Option String
  schema_verdict tool_name none = none
  schema_verdict tool_name (some reason) =
      some ("schema mismatch for tool " ++ˢ tool_name ++ˢ ": " ++ˢ reason)

  abbrev instance_verdict : String → String → Json → Option Json → Option String
  instance_verdict tool_name arguments schema none =
      some ("tool arguments are not valid JSON: " ++ˢ env.parse_error arguments)
  instance_verdict tool_name arguments schema (some instance_json) =
      schema_verdict tool_name (env.schema_error schema instance_json)

  abbrev compiled_verdict : String → String → Option Json → Option String
  compiled_verdict tool_name arguments none = some ("unknown tool name: " ++ˢ tool_name)
  compiled_verdict tool_name arguments (some schema) =
      if env.schema_compiles schema
      then instance_verdict tool_name arguments schema (env.parse_json arguments)
      else some ("unknown tool name: " ++ˢ tool_name)

  unfoldable pub validate_tool_call_arguments : String → String → Option String
  validate_tool_call_arguments tool_name arguments =
      compiled_verdict tool_name arguments (find_schema tool_name tool_definitions)

  abbrev pub credential_items : List Credential → Items
  credential_items [] = nil
  credential_items (row ∷ rows) =
      cons
        (obj (
          field "name" (str row.name)
            (field "created_at" (str (env.time_text row.created_at)) end)))
        (credential_items rows)

  unfoldable pub list_active : ℕ → M (List Credential)
  list_active workspace_id =
      statement env.fault λ n w. gives (keep is_active (w.credentials workspace_id)) w

  abbrev pub listed : Option (List Credential) → ToolResult
  listed none = error ("list_credentials failed: " ++ˢ env.database_error)
  listed (some rows) =
      output (env.to_json (obj (field "credentials" (arr (credential_items rows)) end)))

  abbrev pub planned : Parsed String → ToolResult
  planned (unparsed e) = error ("Invalid plan args: " ++ˢ e)
  planned (parsed content) = output ("Plan recorded: " ++ˢ content)

  module _ (agent_id wake_id workspace_id : ℕ) where
    unfoldable pub list_credentials_tool : M ToolResult
    unfolding list_active
    list_credentials_tool = do rows ← attempt (list_active workspace_id); pure (listed rows)

    -- The `match` on the tool's name, past the gates.
    unfoldable pub perform : String → String → M ToolResult
    unfolding list_credentials_tool
    perform name args =
        if name ==ˢ "shell"
        then shell_tool env agent_id wake_id workspace_id (env.parse_shell_args args)
        else if name ==ˢ "plan"
        then pure (planned (env.parse_plan_args args))
        else if name ==ˢ "sleep"
        then pure sleep
        else if name ==ˢ "list_credentials"
        then list_credentials_tool
        else pure (error ("Unknown tool: " ++ˢ name))

    unfoldable pub append_denied_event : String → String → M (Unit {0})
    append_denied_event tool_name payload = do
      append_event env agent_id "tool_capability_denied" "runtime" (some wake_id) (some tool_name)
          (some payload) none none none
      pure tt

    unfoldable pub deny : String → PermissionMode → M ToolResult
    unfolding append_denied_event
    deny name mode = do
      let payload = env.to_json (
          obj (
            field "required_capability" (str (capability_text (required_for name)))
              (field "permission_mode" (str (mode_text mode)) end)))
      attempt (append_denied_event name payload)
      pure (error "tool disallowed by permission mode")

    -- What a consumption leads to.
    unfoldable pub after_consume : String → String → Consumed → M ToolResult
    unfolding perform
    after_consume name args accepted = perform name args
    after_consume name args (rejected reason) = do
      let payload = env.to_json (
          obj (
            field "wake_id" (str (env.hashing.uuid_text wake_id))
              (field "tool_name" (str name) (field "reason" (str (as_str reason)) end))))
      attempt (
          append_event env agent_id "capability_nonce_rejected" "runtime" (some wake_id) (some name)
            none none (some payload) none)
      pure (error "capability nonce rejected")

    -- Past the permission gate: the nonce, then the tool.
    unfoldable pub authorized : String → String → CapabilityNonceTicket → M ToolResult
    unfolding after_consume
    authorized name args ticket = do
      verdict ← consume env ticket.nonce wake_id workspace_id name ticket.capability_shape
      after_consume name args verdict

    unfoldable pub dispatch_tool :
        ToolCallRequest → PermissionMode → CapabilityNonceTicket → M ToolResult
    unfolding deny authorized
    dispatch_tool tool_call mode ticket =
        if not (mode_allows mode (required_for tool_call.function.name))
        then deny tool_call.function.name mode
        else authorized tool_call.function.name tool_call.function.arguments ticket
