-- ===== src/Maintenance.antt =====
-- src/runtime/maintenance.rs and the statements of src/models/projection.rs that it makes.
use open_pincery.Prelude.{
  ℕ, zero, suc, ◌+◌, String, Option, none, some, List, [], ◌∷◌, if◌then◌else◌, ◌==◌, ltb, head?,
}
use open_pincery.Json.{Json, null, bool, num, str, arr, obj, get_field}
use open_pincery.Llm.{Choice, Usage, cost_for}
use open_pincery.Db.{
  AgentProjection, internal, World, M, gives, Answer, statement, ask, or_raise, ◌>>=◌, ◌>>◌, pure,
}
use open_pincery.Env.{Env}
use open_pincery.Wake.Turn.{insert_llm_call}

-- `text.chars().take(n).collect()`
unfoldable pub take_chars : ℕ → String → String
take_chars zero s = ""
take_chars (suc n) String.[] = ""
take_chars (suc n) (String.◌∷◌ c s) = String.◌∷◌ c (take_chars n s)

-- `ORDER BY version DESC LIMIT 1`
abbrev pub newer : AgentProjection → Option AgentProjection → AgentProjection
newer p none = p
newer p (some q) = if ltb p.version q.version then q else p

unfoldable pub latest : List AgentProjection → Option AgentProjection
unfolding newer
latest [] = none
latest (p ∷ ps) = some (newer p (latest ps))

-- `Value::get`, which is `None` off an object, and `Value::as_str`.
abbrev pub json_get : String → Json → Option Json
json_get k (obj fs) = get_field k fs
json_get k null = none
json_get k (bool b) = none
json_get k (num n) = none
json_get k (str s) = none
json_get k (arr xs) = none

abbrev pub as_text : Option Json → Option String
as_text (some (str s)) = some s
as_text none = none
as_text (some null) = none
as_text (some (bool b)) = none
as_text (some (num n)) = none
as_text (some (arr xs)) = none
as_text (some (obj fs)) = none

abbrev pub text_or : String → Option String → String
text_or default none = default
text_or default (some s) = s

-- What the current projection supplies, where there is one.
abbrev pub current_identity : Option AgentProjection → String
current_identity none = "No identity set yet."
current_identity (some p) = p.identity

abbrev pub current_work_list : Option AgentProjection → String
current_work_list none = ""
current_work_list (some p) = p.work_list

abbrev pub current_version : Option AgentProjection → ℕ
current_version none = 0
current_version (some p) = p.version

-- An `INTEGER` column.
abbrev pub insert_row : ℕ → AgentProjection → World → Answer (Unit {0})
insert_row agent_id p w =
    gives tt (record w {
      projections = λ j. if j == agent_id then p ∷ w.projections j else w.projections j;
    })

module _ (env : Env) where
  unfoldable pub latest_projection : ℕ → M (Option AgentProjection)
  latest_projection agent_id = statement env.fault λ n w. gives (latest (w.projections agent_id)) w

  unfoldable pub insert_projection : ℕ → String → String → ℕ → Option ℕ → M (Unit {0})
  insert_projection agent_id identity work_list version wake_id = statement env.fault λ n w.
      insert_row agent_id
        (record {
          identity = identity;
          work_list = work_list;
          version = version;
          wake_id = wake_id;
        })
        w

  unfoldable pub insert_wake_summary : ℕ → ℕ → String → M (Unit {0})
  insert_wake_summary agent_id wake_id summary = statement env.fault λ n w. gives tt (record w {
    summaries = λ j.
        if j == agent_id
        then record { wake_id = wake_id; summary = summary } ∷ w.summaries j
        else w.summaries j;
  })

  unfoldable pub find_template : String → M (Option String)
  find_template name = statement env.fault λ n w. gives (w.templates name) w

  -- The events of the prompt are only read.
  unfoldable pub recent_events : ℕ → M (Unit {0})
  recent_events agent_id = statement env.fault λ n w. gives tt w

  abbrev pub maintenance_cost : Option Usage → ℕ
  maintenance_cost none = 0
  maintenance_cost (some usage) = cost_for env.maintenance_pricing usage

  abbrev pub shown_work_list : Option Json → String
  shown_work_list none = ""
  shown_work_list (some v) = env.to_json v

  module _ (agent_id wake_id : ℕ) (current : Option AgentProjection) where
    unfoldable pub record_outcome : String → String → String → M (Unit {0})
    record_outcome identity work_list summary = do
      insert_projection agent_id identity work_list (current_version current + 1) (some wake_id)
      insert_wake_summary agent_id wake_id (take_chars 500 summary)

    unfoldable pub keep_text : String → Option Json → M (Unit {0})
    unfolding record_outcome
    keep_text text none = record_outcome (current_identity current) (current_work_list current) text
    keep_text text (some parsed) =
        record_outcome (text_or (current_identity current) (as_text (json_get "identity" parsed)))
          (shown_work_list (json_get "work_list" parsed))
          (text_or "No summary provided." (as_text (json_get "summary" parsed)))

    unfoldable pub keep_content : Option String → M (Unit {0})
    unfolding keep_text
    keep_content none = pure tt
    keep_content (some text) = keep_text text (env.parse_json text)

    unfoldable pub keep_choice : Option Choice → M (Unit {0})
    unfolding keep_content
    keep_choice none = pure tt
    keep_choice (some choice) = keep_content choice.message.content

  unfoldable pub run_maintenance : ℕ → ℕ → M (Unit {0})
  unfolding keep_choice
  run_maintenance agent_id wake_id = do
    template ← find_template "maintenance_prompt"
    or_raise template (internal "Missing maintenance_prompt template")
    recent_events agent_id
    current ← latest_projection agent_id
    answer ← ask env.chat
    response ← or_raise answer (internal "LLM request failed")
    insert_llm_call env agent_id (maintenance_cost response.usage)
    keep_choice agent_id wake_id current (head? response.choices)
