-- ===== src/Prompt.antt =====
-- src/runtime/prompt.rs: what the model is told at each turn, with the two list queries of
-- src/models/event.rs and src/models/projection.rs.
pub mod Fences
pub mod Text
pub mod Cut
pub mod System
use Prim.Native.Char.{Char, code}
use mathlib.Core.List.{reverse}
use mathlib.Core.Option.{map as map_some}
use open_pincery.Prelude.{
  ℕ, zero, suc, ◌-◌, String, Bool, true, false, ◌||◌, Option, none, some, List, [], ◌∷◌, ◌++◌, ℤ,
  pos, negsuc, if◌then◌else◌, ltb, leb, length, ◌==◌, ◌==ˢ◌, ◌++ˢ◌,
}
use open_pincery.Bytes.{utf8, utf8_char}
use open_pincery.Chain.{Event, rows_of, or_empty}
use open_pincery.Db.{
  AgentProjection, WakeSummary, internal, World, M, Answer, fails, gives, statement, ask, or_raise,
  ◌>>=◌, pure,
}
use open_pincery.Env.{Env}
use open_pincery.Llm.{FunctionCall, ToolCallRequest}
use open_pincery.Maintenance.{find_template, latest_projection}

-- src/runtime/llm.rs
pub record ChatMessage : Type 0 where
  pub role : String
  pub content : Option String
  pub tool_calls : Option (List ToolCallRequest)
  pub tool_call_id : Option String

pub record WakePromptContext : Type 0 where
  pub wake_nonce : String
  pub canary_hex : String

-- The tools are `tool_definitions`, and constant.
pub record AssembledPrompt : Type 0 where
  pub system_prompt : String
  pub messages : List ChatMessage

unfoldable pub is_untrusted : String → Bool
is_untrusted event_type =
    (event_type ==ˢ "message_received")
    || ((event_type ==ˢ "tool_result")
        || ((event_type ==ˢ "memory_read") || (event_type ==ˢ "wake_summary_loaded")))

abbrev pub wrap_untrusted_if : String → String → Bool → String
wrap_untrusted_if content nonce untrusted =
    if untrusted
    then "<<untrusted:" ++ˢ nonce ++ˢ ">>\n" ++ˢ content ++ˢ "\n<<end:" ++ˢ nonce ++ˢ ">>"
    else content

abbrev pub onto : Char → Option String → Option String
onto c none = none
onto c (some t) = some (String.◌∷◌ c t)

-- `String::truncate` below the length, which panics inside a character.
unfoldable pub truncate : ℕ → String → Option String
truncate limit String.[] = some ""
truncate limit (String.◌∷◌ c s) =
    let width = length (utf8_char (code c)) in
    let rest = truncate (limit - width) s in
    if limit == 0 then some "" else if leb width limit then onto c rest else none

-- Step 5, before the canary.
unfoldable pub shortened : ℕ → String → Option String
unfolding truncate
shortened max_prompt_chars s =
    if ltb max_prompt_chars (length (utf8 s))
    then map_some (λ t. t ++ˢ "\n...[truncated]") (truncate max_prompt_chars s)
    else some s

unfoldable pub with_canary : String → String → String
with_canary canary_hex s = s ++ˢ "\n\n<<canary:" ++ˢ canary_hex ++ˢ ">>"

-- Steps 3 and 4.
abbrev pub projection_text : Option AgentProjection → String
projection_text none = ""
projection_text (some p) =
    "\n\n## Identity\n" ++ˢ p.identity ++ˢ "\n\n## Work List\n" ++ˢ p.work_list

unfoldable pub summary_lines : List WakeSummary → String
summary_lines [] = ""
summary_lines (s ∷ rest) = "\n- " ++ˢ s.summary ++ˢ summary_lines rest

abbrev pub summaries_text : List WakeSummary → String
summaries_text [] = ""
summaries_text (s ∷ rest) = "\n\n## Recent Wake Summaries" ++ˢ summary_lines (s ∷ rest)

abbrev pub text_message : String → Option String → ChatMessage
text_message role content = record {
  role = role;
  content = content;
  tool_calls = none;
  tool_call_id = none;
}

abbrev pub call_message : String → String → String → ChatMessage
call_message id name arguments = record {
  role = "assistant";
  content = none;
  tool_calls = some (
      record {
        id = id;
        call_type = "function";
        function = record { name = name; arguments = arguments };
      }
      ∷ []);
  tool_call_id = none;
}

abbrev pub result_message : String → String → ChatMessage
result_message id wrapped = record {
  role = "tool";
  content = some wrapped;
  tool_calls = none;
  tool_call_id = some id;
}

-- `output.or(content).unwrap_or_default()`
abbrev pub raw_result : Option String → Option String → String
raw_result (some output) content = output
raw_result none content = or_empty content

-- What an event becomes.
pub data Kind : Type 0 where
  message result said skipped : Kind
  -- name and input
  call : Option String → Option String → Kind

abbrev pub kind_of : Event → Kind
kind_of ev =
    if ev.event_type ==ˢ "message_received"
    then message
    else if ev.event_type ==ˢ "tool_call"
    then call ev.tool_name ev.tool_input
    else if ev.event_type ==ˢ "tool_result"
    then result
    else if ev.event_type ==ˢ "assistant_message"
    then said
    else skipped

-- `Uuid::to_string`, and the wake's context.
module _ (uuid_text : ℕ → String) (ctx : WakePromptContext) where
  abbrev pub wrapped : Event → String → String
  wrapped ev content = wrap_untrusted_if content ctx.wake_nonce (is_untrusted ev.event_type)

  -- The message of one event, and the identifier of the last tool call that has no result yet.
  abbrev pub step : Kind → Event → Option String → List ChatMessage × Option String
  step message ev last = (text_message "user" (map_some (wrapped ev) ev.content) ∷ [], last)
  step (call (some name) (some input)) ev last =
      (call_message (uuid_text ev.id) name input ∷ [], some (uuid_text ev.id))
  step (call none input) ev last = ([], last)
  step (call (some name) none) ev last = ([], last)
  step result ev last = (
    result_message (or_empty last) (wrapped ev (raw_result ev.tool_output ev.content)) ∷ [],
    none,
  )
  step said ev last = (text_message "assistant" ev.content ∷ [], last)
  step skipped ev last = ([], last)

  -- Step 6, over the events in chronological order.
  unfoldable pub messages_of : Option String → List Event → List ChatMessage
  unfolding is_untrusted
  messages_of last [] = []
  messages_of last (ev ∷ rest) =
      let (new, last') = step (kind_of ev) ev last in new ++ messages_of last' rest

-- `LIMIT`
unfoldable pub take {ℓ} : {A : Type ℓ} → ℕ → List A → List A
take zero xs = []
take (suc n) [] = []
take (suc n) (x ∷ xs) = x ∷ take n xs

-- `ORDER BY created_at DESC LIMIT n`, of rows in ascending order. A negative limit is an error.
abbrev pub newest {ℓ} : {A : Type ℓ} → ℕ → List A → List A
newest n rows = take n (reverse rows)

module _ (env : Env) where
  unfoldable pub recent_events : ℕ → ℤ → M (List Event)
  recent_events agent_id (pos n) =
      statement env.fault λ t w. gives (newest n (rows_of agent_id w.events)) w
  recent_events agent_id (negsuc n) = statement env.fault λ t w. fails

  unfoldable pub recent_wake_summaries : ℕ → ℤ → M (List WakeSummary)
  recent_wake_summaries agent_id (pos n) =
      statement env.fault λ t w. gives (take n (w.summaries agent_id)) w
  recent_wake_summaries agent_id (negsuc n) = statement env.fault λ t w. fails

  abbrev pub finished : WakePromptContext → List Event → Option String → Option AssembledPrompt
  finished ctx events none = none
  finished ctx events (some s) = some (record {
    system_prompt = with_canary ctx.canary_hex s;
    messages = messages_of env.hashing.uuid_text ctx none (reverse events);
  })

  -- `none` is the panic of `truncate`, which no statement precedes that writes.
  unfoldable pub assemble_prompt : ℕ → ℤ → ℤ → ℕ → WakePromptContext → M (Option AssembledPrompt)
  unfolding recent_events recent_wake_summaries shortened with_canary
  assemble_prompt agent_id event_window wake_summary_limit max_prompt_chars ctx = do
    found ← find_template env "wake_system_prompt"
    template ← or_raise found (internal "Missing wake_system_prompt template")
    now ← ask (λ n. env.time_text (env.now n))
    proj ← latest_projection env agent_id
    summaries ← recent_wake_summaries agent_id wake_summary_limit
    let system =
        template
        ++ˢ "\n\nCurrent time: "
        ++ˢ now
        ++ˢ projection_text proj
        ++ˢ summaries_text (reverse summaries)
    events ← recent_events agent_id event_window
    pure (finished ctx events (shortened max_prompt_chars system))
