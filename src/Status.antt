-- ===== src/Status.antt =====
-- src/models/agent.rs, `AgentStatus`: the lifecycle states and their database spelling.
use open_pincery.Prelude.{String, ◌≡◌, refl, Option, none, some, if◌then◌else◌, ◌==ˢ◌}

pub data AgentStatus : Type 0 where
  resting wake_acquiring prompt_assembling awake tool_dispatching : AgentStatus
  tool_executing tool_result_processing mid_wake_event_polling : AgentStatus
  wake_ending maintenance : AgentStatus

abbrev pub db_asleep : String
db_asleep = "asleep"

abbrev pub db_wake_acquiring : String
db_wake_acquiring = "wake_acquiring"

abbrev pub db_prompt_assembling : String
db_prompt_assembling = "prompt_assembling"

abbrev pub db_awake : String
db_awake = "awake"

abbrev pub db_tool_dispatching : String
db_tool_dispatching = "tool_dispatching"

abbrev pub db_tool_executing : String
db_tool_executing = "tool_executing"

abbrev pub db_tool_result_processing : String
db_tool_result_processing = "tool_result_processing"

abbrev pub db_mid_wake_event_polling : String
db_mid_wake_event_polling = "mid_wake_event_polling"

abbrev pub db_wake_ending : String
db_wake_ending = "wake_ending"

abbrev pub db_maintenance : String
db_maintenance = "maintenance"

unfoldable pub as_db_str : AgentStatus → String
as_db_str resting = db_asleep
as_db_str wake_acquiring = db_wake_acquiring
as_db_str prompt_assembling = db_prompt_assembling
as_db_str awake = db_awake
as_db_str tool_dispatching = db_tool_dispatching
as_db_str tool_executing = db_tool_executing
as_db_str tool_result_processing = db_tool_result_processing
as_db_str mid_wake_event_polling = db_mid_wake_event_polling
as_db_str wake_ending = db_wake_ending
as_db_str maintenance = db_maintenance

unfoldable pub from_db_str : String → Option AgentStatus
from_db_str s =
    if s ==ˢ db_asleep
    then some resting
    else if s ==ˢ db_wake_acquiring
    then some wake_acquiring
    else if s ==ˢ db_prompt_assembling
    then some prompt_assembling
    else if s ==ˢ db_awake
    then some awake
    else if s ==ˢ db_tool_dispatching
    then some tool_dispatching
    else if s ==ˢ db_tool_executing
    then some tool_executing
    else if s ==ˢ db_tool_result_processing
    then some tool_result_processing
    else if s ==ˢ db_mid_wake_event_polling
    then some mid_wake_event_polling
    else if s ==ˢ db_wake_ending
    then some wake_ending
    else if s ==ˢ db_maintenance
    then some maintenance
    else none

-- Parsing the database text of a status gives the status back.
pub from_db_str-as_db_str : (s : AgentStatus) → from_db_str (as_db_str s) ≡ some s
unfolding from_db_str as_db_str
from_db_str-as_db_str resting = refl
from_db_str-as_db_str _ = refl
