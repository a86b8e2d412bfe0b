-- ===== src/Capability.antt =====
-- src/runtime/capability.rs: the permission-mode gate.
pub mod Gate
use open_pincery.Prelude.{String, Bool, true, false, if◌then◌else◌, ◌==ˢ◌}

pub data ToolCapability : Type 0 where
  read_local write_local execute_local network destructive : ToolCapability

pub data PermissionMode : Type 0 where
  yolo supervised locked : PermissionMode

unfoldable pub from_db_str : String → PermissionMode
from_db_str s =
    if s ==ˢ "yolo"
    then yolo
    else if s ==ˢ "supervised"
    then supervised
    else if s ==ˢ "locked"
    then locked
    else locked

unfoldable pub required_for : String → ToolCapability
required_for tool_name =
    if tool_name ==ˢ "shell"
    then execute_local
    else if tool_name ==ˢ "plan"
    then read_local
    else if tool_name ==ˢ "sleep"
    then read_local
    else if tool_name ==ˢ "list_credentials"
    then read_local
    else destructive

unfoldable pub mode_allows : PermissionMode → ToolCapability → Bool
mode_allows yolo c = true
mode_allows supervised destructive = false
mode_allows supervised c = true
mode_allows locked read_local = true
mode_allows locked c = false
