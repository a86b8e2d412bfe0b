-- ===== src/Capability/Gate.antt =====
-- What the permission gate lets through.
use open_pincery.Prelude.{String, Bool, true, ◌||◌, ◌≡◌, arith, if◌then◌else◌, ◌==ˢ◌}
use open_pincery.Capability.{from_db_str, required_for, mode_allows}

-- The tools that only read the runtime's own state.
abbrev pub is_read_only : String → Bool
is_read_only name = (name ==ˢ "plan") || ((name ==ˢ "sleep") || (name ==ˢ "list_credentials"))

-- The policy, by the stored mode and the tool's name.
abbrev pub permitted : String → String → Bool
permitted mode name =
    if mode ==ˢ "yolo"
    then true
    else if name ==ˢ "shell"
    then mode ==ˢ "supervised"
    else is_read_only name

-- For every text in `permission_mode` and every tool name: `yolo` permits all tools; otherwise the
-- shell is permitted under `supervised` only, the read-only tools always, and no other tool.
pub mode_allows-permitted :
    (mode name : String) → mode_allows (from_db_str mode) (required_for name) ≡ permitted mode name
unfolding mode_allows from_db_str required_for
mode_allows-permitted mode name = ground arith
