-- ===== src/Lifecycle.antt =====
-- src/runtime/lifecycle.rs: one `lifecycle_transition` event for each status write.
pub mod Trail
use open_pincery.Prelude.{ℕ, String, none, some, ◌++ˢ◌}
use open_pincery.Json.{str}
use open_pincery.Db.{M, ◌>>◌, ◌>>=◌, pure}
use open_pincery.Env.{Env}
use open_pincery.Events.{append_event}

abbrev pub event_kind : String
event_kind = "lifecycle_transition"

abbrev pub event_source : String
event_source = "runtime"

module _ (env : Env) where
  unfoldable pub canonical_payload : String → String → String → ℕ → String
  canonical_payload from to action wake_id =
      "{\"canonical_action\":"
      ++ˢ env.to_json (str action)
      ++ˢ ",\"from\":"
      ++ˢ env.to_json (str from)
      ++ˢ ",\"to\":"
      ++ˢ env.to_json (str to)
      ++ˢ ",\"wake_id\":"
      ++ˢ env.to_json (str (env.hashing.uuid_text wake_id))
      ++ˢ "}"

  unfoldable pub emit : ℕ → ℕ → String → String → String → M (Unit {0})
  emit agent_id wake_id from to canonical_action = do
    let payload = canonical_payload from to canonical_action wake_id
    append_event env agent_id event_kind event_source (some wake_id) none none none (some payload)
        none
    pure tt
