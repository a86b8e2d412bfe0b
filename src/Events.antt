-- ===== src/Events.antt =====
-- src/models/event.rs: the event log. Its rows are completed by the hash-chain trigger.
pub mod Appends
use open_pincery.Prelude.{
  ℕ, ◌<◌, String, Bool, true, false, ◌&&◌, Option, none, some, List, [], ◌∷◌, keep, if◌then◌else◌,
  ◌==◌, ltb, ◌==ˢ◌,
}
use open_pincery.Chain.{Event}
use open_pincery.Chain.Trigger.{NewEvent, insert_event}
use open_pincery.Db.{World, M, Answer, fails, gives, statement}
use open_pincery.Env.{Env}

unfoldable pub inserted : Option (Event × List Event) → World → Answer Event
inserted none w = fails
inserted (some (row, table)) w = gives row (record w { events = table })

module _ (env : Env) where
  unfoldable pub append_event :
      ℕ
      → String
      → String
      → Option ℕ
      → Option String
      → Option String
      → Option String
      → Option String
      → Option String
      → M Event
  append_event agent_id event_type source wake_id tool_name tool_input tool_output content
        termination_reason =
      statement env.fault λ n w.
        inserted
          (insert_event env.hashing
            (record {
              agent_id = agent_id;
              event_type = event_type;
              source = source;
              wake_id = wake_id;
              tool_name = tool_name;
              tool_input = tool_input;
              tool_output = tool_output;
              content = content;
              termination_reason = termination_reason;
            })
            (env.uuid n) (env.now n) w.events)
          w

  abbrev pub is_pending : ℕ → ℕ → Event → Bool
  is_pending agent_id since r =
      (r.agent_id == agent_id) && (ltb since r.created_at && (r.event_type ==ˢ "message_received"))

  abbrev pub is_nonempty : List Event → Bool
  is_nonempty [] = false
  is_nonempty (r ∷ rows) = true

  -- `SELECT COUNT(*) … > 0`
  unfoldable pub has_pending_events : ℕ → ℕ → M Bool
  has_pending_events agent_id since =
      statement env.fault λ n w. gives (is_nonempty (keep (is_pending agent_id since) w.events)) w
