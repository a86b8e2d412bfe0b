-- ===== src/Events/Appends.antt =====
-- What an appended event adds to the log.
use open_pincery.Prelude.{
  ℕ, ◌≡◌, refl, String, Option, none, some, List, [], ◌∷◌, ◌++◌, Option-cases, inl, inr,
}
use open_pincery.Chain.{Event, rows_of}
use open_pincery.Chain.Trigger.{NewEvent, insert_event, complete_row, new_row, last_row, prior_hash}
use open_pincery.Db.{World, answered}
use open_pincery.Db.Triple.{Triple, Post, Triple-statement, ticked}
use open_pincery.Env.{Env}
use open_pincery.Events.{append_event, inserted}

-- The row holds what the INSERT gave.
pub record Holds (agent_id : ℕ) (event_type : String) (content : Option String) (row : Event)
    : Type 0 where
  pub same_agent : row.agent_id ≡ agent_id
  pub same_type : row.event_type ≡ event_type
  pub same_content : row.content ≡ content

module _ (env : Env) where
  -- Either the row is refused, or it goes to the end of the log with what was given.
  pub insert_event-Holds :
      (Q : Option (Event × List Event) → Type 0) (e : NewEvent) (id now : ℕ) (table : List Event)
      → Q none
      → ((row : Event)
          → Holds e.agent_id e.event_type e.content row
          → Q (some (row, table ++ row ∷ [])))
      → Q (insert_event env.hashing e id now table)
  unfolding insert_event complete_row new_row
  insert_event-Holds Q e id now table refused placed =
      elim (Option-cases
        (env.hashing.hex_decode (prior_hash (last_row (rows_of e.agent_id table))))) [
          | inl none_hex ↦ rw (none_hex, insert_event, complete_row) refused
          | inr (bytes, hex) ↦
              rw (hex, insert_event, complete_row)
                (placed _ (record { same_agent = refl; same_type = refl; same_content = refl }))
        ]

  module _ {P : World → Type 0} {E : World → Type 0} where
    -- An append is lost with its statement, or puts one row at the end of the log.
    pub Triple-append_event :
        {Q : Event → World → Type 0} (agent_id : ℕ) (event_type source : String)
        (wake_id : Option ℕ)
        (tool_name tool_input tool_output content termination_reason : Option String)
        → ((w : World) → P w → E (ticked w))
        → ((row : Event) (w : World)
            → P w
            → Holds agent_id event_type content row
            → Q row (ticked (record w { events = w.events ++ row ∷ [] })))
        → Triple P
            (append_event env agent_id event_type source wake_id tool_name tool_input tool_output
              content termination_reason)
            Q
            E
    unfolding append_event inserted
    Triple-append_event {Q = Q} agent_id event_type source wake_id tool_name tool_input tool_output
          content termination_reason lost done =
        Triple-statement env.fault _ lost λ w p.
          insert_event-Holds (λ o. Post Q E (answered (inserted o w) w)) _ _ _ w.events (lost w p)
            (λ row holds. done row w p holds)
