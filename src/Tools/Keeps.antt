-- ===== src/Tools/Keeps.antt =====
-- What the dispatch of a tool call keeps, for any property that the runtime's own statements keep.
use open_pincery.Prelude.{ℕ, ◌≡◌, refl, String, false, Option, List, [], ◌∷◌, ◌++◌, ◌==ˢ◌}
use open_pincery.Chain.{Event}
use open_pincery.Db.{NonceRow, World, M, gives, statement, ask, attempt, pure, ◌>>=◌, ◌>>◌}
use open_pincery.Db.Triple.{
  Triple, Triple-pure, Triple-bind, Triple-if, Triple-attempt, Triple-statement, Triple-ask,
}
use open_pincery.Env.{Env}
use open_pincery.Events.{append_event}
use open_pincery.Events.Appends.{Holds, Triple-append_event}
use open_pincery.Lifecycle.{event_kind}
use open_pincery.Nonce.{set_nonce}
use open_pincery.Tools.{ShellExecution, is_sigsys}
use open_pincery.Tools.Shell.{emit_credential_unresolved, append_denials, audit_sigsys}

-- Kept by the passing of time, by the events other than transitions, and by the nonces.
pub record Stable (I : World → Type 0) : Type 0 where
  pub ticks : (w : World) (n : ℕ) → I w → I (record w { tick = n })
  pub appends :
      (by : ℕ) (kind : String) (content : Option String) (row : Event) (w : World)
      → (kind ==ˢ event_kind) ≡ false
      → Holds by kind content row
      → I w
      → I (record w { events = w.events ++ row ∷ [] })
  pub spends :
      (workspace_id nonce : ℕ) (row : NonceRow) (w : World)
      → I w
      → I (set_nonce workspace_id nonce row w)

-- Whatever the action does, the property holds after it.
abbrev pub Keeps : {A : Type 0} → (World → Type 0) → M A → Type 0
Keeps I m = Triple I m (λ _. I) I

module _ (env : Env) {I : World → Type 0} (stable : Stable I) where
  pub append_event-Keeps :
      (agent_id : ℕ) (kind source : String) (wake : Option ℕ)
      (tool_name tool_input tool_output content termination_reason : Option String)
      → (kind ==ˢ event_kind) ≡ false
      → Keeps I (
          append_event env agent_id kind source wake tool_name tool_input tool_output content
            termination_reason)
  append_event-Keeps agent_id kind source wake tool_name tool_input tool_output content
        termination_reason other =
      Triple-append_event env agent_id kind source wake tool_name tool_input tool_output content
        termination_reason (λ w h. stable.ticks w _ h)
        (λ row w h holds.
          stable.ticks _ _ (stable.appends agent_id kind content row w other holds h))

  -- A statement that only reads.
  pub read-Keeps :
      {A : Type 0} (f : ℕ → World → A) → Keeps I (statement env.fault λ n w. gives (f n w) w)
  read-Keeps f =
      Triple-statement env.fault _ (λ w h. stable.ticks w _ h) (λ w h. stable.ticks w _ h)

  -- An error that is caught.
  pub attempt-Keeps : {A : Type 0} {m : M A} → Keeps I m → Keeps I (attempt m)
  attempt-Keeps t = Triple-attempt t

  pub then-Keeps :
      {A B : Type 0} {m : M A} {f : A → M B}
      → Keeps I m
      → ((a : A) → Keeps I (f a))
      → Keeps I (m >>= f)
  then-Keeps tm tf = Triple-bind tm tf

  pub pure-Keeps : {A : Type 0} (a : A) → Keeps I (pure a)
  pure-Keeps a = Triple-pure a (λ w h. h)

  module _ (agent_id wake_id workspace_id : ℕ) where
    pub emit_credential_unresolved-Keeps :
        (name reason : String)
        → Keeps I (emit_credential_unresolved env agent_id wake_id workspace_id name reason)
    unfolding emit_credential_unresolved
    emit_credential_unresolved-Keeps name reason =
        then-Keeps (attempt-Keeps (append_event-Keeps _ _ _ _ _ _ _ _ _ refl)) (λ _. pure-Keeps tt)

    append_denials-Keeps :
        (payloads : List String)
        → Keeps I (append_denials env agent_id wake_id workspace_id payloads)
    unfolding append_denials
    append_denials-Keeps [] = pure-Keeps _
    append_denials-Keeps (payload ∷ payloads) =
        then-Keeps (append_event-Keeps _ _ _ _ _ _ _ _ _ refl) (λ _. append_denials-Keeps payloads)

    audit_sigsys-Keeps :
        (execution : ShellExecution)
        → Keeps I (audit_sigsys env agent_id wake_id workspace_id execution)
    unfolding audit_sigsys
    audit_sigsys-Keeps execution =
        Triple-if (is_sigsys execution.exit_code)
          (λ _.
            then-Keeps (attempt-Keeps (append_event-Keeps _ _ _ _ _ _ _ _ _ refl))
              (λ _. pure-Keeps tt))
          (λ _. pure-Keeps tt)

    -- The events after a run.
    pub audited-Keeps :
        (execution : ShellExecution)
        → Keeps I (do
          payloads ← ask env.landlock_payloads
          attempt (append_denials env agent_id wake_id workspace_id payloads)
          audit_sigsys env agent_id wake_id workspace_id execution
          pure execution.result)
    audited-Keeps execution =
        Triple-bind (Triple-ask env.landlock_payloads (λ _ w h. stable.ticks w _ h)) (λ payloads.
          then-Keeps (attempt-Keeps (append_denials-Keeps payloads))
            (λ _. then-Keeps (audit_sigsys-Keeps execution) (λ _. pure-Keeps _)))
