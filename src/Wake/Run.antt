-- ===== src/Wake/Run.antt =====
-- `run_wake_loop`: the entry, the loop on fuel, and the end.
use open_pincery.Prelude.{ℕ, zero, suc, String, Option, none, some, ◌++ˢ◌}
use open_pincery.Bytes.{be_bytes}
use open_pincery.Db.{not_found, M, gives, statement, ask, attempt, or_raise, ◌>>=◌, ◌>>◌, pure}
use open_pincery.Env.{Env}
use open_pincery.Agents.{get_agent}
use open_pincery.Shape.{hex_lower}
use open_pincery.Tools.Shell.{find_active, Opened, plaintext, sealed, open_row}
use open_pincery.Wake.{WakeConfig, note, hop_acquired, hop_assembled, end_wake}
use open_pincery.Wake.Turn.{TurnEnd, stop, asleep, again, turn}

-- What the loop leaves behind: a reason to end the wake with, or a wake that has ended.
pub data LoopEnd : Type 0 where
  ending : String → LoopEnd
  ended : String → LoopEnd
  -- The fuel ran out.
  unfinished : LoopEnd

module _ (env : Env) where
  -- Of a workspace's provider: whether a client of its own can be built, with its key.
  abbrev pub client_key : Opened → Option String
  client_key (plaintext api_key) = some api_key
  client_key (sealed reason) = none

  unfoldable pub keyed : ℕ → Option (Option (String × String)) → M (Option String)
  keyed workspace_id none = pure none
  keyed workspace_id (some none) = pure none
  keyed workspace_id (some (some (base, credential_name))) = do
    row ← attempt (find_active env workspace_id credential_name)
    pure (client_key (open_row env workspace_id credential_name row))

  unfoldable pub resolve_default : ℕ → M (Option (String × String))
  resolve_default workspace_id = statement env.fault λ n w. gives (w.providers workspace_id) w

  unfoldable pub resolve_workspace_llm : ℕ → M (Option String)
  unfolding keyed resolve_default
  resolve_workspace_llm workspace_id = do
    provider ← attempt (resolve_default workspace_id)
    keyed workspace_id provider

  module _ (config : WakeConfig) (agent_id wake_id : ℕ) where
    unfoldable pub note_fallback : Option String → M (Unit {0})
    note_fallback (some api_key) = pure tt
    note_fallback none = note env agent_id wake_id "llm_provider_env_fallback" "runtime" none none

    -- Up to the loop: the context's canary.
    unfoldable pub enter : M String
    unfolding note_fallback
    enter = do
      hop_acquired env agent_id wake_id
      hop_assembled env agent_id wake_id
      wake_nonce ← ask env.random16
      canary ← ask env.random16
      note env agent_id wake_id "wake_start" "agent" none none
      note env agent_id wake_id "prompt_injection_canary_emitted" "runtime" none none
      row ← get_agent env agent_id
      resolved_agent ← or_raise row (not_found "Agent disappeared")
      llm_override ← resolve_workspace_llm resolved_agent.workspace_id
      note_fallback llm_override
      pure (hex_lower (be_bytes 16 canary))

    module _ (canary_hex : String) where
      -- What follows a turn; `rest` is the loop with less fuel.
      unfoldable pub proceed : (ℕ → ℕ → M LoopEnd) → TurnEnd → M LoopEnd
      proceed rest (stop reason) = pure (ending reason)
      proceed rest (asleep reason) = pure (ended reason)
      proceed rest (again attempts calls) = rest attempts calls

      unfoldable pub wake_loop : ℕ → ℕ → ℕ → M LoopEnd
      unfolding proceed
      wake_loop zero attempts calls = pure unfinished
      wake_loop (suc fuel) attempts calls =
          turn env config agent_id wake_id canary_hex attempts calls >>= proceed (wake_loop fuel)

    unfoldable pub finish : LoopEnd → M (Option String)
    finish unfinished = pure none
    finish (ended reason) = pure (some reason)
    finish (ending reason) = do
      row ← get_agent env agent_id
      prior ← or_raise row (
          not_found
            ("AC-82: agent " ++ˢ env.hashing.uuid_text agent_id ++ˢ " missing at wake terminal"))
      done ←
          end_wake env agent_id wake_id prior.status "not in admissible state at wake terminal"
            reason
      pure (some done)

    -- `none` where the fuel did not last.
    unfoldable pub run_wake_loop : ℕ → M (Option String)
    unfolding enter wake_loop finish
    run_wake_loop fuel = do canary_hex ← enter; end ← wake_loop canary_hex fuel 0 0; finish end
