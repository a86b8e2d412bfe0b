-- ===== src/Tools/Gate.antt =====
-- The gates in front of the tools, and what a dispatch leaves.
use open_pincery.Prelude.{
  ℕ, ◌+◌, ◌≡◌, refl, ◌∙◌, ap, subst, ◌⊎◌, inl, inr, String, true, List, [], ◌∷◌, ◌++◌, arith,
  Bool-cases, ◌==ˢ◌, ==ˢ→≡,
}
use open_pincery.Llm.{ToolCallRequest}
use open_pincery.Db.{ShellCommand, World, Result, ok, err, M, continue, ◌>>=◌}
use open_pincery.Db.Triple.{Post, Triple, Triple-bind, Triple-weaken, Triple-off, Triple-if}
use open_pincery.Env.{Env, Parsed, parsed, unparsed}
use open_pincery.Capability.{PermissionMode, required_for, mode_allows, execute_local}
use open_pincery.Nonce.{CapabilityNonceTicket, Consumed, accepted, rejected, set_nonce}
use open_pincery.Nonce.Consume.{consume-cases, Ready, redeems-Redeemable}
use open_pincery.Tools.{ToolResult}
use open_pincery.Tools.Shell.{
  Resolved, resolved, unresolved, execute_shell, run_shell, run_resolved, shell_tool,
}
use open_pincery.Tools.Dispatch.{
  perform, list_active, list_credentials_tool, append_denied_event, deny, after_consume, authorized,
  dispatch_tool,
}
use open_pincery.Tools.Keeps.{
  Stable, Keeps, pure-Keeps, then-Keeps, attempt-Keeps, append_event-Keeps, read-Keeps,
  audited-Keeps,
}
use open_pincery.Tools.Bindings.{Asked, BoundTo, resolve_env_placeholders-Resolves}

-- After a run, whose command is at the end of the list.
abbrev pub after_run : ShellCommand → World → World
after_run command w = record w { runs = w.runs ++ command ∷ []; tick = w.tick + 1 }

module _ {A : Type 0} {I J : World → Type 0} {m : M A} where
  left-Keeps : Keeps I m → Triple I m (λ _ w. I w ⊎ J w) (λ w. I w ⊎ J w)
  left-Keeps t = Triple-off (Triple-weaken t (λ w h. h) (λ a w h. inl h)) (λ w h. inl h)

  right-Keeps : Keeps J m → Triple J m (λ _ w. I w ⊎ J w) (λ w. I w ⊎ J w)
  right-Keeps t = Triple-off (Triple-weaken t (λ w h. h) (λ a w h. inr h)) (λ w h. inr h)

module _ (env : Env) (agent_id wake_id workspace_id : ℕ) {I J : World → Type 0} (si : Stable I)
    (sj : Stable J) where
  -- With `I` before and no run, `I` after; with a run, `J`.
  abbrev Outcome : {A : Type 0} → M A → Type 0
  Outcome m = Triple I m (λ _ w. I w ⊎ J w) (λ w. I w ⊎ J w)

  run_shell-Outcome :
      (command : ShellCommand)
      → ((w : World) → I w → J (after_run command w))
      → Outcome (run_shell env agent_id wake_id workspace_id command)
  unfolding run_shell execute_shell
  run_shell-Outcome command ran =
      Triple-bind (record { at = λ w h. ran w h })
        (λ execution.
          right-Keeps {I = I} (audited-Keeps env sj agent_id wake_id workspace_id execution))

  -- What a run of a command that the arguments ask for would mean.
  abbrev Runs : String → Type 0
  Runs arguments =
      (command : ShellCommand)
      → Asked env workspace_id arguments command
      → (w : World) → I w
      → J (after_run command w)

  shell_tool-Outcome :
      (arguments : String) (p : Parsed ShellCommand)
      → env.parse_shell_args arguments ≡ p
      → Runs arguments
      → Outcome (shell_tool env agent_id wake_id workspace_id p)
  unfolding shell_tool run_resolved
  shell_tool-Outcome arguments (unparsed e) read ran = left-Keeps (pure-Keeps env si _)
  shell_tool-Outcome arguments (parsed args) read ran =
      Triple-bind
        (Triple-off
          (resolve_env_placeholders-Resolves env si agent_id wake_id workspace_id args.env)
          (λ w h. inl h))
        (λ r. record { at = λ w (b, h). (ended r b).at w h })
    where
      ended :
          (r : Resolved)
          → BoundTo env workspace_id args.env r
          → Outcome (run_resolved env agent_id wake_id workspace_id args.command r)
      ended (unresolved message) b = left-Keeps (pure-Keeps env si _)
      ended (resolved bindings) b =
          run_shell-Outcome _ (ran _ (record { args = args; read = read; same = refl; bound = b }))

  perform-Outcome :
      (name args : String)
      → (name ≡ "shell" → Runs args)
      → Outcome (perform env agent_id wake_id workspace_id name args)
  unfolding perform list_credentials_tool list_active
  perform-Outcome name args ran =
      Triple-if (name ==ˢ "shell")
        (λ e. shell_tool-Outcome args _ refl (ran (==ˢ→≡ name "shell" e)))
        (λ _.
          Triple-if (name ==ˢ "plan") (λ _. left-Keeps (pure-Keeps env si _))
            (λ _.
              Triple-if (name ==ˢ "sleep") (λ _. left-Keeps (pure-Keeps env si _))
                (λ _.
                  Triple-if (name ==ˢ "list_credentials")
                    (λ _. left-Keeps (
                      then-Keeps env si (attempt-Keeps env si (read-Keeps env si _))
                        (λ _. pure-Keeps env si _)))
                    (λ _. left-Keeps (pure-Keeps env si _)))))

  deny-Outcome :
      (name : String) (mode : PermissionMode)
      → Outcome (deny env agent_id wake_id workspace_id name mode)
  unfolding deny append_denied_event
  deny-Outcome name mode = left-Keeps (
      then-Keeps env si
        (attempt-Keeps env si (
          then-Keeps env si (append_event-Keeps env si _ _ _ _ _ _ _ _ _ refl)
            (λ _. pure-Keeps env si _)))
        (λ _. pure-Keeps env si _))

  after_consume-Outcome :
      (name args : String) (verdict : Consumed)
      → (verdict ≡ accepted → name ≡ "shell" → Runs args)
      → Outcome (after_consume env agent_id wake_id workspace_id name args verdict)
  unfolding after_consume
  after_consume-Outcome name args accepted ran = perform-Outcome name args (ran refl)
  after_consume-Outcome name args (rejected reason) ran = left-Keeps (
      then-Keeps env si (attempt-Keeps env si (append_event-Keeps env si _ _ _ _ _ _ _ _ _ refl))
        (λ _. pure-Keeps env si _))

  -- A dispatch from a world with `I`, given what a run would mean.
  pub dispatch_tool-Outcome :
      (tool_call : ToolCallRequest) (mode : PermissionMode) (ticket : CapabilityNonceTicket)
      (w : World)
      → I w
      → (mode_allows mode (required_for tool_call.function.name) ≡ true
          → Ready env ticket.nonce wake_id workspace_id tool_call.function.name
              ticket.capability_shape w
          → tool_call.function.name ≡ "shell"
          → (command : ShellCommand) → Asked env workspace_id tool_call.function.arguments command
          → (v : World) → I v
          → J (after_run command v))
      → Post
          (λ _ v. I v ⊎ J v)
          (λ v. I v ⊎ J v)
          (dispatch_tool env agent_id wake_id workspace_id tool_call mode ticket w)
  unfolding dispatch_tool authorized ◌>>=◌
  dispatch_tool-Outcome tool_call mode ticket w h ran =
      elim (Bool-cases (mode_allows mode (required_for tool_call.function.name))) [
        | inr e ↦ rw e ((deny-Outcome _ _).at w h)
        | inl e ↦ rw e (
            consume-cases env ticket.nonce wake_id workspace_id tool_call.function.name
              ticket.capability_shape
              (λ r.
                Post (λ _ v. I v ⊎ J v) (λ v. I v ⊎ J v)
                  (continue r.0
                    (after_consume env agent_id wake_id workspace_id tool_call.function.name
                      tool_call.function.arguments)
                    r.1))
              w
              (λ reason n u.
                (after_consume-Outcome tool_call.function.name tool_call.function.arguments
                    (rejected reason) (λ no. ground (arith, no))).at
                  _ (si.ticks w n h))
              (λ row up there fits.
                (after_consume-Outcome tool_call.function.name tool_call.function.arguments accepted
                    (λ _. ran e (record {
                      up = up;
                      row = row;
                      there = there;
                      redeemable = redeems-Redeemable _ _ _ _ row fits;
                    }))).at
                  _ (si.ticks _ _ (si.spends workspace_id ticket.nonce _ w h))))
      ]

-- A command was handed to the executor, past both gates.
pub record Ran (env : Env) (wake_id workspace_id : ℕ) (tool_call : ToolCallRequest)
    (mode : PermissionMode) (ticket : CapabilityNonceTicket) (w v : World) : Type 0 where
  pub is_shell : tool_call.function.name ≡ "shell"
  pub allowed : mode_allows mode execute_local ≡ true
  pub ready :
      Ready env ticket.nonce wake_id workspace_id tool_call.function.name ticket.capability_shape w
  pub command : ShellCommand
  pub asked : Asked env workspace_id tool_call.function.arguments command
  pub once : v.runs ≡ w.runs ++ command ∷ []

same_runs-Stable : (runs : List ShellCommand) → Stable (λ v. v.runs ≡ runs)
same_runs-Stable runs = record {
  ticks = λ w n h. h;
  appends = λ by kind content row w other holds h. h;
  spends = λ u n row w h. h;
}

Ran-Stable :
    (env : Env) (wake_id workspace_id : ℕ) (tool_call : ToolCallRequest) (mode : PermissionMode)
    (ticket : CapabilityNonceTicket) (w : World)
    → Stable (Ran env wake_id workspace_id tool_call mode ticket w)
Ran-Stable env wake_id workspace_id tool_call mode ticket w = record {
  ticks = λ v n h. again v (record v { tick = n }) refl h;
  appends = λ by kind content row v other holds h.
      again v (record v { events = v.events ++ row ∷ [] }) refl h;
  spends = λ u n row v h. again v (set_nonce u n row v) refl h;
}
  where
    again :
        (v v' : World)
        → v'.runs ≡ v.runs
        → Ran env wake_id workspace_id tool_call mode ticket w v
        → Ran env wake_id workspace_id tool_call mode ticket w v'
    again v v' same h = record {
      is_shell = h.is_shell;
      allowed = h.allowed;
      ready = h.ready;
      command = h.command;
      asked = h.asked;
      once = same ∙ h.once;
    }

-- A dispatched tool call hands at most one command to the executor, and only for the tool
-- `shell`, under a permission mode that allows local execution, with a ticket whose row in the
-- workspace has the wake, the call's tool and the shape that the ticket itself carries (which is
-- not compared with the call's arguments), is not consumed, and expires after the server's time.
-- The command is the one that the call's arguments parse to, with the same environment variables
-- in their order, each with the value written there or, where this names a credential, with a
-- text that the vault opened under that name.
pub dispatch_tool-runs :
    (env : Env) (agent_id wake_id workspace_id : ℕ) (tool_call : ToolCallRequest)
    (mode : PermissionMode) (ticket : CapabilityNonceTicket) (w : World)
    → ((dispatch_tool env agent_id wake_id workspace_id tool_call mode ticket w).1.runs ≡ w.runs)
      ⊎ Ran env wake_id workspace_id tool_call mode ticket w
          (dispatch_tool env agent_id wake_id workspace_id tool_call mode ticket w).1
unfolding required_for
dispatch_tool-runs env agent_id wake_id workspace_id tool_call mode ticket w = left_over _ (
    dispatch_tool-Outcome env agent_id wake_id workspace_id (same_runs-Stable w.runs)
      (Ran-Stable env wake_id workspace_id tool_call mode ticket w) tool_call mode ticket w refl
      (λ allowed ready is_shell command asked v same. record {
        is_shell = is_shell;
        allowed = subst (λ name. mode_allows mode (required_for name) ≡ true) is_shell allowed;
        ready = ready;
        command = command;
        asked = asked;
        once = ap (λ runs. runs ++ command ∷ []) same;
      }))
  where
    left_over :
        (r : Result ToolResult × World)
        → Post
            (λ _ v. (v.runs ≡ w.runs) ⊎ Ran env wake_id workspace_id tool_call mode ticket w v)
            (λ v. (v.runs ≡ w.runs) ⊎ Ran env wake_id workspace_id tool_call mode ticket w v)
            r
        → (r.1.runs ≡ w.runs) ⊎ Ran env wake_id workspace_id tool_call mode ticket w r.1
    left_over (ok a, v) h = h
    left_over (err e, v) h = h
