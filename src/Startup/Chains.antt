-- ===== src/Startup/Chains.antt =====
-- The start of a server whose log is sound.
use open_pincery.Prelude.{
  ℕ, ◌≡◌, refl, ◌∙◌, ap, sym, subst, ◌⊎◌, inl, inr, String, Bool, true, false, Option, none, some,
  List, [], ◌∷◌, ◌++◌,
}
use open_pincery.Chain.{ChainStatus, verified, broken, verify_audit_chain}
use open_pincery.Chain.Append.{IsChained, rows_of-IsChained, verify-insert_event}
use open_pincery.Chain.Gate.{
  AgentChainResult, is_broken, broken_of, all_results, evaluate_startup_gate-eq, broken_of-append,
}
use open_pincery.Chain.Walk.{Linked, verify_audit_chain_iff}
use open_pincery.Db.{World, M}
use open_pincery.Db.Triple.{
  Triple, Triple-pure, Triple-bind, Triple-attempt, Triple-statement_fault,
}
use open_pincery.Env.{Env}
use open_pincery.Events.{append_event, inserted}
use open_pincery.Sandbox.Floor.{Gate, continues, exits}
use open_pincery.Startup.{
  status_event, read_status, verify_and_emit, verify_agents, verify_workspace, verify_workspaces,
  conclude, judge, enforce_audit_chain_floor_at_startup,
}

-- The rows of every agent have ascending times and are linked: what the trigger keeps.
abbrev pub IsSound : Env → World → Type 0
IsSound env w = (a : ℕ) → IsChained env.hashing a w.events

-- Some statement fails.
abbrev pub Down : Env → Type 0
Down env = (n : ℕ) × (env.fault n ≡ true)

module _ (env : Env) where
  -- An append to a sound log goes through unless the connection fails, and keeps it sound.
  Triple-append-IsSound :
      (agent_id : ℕ) (event_type source : String) (wake_id : Option ℕ)
      (tool_name tool_input tool_output content termination_reason : Option String)
      → Triple
          (IsSound env)
          (append_event env agent_id event_type source wake_id tool_name tool_input tool_output
            content termination_reason)
          (λ row. IsSound env)
          (λ w. Down env × IsSound env w)
  unfolding append_event inserted
  Triple-append-IsSound agent_id event_type source wake_id tool_name tool_input tool_output content
        termination_reason =
      Triple-statement_fault env.fault _ (λ w s down. ((w.tick, down), s))
        λ w s.
          let (row, later, done, _, all) =
            verify-insert_event env.hashing
              (record {
                agent_id = agent_id;
                event_type = event_type;
                source = source;
                wake_id = wake_id;
                tool_name = tool_name;
                tool_input = tool_input;
                tool_output = tool_output;
                content = content;
                termination_reason = termination_reason;
              })
              (env.uuid w.tick) (env.now w.tick) w.events s in
          rw done all

  -- The walk over a sound log verifies it.
  verify-IsSound :
      (w : World) (a : ℕ)
      → IsSound env w
      → is_broken (verify_audit_chain env.hashing w.events a) ≡ false
  unfolding is_broken
  verify-IsSound w a s = ap is_broken (
      (verify_audit_chain_iff env.hashing a w.events).1 (
        subst (Linked env.hashing a []) (sym (rows_of-IsChained env.hashing a w.events (s a)))
          (s a).links))

-- A fact that the world does not change.
Triple-given :
    {A F : Type 0} {P : World → Type 0} {m : M A} {Q : A → World → Type 0} {E : World → Type 0}
    → (F → Triple P m Q E)
    → Triple (λ w. F × P w) m Q E
Triple-given t = record { at = λ w p. (t p.0).at w p.1 }

module _ (env : Env) (hash_text : List ℕ → String) (workspace_ids : World → List ℕ)
    (agent_ids : World → ℕ → List ℕ) where
  abbrev Lost : World → Type 0
  Lost w = Down env × IsSound env w

  Triple-read_status :
      (agent_id : ℕ)
      → Triple
          (IsSound env)
          (read_status env hash_text workspace_ids agent_ids agent_id)
          (λ status w. (is_broken status ≡ false) × IsSound env w)
          Lost
  unfolding read_status
  Triple-read_status agent_id =
      Triple-statement_fault env.fault _ (λ w s down. ((w.tick, down), s))
        λ w s. (verify-IsSound env w agent_id s, s)

  Triple-status_event :
      (agent_id : ℕ) (status : ChainStatus)
      → Triple
          (IsSound env)
          (status_event env hash_text workspace_ids agent_ids agent_id status)
          (λ row. IsSound env)
          Lost
  unfolding status_event
  Triple-status_event agent_id (verified n last) = Triple-append-IsSound env _ _ _ _ _ _ _ _ _
  Triple-status_event agent_id (broken id e a n) = Triple-append-IsSound env _ _ _ _ _ _ _ _ _

  Triple-verify_and_emit :
      (agent_id : ℕ)
      → Triple
          (IsSound env)
          (verify_and_emit env hash_text workspace_ids agent_ids agent_id)
          (λ status w. (is_broken status ≡ false) × IsSound env w)
          Lost
  unfolding verify_and_emit
  Triple-verify_and_emit agent_id = Triple-bind (Triple-read_status agent_id) λ status.
      Triple-given λ fine.
        Triple-bind (Triple-status_event agent_id status) λ row. Triple-pure status λ w s. (fine, s)

  Triple-verify_agents :
      (agents : List ℕ)
      → Triple
          (IsSound env)
          (verify_agents env hash_text workspace_ids agent_ids agents)
          (λ results w. (broken_of results ≡ []) × IsSound env w)
          Lost
  unfolding verify_agents
  Triple-verify_agents [] = Triple-pure [] λ w s. (refl, s)
  Triple-verify_agents (agent_id ∷ rest) = Triple-bind (Triple-verify_and_emit agent_id) λ status.
      Triple-given λ fine.
        Triple-bind (Triple-verify_agents rest)
          λ results. Triple-given λ none_broken. Triple-pure _ λ w s. (rw fine none_broken, s)

  Triple-verify_workspace :
      (workspace_id : ℕ)
      → Triple
          (IsSound env)
          (verify_workspace env hash_text workspace_ids agent_ids workspace_id)
          (λ results w. (broken_of results ≡ []) × IsSound env w)
          Lost
  unfolding verify_workspace
  Triple-verify_workspace workspace_id =
      Triple-bind {Q = λ agents. IsSound env}
        (Triple-statement_fault env.fault _ (λ w s down. ((w.tick, down), s)) λ w s. s)
        λ agents. Triple-verify_agents agents

  Triple-verify_workspaces :
      (workspaces : List ℕ)
      → Triple
          (IsSound env)
          (verify_workspaces env hash_text workspace_ids agent_ids workspaces)
          (λ pw w. (broken_of (all_results pw) ≡ []) × IsSound env w)
          Lost
  unfolding verify_workspaces
  Triple-verify_workspaces [] = Triple-pure [] λ w s. (refl, s)
  Triple-verify_workspaces (ws ∷ rest) = Triple-bind (Triple-verify_workspace ws) λ results.
      Triple-given λ fine. Triple-bind (Triple-verify_workspaces rest) λ pw.
        Triple-given λ none_broken.
          Triple-pure _
            λ w s. (broken_of-append results (all_results pw) ∙ (λ i. fine i ++ none_broken i), s)

  -- What the gate comes to: on, or refused because a statement failed.
  abbrev Decided : Gate → World → Type 0
  Decided gate w = IsSound env w × ((gate ≡ continues) ⊎ ((gate ≡ exits 5) × Down env))

  judge-IsSound :
      (relaxed allow_unsafe : Bool) (pw : List (ℕ × List AgentChainResult))
      → broken_of (all_results pw) ≡ []
      → Triple
          (IsSound env)
          (judge env hash_text workspace_ids agent_ids relaxed allow_unsafe (some pw))
          Decided
          (λ w. ⊥)
  unfolding judge conclude
  judge-IsSound relaxed allow_unsafe pw fine =
      rw (evaluate_startup_gate-eq pw relaxed allow_unsafe, fine)
        (Triple-pure continues λ w s. (s, inl refl))

  -- From a log in which the rows of every agent have ascending times and are linked, the start
  -- with any overrides never ends in an error: the server goes on, or a statement has failed and
  -- it exits with 5. The verdicts that it appends leave the log sound.
  pub enforce_audit_chain_floor-IsSound :
      (relaxed allow_unsafe : Bool)
      → Triple
          (IsSound env)
          (enforce_audit_chain_floor_at_startup env hash_text workspace_ids agent_ids relaxed
            allow_unsafe)
          (λ gate w. IsSound env w × ((gate ≡ continues) ⊎ ((gate ≡ exits 5) × Down env)))
          (λ w. ⊥)
  unfolding enforce_audit_chain_floor_at_startup judge
  enforce_audit_chain_floor-IsSound relaxed allow_unsafe =
      Triple-bind
        {Q = λ o w. elim o [
          | none ↦ Lost w
          | some pw ↦ (broken_of (all_results pw) ≡ []) × IsSound env w
        ]}
        (Triple-attempt (
          Triple-bind {Q = λ workspaces. IsSound env}
            (Triple-statement_fault env.fault _ (λ w s down. ((w.tick, down), s)) λ w s. s)
            λ workspaces. Triple-verify_workspaces workspaces))
        λ o. decided o
    where
      decided :
          (o : Option (List (ℕ × List AgentChainResult)))
          → Triple
              (λ w. elim o [
                | none ↦ Lost w
                | some pw ↦ (broken_of (all_results pw) ≡ []) × IsSound env w
              ])
              (judge env hash_text workspace_ids agent_ids relaxed allow_unsafe o)
              Decided
              (λ w. ⊥)
      decided none = Triple-pure _ λ w lost. (lost.1, inr (refl, lost.0))
      decided (some pw) = Triple-given λ fine. judge-IsSound relaxed allow_unsafe pw fine
