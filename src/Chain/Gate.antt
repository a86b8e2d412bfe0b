-- ===== src/Chain/Gate.antt =====
-- `evaluate_startup_gate` and `enforce_audit_chain_floor_at_startup` of
-- src/background/audit_chain.rs.
use mathlib.Core.List.{append-nil, append_assoc}
use native.Mathlib.Nat.{add-zero}
use open_pincery.Prelude.{
  ℕ, suc, ◌+◌, ◌≡◌, refl, sym, Bool, true, false, ◌&&◌, List, [], ◌∷◌, ◌++◌, arith, length,
  if◌then◌else◌, Bool-cases, inl, inr, length-append,
}
use open_pincery.Chain.{ChainStatus, verified, broken}

pub record AgentChainResult : Type 0 where
  pub agent_id : ℕ
  pub status : ChainStatus

pub data StartupGateDecision : Type 0 where
  -- workspaces_walked, agents_walked
  all_verified : ℕ → ℕ → StartupGateDecision
  acknowledged_unsafe : List ℕ → StartupGateDecision
  refuse : List ℕ → StartupGateDecision

unfoldable pub is_broken : ChainStatus → Bool
is_broken (verified _ _) = false
is_broken (broken _ _ _ _) = true

-- The inner loop, over `agents_walked` and `broken`.
unfoldable pub scan_agents : List AgentChainResult → ℕ → List ℕ → ℕ × List ℕ
unfolding is_broken
scan_agents [] walked bad = (walked, bad)
scan_agents (r ∷ rest) walked bad =
    scan_agents rest (walked + 1) (if is_broken r.status then bad ++ r.agent_id ∷ [] else bad)

-- The outer loop, over `workspaces_walked` as well.
unfoldable pub scan_workspaces : List (ℕ × List AgentChainResult) → ℕ → ℕ → List ℕ → ℕ × ℕ × List ℕ
unfolding scan_agents
scan_workspaces [] ws walked bad = (ws, walked, bad)
scan_workspaces ((_, agents) ∷ rest) ws walked bad =
    let (walked', bad') = scan_agents agents walked bad in
    scan_workspaces rest (ws + 1) walked' bad'

decide_gate : ℕ × ℕ × List ℕ → Bool → Bool → StartupGateDecision
decide_gate (ws, agents, []) relaxed allow_unsafe = all_verified ws agents
decide_gate (ws, agents, b ∷ bs) relaxed allow_unsafe =
    if relaxed && allow_unsafe then acknowledged_unsafe (b ∷ bs) else refuse (b ∷ bs)

unfoldable pub evaluate_startup_gate :
    List (ℕ × List AgentChainResult) → Bool → Bool → StartupGateDecision
unfolding scan_workspaces decide_gate
evaluate_startup_gate per_workspace relaxed allow_unsafe =
    decide_gate (scan_workspaces per_workspace 0 0 []) relaxed allow_unsafe

-- The agents whose chain is broken, in the order of the walk.
abbrev pub broken_of : List AgentChainResult → List ℕ
broken_of [] = []
broken_of (r ∷ rest) = if is_broken r.status then r.agent_id ∷ broken_of rest else broken_of rest

abbrev pub all_results : List (ℕ × List AgentChainResult) → List AgentChainResult
all_results [] = []
all_results (w ∷ rest) = w.1 ++ all_results rest

-- What the operator is told, from the list of broken agents.
abbrev pub gate_of : List ℕ → ℕ → ℕ → Bool → Bool → StartupGateDecision
gate_of [] ws agents relaxed allow_unsafe = all_verified ws agents
gate_of (b ∷ bs) ws agents relaxed allow_unsafe =
    if relaxed && allow_unsafe then acknowledged_unsafe (b ∷ bs) else refuse (b ∷ bs)

scan_agents-eq :
    (rs : List AgentChainResult) (walked : ℕ) (bad : List ℕ)
    → scan_agents rs walked bad ≡ (walked + length rs, bad ++ broken_of rs)
unfolding scan_agents
scan_agents-eq [] walked bad = λ i. (sym (add-zero walked) i, sym (append-nil bad) i)
scan_agents-eq (r ∷ rs) walked bad = elim (Bool-cases (is_broken r.status)) [
  | inl b ↦
      rw (b, scan_agents-eq rs (walked + 1) (bad ++ r.agent_id ∷ []))
        (λ i. (
          let e : walked + 1 + length rs ≡ walked + suc (length rs) = omega arith in e i,
          append_assoc bad (r.agent_id ∷ []) (broken_of rs) i,
        ))
  | inr g ↦
      rw (g, scan_agents-eq rs (walked + 1) bad)
        (λ i. (
          let e : walked + 1 + length rs ≡ walked + suc (length rs) = omega arith in e i,
          bad ++ broken_of rs,
        ))
]

pub broken_of-append :
    (rs ss : List AgentChainResult) → broken_of (rs ++ ss) ≡ broken_of rs ++ broken_of ss
broken_of-append [] ss = refl
broken_of-append (r ∷ rs) ss = ground (arith, broken_of-append rs ss)

scan_workspaces-eq :
    (pw : List (ℕ × List AgentChainResult)) (ws walked : ℕ) (bad : List ℕ)
    → scan_workspaces pw ws walked bad
      ≡ (ws + length pw, walked + length (all_results pw), bad ++ broken_of (all_results pw))
unfolding scan_workspaces
scan_workspaces-eq [] ws walked bad =
    λ i. (sym (add-zero ws) i, sym (add-zero walked) i, sym (append-nil bad) i)
scan_workspaces-eq ((w, agents) ∷ pw) ws walked bad =
    rw
      (
        scan_agents-eq agents walked bad,
        scan_workspaces-eq pw (ws + 1) (walked + length agents) (bad ++ broken_of agents),
      )
      (ground (
        arith,
        broken_of-append agents (all_results pw),
        append_assoc bad (broken_of agents) (broken_of (all_results pw)),
        length-append agents (all_results pw),
      ))

-- The startup gate lets the process boot silently exactly when no chain is broken, reports every
-- broken agent in the order of the walk, and needs both overrides to boot with one.
pub evaluate_startup_gate-eq :
    (pw : List (ℕ × List AgentChainResult)) (relaxed allow_unsafe : Bool)
    → evaluate_startup_gate pw relaxed allow_unsafe
      ≡ gate_of
          (broken_of (all_results pw))
          (length pw)
          (length (all_results pw))
          relaxed
          allow_unsafe
unfolding evaluate_startup_gate decide_gate
evaluate_startup_gate-eq pw relaxed allow_unsafe =
    rw (scan_workspaces-eq pw 0 0 [])
      (decided (broken_of (all_results pw)) (omega arith) (omega arith))
  where
    decided :
        (bs : List ℕ) {m n m' n' : ℕ}
        → m ≡ m'
        → n ≡ n'
        → decide_gate (m, n, bs) relaxed allow_unsafe ≡ gate_of bs m' n' relaxed allow_unsafe
    decided [] p q = cc
    decided (b ∷ bs) p q = refl
