-- ===== src/Nonce/Once.antt =====
-- A nonce is accepted once at most, in every sequence of calls.
use open_pincery.Prelude.{
  ℕ, ◌+◌, ◌≤◌, ◌≡◌, refl, String, Bool, true, false, ◌&&◌, none, some, List, [], ◌∷◌, arith,
  Bool-cases, inl, inr, Option-cases, ◌==◌, ==→≡, ==_refl, if◌then◌else◌,
}
use open_pincery.Db.{World, NonceRow, Result, ok, ◌>>=◌, statement, ask, pure}
use open_pincery.Env.{Env}
use open_pincery.Nonce.{redeems, consume, Consumed, accepted, mint, set_nonce}
use open_pincery.Nonce.Consume.{consume-cases, redeems-Redeemable, and-left, and-right}

-- A call of the module by any wake of any workspace.
pub data Call : Type 0 where
  -- wake, workspace, tool, arguments
  minting : ℕ → ℕ → String → String → Call
  -- nonce, wake, workspace, tool, shape
  consuming : ℕ → ℕ → ℕ → String → String → Call

-- Whether a call was let through, as the dispatcher tests it.
unfoldable pub is_accepted : Result Consumed → Bool
is_accepted (ok accepted) = true
is_accepted r = false

module _ (env : Env) (ws nonce : ℕ) where
  -- How often the calls, one after the other, let the nonce through in its workspace.
  unfoldable pub acceptances : List Call → World → ℕ
  unfolding is_accepted
  acceptances [] w = 0
  acceptances (minting wake_id workspace_id tool_name args_json ∷ calls) w =
      acceptances calls (mint env wake_id workspace_id tool_name args_json w).1
  acceptances (consuming n wake_id workspace_id tool_name shape ∷ calls) w =
      let r = consume env n wake_id workspace_id tool_name shape w in
      let rest = acceptances calls r.1 in
      if (workspace_id == ws) && ((n == nonce) && is_accepted r.0) then rest + 1 else rest

  -- The nonce's row is there and consumed.
  pub Spent : World → Type 0
  Spent w = (row : NonceRow) × (t : ℕ) × (w.nonces ws nonce ≡ some row) × (row.consumed_at ≡ some t)

  -- A mint changes no table, or inserts a row where there is none.
  mint-cases :
      (Q : World → Type 0) (wake_id workspace_id : ℕ) (tool_name args_json : String) (w : World)
      → ((n : ℕ) → Q (record w { tick = n }))
      → ((n key : ℕ) (row : NonceRow)
          → w.nonces workspace_id key ≡ none
          → Q (record (set_nonce workspace_id key row w) { tick = n }))
      → Q (mint env wake_id workspace_id tool_name args_json w).1
  unfolding mint ask ◌>>=◌ statement pure
  mint-cases Q wake_id workspace_id tool_name args_json w same fresh =
      elim (Bool-cases (env.fault (w.tick + 1))) [
        | inl down ↦ rw (down, statement) (same _)
        | inr up ↦ elim (Option-cases (w.nonces workspace_id (env.random16 w.tick))) [
          | inl absent ↦ rw (up, absent, statement) (fresh _ _ _ absent)
          | inr (row, there) ↦ rw (up, there, statement) (same _)
        ]
      ]

  set_nonce-other :
      (u key : ℕ) (row new : NonceRow) (w : World)
      → w.nonces ws nonce ≡ some row
      → w.nonces u key ≡ none
      → (set_nonce u key new w).nonces ws nonce ≡ some row
  set_nonce-other u key row new w there absent = elim (Bool-cases (ws == u)) [
    | inl e ↦ elim (Bool-cases (nonce == key)) [
      | inl e' ↦ ground (arith, there, absent, ==→≡ ws u e, ==→≡ nonce key e')
      | inr e' ↦ rw (e, e') there
    ]
    | inr e ↦ rw e there
  ]

  mint-Spent :
      (wake_id workspace_id : ℕ) (tool_name args_json : String) (w : World)
      → Spent w
      → Spent (mint env wake_id workspace_id tool_name args_json w).1
  unfolding Spent
  mint-Spent wake_id workspace_id tool_name args_json w (row, t, there, done) =
      mint-cases Spent wake_id workspace_id tool_name args_json w (λ n. (row, t, there, done))
        (λ n key new absent.
          (row, t, set_nonce-other workspace_id key row new w there absent, done))

  redeems-unspent :
      (wake_id : ℕ) (tool_name shape : String) (now t : ℕ) (row : NonceRow)
      → row.consumed_at ≡ some t
      → redeems wake_id tool_name shape now row ≡ true
      → ⊥
  redeems-unspent wake_id tool_name shape now t row done fits =
      ground (arith, (redeems-Redeemable wake_id tool_name shape now row fits).unconsumed, done)

  consume-Spent :
      (n wake_id workspace_id : ℕ) (tool_name shape : String) (w : World)
      → Spent w
      → Spent (consume env n wake_id workspace_id tool_name shape w).1
  unfolding Spent
  consume-Spent n wake_id workspace_id tool_name shape w (row, t, there, done) =
      consume-cases env n wake_id workspace_id tool_name shape (λ r. Spent r.1) w
        (λ reason tick u. (row, t, there, done))
        (λ other up found fits. elim (Bool-cases (ws == workspace_id)) [
          | inl e ↦ elim (Bool-cases (nonce == n)) [
            | inl e' ↦ rw (e, e') (_, _, refl, refl)
            | inr e' ↦ rw (e, e') (row, t, there, done)
          ]
          | inr e ↦ rw e (row, t, there, done)
        ])

  -- An accepted call spends the nonce, which was not spent before.
  consume-hit :
      (n wake_id workspace_id : ℕ) (tool_name shape : String) (w : World)
      → ((workspace_id == ws)
          && ((n == nonce) && is_accepted (consume env n wake_id workspace_id tool_name shape w).0))
        ≡ true
      → Spent (consume env n wake_id workspace_id tool_name shape w).1 × (¬ Spent w)
  unfolding Spent is_accepted
  consume-hit n wake_id workspace_id tool_name shape w =
      consume-cases env n wake_id workspace_id tool_name shape
        (λ r.
          ((workspace_id == ws) && ((n == nonce) && is_accepted r.0)) ≡ true
          → Spent r.1 × (¬ Spent w))
        w (λ reason tick u h. ground arith)
        (λ row up found fits h.
          let e = ==→≡ workspace_id ws (and-left _ _ h) in
          let e' = ==→≡ n nonce (and-left _ _ (and-right _ _ h)) in
          (
            (
              record row { consumed_at = some (env.now w.tick) },
              env.now w.tick,
              ground (arith, e, e', ==_refl ws, ==_refl nonce),
              refl,
            ),
            (λ (old, t, there, done).
                redeems-unspent wake_id tool_name shape (env.now w.tick) t old done
                  (ground (arith, there, found, fits, e, e'))),
          ))

  Spent-none : (calls : List Call) (w : World) → Spent w → acceptances calls w ≡ 0
  unfolding acceptances
  Spent-none [] w s = refl
  Spent-none (minting wake_id workspace_id tool_name args_json ∷ calls) w s =
      Spent-none calls _ (mint-Spent wake_id workspace_id tool_name args_json w s)
  Spent-none (consuming n wake_id workspace_id tool_name shape ∷ calls) w s =
      elim (Bool-cases (
        (workspace_id == ws)
        && ((n == nonce)
            && is_accepted (consume env n wake_id workspace_id tool_name shape w).0))) [
              | inl e ↦ absurd ((consume-hit n wake_id workspace_id tool_name shape w e).1 s)
              | inr e ↦
                  rw e
                    (Spent-none calls _ (consume-Spent n wake_id workspace_id tool_name shape w s))
            ]

  -- In every sequence of mints and consumptions, by any wakes and in any workspaces, a nonce is
  -- accepted once at most in its workspace.
  pub acceptances-le : (calls : List Call) (w : World) → acceptances calls w ≤ 1
  unfolding acceptances
  acceptances-le [] w = omega arith
  acceptances-le (minting wake_id workspace_id tool_name args_json ∷ calls) w =
      acceptances-le calls _
  acceptances-le (consuming n wake_id workspace_id tool_name shape ∷ calls) w =
      elim (Bool-cases (
        (workspace_id == ws)
        && ((n == nonce)
            && is_accepted (consume env n wake_id workspace_id tool_name shape w).0))) [
              | inl e ↦ rw e (
                  omega (
                    arith,
                    Spent-none calls _ (consume-hit n wake_id workspace_id tool_name shape w e).0,
                  ))
              | inr e ↦ rw e (acceptances-le calls _)
            ]
