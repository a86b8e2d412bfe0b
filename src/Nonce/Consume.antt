-- ===== src/Nonce/Consume.antt =====
-- When a nonce is accepted, and that a minted nonce is.
use open_pincery.Prelude.{
  ℕ, ◌+◌, ◌*◌, ◌<◌, ◌≡◌, refl, ◌↔◌, ◌⊎◌, inl, inr, String, Bool, true, false, ◌&&◌, Option, none,
  some, arith, Bool-cases, Option-cases, ltb→lt, ==_refl, ==→≡, ==ˢ_refl, ==ˢ→≡,
}
use open_pincery.Db.{World, NonceRow, Result, ok, ◌>>=◌, statement, attempt, ask, pure}
use open_pincery.Db.Triple.{ticked}
use open_pincery.Env.{Env}
use open_pincery.Shape.{capability_shape}
use open_pincery.Nonce.{
  RejectionReason, unknown, set_nonce, redeems, consume, try_consume, classify_rejection, Consumed,
  accepted, rejected, mint, capability_nonce_ttl_secs,
}

-- What the row of a nonce must be for a call to be let through.
pub record Redeemable (wake_id : ℕ) (tool_name shape : String) (now : ℕ) (row : NonceRow)
    : Type 0 where
  pub same_wake : row.wake_id ≡ wake_id
  pub same_tool : row.tool_name ≡ tool_name
  pub same_shape : row.capability_shape ≡ shape
  pub unconsumed : row.consumed_at ≡ none
  pub unexpired : now < row.expires_at

pub and-left : (a b : Bool) → (a && b) ≡ true → a ≡ true
and-left a b h = ground arith

pub and-right : (a b : Bool) → (a && b) ≡ true → b ≡ true
and-right a b h = ground arith

none-case : (o : Option ℕ) → elim o [ none ↦ true | some _ ↦ false ] ≡ true → o ≡ none
none-case none h = refl
none-case (some n) h = ground arith

pub redeems-Redeemable :
    (wake_id : ℕ) (tool_name shape : String) (now : ℕ) (row : NonceRow)
    → redeems wake_id tool_name shape now row ≡ true
    → Redeemable wake_id tool_name shape now row
unfolding redeems
redeems-Redeemable wake_id tool_name shape now row h =
    let h1 = and-right _ _ h in
    let h2 = and-right _ _ h1 in
    let h3 = and-right _ _ h2 in
    record {
      same_wake = ==→≡ _ _ (and-left _ _ h);
      same_tool = ==ˢ→≡ _ _ (and-left _ _ h1);
      same_shape = ==ˢ→≡ _ _ (and-left _ _ h2);
      unconsumed = none-case row.consumed_at (and-left _ _ h3);
      unexpired = ltb→lt _ _ (and-right _ _ h3);
    }

pub Redeemable-redeems :
    (wake_id : ℕ) (tool_name shape : String) (now : ℕ) (row : NonceRow)
    → Redeemable wake_id tool_name shape now row
    → redeems wake_id tool_name shape now row ≡ true
unfolding redeems
Redeemable-redeems wake_id tool_name shape now row h =
    rw
      (
        h.same_wake,
        h.same_tool,
        h.same_shape,
        h.unconsumed,
        ==_refl wake_id,
        ==ˢ_refl tool_name,
        ==ˢ_refl shape,
      )
      (ground (arith, h.unexpired))

-- Why a call is not let through: the update failed, or no row matched it.
pub record Unmatched (fault : Bool) (wake_id : ℕ) (tool_name shape : String) (now : ℕ)
    (found : Option NonceRow) : Type 0 where
  pub why :
      (fault ≡ true)
      ⊎ ((row : NonceRow) → found ≡ some row → redeems wake_id tool_name shape now row ≡ false)

module _ (env : Env) (nonce wake_id workspace_id : ℕ) (tool_name shape : String) where
  classify_rejection-stays :
      (Q : Result Consumed × World → Type 0) (w : World)
      → ((reason : RejectionReason) (n : ℕ) → Q (ok (rejected reason), record w { tick = n }))
      → Q (
          (do
            reason ← classify_rejection env nonce wake_id workspace_id tool_name shape
            pure (rejected reason))
            w)
  unfolding classify_rejection ◌>>=◌ attempt statement ask pure
  classify_rejection-stays Q w h = elim (Bool-cases (env.fault w.tick)) [
    | inl e ↦ rw (e, statement) (h _ _)
    | inr e ↦ rw (e, statement) (h _ _)
  ]

  -- A consumption spends the row and accepts, or rejects and changes no table.
  pub consume-cases :
      (Q : Result Consumed × World → Type 0) (w : World)
      → ((reason : RejectionReason) (n : ℕ)
          → Unmatched
              (env.fault w.tick)
              wake_id
              tool_name
              shape
              (env.now w.tick)
              (w.nonces workspace_id nonce)
          → Q (ok (rejected reason), record w { tick = n }))
      → ((row : NonceRow)
          → env.fault w.tick ≡ false
          → w.nonces workspace_id nonce ≡ some row
          → redeems wake_id tool_name shape (env.now w.tick) row ≡ true
          → Q (
            ok accepted,
            ticked (
                set_nonce workspace_id nonce
                  (record row { consumed_at = some (env.now w.tick) })
                  w),
          ))
      → Q (consume env nonce wake_id workspace_id tool_name shape w)
  unfolding consume try_consume ◌>>=◌ attempt statement pure
  consume-cases Q w refuse accept = elim (Bool-cases (env.fault w.tick)) [
    | inl down ↦ rw (down, statement) (refuse unknown _ (record { why = inl down }))
    | inr up ↦ elim (Option-cases (w.nonces workspace_id nonce)) [
      | inl absent ↦
          rw (up, statement, absent)
            (classify_rejection-stays Q (ticked w)
              λ reason n. refuse reason n (record { why = inr λ row e. ground (arith, absent, e) }))
      | inr (row, there) ↦
          elim (Bool-cases (redeems wake_id tool_name shape (env.now w.tick) row)) [
            | inl fits ↦ rw (up, statement, there, fits) (accept row up there fits)
            | inr misfit ↦
                rw (up, statement, there, misfit)
                  (classify_rejection-stays Q (ticked w) λ reason n.
                    refuse reason n
                      (record { why = inr λ other e. ground (arith, there, e, misfit) }))
          ]
    ]
  ]

  -- A consumption at this world finds a row that it may spend.
  pub record Ready (w : World) : Type 0 where
    pub up : env.fault w.tick ≡ false
    pub row : NonceRow
    pub there : w.nonces workspace_id nonce ≡ some row
    pub redeemable : Redeemable wake_id tool_name shape (env.now w.tick) row

  Unmatched-Ready :
      {A : Type 0} (w : World)
      → Unmatched
          (env.fault w.tick)
          wake_id
          tool_name
          shape
          (env.now w.tick)
          (w.nonces workspace_id nonce)
      → Ready w
      → A
  Unmatched-Ready w u ready = elim u.why [
    | inl down ↦ ground (arith, down, ready.up)
    | inr misfit ↦
        ground (
          arith,
          misfit ready.row ready.there,
          Redeemable-redeems _ _ _ _ ready.row ready.redeemable,
        )
  ]

  -- A consumption is accepted exactly where its statement reaches the server and the workspace's row
  -- of the nonce has the wake, the tool and the argument shape of the call, is not consumed, and
  -- expires after the server's time.
  pub consume_iff :
      (w : World)
      → ((consume env nonce wake_id workspace_id tool_name shape w).0 ≡ ok accepted) ↔ Ready w
  consume_iff w =
      consume-cases (λ r. (r.0 ≡ ok accepted) ↔ Ready w) w
        (λ reason n u. ((λ e. ground (arith, e)), Unmatched-Ready w u))
        (λ row up there fits. (
          (λ e. record {
            up = up;
            row = row;
            there = there;
            redeemable = redeems-Redeemable _ _ _ _ row fits;
          }),
          (λ ready. refl),
        ))

module _ (env : Env) (wake_id workspace_id : ℕ) (tool_name args_json : String) (w : World) where
  -- The row that a mint at this world inserts.
  abbrev minted : NonceRow
  minted = record {
    wake_id = wake_id;
    tool_name = tool_name;
    capability_shape = capability_shape env args_json;
    expires_at = env.now (w.tick + 1) + capability_nonce_ttl_secs * 1000000;
    consumed_at = none;
  }

  mint-fresh :
      env.fault (w.tick + 1) ≡ false
      → w.nonces workspace_id (env.random16 w.tick) ≡ none
      → mint env wake_id workspace_id tool_name args_json w ≡ (
        ok (record {
          nonce = env.random16 w.tick;
          capability_shape = capability_shape env args_json;
        }),
        ticked (set_nonce workspace_id (env.random16 w.tick) minted (ticked w)),
      )
  unfolding mint ask ◌>>=◌ statement pure
  mint-fresh up fresh = rw (up, fresh, statement) refl

  -- A ticket that was minted is accepted for its wake, tool and shape, wherever both statements
  -- reach the server, the nonce is fresh in the workspace, and less than sixty seconds have passed.
  pub mint-consume :
      env.fault (w.tick + 1) ≡ false
      → env.fault (w.tick + 1 + 1) ≡ false
      → w.nonces workspace_id (env.random16 w.tick) ≡ none
      → env.now (w.tick + 1 + 1) < env.now (w.tick + 1) + 60 * 1000000
      → ((do
        ticket ← mint env wake_id workspace_id tool_name args_json
        consume env ticket.nonce wake_id workspace_id tool_name ticket.capability_shape)
          w).0
        ≡ ok accepted
  unfolding ◌>>=◌
  mint-consume up1 up2 fresh soon = rw (mint-fresh up1 fresh) (
      (consume_iff env _ wake_id workspace_id tool_name _ _).1 (record {
        up = up2;
        row = minted;
        there = ground (arith, ==_refl workspace_id, ==_refl (env.random16 w.tick));
        redeemable = record {
          same_wake = refl;
          same_tool = refl;
          same_shape = refl;
          unconsumed = refl;
          unexpired = soon;
        };
      }))
