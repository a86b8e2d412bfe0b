-- ===== src/Nonce.antt =====
-- src/runtime/capability_nonce.rs: minting and consuming one-shot capability nonces.
pub mod Consume
pub mod Once
use open_pincery.Prelude.{
  ℕ, ◌+◌, ◌*◌, String, Bool, true, false, not, ◌&&◌, ◌||◌, Option, none, some, if◌then◌else◌, ◌==◌,
  ltb, leb, ◌==ˢ◌,
}
use open_pincery.Db.{
  NonceRow, World, M, Answer, fails, gives, statement, ask, attempt, pure, ◌>>=◌, ◌>>◌,
}
use open_pincery.Env.{Env}
use open_pincery.Shape.{capability_shape}

abbrev pub capability_nonce_ttl_secs : ℕ
capability_nonce_ttl_secs = 60

-- The 16 bytes are one number.
pub record CapabilityNonceTicket : Type 0 where
  pub nonce : ℕ
  pub capability_shape : String

pub data RejectionReason : Type 0 where
  replay cross_wake expired shape_mismatch unknown : RejectionReason

unfoldable pub as_str : RejectionReason → String
as_str replay = "replay"
as_str cross_wake = "cross_wake"
as_str expired = "expired"
as_str shape_mismatch = "shape_mismatch"
as_str unknown = "unknown"

-- `Result<(), RejectionReason>`
pub data Consumed : Type 0 where
  accepted : Consumed
  rejected : RejectionReason → Consumed

abbrev pub set_nonce : ℕ → ℕ → NonceRow → World → World
set_nonce ws nonce row w = record w {
  nonces = λ u n. if (u == ws) && (n == nonce) then some row else w.nonces u n;
}

-- The unique index on `(workspace_id, nonce)` refuses a second row.
abbrev pub insert_nonce : ℕ → ℕ → NonceRow → Option NonceRow → World → Answer (Unit {0})
insert_nonce ws nonce row none w = gives tt (set_nonce ws nonce row w)
insert_nonce ws nonce row (some old) w = fails

-- The `WHERE` clause of the consuming `UPDATE`, beside the key.
unfoldable pub redeems : ℕ → String → String → ℕ → NonceRow → Bool
redeems wake_id tool_name shape now row =
    (row.wake_id == wake_id)
    && ((row.tool_name ==ˢ tool_name)
        && ((row.capability_shape ==ˢ shape)
            && (elim row.consumed_at [ none ↦ true | some _ ↦ false ] && ltb now row.expires_at)))

abbrev pub consume_row : ℕ → ℕ → ℕ → String → String → ℕ → Option NonceRow → World → Answer Bool
consume_row ws nonce wake_id tool_name shape now none w = gives false w
consume_row ws nonce wake_id tool_name shape now (some row) w =
    if redeems wake_id tool_name shape now row
    then gives true (set_nonce ws nonce (record row { consumed_at = some now }) w)
    else gives false w

-- `classify_rejection`, on the row that its SELECT found.
unfoldable pub classify : ℕ → String → String → ℕ → Option NonceRow → RejectionReason
classify wake_id tool_name shape now none = unknown
classify wake_id tool_name shape now (some row) =
    if elim row.consumed_at [ none ↦ false | some _ ↦ true ]
    then replay
    else if leb row.expires_at now
    then expired
    else if not (row.wake_id == wake_id)
    then cross_wake
    else if not (row.tool_name ==ˢ tool_name) || not (row.capability_shape ==ˢ shape)
    then shape_mismatch
    else unknown

-- A failed SELECT counts as no row.
abbrev joined : Option (Option NonceRow) → Option NonceRow
joined none = none
joined (some row) = row

module _ (env : Env) where
  unfoldable pub mint : ℕ → ℕ → String → String → M CapabilityNonceTicket
  mint wake_id workspace_id tool_name args_json = do
    nonce ← ask env.random16
    let shape = capability_shape env args_json
    statement env.fault (λ n w.
        insert_nonce workspace_id nonce
          (record {
            wake_id = wake_id;
            tool_name = tool_name;
            capability_shape = shape;
            expires_at = env.now n + capability_nonce_ttl_secs * 1000000;
            consumed_at = none;
          })
          (w.nonces workspace_id nonce) w)
    pure (record { nonce = nonce; capability_shape = shape })

  unfoldable pub classify_rejection : ℕ → ℕ → ℕ → String → String → M RejectionReason
  classify_rejection nonce wake_id workspace_id tool_name shape = do
    row ← attempt (statement env.fault λ n w. gives (w.nonces workspace_id nonce) w)
    now ← ask env.now
    pure (classify wake_id tool_name shape now (joined row))

  -- The single atomic UPDATE; its error is the reason `unknown`.
  unfoldable pub try_consume : ℕ → ℕ → ℕ → String → String → M (Option Bool)
  try_consume nonce wake_id workspace_id tool_name shape = attempt (
      statement env.fault λ n w.
        consume_row workspace_id nonce wake_id tool_name shape (env.now n)
          (w.nonces workspace_id nonce) w)

  abbrev pub after_update : ℕ → ℕ → ℕ → String → String → Option Bool → M Consumed
  after_update nonce wake_id workspace_id tool_name shape none = pure (rejected unknown)
  after_update nonce wake_id workspace_id tool_name shape (some true) = pure accepted
  after_update nonce wake_id workspace_id tool_name shape (some false) = do
    reason ← classify_rejection nonce wake_id workspace_id tool_name shape
    pure (rejected reason)

  unfoldable pub consume : ℕ → ℕ → ℕ → String → String → M Consumed
  unfolding try_consume
  consume nonce wake_id workspace_id tool_name shape = do
    row ← try_consume nonce wake_id workspace_id tool_name shape
    after_update nonce wake_id workspace_id tool_name shape row
