-- ===== src/Db.antt =====
-- The database as the runtime sees it through `sqlx`, and the actions that run against it.
-- A statement is atomic. It fails where the connection does, and then changes nothing; what
-- the server supplies (its clock, fresh UUIDs) is asked of the environment at each statement.
pub mod Triple
use open_pincery.Prelude.{
  ℕ, ◌+◌, ◌≡◌, refl, String, Bool, true, false, Option, none, some, List, [], ◌∷◌, ◌++◌,
  if◌then◌else◌, ◌==◌,
}
use open_pincery.Chain.{Hashing, Event}
use open_pincery.Json.{Json}

-- src/error.rs
pub data AppError : Type 0 where
  database : AppError
  not_found conflict unauthorized forbidden bad_request internal : String → AppError

-- src/models/agent.rs, `Agent`. Money is a number of the smallest decimal unit in use.
pub record Agent : Type 0 where
  pub id : ℕ
  pub name : String
  pub workspace_id : ℕ
  pub owner_id : ℕ
  pub status : String
  pub wake_id : Option ℕ
  pub wake_started_at : Option ℕ
  pub wake_iteration_count : ℕ
  pub permission_mode : String
  pub is_enabled : Bool
  pub disabled_reason : Option String
  pub disabled_at : Option ℕ
  pub budget_limit_usd : ℕ
  pub budget_used_usd : ℕ
  pub webhook_secret : String
  pub created_at : ℕ

-- A row of `capability_nonces`, without its key `(workspace_id, nonce)`. Times in microseconds.
pub record NonceRow : Type 0 where
  pub wake_id : ℕ
  pub tool_name : String
  pub capability_shape : String
  pub expires_at : ℕ
  pub consumed_at : Option ℕ

-- src/models/credential.rs, `Credential`, without its key columns.
pub record Credential : Type 0 where
  pub name : String
  pub ciphertext : List ℕ
  pub nonce : List ℕ
  pub created_by : ℕ
  pub created_at : ℕ
  pub revoked_at : Option ℕ

-- src/runtime/sandbox/mod.rs, `ShellCommand`.
pub record ShellCommand : Type 0 where
  pub command : String
  pub env : List (String × String)

-- src/models/projection.rs, `AgentProjection` and `WakeSummary`, without their key columns.
pub record AgentProjection : Type 0 where
  pub identity : String
  pub work_list : String
  pub version : ℕ
  pub wake_id : Option ℕ

pub record WakeSummary : Type 0 where
  pub wake_id : ℕ
  pub summary : String

-- A row of `auth_audit` of the credential vault.
pub record AuthAudit : Type 0 where
  pub workspace_id : ℕ
  pub actor_user_id : ℕ
  pub event_type : String
  pub credential_name : String

-- The tables, by their keys; `runs` lists the commands that the executor was handed, and `tick`
-- counts what has been asked of the environment.
pub record World : Type 0 where
  pub agents : ℕ → Option Agent
  pub events : List Event
  pub nonces : ℕ → ℕ → Option NonceRow
  -- Of a workspace, in the order of the names.
  pub credentials : ℕ → List Credential
  -- Of a workspace's default provider: base URL and credential name.
  pub providers : ℕ → Option (String × String)
  -- Of an agent, the newest first.
  pub projections : ℕ → List AgentProjection
  pub summaries : ℕ → List WakeSummary
  pub templates : String → Option String
  pub audits : List AuthAudit
  pub spent_calls : ℕ
  pub runs : List ShellCommand
  pub tick : ℕ

pub data Result {ℓ} (A : Type ℓ) : Type ℓ where
  ok : A → Result A
  err : AppError → Result A

abbrev pub M : Type 0 → Type 0
M A = World → Result A × World

module _ {A B : Type 0} where
  abbrev pub continue : Result A → (A → M B) → M B
  continue (ok a) f w = f a w
  continue (err e) f w = (err e, w)

  infixl 5 ◌>>=◌ ◌>>◌
  unfoldable pub ◌>>=◌ : M A → (A → M B) → M B
  ◌>>=◌ m f w = let (r, w') = m w in continue r f w'

  abbrev pub ◌>>◌ : M A → M B → M B
  m >> k = m >>= λ _. k

module _ {A : Type 0} where
  unfoldable pub pure : A → M A
  pure a w = (ok a, w)

  unfoldable pub raise : AppError → M A
  raise e w = (err e, w)

  -- `.ok_or_else(…)?` on the row that a statement returns.
  unfoldable pub or_raise : Option A → AppError → M A
  or_raise none e w = (err e, w)
  or_raise (some a) e w = (ok a, w)

  -- A result that is looked at instead of passed on by `?`: `none` is an error.
  abbrev pub caught : Result A → World → Result (Option A) × World
  caught (ok a) w = (ok (some a), w)
  caught (err e) w = (ok none, w)

  unfoldable pub attempt : M A → M (Option A)
  attempt m w = let (r, w') = m w in caught r w'

-- What the server answers to a statement: an error, or a value and the changed tables.
pub data Answer (A : Type 0) : Type 0 where
  fails : Answer A
  gives : A → World → Answer A

module _ {A : Type 0} where
  abbrev pub answered : Answer A → World → Result A × World
  answered fails w = (err database, record w { tick = w.tick + 1 })
  answered (gives a w') w = (ok a, record w' { tick = w.tick + 1 })

  -- A reading of something outside the database.
  unfoldable pub ask : (ℕ → A) → M A
  ask f w = (ok (f w.tick), record w { tick = w.tick + 1 })

  -- One statement, at the server's tick: `fault n` is a failure of the connection.
  unfoldable pub statement : (ℕ → Bool) → (ℕ → World → Answer A) → M A
  statement fault run w =
      if fault w.tick
      then (err database, record w { tick = w.tick + 1 })
      else answered (run w.tick w) w
