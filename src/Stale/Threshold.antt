-- ===== src/Stale/Threshold.antt =====
-- When a wake is stale: its statuses, and the hours of the setting.
use open_pincery.Prelude.{
  ℕ, ◌-◌, ◌%◌, ◌^◌, ltb, ltb→lt, ℤ, pos, negsuc, ◌+◌, ◌*◌, ◌<◌, ◌≡◌, ◌⊎◌, String, ◌||◌, ==ˢ→≡, both,
  refl, inl, inr, Bool, true, false, Option, none, some, arith, Bool-cases,
}
use open_pincery.Db.{Agent}
use open_pincery.Env.{Env}
use open_pincery.Agents.{as_i32, is_older, is_stale, in_wake}

-- The statuses of a wake.
abbrev pub Live : String → Type 0
Live s =
    (s ≡ "wake_acquiring")
    ⊎ ((s ≡ "prompt_assembling")
        ⊎ ((s ≡ "awake")
            ⊎ ((s ≡ "tool_dispatching")
                ⊎ ((s ≡ "tool_executing")
                    ⊎ ((s ≡ "tool_result_processing")
                        ⊎ ((s ≡ "mid_wake_event_polling")
                            ⊎ ((s ≡ "wake_ending") ⊎ (s ≡ "maintenance"))))))))

-- More than so many hours before now; a negative number reaches ahead of it.
pub data Older (t now : ℕ) : ℤ → Type 0 where
  back : {h : ℕ} → t + h * 3600000000 < now → Older t now (pos h)
  ahead : {h : ℕ} → t < now + (h + 1) * 3600000000 → Older t now (negsuc h)

-- A number and the signed number of 32 bits that is left of it: they differ by a multiple of 2^32,
-- and negsuc n is -(n + 1).
pub data CutTo32 : ℤ → ℤ → Type 0 where
  kept_sign : {n m : ℕ} → n % 4294967296 ≡ m → m < 2147483648 → CutTo32 (pos n) (pos m)
  turned_negative :
      {n m : ℕ} → n % 4294967296 + m + 1 ≡ 4294967296 → m < 2147483648 → CutTo32 (pos n) (negsuc m)
  kept_negative : {n m : ℕ} → n % 4294967296 ≡ m → m < 2147483648 → CutTo32 (negsuc n) (negsuc m)
  turned_positive :
      {n m : ℕ} → n % 4294967296 + m + 1 ≡ 4294967296 → m < 2147483648 → CutTo32 (negsuc n) (pos m)

as_i32-CutTo32 : (x : ℤ) → CutTo32 x (as_i32 x)
as_i32-CutTo32 (pos n) = elim (Bool-cases (ltb (n % 2 ^ 32) (2 ^ 31))) [
  | inl small ↦ rw small (kept_sign refl (ltb→lt _ _ small))
  | inr large ↦ rw large (turned_negative (ground arith) (ground arith))
]
as_i32-CutTo32 (negsuc n) = elim (Bool-cases (ltb (2 ^ 32 - 1 - n % 2 ^ 32) (2 ^ 31))) [
  | inl small ↦ rw small (turned_positive (ground arith) (ground arith))
  | inr large ↦ rw large (kept_negative (ground arith) (ground arith))
]

-- In a wake that began before the threshold, whose hours are the setting cut to 32 bits.
pub record Stale (hours : ℤ) (now : ℕ) (a : Agent) : Type 0 where
  pub live : Live a.status
  pub began : ℕ
  pub begun : a.wake_started_at ≡ some began
  pub threshold : ℤ
  pub cut : CutTo32 hours threshold
  pub older : Older began now threshold

either : {P Q : Type 0} (x y : Bool) → (x ≡ true → P) → (y ≡ true → Q) → (x || y) ≡ true → P ⊎ Q
either true y p q h = inl (p refl)
either false y p q h = inr (q h)

in_wake-Live : (s : String) → in_wake s ≡ true → Live s
unfolding in_wake
in_wake-Live s = either _ _ (==ˢ→≡ s _) (
    either _ _ (==ˢ→≡ s _) (
      either _ _ (==ˢ→≡ s _) (
        either _ _ (==ˢ→≡ s _) (
          either _ _ (==ˢ→≡ s _) (
            either _ _ (==ˢ→≡ s _)
              (either _ _ (==ˢ→≡ s _) (either _ _ (==ˢ→≡ s _) (==ˢ→≡ s _))))))))

is_older-Older : (t now : ℕ) (h : ℤ) → is_older t now h ≡ true → Older t now h
is_older-Older t now (pos h) e = back (ground arith)
is_older-Older t now (negsuc h) e = ahead (ground arith)

module _ (env : Env) (hours : ℤ) (now : ℕ) (a : Agent) where
  pub is_stale-Stale : is_stale env now hours a ≡ true → Stale hours now a
  is_stale-Stale h =
      let (live, old) = both (in_wake a.status) _ h in begun_before live a.wake_started_at refl old
    where
      begun_before :
          in_wake a.status ≡ true
          → (o : Option ℕ) → a.wake_started_at ≡ o
          → elim o [ none ↦ false | some t ↦ is_older t now (as_i32 hours) ] ≡ true
          → Stale hours now a
      begun_before live none e old = absurd (cc)
      begun_before live (some t) e old = record {
        live = in_wake-Live a.status live;
        began = t;
        begun = e;
        threshold = as_i32 hours;
        cut = as_i32-CutTo32 hours;
        older = is_older-Older t now (as_i32 hours) old;
      }
