-- ===== src/Config/Modes.antt =====
-- What a configuration that is accepted can hold.
use open_pincery.Prelude.{
  ℕ, ◌≤◌, ◌≡◌, subst, String, Bool, true, Option, none, some, arith, max_u16, max_u32,
  parse_unsigned,
}
use open_pincery.Config.{
  SandboxMode, disabled, ResolvedSandboxMode, Checked, valid, bad, guarded, parsed_mode, says,
  resolve, Config, ◌>>=◌, >>=-valid, numeric, unsigned_setting, cap_setting, shown_mode, from_env,
  SandboxModeError, env_or,
}

parse_unsigned-le : (max : ℕ) (s : String) {n : ℕ} → parse_unsigned max s ≡ some n → n ≤ max
unfolding parse_unsigned
parse_unsigned-le max String.[] h = absurd (cc)
parse_unsigned-le max (String.◌∷◌ c s) h = ground arith

resolve-guards :
    (mode unsafe : Option String) {r : ResolvedSandboxMode}
    → resolve mode unsafe ≡ valid r
    → r.mode ≡ disabled
    → r.allow_unsafe ≡ true
unfolding resolve
resolve-guards mode unsafe h d = split (parsed_mode mode) (says "true" unsafe) h d
  where
    split :
        (m : Checked SandboxModeError SandboxMode) (b : Bool) {r : ResolvedSandboxMode}
        → guarded m b ≡ valid r
        → r.mode ≡ disabled
        → r.allow_unsafe ≡ true
    split (bad e) b h d = absurd (cc)
    split (valid m) b h d = ground arith

module _ (var : String → Option String) (number_error debug : String → String) where
  numeric-valid :
      {A : Type 0} (shown raw : String) (o : Option A) {a : A}
      → numeric var number_error debug shown raw o ≡ valid a
      → o ≡ some a
  numeric-valid shown raw none h = absurd (cc)
  numeric-valid shown raw (some a) h = ground arith

  unsigned_setting-le :
      (max : ℕ) (key default : String) {n : ℕ}
      → unsigned_setting var number_error debug max key default ≡ valid n
      → n ≤ max
  unfolding unsigned_setting
  unsigned_setting-le max key default h =
      let raw = env_or var number_error debug key default in
      parse_unsigned-le max raw (numeric-valid key raw (parse_unsigned max raw) h)

  cap_setting-pos :
      (key default message : String) {n : ℕ}
      → cap_setting var number_error debug key default message ≡ valid n
      → (1 ≤ n) × (n ≤ max_u32)
  unfolding cap_setting
  cap_setting-pos key default message h =
      let raw = env_or var number_error debug key default in
      let (v, read, kept) =
        >>=-valid (numeric var number_error debug _ raw (parse_unsigned max_u32 raw)) _ h in
      let le = parse_unsigned-le max_u32 raw (numeric-valid _ raw _ read) in ground arith

  shown_mode-valid :
      (m : Checked SandboxModeError ResolvedSandboxMode) {r : ResolvedSandboxMode}
      → shown_mode var number_error debug m ≡ valid r
      → m ≡ valid r
  unfolding shown_mode
  shown_mode-valid (valid m) h = ground arith
  shown_mode-valid (bad e) h = absurd (cc)

-- A property of what a check lets through, with one rule for a chain of checks.
record Ensures {A : Type 0} (P : A → Type 0) (r : Checked String A) : Type 0 where
  at : (a : A) → r ≡ valid a → P a

module _ {A B : Type 0} where
  Ensures-bind :
      {Q : A → Type 0} {P : B → Type 0} {m : Checked String A} {f : A → Checked String B}
      → Ensures Q m
      → ((a : A) → Q a → Ensures P (f a))
      → Ensures P (m >>= f)
  Ensures-bind {m = m} {f = f} q p = record {
    at = λ b h. let (a, from, next) = >>=-valid m f h in (p a (q.at a from)).at b next;
  }

  -- Nothing is known of what comes first.
  Ensures-skip :
      {P : B → Type 0} (m : Checked String A) {f : A → Checked String B}
      → ((a : A) → Ensures P (f a))
      → Ensures P (m >>= f)
  Ensures-skip m {f = f} p = record {
    at = λ b h. let (a, from, next) = >>=-valid m f h in (p a).at b next;
  }

module _ {A : Type 0} where
  Ensures-valid : {P : A → Type 0} {a : A} → P a → Ensures P (valid a)
  Ensures-valid {P} {a} h = record { at = λ b e. subst P (inj e) h }
    where
      inj : {b : A} → Path (Checked String A) (valid a) (valid b) → a ≡ b
      inj e = cc

-- What holds of every configuration that the server starts with.
pub record IsSafe (c : Config) : Type 0 where
  pub port_in_range : c.port ≤ max_u16
  pub retries_bounded : (1 ≤ c.schema_invalid_retry_cap) × (c.schema_invalid_retry_cap ≤ max_u32)
  pub calls_bounded :
      (1 ≤ c.tool_call_rate_limit_per_wake) × (c.tool_call_rate_limit_per_wake ≤ max_u32)
  pub disabled_is_armed : c.sandbox.mode ≡ disabled → c.sandbox.allow_unsafe ≡ true

module _ (var : String → Option String) (number_error debug : String → String) where
  Ensures-IsSafe : Ensures IsSafe (from_env var number_error debug)
  unfolding from_env
  Ensures-IsSafe = Ensures-skip _ λ _.
      Ensures-bind
        (record {
          at = λ n h.
              unsigned_setting-le var number_error debug max_u16 "OPEN_PINCERY_PORT" "8080" h;
        })
        λ port port_le. Ensures-skip _ λ _. Ensures-skip _ λ _. Ensures-skip _ λ _.
          Ensures-skip _ λ _. Ensures-skip _ λ _.
            Ensures-bind (record { at = λ n h. cap_setting-pos var number_error debug _ _ _ h })
              λ retries r.
                Ensures-bind (record { at = λ n h. cap_setting-pos var number_error debug _ _ _ h })
                  λ calls c. Ensures-skip _ λ _. Ensures-skip _ λ _. Ensures-skip _ λ _.
                    Ensures-skip _ λ _.
                      Ensures-bind
                        {Q = λ (m : ResolvedSandboxMode). m.mode ≡ disabled → m.allow_unsafe ≡ true}
                        (record {
                          at = λ m h.
                              resolve-guards _ _ (shown_mode-valid var number_error debug _ h);
                        })
                        λ sandbox s. Ensures-valid (record {
                          port_in_range = port_le;
                          retries_bounded = r;
                          calls_bounded = c;
                          disabled_is_armed = s;
                        })

  -- Every environment that is accepted gives a port of 16 bits, a retry cap and a tool-call cap
  -- that are at least 1 and fit 32 bits, and a disabled sandbox only together with the unsafe
  -- opt-in.
  pub from_env-IsSafe : {c : Config} → from_env var number_error debug ≡ valid c → IsSafe c
  from_env-IsSafe {c} h = Ensures-IsSafe.at c h
