-- ===== src/Db/Triple.antt =====
-- Before-and-after statements about actions, with one rule for each way to build an action.
use open_pincery.Prelude.{
  ℕ, ◌+◌, Bool-cases, inl, inr, ◌≡◌, refl, Bool, true, false, Option, none, some, if◌then◌else◌,
}
use open_pincery.Db.{
  World, Result, ok, err, M, continue, ◌>>=◌, pure, raise, or_raise, AppError, attempt, caught,
  Answer, answered, statement, ask,
}

-- What holds of a result and the world it leaves.
abbrev pub Post : {A : Type 0} → (A → World → Type 0) → (World → Type 0) → Result A × World → Type 0
Post Q E (ok a, w) = Q a w
Post Q E (err e, w) = E w

-- From a world with `P`, the action ends with `Q`, or breaks off with `E`.
pub record Triple {A : Type 0} (P : World → Type 0) (m : M A) (Q : A → World → Type 0)
    (E : World → Type 0) : Type 0 where
  pub at : (w : World) → P w → Post Q E (m w)

module _ {A : Type 0} {P : World → Type 0} {E : World → Type 0} where
  pub Triple-pure :
      {Q : A → World → Type 0} (a : A) → ((w : World) → P w → Q a w) → Triple P (pure a) Q E
  unfolding pure
  Triple-pure a h = record { at = h }

  pub Triple-raise :
      {Q : A → World → Type 0} (e : AppError) → ((w : World) → P w → E w) → Triple P (raise e) Q E
  unfolding raise
  Triple-raise e h = record { at = h }

  pub Triple-or_raise :
      {Q : A → World → Type 0} (o : Option A) (e : AppError)
      → ((w : World) → P w → o ≡ none → E w)
      → ((a : A) (w : World) → P w → o ≡ some a → Q a w)
      → Triple P (or_raise o e) Q E
  unfolding or_raise
  Triple-or_raise none e n s = record { at = λ w p. n w p refl }
  Triple-or_raise (some a) e n s = record { at = λ w p. s a w p refl }

  pub Triple-if :
      {Q : A → World → Type 0} (b : Bool) {m n : M A}
      → (b ≡ true → Triple P m Q E)
      → (b ≡ false → Triple P n Q E)
      → Triple P (if b then m else n) Q E
  Triple-if true tm tn = tm refl
  Triple-if false tm tn = tn refl

  pub Triple-weaken :
      {P' : World → Type 0} {Q Q' : A → World → Type 0} {m : M A}
      → Triple P m Q E
      → ((w : World) → P' w → P w)
      → ((a : A) (w : World) → Q a w → Q' a w)
      → Triple P' m Q' E
  Triple-weaken {Q = Q} {Q' = Q'} {m = m} t pre post = record {
    at = λ w p. weaken (m w) (t.at w (pre w p));
  }
    where
      weaken : (r : Result A × World) → Post Q E r → Post Q' E r
      weaken (ok a, w) h = post a w h
      weaken (err e, w) h = h

module _ {A B : Type 0} {E : World → Type 0} where
  Post-continue :
      {Q : A → World → Type 0} {R : B → World → Type 0} (r : Result A × World) (f : A → M B)
      → Post Q E r
      → ((a : A) → Triple (Q a) (f a) R E)
      → Post R E (continue r.0 f r.1)
  Post-continue (ok a, w) f h t = (t a).at w h
  Post-continue (err e, w) f h t = h

module _ {A B : Type 0} {P : World → Type 0} {E : World → Type 0} where
  pub Triple-bind :
      {Q : A → World → Type 0} {R : B → World → Type 0} {m : M A} {f : A → M B}
      → Triple P m Q E
      → ((a : A) → Triple (Q a) (f a) R E)
      → Triple P (m >>= f) R E
  unfolding ◌>>=◌
  Triple-bind {m = m} {f = f} tm tf = record { at = λ w p. Post-continue (m w) f (tm.at w p) tf }

module _ {A : Type 0} {P : World → Type 0} {E : World → Type 0} where
  -- An error that is caught goes on from the world it left.
  pub Triple-attempt :
      {Q : Option A → World → Type 0} {m : M A}
      → Triple P m (λ a w. Q (some a) w) (λ w. Q none w)
      → Triple P (attempt m) Q E
  unfolding attempt
  Triple-attempt {Q = Q} {m = m} t = record { at = λ w p. go (m w) (t.at w p) }
    where
      go :
          (r : Result A × World)
          → Post (λ a w. Q (some a) w) (λ w. Q none w) r
          → Post Q E (caught r.0 r.1)
      go (ok a, w) h = h
      go (err e, w) h = h

-- A statement was made.
abbrev pub ticked : World → World
ticked w = record w { tick = w.tick + 1 }

module _ {A : Type 0} {P : World → Type 0} {E : World → Type 0} where
  -- A statement fails and changes no table, or the server answers it.
  pub Triple-statement :
      {Q : A → World → Type 0} (fault : ℕ → Bool) (run : ℕ → World → Answer A)
      → ((w : World) → P w → E (ticked w))
      → ((w : World) → P w → Post Q E (answered (run w.tick w) w))
      → Triple P (statement fault run) Q E
  unfolding statement
  Triple-statement fault run lost done = record {
    at = λ w p. elim (Bool-cases (fault w.tick)) [
      | inl down ↦ rw (down, statement) (lost w p)
      | inr up ↦ rw (up, statement) (done w p)
    ];
  }

  -- The same, where the failure is known to be the connection's.
  pub Triple-statement_fault :
      {Q : A → World → Type 0} (fault : ℕ → Bool) (run : ℕ → World → Answer A)
      → ((w : World) → P w → fault w.tick ≡ true → E (ticked w))
      → ((w : World) → P w → Post Q E (answered (run w.tick w) w))
      → Triple P (statement fault run) Q E
  unfolding statement
  Triple-statement_fault fault run lost done = record {
    at = λ w p. elim (Bool-cases (fault w.tick)) [
      | inl down ↦ rw (down, statement) (lost w p down)
      | inr up ↦ rw (up, statement) (done w p)
    ];
  }

  pub Triple-ask :
      {Q : A → World → Type 0} (f : ℕ → A)
      → ((a : A) (w : World) → P w → Q a (ticked w))
      → Triple P (ask f) Q E
  unfolding ask
  Triple-ask f h = record { at = λ w p. h _ w p }

module _ {A : Type 0} {P : World → Type 0} {Q : A → World → Type 0} {m : M A} where
  -- A weaker promise where the action breaks off.
  pub Triple-off :
      {E E' : World → Type 0} → Triple P m Q E → ((w : World) → E w → E' w) → Triple P m Q E'
  Triple-off {E = E} {E' = E'} t weaker = record { at = λ w p. go (m w) (t.at w p) }
    where
      go : (r : Result A × World) → Post Q E r → Post Q E' r
      go (ok a, w) h = h
      go (err e, w) h = weaker w h
