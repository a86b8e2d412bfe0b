-- ===== src/Prelude/Text.antt =====
-- Texts: equality as a Boolean test, and its laws.
use Prim.Native.String.{String, ◌++◌ as append}
use Prim.Native.Nat.{ℕ, zero, suc, ◌+◌, ◌/◌, ◌%◌}
use open_pincery.Prelude.Tests.{ltb, ◌==◌, if◌then◌else◌}
use mathlib.Core.Path.{◌≡◌}
use Prim.Native.Char.{code}
use mathlib.Core.Bool.{Bool, true, false, ◌||◌}
use mathlib.Core.Option.{Option, none, some}
use text.Mathlib.Text.{◌==◌ as str_eq}
use text.Mathlib.TextEquality.{eq_iff}
use text.Mathlib.TextPositions.{eq_refl}

infix 50 ◌==ˢ◌
abbrev pub ◌==ˢ◌ : String → String → Bool
s ==ˢ t = str_eq s t

pub ==ˢ_refl : (s : String) → (s ==ˢ s) ≡ true
==ˢ_refl s = eq_refl s

pub ==ˢ→≡ : (s t : String) → (s ==ˢ t) ≡ true → s ≡ t
==ˢ→≡ s t h = (eq_iff s t).0 h

infixr 65 ◌++ˢ◌
abbrev pub ◌++ˢ◌ : String → String → String
s ++ˢ t = append s t

abbrev pub digit : ℕ → String
digit d =
    if d == 0
    then "0"
    else if d == 1
    then "1"
    else if d == 2
    then "2"
    else if d == 3
    then "3"
    else if d == 4
    then "4"
    else if d == 5
    then "5"
    else if d == 6
    then "6"
    else if d == 7
    then "7"
    else if d == 8
    then "8"
    else "9"

unfoldable pub decimal_from : ℕ → ℕ → String
decimal_from zero n = ""
decimal_from (suc fuel) n =
    let rest = decimal_from fuel (n / 10) in if ltb n 10 then digit n else rest ++ˢ digit (n % 10)

-- `Display` of an unsigned number; it has at most as many digits as its value and one.
unfoldable pub decimal : ℕ → String
unfolding decimal_from
decimal n = decimal_from (n + 1) n

-- `str::strip_prefix`
unfoldable pub strip_prefix : String → String → Option String
strip_prefix String.[] s = some s
strip_prefix (String.◌∷◌ c p) String.[] = none
strip_prefix (String.◌∷◌ c p) (String.◌∷◌ d s) =
    let rest = strip_prefix p s in if code c == code d then rest else none

abbrev pub is_some {ℓ} : {A : Type ℓ} → Option A → Bool
is_some none = false
is_some (some a) = true

-- `str::contains`, the needle last.
unfoldable pub contains : String → String → Bool
unfolding strip_prefix
contains String.[] needle = is_some (strip_prefix needle "")
contains (String.◌∷◌ c s) needle =
    is_some (strip_prefix needle (String.◌∷◌ c s)) || contains s needle

-- `i32`, with the machine's bound left out.
pub data ℤ : Type 0 where
  pos negsuc : ℕ → ℤ

abbrev pub decimal_int : ℤ → String
decimal_int (pos n) = decimal n
decimal_int (negsuc n) = "-" ++ˢ decimal (n + 1)
