-- ===== src/Prelude/Parse.antt =====
-- What the Rust standard library does with a text: `trim`, `lines`, `split`, `parse`, and the ASCII
-- case functions.
use mathlib.Core.Bool.{Bool, true, false, ◌&&◌, ◌||◌}
use mathlib.Core.List.{List, [], ◌∷◌}
use mathlib.Core.Logic.{inl, inr}
use mathlib.Core.Option.{Option, none, some}
use mathlib.Core.Path.{◌≡◌, refl, ap, ◌∙◌}
use native.Mathlib.Omega.{arith}
use text.Mathlib.TextLemmas.{nil-append, cons-append}
use Prim.Native.Char.{Char, code}
use Prim.Native.Nat.{ℕ, zero, suc, ◌+◌, ◌-◌, ◌*◌, ◌/◌, ◌%◌, ◌≤◌, ◌<◌}
use Prim.Native.String.{String, char_at}
use open_pincery.Prelude.Tests.{ltb, leb, ◌==◌, if◌then◌else◌, Bool-cases, ltb→lt}
use open_pincery.Prelude.Text.{ℤ, pos, negsuc, decimal, decimal_from, digit, ◌++ˢ◌}

abbrev pub is_empty : String → Bool
is_empty String.[] = true
is_empty (String.◌∷◌ c s) = false

abbrev pub is_digit : ℕ → Bool
is_digit c = leb b'0' c && leb c b'9'

-- `u8::to_ascii_lowercase`
abbrev pub lower : ℕ → ℕ
lower c = if leb b'A' c && leb c b'Z' then c + 32 else c

-- `char::to_ascii_lowercase`
abbrev lower_char : Char → Char
lower_char c =
    if leb b'A' (code c) && leb (code c) b'Z'
    then char_at "abcdefghijklmnopqrstuvwxyz" (code c - b'A')
    else c

-- `str::to_ascii_lowercase`
unfoldable pub to_ascii_lowercase : String → String
to_ascii_lowercase String.[] = ""
to_ascii_lowercase (String.◌∷◌ c s) = String.◌∷◌ (lower_char c) (to_ascii_lowercase s)

-- `char::is_whitespace`
abbrev pub is_whitespace : ℕ → Bool
is_whitespace c =
    (leb 9 c && leb c 13)
    || ((c == 32)
        || ((c == 0x85)
            || ((c == 0xA0)
                || ((c == 0x1680)
                    || ((leb 0x2000 c && leb c 0x200A)
                        || ((c == 0x2028)
                            || ((c == 0x2029)
                                || ((c == 0x202F) || ((c == 0x205F) || (c == 0x3000))))))))))

unfoldable pub trim_start : String → String
trim_start String.[] = ""
trim_start (String.◌∷◌ c s) =
    let rest = trim_start s in if is_whitespace (code c) then rest else String.◌∷◌ c s

unfoldable pub trim_end : String → String
trim_end String.[] = ""
trim_end (String.◌∷◌ c s) =
    let rest = trim_end s in
    if is_empty rest && is_whitespace (code c) then "" else String.◌∷◌ c rest

unfoldable pub trim : String → String
unfolding trim_start trim_end
trim s = trim_end (trim_start s)

-- `str::eq_ignore_ascii_case`
unfoldable pub eq_ignore_ascii_case : String → String → Bool
eq_ignore_ascii_case String.[] String.[] = true
eq_ignore_ascii_case String.[] (String.◌∷◌ d t) = false
eq_ignore_ascii_case (String.◌∷◌ c s) String.[] = false
eq_ignore_ascii_case (String.◌∷◌ c s) (String.◌∷◌ d t) =
    (lower (code c) == lower (code d)) && eq_ignore_ascii_case s t

-- A character in front of the first piece.
abbrev pub onto_first : Char → List String → List String
onto_first c [] = String.◌∷◌ c "" ∷ []
onto_first c (s ∷ rest) = String.◌∷◌ c s ∷ rest

-- `str::split` at a character: always one piece at least.
unfoldable pub split : ℕ → String → List String
split d String.[] = "" ∷ []
split d (String.◌∷◌ c s) =
    let rest = split d s in if code c == d then "" ∷ rest else onto_first c rest

unfoldable pub strip_cr : String → String
strip_cr String.[] = ""
strip_cr (String.◌∷◌ c s) = if is_empty s && (code c == 13) then "" else String.◌∷◌ c (strip_cr s)

-- The pieces between line ends; a text that ends in a line end has no last empty line.
abbrev pub line_pieces : List String → List String
line_pieces [] = []
line_pieces (s ∷ []) = if is_empty s then [] else s ∷ []
line_pieces (s ∷ t ∷ rest) = strip_cr s ∷ line_pieces (t ∷ rest)

-- `str::lines`
unfoldable pub lines : String → List String
unfolding split strip_cr
lines s = line_pieces (split 10 s)

-- The number of a run of decimal digits, after `acc`.
unfoldable pub digits_value : ℕ → String → Option ℕ
digits_value acc String.[] = some acc
digits_value acc (String.◌∷◌ c s) =
    let rest = digits_value (acc * 10 + (code c - 48)) s in if is_digit (code c) then rest else none

abbrev pub at_most : ℕ → Option ℕ → Option ℕ
at_most max none = none
at_most max (some n) = if leb n max then some n else none

abbrev digits : ℕ → String → Option ℕ
digits max s = if is_empty s then none else at_most max (digits_value 0 s)

-- `str::parse` of an unsigned integer type with the greatest value `max`: an optional `+`, and one
-- digit at least.
unfoldable pub parse_unsigned : ℕ → String → Option ℕ
unfolding digits_value
parse_unsigned max String.[] = none
parse_unsigned max (String.◌∷◌ c s) =
    if code c == b'+' then digits max s else digits max (String.◌∷◌ c s)

abbrev pub negated : Option ℕ → Option ℤ
negated none = none
negated (some zero) = some (pos 0)
negated (some (suc n)) = some (negsuc n)

abbrev pub positive : Option ℕ → Option ℤ
positive none = none
positive (some n) = some (pos n)

-- `str::parse` of a signed integer type with the greatest value `max`, and the least -(max + 1).
unfoldable pub parse_signed : ℕ → String → Option ℤ
unfolding digits_value parse_unsigned
parse_signed max String.[] = none
parse_signed max (String.◌∷◌ c s) =
    if code c == b'-'
    then negated (digits (max + 1) s)
    else positive (parse_unsigned max (String.◌∷◌ c s))

abbrev pub max_i32 : ℕ
max_i32 = 2147483647

abbrev pub max_i64 : ℕ
max_i64 = 9223372036854775807

abbrev pub max_u16 : ℕ
max_u16 = 65535

abbrev pub max_u32 : ℕ
max_u32 = 4294967295

abbrev pub max_u64 : ℕ
max_u64 = 18446744073709551615

digits_value-append :
    (acc : ℕ) (s t : String) {a : ℕ}
    → digits_value acc s ≡ some a
    → digits_value acc (s ++ˢ t) ≡ digits_value a t
unfolding digits_value
digits_value-append acc String.[] t h = rw (nil-append t) (ground arith)
digits_value-append acc (String.◌∷◌ c s) t {a = a} h =
    rw (cons-append c s t) (elim (Bool-cases (is_digit (code c))) [
      | inl y ↦ rw y (digits_value-append (acc * 10 + (code c - 48)) s t (rw y at h))
      | inr n ↦ cc (rw n at h)
    ])

digits_value-digit : (a d : ℕ) → d < 10 → digits_value a (digit d) ≡ some (a * 10 + d)
unfolding digits_value
digits_value-digit a zero h = refl
digits_value-digit a (suc zero) h = refl
digits_value-digit a (suc (suc zero)) h = refl
digits_value-digit a (suc (suc (suc zero))) h = refl
digits_value-digit a (suc (suc (suc (suc zero)))) h = refl
digits_value-digit a (suc (suc (suc (suc (suc zero))))) h = refl
digits_value-digit a (suc (suc (suc (suc (suc (suc zero)))))) h = refl
digits_value-digit a (suc (suc (suc (suc (suc (suc (suc zero))))))) h = refl
digits_value-digit a (suc (suc (suc (suc (suc (suc (suc (suc zero)))))))) h = refl
digits_value-digit a (suc (suc (suc (suc (suc (suc (suc (suc (suc zero))))))))) h = refl
digits_value-digit a (suc (suc (suc (suc (suc (suc (suc (suc (suc (suc d)))))))))) h =
    absurd (omega arith)

digits_value-decimal_from : (fuel n : ℕ) → n < fuel → digits_value 0 (decimal_from fuel n) ≡ some n
unfolding decimal_from
digits_value-decimal_from zero n h = absurd (omega arith)
digits_value-decimal_from (suc fuel) n h = elim (Bool-cases (ltb n 10)) [
  | inl small ↦ rw small (digits_value-digit 0 n (ltb→lt n 10 small) ∙ ap some (omega arith))
  | inr large ↦ rw large (
      digits_value-append 0 (decimal_from fuel (n / 10)) (digit (n % 10))
        (digits_value-decimal_from fuel (n / 10) (ground arith))
      ∙ (digits_value-digit (n / 10) (n % 10) (omega arith) ∙ ap some (omega arith)))
]

is_empty-append : (s t : String) → is_empty t ≡ false → is_empty (s ++ˢ t) ≡ false
is_empty-append String.[] t h = rw (nil-append t) h
is_empty-append (String.◌∷◌ c s) t h = rw (cons-append c s t) refl

is_empty-if :
    (b : Bool) (s t : String)
    → is_empty s ≡ false
    → is_empty t ≡ false
    → is_empty (if b then s else t) ≡ false
is_empty-if true s t p q = p
is_empty-if false s t p q = q

is_empty-digit : (d : ℕ) → is_empty (digit d) ≡ false
is_empty-digit d =
    let go = is_empty-if in
    go (d == 0) _ _ refl (
      go (d == 1) _ _ refl (
        go (d == 2) _ _ refl (
          go (d == 3) _ _ refl (
            go (d == 4) _ _ refl (
              go (d == 5) _ _ refl
                (go (d == 6) _ _ refl (go (d == 7) _ _ refl (go (d == 8) _ _ refl refl))))))))

is_empty-decimal_from : (fuel n : ℕ) → n < fuel → is_empty (decimal_from fuel n) ≡ false
unfolding decimal_from
is_empty-decimal_from zero n h = absurd (omega arith)
is_empty-decimal_from (suc fuel) n h = elim (Bool-cases (ltb n 10)) [
  | inl small ↦ rw small (is_empty-digit n)
  | inr large ↦
      rw large
        (is_empty-append (decimal_from fuel (n / 10)) (digit (n % 10)) (is_empty-digit (n % 10)))
]

-- A text of digits only is read as its number.
parse_unsigned-digits :
    (max n : ℕ) (s : String)
    → digits_value 0 s ≡ some n
    → is_empty s ≡ false
    → n ≤ max
    → parse_unsigned max s ≡ some n
unfolding parse_unsigned
parse_unsigned-digits max n String.[] h e le = cc
parse_unsigned-digits max n (String.◌∷◌ c s) h e le = ground arith

-- Reading back a printed number, for every integer type that it fits.
pub parse_unsigned-decimal : (max n : ℕ) → n ≤ max → parse_unsigned max (decimal n) ≡ some n
unfolding decimal
parse_unsigned-decimal max n le =
    parse_unsigned-digits max n (decimal_from (n + 1) n)
      (digits_value-decimal_from (n + 1) n (omega arith))
      (is_empty-decimal_from (n + 1) n (omega arith)) le

parse_signed-digits :
    (max n : ℕ) (s : String)
    → digits_value 0 s ≡ some n
    → is_empty s ≡ false
    → n ≤ max
    → parse_signed max s ≡ some (pos n)
unfolding parse_signed digits_value
parse_signed-digits max n String.[] h e le = cc
parse_signed-digits max n (String.◌∷◌ c s) h e le =
    let r = parse_unsigned-digits max n (String.◌∷◌ c s) h e le in
    elim (Bool-cases (code c == b'-')) [
      | inl dash ↦ ground arith
      | inr other ↦ rw other (ap positive r)
    ]

pub parse_signed-decimal : (max n : ℕ) → n ≤ max → parse_signed max (decimal n) ≡ some (pos n)
unfolding decimal
parse_signed-decimal max n le =
    parse_signed-digits max n (decimal_from (n + 1) n)
      (digits_value-decimal_from (n + 1) n (omega arith))
      (is_empty-decimal_from (n + 1) n (omega arith)) le
