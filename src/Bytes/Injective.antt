-- ===== src/Bytes/Injective.antt =====
-- Each encoding can be read back: equal bytes come from equal values.
use mathlib.Core.Path.{ap₂}
use Prim.Native.Char.{Char, char, code}
use Prim.Native.String.{String}
use text.Mathlib.TextEquality.{Char-path}
use open_pincery.Prelude.{ℕ, ◌≡◌, ◌≢◌, refl, sym, ◌<◌, ◌^◌, true, List, [], ◌∷◌, ◌++◌, arith}
use open_pincery.Bytes.{be_bytes, utf8_char, utf8, eq_bytes}

pub eq_bytes→≡ : (xs ys : List ℕ) → eq_bytes xs ys ≡ true → xs ≡ ys
unfolding eq_bytes
eq_bytes→≡ [] [] h = refl
eq_bytes→≡ [] (y ∷ ys) h = cc
eq_bytes→≡ (x ∷ xs) [] h = cc
eq_bytes→≡ (x ∷ xs) (y ∷ ys) h = ground (arith, eq_bytes→≡ xs ys)

pub eq_bytes_refl : (xs : List ℕ) → eq_bytes xs xs ≡ true
unfolding eq_bytes
eq_bytes_refl [] = refl
eq_bytes_refl (x ∷ xs) = ground (arith, eq_bytes_refl xs)

pub be_bytes_u32 : (m n : ℕ) → m < 2 ^ 32 → n < 2 ^ 32 → be_bytes 4 m ≡ be_bytes 4 n → m ≡ n
unfolding be_bytes
be_bytes_u32 m n hm hn e = ground arith

pub be_bytes_u64 : (m n : ℕ) → m < 2 ^ 64 → n < 2 ^ 64 → be_bytes 8 m ≡ be_bytes 8 n → m ≡ n
unfolding be_bytes
be_bytes_u64 m n hm hn e = ground arith

pub utf8_char_prefix :
    (c d : ℕ) (xs ys : List ℕ)
    → c < 0x110000
    → d < 0x110000
    → utf8_char c ++ xs ≡ utf8_char d ++ ys
    → (c ≡ d) × (xs ≡ ys)
unfolding utf8_char
utf8_char_prefix c d xs ys hc hd e = ground arith

-- A `Char` is a Unicode scalar value.
code-lt : (c : Char) → code c < 0x110000
code-lt (char n s) = ground arith

utf8_char-ne-nil : (c : ℕ) (xs : List ℕ) → utf8_char c ++ xs ≢ []
unfolding utf8_char
utf8_char-ne-nil c xs e = ground arith

pub utf8-injective : (s t : String) → utf8 s ≡ utf8 t → s ≡ t
unfolding utf8
utf8-injective String.[] String.[] e = refl
utf8-injective String.[] (String.◌∷◌ c t) e = absurd (utf8_char-ne-nil (code c) (utf8 t) (sym e))
utf8-injective (String.◌∷◌ c s) String.[] e = absurd (utf8_char-ne-nil (code c) (utf8 s) e)
utf8-injective (String.◌∷◌ c s) (String.◌∷◌ d t) e =
    let h = utf8_char_prefix (code c) (code d) (utf8 s) (utf8 t) (code-lt c) (code-lt d) e in
    ap₂ String.◌∷◌ (Char-path c d h.0) (utf8-injective s t h.1)
