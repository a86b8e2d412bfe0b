-- ===== src/Bytes.antt =====
-- The byte encodings that the Rust standard library gives `background/audit_chain.rs`:
-- `u32::to_be_bytes`, `i64::to_be_bytes` and `str::as_bytes` (UTF-8).
pub mod Injective
use Prim.Native.Char.{code}
use open_pincery.Prelude.{
  ℕ, zero, suc, ◌+◌, ◌*◌, ◌/◌, ◌%◌, ◌^◌, String, Bool, true, false, ◌&&◌, List, [], ◌∷◌, ◌++◌, ltb,
  ◌==◌, if◌then◌else◌,
}

-- The low `k` bytes of `n`, the highest first.
unfoldable pub be_bytes : ℕ → ℕ → List ℕ
be_bytes zero n = []
be_bytes (suc k) n = (n / 256 ^ k % 256) ∷ be_bytes k n

-- The UTF-8 bytes of one code point.
unfoldable pub utf8_char : ℕ → List ℕ
utf8_char c =
    if ltb c 0x80
    then c ∷ []
    else if ltb c 0x800
    then (192 + c / 64) ∷ (128 + c % 64) ∷ []
    else if ltb c 0x10000
    then (224 + c / 4096) ∷ (128 + c / 64 % 64) ∷ (128 + c % 64) ∷ []
    else (240 + c / 262144) ∷ (128 + c / 4096 % 64) ∷ (128 + c / 64 % 64) ∷ (128 + c % 64) ∷ []

unfoldable pub utf8 : String → List ℕ
unfolding utf8_char
utf8 String.[] = []
utf8 (String.◌∷◌ c s) = utf8_char (code c) ++ utf8 s

-- Equality of byte strings, as `==` on `String` compares them.
unfoldable pub eq_bytes : List ℕ → List ℕ → Bool
eq_bytes [] [] = true
eq_bytes [] (y ∷ ys) = false
eq_bytes (x ∷ xs) [] = false
eq_bytes (x ∷ xs) (y ∷ ys) = (x == y) && eq_bytes xs ys
