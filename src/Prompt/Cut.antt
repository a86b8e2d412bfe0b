-- ===== src/Prompt/Cut.antt =====
-- The cut of a prompt that is too long.
use mathlib.Core.Option.{map as map_some}
use text.Mathlib.TextLemmas.{nil-append, cons-append}
use Prim.Native.Char.{Char, code}
use open_pincery.Prelude.{
  ℕ, ◌+◌, ◌-◌, ◌≤◌, ◌<◌, ◌≡◌, ◌≢◌, refl, ◌∙◌, ap, sym, subst, inl, inr, String, true, Option, none,
  some, ◌++ˢ◌, ltb, leb, length, ◌==◌, ==→≡, Bool-cases, arith, length-append,
}
use open_pincery.Bytes.{utf8, utf8_char}
use open_pincery.Prompt.{onto, truncate, shortened}

-- A text's beginning, of so many bytes if the text has them.
pub record Cut (limit : ℕ) (s t : String) : Type 0 where
  pub rest : String
  pub whole : s ≡ t ++ˢ rest
  pub full : limit ≤ length (utf8 s) → length (utf8 t) ≡ limit

length-utf8 :
    (c : Char) (s : String)
    → length (utf8 (String.◌∷◌ c s)) ≡ length (utf8_char (code c)) + length (utf8 s)
unfolding utf8
length-utf8 c s = length-append (utf8_char (code c)) (utf8 s)

Cut-onto :
    (limit : ℕ) (c : Char) (s : String) (o : Option String) {t : String}
    → length (utf8_char (code c)) ≤ limit
    → ((u : String) → o ≡ some u → Cut (limit - length (utf8_char (code c))) s u)
    → onto c o ≡ some t
    → Cut limit (String.◌∷◌ c s) t
Cut-onto limit c s none le cut h = absurd (cc)
Cut-onto limit c s (some u) le cut h =
    let e : String.◌∷◌ c u ≡ _ = ground arith in
    let short = cut u refl in
    subst (Cut limit (String.◌∷◌ c s)) e (record {
      rest = short.rest;
      whole = ap (String.◌∷◌ c) short.whole ∙ sym (cons-append c u short.rest);
      full = λ long.
          let kept = short.full (omega (arith, length-utf8 c s, long)) in
          omega (arith, length-utf8 c u, kept, le);
    })

Cut-nothing : (s : String) → Cut 0 s ""
unfolding utf8
Cut-nothing s = record { rest = s; whole = sym (nil-append s); full = λ long. refl }

truncate-Cut : (limit : ℕ) (s : String) {t : String} → truncate limit s ≡ some t → Cut limit s t
unfolding truncate utf8
truncate-Cut limit String.[] h =
    let e : "" ≡ _ = ground arith in
    subst (Cut limit "") e (record { rest = ""; whole = refl; full = λ long. omega (arith, long) })
truncate-Cut limit (String.◌∷◌ c s) h =
    let width = length (utf8_char (code c)) in
    elim (Bool-cases (limit == 0)) [
      | inl z ↦
          let h' = rw z at h in
          let e : "" ≡ _ = ground arith in
          subst (Cut limit (String.◌∷◌ c s)) e (
            subst (λ n. Cut n (String.◌∷◌ c s) "") (sym (==→≡ limit 0 z))
              (Cut-nothing (String.◌∷◌ c s)))
      | inr nz ↦ elim (Bool-cases (leb width limit)) [
        | inl fits ↦
            Cut-onto limit c s (truncate (limit - width) s) (ground arith)
              (λ u. truncate-Cut (limit - width) s) (rw (nz, fits) at h)
        | inr wide ↦ let h' = rw (nz, wide) at h in absurd (cc)
      ]
    ]

onto-none : (c : Char) (o : Option String) → onto c o ≡ none → o ≡ none
onto-none c none h = refl
onto-none c (some t) h = absurd (cc)

-- Where the truncation panics, no beginning of the text has that many bytes.
truncate-none :
    (limit : ℕ) (s t rest : String)
    → truncate limit s ≡ none
    → s ≡ t ++ˢ rest
    → length (utf8 t) ≢ limit
unfolding truncate utf8
truncate-none limit String.[] t rest h e same = absurd (cc)
truncate-none limit (String.◌∷◌ c s) String.[] rest h e same =
    let z : (limit == 0) ≡ true = ground arith in let h' = rw z at h in absurd (cc)
truncate-none limit (String.◌∷◌ c s) (String.◌∷◌ d t) rest h e same =
    let both = e ∙ cons-append d t rest in
    let heads : c ≡ d = cc in
    let tails : s ≡ t ++ˢ rest = cc in
    let width : length (utf8_char (code c)) ≡ length (utf8_char (code d)) =
      ap (λ x. length (utf8_char (code x))) heads in
    let total = length-utf8 d t in
    elim (Bool-cases (limit == 0)) [
      | inl z ↦ let h' = rw z at h in absurd (cc)
      | inr nz ↦ elim (Bool-cases (leb (length (utf8_char (code c))) limit)) [
        | inr wide ↦ ground (arith, width, total, same, wide)
        | inl fits ↦
            let kept =
              truncate-none (limit - length (utf8_char (code c))) s t rest
                (onto-none c _ (rw (nz, fits) at h)) tails in
            kept (omega (arith, width, total, same))
      ]
    ]

-- A text that cannot be cut at so many bytes: it has more, and no beginning has exactly these.
pub record Uncuttable (limit : ℕ) (s : String) : Type 0 where
  pub longer : limit < length (utf8 s)
  pub within : (t rest : String) → s ≡ t ++ˢ rest → length (utf8 t) ≢ limit

-- The prompt before the canary: the whole text if it fits, else its first bytes and a mark.
pub data Shortened (limit : ℕ) (s : String) : String → Type 0 where
  whole_text : length (utf8 s) ≤ limit → Shortened limit s s
  cut_text :
      {kept : String}
      → limit < length (utf8 s)
      → Cut limit s kept
      → Shortened limit s (kept ++ˢ "\n...[truncated]")

pub shortened-Shortened :
    (limit : ℕ) (s : String) {t : String} → shortened limit s ≡ some t → Shortened limit s t
unfolding shortened
shortened-Shortened limit s h = elim (Bool-cases (ltb limit (length (utf8 s)))) [
  | inl over ↦ split (ground arith) (truncate limit s) (λ u. truncate-Cut limit s) (rw over at h)
  | inr fits ↦
      let h' = rw fits at h in
      let e : s ≡ _ = ground arith in subst (Shortened limit s) e (whole_text (ground arith))
]
  where
    split :
        limit < length (utf8 s)
        → (o : Option String) → ((u : String) → o ≡ some u → Cut limit s u)
        → {t : String} → map_some (λ u. u ++ˢ "\n...[truncated]") o ≡ some t
        → Shortened limit s t
    split over none cut h = absurd (cc)
    split over (some u) cut h =
        let e : (u ++ˢ "\n...[truncated]") ≡ _ = ground arith in
        subst (Shortened limit s) e (cut_text over (cut u refl))

pub shortened-Uncuttable : (limit : ℕ) (s : String) → shortened limit s ≡ none → Uncuttable limit s
unfolding shortened
shortened-Uncuttable limit s h = elim (Bool-cases (ltb limit (length (utf8 s)))) [
  | inr fits ↦ let h' = rw fits at h in absurd (cc)
  | inl over ↦ record {
    longer = ground arith;
    within = λ t rest. truncate-none limit s t rest (unmapped (truncate limit s) (rw over at h));
  }
]
  where
    unmapped : (o : Option String) → map_some (λ u. u ++ˢ "\n...[truncated]") o ≡ none → o ≡ none
    unmapped none e = refl
    unmapped (some u) e = absurd (cc)
