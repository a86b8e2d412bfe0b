-- ===== src/Chain/Fields.antt =====
-- The canonical pre-image determines every field of the row, up to NULL and the empty text.
use mathlib.Core.List.{append_assoc}
use mathlib.Core.Path.{ap₂}
use open_pincery.Prelude.{
  ℕ, suc, ◌%◌, ◌^◌, ◌<◌, ◌≡◌, refl, sym, ◌∙◌, String, Option, some, List, [], ◌∷◌, ◌++◌, arith,
  length, ap, map,
}
use open_pincery.Bytes.{be_bytes, utf8}
use open_pincery.Bytes.Injective.{be_bytes_u32, be_bytes_u64, utf8-injective}
use open_pincery.Chain.{
  Hashing, Event, or_empty, push_field, wake_text, canonical_payload, row_payload,
}

-- Two texts with the same length are told apart by what they begin.
pub append_cancel {ℓ} :
    {A : Type ℓ} (xs ys us vs : List A)
    → length xs ≡ length ys
    → xs ++ us ≡ ys ++ vs
    → (xs ≡ ys) × (us ≡ vs)
append_cancel [] [] us vs l e = (refl, e)
append_cancel [] (y ∷ ys) us vs l e = absurd (omega arith)
append_cancel (x ∷ xs) [] us vs l e = absurd (omega arith)
append_cancel (x ∷ xs) (y ∷ ys) us vs l e = ground (arith, append_cancel xs ys us vs)

-- What `push_field` appends.
field_bytes : Option String → List ℕ
field_bytes f = be_bytes 4 (length (utf8 (or_empty f)) % 2 ^ 32) ++ utf8 (or_empty f)

abbrev pub Fits : Option String → Type 0
Fits f = length (utf8 (or_empty f)) < 2 ^ 32

push_field-eq : (out : List ℕ) (f : Option String) → push_field out f ≡ out ++ field_bytes f
unfolding push_field field_bytes
push_field-eq out f = append_assoc out _ _

length-be_bytes : (k n : ℕ) → length (be_bytes k n) ≡ k
unfolding be_bytes
length-be_bytes ℕ.zero n = refl
length-be_bytes (suc k) n = ap suc (length-be_bytes k n)

-- A field can be read off the front.
field_bytes_prefix :
    (f g : Option String) (us vs : List ℕ)
    → Fits f
    → Fits g
    → field_bytes f ++ us ≡ field_bytes g ++ vs
    → (or_empty f ≡ or_empty g) × (us ≡ vs)
unfolding field_bytes
field_bytes_prefix f g us vs hf hg e =
    let bf = utf8 (or_empty f) in
    let bg = utf8 (or_empty g) in
    let mf = be_bytes 4 (length bf % 2 ^ 32) in
    let mg = be_bytes 4 (length bg % 2 ^ 32) in
    let split =
      append_cancel mf mg (bf ++ us) (bg ++ vs) (length-be_bytes 4 _ ∙ sym (length-be_bytes 4 _))
        (sym (append_assoc mf bf us) ∙ e ∙ append_assoc mg bg vs) in
    let sizes =
      be_bytes_u32 (length bf % 2 ^ 32) (length bg % 2 ^ 32) (omega arith) (omega arith) split.0 in
    let texts = append_cancel bf bg us vs (omega (arith, sizes)) split.1 in
    (utf8-injective _ _ texts.0, texts.1)

all_bytes : List (Option String) → List ℕ → List ℕ
all_bytes [] end = end
all_bytes (f ∷ fs) end = field_bytes f ++ all_bytes fs end

abbrev pub AllFit : List (Option String) → Type 0
AllFit [] = Unit {0}
AllFit (f ∷ fs) = Fits f × AllFit fs

all_bytes-injective :
    (fs gs : List (Option String)) (us vs : List ℕ)
    → length fs ≡ length gs
    → AllFit fs
    → AllFit gs
    → all_bytes fs us ≡ all_bytes gs vs
    → (map or_empty fs ≡ map or_empty gs) × (us ≡ vs)
unfolding all_bytes
all_bytes-injective [] [] us vs l hf hg e = (refl, e)
all_bytes-injective [] (g ∷ gs) us vs l hf hg e = absurd (omega arith)
all_bytes-injective (f ∷ fs) [] us vs l hf hg e = absurd (omega arith)
all_bytes-injective (f ∷ fs) (g ∷ gs) us vs l hf hg e =
    let first = field_bytes_prefix f g (all_bytes fs us) (all_bytes gs vs) hf.0 hg.0 e in
    let rest = all_bytes-injective fs gs us vs (omega arith) hf.1 hg.1 first.1 in
    (ap₂ ◌∷◌ first.0 rest.0, rest.1)

module _ (h : Hashing) (agent_id : ℕ) where
  -- The fields of a row in the order of the pre-image.
  abbrev pub fields : Event → List (Option String)
  fields r =
      some r.event_type
      ∷ some (h.uuid_text agent_id)
      ∷ some r.source
      ∷ wake_text h r.wake_id
      ∷ r.tool_name
      ∷ r.tool_input
      ∷ r.tool_output
      ∷ r.content
      ∷ r.termination_reason
      ∷ []

  row_payload-eq :
      (r : Event)
      → row_payload h agent_id r
        ≡ all_bytes (fields r) (be_bytes 4 8 ++ be_bytes 8 (r.created_at % 2 ^ 64))
  unfolding row_payload canonical_payload all_bytes
  row_payload-eq r = simp (push_field-eq, append_assoc)

  -- What the storage of a row bounds: a text below 4 GiB, a time that is a positive `i64`.
  pub record IsStorable (r : Event) : Type 0 where
    pub texts : AllFit (fields r)
    pub time : r.created_at < 2 ^ 63

  -- The same contents, where a missing text is the empty one.
  abbrev pub SameContents : Event → Event → Type 0
  SameContents r s =
      (map or_empty (fields r) ≡ map or_empty (fields s)) × (r.created_at ≡ s.created_at)

  -- Two rows with equal pre-images, whose texts are below 4 GiB and whose times are below `2 ^
  -- 63`, have equal contents, where a missing text counts as the empty one.
  pub row_payload-injective :
      (r s : Event)
      → IsStorable r
      → IsStorable s
      → row_payload h agent_id r ≡ row_payload h agent_id s
      → SameContents r s
  row_payload-injective r s hr hs e =
      let split =
        all_bytes-injective (fields r) (fields s) _ _ refl hr.texts hs.texts
          (sym (row_payload-eq r) ∙ e ∙ row_payload-eq s) in
      let end = append_cancel (be_bytes 4 8) (be_bytes 4 8) _ _ refl split.1 in
      let times =
        be_bytes_u64 (r.created_at % 2 ^ 64) (s.created_at % 2 ^ 64) (omega arith) (omega arith)
          end.1 in
      (split.0, omega (arith, times, hr.time, hs.time))
