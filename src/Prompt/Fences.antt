-- ===== src/Prompt/Fences.antt =====
-- What text from outside can reach of the messages.
use open_pincery.Prelude.{
  ℕ, ◌≡◌, refl, ap, sym, subst, ◌⊎◌, inl, inr, String, Bool, true, false, Option, none, some, List,
  [], ◌∷◌, ◌++◌, ◌==ˢ◌, ==ˢ→≡, ◌++ˢ◌, arith,
}
use mathlib.Core.Option.{map as map_some}
use open_pincery.Chain.{Event}
use open_pincery.Prompt.{
  ChatMessage, WakePromptContext, is_untrusted, wrap_untrusted_if, call_message, raw_result, Kind,
  message, result, said, skipped, call, kind_of, wrapped, step, messages_of,
}

-- Two events that differ at most in their texts from outside.
pub record SameButOutside (a b : Event) : Type 0 where
  pub same_id : a.id ≡ b.id
  pub same_type : a.event_type ≡ b.event_type
  pub same_name : a.tool_name ≡ b.tool_name
  pub same_input : a.tool_input ≡ b.tool_input
  pub same_content : is_untrusted a.event_type ≡ false → a.content ≡ b.content

abbrev pub fence : String → String → String
fence nonce content =
    "<<untrusted:" ++ˢ nonce ++ˢ ">>\n" ++ˢ content ++ˢ "\n<<end:" ++ˢ nonce ++ˢ ">>"

-- No text, or a text between the fences of the wake.
abbrev pub Fenced : String → Option String → Type 0
Fenced nonce content = (content ≡ none) ⊎ ((c : String) × (content ≡ some (fence nonce c)))

pub record Alike (nonce : String) (a b : ChatMessage) : Type 0 where
  pub same_role : a.role ≡ b.role
  pub same_calls : a.tool_calls ≡ b.tool_calls
  pub same_answered : a.tool_call_id ≡ b.tool_call_id
  pub contents : (a.content ≡ b.content) ⊎ (Fenced nonce a.content × Fenced nonce b.content)

abbrev pub Each : {A : Type 0} → (A → A → Type 0) → List A → List A → Type 0
Each R [] [] = Unit
Each R [] (y ∷ ys) = ⊥
Each R (x ∷ xs) [] = ⊥
Each R (x ∷ xs) (y ∷ ys) = R x y × Each R xs ys

Each-append :
    {A : Type 0} (R : A → A → Type 0) (xs ys us vs : List A)
    → Each R xs ys
    → Each R us vs
    → Each R (xs ++ us) (ys ++ vs)
Each-append R [] [] us vs e r = r
Each-append R [] (y ∷ ys) us vs e r = absurd e
Each-append R (x ∷ xs) [] us vs e r = absurd e
Each-append R (x ∷ xs) (y ∷ ys) us vs e r = (e.0, Each-append R xs ys us vs e.1 r)

message-untrusted : (ev : Event) → kind_of ev ≡ message → is_untrusted ev.event_type ≡ true
unfolding is_untrusted
message-untrusted ev h = ground arith

result-untrusted : (ev : Event) → kind_of ev ≡ result → is_untrusted ev.event_type ≡ true
unfolding is_untrusted
result-untrusted ev h = ground arith

said-type : (ev : Event) → kind_of ev ≡ said → ev.event_type ==ˢ "assistant_message" ≡ true
said-type ev h = ground arith

said-trusted : (ev : Event) → kind_of ev ≡ said → is_untrusted ev.event_type ≡ false
unfolding is_untrusted
said-trusted ev h = rw (==ˢ→≡ ev.event_type "assistant_message" (said-type ev h)) refl

kind_of-SameButOutside : {a b : Event} → SameButOutside a b → kind_of a ≡ kind_of b
kind_of-SameButOutside s = rw (s.same_type, s.same_name, s.same_input) refl

wrapped-untrusted :
    (content nonce : String) (b : Bool)
    → b ≡ true
    → wrap_untrusted_if content nonce b ≡ fence nonce content
wrapped-untrusted content nonce b h = rw h refl

module _ (uuid_text : ℕ → String) (ctx : WakePromptContext) where
  Fenced-map_some :
      (ev : Event) (o : Option String)
      → is_untrusted ev.event_type ≡ true
      → Fenced ctx.wake_nonce (map_some (wrapped uuid_text ctx ev) o)
  Fenced-map_some ev none h = inl refl
  Fenced-map_some ev (some c) h =
      inr (c, ap some (wrapped-untrusted c ctx.wake_nonce (is_untrusted ev.event_type) h))

  step-Alike :
      (k : Kind) (a b : Event) (last : Option String)
      → kind_of a ≡ k
      → kind_of b ≡ k
      → SameButOutside a b
      → Each (Alike ctx.wake_nonce) (step uuid_text ctx k a last).0 (step uuid_text ctx k b last).0
        × ((step uuid_text ctx k a last).1 ≡ (step uuid_text ctx k b last).1)
  step-Alike message a b last ka kb s = (
    (
      record {
        same_role = refl;
        same_calls = refl;
        same_answered = refl;
        contents = inr (
          Fenced-map_some a a.content (message-untrusted a ka),
          Fenced-map_some b b.content (message-untrusted b kb),
        );
      },
      tt,
    ),
    refl,
  )
  step-Alike result a b last ka kb s = (
    (
      record {
        same_role = refl;
        same_calls = refl;
        same_answered = refl;
        contents = inr (
          Fenced-map_some a (some (raw_result a.tool_output a.content)) (result-untrusted a ka),
          Fenced-map_some b (some (raw_result b.tool_output b.content)) (result-untrusted b kb),
        );
      },
      tt,
    ),
    refl,
  )
  step-Alike said a b last ka kb s = (
    (
      record {
        same_role = refl;
        same_calls = refl;
        same_answered = refl;
        contents = inl (s.same_content (said-trusted a ka));
      },
      tt,
    ),
    refl,
  )
  step-Alike skipped a b last ka kb s = (tt, refl)
  step-Alike (call none input) a b last ka kb s = (tt, refl)
  step-Alike (call (some name) none) a b last ka kb s = (tt, refl)
  step-Alike (call (some name) (some input)) a b last ka kb s =
      let same = ap uuid_text s.same_id in
      (
        (
          record {
            same_role = refl;
            same_calls = λ i. (call_message (same i) name input).tool_calls;
            same_answered = refl;
            contents = inl refl;
          },
          tt,
        ),
        ap some same,
      )

  -- What text from outside (messages and tool results) can reach: two histories that differ at
  -- most in such texts give as many messages, in the same order, with the same roles, tool calls
  -- and answered calls, and with the same contents except where both stand between the fences of
  -- the wake or are absent.
  pub messages_of-Alike :
      (last : Option String) (before after : List Event)
      → Each SameButOutside before after
      → Each
          (Alike ctx.wake_nonce)
          (messages_of uuid_text ctx last before)
          (messages_of uuid_text ctx last after)
  unfolding messages_of
  messages_of-Alike last [] [] e = tt
  messages_of-Alike last [] (b ∷ bs) e = absurd e
  messages_of-Alike last (a ∷ as_) [] e = absurd e
  messages_of-Alike last (a ∷ as_) (b ∷ bs) e =
      let same : kind_of b ≡ kind_of a = sym (kind_of-SameButOutside e.0) in
      let (new, next) = step-Alike (kind_of a) a b last refl same e.0 in
      let last' = (step uuid_text ctx (kind_of a) a last).1 in
      subst
        (λ k. Each (Alike ctx.wake_nonce) (messages_of uuid_text ctx last (a ∷ as_)) (
          (step uuid_text ctx k b last).0
          ++ messages_of uuid_text ctx (step uuid_text ctx k b last).1 bs))
        (sym same)
        (Each-append (Alike ctx.wake_nonce) _ _ _ _ new (
          subst
            (λ l.
              Each (Alike ctx.wake_nonce) (messages_of uuid_text ctx last' as_)
                (messages_of uuid_text ctx l bs))
            next (messages_of-Alike last' as_ bs e.1)))
