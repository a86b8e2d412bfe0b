-- ===== src/Llm/Canary.antt =====
-- `scan_for_canary` of src/runtime/wake_loop.rs.
use open_pincery.Prelude.{
  ℕ, ◌+◌, ◌≡◌, refl, String, Bool, false, Option, none, some, List, [], ◌∷◌, arith, if◌then◌else◌,
  ◌++ˢ◌, decimal, contains, is_some, ◌||◌, ◌++◌,
}
use open_pincery.Llm.{ChatResponse, Choice, ToolCallRequest}

-- The first match among two scans.
abbrev or_else : Option String → Option String → Option String
or_else none next = next
or_else (some found) next = some found

abbrev found_in : String → String → String → Option String
found_in canary_hex text tag = if contains text canary_hex then some tag else none

module _ (canary_hex : String) where
  scan_tool_calls : String → ℕ → List ToolCallRequest → Option String
  scan_tool_calls place ti [] = none
  scan_tool_calls place ti (tc ∷ tcs) =
      let tag = place ++ˢ ".tool_calls[" ++ˢ decimal ti ++ˢ "]" in
      or_else (found_in canary_hex tc.function.name (tag ++ˢ ".function.name")) (
        or_else (found_in canary_hex tc.function.arguments (tag ++ˢ ".function.arguments")) (
          or_else (found_in canary_hex tc.id (tag ++ˢ ".id")) (scan_tool_calls place (ti + 1) tcs)))

  scan_content : String → Option String → Option String
  scan_content place none = none
  scan_content place (some content) = found_in canary_hex content (place ++ˢ ".content")

  scan_calls_of : String → Option (List ToolCallRequest) → Option String
  unfolding scan_tool_calls
  scan_calls_of place none = none
  scan_calls_of place (some tcs) = scan_tool_calls place 0 tcs

  scan_choices : ℕ → List Choice → Option String
  unfolding scan_content scan_calls_of
  scan_choices ci [] = none
  scan_choices ci (choice ∷ choices) =
      let place = "choice[" ++ˢ decimal ci ++ˢ "]" in
      or_else (scan_content place choice.message.content)
        (or_else (scan_calls_of place choice.message.tool_calls) (scan_choices (ci + 1) choices))

-- The tag of the first field that holds the canary.
unfoldable pub scan_for_canary : ChatResponse → String → Option String
unfolding scan_choices
scan_for_canary response canary_hex = scan_choices canary_hex 0 response.choices

-- The texts of a response that the model can choose, in order.
abbrev call_texts : List ToolCallRequest → List String
call_texts [] = []
call_texts (tc ∷ tcs) = tc.function.name ∷ tc.function.arguments ∷ tc.id ∷ call_texts tcs

abbrev calls_texts : Option (List ToolCallRequest) → List String
calls_texts none = []
calls_texts (some tcs) = call_texts tcs

abbrev content_texts : Option String → List String
content_texts none = []
content_texts (some content) = content ∷ []

abbrev pub written : List Choice → List String
written [] = []
written (choice ∷ choices) =
    content_texts choice.message.content
    ++ (calls_texts choice.message.tool_calls ++ written choices)

-- Some text holds the canary.
abbrev pub any_contains : String → List String → Bool
any_contains canary_hex [] = false
any_contains canary_hex (t ∷ ts) = contains t canary_hex || any_contains canary_hex ts

any_contains-append :
    (c : String) (xs ys : List String)
    → any_contains c (xs ++ ys) ≡ (any_contains c xs || any_contains c ys)
any_contains-append c [] ys = refl
any_contains-append c (x ∷ xs) ys = ground (arith, any_contains-append c xs ys)

is_some-or_else : (o p : Option String) → is_some (or_else o p) ≡ (is_some o || is_some p)
is_some-or_else none p = refl
is_some-or_else (some x) p = refl

is_some-found_in : (c text tag : String) → is_some (found_in c text tag) ≡ contains text c
is_some-found_in c text tag = ground arith

scan_tool_calls-written :
    (c place : String) (ti : ℕ) (tcs : List ToolCallRequest)
    → is_some (scan_tool_calls c place ti tcs) ≡ any_contains c (call_texts tcs)
unfolding scan_tool_calls
scan_tool_calls-written c place ti [] = refl
scan_tool_calls-written c place ti (tc ∷ tcs) =
    rw
      (
        is_some-or_else,
        is_some-or_else,
        is_some-or_else,
        is_some-found_in,
        is_some-found_in,
        is_some-found_in,
        scan_tool_calls-written c place (ti + 1) tcs,
      )
      refl

scan_content-written :
    (c place : String) (o : Option String)
    → is_some (scan_content c place o) ≡ any_contains c (content_texts o)
unfolding scan_content
scan_content-written c place none = refl
scan_content-written c place (some t) = ground arith

scan_calls_of-written :
    (c place : String) (o : Option (List ToolCallRequest))
    → is_some (scan_calls_of c place o) ≡ any_contains c (calls_texts o)
unfolding scan_calls_of
scan_calls_of-written c place none = refl
scan_calls_of-written c place (some tcs) = scan_tool_calls-written c place 0 tcs

scan_choices-written :
    (c : String) (ci : ℕ) (choices : List Choice)
    → is_some (scan_choices c ci choices) ≡ any_contains c (written choices)
unfolding scan_choices
scan_choices-written c ci [] = refl
scan_choices-written c ci (choice ∷ choices) =
    rw
      (
        is_some-or_else,
        is_some-or_else,
        scan_content-written,
        scan_calls_of-written,
        scan_choices-written c (ci + 1) choices,
        any_contains-append,
        any_contains-append,
      )
      refl

-- The scan reports an echo exactly where some content, tool name, arguments or call id of some choice
-- of the response contains the canary.
pub scan_for_canary-written :
    (response : ChatResponse) (canary_hex : String)
    → is_some (scan_for_canary response canary_hex)
      ≡ any_contains canary_hex (written response.choices)
unfolding scan_for_canary
scan_for_canary-written response canary_hex = scan_choices-written canary_hex 0 response.choices
