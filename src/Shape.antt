-- ===== src/Shape.antt =====
-- `capability_shape`, `canonical_json` and `hex_lower` of src/runtime/capability_nonce.rs.
use Prim.Native.String.{compare as compare_text}
use text.Mathlib.Text.{is_lt}
use open_pincery.Prelude.{
  ℕ, ◌/◌, ◌%◌, String, Bool, true, false, Option, none, some, List, [], ◌∷◌, map, if◌then◌else◌,
  ◌==◌, ◌++ˢ◌,
}
use open_pincery.Bytes.{utf8}
use open_pincery.Json.{Json, null, bool, num, str, arr, obj, Items, nil, cons, Fields, end, field}
use open_pincery.Env.{Env}

-- `parts.join(",")`
unfoldable pub join_commas : List String → String
join_commas [] = ""
join_commas (p ∷ []) = p
join_commas (p ∷ q ∷ rest) = p ++ˢ "," ++ˢ join_commas (q ∷ rest)

abbrev pub text_lt : String → String → Bool
text_lt s t = is_lt (compare_text s t)

-- `keys.sort()`, with each key's rendered value beside it.
unfoldable pub insert_key : String × String → List (String × String) → List (String × String)
insert_key p [] = p ∷ []
insert_key p (q ∷ rest) =
    let later = insert_key p rest in if text_lt q.0 p.0 then q ∷ later else p ∷ q ∷ rest

unfoldable pub sort_keys : List (String × String) → List (String × String)
unfolding insert_key
sort_keys [] = []
sort_keys (p ∷ rest) = insert_key p (sort_keys rest)

-- `format!("{key}:{val}")`
abbrev pub render_pair : (String → String) → String × String → String
render_pair quote (k, v) = quote k ++ˢ ":" ++ˢ v

abbrev bool_text : Bool → String
bool_text true = "true"
bool_text false = "false"

module _ (quote : String → String) where
  unfoldable mutual
    unfolding sort_keys join_commas

    pub canonical_json : Json → String
    canonical_json null = "null"
    canonical_json (bool b) = bool_text b
    canonical_json (num n) = n
    canonical_json (str s) = quote s
    canonical_json (arr xs) = "[" ++ˢ join_commas (canonical_items xs) ++ˢ "]"
    canonical_json (obj fs) =
        "{" ++ˢ join_commas (map (render_pair quote) (sort_keys (canonical_fields fs))) ++ˢ "}"

    pub canonical_items : Items → List String
    canonical_items nil = []
    canonical_items (cons x xs) = canonical_json x ∷ canonical_items xs

    pub canonical_fields : Fields → List (String × String)
    canonical_fields end = []
    canonical_fields (field k v fs) = (k, canonical_json v) ∷ canonical_fields fs

abbrev hex_digit : ℕ → String
hex_digit d =
    if d == 0
    then "0"
    else if d == 1
    then "1"
    else if d == 2
    then "2"
    else if d == 3
    then "3"
    else if d == 4
    then "4"
    else if d == 5
    then "5"
    else if d == 6
    then "6"
    else if d == 7
    then "7"
    else if d == 8
    then "8"
    else if d == 9
    then "9"
    else if d == 10
    then "a"
    else if d == 11
    then "b"
    else if d == 12
    then "c"
    else if d == 13
    then "d"
    else if d == 14
    then "e"
    else "f"

unfoldable pub hex_lower : List ℕ → String
hex_lower [] = ""
hex_lower (b ∷ bytes) = hex_digit (b / 16 % 16) ++ˢ hex_digit (b % 16) ++ˢ hex_lower bytes

module _ (env : Env) where
  -- `serde_json::to_string` of a text.
  abbrev pub quoted : String → String
  quoted s = env.to_json (str s)

  unfoldable pub canonical_args : String → Option Json → String
  canonical_args raw none = raw
  canonical_args raw (some v) = canonical_json quoted v

  unfoldable pub capability_shape : String → String
  unfolding canonical_args
  capability_shape args_json =
      hex_lower (env.hashing.sha256 (utf8 (canonical_args args_json (env.parse_json args_json))))
