-- ===== src/Json/Parse.antt =====
-- `JSON.parse`, as sdk/src/bundleIO.ts and sdk/src/cli.ts use it. The number that a token denotes is the
-- parameter `number_of`. Keys keep their order; the engine puts keys that are array indices first.
use zkstellar.Prelude.{
  ℕ, zero, suc, ◌+◌, Bool, true, false, ◌||◌, [], ◌∷◌, Option, none, some, length, ◌==◌,
  if◌then◌else◌, ◌≡◌, refl,
}
use zkstellar.Text.{Text, codes, text_eq, is_digit}
use zkstellar.Types.{other_error, Result, ok, err}
use zkstellar.Js.{
  Js, Items, Fields, JsNumber, null, boolean, number, string, array, object, nil, item, end, field,
  field_of,
}
use zkstellar.Json.Lex.{skip_blanks, unquote, span_number, is_json_number}

unfoldable pub has_key : Fields → Text → Bool
has_key end k = false
has_key (field j v fs) k = text_eq j k || has_key fs k

remove_key : Fields → Text → Fields
remove_key end k = end
remove_key (field j v fs) k =
    let rest = remove_key fs k in if text_eq j k then rest else field j v rest

-- A member in front of others; the value of the last member with a key counts, at the first's place.
abbrev put_first : Text → Js → Fields → Fields
put_first k v fs = if has_key fs k then field k (field_of fs k) (remove_key fs k) else field k v fs

-- The rest behind a word.
unfoldable pub expect : Text → Text → Option Text
expect [] s = some s
expect (p ∷ ps) [] = none
expect (p ∷ ps) (c ∷ s) = let rest = expect ps s in if p == c then rest else none

abbrev word : Js → Option Text → Option (Js × Text)
word v none = none
word v (some rest) = some (v, rest)

-- What a value's first character says of it.
pub data Kind : Type 0 where
  text_kind array_kind object_kind null_kind true_kind false_kind number_kind : Kind

abbrev kind : ℕ → Kind
kind c =
    if c == 34
    then text_kind
    else if c == b'['
    then array_kind
    else if c == b'{'
    then object_kind
    else if c == b'n'
    then null_kind
    else if c == b't'
    then true_kind
    else if c == b'f'
    then false_kind
    else number_kind

abbrev text_value : Option (Text × Text) → Option (Js × Text)
text_value none = none
text_value (some (s, rest)) = some (string s, rest)

abbrev array_value : Option (Items × Text) → Option (Js × Text)
array_value none = none
array_value (some (vs, rest)) = some (array vs, rest)

abbrev object_value : Option (Fields × Text) → Option (Js × Text)
object_value none = none
object_value (some (fs, rest)) = some (object fs, rest)

-- Whether the next character that is not blank is this one, and what follows it.
abbrev pub opens : ℕ → Text → Option Text
opens d [] = none
opens d (c ∷ s) = if c == d then some s else none

abbrev add_item : Js → Option (Items × Text) → Option (Items × Text)
add_item v none = none
add_item v (some (vs, rest)) = some (item v vs, rest)

abbrev add_member : Text → Js → Option (Fields × Text) → Option (Fields × Text)
add_member k v none = none
add_member k v (some (fs, rest)) = some (put_first k v fs, rest)

module _ (number_of : Text → JsNumber) where
  abbrev number_value : Text × Text → Option (Js × Text)
  number_value (token, rest) =
      if is_json_number token then some (number (number_of token), rest) else none

  unfoldable mutual
    unfolding skip_blanks unquote span_number is_json_number expect has_key remove_key

    -- A value, and what follows it.
    pub parse_value : ℕ → Text → Option (Js × Text)
    parse_value zero s = none
    parse_value (suc fuel) s = elim (skip_blanks s) [
      | [] ↦ none
      | c ∷ t ↦ elim (kind c) [
        | text_kind ↦ text_value (unquote (length t) t)
        | array_kind ↦ elim (opens b']' (skip_blanks t)) [
          | some rest ↦ some (array nil, rest)
          | none ↦ array_value (parse_items fuel t)
        ]
        | object_kind ↦ elim (opens b'}' (skip_blanks t)) [
          | some rest ↦ some (object end, rest)
          | none ↦ object_value (parse_members fuel t)
        ]
        | null_kind ↦ word null (expect (codes "ull") t)
        | true_kind ↦ word (boolean true) (expect (codes "rue") t)
        | false_kind ↦ word (boolean false) (expect (codes "alse") t)
        | number_kind ↦ number_value (span_number (c ∷ t))
      ]
    ]

    -- One element or more, behind `[` or a comma, up to the closing bracket.
    pub parse_items : ℕ → Text → Option (Items × Text)
    parse_items zero s = none
    parse_items (suc fuel) s = elim (parse_value fuel s) [
      | none ↦ none
      | some (v, t) ↦ elim (opens b',' (skip_blanks t)) [
        | some rest ↦ add_item v (parse_items fuel rest)
        | none ↦ elim (opens b']' (skip_blanks t)) [
          | some rest ↦ some (item v nil, rest)
          | none ↦ none
        ]
      ]
    ]

    -- One member or more, behind `{` or a comma, up to the closing brace.
    pub parse_members : ℕ → Text → Option (Fields × Text)
    parse_members zero s = none
    parse_members (suc fuel) s = elim (opens 34 (skip_blanks s)) [
      | none ↦ none
      | some q ↦ elim (unquote (length q) q) [
        | none ↦ none
        | some (k, r) ↦ elim (opens b':' (skip_blanks r)) [
          | none ↦ none
          | some s' ↦ elim (parse_value fuel s') [
            | none ↦ none
            | some (v, t) ↦ elim (opens b',' (skip_blanks t)) [
              | some rest ↦ add_member k v (parse_members fuel rest)
              | none ↦ elim (opens b'}' (skip_blanks t)) [
                | some rest ↦ some (put_first k v end, rest)
                | none ↦ none
              ]
            ]
          ]
        ]
      ]
    ]

  abbrev finished : Option (Js × Text) → Result Js
  finished none = err (other_error (codes "SyntaxError"))
  finished (some (v, rest)) = elim (skip_blanks rest) [
    | [] ↦ ok v
    | c ∷ s ↦ err (other_error (codes "SyntaxError"))
  ]

  -- Each level of nesting takes two rounds and two brackets, so that the length is fuel enough.
  unfoldable pub json_parse : Text → Result Js
  unfolding parse_value
  json_parse s = finished (parse_value (length s + 1) s)

parse_tests :
    (number_of : Text → JsNumber)
    → (json_parse number_of
          (codes " {\"a\" : [ 1.5e3 , null,true ], \"b\":\"x\\n\\u0041\" , \"a\":{} } ")
        ≡ ok (
            object (
              field
                (codes "a")
                (object end)
                (field (codes "b") (string (b'x' ∷ 10 ∷ b'A' ∷ [])) end))))
      × (json_parse number_of (codes "[01]") ≡ err (other_error (codes "SyntaxError")))
      × (json_parse number_of (codes "[1,]") ≡ err (other_error (codes "SyntaxError")))
unfolding json_parse is_digit
parse_tests number_of = (refl, refl, refl)
