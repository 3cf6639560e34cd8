-- ===== src/Json.antt =====
-- `JSON.stringify` and the UTF-8 bytes of a string, as sdk/src/bundle.ts and sdk/src/bundleIO.ts use
-- them. How a number is printed is the parameter `number_text`, since fractions are not modelled.
pub mod Lex
pub mod Parse
pub mod Strings
pub mod Steps
pub mod Reads
pub mod Members
pub mod RoundTrip
use zkstellar.Prelude.{
  ℕ, suc, ◌+◌, ◌-◌, ◌*◌, ◌/◌, ◌%◌, Bool, true, false, ◌&&◌, ◌||◌, List, [], ◌∷◌, ◌++◌, Option, none,
  some, replicate, leb, ltb, ◌==◌, if◌then◌else◌,
}
use zkstellar.Text.{Text, codes, digit_char, pos}
use zkstellar.Types.{Failure, other_error, Result, ok, err, ◌>>=◌}
use zkstellar.Js.{Js, Items, Fields, JsNumber, int, nil, item, end, field}

abbrev pub is_high : ℕ → Bool
is_high c = leb 0xd800 c && leb c 0xdbff

abbrev pub is_low : ℕ → Bool
is_low c = leb 0xdc00 c && leb c 0xdfff

-- `\u` and four hexadecimal digits.
abbrev pub unicode_escape : ℕ → Text
unicode_escape c =
    92
    ∷ b'u'
    ∷ digit_char (c / 0x1000 % 16)
    ∷ digit_char (c / 0x100 % 16)
    ∷ digit_char (c / 16 % 16)
    ∷ digit_char (c % 16)
    ∷ []

abbrev short_escape : ℕ → Text
short_escape letter = 92 ∷ letter ∷ []

-- A code unit that is no half of a surrogate pair; 34 is the quotation mark and 92 the backslash.
pub quote_unit : ℕ → Text
unfolding digit_char
quote_unit c =
    if c == 8
    then short_escape b'b'
    else if c == 9
    then short_escape b't'
    else if c == 10
    then short_escape b'n'
    else if c == 12
    then short_escape b'f'
    else if c == 13
    then short_escape b'r'
    else if c == 34
    then short_escape 34
    else if c == 92
    then short_escape 92
    else if ltb c 32 || is_high c || is_low c
    then unicode_escape c
    else c ∷ []

-- The code units of a string between the quotation marks.
pub quote_units : Text → Text
quote_units [] = []
quote_units (c ∷ []) = quote_unit c
quote_units (c ∷ d ∷ s) = elim (is_high c && is_low d) [
  | true ↦ c ∷ d ∷ quote_units s
  | false ↦ quote_unit c ++ quote_units (d ∷ s)
]

pub quote : Text → Text
unfolding quote_units quote_unit
quote s = 34 ∷ (quote_units s ++ (34 ∷ []))

-- `indent` says whether there is one, of two spaces, and how deep the value stands.
abbrev line_break : Option ℕ → Text
line_break none = []
line_break (some depth) = 10 ∷ replicate (2 * depth) b' '

abbrev deeper : Option ℕ → Option ℕ
deeper none = none
deeper (some depth) = some (suc depth)

abbrev pub join_with : Text → Text → List Text → Text
join_with separator first [] = first
join_with separator first (t ∷ ts) = first ++ (separator ++ join_with separator t ts)

-- The texts of the elements or members, between brackets.
abbrev pub wrap : ℕ → ℕ → Option ℕ → List Text → Text
wrap left right indent [] = left ∷ right ∷ []
wrap left right indent (t ∷ ts) =
    left
    ∷ (line_break (deeper indent)
        ++ (join_with (b',' ∷ line_break (deeper indent)) t ts
            ++ (line_break indent ++ (right ∷ []))))

abbrev colon : Option ℕ → Text
colon none = b':' ∷ []
colon (some depth) = b':' ∷ b' ' ∷ []

-- `undefined` is skipped in an object and is `null` in an array.
abbrev or_null : Option Text → Text
or_null none = codes "null"
or_null (some t) = t

abbrev member : Option ℕ → Text → Option Text → List Text → List Text
member indent key none rest = rest
member indent key (some t) rest = (key ++ (colon indent ++ t)) ∷ rest

abbrev bigint_failure : Failure
bigint_failure = other_error (codes "Do not know how to serialize a BigInt")

module _ (number_text : JsNumber → Text) where
  abbrev byte_texts : List ℕ → List Text
  byte_texts [] = []
  byte_texts (b ∷ bs) = number_text (int (pos b)) ∷ byte_texts bs

  -- What `toJSON` makes of a Buffer: `{"type":"Buffer","data":[…]}`.
  abbrev buffer_text : Option ℕ → List ℕ → Text
  buffer_text indent bs = wrap b'{' b'}' indent (
      (quote (codes "type") ++ (colon indent ++ quote (codes "Buffer")))
      ∷ (quote (codes "data") ++ (colon indent ++ wrap b'[' b']' (deeper indent) (byte_texts bs)))
      ∷ [])

  -- `none` is `undefined`.
  unfoldable mutual
    unfolding quote

    pub json : Option ℕ → Js → Result (Option Text)
    json indent Js.undefined = ok none
    json indent Js.null = ok (some (codes "null"))
    json indent (Js.boolean true) = ok (some (codes "true"))
    json indent (Js.boolean false) = ok (some (codes "false"))
    json indent (Js.number n) = ok (some (number_text n))
    json indent (Js.bigint n) = err bigint_failure
    json indent (Js.string s) = ok (some (quote s))
    json indent (Js.array vs) =
        json_items (deeper indent) vs >>= λ texts. ok (some (wrap b'[' b']' indent texts))
    json indent (Js.object fs) =
        json_fields (deeper indent) fs >>= λ texts. ok (some (wrap b'{' b'}' indent texts))
    json indent (Js.buffer bs) = ok (some (buffer_text indent bs))

    pub json_items : Option ℕ → Items → Result (List Text)
    json_items indent nil = ok []
    json_items indent (item v vs) =
        json indent v >>= λ t. json_items indent vs >>= λ ts. ok (or_null t ∷ ts)

    pub json_fields : Option ℕ → Fields → Result (List Text)
    json_fields indent end = ok []
    json_fields indent (field k v fs) =
        json indent v >>= λ t. json_fields indent fs >>= λ ts. ok (member indent (quote k) t ts)

-- The bytes of a code point above 0xffff, given as a surrogate pair.
abbrev utf8_pair : ℕ → ℕ → List ℕ
utf8_pair c d =
    let p = 0x10000 + (c - 0xd800) * 0x400 + (d - 0xdc00) in
    (0xf0 + p / 0x40000) ∷ (0x80 + p / 0x1000 % 64) ∷ (0x80 + p / 64 % 64) ∷ (0x80 + p % 64) ∷ []

-- The bytes of a single code unit; a surrogate without its other half becomes U+FFFD.
utf8_unit : ℕ → List ℕ
utf8_unit c =
    if ltb c 0x80
    then c ∷ []
    else if ltb c 0x800
    then (0xc0 + c / 64) ∷ (0x80 + c % 64) ∷ []
    else if is_high c || is_low c
    then 0xef ∷ 0xbf ∷ 0xbd ∷ []
    else (0xe0 + c / 0x1000) ∷ (0x80 + c / 64 % 64) ∷ (0x80 + c % 64) ∷ []

-- `Buffer.from(text, "utf8")`
unfoldable pub utf8 : Text → List ℕ
unfolding utf8_unit
utf8 [] = []
utf8 (c ∷ []) = utf8_unit c
utf8 (c ∷ d ∷ s) = elim (is_high c && is_low d) [
  | true ↦ utf8_pair c d ++ utf8 s
  | false ↦ utf8_unit c ++ utf8 (d ∷ s)
]
