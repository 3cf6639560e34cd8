-- ===== src/Json/Lex.antt =====
-- The tokens of JSON: blanks, strings and numbers, as `JSON.parse` reads them.
use zkstellar.Prelude.{
  ℕ, zero, suc, Bool, true, false, ◌&&◌, ◌||◌, [], ◌∷◌, Option, none, some, leb, ltb, ◌==◌,
  if◌then◌else◌,
}
use zkstellar.Text.{Text, all_digits, value}

abbrev pub is_blank : ℕ → Bool
is_blank c = c == 32 || c == 9 || c == 10 || c == 13

unfoldable pub skip_blanks : Text → Text
skip_blanks [] = []
skip_blanks (c ∷ s) = if is_blank c then skip_blanks s else c ∷ s

-- One step through a string behind its first quotation mark.
pub data Lexeme : Type 0 where
  bad : Lexeme
  closing : Text → Lexeme
  code_unit : ℕ → Text → Lexeme

abbrev lex_hex : Text → Lexeme
lex_hex (a ∷ b ∷ c ∷ d ∷ s) =
    if all_digits 16 (a ∷ b ∷ c ∷ d ∷ [])
    then code_unit (value 16 0 (a ∷ b ∷ c ∷ d ∷ [])) s
    else bad
lex_hex _ = bad

abbrev lex_escape : Text → Lexeme
lex_escape [] = bad
lex_escape (e ∷ s) =
    if e == 34 || e == 92 || e == b'/'
    then code_unit e s
    else if e == b'b'
    then code_unit 8 s
    else if e == b'f'
    then code_unit 12 s
    else if e == b'n'
    then code_unit 10 s
    else if e == b'r'
    then code_unit 13 s
    else if e == b't'
    then code_unit 9 s
    else if e == b'u'
    then lex_hex s
    else bad

unfoldable pub lex_unit : Text → Lexeme
unfolding all_digits value
lex_unit [] = bad
lex_unit (c ∷ s) =
    if c == 34
    then closing s
    else if c == 92
    then lex_escape s
    else if ltb c 32
    then bad
    else code_unit c s

abbrev with_unit : ℕ → Option (Text × Text) → Option (Text × Text)
with_unit c none = none
with_unit c (some (s, rest)) = some (c ∷ s, rest)

-- A string and what follows its last quotation mark. Each step takes a code unit at least.
unfoldable pub unquote : ℕ → Text → Option (Text × Text)
unfolding lex_unit
unquote zero s = none
unquote (suc fuel) s = elim (lex_unit s) [
  | bad ↦ none
  | closing rest ↦ some ([], rest)
  | code_unit c rest ↦ with_unit c (unquote fuel rest)
]

abbrev is_number_char : ℕ → Bool
is_number_char c =
    (leb b'0' c && leb c b'9') || c == b'-' || c == b'+' || c == b'.' || c == b'e' || c == b'E'

-- The longest run of such characters.
unfoldable pub span_number : Text → Text × Text
span_number [] = ([], [])
span_number (c ∷ s) =
    let (token, rest) = span_number s in if is_number_char c then (c ∷ token, rest) else ([], c ∷ s)

-- What stands behind the decimal digits.
abbrev is_decimal : ℕ → Bool
is_decimal c = leb b'0' c && leb c b'9'

skip_digits : Text → Text
skip_digits [] = []
skip_digits (c ∷ s) = if is_decimal c then skip_digits s else c ∷ s

-- One digit or more, and what follows them.
abbrev digits_then : Text → Option Text
digits_then [] = none
digits_then (c ∷ s) = if is_decimal c then some (skip_digits s) else none

abbrev ends : Option Text → Bool
ends (some []) = true
ends _ = false

abbrev signed_digits : Text → Bool
signed_digits [] = false
signed_digits (c ∷ s) =
    if c == b'+' || c == b'-' then ends (digits_then s) else ends (digits_then (c ∷ s))

abbrev is_exponent : Text → Bool
is_exponent [] = true
is_exponent (c ∷ s) = (c == b'e' || c == b'E') && signed_digits s

abbrev exponent_after : Option Text → Bool
exponent_after none = false
exponent_after (some s) = is_exponent s

abbrev is_fraction : Text → Bool
is_fraction [] = true
is_fraction (c ∷ s) = if c == b'.' then exponent_after (digits_then s) else is_exponent (c ∷ s)

-- No zero stands in front of another digit.
abbrev unsigned_number : Text → Bool
unsigned_number [] = false
unsigned_number (c ∷ s) =
    if c == b'0' then is_fraction s else is_decimal c && is_fraction (skip_digits s)

-- The grammar of a number.
unfoldable pub is_json_number : Text → Bool
unfolding skip_digits
is_json_number [] = false
is_json_number (c ∷ s) = if c == b'-' then unsigned_number s else unsigned_number (c ∷ s)
