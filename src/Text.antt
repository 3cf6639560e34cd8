-- ===== src/Text.antt =====
-- JavaScript's strings, as far as the SDK uses them: code units as numbers, `trim`,
-- `Number.prototype.toString(radix)`, `BigInt(string)` and the patterns that the SDK tests.
pub mod Digits
pub mod Parsing
pub mod Equality
pub mod Trim
use Prim.Native.Char.{code}
use Prim.Native.String.{String}
use zkstellar.Prelude.{
  ℕ, ◌+◌, ◌-◌, ◌*◌, ◌/◌, ◌%◌, ◌<◌, Bool, true, false, ◌&&◌, ◌||◌, List, [], ◌∷◌, ◌++◌, Option, none,
  some, arith, ltb, leb, ◌==◌, if◌then◌else◌, dec_lt, ◌≡◌, refl,
}
use zkstellar.Prelude.Wf.{lt_wf}
use mathlib.Core.Logic.{dite}
use mathlib.Core.WellFounded.{Acc}

-- A string is the list of its code units.
abbrev pub Text : Type 0
Text = List ℕ

-- The code units of a literal.
abbrev pub codes : String → Text
codes String.[] = []
codes (String.◌∷◌ c s) = code c ∷ codes s

abbrev pub text_eq : Text → Text → Bool
text_eq [] [] = true
text_eq (c ∷ s) (d ∷ t) = c == d && text_eq s t
text_eq _ _ = false

pub data ℤ : Type 0 where
  pos : ℕ → ℤ
  negsuc : ℕ → ℤ

-- WhiteSpace and LineTerminator of ECMAScript.
pub is_white : ℕ → Bool
is_white c =
    (leb 9 c && leb c 13)
    || c == 32
    || c == 0xa0
    || c == 0x1680
    || (leb 0x2000 c && leb c 0x200a)
    || c == 0x2028
    || c == 0x2029
    || c == 0x202f
    || c == 0x205f
    || c == 0x3000
    || c == 0xfeff

pub trim_start : Text → Text
trim_start [] = []
trim_start (c ∷ s) = if is_white c then trim_start s else c ∷ s

abbrev pub end_with : ℕ → Text → Text
end_with c [] = if is_white c then [] else c ∷ []
end_with c (d ∷ s) = c ∷ d ∷ s

pub trim_end : Text → Text
trim_end [] = []
trim_end (c ∷ s) = end_with c (trim_end s)

unfoldable pub trim : Text → Text
unfolding is_white trim_start trim_end
trim s = trim_end (trim_start s)

-- A digit's value, in any radix up to sixteen, in either case.
unfoldable pub digit_value : ℕ → Option ℕ
digit_value c =
    if leb b'0' c && leb c b'9'
    then some (c - b'0')
    else if leb b'a' c && leb c b'f'
    then some (c - b'a' + 10)
    else if leb b'A' c && leb c b'F'
    then some (c - b'A' + 10)
    else none

abbrev below : ℕ → Option ℕ → Bool
below r none = false
below r (some d) = ltb d r

-- The character classes `[0-9]` (radix 10) and `[0-9a-fA-F]` (radix 16).
unfoldable pub is_digit : ℕ → ℕ → Bool
unfolding digit_value
is_digit r c = below r (digit_value c)

unfoldable pub all_digits : ℕ → Text → Bool
all_digits r [] = true
all_digits r (c ∷ s) = is_digit r c && all_digits r s

abbrev pub is_empty : Text → Bool
is_empty [] = true
is_empty (c ∷ s) = false

-- `[...]+`
abbrev pub some_digits : ℕ → Text → Bool
some_digits r [] = false
some_digits r (c ∷ s) = all_digits r (c ∷ s)

abbrev digit_or_zero : Option ℕ → ℕ
digit_or_zero none = 0
digit_or_zero (some d) = d

-- The number that digits spell behind `acc`.
unfoldable pub value : ℕ → ℕ → Text → ℕ
unfolding digit_value
value r acc [] = acc
value r acc (c ∷ s) = value r (acc * r + digit_or_zero (digit_value c)) s

abbrev numeral : ℕ → Text → Option ℤ
numeral r s = if some_digits r s then some (pos (value r 0 s)) else none

abbrev negate : ℕ → ℤ
negate ℕ.zero = pos 0
negate (ℕ.suc n) = negsuc n

abbrev minus : Text → Option ℤ
minus s = if some_digits 10 s then some (negate (value 10 0 s)) else none

-- StringNumericLiteral behind a leading zero: a radix prefix, or more decimal digits.
abbrev prefixed : ℕ → Text → Option ℤ
prefixed x s =
    if x == b'x' || x == b'X'
    then numeral 16 s
    else if x == b'o' || x == b'O'
    then numeral 8 s
    else if x == b'b' || x == b'B'
    then numeral 2 s
    else numeral 10 (b'0' ∷ x ∷ s)

abbrev pub literal : Text → Option ℤ
literal [] = some (pos 0)
literal (c ∷ []) = numeral 10 (c ∷ [])
literal (c ∷ x ∷ s) =
    if c == b'0'
    then prefixed x s
    else if c == b'-'
    then minus (x ∷ s)
    else if c == b'+'
    then numeral 10 (x ∷ s)
    else numeral 10 (c ∷ x ∷ s)

-- `BigInt(text)`; `none` is its SyntaxError.
unfoldable pub big_int : Text → Option ℤ
unfolding trim all_digits is_digit value
big_int s = literal (trim s)

unfoldable pub digit_char : ℕ → ℕ
digit_char d = if ltb d 10 then b'0' + d else b'a' + (d - 10)

-- A radix is two more than `k`, so that a quotient is smaller.
pub quotient_lt : (k n : ℕ) → 0 < n → n / (k + 2) < n
quotient_lt k n h = grind arith

pub emit : (k n : ℕ) → Acc ◌<◌ n → Text → Text
emit k n (Acc.intro _ smaller) out =
    dite (dec_lt 0 n)
      (λ h.
        emit k (n / (k + 2)) (smaller (n / (k + 2)) (quotient_lt k n h))
          (digit_char (n % (k + 2)) ∷ out))
      (λ _. out)

-- `n.toString(k + 2)` on a number that is not negative.
pub print_radix : ℕ → ℕ → Text
unfolding emit lt_wf dec_lt digit_char
print_radix k n = if n == 0 then b'0' ∷ [] else emit k n (lt_wf.apply n) []

-- `value.toString()` of a bigint.
unfoldable pub print_decimal : ℤ → Text
unfolding print_radix
print_decimal (pos n) = print_radix 8 n
print_decimal (negsuc n) = b'-' ∷ print_radix 8 (n + 1)

-- `value.toString(16)` of a bigint that is not negative.
unfoldable pub print_hex : ℕ → Text
unfolding print_radix
print_hex n = print_radix 14 n

big_int_tests :
    (big_int (codes " 0xFf ") ≡ some (pos 255))
    × (big_int (codes "-12") ≡ some (negsuc 11))
    × (big_int (codes "") ≡ some (pos 0))
    × (big_int (codes "0x") ≡ none)
    × (print_hex 255 ≡ codes "ff")
    × (print_decimal (negsuc 99) ≡ codes "-100")
unfolding big_int print_hex print_decimal
big_int_tests = (refl, refl, refl, refl, refl, refl)
