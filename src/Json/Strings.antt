-- ===== src/Json/Strings.antt =====
-- A printed string is read back.
use zkstellar.Prelude.{
  ℕ, suc, zero, ◌+◌, ◌*◌, ◌/◌, ◌%◌, ◌<◌, ◌≤◌, ◌≡◌, refl, ◌∙◌, ap, Bool, true, false, ◌&&◌, ◌||◌, [],
  ◌∷◌, ◌++◌, some, length, ltb, ◌==◌, if◌then◌else◌, arith, All, length-append, Bool-cases, inl,
  inr,
}
use zkstellar.Text.{Text, all_digits, value, is_digit}
use zkstellar.Text.Digits.{digit_value-digit_char, is_digit-digit_char}
use zkstellar.Json.{is_high, is_low, unicode_escape, quote_unit, quote_units}
use zkstellar.Json.Lex.{Lexeme, code_unit, lex_unit, unquote}

abbrev pub IsUnit : ℕ → Type 0
IsUnit c = c < 0x10000

lex_plain : (c : ℕ) (t : Text) → 32 ≤ c → ¬ (c ≡ 34) → ¬ (c ≡ 92) → lex_unit (c ∷ t) ≡ code_unit c t
unfolding lex_unit
lex_plain c t h k l = ground arith

-- The number is below 2 ^ 16, so that its four digits are all.
four_digits :
    (c : ℕ)
    → IsUnit c
    → (((0 + c / 0x1000 % 16) * 16 + c / 0x100 % 16) * 16 + c / 16 % 16) * 16 + c % 16 ≡ c
four_digits c h = omega arith

lex_unicode : (c : ℕ) (t : Text) → IsUnit c → lex_unit (unicode_escape c ++ t) ≡ code_unit c t
unfolding lex_unit all_digits is_digit value
lex_unicode c t h =
    rw
      (
        is_digit-digit_char 16 (c / 0x1000 % 16) (omega arith) (omega arith),
        is_digit-digit_char 16 (c / 0x100 % 16) (omega arith) (omega arith),
        is_digit-digit_char 16 (c / 16 % 16) (omega arith) (omega arith),
        is_digit-digit_char 16 (c % 16) (omega arith) (omega arith),
      )
      (rw
        (
          digit_value-digit_char (c / 0x1000 % 16) (omega arith),
          digit_value-digit_char (c / 0x100 % 16) (omega arith),
          digit_value-digit_char (c / 16 % 16) (omega arith),
          digit_value-digit_char (c % 16) (omega arith),
        )
        (ap (λ n. code_unit n t) (four_digits c h)))

same_unit : (c d : ℕ) (t : Text) → (c == d) ≡ true → code_unit d t ≡ code_unit c t
same_unit c d t h = ap (λ n. code_unit n t) (ground arith)

-- A printed text under a test.
either :
    (test : Bool) (x y t : Text) (r : Lexeme)
    → (test ≡ true → lex_unit (x ++ t) ≡ r)
    → (test ≡ false → lex_unit (y ++ t) ≡ r)
    → lex_unit ((if test then x else y) ++ t) ≡ r
either true x y t r h k = h refl
either false x y t r h k = k refl

lex_last :
    (c : ℕ) (t : Text)
    → IsUnit c
    → (c == 34) ≡ false
    → (c == 92) ≡ false
    → lex_unit ((if ltb c 32 || is_high c || is_low c then unicode_escape c else c ∷ []) ++ t)
      ≡ code_unit c t
lex_last c t h no_quote no_backslash =
    either (ltb c 32 || is_high c || is_low c) (unicode_escape c) (c ∷ []) t (code_unit c t)
      (λ escaped. lex_unicode c t h)
      (λ plain. lex_plain c t (ground arith) (ground arith) (ground arith))

lex_unit-quote_unit : (c : ℕ) (t : Text) → IsUnit c → lex_unit (quote_unit c ++ t) ≡ code_unit c t
unfolding quote_unit lex_unit
lex_unit-quote_unit c t u =
    let r = code_unit c t in
    either (c == 8) _ _ t r (same_unit c 8 t) λ h1. either (c == 9) _ _ t r (same_unit c 9 t) λ h2.
      either (c == 10) _ _ t r (same_unit c 10 t) λ h3.
        either (c == 12) _ _ t r (same_unit c 12 t) λ h4.
          either (c == 13) _ _ t r (same_unit c 13 t) λ h5.
            either (c == 34) _ _ t r (same_unit c 34 t)
              λ h6. either (c == 92) _ _ t r (same_unit c 92 t) λ h7. lex_last c t u h6 h7

-- A code unit that is read as itself, in front of more.
unquote_step :
    (fuel c : ℕ) (t : Text) (s rest : Text) (text : Text)
    → lex_unit t ≡ code_unit c text
    → unquote fuel text ≡ some (s, rest)
    → unquote (suc fuel) t ≡ some (c ∷ s, rest)
unfolding unquote
unquote_step fuel c t s rest text h k = rw (unquote, h, k)

pub append_assoc : (x y z : Text) → (x ++ y) ++ z ≡ x ++ (y ++ z)
append_assoc [] y z = refl
append_assoc (c ∷ x) y z = ap (λ s. c ∷ s) (append_assoc x y z)

quote_units_pair :
    (c d : ℕ) (s : Text)
    → (is_high c && is_low d) ≡ true
    → quote_units (c ∷ d ∷ s) ≡ c ∷ d ∷ quote_units s
unfolding quote_units
quote_units_pair c d s h = rw (quote_units, h)

quote_units_alone :
    (c d : ℕ) (s : Text)
    → (is_high c && is_low d) ≡ false
    → quote_units (c ∷ d ∷ s) ≡ quote_unit c ++ quote_units (d ∷ s)
unfolding quote_units
quote_units_alone c d s h = rw (quote_units, h)

unquote-quote_units :
    (s : Text) (fuel : ℕ) (rest : Text)
    → All IsUnit s
    → length s < fuel
    → unquote fuel (quote_units s ++ (34 ∷ rest)) ≡ some (s, rest)
unfolding unquote quote_units lex_unit
unquote-quote_units s zero rest h k = absurd (omega arith)
unquote-quote_units [] (suc fuel) rest h k = refl
unquote-quote_units (c ∷ []) (suc fuel) rest (h, hs) k =
    unquote_step fuel c (quote_unit c ++ (34 ∷ rest)) [] rest (34 ∷ rest)
      (lex_unit-quote_unit c (34 ∷ rest) h) (unquote-quote_units [] fuel rest tt (omega arith))
unquote-quote_units (c ∷ d ∷ s) (suc zero) rest h k = absurd (omega arith)
unquote-quote_units (c ∷ d ∷ s) (suc (suc fuel)) rest (h, (hd, hs)) k =
    elim (Bool-cases (is_high c && is_low d)) [
      | inl pair ↦
          ap (λ q. unquote (suc (suc fuel)) (q ++ (34 ∷ rest))) (quote_units_pair c d s pair)
          ∙ unquote_step (suc fuel) c (c ∷ d ∷ (quote_units s ++ (34 ∷ rest))) (d ∷ s) rest _
              (lex_plain c _ (ground arith) (ground arith) (ground arith))
              (unquote_step fuel d (d ∷ (quote_units s ++ (34 ∷ rest))) s rest _
                (lex_plain d _ (ground arith) (ground arith) (ground arith))
                (unquote-quote_units s fuel rest hs (omega arith)))
      | inr alone ↦
          let tail = unquote-quote_units (d ∷ s) (suc fuel) rest (hd, hs) (omega arith) in
          let split = append_assoc (quote_unit c) (quote_units (d ∷ s)) (34 ∷ rest) in
          ap (λ q. unquote (suc (suc fuel)) (q ++ (34 ∷ rest))) (quote_units_alone c d s alone)
          ∙ ap (unquote (suc (suc fuel))) split
          ∙ unquote_step (suc fuel) c (quote_unit c ++ (quote_units (d ∷ s) ++ (34 ∷ rest))) (d ∷ s)
              rest _ (lex_unit-quote_unit c (quote_units (d ∷ s) ++ (34 ∷ rest)) h) tail
    ]

length-quote_unit : (c : ℕ) → 0 < length (quote_unit c)
unfolding quote_unit
length-quote_unit c = ground arith

-- Each code unit is printed as one or more.
length-quote_units : (s : Text) → length s ≤ length (quote_units s)
length-quote_units [] = omega arith
length-quote_units (c ∷ []) = unfold quote_units in omega (arith, length-quote_unit c)
length-quote_units (c ∷ d ∷ s) = elim (Bool-cases (is_high c && is_low d)) [
  | inl pair ↦ rw (quote_units_pair c d s pair) (omega (arith, length-quote_units s))
  | inr alone ↦ rw (quote_units_alone c d s alone) (
      omega (
        arith,
        length-quote_unit c,
        length-append (quote_unit c) (quote_units (d ∷ s)),
        length-quote_units (d ∷ s),
      ))
]

-- With the length of what follows as fuel, a printed string is read back.
pub unquote_printed :
    (s rest : Text)
    → All IsUnit s
    → unquote (length (quote_units s ++ (34 ∷ rest))) (quote_units s ++ (34 ∷ rest))
      ≡ some (s, rest)
unquote_printed s rest h =
    unquote-quote_units s (length (quote_units s ++ (34 ∷ rest))) rest h
      (omega (arith, length-quote_units s, length-append (quote_units s) (34 ∷ rest)))
