-- ===== src/Text/Parsing.antt =====
-- `BigInt` on the strings that the SDK's patterns accept.
use zkstellar.Prelude.{ℕ, ◌≤◌, ◌≡◌, refl, true, false, some, [], ◌∷◌, arith, both→left, both→right}
use zkstellar.Text.{
  Text, pos, is_white, trim_start, trim_end, trim, digit_value, is_digit, all_digits, some_digits,
  value, big_int, literal,
}

decimal_range : (c : ℕ) → is_digit 10 c ≡ true → (b'0' ≤ c) × (c ≤ b'9')
unfolding is_digit digit_value
decimal_range c h = ground arith

hex_range : (c : ℕ) → is_digit 16 c ≡ true → (b'0' ≤ c) × (c ≤ b'f')
unfolding is_digit digit_value
hex_range c h = ground arith

not_white : (c : ℕ) → b'0' ≤ c → c ≤ b'x' → is_white c ≡ false
unfolding is_white
not_white c h k = ground arith

-- Text with no white space at all.
abbrev NoWhite : Text → Type 0
NoWhite [] = Unit
NoWhite (c ∷ s) = (is_white c ≡ false) × NoWhite s

trim_end-NoWhite : (s : Text) → NoWhite s → trim_end s ≡ s
unfolding trim_end
trim_end-NoWhite [] h = refl
trim_end-NoWhite (c ∷ []) (h, _) = rw h
trim_end-NoWhite (c ∷ d ∷ s) (h, k) = rw (trim_end-NoWhite (d ∷ s) k)

trim-NoWhite : (s : Text) → NoWhite s → trim s ≡ s
unfolding trim trim_start
trim-NoWhite [] h = refl
trim-NoWhite (c ∷ s) (h, k) = rw h (trim_end-NoWhite (c ∷ s) (h, k))

NoWhite-digits :
    (r : ℕ) (s : Text)
    → ((c : ℕ) → is_digit r c ≡ true → is_white c ≡ false)
    → all_digits r s ≡ true
    → NoWhite s
unfolding all_digits
NoWhite-digits r [] f h = tt
NoWhite-digits r (c ∷ s) f h =
    (f c (both→left _ _ h), NoWhite-digits r s f (both→right (is_digit r c) _ h))

decimal-NoWhite : (s : Text) → all_digits 10 s ≡ true → NoWhite s
decimal-NoWhite s =
    NoWhite-digits 10 s
      (λ c d. not_white c (decimal_range c d).0 (omega (arith, decimal_range c d)))

hex-NoWhite : (s : Text) → all_digits 16 s ≡ true → NoWhite s
hex-NoWhite s =
    NoWhite-digits 16 s (λ c d. not_white c (hex_range c d).0 (omega (arith, hex_range c d)))

first_two :
    (c x : ℕ) (s : Text)
    → all_digits 10 (c ∷ x ∷ s) ≡ true
    → (b'0' ≤ c) × (c ≤ b'9') × (b'0' ≤ x) × (x ≤ b'9')
unfolding all_digits
first_two c x s h =
    let d = decimal_range c (both→left _ _ h) in
    let e = decimal_range x (both→left _ _ (both→right (is_digit 10 c) _ h)) in (d.0, d.1, e.0, e.1)

literal-decimal : (s : Text) → some_digits 10 s ≡ true → literal s ≡ some (pos (value 10 0 s))
literal-decimal [] h = cc
literal-decimal (c ∷ []) h = rw h
literal-decimal (c ∷ x ∷ s) h = ground (arith, first_two c x s h)

some→all_digits : (r : ℕ) (s : Text) → some_digits r s ≡ true → all_digits r s ≡ true
some→all_digits r [] h = cc
some→all_digits r (c ∷ s) h = h

-- `BigInt` reads a string of decimal digits.
pub big_int-decimal : (s : Text) → some_digits 10 s ≡ true → big_int s ≡ some (pos (value 10 0 s))
unfolding big_int
big_int-decimal s h =
    rw (trim-NoWhite s (decimal-NoWhite s (some→all_digits 10 s h))) (literal-decimal s h)

-- `BigInt` reads hexadecimal digits behind `0x`.
pub big_int-hex :
    (s : Text) → some_digits 16 s ≡ true → big_int (b'0' ∷ b'x' ∷ s) ≡ some (pos (value 16 0 s))
unfolding big_int
big_int-hex s h =
    rw
      (trim-NoWhite (b'0' ∷ b'x' ∷ s) (
        not_white b'0' (omega arith) (omega arith),
        (not_white b'x' (omega arith) (omega arith), hex-NoWhite s (some→all_digits 16 s h)),
      ))
      (rw h)
