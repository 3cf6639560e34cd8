-- ===== src/Text/Digits.antt =====
-- What `toString(radix)` prints: digits only, of the number's value, and no more than it needs.
use zkstellar.Prelude.{
  ℕ, zero, suc, ◌+◌, ◌*◌, ◌/◌, ◌%◌, ◌^◌, ◌≤◌, ◌<◌, ◌≡◌, refl, ◌∙◌, ap, true, some, [], ◌∷◌, length,
  arith, dec_lt, Bool-cases, inl, inr, ◌==◌,
}
use zkstellar.Prelude.Wf.{lt_wf}
use zkstellar.Text.{
  Text, digit_value, is_digit, all_digits, some_digits, value, digit_char, emit, print_radix,
  quotient_lt,
}
use mathlib.Core.Logic.{dif_pos, dif_neg}
use mathlib.Core.WellFounded.{Acc}
use native.Mathlib.Bridge.{le_prop}
use native.Mathlib.Nat.{div-lt_iff_lt-mul, pow-suc, pow-zero}

-- A digit is read back as it was printed.
pub digit_value-digit_char : (d : ℕ) → d < 16 → digit_value (digit_char d) ≡ some d
unfolding digit_value digit_char
digit_value-digit_char d h = ground arith

pub is_digit-digit_char : (r d : ℕ) → d < r → r ≤ 16 → is_digit r (digit_char d) ≡ true
unfolding is_digit
is_digit-digit_char r d h k = ground (arith, digit_value-digit_char d)

value-digit_char :
    (r acc d : ℕ) (s : Text) → d < 16 → value r acc (digit_char d ∷ s) ≡ value r (acc * r + d) s
unfolding value
value-digit_char r acc d s h = rw (digit_value-digit_char d h)

-- The quotient and the remainder give the number back.
divided : (k n : ℕ) → n / (k + 2) * (k + 2) + n % (k + 2) ≡ n
divided k n = grind arith

remainder_lt : (k n : ℕ) → n % (k + 2) < k + 2
remainder_lt k n = grind arith

module _ (k : ℕ) (small : k + 2 ≤ 16) where
  value-emit :
      (n : ℕ) (w : Acc ◌<◌ n) (out : Text) → value (k + 2) 0 (emit k n w out) ≡ value (k + 2) n out
  unfolding emit
  value-emit n (Acc.intro _ smaller) out = elim (dec_lt 0 n) [
    | yes p ↦ rw (dif_pos _ le_prop p) (
        value-emit (n / (k + 2)) (smaller (n / (k + 2)) (quotient_lt k n p))
          (digit_char (n % (k + 2)) ∷ out)
        ∙ value-digit_char (k + 2) (n / (k + 2)) (n % (k + 2)) out (omega (arith, remainder_lt k n))
        ∙ ap (λ (m : ℕ). value (k + 2) m out) (divided k n))
    | no p ↦ rw (dif_neg _ p) (ap (λ (m : ℕ). value (k + 2) m out) (omega arith))
  ]

  all_digits-emit :
      (n : ℕ) (w : Acc ◌<◌ n) (out : Text)
      → all_digits (k + 2) out ≡ true
      → all_digits (k + 2) (emit k n w out) ≡ true
  unfolding emit
  all_digits-emit n (Acc.intro _ smaller) out h = elim (dec_lt 0 n) [
    | yes p ↦ rw (dif_pos _ le_prop p) (
        all_digits-emit (n / (k + 2)) (smaller (n / (k + 2)) (quotient_lt k n p))
          (digit_char (n % (k + 2)) ∷ out)
          (unfold all_digits in
            rw (is_digit-digit_char (k + 2) (n % (k + 2)) (remainder_lt k n) small) h))
    | no p ↦ rw (dif_neg _ p) h
  ]

-- Enough places for the number are enough for its print.
quotient_fits : (k n m : ℕ) → n < (k + 2) ^ suc m → n / (k + 2) < (k + 2) ^ m
quotient_fits k n m h = (div-lt_iff_lt-mul (omega arith)).1 (rw pow-suc at h)

length-emit :
    (k m n : ℕ) (w : Acc ◌<◌ n) (out : Text)
    → n < (k + 2) ^ m
    → length (emit k n w out) ≤ m + length out
unfolding emit
length-emit k zero n (Acc.intro _ smaller) out h = elim (dec_lt 0 n) [
  | yes p ↦ absurd (omega (arith, pow-zero (k + 2)))
  | no p ↦ rw (dif_neg _ p) (omega arith)
]
length-emit k (suc m) n (Acc.intro _ smaller) out h = elim (dec_lt 0 n) [
  | yes p ↦ rw (dif_pos _ le_prop p) (
      omega (
        arith,
        length-emit k m (n / (k + 2)) (smaller (n / (k + 2)) (quotient_lt k n p))
            (digit_char (n % (k + 2)) ∷ out) (quotient_fits k n m h),
      ))
  | no p ↦ rw (dif_neg _ p) (omega arith)
]

emit_pos :
    (k n : ℕ) (w : Acc ◌<◌ n) (c : ℕ) (out : Text)
    → some_digits (k + 2) (emit k n w (c ∷ out)) ≡ all_digits (k + 2) (emit k n w (c ∷ out))
unfolding emit
emit_pos k n (Acc.intro _ smaller) c out = elim (dec_lt 0 n) [
  | yes p ↦ rw (dif_pos _ le_prop p) (
      emit_pos k (n / (k + 2)) (smaller (n / (k + 2)) (quotient_lt k n p))
        (digit_char (n % (k + 2))) (c ∷ out))
  | no p ↦ rw (dif_neg _ p)
]

emit_nonempty :
    (k n : ℕ) (w : Acc ◌<◌ n)
    → 0 < n
    → some_digits (k + 2) (emit k n w []) ≡ all_digits (k + 2) (emit k n w [])
unfolding emit
emit_nonempty k n (Acc.intro _ smaller) p = rw (dif_pos _ le_prop p) (
    emit_pos k (n / (k + 2)) (smaller (n / (k + 2)) (quotient_lt k n p)) (digit_char (n % (k + 2)))
      [])

module _ (k n : ℕ) (small : k + 2 ≤ 16) where
  -- The print of a number is one digit or more.
  pub some_digits-print_radix : some_digits (k + 2) (print_radix k n) ≡ true
  unfolding print_radix all_digits is_digit digit_value
  some_digits-print_radix = elim (Bool-cases (n == 0)) [
    | inl z ↦ rw z (ground arith)
    | inr nz ↦ rw nz (
        rw (emit_nonempty k n (lt_wf.apply n) (ground arith))
          (all_digits-emit k small n (lt_wf.apply n) [] refl))
  ]

  -- The digits spell the number.
  pub value-print_radix : value (k + 2) 0 (print_radix k n) ≡ n
  unfolding print_radix
  value-print_radix = elim (Bool-cases (n == 0)) [
    | inl z ↦ rw z (unfold value in ground arith)
    | inr nz ↦ rw nz (value-emit k small n (lt_wf.apply n) [] ∙ unfold value in refl)
  ]

-- A number below `(k + 2) ^ (m + 1)` needs `m + 1` digits at most.
pub length-print_radix : (k m n : ℕ) → n < (k + 2) ^ suc m → length (print_radix k n) ≤ suc m
unfolding print_radix
length-print_radix k m n h = elim (Bool-cases (n == 0)) [
  | inl z ↦ rw z (omega arith)
  | inr nz ↦ rw nz (omega (arith, length-emit k (suc m) n (lt_wf.apply n) [] h))
]
