-- ===== src/Validate/Elements.antt =====
-- What the checks of one coordinate, pair or signal accept.
use zkstellar.Prelude.{
  ℕ, ◌≤◌, ◌<◌, ◌≡◌, refl, inl, inr, true, List, [], ◌∷◌, some, length, arith, Bool-cases,
  Option-cases,
}
use zkstellar.Text.{Text, pos, some_digits, value, big_int}
use zkstellar.Text.Parsing.{big_int-decimal, big_int-hex}
use zkstellar.Types.{ok, >>=-eq-ok, FieldPath, at}
use zkstellar.Js.{Js, Items, string, array, elements, as_array, as_string, element}
use zkstellar.Validate.{
  bn254_field_modulus, hex_pattern, decimal_or_hex_pattern, assert_array,
  assert_proof_field_element, validate_public_signal, assert_pair,
}

-- The number that a string denotes: decimal digits, or hexadecimal digits behind `0x`.
pub data Denotes : Text → ℕ → Type 0 where
  decimal : {s : Text} → some_digits 10 s ≡ true → Denotes s (value 10 0 s)
  hexadecimal : {s : Text} → some_digits 16 s ≡ true → Denotes (b'0' ∷ b'x' ∷ s) (value 16 0 s)

pub Denotes-big_int : {s : Text} {n : ℕ} → Denotes s n → big_int s ≡ some (pos n)
Denotes-big_int (decimal {s} h) = big_int-decimal s h
Denotes-big_int (hexadecimal {s} h) = big_int-hex s h

-- A string of decimal digits that denotes a field element.
pub record IsCoordinate (v : Js) (n : ℕ) : Type 0 where
  pub coordinate_text : Text
  pub coordinate_string : v ≡ string coordinate_text
  pub coordinate_digits : some_digits 10 coordinate_text ≡ true
  pub coordinate_value : n ≡ value 10 0 coordinate_text
  pub coordinate_lt : n < bn254_field_modulus

as_string-eq-some : (v : Js) {s : Text} → as_string v ≡ some s → v ≡ string s
as_string-eq-some (Js.string t) h = cc
as_string-eq-some Js.undefined h = cc
as_string-eq-some _ h = cc

as_array-eq-some :
    (v : Js) {vs : List Js}
    → as_array v ≡ some vs
    → (is : Items) × (v ≡ array is) × (elements is ≡ vs)
as_array-eq-some (Js.array is) h = (is, refl, ground arith)
as_array-eq-some Js.undefined h = cc
as_array-eq-some _ h = cc

element_checked :
    (s : Text) (field : FieldPath) (v : Js)
    → as_string v ≡ some s
    → assert_proof_field_element v field ≡ ok tt
    → (some_digits 10 s ≡ true) × (value 10 0 s < bn254_field_modulus)
unfolding assert_proof_field_element
element_checked s field v e h = elim (Bool-cases (some_digits 10 s)) [
  | inl d ↦ ground (arith, big_int-decimal s d)
  | inr d ↦ ground arith
]

-- An accepted coordinate is the decimal print of a field element.
assert_proof_field_element-IsCoordinate :
    (v : Js) (field : FieldPath)
    → assert_proof_field_element v field ≡ ok tt
    → (n : ℕ) × IsCoordinate v n
assert_proof_field_element-IsCoordinate v field h = elim (Option-cases (as_string v)) [
  | inl e ↦ absurd (unfold assert_proof_field_element in ground arith)
  | inr (s, e) ↦
      let c = element_checked s field v e h in
      (
        value 10 0 s,
        record {
          coordinate_text = s;
          coordinate_string = as_string-eq-some v e;
          coordinate_digits = c.0;
          coordinate_value = refl;
          coordinate_lt = c.1;
        },
      )
]

-- An array of two coordinates at least.
pub record IsPair (v : Js) (x y : ℕ) : Type 0 where
  pub pair_elements : List Js
  pub pair_array : as_array v ≡ some pair_elements
  pub pair_length : 2 ≤ length pair_elements
  pub pair_x : IsCoordinate (element pair_elements 0) x
  pub pair_y : IsCoordinate (element pair_elements 1) y

-- An accepted array, and its length.
pub assert_array-eq-ok :
    (v : Js) (field : FieldPath) (m : ℕ) {vs : List Js}
    → assert_array v field m ≡ ok vs
    → (as_array v ≡ some vs) × (m ≤ length vs)
unfolding assert_array
assert_array-eq-ok v field m h = ground arith

-- What an accepted pair holds.
pub assert_pair-IsPair :
    (v : Js) (field : FieldPath) → assert_pair v field ≡ ok tt → (x : ℕ) × (y : ℕ) × IsPair v x y
unfolding assert_pair
assert_pair-IsPair v field h =
    let (vs, a, h1) = >>=-eq-ok (assert_array v field 2) _ h in
    let (u, b, h2) = >>=-eq-ok (assert_proof_field_element (element vs 0) (at field 0)) _ h1 in
    let (x, px) = assert_proof_field_element-IsCoordinate (element vs 0) (at field 0) b in
    let (y, py) = assert_proof_field_element-IsCoordinate (element vs 1) (at field 1) h2 in
    let (arr, len) = assert_array-eq-ok v field 2 a in
    (
      x,
      y,
      record { pair_elements = vs; pair_array = arr; pair_length = len; pair_x = px; pair_y = py },
    )

-- A string that denotes a field element.
pub record IsSignal (v : Js) (n : ℕ) : Type 0 where
  pub signal_text : Text
  pub signal_string : v ≡ string signal_text
  pub signal_denotes : Denotes signal_text n
  pub signal_lt : n < bn254_field_modulus

hex_pattern-Denotes : (s : Text) → hex_pattern s ≡ true → (n : ℕ) × Denotes s n
hex_pattern-Denotes [] h = cc
hex_pattern-Denotes (c ∷ []) h = cc
hex_pattern-Denotes (c ∷ x ∷ s) h =
    let digits : some_digits 16 s ≡ true = ground arith in
    let zero_digit : c ≡ b'0' = ground arith in
    let letter_x : x ≡ b'x' = ground arith in
    (value 16 0 s, rw (zero_digit, letter_x) (hexadecimal digits))

-- The pattern accepts only what denotes a number.
pub pattern-Denotes : (s : Text) → decimal_or_hex_pattern s ≡ true → (n : ℕ) × Denotes s n
pattern-Denotes s h = elim (Bool-cases (hex_pattern s)) [
  | inl hex ↦ hex_pattern-Denotes s hex
  | inr other ↦ (value 10 0 s, decimal (rw other at h))
]

signal_checked :
    (s : Text) (field : FieldPath) (v : Js) (n : ℕ)
    → as_string v ≡ some s
    → Denotes s n
    → validate_public_signal v field ≡ ok tt
    → n < bn254_field_modulus
unfolding validate_public_signal
signal_checked s field v n e d h = ground (arith, Denotes-big_int d)

signal_matches :
    (s : Text) (field : FieldPath) (v : Js)
    → as_string v ≡ some s
    → validate_public_signal v field ≡ ok tt
    → decimal_or_hex_pattern s ≡ true
unfolding validate_public_signal
signal_matches s field v e h = elim (Bool-cases (decimal_or_hex_pattern s)) [
  | inl m ↦ m
  | inr m ↦ ground arith
]

pub validate_public_signal-IsSignal :
    (v : Js) (field : FieldPath) → validate_public_signal v field ≡ ok tt → (n : ℕ) × IsSignal v n
validate_public_signal-IsSignal v field h = elim (Option-cases (as_string v)) [
  | inl e ↦ absurd (unfold validate_public_signal in ground arith)
  | inr (s, e) ↦
      let (n, d) = pattern-Denotes s (signal_matches s field v e h) in
      (
        n,
        record {
          signal_text = s;
          signal_string = as_string-eq-some v e;
          signal_denotes = d;
          signal_lt = signal_checked s field v n e d h;
        },
      )
]
