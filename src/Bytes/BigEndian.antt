-- ===== src/Bytes/BigEndian.antt =====
-- `bigintToBytes32` is the 32-byte big-endian encoding.
use zkstellar.Prelude.{
  ℕ, zero, suc, ◌+◌, ◌-◌, ◌*◌, ◌^◌, ◌≤◌, ◌<◌, ◌≡◌, refl, ◌∙◌, ap, true, some, List, [], ◌∷◌, ◌++◌,
  length, replicate, length-append, length-replicate, All, arith, both→left, both→right,
  Option-cases, ltb→lt, inl, inr,
}
use zkstellar.Text.{Text, digit_value, is_digit, all_digits, some_digits, value, print_hex}
use zkstellar.Text.Digits.{some_digits-print_radix, value-print_radix, length-print_radix}
use zkstellar.Bytes.{hex_decode, pad_start, bigint_to_bytes32, be_value}

abbrev pub IsByte : ℕ → Type 0
IsByte b = b < 256

-- A hexadecimal digit has a value below 16.
hex_digit : (c : ℕ) → is_digit 16 c ≡ true → (d : ℕ) × (digit_value c ≡ some d) × (d < 16)
unfolding is_digit
hex_digit c h = elim (Option-cases (digit_value c)) [
  | inl e ↦ cc
  | inr (d, e) ↦ (d, e, ltb→lt d 16 (rw e at h))
]

-- What decoding an even number of hexadecimal digits gives.
pub record IsDecoded (s : Text) (m acc : ℕ) (bytes : List ℕ) : Type 0 where
  pub decoded_length : length bytes ≡ m
  pub decoded_bytes : All IsByte bytes
  pub decoded_value : be_value acc bytes ≡ value 16 acc s

pub hex_decode_step :
    (a b x y : ℕ) (s : Text)
    → digit_value a ≡ some x
    → digit_value b ≡ some y
    → hex_decode (a ∷ b ∷ s) ≡ (x * 16 + y) ∷ hex_decode s
unfolding hex_decode
hex_decode_step a b x y s p q = ground arith

value_step :
    (a b x y acc : ℕ) (s : Text)
    → digit_value a ≡ some x
    → digit_value b ≡ some y
    → value 16 acc (a ∷ b ∷ s) ≡ value 16 (acc * 256 + (x * 16 + y)) s
unfolding value
value_step a b x y acc s p q = rw (p, q) (ap (λ (n : ℕ). value 16 n s) (omega arith))

two_digits :
    (a b : ℕ) (s : Text)
    → all_digits 16 (a ∷ b ∷ s) ≡ true
    → (is_digit 16 a ≡ true) × (is_digit 16 b ≡ true) × (all_digits 16 s ≡ true)
unfolding all_digits
two_digits a b s h =
    let rest = both→right (is_digit 16 a) _ h in
    (
      both→left (is_digit 16 a) _ h,
      both→left (is_digit 16 b) _ rest,
      both→right (is_digit 16 b) _ rest,
    )

pub hex_decode-IsDecoded :
    (m acc : ℕ) (s : Text)
    → all_digits 16 s ≡ true
    → length s ≡ m + m
    → IsDecoded s m acc (hex_decode s)
hex_decode-IsDecoded m acc [] h e =
    unfold hex_decode value in
    record { decoded_length = omega arith; decoded_bytes = tt; decoded_value = refl }
hex_decode-IsDecoded m acc (a ∷ []) h e = absurd (omega arith)
hex_decode-IsDecoded zero acc (a ∷ b ∷ s) h e = absurd (omega arith)
hex_decode-IsDecoded (suc m) acc (a ∷ b ∷ s) h e =
    let (x, p, px) = hex_digit a (two_digits a b s h).0 in
    let (y, q, qy) = hex_digit b (two_digits a b s h).1 in
    let ih =
      hex_decode-IsDecoded m (acc * 256 + (x * 16 + y)) s (two_digits a b s h).2 (omega arith) in
    rw (hex_decode_step a b x y s p q) (record {
      decoded_length = ap suc ih.decoded_length;
      decoded_bytes = (omega arith, ih.decoded_bytes);
      decoded_value = rw (value_step a b x y acc s p q) ih.decoded_value;
    })

-- Leading zeros change neither the digits nor the value.
all_digits-zeros :
    (k : ℕ) (s : Text) → all_digits 16 s ≡ true → all_digits 16 (replicate k b'0' ++ s) ≡ true
unfolding all_digits is_digit digit_value
all_digits-zeros zero s h = h
all_digits-zeros (suc k) s h = all_digits-zeros k s h

value-zeros : (k : ℕ) (s : Text) → value 16 0 (replicate k b'0' ++ s) ≡ value 16 0 s
unfolding value
value-zeros zero s = refl
value-zeros (suc k) s = value-zeros k s

some→all : (s : Text) → some_digits 16 s ≡ true → all_digits 16 s ≡ true
some→all [] h = cc
some→all (c ∷ s) h = h

-- 32 bytes, whose big-endian value is the number.
pub record IsBytes32 (n : ℕ) (bytes : List ℕ) : Type 0 where
  pub bytes32_length : length bytes ≡ 32
  pub bytes32_bytes : All IsByte bytes
  pub bytes32_value : be_value 0 bytes ≡ n

padded_length : (s : Text) → length s ≤ 64 → length (pad_start 64 b'0' s) ≡ 32 + 32
padded_length s h =
    length-append (replicate {A = ℕ} (64 - length s) b'0') s
    ∙ omega (arith, length-replicate {A = ℕ} (64 - length s) b'0')

-- Every number below 2^256 is encoded as 32 bytes, big-endian.
pub bigint_to_bytes32-IsBytes32 : (n : ℕ) → n < 2 ^ 256 → IsBytes32 n (bigint_to_bytes32 n)
unfolding bigint_to_bytes32 print_hex
bigint_to_bytes32-IsBytes32 n h =
    let digits = some_digits-print_radix 14 n (omega arith) in
    let fits = length-print_radix 14 63 n h in
    let d =
      hex_decode-IsDecoded 32 0 (pad_start 64 b'0' (print_hex n))
        (all_digits-zeros _ (print_hex n) (some→all (print_hex n) digits))
        (padded_length (print_hex n) fits) in
    record {
      bytes32_length = d.decoded_length;
      bytes32_bytes = d.decoded_bytes;
      bytes32_value =
          d.decoded_value ∙ value-zeros _ (print_hex n) ∙ value-print_radix 14 n (omega arith);
    }
