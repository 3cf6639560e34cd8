-- ===== src/Nullifier/Hex.antt =====
-- Nullifiers survive their hexadecimal form.
use zkstellar.Prelude.{
  ℕ, ◌+◌, ◌/◌, ◌%◌, ◌≡◌, refl, ◌∙◌, ap, true, ◌&&◌, List, [], ◌∷◌, length, All, arith, ◌==◌,
  Bool-cases, inl, inr,
}
use zkstellar.Text.{Text, digit_char, digit_value, is_digit, all_digits}
use zkstellar.Text.Digits.{digit_value-digit_char, is_digit-digit_char}
use zkstellar.Types.{ok, ok_injective}
use zkstellar.Js.{buffer}
use zkstellar.Bytes.{hex_decode}
use zkstellar.Bytes.BigEndian.{IsByte, hex_decode_step, hex_decode-IsDecoded}
use zkstellar.Nullifier.{hex_encode, nullifier_hex, nullifier_from_hex, strip_prefix}

pub hex_decode-hex_encode : (bs : List ℕ) → All IsByte bs → hex_decode (hex_encode bs) ≡ bs
unfolding hex_encode
hex_decode-hex_encode [] h = unfold hex_decode in refl
hex_decode-hex_encode (b ∷ bs) (h, hs) =
    hex_decode_step (digit_char (b / 16)) (digit_char (b % 16)) (b / 16) (b % 16) (hex_encode bs)
      (digit_value-digit_char (b / 16) (omega arith))
      (digit_value-digit_char (b % 16) (omega arith))
    ∙ rw (hex_decode-hex_encode bs hs) (ap (λ (n : ℕ). n ∷ bs) (omega arith))

hex_encode_shape :
    (bs : List ℕ)
    → All IsByte bs
    → (length (hex_encode bs) ≡ length bs + length bs) × (all_digits 16 (hex_encode bs) ≡ true)
unfolding hex_encode all_digits
hex_encode_shape [] h = (omega arith, refl)
hex_encode_shape (b ∷ bs) (h, hs) =
    let (len, digits) = hex_encode_shape bs hs in
    (
      omega arith,
      rw
          (
            is_digit-digit_char 16 (b / 16) (omega arith) (omega arith),
            is_digit-digit_char 16 (b % 16) (omega arith) (omega arith),
          )
          digits,
    )

-- An encoding does not begin with `0x`, since `x` is no hexadecimal digit.
strip_prefix-digits : (s : Text) → all_digits 16 s ≡ true → strip_prefix s ≡ s
unfolding all_digits is_digit digit_value
strip_prefix-digits [] h = refl
strip_prefix-digits (c ∷ []) h = refl
strip_prefix-digits (c ∷ x ∷ s) h = elim (Bool-cases (c == b'0' && x == b'x')) [
  | inl prefix ↦ absurd (ground arith)
  | inr other ↦ rw other
]

-- nullifierHex succeeds on 32 bytes, and nullifierFromHex reads the text back, with or without a `0x`
-- in front of it.
pub nullifier_from_hex-nullifier_hex :
    (bytes : List ℕ)
    → length bytes ≡ 32
    → All IsByte bytes
    → (text : Text) × (nullifier_hex (buffer bytes) ≡ ok text)
      × (nullifier_from_hex text ≡ ok bytes)
      × (nullifier_from_hex (b'0' ∷ b'x' ∷ text) ≡ ok bytes)
unfolding nullifier_hex nullifier_from_hex
nullifier_from_hex-nullifier_hex bytes h bs =
    let (len, digits) = hex_encode_shape bytes bs in
    let width : length (hex_encode bytes) ≡ 64 = omega arith in
    let back = hex_decode-hex_encode bytes bs in
    (
      hex_encode bytes,
      rw h,
      rw (strip_prefix-digits (hex_encode bytes) digits, width, digits, back),
      rw (width, digits, back),
    )

-- Whatever nullifierFromHex returns is 32 bytes.
pub nullifier_from_hex-length :
    (text : Text) (bytes : List ℕ)
    → nullifier_from_hex text ≡ ok bytes
    → (length bytes ≡ 32) × All IsByte bytes
unfolding nullifier_from_hex
nullifier_from_hex-length text bytes h =
    elim (Bool-cases (length (strip_prefix text) == 64 && all_digits 16 (strip_prefix text))) [
      | inl fits ↦
          let d = hex_decode-IsDecoded 32 0 (strip_prefix text) (ground arith) (ground arith) in
          let same : hex_decode (strip_prefix text) ≡ bytes = ok_injective (rw fits at h) in
          rw (← same) (d.decoded_length, d.decoded_bytes)
      | inr wrong ↦ absurd (ground arith)
    ]
