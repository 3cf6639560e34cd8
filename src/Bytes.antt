-- ===== src/Bytes.antt =====
-- sdk/src/proof.ts, `bigintToBytes32`, and Node's `Buffer.from(text, "hex")` that it calls.
pub mod BigEndian
pub mod Tests
use zkstellar.Prelude.{ℕ, ◌+◌, ◌-◌, ◌*◌, List, [], ◌∷◌, ◌++◌, Option, none, some, length, replicate}
use zkstellar.Prelude.{◌≡◌, refl}
use zkstellar.Text.{Text, digit_value, print_hex, codes}

-- Decoding stops at the first pair that is not hexadecimal, and drops an odd last digit.
unfoldable pub hex_decode : Text → List ℕ
unfolding digit_value
hex_decode [] = []
hex_decode (a ∷ []) = []
hex_decode (a ∷ b ∷ s) =
    let rest = hex_decode s in
    elim (digit_value a) [
      | none ↦ []
      | some x ↦ elim (digit_value b) [ none ↦ [] | some y ↦ (x * 16 + y) ∷ rest ]
    ]

-- `text.padStart(64, "0")`
abbrev pub pad_start : ℕ → ℕ → Text → Text
pad_start width c s = replicate (width - length s) c ++ s

unfoldable pub bigint_to_bytes32 : ℕ → List ℕ
unfolding hex_decode print_hex
bigint_to_bytes32 n = hex_decode (pad_start 64 b'0' (print_hex n))

-- The number that bytes stand for, the first byte the most significant.
abbrev pub be_value : ℕ → List ℕ → ℕ
be_value acc [] = acc
be_value acc (b ∷ bs) = be_value (acc * 256 + b) bs

bytes32_test : be_value 0 (bigint_to_bytes32 0x0102_ff00) ≡ 0x0102_ff00
unfolding bigint_to_bytes32
bytes32_test = refl
