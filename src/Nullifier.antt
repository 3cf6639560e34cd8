-- ===== src/Nullifier.antt =====
-- sdk/src/nullifier.ts: the registry's nullifier of a proof, computed off-chain. SHA-256 is Node's,
-- and is a parameter.
pub mod Hex
pub mod Binding
pub mod Tests
use zkstellar.Prelude.{
  ℕ, suc, ◌+◌, ◌*◌, ◌/◌, ◌%◌, Bool, true, false, ◌&&◌, List, [], ◌∷◌, ◌++◌, Option, none, some,
  length, ltb, leb, ◌==◌, not, if◌then◌else◌,
}
use zkstellar.Text.{Text, digit_char, all_digits}
use zkstellar.Types.{
  invalid_public_input, Failure, soroban_zk_error, Result, ok, err, ◌>>=◌, ◌>>◌, guard,
}
use zkstellar.Js.{Js, JsNumber, as_array, as_buffer}
use zkstellar.Bytes.{hex_decode}
use zkstellar.Proof.{as_u32}

abbrev pub nullifier_failure : Failure
nullifier_failure = soroban_zk_error invalid_public_input

-- `Buffer.isBuffer(value) && value.length === 32`, with the bytes.
abbrev pub buffer_32 : Js → Result (List ℕ)
buffer_32 value = elim (as_buffer value) [
  | none ↦ err nullifier_failure
  | some bytes ↦ do guard (length bytes == 32) nullifier_failure; ok bytes
]

-- The loop that checks the inputs, with what the hash is then given: their concatenation.
unfoldable pub concat_inputs : List Js → Result (List ℕ)
concat_inputs [] = ok []
concat_inputs (input ∷ inputs) = do
  bytes ← buffer_32 input
  rest ← concat_inputs inputs
  ok (bytes ++ rest)

abbrev pub non_empty : Js → Result (List Js)
non_empty value = elim (as_array value) [
  | none ↦ err nullifier_failure
  | some vs ↦ do guard (not (length vs == 0)) nullifier_failure; ok vs
]

-- `circuitIdBytes.writeUInt32BE(circuitId, 0)`
unfoldable pub be_4 : ℕ → List ℕ
be_4 n = n / 0x1000000 % 256 ∷ n / 0x10000 % 256 ∷ n / 0x100 % 256 ∷ n % 256 ∷ []

module _ (sha256 : List ℕ → List ℕ) where
  unfoldable pub compute_inputs_hash : Js → Result (List ℕ)
  compute_inputs_hash public_inputs = do
    inputs ← non_empty public_inputs
    bytes ← concat_inputs inputs
    ok (sha256 bytes)

  unfoldable pub compute_nullifier : JsNumber → Js → Result (List ℕ)
  compute_nullifier circuit_id public_inputs = do
    id ← as_u32 circuit_id nullifier_failure
    inputs_hash ← compute_inputs_hash public_inputs
    ok (sha256 (be_4 id ++ inputs_hash))

-- `bytes.toString("hex")`
unfoldable pub hex_encode : List ℕ → Text
hex_encode [] = []
hex_encode (b ∷ bs) = digit_char (b / 16) ∷ digit_char (b % 16) ∷ hex_encode bs

pub nullifier_hex : Js → Result Text
nullifier_hex nullifier = do bytes ← buffer_32 nullifier; ok (hex_encode bytes)

-- `hex.startsWith("0x") ? hex.slice(2) : hex`
abbrev pub strip_prefix : Text → Text
strip_prefix [] = []
strip_prefix (c ∷ []) = c ∷ []
strip_prefix (c ∷ x ∷ s) = if c == b'0' && x == b'x' then s else c ∷ x ∷ s

pub nullifier_from_hex : Text → Result (List ℕ)
nullifier_from_hex hex = do
  let clean = strip_prefix hex
  guard (length clean == 64 && all_digits 16 clean) nullifier_failure
  ok (hex_decode clean)
