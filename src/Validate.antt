-- ===== src/Validate.antt =====
-- sdk/src/validate.ts: the checks on a proof, its public signals and encoded calldata.
pub mod Elements
pub mod Accepts
pub mod Plain
pub mod Typed
pub mod Samples
pub mod Tests
use zkstellar.Prelude.{
  ℕ, suc, ◌+◌, ◌^◌, Bool, true, false, ◌&&◌, ◌||◌, List, [], ◌∷◌, Option, none, some, length, ltb,
  leb, ◌==◌, not,
}
use zkstellar.Text.{Text, ℤ, pos, negsuc, codes, text_eq, some_digits, big_int}
use zkstellar.Types.{
  SorobanZkErrorCode, invalid_proof_format, invalid_public_input, FieldPath, root, at, Reason,
  not_an_array, not_a_string, not_an_object, not_a_buffer, too_short, not_decimal,
  not_decimal_or_hex, not_32_bytes, exceeds_field, not_groth16, wrong_bytes, Failure,
  zk_input_error, other_error, Result, ok, err, ◌>>=◌, ◌>>◌, guard,
}
use zkstellar.Js.{
  Js, Items, nil, item, has_own, type_of, is_object, as_array, as_string, as_buffer, prop, element,
}

abbrev pub bn254_field_modulus : ℕ
bn254_field_modulus = 21888242871839275222246405745257275088548364400416034343698204186575808495617

abbrev max_32_byte_value : ℕ
max_32_byte_value = 2 ^ 256

-- `/^[0-9]+$/`
abbrev decimal_pattern : Text → Bool
decimal_pattern s = some_digits 10 s

abbrev pub hex_pattern : Text → Bool
hex_pattern [] = false
hex_pattern (c ∷ []) = false
hex_pattern (c ∷ x ∷ s) = c == b'0' && x == b'x' && some_digits 16 s

-- `/^(0x[0-9a-fA-F]+|[0-9]+)$/`
abbrev pub decimal_or_hex_pattern : Text → Bool
decimal_or_hex_pattern s = hex_pattern s || some_digits 10 s

-- `BigInt(text)`, with its SyntaxError.
abbrev pub to_bigint : Text → Result ℤ
to_bigint s = elim (big_int s) [
  | none ↦ err (other_error (codes "Cannot convert to a BigInt"))
  | some n ↦ ok n
]

-- `value >= bound` for a bound that is not negative.
abbrev at_least : ℤ → ℕ → Bool
at_least (pos n) bound = leb bound n
at_least (negsuc n) bound = false

abbrev bad_proof : FieldPath → Reason → Failure
bad_proof field reason = zk_input_error field reason invalid_proof_format

abbrev bad_input : FieldPath → Reason → Failure
bad_input field reason = zk_input_error field reason invalid_public_input

-- `String(value)` returns. On an object without a primitive form it throws: an object whose own `toString`
-- hides the inherited one, since no value here is a function and the inherited `valueOf` returns the object
-- itself. An array is printed element by element.
unfoldable mutual
  unfolding has_own

  pub describes : Js → Bool
  describes (Js.object fs) = not (has_own fs (codes "toString"))
  describes (Js.array vs) = all_describe vs
  describes _ = true

  pub all_describe : Items → Bool
  all_describe nil = true
  all_describe (item v vs) = describes v && all_describe vs

-- The text that describeValue makes is left out, but not the TypeError that ends it.
abbrev pub describe_value : Js → Result (Unit {0})
describe_value value =
    guard (describes value) (other_error (codes "Cannot convert object to primitive value"))

unfoldable pub assert_array : Js → FieldPath → ℕ → Result (List Js)
assert_array value field min_length = elim (as_array value) [
  | none ↦ err (bad_proof field (not_an_array (type_of value)))
  | some vs ↦ do
    guard (not (ltb (length vs) min_length)) (bad_proof field (too_short min_length (length vs)))
    ok vs
]

unfoldable pub assert_proof_field_element : Js → FieldPath → Result (Unit {0})
assert_proof_field_element value field = elim (as_string value) [
  | none ↦ do describe_value value; err (bad_proof field (not_a_string (type_of value)))
  | some s ↦ do
    guard (decimal_pattern s) (bad_proof field not_decimal)
    n ← to_bigint s
    guard (not (at_least n bn254_field_modulus)) (bad_proof field exceeds_field)
]

-- One round of the `forEach` of `validatePublicSignals`.
unfoldable pub validate_public_signal : Js → FieldPath → Result (Unit {0})
validate_public_signal signal field = elim (as_string signal) [
  | none ↦ do describe_value signal; err (bad_input field (not_a_string (type_of signal)))
  | some s ↦ do
    guard (decimal_or_hex_pattern s) (bad_input field not_decimal_or_hex)
    n ← to_bigint s
    guard (not (at_least n max_32_byte_value)) (bad_input field not_32_bytes)
    guard (not (at_least n bn254_field_modulus)) (bad_input field exceeds_field)
]

-- The `forEach`, from the index of the first signal on.
unfoldable pub validate_signals_from : ℕ → List Js → Result (Unit {0})
validate_signals_from i [] = ok tt
validate_signals_from i (signal ∷ signals) = do
  validate_public_signal signal (at (root "publicSignals") i)
  validate_signals_from (suc i) signals

unfoldable pub validate_public_signals : Js → Result (Unit {0})
validate_public_signals public_signals = elim (as_array public_signals) [
  | none ↦ err (bad_input (root "publicSignals") (not_an_array (type_of public_signals)))
  | some signals ↦ validate_signals_from 0 signals
]

-- `proof.protocol !== "groth16"`, negated.
abbrev pub is_groth16 : Option Text → Bool
is_groth16 none = false
is_groth16 (some s) = text_eq s (codes "groth16")

-- A `pi_a`, a `pi_c` or a row of `pi_b`: two field elements at the least.
unfoldable pub assert_pair : Js → FieldPath → Result (Unit {0})
assert_pair value field = do
  vs ← assert_array value field 2
  assert_proof_field_element (element vs 0) (at field 0)
  assert_proof_field_element (element vs 1) (at field 1)

unfoldable pub validate_proof_input : Js → Js → Result (Unit {0})
validate_proof_input proof public_signals = do
  guard (is_object proof) (bad_proof (root "proof") (not_an_object (type_of proof)))
  guard (is_groth16 (as_string (prop proof "protocol")))
      (bad_proof (root "proof.protocol") not_groth16)
  assert_pair (prop proof "pi_a") (root "pi_a")
  rows ← assert_array (prop proof "pi_b") (root "pi_b") 2
  assert_pair (element rows 0) (at (root "pi_b") 0)
  assert_pair (element rows 1) (at (root "pi_b") 1)
  assert_pair (prop proof "pi_c") (root "pi_c")
  validate_public_signals public_signals

-- `interface SorobanProofCalldata`. Callers may pass their own, so that its fields are any values.
pub record SorobanProofCalldata : Type 0 where
  pub proof_a : Js
  pub proof_b : Js
  pub proof_c : Js
  pub public_inputs : Js

unfoldable pub assert_buffer_length : Js → ℕ → FieldPath → Result (Unit {0})
assert_buffer_length value expected field = elim (as_buffer value) [
  | none ↦ err (bad_proof field (not_a_buffer (type_of value)))
  | some bytes ↦
      guard (length bytes == expected) (bad_proof field (wrong_bytes expected (length bytes)))
]

unfoldable pub assert_inputs_from : ℕ → List Js → Result (Unit {0})
assert_inputs_from i [] = ok tt
assert_inputs_from i (input ∷ inputs) = do
  assert_buffer_length input 32 (at (root "calldata.publicInputs") i)
  assert_inputs_from (suc i) inputs

unfoldable pub validate_calldata : SorobanProofCalldata → Result (Unit {0})
unfolding assert_buffer_length
validate_calldata calldata = do
  assert_buffer_length calldata.proof_a 64 (root "calldata.proofA")
  assert_buffer_length calldata.proof_b 128 (root "calldata.proofB")
  assert_buffer_length calldata.proof_c 64 (root "calldata.proofC")
  inputs ← elim (as_array calldata.public_inputs) [
    | none ↦
        err
          (bad_input (root "calldata.publicInputs") (not_an_array (type_of calldata.public_inputs)))
    | some vs ↦ ok vs
  ]
  assert_inputs_from 0 inputs
