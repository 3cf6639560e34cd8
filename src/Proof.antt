-- ===== src/Proof.antt =====
-- sdk/src/proof.ts: a snarkjs proof or verifying key as the bytes that the contracts read.
pub mod Points
pub mod Format
pub mod Typed
pub mod Tests
use zkstellar.Prelude.{
  ℕ, ◌-◌, ◌^◌, Bool, true, false, ◌&&◌, ◌||◌, List, [], ◌∷◌, ◌++◌, map, Option, none, some, length,
  ltb, leb, ◌==◌, not,
}
use zkstellar.Text.{Text, ℤ, pos, negsuc}
use zkstellar.Types.{
  SorobanZkErrorCode, invalid_proof_format, invalid_public_input, Failure, soroban_zk_error, Result,
  ok, err, ◌>>=◌, ◌>>◌, guard,
}
use zkstellar.Js.{
  Js, JsNumber, int, non_integer, buffer, array, items, truthy, as_array, as_string, prop, index,
  length_below,
}
use zkstellar.Bytes.{bigint_to_bytes32}
use zkstellar.Validate.{
  bn254_field_modulus, decimal_or_hex_pattern, to_bigint, is_groth16, validate_proof_input,
  SorobanProofCalldata,
}

-- `parsed < 0n || parsed >= BN254_FIELD_MODULUS` throws.
abbrev in_field : ℤ → SorobanZkErrorCode → Result ℕ
in_field (negsuc n) code = err (soroban_zk_error code)
in_field (pos n) code = do guard (ltb n bn254_field_modulus) (soroban_zk_error code); ok n

unfoldable pub parse_field_element : Js → SorobanZkErrorCode → Result ℕ
parse_field_element value code = elim (as_string value) [
  | none ↦ err (soroban_zk_error code)
  | some s ↦ do
    guard (decimal_or_hex_pattern s) (soroban_zk_error code)
    parsed ← to_bigint s
    in_field parsed code
]

unfoldable pub encode_g1 : Js → Result (List ℕ)
encode_g1 point = do
  x ← parse_field_element (← index point 0) invalid_proof_format
  y ← parse_field_element (← index point 1) invalid_proof_format
  ok (bigint_to_bytes32 x ++ bigint_to_bytes32 y)

-- `point[i][j]` as a field element.
unfoldable pub coordinate : Js → ℕ → ℕ → Result ℕ
coordinate point i j = do
  row ← index point i
  parse_field_element (← index row j) invalid_proof_format

unfoldable pub encode_g2 : Js → Result (List ℕ)
encode_g2 point = do
  x_c0 ← coordinate point 0 0
  x_c1 ← coordinate point 0 1
  y_c0 ← coordinate point 1 0
  y_c1 ← coordinate point 1 1
  ok (
      bigint_to_bytes32 x_c1
      ++ (bigint_to_bytes32 x_c0 ++ (bigint_to_bytes32 y_c1 ++ bigint_to_bytes32 y_c0)))

unfoldable pub encode_public_inputs : List Js → Result (List (List ℕ))
encode_public_inputs [] = ok []
encode_public_inputs (signal ∷ signals) = do
  n ← parse_field_element signal invalid_public_input
  rest ← encode_public_inputs signals
  ok (bigint_to_bytes32 n ∷ rest)

abbrev pub max_u32 : ℕ
max_u32 = 0xffffffff

-- `!Number.isInteger(n) || n < 0 || n > MAX_U32` throws `failure`.
abbrev pub as_u32 : JsNumber → Failure → Result ℕ
as_u32 non_integer failure = err failure
as_u32 (int (negsuc n)) failure = err failure
as_u32 (int (pos n)) failure = do guard (leb n max_u32) failure; ok n

-- The public input that the expiry ledger adds, where there is one.
abbrev pub expiry_input : Option JsNumber → Result (List (List ℕ))
expiry_input none = ok []
expiry_input (some ledger) = do
  n ← as_u32 ledger (soroban_zk_error invalid_public_input)
  ok (bigint_to_bytes32 n ∷ [])

abbrev pub encoded : List ℕ → List ℕ → List ℕ → List (List ℕ) → SorobanProofCalldata
encoded a b c inputs = record {
  proof_a = buffer a;
  proof_b = buffer b;
  proof_c = buffer c;
  public_inputs = array (items (map buffer inputs));
}

abbrev format_failure : Failure
format_failure = soroban_zk_error invalid_proof_format

unfoldable pub format_proof : Js → Js → Option JsNumber → Result SorobanProofCalldata
format_proof proof public_signals expiry_ledger = do
  validate_proof_input proof public_signals
  guard (truthy proof && is_groth16 (as_string (prop proof "protocol"))) format_failure
  short_a ← length_below (prop proof "pi_a") 2
  short_b ← length_below (prop proof "pi_b") 2
  short_c ← length_below (prop proof "pi_c") 2
  guard (not (short_a || short_b || short_c)) format_failure
  signals ← elim (as_array public_signals) [
    | none ↦ err (soroban_zk_error invalid_public_input)
    | some vs ↦ ok vs
  ]
  inputs ← encode_public_inputs signals
  expiry ← expiry_input expiry_ledger
  a ← encode_g1 (prop proof "pi_a")
  b ← encode_g2 (prop proof "pi_b")
  c ← encode_g1 (prop proof "pi_c")
  guard (length a == 64 && length b == 128 && length c == 64) format_failure
  ok (encoded a b c (inputs ++ expiry))

-- `interface RegistryVerifyingKey`, the points as bytes.
pub record RegistryVerifyingKey : Type 0 where
  pub alpha : List ℕ
  pub beta : List ℕ
  pub gamma : List ℕ
  pub delta : List ℕ
  pub ic : List (List ℕ)

encode_points : List Js → Result (List (List ℕ))
encode_points [] = ok []
encode_points (point ∷ points) = do p ← encode_g1 point; rest ← encode_points points; ok (p ∷ rest)

abbrev all_length : ℕ → List (List ℕ) → Bool
all_length n [] = true
all_length n (p ∷ ps) = length p == n && all_length n ps

abbrev non_empty_array : Js → Result (List Js)
non_empty_array value = elim (as_array value) [
  | none ↦ err format_failure
  | some vs ↦ do guard (not (length vs == 0)) format_failure; ok vs
]

-- `a.length < 2 || b.length < 2 || ...`, which reads no length behind the first that is too small.
pub any_short : List Js → Result Bool
any_short [] = ok false
any_short (value ∷ values) = do
  short ← length_below value 2
  elim short [ true ↦ ok true | false ↦ any_short values ]

pub format_verifying_key : Js → Result RegistryVerifyingKey
format_verifying_key vk = do
  guard (truthy vk && is_groth16 (as_string (prop vk "protocol"))) format_failure
  short ← any_short (
      prop vk "vk_alpha_1" ∷ prop vk "vk_beta_2" ∷ prop vk "vk_gamma_2" ∷ prop vk "vk_delta_2" ∷ [])
  guard (not short) format_failure
  points ← non_empty_array (prop vk "IC")
  alpha ← encode_g1 (prop vk "vk_alpha_1")
  beta ← encode_g2 (prop vk "vk_beta_2")
  gamma ← encode_g2 (prop vk "vk_gamma_2")
  delta ← encode_g2 (prop vk "vk_delta_2")
  ic ← encode_points points
  guard
      (length alpha == 64
        && length beta == 128
        && length gamma == 128
        && length delta == 128
        && all_length 64 ic)
      format_failure
  ok (record { alpha = alpha; beta = beta; gamma = gamma; delta = delta; ic = ic })
