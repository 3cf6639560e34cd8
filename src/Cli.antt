-- ===== src/Cli.antt =====
-- sdk/src/cli.ts: the commands that compute from proofs, keys and numbers, as the lines that they print.
-- Reading a file, `Number(text)` and the texts of numbers in JSON are parameters.
pub mod Bundles
pub mod CheckNullifier
pub mod EstimateFee
pub mod Run
pub mod Tests
pub mod Files
use zkstellar.Prelude.{
  ℕ, ◌+◌, ◌*◌, ◌/◌, ◌%◌, ltb, Bool, List, [], ◌∷◌, ◌++◌, map, Option, none, some, length, ◌==◌, not,
  if◌then◌else◌, suc, zero,
}
use zkstellar.Text.{Text, ℤ, pos, negsuc, codes, text_eq, trim, is_empty, print_decimal}
use zkstellar.Types.{
  invalid_proof_format, invalid_public_input, soroban_zk_error, Result, ok, err, ◌>>=◌, ◌>>◌, guard,
}
use zkstellar.Js.{
  Js, JsNumber, int, non_integer, string, array, items, object, field, end, as_array, as_string,
  as_buffer,
}
use zkstellar.Validate.{SorobanProofCalldata, to_bigint}
use zkstellar.Proof.{format_proof, format_verifying_key, RegistryVerifyingKey}
use zkstellar.Poseidon.{PoseidonConstants, poseidon}
use zkstellar.Merkle.{merkle_depth, build_merkle_tree, compute_merkle_root, MerkleTree}
use zkstellar.Nullifier.{hex_encode}
use zkstellar.Json.{json}
use zkstellar.Json.Parse.{json_parse}
use zkstellar.Bundle.{or_undefined_text, default_text}
use Prim.Native.String.{String}

abbrev pub registry_contract_id : Text
registry_contract_id = codes "CDTPNARKKZCZ36PL4BNKBXZTT2BLVR373S2K5NCFAOKCPPY62ESRHSXH"

-- The argument behind the first occurrence of the name; the last argument is no flag.
abbrev second : List Text → Option Text
second [] = none
second (value ∷ args) = some value

pub get_flag : List Text → Text → Option Text
get_flag [] name = none
get_flag (arg ∷ args) name =
    let rest = get_flag args name in if text_eq arg name then second args else rest

pub require_flag : List Text → Text → Result Text
unfolding get_flag
require_flag args name = elim (get_flag args name) [
  | none ↦ err (soroban_zk_error invalid_proof_format)
  | some value ↦ ok value
]

-- A line of a label and a text.
abbrev pub line : String → Text → Text
line label s = codes label ++ s

abbrev pub count : ℕ → Text
count n = print_decimal (pos n)

abbrev pub numbered_from : ℕ → List Text → List Text
numbered_from i [] = []
numbered_from i (value ∷ values) =
    (codes "  [" ++ (count i ++ (codes "] " ++ value))) ∷ numbered_from (suc i) values

abbrev pub format_list : List Text → List Text
format_list values = numbered_from 0 values

-- The bytes of a `Buffer` that formatProof returns.
abbrev pub bytes_of : Js → List ℕ
bytes_of v = elim (as_buffer v) [ none ↦ [] | some bytes ↦ bytes ]

abbrev pub inputs_of : SorobanProofCalldata → List (List ℕ)
inputs_of calldata = elim (as_array calldata.public_inputs) [
  | none ↦ []
  | some vs ↦ map bytes_of vs
]

-- `Buffer.concat(buffers)`
unfoldable pub buffer_concat : List (List ℕ) → List ℕ
buffer_concat [] = []
buffer_concat (bytes ∷ buffers) = bytes ++ buffer_concat buffers

-- The sum of the lengths.
pub total_length : List (List ℕ) → ℕ
total_length [] = 0
total_length (bytes ∷ buffers) = length bytes + total_length buffers

-- The public signals, which formatProof has found to be strings.
abbrev pub string_or_empty : Js → Text
string_or_empty v = elim (as_string v) [ none ↦ [] | some s ↦ s ]

abbrev pub signal_texts : Js → List Text
signal_texts v = elim (as_array v) [ none ↦ [] | some vs ↦ map string_or_empty vs ]

abbrev pub proof_bytes : SorobanProofCalldata → ℕ
proof_bytes calldata =
    length (bytes_of calldata.proof_a)
    + length (bytes_of calldata.proof_b)
    + length (bytes_of calldata.proof_c)

-- The numbers that `estimate-fee` prints.
pub record FeeEstimate : Type 0 where
  pub proof_byte_count : ℕ
  pub public_byte_count : ℕ
  pub total_byte_count : ℕ
  pub estimated_fee : ℕ

pub estimate_fee : Js → Js → Result FeeEstimate
estimate_fee proof public_signals = do
  calldata ← format_proof proof public_signals none
  let public_bytes = total_length (inputs_of calldata)
  let total = proof_bytes calldata + public_bytes
  ok (record {
    proof_byte_count = proof_bytes calldata;
    public_byte_count = public_bytes;
    total_byte_count = total;
    estimated_fee = 100 + total * 7;
  })

-- The two hashes that `check-nullifier` prints.
pub record NullifierReport : Type 0 where
  pub circuit : ℕ
  pub inputs_hash : List ℕ
  pub nullifier : List ℕ

-- `!Number.isInteger(circuitId) || circuitId < 0 || circuitId > 0xffffffff` throws.
pub circuit_id_of : JsNumber → Result ℕ
circuit_id_of non_integer = err (soroban_zk_error invalid_public_input)
circuit_id_of (int (negsuc n)) = err (soroban_zk_error invalid_public_input)
circuit_id_of (int (pos n)) =
    if ltb 0xffffffff n then err (soroban_zk_error invalid_public_input) else ok n

-- `circuitIdBe.writeUInt32BE(circuitId, 0)`
pub circuit_id_be : ℕ → List ℕ
circuit_id_be id = id / 0x1000000 % 256 ∷ id / 0x10000 % 256 ∷ id / 0x100 % 256 ∷ id % 256 ∷ []

pub check_nullifier : (List ℕ → List ℕ) → JsNumber → Js → Js → Result NullifierReport
check_nullifier sha256 circuit_id proof public_signals = do
  id ← circuit_id_of circuit_id
  calldata ← format_proof proof public_signals none
  let inputs_hash = sha256 (buffer_concat (inputs_of calldata))
  ok (record {
    circuit = id;
    inputs_hash = inputs_hash;
    nullifier = sha256 (circuit_id_be id ++ inputs_hash);
  })

-- `JSON.stringify({ alpha: alpha.toString("hex"), ... })`
abbrev pub key_object : RegistryVerifyingKey → Js
key_object vk = object (
    field (codes "alpha") (string (hex_encode vk.alpha)) (
      field (codes "beta") (string (hex_encode vk.beta)) (
        field (codes "gamma") (string (hex_encode vk.gamma)) (
          field (codes "delta") (string (hex_encode vk.delta)) (
            field (codes "ic") (array (items (map (λ point. string (hex_encode point)) vk.ic)))
              end)))))

-- `text.split(",")`
abbrev split_step : Bool → ℕ → List Text → List Text
split_step comma c [] = if comma then [] ∷ [] else (c ∷ []) ∷ []
split_step comma c (part ∷ parts) = if comma then [] ∷ part ∷ parts else (c ∷ part) ∷ parts

pub split_commas : Text → List Text
split_commas [] = [] ∷ []
split_commas (c ∷ s) = split_step (c == b',') c (split_commas s)

-- `.map((s) => s.trim()).filter(Boolean)`
abbrev trimmed_parts : List Text → List Text
trimmed_parts [] = []
trimmed_parts (s ∷ parts) =
    if is_empty (trim s) then trimmed_parts parts else trim s ∷ trimmed_parts parts

abbrev leaf_or_throw : Result ℤ → Result ℤ
leaf_or_throw (ok n) = ok n
leaf_or_throw (err failure) = err (soroban_zk_error invalid_public_input)

abbrev parse_leaves : List Text → Result (List ℤ)
parse_leaves [] = ok []
parse_leaves (s ∷ parts) = do
  leaf ← leaf_or_throw (to_bigint s)
  leaves ← parse_leaves parts
  ok (leaf ∷ leaves)

pub command_merkle_root : PoseidonConstants → List Text → Result (List Text)
command_merkle_root constants args = do
  leaves_raw ← require_flag args (codes "--leaves")
  let parts = trimmed_parts (split_commas leaves_raw)
  guard (not (length parts == 0)) (soroban_zk_error invalid_public_input)
  leaves ← parse_leaves parts
  tree ← build_merkle_tree constants merkle_depth leaves
  root ← compute_merkle_root constants merkle_depth leaves
  ok (
      codes "command: merkle-root"
      ∷ line "leaves:  " (count (length leaves))
      ∷ (format_list (map print_decimal leaves)
          ++ ([]
              ∷ line "depth:   " (count merkle_depth)
              ∷ line "root:    " (print_decimal root)
              ∷ []
              ∷ codes "Pass this root as the `root` public input to the merkle_inclusion circuit."
              ∷ [])))

pub command_prove : PoseidonConstants → List Text → Result (List Text)
command_prove constants args = do
  text ← require_flag args (codes "--secret")
  secret ← to_bigint text
  commitment ← poseidon constants (secret ∷ [])
  ok (
      codes "command: prove"
      ∷ codes "circuit: poseidon_preimage"
      ∷ line "secret: " (print_decimal secret)
      ∷ line "commitment: " (print_decimal commitment)
      ∷ codes "circuit input:"
      ∷ line "  secret: " (print_decimal secret)
      ∷ line "  commitment: " (print_decimal commitment)
      ∷ [])
