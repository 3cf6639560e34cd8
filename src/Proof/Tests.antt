-- ===== src/Proof/Tests.antt =====
-- Runs of `formatProof`.
use zkstellar.Prelude.{◌≡◌, refl, [], ◌∷◌, none, some}
use zkstellar.Text.{all_digits, value, is_digit, big_int, pos}
use zkstellar.Types.{
  ok, err, root, zk_input_error, not_an_object, object_type, invalid_proof_format,
}
use zkstellar.Js.{Js, int}
use zkstellar.Bytes.{bigint_to_bytes32}
use zkstellar.Validate.{
  SorobanProofCalldata, validate_proof_input, assert_array, assert_proof_field_element, assert_pair,
  validate_public_signals, validate_signals_from, validate_public_signal, validate_calldata,
}
use zkstellar.Validate.Accepts.{ProofNumbers, IsProofInput}
use zkstellar.Validate.Samples.{small_proof, small_signals}
use zkstellar.Validate.Tests.{small_proof_accepted}
use zkstellar.Proof.{
  format_proof, encode_g1, encode_g2, coordinate, encode_public_inputs, parse_field_element,
}
use zkstellar.Proof.Format.{calldata_of, format_proof_correct, validate_calldata-format_proof}

abbrev pub small_numbers : ProofNumbers
small_numbers = record {
  a_x = 1;
  a_y = 2;
  b_x0 = 10;
  b_x1 = 11;
  b_y0 = 12;
  b_y1 = 13;
  c_x = 1;
  c_y = 2;
  signals = 7 ∷ 31 ∷ [];
}

abbrev small_calldata : SorobanProofCalldata
small_calldata = calldata_of small_numbers (bigint_to_bytes32 500 ∷ [])

small_proof_formatted :
    format_proof small_proof small_signals (some (int (pos 500))) ≡ ok small_calldata
unfolding format_proof encode_g1 encode_g2 coordinate encode_public_inputs parse_field_element
    calldata_of validate_proof_input all_digits value is_digit big_int assert_array
    assert_proof_field_element assert_pair validate_public_signals validate_signals_from
    validate_public_signal bigint_to_bytes32
small_proof_formatted = refl

pub without_expiry : format_proof small_proof small_signals none ≡ ok (calldata_of small_numbers [])
unfolding format_proof encode_g1 encode_g2 coordinate encode_public_inputs parse_field_element
    calldata_of validate_proof_input all_digits value is_digit big_int assert_array
    assert_proof_field_element assert_pair validate_public_signals validate_signals_from
    validate_public_signal bigint_to_bytes32
without_expiry = refl

format_proof_correct_example :
    (n : ProofNumbers) × IsProofInput small_proof small_signals n
    × (format_proof small_proof small_signals none ≡ ok (calldata_of n []))
format_proof_correct_example = format_proof_correct small_proof small_signals small_proof_accepted

validate_calldata-format_proof_example : validate_calldata small_calldata ≡ ok tt
validate_calldata-format_proof_example =
    validate_calldata-format_proof small_proof small_signals (some (int (pos 500))) small_calldata
      small_proof_formatted

null_rejected :
    format_proof Js.null small_signals none
    ≡ err (zk_input_error (root "proof") (not_an_object object_type) invalid_proof_format)
unfolding format_proof validate_proof_input
null_rejected = refl
