-- ===== src/Verify/Tests.antt =====
-- Runs of `verifyOnChain`.
use zkstellar.Prelude.{ℕ, ◌≡◌, refl, true, none, some, arith}
use zkstellar.Text.{Text, codes, all_digits, value, is_digit, big_int}
use zkstellar.Types.{Result, ok, err, Failure, network_mismatch_error}
use zkstellar.Bytes.{bigint_to_bytes32}
use zkstellar.Validate.{
  SorobanProofCalldata, validate_calldata, validate_proof_input, assert_array,
  assert_proof_field_element, assert_pair, validate_public_signals, validate_signals_from,
  validate_public_signal, assert_buffer_length, assert_inputs_from,
}
use zkstellar.Proof.{
  format_proof, encode_g1, encode_g2, coordinate, encode_public_inputs, parse_field_element,
}
use zkstellar.Verify.Server.{Server, SendResult, Success, VerifyResult, verify_proof}
use zkstellar.Verify.Errors.{catching, caught}
use zkstellar.Verify.Decode.{
  resolve_calldata, check_network, assert_bundle_network, verify_result, decode_verify_return_value,
  decode_return_value_from_diagnostics, returned_data,
}
use zkstellar.Verify.Poll.{verify_on_chain, verify_attempt, submit, poll_loop}
use zkstellar.Verify.Outcome.{IsFound, Ticks}
use zkstellar.Verify.Verified.{verify_on_chain_sound, verify_on_chain_total}
use zkstellar.Verify.Simulate.{VerifyViaRegistryOptions, verify_via_registry, simulate_call}
use zkstellar.Verify.Samples.{sample_server, sample_options, sample_result, sample_bundle}

sample_run : verify_on_chain sample_server sample_options ≡ some (ok sample_result)
unfolding verify_on_chain verify_attempt resolve_calldata assert_bundle_network submit poll_loop
    verify_result decode_verify_return_value decode_return_value_from_diagnostics returned_data
    catching format_proof encode_g1 encode_g2 coordinate encode_public_inputs parse_field_element
    validate_proof_input all_digits value is_digit big_int assert_array assert_proof_field_element
    assert_pair validate_public_signals validate_signals_from validate_public_signal
    bigint_to_bytes32 validate_calldata assert_buffer_length assert_inputs_from
sample_run = refl

verify_on_chain_sound_example :
    (calldata : SorobanProofCalldata) × (passphrase : Text) × (sent : SendResult) × (n : ℕ)
    × (result : Success) × (resolve_calldata none (some sample_bundle) ≡ ok calldata)
    × (validate_calldata calldata ≡ ok tt)
    × (sample_server.network ≡ ok passphrase)
    × (check_network (some sample_bundle) passphrase ≡ ok tt)
    × (submit sample_server passphrase
          (codes "GA")
          (codes "CA")
          (verify_proof (codes "GA") calldata)
        ≡ ok sent)
    × IsFound sample_server 0 n result
    × (decode_verify_return_value result ≡ some true)
    × (result.tx_hash ≡ codes "ab01")
    × (result.ledger ≡ some 77)
verify_on_chain_sound_example =
    verify_on_chain_sound sample_server sample_options sample_result sample_run

sample_clock : Ticks verify_result sample_server
sample_clock = (omega arith, λ n. omega arith)

verify_on_chain_total_example :
    (r : Result VerifyResult) × (verify_on_chain sample_server sample_options ≡ some r)
verify_on_chain_total_example = verify_on_chain_total sample_server sample_options sample_clock

-- The same bundle, on another network.
abbrev other_server : Server
other_server = record sample_server { network = ok (codes "Public") }

abbrev mismatch : Failure
mismatch = network_mismatch_error (codes "Test") (codes "Public")

abbrev registry_options : VerifyViaRegistryOptions
registry_options = record {
  registry_contract_id = codes "CR";
  circuit_id = 2;
  calldata = none;
  bundle = some sample_bundle;
}

registry_run : verify_via_registry sample_server (codes "GE") registry_options ≡ ok true
unfolding verify_via_registry simulate_call resolve_calldata assert_bundle_network catching
    format_proof encode_g1 encode_g2 coordinate encode_public_inputs parse_field_element
    validate_proof_input all_digits value is_digit big_int assert_array assert_proof_field_element
    assert_pair validate_public_signals validate_signals_from validate_public_signal
    bigint_to_bytes32 validate_calldata assert_buffer_length assert_inputs_from
registry_run = refl

registry_mismatch_run :
    verify_via_registry other_server (codes "GE") registry_options ≡ err mismatch
unfolding verify_via_registry resolve_calldata assert_bundle_network catching caught format_proof
    encode_g1 encode_g2 coordinate encode_public_inputs parse_field_element validate_proof_input
    all_digits value is_digit big_int assert_array assert_proof_field_element assert_pair
    validate_public_signals validate_signals_from validate_public_signal bigint_to_bytes32
    validate_calldata assert_buffer_length assert_inputs_from
registry_mismatch_run = refl
