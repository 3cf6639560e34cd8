-- ===== src/Verifier/OnChainTests.antt =====
-- Runs of verifyOnChain in front of the verifier.
use zkstellar.Prelude.{
  ℕ, zero, suc, ◌≤◌, ◌≡◌, refl, ◌∙◌, sym, subst, Bool, true, false, [], ◌∷◌, none, some, arith,
}
use zkstellar.Text.{codes, all_digits, value, is_digit, big_int}
use zkstellar.Types.{Result, ok}
use zkstellar.Js.{boolean, string}
use zkstellar.Bytes.{bigint_to_bytes32}
use zkstellar.Validate.{
  SorobanProofCalldata, validate_proof_input, assert_array, assert_proof_field_element, assert_pair,
  validate_public_signals, validate_signals_from, validate_public_signal, validate_calldata,
  assert_buffer_length, assert_inputs_from,
}
use zkstellar.Validate.Samples.{small_proof}
use zkstellar.Proof.{
  format_proof, encode_g1, encode_g2, coordinate, encode_public_inputs, parse_field_element,
}
use zkstellar.Proof.Format.{calldata_of}
use zkstellar.Proof.Tests.{small_numbers}
use zkstellar.Verify.Errors.{catching}
use zkstellar.Verify.Server.{
  Server, Success, TransactionStatus, not_found, succeeded, VerifyResult, ProofBundle,
}
use zkstellar.Verify.Decode.{
  resolve_calldata, assert_bundle_network, verify_result, decode_verify_return_value,
}
use zkstellar.Verify.Poll.{VerifyOptions, verify_on_chain, verify_attempt, submit, poll_loop}
use zkstellar.Verify.Samples.{sample_server, sample_bundle, found_transaction}
use zkstellar.Registry.Samples.{toy_host, anyone}
use zkstellar.Verifier.{returns, Verifier}
use zkstellar.Verifier.Proofs.{
  skip_zeros, read_expiry_ledger, count_call, record_verification_attempt, check_pairing,
  verify_inputs, verify_counted, verify_one, verify_proof,
}
use zkstellar.Verifier.Expiry.{item_of, same_ok}
use zkstellar.Verifier.OnChain.{Ran, ExecutesOptions}
use zkstellar.Verifier.Bundles.{verified_before_expiry, one_signal_bundle_not_verified}
use zkstellar.Verifier.Tests.{
  caller, one_signal, expiring, expiring_formatted, expiring_accepted, after_expiring, result_of,
  deployed,
}

-- The third answer is a transaction in which the verifier returned a Boolean, in ledger 250.
abbrev transaction_of : Bool → Success
transaction_of b = record found_transaction { ledger = some 250; return_value = some (boolean b) }

abbrev poll_of : Bool → ℕ → Result TransactionStatus
poll_of b zero = ok not_found
poll_of b (suc zero) = ok not_found
poll_of b (suc (suc n)) = ok (succeeded (transaction_of b))

abbrev server_of : Bool → Server
server_of b = record sample_server { poll = poll_of b }

abbrev result_in_250 : Bool → VerifyResult
result_in_250 b = record { verified = b; tx_hash = codes "ab01"; ledger = 250; fee = codes "100" }

abbrev expiring_options : VerifyOptions
expiring_options = record {
  contract_id = codes "C";
  public_key = caller;
  calldata = some expiring;
  bundle = none;
}

found_true :
    (n : ℕ) (b : Bool) (result : Success)
    → poll_of b n ≡ ok (succeeded result)
    → transaction_of b ≡ result
found_true zero b result h = cc
found_true (suc zero) b result h = cc
found_true (suc (suc n)) b result h = ground arith

expiring_executes : ExecutesOptions toy_host (server_of true) expiring_options
unfolding resolve_calldata
expiring_executes calldata e n result h =
    subst (λ x. Ran toy_host caller x result) (same_ok expiring calldata e)
      (subst (Ran toy_host caller expiring) (found_true n true result h) (record {
        ran_auth = anyone;
        ran_ledger = 250;
        ran_before = deployed;
        ran_after = after_expiring;
        ran_success = true;
        ran_call = expiring_accepted;
        ran_in = refl;
        ran_value = refl;
      }))

expiring_run : verify_on_chain (server_of true) expiring_options ≡ some (ok (result_in_250 true))
unfolding verify_on_chain verify_attempt resolve_calldata submit poll_loop verify_result
    decode_verify_return_value catching calldata_of bigint_to_bytes32 validate_calldata
    assert_buffer_length assert_inputs_from
expiring_run = refl

verified_before_expiry_example : 250 ≤ 500
verified_before_expiry_example =
    verified_before_expiry toy_host (server_of true) expiring_options (result_in_250 true)
      small_proof one_signal 500 expiring refl expiring_formatted expiring_executes expiring_run
      refl

-- A bundle with one signal.
abbrev short_bundle : ProofBundle
short_bundle = record sample_bundle { public_signals = one_signal }

abbrev plain : SorobanProofCalldata
plain = calldata_of (record small_numbers { signals = 7 ∷ [] }) []

abbrev bundle_options : VerifyOptions
bundle_options = record {
  contract_id = codes "C";
  public_key = caller;
  calldata = none;
  bundle = some short_bundle;
}

plain_formatted : format_proof small_proof one_signal none ≡ ok plain
unfolding format_proof encode_g1 encode_g2 coordinate encode_public_inputs parse_field_element
    calldata_of validate_proof_input all_digits value is_digit big_int assert_array
    assert_proof_field_element assert_pair validate_public_signals validate_signals_from
    validate_public_signal bigint_to_bytes32
plain_formatted = refl

abbrev after_plain : Verifier
after_plain = result_of (verify_proof toy_host anyone 250 caller (item_of plain) deployed)

plain_rejected :
    verify_proof toy_host anyone 250 caller (item_of plain) deployed
    ≡ some (returns false, after_plain)
unfolding skip_zeros read_expiry_ledger count_call record_verification_attempt check_pairing
    verify_inputs verify_counted verify_one verify_proof calldata_of bigint_to_bytes32
plain_rejected = refl

plain_executes : ExecutesOptions toy_host (server_of false) bundle_options
unfolding resolve_calldata
plain_executes calldata e n result h =
    subst (λ x. Ran toy_host caller x result) (same_ok plain calldata (sym plain_formatted ∙ e))
      (subst (Ran toy_host caller plain) (found_true n false result h) (record {
        ran_auth = anyone;
        ran_ledger = 250;
        ran_before = deployed;
        ran_after = after_plain;
        ran_success = false;
        ran_call = plain_rejected;
        ran_in = refl;
        ran_value = refl;
      }))

bundle_run : verify_on_chain (server_of false) bundle_options ≡ some (ok (result_in_250 false))
unfolding verify_on_chain verify_attempt resolve_calldata assert_bundle_network submit poll_loop
    verify_result decode_verify_return_value catching format_proof encode_g1 encode_g2 coordinate
    encode_public_inputs parse_field_element validate_proof_input all_digits value is_digit big_int
    assert_array assert_proof_field_element assert_pair validate_public_signals
    validate_signals_from validate_public_signal bigint_to_bytes32 validate_calldata
    assert_buffer_length assert_inputs_from
bundle_run = refl

one_signal_bundle_not_verified_example : (result_in_250 false).verified ≡ false
one_signal_bundle_not_verified_example =
    one_signal_bundle_not_verified toy_host (server_of false) bundle_options (result_in_250 false)
      short_bundle (string (codes "7")) refl refl refl plain_executes bundle_run
