-- ===== src/Verify/BatchTests.antt =====
-- Runs of the batch calls and of the history.
use zkstellar.Prelude.{
  ℕ, ◌≡◌, refl, Bool, true, false, List, [], ◌∷◌, none, some, length, ◌==◌, arith,
}
use zkstellar.Text.{Text, codes, all_digits, value, is_digit, big_int, digit_char}
use zkstellar.Types.{ok, err, other_error}
use zkstellar.Js.{Js, string, boolean, array, items, object, field, end, buffer}
use zkstellar.Bytes.{bigint_to_bytes32}
use zkstellar.Validate.{
  SorobanProofCalldata, validate_calldata, validate_proof_input, assert_array,
  assert_proof_field_element, assert_pair, validate_public_signals, validate_signals_from,
  validate_public_signal, assert_buffer_length, assert_inputs_from,
}
use zkstellar.Validate.Samples.{small_proof, small_signals}
use zkstellar.Proof.{
  format_proof, encode_g1, encode_g2, coordinate, encode_public_inputs, parse_field_element,
}
use zkstellar.Nullifier.{hex_encode}
use zkstellar.Verify.Server.{
  Server, SendResult, Success, DiagnosticEvent, VerifyBatchResult, verify_batch, succeeded,
  simulated,
}
use zkstellar.Verify.Errors.{catching}
use zkstellar.Verify.Decode.{
  batch_result, or_empty, decode_bool_array_from_diagnostics, returned_data,
}
use zkstellar.Verify.Poll.{
  VerifierBatchItem, verify_batch_on_chain, batch_attempt, submit, poll_loop, format_items,
  validate_all,
}
use zkstellar.Verify.Simulate.{
  RegistryBatchItem, verify_batch_via_registry, format_registry_items, simulate_call,
}
use zkstellar.Verify.Outcome.{IsFound, Ticks}
use zkstellar.Verify.Batch.{verify_batch_on_chain_sound}
use zkstellar.Verify.History.{
  ContractEvent, VerificationHistoryEntry, get_verification_history, entries_of, entry_of,
}
use zkstellar.Verify.Samples.{sample_server, found_transaction}

abbrev two_verdicts : Js
two_verdicts = array (items (boolean true ∷ boolean false ∷ []))

abbrev verdicts_event : DiagnosticEvent
verdicts_event = record {
  topics = string (codes "fn_return") ∷ string (codes "verify_batch") ∷ [];
  event_data = two_verdicts;
}

abbrev batch_transaction : Success
batch_transaction = record found_transaction { diagnostic_events = some (verdicts_event ∷ []) }

abbrev batch_server : Server
batch_server = record sample_server {
  simulate = λ transaction. ok (simulated (some two_verdicts) 250);
  poll = λ round. ok (succeeded batch_transaction);
}

abbrev one_item : VerifierBatchItem
one_item = record { proof = small_proof; public_signals = small_signals; expiry_ledger = none }

abbrev two_items : List VerifierBatchItem
two_items = one_item ∷ one_item ∷ []

abbrev batch_verdicts : VerifyBatchResult
batch_verdicts = record {
  verified = true ∷ false ∷ [];
  tx_hash = codes "ab01";
  ledger = 77;
  fee = codes "100";
}

batch_run :
    verify_batch_on_chain batch_server (codes "CA") (codes "GA") two_items
    ≡ some (ok batch_verdicts)
unfolding verify_batch_on_chain batch_attempt submit poll_loop batch_result
    decode_bool_array_from_diagnostics returned_data format_items validate_all catching format_proof
    encode_g1 encode_g2 coordinate encode_public_inputs parse_field_element validate_proof_input
    all_digits value is_digit big_int assert_array assert_proof_field_element assert_pair
    validate_public_signals validate_signals_from validate_public_signal bigint_to_bytes32
    validate_calldata assert_buffer_length assert_inputs_from
batch_run = refl

verify_batch_on_chain_sound_example :
    (calldata : List SorobanProofCalldata) × (passphrase : Text) × (sent : SendResult) × (n : ℕ)
    × (result : Success) × ((length two_items == 0) ≡ false)
    × (format_items two_items ≡ ok calldata)
    × (validate_all calldata ≡ ok tt)
    × (batch_server.network ≡ ok passphrase)
    × (submit batch_server passphrase (codes "GA") (codes "CA") (verify_batch (codes "GA") calldata)
        ≡ ok sent)
    × IsFound batch_server 0 n result
    × (or_empty (decode_bool_array_from_diagnostics result.diagnostic_events) ≡ true ∷ false ∷ [])
    × (result.tx_hash ≡ codes "ab01")
    × (result.ledger ≡ some 77)
verify_batch_on_chain_sound_example =
    verify_batch_on_chain_sound batch_server (codes "CA") (codes "GA") two_items batch_verdicts
      batch_run

batch_clock : Ticks batch_result batch_server
batch_clock = (omega arith, λ n. omega arith)

abbrev registry_items : List RegistryBatchItem
registry_items =
    record { circuit_id = 2; proof = small_proof; public_signals = small_signals }
    ∷ record { circuit_id = 5; proof = small_proof; public_signals = small_signals }
    ∷ []

registry_batch_run :
    verify_batch_via_registry batch_server (codes "GE") (codes "CR") registry_items
    ≡ ok (true ∷ false ∷ [])
unfolding verify_batch_via_registry format_registry_items simulate_call validate_all catching
    format_proof encode_g1 encode_g2 coordinate encode_public_inputs parse_field_element
    validate_proof_input all_digits value is_digit big_int assert_array assert_proof_field_element
    assert_pair validate_public_signals validate_signals_from validate_public_signal
    bigint_to_bytes32 validate_calldata assert_buffer_length assert_inputs_from
registry_batch_run = refl

abbrev event_of : Bool → ContractEvent
event_of success = record {
  body = ok (
      object (
        field (codes "success") (boolean success)
          (field (codes "inputs_hash") (buffer (10 ∷ 255 ∷ [])) end)));
  ledger = 12;
  closed_at = 1700000000;
  tx_hash = codes "cd";
}

abbrev malformed : ContractEvent
malformed = record (event_of true) { body = err (other_error []) }

abbrev good_entry : VerificationHistoryEntry
good_entry = record {
  success = true;
  inputs_hash = codes "0aff";
  caller = none;
  ledger = 12;
  ledger_closed_at = 1700000000;
  tx_hash = codes "cd";
}

abbrev sample_events : List ContractEvent
sample_events = event_of true ∷ malformed ∷ event_of false ∷ []

history_run : get_verification_history (ok sample_events) (some true) ≡ ok (good_entry ∷ [])
unfolding get_verification_history entries_of entry_of catching hex_encode digit_char
history_run = refl
