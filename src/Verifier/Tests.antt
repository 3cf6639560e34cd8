-- ===== src/Verifier/Tests.antt =====
-- Runs of the verifier, over the host of the registry's runs.
use zkstellar.Prelude.{
  arith, ◌≤◌, ◌≡◌, refl, Bool, true, [], ◌∷◌, ◌++◌, Option, none, some, replicate,
}
use zkstellar.Verify.Server.{Server}
use zkstellar.Verify.Samples.{sample_server}
use zkstellar.Verify.Config.{Conversions}
use zkstellar.Verifier.Config.{config_answer}
use zkstellar.Verifier.{get_config}
use zkstellar.Js.{non_integer}
use zkstellar.Text.{codes, pos}
use zkstellar.Types.{ok}
use zkstellar.Js.{Js, int, string, array, items}
use zkstellar.Bytes.{bigint_to_bytes32}
use zkstellar.Validate.{
  SorobanProofCalldata, validate_proof_input, assert_array, assert_proof_field_element, assert_pair,
  validate_public_signals, validate_signals_from, validate_public_signal,
}
use zkstellar.Text.{all_digits, value, is_digit, big_int}
use zkstellar.Proof.{
  format_proof, encode_g1, encode_g2, coordinate, encode_public_inputs, parse_field_element,
}
use zkstellar.Proof.Format.{calldata_of}
use zkstellar.Proof.Tests.{small_numbers}
use zkstellar.Validate.Samples.{small_proof}
use zkstellar.Contract.{Address}
use zkstellar.Registry.Samples.{toy_host, toy_key, anyone, g1, g2, one}
use zkstellar.Verifier.{proof_expired, Returned, fails, returns, Verifier, constructed}
use zkstellar.Verifier.Proofs.{
  ProofItem, skip_zeros, read_expiry_ledger, count_call, record_verification_attempt, check_pairing,
  verify_inputs, verify_counted, verify_one, verify_proof,
}
use zkstellar.Verifier.Outcome.{settings}
use zkstellar.Verifier.Settings.{only_admins_change}
use zkstellar.Verifier.Steps.{here, next, verifying}
use zkstellar.Verifier.Accepted.{begun, proved, accepted_within_limit}
use zkstellar.Verifier.Expiry.{item_of, accepted_before_expiry}
use zkstellar.Verifier.Unbound.{with_expiry, expiry_unbound}
use zkstellar.Verifier.Ready.{IsReady, constructed_stays-IsReady}

abbrev pub deployed : Verifier
deployed = record {
  admin = some (codes "GADMIN");
  pending_admin = none;
  limits = some (record { max_calls = 2; window_size = 100 });
  vk = some toy_key;
  call_count = λ caller window. none;
  allowlist_enabled = none;
  allowlist = λ address. none;
  verification_count = λ commitment. none;
  paused = none;
  wasm_hash = [];
  events = [];
}

constructed_run : constructed [] (codes "GADMIN") 2 100 toy_key ≡ some deployed
unfolding constructed
constructed_run = refl

abbrev an_item : ProofItem
an_item = record {
  proof_a = g1;
  proof_b = g2;
  proof_c = g1;
  public_inputs = one ∷ (replicate 30 0 ++ (1 ∷ 244 ∷ [])) ∷ [];
}

abbrev pub caller : Address
caller = codes "GCALLER"

abbrev pub result_of : Option (Returned Bool × Verifier) → Verifier
result_of none = deployed
result_of (some (answer, r)) = r

abbrev after_proof : Verifier
after_proof = result_of (verify_proof toy_host anyone 250 caller an_item deployed)

accepted_run :
    verify_proof toy_host anyone 250 caller an_item deployed ≡ some (returns true, after_proof)
unfolding skip_zeros read_expiry_ledger count_call record_verification_attempt check_pairing
    verify_inputs verify_counted verify_one verify_proof
accepted_run = refl

expired_run :
    verify_proof toy_host anyone 501 caller an_item deployed ≡ some (fails proof_expired, deployed)
unfolding skip_zeros read_expiry_ledger count_call record_verification_attempt check_pairing
    verify_inputs verify_counted verify_one verify_proof
expired_run = refl

only_admins_change_example : settings after_proof ≡ settings deployed
only_admins_change_example =
    only_admins_change toy_host deployed after_proof
      (next here refl (verifying anyone 250 caller an_item (returns true) accepted_run))

accepted_within_limit_example : 1 ≤ 2
accepted_within_limit_example =
    accepted_within_limit toy_host (λ auth. Unit) caller 200
      (record { max_calls = 2; window_size = 100 }) 1 deployed after_proof refl
      (proved anyone 250 caller an_item (returns true) begun refl refl accepted_run)

later_run : read_expiry_ledger (replicate 30 0 ++ (2 ∷ 88 ∷ [])) ≡ some 600
unfolding skip_zeros read_expiry_ledger
later_run = refl

expiry_unbound_example :
    (t : Verifier) × (verify_proof toy_host anyone 250 caller
        (with_expiry toy_host g1 g2 g1 one (replicate 30 0 ++ (2 ∷ 88 ∷ [])))
        deployed
      ≡ some (returns true, t))
expiry_unbound_example =
    expiry_unbound toy_host anyone 250 caller g1 g2 g1 one (replicate 30 0 ++ (1 ∷ 244 ∷ []))
      (replicate 30 0 ++ (2 ∷ 88 ∷ [])) 600 deployed after_proof later_run (omega arith)
      (omega arith) accepted_run

constructed_stays-IsReady_example : IsReady after_proof
constructed_stays-IsReady_example =
    constructed_stays-IsReady toy_host (λ auth. Unit) [] (codes "GADMIN") 2 100 toy_key deployed
      after_proof constructed_run
      (next here refl (verifying anyone 250 caller an_item (returns true) accepted_run))

abbrev paused : Verifier
paused = record deployed { paused = some true }

-- A proof with one public signal, and with an expiry, in front of the verifier.
abbrev pub one_signal : Js
one_signal = array (items (string (codes "7") ∷ []))

abbrev pub expiring : SorobanProofCalldata
expiring = calldata_of (record small_numbers { signals = 7 ∷ [] }) (bigint_to_bytes32 500 ∷ [])

pub expiring_formatted : format_proof small_proof one_signal (some (int (pos 500))) ≡ ok expiring
unfolding format_proof encode_g1 encode_g2 coordinate encode_public_inputs parse_field_element
    calldata_of validate_proof_input all_digits value is_digit big_int assert_array
    assert_proof_field_element assert_pair validate_public_signals validate_signals_from
    validate_public_signal bigint_to_bytes32
expiring_formatted = refl

abbrev pub after_expiring : Verifier
after_expiring = result_of (verify_proof toy_host anyone 250 caller (item_of expiring) deployed)

pub expiring_accepted :
    verify_proof toy_host anyone 250 caller (item_of expiring) deployed
    ≡ some (returns true, after_expiring)
unfolding skip_zeros read_expiry_ledger count_call record_verification_attempt check_pairing
    verify_inputs verify_counted verify_one verify_proof calldata_of bigint_to_bytes32
expiring_accepted = refl

accepted_before_expiry_example : 250 ≤ 500
accepted_before_expiry_example =
    accepted_before_expiry toy_host small_proof one_signal 500 expiring anyone 250 caller deployed
      after_expiring expiring_formatted expiring_accepted

-- The sample server, in front of a state of the verifier.
abbrev config_server : Server
config_server = record sample_server {
  simulate = λ transaction. ok (config_answer (λ e. []) 250 (get_config after_proof));
}

abbrev conversions : Conversions
conversions = record {
  other_text = λ v. [];
  other_number = λ v. non_integer;
  other_bigint = λ v. ok (pos 0);
}
