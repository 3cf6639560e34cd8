-- ===== src/Demo/Refused.antt =====
-- The third scenario of demo/src/run.ts.
use zkstellar.Prelude.{◌≡◌, refl, List, [], ◌∷◌, none}
use zkstellar.Text.{Text, codes, all_digits, is_digit, value, big_int}
use zkstellar.Types.{
  Failure, zk_input_error, root, at, exceeds_field, invalid_public_input, ok, err, guard, >>=-eq-ok,
}
use zkstellar.Js.{Js, string, array, items, is_object, as_string, prop, element}
use zkstellar.Validate.{
  SorobanProofCalldata, validate_proof_input, validate_public_signals, validate_signals_from,
  validate_public_signal, assert_pair, assert_array, is_groth16,
}
use zkstellar.Proof.{format_proof}
use zkstellar.Proof.Format.{format_proof-validated}
use zkstellar.Demo.Scenarios.{out_of_field_public_input, third_scenario}

abbrev pub refused_error : Failure
refused_error = zk_input_error (at (root "publicSignals") 0) exceeds_field invalid_public_input

abbrev out_of_field : Js
out_of_field = array (items (string out_of_field_public_input ∷ []))

out_of_field_refused : validate_public_signals out_of_field ≡ err refused_error
unfolding validate_public_signals validate_signals_from validate_public_signal all_digits is_digit
    value big_int
out_of_field_refused = refl

-- What validation says of the proof does not depend on the signals.
refused_signals :
    (proof signals others : Js) (e : Failure)
    → validate_proof_input proof signals ≡ ok tt
    → validate_public_signals others ≡ err e
    → validate_proof_input proof others ≡ err e
unfolding validate_proof_input
refused_signals proof signals others e h bad =
    let (u0, a0, h0) = >>=-eq-ok (guard (is_object proof) _) _ h in
    let (u1, a1, h1) = >>=-eq-ok (guard (is_groth16 (as_string (prop proof "protocol"))) _) _ h0 in
    let (u2, a2, h2) = >>=-eq-ok (assert_pair (prop proof "pi_a") (root "pi_a")) _ h1 in
    let (rows, a3, h3) = >>=-eq-ok (assert_array (prop proof "pi_b") (root "pi_b") 2) _ h2 in
    let (u4, a4, h4) = >>=-eq-ok (assert_pair (element rows 0) (at (root "pi_b") 0)) _ h3 in
    let (u5, a5, h5) = >>=-eq-ok (assert_pair (element rows 1) (at (root "pi_b") 1)) _ h4 in
    let (u6, a6, h6) = >>=-eq-ok (assert_pair (prop proof "pi_c") (root "pi_c")) _ h5 in
    rw (a0, a1, a2, a3, a4, a5, a6) bad

-- For every proof that formatProof encoded in the first scenario, formatProof throws ZkInputError on the
-- public input of the third, and the script prints what it expects.
pub third_scenario_throws :
    (error_lines : Failure → List Text) (proof public_signals : Js)
    (calldata : SorobanProofCalldata)
    → format_proof proof public_signals none ≡ ok calldata
    → third_scenario error_lines proof
      ≡ ok (codes "✗ formatProof threw ZkInputError, as expected:" ∷ error_lines refused_error)
unfolding format_proof
third_scenario_throws error_lines proof public_signals calldata h =
    let refused =
      refused_signals proof public_signals out_of_field refused_error
        (format_proof-validated proof public_signals none calldata h) out_of_field_refused in
    rw refused refl
