-- ===== src/Validate/Tests.antt =====
-- Runs of the validation.
use zkstellar.Prelude.{◌≡◌, refl}
use zkstellar.Types.{ok}
use zkstellar.Text.{all_digits, value, is_digit, big_int}
use zkstellar.Validate.{
  validate_proof_input, assert_array, assert_proof_field_element, assert_pair,
  validate_public_signals, validate_signals_from, validate_public_signal,
}
use zkstellar.Validate.Accepts.{ProofNumbers, IsProofInput, validate_proof_input_sound}
use zkstellar.Validate.Samples.{small_proof, small_signals}

pub small_proof_accepted : validate_proof_input small_proof small_signals ≡ ok tt
unfolding validate_proof_input all_digits value is_digit big_int assert_array
    assert_proof_field_element assert_pair validate_public_signals validate_signals_from
    validate_public_signal
small_proof_accepted = refl

validate_proof_input_sound_example : (n : ProofNumbers) × IsProofInput small_proof small_signals n
validate_proof_input_sound_example =
    validate_proof_input_sound small_proof small_signals small_proof_accepted
