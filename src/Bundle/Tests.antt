-- ===== src/Bundle/Tests.antt =====
-- Runs of the bundles, over a function that stands for SHA-256.
use zkstellar.Prelude.{ℕ, ◌%◌, ◌≡◌, refl, List, [], ◌∷◌, Option, none, some, take, map, All, arith}
use zkstellar.Text.{Text, codes, print_decimal, all_digits, value, is_digit, big_int, trim}
use zkstellar.Types.{ok, Result}
use zkstellar.Js.{Js, JsNumber, int, non_integer, string}
use zkstellar.Bytes.{bigint_to_bytes32}
use zkstellar.Bytes.BigEndian.{IsByte}
use zkstellar.Validate.{
  validate_proof_input, assert_array, assert_proof_field_element, assert_pair,
  validate_public_signals, validate_signals_from, validate_public_signal,
}
use zkstellar.Validate.Samples.{small_proof, small_signals}
use zkstellar.Proof.{
  format_proof, encode_g1, encode_g2, coordinate, encode_public_inputs, parse_field_element,
}
use zkstellar.Proof.Format.{calldata_of}
use zkstellar.Proof.Tests.{small_numbers}
use zkstellar.Nullifier.{hex_encode}
use zkstellar.Json.{json, utf8}
use zkstellar.Bundle.{
  CreateBundleOptions, create_bundle, create_bundle_of, five_fields, with_field, content,
  content_text, bundle_digest, sign_bundle, verify_bundle_integrity, report, missing_text, encodes,
}
use zkstellar.Bundle.Integrity.{verify_bundle_integrity-sign_bundle}
use zkstellar.Bundle.Accepted.{IsIntact, verify_bundle_integrity_sound}
use zkstellar.Bundle.Created.{create_bundle_valid}

abbrev pub number_text : JsNumber → Text
number_text (int n) = print_decimal n
number_text non_integer = codes "null"

-- It keeps the first 32 bytes.
abbrev pub toy_hash : List ℕ → List ℕ
toy_hash bytes = map (λ b. b % 256) (take 32 bytes)

pub bytes_of_residues : (bytes : List ℕ) → All IsByte (map (λ b. b % 256) bytes)
bytes_of_residues [] = tt
bytes_of_residues (b ∷ bytes) = (omega arith, bytes_of_residues bytes)

abbrev options_at : Option Text → CreateBundleOptions
options_at time = record {
  proof = small_proof;
  public_signals = small_signals;
  circuit = string (codes " range_proof ");
  network_passphrase = string (codes "Test");
  generated_at = time;
}

abbrev pub bundle_at : Text → Js
bundle_at time =
    five_fields small_proof small_signals (string (codes "range_proof")) (string time)
      (string (codes "Test"))

abbrev pub sample : Js
sample = bundle_at (codes "2026")

created : create_bundle (codes "2026") (options_at none) ≡ ok sample
unfolding create_bundle create_bundle_of trim validate_proof_input all_digits value is_digit big_int
    assert_array assert_proof_field_element assert_pair validate_public_signals
    validate_signals_from validate_public_signal
created = refl

created_blank : create_bundle (codes "2026") (options_at (some [])) ≡ ok (bundle_at [])
unfolding create_bundle create_bundle_of trim validate_proof_input all_digits value is_digit big_int
    assert_array assert_proof_field_element assert_pair validate_public_signals
    validate_signals_from validate_public_signal
created_blank = refl

abbrev pub text_of : Result (Option Text) → Text
text_of (ok (some text)) = text
text_of _ = []

abbrev pub sample_digest : Text
unfolding json utf8 hex_encode
sample_digest = hex_encode (toy_hash (utf8 (text_of (json number_text none (content sample)))))

abbrev pub signed : Js
signed = with_field sample "digest" (string sample_digest)

digest_run : bundle_digest number_text toy_hash sample ≡ ok sample_digest
unfolding bundle_digest content_text json sample_digest
digest_run = refl

pub signed_run : sign_bundle number_text toy_hash sample ≡ ok signed
unfolding sign_bundle bundle_digest content_text json sample_digest
signed_run = refl

create_bundle_valid_example :
    (verify_bundle_integrity number_text toy_hash sample ≡ ok (report sample none))
    × (verify_bundle_integrity number_text toy_hash signed ≡ ok (report signed none))
unfolding trim
create_bundle_valid_example =
    create_bundle_valid number_text toy_hash (codes "2026") (options_at none) sample signed created
      refl signed_run

encodes_run : encodes sample ≡ ok (calldata_of small_numbers [])
unfolding format_proof encode_g1 encode_g2 coordinate encode_public_inputs parse_field_element
    calldata_of validate_proof_input all_digits value is_digit big_int assert_array
    assert_proof_field_element assert_pair validate_public_signals validate_signals_from
    validate_public_signal bigint_to_bytes32
encodes_run = refl

texts_run : missing_text sample ≡ none
unfolding trim
texts_run = refl

verify_bundle_integrity-sign_bundle_example :
    verify_bundle_integrity number_text toy_hash signed ≡ ok (report signed none)
verify_bundle_integrity-sign_bundle_example =
    verify_bundle_integrity-sign_bundle number_text toy_hash sample signed
      (calldata_of small_numbers []) texts_run encodes_run signed_run

pub accepted_run : verify_bundle_integrity number_text toy_hash signed ≡ ok (report signed none)
accepted_run =
    verify_bundle_integrity-sign_bundle number_text toy_hash sample signed
      (calldata_of small_numbers []) texts_run encodes_run signed_run

verify_bundle_integrity_sound_example : IsIntact number_text toy_hash signed
verify_bundle_integrity_sound_example =
    verify_bundle_integrity_sound number_text toy_hash signed (report signed none) accepted_run refl

-- The time stands behind the bytes that `toy_hash` keeps.
abbrev pub later : Js
later = bundle_at (codes "2027")

abbrev pub later_signed : Js
later_signed = with_field later "digest" (string sample_digest)

pub later_signed_run : sign_bundle number_text toy_hash later ≡ ok later_signed
unfolding sign_bundle bundle_digest content_text json sample_digest
later_signed_run = refl
