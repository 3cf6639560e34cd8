-- ===== src/Bundle/BindingTests.antt =====
-- Two bundles with one digest, over a function that collides on them.
use zkstellar.Prelude.{Bool, true, ltb, ◌&&◌, ◌≡◌, ◌⊎◌, refl, [], ◌∷◌, none, some, take, All, arith}
use zkstellar.Text.{Text, codes, all_digits, value, is_digit, big_int, trim}
use zkstellar.Types.{ok}
use zkstellar.Js.{as_string, prop, non_integer}
use zkstellar.Bytes.{bigint_to_bytes32}
use zkstellar.Validate.{
  validate_proof_input, assert_array, assert_proof_field_element, assert_pair,
  validate_public_signals, validate_signals_from, validate_public_signal,
}
use zkstellar.Proof.{
  format_proof, encode_g1, encode_g2, coordinate, encode_public_inputs, parse_field_element,
}
use zkstellar.Proof.Format.{calldata_of}
use zkstellar.Proof.Tests.{small_numbers}
use zkstellar.Nullifier.Binding.{Collides}
use zkstellar.Json.{json, utf8}
use zkstellar.Bundle.{
  set_field, content, content_text, verify_bundle_integrity, report, missing_text, encodes,
}
use zkstellar.Bundle.Integrity.{verify_bundle_integrity-sign_bundle}
use zkstellar.Bundle.Binding.{IsAscii, HoldsJson, SameContent, bundle_digest_binding}
use zkstellar.Json.RoundTrip.{IsJson}
use zkstellar.Json.Parse.{has_key}
use zkstellar.Bundle.Tests.{
  number_text, toy_hash, later, later_signed, later_signed_run, bytes_of_residues, bundle_at,
  text_of, sample_digest, signed, accepted_run,
}

encodes-later : encodes later ≡ ok (calldata_of small_numbers [])
unfolding format_proof encode_g1 encode_g2 coordinate encode_public_inputs parse_field_element
    calldata_of validate_proof_input all_digits value is_digit big_int assert_array
    assert_proof_field_element assert_pair validate_public_signals validate_signals_from
    validate_public_signal bigint_to_bytes32
encodes-later = refl

later_texts_run : missing_text later ≡ none
unfolding trim
later_texts_run = refl

later_accepted_run :
    verify_bundle_integrity number_text toy_hash later_signed ≡ ok (report later_signed none)
later_accepted_run =
    verify_bundle_integrity-sign_bundle number_text toy_hash later later_signed
      (calldata_of small_numbers []) later_texts_run encodes-later later_signed_run

-- The text of the content of a bundle that was made at a time.
abbrev text_at : Text → Text
unfolding json
text_at time = text_of (json number_text none (content (bundle_at time)))

signed_text_run : content_text number_text toy_hash signed ≡ ok (text_at (codes "2026"))
unfolding content_text text_at json set_field
signed_text_run = refl

later_text_run : content_text number_text toy_hash later_signed ≡ ok (text_at (codes "2027"))
unfolding content_text text_at json set_field
later_text_run = refl

all_ascii : Text → Bool
all_ascii [] = true
all_ascii (c ∷ s) = ltb c 0x80 && all_ascii s

all_ascii-IsAscii : (s : Text) → all_ascii s ≡ true → All IsAscii s
unfolding all_ascii
all_ascii-IsAscii [] h = tt
all_ascii-IsAscii (c ∷ s) h = (ground arith, all_ascii-IsAscii s (ground arith))

text-IsAscii : All IsAscii (text_at (codes "2026"))
unfolding text_at json all_ascii
text-IsAscii = all_ascii-IsAscii (text_at (codes "2026")) refl

later_text-IsAscii : All IsAscii (text_at (codes "2027"))
unfolding text_at json all_ascii
later_text-IsAscii = all_ascii-IsAscii (text_at (codes "2027")) refl

signed_json : HoldsJson signed
unfolding IsJson has_key set_field
signed_json = record {
  json_proof = ground arith;
  json_signals = ground arith;
  json_circuit = ground arith;
  json_time = ground arith;
  json_network = ground arith;
}

later_json : HoldsJson later_signed
unfolding IsJson has_key set_field
later_json = record {
  json_proof = ground arith;
  json_signals = ground arith;
  json_circuit = ground arith;
  json_time = ground arith;
  json_network = ground arith;
}

signed_digest : as_string (prop signed "digest") ≡ some sample_digest
unfolding set_field
signed_digest = refl

later_digest : as_string (prop later_signed "digest") ≡ some sample_digest
unfolding set_field
later_digest = refl

bundle_digest_binding_example :
    SameContent signed later_signed
    ⊎ Collides toy_hash (utf8 (text_at (codes "2026"))) (utf8 (text_at (codes "2027")))
bundle_digest_binding_example =
    bundle_digest_binding number_text (λ text. non_integer) toy_hash
      (λ bytes. bytes_of_residues (take 32 bytes)) signed later_signed sample_digest
      (text_at (codes "2026")) (text_at (codes "2027")) (report signed none)
      (report later_signed none) signed_digest later_digest accepted_run later_accepted_run refl
      refl signed_json later_json signed_text_run later_text_run text-IsAscii later_text-IsAscii
