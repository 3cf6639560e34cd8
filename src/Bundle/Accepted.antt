-- ===== src/Bundle/Accepted.antt =====
-- What an accepted bundle is: well-formed, encodable and, if it has a digest, unchanged.
use zkstellar.Prelude.{
  ◌≡◌, refl, ◌∙◌, sym, ap, true, List, Option, none, some, inl, inr, ◌⊎◌, Bool-cases, arith, ℕ,
}
use zkstellar.Text.{Text, text_eq, codes}
use zkstellar.Text.Trim.{NotBlank, is_empty-trim-NotBlank}
use zkstellar.Text.Equality.{text_eq_iff}
use zkstellar.Types.{Result, ok, err, ok_injective, >>=-eq-ok}
use zkstellar.Js.{Js, JsNumber, Fields, string, object, field, end, as_string, prop}
use zkstellar.Validate.{SorobanProofCalldata, validate_proof_input}
use zkstellar.Validate.Accepts.{ProofNumbers, IsProofInput, validate_proof_input_sound}
use zkstellar.Nullifier.{hex_encode}
use zkstellar.Json.{json, json_fields, utf8}
use zkstellar.Bundle.{
  content, fields_of, or_undefined_text, is_text, Violation, missing_or_empty,
  BundleIntegrityResult, report, missing_text, encodes, content_text, bundle_digest,
  first_violation, verify_bundle_integrity, compare_digest, check_content,
}
use Prim.Native.String.{String}

no_reason :
    (bundle : Js) (reason : Option Violation) → (report bundle reason).valid ≡ true → reason ≡ none
no_reason bundle none h = refl
no_reason bundle (some violation) h = cc

-- A string with a character that is no white space.
abbrev pub IsWritten : Js → Type 0
IsWritten v = (s : Text) × (v ≡ string s) × NotBlank s

pub is_text-IsWritten : (v : Js) → is_text v ≡ true → IsWritten v
is_text-IsWritten (Js.string s) h = (s, refl, is_empty-trim-NotBlank s (ground arith))
is_text-IsWritten Js.undefined h = absurd (cc)
is_text-IsWritten Js.null h = absurd (cc)
is_text-IsWritten (Js.boolean b) h = absurd (cc)
is_text-IsWritten (Js.number n) h = absurd (cc)
is_text-IsWritten (Js.bigint n) h = absurd (cc)
is_text-IsWritten (Js.array vs) h = absurd (cc)
is_text-IsWritten (Js.object fs) h = absurd (cc)
is_text-IsWritten (Js.buffer bs) h = absurd (cc)

missing_text-IsWritten :
    (bundle : Js)
    → missing_text bundle ≡ none
    → IsWritten (prop bundle "circuit")
      × IsWritten (prop bundle "generatedAt")
      × IsWritten (prop bundle "networkPassphrase")
missing_text-IsWritten bundle h = (
  is_text-IsWritten (prop bundle "circuit") (ground arith),
  is_text-IsWritten (prop bundle "generatedAt") (ground arith),
  is_text-IsWritten (prop bundle "networkPassphrase") (ground arith),
)

module _ (number_text : JsNumber → Text) (sha256 : List ℕ → List ℕ) (bundle : Js) where
  -- The digest that a bundle holds is that of its content.
  abbrev pub IsUnchanged : Type 0
  IsUnchanged =
      (as_string (prop bundle "digest") ≡ none)
      ⊎ ((digest : Text) × (as_string (prop bundle "digest") ≡ some digest)
          × (bundle_digest number_text sha256 bundle ≡ ok digest))

  texts_checked :
      (o : Option String)
      → (elim o as (λ o. Result (Option Violation)) [
        | some name ↦ ok (some (missing_or_empty name))
        | none ↦ check_content number_text sha256 bundle (encodes bundle)
      ])
        ≡ ok none
      → (o ≡ none) × (check_content number_text sha256 bundle (encodes bundle) ≡ ok none)
  texts_checked none h = (refl, h)
  texts_checked (some name) h = absurd (cc)

  content_checked :
      (encoded : Result SorobanProofCalldata)
      → check_content number_text sha256 bundle encoded ≡ ok none
      → (calldata : SorobanProofCalldata) × (encoded ≡ ok calldata)
        × (compare_digest number_text sha256 bundle (as_string (prop bundle "digest")) ≡ ok none)
  content_checked (ok calldata) h = (calldata, refl, h)
  content_checked (err failure) h = absurd (cc)

  digest_checked :
      (stored : Option Text)
      → compare_digest number_text sha256 bundle stored ≡ ok none
      → (stored ≡ none)
        ⊎ ((digest : Text) × (stored ≡ some digest)
            × (bundle_digest number_text sha256 bundle ≡ ok digest))
  digest_checked none h = inl refl
  digest_checked (some stored) h =
      let (expected, computed, compared) =
        >>=-eq-ok (bundle_digest number_text sha256 bundle) _ h in
      elim (Bool-cases (text_eq stored expected)) [
        | inl same ↦
            inr (stored, refl, computed ∙ ap ok (sym ((text_eq_iff stored expected).0 same)))
        | inr differ ↦ absurd (ground arith)
      ]

  pub checks_passed :
      (result : BundleIntegrityResult)
      → verify_bundle_integrity number_text sha256 bundle ≡ ok result
      → result.valid ≡ true
      → (calldata : SorobanProofCalldata) × (missing_text bundle ≡ none)
        × (encodes bundle ≡ ok calldata)
        × IsUnchanged
  unfolding verify_bundle_integrity first_violation
  checks_passed result h valid =
      let (reason, found, made) =
        >>=-eq-ok (first_violation number_text sha256 bundle) (λ r. ok (report bundle r)) h in
      let e : report bundle reason ≡ result = ok_injective made in
      let none_found : reason ≡ none = no_reason bundle reason (rw e valid) in
      let (texts, checked) = texts_checked (missing_text bundle) (found ∙ ap ok none_found) in
      let (calldata, encoded, compared) = content_checked (encodes bundle) checked in
      (calldata, texts, encoded, digest_checked (as_string (prop bundle "digest")) compared)

  pub digest_text :
      (digest : Text)
      → bundle_digest number_text sha256 bundle ≡ ok digest
      → (text : Text) × (content_text number_text sha256 bundle ≡ ok text)
        × (digest ≡ hex_encode (sha256 (utf8 text)))
  unfolding bundle_digest
  digest_text digest h =
      let (text, printed, made) =
        >>=-eq-ok (content_text number_text sha256 bundle) (λ t. ok (hex_encode (sha256 (utf8 t))))
          h in
      (text, printed, sym (ok_injective made))

  -- The text that the digest covers, with the five fields written out.
  abbrev pub IsPrinted : Text → Type 0
  IsPrinted text =
      json number_text none (
        object (
          field (codes "proof") (prop bundle "proof") (
            field (codes "publicSignals") (prop bundle "publicSignals") (
              field (codes "circuit") (prop bundle "circuit") (
                field (codes "generatedAt") (prop bundle "generatedAt")
                  (field (codes "networkPassphrase") (prop bundle "networkPassphrase") end))))))
      ≡ ok (some text)

  -- A bundle that holds together; its digest, if it has one, covers the five fields.
  pub record IsIntact : Type 0 where
    pub circuit_written : IsWritten (prop bundle "circuit")
    pub time_written : IsWritten (prop bundle "generatedAt")
    pub network_written : IsWritten (prop bundle "networkPassphrase")
    pub numbers : ProofNumbers
    pub holds_proof : IsProofInput (prop bundle "proof") (prop bundle "publicSignals") numbers
    pub holds_digest :
        (as_string (prop bundle "digest") ≡ none)
        ⊎ ((text : Text) × IsPrinted text
            × (as_string (prop bundle "digest") ≡ some (hex_encode (sha256 (utf8 text)))))

  object_printed :
      (fs : Fields) (o : Option Text)
      → json number_text none (object fs) ≡ ok o
      → (text : Text) × (o ≡ some text)
  unfolding json
  object_printed fs o h =
      let (texts, printed, made) = >>=-eq-ok (json_fields number_text none fs) _ h in
      (_, sym (ok_injective made))

  content_text-IsPrinted :
      (text : Text) → content_text number_text sha256 bundle ≡ ok text → IsPrinted text
  unfolding content_text
  content_text-IsPrinted text h =
      let (o, printed, made) =
        >>=-eq-ok (json number_text none (content bundle)) (λ t. ok (or_undefined_text t)) h in
      let (t, same) = object_printed (fields_of (content bundle)) o printed in
      printed ∙ ap ok (same ∙ ap some (sym (ap or_undefined_text same) ∙ ok_injective made))

  digest_covers :
      IsUnchanged
      → (as_string (prop bundle "digest") ≡ none)
        ⊎ ((text : Text) × IsPrinted text
            × (as_string (prop bundle "digest") ≡ some (hex_encode (sha256 (utf8 text)))))
  digest_covers (inl h) = inl h
  digest_covers (inr (digest, held, computed)) =
      let (text, printed, same) = digest_text digest computed in
      inr (text, content_text-IsPrinted text printed, held ∙ ap some same)

  -- If verifyBundleIntegrity calls a bundle valid, then its circuit, time and network are strings with a
  -- character that is no white space; its proof is a Groth16 proof whose coordinates, and its public signals,
  -- denote field elements; and the digest that it holds, if any, is the SHA-256, in hexadecimal, of the
  -- UTF-8 bytes of the JSON text of its proof, public signals, circuit, time and network, in this order.
  pub verify_bundle_integrity_sound :
      (result : BundleIntegrityResult)
      → verify_bundle_integrity number_text sha256 bundle ≡ ok result
      → result.valid ≡ true
      → IsIntact
  verify_bundle_integrity_sound result h valid =
      let (calldata, texts, encoded, unchanged) = checks_passed result h valid in
      let (circuit, time, network) = missing_text-IsWritten bundle texts in
      let (u, validated, made) =
        >>=-eq-ok (validate_proof_input (prop bundle "proof") (prop bundle "publicSignals")) _
          encoded in
      let (n, p) =
        validate_proof_input_sound (prop bundle "proof") (prop bundle "publicSignals") validated in
      record {
        circuit_written = circuit;
        time_written = time;
        network_written = network;
        numbers = n;
        holds_proof = p;
        holds_digest = digest_covers unchanged;
      }
