-- ===== src/Bundle/Integrity.antt =====
-- What an accepted bundle is, and that signing makes one.
use zkstellar.Prelude.{◌≡◌, refl, ◌∙◌, ap, true, false, List, Option, none, some, ℕ}
use zkstellar.Text.{Text, codes, text_eq}
use zkstellar.Text.Equality.{text_eq_iff}
use zkstellar.Types.{Result, ok, ok_injective, >>=-eq-ok}
use zkstellar.Js.{Js, JsNumber, string, as_string, prop}
use zkstellar.Validate.{SorobanProofCalldata}
use zkstellar.Bundle.{
  Violation, missing_or_empty, report, missing_text, encodes, content, content_text, bundle_digest,
  sign_bundle, first_violation, verify_bundle_integrity, with_field, compare_digest, check_content,
}
use zkstellar.Bundle.Spread.{prop-with_field_same, prop-with_field_other}
use Prim.Native.String.{String}

-- A property that signing leaves as it is.
signed_prop :
    (bundle digest : Js) (k : String)
    → text_eq (codes "digest") (codes k) ≡ false
    → prop (with_field bundle "digest" digest) k ≡ prop bundle k
signed_prop bundle digest k h = prop-with_field_other bundle "digest" k digest h

module _ (bundle digest : Js) where
  content-with_field : content (with_field bundle "digest" digest) ≡ content bundle
  content-with_field = rw (
    signed_prop bundle digest "proof" refl,
    signed_prop bundle digest "publicSignals" refl,
    signed_prop bundle digest "circuit" refl,
    signed_prop bundle digest "generatedAt" refl,
    signed_prop bundle digest "networkPassphrase" refl,
  )

  missing_text-with_field : missing_text (with_field bundle "digest" digest) ≡ missing_text bundle
  missing_text-with_field = rw (
    signed_prop bundle digest "circuit" refl,
    signed_prop bundle digest "generatedAt" refl,
    signed_prop bundle digest "networkPassphrase" refl,
  )

  encodes-with_field : encodes (with_field bundle "digest" digest) ≡ encodes bundle
  encodes-with_field =
      rw (signed_prop bundle digest "proof" refl, signed_prop bundle digest "publicSignals" refl)

module _ (number_text : JsNumber → Text) (sha256 : List ℕ → List ℕ) where
  bundle_digest-with_field :
      (bundle digest : Js)
      → bundle_digest number_text sha256 (with_field bundle "digest" digest)
        ≡ bundle_digest number_text sha256 bundle
  unfolding bundle_digest content_text
  bundle_digest-with_field bundle digest = rw (content-with_field bundle digest)

  pub texts_present :
      (bundle : Js) (o : Option String)
      → o ≡ none
      → (elim o as (λ o. Result (Option Violation)) [
        | some name ↦ ok (some (missing_or_empty name))
        | none ↦ check_content number_text sha256 bundle (encodes bundle)
      ])
        ≡ check_content number_text sha256 bundle (encodes bundle)
  texts_present bundle none h = refl
  texts_present bundle (some name) h = cc

  digest_matches :
      (bundle : Js) (digest : Text)
      → bundle_digest number_text sha256 bundle ≡ ok digest
      → compare_digest number_text sha256 bundle (some digest) ≡ ok none
  digest_matches bundle digest computed =
      let same : text_eq digest digest ≡ true = (text_eq_iff digest digest).1 refl in
      rw (computed, same)

  -- A bundle with the digest of its content has no violation, if its strings are not blank and its proof
  -- can be encoded.
  no_violation :
      (bundle : Js) (digest : Text) (calldata : SorobanProofCalldata)
      → missing_text bundle ≡ none
      → encodes bundle ≡ ok calldata
      → as_string (prop bundle "digest") ≡ some digest
      → bundle_digest number_text sha256 bundle ≡ ok digest
      → first_violation number_text sha256 bundle ≡ ok none
  unfolding first_violation
  no_violation bundle digest calldata texts encoded stored computed =
      texts_present bundle (missing_text bundle) texts
      ∙ ap (check_content number_text sha256 bundle) encoded
      ∙ ap (compare_digest number_text sha256 bundle) stored
      ∙ digest_matches bundle digest computed

  pub accepted :
      (bundle : Js)
      → first_violation number_text sha256 bundle ≡ ok none
      → verify_bundle_integrity number_text sha256 bundle ≡ ok (report bundle none)
  unfolding verify_bundle_integrity
  accepted bundle h = rw h

  -- A bundle with nonblank circuit, time and network whose proof formatProof encodes is valid when it
  -- has been signed: verifyBundleIntegrity accepts what signBundle returns.
  pub verify_bundle_integrity-sign_bundle :
      (bundle signed : Js) (calldata : SorobanProofCalldata)
      → missing_text bundle ≡ none
      → encodes bundle ≡ ok calldata
      → sign_bundle number_text sha256 bundle ≡ ok signed
      → verify_bundle_integrity number_text sha256 signed ≡ ok (report signed none)
  unfolding sign_bundle
  verify_bundle_integrity-sign_bundle bundle signed calldata texts encoded h =
      let (digest, computed, made) =
        >>=-eq-ok (bundle_digest number_text sha256 bundle)
          (λ d. ok (with_field bundle "digest" (string d))) h in
      let e : with_field bundle "digest" (string digest) ≡ signed = ok_injective made in
      rw (← e) (
        accepted (with_field bundle "digest" (string digest)) (
          no_violation (with_field bundle "digest" (string digest)) digest calldata
            (missing_text-with_field bundle (string digest) ∙ texts)
            (encodes-with_field bundle (string digest) ∙ encoded)
            (ap as_string (prop-with_field_same bundle "digest" (string digest)))
            (bundle_digest-with_field bundle (string digest) ∙ computed)))
