-- ===== src/Bundle/Created.antt =====
-- What `createBundle` makes, and what `verifyBundleIntegrity` says of it.
use zkstellar.Prelude.{
  ◌≡◌, refl, ◌∙◌, sym, ap, true, false, List, [], Option, none, some, inl, inr, Option-cases, arith,
  ℕ, if◌then◌else◌,
}
use zkstellar.Text.{Text, trim, is_empty}
use zkstellar.Text.Trim.{is_empty-trim-trim}
use zkstellar.Types.{Result, ok, ◌>>=◌, ok_injective, >>=-eq-ok}
use zkstellar.Js.{Js, JsNumber, string, as_string, prop}
use zkstellar.Validate.{SorobanProofCalldata, validate_proof_input}
use zkstellar.Proof.Format.{format_proof_correct, calldata_of}
use zkstellar.Bundle.{
  CreateBundleOptions, create_bundle, create_bundle_of, nullish, optional_text, required,
  default_text, five_fields, is_text, missing_text, missing_or_empty, encodes, report, sign_bundle,
  verify_bundle_integrity, first_violation, check_content, compare_digest, Violation,
}
use Prim.Native.String.{String}
use zkstellar.Bundle.Integrity.{accepted, verify_bundle_integrity-sign_bundle, texts_present}

-- What a call that returns has checked.
record IsCreated (now : Text) (opts : CreateBundleOptions) (bundle : Js) : Type 0 where
  circuit_text : Text
  circuit_filled : is_empty (trim circuit_text) ≡ false
  passphrase : Text
  passphrase_filled : is_empty (trim passphrase) ≡ false
  proof_valid : validate_proof_input opts.proof opts.public_signals ≡ ok tt
  created :
      bundle
      ≡ five_fields opts.proof opts.public_signals
          (string (trim circuit_text))
          (string (default_text opts.generated_at now))
          (string passphrase)

required-eq-ok : (v : Js) (s : Text) → required v ≡ ok s → is_empty (trim s) ≡ false
required-eq-ok v s h = elim (Option-cases (as_string v)) [
  | inl e ↦ absurd (ground arith)
  | inr (t, e) ↦ ground arith
]

nullish-optional_text :
    (given : Option Text) (now : Text)
    → nullish (optional_text given) now ≡ string (default_text given now)
nullish-optional_text none now = refl
nullish-optional_text (some s) now = refl

create_bundle-IsCreated :
    (now : Text) (opts : CreateBundleOptions) (bundle : Js)
    → create_bundle now opts ≡ ok bundle
    → IsCreated now opts bundle
unfolding create_bundle create_bundle_of
create_bundle-IsCreated now opts bundle h =
    let (u, valid, h1) = >>=-eq-ok (validate_proof_input opts.proof opts.public_signals) _ h in
    let (circuit, p, h2) = >>=-eq-ok (required opts.circuit) _ h1 in
    let (passphrase, q, h3) =
      >>=-eq-ok (required opts.network_passphrase)
        (λ s. ok (
          five_fields opts.proof opts.public_signals (string (trim circuit))
            (nullish (optional_text opts.generated_at) now) (string s)))
        h2 in
    record {
      circuit_text = circuit;
      circuit_filled = required-eq-ok opts.circuit circuit p;
      passphrase = passphrase;
      passphrase_filled = required-eq-ok opts.network_passphrase passphrase q;
      proof_valid = valid;
      created =
          sym (ok_injective h3)
          ∙ ap
              (λ t.
                five_fields opts.proof opts.public_signals (string (trim circuit)) t
                  (string passphrase))
              (nullish-optional_text opts.generated_at now);
    }

encodes_created :
    (now : Text) (opts : CreateBundleOptions) (bundle : Js)
    → IsCreated now opts bundle
    → (calldata : SorobanProofCalldata) × (encodes bundle ≡ ok calldata)
encodes_created now opts bundle c =
    let (n, p, formatted) = format_proof_correct opts.proof opts.public_signals c.proof_valid in
    (calldata_of n [], rw c.created (rw c.proof_valid formatted))

missing_text_created :
    (now : Text) (opts : CreateBundleOptions) (bundle : Js)
    → IsCreated now opts bundle
    → missing_text bundle
      ≡ (if is_text (string (default_text opts.generated_at now)) then none else some "generatedAt")
missing_text_created now opts bundle c =
    let trimmed : is_empty (trim (trim c.circuit_text)) ≡ false =
      is_empty-trim-trim c.circuit_text ∙ c.circuit_filled in
    rw c.created (rw (trimmed, c.passphrase_filled))

module _ (number_text : JsNumber → Text) (sha256 : List ℕ → List ℕ) where
  unsigned_digest :
      (now : Text) (opts : CreateBundleOptions) (bundle : Js)
      → IsCreated now opts bundle
      → as_string (prop bundle "digest") ≡ none
  unsigned_digest now opts bundle c = rw c.created

  -- A bundle that createBundle returns, with a time that is not blank, is valid to
  -- verifyBundleIntegrity, as it is and as signBundle signs it.
  pub create_bundle_valid :
      (now : Text) (opts : CreateBundleOptions) (bundle signed : Js)
      → create_bundle now opts ≡ ok bundle
      → is_text (string (default_text opts.generated_at now)) ≡ true
      → sign_bundle number_text sha256 bundle ≡ ok signed
      → (verify_bundle_integrity number_text sha256 bundle ≡ ok (report bundle none))
        × (verify_bundle_integrity number_text sha256 signed ≡ ok (report signed none))
  unfolding first_violation
  create_bundle_valid now opts bundle signed h time s =
      let c = create_bundle-IsCreated now opts bundle h in
      let (calldata, encoded) = encodes_created now opts bundle c in
      let texts : missing_text bundle ≡ none = missing_text_created now opts bundle c ∙ rw time in
      (
        accepted number_text sha256 bundle (
            texts_present number_text sha256 bundle (missing_text bundle) texts
            ∙ ap (check_content number_text sha256 bundle) encoded
            ∙ ap (compare_digest number_text sha256 bundle) (unsigned_digest now opts bundle c)),
        verify_bundle_integrity-sign_bundle number_text sha256 bundle signed calldata texts encoded
            s,
      )

  first_text_missing :
      (bundle : Js) (o : Option String) (name : String)
      → o ≡ some name
      → (elim o as (λ o. Result (Option Violation)) [
        | some name ↦ ok (some (missing_or_empty name))
        | none ↦ check_content number_text sha256 bundle (encodes bundle)
      ])
        ≡ ok (some (missing_or_empty name))
  first_text_missing bundle none name h = cc
  first_text_missing bundle (some other) name h = cc

  -- createBundle accepts a blank time, and verifyBundleIntegrity rejects the bundle that it then makes
  -- for that time.
  pub create_bundle_blank_time :
      (now : Text) (opts : CreateBundleOptions) (bundle : Js)
      → create_bundle now opts ≡ ok bundle
      → is_text (string (default_text opts.generated_at now)) ≡ false
      → verify_bundle_integrity number_text sha256 bundle
        ≡ ok (report bundle (some (missing_or_empty "generatedAt")))
  unfolding verify_bundle_integrity first_violation
  create_bundle_blank_time now opts bundle h time =
      let c = create_bundle-IsCreated now opts bundle h in
      let texts : missing_text bundle ≡ some "generatedAt" =
        missing_text_created now opts bundle c ∙ rw time in
      ap (λ r. r >>= λ reason. ok (report bundle reason))
        (first_text_missing bundle (missing_text bundle) "generatedAt" texts)
