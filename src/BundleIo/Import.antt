-- ===== src/BundleIo/Import.antt =====
-- What an imported bundle has passed.
use zkstellar.Prelude.{
  ◌≡◌, refl, ◌∙◌, sym, ap, Bool, true, false, List, Option, none, some, inl, inr, ◌⊎◌, ℕ,
}
use zkstellar.Text.{Text}
use zkstellar.Types.{
  Failure, is_soroban_zk_error, Result, ok, err, ◌>>◌, guard, guard-eq-ok, >>=-eq-ok, ok_injective,
}
use zkstellar.Js.{Js, JsNumber, as_string, prop, is_object}
use zkstellar.Validate.{is_groth16}
use zkstellar.Validate.Typed.{IsTyped, IsTyped-bind, IsTyped-guard}
use zkstellar.Bundle.{is_text, bundle_failure, sign_bundle, verify_bundle_integrity}
use zkstellar.Bundle.Accepted.{IsPrinted, IsIntact, verify_bundle_integrity_sound}
use zkstellar.BundleIo.Shape.{HasShape, validate_bundle_shape-HasShape}
use zkstellar.Nullifier.{hex_encode}
use zkstellar.Json.{utf8}
use zkstellar.BundleIo.{
  validate_bundle_shape, array_with, all_strings, two_or_more, rethrown, ImportBundleResult,
  bundle_from_json, raw_bundle, checked_digest, signed_now, import_raw, import_signed_bundle,
}
use zkstellar.Json.Parse.{json_parse}

rethrown-IsTyped : (r : Result Js) → IsTyped (rethrown r)
rethrown-IsTyped (ok v) = λ f h. cc
rethrown-IsTyped (err e) = λ f h. cc

-- A guard in front of others.
guarded :
    (test : Bool) (rest : Result (Unit {0}))
    → IsTyped rest
    → IsTyped (guard test bundle_failure >> rest)
guarded test rest =
    λ h. IsTyped-bind (guard test bundle_failure) _ (IsTyped-guard test _ refl) λ u. h

validate_bundle_shape-IsTyped : (value : Js) → IsTyped (validate_bundle_shape value)
unfolding validate_bundle_shape
validate_bundle_shape-IsTyped value = guarded (is_object value) _ (
    guarded (is_text (prop value "circuit")) _ (
      guarded (is_text (prop value "generatedAt")) _ (
        guarded (is_text (prop value "networkPassphrase")) _ (
          guarded (array_with all_strings (prop value "publicSignals")) _ (
            guarded (is_object (prop value "proof")) _ (
              guarded (is_groth16 (as_string (prop (prop value "proof") "protocol"))) _ (
                guarded (array_with two_or_more (prop (prop value "proof") "pi_a")) _ (
                  guarded (array_with two_or_more (prop (prop value "proof") "pi_c")) _ (
                    IsTyped-guard (array_with two_or_more (prop (prop value "proof") "pi_b"))
                      bundle_failure refl)))))))))

module _ (number_text : JsNumber → Text) (number_of : Text → JsNumber) (sha256 : List ℕ → List ℕ)
    (decode : Text → Text) where
  -- What becomes of the parsed bundle: with a digest it is kept, and holds together; without one it is
  -- signed.
  abbrev pub Imported : Js → ImportBundleResult → Type 0
  Imported raw imported =
      ((imported.integrity_verified ≡ true)
        × (imported.bundle ≡ raw)
        × ((text : Text) × IsPrinted number_text sha256 raw text
            × (as_string (prop raw "digest") ≡ some (hex_encode (sha256 (utf8 text)))))
        × IsIntact number_text sha256 raw)
      ⊎ ((imported.integrity_verified ≡ false)
          × (as_string (prop raw "digest") ≡ none)
          × (sign_bundle number_text sha256 raw ≡ ok imported.bundle))

  -- The digest is there, so that it covers the fields.
  digest_covers :
      (raw : Js) (digest : Text)
      → as_string (prop raw "digest") ≡ some digest
      → IsIntact number_text sha256 raw
      → (text : Text) × IsPrinted number_text sha256 raw text
        × (as_string (prop raw "digest") ≡ some (hex_encode (sha256 (utf8 text))))
  digest_covers raw digest held intact = elim intact.holds_digest [
    | inl missing ↦ absurd (cc (held, missing))
    | inr covered ↦ covered
  ]

  checked_digest-Imported :
      (raw : Js) (imported : ImportBundleResult) (digest : Text)
      → as_string (prop raw "digest") ≡ some digest
      → checked_digest number_text number_of sha256 decode raw ≡ ok imported
      → Imported raw imported
  checked_digest-Imported raw imported digest held h =
      let (result, verified, h1) = >>=-eq-ok (verify_bundle_integrity number_text sha256 raw) _ h in
      let (u, valid, h2) = >>=-eq-ok (guard result.valid bundle_failure) _ h1 in
      let intact =
        verify_bundle_integrity_sound number_text sha256 raw result verified
          (guard-eq-ok _ _ valid) in
      let e : imported ≡ record { bundle = raw; integrity_verified = true } =
        sym (ok_injective h2) in
      inl (rw e, rw e, digest_covers raw digest held intact, intact)

  signed_now-Imported :
      (raw : Js) (imported : ImportBundleResult)
      → as_string (prop raw "digest") ≡ none
      → signed_now number_text number_of sha256 decode raw ≡ ok imported
      → Imported raw imported
  signed_now-Imported raw imported unsigned h =
      let (signed, made, h1) = >>=-eq-ok (sign_bundle number_text sha256 raw) _ h in
      let e : imported ≡ record { bundle = signed; integrity_verified = false } =
        sym (ok_injective h1) in
      inr (rw e, unsigned, made ∙ ap (λ (i : ImportBundleResult). ok i.bundle) (sym e))

  import_raw-Imported :
      (raw : Js) (imported : ImportBundleResult) (stored : Option Text)
      → as_string (prop raw "digest") ≡ stored
      → import_raw number_text number_of sha256 decode raw stored ≡ ok imported
      → Imported raw imported
  import_raw-Imported raw imported none e h = signed_now-Imported raw imported e h
  import_raw-Imported raw imported (some digest) e h =
      checked_digest-Imported raw imported digest e h

  -- If importSignedBundle returns a bundle, then the value that it read is an object with a circuit, a time
  -- and a network that are not blank, an array of strings as public signals and a Groth16 proof whose three
  -- points have two elements at the least; and either that value has a digest, which is that of its five
  -- fields, denotes a proof over field elements, and is returned as it is and marked as verified, or it has
  -- none, is marked as not verified and returned as signBundle signs it.
  pub import_signed_bundle_sound :
      (input : Js) (imported : ImportBundleResult)
      → import_signed_bundle number_text number_of sha256 decode input ≡ ok imported
      → (raw : Js) × (raw_bundle number_text number_of sha256 decode input ≡ ok raw)
        × HasShape raw
        × Imported raw imported
  unfolding import_signed_bundle
  import_signed_bundle_sound input imported h =
      let (raw, parsed, h1) =
        >>=-eq-ok (raw_bundle number_text number_of sha256 decode input) _ h in
      let (u, shaped, h2) = >>=-eq-ok (validate_bundle_shape raw) _ h1 in
      (
        raw,
        parsed,
        validate_bundle_shape-HasShape raw shaped,
        import_raw-Imported raw imported (as_string (prop raw "digest")) refl h2,
      )

  -- Whatever the text is, an error that bundleFromJson throws is a SorobanZkError: no SyntaxError
  -- leaves it.
  bundle_from_json-IsTyped :
      (text : Text) (f : Failure)
      → bundle_from_json number_text number_of sha256 decode text ≡ err f
      → is_soroban_zk_error f ≡ true
  unfolding bundle_from_json
  bundle_from_json-IsTyped text =
      IsTyped-bind (rethrown (json_parse number_of text)) _
        (rethrown-IsTyped (json_parse number_of text))
        λ parsed.
          IsTyped-bind (validate_bundle_shape parsed) _ (validate_bundle_shape-IsTyped parsed)
            λ u f h. cc
