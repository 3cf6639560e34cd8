-- ===== src/Bundle/Binding.antt =====
-- What a digest of sdk/src/bundle.ts binds: the fields that it covers.
use zkstellar.Prelude.{
  ltb, leb, lt→ltb, ◌≡◌, refl, ◌∙◌, sym, ap, true, false, List, [], ◌∷◌, ◌<◌, none, some, inl, inr,
  ◌⊎◌, arith, ℕ, All,
}
use zkstellar.Text.{Text}
use zkstellar.Types.{ok, ok_injective, >>=-eq-ok}
use zkstellar.Js.{Js, JsNumber, as_string, prop}
use zkstellar.Bytes.{hex_decode}
use zkstellar.Bytes.BigEndian.{IsByte}
use zkstellar.Nullifier.{hex_encode}
use zkstellar.Nullifier.Hex.{hex_decode-hex_encode}
use zkstellar.Nullifier.Binding.{Collides, hash_binds}
use zkstellar.Json.{json, utf8}
use zkstellar.Json.Parse.{json_parse, has_key}
use zkstellar.Json.RoundTrip.{IsJson, json_parse-json}
use zkstellar.Bundle.{
  BundleIntegrityResult, content, content_text, or_undefined_text, verify_bundle_integrity,
}
use zkstellar.Bundle.Accepted.{checks_passed, digest_text}

abbrev pub IsAscii : ℕ → Type 0
IsAscii c = c < 0x80

below_surrogates : (c : ℕ) → c < 0x80 → leb 0xd800 c ≡ false
below_surrogates c h = ground arith

utf8-IsAscii : (s : Text) → All IsAscii s → utf8 s ≡ s
unfolding utf8
utf8-IsAscii [] h = refl
utf8-IsAscii (c ∷ []) (h, hs) = let low : ltb c 0x80 ≡ true = lt→ltb c 0x80 h in rw low
utf8-IsAscii (c ∷ d ∷ s) (h, hs) =
    let low : ltb c 0x80 ≡ true = lt→ltb c 0x80 h in
    rw (utf8, below_surrogates c h, low) (ap (λ t. c ∷ t) (utf8-IsAscii (d ∷ s) hs))

-- JSON can hold the five fields: objects with different keys, arrays, strings, booleans and null.
pub record HoldsJson (bundle : Js) : Type 0 where
  pub json_proof : IsJson (prop bundle "proof")
  pub json_signals : IsJson (prop bundle "publicSignals")
  pub json_circuit : IsJson (prop bundle "circuit")
  pub json_time : IsJson (prop bundle "generatedAt")
  pub json_network : IsJson (prop bundle "networkPassphrase")

-- The two bundles have the same five fields.
pub record SameContent (original changed : Js) : Type 0 where
  pub same_proof : prop original "proof" ≡ prop changed "proof"
  pub same_signals : prop original "publicSignals" ≡ prop changed "publicSignals"
  pub same_circuit : prop original "circuit" ≡ prop changed "circuit"
  pub same_time : prop original "generatedAt" ≡ prop changed "generatedAt"
  pub same_network : prop original "networkPassphrase" ≡ prop changed "networkPassphrase"

content-IsJson : (bundle : Js) → HoldsJson bundle → IsJson (content bundle)
unfolding IsJson has_key
content-IsJson bundle h = (
  ground arith,
  refl,
  h.json_proof,
  (
    ground arith,
    refl,
    h.json_signals,
    (
      ground arith,
      refl,
      h.json_circuit,
      (ground arith, refl, h.json_time, (ground arith, refl, h.json_network, tt)),
    ),
  ),
)

content-SameContent :
    (original changed : Js) → content original ≡ content changed → SameContent original changed
content-SameContent original changed e = record {
  same_proof = ap (λ v. prop v "proof") e;
  same_signals = ap (λ v. prop v "publicSignals") e;
  same_circuit = ap (λ v. prop v "circuit") e;
  same_time = ap (λ v. prop v "generatedAt") e;
  same_network = ap (λ v. prop v "networkPassphrase") e;
}

module _ (number_text : JsNumber → Text) (number_of : Text → JsNumber)
    (sha256 : List ℕ → List ℕ) where
  -- The text is that of the content, and gives it back.
  content_parsed :
      (bundle : Js) (text : Text)
      → HoldsJson bundle
      → content_text number_text sha256 bundle ≡ ok text
      → json_parse number_of text ≡ ok (content bundle)
  unfolding content_text
  content_parsed bundle text h e =
      let (t, printed, parsed) =
        json_parse-json number_text number_of (content bundle) (content-IsJson bundle h) in
      let (o, again, made) =
        >>=-eq-ok (json number_text none (content bundle)) (λ t. ok (or_undefined_text t)) e in
      let same : t ≡ text =
        ap or_undefined_text (ok_injective (sym printed ∙ again)) ∙ ok_injective made in
      ap (json_parse number_of) (sym same) ∙ parsed

  same_text :
      (original changed : Js) (text text' : Text)
      → HoldsJson original
      → HoldsJson changed
      → content_text number_text sha256 original ≡ ok text
      → content_text number_text sha256 changed ≡ ok text'
      → text ≡ text'
      → SameContent original changed
  same_text original changed text text' h k e e' same = content-SameContent original changed (
      ok_injective (
        sym (content_parsed original text h e)
        ∙ ap (json_parse number_of) same
        ∙ content_parsed changed text' k e'))

  -- A valid bundle with a digest holds that of its text.
  digest_of_text :
      (bundle : Js) (digest text : Text) (result : BundleIntegrityResult)
      → as_string (prop bundle "digest") ≡ some digest
      → verify_bundle_integrity number_text sha256 bundle ≡ ok result
      → result.valid ≡ true
      → content_text number_text sha256 bundle ≡ ok text
      → digest ≡ hex_encode (sha256 (utf8 text))
  digest_of_text bundle digest text result held h valid printed =
      let (calldata, texts, encoded, unchanged) =
        checks_passed number_text sha256 bundle result h valid in
      elim unchanged [
        | inl missing ↦ absurd (cc (held, missing))
        | inr (stored, kept, computed) ↦
            let (t, again, made) = digest_text number_text sha256 bundle stored computed in
            let same : t ≡ text = ok_injective (sym again ∙ printed) in
            let stored_same : digest ≡ stored = cc (held, kept) in
            stored_same ∙ made ∙ ap (λ t. hex_encode (sha256 (utf8 t))) same
      ]

  -- Take two bundles with the same digest that verifyBundleIntegrity calls valid. If JSON can hold what the
  -- digest covers, without numbers, and prints it in ASCII, then they have the same proof, public signals,
  -- circuit, time and network, or SHA-256 collides on their two texts; SHA-256 is any function into lists
  -- of bytes. So none of the five can be changed behind a signature, short of a collision.
  pub bundle_digest_binding :
      (outputs_bytes : (bytes : List ℕ) → All IsByte (sha256 bytes)) (original changed : Js)
      (digest text text' : Text) (result result' : BundleIntegrityResult)
      → as_string (prop original "digest") ≡ some digest
      → as_string (prop changed "digest") ≡ some digest
      → verify_bundle_integrity number_text sha256 original ≡ ok result
      → verify_bundle_integrity number_text sha256 changed ≡ ok result'
      → result.valid ≡ true
      → result'.valid ≡ true
      → HoldsJson original
      → HoldsJson changed
      → content_text number_text sha256 original ≡ ok text
      → content_text number_text sha256 changed ≡ ok text'
      → All IsAscii text
      → All IsAscii text'
      → SameContent original changed ⊎ Collides sha256 (utf8 text) (utf8 text')
  bundle_digest_binding outputs_bytes original changed digest text text' result result' held held' h
        h' valid valid' j j' e e' ascii ascii' =
      let same_hex : hex_encode (sha256 (utf8 text)) ≡ hex_encode (sha256 (utf8 text')) =
        sym (digest_of_text original digest text result held h valid e)
        ∙ digest_of_text changed digest text' result' held' h' valid' e' in
      let same : sha256 (utf8 text) ≡ sha256 (utf8 text') =
        sym (hex_decode-hex_encode _ (outputs_bytes (utf8 text)))
        ∙ ap hex_decode same_hex
        ∙ hex_decode-hex_encode _ (outputs_bytes (utf8 text')) in
      elim (hash_binds sha256 (utf8 text) (utf8 text') same) [
        | inl bytes ↦ inl (
            same_text original changed text text' j j' e e'
              (sym (utf8-IsAscii text ascii) ∙ bytes ∙ utf8-IsAscii text' ascii'))
        | inr collision ↦ inr collision
      ]
