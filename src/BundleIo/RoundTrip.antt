-- ===== src/BundleIo/RoundTrip.antt =====
-- The JSON of sdk/src/bundleIO.ts, printed and parsed.
use zkstellar.Prelude.{ℕ, ◌≡◌, false, List}
use zkstellar.Text.{Text}
use zkstellar.Types.{ok}
use zkstellar.Js.{Js, JsNumber}
use zkstellar.Json.RoundTrip.{IsJson, json_parse-json}
use zkstellar.BundleIo.{validate_bundle_shape, bundle_to_json, bundle_from_json}

module _ (number_text : JsNumber → Text) (number_of : Text → JsNumber) (sha256 : List ℕ → List ℕ)
    (decode : Text → Text) where
  -- Take a bundle of the required shape that JSON can hold: it is made of objects with different keys,
  -- arrays, strings, booleans and null. Then bundleToJson without indentation prints it, and
  -- bundleFromJson returns the same bundle from that text, with every property in its place.
  pub bundle_from_json-bundle_to_json :
      (bundle : Js)
      → IsJson bundle
      → validate_bundle_shape bundle ≡ ok tt
      → (text : Text) × (bundle_to_json number_text number_of sha256 decode bundle false ≡ ok text)
        × (bundle_from_json number_text number_of sha256 decode text ≡ ok bundle)
  unfolding bundle_to_json bundle_from_json
  bundle_from_json-bundle_to_json bundle h shape =
      let (text, printed, parsed) = json_parse-json number_text number_of bundle h in
      (text, rw (bundle_to_json, printed), rw (bundle_from_json, parsed, shape))
