-- ===== src/BundleIo/Tests.antt =====
-- Runs of the import and export of bundles. The parameter that stands for Node's Base64 is the identity.
use zkstellar.Prelude.{
  Bool, ltb, not, ◌&&◌, All, arith, if◌then◌else◌, ◌∷◌, ap, ◌≡◌, refl, true, false, [],
}
use zkstellar.Text.{text_eq, Text, codes, trim, is_digit}
use zkstellar.Types.{ok, err, ◌>>=◌}
use zkstellar.Js.{
  object, field, array, items, null, boolean, end, Js, JsNumber, non_integer, string, Items, Fields,
  item, nil,
}
use zkstellar.Json.Parse.{has_key, json_parse}
use zkstellar.Bundle.{bundle_failure, with_field}
use zkstellar.Bundle.Tests.{number_text, toy_hash, sample, signed, signed_run, sample_digest}
use zkstellar.Json.Strings.{IsUnit}
use zkstellar.Json.RoundTrip.{IsJson, AreJson, HaveJson}
use zkstellar.BundleIo.RoundTrip.{bundle_from_json-bundle_to_json}
use zkstellar.Json.{json, utf8}
use zkstellar.BundleIo.Base64.{bundle_from_base64-bundle_to_base64}
use zkstellar.BundleIo.{
  bundle_to_json, bundle_to_base64, bundle_from_base64, validate_bundle_shape, base64,
  strip_padding, padded, ImportBundleResult, bundle_from_json, raw_bundle, import_signed_bundle,
}
use zkstellar.BundleIo.Shape.{HasShape}
use zkstellar.BundleIo.Import.{Imported, import_signed_bundle_sound}

abbrev number_of : Text → JsNumber
number_of text = non_integer

base64_run : base64 (codes "Man!") ≡ codes "TWFuIQ=="
unfolding base64
base64_run = refl

strip_padding_run : strip_padding (codes "TWFuIQ==") ≡ codes "TWFuIQ"
unfolding strip_padding
strip_padding_run = refl

padded_run : padded (codes "T-_uIQ") ≡ codes "T+/uIQ=="
unfolding padded
padded_run = refl

shape_run : validate_bundle_shape sample ≡ ok tt
unfolding validate_bundle_shape trim
shape_run = refl

shape_refused : validate_bundle_shape (string []) ≡ err bundle_failure
unfolding validate_bundle_shape
shape_refused = refl

unparsable :
    bundle_from_json number_text number_of toy_hash (λ s. s) (codes "{") ≡ err bundle_failure
unfolding bundle_from_json json_parse is_digit
unparsable = refl

abbrev imported : ImportBundleResult
imported = record { bundle = signed; integrity_verified = false }

imported_run : import_signed_bundle number_text number_of toy_hash (λ s. s) sample ≡ ok imported
unfolding import_signed_bundle raw_bundle validate_bundle_shape trim
imported_run =
    ap (λ r. r >>= λ b. ok (record { bundle = b; integrity_verified = false })) signed_run

signed_digest : imported.bundle ≡ with_field sample "digest" (string sample_digest)
signed_digest = refl

import_signed_bundle_sound_example :
    (raw : Js) × (raw_bundle number_text number_of toy_hash (λ s. s) sample ≡ ok raw)
    × HasShape raw
    × Imported number_text number_of toy_hash (λ s. s) raw imported
import_signed_bundle_sound_example =
    import_signed_bundle_sound number_text number_of toy_hash (λ s. s) sample imported imported_run

-- A text without a character beyond ASCII, and a function that decodes it.
abbrev sample_text : Text
sample_text = codes "{\"a\":[null,true,\"x?>\"]}"

abbrev sample_object : Js
sample_object =
    object (field (codes "a") (array (items (null ∷ boolean true ∷ string (codes "x?>") ∷ []))) end)

abbrev ascii_decode : Text → Text
ascii_decode s = if text_eq s (base64 sample_text) then sample_text else s

printed_run :
    bundle_to_json number_text number_of toy_hash ascii_decode sample_object false ≡ ok sample_text
unfolding bundle_to_json json
printed_run = refl

decoded_run : ascii_decode (base64 (utf8 sample_text)) ≡ sample_text
unfolding base64 utf8
decoded_run = refl

bundle_from_base64-bundle_to_base64_example :
    (b64 : Text) × (bundle_to_base64 number_text number_of toy_hash ascii_decode sample_object
      ≡ ok b64)
    × (bundle_from_base64 number_text number_of toy_hash ascii_decode b64
        ≡ bundle_from_json number_text number_of toy_hash ascii_decode sample_text)
bundle_from_base64-bundle_to_base64_example =
    bundle_from_base64-bundle_to_base64 number_text number_of toy_hash ascii_decode sample_object
      sample_text printed_run decoded_run

abbrev all_units : Text → Bool
all_units [] = true
all_units (c ∷ s) = ltb c 0x10000 && all_units s

units : (s : Text) → all_units s ≡ true → All IsUnit s
units [] h = tt
units (c ∷ s) h = (ground arith, units s (ground arith))

-- A test for values that JSON can hold.
mutual
  is_json : Js → Bool
  is_json Js.null = true
  is_json (Js.boolean b) = true
  is_json (Js.string s) = all_units s
  is_json (Js.array vs) = are_json vs
  is_json (Js.object fs) = have_json fs
  is_json _ = false

  are_json : Items → Bool
  are_json nil = true
  are_json (item v vs) = is_json v && are_json vs

  have_json : Fields → Bool
  have_json end = true
  have_json (field k v fs) = all_units k && not (has_key fs k) && (is_json v && have_json fs)

both_true : (a b : Bool) → (a && b) ≡ true → (a ≡ true) × (b ≡ true)
both_true true b h = (refl, h)
both_true false b h = cc

mutual
  unfolding is_json IsJson

  is_json-IsJson : (v : Js) → is_json v ≡ true → IsJson v
  is_json-IsJson Js.null h = tt
  is_json-IsJson (Js.boolean b) h = tt
  is_json-IsJson (Js.string s) h = units s h
  is_json-IsJson (Js.array vs) h = items_of vs h
  is_json-IsJson (Js.object fs) h = fields_of fs h
  is_json-IsJson Js.undefined h = cc
  is_json-IsJson (Js.number n) h = cc
  is_json-IsJson (Js.bigint n) h = cc
  is_json-IsJson (Js.buffer bs) h = cc

  items_of : (vs : Items) → are_json vs ≡ true → AreJson vs
  items_of nil h = tt
  items_of (item v vs) h =
      let (a, b) = both_true (is_json v) (are_json vs) h in (is_json-IsJson v a, items_of vs b)

  fields_of : (fs : Fields) → have_json fs ≡ true → HaveJson fs
  fields_of end h = tt
  fields_of (field k v fs) h =
      let (keys, values) =
        both_true (all_units k && not (has_key fs k)) (is_json v && have_json fs) h in
      let (a, b) = both_true (all_units k) (not (has_key fs k)) keys in
      let (c, d) = both_true (is_json v) (have_json fs) values in
      (units k a, ground arith, is_json-IsJson v c, fields_of fs d)

sample-IsJson : IsJson sample
sample-IsJson = is_json-IsJson sample (unfold is_json has_key in refl)

bundle_from_json-bundle_to_json_example :
    (text : Text) × (bundle_to_json number_text number_of toy_hash (λ s. s) sample false ≡ ok text)
    × (bundle_from_json number_text number_of toy_hash (λ s. s) text ≡ ok sample)
bundle_from_json-bundle_to_json_example =
    bundle_from_json-bundle_to_json number_text number_of toy_hash (λ s. s) sample sample-IsJson
      shape_run
