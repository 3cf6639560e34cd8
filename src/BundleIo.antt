-- ===== src/BundleIo.antt =====
-- sdk/src/bundleIO.ts: bundles as JSON and Base64 texts, the check of their shape, and their import.
-- Node's decoding of Base64 and of UTF-8 is a parameter, as are SHA-256 and the conversion of numbers.
pub mod Base64
pub mod RoundTrip
pub mod Shape
pub mod Import
pub mod Tests
use zkstellar.Prelude.{
  ℕ, ◌+◌, ◌-◌, ◌*◌, ◌/◌, ◌%◌, Bool, true, false, ◌&&◌, ◌||◌, List, [], ◌∷◌, ◌++◌, map, Option, none,
  some, length, replicate, not, ltb, ◌==◌, if◌then◌else◌,
}
use zkstellar.Text.{Text, codes, text_eq, trim, trim_start, is_empty}
use zkstellar.Types.{
  invalid_proof_format, Failure, soroban_zk_error, Result, ok, err, ◌>>=◌, ◌>>◌, guard,
}
use zkstellar.Js.{Js, JsNumber, string, is_object, as_string, as_array, prop}
use zkstellar.Validate.{is_groth16}
use zkstellar.Json.{json, utf8}
use zkstellar.Json.Parse.{json_parse}
use zkstellar.Bundle.{
  is_text, bundle_failure, BundleIntegrityResult, sign_bundle, verify_bundle_integrity,
  or_undefined_text,
}

abbrev pub all_strings : List Js → Bool
all_strings [] = true
all_strings (v ∷ vs) = elim (as_string v) [ none ↦ false | some s ↦ all_strings vs ]

-- `Array.isArray(value)` and a test of its elements.
abbrev pub array_with : (List Js → Bool) → Js → Bool
array_with test value = elim (as_array value) [ none ↦ false | some vs ↦ test vs ]

abbrev pub two_or_more : List Js → Bool
two_or_more vs = not (ltb (length vs) 2)

-- The checks in the order of the source; all throw an error of the same class and code.
pub validate_bundle_shape : Js → Result (Unit {0})
validate_bundle_shape value = do
  guard (is_object value) bundle_failure
  guard (is_text (prop value "circuit")) bundle_failure
  guard (is_text (prop value "generatedAt")) bundle_failure
  guard (is_text (prop value "networkPassphrase")) bundle_failure
  guard (array_with all_strings (prop value "publicSignals")) bundle_failure
  guard (is_object (prop value "proof")) bundle_failure
  guard (is_groth16 (as_string (prop (prop value "proof") "protocol"))) bundle_failure
  guard (array_with two_or_more (prop (prop value "proof") "pi_a")) bundle_failure
  guard (array_with two_or_more (prop (prop value "proof") "pi_c")) bundle_failure
  guard (array_with two_or_more (prop (prop value "proof") "pi_b")) bundle_failure

-- A thrown error becomes a `SorobanZkError` for a bad bundle.
abbrev pub rethrown : Result Js → Result Js
rethrown (ok v) = ok v
rethrown (err failure) = err bundle_failure

-- The digits of Base64.
abbrev pub base64_char : ℕ → ℕ
base64_char d =
    if ltb d 26
    then b'A' + d
    else if ltb d 52
    then b'a' + (d - 26)
    else if ltb d 62
    then b'0' + (d - 52)
    else if d == 62
    then b'+'
    else b'/'

-- `bytes.toString("base64")`
pub base64 : List ℕ → Text
base64 [] = []
base64 (x ∷ []) = base64_char (x / 4) ∷ base64_char (x % 4 * 16) ∷ b'=' ∷ b'=' ∷ []
base64 (x ∷ y ∷ []) =
    base64_char (x / 4) ∷ base64_char (x % 4 * 16 + y / 16) ∷ base64_char (y % 16 * 4) ∷ b'=' ∷ []
base64 (x ∷ y ∷ z ∷ bytes) =
    base64_char (x / 4)
    ∷ base64_char (x % 4 * 16 + y / 16)
    ∷ base64_char (y % 16 * 4 + z / 64)
    ∷ base64_char (z % 64)
    ∷ base64 bytes

-- `text.replace(/c/g, d)` for single characters.
abbrev pub replace_all : ℕ → ℕ → Text → Text
replace_all c d s = map (λ e. if e == c then d else e) s

abbrev pub keep_unless_padding : ℕ → Text → Text
keep_unless_padding c [] = if c == b'=' then [] else c ∷ []
keep_unless_padding c (d ∷ s) = c ∷ d ∷ s

-- `text.replace(/=+$/, "")`
pub strip_padding : Text → Text
strip_padding [] = []
strip_padding (c ∷ s) = keep_unless_padding c (strip_padding s)

-- The three calls of `replace` in `bundleToBase64`.
abbrev pub url_safe : Text → Text
url_safe s = strip_padding (replace_all b'/' b'_' (replace_all b'+' b'-' s))

-- The standard alphabet, with `=` up to a multiple of four.
pub padded : Text → Text
padded b64 =
    let standard = replace_all b'_' b'/' (replace_all b'-' b'+' b64) in
    standard ++ replicate ((4 - length standard % 4) % 4) b'='

pub record ImportBundleResult : Type 0 where
  pub bundle : Js
  pub integrity_verified : Bool

abbrev starts_with_brace : Text → Bool
starts_with_brace [] = false
starts_with_brace (c ∷ s) = c == b'{'

-- `Buffer.from(text, "base64").toString("utf8")` is `decode`.
module _ (number_text : JsNumber → Text) (number_of : Text → JsNumber) (sha256 : List ℕ → List ℕ)
    (decode : Text → Text) where
  pub bundle_to_json : Js → Bool → Result Text
  bundle_to_json bundle pretty = do
    text ← json number_text (if pretty then some 0 else none) bundle
    ok (or_undefined_text text)

  pub bundle_from_json : Text → Result Js
  bundle_from_json text = do
    parsed ← rethrown (json_parse number_of text)
    validate_bundle_shape parsed
    ok parsed

  pub bundle_to_base64 : Js → Result Text
  bundle_to_base64 bundle = do
    text ← bundle_to_json bundle false
    ok (url_safe (base64 (utf8 text)))

  pub bundle_from_base64 : Text → Result Js
  bundle_from_base64 b64 = bundle_from_json (decode (padded b64))

  -- The parsed input.
  pub raw_bundle : Js → Result Js
  raw_bundle input = elim (as_string input) [
    | none ↦ ok input
    | some s ↦
        if starts_with_brace (trim_start s)
        then rethrown (json_parse number_of (trim_start s))
        else bundle_from_base64 s
  ]

  abbrev pub checked_digest : Js → Result ImportBundleResult
  checked_digest raw = do
    result ← verify_bundle_integrity number_text sha256 raw
    guard result.valid bundle_failure
    ok (record { bundle = raw; integrity_verified = true })

  abbrev pub signed_now : Js → Result ImportBundleResult
  signed_now raw = do
    signed ← sign_bundle number_text sha256 raw
    ok (record { bundle = signed; integrity_verified = false })

  abbrev pub import_raw : Js → Option Text → Result ImportBundleResult
  import_raw raw (some digest) = checked_digest raw
  import_raw raw none = signed_now raw

  pub import_signed_bundle : Js → Result ImportBundleResult
  import_signed_bundle input = do
    raw ← raw_bundle input
    validate_bundle_shape raw
    import_raw raw (as_string (prop raw "digest"))
