-- ===== src/Bundle.antt =====
-- sdk/src/bundle.ts: bundles of a proof with what is needed to submit it, their digest, and the check
-- of a bundle's integrity. A bundle comes from a file, so it is any value. SHA-256 is Node's and is a
-- parameter; so is the printing of numbers.
pub mod Spread
pub mod Integrity
pub mod Accepted
pub mod Binding
pub mod BindingTests
pub mod Created
pub mod Tests
use zkstellar.Prelude.{
  ℕ, Bool, true, false, ◌&&◌, List, [], ◌∷◌, Option, none, some, length, not, ◌==◌, if◌then◌else◌,
}
use zkstellar.Text.{Text, codes, text_eq, trim, is_empty}
use zkstellar.Types.{
  invalid_proof_format, Failure, soroban_zk_error, Result, ok, err, ◌>>=◌, ◌>>◌, guard,
}
use zkstellar.Js.{
  Js, JsNumber, Items, Fields, string, object, field, end, as_string, as_array, prop,
}
use zkstellar.Validate.{SorobanProofCalldata, validate_proof_input}
use zkstellar.Proof.{format_proof}
use zkstellar.Nullifier.{hex_encode}
use zkstellar.Json.{json, utf8}
use Prim.Native.String.{String}

pub record CreateBundleOptions : Type 0 where
  pub proof : Js
  pub public_signals : Js
  pub circuit : Js
  pub network_passphrase : Js
  pub generated_at : Option Text

-- `!value || typeof value !== "string" || value.trim() === ""`, negated.
abbrev pub is_text : Js → Bool
is_text value = elim (as_string value) [ none ↦ false | some s ↦ not (is_empty (trim s)) ]

abbrev pub bundle_failure : Failure
bundle_failure = soroban_zk_error invalid_proof_format

-- A string that is not blank.
abbrev pub required : Js → Result Text
required value = elim (as_string value) [
  | none ↦ err bundle_failure
  | some s ↦ do guard (not (is_empty (trim s))) bundle_failure; ok s
]

abbrev pub default_text : Option Text → Text → Text
default_text none now = now
default_text (some s) now = s

-- An object literal with the five fields, in the order of the source.
abbrev pub five_fields : Js → Js → Js → Js → Js → Js
five_fields proof public_signals circuit generated_at network_passphrase = object (
    field (codes "proof") proof (
      field (codes "publicSignals") public_signals (
        field (codes "circuit") circuit (
          field (codes "generatedAt") generated_at
            (field (codes "networkPassphrase") network_passphrase end)))))

-- `value ?? now`
abbrev pub nullish : Js → Text → Js
nullish Js.undefined now = string now
nullish Js.null now = string now
nullish v now = v

-- createBundle on options that may come from a file; `now` is `new Date().toISOString()`.
unfoldable pub create_bundle_of : Text → Js → Js → Js → Js → Js → Result Js
create_bundle_of now proof public_signals circuit network_passphrase generated_at = do
  validate_proof_input proof public_signals
  name ← required circuit
  passphrase ← required network_passphrase
  ok (
      five_fields proof public_signals (string (trim name)) (nullish generated_at now)
        (string passphrase))

abbrev pub optional_text : Option Text → Js
optional_text none = Js.undefined
optional_text (some s) = string s

pub create_bundle : Text → CreateBundleOptions → Result Js
create_bundle now opts =
    create_bundle_of now opts.proof opts.public_signals opts.circuit opts.network_passphrase
      (optional_text opts.generated_at)

-- `{ ...value, key: v }`
pub set_field : Fields → Text → Js → Fields
set_field end k v = field k v end
set_field (field j u fs) k v =
    let rest = set_field fs k v in if text_eq j k then field j v fs else field j u rest

abbrev pub fields_of : Js → Fields
fields_of (object fs) = fs
fields_of _ = end

abbrev pub with_field : Js → String → Js → Js
with_field value k v = object (set_field (fields_of value) (codes k) v)

-- The content that the digest covers.
abbrev pub content : Js → Js
content bundle =
    five_fields (prop bundle "proof") (prop bundle "publicSignals") (prop bundle "circuit")
      (prop bundle "generatedAt") (prop bundle "networkPassphrase")

abbrev pub or_undefined_text : Option Text → Text
or_undefined_text none = codes "undefined"
or_undefined_text (some t) = t

-- The first violation that `verifyBundleIntegrity` reports.
pub data Violation : Type 0 where
  missing_or_empty : String → Violation
  not_encodable : Failure → Violation
  digest_mismatch : Text → Text → Violation

-- `valid` is true exactly where there is no reason. `value ?? ""` keeps values that are no strings.
pub record BundleIntegrityResult : Type 0 where
  pub valid : Bool
  pub reason : Option Violation
  pub generated_at : Js
  pub circuit : Js
  pub network_passphrase : Js
  pub public_signal_count : ℕ

abbrev or_empty : Js → Js
or_empty Js.undefined = string []
or_empty Js.null = string []
or_empty (Js.string s) = string s
or_empty v = v

abbrev count : Option (List Js) → ℕ
count none = 0
count (some vs) = length vs

abbrev pub report : Js → Option Violation → BundleIntegrityResult
report bundle reason = record {
  valid = elim reason [ none ↦ true | some violation ↦ false ];
  reason = reason;
  generated_at = or_empty (prop bundle "generatedAt");
  circuit = or_empty (prop bundle "circuit");
  network_passphrase = or_empty (prop bundle "networkPassphrase");
  public_signal_count = count (as_array (prop bundle "publicSignals"));
}

-- The first of the three strings that is missing or blank.
abbrev pub missing_text : Js → Option String
missing_text bundle =
    if is_text (prop bundle "circuit")
    then if is_text (prop bundle "generatedAt")
      then if is_text (prop bundle "networkPassphrase") then none else some "networkPassphrase"
      else some "generatedAt"
    else some "circuit"

-- The `try` block of `verifyBundleIntegrity`.
abbrev pub encodes : Js → Result SorobanProofCalldata
encodes bundle = do
  validate_proof_input (prop bundle "proof") (prop bundle "publicSignals")
  format_proof (prop bundle "proof") (prop bundle "publicSignals") none

module _ (number_text : JsNumber → Text) (sha256 : List ℕ → List ℕ) where
  -- `JSON.stringify(content)`
  pub content_text : Js → Result Text
  content_text bundle = do
    text ← json number_text none (content bundle)
    ok (or_undefined_text text)

  pub bundle_digest : Js → Result Text
  bundle_digest bundle = do text ← content_text bundle; ok (hex_encode (sha256 (utf8 text)))

  pub sign_bundle : Js → Result Js
  sign_bundle bundle = do
    digest ← bundle_digest bundle
    ok (with_field bundle "digest" (string digest))

  -- The digest is compared only where the bundle has one.
  abbrev pub compare_digest : Js → Option Text → Result (Option Violation)
  compare_digest bundle none = ok none
  compare_digest bundle (some stored) = do
    expected ← bundle_digest bundle
    ok (if text_eq stored expected then none else some (digest_mismatch stored expected))

  abbrev pub check_content : Js → Result SorobanProofCalldata → Result (Option Violation)
  check_content bundle (err failure) = ok (some (not_encodable failure))
  check_content bundle (ok calldata) = compare_digest bundle (as_string (prop bundle "digest"))

  -- The first violation, if any; printing the content may throw.
  pub first_violation : Js → Result (Option Violation)
  first_violation bundle = elim (missing_text bundle) [
    | some name ↦ ok (some (missing_or_empty name))
    | none ↦ check_content bundle (encodes bundle)
  ]

  unfoldable pub verify_bundle_integrity : Js → Result BundleIntegrityResult
  verify_bundle_integrity bundle = do reason ← first_violation bundle; ok (report bundle reason)
