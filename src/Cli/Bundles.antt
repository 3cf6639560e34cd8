-- ===== src/Cli/Bundles.antt =====
-- sdk/src/cli.ts: the commands that read a bundle, inspect and decode-bundle.
use zkstellar.Prelude.{ℕ, Bool, List, [], ◌∷◌, ◌++◌, none, some, length, take, if◌then◌else◌}
use zkstellar.Text.{Text, codes}
use zkstellar.Types.{other_error, Result, ok, err, ◌>>=◌}
use zkstellar.Js.{Js, JsNumber, string, array, items, elements, as_array, prop, truthy}
use zkstellar.Proof.{format_proof}
use zkstellar.Bundle.{
  Violation, BundleIntegrityResult, create_bundle_of, with_field, bundle_digest,
  verify_bundle_integrity,
}
use zkstellar.Verify.Config.{member}
use zkstellar.Cli.{require_flag, line, count, format_list, proof_bytes, signal_texts}
use zkstellar.Cli.Files.{json_flag, read_json}

-- `String(value)` is a parameter for values that are no strings, and so is the text of a violation.
module _ (other_text : Js → Text) (violation_text : Violation → Text)
    (number_text : JsNumber → Text) (number_of : Text → JsNumber) (sha256 : List ℕ → List ℕ)
    (read_file : Text → Result Text) (to_number : Text → JsNumber) where
  abbrev pub shown : Js → Text
  shown (string s) = s
  shown v = other_text v

  -- `${value.slice(0, 16)}`; values that are no strings and no arrays have no `slice`.
  abbrev first_16 : Js → Result Text
  first_16 (string s) = ok (take 16 s)
  first_16 (array vs) = ok (shown (array (items (take 16 (elements vs)))))
  first_16 v = err (other_error (codes "slice is not a function"))

  abbrev pub integrity_error : BundleIntegrityResult → List Text
  integrity_error integrity = elim integrity.reason [
    | none ↦ []
    | some violation ↦ line "integrity error:   " (violation_text violation) ∷ []
  ]

  abbrev yes_or_no : Bool → Text
  yes_or_no valid = if valid then codes "yes" else codes "no"

  pub command_inspect : List Text → Result (List Text)
  command_inspect args = do
    bundle ← json_flag number_text number_of sha256 read_file to_number args "--bundle"
    proof ← member bundle "proof"
    calldata ← format_proof proof (prop bundle "publicSignals") none
    ok (
        codes "command: inspect"
        ∷ line "circuit: " (shown (prop bundle "circuit"))
        ∷ line "generatedAt: " (shown (prop bundle "generatedAt"))
        ∷ line "networkPassphrase: " (shown (prop bundle "networkPassphrase"))
        ∷ line "proof protocol: " (shown (prop proof "protocol"))
        ∷ codes "public signals:"
        ∷ (format_list (signal_texts (prop bundle "publicSignals"))
            ++ (line "calldata bytes: " (count (proof_bytes calldata)) ∷ [])))

  -- The lines behind the public signals: on a stored digest, or on the one that is computed.
  abbrev digest_lines : Js → Js → BundleIntegrityResult → Result (List Text)
  digest_lines raw bundle integrity =
      if truthy (prop raw "digest")
      then (do
        stored ← first_16 (prop raw "digest")
        ok (
            line "stored digest:     " (stored ++ codes "…")
            ∷ line "digest valid:      " (yes_or_no integrity.valid)
            ∷ []))
      else (do
        computed ← bundle_digest number_text sha256 bundle
        ok (
            line "digest (computed): "
              (take 16 computed ++ codes "… (add \"digest\" field to sign bundle)")
            ∷ []))

  abbrev with_stored_digest : Js → Js → Js
  with_stored_digest raw bundle =
      if truthy (prop raw "digest") then with_field bundle "digest" (prop raw "digest") else bundle

  abbrev signal_count : Js → ℕ
  signal_count v = elim (as_array v) [ none ↦ 0 | some vs ↦ length vs ]

  -- `now` is the time that createBundle takes where the file has none.
  pub command_decode_bundle : Text → List Text → Result (List Text)
  command_decode_bundle now args = do
    path ← require_flag args (codes "--bundle")
    raw ← read_json number_text number_of sha256 read_file to_number path
    proof ← member raw "proof"
    bundle ←
        create_bundle_of now proof (prop raw "publicSignals") (prop raw "circuit")
          (prop raw "networkPassphrase") (prop raw "generatedAt")
    integrity ← verify_bundle_integrity number_text sha256 (with_stored_digest raw bundle)
    digest ← digest_lines raw bundle integrity
    ok (
        codes "command: decode-bundle"
        ∷ line "file: " path
        ∷ []
        ∷ line "circuit:           " (shown (prop raw "circuit"))
        ∷ line "generatedAt:       " (shown (prop raw "generatedAt"))
        ∷ line "networkPassphrase: " (shown (prop raw "networkPassphrase"))
        ∷ line "proof protocol:    " (shown (prop proof "protocol"))
        ∷ line "public signals:    " (count (signal_count (prop raw "publicSignals")))
        ∷ (format_list (signal_texts (prop raw "publicSignals"))
            ++ ([]
                ∷ line "calldata encoding: " (if integrity.valid then codes "ok" else codes "FAIL")
                ∷ (integrity_error integrity ++ digest))))
