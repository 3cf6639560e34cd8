-- ===== src/Verify/Decode.antt =====
-- What `verifyOnChain` and `verifyBatchOnChain` of sdk/src/verify.ts make of their options and of a
-- transaction that succeeded.
use zkstellar.Prelude.{
  ℕ, Bool, false, ◌&&◌, List, [], ◌∷◌, map, Option, none, some, length, ltb, not, if◌then◌else◌,
}
use zkstellar.Text.{Text, codes, text_eq}
use zkstellar.Types.{
  SorobanZkErrorCode, invalid_proof_format, contract_invocation_failed, soroban_zk_error,
  network_mismatch_error, Result, ok, err, ◌>>=◌, guard,
}
use zkstellar.Js.{Js, as_string, as_array, truthy, element}
use zkstellar.Validate.{SorobanProofCalldata}
use zkstellar.Proof.{format_proof}
use zkstellar.Verify.Server.{DiagnosticEvent, Success, ProofBundle, VerifyResult, VerifyBatchResult}

-- `marker === "fn_return"`
abbrev is_fn_return : Option Text → Bool
is_fn_return none = false
is_fn_return (some s) = text_eq s (codes "fn_return")

-- An event of two topics at least, the first of them the marker.
abbrev carries_return : DiagnosticEvent → Bool
carries_return event =
    not (ltb (length event.topics) 2) && is_fn_return (as_string (element event.topics 0))

-- The data of the first event that carries a return value.
unfoldable pub returned_data : List DiagnosticEvent → Option Js
returned_data [] = none
returned_data (event ∷ events) =
    let rest = returned_data events in if carries_return event then some event.event_data else rest

abbrev to_boolean : Option Js → Option Bool
to_boolean none = none
to_boolean (some v) = some (truthy v)

abbrev event_list : Option (List DiagnosticEvent) → List DiagnosticEvent
event_list none = []
event_list (some events) = events

unfoldable pub decode_return_value_from_diagnostics : Option (List DiagnosticEvent) → Option Bool
decode_return_value_from_diagnostics events = to_boolean (returned_data (event_list events))

unfoldable pub decode_verify_return_value : Success → Option Bool
unfolding decode_return_value_from_diagnostics
decode_verify_return_value result = elim result.return_value [
  | some v ↦ some (truthy v)
  | none ↦ decode_return_value_from_diagnostics result.diagnostic_events
]

abbrev booleans : Option (List Js) → Option (List Bool)
booleans none = none
booleans (some vs) = some (map truthy vs)

abbrev to_booleans : Option Js → Option (List Bool)
to_booleans none = none
to_booleans (some v) = booleans (as_array v)

unfoldable pub decode_bool_array_from_diagnostics :
    Option (List DiagnosticEvent) → Option (List Bool)
decode_bool_array_from_diagnostics events = to_booleans (returned_data (event_list events))

unfoldable pub assert_bundle_network : ProofBundle → Text → Result (Unit {0})
assert_bundle_network bundle network_passphrase =
    guard (text_eq bundle.network_passphrase network_passphrase)
      (network_mismatch_error bundle.network_passphrase network_passphrase)

-- `if (opts.bundle) assertBundleNetwork(opts.bundle, network.passphrase);`
abbrev pub check_network : Option ProofBundle → Text → Result (Unit {0})
check_network none passphrase = ok tt
check_network (some bundle) passphrase = assert_bundle_network bundle passphrase

unfoldable pub resolve_calldata :
    Option SorobanProofCalldata → Option ProofBundle → Result SorobanProofCalldata
resolve_calldata (some calldata) bundle = ok calldata
resolve_calldata none (some bundle) = format_proof bundle.proof bundle.public_signals none
resolve_calldata none none = err (soroban_zk_error invalid_proof_format)

abbrev pub fails {ℓ} : {A : Type ℓ} → SorobanZkErrorCode → Result A
fails code = err (soroban_zk_error code)

-- `typeof result.ledger !== "number" || !result.resultXdr` throws; the two values otherwise.
abbrev payload : Option ℕ → Option Text → Result (ℕ × Text)
payload none fee = fails contract_invocation_failed
payload (some ledger) none = fails contract_invocation_failed
payload (some ledger) (some fee) = ok (ledger, fee)

abbrev decoded {ℓ} : {A : Type ℓ} → Option A → Result A
decoded none = fails contract_invocation_failed
decoded (some a) = ok a

-- What `verifyOnChain` makes of a transaction that succeeded.
unfoldable pub verify_result : Success → Result VerifyResult
verify_result result = do
  (ledger, fee) ← payload result.ledger result.fee_charged
  verified ← decoded (decode_verify_return_value result)
  ok (record { verified = verified; tx_hash = result.tx_hash; ledger = ledger; fee = fee })

abbrev pub or_empty : Option (List Bool) → List Bool
or_empty none = []
or_empty (some bs) = bs

-- What `verifyBatchOnChain` makes of one.
unfoldable pub batch_result : Success → Result VerifyBatchResult
batch_result result = do
  (ledger, fee) ← payload result.ledger result.fee_charged
  ok (record {
    verified = or_empty (decode_bool_array_from_diagnostics result.diagnostic_events);
    tx_hash = result.tx_hash;
    ledger = ledger;
    fee = fee;
  })
