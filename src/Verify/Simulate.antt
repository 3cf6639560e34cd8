-- ===== src/Verify/Simulate.antt =====
-- The read-only calls of sdk/src/verify.ts and sdk/src/nullifier.ts, which simulate a transaction and
-- submit nothing.
use zkstellar.Prelude.{
  ℕ, ◌+◌, ◌-◌, ◌/◌, ◌%◌, Bool, false, List, [], ◌∷◌, ◌++◌, map, Option, none, some, length,
  replicate, ◌==◌, not, if◌then◌else◌, ◌≡◌, refl,
}
use zkstellar.Text.{Text, codes, print_decimal, pos}
use zkstellar.Types.{
  invalid_proof_format, contract_invocation_failed, Failure, soroban_zk_error, Result, ok, err,
  ◌>>=◌, ◌>>◌, guard,
}
use zkstellar.Js.{Js, as_array, truthy}
use zkstellar.Validate.{SorobanProofCalldata, validate_calldata}
use zkstellar.Proof.{format_proof}
use zkstellar.Nullifier.{buffer_32}
use zkstellar.Verify.Errors.{catching, classify_error}
use zkstellar.Verify.Server.{
  Call, verify_proof, registry_verify_proof, registry_verify_batch, is_nullifier_used, Transaction,
  Simulation, simulation_error, simulated, Server, ProofBundle,
}
use zkstellar.Verify.Decode.{check_network, resolve_calldata}
use zkstellar.Verify.Poll.{validate_all, VerifyOptions}

abbrev pub call_failed : Failure
call_failed = soroban_zk_error contract_invocation_failed

abbrev sequence_or_zero : Result ℕ → ℕ
sequence_or_zero (ok n) = n
sequence_or_zero (err e) = 0

-- The transaction of a throw-away key; an account that cannot be fetched is replaced by one at
-- sequence 0.
abbrev pub ephemeral_transaction : Server → Text → Text → Text → Call → Transaction
ephemeral_transaction server passphrase ephemeral contract_id call = record {
  source = ephemeral;
  sequence = sequence_or_zero (server.account ephemeral);
  contract_id = contract_id;
  call = call;
  network_passphrase = passphrase;
  signed = false;
}

-- The returned value, or the error that the callers throw.
abbrev pub returned : Simulation → Result Js
returned (simulation_error message) = err call_failed
returned (simulated none fee) = err call_failed
returned (simulated (some v) fee) = ok v

unfoldable pub simulate_call : Server → Text → Text → Text → Call → Result Js
simulate_call server passphrase ephemeral contract_id call = do
  result ← server.simulate (ephemeral_transaction server passphrase ephemeral contract_id call)
  returned result

pub record VerifyViaRegistryOptions : Type 0 where
  pub registry_contract_id : Text
  pub circuit_id : ℕ
  pub calldata : Option SorobanProofCalldata
  pub bundle : Option ProofBundle

unfoldable pub verify_via_registry : Server → Text → VerifyViaRegistryOptions → Result Bool
verify_via_registry server ephemeral opts = do
  calldata ← resolve_calldata opts.calldata opts.bundle
  validate_calldata calldata
  catching do
    passphrase ← server.network
    check_network opts.bundle passphrase
    v ←
        simulate_call server passphrase ephemeral opts.registry_contract_id
          (registry_verify_proof opts.circuit_id calldata)
    ok (truthy v)

-- `interface RegistryBatchItem`
pub record RegistryBatchItem : Type 0 where
  pub circuit_id : ℕ
  pub proof : Js
  pub public_signals : Js

unfoldable pub format_registry_items :
    List RegistryBatchItem → Result (List (ℕ × SorobanProofCalldata))
format_registry_items [] = ok []
format_registry_items (item ∷ items) = do
  calldata ← format_proof item.proof item.public_signals none
  rest ← format_registry_items items
  ok ((item.circuit_id, calldata) ∷ rest)

abbrev pub calldata_items : List (ℕ × SorobanProofCalldata) → List SorobanProofCalldata
calldata_items [] = []
calldata_items ((id, calldata) ∷ rest) = calldata ∷ calldata_items rest

abbrev pub booleans_or_empty : Js → List Bool
booleans_or_empty v = elim (as_array v) [ none ↦ [] | some vs ↦ map truthy vs ]

unfoldable pub verify_batch_via_registry :
    Server → Text → Text → List RegistryBatchItem → Result (List Bool)
verify_batch_via_registry server ephemeral registry_contract_id batch = do
  guard (not (length batch == 0)) (soroban_zk_error invalid_proof_format)
  formatted ← format_registry_items batch
  validate_all (calldata_items formatted)
  catching do
    passphrase ← server.network
    v ←
        simulate_call server passphrase ephemeral registry_contract_id
          (registry_verify_batch formatted)
    ok (booleans_or_empty v)

-- Not inside a `try`: what the server throws is not classified.
unfoldable pub is_nullifier_used_on_chain : Server → Text → Text → Js → Result Bool
is_nullifier_used_on_chain server ephemeral registry_contract_id nullifier = do
  bytes ← buffer_32 nullifier
  passphrase ← server.network
  v ← simulate_call server passphrase ephemeral registry_contract_id (is_nullifier_used bytes)
  ok (truthy v)

abbrev stroops_per_xlm : ℕ
stroops_per_xlm = 10000000

-- `text.replace(/0+$/, "")`
abbrev drop_zero : ℕ → Text → Text
drop_zero c [] = if c == b'0' then [] else c ∷ []
drop_zero c (d ∷ s) = c ∷ d ∷ s

strip_zeros : Text → Text
strip_zeros [] = []
strip_zeros (c ∷ s) = drop_zero c (strip_zeros s)

abbrev pad_seven : Text → Text
pad_seven s = replicate (7 - length s) b'0' ++ s

abbrev with_fraction : Text → Text → Text
with_fraction whole [] = whole
with_fraction whole (c ∷ s) = whole ++ (b'.' ∷ c ∷ s)

stroops_to_xlm : ℕ → Text
unfolding strip_zeros
stroops_to_xlm stroops =
    with_fraction (print_decimal (pos (stroops / stroops_per_xlm)))
      (strip_zeros (pad_seven (print_decimal (pos (stroops % stroops_per_xlm)))))

pub record EstimateVerifyFeeResult : Type 0 where
  pub stroops : ℕ
  pub xlm : Text

-- `BASE_FEE` of @stellar/stellar-sdk, in stroops, is the first parameter.
abbrev estimated_fee : ℕ → Simulation → Result EstimateVerifyFeeResult
estimated_fee base_fee (simulation_error message) = err (classify_error message)
estimated_fee base_fee (simulated v fee) =
    ok (record { stroops = base_fee + fee; xlm = stroops_to_xlm (base_fee + fee) })

pub estimate_verify_fee : ℕ → Server → VerifyOptions → Result EstimateVerifyFeeResult
estimate_verify_fee base_fee server opts = do
  calldata ← resolve_calldata opts.calldata opts.bundle
  validate_calldata calldata
  catching do
    passphrase ← server.network
    check_network opts.bundle passphrase
    sequence ← server.account opts.public_key
    result ← server.simulate (record {
      source = opts.public_key;
      sequence = sequence;
      contract_id = opts.contract_id;
      call = verify_proof opts.public_key calldata;
      network_passphrase = passphrase;
      signed = false;
    })
    estimated_fee base_fee result

xlm_tests :
    (stroops_to_xlm 12345000 ≡ codes "1.2345")
    × (stroops_to_xlm 30000000 ≡ codes "3")
    × (stroops_to_xlm 100 ≡ codes "0.00001")
unfolding stroops_to_xlm print_decimal
xlm_tests = (refl, refl, refl)
