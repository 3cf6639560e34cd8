-- ===== src/Registry/Client.antt =====
-- The SDK in front of the registry: the same nullifiers, and what verifyViaRegistry and
-- isNullifierUsedOnChain of the SDK answer when the RPC server simulates the contract.
use zkstellar.Prelude.{
  ℕ, ◌/◌, refl, ◌≤◌, ◌≡◌, ◌∙◌, sym, ap, Bool, true, List, [], ◌∷◌, ◌++◌, map, Option, none, some,
  length, All, arith, leb, Option-cases, inl, inr,
}
use mathlib.Core.List.{append_assoc, append-nil}
use zkstellar.Text.{Text, codes, pos}
use zkstellar.Types.{Result, ok, err}
use zkstellar.Js.{int, boolean, array, items, buffer}
use zkstellar.Validate.{SorobanProofCalldata, validate_calldata}
use zkstellar.Proof.{max_u32}
use zkstellar.Nullifier
use zkstellar.Cli.{bytes_of, inputs_of, buffer_concat}
use zkstellar.Cli.CheckNullifier.{compute_nullifier-nullifier_of}
use zkstellar.Verify.Errors.{catching}
use zkstellar.Verify.Server.{
  Call, registry_verify_proof, is_nullifier_used, Transaction, Simulation, simulated,
  simulation_error, Server,
}
use zkstellar.Verify.Decode.{resolve_calldata}
use zkstellar.Verify.Simulate.{
  call_failed, simulate_call, verify_via_registry, ephemeral_transaction,
}
use zkstellar.Contract.{Bytes, Host, append_inputs, low_bytes, to_be_bytes, compute_inputs_hash}
use zkstellar.Registry
use zkstellar.Registry.{verify_proof}
use zkstellar.Registry.Outcome.{key_of}

append_inputs-buffer_concat :
    (bytes : Bytes) (xs : List Bytes) → append_inputs bytes xs ≡ bytes ++ buffer_concat xs
unfolding append_inputs buffer_concat
append_inputs-buffer_concat bytes [] = sym (append-nil bytes)
append_inputs-buffer_concat bytes (x ∷ xs) =
    append_inputs-buffer_concat (bytes ++ x) xs ∙ append_assoc bytes x (buffer_concat xs)

-- Rust's `to_be_bytes` and Node's `writeUInt32BE` give a circuit id the same bytes.
to_be_bytes-be_4 : (id : ℕ) → to_be_bytes id ≡ Nullifier.be_4 id
unfolding low_bytes Nullifier.be_4
to_be_bytes-be_4 id =
    let top : id / 256 / 256 / 256 ≡ id / 0x1000000 = omega arith in
    let third : id / 256 / 256 ≡ id / 0x10000 = omega arith in rw (top, third) refl

module _ (host : Host) where
  key_hash :
      (id : ℕ) (xs : List Bytes)
      → key_of host id xs ≡ host.sha256 (Nullifier.be_4 id ++ host.sha256 (buffer_concat xs))
  unfolding Registry.compute_nullifier compute_inputs_hash
  key_hash id xs =
      ap (λ t. host.sha256 (to_be_bytes id ++ host.sha256 t)) (append_inputs-buffer_concat [] xs)
      ∙ ap (λ b. host.sha256 (b ++ host.sha256 (buffer_concat xs))) (to_be_bytes-be_4 id)

  -- The registry and computeNullifier of the SDK give a circuit and its public inputs the same nullifier,
  -- for every u32 circuit id and every nonempty list of public inputs of 32 bytes.
  pub compute_nullifier_agrees :
      (id : ℕ) (x : Bytes) (xs : List Bytes)
      → id ≤ max_u32
      → All (λ x. length x ≡ 32) (x ∷ xs)
      → Nullifier.compute_nullifier host.sha256 (int (pos id)) (array (items (map buffer (x ∷ xs))))
        ≡ ok (key_of host id (x ∷ xs))
  compute_nullifier_agrees id x xs h all =
      compute_nullifier-nullifier_of host.sha256 (int (pos id)) x xs all
      ∙ (let fits : leb id max_u32 ≡ true = ground arith in
          rw fits (ap (λ k. ok k) (sym (key_hash id (x ∷ xs)))))

  -- What the simulation of a call of the registry answers in a state.
  abbrev pub answered : ℕ → Option (Bool × Registry.Registry) → Simulation
  answered fee none = simulation_error (codes "HostError")
  answered fee (some (success, r')) = simulated (some (boolean success)) fee

  abbrev pub answer : ℕ → Registry.Registry → Call → Simulation
  answer fee r (registry_verify_proof id calldata) = answered fee (
      verify_proof host id (bytes_of calldata.proof_a) (bytes_of calldata.proof_b)
        (bytes_of calldata.proof_c) (inputs_of calldata) r)
  answer fee r (is_nullifier_used nullifier) =
      simulated (some (boolean (Registry.is_nullifier_used nullifier r))) fee
  answer fee r _ = simulation_error (codes "HostError")

  -- A server that simulates the calls in a state of the registry.
  pub record Simulates (server : Server) (passphrase : Text) (fee : ℕ) (r : Registry.Registry)
      : Type 0 where
    pub answers_network : server.network ≡ ok passphrase
    pub answers_calls :
        (transaction : Transaction)
        → server.simulate transaction ≡ ok (answer fee r transaction.call)

  abbrev pub reported : Option (Bool × Registry.Registry) → Result Bool
  reported none = err call_failed
  reported (some (success, r')) = ok success

  pub via_registry :
      (server : Server) (ephemeral passphrase : Text) (fee : ℕ) (r : Registry.Registry)
      (registry_id : Text) (id : ℕ) (calldata : SorobanProofCalldata)
      → Simulates server passphrase fee r
      → validate_calldata calldata ≡ ok tt
      → verify_via_registry server ephemeral (record {
        registry_contract_id = registry_id;
        circuit_id = id;
        calldata = some calldata;
        bundle = none;
      })
        ≡ reported (
            verify_proof host id
              (bytes_of calldata.proof_a)
              (bytes_of calldata.proof_b)
              (bytes_of calldata.proof_c)
              (inputs_of calldata)
              r)
  unfolding verify_via_registry simulate_call catching resolve_calldata
  via_registry server ephemeral passphrase fee r registry_id id calldata s valid =
      let sent =
        ephemeral_transaction server passphrase ephemeral registry_id
          (registry_verify_proof id calldata) in
      elim (Option-cases (
        verify_proof host id (bytes_of calldata.proof_a) (bytes_of calldata.proof_b)
          (bytes_of calldata.proof_c) (inputs_of calldata) r)) [
            | inl stopped ↦ rw (s.answers_network, valid) (rw (s.answers_calls sent, stopped))
            | inr ((success, r'), ran) ↦
                rw (s.answers_network, valid) (rw (s.answers_calls sent, ran) (ground arith))
          ]
