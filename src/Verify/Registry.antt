-- ===== src/Verify/Registry.antt =====
-- What the simulated calls return, and what they throw.
use zkstellar.Prelude.{
  ℕ, ◌≡◌, refl, ◌∙◌, ap, Bool, true, false, List, none, some, not, length, ◌==◌,
}
use zkstellar.Text.{Text}
use zkstellar.Types.{
  Failure, is_soroban_zk_error, ok, err, guard, guard-eq-ok, >>=-eq-ok, ok_injective,
}
use zkstellar.Js.{Js, truthy}
use zkstellar.Validate.{SorobanProofCalldata, validate_calldata}
use zkstellar.Validate.Typed.{IsTyped-bind, validate_calldata-IsTyped}
use zkstellar.Verify.Server.{
  Call, registry_verify_proof, registry_verify_batch, Simulation, simulated, simulation_error,
  Server,
}
use zkstellar.Verify.Decode.{check_network, resolve_calldata}
use zkstellar.Verify.Poll.{validate_all}
use zkstellar.Verify.Verified.{catching-eq-ok}
use zkstellar.Verify.Thrown.{IsPlainBundle, catching-IsTyped, resolve_calldata-IsTyped}
use zkstellar.Verify.Simulate.{
  simulate_call, ephemeral_transaction, returned, verify_via_registry, VerifyViaRegistryOptions,
  RegistryBatchItem, format_registry_items, calldata_items, booleans_or_empty,
  verify_batch_via_registry,
}

-- The simulation of a call of the contract has returned a value.
pub record Simulates (server : Server) (passphrase ephemeral contract_id : Text) (call : Call)
    (value : Js) : Type 0 where
  pub resource_fee : ℕ
  pub simulation :
      server.simulate (ephemeral_transaction server passphrase ephemeral contract_id call)
      ≡ ok (simulated (some value) resource_fee)

returned-eq-ok :
    (s : Simulation) (value : Js)
    → returned s ≡ ok value
    → (fee : ℕ) × (s ≡ simulated (some value) fee)
returned-eq-ok (simulation_error message) value h = absurd (cc)
returned-eq-ok (simulated none fee) value h = absurd (cc)
returned-eq-ok (simulated (some v) fee) value h = (fee, cc)

simulate_call-Simulates :
    (server : Server) (passphrase ephemeral contract_id : Text) (call : Call) (value : Js)
    → simulate_call server passphrase ephemeral contract_id call ≡ ok value
    → Simulates server passphrase ephemeral contract_id call value
unfolding simulate_call
simulate_call-Simulates server passphrase ephemeral contract_id call value h =
    let (s, answered, h1) =
      >>=-eq-ok
        (server.simulate (ephemeral_transaction server passphrase ephemeral contract_id call))
        returned h in
    let (fee, e) = returned-eq-ok s value h1 in
    record { resource_fee = fee; simulation = answered ∙ ap ok e }

-- If verifyViaRegistry returns a verdict, then the calldata passed validateCalldata, the bundle's
-- network, if there is a bundle, is the server's, and the simulation of the registry's verify_proof on
-- that circuit id and calldata returned a value, whose truth is the verdict.
pub verify_via_registry_sound :
    (server : Server) (ephemeral : Text) (opts : VerifyViaRegistryOptions) (verdict : Bool)
    → verify_via_registry server ephemeral opts ≡ ok verdict
    → (calldata : SorobanProofCalldata) × (passphrase : Text) × (value : Js) × (resolve_calldata
          opts.calldata opts.bundle
        ≡ ok calldata)
      × (validate_calldata calldata ≡ ok tt)
      × (server.network ≡ ok passphrase)
      × (check_network opts.bundle passphrase ≡ ok tt)
      × Simulates server passphrase ephemeral opts.registry_contract_id
          (registry_verify_proof opts.circuit_id calldata)
          value
      × (truthy value ≡ verdict)
unfolding verify_via_registry
verify_via_registry_sound server ephemeral opts verdict h =
    let (calldata, resolved, h1) = >>=-eq-ok (resolve_calldata opts.calldata opts.bundle) _ h in
    let (u, valid, h2) = >>=-eq-ok (validate_calldata calldata) _ h1 in
    let h3 = catching-eq-ok _ {a = verdict} h2 in
    let (passphrase, network, h4) = >>=-eq-ok server.network _ h3 in
    let (w, checked, h5) = >>=-eq-ok (check_network opts.bundle passphrase) _ h4 in
    let (value, called, h6) =
      >>=-eq-ok
        (simulate_call server passphrase ephemeral opts.registry_contract_id
          (registry_verify_proof opts.circuit_id calldata))
        (λ v. ok (truthy v)) h5 in
    (
      calldata,
      passphrase,
      value,
      resolved,
      valid,
      network,
      checked,
      simulate_call-Simulates server passphrase ephemeral opts.registry_contract_id
          (registry_verify_proof opts.circuit_id calldata) value called,
      ok_injective h6,
    )

-- Whatever else the options hold and the server answers or throws, an error that verifyViaRegistry throws
-- is a SorobanZkError or of a class that extends it, if describeValue has a text for what the bundle holds.
verify_via_registry-IsTyped :
    (server : Server) (ephemeral : Text) (opts : VerifyViaRegistryOptions)
    → IsPlainBundle opts.bundle
    → (f : Failure) → verify_via_registry server ephemeral opts ≡ err f
    → is_soroban_zk_error f ≡ true
unfolding verify_via_registry
verify_via_registry-IsTyped server ephemeral opts plain =
    IsTyped-bind (resolve_calldata opts.calldata opts.bundle) _
      (resolve_calldata-IsTyped opts.calldata opts.bundle plain)
      λ calldata.
        IsTyped-bind (validate_calldata calldata) _ (validate_calldata-IsTyped calldata)
          λ u. catching-IsTyped _

-- If verifyBatchViaRegistry returns verdicts, then there was an item, every item was encoded by
-- formatProof, and the simulation of one call of the registry's verify_batch on all the circuit ids and
-- encodings, in order, returned a value: the truth values of its elements, or none if it is no array.
pub verify_batch_via_registry_sound :
    (server : Server) (ephemeral contract_id : Text) (batch : List RegistryBatchItem)
    (verdicts : List Bool)
    → verify_batch_via_registry server ephemeral contract_id batch ≡ ok verdicts
    → (formatted : List (ℕ × SorobanProofCalldata)) × (passphrase : Text) × (value : Js) × ((length
            batch
          == 0)
        ≡ false)
      × (format_registry_items batch ≡ ok formatted)
      × (validate_all (calldata_items formatted) ≡ ok tt)
      × (server.network ≡ ok passphrase)
      × Simulates server passphrase ephemeral contract_id (registry_verify_batch formatted) value
      × (booleans_or_empty value ≡ verdicts)
unfolding verify_batch_via_registry
verify_batch_via_registry_sound server ephemeral contract_id batch verdicts h =
    let (u, nonempty, h1) = >>=-eq-ok (guard (not (length batch == 0)) _) _ h in
    let (formatted, encoded, h2) = >>=-eq-ok (format_registry_items batch) _ h1 in
    let (w, valid, h3) = >>=-eq-ok (validate_all (calldata_items formatted)) _ h2 in
    let h4 = catching-eq-ok _ {a = verdicts} h3 in
    let (passphrase, network, h5) = >>=-eq-ok server.network _ h4 in
    let (value, called, h6) =
      >>=-eq-ok
        (simulate_call server passphrase ephemeral contract_id (registry_verify_batch formatted))
        (λ v. ok (booleans_or_empty v)) h5 in
    (
      formatted,
      passphrase,
      value,
      some_item (length batch == 0) (guard-eq-ok _ _ nonempty),
      encoded,
      valid,
      network,
      simulate_call-Simulates server passphrase ephemeral contract_id
          (registry_verify_batch formatted) value called,
      ok_injective h6,
    )
  where
    some_item : (b : Bool) → not b ≡ true → b ≡ false
    some_item true p = cc
    some_item false p = refl
