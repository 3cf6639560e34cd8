-- ===== src/Registry/Consumed.antt =====
-- What the SDK reports about a circuit and public inputs that the registry has accepted.
use zkstellar.Prelude.{
  [], refl, ℕ, ◌≤◌, ◌≡◌, ◌∙◌, ap, true, false, List, ◌∷◌, map, none, some, length, All,
}
use zkstellar.Text.{Text, pos}
use zkstellar.Types.{ok}
use zkstellar.Js.{Js, int, array, items, buffer}
use zkstellar.Validate.{SorobanProofCalldata}
use zkstellar.Proof.{max_u32, format_proof}
use zkstellar.Proof.Format.{validate_calldata-format_proof}
use zkstellar.Nullifier
use zkstellar.Cli.{bytes_of, inputs_of}
use zkstellar.Verify.Server.{Server, is_nullifier_used}
use zkstellar.Verify.Simulate.{
  simulate_call, verify_via_registry, is_nullifier_used_on_chain, ephemeral_transaction,
}
use zkstellar.Contract.{Auth, Bytes, Host}
use zkstellar.Registry
use zkstellar.Registry.{Registry, verify_batch}
use zkstellar.Registry.Outcome.{key_of}
use zkstellar.Registry.Steps.{Reach}
use zkstellar.Registry.Replay.{Accepts, verify_proof_once, accepted-Burned}
use zkstellar.Registry.Client.{Simulates, via_registry, reported, compute_nullifier_agrees}

module _ (host : Host) (May : Auth → Type 0) where
  -- Suppose that the registry accepted a proof, by verify_proof or as an item of verify_batch, for a circuit
  -- and the public inputs that formatProof makes of some public signals. After any further calls of the
  -- registry, as long as its executable is not replaced by another, verifyViaRegistry answers `false` for
  -- that circuit and every proof with those signals that formatProof encodes, when the server simulates
  -- the call in the state that the registry is then in.
  pub verify_via_registry_once :
      (server : Server) (ephemeral passphrase registry_id : Text) (fee id : ℕ)
      (proof public_signals : Js) (calldata : SorobanProofCalldata) (r r' s : Registry)
      → format_proof proof public_signals none ≡ ok calldata
      → Accepts host May id (inputs_of calldata) r r'
      → Reach host May r' s
      → s.wasm_hash ≡ r'.wasm_hash
      → Simulates host server passphrase fee s
      → verify_via_registry server ephemeral (record {
        registry_contract_id = registry_id;
        circuit_id = id;
        calldata = some calldata;
        bundle = none;
      })
        ≡ ok false
  verify_via_registry_once server ephemeral passphrase registry_id fee id proof public_signals
        calldata r r' s formatted accepted steps same_code simulates =
      via_registry host server ephemeral passphrase fee s registry_id id calldata simulates
        (validate_calldata-format_proof proof public_signals none calldata formatted)
      ∙ ap (reported host) (
          (verify_proof_once host May id (inputs_of calldata) r r' s accepted steps same_code
            (bytes_of calldata.proof_a) (bytes_of calldata.proof_b) (bytes_of calldata.proof_c) []
            [] s (unfold verify_batch in refl)).0)

  used_on_chain :
      (server : Server) (ephemeral passphrase registry_id : Text) (fee : ℕ) (nullifier : Bytes)
      (s : Registry)
      → length nullifier ≡ 32
      → Registry.is_nullifier_used nullifier s ≡ true
      → Simulates host server passphrase fee s
      → is_nullifier_used_on_chain server ephemeral registry_id (buffer nullifier) ≡ ok true
  unfolding is_nullifier_used_on_chain simulate_call
  used_on_chain server ephemeral passphrase registry_id fee nullifier s size used simulates =
      let sent =
        ephemeral_transaction server passphrase ephemeral registry_id
          (is_nullifier_used nullifier) in
      rw (size, simulates.answers_network) (rw (simulates.answers_calls sent, used))

  key_of-length :
      ((bytes : Bytes) → length (host.sha256 bytes) ≡ 32)
      → (id : ℕ) (xs : List Bytes) → length (key_of host id xs) ≡ 32
  unfolding Registry.compute_nullifier
  key_of-length size id xs = size _

  -- After the registry has accepted a proof, by verify_proof or as an item of verify_batch, for a u32 circuit
  -- id and a nonempty list of public inputs of 32 bytes, and after any further calls, as long as its
  -- executable is not replaced by another, the nullifier that computeNullifier of the SDK gives that circuit
  -- and those inputs is used, to isNullifierUsedOnChain; SHA-256 gives 32 bytes.
  pub computed_nullifier_used :
      ((bytes : Bytes) → length (host.sha256 bytes) ≡ 32)
      → (server : Server) (ephemeral passphrase registry_id : Text) (fee id : ℕ) (x : Bytes)
        (xs : List Bytes) (r r' s : Registry)
      → id ≤ max_u32
      → All (λ x. length x ≡ 32) (x ∷ xs)
      → Accepts host May id (x ∷ xs) r r'
      → Reach host May r' s
      → s.wasm_hash ≡ r'.wasm_hash
      → Simulates host server passphrase fee s
      → (nullifier : Bytes) × (Nullifier.compute_nullifier host.sha256
            (int (pos id))
            (array (items (map buffer (x ∷ xs))))
          ≡ ok nullifier)
        × (is_nullifier_used_on_chain server ephemeral registry_id (buffer nullifier) ≡ ok true)
  computed_nullifier_used size server ephemeral passphrase registry_id fee id x xs r r' s small all
        accepted steps same_code simulates =
      (
        key_of host id (x ∷ xs),
        compute_nullifier_agrees host id x xs small all,
        used_on_chain server ephemeral passphrase registry_id fee (key_of host id (x ∷ xs)) s
            (key_of-length size id (x ∷ xs))
            (accepted-Burned host May id (x ∷ xs) r r' s accepted steps) simulates,
      )
