-- ===== src/OffChain/Accepted.antt =====
-- What sdk/src/verifyOffChain.ts hands to snarkjs.
use zkstellar.Prelude.{Bool, true, ◌&&◌, some, ◌≡◌, List}
use zkstellar.Types.{Result, ok, ◌>>=◌}
use zkstellar.Js.{Js, as_array, is_object, prop, truthy}
use zkstellar.Validate.{validate_proof_input}
use zkstellar.Validate.Accepts.{validate_proof_input_sound, IsProofInput, ProofNumbers}
use zkstellar.OffChain.{is_array, is_groth16_object, verify_off_chain}

is_array_of : (v : Js) {vs : List Js} → as_array v ≡ some vs → is_array v ≡ true
is_array_of v e = rw (e, is_array)

both : (a b : Bool) → a ≡ true → b ≡ true → (a && b) ≡ true
both a b p q = rw (p, q)

module _ (groth16_verify : Js → Js → Js → Result Js) where
  accepted :
      (proof public_signals key : Js) (n : ProofNumbers)
      → IsProofInput proof public_signals n
      → is_groth16_object key ≡ true
      → verify_off_chain groth16_verify proof public_signals key
        ≡ (groth16_verify key public_signals proof >>= λ v. ok (truthy v))
  unfolding verify_off_chain
  accepted proof public_signals key n p k =
      let o = both (is_object proof) _ p.input_object p.input_groth16 in
      let a = is_array_of (prop proof "pi_a") p.input_a.pair_array in
      let b = is_array_of (prop proof "pi_b") p.input_b in
      let c = is_array_of (prop proof "pi_c") p.input_c.pair_array in
      let s = is_array_of public_signals p.input_array in rw o (rw a (rw b (rw c (rw s (rw k)))))

  -- If validateProofInput accepts a proof with its public signals, and the verification key is an object
  -- for groth16, then verifyOffChain asks snarkjs about them, and its verdict or error is what snarkjs
  -- answers: whatever formatProof encodes for the chain, the check off the chain does not refuse.
  pub verify_off_chain_complete :
      (proof public_signals key : Js)
      → validate_proof_input proof public_signals ≡ ok tt
      → is_groth16_object key ≡ true
      → verify_off_chain groth16_verify proof public_signals key
        ≡ (groth16_verify key public_signals proof >>= λ v. ok (truthy v))
  verify_off_chain_complete proof public_signals key h k =
      let (n, p) = validate_proof_input_sound proof public_signals h in
      accepted proof public_signals key n p k
