-- ===== src/Registry/Circuits.antt =====
-- Circuits that are registered, removed and registered again.
use zkstellar.Prelude.{ℕ, ◌≡◌, refl, ◌∙◌, ap, true, false, List, Option, some, ◌==◌, ==_iff, arith}
use zkstellar.Contract.{Auth, Bytes, Host, VerifyingKey, or_false}
use zkstellar.Registry.{
  Registry, set_at, as_admin, register_circuit, remove_circuit, is_circuit_active,
  is_nullifier_used, run_with, run_verification, verify_proof,
}
use zkstellar.Registry.Outcome.{key_of, refused, accepted}
use zkstellar.Registry.Scalars.{verify_proof-run}

as_admin-eq-some :
    (auth : Auth) (r changed r' : Registry) → as_admin auth r changed ≡ some r' → r' ≡ changed
as_admin-eq-some auth r changed r' h = ground arith

set_at_self {ℓ} :
    {A : Type ℓ} (id : ℕ) (value : A) (storage : ℕ → Option A)
    → set_at id value storage id ≡ some value
set_at_self id value storage = let same : (id == id) ≡ true = (==_iff id id).1 refl in rw same

module _ (host : Host) where
  -- A circuit that has just been registered accepts every proof on which the pairing check with the new
  -- key succeeds, if the nullifier of its public inputs is unused; the nullifier is then used. This holds
  -- also when the circuit was removed before, or had another key.
  pub register_circuit_accepts :
      (auth : Auth) (id : ℕ) (vk : VerifyingKey) (a b c : Bytes) (public_inputs : List Bytes)
      (r r' : Registry)
      → register_circuit auth id vk r ≡ some r'
      → is_nullifier_used (key_of host id public_inputs) r ≡ false
      → run_with host (some vk) a b c public_inputs ≡ some true
      → verify_proof host id a b c public_inputs r' ≡ some (true, accepted host id public_inputs r')
  unfolding register_circuit run_verification
  register_circuit_accepts auth id vk a b c public_inputs r r' h unused run =
      let e = as_admin-eq-some auth r _ r' h in
      verify_proof-run host id a b c public_inputs r'
        (ap (λ s. is_circuit_active id s) e ∙ ap or_false (set_at_self id true r.circuit_active))
        (ap (λ s. is_nullifier_used (key_of host id public_inputs) s) e ∙ unused)
        (ap (λ s. run_verification host s id a b c public_inputs) e
          ∙ ap (λ circuit. run_with host circuit a b c public_inputs) (set_at_self id vk r.circuit)
          ∙ run)

  -- A circuit that has just been removed accepts no proof.
  pub remove_circuit_refuses :
      (auth : Auth) (id : ℕ) (a b c : Bytes) (public_inputs : List Bytes) (r r' : Registry)
      → remove_circuit auth id r ≡ some r'
      → verify_proof host id a b c public_inputs r' ≡ some (false, refused host public_inputs r')
  unfolding remove_circuit verify_proof
  remove_circuit_refuses auth id a b c public_inputs r r' h =
      let e = as_admin-eq-some auth r _ r' h in
      let inactive : is_circuit_active id r' ≡ false =
        ap (λ s. is_circuit_active id s) e ∙ ap or_false (set_at_self id false r.circuit_active) in
      rw inactive
