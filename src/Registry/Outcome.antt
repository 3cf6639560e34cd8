-- ===== src/Registry/Outcome.antt =====
-- The two outcomes of a verification by the registry.
use zkstellar.Prelude.{
  ℕ, ◌≡◌, inl, inr, refl, ◌∙◌, sym, ap, Bool, true, false, List, ◌∷◌, Option, none, some, arith,
  Bool-cases,
}
use zkstellar.Contract.{Bytes, Host, ◌>>=◌, >>=-eq-some, compute_inputs_hash}
use zkstellar.Registry.{
  Registry, BatchItem, is_circuit_active, is_nullifier_used, compute_nullifier, run_verification,
  publish, burn, verify_proof, batch_round, verify_batch,
}

module _ (host : Host) where
  -- The nullifier of a circuit and its public inputs.
  abbrev pub key_of : ℕ → List Bytes → Bytes
  key_of id public_inputs = compute_nullifier host id (compute_inputs_hash host public_inputs)

  -- The event of a refused verification, and the state after an accepted one.
  abbrev pub refused : List Bytes → Registry → Registry
  refused public_inputs r = publish host false (compute_inputs_hash host public_inputs) r

  abbrev pub accepted : ℕ → List Bytes → Registry → Registry
  accepted id public_inputs r =
      publish host true (compute_inputs_hash host public_inputs)
        (burn host true (key_of id public_inputs) r)

  pub record IsAccepted (id : ℕ) (a b c : Bytes) (public_inputs : List Bytes) (r r' : Registry)
      : Type 0 where
    pub was_active : is_circuit_active id r ≡ true
    pub was_unused : is_nullifier_used (key_of id public_inputs) r ≡ false
    pub was_verified : run_verification host r id a b c public_inputs ≡ some true
    pub after : r' ≡ accepted id public_inputs r

  abbrev pub Settled : ℕ → Bytes → Bytes → Bytes → List Bytes → Registry → Bool → Registry → Type 0
  Settled id a b c public_inputs r true r' = IsAccepted id a b c public_inputs r r'
  Settled id a b c public_inputs r false r' = r' ≡ refused public_inputs r

  -- What a verification that was run does with its result.
  abbrev settle : ℕ → List Bytes → Registry → Bool → Bool × Registry
  settle id public_inputs r success = (
    success,
    publish host success (compute_inputs_hash host public_inputs)
        (burn host success (key_of id public_inputs) r),
  )

  verified-Settled :
      (id : ℕ) (a b c : Bytes) (public_inputs : List Bytes) (r : Registry) (answer : Option Bool)
      (success : Bool) (r' : Registry)
      → is_circuit_active id r ≡ true
      → is_nullifier_used (key_of id public_inputs) r ≡ false
      → run_verification host r id a b c public_inputs ≡ answer
      → (answer >>= λ success. some (settle id public_inputs r success)) ≡ some (success, r')
      → Settled id a b c public_inputs r success r'
  verified-Settled id a b c public_inputs r none success r' active unused run h = cc
  verified-Settled id a b c public_inputs r (some false) true r' active unused run h = cc
  verified-Settled id a b c public_inputs r (some true) false r' active unused run h = cc
  verified-Settled id a b c public_inputs r (some false) false r' active unused run h = ground arith
  verified-Settled id a b c public_inputs r (some true) true r' active unused run h = record {
    was_active = active;
    was_unused = unused;
    was_verified = run;
    after = ground arith;
  }

  refused-Settled :
      (id : ℕ) (a b c : Bytes) (public_inputs : List Bytes) (r : Registry) (success : Bool)
      (r' : Registry)
      → ◌≡◌ {A = Option (Bool × Registry)}
          (some (false, refused public_inputs r))
          (some (success, r'))
      → Settled id a b c public_inputs r success r'
  refused-Settled id a b c public_inputs r true r' h = cc
  refused-Settled id a b c public_inputs r false r' h = ground arith

  pub verify_proof-Settled :
      (id : ℕ) (a b c : Bytes) (public_inputs : List Bytes) (r : Registry) (success : Bool)
      (r' : Registry)
      → verify_proof host id a b c public_inputs r ≡ some (success, r')
      → Settled id a b c public_inputs r success r'
  unfolding verify_proof
  verify_proof-Settled id a b c public_inputs r success r' h =
      elim (Bool-cases (is_circuit_active id r)) [
        | inr inactive ↦ refused-Settled id a b c public_inputs r success r' (rw inactive at h)
        | inl active ↦ elim (Bool-cases (is_nullifier_used (key_of id public_inputs) r)) [
          | inl used ↦ refused-Settled id a b c public_inputs r success r' (rw (active, used) at h)
          | inr unused ↦
              verified-Settled id a b c public_inputs r
                (run_verification host r id a b c public_inputs) success r' active unused refl
                (rw (active, unused) at h)
        ]
      ]

  -- The loop of verify_batch treats an item as verify_proof treats its fields.
  pub batch_round-verify_proof :
      (item : BatchItem) (r : Registry)
      → batch_round host item r
        ≡ verify_proof host item.id item.proof_a item.proof_b item.proof_c item.public_inputs r
  unfolding batch_round verify_proof
  batch_round-verify_proof item r = refl

  -- A batch of an item and others, taken apart.
  pub verify_batch-cons :
      (item : BatchItem) (batch : List BatchItem) (r : Registry) (results : List Bool)
      (last : Registry)
      → verify_batch host (item ∷ batch) r ≡ some (results, last)
      → (success : Bool) × (r' : Registry) × (rest : List Bool) × (verify_proof host item.id
            item.proof_a item.proof_b item.proof_c item.public_inputs r
          ≡ some (success, r'))
        × (verify_batch host batch r' ≡ some (rest, last))
        × (results ≡ success ∷ rest)
  unfolding verify_batch
  verify_batch-cons item batch r results last h =
      let ((success, r'), first, h1) = >>=-eq-some (batch_round host item r) _ h in
      let ((rest, r''), others, h2) = >>=-eq-some (verify_batch host batch r') _ h1 in
      (
        success,
        r',
        rest,
        sym (batch_round-verify_proof item r) ∙ first,
        others ∙ ap (λ (s : Registry). some (rest, s)) (ground arith),
        ground arith,
      )
