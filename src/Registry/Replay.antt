-- ===== src/Registry/Replay.antt =====
-- Replay protection of the registry: a nullifier that was burned stays burned.
use zkstellar.Prelude.{
  ℕ, ◌≡◌, ◌⊎◌, subst, inl, inr, refl, ◌∙◌, ap, Bool, true, false, List, [], ◌∷◌, some, arith,
  Bool-cases,
}
use zkstellar.Text.Equality.{text_eq_iff}
use zkstellar.Contract.{Auth, Bytes, Host, has_bytes}
use zkstellar.Registry.{
  Registry, BatchItem, is_circuit_active, is_nullifier_used, verify_proof, verify_batch,
  propose_admin, accept_admin, upgrade, register_circuit, remove_circuit, as_admin,
}
use zkstellar.Registry.Outcome.{key_of, refused, Settled, verify_proof-Settled, verify_batch-cons}
use zkstellar.Registry.Steps.{
  Step, proposing, accepting, upgrading, registering, removing, verifying, batching, Reach, here,
  next,
}

has_bytes-cons :
    (key k : Bytes) (keys : List Bytes)
    → has_bytes key keys ≡ true
    → has_bytes key (k ∷ keys) ≡ true
unfolding has_bytes
has_bytes-cons key k keys h = ground arith

has_bytes_self : (key : Bytes) (keys : List Bytes) → has_bytes key (key ∷ keys) ≡ true
unfolding has_bytes
has_bytes_self key keys = rw ((text_eq_iff key key).1 refl)

-- The nullifiers stay as they are.
as_admin-nullifiers :
    (auth : Auth) (r changed r' : Registry)
    → changed.nullifiers ≡ r.nullifiers
    → as_admin auth r changed ≡ some r'
    → r'.nullifiers ≡ r.nullifiers
as_admin-nullifiers auth r changed r' same h = ground arith

module _ (host : Host) (May : Auth → Type 0) (key : Bytes) where
  abbrev pub Burned : Registry → Type 0
  Burned r = is_nullifier_used key r ≡ true

  kept : (r r' : Registry) → r'.nullifiers ≡ r.nullifiers → Burned r → Burned r'
  kept r r' same burned = ap (has_bytes key) same ∙ burned

  Settled-Burned :
      (id : ℕ) (a b c : Bytes) (public_inputs : List Bytes) (r : Registry) (success : Bool)
      (r' : Registry)
      → Settled host id a b c public_inputs r success r'
      → Burned r
      → Burned r'
  Settled-Burned id a b c public_inputs r false r' e burned =
      kept r r' (ap (λ (x : Registry). x.nullifiers) e) burned
  Settled-Burned id a b c public_inputs r true r' e burned =
      ap (λ (x : Registry). is_nullifier_used key x) e.after
      ∙ has_bytes-cons key (key_of host id public_inputs) r.nullifiers burned

  verify_proof-Burned :
      (id : ℕ) (a b c : Bytes) (public_inputs : List Bytes) (r : Registry) (success : Bool)
      (r' : Registry)
      → verify_proof host id a b c public_inputs r ≡ some (success, r')
      → Burned r
      → Burned r'
  verify_proof-Burned id a b c public_inputs r success r' h =
      Settled-Burned id a b c public_inputs r success r'
        (verify_proof-Settled host id a b c public_inputs r success r' h)

  verify_batch-Burned :
      (batch : List BatchItem) (r : Registry) (results : List Bool) (r' : Registry)
      → verify_batch host batch r ≡ some (results, r')
      → Burned r
      → Burned r'
  unfolding verify_batch
  verify_batch-Burned [] r results r' h burned = kept r r' (ground arith) burned
  verify_batch-Burned (item ∷ batch) r results r' h burned =
      let (success, mid, rest, first, others, same) =
        verify_batch-cons host item batch r results r' h in
      verify_batch-Burned batch mid rest r' others (
        verify_proof-Burned item.id item.proof_a item.proof_b item.proof_c item.public_inputs r
          success mid first burned)

  Step-Burned : {r r' : Registry} → Step host May r r' → Burned r → Burned r'
  unfolding propose_admin accept_admin upgrade register_circuit remove_circuit
  Step-Burned {r} {r'} (proposing auth a may h) = kept r r' (as_admin-nullifiers auth r _ r' refl h)
  Step-Burned {r} {r'} (accepting auth may h) = kept r r' (ground arith)
  Step-Burned {r} {r'} (upgrading auth wasm may h) =
      kept r r' (as_admin-nullifiers auth r _ r' refl h)
  Step-Burned {r} {r'} (registering auth id vk may h) =
      kept r r' (as_admin-nullifiers auth r _ r' refl h)
  Step-Burned {r} {r'} (removing auth id may h) = kept r r' (as_admin-nullifiers auth r _ r' refl h)
  Step-Burned {r} {r'} (verifying id a b c public_inputs success h) =
      verify_proof-Burned id a b c public_inputs r success r' h
  Step-Burned {r} {r'} (batching batch results h) = verify_batch-Burned batch r results r' h

  pub Reach-Burned : {r s : Registry} → Reach host May r s → Burned r → Burned s
  Reach-Burned here burned = burned
  Reach-Burned (next steps code step) burned = Step-Burned step (Reach-Burned steps burned)

module _ (host : Host) (May : Auth → Type 0) where
  verify_proof_burned :
      (id : ℕ) (a b c : Bytes) (public_inputs : List Bytes) (r : Registry)
      → is_nullifier_used (key_of host id public_inputs) r ≡ true
      → verify_proof host id a b c public_inputs r ≡ some (false, refused host public_inputs r)
  unfolding verify_proof
  verify_proof_burned id a b c public_inputs r burned = elim (Bool-cases (is_circuit_active id r)) [
    | inl active ↦ rw (active, burned)
    | inr inactive ↦ rw inactive
  ]

  accepted_now :
      (id : ℕ) (a b c : Bytes) (public_inputs : List Bytes) (r r' : Registry)
      → verify_proof host id a b c public_inputs r ≡ some (true, r')
      → is_nullifier_used (key_of host id public_inputs) r' ≡ true
  accepted_now id a b c public_inputs r r' h =
      let key = key_of host id public_inputs in
      let settled = verify_proof-Settled host id a b c public_inputs r true r' h in
      ap (λ (x : Registry). is_nullifier_used key x) settled.after ∙ has_bytes_self key r.nullifiers

  -- One of the items is for the circuit and the public inputs, and its result is `true`.
  abbrev pub Granted : ℕ → List Bytes → List BatchItem → List Bool → Type 0
  Granted id public_inputs [] results = ⊥
  Granted id public_inputs (item ∷ batch) [] = ⊥
  Granted id public_inputs (item ∷ batch) (success ∷ results) =
      ((item.id ≡ id) × (item.public_inputs ≡ public_inputs) × (success ≡ true))
      ⊎ Granted id public_inputs batch results

  -- The registry accepts a proof for the circuit and the public inputs, alone or in a batch.
  abbrev pub Accepts : ℕ → List Bytes → Registry → Registry → Type 0
  Accepts id public_inputs r r' =
      ((a : Bytes) × (b : Bytes) × (c : Bytes) × (verify_proof host id a b c public_inputs r
          ≡ some (true, r')))
      ⊎ ((batch : List BatchItem) × (results : List Bool) × (verify_batch host batch r
            ≡ some (results, r'))
          × Granted id public_inputs batch results)

  verify_batch-Granted :
      (id : ℕ) (public_inputs : List Bytes) (batch : List BatchItem) (results : List Bool)
      (r r' : Registry)
      → verify_batch host batch r ≡ some (results, r')
      → Granted id public_inputs batch results
      → is_nullifier_used (key_of host id public_inputs) r' ≡ true
  verify_batch-Granted id public_inputs [] results r r' h g = absurd g
  verify_batch-Granted id public_inputs (item ∷ batch) [] r r' h g = absurd g
  verify_batch-Granted id public_inputs (item ∷ batch) (success ∷ results) r r' h g =
      let (first, mid, rest, ran, others, same) =
        verify_batch-cons host item batch r (success ∷ results) r' h in
      elim g [
        | inl (of_id, of_inputs, granted) ↦
            let yes : first ≡ true = cc (same, granted) in
            let burned =
              accepted_now item.id item.proof_a item.proof_b item.proof_c item.public_inputs r mid
                (ran ∙ ap (λ b. some (b, mid)) yes) in
            verify_batch-Burned host (λ auth. Unit) (key_of host id public_inputs) batch mid rest r'
              others
              (subst (λ xs. is_nullifier_used (key_of host id xs) mid ≡ true) of_inputs
                (subst (λ i. is_nullifier_used (key_of host i item.public_inputs) mid ≡ true) of_id
                  burned))
        | inr later ↦
            verify_batch-Granted id public_inputs batch results mid r'
              (others ∙ ap (λ xs. some (xs, r')) (cc same)) later
      ]

  -- The nullifier of an accepted proof, ever after.
  pub accepted-Burned :
      (id : ℕ) (public_inputs : List Bytes) (r r' s : Registry)
      → Accepts id public_inputs r r'
      → Reach host May r' s
      → is_nullifier_used (key_of host id public_inputs) s ≡ true
  accepted-Burned id public_inputs r r' s (inl (a, b, c, h)) steps =
      Reach-Burned host May (key_of host id public_inputs) steps
        (accepted_now id a b c public_inputs r r' h)
  accepted-Burned id public_inputs r r' s (inr (batch, results, h, granted)) steps =
      Reach-Burned host May (key_of host id public_inputs) steps
        (verify_batch-Granted id public_inputs batch results r r' h granted)

  burned_refused :
      (id : ℕ) (public_inputs : List Bytes) (batch : List BatchItem) (results : List Bool)
      (s t : Registry)
      → is_nullifier_used (key_of host id public_inputs) s ≡ true
      → verify_batch host batch s ≡ some (results, t)
      → ¬ Granted id public_inputs batch results
  burned_refused id public_inputs [] results s t burned h g = g
  burned_refused id public_inputs (item ∷ batch) [] s t burned h g = g
  burned_refused id public_inputs (item ∷ batch) (success ∷ results) s t burned h g =
      let (first, mid, rest, ran, others, same) =
        verify_batch-cons host item batch s (success ∷ results) t h in
      elim g [
        | inl (of_id, of_inputs, granted) ↦
            let refusal =
              verify_proof_burned item.id item.proof_a item.proof_b item.proof_c item.public_inputs
                s
                (ap (λ xs. is_nullifier_used (key_of host item.id xs) s) of_inputs
                  ∙ ap (λ i. is_nullifier_used (key_of host i public_inputs) s) of_id
                  ∙ burned) in
            absurd (cc (ran, refusal, same, granted))
        | inr later ↦
            burned_refused id public_inputs batch results mid t
              (verify_proof-Burned host (λ auth. Unit) (key_of host id public_inputs) item.id
                item.proof_a item.proof_b item.proof_c item.public_inputs s first mid ran burned)
              (others ∙ ap (λ xs. some (xs, t)) (cc same)) later
      ]

  -- When the registry has accepted a proof for a circuit and public inputs, by verify_proof or as an item
  -- of verify_batch, then after any further calls by anyone, in any order, as long as its executable is not
  -- replaced by another, verify_proof refuses every proof for that circuit and those inputs, and
  -- publishes that, and verify_batch answers `true` to no item for them.
  pub verify_proof_once :
      (id : ℕ) (public_inputs : List Bytes) (r r' s : Registry)
      → Accepts id public_inputs r r'
      → Reach host May r' s
      → s.wasm_hash ≡ r'.wasm_hash
      → (a b c : Bytes) (batch : List BatchItem) (results : List Bool) (t : Registry)
      → verify_batch host batch s ≡ some (results, t)
      → (verify_proof host id a b c public_inputs s ≡ some (false, refused host public_inputs s))
        × ¬ Granted id public_inputs batch results
  verify_proof_once id public_inputs r r' s accepted steps same_code a b c batch results t h =
      let burned = accepted-Burned id public_inputs r r' s accepted steps in
      (
        verify_proof_burned id a b c public_inputs s burned,
        burned_refused id public_inputs batch results s t burned h,
      )
