-- ===== src/Registry/Scalars.antt =====
-- What the registry's verification depends on, and when it panics.
use zkstellar.Prelude.{
  ℕ, suc, ◌≡◌, ◌≢◌, refl, ◌∙◌, fun_ext, subst, sym, ap, Bool, true, false, List, [], ◌∷◌, ◌++◌, map,
  Option, none, some, length, length-map, ◌==◌, arith, ==_iff,
}
use zkstellar.Contract.{Bytes, Host, VerifyingKey, ◌>>=◌}
use zkstellar.Registry.{
  Registry, BatchItem, is_circuit_active, is_nullifier_used, run_verification, run_with, add_inputs,
  linear_combination, pairing, verify_proof, batch_round, verify_batch,
}
use zkstellar.Registry.Outcome.{
  key_of, accepted, verify_proof-Settled, batch_round-verify_proof, verify_batch-cons,
}

module _ (host : Host) where
  abbrev pub scalars : List Bytes → List ℕ
  scalars public_inputs = map host.fr_from_bytes public_inputs

  add_inputs-scalars :
      (vk_x : Bytes) (xs ys ic : List Bytes)
      → scalars xs ≡ scalars ys
      → add_inputs host vk_x xs ic ≡ add_inputs host vk_x ys ic
  unfolding add_inputs
  add_inputs-scalars vk_x [] [] ic e = refl
  add_inputs-scalars vk_x [] (y ∷ ys) ic e = cc
  add_inputs-scalars vk_x (x ∷ xs) [] ic e = cc
  add_inputs-scalars vk_x (x ∷ xs) (y ∷ ys) [] e = refl
  add_inputs-scalars vk_x (x ∷ xs) (y ∷ ys) (point ∷ ic) e =
      let heads : host.fr_from_bytes x ≡ host.fr_from_bytes y = cc in
      let tails : scalars xs ≡ scalars ys = cc in
      rw heads (
        ap
          (λ rest. host.g1_mul point (host.fr_from_bytes y) >>= λ term.
            host.g1_add vk_x term >>= λ sum. rest sum)
          (fun_ext λ sum. add_inputs-scalars sum xs ys ic tails))

  same_length : (xs ys : List Bytes) → scalars xs ≡ scalars ys → length xs ≡ length ys
  same_length xs ys e =
      sym (length-map xs host.fr_from_bytes) ∙ (ap length e ∙ length-map ys host.fr_from_bytes)

  combination-scalars :
      (xs ys ic : List Bytes)
      → scalars xs ≡ scalars ys
      → linear_combination host ic xs ≡ linear_combination host ic ys
  combination-scalars xs ys [] e = refl
  combination-scalars xs ys (first ∷ ic) e = add_inputs-scalars first xs ys ic e

  run_with-scalars :
      (circuit : Option VerifyingKey) (a b c : Bytes) (xs ys : List Bytes)
      → scalars xs ≡ scalars ys
      → run_with host circuit a b c xs ≡ run_with host circuit a b c ys
  unfolding pairing
  run_with-scalars none a b c xs ys e = refl
  run_with-scalars (some vk) a b c xs ys e =
      rw (same_length xs ys e, combination-scalars xs ys vk.ic e)

  run_verification-accepted :
      (id : ℕ) (a b c : Bytes) (xs ys : List Bytes) (r : Registry)
      → scalars xs ≡ scalars ys
      → run_verification host r id a b c xs ≡ some true
      → run_verification host (accepted host id xs r) id a b c ys ≡ some true
  unfolding run_verification
  run_verification-accepted id a b c xs ys r e h =
      sym (run_with-scalars (r.circuit id) a b c xs ys e) ∙ h

  -- When the verification runs and succeeds, the proof is accepted.
  pub verify_proof-run :
      (id : ℕ) (a b c : Bytes) (xs : List Bytes) (r : Registry)
      → is_circuit_active id r ≡ true
      → is_nullifier_used (key_of host id xs) r ≡ false
      → run_verification host r id a b c xs ≡ some true
      → verify_proof host id a b c xs r ≡ some (true, accepted host id xs r)
  unfolding verify_proof
  verify_proof-run id a b c xs r active unused run = rw (active, unused, run)

  -- The verification reads a public input through the scalar that the host makes of its bytes, and the
  -- nullifier is made of the bytes. So a proof that was accepted with some public inputs is accepted
  -- again, at once, with any other bytes for the same scalars, as long as their nullifier is unused.
  pub verify_proof_again :
      (id : ℕ) (a b c : Bytes) (xs ys : List Bytes) (r r' : Registry)
      → verify_proof host id a b c xs r ≡ some (true, r')
      → scalars xs ≡ scalars ys
      → is_nullifier_used (key_of host id ys) r' ≡ false
      → verify_proof host id a b c ys r' ≡ some (true, accepted host id ys r')
  verify_proof_again id a b c xs ys r r' h e unused =
      let settled = verify_proof-Settled host id a b c xs r true r' h in
      let run =
        ap (λ s. run_verification host s id a b c ys) settled.after
        ∙ run_verification-accepted id a b c xs ys r e settled.was_verified in
      let active = ap (λ s. is_circuit_active id s) settled.after ∙ settled.was_active in
      verify_proof-run id a b c ys r' active unused run

  -- The first point of the proof has not 64 bytes, where the circuit is active, the nullifier unused and
  -- the number of public inputs right.
  pub record IsMalformed (item : BatchItem) (vk : VerifyingKey) (r : Registry) : Type 0 where
    pub item_active : is_circuit_active item.id r ≡ true
    pub item_unused : is_nullifier_used (key_of host item.id item.public_inputs) r ≡ false
    pub item_circuit : r.circuit item.id ≡ some vk
    pub item_count : suc (length item.public_inputs) ≡ length vk.ic
    pub item_short : length item.proof_a ≢ 64

  malformed_round :
      (item : BatchItem) (vk : VerifyingKey) (r : Registry)
      → IsMalformed item vk r
      → batch_round host item r ≡ none
  unfolding batch_round run_verification pairing
  malformed_round item vk r m =
      let count : (suc (length item.public_inputs) == length vk.ic) ≡ true =
        (==_iff _ _).1 m.item_count in
      let short : (length item.proof_a == 64) ≡ false = ground arith in
      rw (m.item_active, m.item_unused, m.item_circuit, count, short)

  stopped_behind :
      (before : List BatchItem) (item : BatchItem) (after : List BatchItem) (r r' : Registry)
      (results : List Bool)
      → verify_batch host before r ≡ some (results, r')
      → batch_round host item r' ≡ none
      → verify_batch host (before ++ (item ∷ after)) r ≡ none
  unfolding verify_batch
  stopped_behind [] item after r r' results h stop =
      let e : r ≡ r' = ground arith in
      let here : batch_round host item r ≡ none =
        subst (λ s. batch_round host item s ≡ none) (sym e) stop in
      rw here
  stopped_behind (first ∷ before) item after r r' results h stop =
      let (success, mid, rest, one, others, e) =
        verify_batch-cons host first before r results r' h in
      let round = batch_round-verify_proof host first r ∙ one in
      rw (round, stopped_behind before item after mid r' rest others stop)

  -- A proof with a first point of another length than 64 bytes does not become `false` in the results of
  -- verify_batch: it stops the call, whatever stands before it and behind it in the batch, if its circuit
  -- is active, its nullifier unused and the number of its public inputs right when its turn comes.
  pub verify_batch_malformed :
      (before : List BatchItem) (item : BatchItem) (after : List BatchItem) (vk : VerifyingKey)
      (r r' : Registry) (results : List Bool)
      → verify_batch host before r ≡ some (results, r')
      → IsMalformed item vk r'
      → verify_batch host (before ++ (item ∷ after)) r ≡ none
  verify_batch_malformed before item after vk r r' results h m =
      stopped_behind before item after r r' results h (malformed_round item vk r' m)
