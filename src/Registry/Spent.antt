-- ===== src/Registry/Spent.antt =====
-- What the registry promises, without hashes: each pair of a circuit and public inputs is accepted once.
use zkstellar.Prelude.{
  ℕ, ◌≡◌, ◌≢◌, ◌⊎◌, inl, inr, refl, ◌∙◌, ap, Bool, true, false, List, [], ◌∷◌, map, Option, none,
  some, not, ◌||◌, if◌then◌else◌, ℕ_discrete, Bool-cases,
}
use zkstellar.Text.{text_eq}
use zkstellar.Text.Equality.{text_eq_iff}
use zkstellar.Contract.{Bytes, Host, ◌>>=◌, has_bytes}
use zkstellar.Registry.{
  Registry, is_circuit_active, is_nullifier_used, run_verification, verify_proof, publish, burn,
}
use zkstellar.Registry.Outcome.{key_of}

abbrev pub Pair : Type 0
Pair = ℕ × List Bytes

pair_discrete : Discrete Pair
pair_discrete = hlevel ℕ_discrete

abbrev same_pair : Pair → Pair → Bool
same_pair p q = elim (pair_discrete p q) [ yes e ↦ true | no e ↦ false ]

spends : Pair → List Pair → Bool
spends p [] = false
spends p (q ∷ spent) = same_pair q p || spends p spent

-- The specification: whether the circuit is active, and what the verification of the proof comes to, are
-- given; the state is the list of the pairs that were accepted.
pub verify_spec : Bool → Option Bool → Pair → List Pair → Option (Bool × List Pair)
unfolding spends
verify_spec active run pair spent =
    if not active
    then some (false, spent)
    else if spends pair spent
    then some (false, spent)
    else run >>= λ success. some (success, if success then pair ∷ spent else spent)

module _ (host : Host) where
  abbrev pub key : Pair → Bytes
  key (id, public_inputs) = key_of host id public_inputs

  -- The nullifiers in the storage are those of the spent pairs.
  abbrev pub Represents : List Pair → Registry → Type 0
  Represents spent r = r.nullifiers ≡ map key spent

  -- Another pair among the spent ones with the same nullifier.
  pub Clashes : Pair → List Pair → Type 0
  Clashes p [] = ⊥
  Clashes p (q ∷ spent) = ((q ≢ p) × (key q ≡ key p)) ⊎ Clashes p spent

  spends-key-step :
      (p q : Pair) (spent : List Pair) (decided : Dec (q ≡ p))
      → Clashes p spent ⊎ (has_bytes (key p) (map key spent) ≡ spends p spent)
      → (((q ≢ p) × (key q ≡ key p)) ⊎ Clashes p spent)
        ⊎ ((text_eq (key q) (key p) || has_bytes (key p) (map key spent))
            ≡ (elim decided [ yes e ↦ true | no e ↦ false ] || spends p spent))
  spends-key-step p q spent (yes e) ih =
      let same : text_eq (key q) (key p) ≡ true = (text_eq_iff (key q) (key p)).1 (ap key e) in
      inr (rw same)
  spends-key-step p q spent (no e) ih = elim (Bool-cases (text_eq (key q) (key p))) [
    | inl same ↦ inl (inl (e, (text_eq_iff (key q) (key p)).0 same))
    | inr differ ↦ elim ih [ inl clash ↦ inl (inr clash) | inr found ↦ inr (rw differ found) ]
  ]

  spends-key :
      (p : Pair) (spent : List Pair)
      → Clashes p spent ⊎ (has_bytes (key p) (map key spent) ≡ spends p spent)
  unfolding Clashes spends has_bytes
  spends-key p [] = inr refl
  spends-key p (q ∷ spent) = spends-key-step p q spent (pair_discrete q p) (spends-key p spent)

  -- The results of the two, with the states that represent one another.
  abbrev pub Agree : Option (Bool × List Pair) → Option (Bool × Registry) → Type 0
  Agree none none = Unit
  Agree (some (b, spent)) (some (success, r)) = (b ≡ success) × Represents spent r
  Agree _ _ = ⊥

  abbrev publish_pair : Bool → Bytes → Bytes → Registry → Bool × Registry
  publish_pair success hash nullifier r =
      (success, publish host success hash (burn host success nullifier r))

  Agree-run :
      (run : Option Bool) (id : ℕ) (xs : List Bytes) (spent : List Pair) (r : Registry)
      (hash : Bytes)
      → Represents spent r
      → Agree
          (run >>= λ success. some (success, if success then (id, xs) ∷ spent else spent))
          (run >>= λ success. some (publish_pair success hash (key_of host id xs) r))
  Agree-run none id xs spent r hash h = tt
  Agree-run (some false) id xs spent r hash h = (refl, h)
  Agree-run (some true) id xs spent r hash h = (refl, ap (λ keys. key_of host id xs ∷ keys) h)

  -- verify_proof does what the specification says, as long as no pair that was accepted before differs
  -- from this one and has its nullifier: with an active circuit it accepts a pair that has not been
  -- accepted, if the verification of the proof succeeds, and the nullifiers in the new state are those of
  -- the pairs accepted so far; all else it refuses, or both stop.
  pub verify_proof_refines :
      (id : ℕ) (a b c : Bytes) (xs : List Bytes) (spent : List Pair) (r : Registry)
      → Represents spent r
      → Clashes (id, xs) spent
        ⊎ Agree
            (verify_spec
              (is_circuit_active id r)
              (run_verification host r id a b c xs)
              (id, xs)
              spent)
            (verify_proof host id a b c xs r)
  unfolding verify_spec verify_proof
  verify_proof_refines id a b c xs spent r h = elim (spends-key (id, xs) spent) [
    | inl clash ↦ inl clash
    | inr same ↦
        let found : is_nullifier_used (key_of host id xs) r ≡ spends (id, xs) spent =
          ap (has_bytes (key_of host id xs)) h ∙ same in
        inr (elim (Bool-cases (is_circuit_active id r)) [
          | inr inactive ↦ rw inactive (refl, h)
          | inl active ↦ elim (Bool-cases (spends (id, xs) spent)) [
            | inl spent_before ↦ rw (active, found, spent_before) (refl, h)
            | inr unspent ↦
                rw (active, found, unspent)
                  (Agree-run (run_verification host r id a b c xs) id xs spent r _ h)
          ]
        ])
  ]
