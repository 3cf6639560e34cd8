-- ===== src/PoseidonUtils/Batch.antt =====
-- `poseidonBatch` ends, and what its recursion means for long inputs.
use zkstellar.Prelude.{
  ℕ, zero, suc, ◌+◌, ◌≤◌, ◌<◌, ◌≡◌, refl, ◌∙◌, sym, ap, true, false, List, [], ◌∷◌, some, length,
  take, drop, length-take, length-drop, leb, ◌==◌, not, arith, Bool-cases, inl, inr, ◌⊎◌, ◌*◌, ◌&&◌,
}
use zkstellar.Text.{ℤ, pos}
use zkstellar.Types.{invalid_public_input, soroban_zk_error, ok, err}
use zkstellar.Poseidon.{PoseidonConstants}
use zkstellar.Poseidon.Field.{
  digest_of, poseidon-digest_of, IsFieldElement, digest_of-IsFieldElement,
}
use native.Mathlib.Numerals.{add-one}
use zkstellar.PoseidonUtils.{
  chunks, hash_chunks, chunk_digests, batch, poseidon_batch, domain_separated_hash,
}

module _ (k : PoseidonConstants) where
  -- Each chunk has a digest, and there is one digest for every sixteen inputs begun.
  hash_chunks-chunks :
      (fuel : ℕ) (inputs : List ℤ)
      → length inputs ≤ fuel
      → (ds : List ℤ) × (hash_chunks k (chunks fuel inputs) ≡ ok ds)
        × (length ds + length ds ≤ length inputs + 1)
        × (length inputs ≤ length ds * 16)
  unfolding hash_chunks chunks
  hash_chunks-chunks zero [] h = ([], refl, omega arith, omega arith)
  hash_chunks-chunks zero (x ∷ xs) h = absurd (omega arith)
  hash_chunks-chunks (suc fuel) [] h = ([], refl, omega arith, omega arith)
  hash_chunks-chunks (suc fuel) (x ∷ xs) h =
      let dropped = length-drop 16 (x ∷ xs) in
      let taken = length-take 16 (x ∷ xs) in
      let (ds, e, small, enough) =
        hash_chunks-chunks fuel (drop 16 (x ∷ xs)) (omega (arith, dropped)) in
      (
        pos (digest_of k (take 16 (x ∷ xs))) ∷ ds,
        rw (
          poseidon-digest_of k (take 16 (x ∷ xs)) (omega (arith, taken)) (omega (arith, taken)),
          e,
        ),
        omega (arith, dropped),
        omega (arith, dropped),
      )

  -- The digests of a list of more than sixteen are fewer, and more than one.
  chunk_digests_shrink :
      (inputs : List ℤ)
      → 16 < length inputs
      → (ds : List ℤ) × (chunk_digests k inputs ≡ ok ds)
        × (1 < length ds)
        × (length ds < length inputs)
  unfolding chunk_digests
  chunk_digests_shrink inputs h =
      let (ds, e, small, enough) = hash_chunks-chunks (length inputs) inputs (omega arith) in
      (ds, e, omega arith, omega arith)

  batch_short :
      (fuel : ℕ) (inputs : List ℤ)
      → 0 < length inputs
      → length inputs ≤ 16
      → batch k (suc fuel) inputs ≡ some (ok (pos (digest_of k inputs)))
  unfolding batch
  batch_short fuel inputs p q =
      let nonempty : (length inputs == 0) ≡ false = ground arith in
      let fits : leb (length inputs) 16 ≡ true = ground arith in
      rw (nonempty, fits, poseidon-digest_of k inputs p q)

  batch_long :
      (fuel : ℕ) (inputs : List ℤ) {ds : List ℤ}
      → 16 < length inputs
      → chunk_digests k inputs ≡ ok ds
      → batch k (suc fuel) inputs ≡ batch k fuel ds
  unfolding batch
  batch_long fuel inputs h e =
      let nonempty : (length inputs == 0) ≡ false = ground arith in
      let long : leb (length inputs) 16 ≡ false = ground arith in rw (nonempty, long, e)

  -- Fuel above the length is enough, and more of it changes nothing.
  batch_enough :
      (fuel more : ℕ) (inputs : List ℤ)
      → 0 < length inputs
      → length inputs < fuel
      → length inputs < more
      → (n : ℕ) × (batch k fuel inputs ≡ some (ok (pos n)))
        × (batch k more inputs ≡ some (ok (pos n)))
        × IsFieldElement n
  batch_enough zero more inputs p q r = absurd (omega arith)
  batch_enough (suc fuel) zero inputs p q r = absurd (omega arith)
  batch_enough (suc fuel) (suc more) inputs p q r = elim (Bool-cases (leb (length inputs) 16)) [
    | inl short ↦
        let s : length inputs ≤ 16 = ground arith in
        (
          digest_of k inputs,
          batch_short fuel inputs p s,
          batch_short more inputs p s,
          digest_of-IsFieldElement k inputs,
        )
    | inr long ↦
        let l : 16 < length inputs = ground arith in
        let (ds, e, two, fewer) = chunk_digests_shrink inputs l in
        let (n, a, b, c) = batch_enough fuel more ds (omega arith) (omega arith) (omega arith) in
        (n, batch_long fuel inputs l e ∙ a, batch_long more inputs l e ∙ b, c)
  ]

-- poseidonBatch ends on every nonempty list of bigints, however long, and returns a nonnegative bigint
-- below the modulus.
pub poseidon_batch_total :
    (k : PoseidonConstants) (inputs : List ℤ)
    → 0 < length inputs
    → (n : ℕ) × (poseidon_batch k inputs ≡ some (ok (pos n))) × IsFieldElement n
unfolding poseidon_batch
poseidon_batch_total k inputs h =
    let (n, a, b, c) =
      batch_enough k (length inputs + 1) (length inputs + 1) inputs h (omega arith) (omega arith) in
    (n, a, c)

-- A list of more than sixteen inputs has the hash of a shorter list, of two elements or more: the list
-- of the digests of its chunks. So poseidonBatch does not bind the length of its input.
pub poseidon_batch_shorter :
    (k : PoseidonConstants) (inputs : List ℤ)
    → 16 < length inputs
    → (digests : List ℤ) × (chunk_digests k inputs ≡ ok digests)
      × (1 < length digests)
      × (length digests < length inputs)
      × (poseidon_batch k inputs ≡ poseidon_batch k digests)
unfolding poseidon_batch
poseidon_batch_shorter k inputs h =
    let (ds, e, two, fewer) = chunk_digests_shrink k inputs h in
    let (n, a, b, c) =
      batch_enough k (length inputs) (length ds + 1) ds (omega arith) (omega arith) (omega arith) in
    (ds, e, two, fewer, rw add-one (batch_long k (length inputs) inputs h e) ∙ a ∙ sym b)

-- domainSeparatedHash accepts 1 to 15 inputs, where it is the batch hash of the tag and the inputs, and
-- rejects any other number of them with INVALID_PUBLIC_INPUT.
pub domain_separated_hash_lem :
    (k : PoseidonConstants) (tag : ℤ) (inputs : List ℤ)
    → ((0 < length inputs)
        × (length inputs ≤ 15)
        × (some (domain_separated_hash k tag inputs) ≡ poseidon_batch k (tag ∷ inputs)))
      ⊎ (((length inputs ≡ 0) ⊎ (15 < length inputs))
          × (domain_separated_hash k tag inputs ≡ err (soroban_zk_error invalid_public_input)))
unfolding domain_separated_hash poseidon_batch
domain_separated_hash_lem k tag inputs =
    elim (Bool-cases (not (length inputs == 0) && leb (1 + length inputs) 16)) [
      | inl fits ↦
          let l : length inputs ≤ 15 = ground arith in
          let s : 0 < length inputs = ground arith in
          let nonempty : (length inputs == 0) ≡ false = ground arith in
          let room : leb (1 + length inputs) 16 ≡ true = ground arith in
          inl (
            s,
            l,
            rw (nonempty, room, add-one)
                (ap some (poseidon-digest_of k (tag ∷ inputs) (omega arith) (omega arith))
                  ∙ sym (
                      batch_short k (suc (length inputs)) (tag ∷ inputs) (omega arith)
                        (omega arith))),
          )
      | inr wrong ↦ inr (ground arith, ground arith)
    ]
