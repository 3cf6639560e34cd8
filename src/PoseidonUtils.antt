-- ===== src/PoseidonUtils.antt =====
-- sdk/src/poseidonUtils.ts: longer inputs, domain tags and commitments on top of `poseidon`.
pub mod Batch
pub mod Tests
use zkstellar.Prelude.{
  ℕ, zero, suc, ◌+◌, Bool, true, false, List, [], ◌∷◌, Option, none, some, length, take, drop, leb,
  ltb, ◌==◌, not, if◌then◌else◌,
}
use zkstellar.Text.{ℤ}
use zkstellar.Types.{
  invalid_public_input, Failure, soroban_zk_error, Result, ok, err, ◌>>=◌, ◌>>◌, guard,
}
use zkstellar.Poseidon.{PoseidonConstants, poseidon}

abbrev max_arity : ℕ
max_arity = 16

abbrev utils_failure : Failure
utils_failure = soroban_zk_error invalid_public_input

-- `inputs.slice(i, i + MAX_ARITY)` for `i` from 0 in steps of 16; the first number is fuel.
pub chunks : ℕ → List ℤ → List (List ℤ)
chunks zero inputs = []
chunks (suc fuel) [] = []
chunks (suc fuel) (x ∷ xs) = take max_arity (x ∷ xs) ∷ chunks fuel (drop max_arity (x ∷ xs))

pub record IdentityCommitment : Type 0 where
  pub inner : ℤ
  pub outer : ℤ

module _ (constants : PoseidonConstants) where
  pub hash_chunks : List (List ℤ) → Result (List ℤ)
  hash_chunks [] = ok []
  hash_chunks (c ∷ cs) = do
    digest ← poseidon constants c
    digests ← hash_chunks cs
    ok (digest ∷ digests)

  -- The digests that the loop of `poseidonBatch` pushes. Each chunk takes one input at least.
  pub chunk_digests : List ℤ → Result (List ℤ)
  chunk_digests inputs = hash_chunks (chunks (length inputs) inputs)

  -- `poseidonBatch` with fuel; `none` means that it ran out.
  pub batch : ℕ → List ℤ → Option (Result ℤ)
  batch zero inputs = none
  batch (suc fuel) inputs =
      if length inputs == 0
      then some (err utils_failure)
      else if leb (length inputs) max_arity
      then some (poseidon constants inputs)
      else elim (chunk_digests inputs) [ err e ↦ some (err e) | ok digests ↦ batch fuel digests ]

  -- A list of digests is shorter than what it was made of, so its length is fuel enough.
  pub poseidon_batch : List ℤ → Option (Result ℤ)
  poseidon_batch inputs = batch (length inputs + 1) inputs

  pub domain_separated_hash : ℤ → List ℤ → Result ℤ
  domain_separated_hash domain_tag inputs = do
    guard (not (length inputs == 0)) utils_failure
    guard (leb (1 + length inputs) max_arity) utils_failure
    poseidon constants (domain_tag ∷ inputs)

  unfoldable pub poseidon_commit : ℤ → Result ℤ
  poseidon_commit secret = poseidon constants (secret ∷ [])

  unfoldable pub poseidon_commit_double : ℤ → Result IdentityCommitment
  poseidon_commit_double secret = do
    inner ← poseidon constants (secret ∷ [])
    outer ← poseidon constants (inner ∷ [])
    ok (record { inner = inner; outer = outer })
