-- ===== src/Poseidon/Field.antt =====
-- The results of the field operations and of `poseidon` are field elements, and `poseidon` sees its
-- inputs up to multiples of the modulus.
use zkstellar.Prelude.{
  ℕ, suc, ◌+◌, ◌%◌, ◌≤◌, ◌<◌, ◌≡◌, refl, ◌∙◌, ap, ◌&&◌, List, [], ◌∷◌, map, length, length-map,
  arith, leb, ◌==◌, not, ◌⊎◌, sym, Bool-cases, inl, inr,
}
use zkstellar.Text.{ℤ, pos, negsuc}
use zkstellar.Types.{invalid_public_input, soroban_zk_error, ok, err}
use zkstellar.Poseidon.{
  bn254_scalar_modulus, PoseidonConstants, mod_field, add, mul, weighted_sum, mix_from, mix,
  permutation, poseidon, first_element,
}

abbrev pub IsFieldElement : ℕ → Type 0
IsFieldElement n = n < bn254_scalar_modulus

-- `mod` returns the least nonnegative residue, of negative numbers too.
mod_field-IsFieldElement : (value : ℤ) → IsFieldElement (mod_field value)
unfolding mod_field
mod_field-IsFieldElement (pos n) = omega arith
mod_field-IsFieldElement (negsuc n) = ground arith

-- A negative number and its residue differ by a multiple of the modulus.
mod_field-negsuc : (n : ℕ) → (mod_field (negsuc n) + n + 1) % bn254_scalar_modulus ≡ 0
unfolding mod_field
mod_field-negsuc n = ground arith

mod_field_reduced : (n : ℕ) → n < bn254_scalar_modulus → mod_field (pos n) ≡ n
unfolding mod_field
mod_field_reduced n h = omega arith

-- Reducing twice is reducing once.
mod_field-mod_field : (value : ℤ) → mod_field (pos (mod_field value)) ≡ mod_field value
mod_field-mod_field value = mod_field_reduced _ (mod_field-IsFieldElement value)

weighted_sum-IsFieldElement :
    (coefficient : ℕ → ℕ) (row acc : ℕ) (vs : List ℕ)
    → IsFieldElement acc
    → IsFieldElement (weighted_sum coefficient row acc vs)
unfolding weighted_sum add
weighted_sum-IsFieldElement coefficient row acc [] h = h
weighted_sum-IsFieldElement coefficient row acc (v ∷ vs) h =
    weighted_sum-IsFieldElement coefficient (suc row) (add acc (mul (coefficient row) v)) vs
      (mod_field-IsFieldElement (pos (acc + mul (coefficient row) v)))

module _ (constants : PoseidonConstants) where
  -- The hash of two nodes.
  pub parent : ℤ → ℤ → ℤ
  parent left right =
      pos (first_element (permutation constants 3 (0 ∷ mod_field left ∷ mod_field right ∷ [])))

  pub poseidon-pair :
      (left right : ℤ) → poseidon constants (left ∷ right ∷ []) ≡ ok (parent left right)
  unfolding poseidon parent
  poseidon-pair left right = refl

  -- The hash of two nodes depends on their residues only.
  parent_congr :
      (a b c d : ℤ)
      → mod_field a ≡ mod_field c
      → mod_field b ≡ mod_field d
      → parent a b ≡ parent c d
  unfolding parent
  parent_congr a b c d p q = rw (p, q)

mix-IsFieldElement :
    (matrix : ℕ → ℕ → ℕ) (state : List ℕ) → IsFieldElement (first_element (mix matrix state))
unfolding mix mix_from
mix-IsFieldElement matrix [] = omega arith
mix-IsFieldElement matrix (v ∷ vs) =
    weighted_sum-IsFieldElement (λ row. matrix row 0) 0 0 (v ∷ vs) (omega arith)

-- A node above others is its own residue.
pub mod_field-parent :
    (k : PoseidonConstants) (a b : ℤ) → pos (mod_field (parent k a b)) ≡ parent k a b
unfolding parent permutation
mod_field-parent k a b = ap pos (mod_field_reduced _ (mix-IsFieldElement _ _))

-- The number that `poseidon` returns.
pub digest_of : PoseidonConstants → List ℤ → ℕ
digest_of constants inputs =
    first_element
      (permutation constants (length (map mod_field inputs) + 1) (0 ∷ map mod_field inputs))

pub digest_of-IsFieldElement :
    (constants : PoseidonConstants) (inputs : List ℤ) → IsFieldElement (digest_of constants inputs)
unfolding digest_of permutation
digest_of-IsFieldElement constants inputs = mix-IsFieldElement _ _

-- Either the number of inputs is right and there is a digest, or the call is refused.
poseidon_cases :
    (constants : PoseidonConstants) (inputs : List ℤ)
    → ((0 < length inputs)
        × (length inputs ≤ 16)
        × (poseidon constants inputs ≡ ok (pos (digest_of constants inputs))))
      ⊎ (((length inputs ≡ 0) ⊎ (16 < length inputs))
          × (poseidon constants inputs ≡ err (soroban_zk_error invalid_public_input)))
unfolding poseidon digest_of
poseidon_cases constants inputs =
    elim (Bool-cases (not (length inputs == 0) && leb (length inputs) 16)) [
      | inl fits ↦ inl (ground arith, ground arith, rw fits)
      | inr wrong ↦ inr (ground arith, rw wrong)
    ]

pub poseidon-digest_of :
    (constants : PoseidonConstants) (inputs : List ℤ)
    → 0 < length inputs
    → length inputs ≤ 16
    → poseidon constants inputs ≡ ok (pos (digest_of constants inputs))
poseidon-digest_of constants inputs p q = elim (poseidon_cases constants inputs) [
  | inl (a, b, e) ↦ e
  | inr (inl a, e) ↦ absurd (omega arith)
  | inr (inr a, e) ↦ absurd (omega arith)
]

-- Whatever poseidon returns, on any table of constants, is a nonnegative bigint below the modulus of
-- the scalar field.
pub poseidon-IsFieldElement :
    (constants : PoseidonConstants) (inputs : List ℤ) (digest : ℤ)
    → poseidon constants inputs ≡ ok digest
    → (n : ℕ) × (digest ≡ pos n) × IsFieldElement n
poseidon-IsFieldElement constants inputs digest h = elim (poseidon_cases constants inputs) [
  | inl (p, q, e) ↦
      (digest_of constants inputs, cc (h, e), digest_of-IsFieldElement constants inputs)
  | inr (p, e) ↦ absurd (cc (h, e))
]

-- poseidon accepts 1 to 16 inputs and rejects any other number of them with INVALID_PUBLIC_INPUT.
pub poseidon_arity :
    (constants : PoseidonConstants) (inputs : List ℤ)
    → ((0 < length inputs)
        × (length inputs ≤ 16)
        × ((digest : ℤ) × (poseidon constants inputs ≡ ok digest)))
      ⊎ (((length inputs ≡ 0) ⊎ (16 < length inputs))
          × (poseidon constants inputs ≡ err (soroban_zk_error invalid_public_input)))
poseidon_arity constants inputs = elim (poseidon_cases constants inputs) [
  | inl (p, q, e) ↦ inl (p, q, (pos (digest_of constants inputs), e))
  | inr r ↦ inr r
]

-- Inputs that agree modulo the modulus of the scalar field, one by one, have the same hash: an input
-- and its sum with the modulus are not told apart.
poseidon_congr :
    (constants : PoseidonConstants) (xs ys : List ℤ)
    → map mod_field xs ≡ map mod_field ys
    → poseidon constants xs ≡ poseidon constants ys
unfolding poseidon
poseidon_congr constants xs ys h =
    let lengths : length xs ≡ length ys =
      sym (length-map xs mod_field) ∙ ap length h ∙ length-map ys mod_field in
    rw (h, lengths)
