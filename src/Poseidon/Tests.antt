-- ===== src/Poseidon/Tests.antt =====
-- Runs of `poseidon`, over a table of constants that is not circomlib's.
use zkstellar.Prelude.{ℕ, ◌+◌, ◌*◌, ◌≡◌, ◌-◌, map, refl, [], ◌∷◌}
use zkstellar.Text.{pos, negsuc}
use zkstellar.Types.{ok}
use zkstellar.Poseidon.{
  PoseidonConstants, bn254_scalar_modulus, mod_field, poseidon, permutation, add, mul, pow5, mix,
  mix_from, weighted_sum, add_constants, full_round, full_rounds, partial_round, partial_rounds,
  add_multiples,
}
use zkstellar.Poseidon.Field.{IsFieldElement, poseidon-IsFieldElement}

abbrev pub sample_constants : PoseidonConstants
sample_constants = record {
  c = λ t i. i + 1;
  s = λ t i. i + 2;
  m = λ t row column. row + column + 1;
  p = λ t row column. row + 2 * column + 3;
}

abbrev sample_digest : ℕ
sample_digest = 12467519018212984449203206687555810655219797726389214789241997872008822257027

sample_run : poseidon sample_constants (pos 1 ∷ pos 2 ∷ []) ≡ ok (pos sample_digest)
unfolding poseidon permutation add mul pow5 mix mix_from weighted_sum add_constants full_round
    full_rounds partial_round partial_rounds add_multiples mod_field
sample_run = refl

poseidon-IsFieldElement_example : (n : ℕ) × (pos sample_digest ≡ pos n) × IsFieldElement n
poseidon-IsFieldElement_example =
    poseidon-IsFieldElement sample_constants (pos 1 ∷ pos 2 ∷ []) (pos sample_digest) sample_run

same_residues :
    map mod_field (pos 1 ∷ negsuc 0 ∷ [])
    ≡ map mod_field (pos (bn254_scalar_modulus + 1) ∷ pos (bn254_scalar_modulus - 1) ∷ [])
unfolding mod_field
same_residues = refl
