-- ===== src/Nullifier/Tests.antt =====
-- Runs of the nullifier, over a function that stands for SHA-256.
use zkstellar.Prelude.{ℕ, ◌≡◌, ◌⊎◌, refl, List, [], ◌∷◌, ◌++◌, replicate, take}
use zkstellar.Text.{pos, all_digits, is_digit}
use zkstellar.Types.{ok}
use zkstellar.Js.{Js, int, buffer, array, items, as_array}
use zkstellar.Bytes.{hex_decode}
use zkstellar.Nullifier.{
  nullifier_from_hex, compute_nullifier, compute_inputs_hash, concat_inputs, be_4,
}
use zkstellar.Nullifier.Binding.{Collides, IsNullifierOf, compute_nullifier_binding}

abbrev sample_bytes : List ℕ
sample_bytes = replicate 32 171

sample_text : nullifier_from_hex (replicate 64 b'a') ≡ ok (replicate 32 170)
unfolding nullifier_from_hex all_digits is_digit hex_decode
sample_text = refl

-- It keeps the first 32 bytes.
abbrev toy_hash : List ℕ → List ℕ
toy_hash bytes = take 32 bytes

abbrev sample_inputs : Js
sample_inputs = array (items (buffer (replicate 32 1) ∷ buffer (replicate 32 2) ∷ []))

abbrev other_inputs : Js
other_inputs = array (items (buffer (replicate 32 1) ∷ buffer (replicate 32 9) ∷ []))

sample_nullifier :
    compute_nullifier toy_hash (int (pos 3)) sample_inputs ≡ ok (0 ∷ 0 ∷ 0 ∷ 3 ∷ replicate 28 1)
unfolding compute_nullifier compute_inputs_hash concat_inputs be_4
sample_nullifier = refl

other_nullifier :
    compute_nullifier toy_hash (int (pos 3)) other_inputs ≡ ok (0 ∷ 0 ∷ 0 ∷ 3 ∷ replicate 28 1)
unfolding compute_nullifier compute_inputs_hash concat_inputs be_4
other_nullifier = refl

compute_nullifier_binding_example :
    (a : IsNullifierOf toy_hash (int (pos 3)) sample_inputs (0 ∷ 0 ∷ 0 ∷ 3 ∷ replicate 28 1))
    × (b : IsNullifierOf toy_hash (int (pos 3)) other_inputs (0 ∷ 0 ∷ 0 ∷ 3 ∷ replicate 28 1))
    × (((int (pos 3) ≡ int (pos 3)) × (as_array sample_inputs ≡ as_array other_inputs))
        ⊎ (Collides toy_hash (be_4 a.circuit ++ toy_hash a.text) (be_4 b.circuit ++ toy_hash b.text)
            ⊎ Collides toy_hash a.text b.text))
compute_nullifier_binding_example =
    compute_nullifier_binding toy_hash (int (pos 3)) (int (pos 3)) sample_inputs other_inputs
      (0 ∷ 0 ∷ 0 ∷ 3 ∷ replicate 28 1) sample_nullifier other_nullifier
