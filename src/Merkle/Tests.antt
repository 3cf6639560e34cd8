-- ===== src/Merkle/Tests.antt =====
-- Runs of the Merkle trees, at depth 2.
use zkstellar.Prelude.{◌^◌, ◌≡◌, ◌⊎◌, List, [], ◌∷◌, map, get_elem?, some, arith}
use zkstellar.Text.{ℤ, pos}
use zkstellar.Types.{ok}
use zkstellar.Js.{int}
use zkstellar.Poseidon.{mod_field}
use zkstellar.Poseidon.Tests.{sample_constants}
use zkstellar.Merkle.{
  MerkleTree, MerkleProof, build_merkle_tree, build_merkle_proof, pad, climb, indices_from,
}
use zkstellar.Merkle.Layers.{IsTree, build_merkle_tree-IsTree}
use zkstellar.Merkle.Inclusion.{build_merkle_proof_complete, honest_path}
use zkstellar.Merkle.Binding.{Collides, merkle_proof_binding}

abbrev three_leaves : List ℤ
three_leaves = pos 11 ∷ pos 12 ∷ pos 13 ∷ []

build_merkle_tree-IsTree_example :
    (tree : MerkleTree) × (build_merkle_tree sample_constants 2 three_leaves ≡ ok tree)
    × IsTree sample_constants 2 (pad (2 ^ 2) three_leaves) tree
build_merkle_tree-IsTree_example =
    build_merkle_tree-IsTree sample_constants 2 three_leaves (omega arith) (omega arith)

-- The same run, to build on.
small_run :
    (tree : MerkleTree) × (build_merkle_tree sample_constants 2 three_leaves ≡ ok tree)
    × IsTree sample_constants 2 (pad (2 ^ 2) three_leaves) tree
small_run = build_merkle_tree-IsTree sample_constants 2 three_leaves (omega arith) (omega arith)

build_merkle_proof_complete_example :
    (proof : MerkleProof) × (leaf : ℤ) × (es : List ℤ) × (build_merkle_proof 2 small_run.0
        (int (pos 2))
      ≡ ok proof)
    × (get_elem? (pad (2 ^ 2) three_leaves) 2 ≡ some leaf)
    × (proof.leaf ≡ some leaf)
    × (proof.path_elements ≡ map some es)
    × (climb sample_constants leaf es proof.path_indices ≡ some proof.root)
    × (proof.root ≡ small_run.0.root)
build_merkle_proof_complete_example =
    build_merkle_proof_complete sample_constants 2 2 (pad (2 ^ 2) three_leaves) small_run.0
      small_run.2 (omega arith)

-- The claimed leaf is the third, behind the elements of an honest path.
third :
    (leaf : ℤ) × (es : List ℤ) × (get_elem? (pad (2 ^ 2) three_leaves) 2 ≡ some leaf)
    × (climb sample_constants leaf es (indices_from 2 2) ≡ some small_run.0.root)
third =
    honest_path sample_constants 2 2 (pad (2 ^ 2) three_leaves) small_run.0 small_run.2
      (omega arith)

merkle_proof_binding_example :
    (leaf : ℤ) × (es : List ℤ) × (get_elem? (pad (2 ^ 2) three_leaves) 2 ≡ some leaf)
    × (climb sample_constants leaf es (indices_from 2 2) ≡ some small_run.0.root)
    × ((mod_field leaf ≡ mod_field third.0)
        ⊎ Collides sample_constants leaf es third.0 third.1 (indices_from 2 2))
merkle_proof_binding_example =
    merkle_proof_binding sample_constants 2 2 (pad (2 ^ 2) three_leaves) small_run.0 small_run.2
      (omega arith) third.0 third.1 third.3
