-- ===== src/Merkle/Layers.antt =====
-- The layers of a tree, without the failures that a full tree does not meet.
use zkstellar.Prelude.{
  ℕ, zero, suc, ◌+◌, ◌-◌, ◌^◌, ◌≤◌, ◌<◌, ◌≡◌, refl, ◌∙◌, ap, true, false, List, [], ◌∷◌, length,
  replicate, length-append, length-replicate, leb, ◌==◌, arith,
}
use zkstellar.Text.{ℤ}
use zkstellar.Types.{ok}
use zkstellar.Poseidon.{PoseidonConstants}
use zkstellar.Poseidon.Field.{parent, poseidon-pair}
use zkstellar.Merkle.{
  MerkleTree, pad, merkle_zero_leaf, next_layer, layers_above, last_layer, build_merkle_tree,
  tree_over,
}
use native.Mathlib.Nat.{two-pow-succ}

module _ (k : PoseidonConstants) where
  abbrev pub parents : List ℤ → List ℤ
  parents [] = []
  parents (left ∷ []) = []
  parents (left ∷ right ∷ nodes) = parent k left right ∷ parents nodes

  abbrev pub layers_of : ℕ → List ℤ → List (List ℤ)
  layers_of zero current = []
  layers_of (suc depth) current = parents current ∷ layers_of depth (parents current)

  next_layer-parents :
      (m : ℕ) (nodes : List ℤ)
      → length nodes ≡ m + m
      → (next_layer k nodes ≡ ok (parents nodes)) × (length (parents nodes) ≡ m)
  unfolding next_layer
  next_layer-parents m [] h = (refl, omega arith)
  next_layer-parents m (left ∷ []) h = absurd (omega arith)
  next_layer-parents zero (left ∷ right ∷ nodes) h = absurd (omega arith)
  next_layer-parents (suc m) (left ∷ right ∷ nodes) h =
      let (same, len) = next_layer-parents m nodes (omega arith) in
      (rw (poseidon-pair k left right, same), ap suc len)

double_pow : (depth : ℕ) → 2 ^ suc depth ≡ 2 ^ depth + 2 ^ depth
double_pow depth = two-pow-succ depth

module _ (k : PoseidonConstants) where
  pub length-parents :
      (depth : ℕ) (nodes : List ℤ)
      → length nodes ≡ 2 ^ suc depth
      → length (parents k nodes) ≡ 2 ^ depth
  length-parents depth nodes h = (next_layer-parents k (2 ^ depth) nodes (h ∙ double_pow depth)).1

  layers_above-layers_of :
      (depth : ℕ) (current : List ℤ)
      → length current ≡ 2 ^ depth
      → layers_above k depth current ≡ ok (layers_of k depth current)
  unfolding layers_above
  layers_above-layers_of zero current h = refl
  layers_above-layers_of (suc depth) current h =
      let (same, len) = next_layer-parents k (2 ^ depth) current (h ∙ double_pow depth) in
      rw (same, layers_above-layers_of depth (parents k current) len)

  -- The last layer holds one node.
  top_node :
      (depth : ℕ) (current : List ℤ)
      → length current ≡ 2 ^ depth
      → (n : ℤ) × (last_layer current (layers_of k depth current) ≡ n ∷ [])
  top_node zero [] h = absurd (omega arith)
  top_node zero (n ∷ []) h = (n, refl)
  top_node zero (n ∷ m ∷ ns) h = absurd (omega arith)
  top_node (suc depth) current h =
      top_node depth (parents k current) (length-parents depth current h)

length-pad :
    (width : ℕ) (leaves : List ℤ) → length leaves ≤ width → length (pad width leaves) ≡ width
length-pad width leaves h =
    length-append leaves (replicate (width - length leaves) merkle_zero_leaf)
    ∙ omega (arith, length-replicate (width - length leaves) merkle_zero_leaf)

-- A tree over `padded`, whose layers are hashed pairwise up to the root.
pub record IsTree (k : PoseidonConstants) (depth : ℕ) (padded : List ℤ) (tree : MerkleTree)
    : Type 0 where
  pub tree_width : length padded ≡ 2 ^ depth
  pub tree_leaves : tree.leaves ≡ padded
  pub tree_layers : tree.layers ≡ padded ∷ layers_of k depth padded
  pub tree_root : last_layer padded (layers_of k depth padded) ≡ tree.root ∷ []

-- buildMerkleTree succeeds on 1 to 2^depth leaves, and its layers are the padded leaves and, above
-- each layer, the hashes of its pairs, up to a layer that holds the root alone.
pub build_merkle_tree-IsTree :
    (k : PoseidonConstants) (depth : ℕ) (leaves : List ℤ)
    → 0 < length leaves
    → length leaves ≤ 2 ^ depth
    → (tree : MerkleTree) × (build_merkle_tree k depth leaves ≡ ok tree)
      × IsTree k depth (pad (2 ^ depth) leaves) tree
unfolding build_merkle_tree tree_over
build_merkle_tree-IsTree k depth leaves some_leaf fits =
    let padded = pad (2 ^ depth) leaves in
    let width = length-pad (2 ^ depth) leaves fits in
    let (n, top) = top_node k depth padded width in
    let nonempty : (length leaves == 0) ≡ false = ground arith in
    let bounded : leb (length leaves) (2 ^ depth) ≡ true = ground arith in
    (
      record { root = n; leaves = padded; layers = padded ∷ layers_of k depth padded },
      rw (nonempty, bounded, layers_above-layers_of k depth padded width, top),
      record { tree_width = width; tree_leaves = refl; tree_layers = refl; tree_root = top },
    )
