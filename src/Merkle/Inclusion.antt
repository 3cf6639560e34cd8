-- ===== src/Merkle/Inclusion.antt =====
-- An inclusion proof of a tree leads from its leaf to the root.
use zkstellar.Prelude.{
  ℕ, zero, suc, ◌+◌, ◌/◌, ◌%◌, ◌^◌, ◌<◌, ◌≡◌, refl, ◌∙◌, true, List, [], ◌∷◌, map, some, length,
  get_elem?, get_elem?_in_range, lt→ltb, ◌==◌, Bool-cases, inl, inr, arith, if◌then◌else◌,
}
use zkstellar.Text.{ℤ, pos}
use zkstellar.Types.{ok}
use zkstellar.Js.{int}
use zkstellar.Poseidon.{PoseidonConstants}
use zkstellar.Poseidon.Field.{parent}
use zkstellar.Merkle.{
  MerkleTree, MerkleProof, last_layer, sibling_index, path_from, indices_from, build_merkle_proof,
  climb,
}
use zkstellar.Merkle.Layers.{parents, layers_of, length-parents, IsTree}
use native.Mathlib.Nat.{two-pow-succ}

sibling_step : (i : ℕ) → sibling_index (suc (suc i)) ≡ suc (suc (sibling_index i))
sibling_step i = ground arith

half_step : (i : ℕ) → suc (suc i) / 2 ≡ suc (i / 2)
half_step i = omega arith

parity_step : (i : ℕ) → suc (suc i) % 2 ≡ i % 2
parity_step i = omega arith

module _ (k : PoseidonConstants) where
  -- The parent of a node and its sibling, in the order of their positions.
  abbrev joined : ℕ → ℤ → ℤ → ℤ
  joined bit node sibling = if bit == 1 then parent k sibling node else parent k node sibling

  sibling_and_parent :
      (m i : ℕ) (nodes : List ℤ) (x : ℤ)
      → length nodes ≡ m + m
      → get_elem? nodes i ≡ some x
      → (y : ℤ) × (get_elem? nodes (sibling_index i) ≡ some y)
        × (get_elem? (parents k nodes) (i / 2) ≡ some (joined (i % 2) x y))
  sibling_and_parent m i [] x h e = cc
  sibling_and_parent m i (left ∷ []) x h e = absurd (omega arith)
  sibling_and_parent m zero (left ∷ right ∷ nodes) x h e = (right, refl, ground arith)
  sibling_and_parent m (suc zero) (left ∷ right ∷ nodes) x h e = (left, refl, ground arith)
  sibling_and_parent zero (suc (suc i)) (left ∷ right ∷ nodes) x h e = absurd (omega arith)
  sibling_and_parent (suc m) (suc (suc i)) (left ∷ right ∷ nodes) x h e =
      let (y, s, p) = sibling_and_parent m i nodes x (omega arith) e in
      (y, rw (sibling_step i) s, rw (half_step i, parity_step i) p)

  climb_step :
      (i : ℕ) (x y : ℤ) (es : List ℤ) (bits : List ℕ)
      → climb k x (y ∷ es) (i % 2 ∷ bits) ≡ climb k (joined (i % 2) x y) es bits
  unfolding climb
  climb_step i x y es bits = elim (Bool-cases (i % 2 == 1)) [
    | inl odd ↦ rw odd
    | inr even ↦ let zero_bit : (i % 2 == 0) ≡ true = ground arith in rw (even, zero_bit)
  ]

  only_node :
      (i : ℕ) (nodes : List ℤ) (x top : ℤ)
      → get_elem? nodes i ≡ some x
      → nodes ≡ top ∷ []
      → some x ≡ some top
  only_node zero [] x top e t = cc
  only_node zero (n ∷ ns) x top e t = cc
  only_node (suc i) [] x top e t = cc
  only_node (suc i) (n ∷ []) x top e t = cc
  only_node (suc i) (n ∷ m ∷ ns) x top e t = cc

  -- The path through the layers above, for a node at a position of the lowest.
  path_leads_to_top :
      (depth i : ℕ) (nodes : List ℤ) (x top : ℤ)
      → length nodes ≡ 2 ^ depth
      → get_elem? nodes i ≡ some x
      → last_layer nodes (layers_of k depth nodes) ≡ top ∷ []
      → (es : List ℤ) × (path_from depth (nodes ∷ layers_of k depth nodes) i ≡ ok (map some es))
        × (climb k x es (indices_from depth i) ≡ some top)
  unfolding path_from indices_from climb
  path_leads_to_top zero i nodes x top h e t = ([], refl, only_node i nodes x top e t)
  path_leads_to_top (suc depth) i nodes x top h e t =
      let (y, s, p) = sibling_and_parent (2 ^ depth) i nodes x (h ∙ two-pow-succ depth) e in
      let (es, q, c) =
        path_leads_to_top depth (i / 2) (parents k nodes) (joined (i % 2) x y) top
          (length-parents k depth nodes h) p t in
      (y ∷ es, rw (q, s), climb_step i x y es (indices_from depth (i / 2)) ∙ c)

-- For a tree that buildMerkleTree made and any position of a leaf in it, padding included,
-- buildMerkleProof succeeds, its leaf is the leaf at that position, its path has no missing element,
-- and the circuit's chain of hashes along the path ends at the root of the tree.
pub build_merkle_proof_complete :
    (k : PoseidonConstants) (depth i : ℕ) (padded : List ℤ) (tree : MerkleTree)
    → IsTree k depth padded tree
    → i < 2 ^ depth
    → (proof : MerkleProof) × (leaf : ℤ) × (es : List ℤ) × (build_merkle_proof depth tree
          (int (pos i))
        ≡ ok proof)
      × (get_elem? padded i ≡ some leaf)
      × (proof.leaf ≡ some leaf)
      × (proof.path_elements ≡ map some es)
      × (climb k leaf es proof.path_indices ≡ some proof.root)
      × (proof.root ≡ tree.root)
unfolding build_merkle_proof
build_merkle_proof_complete k depth i padded tree t h =
    let (leaf, found) = get_elem?_in_range padded i (omega (arith, t.tree_width)) in
    let (es, path, top) =
      path_leads_to_top k depth i padded leaf tree.root t.tree_width found t.tree_root in
    (
      record {
        leaf = some leaf;
        path_elements = map some es;
        path_indices = indices_from depth i;
        root = tree.root;
        leaf_index = i;
      },
      leaf,
      es,
      rw (lt→ltb i (2 ^ depth) h, t.tree_layers, path, t.tree_leaves, found),
      found,
      refl,
      refl,
      top,
      refl,
    )

-- The path that a tree holds for a position leads from the leaf to the root.
pub honest_path :
    (k : PoseidonConstants) (depth i : ℕ) (padded : List ℤ) (tree : MerkleTree)
    → IsTree k depth padded tree
    → i < 2 ^ depth
    → (leaf : ℤ) × (es : List ℤ) × (get_elem? padded i ≡ some leaf)
      × (climb k leaf es (indices_from depth i) ≡ some tree.root)
honest_path k depth i padded tree t h =
    let (leaf, found) = get_elem?_in_range padded i (omega (arith, t.tree_width)) in
    let (es, path, top) =
      path_leads_to_top k depth i padded leaf tree.root t.tree_width found t.tree_root in
    (leaf, es, found, top)
