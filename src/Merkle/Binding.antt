-- ===== src/Merkle/Binding.antt =====
-- A root binds the leaves below it, up to a collision of the hash; and it does not show how many
-- leaves there were.
use zkstellar.Prelude.{
  ℕ, suc, ◌+◌, ◌-◌, ◌^◌, ◌<◌, ◌≡◌, ◌∙◌, ap, sym, true, false, List, [], ◌∷◌, ◌++◌, some, length,
  length-append, get_elem?, leb, ◌==◌, arith, ◌≢◌, ◌⊎◌, inl, inr, ℕ_discrete, Bool-cases,
  if◌then◌else◌,
}
use zkstellar.Text.{ℤ, pos}
use zkstellar.Poseidon.{PoseidonConstants, mod_field}
use zkstellar.Poseidon.Field.{parent, mod_field-parent}
use zkstellar.Merkle.{MerkleTree, build_merkle_tree, climb, pad, indices_from, merkle_zero_leaf}
use zkstellar.Merkle.Layers.{IsTree}
use zkstellar.Merkle.Inclusion.{honest_path}
use mathlib.Core.List.{append_assoc}

module _ (k : PoseidonConstants) where
  -- The hash of a node and its sibling, as the direction bit says.
  abbrev above : ℕ → ℤ → ℤ → ℤ
  above bit node sibling = if bit == 1 then parent k sibling node else parent k node sibling

  -- On two paths along the same directions, two nodes at one level differ modulo the field, and their
  -- hashes with their siblings are equal.
  abbrev pub Collides : ℤ → List ℤ → ℤ → List ℤ → List ℕ → Type 0
  Collides x (e ∷ es) y (f ∷ fs) (bit ∷ bits) =
      ((above bit x e ≡ above bit y f) × (mod_field x ≢ mod_field y))
      ⊎ Collides (above bit x e) es (above bit y f) fs bits
  Collides x _ y _ _ = ⊥

  climb_step :
      (node e : ℤ) (es : List ℤ) (bit : ℕ) (bits : List ℕ) (root : ℤ)
      → climb k node (e ∷ es) (bit ∷ bits) ≡ some root
      → climb k (above bit node e) es bits ≡ some root
  unfolding climb
  climb_step node e es bit bits root h = elim (Bool-cases (bit == 1)) [
    | inl right ↦ rw right (rw right at h)
    | inr left ↦ rw left (ground arith)
  ]

  same_parents :
      (a b c d : ℤ)
      → mod_field (parent k a b) ≡ mod_field (parent k c d)
      → parent k a b ≡ parent k c d
  same_parents a b c d h = sym (mod_field-parent k a b) ∙ ap pos h ∙ mod_field-parent k c d

  parents_agree :
      (bit : ℕ) (x e y f : ℤ)
      → mod_field (above bit x e) ≡ mod_field (above bit y f)
      → above bit x e ≡ above bit y f
  parents_agree bit x e y f h = elim (Bool-cases (bit == 1)) [
    | inl right ↦ rw right (same_parents e x f y (rw right at h))
    | inr left ↦ rw left (same_parents x e y f (rw left at h))
  ]

  climb_top :
      (x y root : ℤ)
      → climb k x [] [] ≡ some root
      → climb k y [] [] ≡ some root
      → mod_field x ≡ mod_field y
  unfolding climb
  climb_top x y root p q = ap mod_field (cc)

  -- Two chains of hashes along the same directions to one root start at one node, or collide.
  climb_binds :
      (x y : ℤ) (es fs : List ℤ) (bits : List ℕ) (root : ℤ)
      → climb k x es bits ≡ some root
      → climb k y fs bits ≡ some root
      → (mod_field x ≡ mod_field y) ⊎ Collides x es y fs bits
  climb_binds x y [] [] [] root p q = inl (climb_top x y root p q)
  climb_binds x y (e ∷ es) (f ∷ fs) (bit ∷ bits) root p q =
      elim (climb_binds (above bit x e) (above bit y f) es fs bits root
        (climb_step x e es bit bits root p) (climb_step y f fs bit bits root q)) [
          | inr c ↦ inr (inr c)
          | inl same ↦ elim (ℕ_discrete (mod_field x) (mod_field y)) [
            | yes agree ↦ inl agree
            | no differ ↦ inr (inl (parents_agree bit x e y f same, differ))
          ]
        ]
  climb_binds x y [] fs (bit ∷ bits) root p q = absurd (unfold climb in cc)
  climb_binds x y (e ∷ es) [] (bit ∷ bits) root p q = absurd (unfold climb in cc)
  climb_binds x y (e ∷ es) fs [] root p q = absurd (unfold climb in cc)
  climb_binds x y [] (f ∷ fs) [] root p q = absurd (unfold climb in cc)

-- If the circuit accepts some leaf at a position of a tree that buildMerkleTree made, along any path
-- elements, then the tree's own path leads from its leaf there to the root, and either the two leaves
-- agree modulo the field, or at some level of the two paths two nodes that differ modulo the field
-- have, each with its sibling, the same hash.
pub merkle_proof_binding :
    (k : PoseidonConstants) (depth i : ℕ) (padded : List ℤ) (tree : MerkleTree)
    → IsTree k depth padded tree
    → i < 2 ^ depth
    → (claimed : ℤ) (elements : List ℤ)
    → climb k claimed elements (indices_from depth i) ≡ some tree.root
    → (leaf : ℤ) × (es : List ℤ) × (get_elem? padded i ≡ some leaf)
      × (climb k leaf es (indices_from depth i) ≡ some tree.root)
      × ((mod_field leaf ≡ mod_field claimed)
          ⊎ Collides k leaf es claimed elements (indices_from depth i))
merkle_proof_binding k depth i padded tree t h claimed elements accepted =
    let (leaf, es, found, honest) = honest_path k depth i padded tree t h in
    (
      leaf,
      es,
      found,
      honest,
      climb_binds k leaf claimed es elements (indices_from depth i) tree.root honest accepted,
    )

pad_zero :
    (width : ℕ) (leaves : List ℤ)
    → length leaves < width
    → pad width (leaves ++ (merkle_zero_leaf ∷ [])) ≡ pad width leaves
pad_zero width leaves h =
    let missing : width - length leaves ≡ suc (width - (length leaves + 1)) = omega arith in
    let longer : length (leaves ++ (merkle_zero_leaf ∷ [])) ≡ length leaves + 1 =
      length-append leaves (merkle_zero_leaf ∷ []) in
    rw (missing, longer) (append_assoc leaves (merkle_zero_leaf ∷ []) _)

-- A zero leaf at the end is not seen in the root: while the tree has room, a nonempty list of leaves
-- and the same list with one more zero have the same tree.
pub build_merkle_tree_zero_leaf :
    (k : PoseidonConstants) (depth : ℕ) (leaves : List ℤ)
    → 0 < length leaves
    → length leaves < 2 ^ depth
    → build_merkle_tree k depth (leaves ++ (merkle_zero_leaf ∷ []))
      ≡ build_merkle_tree k depth leaves
unfolding build_merkle_tree
build_merkle_tree_zero_leaf k depth leaves nonempty room =
    let longer : length (leaves ++ (merkle_zero_leaf ∷ [])) ≡ length leaves + 1 =
      length-append leaves (merkle_zero_leaf ∷ []) in
    let some_longer : (length leaves + 1 == 0) ≡ false = ground arith in
    let some_leaf : (length leaves == 0) ≡ false = ground arith in
    let room_longer : leb (length leaves + 1) (2 ^ depth) ≡ true = ground arith in
    let room_leaf : leb (length leaves) (2 ^ depth) ≡ true = ground arith in
    rw (pad_zero (2 ^ depth) leaves room)
      (rw (longer, some_longer, some_leaf) (rw (room_longer, room_leaf)))
