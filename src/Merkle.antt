-- ===== src/Merkle.antt =====
-- sdk/src/merkle.ts: Poseidon Merkle trees of a fixed depth, their inclusion proofs, and the check
-- that circuits/merkle_inclusion/circuit.circom makes of such a proof.
pub mod Layers
pub mod Inclusion
pub mod Binding
pub mod Tests
use zkstellar.Prelude.{
  ℕ, zero, suc, ◌+◌, ◌-◌, ◌*◌, ◌/◌, ◌%◌, ◌^◌, ◌≤◌, ◌<◌, Bool, true, false, ◌&&◌, ◌||◌, List, [],
  ◌∷◌, ◌++◌, map, Option, none, some, length, replicate, get_elem?, leb, ltb, ◌==◌, not,
  if◌then◌else◌,
}
use zkstellar.Text.{Text, ℤ, pos, negsuc, codes, print_decimal}
use zkstellar.Types.{
  invalid_public_input, Failure, soroban_zk_error, other_error, Result, ok, err, ◌>>=◌, ◌>>◌, guard,
}
use zkstellar.Js.{JsNumber, int, non_integer}
use zkstellar.Poseidon.{PoseidonConstants, poseidon}
use zkstellar.Poseidon.Field.{parent}

abbrev pub merkle_depth : ℕ
merkle_depth = 20

-- `1 << depth`
abbrev max_leaves : ℕ → ℕ
max_leaves depth = 2 ^ depth

abbrev pub merkle_zero_leaf : ℤ
merkle_zero_leaf = pos 0

pub record MerkleTree : Type 0 where
  pub root : ℤ
  pub leaves : List ℤ
  pub layers : List (List ℤ)

-- What an array holds at an index out of range is `undefined`, here `none`.
pub record MerkleProof : Type 0 where
  pub leaf : Option ℤ
  pub path_elements : List (Option ℤ)
  pub path_indices : List ℕ
  pub root : ℤ
  pub leaf_index : ℕ

abbrev merkle_failure : Failure
merkle_failure = soroban_zk_error invalid_public_input

abbrev type_error : Failure
type_error = other_error (codes "Cannot read properties of undefined")

-- `Array.from({ length: 2 ** depth }, (_, i) => i < leaves.length ? leaves[i] : 0n)`
abbrev pub pad : ℕ → List ℤ → List ℤ
pad width leaves = leaves ++ replicate (width - length leaves) merkle_zero_leaf

-- The first node of a layer; `current[0]` at the end.
abbrev head_or_undefined : List ℤ → Result ℤ
head_or_undefined [] = err type_error
head_or_undefined (n ∷ ns) = ok n

-- `current` after the loop: the last layer.
abbrev pub last_layer : List ℤ → List (List ℤ) → List ℤ
last_layer current [] = current
last_layer current (next ∷ above) = last_layer next above

module _ (constants : PoseidonConstants) where
  -- `next`, two nodes at a time; a missing right sibling is no bigint and `poseidon` throws.
  pub next_layer : List ℤ → Result (List ℤ)
  next_layer [] = ok []
  next_layer (left ∷ []) = err merkle_failure
  next_layer (left ∷ right ∷ nodes) = do
    parent ← poseidon constants (left ∷ right ∷ [])
    parents ← next_layer nodes
    ok (parent ∷ parents)

  -- The layers above `current`, from the lowest, after `depth` rounds.
  pub layers_above : ℕ → List ℤ → Result (List (List ℤ))
  layers_above zero current = ok []
  layers_above (suc depth) current = do
    next ← next_layer current
    above ← layers_above depth next
    ok (next ∷ above)

  -- The part of `buildMerkleTree` behind the padding.
  pub tree_over : ℕ → List ℤ → Result MerkleTree
  tree_over depth padded = do
    above ← layers_above depth padded
    root ← head_or_undefined (last_layer padded above)
    ok (record { root = root; leaves = padded; layers = padded ∷ above })

  pub build_merkle_tree : ℕ → List ℤ → Result MerkleTree
  build_merkle_tree depth leaves = do
    guard (not (length leaves == 0)) merkle_failure
    guard (leb (length leaves) (max_leaves depth)) merkle_failure
    tree_over depth (pad (max_leaves depth) leaves)

  pub compute_merkle_root : ℕ → List ℤ → Result ℤ
  compute_merkle_root depth leaves = do tree ← build_merkle_tree depth leaves; ok tree.root

-- `isRight ? index - 1 : index + 1`
abbrev pub sibling_index : ℕ → ℕ
sibling_index index = if index % 2 == 1 then index - 1 else index + 1

-- The elements that the loop of `buildMerkleProof` pushes, from the lowest layer left on.
pub path_from : ℕ → List (List ℤ) → ℕ → Result (List (Option ℤ))
path_from zero layers index = ok []
path_from (suc depth) [] index = err type_error
path_from (suc depth) (layer ∷ layers) index = do
  rest ← path_from depth layers (index / 2)
  ok (get_elem? layer (sibling_index index) ∷ rest)

-- The direction bits that it pushes.
pub indices_from : ℕ → ℕ → List ℕ
indices_from zero index = []
indices_from (suc depth) index = index % 2 ∷ indices_from depth (index / 2)

-- `Number.isInteger(i) && 0 <= i && i < 2 ** depth`
abbrev leaf_position : ℕ → JsNumber → Result ℕ
leaf_position depth non_integer = err merkle_failure
leaf_position depth (int (negsuc n)) = err merkle_failure
leaf_position depth (int (pos n)) = do guard (ltb n (max_leaves depth)) merkle_failure; ok n

pub build_merkle_proof : ℕ → MerkleTree → JsNumber → Result MerkleProof
build_merkle_proof depth tree leaf_index = do
  i ← leaf_position depth leaf_index
  elements ← path_from depth tree.layers i
  ok (record {
    leaf = get_elem? tree.leaves i;
    path_elements = elements;
    path_indices = indices_from depth i;
    root = tree.root;
    leaf_index = i;
  })

-- The circuit's public and private inputs.
pub record CircuitInputs : Type 0 where
  pub leaf : Text
  pub path_elements : List Text
  pub path_indices : List ℕ
  pub root : Text

-- `e.toString()`, which `undefined` does not have.
abbrev to_text : Option ℤ → Result Text
to_text none = err type_error
to_text (some n) = ok (print_decimal n)

abbrev to_texts : List (Option ℤ) → Result (List Text)
to_texts [] = ok []
to_texts (e ∷ es) = do t ← to_text e; ts ← to_texts es; ok (t ∷ ts)

merkle_proof_to_circuit_inputs : MerkleProof → Result CircuitInputs
merkle_proof_to_circuit_inputs proof = do
  leaf ← to_text proof.leaf
  elements ← to_texts proof.path_elements
  ok (record {
    leaf = leaf;
    path_elements = elements;
    path_indices = proof.path_indices;
    root = print_decimal proof.root;
  })

-- The hash of two nodes, as the template `Poseidon(2)` computes it.
module _ (constants : PoseidonConstants) where
  -- `MerkleInclusion`: the last level hash, or `none` where a direction bit is not 0 or 1 or the
  -- numbers of elements and bits differ.
  pub climb : ℤ → List ℤ → List ℕ → Option ℤ
  climb node [] [] = some node
  climb node (e ∷ es) (bit ∷ bits) =
      let right = climb (parent constants e node) es bits in
      let left = climb (parent constants node e) es bits in
      if bit == 1 then right else if bit == 0 then left else none
  climb node _ _ = none
