-- ===== src/Nullifier/Binding.antt =====
-- A nullifier binds the circuit and the public inputs, up to a collision of SHA-256.
use zkstellar.Prelude.{
  ℕ, ◌/◌, ◌%◌, ◌≤◌, ◌≡◌, ◌≢◌, ◌⊎◌, inl, inr, refl, ◌∙◌, sym, List, [], ◌∷◌, ◌++◌, some, length,
  arith, ℕ_discrete, Option-cases,
}
use zkstellar.Text.{pos, negsuc}
use zkstellar.Types.{ok, ok_injective, >>=-eq-ok}
use zkstellar.Js.{Js, JsNumber, int, non_integer, buffer, as_array}
use zkstellar.Proof.{as_u32, max_u32}
use zkstellar.Nullifier.{
  nullifier_failure, buffer_32, concat_inputs, non_empty, be_4, compute_inputs_hash,
  compute_nullifier,
}

-- Two different texts with one digest.
pub record Collides (sha256 : List ℕ → List ℕ) (x y : List ℕ) : Type 0 where
  pub same_digest : sha256 x ≡ sha256 y
  pub different : x ≢ y

bytes_discrete : Discrete (List ℕ)
bytes_discrete = hlevel ℕ_discrete

pub hash_binds :
    (sha256 : List ℕ → List ℕ) (x y : List ℕ) → sha256 x ≡ sha256 y → (x ≡ y) ⊎ Collides sha256 x y
hash_binds sha256 x y h = elim (bytes_discrete x y) [
  | yes p ↦ inl p
  | no p ↦ inr (record { same_digest = h; different = p })
]

append_injective : (a b c d : List ℕ) → length a ≡ length c → a ++ b ≡ c ++ d → (a ≡ c) × (b ≡ d)
append_injective [] b [] d h e = (refl, e)
append_injective [] b (y ∷ c) d h e = absurd (omega arith)
append_injective (x ∷ a) b [] d h e = absurd (omega arith)
append_injective (x ∷ a) b (y ∷ c) d h e =
    let tails : a ++ b ≡ c ++ d = cc in
    let heads : x ≡ y = cc in let (p, q) = append_injective a b c d (omega arith) tails in (cc, q)

be_4-injective :
    (n m : ℕ) (a b : List ℕ)
    → n ≤ max_u32
    → m ≤ max_u32
    → be_4 n ++ a ≡ be_4 m ++ b
    → (n ≡ m) × (a ≡ b)
unfolding be_4
be_4-injective n m a b h k e =
    let p : n / 0x1000000 % 256 ≡ m / 0x1000000 % 256 = cc in
    let q : n / 0x10000 % 256 ≡ m / 0x10000 % 256 = cc in
    let r : n / 0x100 % 256 ≡ m / 0x100 % 256 = cc in
    let s : n % 256 ≡ m % 256 = cc in (omega arith, cc)

buffer_32-eq-ok : (v : Js) (bs : List ℕ) → buffer_32 v ≡ ok bs → (v ≡ buffer bs) × (length bs ≡ 32)
buffer_32-eq-ok (Js.buffer cs) bs h = (ground arith, ground arith)
buffer_32-eq-ok Js.undefined bs h = cc
buffer_32-eq-ok _ bs h = cc

concat_inputs_cons :
    (v : Js) (vs : List Js) (bytes : List ℕ)
    → concat_inputs (v ∷ vs) ≡ ok bytes
    → (b : List ℕ) × (rest : List ℕ) × (v ≡ buffer b)
      × (length b ≡ 32)
      × (concat_inputs vs ≡ ok rest)
      × (bytes ≡ b ++ rest)
unfolding concat_inputs
concat_inputs_cons v vs bytes h =
    let (b, p, h1) = >>=-eq-ok (buffer_32 v) _ h in
    let (rest, q, h2) = >>=-eq-ok (concat_inputs vs) (λ rest. ok (b ++ rest)) h1 in
    let (shape, len) = buffer_32-eq-ok v b p in (b, rest, shape, len, q, sym (ok_injective h2))

concat_inputs_nil : (bytes : List ℕ) → concat_inputs [] ≡ ok bytes → bytes ≡ []
unfolding concat_inputs
concat_inputs_nil bytes h = sym (ok_injective h)

nil_ne_block : (b rest bytes : List ℕ) → length b ≡ 32 → bytes ≡ [] → bytes ≡ b ++ rest → ⊥
nil_ne_block [] rest bytes h p q = omega arith
nil_ne_block (x ∷ b) rest bytes h p q = cc

-- Blocks of 32 bytes are found again in their concatenation.
concat_inputs_injective :
    (vs ws : List Js) (bytes : List ℕ)
    → concat_inputs vs ≡ ok bytes
    → concat_inputs ws ≡ ok bytes
    → vs ≡ ws
concat_inputs_injective [] [] bytes h k = refl
concat_inputs_injective [] (w ∷ ws) bytes h k =
    let (b, rest, shape, len, q, e) = concat_inputs_cons w ws bytes k in
    absurd (nil_ne_block b rest bytes len (concat_inputs_nil bytes h) e)
concat_inputs_injective (v ∷ vs) [] bytes h k =
    let (b, rest, shape, len, q, e) = concat_inputs_cons v vs bytes h in
    absurd (nil_ne_block b rest bytes len (concat_inputs_nil bytes k) e)
concat_inputs_injective (v ∷ vs) (w ∷ ws) bytes h k =
    let (b, rest, shape, len, q, e) = concat_inputs_cons v vs bytes h in
    let (b', rest', shape', len', q', e') = concat_inputs_cons w ws bytes k in
    let (same, same_rest) = append_injective b rest b' rest' (omega arith) (sym e ∙ e') in
    let later = concat_inputs_injective vs ws rest q (rw same_rest q') in cc

-- What a successful call has computed: the circuit id, the blocks, and what is hashed.
pub record IsNullifierOf (sha256 : List ℕ → List ℕ) (id : JsNumber) (inputs : Js) (n : List ℕ)
    : Type 0 where
  pub circuit : ℕ
  pub circuit_id : id ≡ int (pos circuit)
  pub circuit_le : circuit ≤ max_u32
  pub blocks : List Js
  pub inputs_array : as_array inputs ≡ some blocks
  pub text : List ℕ
  pub blocks_text : concat_inputs blocks ≡ ok text
  pub digest : n ≡ sha256 (be_4 circuit ++ sha256 text)

as_u32-eq-ok :
    (id : JsNumber) (m : ℕ)
    → as_u32 id nullifier_failure ≡ ok m
    → (id ≡ int (pos m)) × (m ≤ max_u32)
as_u32-eq-ok (int (pos n)) m h = (ground arith, ground arith)
as_u32-eq-ok (int (negsuc n)) m h = cc
as_u32-eq-ok non_integer m h = cc

non_empty-eq-ok : (v : Js) (vs : List Js) → non_empty v ≡ ok vs → as_array v ≡ some vs
non_empty-eq-ok v vs h = elim (Option-cases (as_array v)) [
  | inl e ↦ absurd (ground arith)
  | inr (ws, e) ↦ ground arith
]

compute_nullifier-IsNullifierOf :
    (sha256 : List ℕ → List ℕ) (id : JsNumber) (inputs : Js) (n : List ℕ)
    → compute_nullifier sha256 id inputs ≡ ok n
    → IsNullifierOf sha256 id inputs n
unfolding compute_nullifier compute_inputs_hash
compute_nullifier-IsNullifierOf sha256 id inputs n h =
    let (m, p, h1) = >>=-eq-ok (as_u32 id nullifier_failure) _ h in
    let (hash, q, h2) =
      >>=-eq-ok (compute_inputs_hash sha256 inputs) (λ x. ok (sha256 (be_4 m ++ x))) h1 in
    let (vs, r, h3) = >>=-eq-ok (non_empty inputs) _ q in
    let (bytes, s, h4) = >>=-eq-ok (concat_inputs vs) (λ x. ok (sha256 x)) h3 in
    let (shape, bound) = as_u32-eq-ok id m p in
    record {
      circuit = m;
      circuit_id = shape;
      circuit_le = bound;
      blocks = vs;
      inputs_array = non_empty-eq-ok inputs vs r;
      text = bytes;
      blocks_text = s;
      digest = rw (ok_injective h4) (sym (ok_injective h2));
    }

binds :
    (sha256 : List ℕ → List ℕ) {id_1 id_2 : JsNumber} {inputs_1 inputs_2 : Js} {n : List ℕ}
    (a : IsNullifierOf sha256 id_1 inputs_1 n) (b : IsNullifierOf sha256 id_2 inputs_2 n)
    → ((id_1 ≡ id_2) × (as_array inputs_1 ≡ as_array inputs_2))
      ⊎ (Collides sha256 (be_4 a.circuit ++ sha256 a.text) (be_4 b.circuit ++ sha256 b.text)
          ⊎ Collides sha256 a.text b.text)
binds sha256 a b =
    elim (hash_binds sha256 (be_4 a.circuit ++ sha256 a.text) (be_4 b.circuit ++ sha256 b.text)
      (sym a.digest ∙ b.digest)) [
        | inr c ↦ inr (inl c)
        | inl same ↦
            let (ids, hashes) =
              be_4-injective a.circuit b.circuit _ _ a.circuit_le b.circuit_le same in
            elim (hash_binds sha256 a.text b.text hashes) [
              | inr c ↦ inr (inr c)
              | inl texts ↦
                  let blocks =
                    concat_inputs_injective a.blocks b.blocks a.text a.blocks_text
                      (rw texts b.blocks_text) in
                  inl (
                    a.circuit_id ∙ rw ids (sym b.circuit_id),
                    a.inputs_array ∙ rw blocks (sym b.inputs_array),
                  )
            ]
      ]

-- If computeNullifier returns one nullifier for two circuit ids and arrays of public inputs, then the
-- ids are equal and the arrays hold the same buffers, or SHA-256 collides on the two texts that are
-- hashed last (the id as four bytes and the hash of the inputs), or on the two concatenations of the
-- inputs.
pub compute_nullifier_binding :
    (sha256 : List ℕ → List ℕ) (id_1 id_2 : JsNumber) (inputs_1 inputs_2 : Js) (n : List ℕ)
    → compute_nullifier sha256 id_1 inputs_1 ≡ ok n
    → compute_nullifier sha256 id_2 inputs_2 ≡ ok n
    → (a : IsNullifierOf sha256 id_1 inputs_1 n) × (b : IsNullifierOf sha256 id_2 inputs_2 n)
      × (((id_1 ≡ id_2) × (as_array inputs_1 ≡ as_array inputs_2))
          ⊎ (Collides sha256 (be_4 a.circuit ++ sha256 a.text) (be_4 b.circuit ++ sha256 b.text)
              ⊎ Collides sha256 a.text b.text))
compute_nullifier_binding sha256 id_1 id_2 inputs_1 inputs_2 n h k =
    let a = compute_nullifier-IsNullifierOf sha256 id_1 inputs_1 n h in
    let b = compute_nullifier-IsNullifierOf sha256 id_2 inputs_2 n k in (a, b, binds sha256 a b)
