-- ===== src/Proof/Format.antt =====
-- The bytes that `formatProof` makes of a proof that the validation accepts.
use zkstellar.Prelude.{
  ℕ, ◌≤◌, ◌<◌, ◌≡◌, refl, ◌∙◌, true, List, [], ◌∷◌, ◌++◌, map, Option, none, some, length,
  length-append, All, All-append, arith, inl, inr, suc, subst,
}
use zkstellar.Text.{ℤ}
use zkstellar.Types.{Result, ok, ◌>>=◌, >>=-eq-ok, ok_injective, Result-cases}
use zkstellar.Js.{Js, JsNumber, buffer, elements, items, prop, is_object, truthy}
use zkstellar.Bytes.{bigint_to_bytes32}
use zkstellar.Bytes.BigEndian.{bigint_to_bytes32-IsBytes32}
use zkstellar.Validate.{
  bn254_field_modulus, validate_proof_input, validate_calldata, assert_inputs_from,
  assert_buffer_length, SorobanProofCalldata,
}
use zkstellar.Validate.Accepts.{AreSignals, ProofNumbers, IsProofInput, validate_proof_input_sound}
use zkstellar.Proof.{expiry_input, encoded, format_proof}
use zkstellar.Proof.Points.{
  length_below-as_array, encode_g1-IsPair, encode_g2-IsPair, encode_public_inputs-AreSignals,
}

-- The encoding of a proof's numbers; in a G2 point the second component of a coordinate stands
-- first.
unfoldable pub calldata_of : ProofNumbers → List (List ℕ) → SorobanProofCalldata
calldata_of n extra =
    encoded (bigint_to_bytes32 n.a_x ++ bigint_to_bytes32 n.a_y)
      (bigint_to_bytes32 n.b_x1
        ++ (bigint_to_bytes32 n.b_x0 ++ (bigint_to_bytes32 n.b_y1 ++ bigint_to_bytes32 n.b_y0)))
      (bigint_to_bytes32 n.c_x ++ bigint_to_bytes32 n.c_y)
      (map bigint_to_bytes32 n.signals ++ extra)

length_32 : (x : ℕ) → x < bn254_field_modulus → length (bigint_to_bytes32 x) ≡ 32
length_32 x h = (bigint_to_bytes32-IsBytes32 x (omega arith)).bytes32_length

length_64 :
    (x y : ℕ)
    → x < bn254_field_modulus
    → y < bn254_field_modulus
    → length (bigint_to_bytes32 x ++ bigint_to_bytes32 y) ≡ 64
length_64 x y h k =
    length-append (bigint_to_bytes32 x) (bigint_to_bytes32 y)
    ∙ omega (arith, length_32 x h, length_32 y k)

length_128 :
    (x y z w : ℕ)
    → x < bn254_field_modulus
    → y < bn254_field_modulus
    → z < bn254_field_modulus
    → w < bn254_field_modulus
    → length (
        bigint_to_bytes32 x
        ++ (bigint_to_bytes32 y ++ (bigint_to_bytes32 z ++ bigint_to_bytes32 w)))
      ≡ 128
length_128 x y z w h k l m =
    length-append (bigint_to_bytes32 x) _
    ∙ omega (
      arith,
      length_32 x h,
      length_32 y k,
      length-append (bigint_to_bytes32 y) (bigint_to_bytes32 z ++ bigint_to_bytes32 w),
      length_64 z w l m,
    )

is_object→truthy : (v : Js) → is_object v ≡ true → truthy v ≡ true
is_object→truthy Js.undefined h = cc
is_object→truthy (Js.array vs) h = refl
is_object→truthy (Js.object fs) h = refl
is_object→truthy (Js.buffer bs) h = refl
is_object→truthy _ h = cc

module _ {proof public_signals : Js} {n : ProofNumbers}
    (p : IsProofInput proof public_signals n) where
  pub format_lengths :
      (length (bigint_to_bytes32 n.a_x ++ bigint_to_bytes32 n.a_y) ≡ 64)
      × (length (
            bigint_to_bytes32 n.b_x1
            ++ (bigint_to_bytes32 n.b_x0 ++ (bigint_to_bytes32 n.b_y1 ++ bigint_to_bytes32 n.b_y0)))
          ≡ 128)
      × (length (bigint_to_bytes32 n.c_x ++ bigint_to_bytes32 n.c_y) ≡ 64)
  format_lengths = (
    length_64 n.a_x n.a_y p.input_a.pair_x.coordinate_lt p.input_a.pair_y.coordinate_lt,
    length_128 n.b_x1 n.b_x0 n.b_y1 n.b_y0 p.input_b_x.pair_y.coordinate_lt
        p.input_b_x.pair_x.coordinate_lt p.input_b_y.pair_y.coordinate_lt
        p.input_b_y.pair_x.coordinate_lt,
    length_64 n.c_x n.c_y p.input_c.pair_x.coordinate_lt p.input_c.pair_y.coordinate_lt,
  )

  -- Behind the validation nothing but the expiry ledger can fail.
  pub format_proof-IsProofInput :
      (expiry : Option JsNumber)
      → validate_proof_input proof public_signals ≡ ok tt
      → format_proof proof public_signals expiry
        ≡ (expiry_input expiry >>= λ extra. ok (calldata_of n extra))
  unfolding format_proof
  format_proof-IsProofInput expiry valid = elim (Result-cases (expiry_input expiry)) [
    | inl (extra, e) ↦
        rw
          (
            e,
            valid,
            is_object→truthy proof p.input_object,
            p.input_groth16,
            length_below-as_array (prop proof "pi_a") 2 p.input_a.pair_array p.input_a.pair_length,
            length_below-as_array (prop proof "pi_b") 2 p.input_b p.input_b_length,
            length_below-as_array (prop proof "pi_c") 2 p.input_c.pair_array p.input_c.pair_length,
            p.input_array,
            encode_public_inputs-AreSignals p.input_elements n.signals p.input_signals,
          )
          (rw
            (
              encode_g1-IsPair p.input_a,
              encode_g2-IsPair (prop proof "pi_b") p.input_b p.input_b_x p.input_b_y,
              encode_g1-IsPair p.input_c,
              format_lengths.0,
              format_lengths.1,
              format_lengths.2,
            )
            (unfold calldata_of in refl))
    | inr (f, e) ↦ rw (
      e,
      valid,
      is_object→truthy proof p.input_object,
      p.input_groth16,
      length_below-as_array (prop proof "pi_a") 2 p.input_a.pair_array p.input_a.pair_length,
      length_below-as_array (prop proof "pi_b") 2 p.input_b p.input_b_length,
      length_below-as_array (prop proof "pi_c") 2 p.input_c.pair_array p.input_c.pair_length,
      p.input_array,
      encode_public_inputs-AreSignals p.input_elements n.signals p.input_signals,
    )
  ]

assert_inputs-map :
    (i : ℕ) (xs : List (List ℕ))
    → All (λ x. length x ≡ 32) xs
    → assert_inputs_from i (elements (items (map buffer xs))) ≡ ok tt
unfolding assert_inputs_from assert_buffer_length
assert_inputs-map i [] h = refl
assert_inputs-map i (x ∷ xs) (h, hs) = rw h (assert_inputs-map (suc i) xs hs)

pub AreSignals-length :
    (vs : List Js) (ns : List ℕ)
    → AreSignals vs ns
    → All (λ x. length x ≡ 32) (map bigint_to_bytes32 ns)
AreSignals-length [] [] h = tt
AreSignals-length (v ∷ vs) (n ∷ ns) (p, ps) = (length_32 n p.signal_lt, AreSignals-length vs ns ps)
AreSignals-length [] (n ∷ ns) h = absurd h
AreSignals-length (v ∷ vs) [] h = absurd h

expiry_length :
    (expiry : Option JsNumber) {extra : List (List ℕ)}
    → expiry_input expiry ≡ ok extra
    → All (λ x. length x ≡ 32) extra
expiry_length none h = ground arith
expiry_length (some (JsNumber.int (ℤ.pos n))) {extra} h =
    let fits : n ≤ 0xffffffff = ground arith in
    let same : extra ≡ bigint_to_bytes32 n ∷ [] = ground arith in
    rw same (length_32 n (omega arith), tt)
expiry_length (some (JsNumber.int (ℤ.negsuc n))) h = cc
expiry_length (some JsNumber.non_integer) h = cc

module _ {proof public_signals : Js} {n : ProofNumbers}
    (p : IsProofInput proof public_signals n) where
  validate_calldata-calldata_of :
      (extra : List (List ℕ))
      → All (λ x. length x ≡ 32) extra
      → validate_calldata (calldata_of n extra) ≡ ok tt
  unfolding validate_calldata calldata_of
  validate_calldata-calldata_of extra h =
      rw ((format_lengths p).0, (format_lengths p).1, (format_lengths p).2)
        (assert_inputs-map 0 (map bigint_to_bytes32 n.signals ++ extra) (
          All-append (λ x. length x ≡ 32) (map bigint_to_bytes32 n.signals) extra
            (AreSignals-length p.input_elements n.signals p.input_signals) h))

-- A call of formatProof without an expiry ledger succeeds on every proof and list of public signals
-- that validateProofInput accepts, and returns the 32-byte encodings of the numbers that the
-- coordinates and signals denote, with the second component of each G2 coordinate first.
pub format_proof_correct :
    (proof public_signals : Js)
    → validate_proof_input proof public_signals ≡ ok tt
    → (n : ProofNumbers) × IsProofInput proof public_signals n
      × (format_proof proof public_signals none ≡ ok (calldata_of n []))
format_proof_correct proof public_signals h =
    let (n, p) = validate_proof_input_sound proof public_signals h in
    (n, p, format_proof-IsProofInput p none h)

pub format_proof-validated :
    (proof public_signals : Js) (expiry : Option JsNumber) (calldata : SorobanProofCalldata)
    → format_proof proof public_signals expiry ≡ ok calldata
    → validate_proof_input proof public_signals ≡ ok tt
unfolding format_proof
format_proof-validated proof public_signals expiry calldata h =
    (>>=-eq-ok (validate_proof_input proof public_signals) _ h).1

ok_calldata :
    {c d : SorobanProofCalldata}
    → validate_calldata c ≡ ok tt
    → ◌≡◌ {A = Result SorobanProofCalldata} (ok c) (ok d)
    → validate_calldata d ≡ ok tt
ok_calldata {c} {d} h e = subst (λ x. validate_calldata x ≡ ok tt) (ok_injective e) h

-- Whatever formatProof returns, with or without an expiry ledger, passes validateCalldata.
pub validate_calldata-format_proof :
    (proof public_signals : Js) (expiry : Option JsNumber) (calldata : SorobanProofCalldata)
    → format_proof proof public_signals expiry ≡ ok calldata
    → validate_calldata calldata ≡ ok tt
validate_calldata-format_proof proof public_signals expiry calldata h =
    let valid = format_proof-validated proof public_signals expiry calldata h in
    let (n, p) = validate_proof_input_sound proof public_signals valid in
    let (extra, e, same) =
      >>=-eq-ok (expiry_input expiry) (λ extra. ok (calldata_of n extra))
        (rw (format_proof-IsProofInput p expiry valid) at h) in
    ok_calldata (validate_calldata-calldata_of p extra (expiry_length expiry e)) same
