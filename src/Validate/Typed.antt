-- ===== src/Validate/Typed.antt =====
-- The checks throw errors of the SDK's own classes only, on values whose text describeValue can make.
use zkstellar.Prelude.{
  ℕ, suc, ◌≡◌, refl, Bool, true, false, List, [], ◌∷◌, Option, none, some, arith, Bool-cases,
  Option-cases, inl, inr,
}
use zkstellar.Text.{some_digits}
use zkstellar.Text.Parsing.{big_int-decimal}
use zkstellar.Types.{
  Failure, is_soroban_zk_error, Result, ok, err, ◌>>=◌, ◌>>◌, guard, FieldPath, root, at,
}
use zkstellar.Js.{Js, as_array, as_string, prop, element, is_object}
use zkstellar.Validate.{
  decimal_or_hex_pattern, assert_array, assert_proof_field_element, validate_public_signal,
  validate_signals_from, validate_public_signals, assert_pair, validate_proof_input, is_groth16,
  assert_buffer_length, assert_inputs_from, validate_calldata, SorobanProofCalldata,
}
use zkstellar.Validate.Plain.{
  IsPlain, EachIsPlain, describes-IsPlain, prop-IsPlain, as_array-EachIsPlain, element-IsPlain,
}
use zkstellar.Validate.Elements.{assert_array-eq-ok, pattern-Denotes, Denotes-big_int}

-- Where it throws, it throws a `SorobanZkError`.
abbrev pub IsTyped {ℓ} : {A : Type ℓ} → Result A → Type ℓ
IsTyped r = (f : Failure) → r ≡ err f → is_soroban_zk_error f ≡ true

pub IsTyped-bind {ℓ κ} :
    {A : Type ℓ} {B : Type κ} (m : Result A) (f : A → Result B)
    → IsTyped m
    → ((a : A) → IsTyped (f a))
    → IsTyped (m >>= f)
IsTyped-bind (ok a) f h k = k a
IsTyped-bind (err e) f h k = λ g p. h g (cc)

-- The step behind is taken where the first has succeeded.
IsTyped-then {ℓ κ} :
    {A : Type ℓ} {B : Type κ} (m : Result A) (f : A → Result B)
    → IsTyped m
    → ((a : A) → m ≡ ok a → IsTyped (f a))
    → IsTyped (m >>= f)
IsTyped-then (ok a) f h k = k a refl
IsTyped-then (err e) f h k = λ g p. h g (cc)

pub IsTyped-guard : (b : Bool) (e : Failure) → is_soroban_zk_error e ≡ true → IsTyped (guard b e)
IsTyped-guard true e h = λ f p. cc
IsTyped-guard false e h = λ f p. cc

assert_array-IsTyped : (v : Js) (field : FieldPath) (m : ℕ) → IsTyped (assert_array v field m)
unfolding assert_array
assert_array-IsTyped v field m f h = ground arith

element-IsTyped :
    (v : Js) (field : FieldPath) → IsPlain v → IsTyped (assert_proof_field_element v field)
unfolding assert_proof_field_element
element-IsTyped v field plain f h = elim (Option-cases (as_string v)) [
  | inl e ↦ described e
  | inr (s, e) ↦ elim (Bool-cases (some_digits 10 s)) [
    | inl d ↦ ground (arith, big_int-decimal s d)
    | inr d ↦ ground arith
  ]
]
  where
    described : as_string v ≡ none → is_soroban_zk_error f ≡ true
    described e = let text = describes-IsPlain v plain in ground arith

signal-IsTyped : (v : Js) (field : FieldPath) → IsPlain v → IsTyped (validate_public_signal v field)
unfolding validate_public_signal
signal-IsTyped v field plain f h = elim (Option-cases (as_string v)) [
  | inl e ↦ described e
  | inr (s, e) ↦ elim (Bool-cases (decimal_or_hex_pattern s)) [
    | inl d ↦ ground (arith, Denotes-big_int (pattern-Denotes s d).1)
    | inr d ↦ ground arith
  ]
]
  where
    described : as_string v ≡ none → is_soroban_zk_error f ≡ true
    described e = let text = describes-IsPlain v plain in ground arith

pair-IsTyped : (v : Js) (field : FieldPath) → IsPlain v → IsTyped (assert_pair v field)
unfolding assert_pair
pair-IsTyped v field plain =
    IsTyped-then (assert_array v field 2) _ (assert_array-IsTyped v field 2) λ vs made.
      let each = as_array-EachIsPlain v vs plain (assert_array-eq-ok v field 2 made).0 in
      IsTyped-bind (assert_proof_field_element (element vs 0) (at field 0)) _
        (element-IsTyped (element vs 0) (at field 0) (element-IsPlain vs 0 each))
        λ u. element-IsTyped (element vs 1) (at field 1) (element-IsPlain vs 1 each)

signals-IsTyped : (i : ℕ) (vs : List Js) → EachIsPlain vs → IsTyped (validate_signals_from i vs)
unfolding validate_signals_from
signals-IsTyped i [] plain = λ f h. cc
signals-IsTyped i (v ∷ vs) (plain, each) =
    IsTyped-bind (validate_public_signal v (at (root "publicSignals") i)) _
      (signal-IsTyped v (at (root "publicSignals") i) plain) λ u. signals-IsTyped (suc i) vs each

public_signals-IsTyped : (v : Js) → IsPlain v → IsTyped (validate_public_signals v)
unfolding validate_public_signals
public_signals-IsTyped v plain f h = elim (Option-cases (as_array v)) [
  | inl e ↦ ground arith
  | inr (vs, e) ↦
      signals-IsTyped 0 vs (as_array-EachIsPlain v vs plain e) f
        (rw (e, validate_public_signals) at h)
]

-- The two rows of pi_b, and what is checked behind them.
rows-IsTyped :
    (pi_b : Js) (rest : Result (Unit {0}))
    → IsPlain pi_b
    → IsTyped rest
    → IsTyped (
        assert_array pi_b (root "pi_b") 2 >>= λ rows.
        assert_pair (element rows 0) (at (root "pi_b") 0)
        >> (assert_pair (element rows 1) (at (root "pi_b") 1) >> rest))
rows-IsTyped pi_b rest plain later =
    IsTyped-then (assert_array pi_b (root "pi_b") 2) _ (assert_array-IsTyped pi_b (root "pi_b") 2)
      λ rows made.
        let each =
          as_array-EachIsPlain pi_b rows plain (assert_array-eq-ok pi_b (root "pi_b") 2 made).0 in
        IsTyped-bind (assert_pair (element rows 0) (at (root "pi_b") 0)) _
          (pair-IsTyped (element rows 0) (at (root "pi_b") 0) (element-IsPlain rows 0 each))
          λ u.
            IsTyped-bind (assert_pair (element rows 1) (at (root "pi_b") 1)) _
              (pair-IsTyped (element rows 1) (at (root "pi_b") 1) (element-IsPlain rows 1 each))
              λ w. later

pub validate_proof_input-IsTyped :
    (proof public_signals : Js)
    → IsPlain proof
    → IsPlain public_signals
    → IsTyped (validate_proof_input proof public_signals)
unfolding validate_proof_input
validate_proof_input-IsTyped proof public_signals plain signals_plain =
    IsTyped-bind (guard (is_object proof) _) _ (IsTyped-guard (is_object proof) _ refl) λ u0.
      IsTyped-bind (guard (is_groth16 (as_string (prop proof "protocol"))) _) _
        (IsTyped-guard (is_groth16 (as_string (prop proof "protocol"))) _ refl)
        λ u1.
          IsTyped-bind (assert_pair (prop proof "pi_a") (root "pi_a")) _
            (pair-IsTyped (prop proof "pi_a") (root "pi_a") (prop-IsPlain proof "pi_a" plain))
            λ u2. rows-IsTyped (prop proof "pi_b") _ (prop-IsPlain proof "pi_b" plain) (
              IsTyped-bind (assert_pair (prop proof "pi_c") (root "pi_c")) _
                (pair-IsTyped (prop proof "pi_c") (root "pi_c") (prop-IsPlain proof "pi_c" plain))
                λ u5. public_signals-IsTyped public_signals signals_plain)

buffer-IsTyped : (v : Js) (n : ℕ) (field : FieldPath) → IsTyped (assert_buffer_length v n field)
unfolding assert_buffer_length
buffer-IsTyped v n field f h = ground arith

inputs-IsTyped : (i : ℕ) (vs : List Js) → IsTyped (assert_inputs_from i vs)
unfolding assert_inputs_from
inputs-IsTyped i [] = λ f h. cc
inputs-IsTyped i (v ∷ vs) =
    IsTyped-bind (assert_buffer_length v 32 (at (root "calldata.publicInputs") i)) _
      (buffer-IsTyped v 32 (at (root "calldata.publicInputs") i)) λ u. inputs-IsTyped (suc i) vs

array-IsTyped :
    (o : Option (List Js)) (e : Failure)
    → is_soroban_zk_error e ≡ true
    → IsTyped (elim o [ none ↦ err e | some vs ↦ ok vs ])
array-IsTyped none e h = λ f p. cc
array-IsTyped (some vs) e h = λ f p. cc

pub validate_calldata-IsTyped : (c : SorobanProofCalldata) → IsTyped (validate_calldata c)
unfolding validate_calldata
validate_calldata-IsTyped c =
    IsTyped-bind (assert_buffer_length c.proof_a 64 (root "calldata.proofA")) _
      (buffer-IsTyped c.proof_a 64 (root "calldata.proofA"))
      λ u0.
        IsTyped-bind (assert_buffer_length c.proof_b 128 (root "calldata.proofB")) _
          (buffer-IsTyped c.proof_b 128 (root "calldata.proofB"))
          λ u1.
            IsTyped-bind (assert_buffer_length c.proof_c 64 (root "calldata.proofC")) _
              (buffer-IsTyped c.proof_c 64 (root "calldata.proofC"))
              λ u2.
                IsTyped-bind _ _ (array-IsTyped (as_array c.public_inputs) _ refl)
                  λ vs. inputs-IsTyped 0 vs
