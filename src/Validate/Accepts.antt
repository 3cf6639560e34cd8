-- ===== src/Validate/Accepts.antt =====
-- What the validation of a proof and of its public signals accepts.
use zkstellar.Prelude.{
  ℕ, suc, ◌≤◌, ◌≡◌, inl, inr, true, List, [], ◌∷◌, some, length, arith, Option-cases,
}
use zkstellar.Types.{ok, guard, >>=-eq-ok, guard-eq-ok, root, at}
use zkstellar.Js.{Js, as_array, as_string, element, prop, is_object}
use zkstellar.Validate.{
  assert_array, validate_public_signal, validate_signals_from, validate_public_signals, assert_pair,
  validate_proof_input, is_groth16,
}
use zkstellar.Validate.Elements.{
  assert_array-eq-ok, assert_pair-IsPair, validate_public_signal-IsSignal, IsPair, IsSignal,
}

-- The signals denote the numbers, one each.
abbrev pub AreSignals : List Js → List ℕ → Type 0
AreSignals [] [] = Unit
AreSignals (v ∷ vs) (n ∷ ns) = IsSignal v n × AreSignals vs ns
AreSignals _ _ = ⊥

validate_signals_from-AreSignals :
    (i : ℕ) (vs : List Js) → validate_signals_from i vs ≡ ok tt → (ns : List ℕ) × AreSignals vs ns
unfolding validate_signals_from
validate_signals_from-AreSignals i [] h = ([], tt)
validate_signals_from-AreSignals i (v ∷ vs) h =
    let (u, here, later) = >>=-eq-ok (validate_public_signal v (at (root "publicSignals") i)) _ h in
    let (n, p) = validate_public_signal-IsSignal v (at (root "publicSignals") i) here in
    let (ns, ps) = validate_signals_from-AreSignals (suc i) vs later in (n ∷ ns, (p, ps))

-- The numbers of a proof and of its public signals.
pub record ProofNumbers : Type 0 where
  pub a_x : ℕ
  pub a_y : ℕ
  pub b_x0 : ℕ
  pub b_x1 : ℕ
  pub b_y0 : ℕ
  pub b_y1 : ℕ
  pub c_x : ℕ
  pub c_y : ℕ
  pub signals : List ℕ

-- A Groth16 proof object over those numbers, and its public signals.
pub record IsProofInput (proof public_signals : Js) (n : ProofNumbers) : Type 0 where
  pub input_object : is_object proof ≡ true
  pub input_groth16 : is_groth16 (as_string (prop proof "protocol")) ≡ true
  pub input_a : IsPair (prop proof "pi_a") n.a_x n.a_y
  pub input_rows : List Js
  pub input_b : as_array (prop proof "pi_b") ≡ some input_rows
  pub input_b_length : 2 ≤ length input_rows
  pub input_b_x : IsPair (element input_rows 0) n.b_x0 n.b_x1
  pub input_b_y : IsPair (element input_rows 1) n.b_y0 n.b_y1
  pub input_c : IsPair (prop proof "pi_c") n.c_x n.c_y
  pub input_elements : List Js
  pub input_array : as_array public_signals ≡ some input_elements
  pub input_signals : AreSignals input_elements n.signals

signals_array :
    (v : Js)
    → validate_public_signals v ≡ ok tt
    → (vs : List Js) × (as_array v ≡ some vs) × (validate_signals_from 0 vs ≡ ok tt)
unfolding validate_public_signals
signals_array v h = elim (Option-cases (as_array v)) [
  | inl e ↦ absurd (ground arith)
  | inr (vs, e) ↦ (vs, e, ground arith)
]

-- Validation accepts Groth16 proof objects over field elements only.
pub validate_proof_input_sound :
    (proof public_signals : Js)
    → validate_proof_input proof public_signals ≡ ok tt
    → (n : ProofNumbers) × IsProofInput proof public_signals n
unfolding validate_proof_input
validate_proof_input_sound proof public_signals h =
    let (u0, obj, h0) = >>=-eq-ok (guard (is_object proof) _) _ h in
    let (u1, groth, h1) =
      >>=-eq-ok (guard (is_groth16 (as_string (prop proof "protocol"))) _) _ h0 in
    let (u2, pa, h2) = >>=-eq-ok (assert_pair (prop proof "pi_a") (root "pi_a")) _ h1 in
    let (rows, rs, h3) = >>=-eq-ok (assert_array (prop proof "pi_b") (root "pi_b") 2) _ h2 in
    let (u4, pb0, h4) = >>=-eq-ok (assert_pair (element rows 0) (at (root "pi_b") 0)) _ h3 in
    let (u5, pb1, h5) = >>=-eq-ok (assert_pair (element rows 1) (at (root "pi_b") 1)) _ h4 in
    let (u6, pc, h6) = >>=-eq-ok (assert_pair (prop proof "pi_c") (root "pi_c")) _ h5 in
    let (ax, ay, a) = assert_pair-IsPair (prop proof "pi_a") (root "pi_a") pa in
    let (bx0, bx1, bx) = assert_pair-IsPair (element rows 0) (at (root "pi_b") 0) pb0 in
    let (by0, by1, by) = assert_pair-IsPair (element rows 1) (at (root "pi_b") 1) pb1 in
    let (cx, cy, c) = assert_pair-IsPair (prop proof "pi_c") (root "pi_c") pc in
    let (arr, len) = assert_array-eq-ok (prop proof "pi_b") (root "pi_b") 2 rs in
    let (vs, sig, from) = signals_array public_signals h6 in
    let (ns, sigs) = validate_signals_from-AreSignals 0 vs from in
    (
      record {
        a_x = ax;
        a_y = ay;
        b_x0 = bx0;
        b_x1 = bx1;
        b_y0 = by0;
        b_y1 = by1;
        c_x = cx;
        c_y = cy;
        signals = ns;
      },
      record {
        input_object = guard-eq-ok (is_object proof) _ obj;
        input_groth16 = guard-eq-ok (is_groth16 (as_string (prop proof "protocol"))) _ groth;
        input_a = a;
        input_rows = rows;
        input_b = arr;
        input_b_length = len;
        input_b_x = bx;
        input_b_y = by;
        input_c = c;
        input_elements = vs;
        input_array = sig;
        input_signals = sigs;
      },
    )
