-- ===== src/BundleIo/Shape.antt =====
-- What validateBundleShape of sdk/src/bundleIO.ts accepts.
use zkstellar.Prelude.{
  ◌≤◌, ◌≡◌, Bool, true, List, [], ◌∷◌, some, length, arith, Option-cases, inl, inr, All,
}
use zkstellar.Text.{Text, codes}
use zkstellar.Text.Equality.{text_eq_iff}
use zkstellar.Types.{Result, ok, ◌>>◌, guard, guard-eq-ok, >>=-eq-ok}
use zkstellar.Js.{Js, string, as_array, as_string, prop, is_object}
use zkstellar.Validate.{is_groth16}
use zkstellar.Bundle.{is_text, bundle_failure}
use zkstellar.Bundle.Accepted.{IsWritten, is_text-IsWritten}
use zkstellar.BundleIo.{validate_bundle_shape, array_with, all_strings, two_or_more}

abbrev pub IsString : Js → Type 0
IsString v = (s : Text) × (v ≡ string s)

abbrev pub HasTwo : Js → Type 0
HasTwo v = (vs : List Js) × (as_array v ≡ some vs) × (2 ≤ length vs)

-- A bundle with its texts, its public signals and the points of a Groth16 proof.
pub record HasShape (raw : Js) : Type 0 where
  pub is_an_object : is_object raw ≡ true
  pub circuit_written : IsWritten (prop raw "circuit")
  pub time_written : IsWritten (prop raw "generatedAt")
  pub network_written : IsWritten (prop raw "networkPassphrase")
  pub signals : List Js
  pub signals_array : as_array (prop raw "publicSignals") ≡ some signals
  pub signals_strings : All IsString signals
  pub proof_object : is_object (prop raw "proof") ≡ true
  pub proof_groth16 : prop (prop raw "proof") "protocol" ≡ string (codes "groth16")
  pub point_a : HasTwo (prop (prop raw "proof") "pi_a")
  pub point_b : HasTwo (prop (prop raw "proof") "pi_b")
  pub point_c : HasTwo (prop (prop raw "proof") "pi_c")

as_string-IsString : (v : Js) (s : Text) → as_string v ≡ some s → v ≡ string s
as_string-IsString (Js.string t) s h = cc
as_string-IsString Js.undefined s h = cc
as_string-IsString _ s h = cc

all_strings-IsString : (vs : List Js) → all_strings vs ≡ true → All IsString vs
all_strings-IsString [] h = tt
all_strings-IsString (v ∷ vs) h = elim (Option-cases (as_string v)) [
  | inl e ↦ absurd (let h' = rw (e, all_strings) at h in cc)
  | inr (s, e) ↦ ((s, as_string-IsString v s e), all_strings-IsString vs (rw (e, all_strings) at h))
]

array_with-eq-true :
    (test : List Js → Bool) (v : Js)
    → array_with test v ≡ true
    → (vs : List Js) × (as_array v ≡ some vs) × (test vs ≡ true)
array_with-eq-true test v h = elim (Option-cases (as_array v)) [
  | inl e ↦ absurd (let h' = rw (e, array_with) at h in cc)
  | inr (vs, e) ↦ (vs, e, rw (e, array_with) at h)
]

two_or_more-HasTwo : (v : Js) → array_with two_or_more v ≡ true → HasTwo v
two_or_more-HasTwo v h =
    let (vs, e, two) = array_with-eq-true two_or_more v h in (vs, e, ground arith)

is_groth16-eq-true : (v : Js) → is_groth16 (as_string v) ≡ true → v ≡ string (codes "groth16")
is_groth16-eq-true v h = elim (Option-cases (as_string v)) [
  | inl e ↦ absurd (let h' = rw e at h in cc)
  | inr (s, e) ↦
      let same : s ≡ codes "groth16" = (text_eq_iff s (codes "groth16")).0 (rw e at h) in
      as_string-IsString v (codes "groth16") (rw same at e)
]

-- A guard that was passed, and the rest.
passed :
    (test : Bool) (rest : Result (Unit {0}))
    → (guard test bundle_failure >> rest) ≡ ok tt
    → (test ≡ true) × (rest ≡ ok tt)
passed test rest h =
    let (u, first, others) = >>=-eq-ok (guard test bundle_failure) (λ u. rest) h in
    (guard-eq-ok test bundle_failure first, others)

pub validate_bundle_shape-HasShape : (raw : Js) → validate_bundle_shape raw ≡ ok tt → HasShape raw
unfolding validate_bundle_shape
validate_bundle_shape-HasShape raw h =
    let (whole, h1) = passed (is_object raw) _ h in
    let (circuit, h2) = passed (is_text (prop raw "circuit")) _ h1 in
    let (time, h3) = passed (is_text (prop raw "generatedAt")) _ h2 in
    let (network, h4) = passed (is_text (prop raw "networkPassphrase")) _ h3 in
    let (strings, h5) = passed (array_with all_strings (prop raw "publicSignals")) _ h4 in
    let (proof, h6) = passed (is_object (prop raw "proof")) _ h5 in
    let (groth, h7) = passed (is_groth16 (as_string (prop (prop raw "proof") "protocol"))) _ h6 in
    let (a, h8) = passed (array_with two_or_more (prop (prop raw "proof") "pi_a")) _ h7 in
    let (c, h9) = passed (array_with two_or_more (prop (prop raw "proof") "pi_c")) _ h8 in
    let b =
      guard-eq-ok (array_with two_or_more (prop (prop raw "proof") "pi_b")) bundle_failure h9 in
    let (vs, array, all) = array_with-eq-true all_strings (prop raw "publicSignals") strings in
    record {
      is_an_object = whole;
      circuit_written = is_text-IsWritten (prop raw "circuit") circuit;
      time_written = is_text-IsWritten (prop raw "generatedAt") time;
      network_written = is_text-IsWritten (prop raw "networkPassphrase") network;
      signals = vs;
      signals_array = array;
      signals_strings = all_strings-IsString vs all;
      proof_object = proof;
      proof_groth16 = is_groth16-eq-true (prop (prop raw "proof") "protocol") groth;
      point_a = two_or_more-HasTwo (prop (prop raw "proof") "pi_a") a;
      point_b = two_or_more-HasTwo (prop (prop raw "proof") "pi_b") b;
      point_c = two_or_more-HasTwo (prop (prop raw "proof") "pi_c") c;
    }
