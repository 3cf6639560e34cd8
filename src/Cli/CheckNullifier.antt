-- ===== src/Cli/CheckNullifier.antt =====
-- The command check-nullifier of sdk/src/cli.ts against sdk/src/nullifier.ts.
use zkstellar.Prelude.{
  ℕ, suc, ◌==◌, false, ◌≡◌, ◌⊎◌, inl, inr, refl, ◌∙◌, ap, sym, List, [], ◌∷◌, ◌++◌, map, none, some,
  length, arith, All,
}
use zkstellar.Text.{ℤ}
use zkstellar.Types.{Failure, Result, ok, err, ◌>>=◌, Result-cases}
use zkstellar.Js.{Js, JsNumber, as_array, buffer, array, elements, items}
use zkstellar.Bytes.{bigint_to_bytes32}
use zkstellar.Validate.{validate_proof_input, SorobanProofCalldata}
use zkstellar.Validate.Accepts.{AreSignals, ProofNumbers, validate_proof_input_sound}
use zkstellar.Proof.{format_proof, as_u32}
use zkstellar.Proof.Format.{calldata_of, format_proof-IsProofInput}
use zkstellar.Nullifier.{
  nullifier_failure, be_4, concat_inputs, compute_inputs_hash, compute_nullifier,
}
use zkstellar.Cli.{inputs_of, buffer_concat, check_nullifier, circuit_id_of, circuit_id_be}
use zkstellar.Cli.EstimateFee.{inputs_of-calldata_of, All-inputs}

concat_inputs-buffer_concat :
    (xs : List (List ℕ))
    → All (λ x. length x ≡ 32) xs
    → concat_inputs (elements (items (map buffer xs))) ≡ ok (buffer_concat xs)
unfolding concat_inputs buffer_concat
concat_inputs-buffer_concat [] h = refl
concat_inputs-buffer_concat (x ∷ xs) (h, hs) = rw (h, concat_inputs-buffer_concat xs hs)

-- The only failure of the check.
as_u32-failure :
    (circuit_id : JsNumber) (f : Failure)
    → as_u32 circuit_id nullifier_failure ≡ err f
    → f ≡ nullifier_failure
as_u32-failure JsNumber.non_integer f h = cc
as_u32-failure (JsNumber.int (ℤ.negsuc n)) f h = cc
as_u32-failure (JsNumber.int (ℤ.pos n)) f h = ground arith

-- The command and nullifier.ts check and encode the circuit id alike.
circuit_id_of-as_u32 :
    (circuit_id : JsNumber) → circuit_id_of circuit_id ≡ as_u32 circuit_id nullifier_failure
unfolding circuit_id_of
circuit_id_of-as_u32 JsNumber.non_integer = refl
circuit_id_of-as_u32 (JsNumber.int (ℤ.negsuc n)) = refl
circuit_id_of-as_u32 (JsNumber.int (ℤ.pos n)) = ground arith

circuit_id_be-be_4 : (id : ℕ) → circuit_id_be id ≡ be_4 id
unfolding circuit_id_be be_4
circuit_id_be-be_4 id = refl

module _ (sha256 : List ℕ → List ℕ) where
  -- What the registry hashes, for encoded inputs.
  abbrev pub nullifier_of : JsNumber → List (List ℕ) → Result (List ℕ)
  nullifier_of circuit_id xs = as_u32 circuit_id nullifier_failure >>= λ id.
      ok (sha256 (be_4 id ++ sha256 (buffer_concat xs)))

  check_nullifier-nullifier_of :
      (circuit_id : JsNumber) (proof public_signals : Js) (calldata : SorobanProofCalldata)
      (xs : List (List ℕ))
      → format_proof proof public_signals none ≡ ok calldata
      → inputs_of calldata ≡ xs
      → (check_nullifier sha256 circuit_id proof public_signals >>= λ report. ok report.nullifier)
        ≡ nullifier_of circuit_id xs
  unfolding check_nullifier
  check_nullifier-nullifier_of circuit_id proof public_signals calldata xs e i =
      let same = circuit_id_of-as_u32 circuit_id in
      elim (Result-cases (as_u32 circuit_id nullifier_failure)) [
        | inl (id, u) ↦ rw (same ∙ u, u, e, i, circuit_id_be-be_4 id)
        | inr (f, u) ↦ rw (same ∙ u, u)
      ]

  compute_inputs_hash-buffers :
      (x : List ℕ) (xs : List (List ℕ))
      → All (λ x. length x ≡ 32) (x ∷ xs)
      → compute_inputs_hash sha256 (array (items (map buffer (x ∷ xs))))
        ≡ ok (sha256 (buffer_concat (x ∷ xs)))
  unfolding compute_inputs_hash
  compute_inputs_hash-buffers x xs h =
      let some_input : (suc (length (elements (items (map buffer xs)))) == 0) ≡ false =
        ground arith in
      rw some_input
        (ap (λ r. r >>= λ bytes. ok (sha256 bytes)) (concat_inputs-buffer_concat (x ∷ xs) h))

  pub compute_nullifier-nullifier_of :
      (circuit_id : JsNumber) (x : List ℕ) (xs : List (List ℕ))
      → All (λ x. length x ≡ 32) (x ∷ xs)
      → compute_nullifier sha256 circuit_id (array (items (map buffer (x ∷ xs))))
        ≡ nullifier_of circuit_id (x ∷ xs)
  unfolding compute_nullifier
  compute_nullifier-nullifier_of circuit_id x xs h =
      elim (Result-cases (as_u32 circuit_id nullifier_failure)) [
        | inl (id, u) ↦ rw (u, compute_inputs_hash-buffers x xs h)
        | inr (f, u) ↦ rw u
      ]

  compute_nullifier_empty :
      (circuit_id : JsNumber)
      → compute_nullifier sha256 circuit_id (array (items [])) ≡ err nullifier_failure
  unfolding compute_nullifier compute_inputs_hash
  compute_nullifier_empty circuit_id = elim (Result-cases (as_u32 circuit_id nullifier_failure)) [
    | inl (id, u) ↦ rw u
    | inr (f, u) ↦ rw (u, as_u32-failure circuit_id f u)
  ]

  signals_nullifier :
      (circuit_id : JsNumber) (vs : List Js) (ns : List ℕ)
      → AreSignals vs ns
      → (compute_nullifier sha256 circuit_id
            (array (items (map buffer (map bigint_to_bytes32 ns ++ []))))
          ≡ nullifier_of circuit_id (map bigint_to_bytes32 ns ++ []))
        ⊎ ((vs ≡ [])
            × (ns ≡ [])
            × (compute_nullifier sha256 circuit_id
                  (array (items (map buffer (map bigint_to_bytes32 ns ++ []))))
                ≡ err nullifier_failure))
  signals_nullifier circuit_id [] [] h = inr (refl, refl, compute_nullifier_empty circuit_id)
  signals_nullifier circuit_id (v ∷ vs) (n ∷ ns) h = inl (
      compute_nullifier-nullifier_of circuit_id (bigint_to_bytes32 n)
        (map bigint_to_bytes32 ns ++ []) (All-inputs (v ∷ vs) (n ∷ ns) h))
  signals_nullifier circuit_id [] (n ∷ ns) h = absurd h
  signals_nullifier circuit_id (v ∷ vs) [] h = absurd h

  -- The same numbers, encoded by formatProof, in both.
  same_nullifier :
      (circuit_id : JsNumber) (n : ProofNumbers) (vs : List Js)
      → AreSignals vs n.signals
      → (compute_nullifier sha256 circuit_id (calldata_of n []).public_inputs
          ≡ nullifier_of circuit_id (map bigint_to_bytes32 n.signals ++ []))
        ⊎ ((vs ≡ [])
            × (n.signals ≡ [])
            × (compute_nullifier sha256 circuit_id (calldata_of n []).public_inputs
                ≡ err nullifier_failure))
  unfolding calldata_of
  same_nullifier circuit_id n vs h = signals_nullifier circuit_id vs n.signals h

  -- Let validateProofInput accept a proof with its public signals, so that formatProof encodes them.
  -- Where there is a public signal, the nullifier or the error of check-nullifier is what computeNullifier
  -- gives on the encoded public inputs, for every circuit id. Where there is none, computeNullifier
  -- throws INVALID_PUBLIC_INPUT, while check-nullifier hashes the empty text for every valid circuit id.
  pub check_nullifier-compute_nullifier :
      (circuit_id : JsNumber) (proof public_signals : Js)
      → validate_proof_input proof public_signals ≡ ok tt
      → (calldata : SorobanProofCalldata) × (format_proof proof public_signals none ≡ ok calldata)
        × (((check_nullifier sha256 circuit_id proof public_signals >>= λ r. ok r.nullifier)
              ≡ compute_nullifier sha256 circuit_id calldata.public_inputs)
            ⊎ ((as_array public_signals ≡ some [])
                × (compute_nullifier sha256 circuit_id calldata.public_inputs
                    ≡ err nullifier_failure)
                × ((check_nullifier sha256 circuit_id proof public_signals >>= λ r. ok r.nullifier)
                    ≡ nullifier_of circuit_id [])))
  check_nullifier-compute_nullifier circuit_id proof public_signals h =
      let (n, p) = validate_proof_input_sound proof public_signals h in
      let e = format_proof-IsProofInput p none h in
      let made =
        check_nullifier-nullifier_of circuit_id proof public_signals (calldata_of n []) _ e
          (inputs_of-calldata_of n) in
      (
        calldata_of n [],
        e,
        elim (same_nullifier circuit_id n p.input_elements p.input_signals) [
          | inl same ↦ inl (made ∙ sym same)
          | inr (no_element, no_signal, throws) ↦ inr (
            p.input_array ∙ ap some no_element,
            throws,
            made ∙ ap (λ ns. nullifier_of circuit_id (map bigint_to_bytes32 ns ++ [])) no_signal,
          )
        ],
      )
