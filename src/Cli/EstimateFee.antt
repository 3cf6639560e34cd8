-- ===== src/Cli/EstimateFee.antt =====
-- What the command estimate-fee of sdk/src/cli.ts prints for a valid proof.
use zkstellar.Prelude.{
  ℕ, ◌+◌, ◌*◌, ◌≡◌, refl, ◌∙◌, ap, List, [], ◌∷◌, ◌++◌, map, none, some, length, arith, All,
  All-append,
}
use zkstellar.Types.{ok}
use zkstellar.Js.{Js, as_array, buffer, elements, items}
use zkstellar.Bytes.{bigint_to_bytes32}
use zkstellar.Validate.{validate_proof_input, SorobanProofCalldata}
use zkstellar.Validate.Accepts.{AreSignals, ProofNumbers, IsProofInput, validate_proof_input_sound}
use zkstellar.Proof.{format_proof}
use zkstellar.Proof.Format.{
  calldata_of, format_proof-IsProofInput, format_lengths, AreSignals-length,
}
use zkstellar.Cli.{bytes_of, proof_bytes, inputs_of, total_length, estimate_fee, FeeEstimate}

pub map-bytes_of : (xs : List (List ℕ)) → map bytes_of (elements (items (map buffer xs))) ≡ xs
map-bytes_of [] = refl
map-bytes_of (x ∷ xs) = ap (λ ys. x ∷ ys) (map-bytes_of xs)

total_length-All :
    (xs : List (List ℕ)) → All (λ x. length x ≡ 32) xs → total_length xs ≡ length xs * 32
unfolding total_length
total_length-All [] h = refl
total_length-All (x ∷ xs) (h, hs) = omega (arith, h, total_length-All xs hs)

length-map : (ns : List ℕ) → length (map bigint_to_bytes32 ns ++ []) ≡ length ns
length-map [] = refl
length-map (n ∷ ns) = omega (arith, length-map ns)

pub All-inputs :
    (vs : List Js) (ns : List ℕ)
    → AreSignals vs ns
    → All (λ x. length x ≡ 32) (map bigint_to_bytes32 ns ++ [])
All-inputs vs ns h =
    All-append (λ x. length x ≡ 32) (map bigint_to_bytes32 ns) [] (AreSignals-length vs ns h) tt

pub length-AreSignals : (vs : List Js) (ns : List ℕ) → AreSignals vs ns → length ns ≡ length vs
length-AreSignals [] [] h = refl
length-AreSignals (v ∷ vs) (n ∷ ns) (p, ps) = omega (arith, length-AreSignals vs ns ps)
length-AreSignals [] (n ∷ ns) h = absurd h
length-AreSignals (v ∷ vs) [] h = absurd h

-- The inputs of an encoded proof, read back as bytes.
pub inputs_of-calldata_of :
    (n : ProofNumbers) → inputs_of (calldata_of n []) ≡ map bigint_to_bytes32 n.signals ++ []
unfolding calldata_of
inputs_of-calldata_of n = map-bytes_of (map bigint_to_bytes32 n.signals ++ [])

module _ {proof public_signals : Js} {n : ProofNumbers}
    (p : IsProofInput proof public_signals n) where
  proof_bytes-calldata_of : proof_bytes (calldata_of n []) ≡ 256
  unfolding calldata_of
  proof_bytes-calldata_of =
      omega (arith, (format_lengths p).0, (format_lengths p).1, (format_lengths p).2)

  total_length-calldata_of :
      total_length (inputs_of (calldata_of n [])) ≡ length p.input_elements * 32
  total_length-calldata_of =
      ap total_length (inputs_of-calldata_of n)
      ∙ total_length-All (map bigint_to_bytes32 n.signals ++ [])
          (All-inputs p.input_elements n.signals p.input_signals)
      ∙ omega (
        arith,
        length-map n.signals,
        length-AreSignals p.input_elements n.signals p.input_signals,
      )

-- The estimate for so many signals.
abbrev pub estimate_of : ℕ → FeeEstimate
estimate_of signals = record {
  proof_byte_count = 256;
  public_byte_count = signals * 32;
  total_byte_count = 256 + signals * 32;
  estimated_fee = 1892 + signals * 224;
}

estimate_fee-lengths :
    (proof public_signals : Js) (calldata : SorobanProofCalldata) (signals : ℕ)
    → format_proof proof public_signals none ≡ ok calldata
    → proof_bytes calldata ≡ 256
    → total_length (inputs_of calldata) ≡ signals * 32
    → estimate_fee proof public_signals ≡ ok (estimate_of signals)
unfolding estimate_fee
estimate_fee-lengths proof public_signals calldata signals e h k =
    let fee : 100 + (256 + signals * 32) * 7 ≡ 1892 + signals * 224 = omega arith in
    rw (e, h, k, fee)

-- On every proof and list of public signals that validateProofInput accepts, estimate-fee finds 256 bytes
-- of proof and 32 bytes for each public signal, and estimates 1892 stroops and 224 for each public signal.
pub estimate_fee_lem :
    (proof public_signals : Js)
    → validate_proof_input proof public_signals ≡ ok tt
    → (signals : List Js) × (as_array public_signals ≡ some signals)
      × (estimate_fee proof public_signals ≡ ok (estimate_of (length signals)))
estimate_fee_lem proof public_signals h =
    let (n, p) = validate_proof_input_sound proof public_signals h in
    (
      p.input_elements,
      p.input_array,
      estimate_fee-lengths proof public_signals (calldata_of n []) (length p.input_elements)
          (format_proof-IsProofInput p none h) (proof_bytes-calldata_of p)
          (total_length-calldata_of p),
    )
