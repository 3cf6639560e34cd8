-- ===== src/Browser.antt =====
-- sdk/src/browser.ts: the checks of generateProof and its errors. The prover of snarkjs is a parameter.
-- Of the byte arrays only Buffers are modelled.
use zkstellar.Prelude.{ℕ, List, [], none, some, ◌≡◌, refl}
use zkstellar.Text.{Text, ℤ, pos, print_decimal, codes}
use zkstellar.Types.{
  invalid_proof_format, proof_generation_failed, soroban_zk_error, zk_input_error, not_a_bigint,
  not_a_byte_array, root, Result, ok, err, ◌>>=◌, other_error,
}
use zkstellar.Js.{Js, as_buffer, type_of, bigint, buffer, null}
use Prim.Native.String.{String}

pub record GenerateProofResult : Type 0 where
  pub proof : Js
  pub public_signals : Js

abbrev bigint_argument : Js → String → Result ℤ
bigint_argument (Js.bigint n) name = ok n
bigint_argument value name =
    err (zk_input_error (root name) (not_a_bigint (type_of value)) invalid_proof_format)

abbrev bytes_argument : Js → String → Result (List ℕ)
bytes_argument value name = elim (as_buffer value) [
  | none ↦ err (zk_input_error (root name) (not_a_byte_array (type_of value)) invalid_proof_format)
  | some bytes ↦ ok bytes
]

-- The `catch` around the prover.
abbrev proved : Result GenerateProofResult → Result GenerateProofResult
proved (ok result) = ok result
proved (err failure) = err (soroban_zk_error proof_generation_failed)

-- `full_prove` is `snarkjs.groth16.fullProve` on the texts of the two inputs.
generate_proof :
    (Text → Text → List ℕ → List ℕ → Result GenerateProofResult)
    → Js
    → Js
    → Js
    → Js
    → Result GenerateProofResult
generate_proof full_prove secret commitment wasm zkey = do
  s ← bigint_argument secret "secret"
  c ← bigint_argument commitment "commitment"
  circuit ← bytes_argument wasm "wasm"
  key ← bytes_argument zkey "zkey"
  proved (full_prove (print_decimal s) (print_decimal c) circuit key)

-- The arguments are checked from the first on, and what the prover throws is replaced.
generate_proof_tests :
    (generate_proof
        (λ s c w z. err (other_error (codes "trap")))
        (bigint (pos 1))
        (bigint (pos 2))
        (buffer [])
        (buffer [])
      ≡ err (soroban_zk_error proof_generation_failed))
    × (generate_proof
          (λ s c w z. err (other_error (codes "trap")))
          (bigint (pos 1))
          null
          null
          (buffer [])
        ≡ err
            (zk_input_error (root "commitment") (not_a_bigint (type_of null)) invalid_proof_format))
unfolding generate_proof
generate_proof_tests = (refl, refl)
