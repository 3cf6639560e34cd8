-- ===== src/Demo/Scenarios.antt =====
-- demo/src/run.ts, from the answers on: the three scenarios, as the lines that are printed. A run that
-- throws is its error. The prover of snarkjs and the RPC server are parameters.
use zkstellar.Prelude.{ℕ, suc, Bool, List, [], ◌∷◌, ◌++◌, none, some, leb, if◌then◌else◌}
use zkstellar.Text.{Text, codes, pos, print_decimal}
use zkstellar.Types.{Failure, zk_input_error, Result, ok, err, ◌>>=◌}
use zkstellar.Js.{Js, string, array, items}
use zkstellar.Validate.{SorobanProofCalldata}
use zkstellar.Proof.{format_proof}
use zkstellar.Poseidon.{PoseidonConstants, poseidon}
use zkstellar.Verify.Server.{Server}
use zkstellar.Verify.Simulate.{verify_via_registry}
use zkstellar.Demo.{Endpoint, url, inherited}
use zkstellar.Demo.Answers.{Verbosity, quiet, normal, verbose, Answers}

abbrev pub poseidon_preimage_circuit_id : ℕ
poseidon_preimage_circuit_id = 1

abbrev pub out_of_field_public_input : Text
out_of_field_public_input =
    codes "21888242871839275222246405745257275088548364400416034343698204186575808495617"

abbrev order : Verbosity → ℕ
order quiet = 0
order normal = 1
order verbose = 2

-- `log`
abbrev pub log : Verbosity → Text → Verbosity → List Text
log verbosity line level = if leb (order level) (order verbosity) then line ∷ [] else []

abbrev shown : Bool → Text
shown verified = if verified then codes "true" else codes "false"

abbrev endpoint_text : Endpoint → Text → Text
endpoint_text (url u) other = u
endpoint_text inherited other = other

-- What scenario 3 does with the outcome of formatProof; the error's code and message are printed by a
-- parameter.
abbrev pub third_outcome : (Failure → List Text) → Result SorobanProofCalldata → Result (List Text)
third_outcome error_lines (ok calldata) = ok (codes "(unexpected: formatProof did not throw)" ∷ [])
third_outcome error_lines (err (zk_input_error field reason code)) = ok (
    codes "✗ formatProof threw ZkInputError, as expected:"
    ∷ error_lines (zk_input_error field reason code))
third_outcome error_lines (err failure) = err failure

abbrev pub third_scenario : (Failure → List Text) → Js → Result (List Text)
third_scenario error_lines proof =
    third_outcome error_lines
      (format_proof proof (array (items (string out_of_field_public_input ∷ []))) none)

module _ (server : Endpoint → Server) (ephemeral : Text) where
  pub verify_and_report : Js → Js → Endpoint → Text → Verbosity → Result (List Text)
  verify_and_report proof public_signals rpc_url contract_id verbosity = do
    calldata ← format_proof proof public_signals none
    verified ← verify_via_registry (server rpc_url) ephemeral (record {
      registry_contract_id = contract_id;
      circuit_id = poseidon_preimage_circuit_id;
      calldata = some calldata;
      bundle = none;
    })
    ok (
        log verbosity (codes "simulating verify_proof against the registry...") verbose
        ++ ((codes "✓ Proof verified on-chain: " ++ shown verified) ∷ []))

  -- `main`, behind the questions. `full_prove` is `snarkjs.groth16.fullProve` on the texts of the two inputs.
  pub run_scenarios :
      PoseidonConstants
      → (Text → Text → Result (Js × Js))
      → (Failure → List Text)
      → Text
      → Answers
      → Result (List Text)
  run_scenarios constants full_prove error_lines inherited_text answers = do
    commitment ← poseidon constants (pos answers.secret ∷ [])
    (proof, public_signals) ←
        full_prove (print_decimal (pos answers.secret)) (print_decimal commitment)
    first ←
        verify_and_report proof public_signals answers.rpc_url answers.contract_id answers.verbosity
    wrong_commitment ← poseidon constants (pos (suc answers.secret) ∷ [])
    second ←
        verify_and_report proof (array (items (string (print_decimal wrong_commitment) ∷ [])))
          answers.rpc_url answers.contract_id answers.verbosity
    third ← third_scenario error_lines proof
    ok (
        log answers.verbosity (codes "secret: " ++ print_decimal (pos answers.secret)) verbose
        ++ (log answers.verbosity
              (codes "network: "
                ++ (answers.network
                    ++ (codes " (" ++ (endpoint_text answers.rpc_url inherited_text ++ codes ")"))))
              verbose
            ++ (log answers.verbosity (codes "commitment: " ++ print_decimal commitment) normal
                ++ (log answers.verbosity (codes "generating proof...") verbose
                    ++ (codes "\n=== Scenario 1: success — valid proof ==="
                        ∷ (first
                            ++ (codes
                                  "\n=== Scenario 2: failure — valid proof, wrong public input ==="
                                ∷ (log answers.verbosity
                                      (codes
                                        "using the same proof, but a different commitment than the one it actually proves")
                                      normal
                                    ++ (log answers.verbosity
                                          (codes
                                            "expected: verified = false (the pairing check rejects it, nothing throws)")
                                          verbose
                                        ++ (second
                                            ++ (codes
                                                  "\n=== Scenario 3: failure — malformed public input ==="
                                                ∷ (log answers.verbosity
                                                      (codes
                                                        "a public input at or beyond the BN254 field modulus is rejected before any network call")
                                                      normal
                                                    ++ third))))))))))))
