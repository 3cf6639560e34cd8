-- ===== src/Demo/Tests.antt =====
-- Runs of the demo's scripts.
use zkstellar.Prelude.{◌≡◌, refl, [], ◌∷◌, none, some}
use zkstellar.Text.{codes, trim, all_digits, is_digit, value}
use zkstellar.Types.{ok}
use zkstellar.Validate.Samples.{small_proof, small_signals}
use zkstellar.Proof.Tests.{small_numbers, without_expiry}
use zkstellar.Proof.Format.{calldata_of}
use zkstellar.Verify.Errors.{to_lower_case}
use zkstellar.Demo.{inherited, testnet_registry_contract_id}
use zkstellar.Demo.Answers.{normal, ask, collect_answers, check_secret, all_base_32}
use zkstellar.Demo.Scenarios.{third_scenario}
use zkstellar.Demo.Refused.{third_scenario_throws}

third_scenario_throws_example :
    third_scenario (λ e. []) small_proof
    ≡ ok (codes "✗ formatProof threw ZkInputError, as expected:" ∷ [])
third_scenario_throws_example =
    third_scenario_throws (λ e. []) small_proof small_signals (calldata_of small_numbers [])
      without_expiry

-- An answer is asked for until it is valid.
ask_run :
    ask none check_secret (codes " " ∷ codes "abc" ∷ codes " 42 " ∷ codes "x" ∷ [])
    ≡ some (codes "42", codes "x" ∷ [])
unfolding ask trim all_digits is_digit
ask_run = refl

-- The table of networks inherits a name, which is taken for a network.
inherited_run :
    collect_answers 5 (codes "42" ∷ codes "Constructor" ∷ [] ∷ [] ∷ [])
    ≡ some (record {
      secret = 42;
      network = codes "constructor";
      rpc_url = inherited;
      contract_id = testnet_registry_contract_id;
      verbosity = normal;
    })
unfolding collect_answers ask trim all_digits is_digit value to_lower_case all_base_32
inherited_run = refl
