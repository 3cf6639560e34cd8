-- ===== src/Demo/Batch.antt =====
-- demo/src/batchVerify.ts: three proofs of three circuits in one call. The environment, the circuit ids made
-- from it, the fixtures and the RPC server are parameters; the long hints are left out.
use zkstellar.Prelude.{
  ℕ, Bool, true, false, ◌&&◌, List, [], ◌∷◌, Option, none, some, if◌then◌else◌, ◌≡◌, refl,
}
use zkstellar.Text.{Text, codes, is_empty}
use zkstellar.Types.{other_error, Result, ok, err, ◌>>=◌}
use zkstellar.Js.{Js}
use zkstellar.Verify.Errors.{to_lower_case}
use zkstellar.Verify.Server.{Server}
use zkstellar.Verify.Simulate.{RegistryBatchItem, verify_batch_via_registry}
use zkstellar.Demo.{Endpoint, networks, testnet_registry_contract_id}

pub record FixtureProof : Type 0 where
  pub proof : Js
  pub public_signals : Js

abbrev pub default_to : Option Text → Text → Text
default_to none def = def
default_to (some s) def = s

-- `Boolean(process.env.NAME)`
abbrev pub is_set : Option Text → Bool
is_set none = false
is_set (some s) = if is_empty s then false else true

-- `results.every(Boolean)`
pub every : List Bool → Bool
every [] = true
every (b ∷ results) = b && every results

-- How the script ends, with the results that it printed.
pub data Outcome : Type 0 where
  reported : List Bool → Outcome
  all_verified : List Bool → Outcome
  exit_1 : List Bool → Outcome

abbrev pub conclude : Bool → List Bool → Outcome
conclude targets_test_registry results =
    if targets_test_registry
    then if every results then all_verified results else exit_1 results
    else reported results

abbrev pub batch_item : ℕ → FixtureProof → RegistryBatchItem
batch_item id fixture = record {
  circuit_id = id;
  proof = fixture.proof;
  public_signals = fixture.public_signals;
}

-- The network of the environment, which has to be known.
abbrev pub endpoint_of : (Text → Option Text) → Result Endpoint
endpoint_of env =
    elim (networks (to_lower_case (default_to (env (codes "SOROBAN_NETWORK")) (codes "testnet")))) [
      | none ↦ err (other_error (codes "Unknown SOROBAN_NETWORK"))
      | some endpoint ↦ ok endpoint
    ]

pub batch_verify :
    (Endpoint → Server)
    → Text
    → (Text → Option Text)
    → (ℕ × ℕ × ℕ)
    → (Text → Result FixtureProof)
    → Result Outcome
batch_verify server ephemeral env (range_id, threshold_id, merkle_id) load_fixture = do
  endpoint ← endpoint_of env
  let registry = env (codes "SOROBAN_TEST_REGISTRY_CONTRACT_ID")
  range_proof ← load_fixture (codes "range_proof")
  threshold ← load_fixture (codes "threshold_2of3")
  merkle_inclusion ← load_fixture (codes "merkle_inclusion")
  results ←
      verify_batch_via_registry (server endpoint) ephemeral
        (default_to registry testnet_registry_contract_id)
        (batch_item range_id range_proof
          ∷ batch_item threshold_id threshold
          ∷ batch_item merkle_id merkle_inclusion
          ∷ [])
  ok (conclude (is_set registry) results)

-- No results at all count as all verified.
no_results_test : conclude true [] ≡ all_verified []
unfolding every
no_results_test = refl
