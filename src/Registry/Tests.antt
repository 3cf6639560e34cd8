-- ===== src/Registry/Tests.antt =====
-- Runs of the registry.
use zkstellar.Prelude.{map, List, ◌≡◌, ◌⊎◌, refl, true, false, [], ◌∷◌, none, some, arith, inl, inr}
use zkstellar.Text.{codes, pos}
use zkstellar.Types.{ok}
use zkstellar.Js.{int, array, items, buffer}
use zkstellar.Validate.Samples.{small_proof, small_signals}
use zkstellar.Proof.Tests.{small_numbers, without_expiry}
use zkstellar.Proof.Format.{calldata_of}
use zkstellar.Cli.{inputs_of}
use zkstellar.Verify.Simulate.{verify_via_registry}
use zkstellar.Bytes.{bigint_to_bytes32}
use zkstellar.Nullifier
use zkstellar.Verify.Server.{Server}
use zkstellar.Verify.Samples.{sample_server}
use zkstellar.Verify.Simulate.{is_nullifier_used_on_chain}
use zkstellar.Contract.{
  Bytes, VerifyingKey, append_inputs, compute_inputs_hash, has_bytes, low_bytes,
}
use zkstellar.Registry.{
  Registry, BatchItem, set_at, register_circuit, verify_proof, verify_batch, compute_nullifier,
  add_inputs, pairing, run_with, run_verification, is_circuit_active, batch_round,
}
use zkstellar.Registry.Outcome.{key_of, accepted, refused}
use zkstellar.Registry.Steps.{here, next, verifying}
use zkstellar.Registry.Replay.{Granted, verify_proof_once}
use zkstellar.Registry.Scalars.{verify_proof_again, verify_batch_malformed}
use zkstellar.Registry.Access.{SameSettings, settings_kept}
use zkstellar.Registry.Spent.{verify_proof_refines, verify_spec, Clashes, Agree}
use zkstellar.Registry.Circuits.{register_circuit_accepts}
use zkstellar.Registry.Client.{compute_nullifier_agrees, Simulates, answer}
use zkstellar.Registry.Consumed.{computed_nullifier_used, verify_via_registry_once}
use zkstellar.Registry.Samples.{
  anyone, g1, g2, nine, one, started, toy_hash, toy_hash-length, toy_host, toy_key, with_circuit,
}

registered_run : register_circuit anyone 3 toy_key started ≡ some with_circuit
unfolding register_circuit
registered_run = refl

abbrev consumed : Registry
consumed = accepted toy_host 3 (one ∷ []) with_circuit

accepted_run : verify_proof toy_host 3 g1 g2 g1 (one ∷ []) with_circuit ≡ some (true, consumed)
unfolding verify_proof run_verification pairing compute_nullifier compute_inputs_hash append_inputs
    has_bytes
accepted_run = refl

again_unused : has_bytes (key_of toy_host 3 (nine ∷ [])) consumed.nullifiers ≡ false
unfolding compute_nullifier compute_inputs_hash append_inputs has_bytes low_bytes
again_unused = refl

unused_run : has_bytes (key_of toy_host 3 (one ∷ [])) started.nullifiers ≡ false
unfolding has_bytes
unused_run = refl

paired_run : run_with toy_host (some toy_key) g1 g2 g1 (one ∷ []) ≡ some true
unfolding pairing
paired_run = refl

-- Another pair is accepted behind it.
abbrev consumed_again : Registry
consumed_again = accepted toy_host 3 (nine ∷ []) consumed

next_run : verify_proof toy_host 3 g1 g2 g1 (nine ∷ []) consumed ≡ some (true, consumed_again)
unfolding verify_proof run_verification pairing compute_nullifier compute_inputs_hash append_inputs
    has_bytes low_bytes
next_run = refl

verify_proof_again_example :
    verify_proof toy_host 3 g1 g2 g1 (nine ∷ []) consumed
    ≡ some (true, accepted toy_host 3 (nine ∷ []) consumed)
verify_proof_again_example =
    verify_proof_again toy_host 3 g1 g2 g1 (one ∷ []) (nine ∷ []) with_circuit consumed accepted_run
      refl again_unused

abbrev good_item : BatchItem
good_item = record { id = 3; proof_a = g1; proof_b = g2; proof_c = g1; public_inputs = one ∷ [] }

abbrev short_item : BatchItem
short_item = record {
  id = 3;
  proof_a = 1 ∷ [];
  proof_b = g2;
  proof_c = g1;
  public_inputs = nine ∷ [];
}

before_run : verify_batch toy_host (good_item ∷ []) with_circuit ≡ some (true ∷ [], consumed)
unfolding verify_batch batch_round run_verification pairing compute_nullifier compute_inputs_hash
    append_inputs has_bytes
before_run = refl

batch_again_run :
    verify_batch toy_host (good_item ∷ []) consumed_again
    ≡ some (false ∷ [], refused toy_host (one ∷ []) consumed_again)
unfolding verify_batch batch_round run_verification pairing compute_nullifier compute_inputs_hash
    append_inputs has_bytes low_bytes
batch_again_run = refl

verify_batch_malformed_example :
    verify_batch toy_host (good_item ∷ short_item ∷ good_item ∷ []) with_circuit ≡ none
verify_batch_malformed_example =
    verify_batch_malformed toy_host (good_item ∷ []) short_item (good_item ∷ []) toy_key
      with_circuit consumed (true ∷ []) before_run
      (record {
        item_active = refl;
        item_unused = again_unused;
        item_circuit = refl;
        item_count = refl;
        item_short = omega arith;
      })

verify_proof_once_example :
    (verify_proof toy_host 3 [] [] [] (one ∷ []) consumed_again
      ≡ some (false, refused toy_host (one ∷ []) consumed_again))
    × ¬ Granted toy_host (λ auth. Unit) 3 (one ∷ []) (good_item ∷ []) (false ∷ [])
verify_proof_once_example =
    verify_proof_once toy_host (λ auth. Unit) 3 (one ∷ []) with_circuit consumed consumed_again
      (inr (good_item ∷ [], true ∷ [], before_run, inl (refl, refl, refl)))
      (next here refl (verifying 3 g1 g2 g1 (nine ∷ []) true next_run)) refl [] [] []
      (good_item ∷ []) (false ∷ []) (refused toy_host (one ∷ []) consumed_again) batch_again_run

settings_kept_example : SameSettings with_circuit consumed_again
settings_kept_example = settings_kept toy_host with_circuit consumed_again (
    next (next here refl (verifying 3 g1 g2 g1 (one ∷ []) true accepted_run)) refl
      (verifying 3 g1 g2 g1 (nine ∷ []) true next_run))

verify_proof_refines_example :
    Clashes toy_host (3, nine ∷ []) ((3, one ∷ []) ∷ [])
    ⊎ Agree toy_host
        (verify_spec
          (is_circuit_active 3 consumed)
          (run_verification toy_host consumed 3 g1 g2 g1 (nine ∷ []))
          (3, nine ∷ [])
          ((3, one ∷ []) ∷ []))
        (verify_proof toy_host 3 g1 g2 g1 (nine ∷ []) consumed)
verify_proof_refines_example =
    verify_proof_refines toy_host 3 g1 g2 g1 (nine ∷ []) ((3, one ∷ []) ∷ []) consumed refl

register_circuit_accepts_example :
    verify_proof toy_host 3 g1 g2 g1 (one ∷ []) with_circuit ≡ some (true, consumed)
register_circuit_accepts_example =
    register_circuit_accepts toy_host anyone 3 toy_key g1 g2 g1 (one ∷ []) started with_circuit
      registered_run unused_run paired_run

compute_nullifier_agrees_example :
    Nullifier.compute_nullifier toy_hash (int (pos 3)) (array (items (map buffer (one ∷ []))))
    ≡ ok (key_of toy_host 3 (one ∷ []))
compute_nullifier_agrees_example =
    compute_nullifier_agrees toy_host 3 one [] (omega arith) (refl, tt)

-- The sample server, in front of a state of the registry.
abbrev server_at : Registry → Server
server_at r = record sample_server {
  simulate = λ transaction. ok (answer toy_host 250 r transaction.call);
}

server_at-Simulates : (r : Registry) → Simulates toy_host (server_at r) (codes "Test") 250 r
server_at-Simulates r = record { answers_network = refl; answers_calls = λ transaction. refl }

computed_nullifier_used_example :
    (nullifier : Bytes) × (Nullifier.compute_nullifier toy_hash
        (int (pos 3))
        (array (items (map buffer (one ∷ []))))
      ≡ ok nullifier)
    × (is_nullifier_used_on_chain (server_at consumed) (codes "G") (codes "C") (buffer nullifier)
        ≡ ok true)
computed_nullifier_used_example =
    computed_nullifier_used toy_host (λ auth. Unit) toy_hash-length (server_at consumed) (codes "G")
      (codes "Test") (codes "C") 250 3 one [] with_circuit consumed consumed (omega arith)
      (refl, tt) (inr (good_item ∷ [], true ∷ [], before_run, inl (refl, refl, refl))) here refl
      (server_at-Simulates consumed)

-- A circuit with two public inputs, and the public inputs that formatProof makes of two signals.
abbrev pair_key : VerifyingKey
pair_key = record toy_key { ic = g1 ∷ g1 ∷ g1 ∷ [] }

abbrev with_pair : Registry
with_pair = record started {
  circuit = set_at 3 pair_key (λ id. none);
  circuit_active = set_at 3 true (λ id. none);
}

abbrev small_inputs : List Bytes
small_inputs = inputs_of (calldata_of small_numbers [])

abbrev pair_consumed : Registry
pair_consumed = accepted toy_host 3 small_inputs with_pair

pair_run : verify_proof toy_host 3 g1 g2 g1 small_inputs with_pair ≡ some (true, pair_consumed)
unfolding verify_proof run_verification pairing add_inputs compute_nullifier compute_inputs_hash
    append_inputs has_bytes calldata_of bigint_to_bytes32 low_bytes
pair_run = refl

verify_via_registry_once_example :
    verify_via_registry (server_at pair_consumed) (codes "G") (record {
      registry_contract_id = codes "C";
      circuit_id = 3;
      calldata = some (calldata_of small_numbers []);
      bundle = none;
    })
    ≡ ok false
verify_via_registry_once_example =
    verify_via_registry_once toy_host (λ auth. Unit) (server_at pair_consumed) (codes "G")
      (codes "Test") (codes "C") 250 3 small_proof small_signals (calldata_of small_numbers [])
      with_pair pair_consumed pair_consumed without_expiry (inl (g1, g2, g1, pair_run)) here refl
      (server_at-Simulates pair_consumed)
