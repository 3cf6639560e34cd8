-- ===== src/Cli/Tests.antt =====
-- Runs of the commands, over a function that stands for SHA-256.
use zkstellar.Prelude.{◌≡◌, ◌⊎◌, refl, [], ◌∷◌, none, some}
use zkstellar.Text.{codes, pos}
use zkstellar.Types.{ok, err, ◌>>=◌}
use zkstellar.Js.{int, as_array}
use zkstellar.Validate.{SorobanProofCalldata}
use zkstellar.Validate.Samples.{small_proof, small_signals}
use zkstellar.Validate.Tests.{small_proof_accepted}
use zkstellar.Proof.{format_proof}
use zkstellar.Nullifier.{compute_nullifier, nullifier_failure}
use zkstellar.Bundle.Tests.{toy_hash}
use zkstellar.Cli.{get_flag, split_commas, check_nullifier}
use zkstellar.Cli.CheckNullifier.{nullifier_of, check_nullifier-compute_nullifier}

get_flag_run :
    get_flag (codes "--id" ∷ codes "7" ∷ codes "--id" ∷ codes "8" ∷ []) (codes "--id")
    ≡ some (codes "7")
unfolding get_flag
get_flag_run = refl

-- A flag at the end has no value.
last_flag_run : get_flag (codes "--vk" ∷ codes "--id" ∷ []) (codes "--id") ≡ none
unfolding get_flag
last_flag_run = refl

split_commas_run : split_commas (codes "1,,23") ≡ codes "1" ∷ [] ∷ codes "23" ∷ []
unfolding split_commas
split_commas_run = refl

check_nullifier-compute_nullifier_example :
    (calldata : SorobanProofCalldata) × (format_proof small_proof small_signals none ≡ ok calldata)
    × (((check_nullifier toy_hash (int (pos 2)) small_proof small_signals >>= λ r. ok r.nullifier)
          ≡ compute_nullifier toy_hash (int (pos 2)) calldata.public_inputs)
        ⊎ ((as_array small_signals ≡ some [])
            × (compute_nullifier toy_hash (int (pos 2)) calldata.public_inputs
                ≡ err nullifier_failure)
            × ((check_nullifier toy_hash (int (pos 2)) small_proof small_signals >>= λ r.
                  ok r.nullifier)
                ≡ nullifier_of toy_hash (int (pos 2)) [])))
check_nullifier-compute_nullifier_example =
    check_nullifier-compute_nullifier toy_hash (int (pos 2)) small_proof small_signals
      small_proof_accepted
