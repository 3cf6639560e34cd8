-- ===== src/Cli/Files.antt =====
-- sdk/src/cli.ts: the commands that read files.
use zkstellar.Prelude.{ℕ, List, [], ◌∷◌, ◌++◌, none, length}
use zkstellar.Text.{Text, codes}
use zkstellar.Types.{Result, ok, ◌>>=◌}
use zkstellar.Js.{Js, JsNumber}
use zkstellar.Proof.{format_proof, format_verifying_key}
use zkstellar.Nullifier.{hex_encode}
use zkstellar.Json.{json}
use zkstellar.Json.Parse.{json_parse}
use zkstellar.Bundle.{or_undefined_text, default_text}
use Prim.Native.String.{String}
use zkstellar.Cli.{
  registry_contract_id, require_flag, line, count, format_list, signal_texts, key_object, get_flag,
  estimate_fee, check_nullifier, bytes_of, inputs_of,
}

module _ (number_text : JsNumber → Text) (number_of : Text → JsNumber) (sha256 : List ℕ → List ℕ)
    (read_file : Text → Result Text) (to_number : Text → JsNumber) where
  pub read_json : Text → Result Js
  read_json path = do text ← read_file path; json_parse number_of text

  abbrev pub json_flag : List Text → String → Result Js
  json_flag args name = do path ← require_flag args (codes name); read_json path

  pub command_verify : List Text → Result (List Text)
  command_verify args = do
    proof ← json_flag args "--proof"
    public_signals ← json_flag args "--public"
    calldata ← format_proof proof public_signals none
    ok (
        codes "command: verify"
        ∷ codes "calldata encoding: ok"
        ∷ line "proofA bytes: " (count (length (bytes_of calldata.proof_a)))
        ∷ line "proofB bytes: " (count (length (bytes_of calldata.proof_b)))
        ∷ line "proofC bytes: " (count (length (bytes_of calldata.proof_c)))
        ∷ line "public inputs: " (count (length (inputs_of calldata)))
        ∷ [])

  pub command_estimate_fee : List Text → Result (List Text)
  command_estimate_fee args = do
    proof ← json_flag args "--proof"
    public_signals ← json_flag args "--public"
    estimate ← estimate_fee proof public_signals
    ok (
        codes "command: estimate-fee"
        ∷ line "proof bytes: " (count estimate.proof_byte_count)
        ∷ line "public input bytes: " (count estimate.public_byte_count)
        ∷ line "total bytes: " (count estimate.total_byte_count)
        ∷ line "estimated fee (stroops): " (count estimate.estimated_fee)
        ∷ [])

  pub command_check_nullifier : List Text → Result (List Text)
  command_check_nullifier args = do
    proof ← json_flag args "--proof"
    public_signals ← json_flag args "--public"
    circuit_id ← require_flag args (codes "--circuit-id")
    report ← check_nullifier sha256 (to_number circuit_id) proof public_signals
    ok (
        codes "command: check-nullifier"
        ∷ line "circuit id:   " (count report.circuit)
        ∷ line "public inputs: " (count (length (signal_texts public_signals)))
        ∷ (format_list (signal_texts public_signals)
            ++ ([]
                ∷ line "inputs_hash:  " (hex_encode report.inputs_hash)
                ∷ line "nullifier:    " (hex_encode report.nullifier)
                ∷ []
                ∷ codes "To check whether this proof has already been consumed on-chain, query:"
                ∷ codes "  stellar contract invoke --id <registry-contract-id> \\"
                ∷ (codes "    -- is_nullifier_used --nullifier '"
                    ++ (hex_encode report.nullifier ++ codes "'"))
                ∷ [])))

  pub command_format_vk : List Text → Result (List Text)
  command_format_vk args = do
    id ← require_flag args (codes "--id")
    key ← json_flag args "--vk"
    let registry_id = default_text (get_flag args (codes "--registry-id")) registry_contract_id
    vk ← format_verifying_key key
    vk_json ← json number_text none (key_object vk)
    ok (
        codes "command: format-vk"
        ∷ line "circuit id: " id
        ∷ line "registry: " registry_id
        ∷ line "alpha bytes: " (count (length vk.alpha))
        ∷ line "beta bytes: " (count (length vk.beta))
        ∷ line "gamma bytes: " (count (length vk.gamma))
        ∷ line "delta bytes: " (count (length vk.delta))
        ∷ line "ic points: " (count (length vk.ic))
        ∷ []
        ∷ codes "stellar contract invoke \\"
        ∷ (codes "  --id " ++ (registry_id ++ codes " \\"))
        ∷ codes "  --network testnet \\"
        ∷ codes "  --source-account <registry-admin> \\"
        ∷ (codes "  -- register_circuit --id "
            ++ (id ++ (codes " --vk '" ++ (or_undefined_text vk_json ++ codes "'"))))
        ∷ [])
