-- ===== src/Cli/Run.antt =====
-- sdk/src/cli.ts, `runCli`: the choice of the command. Its result is the text that is printed.
use zkstellar.Prelude.{ℕ, ◌≡◌, refl, List, [], ◌∷◌, ◌++◌, Option, none, some, if◌then◌else◌}
use zkstellar.Text.{Text, codes, text_eq}
use zkstellar.Types.{Result, ok, ◌>>=◌}
use zkstellar.Js.{Js, JsNumber}
use zkstellar.Poseidon.{PoseidonConstants}
use zkstellar.Bundle.{Violation}
use zkstellar.Cli.{command_prove, command_merkle_root}
use zkstellar.Cli.Files.{
  command_verify, command_estimate_fee, command_format_vk, command_check_nullifier,
}
use zkstellar.Cli.Bundles.{command_inspect, command_decode_bundle}

-- `lines.join("\n")`
pub join_lines : List Text → Text
join_lines [] = []
join_lines (text ∷ []) = text
join_lines (text ∷ more ∷ texts) = text ++ (0x0a ∷ join_lines (more ∷ texts))

abbrev pub usage : Text
unfolding join_lines
usage = join_lines (
    codes "zksoroban <command> [options]"
    ∷ []
    ∷ codes "Commands:"
    ∷ codes "  prove          --secret <decimal>                     compute Poseidon commitment"
    ∷ codes "  verify         --proof <file> --public <file>         encode to Soroban calldata"
    ∷ codes "  inspect        --bundle <file>                        print ProofBundle metadata"
    ∷ codes "  estimate-fee   --proof <file> --public <file>         deterministic fee estimate"
    ∷ codes
        "  format-vk      --vk <file> --id <u32> [--registry-id <id>]  encode VK for register_circuit"
    ∷ codes
        "  decode-bundle  --bundle <file>                        decode and integrity-check a ProofBundle"
    ∷ codes
        "  check-nullifier --proof <file> --public <file> --circuit-id <u32>  compute the registry nullifier hash"
    ∷ codes
        "  merkle-root    --leaves <n1,n2,...>                   compute Poseidon Merkle root from a list of field elements"
    ∷ [])

pub data Command : Type 0 where
  prove_command verify_command inspect_command estimate_fee_command format_vk_command
        decode_bundle_command check_nullifier_command merkle_root_command :
      Command

-- The `case` labels, in order.
pub command_of : Text → Option Command
command_of name =
    if text_eq name (codes "prove")
    then some prove_command
    else if text_eq name (codes "verify")
    then some verify_command
    else if text_eq name (codes "inspect")
    then some inspect_command
    else if text_eq name (codes "estimate-fee")
    then some estimate_fee_command
    else if text_eq name (codes "format-vk")
    then some format_vk_command
    else if text_eq name (codes "decode-bundle")
    then some decode_bundle_command
    else if text_eq name (codes "check-nullifier")
    then some check_nullifier_command
    else if text_eq name (codes "merkle-root")
    then some merkle_root_command
    else none

module _ (constants : PoseidonConstants) (other_text : Js → Text)
    (violation_text : Violation → Text) (number_text : JsNumber → Text)
    (number_of : Text → JsNumber) (sha256 : List ℕ → List ℕ) (read_file : Text → Result Text)
    (to_number : Text → JsNumber) (now : Text) where
  abbrev pub run_command : Command → List Text → Result (List Text)
  run_command prove_command args = command_prove constants args
  run_command verify_command args =
      command_verify number_text number_of sha256 read_file to_number args
  run_command inspect_command args =
      command_inspect other_text violation_text number_text number_of sha256 read_file to_number
        args
  run_command estimate_fee_command args =
      command_estimate_fee number_text number_of sha256 read_file to_number args
  run_command format_vk_command args =
      command_format_vk number_text number_of sha256 read_file to_number args
  run_command decode_bundle_command args =
      command_decode_bundle other_text violation_text number_text number_of sha256 read_file
        to_number now args
  run_command check_nullifier_command args =
      command_check_nullifier number_text number_of sha256 read_file to_number args
  run_command merkle_root_command args = command_merkle_root constants args

  -- Without a command, `command` is undefined.
  pub run_cli : List Text → Result Text
  run_cli [] = ok usage
  run_cli (name ∷ args) = elim (command_of name) [
    | none ↦ ok usage
    | some command ↦ do lines ← run_command command args; ok (join_lines lines)
  ]

command_of_test : command_of (codes "merkle-root") ≡ some merkle_root_command
unfolding command_of
command_of_test = refl
