-- ===== src/Verify/Server.antt =====
-- What sdk/src/verify.ts reads from the RPC server, and the calls that it builds.
use zkstellar.Prelude.{ℕ, Bool, List, Option}
use zkstellar.Text.{Text}
use zkstellar.Types.{Result}
use zkstellar.Js.{Js}
use zkstellar.Validate.{SorobanProofCalldata}

-- The operation of a transaction: the contract's function with its arguments.
pub data Call : Type 0 where
  verify_proof : Text → SorobanProofCalldata → Call
  verify_batch : Text → List SorobanProofCalldata → Call
  registry_verify_proof : ℕ → SorobanProofCalldata → Call
  registry_verify_batch : List (ℕ × SorobanProofCalldata) → Call
  get_config version : Call
  is_nullifier_used : List ℕ → Call

pub record Transaction : Type 0 where
  pub source : Text
  pub sequence : ℕ
  pub contract_id : Text
  pub call : Call
  pub network_passphrase : Text
  pub signed : Bool

-- `sendResult.status`
pub data SendStatus : Type 0 where
  pending duplicate try_again_later send_error : SendStatus

pub record SendResult : Type 0 where
  pub status : SendStatus
  pub hash : Text

-- A diagnostic event, its topics and its data after `scValToNative`.
pub record DiagnosticEvent : Type 0 where
  pub topics : List Js
  pub event_data : Js

-- A transaction that is neither missing nor failed. `ledger` is `none` where it is no number, and
-- `fee_charged` is `none` where there is no `resultXdr`.
pub record Success : Type 0 where
  pub tx_hash : Text
  pub ledger : Option ℕ
  pub fee_charged : Option Text
  pub return_value : Option Js
  pub diagnostic_events : Option (List DiagnosticEvent)

pub data TransactionStatus : Type 0 where
  not_found failed : TransactionStatus
  succeeded : Success → TransactionStatus

-- A simulation reports an error, or the value returned, if any, with the least resource fee.
pub data Simulation : Type 0 where
  simulation_error : Text → Simulation
  simulated : Option Js → ℕ → Simulation

-- The answers of the server; each call can throw. `poll n` is the answer to the `n`-th
-- `getTransaction`, and `clock n` is `Date.now()` just before it.
pub record Server : Type 0 where
  pub network : Result Text
  pub account : Text → Result ℕ
  pub prepare : Transaction → Result Transaction
  pub send : Transaction → Result SendResult
  pub simulate : Transaction → Result Simulation
  pub started : ℕ
  pub clock : ℕ → ℕ
  pub poll : ℕ → Result TransactionStatus

-- `interface ProofBundle`. The proof and the signals come from files, so they are any values.
pub record ProofBundle : Type 0 where
  pub proof : Js
  pub public_signals : Js
  pub circuit : Text
  pub generated_at : Text
  pub network_passphrase : Text

-- `interface VerifyResult`
pub record VerifyResult : Type 0 where
  pub verified : Bool
  pub tx_hash : Text
  pub ledger : ℕ
  pub fee : Text

-- `interface VerifyBatchResult`
pub record VerifyBatchResult : Type 0 where
  pub verified : List Bool
  pub tx_hash : Text
  pub ledger : ℕ
  pub fee : Text
