-- ===== src/Verify/Poll.antt =====
-- `verifyOnChain` and `verifyBatchOnChain` of sdk/src/verify.ts: submit a transaction and wait for it.
use zkstellar.Prelude.{
  ℕ, zero, suc, ◌-◌, Bool, true, false, List, [], ◌∷◌, Option, none, some, length, ltb, ◌==◌, not,
  if◌then◌else◌,
}
use zkstellar.Text.{Text}
use zkstellar.Types.{
  invalid_proof_format, transaction_rejected, network_error, soroban_zk_error, Result, ok, err,
  ◌>>=◌, ◌>>◌, guard,
}
use zkstellar.Js.{Js, JsNumber}
use zkstellar.Validate.{SorobanProofCalldata, validate_calldata}
use zkstellar.Proof.{format_proof}
use zkstellar.Verify.Errors.{catching}
use zkstellar.Verify.Server.{
  Call, verify_proof, verify_batch, SendStatus, pending, duplicate, try_again_later, send_error,
  SendResult, Success, not_found, failed, succeeded, Server, ProofBundle, VerifyResult,
  VerifyBatchResult,
}
use zkstellar.Verify.Decode.{check_network, resolve_calldata, fails, verify_result, batch_result}

abbrev pub default_timeout_ms : ℕ
default_timeout_ms = 30000

abbrev pub poll_interval_ms : ℕ
poll_interval_ms = 1000

-- The `while` loop from a round on, with fuel; `none` means that the fuel ran out.
module _ {R : Type 0} (finish : Success → Result R) (server : Server) where
  unfoldable pub poll_loop : ℕ → ℕ → Option (Result R)
  poll_loop zero round = none
  poll_loop (suc fuel) round =
      let rest = poll_loop fuel (suc round) in
      let answer : Option (Result R) = elim (server.poll round) [
        | err failure ↦ some (err failure)
        | ok not_found ↦ rest
        | ok failed ↦ some (fails transaction_rejected)
        | ok (succeeded result) ↦ some (finish result)
      ] in
      if ltb (server.clock round - server.started) default_timeout_ms
      then answer
      else some (fails network_error)

-- A round takes a second at least, so the loop makes thirty rounds at most.
abbrev pub poll_fuel : ℕ
poll_fuel = 31

abbrev accepted : SendStatus → Bool
accepted pending = true
accepted duplicate = true
accepted try_again_later = false
accepted send_error = false

-- Build, prepare, sign and send a transaction with one call.
unfoldable pub submit : Server → Text → Text → Text → Call → Result SendResult
submit server passphrase public_key contract_id call = do
  sequence ← server.account public_key
  prepared ← server.prepare (record {
    source = public_key;
    sequence = sequence;
    contract_id = contract_id;
    call = call;
    network_passphrase = passphrase;
    signed = false;
  })
  sent ← server.send (record prepared { signed = true })
  guard (accepted sent.status) (soroban_zk_error transaction_rejected)
  ok sent

-- `catch` around a computation that may run out of fuel.
abbrev pub catching_option {ℓ} : {A : Type ℓ} → Option (Result A) → Option (Result A)
catching_option none = none
catching_option (some r) = some (catching r)

-- What follows a step that can throw.
abbrev pub and_then {ℓ κ} :
    {A : Type ℓ} {B : Type κ} → Result A → (A → Option (Result B)) → Option (Result B)
and_then (ok a) f = f a
and_then (err failure) f = some (err failure)

pub record VerifyOptions : Type 0 where
  pub contract_id : Text
  pub public_key : Text
  pub calldata : Option SorobanProofCalldata
  pub bundle : Option ProofBundle

-- The `try` block of `verifyOnChain`.
unfoldable pub verify_attempt :
    Server → VerifyOptions → SorobanProofCalldata → Option (Result VerifyResult)
verify_attempt server opts calldata = and_then server.network λ passphrase.
    and_then (check_network opts.bundle passphrase) λ _.
      and_then
        (submit server passphrase opts.public_key opts.contract_id
          (verify_proof opts.public_key calldata))
        λ sent. poll_loop verify_result server poll_fuel 0

unfoldable pub verify_on_chain : Server → VerifyOptions → Option (Result VerifyResult)
verify_on_chain server opts = and_then (resolve_calldata opts.calldata opts.bundle) λ calldata.
    and_then (validate_calldata calldata) λ _. catching_option (verify_attempt server opts calldata)

-- `interface VerifierBatchItem`
pub record VerifierBatchItem : Type 0 where
  pub proof : Js
  pub public_signals : Js
  pub expiry_ledger : Option JsNumber

unfoldable pub format_items : List VerifierBatchItem → Result (List SorobanProofCalldata)
format_items [] = ok []
format_items (item ∷ items) = do
  calldata ← format_proof item.proof item.public_signals item.expiry_ledger
  rest ← format_items items
  ok (calldata ∷ rest)

unfoldable pub validate_all : List SorobanProofCalldata → Result (Unit {0})
validate_all [] = ok tt
validate_all (calldata ∷ rest) = do validate_calldata calldata; validate_all rest

-- The `try` block of `verifyBatchOnChain`.
unfoldable pub batch_attempt :
    Server → Text → Text → List SorobanProofCalldata → Option (Result VerifyBatchResult)
batch_attempt server contract_id public_key calldata = and_then server.network λ passphrase.
    and_then (submit server passphrase public_key contract_id (verify_batch public_key calldata))
      λ sent. poll_loop batch_result server poll_fuel 0

unfoldable pub verify_batch_on_chain :
    Server → Text → Text → List VerifierBatchItem → Option (Result VerifyBatchResult)
verify_batch_on_chain server contract_id public_key items =
    and_then (guard (not (length items == 0)) (soroban_zk_error invalid_proof_format)) λ _.
      and_then (format_items items) λ calldata.
        and_then (validate_all calldata)
          λ _. catching_option (batch_attempt server contract_id public_key calldata)
