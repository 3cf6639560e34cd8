-- ===== src/Verify/Batch.antt =====
-- What `verifyBatchOnChain` returns, and that it ends.
use zkstellar.Prelude.{ℕ, ◌≡◌, refl, Bool, true, false, List, some, length, not, ◌==◌, arith}
use zkstellar.Text.{Text}
use zkstellar.Types.{Result, ok, guard, guard-eq-ok}
use zkstellar.Validate.{SorobanProofCalldata}
use zkstellar.Verify.Server.{verify_batch, Success, SendResult, Server, VerifyBatchResult}
use zkstellar.Verify.Decode.{batch_result, decode_bool_array_from_diagnostics, or_empty}
use zkstellar.Verify.Poll.{
  poll_loop, poll_fuel, submit, batch_attempt, verify_batch_on_chain, VerifierBatchItem,
  format_items, validate_all,
}
use zkstellar.Verify.Outcome.{IsFound, Found, Ticks, poll_loop_sound, poll_loop_total}
use zkstellar.Verify.Verified.{
  and_then-eq-ok, and_then_total, catching_option-eq-ok, catching_option_total,
}

batch_result-eq-ok :
    (result : Success) (v : VerifyBatchResult)
    → batch_result result ≡ ok v
    → (or_empty (decode_bool_array_from_diagnostics result.diagnostic_events) ≡ v.verified)
      × (result.tx_hash ≡ v.tx_hash)
      × (result.ledger ≡ some v.ledger)
unfolding batch_result
batch_result-eq-ok result v h = ground arith

some_item : (b : Bool) → not b ≡ true → b ≡ false
some_item true p = cc
some_item false p = refl

-- If verifyBatchOnChain returns verdicts, then there was an item, formatProof encoded every item, all in
-- order went into one transaction that was accepted for submission, and some getTransaction within the
-- time limit, after answers of NOT_FOUND only, reported success, under the returned hash and ledger. The
-- verdicts are the truth values of the array in its diagnostic events, or none where there is no array.
pub verify_batch_on_chain_sound :
    (server : Server) (contract_id public_key : Text) (items : List VerifierBatchItem)
    (v : VerifyBatchResult)
    → verify_batch_on_chain server contract_id public_key items ≡ some (ok v)
    → (calldata : List SorobanProofCalldata) × (passphrase : Text) × (sent : SendResult) × (n : ℕ)
      × (result : Success) × ((length items == 0) ≡ false)
      × (format_items items ≡ ok calldata)
      × (validate_all calldata ≡ ok tt)
      × (server.network ≡ ok passphrase)
      × (submit server passphrase public_key contract_id (verify_batch public_key calldata)
          ≡ ok sent)
      × IsFound server 0 n result
      × (or_empty (decode_bool_array_from_diagnostics result.diagnostic_events) ≡ v.verified)
      × (result.tx_hash ≡ v.tx_hash)
      × (result.ledger ≡ some v.ledger)
unfolding verify_batch_on_chain batch_attempt Found
verify_batch_on_chain_sound server contract_id public_key items v h =
    let (t, nonempty, h0) = and_then-eq-ok (guard (not (length items == 0)) _) _ {b = v} h in
    let (calldata, formatted, h1) = and_then-eq-ok (format_items items) _ {b = v} h0 in
    let (u, valid, h2) = and_then-eq-ok (validate_all calldata) _ {b = v} h1 in
    let h3 =
      catching_option-eq-ok (batch_attempt server contract_id public_key calldata) {a = v} h2 in
    let (passphrase, network, h4) = and_then-eq-ok server.network _ {b = v} h3 in
    let (sent, submitted, h5) =
      and_then-eq-ok
        (submit server passphrase public_key contract_id (verify_batch public_key calldata))
        (λ sent. poll_loop batch_result server poll_fuel 0) {b = v} h4 in
    let (n, result, found, done) = poll_loop_sound batch_result server poll_fuel 0 v h5 in
    let (verdicts, same_hash, same_ledger) = batch_result-eq-ok result v done in
    (
      calldata,
      passphrase,
      sent,
      n,
      result,
      some_item (length items == 0) (guard-eq-ok _ _ nonempty),
      formatted,
      valid,
      network,
      submitted,
      found,
      verdicts,
      same_hash,
      same_ledger,
    )

batch_attempt_total :
    (server : Server) (contract_id public_key : Text) (calldata : List SorobanProofCalldata)
    → Ticks batch_result server
    → (r : Result VerifyBatchResult) × (batch_attempt server contract_id public_key calldata
        ≡ some r)
unfolding batch_attempt
batch_attempt_total server contract_id public_key calldata ticks =
    and_then_total server.network _ λ passphrase.
      and_then_total
        (submit server passphrase public_key contract_id (verify_batch public_key calldata)) _
        λ sent. poll_loop_total batch_result server poll_fuel 0 ticks (omega arith) (omega arith)

-- verifyBatchOnChain returns or throws, whatever the server answers, if each round of its loop takes a
-- second at least by the clock.
pub verify_batch_on_chain_total :
    (server : Server) (contract_id public_key : Text) (items : List VerifierBatchItem)
    → Ticks batch_result server
    → (r : Result VerifyBatchResult) × (verify_batch_on_chain server contract_id public_key items
        ≡ some r)
unfolding verify_batch_on_chain
verify_batch_on_chain_total server contract_id public_key items ticks =
    and_then_total (guard (not (length items == 0)) _) _ λ t.
      and_then_total (format_items items) _ λ calldata.
        and_then_total (validate_all calldata) _ λ u.
          catching_option_total (batch_attempt server contract_id public_key calldata)
            (batch_attempt_total server contract_id public_key calldata ticks)
