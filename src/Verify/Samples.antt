-- ===== src/Verify/Samples.antt =====
-- A server, for the tests: it finds the transaction in the third round.
use zkstellar.Prelude.{ℕ, zero, suc, ◌+◌, ◌*◌, true, [], ◌∷◌, none, some}
use zkstellar.Text.{codes}
use zkstellar.Types.{Result, ok}
use zkstellar.Js.{string, boolean}
use zkstellar.Validate.Samples.{small_proof, small_signals}
use zkstellar.Verify.Server.{
  Server, DiagnosticEvent, Success, TransactionStatus, not_found, succeeded, pending, simulated,
  ProofBundle, VerifyResult,
}
use zkstellar.Verify.Poll.{VerifyOptions}

abbrev verdict_event : DiagnosticEvent
verdict_event = record {
  topics = string (codes "fn_return") ∷ string (codes "verify_proof") ∷ [];
  event_data = boolean true;
}

abbrev pub found_transaction : Success
found_transaction = record {
  tx_hash = codes "ab01";
  ledger = some 77;
  fee_charged = some (codes "100");
  return_value = none;
  diagnostic_events = some (verdict_event ∷ []);
}

abbrev sample_poll : ℕ → Result TransactionStatus
sample_poll zero = ok not_found
sample_poll (suc zero) = ok not_found
sample_poll (suc (suc n)) = ok (succeeded found_transaction)

abbrev pub sample_server : Server
sample_server = record {
  network = ok (codes "Test");
  account = λ key. ok 5;
  prepare = λ transaction. ok transaction;
  send = λ transaction. ok (record { status = pending; hash = codes "ab01" });
  simulate = λ transaction. ok (simulated (some (boolean true)) 250);
  started = 10;
  clock = λ round. 20 + 1200 * round;
  poll = sample_poll;
}

abbrev pub sample_bundle : ProofBundle
sample_bundle = record {
  proof = small_proof;
  public_signals = small_signals;
  circuit = codes "range_proof";
  generated_at = codes "2026-01-01T00:00:00.000Z";
  network_passphrase = codes "Test";
}

abbrev pub sample_options : VerifyOptions
sample_options = record {
  contract_id = codes "CA";
  public_key = codes "GA";
  calldata = none;
  bundle = some sample_bundle;
}

abbrev pub sample_result : VerifyResult
sample_result = record { verified = true; tx_hash = codes "ab01"; ledger = 77; fee = codes "100" }
