-- ===== src/Version.antt =====
-- sdk/src/version.ts: the version that a deployed contract reports. The warning about another version
-- than the expected one is text on the console, and is not modelled.
pub mod Errors
pub mod Tests
use zkstellar.Prelude.{Bool, true, false}
use zkstellar.Text.{Text}
use zkstellar.Types.{
  network_error, Failure, soroban_zk_error, is_soroban_zk_error, Result, ok, err, ◌>>=◌,
}
use zkstellar.Js.{Js}
use zkstellar.Verify.Server.{Call, version, Transaction, Simulation, Server}
use zkstellar.Verify.Simulate.{returned}

-- The `catch` of `getContractVersion`: any other error counts as one of the network.
abbrev pub network_unless_typed : Failure → Failure
network_unless_typed failure = elim (is_soroban_zk_error failure) [
  | true ↦ failure
  | false ↦ soroban_zk_error network_error
]

abbrev pub caught_version : Result Js → Result Js
caught_version (ok v) = ok v
caught_version (err failure) = err (network_unless_typed failure)

-- `new Account(Keypair.random().publicKey(), "0")`
abbrev pub version_transaction : Text → Text → Text → Transaction
version_transaction passphrase ephemeral contract_id = record {
  source = ephemeral;
  sequence = 0;
  contract_id = contract_id;
  call = version;
  network_passphrase = passphrase;
  signed = false;
}

pub get_contract_version : Server → Text → Text → Result Js
get_contract_version server ephemeral contract_id = caught_version do
  passphrase ← server.network
  simulated ← server.simulate (version_transaction passphrase ephemeral contract_id)
  returned simulated
