-- ===== src/Version/Errors.antt =====
-- The results and errors of sdk/src/version.ts.
use zkstellar.Prelude.{true, ◌≡◌, ◌⊎◌, inl, inr, refl, Bool-cases, none, some}
use zkstellar.Text.{Text}
use zkstellar.Types.{
  network_error, contract_invocation_failed, Failure, soroban_zk_error, is_soroban_zk_error, Result,
  ok, err, Result-cases,
}
use zkstellar.Js.{Js}
use zkstellar.Verify.Server.{Server, Simulation, simulated}
use zkstellar.Verify.Simulate.{returned}
use zkstellar.Version.{
  caught_version, network_unless_typed, version_transaction, get_contract_version,
}

-- What getContractVersion does when the server throws.
abbrev pub Thrown : Failure → Result Js → Type 0
Thrown failure r =
    (r ≡ err (soroban_zk_error network_error))
    ⊎ ((is_soroban_zk_error failure ≡ true) × (r ≡ err failure))

thrown : (failure : Failure) → Thrown failure (caught_version (err failure))
thrown failure = elim (Bool-cases (is_soroban_zk_error failure)) [
  | inl typed ↦ inr (typed, rw (typed, caught_version, network_unless_typed))
  | inr other ↦ inl (rw (other, caught_version, network_unless_typed))
]

-- What the simulation of `version` comes to.
abbrev pub Reported : Simulation → Result Js → Type 0
Reported (simulated (some v) fee) r = r ≡ ok v
Reported _ r = r ≡ err (soroban_zk_error contract_invocation_failed)

reported : (simulation : Simulation) → Reported simulation (caught_version (returned simulation))
reported (Simulation.simulated (some v) fee) = refl
reported (Simulation.simulated none fee) = refl
reported (Simulation.simulation_error message) = refl

-- getContractVersion ends in one of three ways. The server throws when it is asked for the network, or
-- when it simulates the call: then the error is thrown on if it is a SorobanZkError, and is otherwise
-- NETWORK_ERROR. Or the server simulates the call: then the result is the value that the contract
-- returned, or CONTRACT_INVOCATION_FAILED where the simulation failed or returned nothing.
pub get_contract_version_cases :
    (server : Server) (ephemeral contract_id : Text)
    → ((failure : Failure) × (server.network ≡ err failure)
        × Thrown failure (get_contract_version server ephemeral contract_id))
      ⊎ ((passphrase : Text) × (server.network ≡ ok passphrase)
          × (((failure : Failure) × (server.simulate
                    (version_transaction passphrase ephemeral contract_id)
                  ≡ err failure)
                × Thrown failure (get_contract_version server ephemeral contract_id))
              ⊎ ((simulation : Simulation) × (server.simulate
                      (version_transaction passphrase ephemeral contract_id)
                    ≡ ok simulation)
                  × Reported simulation (get_contract_version server ephemeral contract_id))))
unfolding get_contract_version
get_contract_version_cases server ephemeral contract_id = elim (Result-cases server.network) [
  | inr (failure, e) ↦ inl (failure, e, rw e (thrown failure))
  | inl (passphrase, e) ↦ inr (
    passphrase,
    e,
    elim (Result-cases (server.simulate (version_transaction passphrase ephemeral contract_id))) [
      | inr (failure, u) ↦ inl (failure, u, rw (e, u) (thrown failure))
      | inl (simulation, u) ↦ inr (simulation, u, rw (e, u) (reported simulation))
    ],
  )
]
