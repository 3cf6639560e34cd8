-- ===== src/Verifier/Config.antt =====
-- The SDK's getContractConfig in front of the verifier's get_config.
use zkstellar.Prelude.{ℕ, ◌≡◌, none, some}
use zkstellar.Text.{Text, codes, pos}
use zkstellar.Types.{ok}
use zkstellar.Js.{Js, int, null, boolean, number, string, object, field, end}
use zkstellar.Verify.Server.{Call, Transaction, Simulation, simulated, simulation_error, Server}
use zkstellar.Verify.Config
use zkstellar.Contract.{Address, or_false}
use zkstellar.Verifier.{
  Error, Returned, fails, returns, Verifier, ContractConfig, Limits, get_config,
}

-- The config as the native value of the contract's struct: a map from the names of its fields, in which
-- `None` is null and an address is its text.
abbrev pub native_config : ContractConfig → Js
native_config config = object (
    field (codes "admin") (string config.config_admin) (
      field (codes "allowlist_enabled") (boolean config.config_allowlist_enabled) (
        field (codes "fee_amount") null (
          field (codes "fee_token") null (
            field (codes "paused") (boolean config.config_paused) (
              field (codes "rate_limit_max") (number (int (pos config.rate_limit_max))) (
                field (codes "rate_limit_window") (number (int (pos config.rate_limit_window)))
                  (field (codes "timelock_delay") null end))))))))

-- What the simulation of get_config answers; an error is reported with some message.
abbrev pub config_answer : (Error → Text) → ℕ → Returned ContractConfig → Simulation
config_answer message fee (fails e) = simulation_error (message e)
config_answer message fee (returns config) = simulated (some (native_config config)) fee

-- The settings, as the SDK reports them.
abbrev pub reported_config : Address → Limits → Verifier → Config.ContractConfig
reported_config admin limits r = record {
  admin = admin;
  paused = or_false r.paused;
  fee_amount = none;
  fee_token = none;
  rate_limit_max = int (pos limits.max_calls);
  rate_limit_window = int (pos limits.window_size);
  timelock_delay = none;
  allowlist_enabled = or_false r.allowlist_enabled;
}

-- A server that simulates get_config in a state of the verifier.
pub record SimulatesConfig (server : Server) (passphrase : Text) (message : Error → Text) (fee : ℕ)
    (r : Verifier) : Type 0 where
  pub answers_network : server.network ≡ ok passphrase
  pub answers_config :
      (transaction : Transaction)
      → transaction.call ≡ Call.get_config
      → server.simulate transaction ≡ ok (config_answer message fee (get_config r))
