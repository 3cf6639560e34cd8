-- ===== src/Verify/Config.antt =====
-- sdk/src/verify.ts, `getContractConfig`. The value of the simulation is the one after `scValToNative`.
use zkstellar.Prelude.{Bool, Option, none, some}
use zkstellar.Text.{Text, ℤ, codes}
use zkstellar.Types.{other_error, Result, ok, err, ◌>>=◌}
use zkstellar.Js.{Js, JsNumber, undefined, null, number, bigint, string, prop, truthy}
use zkstellar.Verify.Errors.{catching}
use zkstellar.Verify.Server.{Server, get_config}
use zkstellar.Verify.Simulate.{simulate_call}
use Prim.Native.String.{String}

-- `interface ContractConfig` of sdk/src/types.ts.
pub record ContractConfig : Type 0 where
  pub admin : Text
  pub paused : Bool
  pub fee_amount : Option ℤ
  pub fee_token : Option Text
  pub rate_limit_max : JsNumber
  pub rate_limit_window : JsNumber
  pub timelock_delay : Option JsNumber
  pub allowlist_enabled : Bool

-- `String(value)`, `Number(value)` and `BigInt(value)`, of values that are no string, number or bigint.
pub record Conversions : Type 0 where
  pub other_text : Js → Text
  pub other_number : Js → JsNumber
  pub other_bigint : Js → Result ℤ

-- `value.key`, which throws a TypeError on `undefined` and `null`.
abbrev pub member : Js → String → Result Js
member undefined key = err (other_error (codes "Cannot read properties of undefined or null"))
member null key = err (other_error (codes "Cannot read properties of undefined or null"))
member v key = ok (prop v key)

module _ (conversions : Conversions) where
  abbrev pub to_text : Js → Text
  to_text (string s) = s
  to_text v = conversions.other_text v

  abbrev pub to_number : Js → JsNumber
  to_number (number n) = n
  to_number v = conversions.other_number v

  abbrev pub to_bigint : Js → Result ℤ
  to_bigint (bigint n) = ok n
  to_bigint v = conversions.other_bigint v

  -- `value != null ? convert(value) : undefined`
  abbrev pub optional {ℓ} : {A : Type ℓ} → (Js → Result A) → Js → Result (Option A)
  optional convert undefined = ok none
  optional convert null = ok none
  optional convert v = convert v >>= λ a. ok (some a)

  -- The object that getContractConfig returns, its fields in order.
  unfoldable pub config_of : Js → Result ContractConfig
  config_of raw = do
    admin ← member raw "admin"
    fee_amount ← optional to_bigint (prop raw "fee_amount")
    fee_token ← optional (λ v. ok (to_text v)) (prop raw "fee_token")
    timelock_delay ← optional (λ v. ok (to_number v)) (prop raw "timelock_delay")
    ok (record {
      admin = to_text admin;
      paused = truthy (prop raw "paused");
      fee_amount = fee_amount;
      fee_token = fee_token;
      rate_limit_max = to_number (prop raw "rate_limit_max");
      rate_limit_window = to_number (prop raw "rate_limit_window");
      timelock_delay = timelock_delay;
      allowlist_enabled = truthy (prop raw "allowlist_enabled");
    })

  unfoldable pub get_contract_config : Server → Text → Text → Result ContractConfig
  get_contract_config server ephemeral contract_id = catching do
    passphrase ← server.network
    raw ← simulate_call server passphrase ephemeral contract_id get_config
    config_of raw
