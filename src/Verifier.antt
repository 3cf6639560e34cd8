-- ===== src/Verifier.antt =====
-- contracts/verifier/src/lib.rs: the contract for one circuit, with its settings. Verifier.Proofs has the
-- verification.
pub mod Proofs
pub mod Outcome
pub mod Tried
pub mod Steps
pub mod Calls
pub mod Settings
pub mod Limit
pub mod Growth
pub mod Accepted
pub mod Expiry
pub mod Ready
pub mod Unbound
pub mod OnChain
pub mod Bundles
pub mod OnChainTests
pub mod Config
pub mod Tests
use zkstellar.Prelude.{
  ℕ, suc, ◌+◌, ◌-◌, ◌%◌, Bool, true, false, List, [], ◌∷◌, ◌++◌, Option, none, some, length, ◌==◌,
  not, ltb, ◌&&◌, if◌then◌else◌,
}
use zkstellar.Text.{text_eq}
use zkstellar.Contract.{Address, Auth, Bytes, VerifyingKey, or_false}

pub record Limits : Type 0 where
  pub max_calls : ℕ
  pub window_size : ℕ

-- `enum Error`, in the order of its codes.
pub data Error : Type 0 where
  not_initialized : Error
  rate_limit_exceeded : Error
  invalid_window_size : Error
  proof_expired : Error
  caller_not_allowed : Error
  invalid_verifying_key : Error
  no_pending_admin : Error
  contract_paused : Error

abbrev pub error_code : Error → ℕ
error_code not_initialized = 1
error_code rate_limit_exceeded = 2
error_code invalid_window_size = 3
error_code proof_expired = 4
error_code caller_not_allowed = 5
error_code invalid_verifying_key = 6
error_code no_pending_admin = 7
error_code contract_paused = 8

-- What a call returns: `Result<A, Error>`.
pub data Returned {ℓ} (A : Type ℓ) : Type ℓ where
  fails : Error → Returned A
  returns : A → Returned A

-- `struct VerificationResult`, which this contract publishes with the caller.
pub record VerificationEvent : Type 0 where
  pub success : Bool
  pub caller : Address
  pub inputs_hash : Bytes

-- The storage under each `DataKey`, the executable, and the events that were published.
pub record Verifier : Type 0 where
  pub admin : Option Address
  pub pending_admin : Option Address
  pub limits : Option Limits
  pub vk : Option VerifyingKey
  pub call_count : Address → ℕ → Option ℕ
  pub allowlist_enabled : Option Bool
  pub allowlist : Address → Option Bool
  pub verification_count : Bytes → Option ℕ
  pub paused : Option Bool
  pub wasm_hash : Bytes
  pub events : List VerificationEvent

abbrev pub or_zero : Option ℕ → ℕ
or_zero none = 0
or_zero (some n) = n

abbrev pub expected_public_input_count : ℕ
expected_public_input_count = 2

-- `__constructor`, on empty storage; its assertions panic.
pub constructed : Bytes → Address → ℕ → ℕ → VerifyingKey → Option Verifier
constructed wasm admin max_calls window_size vk =
    if ltb 0 window_size && length vk.ic == expected_public_input_count
    then some (record {
      admin = some admin;
      pending_admin = none;
      limits = some (record { max_calls = max_calls; window_size = window_size });
      vk = some vk;
      call_count = λ caller window. none;
      allowlist_enabled = none;
      allowlist = λ address. none;
      verification_count = λ commitment. none;
      paused = none;
      wasm_hash = wasm;
      events = [];
    })
    else none

-- A change that the current admin authorises. Without an admin the call returns an error; without the
-- authorisation it panics. A call that returns an error leaves the state as it is.
abbrev pub as_admin : Auth → Verifier → Verifier → Option (Returned Verifier)
as_admin auth r changed = elim r.admin [
  | none ↦ some (fails not_initialized)
  | some admin ↦ if auth admin then some (returns changed) else none
]

pub set_limits : Auth → ℕ → ℕ → Verifier → Option (Returned Verifier)
set_limits auth max_calls window_size r =
    if window_size == 0
    then some (fails invalid_window_size)
    else as_admin auth r
        (record r { limits = some (record { max_calls = max_calls; window_size = window_size }) })

pub update_vk : Auth → VerifyingKey → Verifier → Option (Returned Verifier)
update_vk auth vk r =
    if not (length vk.ic == expected_public_input_count)
    then some (fails invalid_verifying_key)
    else as_admin auth r (record r { vk = some vk })

pub set_allowlist_mode : Auth → Bool → Verifier → Option (Returned Verifier)
set_allowlist_mode auth enabled r = as_admin auth r (record r { allowlist_enabled = some enabled })

abbrev pub set_allowed : Address → Option Bool → (Address → Option Bool) → Address → Option Bool
set_allowed address value allowlist a = if text_eq a address then value else allowlist a

pub add_to_allowlist : Auth → Address → Verifier → Option (Returned Verifier)
add_to_allowlist auth addr r =
    as_admin auth r (record r { allowlist = set_allowed addr (some true) r.allowlist })

pub remove_from_allowlist : Auth → Address → Verifier → Option (Returned Verifier)
remove_from_allowlist auth addr r =
    as_admin auth r (record r { allowlist = set_allowed addr none r.allowlist })

abbrev pub is_allowlisted : Address → Verifier → Bool
is_allowlisted addr r = or_false (r.allowlist addr)

pub propose_admin : Auth → Address → Verifier → Option (Returned Verifier)
propose_admin auth new_admin r = as_admin auth r (record r { pending_admin = some new_admin })

pub accept_admin : Auth → Verifier → Option (Returned Verifier)
accept_admin auth r = elim r.pending_admin [
  | none ↦ some (fails no_pending_admin)
  | some pending ↦
      if auth pending
      then some (returns (record r { admin = some pending; pending_admin = none }))
      else none
]

-- The storage and the executable's hash after the call. What other code does from then on is not modelled:
-- histories end there.
-- The storage and the hash of the executable after the call. What other code does from then on is not
-- modelled: histories end there.
pub upgrade : Auth → Bytes → Verifier → Option (Returned Verifier)
upgrade auth new_wasm_hash r = as_admin auth r (record r { wasm_hash = new_wasm_hash })

pub set_paused : Auth → Bool → Verifier → Option (Returned Verifier)
set_paused auth paused r = as_admin auth r (record r { paused = some paused })

-- `struct ContractConfig`, without the fields that are always `None`.
pub record ContractConfig : Type 0 where
  pub config_admin : Address
  pub config_paused : Bool
  pub rate_limit_max : ℕ
  pub rate_limit_window : ℕ
  pub config_allowlist_enabled : Bool

unfoldable pub get_config : Verifier → Returned ContractConfig
get_config r = elim r.admin [
  | none ↦ fails not_initialized
  | some admin ↦ elim r.limits [
    | none ↦ fails not_initialized
    | some limits ↦ returns (record {
      config_admin = admin;
      config_paused = or_false r.paused;
      rate_limit_max = limits.max_calls;
      rate_limit_window = limits.window_size;
      config_allowlist_enabled = or_false r.allowlist_enabled;
    })
  ]
]
