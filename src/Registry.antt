-- ===== src/Registry.antt =====
-- contracts/registry/src/lib.rs: the registry of circuits, which verifies proofs and accepts each pair of
-- a circuit and its public inputs once.
pub mod Outcome
pub mod Steps
pub mod Replay
pub mod Spent
pub mod Circuits
pub mod Client
pub mod Consumed
pub mod Samples
pub mod Tests
pub mod Scalars
pub mod Access
use zkstellar.Prelude.{
  ℕ, suc, ◌+◌, Bool, true, false, List, [], ◌∷◌, ◌++◌, Option, none, some, length, ◌==◌, not,
  if◌then◌else◌,
}
use zkstellar.Contract.{
  Address, Auth, Bytes, Host, VerifyingKey, ◌>>=◌, or_false, read_g1, read_g2, compute_inputs_hash,
  to_be_bytes, has_bytes,
}

-- `struct VerificationResult`
pub record VerificationResult : Type 0 where
  pub success : Bool
  pub inputs_hash : Bytes

pub record BatchItem : Type 0 where
  pub id : ℕ
  pub proof_a : Bytes
  pub proof_b : Bytes
  pub proof_c : Bytes
  pub public_inputs : List Bytes

-- The storage under each `DataKey`, the executable, and the events that were published.
pub record Registry : Type 0 where
  pub admin : Option Address
  pub pending_admin : Option Address
  pub circuit : ℕ → Option VerifyingKey
  pub circuit_active : ℕ → Option Bool
  pub nullifiers : List Bytes
  pub wasm_hash : Bytes
  pub events : List VerificationResult

abbrev pub set_at {ℓ} : {A : Type ℓ} → ℕ → A → (ℕ → Option A) → ℕ → Option A
set_at id value storage i = if i == id then some value else storage i

-- `require_auth`: the call panics without it.
abbrev pub require_auth : Auth → Address → Registry → Option Registry
require_auth auth address r = if auth address then some r else none

-- `__constructor`, on empty storage.
abbrev pub constructed : Bytes → Address → Registry
constructed wasm admin = record {
  admin = some admin;
  pending_admin = none;
  circuit = λ id. none;
  circuit_active = λ id. none;
  nullifiers = [];
  wasm_hash = wasm;
  events = [];
}

-- A step that the current admin authorises.
abbrev pub as_admin : Auth → Registry → Registry → Option Registry
as_admin auth r changed = r.admin >>= λ admin. require_auth auth admin changed

pub propose_admin : Auth → Address → Registry → Option Registry
propose_admin auth new_admin r = as_admin auth r (record r { pending_admin = some new_admin })

pub accept_admin : Auth → Registry → Option Registry
accept_admin auth r = r.pending_admin >>= λ pending.
    require_auth auth pending (record r { admin = some pending; pending_admin = none })

-- The storage and the executable's hash after the call. What other code does from then on is not modelled:
-- histories end there.
pub upgrade : Auth → Bytes → Registry → Option Registry
upgrade auth new_wasm_hash r = as_admin auth r (record r { wasm_hash = new_wasm_hash })

pub register_circuit : Auth → ℕ → VerifyingKey → Registry → Option Registry
register_circuit auth id vk r = as_admin auth r (record r {
  circuit = set_at id vk r.circuit;
  circuit_active = set_at id true r.circuit_active;
})

pub remove_circuit : Auth → ℕ → Registry → Option Registry
remove_circuit auth id r =
    as_admin auth r (record r { circuit_active = set_at id false r.circuit_active })

abbrev pub has_circuit : ℕ → Registry → Bool
has_circuit id r = elim (r.circuit id) [ none ↦ false | some vk ↦ true ]

abbrev pub is_circuit_active : ℕ → Registry → Bool
is_circuit_active id r = or_false (r.circuit_active id)

abbrev pub is_nullifier_used : Bytes → Registry → Bool
is_nullifier_used nullifier r = has_bytes nullifier r.nullifiers

module _ (host : Host) where
  unfoldable pub compute_nullifier : ℕ → Bytes → Bytes
  compute_nullifier circuit_id inputs_hash = host.sha256 (to_be_bytes circuit_id ++ inputs_hash)

  -- The loop over the public inputs; `ic` is what stands behind the key's first point.
  unfoldable pub add_inputs : Bytes → List Bytes → List Bytes → Option Bytes
  add_inputs vk_x [] ic = some vk_x
  add_inputs vk_x (input ∷ inputs) [] = none
  add_inputs vk_x (input ∷ inputs) (point ∷ ic) =
      host.g1_mul point (host.fr_from_bytes input) >>= λ term.
      host.g1_add vk_x term >>= λ sum. add_inputs sum inputs ic

  -- `vk.ic.get(0).unwrap()` and the loop.
  abbrev pub linear_combination : List Bytes → List Bytes → Option Bytes
  linear_combination [] inputs = none
  linear_combination (first ∷ ic) inputs = add_inputs first inputs ic

  unfoldable pub pairing : VerifyingKey → Bytes → Bytes → Bytes → List Bytes → Option Bool
  unfolding add_inputs
  pairing vk proof_a proof_b proof_c public_inputs = read_g1 proof_a >>= λ a.
      read_g2 proof_b >>= λ b. read_g1 proof_c >>= λ c.
      linear_combination vk.ic public_inputs >>= λ vk_x. host.g1_neg vk.alpha >>= λ neg_alpha.
      host.g1_neg vk_x >>= λ neg_x. host.g1_neg c >>= λ neg_c.
      host.pairing_check (a ∷ neg_alpha ∷ neg_x ∷ neg_c ∷ [])
        (b ∷ vk.beta ∷ vk.gamma ∷ vk.delta ∷ [])

  abbrev pub run_with : Option VerifyingKey → Bytes → Bytes → Bytes → List Bytes → Option Bool
  run_with none proof_a proof_b proof_c public_inputs = some false
  run_with (some vk) proof_a proof_b proof_c public_inputs =
      if suc (length public_inputs) == length vk.ic
      then pairing vk proof_a proof_b proof_c public_inputs
      else some false

  pub run_verification : Registry → ℕ → Bytes → Bytes → Bytes → List Bytes → Option Bool
  run_verification r id proof_a proof_b proof_c public_inputs =
      run_with (r.circuit id) proof_a proof_b proof_c public_inputs

  abbrev pub publish : Bool → Bytes → Registry → Registry
  publish success inputs_hash r = record r {
    events = r.events ++ (record { success = success; inputs_hash = inputs_hash } ∷ []);
  }

  -- `if success { set(&DataKey::Nullifier(nullifier_key), &true); }`
  abbrev pub burn : Bool → Bytes → Registry → Registry
  burn success key r = if success then record r { nullifiers = key ∷ r.nullifiers } else r

  pub verify_proof : ℕ → Bytes → Bytes → Bytes → List Bytes → Registry → Option (Bool × Registry)
  verify_proof id proof_a proof_b proof_c public_inputs r =
      let inputs_hash = compute_inputs_hash host public_inputs in
      let nullifier_key = compute_nullifier id inputs_hash in
      if not (is_circuit_active id r)
      then some (false, publish false inputs_hash r)
      else if is_nullifier_used nullifier_key r
      then some (false, publish false inputs_hash r)
      else (run_verification r id proof_a proof_b proof_c public_inputs >>= λ success.
          some (success, publish success inputs_hash (burn success nullifier_key r)))

  -- One round of the loop of `verify_batch`.
  pub batch_round : BatchItem → Registry → Option (Bool × Registry)
  batch_round item r =
      let inputs_hash = compute_inputs_hash host item.public_inputs in
      let nullifier_key = compute_nullifier item.id inputs_hash in
      if not (is_circuit_active item.id r)
      then some (false, publish false inputs_hash r)
      else if is_nullifier_used nullifier_key r
      then some (false, publish false inputs_hash r)
      else (run_verification r item.id item.proof_a item.proof_b item.proof_c item.public_inputs
          >>= λ success. some (success, publish success inputs_hash (burn success nullifier_key r)))

  pub verify_batch : List BatchItem → Registry → Option (List Bool × Registry)
  verify_batch [] r = some ([], r)
  verify_batch (item ∷ batch) r = batch_round item r >>= λ (success, r').
      verify_batch batch r' >>= λ (results, last). some (success ∷ results, last)
