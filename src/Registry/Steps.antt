-- ===== src/Registry/Steps.antt =====
-- Histories of the registry: every call that can change its state, by anyone.
use zkstellar.Prelude.{ℕ, ◌≡◌, Bool, List, some}
use zkstellar.Contract.{Address, Auth, Bytes, Host, VerifyingKey}
use zkstellar.Registry.{
  Registry, BatchItem, propose_admin, accept_admin, upgrade, register_circuit, remove_circuit,
  verify_proof, verify_batch,
}

-- `May` says of the authorisations of a call whether the call can be made. A call that panics changes
-- nothing and is no step.
pub data Step (host : Host) (May : Auth → Type 0) : Registry → Registry → Type 0 where
  proposing :
      (auth : Auth) (new_admin : Address) {r r' : Registry}
      → May auth
      → propose_admin auth new_admin r ≡ some r'
      → Step host May r r'
  accepting :
      (auth : Auth) {r r' : Registry}
      → May auth
      → accept_admin auth r ≡ some r'
      → Step host May r r'
  upgrading :
      (auth : Auth) (wasm : Bytes) {r r' : Registry}
      → May auth
      → upgrade auth wasm r ≡ some r'
      → Step host May r r'
  registering :
      (auth : Auth) (id : ℕ) (vk : VerifyingKey) {r r' : Registry}
      → May auth
      → register_circuit auth id vk r ≡ some r'
      → Step host May r r'
  removing :
      (auth : Auth) (id : ℕ) {r r' : Registry}
      → May auth
      → remove_circuit auth id r ≡ some r'
      → Step host May r r'
  verifying :
      (id : ℕ) (a b c : Bytes) (public_inputs : List Bytes) (success : Bool) {r r' : Registry}
      → verify_proof host id a b c public_inputs r ≡ some (success, r')
      → Step host May r r'
  batching :
      (batch : List BatchItem) (results : List Bool) {r r' : Registry}
      → verify_batch host batch r ≡ some (results, r')
      → Step host May r r'

-- `upgrade` replaces the executable, and what other code does is not known. So a further call is one of this
-- code only where the executable is the one that the history began with: an upgrade to another executable
-- is the last call of a history.
pub data Reach (host : Host) (May : Auth → Type 0) (r : Registry) : Registry → Type 0 where
  here : Reach host May r r
  next :
      {s t : Registry}
      → Reach host May r s
      → s.wasm_hash ≡ r.wasm_hash
      → Step host May s t
      → Reach host May r t
