-- ===== src/Verifier/Steps.antt =====
-- Histories of the verifier: every call that can change its state, by anyone and in any ledger.
use zkstellar.Prelude.{ℕ, ◌≡◌, Bool, List, some}
use zkstellar.Contract.{Address, Auth, Bytes, Host, VerifyingKey}
use zkstellar.Verifier.{
  Returned, returns, Verifier, set_limits, update_vk, set_allowlist_mode, add_to_allowlist,
  remove_from_allowlist, propose_admin, accept_admin, upgrade, set_paused,
}
use zkstellar.Verifier.Proofs.{ProofItem, verify_proof, verify_batch}

-- The calls that change the settings. `May` says of the authorisations of a call whether the call can be
-- made; a call that panics or returns an error changes nothing and is no step.
pub data Change (May : Auth → Type 0) : Verifier → Verifier → Type 0 where
  limiting :
      (auth : Auth) (max_calls window_size : ℕ) {r r' : Verifier}
      → May auth
      → set_limits auth max_calls window_size r ≡ some (returns r')
      → Change May r r'
  keying :
      (auth : Auth) (vk : VerifyingKey) {r r' : Verifier}
      → May auth
      → update_vk auth vk r ≡ some (returns r')
      → Change May r r'
  listing :
      (auth : Auth) (enabled : Bool) {r r' : Verifier}
      → May auth
      → set_allowlist_mode auth enabled r ≡ some (returns r')
      → Change May r r'
  adding :
      (auth : Auth) (addr : Address) {r r' : Verifier}
      → May auth
      → add_to_allowlist auth addr r ≡ some (returns r')
      → Change May r r'
  removing :
      (auth : Auth) (addr : Address) {r r' : Verifier}
      → May auth
      → remove_from_allowlist auth addr r ≡ some (returns r')
      → Change May r r'
  proposing :
      (auth : Auth) (new_admin : Address) {r r' : Verifier}
      → May auth
      → propose_admin auth new_admin r ≡ some (returns r')
      → Change May r r'
  accepting :
      (auth : Auth) {r r' : Verifier}
      → May auth
      → accept_admin auth r ≡ some (returns r')
      → Change May r r'
  upgrading :
      (auth : Auth) (wasm : Bytes) {r r' : Verifier}
      → May auth
      → upgrade auth wasm r ≡ some (returns r')
      → Change May r r'
  pausing :
      (auth : Auth) (paused : Bool) {r r' : Verifier}
      → May auth
      → set_paused auth paused r ≡ some (returns r')
      → Change May r r'

pub data Step (host : Host) (May : Auth → Type 0) : Verifier → Verifier → Type 0 where
  changing : {r r' : Verifier} → Change May r r' → Step host May r r'
  verifying :
      (auth : Auth) (ledger : ℕ) (caller : Address) (item : ProofItem) (answer : Returned Bool)
      {r r' : Verifier}
      → verify_proof host auth ledger caller item r ≡ some (answer, r')
      → Step host May r r'
  batching :
      (auth : Auth) (ledger : ℕ) (caller : Address) (proofs : List ProofItem)
      (answer : Returned (List Bool)) {r r' : Verifier}
      → verify_batch host auth ledger caller proofs r ≡ some (answer, r')
      → Step host May r r'

-- `upgrade` replaces the executable, and what other code does is not known. So a further call is one of this
-- code only where the executable is the one that the history began with: an upgrade to another executable
-- is the last call of a history.
pub data Reach (host : Host) (May : Auth → Type 0) (r : Verifier) : Verifier → Type 0 where
  here : Reach host May r r
  next :
      {s t : Verifier}
      → Reach host May r s
      → s.wasm_hash ≡ r.wasm_hash
      → Step host May s t
      → Reach host May r t
