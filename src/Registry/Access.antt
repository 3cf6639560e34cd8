-- ===== src/Registry/Access.antt =====
-- Who can change the settings of the registry.
use zkstellar.Prelude.{
  ℕ, ◌≡◌, refl, ◌∙◌, Bool, true, false, List, [], ◌∷◌, Option, none, some, arith,
}
use zkstellar.Contract.{Auth, Address, Bytes, Host, Outsider, Strangers}
use zkstellar.Registry.{
  Registry, BatchItem, verify_batch, propose_admin, accept_admin, upgrade, register_circuit,
  remove_circuit, as_admin,
}
use zkstellar.Registry.Outcome.{Settled, verify_proof-Settled, verify_batch-cons}
use zkstellar.Registry.Steps.{
  Step, proposing, accepting, upgrading, registering, removing, verifying, batching, Reach, here,
  next,
}

-- The settings: all but the nullifiers and the events.
pub record SameSettings (r s : Registry) : Type 0 where
  pub same_admin : s.admin ≡ r.admin
  pub same_pending : s.pending_admin ≡ r.pending_admin
  pub same_circuit : s.circuit ≡ r.circuit
  pub same_active : s.circuit_active ≡ r.circuit_active
  pub same_wasm : s.wasm_hash ≡ r.wasm_hash

same : (r : Registry) → SameSettings r r
same r = record {
  same_admin = refl;
  same_pending = refl;
  same_circuit = refl;
  same_active = refl;
  same_wasm = refl;
}

then_same : {r s t : Registry} → SameSettings r s → SameSettings s t → SameSettings r t
then_same h k = record {
  same_admin = k.same_admin ∙ h.same_admin;
  same_pending = k.same_pending ∙ h.same_pending;
  same_circuit = k.same_circuit ∙ h.same_circuit;
  same_active = k.same_active ∙ h.same_active;
  same_wasm = k.same_wasm ∙ h.same_wasm;
}

as_admin_refused :
    (auth : Auth) (r changed : Registry) (admin : Option Address)
    → r.admin ≡ admin
    → Outsider admin auth
    → as_admin auth r changed ≡ none
as_admin_refused auth r changed none e h = rw e
as_admin_refused auth r changed (some a) e h = rw (e, h)

accept_refused :
    (auth : Auth) (r : Registry) (pending : Option Address)
    → r.pending_admin ≡ pending
    → Outsider pending auth
    → accept_admin auth r ≡ none
unfolding accept_admin
accept_refused auth r none e h = rw e
accept_refused auth r (some a) e h = rw (e, h)

module _ (host : Host) where
  Settled-SameSettings :
      (id : ℕ) (a b c : Bytes) (public_inputs : List Bytes) (r : Registry) (success : Bool)
      (r' : Registry)
      → Settled host id a b c public_inputs r success r'
      → SameSettings r r'
  Settled-SameSettings id a b c public_inputs r false r' e = ground arith
  Settled-SameSettings id a b c public_inputs r true r' e = let f = e.after in ground arith

  verify_batch-SameSettings :
      (batch : List BatchItem) (r : Registry) (results : List Bool) (r' : Registry)
      → verify_batch host batch r ≡ some (results, r')
      → SameSettings r r'
  unfolding verify_batch
  verify_batch-SameSettings [] r results r' h = ground arith
  verify_batch-SameSettings (item ∷ batch) r results r' h =
      let (success, mid, rest, first, others, e) =
        verify_batch-cons host item batch r results r' h in
      then_same
        (Settled-SameSettings item.id item.proof_a item.proof_b item.proof_c item.public_inputs r
          success mid
          (verify_proof-Settled host item.id item.proof_a item.proof_b item.proof_c
            item.public_inputs r success mid first))
        (verify_batch-SameSettings batch mid rest r' others)

  Step-SameSettings :
      (admin pending : Option Address) {r r' : Registry}
      → r.admin ≡ admin
      → r.pending_admin ≡ pending
      → Step host (Strangers admin pending) r r'
      → SameSettings r r'
  unfolding propose_admin upgrade register_circuit remove_circuit
  Step-SameSettings admin pending {r} {r'} e f (proposing auth a may h) =
      absurd (cc (as_admin_refused auth r _ admin e may.0, h))
  Step-SameSettings admin pending {r} {r'} e f (accepting auth may h) =
      absurd (cc (accept_refused auth r pending f may.1, h))
  Step-SameSettings admin pending {r} {r'} e f (upgrading auth wasm may h) =
      absurd (cc (as_admin_refused auth r _ admin e may.0, h))
  Step-SameSettings admin pending {r} {r'} e f (registering auth id vk may h) =
      absurd (cc (as_admin_refused auth r _ admin e may.0, h))
  Step-SameSettings admin pending {r} {r'} e f (removing auth id may h) =
      absurd (cc (as_admin_refused auth r _ admin e may.0, h))
  Step-SameSettings admin pending {r} {r'} e f (verifying id a b c public_inputs success h) =
      Settled-SameSettings id a b c public_inputs r success r'
        (verify_proof-Settled host id a b c public_inputs r success r' h)
  Step-SameSettings admin pending {r} {r'} e f (batching batch results h) =
      verify_batch-SameSettings batch r results r' h

  -- While neither the admin nor the pending admin authorises a call, no history of the registry changes
  -- its admin, its pending admin, a circuit's key, whether a circuit is active, or the executable.
  pub settings_kept :
      (r s : Registry) → Reach host (Strangers r.admin r.pending_admin) r s → SameSettings r s
  settings_kept r s steps = all steps
    where
      all : {s : Registry} → Reach host (Strangers r.admin r.pending_admin) r s → SameSettings r s
      all here = same r
      all (next steps code step) =
          let before = all steps in
          then_same before
            (Step-SameSettings r.admin r.pending_admin before.same_admin before.same_pending step)
