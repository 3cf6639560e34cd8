-- ===== src/Verifier/Settings.antt =====
-- Verifications leave the settings of the verifier alone, and so does everyone but the admins.
use zkstellar.Prelude.{
  ℕ, ◌≡◌, refl, ◌∙◌, ap, Bool, true, false, List, [], ◌∷◌, Option, none, some, if◌then◌else◌, ◌==◌,
  not, length, inl, inr, ◌⊎◌, ◌≢◌,
}
use zkstellar.Contract.{Address, Auth, Host, Outsider, Strangers}
use zkstellar.Verifier.{
  Error, Returned, fails, returns, Verifier, as_admin, set_limits, update_vk, set_allowlist_mode,
  add_to_allowlist, remove_from_allowlist, propose_admin, accept_admin, upgrade, set_paused,
}
use zkstellar.Verifier.Proofs.{ProofItem, batch_loop}
use zkstellar.Verifier.Outcome.{settings, same_some}
use zkstellar.Verifier.Tried.{Tried, refused, went_on, verify_one-Tried}
use zkstellar.Verifier.Calls.{
  batch_loop-cons, Proved, failed, judged, verify_proof-Proved, BatchProved, batch_failed,
  batch_judged, verify_batch-BatchProved,
}
use zkstellar.Verifier.Steps.{
  Change, limiting, keying, listing, adding, removing, proposing, accepting, upgrading, pausing,
  Step, changing, verifying, batching, Reach, here, next,
}

module _ (host : Host) where
  pub Tried-settings :
      (ledger : ℕ) (caller : Address) (item : ProofItem) {r : Verifier} {answer : Returned Bool}
      {r' : Verifier}
      → Tried host ledger caller item r answer r'
      → settings r' ≡ settings r
  Tried-settings ledger caller item (refused e) = refl
  Tried-settings ledger caller item (went_on answer r' t) =
      ap settings (t.recorded_only.1) ∙ ap settings t.is_counted.after

  batch_loop-settings :
      (ledger : ℕ) (caller : Address) (proofs : List ProofItem) (r : Verifier) (results : List Bool)
      (last : Verifier)
      → batch_loop host ledger caller proofs r ≡ some (returns results, last)
      → settings last ≡ settings r
  unfolding batch_loop
  batch_loop-settings ledger caller [] r results last h =
      ap settings ((same_some (returns []) (returns results) r last h).1)
  batch_loop-settings ledger caller (item ∷ proofs) r results last h =
      let round = batch_loop-cons host ledger caller item proofs r results last h in
      batch_loop-settings ledger caller proofs _ round.others last round.others_ran
      ∙ Tried-settings ledger caller item
          (verify_one-Tried host ledger caller item r round.answer round.between round.first_ran)

  verify_proof-settings :
      (ledger : ℕ) (caller : Address) (item : ProofItem) (r : Verifier) {answer : Returned Bool}
      {r' : Verifier}
      → Proved host ledger caller item r answer r'
      → settings r' ≡ settings r
  verify_proof-settings ledger caller item r (failed e) = refl
  verify_proof-settings ledger caller item r (judged success s ran) =
      Tried-settings ledger caller item
        (verify_one-Tried host ledger caller item r (returns success) s ran)

  verify_batch-settings :
      (ledger : ℕ) (caller : Address) (proofs : List ProofItem) (r : Verifier)
      {answer : Returned (List Bool)} {r' : Verifier}
      → BatchProved host ledger caller proofs r answer r'
      → settings r' ≡ settings r
  verify_batch-settings ledger caller proofs r (batch_failed e) = refl
  verify_batch-settings ledger caller proofs r (batch_judged results s ran) =
      batch_loop-settings ledger caller proofs r results s ran

  -- Verifications leave the settings as they are; only a change of them can do more.
  pub Step-settings :
      (May : Auth → Type 0) {r r' : Verifier}
      → Step host May r r'
      → Change May r r' ⊎ (settings r' ≡ settings r)
  Step-settings May (changing c) = inl c
  Step-settings May (verifying auth ledger caller item answer {r} {r'} h) = inr (
      verify_proof-settings ledger caller item r
        (verify_proof-Proved host auth ledger caller item r answer r' h))
  Step-settings May (batching auth ledger caller proofs answer {r} {r'} h) = inr (
      verify_batch-settings ledger caller proofs r
        (verify_batch-BatchProved host auth ledger caller proofs r answer r' h))

as_admin_refused :
    (auth : Auth) (r changed r' : Verifier) (admin : Option Address)
    → r.admin ≡ admin
    → Outsider admin auth
    → as_admin auth r changed ≢ some (returns r')
as_admin_refused auth r changed r' none e o h = let h' = rw e at h in cc
as_admin_refused auth r changed r' (some a) e o h = let h' = rw (e, o) at h in cc

accept_refused :
    (auth : Auth) (r r' : Verifier) (pending : Option Address)
    → r.pending_admin ≡ pending
    → Outsider pending auth
    → accept_admin auth r ≢ some (returns r')
unfolding accept_admin
accept_refused auth r r' none e o h = let h' = rw e at h in cc
accept_refused auth r r' (some a) e o h = let h' = rw (e, o) at h in cc

guarded_refused :
    (refuse : Bool) (error : Error) (auth : Auth) (r changed r' : Verifier)
    → as_admin auth r changed ≢ some (returns r')
    → (if refuse then some (fails error) else as_admin auth r changed) ≢ some (returns r')
guarded_refused true error auth r changed r' denied h = cc
guarded_refused false error auth r changed r' denied h = denied h

Change-refused :
    (admin pending : Option Address) (r r' : Verifier)
    → r.admin ≡ admin
    → r.pending_admin ≡ pending
    → ¬ Change (Strangers admin pending) r r'
unfolding set_limits update_vk set_allowlist_mode add_to_allowlist remove_from_allowlist
    propose_admin upgrade set_paused
Change-refused admin pending r r' e f (limiting auth max_calls window_size (o, _) h) =
    guarded_refused (window_size == 0) _ auth r _ r' (as_admin_refused auth r _ r' admin e o) h
Change-refused admin pending r r' e f (keying auth vk (o, _) h) =
    guarded_refused (not (length vk.ic == 2)) _ auth r _ r' (as_admin_refused auth r _ r' admin e o)
      h
Change-refused admin pending r r' e f (listing auth enabled (o, _) h) =
    as_admin_refused auth r _ r' admin e o h
Change-refused admin pending r r' e f (adding auth addr (o, _) h) =
    as_admin_refused auth r _ r' admin e o h
Change-refused admin pending r r' e f (removing auth addr (o, _) h) =
    as_admin_refused auth r _ r' admin e o h
Change-refused admin pending r r' e f (proposing auth new_admin (o, _) h) =
    as_admin_refused auth r _ r' admin e o h
Change-refused admin pending r r' e f (accepting auth (_, o) h) =
    accept_refused auth r r' pending f o h
Change-refused admin pending r r' e f (upgrading auth wasm (o, _) h) =
    as_admin_refused auth r _ r' admin e o h
Change-refused admin pending r r' e f (pausing auth paused (o, _) h) =
    as_admin_refused auth r _ r' admin e o h

module _ (host : Host) where
  -- While neither the admin nor the pending admin authorises a call, no history of the verifier changes its
  -- admin, its pending admin, its limits, its key, its allowlist or whether that is enforced, whether it is
  -- paused, or its executable.
  pub only_admins_change :
      (r s : Verifier)
      → Reach host (Strangers r.admin r.pending_admin) r s
      → settings s ≡ settings r
  only_admins_change r s steps = all steps
    where
      all :
          {s : Verifier}
          → Reach host (Strangers r.admin r.pending_admin) r s
          → settings s ≡ settings r
      all here = refl
      all (next {s} {t} steps code step) =
          let before = all steps in
          elim (Step-settings host (Strangers r.admin r.pending_admin) step) [
            | inl change ↦ absurd (
                Change-refused r.admin r.pending_admin s t (ap (λ (x : Verifier). x.admin) before)
                  (ap (λ (x : Verifier). x.pending_admin) before) change)
            | inr same ↦ same ∙ before
          ]
