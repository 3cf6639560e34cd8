-- ===== src/Verifier/Accepted.antt =====
-- Histories within one window, and how many proofs are accepted in them.
use zkstellar.Prelude.{
  ℕ, ◌+◌, ◌≤◌, ◌≡◌, inl, inr, refl, ◌∙◌, ap, subst, Bool, true, false, List, some, arith,
  if◌then◌else◌, ◌==◌, not, length,
}
use zkstellar.Contract.{Address, Auth, Host}
use zkstellar.Verifier.{
  Limits, Error, Returned, fails, returns, Verifier, or_zero, as_admin, set_limits, update_vk,
  set_allowlist_mode, add_to_allowlist, remove_from_allowlist, propose_admin, accept_admin, upgrade,
  set_paused,
}
use zkstellar.Verifier.Proofs.{ProofItem, window_start, verify_proof, verify_batch}
use zkstellar.Verifier.Calls.{verify_proof-Proved, verify_batch-BatchProved}
use zkstellar.Verifier.Steps.{
  Change, limiting, keying, listing, adding, removing, proposing, accepting, upgrading, pausing,
}
use zkstellar.Verifier.Limit.{
  one_if, is_accepted, batch_count, Grew, Grew-none, then-Grew, for_caller,
}
use zkstellar.Verifier.Growth.{Proved-Grew, BatchProved-Grew}

-- A history within one window, in which the limits stay as they are, and the number of proofs that were
-- accepted for a caller. As in `Reach`, this code makes no call after an upgrade to another executable.
pub data Within (host : Host) (May : Auth → Type 0) (who : Address) (window : ℕ) (limits : Limits)
    (r : Verifier) : ℕ → Verifier → Type 0 where
  begun : Within host May who window limits r 0 r
  altered :
      {n : ℕ} {s t : Verifier}
      → Within host May who window limits r n s
      → s.wasm_hash ≡ r.wasm_hash
      → Change May s t
      → t.limits ≡ s.limits
      → Within host May who window limits r n t
  proved :
      (auth : Auth) (ledger : ℕ) (caller : Address) (item : ProofItem) (answer : Returned Bool)
      {n : ℕ} {s t : Verifier}
      → Within host May who window limits r n s
      → s.wasm_hash ≡ r.wasm_hash
      → window_start ledger limits.window_size ≡ some window
      → verify_proof host auth ledger caller item s ≡ some (answer, t)
      → Within host May who window limits r
          (for_caller who window limits caller (one_if (is_accepted answer)) + n)
          t
  batched :
      (auth : Auth) (ledger : ℕ) (caller : Address) (proofs : List ProofItem)
      (answer : Returned (List Bool)) {n : ℕ} {s t : Verifier}
      → Within host May who window limits r n s
      → s.wasm_hash ≡ r.wasm_hash
      → window_start ledger limits.window_size ≡ some window
      → verify_batch host auth ledger caller proofs s ≡ some (answer, t)
      → Within host May who window limits r
          (for_caller who window limits caller (batch_count answer) + n)
          t

as_admin-counts :
    (auth : Auth) (r changed r' : Verifier)
    → changed.call_count ≡ r.call_count
    → as_admin auth r changed ≡ some (returns r')
    → r'.call_count ≡ r.call_count
as_admin-counts auth r changed r' same h = ground arith

guarded-counts :
    (refuse : Bool) (error : Error) (auth : Auth) (r changed r' : Verifier)
    → changed.call_count ≡ r.call_count
    → (if refuse then some (fails error) else as_admin auth r changed) ≡ some (returns r')
    → r'.call_count ≡ r.call_count
guarded-counts true error auth r changed r' same h = cc
guarded-counts false error auth r changed r' same h = as_admin-counts auth r changed r' same h

Change-counts :
    (May : Auth → Type 0) {r r' : Verifier} → Change May r r' → r'.call_count ≡ r.call_count
unfolding set_limits update_vk set_allowlist_mode add_to_allowlist remove_from_allowlist
    propose_admin accept_admin upgrade set_paused
Change-counts May (limiting auth max_calls window_size {r} {r'} m h) =
    guarded-counts (window_size == 0) _ auth r _ r' refl h
Change-counts May (keying auth vk {r} {r'} m h) =
    guarded-counts (not (length vk.ic == 2)) _ auth r _ r' refl h
Change-counts May (listing auth enabled {r} {r'} m h) = as_admin-counts auth r _ r' refl h
Change-counts May (adding auth addr {r} {r'} m h) = as_admin-counts auth r _ r' refl h
Change-counts May (removing auth addr {r} {r'} m h) = as_admin-counts auth r _ r' refl h
Change-counts May (proposing auth new_admin {r} {r'} m h) = as_admin-counts auth r _ r' refl h
Change-counts May (accepting auth {r} {r'} m h) = ground arith
Change-counts May (upgrading auth wasm {r} {r'} m h) = as_admin-counts auth r _ r' refl h
Change-counts May (pausing auth paused {r} {r'} m h) = as_admin-counts auth r _ r' refl h

module _ (host : Host) (May : Auth → Type 0) (who : Address) (window : ℕ) (limits : Limits) where
  Within-Grew :
      (r : Verifier) {n : ℕ} {s : Verifier}
      → r.limits ≡ some limits
      → Within host May who window limits r n s
      → Grew who window limits n r s
  Within-Grew r l begun = Grew-none who window limits r r refl refl
  Within-Grew r {n = n} {s = t} l (altered {s = s} h code c same) =
      subst (λ m. Grew who window limits m r t) (let m : 0 + n ≡ n = omega arith in m)
        (then-Grew who window limits n 0 r s t (Within-Grew r l h) (
          Grew-none who window limits s t (ap (λ f. or_zero (f who window)) (Change-counts May c))
            same))
  Within-Grew r l (proved auth ledger caller item answer {n} {s} {t} h code w ran) =
      let g = Within-Grew r l h in
      then-Grew who window limits n _ r s t g (
        Proved-Grew host who window limits ledger caller item s (g.kept_limits ∙ l) w
          (verify_proof-Proved host auth ledger caller item s answer t ran))
  Within-Grew r l (batched auth ledger caller proofs answer {n} {s} {t} h code w ran) =
      let g = Within-Grew r l h in
      then-Grew who window limits n _ r s t g (
        BatchProved-Grew host who window limits ledger caller proofs s (g.kept_limits ∙ l) w
          (verify_batch-BatchProved host auth ledger caller proofs s answer t ran))

  -- Whatever calls anyone makes in the ledgers of one window, in any order and also while the other
  -- settings change, verify_proof and verify_batch accept no more than `max_calls` proofs for a caller, if
  -- the limits are not changed in between and the executable is not replaced by another.
  pub accepted_within_limit :
      (n : ℕ) (r s : Verifier)
      → r.limits ≡ some limits
      → Within host May who window limits r n s
      → n ≤ limits.max_calls
  accepted_within_limit n r s l h =
      let g = Within-Grew r l h in
      let p = g.grew_by in elim g.grew_within [ inl below ↦ omega arith | inr same ↦ omega arith ]
