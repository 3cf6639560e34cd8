-- ===== src/Verifier/Tried.antt =====
-- What one verification comes to: it is refused, or counted and then looked at.
use zkstellar.Prelude.{
  ℕ, ◌≡◌, inl, inr, refl, sym, subst, Bool, Option, none, some, ◌&&◌, not, Bool-cases,
}
use zkstellar.Contract.{Address, Host, >>=-eq-some, or_false}
use zkstellar.Verifier.{
  Limits, Error, not_initialized, contract_paused, caller_not_allowed, Returned, fails, returns,
  Verifier, is_allowlisted,
}
use zkstellar.Verifier.Proofs.{
  ProofItem, count_call, verify_counted, after_count, verify_limited, verify_one,
}
use zkstellar.Verifier.Outcome.{
  same_some, IsCounted, count_call-IsCounted, Recorded, verify_counted-Recorded,
}

module _ (host : Host) where
  -- What comes of a verification: it is refused, and nothing has changed, or it is counted and then looked at.
  pub record IsTried (ledger : ℕ) (caller : Address) (item : ProofItem) (r : Verifier)
      (answer : Returned Bool) (r' : Verifier) : Type 0 where
    pub the_limits : Limits
    pub has_limits : r.limits ≡ some the_limits
    pub counted : Verifier
    pub is_counted : IsCounted ledger caller the_limits r counted
    pub tried : verify_counted host ledger item counted ≡ some (answer, r')
    pub recorded_only : Recorded host counted r'

  pub data Tried (ledger : ℕ) (caller : Address) (item : ProofItem) (r : Verifier)
      : Returned Bool → Verifier → Type 0 where
    refused : (e : Error) → Tried ledger caller item r (fails e) r
    went_on :
        (answer : Returned Bool) (r' : Verifier)
        → IsTried ledger caller item r answer r'
        → Tried ledger caller item r answer r'

  refused_by :
      (ledger : ℕ) (caller : Address) (item : ProofItem) (e : Error) (r : Verifier)
      (answer : Returned Bool) (r' : Verifier)
      → ◌≡◌ {A = Option (Returned Bool × Verifier)} (some (fails e, r)) (some (answer, r'))
      → Tried ledger caller item r answer r'
  refused_by ledger caller item e r answer r' h =
      let (a, s) = same_some (fails e) answer r r' h in
      subst (λ x. Tried ledger caller item r x r') (sym a)
        (subst (Tried ledger caller item r (fails e)) (sym s) (refused e))

  after_count-Tried :
      (ledger : ℕ) (caller : Address) (item : ProofItem) (limits : Limits) (r : Verifier)
      (counted : Returned Verifier) (answer : Returned Bool) (r' : Verifier)
      → r.limits ≡ some limits
      → count_call ledger caller limits r ≡ some counted
      → after_count host ledger item r counted ≡ some (answer, r')
      → Tried ledger caller item r answer r'
  after_count-Tried ledger caller item limits r (fails e) answer r' l k h =
      refused_by ledger caller item e r answer r' h
  after_count-Tried ledger caller item limits r (returns s) answer r' l k h =
      went_on answer r' (record {
        the_limits = limits;
        has_limits = l;
        counted = s;
        is_counted = count_call-IsCounted ledger caller limits r s k;
        tried = h;
        recorded_only = verify_counted-Recorded host ledger item s answer r' h;
      })

  verify_limited-Tried :
      (limits : Option Limits) (ledger : ℕ) (caller : Address) (item : ProofItem) (r : Verifier)
      (answer : Returned Bool) (r' : Verifier)
      → r.limits ≡ limits
      → verify_limited host limits ledger caller item r ≡ some (answer, r')
      → Tried ledger caller item r answer r'
  verify_limited-Tried none ledger caller item r answer r' l h =
      refused_by ledger caller item not_initialized r answer r' h
  verify_limited-Tried (some limits) ledger caller item r answer r' l h =
      let (counted, k, h1) = >>=-eq-some (count_call ledger caller limits r) _ h in
      after_count-Tried ledger caller item limits r counted answer r' l k h1

  pub verify_one-Tried :
      (ledger : ℕ) (caller : Address) (item : ProofItem) (r : Verifier) (answer : Returned Bool)
      (r' : Verifier)
      → verify_one host ledger caller item r ≡ some (answer, r')
      → Tried ledger caller item r answer r'
  unfolding verify_one
  verify_one-Tried ledger caller item r answer r' h = elim (Bool-cases (or_false r.paused)) [
    | inl paused ↦ refused_by ledger caller item contract_paused r answer r' (rw paused at h)
    | inr running ↦
        elim (Bool-cases (or_false r.allowlist_enabled && not (is_allowlisted caller r))) [
          | inl barred ↦
              refused_by ledger caller item caller_not_allowed r answer r'
                (rw (running, barred) at h)
          | inr allowed ↦
              verify_limited-Tried r.limits ledger caller item r answer r' refl
                (rw (running, allowed) at h)
        ]
  ]
