-- ===== src/Verifier/Growth.antt =====
-- The calls that are counted by a verification, a proof and a batch.
use zkstellar.Prelude.{
  ℕ, ◌+◌, ◌≡◌, inl, inr, refl, ◌∙◌, sym, ap, subst, Bool, List, [], ◌∷◌, Option, some, arith,
  Bool-cases,
}
use zkstellar.Text.{text_eq}
use zkstellar.Contract.{Address, Bytes, Host}
use zkstellar.Verifier.{
  Limits, not_initialized, rate_limit_exceeded, invalid_window_size, proof_expired,
  caller_not_allowed, invalid_verifying_key, no_pending_admin, contract_paused, Returned, fails,
  returns, Verifier,
}
use zkstellar.Verifier.Proofs.{ProofItem, window_start, verdict, batch_loop}
use zkstellar.Verifier.Outcome.{same_some, IsCounted}
use zkstellar.Verifier.Tried.{Tried, refused, went_on, verify_one-Tried}
use zkstellar.Verifier.Calls.{
  batch_loop-cons, Proved, failed, judged, BatchProved, batch_failed, batch_judged,
}
use zkstellar.Verifier.Limit.{
  one_if, is_accepted, accepted_count, batch_count, Grew, then-Grew, for_caller, counted_at,
  not_counted,
}

module _ (host : Host) (who : Address) (window : ℕ) (limits : Limits) where
  Tried-Grew :
      (ledger : ℕ) (caller : Address) (item : ProofItem) (r : Verifier) {answer : Returned Bool}
      {r' : Verifier}
      → r.limits ≡ some limits
      → window_start ledger limits.window_size ≡ some window
      → Tried host ledger caller item r answer r'
      → Grew who window limits
          (for_caller who window limits caller (one_if (is_accepted answer)))
          r
          r'
  Tried-Grew ledger caller item r l w (refused e) = not_counted who window limits caller r
  Tried-Grew ledger caller item r l w (went_on answer r' t) =
      let same_limits : t.the_limits ≡ limits = let h = t.has_limits in ground arith in
      let counted = subst (λ x. IsCounted ledger caller x r t.counted) same_limits t.is_counted in
      subst
        (Grew who window limits (for_caller who window limits caller (one_if (is_accepted answer)))
          r)
        (sym t.recorded_only.1)
        (then_recorded
          (counted_at who window limits ledger caller r t.counted (is_accepted answer) w counted))
    where
      then_recorded :
          {n : ℕ} {r s : Verifier} {counts : Bytes → Option ℕ}
          → Grew who window limits n r s
          → Grew who window limits n r (record s { verification_count = counts })
      then_recorded g = record {
        grew_by = g.grew_by;
        grew_within = g.grew_within;
        kept_limits = g.kept_limits;
      }

  pub Proved-Grew :
      (ledger : ℕ) (caller : Address) (item : ProofItem) (r : Verifier) {answer : Returned Bool}
      {r' : Verifier}
      → r.limits ≡ some limits
      → window_start ledger limits.window_size ≡ some window
      → Proved host ledger caller item r answer r'
      → Grew who window limits
          (for_caller who window limits caller (one_if (is_accepted answer)))
          r
          r'
  Proved-Grew ledger caller item r l w (failed e) = not_counted who window limits caller r
  Proved-Grew ledger caller item r l w (judged success s ran) =
      let g =
        Tried-Grew ledger caller item r l w
          (verify_one-Tried host ledger caller item r (returns success) s ran) in
      record { grew_by = g.grew_by; grew_within = g.grew_within; kept_limits = g.kept_limits }

  -- A verdict of `true` is an accepted proof.
  verdict-accepted :
      (answer : Returned Bool) (success : Bool)
      → verdict host answer ≡ returns success
      → is_accepted answer ≡ success
  verdict-accepted (returns b) success h = ground arith
  verdict-accepted (fails not_initialized) success h = cc
  verdict-accepted (fails contract_paused) success h = cc
  verdict-accepted (fails rate_limit_exceeded) success h = ground arith
  verdict-accepted (fails invalid_window_size) success h = ground arith
  verdict-accepted (fails proof_expired) success h = ground arith
  verdict-accepted (fails caller_not_allowed) success h = ground arith
  verdict-accepted (fails invalid_verifying_key) success h = ground arith
  verdict-accepted (fails no_pending_admin) success h = ground arith

  for_caller-plus :
      (caller : Address) (n m : ℕ)
      → for_caller who window limits caller m + for_caller who window limits caller n
        ≡ for_caller who window limits caller (n + m)
  for_caller-plus caller n m = elim (Bool-cases (text_eq who caller)) [
    | inl same ↦ rw same (omega arith)
    | inr other ↦ rw other refl
  ]

  batch_loop-Grew :
      (ledger : ℕ) (caller : Address) (proofs : List ProofItem) (r : Verifier) (results : List Bool)
      (last : Verifier)
      → r.limits ≡ some limits
      → window_start ledger limits.window_size ≡ some window
      → batch_loop host ledger caller proofs r ≡ some (returns results, last)
      → Grew who window limits (for_caller who window limits caller (accepted_count results)) r last
  unfolding batch_loop
  batch_loop-Grew ledger caller [] r [] last l w h =
      subst (λ x. Grew who window limits (for_caller who window limits caller 0) r x)
        (sym (same_some (returns []) (returns []) r last h).1)
        (not_counted who window limits caller r)
  batch_loop-Grew ledger caller [] r (b ∷ results) last l w h = cc
  batch_loop-Grew ledger caller (item ∷ proofs) r results last l w h =
      let round = batch_loop-cons host ledger caller item proofs r results last h in
      let first =
        Tried-Grew ledger caller item r l w
          (verify_one-Tried host ledger caller item r round.answer round.between round.first_ran) in
      let others =
        batch_loop-Grew ledger caller proofs _ round.others last (first.kept_limits ∙ l) w
          round.others_ran in
      let total =
        ap accepted_count round.all_results
        ∙ ap (λ (n : ℕ). n + accepted_count round.others)
            (ap one_if (sym (verdict-accepted round.answer round.success round.first_verdict))) in
      subst (λ n. Grew who window limits n r last)
        (for_caller-plus caller (one_if (is_accepted round.answer)) (accepted_count round.others)
          ∙ ap (λ (n : ℕ). for_caller who window limits caller n) (sym total))
        (then-Grew who window limits _ _ r _ last
          (record {
            grew_by = first.grew_by;
            grew_within = first.grew_within;
            kept_limits = first.kept_limits;
          })
          others)

  pub BatchProved-Grew :
      (ledger : ℕ) (caller : Address) (proofs : List ProofItem) (r : Verifier)
      {answer : Returned (List Bool)} {r' : Verifier}
      → r.limits ≡ some limits
      → window_start ledger limits.window_size ≡ some window
      → BatchProved host ledger caller proofs r answer r'
      → Grew who window limits (for_caller who window limits caller (batch_count answer)) r r'
  BatchProved-Grew ledger caller proofs r l w (batch_failed e) =
      not_counted who window limits caller r
  BatchProved-Grew ledger caller proofs r l w (batch_judged results s ran) =
      batch_loop-Grew ledger caller proofs r results s l w ran
