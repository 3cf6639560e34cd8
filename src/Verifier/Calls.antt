-- ===== src/Verifier/Calls.antt =====
-- The calls of verify_proof and verify_batch, taken apart.
use zkstellar.Prelude.{
  ℕ, ◌≡◌, refl, ◌∙◌, sym, ap, subst, Bool, List, ◌∷◌, Option, some, arith, Bool-cases, inl, inr,
}
use zkstellar.Contract.{Address, Auth, Host, >>=-eq-some}
use zkstellar.Verifier.{Error, Returned, fails, returns, Verifier}
use zkstellar.Verifier.Proofs.{
  ProofItem, verify_one, publish_verification_result, settle, verify_proof, verdict, with_verdict,
  after_verdict, batch_loop, settle_batch, verify_batch,
}
use zkstellar.Verifier.Outcome.{same_some}

module _ (host : Host) where
  -- One proof of a batch that returns its results.
  pub record IsRound (ledger : ℕ) (caller : Address) (item : ProofItem) (proofs : List ProofItem)
      (r : Verifier) (results : List Bool) (last : Verifier) : Type 0 where
    pub answer : Returned Bool
    pub success : Bool
    pub between : Verifier
    pub others : List Bool
    pub first_ran : verify_one host ledger caller item r ≡ some (answer, between)
    pub first_verdict : verdict host answer ≡ returns success
    pub others_ran :
        batch_loop host ledger caller proofs
          (publish_verification_result host caller success item.public_inputs between)
        ≡ some (returns others, last)
    pub all_results : results ≡ success ∷ others

  pub batch_loop-cons :
      (ledger : ℕ) (caller : Address) (item : ProofItem) (proofs : List ProofItem) (r : Verifier)
      (results : List Bool) (last : Verifier)
      → batch_loop host ledger caller (item ∷ proofs) r ≡ some (returns results, last)
      → IsRound ledger caller item proofs r results last
  unfolding batch_loop
  batch_loop-cons ledger caller item proofs r results last h =
      let ((a, s), ran, h1) = >>=-eq-some (verify_one host ledger caller item r) _ h in
      by_verdict a s ran (verdict host a) refl h1
    where
      others :
          (a : Returned Bool) (s : Verifier) (success : Bool) (rest : Returned (List Bool))
          (t : Verifier)
          → verify_one host ledger caller item r ≡ some (a, s)
          → verdict host a ≡ returns success
          → batch_loop host ledger caller proofs
              (publish_verification_result host caller success item.public_inputs s)
            ≡ some (rest, t)
          → ◌≡◌ {A = Option (Returned (List Bool) × Verifier)}
              (some (with_verdict host success (rest, t)))
              (some (returns results, last))
          → IsRound ledger caller item proofs r results last
      others a s success (fails e) t ran v ran' h = cc
      others a s success (returns rest) t ran v ran' h = record {
        answer = a;
        success = success;
        between = s;
        others = rest;
        first_ran = ran;
        first_verdict = v;
        others_ran = ran' ∙ ap (λ (x : Verifier). some (returns rest, x)) (ground arith);
        all_results = ground arith;
      }

      by_verdict :
          (a : Returned Bool) (s : Verifier)
          → verify_one host ledger caller item r ≡ some (a, s)
          → (v : Returned Bool) → verdict host a ≡ v
          → after_verdict host v s (λ success.
            batch_loop host ledger caller proofs
              (publish_verification_result host caller success item.public_inputs s))
            ≡ some (returns results, last)
          → IsRound ledger caller item proofs r results last
      by_verdict a s ran (fails e) v h = cc
      by_verdict a s ran (returns success) v h =
          let ((rest, t), ran', h1) =
            >>=-eq-some
              (batch_loop host ledger caller proofs
                (publish_verification_result host caller success item.public_inputs s))
              _ h in
          others a s success rest t ran v ran' h1

  -- What a call of verify_proof comes to: an error, and nothing has changed, or a verdict.
  pub data Proved (ledger : ℕ) (caller : Address) (item : ProofItem) (r : Verifier)
      : Returned Bool → Verifier → Type 0 where
    failed : (e : Error) → Proved ledger caller item r (fails e) r
    judged :
        (success : Bool) (s : Verifier)
        → verify_one host ledger caller item r ≡ some (returns success, s)
        → Proved ledger caller item r
            (returns success)
            (publish_verification_result host caller success item.public_inputs s)

  pub verify_proof-Proved :
      (auth : Auth) (ledger : ℕ) (caller : Address) (item : ProofItem) (r : Verifier)
      (answer : Returned Bool) (r' : Verifier)
      → verify_proof host auth ledger caller item r ≡ some (answer, r')
      → Proved ledger caller item r answer r'
  unfolding verify_proof
  verify_proof-Proved auth ledger caller item r answer r' h = elim (Bool-cases (auth caller)) [
    | inr denied ↦ absurd (let h' = rw denied at h in cc)
    | inl allowed ↦
        let ((a, s), ran, h1) =
          >>=-eq-some (verify_one host ledger caller item r) _ (rw allowed at h) in
        settled a s ran h1
  ]
    where
      settled :
          (a : Returned Bool) (s : Verifier)
          → verify_one host ledger caller item r ≡ some (a, s)
          → ◌≡◌ {A = Option (Returned Bool × Verifier)}
              (some (settle host caller item.public_inputs r (a, s)))
              (some (answer, r'))
          → Proved ledger caller item r answer r'
      settled (fails e) s ran h1 =
          let (x, y) = same_some (fails e) answer r r' h1 in
          subst (λ z. Proved ledger caller item r z r') (sym x)
            (subst (Proved ledger caller item r (fails e)) (sym y) (failed e))
      settled (returns success) s ran h1 =
          let (x, y) =
            same_some (returns success) answer
              (publish_verification_result host caller success item.public_inputs s) r' h1 in
          subst (λ z. Proved ledger caller item r z r') (sym x)
            (subst (Proved ledger caller item r (returns success)) (sym y) (judged success s ran))

  -- What a call of verify_batch comes to.
  pub data BatchProved (ledger : ℕ) (caller : Address) (proofs : List ProofItem) (r : Verifier)
      : Returned (List Bool) → Verifier → Type 0 where
    batch_failed : (e : Error) → BatchProved ledger caller proofs r (fails e) r
    batch_judged :
        (results : List Bool) (s : Verifier)
        → batch_loop host ledger caller proofs r ≡ some (returns results, s)
        → BatchProved ledger caller proofs r (returns results) s

  pub verify_batch-BatchProved :
      (auth : Auth) (ledger : ℕ) (caller : Address) (proofs : List ProofItem) (r : Verifier)
      (answer : Returned (List Bool)) (r' : Verifier)
      → verify_batch host auth ledger caller proofs r ≡ some (answer, r')
      → BatchProved ledger caller proofs r answer r'
  unfolding verify_batch
  verify_batch-BatchProved auth ledger caller proofs r answer r' h =
      elim (Bool-cases (auth caller)) [
        | inr denied ↦ absurd (let h' = rw denied at h in cc)
        | inl allowed ↦
            let ((a, s), ran, h1) =
              >>=-eq-some (batch_loop host ledger caller proofs r) _ (rw allowed at h) in
            settled a s ran h1
      ]
    where
      settled :
          (a : Returned (List Bool)) (s : Verifier)
          → batch_loop host ledger caller proofs r ≡ some (a, s)
          → ◌≡◌ {A = Option (Returned (List Bool) × Verifier)}
              (some (settle_batch host r (a, s)))
              (some (answer, r'))
          → BatchProved ledger caller proofs r answer r'
      settled (fails e) s ran h1 =
          let (x, y) = same_some (fails e) answer r r' h1 in
          subst (λ z. BatchProved ledger caller proofs r z r') (sym x)
            (subst (BatchProved ledger caller proofs r (fails e)) (sym y) (batch_failed e))
      settled (returns results) s ran h1 =
          let (x, y) = same_some (returns results) answer s r' h1 in
          subst (λ z. BatchProved ledger caller proofs r z r') (sym x)
            (subst (BatchProved ledger caller proofs r (returns results)) (sym y)
              (batch_judged results s ran))
