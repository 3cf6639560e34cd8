-- ===== src/Verifier/Unbound.antt =====
-- The expiry is no part of what the pairing check reads.
use zkstellar.Prelude.{
  ℕ, suc, ◌≤◌, ◌<◌, ◌≡◌, refl, ◌∙◌, sym, ap, subst, Bool, true, false, List, [], ◌∷◌, Option, none,
  some, arith, ltb, Bool-cases, inl, inr, lt→ltb, ◌&&◌, not,
}
use zkstellar.Contract.{
  Address, Auth, or_false, read_g1, read_g2, Bytes, Host, VerifyingKey, ◌>>=◌, >>=-eq-some,
  compute_inputs_hash,
}
use zkstellar.Verifier.{Limits, is_allowlisted, Returned, fails, returns, Verifier, or_zero}
use zkstellar.Verifier.Proofs.{
  ProofItem, read_expiry_ledger, set_verified, record_verification_attempt, check_pairing,
  record_if, verify_with_key, before_expiry, verify_inputs, verify_counted, count_call, after_count,
  verify_limited, verify_one, verify_proof, settle, publish_verification_result,
}
use zkstellar.Verifier.Outcome.{count_call-IsCounted}

-- Less than the largest u64.
abbrev pub Countable : Host → List Bytes → Verifier → Type 0
Countable host inputs r =
    suc (or_zero (r.verification_count (compute_inputs_hash host inputs))) < 0x1_0000_0000_0000_0000

module _ (host : Host) where
  record_if-Countable :
      (success : Bool) (inputs : List Bytes) (r : Verifier)
      → Countable host inputs r
      → (s : Verifier) × (record_if host success inputs r ≡ some (returns success, s))
  unfolding record_verification_attempt
  record_if-Countable false inputs r h = (r, refl)
  record_if-Countable true inputs r h =
      let below : ltb (suc (or_zero (r.verification_count (compute_inputs_hash host inputs))))
            0x1_0000_0000_0000_0000
          ≡ true =
        lt→ltb _ _ h in
      (
        record r {
          verification_count =
              set_verified (compute_inputs_hash host inputs)
                (suc (or_zero (r.verification_count (compute_inputs_hash host inputs))))
                r.verification_count;
        },
        rw below refl,
      )

  record_if-success :
      (success : Bool) (inputs : List Bytes) (r s : Verifier)
      → record_if host success inputs r ≡ some (returns true, s)
      → success ≡ true
  record_if-success true inputs r s h = refl
  record_if-success false inputs r s h = cc

  key_passes :
      (vk : Option VerifyingKey) (a b c input : Bytes) (inputs others : List Bytes) (r s : Verifier)
      → Countable host others r
      → verify_with_key host vk a b c input inputs r ≡ some (returns true, s)
      → (t : Verifier) × (verify_with_key host vk a b c input others r ≡ some (returns true, t))
  key_passes none a b c input inputs others r s small h = cc
  key_passes (some vk) a b c input inputs others r s small h =
      let (success, ran, h1) = >>=-eq-some (check_pairing host vk a b c input) _ h in
      let yes = record_if-success success inputs r s h1 in
      let (t, counted) = record_if-Countable true others r small in
      (
        t,
        ap (λ m. m >>= λ verified. record_if host verified others r) (ran ∙ ap some yes) ∙ counted,
      )

  expiry_passes :
      (ledger : ℕ) (a b c input expiry other : Bytes) (until : ℕ) (r s : Verifier)
      → read_expiry_ledger other ≡ some until
      → ledger ≤ until
      → Countable host (input ∷ other ∷ []) r
      → verify_inputs host ledger a b c (input ∷ expiry ∷ []) r ≡ some (returns true, s)
      → (t : Verifier) × (verify_inputs host ledger a b c (input ∷ other ∷ []) r
          ≡ some (returns true, t))
  unfolding verify_inputs
  expiry_passes ledger a b c input expiry other until r s e early small h =
      let in_time : ltb until ledger ≡ false = ground arith in
      let (t, passed) =
        key_passes r.vk a b c input (input ∷ expiry ∷ []) (input ∷ other ∷ []) r s small
          (unexpired (read_expiry_ledger expiry) h) in
      (t, rw (e, in_time) passed)
    where
      unexpired :
          (read : Option ℕ)
          → before_expiry host read ledger a b c input (input ∷ expiry ∷ []) r
            ≡ some (returns true, s)
          → verify_with_key host r.vk a b c input (input ∷ expiry ∷ []) r ≡ some (returns true, s)
      unexpired none h = cc
      unexpired (some expiry_ledger) h = elim (Bool-cases (ltb expiry_ledger ledger)) [
        | inl late ↦ absurd (let h' = rw late at h in cc)
        | inr in_time ↦ rw in_time at h
      ]

  -- The item with another expiry.
  abbrev pub with_expiry : Bytes → Bytes → Bytes → Bytes → Bytes → ProofItem
  with_expiry a b c input expiry = record {
    proof_a = a;
    proof_b = b;
    proof_c = c;
    public_inputs = input ∷ expiry ∷ [];
  }

  counted_passes :
      (ledger : ℕ) (a b c input expiry other : Bytes) (until : ℕ) (r s : Verifier)
      → read_expiry_ledger other ≡ some until
      → ledger ≤ until
      → Countable host (input ∷ other ∷ []) r
      → verify_counted host ledger (with_expiry a b c input expiry) r ≡ some (returns true, s)
      → (t : Verifier) × (verify_counted host ledger (with_expiry a b c input other) r
          ≡ some (returns true, t))
  unfolding verify_counted
  counted_passes ledger a b c input expiry other until r s e early small h =
      let (x, p, h1) = >>=-eq-some (read_g1 a) _ h in
      let (y, q, h2) = >>=-eq-some (read_g2 b) _ h1 in
      let (z, w, h3) = >>=-eq-some (read_g1 c) _ h2 in
      let (t, passed) = expiry_passes ledger x y z input expiry other until r s e early small h3 in
      (t, rw (p, q, w) passed)

  one_passes :
      (ledger : ℕ) (caller : Address) (a b c input expiry other : Bytes) (until : ℕ)
      (r s : Verifier)
      → read_expiry_ledger other ≡ some until
      → ledger ≤ until
      → Countable host (input ∷ other ∷ []) r
      → verify_one host ledger caller (with_expiry a b c input expiry) r ≡ some (returns true, s)
      → (t : Verifier) × (verify_one host ledger caller (with_expiry a b c input other) r
          ≡ some (returns true, t))
  unfolding verify_one
  one_passes ledger caller a b c input expiry other until r s e early small h =
      elim (Bool-cases (or_false r.paused)) [
        | inl paused ↦ absurd (let h' = rw paused at h in cc)
        | inr running ↦
            elim (Bool-cases (or_false r.allowlist_enabled && not (is_allowlisted caller r))) [
              | inl barred ↦ absurd (let h' = rw (running, barred) at h in cc)
              | inr allowed ↦
                  let (t, passed) = limited r.limits (rw (running, allowed) at h) in
                  (t, rw (running, allowed) passed)
            ]
      ]
    where
      counted :
          (limits : Limits) (answer : Returned Verifier)
          → count_call ledger caller limits r ≡ some answer
          → after_count host ledger (with_expiry a b c input expiry) r answer
            ≡ some (returns true, s)
          → (t : Verifier) × (after_count host ledger (with_expiry a b c input other) r answer
              ≡ some (returns true, t))
      counted limits (fails error) k h = cc
      counted limits (returns u) k h =
          let same = (count_call-IsCounted ledger caller limits r u k).after in
          counted_passes ledger a b c input expiry other until u s e early
            (subst (Countable host (input ∷ other ∷ [])) (sym same) small) h

      limited :
          (limits : Option Limits)
          → verify_limited host limits ledger caller (with_expiry a b c input expiry) r
            ≡ some (returns true, s)
          → (t : Verifier) × (verify_limited host limits ledger caller
                (with_expiry a b c input other)
                r
              ≡ some (returns true, t))
      limited none h = cc
      limited (some limits) h =
          let (answer, k, h1) = >>=-eq-some (count_call ledger caller limits r) _ h in
          let (t, passed) = counted limits answer k h1 in (t, rw k passed)

  -- The proof does not bind its expiry: where verify_proof accepts a proof, it would have accepted the same
  -- proof with any other expiry that the ledger has not passed, unless the counter of verifications for those
  -- public inputs is at its largest value.
  pub expiry_unbound :
      (auth : Auth) (ledger : ℕ) (caller : Address) (a b c input expiry other : Bytes) (until : ℕ)
      (r s : Verifier)
      → read_expiry_ledger other ≡ some until
      → ledger ≤ until
      → Countable host (input ∷ other ∷ []) r
      → verify_proof host auth ledger caller (with_expiry a b c input expiry) r
        ≡ some (returns true, s)
      → (t : Verifier) × (verify_proof host auth ledger caller (with_expiry a b c input other) r
          ≡ some (returns true, t))
  unfolding verify_proof
  expiry_unbound auth ledger caller a b c input expiry other until r s e early small h =
      elim (Bool-cases (auth caller)) [
        | inr denied ↦ absurd (let h' = rw denied at h in cc)
        | inl allowed ↦
            let ((answer, u), ran, h1) =
              >>=-eq-some (verify_one host ledger caller (with_expiry a b c input expiry) r) _
                (rw allowed at h) in
            let (t, passed) =
              one_passes ledger caller a b c input expiry other until r u e early small
                (ran ∙ ap (λ x. some (x, u)) (accepted answer u h1)) in
            (
              publish_verification_result host caller true (input ∷ other ∷ []) t,
              rw (allowed, passed) refl,
            )
      ]
    where
      accepted :
          (answer : Returned Bool) (u : Verifier)
          → ◌≡◌ {A = Option (Returned Bool × Verifier)}
              (some (settle host caller (input ∷ expiry ∷ []) r (answer, u)))
              (some (returns true, s))
          → answer ≡ returns true
      accepted (fails error) u h = cc
      accepted (returns true) u h = refl
      accepted (returns false) u h = cc
