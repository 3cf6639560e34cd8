-- ===== src/Verifier/Outcome.antt =====
-- What one verification does to the state of the verifier.
use zkstellar.Prelude.{
  ℕ, suc, ◌≤◌, ◌≡◌, inl, inr, refl, sym, subst, Bool, true, false, List, [], ◌∷◌, Option, none,
  some, ltb, arith, if◌then◌else◌, Bool-cases,
}
use zkstellar.Contract.{
  Address, Bytes, Host, VerifyingKey, >>=-eq-some, read_g1, read_g2, compute_inputs_hash,
}
use zkstellar.Verifier.{
  Limits, not_initialized, proof_expired, rate_limit_exceeded, Returned, fails, returns, Verifier,
  or_zero,
}
use zkstellar.Verifier.Proofs.{
  ProofItem, checked_u32, checked_u64, set_verified, window_start, set_count, count_call,
  record_verification_attempt, read_expiry_ledger, check_pairing, record_if, verify_with_key,
  before_expiry, verify_inputs, verify_counted,
}

-- The state without the counters and the events.
abbrev pub settings : Verifier → Verifier
settings r = record r {
  call_count = λ caller window. none;
  verification_count = λ commitment. none;
  events = [];
}

-- A call that the rate limit lets through.
pub record IsCounted (ledger : ℕ) (caller : Address) (limits : Limits) (r r' : Verifier)
    : Type 0 where
  pub window : ℕ
  pub next : ℕ
  pub in_window : window_start ledger limits.window_size ≡ some window
  pub is_next : next ≡ suc (or_zero (r.call_count caller window))
  pub below_limit : next ≤ limits.max_calls
  pub after : r' ≡ record r { call_count = set_count caller window next r.call_count }

checked_u32-eq-some : (n m : ℕ) → checked_u32 n ≡ some m → m ≡ n
checked_u32-eq-some n m h = ground arith

let_through :
    (most next : ℕ) (changed r' : Verifier)
    → (if ltb most next then some (fails rate_limit_exceeded) else some (returns changed))
      ≡ some (returns r')
    → (next ≤ most) × (r' ≡ changed)
let_through most next changed r' h = elim (Bool-cases (ltb most next)) [
  | inl over ↦ absurd (let h' = rw over at h in cc)
  | inr within ↦ (ground arith, ground arith)
]

pub count_call-IsCounted :
    (ledger : ℕ) (caller : Address) (limits : Limits) (r r' : Verifier)
    → count_call ledger caller limits r ≡ some (returns r')
    → IsCounted ledger caller limits r r'
unfolding count_call
count_call-IsCounted ledger caller limits r r' h =
    let (window, w, h1) = >>=-eq-some (window_start ledger limits.window_size) _ h in
    let (next, n, h2) =
      >>=-eq-some (checked_u32 (suc (or_zero (r.call_count caller window)))) _ h1 in
    let (below, after) = let_through limits.max_calls next _ r' h2 in
    record {
      window = window;
      next = next;
      in_window = w;
      is_next = checked_u32-eq-some _ next n;
      below_limit = below;
      after = after;
    }

pub same_some :
    {A : Type 0} (a b : A) (r s : Verifier)
    → ◌≡◌ {A = Option (A × Verifier)} (some (a, r)) (some (b, s))
    → (b ≡ a) × (s ≡ r)
same_some a b r s h = (ground arith, ground arith)

recorded :
    (commitment : Bytes) (r s : Verifier)
    → record_verification_attempt commitment r ≡ some s
    → (counts : Bytes → Option ℕ) × (s ≡ record r { verification_count = counts })
unfolding record_verification_attempt
recorded commitment r s h =
    let (n, b, h2) =
      >>=-eq-some (checked_u64 (suc (or_zero (r.verification_count commitment)))) _ h in
    (set_verified commitment n r.verification_count, ground arith)

module _ (host : Host) where
  -- From the points on, a verification changes no more than the counts of verified proofs.
  abbrev pub Recorded : Verifier → Verifier → Type 0
  Recorded r r' = (counts : Bytes → Option ℕ) × (r' ≡ record r { verification_count = counts })

  unrecorded : (r : Verifier) → Recorded r r
  unrecorded r = (r.verification_count, refl)

  record_if-Recorded :
      (success : Bool) (public_inputs : List Bytes) (r : Verifier) (answer : Returned Bool)
      (r' : Verifier)
      → record_if host success public_inputs r ≡ some (answer, r')
      → Recorded r r'
  record_if-Recorded false public_inputs r answer r' h =
      subst (Recorded r) (sym ((same_some (returns false) answer r r' h).1)) (unrecorded r)
  record_if-Recorded true public_inputs r answer r' h =
      let (s, a, h1) =
        >>=-eq-some (record_verification_attempt (compute_inputs_hash host public_inputs) r) _ h in
      subst (Recorded r) (sym ((same_some (returns true) answer s r' h1).1))
        (recorded (compute_inputs_hash host public_inputs) r s a)

  verify_with_key-Recorded :
      (vk : Option VerifyingKey) (a b c input : Bytes) (public_inputs : List Bytes) (r : Verifier)
      (answer : Returned Bool) (r' : Verifier)
      → verify_with_key host vk a b c input public_inputs r ≡ some (answer, r')
      → Recorded r r'
  verify_with_key-Recorded none a b c input public_inputs r answer r' h =
      subst (Recorded r) (sym ((same_some (fails not_initialized) answer r r' h).1)) (unrecorded r)
  verify_with_key-Recorded (some vk) a b c input public_inputs r answer r' h =
      let (success, ran, h1) = >>=-eq-some (check_pairing host vk a b c input) _ h in
      record_if-Recorded success public_inputs r answer r' h1

  before_expiry-Recorded :
      (expiry : Option ℕ) (ledger : ℕ) (a b c input : Bytes) (public_inputs : List Bytes)
      (r : Verifier) (answer : Returned Bool) (r' : Verifier)
      → before_expiry host expiry ledger a b c input public_inputs r ≡ some (answer, r')
      → Recorded r r'
  before_expiry-Recorded none ledger a b c input public_inputs r answer r' h =
      subst (Recorded r) (sym ((same_some (returns false) answer r r' h).1)) (unrecorded r)
  before_expiry-Recorded (some expiry_ledger) ledger a b c input public_inputs r answer r' h =
      elim (Bool-cases (ltb expiry_ledger ledger)) [
        | inl late ↦
            subst (Recorded r)
              (sym ((same_some (fails proof_expired) answer r r' (rw late at h)).1)) (unrecorded r)
        | inr early ↦
            verify_with_key-Recorded r.vk a b c input public_inputs r answer r' (rw early at h)
      ]

  verify_inputs-Recorded :
      (ledger : ℕ) (a b c : Bytes) (public_inputs : List Bytes) (r : Verifier)
      (answer : Returned Bool) (r' : Verifier)
      → verify_inputs host ledger a b c public_inputs r ≡ some (answer, r')
      → Recorded r r'
  unfolding verify_inputs
  verify_inputs-Recorded ledger a b c [] r answer r' h =
      subst (Recorded r) (sym ((same_some (returns false) answer r r' h).1)) (unrecorded r)
  verify_inputs-Recorded ledger a b c (input ∷ []) r answer r' h =
      subst (Recorded r) (sym ((same_some (returns false) answer r r' h).1)) (unrecorded r)
  verify_inputs-Recorded ledger a b c (input ∷ expiry ∷ []) r answer r' h =
      before_expiry-Recorded (read_expiry_ledger expiry) ledger a b c input (input ∷ expiry ∷ []) r
        answer r' h
  verify_inputs-Recorded ledger a b c (input ∷ expiry ∷ more ∷ inputs) r answer r' h =
      subst (Recorded r) (sym ((same_some (returns false) answer r r' h).1)) (unrecorded r)

  pub verify_counted-Recorded :
      (ledger : ℕ) (item : ProofItem) (r : Verifier) (answer : Returned Bool) (r' : Verifier)
      → verify_counted host ledger item r ≡ some (answer, r')
      → Recorded r r'
  unfolding verify_counted
  verify_counted-Recorded ledger item r answer r' h =
      let (a, _, h1) = >>=-eq-some (read_g1 item.proof_a) _ h in
      let (b, _, h2) = >>=-eq-some (read_g2 item.proof_b) _ h1 in
      let (c, _, h3) = >>=-eq-some (read_g1 item.proof_c) _ h2 in
      verify_inputs-Recorded ledger a b c item.public_inputs r answer r' h3
