-- ===== src/Verifier/Proofs.antt =====
-- contracts/verifier/src/lib.rs: verify_one, verify_proof, verify_batch and their helpers. The ledger is
-- the sequence number of the one in which the call runs.
use zkstellar.Prelude.{
  ℕ, zero, suc, ◌-◌, ◌%◌, Bool, true, false, List, [], ◌∷◌, ◌++◌, Option, none, some, ◌==◌, not,
  ltb, ◌&&◌, if◌then◌else◌,
}
use zkstellar.Text.{text_eq}
use zkstellar.Bytes.{be_value}
use zkstellar.Contract.{
  Address, Auth, Bytes, Host, VerifyingKey, ◌>>=◌, or_false, read_g1, read_g2, compute_inputs_hash,
}
use zkstellar.Verifier.{
  Limits, not_initialized, rate_limit_exceeded, proof_expired, caller_not_allowed, contract_paused,
  Returned, fails, returns, Verifier, or_zero, is_allowlisted,
}

pub record ProofItem : Type 0 where
  pub proof_a : Bytes
  pub proof_b : Bytes
  pub proof_c : Bytes
  pub public_inputs : List Bytes

-- `read_expiry_ledger`: the loop over the leading zeros, then the bytes that are left.
unfoldable pub skip_zeros : ℕ → Bytes → Option ℕ
skip_zeros zero bytes = some (be_value 0 bytes)
skip_zeros (suc k) [] = none
skip_zeros (suc k) (b ∷ bytes) = let rest = skip_zeros k bytes in if b == 0 then rest else none

unfoldable pub read_expiry_ledger : Bytes → Option ℕ
read_expiry_ledger bytes = skip_zeros 28 bytes

-- Numbers of w bits: the arithmetic of the contract is checked.
abbrev pub checked_u32 : ℕ → Option ℕ
checked_u32 n = if ltb n 0x1_0000_0000 then some n else none

abbrev pub checked_u64 : ℕ → Option ℕ
checked_u64 n = if ltb n 0x1_0000_0000_0000_0000 then some n else none

-- `ledger - (ledger % limits.window_size)`; a window of size 0 panics.
abbrev pub window_start : ℕ → ℕ → Option ℕ
window_start ledger zero = none
window_start ledger (suc size) = some (ledger - ledger % suc size)

abbrev pub set_count : Address → ℕ → ℕ → (Address → ℕ → Option ℕ) → Address → ℕ → Option ℕ
set_count caller window n counts a w =
    if text_eq a caller && w == window then some n else counts a w

-- The rate limit: the call is counted, or refused.
unfoldable pub count_call : ℕ → Address → Limits → Verifier → Option (Returned Verifier)
count_call ledger caller limits r = window_start ledger limits.window_size >>= λ window.
    checked_u32 (suc (or_zero (r.call_count caller window))) >>= λ next.
    if ltb limits.max_calls next
    then some (fails rate_limit_exceeded)
    else some (returns (record r { call_count = set_count caller window next r.call_count }))

abbrev pub set_verified : Bytes → ℕ → (Bytes → Option ℕ) → Bytes → Option ℕ
set_verified commitment n counts c = if text_eq c commitment then some n else counts c

unfoldable pub record_verification_attempt : Bytes → Verifier → Option Verifier
record_verification_attempt commitment r =
    checked_u64 (suc (or_zero (r.verification_count commitment))) >>= λ next.
    some (record r { verification_count = set_verified commitment next r.verification_count })

module _ (host : Host) where
  -- The check of the proof's points against the key and the first public input; `ic` are the key's points.
  abbrev pub pairing_with : VerifyingKey → List Bytes → Bytes → Bytes → Bytes → Bytes → Option Bool
  pairing_with vk (ic0 ∷ ic1 ∷ ic) a b c input =
      host.g1_mul ic1 (host.fr_from_bytes input) >>= λ term. host.g1_add ic0 term >>= λ vk_x.
      host.g1_neg vk.alpha >>= λ neg_alpha. host.g1_neg vk_x >>= λ neg_x. host.g1_neg c >>= λ neg_c.
      host.pairing_check (a ∷ neg_alpha ∷ neg_x ∷ neg_c ∷ [])
        (b ∷ vk.beta ∷ vk.gamma ∷ vk.delta ∷ [])
  pairing_with vk _ a b c input = none

  unfoldable pub check_pairing : VerifyingKey → Bytes → Bytes → Bytes → Bytes → Option Bool
  check_pairing vk a b c input = pairing_with vk vk.ic a b c input

  -- The end of verify_one: a verified proof is counted under the hash of its public inputs.
  abbrev pub record_if : Bool → List Bytes → Verifier → Option (Returned Bool × Verifier)
  record_if false public_inputs r = some (returns false, r)
  record_if true public_inputs r =
      record_verification_attempt (compute_inputs_hash host public_inputs) r >>= λ r'.
      some (returns true, r')

  -- From the reading of the key on.
  abbrev pub verify_with_key :
      Option VerifyingKey
      → Bytes
      → Bytes
      → Bytes
      → Bytes
      → List Bytes
      → Verifier
      → Option (Returned Bool × Verifier)
  verify_with_key none a b c input public_inputs r = some (fails not_initialized, r)
  verify_with_key (some vk) a b c input public_inputs r =
      check_pairing vk a b c input >>= λ verified. record_if verified public_inputs r

  -- From the expiry that was read on.
  abbrev pub before_expiry :
      Option ℕ
      → ℕ
      → Bytes
      → Bytes
      → Bytes
      → Bytes
      → List Bytes
      → Verifier
      → Option (Returned Bool × Verifier)
  before_expiry none ledger a b c input public_inputs r = some (returns false, r)
  before_expiry (some expiry_ledger) ledger a b c input public_inputs r =
      if ltb expiry_ledger ledger
      then some (fails proof_expired, r)
      else verify_with_key r.vk a b c input public_inputs r

  -- From the test of the number of public inputs on: the second is the expiry.
  unfoldable pub verify_inputs :
      ℕ → Bytes → Bytes → Bytes → List Bytes → Verifier → Option (Returned Bool × Verifier)
  verify_inputs ledger a b c (input ∷ expiry ∷ []) r =
      before_expiry (read_expiry_ledger expiry) ledger a b c input (input ∷ expiry ∷ []) r
  verify_inputs ledger a b c public_inputs r = some (returns false, r)

  -- From the parsing of the points on.
  unfoldable pub verify_counted : ℕ → ProofItem → Verifier → Option (Returned Bool × Verifier)
  verify_counted ledger item r = read_g1 item.proof_a >>= λ a. read_g2 item.proof_b >>= λ b.
      read_g1 item.proof_c >>= λ c. verify_inputs ledger a b c item.public_inputs r

  -- The rest of verify_one, when the call was counted or refused.
  abbrev pub after_count :
      ℕ → ProofItem → Verifier → Returned Verifier → Option (Returned Bool × Verifier)
  after_count ledger item r (fails e) = some (fails e, r)
  after_count ledger item r (returns r') = verify_counted ledger item r'

  abbrev pub verify_limited :
      Option Limits → ℕ → Address → ProofItem → Verifier → Option (Returned Bool × Verifier)
  verify_limited none ledger caller item r = some (fails not_initialized, r)
  verify_limited (some limits) ledger caller item r =
      count_call ledger caller limits r >>= λ counted. after_count ledger item r counted

  unfoldable pub verify_one : ℕ → Address → ProofItem → Verifier → Option (Returned Bool × Verifier)
  verify_one ledger caller item r =
      if or_false r.paused
      then some (fails contract_paused, r)
      else if or_false r.allowlist_enabled && not (is_allowlisted caller r)
      then some (fails caller_not_allowed, r)
      else verify_limited r.limits ledger caller item r

  abbrev pub publish_verification_result : Address → Bool → List Bytes → Verifier → Verifier
  publish_verification_result caller success public_inputs r = record r {
    events =
        r.events
        ++ (record {
          success = success;
          caller = caller;
          inputs_hash = compute_inputs_hash host public_inputs;
        }
            ∷ []);
  }

  -- An error takes back what the call has done in the state `r`.
  abbrev pub settle :
      Address → List Bytes → Verifier → Returned Bool × Verifier → Returned Bool × Verifier
  settle caller public_inputs r (fails e, r') = (fails e, r)
  settle caller public_inputs r (returns success, r') =
      (returns success, publish_verification_result caller success public_inputs r')

  unfoldable pub verify_proof :
      Auth → ℕ → Address → ProofItem → Verifier → Option (Returned Bool × Verifier)
  verify_proof auth ledger caller item r =
      if auth caller
      then (verify_one ledger caller item r >>= λ answer.
          some (settle caller item.public_inputs r answer))
      else none

  -- The `match` on the outcome of one proof of a batch: the verdict, or the error that ends the batch.
  abbrev pub verdict : Returned Bool → Returned Bool
  verdict (returns success) = returns success
  verdict (fails not_initialized) = fails not_initialized
  verdict (fails contract_paused) = fails contract_paused
  verdict (fails _) = returns false

  abbrev pub with_verdict : Bool → Returned (List Bool) × Verifier → Returned (List Bool) × Verifier
  with_verdict success (fails e, r) = (fails e, r)
  with_verdict success (returns results, r) = (returns (success ∷ results), r)

  -- What the loop does with a verdict: it stops, or goes on with the rest of the batch.
  abbrev pub after_verdict :
      Returned Bool
      → Verifier
      → (Bool → Option (Returned (List Bool) × Verifier))
      → Option (Returned (List Bool) × Verifier)
  after_verdict (fails e) r go_on = some (fails e, r)
  after_verdict (returns success) r go_on =
      go_on success >>= λ rest. some (with_verdict success rest)

  unfoldable pub batch_loop :
      ℕ → Address → List ProofItem → Verifier → Option (Returned (List Bool) × Verifier)
  batch_loop ledger caller [] r = some (returns [], r)
  batch_loop ledger caller (item ∷ proofs) r = verify_one ledger caller item r >>= λ (answer, r').
      after_verdict (verdict answer) r' (λ success.
        batch_loop ledger caller proofs
          (publish_verification_result caller success item.public_inputs r'))

  abbrev pub settle_batch :
      Verifier → Returned (List Bool) × Verifier → Returned (List Bool) × Verifier
  settle_batch r (fails e, r') = (fails e, r)
  settle_batch r (returns results, r') = (returns results, r')

  unfoldable pub verify_batch :
      Auth → ℕ → Address → List ProofItem → Verifier → Option (Returned (List Bool) × Verifier)
  verify_batch auth ledger caller proofs r =
      if auth caller
      then (batch_loop ledger caller proofs r >>= λ answer. some (settle_batch r answer))
      else none
