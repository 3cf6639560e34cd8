-- ===== src/Verifier/Expiry.antt =====
-- The expiry of a proof: what formatProof of the SDK appends is what the verifier reads.
use zkstellar.Prelude.{
  ℕ, zero, suc, ◌+◌, ◌*◌, ◌≤◌, ◌≡◌, inl, inr, refl, ◌∙◌, sym, ap, subst, true, List, [], ◌∷◌, ◌++◌,
  some, length, arith, Bool-cases, ltb, leb, map,
}
use zkstellar.Bytes.{be_value, bigint_to_bytes32}
use zkstellar.Bytes.BigEndian.{bigint_to_bytes32-IsBytes32}
use zkstellar.Proof.{max_u32}
use zkstellar.Text.{pos}
use zkstellar.Types.{Result, ok, err, soroban_zk_error, invalid_public_input}
use zkstellar.Js.{Js, int}
use zkstellar.Validate.{SorobanProofCalldata}
use zkstellar.Validate.Accepts.{validate_proof_input_sound}
use zkstellar.Proof.{format_proof}
use zkstellar.Proof.Format.{calldata_of, format_proof-validated, format_proof-IsProofInput}
use zkstellar.Cli.{bytes_of, inputs_of}
use zkstellar.Cli.EstimateFee.{map-bytes_of}
use zkstellar.Contract.{Address, Auth, Bytes, Host, >>=-eq-some, read_g1, read_g2}
use zkstellar.Verifier.{returns, Verifier}
use zkstellar.Verifier.Proofs.{
  ProofItem, skip_zeros, read_expiry_ledger, verify_inputs, verify_counted, verify_one,
  verify_proof,
}
use zkstellar.Verifier.Tried.{Tried, went_on, verify_one-Tried}
use zkstellar.Verifier.Calls.{Proved, judged, verify_proof-Proved}

-- The first of many bytes weighs 2^32 at least, once four more come behind it.
be_value_large :
    (k acc : ℕ) (bytes : List ℕ) → length bytes ≡ k + 4 → acc * 0x1_0000_0000 ≤ be_value acc bytes
be_value_large zero acc (b0 ∷ b1 ∷ b2 ∷ b3 ∷ []) h = omega arith
be_value_large zero acc [] h = absurd (omega arith)
be_value_large zero acc (b0 ∷ []) h = absurd (omega arith)
be_value_large zero acc (b0 ∷ b1 ∷ []) h = absurd (omega arith)
be_value_large zero acc (b0 ∷ b1 ∷ b2 ∷ []) h = absurd (omega arith)
be_value_large zero acc (b0 ∷ b1 ∷ b2 ∷ b3 ∷ b4 ∷ bytes) h = absurd (omega arith)
be_value_large (suc k) acc [] h = absurd (omega arith)
be_value_large (suc k) acc (b ∷ bytes) h =
    let rest = be_value_large k (acc * 256 + b) bytes (omega arith) in omega arith

skip_zeros-be_value :
    (k : ℕ) (bytes : List ℕ)
    → length bytes ≡ k + 4
    → be_value 0 bytes ≤ max_u32
    → skip_zeros k bytes ≡ some (be_value 0 bytes)
unfolding skip_zeros
skip_zeros-be_value zero bytes h small = refl
skip_zeros-be_value (suc k) [] h small = absurd (omega arith)
skip_zeros-be_value (suc k) (zero ∷ bytes) h small = skip_zeros-be_value k bytes (omega arith) small
skip_zeros-be_value (suc k) (suc b ∷ bytes) h small =
    absurd (let large = be_value_large k (0 * 256 + suc b) bytes (omega arith) in omega arith)

-- The verifier reads from the 32 bytes of bigintToBytes32 the ledger that was encoded, for every u32.
pub read_expiry_ledger-bigint_to_bytes32 :
    (n : ℕ) → n ≤ max_u32 → read_expiry_ledger (bigint_to_bytes32 n) ≡ some n
unfolding read_expiry_ledger
read_expiry_ledger-bigint_to_bytes32 n h =
    let b = bigint_to_bytes32-IsBytes32 n (omega arith) in
    skip_zeros-be_value 28 (bigint_to_bytes32 n) b.bytes32_length
      (subst (λ m. m ≤ max_u32) (sym b.bytes32_value) h)
    ∙ ap some b.bytes32_value

-- The proof of a calldata, as the verifier takes it.
abbrev pub item_of : SorobanProofCalldata → ProofItem
item_of calldata = record {
  proof_a = bytes_of calldata.proof_a;
  proof_b = bytes_of calldata.proof_b;
  proof_c = bytes_of calldata.proof_c;
  public_inputs = inputs_of calldata;
}

pub same_ok :
    (a b : SorobanProofCalldata) → ◌≡◌ {A = Result SorobanProofCalldata} (ok a) (ok b) → a ≡ b
same_ok a b h = ground arith

-- formatProof with an expiry ledger appends it to the inputs, and the ledger is a u32.
format_proof-expiry :
    (proof public_signals : Js) (ledger : ℕ) (calldata : SorobanProofCalldata)
    → format_proof proof public_signals (some (int (pos ledger))) ≡ ok calldata
    → (inputs : List (List ℕ)) × (inputs_of calldata ≡ inputs ++ (bigint_to_bytes32 ledger ∷ []))
      × (ledger ≤ max_u32)
unfolding calldata_of
format_proof-expiry proof public_signals ledger calldata h =
    let valid = format_proof-validated proof public_signals (some (int (pos ledger))) calldata h in
    let (n, p) = validate_proof_input_sound proof public_signals valid in
    elim (Bool-cases (leb ledger max_u32)) [
      | inr large ↦ absurd (
          let refused : ◌≡◌ {A = Result SorobanProofCalldata} (ok calldata)
              (err (soroban_zk_error invalid_public_input)) =
            sym h ∙ format_proof-IsProofInput p (some (int (pos ledger))) valid ∙ (rw large refl) in
          cc)
      | inl small ↦
          let same : calldata ≡ calldata_of n (bigint_to_bytes32 ledger ∷ []) = same_ok _ _ (
            sym h
            ∙ format_proof-IsProofInput p (some (int (pos ledger))) valid
            ∙ (rw small refl)) in
          (
            map bigint_to_bytes32 n.signals,
            ap inputs_of same
                ∙ map-bytes_of (map bigint_to_bytes32 n.signals ++ (bigint_to_bytes32 ledger ∷ [])),
            ground arith,
          )
    ]

module _ (host : Host) where
  -- A verdict of `true` comes before the expiry, whatever stands before it among the inputs.
  verify_inputs-expiry :
      (ledger expiry_ledger : ℕ) (a b c expiry : Bytes) (inputs : List Bytes) (r s : Verifier)
      → read_expiry_ledger expiry ≡ some expiry_ledger
      → verify_inputs host ledger a b c (inputs ++ (expiry ∷ [])) r ≡ some (returns true, s)
      → ledger ≤ expiry_ledger
  unfolding verify_inputs
  verify_inputs-expiry ledger expiry_ledger a b c expiry [] r s e h = cc
  verify_inputs-expiry ledger expiry_ledger a b c expiry (x ∷ []) r s e h =
      elim (Bool-cases (ltb expiry_ledger ledger)) [
        | inl late ↦ absurd (let h' = rw (e, late) at h in cc)
        | inr early ↦ ground arith
      ]
  verify_inputs-expiry ledger expiry_ledger a b c expiry (x ∷ y ∷ []) r s e h = cc
  verify_inputs-expiry ledger expiry_ledger a b c expiry (x ∷ y ∷ z ∷ inputs) r s e h = cc

  Proved-expiry :
      (ledger expiry_ledger : ℕ) (caller : Address) (item : ProofItem) (expiry : Bytes)
      (inputs : List Bytes) (r s : Verifier)
      → item.public_inputs ≡ inputs ++ (expiry ∷ [])
      → read_expiry_ledger expiry ≡ some expiry_ledger
      → verify_one host ledger caller item r ≡ some (returns true, s)
      → ledger ≤ expiry_ledger
  unfolding verify_counted
  Proved-expiry ledger expiry_ledger caller item expiry inputs r s e read h =
      tried_before (verify_one-Tried host ledger caller item r (returns true) s h)
    where
      counted_before :
          (t : Verifier)
          → verify_counted host ledger item t ≡ some (returns true, s)
          → ledger ≤ expiry_ledger
      counted_before t h =
          let (a, _, h1) = >>=-eq-some (read_g1 item.proof_a) _ h in
          let (b, _, h2) = >>=-eq-some (read_g2 item.proof_b) _ h1 in
          let (c, _, h3) = >>=-eq-some (read_g1 item.proof_c) _ h2 in
          verify_inputs-expiry ledger expiry_ledger a b c expiry inputs t s read
            (subst (λ xs. verify_inputs host ledger a b c xs t ≡ some (returns true, s)) e h3)

      tried_before : Tried host ledger caller item r (returns true) s → ledger ≤ expiry_ledger
      tried_before (went_on _ _ t) = counted_before t.counted t.tried

  -- The verifier accepts a proof that formatProof encoded with an expiry ledger only in that ledger or
  -- before it, whoever submits it and whatever the public signals are.
  pub accepted_before_expiry :
      (proof public_signals : Js) (expiry_ledger : ℕ) (calldata : SorobanProofCalldata)
      (auth : Auth) (ledger : ℕ) (caller : Address) (r r' : Verifier)
      → format_proof proof public_signals (some (int (pos expiry_ledger))) ≡ ok calldata
      → verify_proof host auth ledger caller (item_of calldata) r ≡ some (returns true, r')
      → ledger ≤ expiry_ledger
  accepted_before_expiry proof public_signals expiry_ledger calldata auth ledger caller r r'
        formatted h =
      let (inputs, e, small) =
        format_proof-expiry proof public_signals expiry_ledger calldata formatted in
      judged_before inputs e (read_expiry_ledger-bigint_to_bytes32 expiry_ledger small)
        (verify_proof-Proved host auth ledger caller (item_of calldata) r (returns true) r' h)
    where
      judged_before :
          (inputs : List Bytes)
          → inputs_of calldata ≡ inputs ++ (bigint_to_bytes32 expiry_ledger ∷ [])
          → read_expiry_ledger (bigint_to_bytes32 expiry_ledger) ≡ some expiry_ledger
          → {t : Verifier} → Proved host ledger caller (item_of calldata) r (returns true) t
          → ledger ≤ expiry_ledger
      judged_before inputs e read (judged _ s ran) =
          Proved-expiry ledger expiry_ledger caller (item_of calldata)
            (bigint_to_bytes32 expiry_ledger) inputs r s e read ran

  -- A verdict of `true` has two public inputs.
  verify_inputs-length :
      (ledger : ℕ) (a b c : Bytes) (inputs : List Bytes) (r s : Verifier)
      → verify_inputs host ledger a b c inputs r ≡ some (returns true, s)
      → length inputs ≡ 2
  unfolding verify_inputs
  verify_inputs-length ledger a b c [] r s h = cc
  verify_inputs-length ledger a b c (x ∷ []) r s h = cc
  verify_inputs-length ledger a b c (x ∷ y ∷ []) r s h = refl
  verify_inputs-length ledger a b c (x ∷ y ∷ z ∷ inputs) r s h = cc

  pub accepted-length :
      (auth : Auth) (ledger : ℕ) (caller : Address) (item : ProofItem) (r r' : Verifier)
      → verify_proof host auth ledger caller item r ≡ some (returns true, r')
      → length item.public_inputs ≡ 2
  unfolding verify_counted
  accepted-length auth ledger caller item r r' h =
      judged_two (verify_proof-Proved host auth ledger caller item r (returns true) r' h)
    where
      counted_two :
          (t s : Verifier)
          → verify_counted host ledger item t ≡ some (returns true, s)
          → length item.public_inputs ≡ 2
      counted_two t s h =
          let (a, _, h1) = >>=-eq-some (read_g1 item.proof_a) _ h in
          let (b, _, h2) = >>=-eq-some (read_g2 item.proof_b) _ h1 in
          let (c, _, h3) = >>=-eq-some (read_g1 item.proof_c) _ h2 in
          verify_inputs-length ledger a b c item.public_inputs t s h3

      tried_two :
          {s : Verifier}
          → Tried host ledger caller item r (returns true) s
          → length item.public_inputs ≡ 2
      tried_two (went_on _ s t) = counted_two t.counted s t.tried

      judged_two :
          {t : Verifier}
          → Proved host ledger caller item r (returns true) t
          → length item.public_inputs ≡ 2
      judged_two (judged _ s ran) =
          tried_two (verify_one-Tried host ledger caller item r (returns true) s ran)
