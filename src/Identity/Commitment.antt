-- ===== src/Identity/Commitment.antt =====
-- The identity helpers agree with one another.
use zkstellar.Prelude.{ℕ, ◌≡◌, refl, ◌∙◌, sym, ap, Bool, true, List, [], ◌∷◌, some, arith, ◌↔◌}
use zkstellar.Text.{Text, ℤ, pos, negsuc, print_decimal, print_radix, big_int}
use zkstellar.Text.Digits.{some_digits-print_radix, value-print_radix}
use zkstellar.Text.Parsing.{big_int-decimal}
use zkstellar.Types.{ok, ok_injective}
use zkstellar.Poseidon.{PoseidonConstants, poseidon}
use zkstellar.Poseidon.Field.{digest_of, poseidon-digest_of}
use zkstellar.PoseidonUtils.{IdentityCommitment, poseidon_commit_double, poseidon_commit}
use zkstellar.Identity.{
  same_bigint, IdentityInputs, build_identity_commitment, identity_circuit_inputs,
  verify_identity_commitment, parse_identity_public_signals,
}

-- A nonnegative bigint is read back from its decimal print.
big_int-print_decimal : (n : ℕ) → big_int (print_decimal (pos n)) ≡ some (pos n)
unfolding print_decimal
big_int-print_decimal n =
    big_int-decimal (print_radix 8 n) (some_digits-print_radix 8 n (omega arith))
    ∙ ap (λ (m : ℕ). some (pos m)) (value-print_radix 8 n (omega arith))

same_bigint_iff : (a b : ℤ) → (same_bigint a b ≡ true) ↔ (a ≡ b)
same_bigint_iff (pos n) (pos m) = ground arith
same_bigint_iff (pos n) (negsuc m) = ground arith
same_bigint_iff (negsuc n) (pos m) = ground arith
same_bigint_iff (negsuc n) (negsuc m) = ground arith

-- buildIdentityCommitment succeeds on every secret, agrees with poseidonCommitDouble, and
-- verifyIdentityCommitment accepts its two values.
pub build_identity_commitment_verifies :
    (k : PoseidonConstants) (secret : ℤ)
    → (c : IdentityCommitment) × (build_identity_commitment k secret ≡ ok c)
      × (poseidon_commit_double k secret ≡ ok c)
      × (poseidon_commit k secret ≡ ok c.inner)
      × (verify_identity_commitment k c.inner c.outer ≡ ok true)
unfolding build_identity_commitment poseidon_commit_double verify_identity_commitment
    poseidon_commit
build_identity_commitment_verifies k secret =
    let inner = poseidon-digest_of k (secret ∷ []) (omega arith) (omega arith) in
    let outer =
      poseidon-digest_of k (pos (digest_of k (secret ∷ [])) ∷ []) (omega arith) (omega arith) in
    (
      record {
        inner = pos (digest_of k (secret ∷ []));
        outer = pos (digest_of k (pos (digest_of k (secret ∷ [])) ∷ []));
      },
      rw (inner, outer),
      rw (inner, outer),
      inner,
      rw outer (
          ap (λ (b : Bool). ok b)
            ((same_bigint_iff (pos (digest_of k (pos (digest_of k (secret ∷ [])) ∷ []))) _).1
              refl)),
    )

-- verifyIdentityCommitment accepts exactly the outer commitment that poseidon makes of the inner one.
verify_identity_commitment_iff :
    (k : PoseidonConstants) (inner outer : ℤ)
    → (verify_identity_commitment k inner outer ≡ ok true) ↔ (poseidon k (inner ∷ []) ≡ ok outer)
unfolding verify_identity_commitment
verify_identity_commitment_iff k inner outer =
    let e = poseidon-digest_of k (inner ∷ []) (omega arith) (omega arith) in
    let s = same_bigint_iff (pos (digest_of k (inner ∷ []))) outer in
    rw e (λ h. ap (λ x. ok x) (s.0 (ok_injective h)), λ h. ap (λ x. ok x) (s.1 (ok_injective h)))

parse_two :
    (a b : Text) (x y : ℤ) (rest : List Text)
    → big_int a ≡ some x
    → big_int b ≡ some y
    → parse_identity_public_signals (a ∷ b ∷ rest) ≡ ok (record { inner = x; outer = y })
unfolding parse_identity_public_signals
parse_two a b x y rest p q = ground arith

-- The public signals that hold the strings of identityCircuitInputs, with anything behind them, are
-- parsed to the commitment that buildIdentityCommitment made.
pub parse_identity_public_signals_lem :
    (k : PoseidonConstants) (secret : ℤ) (rest : List Text)
    → (inputs : IdentityInputs) × (identity_circuit_inputs k secret ≡ ok inputs)
      × (parse_identity_public_signals (inputs.inner ∷ inputs.commitment2 ∷ rest)
          ≡ build_identity_commitment k secret)
unfolding identity_circuit_inputs build_identity_commitment
parse_identity_public_signals_lem k secret rest =
    let inner = poseidon-digest_of k (secret ∷ []) (omega arith) (omega arith) in
    let outer =
      poseidon-digest_of k (pos (digest_of k (secret ∷ [])) ∷ []) (omega arith) (omega arith) in
    (
      record {
        secret = print_decimal secret;
        inner = print_decimal (pos (digest_of k (secret ∷ [])));
        commitment2 = print_decimal (pos (digest_of k (pos (digest_of k (secret ∷ [])) ∷ [])));
      },
      rw (inner, outer),
      parse_two _ _ _ _ rest (big_int-print_decimal (digest_of k (secret ∷ [])))
            (big_int-print_decimal (digest_of k (pos (digest_of k (secret ∷ [])) ∷ [])))
          ∙ sym (rw (inner, outer)),
    )
