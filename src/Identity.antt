-- ===== src/Identity.antt =====
-- sdk/src/identity.ts: commitments of the `identity_commitment` circuit.
pub mod Commitment
pub mod Tests
use zkstellar.Prelude.{ℕ, Bool, true, false, List, [], ◌∷◌, length, ltb, leb, ◌==◌, not}
use zkstellar.Text.{Text, ℤ, pos, negsuc, print_decimal}
use zkstellar.Types.{invalid_public_input, soroban_zk_error, Result, ok, err, ◌>>=◌, ◌>>◌, guard}
use zkstellar.Poseidon.{PoseidonConstants, poseidon}
use zkstellar.PoseidonUtils.{IdentityCommitment}
use zkstellar.Validate.{to_bigint}

-- `a === b` on bigints.
abbrev pub same_bigint : ℤ → ℤ → Bool
same_bigint (pos n) (pos m) = n == m
same_bigint (pos n) (negsuc m) = false
same_bigint (negsuc n) (pos m) = false
same_bigint (negsuc n) (negsuc m) = n == m

-- The circuit's inputs, all decimal strings.
pub record IdentityInputs : Type 0 where
  pub secret : Text
  pub inner : Text
  pub commitment2 : Text

pub record IdentityRegistrationPayload : Type 0 where
  pub anchor : Text
  pub inner_commitment : Text
  pub created_at : Text

module _ (constants : PoseidonConstants) where
  pub build_identity_commitment : ℤ → Result IdentityCommitment
  build_identity_commitment secret = do
    inner ← poseidon constants (secret ∷ [])
    outer ← poseidon constants (inner ∷ [])
    ok (record { inner = inner; outer = outer })

  pub identity_circuit_inputs : ℤ → Result IdentityInputs
  identity_circuit_inputs secret = do
    c ← build_identity_commitment secret
    ok (record {
      secret = print_decimal secret;
      inner = print_decimal c.inner;
      commitment2 = print_decimal c.outer;
    })

  pub verify_identity_commitment : ℤ → ℤ → Result Bool
  verify_identity_commitment inner outer = do
    digest ← poseidon constants (inner ∷ [])
    ok (same_bigint digest outer)

  -- `now` is `new Date().toISOString()`.
  identity_registration_payload : Text → ℤ → Result IdentityRegistrationPayload
  identity_registration_payload now secret = do
    c ← build_identity_commitment secret
    ok (record {
      anchor = print_decimal c.outer;
      inner_commitment = print_decimal c.inner;
      created_at = now;
    })

-- The first two signals as bigints.
abbrev first_two : List Text → Result IdentityCommitment
first_two [] = err (soroban_zk_error invalid_public_input)
first_two (a ∷ []) = err (soroban_zk_error invalid_public_input)
first_two (a ∷ b ∷ rest) = do
  inner ← to_bigint a
  outer ← to_bigint b
  ok (record { inner = inner; outer = outer })

pub parse_identity_public_signals : List Text → Result IdentityCommitment
parse_identity_public_signals public_signals = first_two public_signals
