-- ===== src/Verify/Thrown.antt =====
-- What `verifyOnChain` throws.
use zkstellar.Prelude.{◌≡◌, refl, true, Option, none, some}
use zkstellar.Types.{
  Failure, soroban_zk_error, zk_input_error, network_mismatch_error, other_error,
  is_soroban_zk_error, Result, ok, err,
}
use zkstellar.Validate.{SorobanProofCalldata}
use zkstellar.Validate.Plain.{IsPlain}
use zkstellar.Validate.Typed.{IsTyped}
use zkstellar.Proof.Typed.{format_proof-IsTyped}
use zkstellar.Verify.Errors.{catching, caught, classify_error}
use zkstellar.Verify.Server.{Server, ProofBundle}
use zkstellar.Verify.Decode.{resolve_calldata}

caught-is_soroban_zk_error : (f : Failure) → is_soroban_zk_error (caught f) ≡ true
unfolding caught classify_error
caught-is_soroban_zk_error (soroban_zk_error code) = refl
caught-is_soroban_zk_error (zk_input_error code field reason) = refl
caught-is_soroban_zk_error (network_mismatch_error a b) = refl
caught-is_soroban_zk_error (other_error message) = refl

-- No object in the bundle's proof or public signals, at any depth, has an own property `toString`.
abbrev pub IsPlainBundle : Option ProofBundle → Type 0
IsPlainBundle none = Unit
IsPlainBundle (some bundle) = IsPlain bundle.proof × IsPlain bundle.public_signals

pub resolve_calldata-IsTyped :
    (calldata : Option SorobanProofCalldata) (bundle : Option ProofBundle)
    → IsPlainBundle bundle
    → IsTyped (resolve_calldata calldata bundle)
unfolding resolve_calldata
resolve_calldata-IsTyped (some calldata) bundle plain = λ f h. cc
resolve_calldata-IsTyped none (some bundle) plain =
    format_proof-IsTyped bundle.proof bundle.public_signals none plain.0 plain.1
resolve_calldata-IsTyped none none plain = λ f h. cc

-- As `IsTyped`, for a computation on fuel.
abbrev Throws {ℓ} : {A : Type ℓ} → Option (Result A) → Type ℓ
Throws o = (f : Failure) → o ≡ some (err f) → is_soroban_zk_error f ≡ true

pub catching-IsTyped {ℓ} : {A : Type ℓ} (r : Result A) → IsTyped (catching r)
unfolding catching
catching-IsTyped (ok a) = λ f h. absurd (cc)
catching-IsTyped (err e) = λ f h. cc (caught-is_soroban_zk_error e)
