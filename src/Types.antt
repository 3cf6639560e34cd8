-- ===== src/Types.antt =====
-- sdk/src/types.ts: the error codes and error classes, and the results of functions that throw.
use zkstellar.Prelude.{ℕ, Bool, true, false}
use zkstellar.Text.{Text}
use Prim.Native.String.{String}
use zkstellar.Prelude.{◌≡◌, refl, ◌⊎◌, inl, inr}

-- `enum SorobanZkErrorCode`
pub data SorobanZkErrorCode : Type 0 where
  invalid_proof_format invalid_public_input contract_invocation_failed : SorobanZkErrorCode
  transaction_rejected network_error resource_limit_exceeded network_mismatch : SorobanZkErrorCode
  contract_not_initialized rate_limit_exceeded invalid_window_size : SorobanZkErrorCode
  proof_expired caller_not_allowed proof_generation_failed contract_paused : SorobanZkErrorCode

-- The results of `typeof` on the values that occur here.
pub data TypeName : Type 0 where
  undefined_type object_type boolean_type number_type bigint_type string_type : TypeName

-- A field's path such as `pi_b[0][1]` is `at (at (root "pi_b") 0) 1`.
pub data FieldPath : Type 0 where
  root : String → FieldPath
  at : FieldPath → ℕ → FieldPath

-- The reason that a `ZkInputError` gives, with the values that its text shows.
pub data Reason : Type 0 where
  not_an_array not_a_string not_an_object not_a_buffer : TypeName → Reason
  not_a_bigint not_a_byte_array : TypeName → Reason
  too_short : ℕ → ℕ → Reason
  not_decimal not_decimal_or_hex not_32_bytes exceeds_field not_groth16 : Reason
  wrong_bytes : ℕ → ℕ → Reason

-- What a function throws: the three error classes of the SDK, and any other `Error` with its message.
pub data Failure : Type 0 where
  soroban_zk_error : SorobanZkErrorCode → Failure
  zk_input_error : FieldPath → Reason → SorobanZkErrorCode → Failure
  network_mismatch_error : Text → Text → Failure
  other_error : Text → Failure

-- `error.code`, where the error is a `SorobanZkError` or of a class that extends it.
abbrev pub is_soroban_zk_error : Failure → Bool
is_soroban_zk_error (soroban_zk_error c) = true
is_soroban_zk_error (zk_input_error f r c) = true
is_soroban_zk_error (network_mismatch_error e a) = true
is_soroban_zk_error (other_error m) = false

pub data Result {ℓ} (A : Type ℓ) : Type ℓ where
  ok : A → Result A
  err : Failure → Result A

-- `if (!test) throw failure;`
abbrev pub guard : Bool → Failure → Result (Unit {0})
guard test failure = elim test [ true ↦ ok tt | false ↦ err failure ]

-- A throw ends the steps behind it.
infixl 5 ◌>>=◌ ◌>>◌
abbrev pub ◌>>=◌ {ℓ κ} : {A : Type ℓ} {B : Type κ} → Result A → (A → Result B) → Result B
ok value >>= next = next value
err failure >>= next = err failure

abbrev pub ◌>>◌ {ℓ} : {B : Type ℓ} → Result (Unit {0}) → Result B → Result B
first >> next = first >>= λ done. next

-- If both steps succeed, so does the first.
pub >>=-eq-ok {ℓ κ} :
    {A : Type ℓ} {B : Type κ} (first : Result A) (next : A → Result B) {result : B}
    → (first >>= next) ≡ ok result
    → (value : A) × (first ≡ ok value) × (next value ≡ ok result)
>>=-eq-ok (err failure) next h = cc
>>=-eq-ok (ok value) next h = (value, refl, h)

pub guard-eq-ok : (test : Bool) (failure : Failure) → guard test failure ≡ ok tt → test ≡ true
guard-eq-ok false failure h = cc
guard-eq-ok true failure h = refl

-- A result is a value or a failure.
pub Result-cases {ℓ} :
    {A : Type ℓ} (r : Result A) → ((a : A) × (r ≡ ok a)) ⊎ ((e : Failure) × (r ≡ err e))
Result-cases (ok a) = inl (a, refl)
Result-cases (err e) = inr (e, refl)

pub ok_injective {ℓ} : {A : Type ℓ} {a b : A} → ok a ≡ ok b → a ≡ b
ok_injective h = cc
