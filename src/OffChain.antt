-- ===== src/OffChain.antt =====
-- sdk/src/verifyOffChain.ts: the checks in front of the verifier of snarkjs, which is a parameter.
use zkstellar.Prelude.{Bool, true, false, ◌&&◌, Option, none, some, ◌≡◌, refl}
use zkstellar.Types.{
  invalid_proof_format, invalid_public_input, soroban_zk_error, Result, ok, err, ◌>>=◌, ◌>>◌, guard,
}
use zkstellar.Js.{Js, as_array, as_string, is_object, prop, truthy}
use zkstellar.Validate.{is_groth16}
pub mod Accepted
pub mod Tests

-- `Array.isArray(value)`
abbrev pub is_array : Js → Bool
is_array value = elim (as_array value) [ none ↦ false | some vs ↦ true ]

-- `!value || typeof value !== "object" || value.protocol !== "groth16"`, negated.
abbrev pub is_groth16_object : Js → Bool
is_groth16_object value = is_object value && is_groth16 (as_string (prop value "protocol"))

-- `groth16_verify` is `snarkjs.groth16.verify`, which may throw.
module _ (groth16_verify : Js → Js → Js → Result Js) where
  pub verify_off_chain : Js → Js → Js → Result Bool
  verify_off_chain proof public_signals verification_key = do
    guard (is_groth16_object proof) (soroban_zk_error invalid_proof_format)
    guard
        (is_array (prop proof "pi_a")
          && is_array (prop proof "pi_b")
          && is_array (prop proof "pi_c"))
        (soroban_zk_error invalid_proof_format)
    guard (is_array public_signals) (soroban_zk_error invalid_public_input)
    guard (is_groth16_object verification_key) (soroban_zk_error invalid_proof_format)
    verdict ← groth16_verify verification_key public_signals proof
    ok (truthy verdict)
