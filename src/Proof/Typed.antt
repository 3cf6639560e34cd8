-- ===== src/Proof/Typed.antt =====
-- `formatProof` throws errors of the SDK's own classes only.
use zkstellar.Prelude.{◌≡◌, ◌∙◌, sym, Option, none, some, inl, inr, arith, true}
use zkstellar.Text.{pos, negsuc}
use zkstellar.Types.{Failure, is_soroban_zk_error, ok, err, Result-cases}
use zkstellar.Js.{Js, JsNumber, int, non_integer}
use zkstellar.Validate.{validate_proof_input}
use zkstellar.Validate.Accepts.{validate_proof_input_sound}
use zkstellar.Validate.Plain.{IsPlain}
use zkstellar.Validate.Typed.{IsTyped, IsTyped-bind, validate_proof_input-IsTyped}
use zkstellar.Proof.{expiry_input, format_proof}
use zkstellar.Proof.Format.{format_proof-IsProofInput, calldata_of}

expiry_input-IsTyped : (expiry : Option JsNumber) → IsTyped (expiry_input expiry)
expiry_input-IsTyped none = λ f h. cc
expiry_input-IsTyped (some (int (pos n))) = λ f h. ground arith
expiry_input-IsTyped (some (int (negsuc n))) = λ f h. cc
expiry_input-IsTyped (some non_integer) = λ f h. cc

format_proof_rejects :
    (proof public_signals : Js) (expiry : Option JsNumber) (e : Failure)
    → validate_proof_input proof public_signals ≡ err e
    → format_proof proof public_signals expiry ≡ err e
unfolding format_proof
format_proof_rejects proof public_signals expiry e h = rw h

-- Whatever the proof, the public signals and the expiry ledger are, an error that formatProof throws is
-- a SorobanZkError or of a class that extends it, never a TypeError or SyntaxError of the platform, unless
-- an object in the proof or the signals has an own property `toString`.
pub format_proof-IsTyped :
    (proof public_signals : Js) (expiry : Option JsNumber)
    → IsPlain proof
    → IsPlain public_signals
    → (f : Failure) → format_proof proof public_signals expiry ≡ err f
    → is_soroban_zk_error f ≡ true
format_proof-IsTyped proof public_signals expiry plain signals_plain f h =
    elim (Result-cases (validate_proof_input proof public_signals)) [
      | inl (u, valid) ↦
          let (n, p) = validate_proof_input_sound proof public_signals valid in
          IsTyped-bind (expiry_input expiry) (λ extra. ok (calldata_of n extra))
            (expiry_input-IsTyped expiry) (λ extra g q. cc) f
            (sym (format_proof-IsProofInput p expiry valid) ∙ h)
      | inr (e, invalid) ↦
          let same : e ≡ f =
            rejected_with e (format_proof_rejects proof public_signals expiry e invalid) in
          validate_proof_input-IsTyped proof public_signals plain signals_plain f
            (rw same at invalid)
    ]
  where
    rejected_with : (e : Failure) → format_proof proof public_signals expiry ≡ err e → e ≡ f
    rejected_with e g = cc (g, h)
