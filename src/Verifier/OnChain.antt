-- ===== src/Verifier/OnChain.antt =====
-- verifyOnChain of the SDK in front of the verifier.
use zkstellar.Prelude.{ℕ, ◌≡◌, ◌∙◌, sym, ap, Bool, Option, none, some, arith}
use zkstellar.Text.{Text}
use zkstellar.Types.{ok}
use zkstellar.Js.{boolean}
use zkstellar.Validate.{SorobanProofCalldata}
use zkstellar.Proof.{format_proof}
use zkstellar.Verify.Server.{Server, Success, succeeded, VerifyResult, ProofBundle}
use zkstellar.Verify.Decode.{decode_verify_return_value, resolve_calldata}
use zkstellar.Verify.Poll.{VerifyOptions, verify_on_chain}
use zkstellar.Verify.Verified.{verify_on_chain_sound}
use zkstellar.Contract.{Auth, Host}
use zkstellar.Verifier.{returns, Verifier}
use zkstellar.Verifier.Proofs.{verify_proof}
use zkstellar.Verifier.Expiry.{item_of}

-- A transaction in which the verifier ran on a calldata for a caller, in some state and in the ledger that the
-- transaction reports: a call that returned an error has failed and is none.
pub record Ran (host : Host) (caller : Text) (calldata : SorobanProofCalldata) (result : Success)
    : Type 0 where
  pub ran_auth : Auth
  pub ran_ledger : ℕ
  pub ran_before : Verifier
  pub ran_after : Verifier
  pub ran_success : Bool
  pub ran_call :
      verify_proof host ran_auth ran_ledger caller (item_of calldata) ran_before
      ≡ some (returns ran_success, ran_after)
  pub ran_in : result.ledger ≡ some ran_ledger
  pub ran_value : result.return_value ≡ some (boolean ran_success)

-- Each transaction that the server finds is one of the verifier.
abbrev pub Executes : Host → Server → Text → SorobanProofCalldata → Type 0
Executes host server caller calldata =
    (n : ℕ) (result : Success)
    → server.poll n ≡ ok (succeeded result)
    → Ran host caller calldata result

-- The same for the calldata of the options.
abbrev pub ExecutesOptions : Host → Server → VerifyOptions → Type 0
ExecutesOptions host server opts =
    (calldata : SorobanProofCalldata)
    → resolve_calldata opts.calldata opts.bundle ≡ ok calldata
    → Executes host server opts.public_key calldata

-- `value` decodes to the Boolean that the contract returned.
decoded_value :
    (result : Success) (success verified : Bool)
    → result.return_value ≡ some (boolean success)
    → decode_verify_return_value result ≡ some verified
    → verified ≡ success
unfolding decode_verify_return_value
decoded_value result success verified e h =
    let h' : ◌≡◌ {A = Option Bool} (some success) (some verified) = rw e at h in ground arith

same_ledger : (result : Success) (n m : ℕ) → result.ledger ≡ some n → result.ledger ≡ some m → n ≡ m
same_ledger result n m p q = ground arith

pub same_calldata :
    (given : Option SorobanProofCalldata) (bundle : Option ProofBundle)
    (calldata resolved : SorobanProofCalldata)
    → given ≡ some calldata
    → resolve_calldata given bundle ≡ ok resolved
    → resolved ≡ calldata
unfolding resolve_calldata
same_calldata none bundle calldata resolved e h = cc
same_calldata (some other) bundle calldata resolved e h = ground arith

pub from_bundle :
    (given : Option SorobanProofCalldata) (option : Option ProofBundle) (bundle : ProofBundle)
    (resolved : SorobanProofCalldata)
    → given ≡ none
    → option ≡ some bundle
    → resolve_calldata given option ≡ ok resolved
    → format_proof bundle.proof bundle.public_signals none ≡ ok resolved
unfolding resolve_calldata
from_bundle none none bundle resolved e f h = cc
from_bundle none (some other) bundle resolved e f h =
    let same : other ≡ bundle = ground arith in
    ap (λ (b : ProofBundle). format_proof b.proof b.public_signals none) (sym same) ∙ h
from_bundle (some calldata) option bundle resolved e f h = cc

module _ (host : Host) where
  -- What verifyOnChain reports is what the contract returned in the ledger that is reported, if each
  -- transaction that the server finds is a run of the verifier on the calldata of the options.
  pub verify_on_chain_reports :
      (server : Server) (opts : VerifyOptions) (v : VerifyResult)
      → verify_on_chain server opts ≡ some (ok v)
      → ExecutesOptions host server opts
      → (calldata : SorobanProofCalldata) × (auth : Auth) × (r : Verifier) × (r' : Verifier)
        × (resolve_calldata opts.calldata opts.bundle ≡ ok calldata)
        × (verify_proof host auth v.ledger opts.public_key (item_of calldata) r
            ≡ some (returns v.verified, r'))
  verify_on_chain_reports server opts v h executes =
      let (
        calldata, passphrase, sent, n, result, resolved, valid, network, checked, submitted, found,
        verdict, hash, ledger,
      ) =
        verify_on_chain_sound server opts v h in
      let ran = executes calldata resolved n result found.found_answer in
      (
        calldata,
        ran.ran_auth,
        ran.ran_before,
        ran.ran_after,
        resolved,
        ap
              (λ (m : ℕ).
                verify_proof host ran.ran_auth m opts.public_key (item_of calldata) ran.ran_before)
              (same_ledger result v.ledger ran.ran_ledger ledger ran.ran_in)
            ∙ ran.ran_call
            ∙ ap (λ b. some (returns b, ran.ran_after))
                (sym (decoded_value result ran.ran_success v.verified ran.ran_value verdict)),
      )
