-- ===== src/Verifier/Bundles.antt =====
-- What verifyOnChain can report of a bundle or a calldata, in front of the verifier.
use zkstellar.Prelude.{
  ℕ, ◌≤◌, ◌≡◌, ◌∙◌, sym, ap, true, false, List, [], ◌∷◌, map, none, some, length, length-map,
  length-append, arith, Bool-cases, inl, inr,
}
use zkstellar.Text.{pos}
use zkstellar.Types.{ok}
use zkstellar.Js.{Js, int, as_array}
use zkstellar.Bytes.{bigint_to_bytes32}
use zkstellar.Validate.{SorobanProofCalldata}
use zkstellar.Proof.{format_proof}
use zkstellar.Proof.Format.{calldata_of, format_proof-validated, format_proof_correct}
use zkstellar.Cli.{inputs_of}
use zkstellar.Cli.EstimateFee.{inputs_of-calldata_of, length-AreSignals}
use zkstellar.Verify.Server.{Server, VerifyResult, ProofBundle}
use zkstellar.Verify.Poll.{VerifyOptions, verify_on_chain}
use zkstellar.Contract.{Host}
use zkstellar.Verifier.{returns}
use zkstellar.Verifier.Proofs.{verify_proof}
use zkstellar.Verifier.Expiry.{item_of, same_ok, accepted_before_expiry, accepted-length}
use zkstellar.Verifier.OnChain.{
  ExecutesOptions, same_calldata, from_bundle, verify_on_chain_reports,
}

-- Without an expiry there are as many public inputs as signals.
inputs_of-length :
    (proof public_signals : Js) (vs : List Js) (calldata : SorobanProofCalldata)
    → format_proof proof public_signals none ≡ ok calldata
    → as_array public_signals ≡ some vs
    → length (inputs_of calldata) ≡ length vs
inputs_of-length proof public_signals vs calldata h e =
    let (n, p, formatted) =
      format_proof_correct proof public_signals
        (format_proof-validated proof public_signals none calldata h) in
    let elements : p.input_elements ≡ vs = let q = p.input_array in ground arith in
    ap (λ (c : SorobanProofCalldata). length (inputs_of c))
      (same_ok calldata (calldata_of n []) (sym h ∙ formatted))
    ∙ ap length (inputs_of-calldata_of n)
    ∙ omega (
      arith,
      length-append (map bigint_to_bytes32 n.signals) [],
      length-map n.signals bigint_to_bytes32,
      length-AreSignals p.input_elements n.signals p.input_signals,
    )
    ∙ ap length elements

module _ (host : Host) where
  -- verifyOnChain reports a proof as verified only in a ledger up to the expiry that formatProof encoded in
  -- the calldata, if each transaction that the server finds is a run of the verifier on the calldata.
  pub verified_before_expiry :
      (server : Server) (opts : VerifyOptions) (v : VerifyResult) (proof public_signals : Js)
      (expiry_ledger : ℕ) (calldata : SorobanProofCalldata)
      → opts.calldata ≡ some calldata
      → format_proof proof public_signals (some (int (pos expiry_ledger))) ≡ ok calldata
      → ExecutesOptions host server opts
      → verify_on_chain server opts ≡ some (ok v)
      → v.verified ≡ true
      → v.ledger ≤ expiry_ledger
  verified_before_expiry server opts v proof public_signals expiry_ledger calldata given formatted
        executes h verified =
      let (resolved, auth, r, r', e, ran) = verify_on_chain_reports host server opts v h executes in
      let same = same_calldata opts.calldata opts.bundle calldata resolved given e in
      accepted_before_expiry host proof public_signals expiry_ledger calldata auth v.ledger
        opts.public_key r r' formatted
        (ap
            (λ (c : SorobanProofCalldata).
              verify_proof host auth v.ledger opts.public_key (item_of c) r)
            (sym same)
          ∙ ran
          ∙ ap (λ b. some (returns b, r')) verified)

  -- If each transaction that the server finds is a run of the verifier on the calldata, verifyOnChain never
  -- reports a bundle with one public signal as verified: it encodes the bundle without an expiry, and the
  -- verifier answers `false` to one public input.
  pub one_signal_bundle_not_verified :
      (server : Server) (opts : VerifyOptions) (v : VerifyResult) (bundle : ProofBundle)
      (signal : Js)
      → opts.calldata ≡ none
      → opts.bundle ≡ some bundle
      → as_array bundle.public_signals ≡ some (signal ∷ [])
      → ExecutesOptions host server opts
      → verify_on_chain server opts ≡ some (ok v)
      → v.verified ≡ false
  one_signal_bundle_not_verified server opts v bundle signal given bundled one executes h =
      let (resolved, auth, r, r', e, ran) = verify_on_chain_reports host server opts v h executes in
      elim (Bool-cases v.verified) [
        | inr rejected ↦ rejected
        | inl verified ↦ absurd (
            let inputs =
              inputs_of-length bundle.proof bundle.public_signals (signal ∷ []) resolved
                (from_bundle opts.calldata opts.bundle bundle resolved given bundled e) one in
            let two =
              accepted-length host auth v.ledger opts.public_key (item_of resolved) r r'
                (ran ∙ ap (λ b. some (returns b, r')) verified) in
            omega arith)
      ]
