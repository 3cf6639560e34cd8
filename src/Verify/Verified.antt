-- ===== src/Verify/Verified.antt =====
-- What `verifyOnChain` promises: a verdict is one that the chain returned, and every call ends.
use zkstellar.Prelude.{ℕ, ◌≡◌, refl, ap, Option, none, some, arith}
use zkstellar.Text.{Text}
use zkstellar.Types.{Result, ok, err}
use zkstellar.Validate.{SorobanProofCalldata, validate_calldata}
use zkstellar.Verify.Errors.{catching}
use zkstellar.Verify.Server.{verify_proof, Success, SendResult, Server, VerifyResult}
use zkstellar.Verify.Decode.{
  verify_result, decode_verify_return_value, resolve_calldata, check_network,
}
use zkstellar.Verify.Poll.{
  poll_loop, poll_fuel, submit, verify_attempt, verify_on_chain, and_then, catching_option,
  VerifyOptions,
}
use zkstellar.Verify.Outcome.{IsFound, Found, poll_loop_sound, poll_loop_total, Ticks}

pub and_then-eq-ok {ℓ κ} :
    {A : Type ℓ} {B : Type κ} (m : Result A) (f : A → Option (Result B)) {b : B}
    → and_then m f ≡ some (ok b)
    → (a : A) × (m ≡ ok a) × (f a ≡ some (ok b))
and_then-eq-ok (ok a) f h = (a, refl, h)
and_then-eq-ok (err e) f h = absurd (cc)

pub and_then_total {ℓ κ} :
    {A : Type ℓ} {B : Type κ} (m : Result A) (f : A → Option (Result B))
    → ((a : A) → (r : Result B) × (f a ≡ some r))
    → (r : Result B) × (and_then m f ≡ some r)
and_then_total (ok a) f h = h a
and_then_total (err e) f h = (err e, refl)

pub catching-eq-ok {ℓ} : {A : Type ℓ} (r : Result A) {a : A} → catching r ≡ ok a → r ≡ ok a
unfolding catching
catching-eq-ok (ok b) h = h
catching-eq-ok (err e) h = cc

pub catching_option-eq-ok {ℓ} :
    {A : Type ℓ} (o : Option (Result A)) {a : A} → catching_option o ≡ some (ok a) → o ≡ some (ok a)
catching_option-eq-ok none h = cc
catching_option-eq-ok (some r) {a} h = ap some (catching-eq-ok r {a = a} (cc))

verify_result-eq-ok :
    (result : Success) (v : VerifyResult)
    → verify_result result ≡ ok v
    → (decode_verify_return_value result ≡ some v.verified)
      × (result.tx_hash ≡ v.tx_hash)
      × (result.ledger ≡ some v.ledger)
unfolding verify_result
verify_result-eq-ok result v h = ground arith

-- If verifyOnChain returns a verdict, then the calldata passed validateCalldata, the bundle's network,
-- if there is a bundle, is the server's, the transaction was accepted for submission, and some
-- getTransaction within the time limit, after answers of NOT_FOUND only, reported success with a
-- return value that decodes to the verdict, under the returned hash and ledger.
pub verify_on_chain_sound :
    (server : Server) (opts : VerifyOptions) (v : VerifyResult)
    → verify_on_chain server opts ≡ some (ok v)
    → (calldata : SorobanProofCalldata) × (passphrase : Text) × (sent : SendResult) × (n : ℕ)
      × (result : Success) × (resolve_calldata opts.calldata opts.bundle ≡ ok calldata)
      × (validate_calldata calldata ≡ ok tt)
      × (server.network ≡ ok passphrase)
      × (check_network opts.bundle passphrase ≡ ok tt)
      × (submit server passphrase opts.public_key opts.contract_id
            (verify_proof opts.public_key calldata)
          ≡ ok sent)
      × IsFound server 0 n result
      × (decode_verify_return_value result ≡ some v.verified)
      × (result.tx_hash ≡ v.tx_hash)
      × (result.ledger ≡ some v.ledger)
unfolding verify_on_chain verify_attempt Found
verify_on_chain_sound server opts v h =
    let (calldata, resolved, h1) =
      and_then-eq-ok (resolve_calldata opts.calldata opts.bundle) _ {b = v} h in
    let (u, valid, h2) = and_then-eq-ok (validate_calldata calldata) _ {b = v} h1 in
    let h3 = catching_option-eq-ok (verify_attempt server opts calldata) {a = v} h2 in
    let (passphrase, network, h4) = and_then-eq-ok server.network _ {b = v} h3 in
    let (w, checked, h5) = and_then-eq-ok (check_network opts.bundle passphrase) _ {b = v} h4 in
    let (sent, submitted, h6) =
      and_then-eq-ok
        (submit server passphrase opts.public_key opts.contract_id
          (verify_proof opts.public_key calldata))
        (λ sent. poll_loop verify_result server poll_fuel 0) {b = v} h5 in
    let (n, result, found, done) = poll_loop_sound verify_result server poll_fuel 0 v h6 in
    let (verdict, same_hash, same_ledger) = verify_result-eq-ok result v done in
    (
      calldata, passphrase, sent, n, result, resolved, valid, network, checked, submitted, found,
      verdict, same_hash, same_ledger,
    )

pub catching_option_total {ℓ} :
    {A : Type ℓ} (o : Option (Result A))
    → ((r : Result A) × (o ≡ some r))
    → (r : Result A) × (catching_option o ≡ some r)
catching_option_total none (r, h) = absurd (cc)
catching_option_total (some r) h = (catching r, refl)

verify_attempt_total :
    (server : Server) (opts : VerifyOptions) (calldata : SorobanProofCalldata)
    → Ticks verify_result server
    → (r : Result VerifyResult) × (verify_attempt server opts calldata ≡ some r)
unfolding verify_attempt
verify_attempt_total server opts calldata ticks = and_then_total server.network _ λ passphrase.
    and_then_total (check_network opts.bundle passphrase) _ λ u.
      and_then_total
        (submit server passphrase opts.public_key opts.contract_id
          (verify_proof opts.public_key calldata))
        _ λ sent. poll_loop_total verify_result server poll_fuel 0 ticks (omega arith) (omega arith)

-- verifyOnChain returns or throws, and does not wait for ever, whatever the server answers, if each
-- round of its loop takes a second at least by the clock.
pub verify_on_chain_total :
    (server : Server) (opts : VerifyOptions)
    → Ticks verify_result server
    → (r : Result VerifyResult) × (verify_on_chain server opts ≡ some r)
unfolding verify_on_chain
verify_on_chain_total server opts ticks =
    and_then_total (resolve_calldata opts.calldata opts.bundle) _ λ calldata.
      and_then_total (validate_calldata calldata) _ λ u.
        catching_option_total (verify_attempt server opts calldata)
          (verify_attempt_total server opts calldata ticks)
