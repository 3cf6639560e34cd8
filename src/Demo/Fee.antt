-- ===== src/Demo/Fee.antt =====
-- demo/src/estimateFee.ts: the fee is estimated, then the proof is submitted. The prover, the server, the
-- time, the random secret and the public key of the secret key are parameters.
use zkstellar.Prelude.{ℕ, [], ◌∷◌, Option, none, some, if◌then◌else◌}
use zkstellar.Text.{Text, codes, is_empty, pos, print_decimal}
use zkstellar.Types.{other_error, Result, ok, err, ◌>>=◌}
use zkstellar.Js.{Js}
use zkstellar.Poseidon.{PoseidonConstants, poseidon}
use zkstellar.Verify.Server.{Server, VerifyResult}
use zkstellar.Verify.Poll.{VerifyOptions, verify_on_chain}
use zkstellar.Verify.Simulate.{EstimateVerifyFeeResult, estimate_verify_fee}

abbrev pub require_env : (Text → Option Text) → Text → Result Text
require_env env name = elim (env name) [
  | none ↦ err (other_error (codes "Missing required environment variable"))
  | some s ↦
      if is_empty s then err (other_error (codes "Missing required environment variable")) else ok s
]

-- What the script has printed when it ends.
pub record FeeReport : Type 0 where
  pub estimate : EstimateVerifyFeeResult
  pub result : VerifyResult

abbrev pub reported :
    EstimateVerifyFeeResult → Option (Result VerifyResult) → Option (Result FeeReport)
reported estimate none = none
reported estimate (some (ok result)) = some (ok (record { estimate = estimate; result = result }))
reported estimate (some (err failure)) = some (err failure)

-- The steps behind the proof: the submission follows only an estimate.
abbrev pub after_estimate :
    Server → VerifyOptions → Result EstimateVerifyFeeResult → Option (Result FeeReport)
after_estimate server opts (ok estimate) = reported estimate (verify_on_chain server opts)
after_estimate server opts (err failure) = some (err failure)

abbrev pub then_submit : ℕ → Server → Result VerifyOptions → Option (Result FeeReport)
then_submit base_fee server (ok opts) =
    after_estimate server opts (estimate_verify_fee base_fee server opts)
then_submit base_fee server (err failure) = some (err failure)

-- `main` up to the estimate: what is verified, or the error.
pub fee_options :
    PoseidonConstants
    → (Text → Option Text)
    → (Text → Result Text)
    → (Text → Text → Result (Js × Js))
    → ℕ
    → Text
    → Text
    → Result VerifyOptions
fee_options constants env public_key_of full_prove random_secret now testnet_passphrase = do
  secret_key ← require_env env (codes "SOROBAN_SECRET_KEY")
  public_key ← public_key_of secret_key
  commitment ← poseidon constants (pos random_secret ∷ [])
  (proof, public_signals) ←
      full_prove (print_decimal (pos random_secret)) (print_decimal commitment)
  ok (record {
    contract_id = codes "CBL6MAWJALQP25LYKUUOC34K464XPSF6BLKUW6MXZDEXEDXMQUSP7HNN";
    public_key = public_key;
    calldata = none;
    bundle = some (record {
      proof = proof;
      public_signals = public_signals;
      circuit = codes "poseidon_preimage";
      generated_at = now;
      network_passphrase = testnet_passphrase;
    });
  })
