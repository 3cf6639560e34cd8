-- ===== src/Lib.antt =====
-- The TypeScript SDK of zkstellar (sdk/src), and the Soroban contracts that it calls, the
-- registry of many circuits (contracts/registry) and the verifier of one (contracts/verifier):
-- Groth16 proofs made by snarkjs are checked, encoded for the contracts, submitted and polled
-- for; and Poseidon hashes, Merkle trees, identity commitments and nullifiers are computed for
-- the circuits and the registry.
--
-- Parts, and the files that model them:
--
-- - Text, Js, Bytes, Types: the JavaScript that the SDK relies on. Text is a list of UTF-16 code
--   units with trim, BigInt(string), toString(radix) and the SDK's patterns. Js is the type of
--   run-time values, for arguments whose static type nothing enforces. Bytes has bigintToBytes32
--   of sdk/src/proof.ts. Types has the error codes and classes of sdk/src/types.ts; a function
--   that may throw returns a Result.
-- - Validate: sdk/src/validate.ts, function by function (validateProofInput is
--   validate_proof_input).
-- - Proof: sdk/src/proof.ts, formatProof and formatVerifyingKey. It calls Validate, then
--   encodes.
-- - Poseidon, PoseidonUtils: sdk/src/poseidon.ts and sdk/src/poseidonUtils.ts.
-- - Merkle: sdk/src/merkle.ts, and the chain of hashes of
--   circuits/merkle_inclusion/circuit.circom (climb), which says what an inclusion proof is for.
-- - Identity, Nullifier, Metadata: sdk/src/identity.ts, sdk/src/nullifier.ts,
--   sdk/src/metadata.ts.
-- - Json: JSON.stringify, JSON.parse and UTF-8. Bundle: sdk/src/bundle.ts on top of them.
--   BundleIo: sdk/src/bundleIO.ts, which prints, parses, checks and imports bundles.
-- - OffChain: sdk/src/verifyOffChain.ts. Browser: sdk/src/browser.ts. Version:
--   sdk/src/version.ts.
-- - Cli: sdk/src/cli.ts, its eight commands and runCli, which call the parts above.
-- - Demo: demo/src, the scripts run.ts, batchVerify.ts and estimateFee.ts, which call the SDK.
-- - Verify: sdk/src/verify.ts. Server is the RPC server as a record of its answers, Errors is
--   classifyError, Decode and Poll are verifyOnChain and verifyBatchOnChain, Simulate is the
--   calls that submit nothing, Config is getContractConfig, History is getVerificationHistory.
--   It calls Validate and Proof.
-- - Registry: contracts/registry/src/lib.rs, on top of Contract, which has the helpers that it
--   shares with the verifier. The state is a record of what the storage holds under each
--   DataKey, with the executable and the events; a call that panics is none. Registry.Steps has
--   the histories of calls, Registry.Client puts the SDK in front of the registry, with a server
--   that simulates the contract.
-- - Verifier: contracts/verifier/src/lib.rs. Its settings are in the module itself, verify_one
--   and what calls it in Verifier.Proofs. A call ends in a panic (none) or returns an error or a
--   value; an error takes back what the call did. Verifier.Steps has the histories of calls; the
--   ledger is an argument. Verifier.OnChain and Verifier.Config put the SDK in front of the
--   verifier, with a server that runs the contract.
--
-- In each folder the other files are lemmas and theorems, named for what they show, and Tests
-- holds runs.
--
-- Parameters: the tables of Poseidon constants, SHA-256, the RPC server with its clock, the
-- verifier and the prover of snarkjs, the reading of files, Node's decoding of Base64 to a
-- string, the parsing and printing of dates, and the printing and parsing of numbers are
-- arguments. So are what the Soroban host does for the contracts: SHA-256, the operations on the
-- curve BN254 and its scalars, and the authorisations of a call. An asynchronous call is a
-- Result that the server's record gives; the answers to the rounds of a polling loop are a
-- function of the round.
--
-- Bounds and fuel: numbers are unbounded as bigints are, and where the source checks a range the
-- model checks it. Merkle trees have their depth as an argument (20 in the source).
-- poseidonBatch recurs on fuel, one more than the number of inputs; the polling loop has fuel
-- for 31 rounds, since a round takes a second and the time limit is 30 seconds. Both are enough
-- for every call. JSON.parse recurs on fuel, one more than the length of the text, which is
-- enough for what JSON.stringify prints without indentation and without numbers.
--
-- Histories of a contract end where upgrade has replaced its executable by another, since what
-- other code does with the storage is not known.
--
-- Not modelled: the texts of error messages (an error keeps its class, code, field and
-- reason), values with symbols, functions or another prototype than their literal's, numbers
-- with a fraction other than as "not an integer", the XDR encoding of calls, the construction
-- of addresses and contracts from their text, the warnings on the console and the prompts of
-- the demo, the archival of the contracts' storage entries, and the rest of circuits. The
-- model of JSON.parse keeps the order of the keys; the engine puts keys that are array indices
-- first.
pub mod Prelude
pub mod Text
pub mod Types
pub mod Js
pub mod Bytes
pub mod Validate
pub mod Proof
pub mod Poseidon
pub mod Merkle
pub mod PoseidonUtils
pub mod Identity
pub mod Nullifier
pub mod Metadata
pub mod OffChain
pub mod Browser
pub mod Verify
pub mod Version
pub mod Contract
pub mod Registry
pub mod Verifier
pub mod Demo
pub mod Json
pub mod Bundle
pub mod Cli
pub mod BundleIo
