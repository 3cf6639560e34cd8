-- ===== src/Metadata.antt =====
-- sdk/src/metadata.ts: when a proof expires, in ledgers and by the clock. Ledger numbers and times are
-- integers: the model leaves out fractional numbers of seconds.
pub mod Expiry
pub mod Tests
use zkstellar.Prelude.{
  ℕ, ◌+◌, ◌-◌, ◌*◌, ◌/◌, ◌≤◌, ◌<◌, Bool, true, false, List, [], ◌∷◌, Option, none, some, ltb, leb,
  ◌==◌, not, min, max, if◌then◌else◌,
}
use zkstellar.Text.{Text, ℤ, pos, negsuc, trim, is_empty}
use zkstellar.Types.{
  invalid_proof_format, Failure, soroban_zk_error, Result, ok, err, ◌>>=◌, ◌>>◌, guard,
}
use zkstellar.Js.{Js, JsNumber, int, non_integer, as_string}
use zkstellar.Proof.{as_u32, max_u32}

abbrev ledger_close_time_seconds : ℕ
ledger_close_time_seconds = 5

abbrev metadata_failure : Failure
metadata_failure = soroban_zk_error invalid_proof_format

-- Times are milliseconds since 1970, as `Date.prototype.getTime` returns.
abbrev shift_time : ℤ → ℕ → ℕ → ℤ
shift_time (pos t) forward back =
    if leb back (t + forward) then pos (t + forward - back) else negsuc (back - (t + forward) - 1)
shift_time (negsuc t) forward back =
    if leb (back + t + 1) forward
    then pos (forward - (back + t + 1))
    else negsuc (back + t + 1 - forward - 1)

-- `now + (expiryLedger - currentLedger) * 5 * 1000`
estimate_expiry_date : ℕ → ℕ → ℤ → ℤ
estimate_expiry_date expiry_ledger current_ledger now =
    shift_time now (expiry_ledger * ledger_close_time_seconds * 1000)
      (current_ledger * ledger_close_time_seconds * 1000)

pub record ProofMetadata : Type 0 where
  pub circuit : Text
  pub circuit_id : Option ℕ
  pub generated_at : Text
  pub expiry_ledger : Option ℕ
  pub estimated_expiry_at : Option Text
  pub tags : Option (List Text)

pub record CreateProofMetadataOptions : Type 0 where
  pub circuit : Js
  pub circuit_id : Option JsNumber
  pub expiry_ledger : Option JsNumber
  pub current_ledger : Option ℕ
  pub generated_at : Option Text
  pub tags : Option (List Text)

-- A string that is not blank, as `!v || typeof v !== "string" || v.trim() === ""` throws otherwise.
abbrev non_blank : Js → Failure → Result Text
non_blank value failure = elim (as_string value) [
  | none ↦ err failure
  | some s ↦ do guard (not (is_empty (trim s))) failure; ok s
]

-- A nonnegative integer, where one is given.
abbrev optional_id : Option JsNumber → Result (Option ℕ)
optional_id none = ok none
optional_id (some non_integer) = err metadata_failure
optional_id (some (int (negsuc n))) = err metadata_failure
optional_id (some (int (pos n))) = ok (some n)

abbrev optional_u32 : Option JsNumber → Result (Option ℕ)
optional_u32 none = ok none
optional_u32 (some n) = do m ← as_u32 n metadata_failure; ok (some m)

abbrev default_text : Option Text → Text → Text
default_text none d = d
default_text (some s) d = s

-- `new Date(text).getTime()` and `new Date(t).toISOString()`, which can throw a RangeError, are the
-- platform's; `now` is `new Date().toISOString()`.
module _ (parse_date : Text → Result ℤ) (iso_string : ℤ → Result Text) where
  abbrev estimated : Option ℕ → Option ℕ → Text → Result (Option Text)
  estimated (some expiry) (some current) generated_at = do
    t ← parse_date generated_at
    s ← iso_string (estimate_expiry_date expiry current t)
    ok (some s)
  estimated none current generated_at = ok none
  estimated (some expiry) none generated_at = ok none

  create_proof_metadata : Text → CreateProofMetadataOptions → Result ProofMetadata
  create_proof_metadata now opts = do
    circuit ← non_blank opts.circuit metadata_failure
    id ← optional_id opts.circuit_id
    expiry ← optional_u32 opts.expiry_ledger
    let generated_at = default_text opts.generated_at now
    at ← estimated expiry opts.current_ledger generated_at
    ok (record {
      circuit = trim circuit;
      circuit_id = id;
      generated_at = generated_at;
      expiry_ledger = expiry;
      estimated_expiry_at = at;
      tags = opts.tags;
    })

is_proof_expired : ProofMetadata → ℕ → Bool
is_proof_expired meta current_ledger = elim meta.expiry_ledger [
  | none ↦ false
  | some expiry ↦ ltb expiry current_ledger
]

-- `none` is `Infinity`.
ledgers_until_expiry : ProofMetadata → ℕ → Option ℕ
ledgers_until_expiry meta current_ledger = elim meta.expiry_ledger [
  | none ↦ none
  | some expiry ↦ some (expiry - current_ledger)
]

abbrev nonnegative : JsNumber → Result ℕ
nonnegative non_integer = err metadata_failure
nonnegative (int (negsuc n)) = err metadata_failure
nonnegative (int (pos n)) = ok n

-- `Math.ceil(ttl / close)` for a positive `ttl`; a division by zero gives `Infinity`, here `none`.
abbrev ledgers_needed : ℕ → ℕ → Option ℕ
ledgers_needed ttl close = if close == 0 then none else some ((ttl + (close - 1)) / close)

-- `Math.min(currentLedger + ledgersNeeded, 0xffffffff)`
abbrev clamped : ℕ → Option ℕ → ℕ
clamped current none = max_u32
clamped current (some needed) = min (current + needed) max_u32

-- `ttlSeconds <= 0` throws; here it is a natural number.
pub recommend_expiry_ledger : JsNumber → ℕ → ℕ → Result ℕ
recommend_expiry_ledger current_ledger ttl_seconds close_time_seconds = do
  current ← nonnegative current_ledger
  guard (not (ttl_seconds == 0)) metadata_failure
  ok (clamped current (ledgers_needed ttl_seconds close_time_seconds))
