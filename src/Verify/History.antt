-- ===== src/Verify/History.antt =====
-- `getVerificationHistory` of sdk/src/verify.ts: the events of a contract as a list, newest first.
use zkstellar.Prelude.{ℕ, Bool, true, false, ◌&&◌, List, [], ◌∷◌, Option, none, some, if◌then◌else◌}
use zkstellar.Text.{Text}
use zkstellar.Types.{Result, ok, err, ◌>>=◌}
use zkstellar.Js.{Js, string, as_buffer, as_string, prop, truthy}
use zkstellar.Nullifier.{hex_encode}
use zkstellar.Verify.Errors.{catching}
use mathlib.Core.List.{reverse}

-- An event of the RPC's answer. `body` is its value after `scValToNative`, and `closed_at` is
-- `Math.floor(new Date(event.ledgerClosedAt).getTime() / 1000)`; decoding can throw.
pub record ContractEvent : Type 0 where
  pub body : Result Js
  pub ledger : ℕ
  pub closed_at : ℕ
  pub tx_hash : Text

pub record VerificationHistoryEntry : Type 0 where
  pub success : Bool
  pub inputs_hash : Text
  pub caller : Option Js
  pub ledger : ℕ
  pub ledger_closed_at : ℕ
  pub tx_hash : Text

abbrev text_or_empty : Option Text → Text
text_or_empty none = []
text_or_empty (some s) = s

abbrev hash_text : Option (List ℕ) → Option Text → Text
hash_text (some bytes) s = hex_encode bytes
hash_text none s = text_or_empty s

-- `callerRaw != null`; the value that `String` turns into text.
abbrev not_nullish : Js → Option Js
not_nullish Js.undefined = none
not_nullish Js.null = none
not_nullish (Js.string s) = some (string s)
not_nullish v = some v

-- A property of `undefined` or `null` throws, and the event is skipped.
abbrev pub readable : Js → Bool
readable Js.undefined = false
readable Js.null = false
readable (Js.string s) = true
readable v = true

abbrev same_bool : Bool → Bool → Bool
same_bool true b = b
same_bool false true = false
same_bool false false = true

-- `successFilter === undefined || success === successFilter`
abbrev pub passes : Option Bool → Bool → Bool
passes none success = true
passes (some wanted) success = same_bool wanted success

abbrev pub entry_of_body : ContractEvent → Js → VerificationHistoryEntry
entry_of_body event body = record {
  success = truthy (prop body "success");
  inputs_hash =
      hash_text (as_buffer (prop body "inputs_hash")) (as_string (prop body "inputs_hash"));
  caller = not_nullish (prop body "caller");
  ledger = event.ledger;
  ledger_closed_at = event.closed_at;
  tx_hash = event.tx_hash;
}

-- One round of the loop: the entry that is pushed, if any.
unfoldable pub entry_of : Option Bool → ContractEvent → Option VerificationHistoryEntry
entry_of success_filter event = elim event.body [
  | err failure ↦ none
  | ok body ↦
      if readable body && passes success_filter (truthy (prop body "success"))
      then some (entry_of_body event body)
      else none
]

abbrev pub push_entry :
    Option VerificationHistoryEntry → List VerificationHistoryEntry → List VerificationHistoryEntry
push_entry none entries = entries
push_entry (some e) entries = e ∷ entries

unfoldable pub entries_of : Option Bool → List ContractEvent → List VerificationHistoryEntry
entries_of success_filter [] = []
entries_of success_filter (event ∷ events) =
    push_entry (entry_of success_filter event) (entries_of success_filter events)

-- `events` is what `getEvents` answers, for the start ledger and the limit of the options.
unfoldable pub get_verification_history :
    Result (List ContractEvent) → Option Bool → Result (List VerificationHistoryEntry)
get_verification_history events success_filter =
    catching (events >>= λ found. ok (reverse (entries_of success_filter found)))
