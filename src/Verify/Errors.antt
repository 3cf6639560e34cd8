-- ===== src/Verify/Errors.antt =====
-- `extractContractErrorCode` and `classifyError` of sdk/src/verify.ts.
use zkstellar.Prelude.{
  ℕ, ◌+◌, Bool, true, false, ◌&&◌, ◌||◌, [], ◌∷◌, ◌++◌, Option, none, some, leb, ◌==◌,
  if◌then◌else◌,
}
use zkstellar.Text.{Text, codes, is_white, is_digit, value, some_digits}
use zkstellar.Types.{
  SorobanZkErrorCode, contract_invocation_failed, network_error, resource_limit_exceeded,
  contract_not_initialized, rate_limit_exceeded, invalid_window_size, proof_expired,
  caller_not_allowed, contract_paused, Failure, soroban_zk_error, other_error, Result, ok, err,
}

-- `CONTRACT_ERROR_CODES[n]`
abbrev contract_error_codes : ℕ → Option SorobanZkErrorCode
contract_error_codes n =
    if n == 1
    then some contract_not_initialized
    else if n == 2
    then some rate_limit_exceeded
    else if n == 3
    then some invalid_window_size
    else if n == 4
    then some proof_expired
    else if n == 5
    then some caller_not_allowed
    else if n == 8
    then some contract_paused
    else none

-- What stands behind a prefix, where the text has it.
after : Text → Text → Option Text
after [] s = some s
after (p ∷ ps) [] = none
after (p ∷ ps) (c ∷ s) = let rest = after ps s in if p == c then rest else none

skip_white : Text → Text
skip_white [] = []
skip_white (c ∷ s) = if is_white c then skip_white s else c ∷ s

-- The longest run of decimal digits, and what follows it.
span_digits : Text → Text × Text
span_digits [] = ([], [])
span_digits (c ∷ s) =
    let (ds, rest) = span_digits s in if is_digit 10 c then (c ∷ ds, rest) else ([], c ∷ s)

abbrev closed : Text × Text → Option ℕ
closed (ds, []) = none
closed (ds, c ∷ rest) = if some_digits 10 ds && c == b')' then some (value 10 0 ds) else none

abbrev then_after : Option Text → Text → Option Text
then_after none p = none
then_after (some s) p = after p (skip_white s)

abbrev digits_of : Option Text → Option ℕ
digits_of none = none
digits_of (some s) = closed (span_digits s)

-- The pattern `Error\(Contract,\s*#(\d+)\)` at the start of a text, with the number.
match_here : Text → Option ℕ
unfolding after skip_white span_digits
match_here s = digits_of (then_after (after (codes "Error(Contract,") s) (codes "#"))

-- The first match in the text.
find_match : Text → Option ℕ
unfolding match_here
find_match [] = none
find_match (c ∷ s) =
    let later = find_match s in elim (match_here (c ∷ s)) [ none ↦ later | some n ↦ some n ]

extract_contract_error_code : Text → Option SorobanZkErrorCode
unfolding find_match
extract_contract_error_code message = elim (find_match message) [
  | none ↦ none
  | some n ↦ contract_error_codes n
]

-- `toLowerCase` of one code unit. Besides A to Z, the Kelvin sign and the dotted capital I give ASCII
-- letters; any other code unit stays outside ASCII or as it is.
abbrev lower : ℕ → Text
lower c =
    if leb b'A' c && leb c b'Z'
    then (c + 32) ∷ []
    else if c == 0x212a
    then b'k' ∷ []
    else if c == 0x130
    then b'i' ∷ 0x307 ∷ []
    else c ∷ []

unfoldable pub to_lower_case : Text → Text
to_lower_case [] = []
to_lower_case (c ∷ s) = lower c ++ to_lower_case s

abbrev is_some {ℓ} : {A : Type ℓ} → Option A → Bool
is_some none = false
is_some (some a) = true

-- `text.includes(word)`
includes : Text → Text → Bool
unfolding after
includes [] word = is_some (after word [])
includes (c ∷ s) word = is_some (after word (c ∷ s)) || includes s word

-- The code that the words of a message in lower case give.
keyword_code : Text → SorobanZkErrorCode
unfolding includes
keyword_code lowered =
    if includes lowered (codes "resource")
      || includes lowered (codes "instruction")
      || includes lowered (codes "limit")
    then resource_limit_exceeded
    else if includes lowered (codes "network")
        || includes lowered (codes "fetch")
        || includes lowered (codes "timeout")
    then network_error
    else contract_invocation_failed

-- The code that `classifyError` gives to a message.
classified_code : Text → SorobanZkErrorCode
unfolding extract_contract_error_code to_lower_case keyword_code
classified_code message = elim (extract_contract_error_code message) [
  | some code ↦ code
  | none ↦ keyword_code (to_lower_case message)
]

-- `classifyError(error)`; the new error keeps the message, which a `soroban_zk_error` leaves out.
unfoldable pub classify_error : Text → Failure
unfolding classified_code
classify_error message = soroban_zk_error (classified_code message)

-- `catch (error) { if (error instanceof SorobanZkError) throw error; throw classifyError(error); }`
unfoldable pub caught : Failure → Failure
unfolding classify_error
caught (other_error message) = classify_error message
caught failure = failure

unfoldable pub catching {ℓ} : {A : Type ℓ} → Result A → Result A
unfolding caught
catching (ok a) = ok a
catching (err failure) = err (caught failure)
