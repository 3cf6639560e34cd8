-- ===== src/Demo/Answers.antt =====
-- demo/src/run.ts: the questions, and the checks of the answers. The input is the list of the lines that are
-- typed; a question that is left without a valid line does not return, which is `none`.
use zkstellar.Prelude.{
  ℕ, ◌≡◌, refl, ◌∙◌, sym, ap, Bool, true, false, ◌&&◌, ◌||◌, List, [], ◌∷◌, Option, none, some,
  length, leb, ◌==◌, not, if◌then◌else◌, inl, inr, Bool-cases, arith,
}
use zkstellar.Text.{Text, codes, text_eq, trim, is_empty, some_digits, value}
use zkstellar.Verify.Errors.{to_lower_case}
use zkstellar.Contract.{◌>>=◌, >>=-eq-some}
use zkstellar.Demo.{Endpoint, networks, testnet_registry_contract_id}

pub data Verbosity : Type 0 where
  quiet normal verbose : Verbosity

-- `answers.network` is what was answered, in lower case.
pub record Answers : Type 0 where
  pub secret : ℕ
  pub network : Text
  pub rpc_url : Endpoint
  pub contract_id : Text
  pub verbosity : Verbosity

abbrev pub or_default : Option Text → Text → Text
or_default none trimmed = trimmed
or_default (some def) trimmed = if is_empty trimmed then def else trimmed

-- What the outcome of the check does: the answer is taken, or asked for again.
abbrev pub checked :
    Option Text → Text → List Text → Option (Text × List Text) → Option (Text × List Text)
checked none answer inputs again = some (answer, inputs)
checked (some error) answer inputs again = again

-- `ask`, with the lines that are left; `validate` gives the text of an error.
unfoldable pub ask : Option Text → (Text → Option Text) → List Text → Option (Text × List Text)
ask def validate [] = none
ask def validate (input ∷ inputs) =
    checked (validate (or_default def (trim input))) (or_default def (trim input)) inputs
      (ask def validate inputs)

abbrev pub check_secret : Text → Option Text
check_secret s =
    if is_empty s
    then some (codes "Secret cannot be empty.")
    else if text_eq s (codes "random")
    then none
    else if not (some_digits 10 s)
    then some (codes "Secret must be a decimal number or 'random'.")
    else none

abbrev pub check_network : Text → Option Text
check_network s = elim (networks (to_lower_case s)) [
  | none ↦ some (codes "Unknown network. Choose 'testnet' or 'mainnet'.")
  | some endpoint ↦ none
]

abbrev pub base_32 : ℕ → Bool
base_32 c = (leb b'A' c && leb c b'Z') || (leb b'2' c && leb c b'7')

unfoldable pub all_base_32 : Text → Bool
all_base_32 [] = true
all_base_32 (c ∷ s) = base_32 c && all_base_32 s

-- `/^C[A-Z2-7]{55}$/`
abbrev pub contract_pattern : Text → Bool
contract_pattern [] = false
contract_pattern (c ∷ s) = c == b'C' && length s == 55 && all_base_32 s

abbrev pub check_contract : Text → Option Text
check_contract s =
    if contract_pattern s
    then none
    else some (
        codes
          "Invalid contract address. Expected a 56-character Soroban contract ID starting with 'C'.")

abbrev pub verbosity_of : Text → Option Verbosity
verbosity_of s =
    if text_eq s (codes "quiet")
    then some quiet
    else if text_eq s (codes "normal")
    then some normal
    else if text_eq s (codes "verbose")
    then some verbose
    else none

abbrev pub check_verbosity : Text → Option Text
check_verbosity s = elim (verbosity_of (to_lower_case s)) [
  | none ↦ some (codes "Choose 'quiet', 'normal', or 'verbose'.")
  | some verbosity ↦ none
]

-- `randomSecret` is the number of 31 random bytes.
unfoldable pub collect_answers : ℕ → List Text → Option Answers
collect_answers random_secret inputs = ask none check_secret inputs >>= λ (secret_raw, inputs).
    ask (some (codes "testnet")) check_network inputs >>= λ (network, inputs).
    ask (some testnet_registry_contract_id) check_contract inputs >>= λ (contract_id, inputs).
    ask (some (codes "normal")) check_verbosity inputs >>= λ (level, inputs).
    networks (to_lower_case network) >>= λ endpoint.
    verbosity_of (to_lower_case level) >>= λ verbosity. some (record {
      secret = if text_eq secret_raw (codes "random") then random_secret else value 10 0 secret_raw;
      network = to_lower_case network;
      rpc_url = endpoint;
      contract_id = contract_id;
      verbosity = verbosity;
    })

-- An answer that is taken has passed its check.
pub ask-validated :
    (def : Option Text) (validate : Text → Option Text) (inputs : List Text) (answer : Text)
    (rest : List Text)
    → ask def validate inputs ≡ some (answer, rest)
    → validate answer ≡ none
unfolding ask
ask-validated def validate [] answer rest h = cc
ask-validated def validate (input ∷ inputs) answer rest h =
    by_check (validate (or_default def (trim input))) refl
      (ask-validated def validate inputs answer rest) h
  where
    by_check :
        (o : Option Text)
        → validate (or_default def (trim input)) ≡ o
        → (ask def validate inputs ≡ some (answer, rest) → validate answer ≡ none)
        → checked o (or_default def (trim input)) inputs (ask def validate inputs)
          ≡ some (answer, rest)
        → validate answer ≡ none
    by_check none fine later h =
        let same : answer ≡ or_default def (trim input) = ground arith in ap validate same ∙ fine
    by_check (some error) bad later h = later h

some_contract :
    (x y : Answers) → ◌≡◌ {A = Option Answers} (some x) (some y) → y.contract_id ≡ x.contract_id
some_contract x y h = ground arith

some_network : (x y : Answers) → ◌≡◌ {A = Option Answers} (some x) (some y) → y.network ≡ x.network
some_network x y h = ground arith

some_endpoint : (x y : Answers) → ◌≡◌ {A = Option Answers} (some x) (some y) → y.rpc_url ≡ x.rpc_url
some_endpoint x y h = ground arith

taken_contract : (s : Text) → check_contract s ≡ none → contract_pattern s ≡ true
taken_contract s h = elim (Bool-cases (contract_pattern s)) [
  | inl good ↦ good
  | inr bad ↦ absurd (let h' = rw bad at h in cc)
]

-- The contract id and the endpoint that collectAnswers returns have passed their checks, whatever was typed
-- before; the network is one of the two, or a name that the table of networks inherits.
pub collect_answers-checked :
    (random_secret : ℕ) (inputs : List Text) (answers : Answers)
    → collect_answers random_secret inputs ≡ some answers
    → (contract_pattern answers.contract_id ≡ true)
      × (networks answers.network ≡ some answers.rpc_url)
unfolding collect_answers
collect_answers-checked random_secret inputs answers h =
    let ((secret_raw, inputs1), a1, h1) = >>=-eq-some (ask none check_secret inputs) _ h in
    let ((network, inputs2), a2, h2) =
      >>=-eq-some (ask (some (codes "testnet")) check_network inputs1) _ h1 in
    let ((contract_id, inputs3), a3, h3) =
      >>=-eq-some (ask (some testnet_registry_contract_id) check_contract inputs2) _ h2 in
    let ((level, inputs4), a4, h4) =
      >>=-eq-some (ask (some (codes "normal")) check_verbosity inputs3) _ h3 in
    let (endpoint, found, h5) = >>=-eq-some (networks (to_lower_case network)) _ h4 in
    let (verbosity, v, h6) = >>=-eq-some (verbosity_of (to_lower_case level)) _ h5 in
    let contract_same : answers.contract_id ≡ contract_id = some_contract _ _ h6 in
    let network_same : answers.network ≡ to_lower_case network = some_network _ _ h6 in
    let endpoint_same : answers.rpc_url ≡ endpoint = some_endpoint _ _ h6 in
    (
      ap contract_pattern contract_same
          ∙ taken_contract contract_id (
              ask-validated (some testnet_registry_contract_id) check_contract inputs2 contract_id
                inputs3 a3),
      ap networks network_same ∙ found ∙ ap some (sym endpoint_same),
    )
