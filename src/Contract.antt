-- ===== src/Contract.antt =====
-- What the contracts in contracts/registry and contracts/verifier share, and what the Soroban host
-- gives them. A computation that panics, or that the host stops, is `none`; the host then takes back all
-- that the call has done.
use zkstellar.Prelude.{
  ℕ, suc, zero, ◌/◌, ◌%◌, Bool, false, List, [], ◌∷◌, ◌++◌, Option, none, some, length, ◌==◌, ◌||◌,
  ◌≡◌, refl, if◌then◌else◌,
}
use zkstellar.Text.{Text, text_eq}

-- An address by its text; whether an address has authorised the call is a function of it.
abbrev pub Address : Type 0
Address = Text

abbrev pub Auth : Type 0
Auth = Address → Bool

-- A byte string.
abbrev pub Bytes : Type 0
Bytes = List ℕ

-- SHA-256 and the operations on BN254. Points are the bytes that hold them, and an operation on bytes
-- that hold no point is stopped. `fr_from_bytes` is the number of a scalar.
pub record Host : Type 0 where
  pub sha256 : Bytes → Bytes
  pub fr_from_bytes : Bytes → ℕ
  pub g1_add : Bytes → Bytes → Option Bytes
  pub g1_mul : Bytes → ℕ → Option Bytes
  pub g1_neg : Bytes → Option Bytes
  pub pairing_check : List Bytes → List Bytes → Option Bool

pub record VerifyingKey : Type 0 where
  pub alpha : Bytes
  pub beta : Bytes
  pub gamma : Bytes
  pub delta : Bytes
  pub ic : List Bytes

infixl 5 ◌>>=◌
abbrev pub ◌>>=◌ {ℓ κ} : {A : Type ℓ} {B : Type κ} → Option A → (A → Option B) → Option B
none >>= next = none
some value >>= next = next value

pub >>=-eq-some {ℓ κ} :
    {A : Type ℓ} {B : Type κ} (m : Option A) (f : A → Option B) {b : B}
    → (m >>= f) ≡ some b
    → (a : A) × (m ≡ some a) × (f a ≡ some b)
>>=-eq-some none f h = absurd (cc)
>>=-eq-some (some a) f h = (a, refl, h)

-- `unwrap_or(false)`
abbrev pub or_false : Option Bool → Bool
or_false none = false
or_false (some b) = b

-- `assert_eq!` on the length.
abbrev pub read_point : ℕ → Bytes → Option Bytes
read_point size bytes = if length bytes == size then some bytes else none

abbrev pub read_g1 : Bytes → Option Bytes
read_g1 bytes = read_point 64 bytes

abbrev pub read_g2 : Bytes → Option Bytes
read_g2 bytes = read_point 128 bytes

-- The lowest bytes of a number, the most significant first.
unfoldable pub low_bytes : ℕ → ℕ → Bytes
low_bytes zero n = []
low_bytes (suc count) n = low_bytes count (n / 256) ++ (n % 256 ∷ [])

-- `n.to_be_bytes()` of a u32.
abbrev pub to_be_bytes : ℕ → Bytes
to_be_bytes n = low_bytes 4 n

-- The loop that appends the inputs.
unfoldable pub append_inputs : Bytes → List Bytes → Bytes
append_inputs bytes [] = bytes
append_inputs bytes (input ∷ inputs) = append_inputs (bytes ++ input) inputs

unfoldable pub compute_inputs_hash : Host → List Bytes → Bytes
compute_inputs_hash host public_inputs = host.sha256 (append_inputs [] public_inputs)

-- A storage key's presence, for keys that are bytes.
unfoldable pub has_bytes : Bytes → List Bytes → Bool
has_bytes key [] = false
has_bytes key (k ∷ keys) = text_eq k key || has_bytes key keys

-- A list of authorisations in which the admin and the pending admin have no part.
abbrev pub Outsider : Option Address → Auth → Type 0
Outsider none auth = Unit
Outsider (some address) auth = auth address ≡ false

abbrev pub Strangers : Option Address → Option Address → Auth → Type 0
Strangers admin pending auth = Outsider admin auth × Outsider pending auth
