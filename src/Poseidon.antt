-- ===== src/Poseidon.antt =====
-- sdk/src/poseidon.ts: the Poseidon permutation over the BN254 scalar field, in circomlib's
-- optimised form. The tables of constants are circomlibjs's, and are a parameter.
pub mod Field
pub mod Tests
use zkstellar.Prelude.{
  ℕ, zero, suc, ◌+◌, ◌-◌, ◌*◌, ◌/◌, ◌%◌, ◌≤◌, ◌<◌, Bool, true, false, ◌&&◌, List, [], ◌∷◌, map,
  length, replicate, leb, ltb, ◌==◌, not, get_elem?, Option, none, some, if◌then◌else◌,
}
use zkstellar.Text.{ℤ, pos, negsuc}
use zkstellar.Types.{
  invalid_public_input, Failure, soroban_zk_error, Result, ok, err, ◌>>=◌, ◌>>◌, guard,
}

abbrev pub bn254_scalar_modulus : ℕ
bn254_scalar_modulus = 21888242871839275222246405745257275088548364400416034343698204186575808495617

abbrev n_rounds_f : ℕ
n_rounds_f = 8

abbrev n_rounds_p : List ℕ
n_rounds_p = 56 ∷ 57 ∷ 56 ∷ 60 ∷ 60 ∷ 63 ∷ 64 ∷ 63 ∷ 60 ∷ 66 ∷ 60 ∷ 65 ∷ 70 ∷ 60 ∷ 64 ∷ 68 ∷ []

abbrev max_inputs : ℕ
max_inputs = 16

-- `constants.C[t - 2][i]`, `S[t - 2][i]`, `M[t - 2][row][column]` and `P[t - 2][row][column]`.
pub record PoseidonConstants : Type 0 where
  pub c : ℕ → ℕ → ℕ
  pub s : ℕ → ℕ → ℕ
  pub m : ℕ → ℕ → ℕ → ℕ
  pub p : ℕ → ℕ → ℕ → ℕ

-- `%` of BigInt takes the sign of the dividend.
abbrev rem : ℤ → ℕ → ℤ
rem (pos n) q = pos (n % q)
rem (negsuc n) q = if (n + 1) % q == 0 then pos 0 else negsuc ((n + 1) % q - 1)

-- `reduced >= 0n ? reduced : reduced + BN254_SCALAR_MODULUS`
abbrev lift : ℤ → ℕ
lift (pos n) = n
lift (negsuc n) = bn254_scalar_modulus - (n + 1)

pub mod_field : ℤ → ℕ
mod_field value = lift (rem value bn254_scalar_modulus)

pub add : ℕ → ℕ → ℕ
add a b = mod_field (pos (a + b))

pub mul : ℕ → ℕ → ℕ
mul a b = mod_field (pos (a * b))

pub pow5 : ℕ → ℕ
pow5 value = let squared = mul value value in let fourth = mul squared squared in mul value fourth

-- `state.map((value, index) => add(value, constant[offset + index]))`
pub add_constants : (ℕ → ℕ) → ℕ → List ℕ → List ℕ
add_constants constant offset [] = []
add_constants constant offset (v ∷ vs) =
    add v (constant offset) ∷ add_constants constant (suc offset) vs

-- `state.reduce((acc, value, row) => add(acc, mul(coefficient[row], value)), acc)`, from a row on.
pub weighted_sum : (ℕ → ℕ) → ℕ → ℕ → List ℕ → ℕ
weighted_sum coefficient row acc [] = acc
weighted_sum coefficient row acc (v ∷ vs) =
    weighted_sum coefficient (suc row) (add acc (mul (coefficient row) v)) vs

-- `state.map((_, column) => …)`: the entries of the product from a column on, `count` of them.
pub mix_from : (ℕ → ℕ → ℕ) → List ℕ → ℕ → ℕ → List ℕ
mix_from matrix state column zero = []
mix_from matrix state column (suc count) =
    weighted_sum (λ row. matrix row column) 0 0 state ∷ mix_from matrix state (suc column) count

pub mix : (ℕ → ℕ → ℕ) → List ℕ → List ℕ
unfolding mix_from
mix matrix state = mix_from matrix state 0 (length state)

-- A full round with its constants, from the offset on, and a matrix.
pub full_round : (ℕ → ℕ) → ℕ → (ℕ → ℕ → ℕ) → List ℕ → List ℕ
full_round constant offset matrix state =
    mix matrix (add_constants constant offset (map pow5 state))

-- `rounds` full rounds; each takes `t` constants.
pub full_rounds : ℕ → ℕ → (ℕ → ℕ) → ℕ → (ℕ → ℕ → ℕ) → List ℕ → List ℕ
full_rounds zero t constant offset matrix state = state
full_rounds (suc rounds) t constant offset matrix state =
    full_rounds rounds t constant (offset + t) matrix (full_round constant offset matrix state)

-- `state[k] = add(state[k], mul(state[0], S[offset + k - 1]))` for the elements behind the first.
pub add_multiples : (ℕ → ℕ) → ℕ → ℕ → List ℕ → List ℕ
add_multiples coefficient offset first [] = []
add_multiples coefficient offset first (v ∷ vs) =
    add v (mul first (coefficient offset)) ∷ add_multiples coefficient (suc offset) first vs

-- One partial round, on a state of `t` elements.
pub partial_round : ℕ → ℕ → (ℕ → ℕ) → (ℕ → ℕ) → List ℕ → List ℕ
partial_round t round c s [] = []
partial_round t round c s (v ∷ vs) =
    let first = add (pow5 v) (c ((n_rounds_f / 2 + 1) * t + round)) in
    let offset = (t * 2 - 1) * round in
    let s0 = weighted_sum s offset 0 (first ∷ vs) in s0 ∷ add_multiples s (offset + t) first vs

pub partial_rounds : ℕ → ℕ → ℕ → (ℕ → ℕ) → (ℕ → ℕ) → List ℕ → List ℕ
partial_rounds zero t round c s state = state
partial_rounds (suc rounds) t round c s state =
    partial_rounds rounds t (suc round) c s (partial_round t round c s state)

abbrev pub first_element : List ℕ → ℕ
first_element [] = 0
first_element (v ∷ vs) = v

abbrev number_or_zero : Option ℕ → ℕ
number_or_zero none = 0
number_or_zero (some n) = n

-- `N_ROUNDS_P[t - 2]`
abbrev partial_count : ℕ → ℕ
partial_count t = number_or_zero (get_elem? n_rounds_p (t - 2))

module _ (constants : PoseidonConstants) where
  -- The permutation on a state of `t` elements, in the order of the source.
  pub permutation : ℕ → List ℕ → List ℕ
  permutation t state =
      let c = constants.c (t - 2) in
      let s = constants.s (t - 2) in
      let m = constants.m (t - 2) in
      let p = constants.p (t - 2) in
      let half = n_rounds_f / 2 in
      let started = full_rounds (half - 1) t c t m (add_constants c 0 state) in
      let middle = full_round c (half * t) p started in
      let sparse = partial_rounds (partial_count t) t 0 c s middle in
      let ended = full_rounds (half - 1) t c ((half + 1) * t + partial_count t) m sparse in
      mix m (map pow5 ended)

  -- `poseidon(inputs)` on an array of bigints.
  pub poseidon : List ℤ → Result ℤ
  poseidon inputs = do
    guard (not (length inputs == 0) && leb (length inputs) max_inputs)
        (soroban_zk_error invalid_public_input)
    let prepared = map mod_field inputs
    let t = length prepared + 1
    ok (pos (first_element (permutation t (0 ∷ prepared))))
