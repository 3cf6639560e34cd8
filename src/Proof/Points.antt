-- ===== src/Proof/Points.antt =====
-- How formatProof encodes the points and signals that the validation accepts.
use zkstellar.Prelude.{
  ℕ, ◌≤◌, ◌<◌, ◌≡◌, refl, true, false, List, [], ◌∷◌, ◌++◌, map, some, length, arith,
}
use zkstellar.Text.{Text}
use zkstellar.Types.{SorobanZkErrorCode, ok, invalid_proof_format, invalid_public_input}
use zkstellar.Js.{Js, string, as_array, element, index, length_below}
use zkstellar.Bytes.{bigint_to_bytes32}
use zkstellar.Validate.{bn254_field_modulus, decimal_or_hex_pattern}
use zkstellar.Validate.Elements.{
  Denotes, decimal, hexadecimal, Denotes-big_int, IsCoordinate, IsPair, IsSignal,
}
use zkstellar.Validate.Accepts.{AreSignals}
use zkstellar.Proof.{parse_field_element, encode_g1, coordinate, encode_g2, encode_public_inputs}

decimal_or_hex-Denotes : {s : Text} {n : ℕ} → Denotes s n → decimal_or_hex_pattern s ≡ true
decimal_or_hex-Denotes (decimal h) = ground arith
decimal_or_hex-Denotes (hexadecimal h) = ground arith

parse_denoted :
    (s : Text) (n : ℕ) (code : SorobanZkErrorCode)
    → Denotes s n
    → n < bn254_field_modulus
    → parse_field_element (string s) code ≡ ok n
unfolding parse_field_element
parse_denoted s n code d h = ground (arith, decimal_or_hex-Denotes d, Denotes-big_int d)

-- `parseFieldElement` reads each coordinate and signal that the validation accepts.
parse_field_element-IsCoordinate :
    {v : Js} {n : ℕ} (code : SorobanZkErrorCode)
    → IsCoordinate v n
    → parse_field_element v code ≡ ok n
parse_field_element-IsCoordinate {v} {n} code c = rw (c.coordinate_string) (
    parse_denoted c.coordinate_text n code (rw (c.coordinate_value) (decimal c.coordinate_digits))
      c.coordinate_lt)

parse_field_element-IsSignal :
    {v : Js} {n : ℕ} (code : SorobanZkErrorCode) → IsSignal v n → parse_field_element v code ≡ ok n
parse_field_element-IsSignal {n} code c =
    rw (c.signal_string) (parse_denoted c.signal_text n code c.signal_denotes c.signal_lt)

index-as_array :
    (v : Js) {vs : List Js} (i : ℕ) → as_array v ≡ some vs → index v i ≡ ok (element vs i)
index-as_array (Js.array is) i h = ground arith
index-as_array Js.undefined i h = cc
index-as_array _ i h = cc

pub length_below-as_array :
    (v : Js) {vs : List Js} (n : ℕ)
    → as_array v ≡ some vs
    → n ≤ length vs
    → length_below v n ≡ ok false
length_below-as_array (Js.array is) n h k = ground arith
length_below-as_array Js.undefined n h k = cc
length_below-as_array _ n h k = cc

pub encode_g1-IsPair :
    {v : Js} {x y : ℕ}
    → IsPair v x y
    → encode_g1 v ≡ ok (bigint_to_bytes32 x ++ bigint_to_bytes32 y)
unfolding encode_g1
encode_g1-IsPair {v} p =
    rw (index-as_array v 0 p.pair_array, index-as_array v 1 p.pair_array)
      (rw (
        parse_field_element-IsCoordinate invalid_proof_format p.pair_x,
        parse_field_element-IsCoordinate invalid_proof_format p.pair_y,
      ))

coordinate-IsPair :
    (v : Js) (i : ℕ) {rows : List Js} {x y : ℕ}
    → as_array v ≡ some rows
    → IsPair (element rows i) x y
    → (coordinate v i 0 ≡ ok x) × (coordinate v i 1 ≡ ok y)
unfolding coordinate
coordinate-IsPair v i {rows} h p = (
  rw (index-as_array v i h, index-as_array (element rows i) 0 p.pair_array)
      (parse_field_element-IsCoordinate invalid_proof_format p.pair_x),
  rw (index-as_array v i h, index-as_array (element rows i) 1 p.pair_array)
      (parse_field_element-IsCoordinate invalid_proof_format p.pair_y),
)

pub encode_g2-IsPair :
    (v : Js) {rows : List Js} {x0 x1 y0 y1 : ℕ}
    → as_array v ≡ some rows
    → IsPair (element rows 0) x0 x1
    → IsPair (element rows 1) y0 y1
    → encode_g2 v
      ≡ ok (
          bigint_to_bytes32 x1
          ++ (bigint_to_bytes32 x0 ++ (bigint_to_bytes32 y1 ++ bigint_to_bytes32 y0)))
unfolding encode_g2
encode_g2-IsPair v h p q =
    let (c00, c01) = coordinate-IsPair v 0 h p in
    let (c10, c11) = coordinate-IsPair v 1 h q in rw (c00, c01, c10, c11)

pub encode_public_inputs-AreSignals :
    (vs : List Js) (ns : List ℕ)
    → AreSignals vs ns
    → encode_public_inputs vs ≡ ok (map bigint_to_bytes32 ns)
unfolding encode_public_inputs
encode_public_inputs-AreSignals [] [] h = refl
encode_public_inputs-AreSignals (v ∷ vs) (n ∷ ns) (p, ps) =
    rw (
      parse_field_element-IsSignal invalid_public_input p,
      encode_public_inputs-AreSignals vs ns ps,
    )
encode_public_inputs-AreSignals [] (n ∷ ns) h = absurd h
encode_public_inputs-AreSignals (v ∷ vs) [] h = absurd h
