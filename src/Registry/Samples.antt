-- ===== src/Registry/Samples.antt =====
-- A host whose hash keeps the first 32 bytes and whose pairings all succeed, and a registry, for the tests.
use zkstellar.Prelude.{
  ℕ, ◌%◌, ◌≡◌, true, [], ◌∷◌, ◌++◌, none, some, length, take, replicate, arith, length-take,
  length-append,
}
use zkstellar.Text.{codes}
use zkstellar.Contract.{Auth, Bytes, Host, VerifyingKey}
use zkstellar.Registry.{Registry, set_at, constructed}

abbrev pub toy_hash : Bytes → Bytes
toy_hash bytes = take 32 (bytes ++ replicate 32 0)

pub toy_hash-length : (bytes : Bytes) → length (toy_hash bytes) ≡ 32
toy_hash-length bytes =
    omega (arith, length-take 32 (bytes ++ replicate 32 0), length-append bytes (replicate 32 0))

abbrev pub first_of : Bytes → ℕ
first_of [] = 0
first_of (b ∷ bytes) = b % 8

abbrev pub toy_host : Host
toy_host = record {
  sha256 = toy_hash;
  fr_from_bytes = first_of;
  g1_add = λ x y. some x;
  g1_mul = λ x n. some x;
  g1_neg = λ x. some x;
  pairing_check = λ xs ys. some true;
}

abbrev pub anyone : Auth
anyone address = true

abbrev pub g1 : Bytes
g1 = replicate 64 1

abbrev pub g2 : Bytes
g2 = replicate 128 2

abbrev pub toy_key : VerifyingKey
toy_key = record { alpha = g1; beta = g2; gamma = g2; delta = g2; ic = g1 ∷ g1 ∷ [] }

abbrev pub started : Registry
started = constructed [] (codes "GADMIN")

abbrev pub with_circuit : Registry
with_circuit = record started {
  circuit = set_at 3 toy_key (λ id. none);
  circuit_active = set_at 3 true (λ id. none);
}

-- Two public inputs of 32 bytes with one scalar.
abbrev pub one : Bytes
one = 1 ∷ replicate 31 0

abbrev pub nine : Bytes
nine = 9 ∷ replicate 31 0
