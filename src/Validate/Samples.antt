-- ===== src/Validate/Samples.antt =====
-- A small proof, for the tests.
use zkstellar.Text.{codes}
use zkstellar.Prelude.{List, [], ◌∷◌}
use zkstellar.Js.{Js, string, array, object, items, field, end}
use Prim.Native.String.{String}

abbrev texts : List String → List Js
texts [] = []
texts (s ∷ ss) = string (codes s) ∷ texts ss

abbrev strings : List String → Js
strings ss = array (items (texts ss))

-- The point (1, 2) twice, and a G2 point of small numbers; the third coordinates are not read.
abbrev pub small_proof : Js
small_proof = object (
    field (codes "pi_a") (strings ("1" ∷ "2" ∷ "1" ∷ [])) (
      field (codes "pi_b")
        (array (
          items (
            strings ("10" ∷ "11" ∷ [])
            ∷ strings ("12" ∷ "13" ∷ [])
            ∷ strings ("1" ∷ "0" ∷ [])
            ∷ [])))
        (field (codes "pi_c") (strings ("1" ∷ "2" ∷ "1" ∷ []))
          (field (codes "protocol") (string (codes "groth16")) end))))

abbrev pub small_signals : Js
small_signals = strings ("7" ∷ "0x1f" ∷ [])
