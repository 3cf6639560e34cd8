-- ===== src/OffChain/Tests.antt =====
-- A run of the check off the chain.
use zkstellar.Prelude.{true}
use zkstellar.Types.{Result, ok}
use zkstellar.Js.{Js, boolean}

-- It accepts every proof.
abbrev lenient_verify : Js → Js → Js → Result Js
lenient_verify key signals proof = ok (boolean true)
