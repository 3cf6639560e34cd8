-- ===== src/PoseidonUtils/Tests.antt =====
-- Runs of the hashes over longer inputs.
use zkstellar.Prelude.{◌<◌, ◌≡◌, List, length, replicate, arith}
use zkstellar.Text.{ℤ, pos}
use zkstellar.Types.{ok}
use zkstellar.Poseidon.Tests.{sample_constants}
use zkstellar.PoseidonUtils.{poseidon_batch, chunk_digests}
use zkstellar.PoseidonUtils.Batch.{poseidon_batch_shorter}

abbrev twenty : List ℤ
twenty = replicate 20 (pos 3)

poseidon_batch_shorter_example :
    (digests : List ℤ) × (chunk_digests sample_constants twenty ≡ ok digests)
    × (1 < length digests)
    × (length digests < length twenty)
    × (poseidon_batch sample_constants twenty ≡ poseidon_batch sample_constants digests)
poseidon_batch_shorter_example = poseidon_batch_shorter sample_constants twenty (omega arith)
