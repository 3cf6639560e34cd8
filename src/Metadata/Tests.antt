-- ===== src/Metadata/Tests.antt =====
-- Runs of the expiry functions.
use zkstellar.Prelude.{none, some}
use zkstellar.Text.{codes}
use zkstellar.Metadata.{ProofMetadata}

abbrev sample_meta : ProofMetadata
sample_meta = record {
  circuit = codes "range_proof";
  circuit_id = some 2;
  generated_at = codes "2026-01-01T00:00:00.000Z";
  expiry_ledger = some 900;
  estimated_expiry_at = none;
  tags = none;
}
