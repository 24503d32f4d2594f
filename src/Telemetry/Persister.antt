-- ===== src/Telemetry/Persister.antt =====
-- services/telemetry-ingestion/src/persist/persister.ts. A flush that is requested is a drain that
-- runs later; its insertion either resolves or rejects.
pub mod Order
use pawaacdrone_fleet_operat.Common.{
  ℕ, ◌+◌, ◌-◌, Bool, true, false, not, List, [], ◌∷◌, ◌++◌, Option, Str, length, leb, ltb,
  if◌then◌else◌,
}
use pawaacdrone_fleet_operat.Telemetry.{TelemetrySample}
use pawaacdrone_fleet_operat.Telemetry.Bounds.{Gate, accept, is_within_bounds}

pub data PersistDecision : Type 0 where
  accepted rejected_bounds rejected_non_monotonic : PersistDecision

-- `written` is what the store took, batch after batch; `flushes` is the number of drains that are
-- chained and have not run. The three counters are those of the metrics.
pub record BatchingPersister : Type 0 where
  pub gate : Gate
  pub pending : List TelemetrySample
  pub flushes : ℕ
  pub written : List TelemetrySample
  pub samples_persisted : ℕ
  pub samples_rejected_bounds : ℕ
  pub samples_rejected_non_monotonic : ℕ

abbrev pub new_persister : BatchingPersister
new_persister = record {
  gate = [];
  pending = [];
  flushes = 0;
  written = [];
  samples_persisted = 0;
  samples_rejected_bounds = 0;
  samples_rejected_non_monotonic = 0;
}

-- `flush()`
unfoldable pub flush : BatchingPersister → BatchingPersister
flush p = record p { flushes = p.flushes + 1 }

unfoldable pub buffer : ℕ → BatchingPersister → Gate → TelemetrySample → BatchingPersister
unfolding flush
buffer batch_size p gate sample =
    let full = record p { gate = gate; pending = p.pending ++ (sample ∷ []) } in
    if leb batch_size (length full.pending) then flush full else full

abbrev pub admit :
    ℕ → BatchingPersister → TelemetrySample → Gate × Bool → BatchingPersister × PersistDecision
admit batch_size p sample (gate, false) = (
  record p { samples_rejected_non_monotonic = p.samples_rejected_non_monotonic + 1 },
  rejected_non_monotonic,
)
admit batch_size p sample (gate, true) = (buffer batch_size p gate sample, accepted)

-- The next chained drain; `resolves` is what `insertBatch` does.
unfoldable pub drain : Bool → BatchingPersister → BatchingPersister
drain resolves p =
    let started = record p { flushes = p.flushes - 1; pending = [] } in
    if leb (length p.pending) 0
    then record p { flushes = p.flushes - 1 }
    else if resolves
    then record started {
      written = p.written ++ p.pending;
      samples_persisted = p.samples_persisted + length p.pending;
    }
    else started

module _ (parse_date : Str → Option ℕ) (batch_size : ℕ) where
  unfoldable pub offer : BatchingPersister → TelemetrySample → BatchingPersister × PersistDecision
  offer p sample =
      if not (is_within_bounds sample)
      then (record p { samples_rejected_bounds = p.samples_rejected_bounds + 1 }, rejected_bounds)
      else admit batch_size p sample (accept parse_date p.gate sample)
