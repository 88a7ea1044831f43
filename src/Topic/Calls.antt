-- ===== src/Topic/Calls.antt =====
-- The calls that move the end of a partition's log or its high watermark, as one step function.
use go_broker.Base.{ℕ, ◌+◌, Bool, List, [], ◌∷◌, length}
use go_broker.Wire.Message.{Message}
use go_broker.Topic.Types.{Storage, Partition}
use go_broker.Topic.Appends.{enqueue_batch_leader, replica_append}
use go_broker.Topic.Compacted.{replica_append_compacted}
use go_broker.Topic.Watermark.{
  advance_hwm, reserve_offsets, apply_replica_hwm, reconcile_committed_hwm, reconcile_snapshot_hwm,
  finalize_snapshot_recovery,
}

-- The arguments of a call, but for the time and the partition.
pub data Call : Type 0 where
  lead : List Message → Bool → Call
  replicate : List Message → Bool → Call
  replicate_compacted : List Message → ℕ → Call
  advance : Call
  commit_to : ℕ → Call
  reconcile_to : ℕ → Call
  stage_recovery : ℕ → Call
  finish_recovery : ℕ → Call
  reserve : ℕ → Call

-- The offsets that a call may take.
abbrev pub size : Call → ℕ
size (lead ms force) = length ms
size (replicate ms force) = length ms
size (replicate_compacted ms end) = end
size (reserve count) = count
size _ = 0

abbrev pub total_size : List (Call × ℕ) → ℕ
total_size [] = 0
total_size ((call, now) ∷ calls) = size call + total_size calls

module _ {S : Type 0} (storage : Storage S) where
  -- The partition after the call.
  unfoldable pub step : Call → ℕ → Partition S → Partition S
  step (lead ms force) now p = (enqueue_batch_leader storage ms force now p).0
  step (replicate ms force) now p = (replica_append storage ms force now p).0
  step (replicate_compacted ms end) now p = (replica_append_compacted storage ms end now p).0
  step advance now p = advance_hwm p
  step (commit_to hwm) now p = (apply_replica_hwm hwm p).0
  step (reconcile_to hwm) now p = (reconcile_committed_hwm storage hwm now p).0
  step (stage_recovery hwm) now p = (reconcile_snapshot_hwm storage hwm p).0
  step (finish_recovery hwm) now p = (finalize_snapshot_recovery storage hwm now p).0
  step (reserve count) now p = (reserve_offsets count p).0

  -- The partition after a history of calls, each with its time.
  unfoldable pub run : List (Call × ℕ) → Partition S → Partition S
  run [] p = p
  run ((call, now) ∷ calls) p = run calls (step call now p)
