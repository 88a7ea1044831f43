-- ===== src/Topic/Watermark.antt =====
-- The high watermark of a partition, pkg/topic/partition.go: the offset below which records are
-- committed, its advance, and its reconciliation with the cluster's watermark. The rebuilding of the
-- producer state and the marker index after a truncation reads the log in batches.
use go_broker.Base.{
  ℕ, zero, suc, ◌+◌, ◌-◌, ◌^◌, true, false, not, ◌||◌, Option, none, some, List, [], ◌∷◌, ◌++◌,
  is_empty, length, ◌==◌, ltb, leb, if◌then◌else◌, Map, insert,
}
use go_broker.Wire.Message.{Message}
use go_broker.Topic.Types.{
  TopicError, ahead_of_leo, behind_watermark, recovery_pending, boundary_changed, truncate_failed,
  reservation_overflow, ProducerEntry, MarkerInfo, MarkerMap, Storage, Partition, next_u64,
}
use go_broker.Topic.Markers.{index_marker, index_open}

-- The offset behind a batch that was read, which is above the one it was read at.
unfoldable pub next_read : ℕ → List Message → ℕ
next_read offset [] = offset
next_read offset (m ∷ ms) =
    let next = next_u64 m.offset in next_read (if leb next offset then offset + 1 else next) ms

-- A read that fails ends the loop as an empty one does.
abbrev pub read_records : Option (List Message) → List Message
read_records none = []
read_records (some ms) = ms

abbrev pub read_batch_size : ℕ
read_batch_size = 1024

-- The entries of the records of the log, in their order.
unfoldable pub recovered_producers : ℕ → List Message → Map ProducerEntry → Map ProducerEntry
recovered_producers now [] state = state
recovered_producers now (m ∷ ms) state = recovered_producers now ms (
    if is_empty m.producer_id || m.seq_num == 0
    then state
    else insert m.producer_id
        (record { last_epoch = m.epoch; last_seq = m.seq_num; last_seen = now }) state)

unfoldable pub rebuilt_markers : List Message → MarkerMap MarkerInfo → MarkerMap MarkerInfo
rebuilt_markers [] markers = markers
rebuilt_markers (m ∷ ms) markers = rebuilt_markers ms (index_marker m markers)

unfoldable pub rebuilt_opens : List Message → MarkerMap ℕ → MarkerMap ℕ
rebuilt_opens [] opens = opens
rebuilt_opens (m ∷ ms) opens = rebuilt_opens ms (index_open m opens)

module _ {S : Type 0} where
  unfoldable pub set_hwm : ℕ → Partition S → Partition S
  set_hwm hwm p = if leb hwm p.hwm then p else record p { hwm = hwm }

  unfoldable pub advance_hwm : Partition S → Partition S
  advance_hwm p = set_hwm p.leo p

  -- `ReserveOffsets`: the partition after it, the first offset, and the error.
  unfoldable pub reserve_offsets : ℕ → Partition S → Partition S × ℕ × Option TopicError
  reserve_offsets count p =
      if ltb (2 ^ 64 - 1 - p.leo) count
      then (p, p.leo, some reservation_overflow)
      else (record p { leo = p.leo + count }, p.leo, none)

  unfoldable pub apply_replica_hwm : ℕ → Partition S → Partition S × Option TopicError
  apply_replica_hwm hwm p = if ltb p.leo hwm then (p, some ahead_of_leo) else (set_hwm hwm p, none)

module _ {S : Type 0} (storage : Storage S) where
  -- The records that the loops of `rebuildTransactionMarkerIndex` and `RecoverProducerStateFromLog`
  -- visit from an offset on; each turn moves on by one offset at least.
  unfoldable pub read_log : ℕ → ℕ → ℕ → S → List Message
  read_log zero offset tail dh = []
  read_log (suc fuel) offset tail dh =
      let batch = read_records (storage.read_messages offset read_batch_size dh) in
      let next = next_read offset batch in
      let rest = read_log fuel next tail dh in
      if leb tail offset || is_empty batch
      then []
      else if ltb (length batch) read_batch_size
      then batch
      else batch ++ rest

  unfoldable pub retained_log : S → List Message
  retained_log dh =
      let first = storage.first_offset dh in
      let tail = storage.absolute_offset dh in read_log (tail - first) first tail dh

  -- What is kept of the log, anew from the records that are left.
  unfoldable pub rebuilt : ℕ → Partition S → Partition S
  rebuilt now p =
      let log = retained_log p.dh in
      let is_short = leb (storage.absolute_offset p.dh) (storage.first_offset p.dh) in
      record p {
        txn_markers = rebuilt_markers log [];
        txn_open_offsets = rebuilt_opens log [];
        txn_retention_floor = if is_short then 0 else storage.first_offset p.dh;
        producer_state = if p.tracks_producers then recovered_producers now log [] else [];
      }

  -- `reconcileCommittedHWMLocked`
  unfoldable pub reconcile : ℕ → ℕ → Partition S → Partition S × Option TopicError
  reconcile hwm now p =
      if ltb p.leo hwm
      then (p, some behind_watermark)
      else if p.leo == hwm
      then (record p { hwm = hwm }, none)
      else (let (dh, truncated) = storage.truncate_to hwm p.dh in
          if not truncated
          then (record p { dh = dh }, some truncate_failed)
          else (rebuilt now (record p { dh = dh; leo = hwm; hwm = hwm }), none))

  unfoldable pub reconcile_committed_hwm : ℕ → ℕ → Partition S → Partition S × Option TopicError
  reconcile_committed_hwm hwm now p =
      if p.snapshot_recovery then (p, some recovery_pending) else reconcile hwm now p

  unfoldable pub reconcile_snapshot_hwm : ℕ → Partition S → Partition S × Option TopicError
  reconcile_snapshot_hwm snapshot_hwm p =
      if p.snapshot_recovery
      then (p, if p.recovery_snapshot_hwm == snapshot_hwm then none else some boundary_changed)
      else (
        record p {
          recovery_checkpoint_hwm = p.hwm;
          recovery_snapshot_hwm = snapshot_hwm;
          hwm = if ltb snapshot_hwm p.leo then snapshot_hwm else p.leo;
          snapshot_recovery = true;
        },
        none,
      )

  unfoldable pub finalize_snapshot_recovery : ℕ → ℕ → Partition S → Partition S × Option TopicError
  finalize_snapshot_recovery hwm now p =
      let done = record p {
        snapshot_recovery = false;
        recovery_checkpoint_hwm = 0;
        recovery_snapshot_hwm = 0;
      } in
      if not p.snapshot_recovery
      then reconcile hwm now p
      else if ltb p.leo hwm
      then (record done { hwm = if ltb p.leo p.hwm then p.leo else p.hwm }, none)
      else (let (q, failure) = reconcile hwm now done in
          elim failure [
            | none ↦ (q, none)
            | some e ↦ (
              record q {
                snapshot_recovery = true;
                recovery_checkpoint_hwm = p.recovery_checkpoint_hwm;
                recovery_snapshot_hwm = p.recovery_snapshot_hwm;
              },
              some e,
            )
          ])
