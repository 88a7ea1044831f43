-- ===== src/Topic/Compacted.antt =====
-- The append of a compacted range by a follower, `ReplicaAppendCompactedRange` of
-- pkg/topic/partition.go, on a storage that supports such ranges.
use go_broker.Base.{
  ℕ, Bool, true, false, not, ◌||◌, Option, none, some, List, [], ◌∷◌, map, ltb, leb, if◌then◌else◌,
}
use go_broker.Wire.Message.{Message}
use go_broker.Topic.Types.{
  TopicError, is_closed, partition_too_large, invalid_range, invalid_range_offset, write_failed,
  disk_message_from_message, Storage, Partition, is_too_large,
}
use go_broker.Topic.Appends.{note_written}

-- The offsets lie in the range and grow; `previous` is the one before, if there is one.
unfoldable pub range_error : ℕ → ℕ → Option ℕ → List Message → Option TopicError
range_error start end previous [] = none
range_error start end previous (m ∷ ms) =
    let rest = range_error start end (some m.offset) ms in
    let repeats = elim previous as (λ x. Bool) [ none ↦ false | some p ↦ leb m.offset p ] in
    if ltb m.offset start || leb end m.offset || repeats then some invalid_range_offset else rest

module _ {S : Type 0} (storage : Storage S) where
  unfoldable pub replica_append_compacted :
      List Message → ℕ → ℕ → Partition S → Partition S × Option TopicError
  replica_append_compacted ms end now p =
      if p.closed
      then (p, some is_closed)
      else if leb end p.leo
      then (p, some invalid_range)
      else if is_too_large p.id
      then (p, some partition_too_large)
      else elim (range_error p.leo end none ms) [
        | some e ↦ (p, some e)
        | none ↦
            let batch = map (disk_message_from_message p.topic p.id) ms in
            let (dh, written) = storage.write_compacted p.leo end batch p.dh in
            if not written
            then (record p { dh = dh }, some write_failed)
            else (record (note_written (λ _. true) now ms p) { dh = dh; leo = end }, none)
      ]
