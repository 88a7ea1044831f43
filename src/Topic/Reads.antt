-- ===== src/Topic/Reads.antt =====
-- The reads of committed records in pkg/topic/partition.go.
use go_broker.Base.{
  ℕ, zero, suc, ◌+◌, ◌-◌, Bool, true, false, ◌||◌, Option, none, some, List, [], ◌∷◌, ◌++◌,
  is_empty, length, ◌==◌, ltb, leb, if◌then◌else◌,
}
use go_broker.Wire.Message.{Message}
use go_broker.Topic.Types.{MarkerKey, MarkerInfo, MarkerMap, same_key, Storage, Partition, next_u64}
use go_broker.Topic.Markers.{Resolver, first_unresolved_open_offset, is_read_committed_visible}
use go_broker.Topic.Watermark.{read_batch_size}

-- `delete` on a Go map with marker keys
unfoldable pub unmark {ℓ} : {V : Type ℓ} → MarkerKey → MarkerMap V → MarkerMap V
unmark k [] = []
unmark k ((j, v) ∷ m) = let rest = unmark k m in if same_key j k then rest else (j, v) ∷ rest

-- The two maps after the loop of `pruneTransactionIndex`, over the markers.
unfoldable pub prune_from :
    ℕ
    → MarkerMap MarkerInfo
    → MarkerMap MarkerInfo
    → MarkerMap ℕ
    → MarkerMap MarkerInfo × MarkerMap ℕ
prune_from floor [] markers opens = (markers, opens)
prune_from floor ((key, info) ∷ rest) markers opens =
    let kept = leb floor info.offset in
    prune_from floor rest (if kept then markers else unmark key markers)
      (if kept then opens else unmark key opens)

unfoldable pub prune_transaction_index : {S : Type 0} → ℕ → Partition S → Partition S
prune_transaction_index floor p =
    let (markers, opens) = prune_from floor p.txn_markers p.txn_markers p.txn_open_offsets in
    if leb floor p.txn_retention_floor
    then p
    else record p { txn_markers = markers; txn_open_offsets = opens; txn_retention_floor = floor }

-- What a read gives: records, an offset below the retained ones, or an error of the storage.
pub data ReadResult : Type 0 where
  records : List Message → ReadResult
  out_of_range read_failed : ReadResult

abbrev pub prepend : List Message → ReadResult → ReadResult
prepend ms (records rest) = records (ms ++ rest)
prepend ms out_of_range = out_of_range
prepend ms read_failed = read_failed

-- One batch: the offset that the scan has come to, and the visible records, of which there is room for
-- one more than `room`.
unfoldable pub scan_batch : (Message → Bool) → ℕ → ℕ → ℕ → List Message → ℕ × List Message
scan_batch visible limit room current [] = (current, [])
scan_batch visible limit room current (m ∷ ms) =
    let next = if leb (next_u64 m.offset) current then current + 1 else next_u64 m.offset in
    elim (leb limit m.offset) [
      | true ↦ (current, [])
      | false ↦ elim (visible m) [
        | false ↦ scan_batch visible limit room next ms
        | true ↦ elim room [
          | zero ↦ (next, m ∷ [])
          | suc room' ↦ let (end, rest) = scan_batch visible limit room' next ms in (end, m ∷ rest)
        ]
      ]
    ]

module _ {S : Type 0} (storage : Storage S) where
  -- The loop of `readCommittedScanRange`; `none` is a loop that is not over when the fuel is.
  unfoldable pub scan : ℕ → (Message → Bool) → ℕ → ℕ → ℕ → S → Option ReadResult
  scan zero visible limit room current dh = none
  scan (suc fuel) visible limit room current dh =
      let size =
        if ltb (limit - current) read_batch_size then limit - current else read_batch_size in
      elim (leb limit current || room == 0) [
        | true ↦ some (records [])
        | false ↦ elim (storage.read_messages current size dh) [
          | none ↦ some read_failed
          | some batch ↦
              let (next, shown) = scan_batch visible limit (room - 1) current batch in
              elim (is_empty batch) [
                | true ↦ some (records [])
                | false ↦ elim (ltb (length batch) size) [
                  | true ↦ some (records shown)
                  | false ↦ elim (scan fuel visible limit (room - length shown) next dh) [
                    | none ↦ none
                    | some rest ↦ some (prepend shown rest)
                  ]
                ]
              ]
        ]
      ]

  -- The committed watermark, capped at what is flushed.
  unfoldable pub readable_end : Partition S → ℕ
  readable_end p =
      let flushed = storage.flushed_offset p.dh in if ltb flushed p.hwm then flushed else p.hwm

  unfoldable pub last_stable_offset : Resolver → Partition S → ℕ
  last_stable_offset resolver p =
      let q = prune_transaction_index (storage.first_offset p.dh) p in
      first_unresolved_open_offset (readable_end p) q.txn_retention_floor q.txn_open_offsets
        q.txn_markers resolver

  -- `readVisibleCommitted` on the partition with its index pruned.
  unfoldable pub read_visible_committed : Resolver → ℕ → ℕ → ℕ → Partition S → Option ReadResult
  read_visible_committed resolver offset max hwm q =
      let lso =
        first_unresolved_open_offset hwm q.txn_retention_floor q.txn_open_offsets q.txn_markers
          resolver in
      let limit = if ltb lso hwm then lso else hwm in
      scan (suc (limit - offset)) (λ m. is_read_committed_visible m hwm q.txn_markers resolver)
        limit max offset q.dh

  -- `ReadCommitted`: the partition after it, and the result. A loop gets a turn more than it has offsets.
  unfoldable pub read_committed : Resolver → ℕ → ℕ → Partition S → Partition S × Option ReadResult
  read_committed resolver offset max p =
      let hwm = readable_end p in
      let earliest = storage.first_offset p.dh in
      let q = prune_transaction_index earliest p in
      let most = if ltb (hwm - offset) max then hwm - offset else max in
      if ltb offset earliest
      then (p, some out_of_range)
      else if leb hwm offset
      then (p, some (records []))
      else (q, read_visible_committed resolver offset most hwm q)
