-- ===== src/Topic/Scans.antt =====
-- Proofs that the reads of committed records end, and what they show.
use go_broker.Base.{
  ℕ, zero, suc, ◌+◌, ◌-◌, ◌≤◌, ◌<◌, ◌≡◌, refl, inl, inr, Bool, true, false, ◌||◌, Option, none,
  some, Option-cases, Bool-cases, List, [], ◌∷◌, length, length-append, ltb, leb, ◌==◌,
  if◌then◌else◌, All, All-append, arith,
}
use go_broker.Wire.Message.{Message}
use go_broker.Topic.Types.{Storage, Partition, next_u64}
use go_broker.Topic.Markers.{Resolver, is_read_committed_visible}
use go_broker.Topic.Watermark.{read_batch_size}
use go_broker.Topic.Reads.{
  prune_transaction_index, ReadResult, records, out_of_range, read_failed, prepend, scan_batch,
  scan, readable_end, last_stable_offset, read_visible_committed, read_committed,
}

-- A record that readers may see, below the limit.
unfoldable pub IsReadable : (Message → Bool) → ℕ → Message → Type 0
IsReadable visible limit m = (m.offset < limit) × (visible m ≡ true)

-- The offset behind a record that the scan has read.
after : ℕ → Message → ℕ
after current m = if leb (next_u64 m.offset) current then current + 1 else next_u64 m.offset

after-up : (current : ℕ) (m : Message) → current < after current m
unfolding after
after-up current m = ground arith

-- What a batch shows: readable records, as many as there is room for, and the scan never goes back.
record Shows (visible : Message → Bool) (limit room current : ℕ) (r : ℕ × List Message)
    : Type 0 where
  forward : current ≤ r.0
  fits : length r.1 ≤ suc room
  readable : All (IsReadable visible limit) r.1

scan_batch-Shows :
    (visible : Message → Bool) (limit room current : ℕ) (ms : List Message)
    → Shows visible limit room current (scan_batch visible limit room current ms)
unfolding scan_batch after IsReadable
scan_batch-Shows visible limit room current [] = record {
  forward = omega arith;
  fits = omega arith;
  readable = tt;
}
scan_batch-Shows visible limit zero current (m ∷ ms) =
    let up = after-up current m in
    let ih = scan_batch-Shows visible limit zero (after current m) ms in
    elim (Bool-cases (leb limit m.offset)) [
      | inl l ↦
          rw (l, scan_batch) (record { forward = omega arith; fits = omega arith; readable = tt })
      | inr l ↦ elim (Bool-cases (visible m)) [
        | inr v ↦
            rw (l, v, scan_batch)
              (record {
                forward = omega (arith, up, ih.forward);
                fits = ih.fits;
                readable = ih.readable;
              })
        | inl v ↦
            rw (l, v, scan_batch)
              (record {
                forward = omega (arith, up);
                fits = omega arith;
                readable = ((ground arith, v), tt);
              })
      ]
    ]
scan_batch-Shows visible limit (suc room) current (m ∷ ms) =
    let up = after-up current m in
    let ih = scan_batch-Shows visible limit (suc room) (after current m) ms in
    let ih' = scan_batch-Shows visible limit room (after current m) ms in
    elim (Bool-cases (leb limit m.offset)) [
      | inl l ↦
          rw (l, scan_batch) (record { forward = omega arith; fits = omega arith; readable = tt })
      | inr l ↦ elim (Bool-cases (visible m)) [
        | inr v ↦
            rw (l, v, scan_batch)
              (record {
                forward = omega (arith, up, ih.forward);
                fits = ih.fits;
                readable = ih.readable;
              })
        | inl v ↦
            rw (l, v, scan_batch)
              (record {
                forward = omega (arith, up, ih'.forward);
                fits = omega (arith, ih'.fits);
                readable = ((ground arith, v), ih'.readable);
              })
      ]
    ]

-- A batch whose first record is below the limit moves the scan on.
scan_batch-moves :
    (visible : Message → Bool) (limit room current : ℕ) (m : Message) (ms : List Message)
    → m.offset < limit
    → current < (scan_batch visible limit room current (m ∷ ms)).0
unfolding scan_batch after
scan_batch-moves visible limit zero current m ms h =
    let up = after-up current m in
    let l : leb limit m.offset ≡ false = ground arith in
    let ih = scan_batch-Shows visible limit zero (after current m) ms in
    elim (Bool-cases (visible m)) [
      | inr v ↦ rw (l, v, scan_batch) (omega (arith, up, ih.forward))
      | inl v ↦ rw (l, v, scan_batch) up
    ]
scan_batch-moves visible limit (suc room) current m ms h =
    let up = after-up current m in
    let l : leb limit m.offset ≡ false = ground arith in
    let ih = scan_batch-Shows visible limit (suc room) (after current m) ms in
    let ih' = scan_batch-Shows visible limit room (after current m) ms in
    elim (Bool-cases (visible m)) [
      | inr v ↦ rw (l, v, scan_batch) (omega (arith, up, ih.forward))
      | inl v ↦ rw (l, v, scan_batch) (omega (arith, up, ih'.forward))
    ]

-- Results of a read within a limit and with room for so many records.
unfoldable pub Sound : (Message → Bool) → ℕ → ℕ → ReadResult → Type 0
Sound visible limit room (records ms) = (length ms ≤ room) × All (IsReadable visible limit) ms
Sound visible limit room out_of_range = Unit
Sound visible limit room read_failed = Unit

prepend-Sound :
    (visible : Message → Bool) (limit room : ℕ) (ms : List Message) (r : ReadResult)
    → length ms ≤ room
    → All (IsReadable visible limit) ms
    → Sound visible limit (room - length ms) r
    → Sound visible limit room (prepend ms r)
unfolding Sound
prepend-Sound visible limit room ms (records rest) h all s = (
  omega (arith, length-append ms rest, s.0),
  All-append (IsReadable visible limit) ms rest all s.1,
)
prepend-Sound visible limit room ms out_of_range h all s = tt
prepend-Sound visible limit room ms read_failed h all s = tt

-- A read gives first the record at the offset that it asks for.
unfoldable pub begins_at : ℕ → Option (List Message) → Bool
begins_at offset none = true
begins_at offset (some []) = true
begins_at offset (some (m ∷ ms)) = m.offset == offset

begins_at-first :
    (offset : ℕ) (m : Message) (ms : List Message) (o : Option (List Message))
    → o ≡ some (m ∷ ms)
    → begins_at offset o ≡ true
    → m.offset ≡ offset
unfolding begins_at
begins_at-first offset m ms o e h = ground (arith, e)

module _ {S : Type 0} (storage : Storage S) where
  -- Enough fuel for the scan.
  scan-ends :
      (visible : Message → Bool) (limit room : ℕ) (fuel current : ℕ) (dh : S)
      → ((o count : ℕ) (log : S) → begins_at o (storage.read_messages o count log) ≡ true)
      → limit - current < fuel
      → (r : ReadResult) × (scan storage fuel visible limit room current dh ≡ some r)
        × Sound visible limit room r
  unfolding scan Sound
  scan-ends visible limit room zero current dh dense h = absurd (omega arith)
  scan-ends visible limit room (suc fuel) current dh dense h =
      let size =
        if ltb (limit - current) read_batch_size then limit - current else read_batch_size in
      elim (Bool-cases (leb limit current || room == 0)) [
        | inl stop ↦ (records [], rw (stop, scan) refl, (omega arith, tt))
        | inr go ↦ elim (Option-cases (storage.read_messages current size dh)) [
          | inl e ↦ (read_failed, rw (go, e, scan) refl, tt)
          | inr ([], e) ↦ (records [], rw (go, e, scan) refl, (omega arith, tt))
          | inr (m ∷ ms, e) ↦
              let batch : List Message = m ∷ ms in
              let b = scan_batch-Shows visible limit (room - 1) current batch in
              let next = (scan_batch visible limit (room - 1) current batch).0 in
              let shown = (scan_batch visible limit (room - 1) current batch).1 in
              let there : room ≡ suc (room - 1) = ground arith in
              let first = begins_at-first current m ms _ e (dense current size dh) in
              let inside : m.offset < limit = ground (arith, first) in
              let up = scan_batch-moves visible limit (room - 1) current m ms inside in
              let ih =
                scan-ends visible limit (room - length shown) fuel next dh dense
                  (omega (arith, up, h, inside, first)) in
              elim (Bool-cases (ltb (length batch) size)) [
                | inl short ↦ (
                  records shown,
                  rw (go, e, short, scan) refl,
                  (omega (arith, b.fits, there), b.readable),
                )
                | inr full ↦ (
                  prepend shown ih.0,
                  rw (go, e, full, ih.1, scan) refl,
                  prepend-Sound visible limit room shown ih.0 (omega (arith, b.fits, there))
                      b.readable ih.2,
                )
              ]
        ]
      ]

  Sound-most :
      (visible : Message → Bool) (limit max other : ℕ) (r : ReadResult)
      → Sound visible limit (if ltb other max then other else max) r
      → Sound visible limit max r
  unfolding Sound
  Sound-most visible limit max other (records ms) s = (ground (arith, s.0), s.1)
  Sound-most visible limit max other out_of_range s = tt
  Sound-most visible limit max other read_failed s = tt

  -- The offset that a reader of committed records is stopped at: the end of the committed and flushed
  -- records, or the first one of a transaction that is not decided.
  unfoldable pub read_limit : Resolver → Partition S → ℕ
  read_limit resolver p =
      let lso = last_stable_offset storage resolver p in
      let hwm = readable_end storage p in if ltb lso hwm then lso else hwm

  -- What a reader may see, by the index of the partition without what is behind its log.
  unfoldable pub shown_by : Resolver → Partition S → Message → Bool
  shown_by resolver p m =
      is_read_committed_visible m (readable_end storage p)
        (prune_transaction_index (storage.first_offset p.dh) p).txn_markers resolver

  prune-dh : (floor : ℕ) (p : Partition S) → (prune_transaction_index floor p).dh ≡ p.dh
  unfolding prune_transaction_index
  prune-dh floor p = ground arith

  -- On a log without holes every read of committed records ends: with the error for an offset below the
  -- log, the storage's error, or at most as many records as were asked for, each visible by the markers
  -- of the partition and below its high watermark, its flushed end and its last stable offset.
  pub read_committed_ends :
      (resolver : Resolver) (offset max : ℕ) (p : Partition S)
      → ((o count : ℕ) (log : S) → begins_at o (storage.read_messages o count log) ≡ true)
      → (r : ReadResult) × ((read_committed storage resolver offset max p).1 ≡ some r)
        × Sound (shown_by resolver p) (read_limit resolver p) max r
  unfolding read_committed read_visible_committed shown_by read_limit last_stable_offset Sound
  read_committed_ends resolver offset max p dense =
      let hwm = readable_end storage p in
      let most = if ltb (hwm - offset) max then hwm - offset else max in
      let dh = prune-dh (storage.first_offset p.dh) p in
      let s =
        scan-ends (shown_by resolver p) (read_limit resolver p) most
          (suc (read_limit resolver p - offset)) offset
          (prune_transaction_index (storage.first_offset p.dh) p).dh dense (omega arith) in
      elim (Bool-cases (ltb offset (storage.first_offset p.dh))) [
        | inl low ↦ (out_of_range, rw low refl, tt)
        | inr low ↦ elim (Bool-cases (leb (readable_end storage p) offset)) [
          | inl over ↦ (records [], rw (low, over) refl, (omega arith, tt))
          | inr under ↦ (
            s.0,
            rw (low, under) s.1,
            Sound-most (shown_by resolver p) (read_limit resolver p) max (hwm - offset) s.0 s.2,
          )
        ]
      ]
