-- ===== src/Topic/Bounds.antt =====
-- Proofs that the high watermark of a partition stays within its log.
use go_broker.Base.{
  ℕ, ◌+◌, ◌^◌, ◌≤◌, ◌<◌, ◌≡◌, refl, inl, inr, Bool, true, false, not, ◌||◌, List, [], ◌∷◌, is_empty,
  length, Map, arith,
}
use go_broker.Wire.Message.{Message}
use go_broker.Topic.Types.{ok, TopicResult-cases, StagedEntry, Storage, Partition, next_u64}
use go_broker.Topic.Producers.{
  Verdict-cases, validate_producer_message, batch_has_transactional_messages,
}
use go_broker.Topic.Appends.{
  Staging, pending, stage, note_written, write_staged, enqueue_batch_leader, Placement-cases,
  restage, placement, stage_replica, write_replica, replica_append,
}
use go_broker.Topic.Compacted.{replica_append_compacted}
use go_broker.Topic.Watermark.{
  set_hwm, advance_hwm, reserve_offsets, apply_replica_hwm, rebuilt, reconcile,
  reconcile_committed_hwm, reconcile_snapshot_hwm, finalize_snapshot_recovery,
}
use go_broker.Topic.Calls.{
  Call, lead, replicate, replicate_compacted, advance, commit_to, reconcile_to, stage_recovery,
  finish_recovery, reserve, size, total_size, step, run,
}

pub next_u64-below : (n : ℕ) → n + 1 < 2 ^ 64 → next_u64 n ≡ n + 1
unfolding next_u64
next_u64-below n h = ground arith

module _ {S : Type 0} where
  note_written-hwm :
      (force : Message → Bool) (now : ℕ) (ms : List Message) (p : Partition S)
      → (note_written force now ms p).hwm ≡ p.hwm
  unfolding note_written
  note_written-hwm force now [] p = refl
  note_written-hwm force now (m ∷ ms) p = note_written-hwm force now ms _

  -- Staging moves the next offset on by at most one for each message.
  pub stage-bounds :
      (p : Partition S) (force : Bool) (next : ℕ) (staged : Map StagedEntry) (ms : List Message)
      → next + length ms < 2 ^ 64
      → (next ≤ (stage p force next staged ms).next_offset)
        × ((stage p force next staged ms).next_offset ≤ next + length ms)
  unfolding stage
  stage-bounds p force next staged [] h = (omega arith, omega arith)
  stage-bounds p force next staged (m ∷ ms) h =
      let n = next_u64-below next (omega arith) in
      let ih = stage-bounds p force next staged ms (omega arith) in
      let ih' =
        stage-bounds p force (next_u64 next) (restage p force m staged) ms (omega (arith, n)) in
      elim (Verdict-cases (validate_producer_message p m staged force)) [
        | inl (e, r) ↦ rw (r, stage) (omega arith, omega arith)
        | inr (inl r) ↦ rw (r, stage) (ih.0, omega (arith, ih.1))
        | inr (inr r) ↦ rw (r, stage) (omega (arith, n, ih'.0), omega (arith, n, ih'.1))
      ]

  -- What a refused or accepted write of a staged batch does to the end of the log and the watermark.
  pub write_staged-end :
      (storage : Storage S) (force : Bool) (now : ℕ) (p : Partition S) (s : Staging)
      → p.leo ≤ s.next_offset
      → (p.leo ≤ (write_staged storage force now p s).0.leo)
        × ((write_staged storage force now p s).0.leo ≤ s.next_offset)
        × ((write_staged storage force now p s).0.hwm ≡ p.hwm)
  unfolding write_staged
  write_staged-end storage force now p s h =
      let n = note_written-hwm (λ _. force) now (pending s.slots) p in ground (arith, n)

  stage_replica-bounds :
      (storage : Storage S) (initial : ℕ) (dh : S) (next : ℕ) (staged ms : List Message)
      {batch : List Message} {end : ℕ}
      → next + length ms < 2 ^ 64
      → stage_replica storage initial dh next staged ms ≡ ok (batch, end)
      → (next ≤ end) × (end ≤ next + length ms)
  unfolding stage_replica
  stage_replica-bounds storage initial dh next staged [] h e = ground arith
  stage_replica-bounds storage initial dh next staged (m ∷ ms) {batch} {end} h e =
      elim (Placement-cases (placement storage initial dh next staged m)) [
        | inl (x, r) ↦ absurd (ground (arith, r))
        | inr (inl r) ↦
            let ih =
              stage_replica-bounds storage initial dh next staged ms {batch = batch} {end = end}
                (omega arith) (ground (arith, r)) in
            (ih.0, omega (arith, ih.1))
        | inr (inr r) ↦
            elim (TopicResult-cases
              (stage_replica storage initial dh (next_u64 next) (m ∷ staged) ms)) [
                | inl (x, q) ↦ absurd (ground (arith, r, q))
                | inr ((rest, end'), q) ↦
                    let n = next_u64-below next (omega arith) in
                    let ih =
                      stage_replica-bounds storage initial dh (next_u64 next) (m ∷ staged) ms
                        (omega (arith, n)) q in
                    let same : end' ≡ end = ground (arith, r, q) in
                    (omega (arith, n, ih.0, same), omega (arith, n, ih.1, same))
              ]
      ]

  pub write_replica-end :
      (storage : Storage S) (force : Bool) (now : ℕ) (p : Partition S) (ms : List Message) (end : ℕ)
      → p.leo ≤ end
      → (p.leo ≤ (write_replica storage force now p ms end).0.leo)
        × ((write_replica storage force now p ms end).0.leo ≤ end)
        × ((write_replica storage force now p ms end).0.hwm ≡ p.hwm)
  unfolding write_replica
  write_replica-end storage force now p ms end h =
      ground (arith, note_written-hwm (λ m. force || not (is_empty m.transactional_id)) now ms p)

  reconcile-end :
      (storage : Storage S) (hwm now : ℕ) (p : Partition S)
      → p.hwm ≤ p.leo
      → ((reconcile storage hwm now p).0.hwm ≤ (reconcile storage hwm now p).0.leo)
        × ((reconcile storage hwm now p).0.leo ≤ p.leo)
  unfolding reconcile rebuilt
  reconcile-end storage hwm now p h = ground arith

  -- One call.
  step-end :
      (storage : Storage S) (call : Call) (now : ℕ) (p : Partition S)
      → p.hwm ≤ p.leo
      → p.leo + size call < 2 ^ 64
      → ((step storage call now p).hwm ≤ (step storage call now p).leo)
        × ((step storage call now p).leo ≤ p.leo + size call)
  unfolding step
  step-end storage (lead ms force) now p h room =
      unfold enqueue_batch_leader in
      let forced = force || batch_has_transactional_messages ms in
      let s = stage p forced p.leo [] ms in
      let b = stage-bounds p forced p.leo [] ms room in
      let w = write_staged-end storage forced now p s b.0 in ground (arith, w, b)
  step-end storage (replicate ms force) now p h room =
      unfold replica_append in
      elim (TopicResult-cases (stage_replica storage p.leo p.dh p.leo [] ms)) [
        | inl (x, q) ↦ ground (arith, q)
        | inr ((batch, end), q) ↦
            let b = stage_replica-bounds storage p.leo p.dh p.leo [] ms room q in
            let w = write_replica-end storage force now p batch end b.0 in ground (arith, q, w, b)
      ]
  step-end storage (replicate_compacted ms end) now p h room =
      unfold replica_append_compacted in ground (arith, note_written-hwm (λ _. true) now ms p)
  step-end storage advance now p h room = unfold advance_hwm set_hwm in ground arith
  step-end storage (commit_to hwm) now p h room = unfold apply_replica_hwm set_hwm in ground arith
  step-end storage (reconcile_to hwm) now p h room =
      unfold reconcile_committed_hwm in
      let r = reconcile-end storage hwm now p h in ground (arith, r)
  step-end storage (stage_recovery hwm) now p h room = unfold reconcile_snapshot_hwm in ground arith
  step-end storage (finish_recovery hwm) now p h room =
      unfold finalize_snapshot_recovery in
      let r = reconcile-end storage hwm now p h in
      let r' =
        reconcile-end storage hwm now
          (record p {
            snapshot_recovery = false;
            recovery_checkpoint_hwm = 0;
            recovery_snapshot_hwm = 0;
          })
          h in
      ground (arith, r, r')
  step-end storage (reserve count) now p h room = unfold reserve_offsets in ground arith

  -- The high watermark stays within the log of a partition, through every history of calls:
  -- batches of a leader and of a follower, compacted ranges, advances, commits, reconciliations,
  -- recoveries and reservations, with any outcome of the storage. The history must not take more
  -- offsets than a uint64 has left, where a compacted range counts for the offset that it ends at.
  pub hwm_within_log :
      (storage : Storage S) (calls : List (Call × ℕ)) (p : Partition S)
      → p.hwm ≤ p.leo
      → p.leo + total_size calls < 2 ^ 64
      → (run storage calls p).hwm ≤ (run storage calls p).leo
  unfolding run
  hwm_within_log storage [] p h room = h
  hwm_within_log storage ((call, now) ∷ calls) p h room =
      let s = step-end storage call now p h (omega arith) in
      hwm_within_log storage calls (step storage call now p) s.0 (omega (arith, s.1))
