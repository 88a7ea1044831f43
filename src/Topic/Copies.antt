-- ===== src/Topic/Copies.antt =====
-- Proofs that a follower copies the log of its leader.
use go_broker.Base.{
  ℕ, suc, ◌+◌, ◌^◌, ◌≤◌, ◌<◌, ◌≡◌, refl, ap, ◌∙◌, ◌⊎◌, inl, inr, Bool, true, false, ◌||◌, none,
  Option-cases, List, [], ◌∷◌, map, is_empty, length, ◌==◌, Str, Map, All, arith,
}
use go_broker.Base.Int.{ℤ}
use go_broker.Wire.Message.{Message}
use go_broker.Topic.Types.{
  ok, StagedEntry, Storage, Partition, next_u64, is_too_large, disk_message_from_message,
}
use go_broker.Topic.Producers.{
  Verdict-cases, validate_producer_message, batch_has_transactional_messages,
}
use go_broker.Topic.Appends.{
  Staging, messages_of, pending, stage, restage, append_error, write_staged, enqueue_batch_leader,
  place, placement, stage_replica, write_replica, replica_append,
}
use go_broker.Topic.Bounds.{next_u64-below, stage-bounds, write_staged-end, write_replica-end}
use go_broker.Topic.Produce.{
  unassigned_leader_offset, mark_leader_offsets_unassigned, appended_leader_messages,
  append_as_leader,
}

abbrev IsUnassigned : Message → Type 0
IsUnassigned m = m.offset ≡ unassigned_leader_offset

marked-IsUnassigned : (ms : List Message) → All IsUnassigned (mark_leader_offsets_unassigned ms)
unfolding mark_leader_offsets_unassigned
marked-IsUnassigned [] = tt
marked-IsUnassigned (m ∷ ms) = (refl, marked-IsUnassigned ms)

length-marked : (ms : List Message) → length (mark_leader_offsets_unassigned ms) ≡ length ms
unfolding mark_leader_offsets_unassigned
length-marked [] = refl
length-marked (m ∷ ms) = ap suc (length-marked ms)

module _ {S : Type 0} where
  -- The records with an offset are those to be written.
  appended-pending :
      (p : Partition S) (force : Bool) (next : ℕ) (staged : Map StagedEntry) (ms : List Message)
      → All IsUnassigned ms
      → next + length ms < 2 ^ 64
      → (stage p force next staged ms).failure ≡ none
      → appended_leader_messages (messages_of (stage p force next staged ms).slots)
        ≡ pending (stage p force next staged ms).slots
  unfolding stage appended_leader_messages pending
  appended-pending p force next staged [] u room h = refl
  appended-pending p force next staged (m ∷ ms) u room h =
      elim (Verdict-cases (validate_producer_message p m staged force)) [
        | inl (e, r) ↦ absurd (ground (arith, r))
        | inr (inl r) ↦
            let ih =
              appended-pending p force next staged ms u.1 (omega arith) (ground (arith, r)) in
            let marked : (m.offset == unassigned_leader_offset) ≡ true = ground (arith, u.0) in
            rw (r, stage) (rw marked ih)
        | inr (inr r) ↦
            let n = next_u64-below next (omega arith) in
            let ih =
              appended-pending p force (next_u64 next) (restage p force m staged) ms u.1
                (omega (arith, n)) (ground (arith, r)) in
            let assigned : (next == unassigned_leader_offset) ≡ false = ground arith in
            rw (r, stage) (rw assigned (ap (λ t. record m { offset = next } ∷ t) ih))
      ]

  placement-end :
      (storage : Storage S) (initial : ℕ) (dh : S) (next : ℕ) (copied : List Message) (m : Message)
      → initial ≤ next
      → placement storage initial dh next copied (record m { offset = next }) ≡ place
  unfolding placement
  placement-end storage initial dh next copied m below = ground arith

  -- A follower whose log ends where the leader's did, places the leader's records at its end.
  stage_replica-pending :
      (storage : Storage S) (dh : S) (initial : ℕ) (p : Partition S) (force : Bool) (next : ℕ)
      (staged : Map StagedEntry) (copied ms : List Message)
      → initial ≤ next
      → next + length ms < 2 ^ 64
      → (stage p force next staged ms).failure ≡ none
      → stage_replica storage initial dh next copied (pending (stage p force next staged ms).slots)
        ≡ ok (
          pending (stage p force next staged ms).slots,
          (stage p force next staged ms).next_offset,
        )
  unfolding stage stage_replica pending
  stage_replica-pending storage dh initial p force next staged copied [] below room h = refl
  stage_replica-pending storage dh initial p force next staged copied (m ∷ ms) below room h =
      elim (Verdict-cases (validate_producer_message p m staged force)) [
        | inl (e, r) ↦ absurd (ground (arith, r))
        | inr (inl r) ↦
            rw (r, stage)
              (stage_replica-pending storage dh initial p force next staged copied ms below
                (omega arith) (ground (arith, r)))
        | inr (inr r) ↦
            let n = next_u64-below next (omega arith) in
            let m' : Message = record m { offset = next } in
            let ih =
              stage_replica-pending storage dh initial p force (next_u64 next)
                (restage p force m staged) (m' ∷ copied) ms (omega (arith, n)) (omega (arith, n))
                (ground (arith, r)) in
            let here : placement storage initial dh next copied m' ≡ place =
              placement-end storage initial dh next copied m below in
            rw (r, stage) (rw (here, stage_replica) (rw ih refl))
      ]

  -- Writes of the same records to the same storage.
  write_replica-staged :
      (storage : Storage S) (force force' : Bool) (now now' : ℕ) (p q r : Partition S) (s : Staging)
      {sent : List Message}
      → p.leo ≤ s.next_offset
      → (is_empty (pending s.slots) ≡ false) ⊎ (s.next_offset ≡ p.leo)
      → r.topic ≡ p.topic
      → r.id ≡ p.id
      → r.leo ≡ p.leo
      → r.dh ≡ p.dh
      → write_staged storage force now p s ≡ (q, sent, none)
      → ((write_replica storage force' now' r (pending s.slots) s.next_offset).1 ≡ none)
        × ((write_replica storage force' now' r (pending s.slots) s.next_offset).0.dh ≡ q.dh)
        × ((write_replica storage force' now' r (pending s.slots) s.next_offset).0.leo ≡ q.leo)
  unfolding write_staged write_replica
  write_replica-staged storage force force' now now' p q r s le e1 e2 e3 e4 e5 h =
      let batch = λ (topic : Str) (id : ℤ) (dh : S).
        storage.write_batch (map (disk_message_from_message topic id) (pending s.slots)) dh in
      let same : batch r.topic r.id r.dh ≡ batch p.topic p.id p.dh = cc (e2, e3, e5) in
      ground (arith, same)

  write_staged-good :
      (storage : Storage S) (force : Bool) (now : ℕ) (p q : Partition S) (s : Staging)
      {sent : List Message}
      → write_staged storage force now p s ≡ (q, sent, none)
      → (s.failure ≡ none) × (sent ≡ messages_of s.slots)
  unfolding write_staged
  write_staged-good storage force now p q s h = ground arith

  -- A staging that has nothing to write stays where it began.
  stage-empty :
      (p : Partition S) (force : Bool) (next : ℕ) (staged : Map StagedEntry) (ms : List Message)
      → (stage p force next staged ms).failure ≡ none
      → (is_empty (pending (stage p force next staged ms).slots) ≡ false)
        ⊎ ((stage p force next staged ms).next_offset ≡ next)
  unfolding stage pending
  stage-empty p force next staged [] h = inr refl
  stage-empty p force next staged (m ∷ ms) h =
      elim (Verdict-cases (validate_producer_message p m staged force)) [
        | inl (e, r) ↦ absurd (ground (arith, r))
        | inr (inl r) ↦ rw (r, stage) (stage-empty p force next staged ms (ground (arith, r)))
        | inr (inr r) ↦ inl (rw (r, stage) refl)
      ]

  append_error-open :
      (p r : Partition S)
      → append_error p ≡ none
      → r.id ≡ p.id
      → r.closed ≡ false
      → append_error r ≡ none
  unfolding append_error
  append_error-open p r h e c = let e' = ap is_too_large e in ground arith

  append_as_leader-accepted :
      (storage : Storage S) (ms : List Message) (force : Bool) (now : ℕ) (p q : Partition S)
      (records : List Message)
      → append_as_leader storage ms force now p ≡ (q, records, none)
      → (append_error p ≡ none)
        × ((sent : List Message) × (write_staged storage
                (force || batch_has_transactional_messages (mark_leader_offsets_unassigned ms))
                now
                p
                (stage p
                  (force || batch_has_transactional_messages (mark_leader_offsets_unassigned ms))
                  p.leo
                  []
                  (mark_leader_offsets_unassigned ms))
              ≡ (q, sent, none))
            × (records ≡ appended_leader_messages sent))
  unfolding append_as_leader enqueue_batch_leader
  append_as_leader-accepted storage ms force now p q records h =
      let marked = mark_leader_offsets_unassigned ms in
      let forced = force || batch_has_transactional_messages marked in
      let w = write_staged storage forced now p (stage p forced p.leo [] marked) in
      elim (Option-cases (append_error p)) [
        | inl e ↦ (e, (w.1, ground (arith, e), ground (arith, e)))
        | inr (x, e) ↦ absurd (ground (arith, e))
      ]

  replica_append-placed :
      (storage : Storage S) (records batch : List Message) (force : Bool) (now : ℕ)
      (r : Partition S) (end : ℕ)
      → append_error r ≡ none
      → stage_replica storage r.leo r.dh r.leo [] records ≡ ok (batch, end)
      → replica_append storage records force now r ≡ write_replica storage force now r batch end
  unfolding replica_append
  replica_append-placed storage records batch force now r end h k = ground (arith, h, k)

  -- When a leader has appended a produce request, its followers copy it: a follower of the same topic
  -- and partition that is open, whose log ends where the leader's did and whose storage is the same,
  -- accepts the records that the leader sends it, and then its log ends where the leader's does and its
  -- storage is the leader's; neither high watermark moves. The batch fits into the offsets of a uint64.
  pub replica_append-append_as_leader :
      (storage : Storage S) (ms : List Message) (force force' : Bool) (now now' : ℕ)
      (p q r : Partition S) (records : List Message)
      → p.leo + length ms < 2 ^ 64
      → r.topic ≡ p.topic
      → r.id ≡ p.id
      → r.leo ≡ p.leo
      → r.dh ≡ p.dh
      → r.closed ≡ false
      → append_as_leader storage ms force now p ≡ (q, records, none)
      → ((replica_append storage records force' now' r).1 ≡ none)
        × ((replica_append storage records force' now' r).0.dh ≡ q.dh)
        × ((replica_append storage records force' now' r).0.leo ≡ q.leo)
        × ((replica_append storage records force' now' r).0.hwm ≡ r.hwm)
        × (q.hwm ≡ p.hwm)
  replica_append-append_as_leader storage ms force force' now now' p q r records room e1 e2 e3 e4 e5
        h =
      let (open_p, (sent, w, same)) =
        append_as_leader-accepted storage ms force now p q records h in
      let marked = mark_leader_offsets_unassigned ms in
      let forced = force || batch_has_transactional_messages marked in
      let s = stage p forced p.leo [] marked in
      let n = length-marked ms in
      let b = stage-bounds p forced p.leo [] marked (omega (arith, n)) in
      let open_r = append_error-open p r open_p e2 e5 in
      let good = (write_staged-good storage forced now p q s w).0 in
      let all = (write_staged-good storage forced now p q s w).1 in
      let copy =
        write_replica-staged storage forced force' now now' p q r s b.0
          (stage-empty p forced p.leo [] marked good) e1 e2 e3 e4 w in
      let these : records ≡ pending s.slots =
        same
        ∙ ap appended_leader_messages all
        ∙ appended-pending p forced p.leo [] marked (marked-IsUnassigned ms) (omega (arith, n))
            good in
      let placed =
        stage_replica-pending storage r.dh p.leo p forced p.leo [] [] marked (omega arith)
          (omega (arith, n)) good in
      let wr =
        write_replica-end storage force' now' r (pending s.slots) s.next_offset
          (omega (arith, b.0, e3)) in
      let ws = write_staged-end storage forced now p s b.0 in
      let end : q.hwm ≡ p.hwm = cc (ap (λ x. x.0.hwm) w, ws.2) in
      let at_end : stage_replica storage r.leo r.dh r.leo [] records
          ≡ ok (pending s.slots, s.next_offset) =
        cc (placed, e3, these) in
      rw
        (replica_append-placed storage records (pending s.slots) force' now' r s.next_offset open_r
          at_end)
        (copy.0, copy.1, copy.2, wr.2, end)
