-- ===== src/Topic/Appends.antt =====
-- The appends of a partition in a cluster, pkg/topic/partition.go: the batches of the leader and the
-- batches that a follower copies. The time of a call is an argument.
use go_broker.Base.{
  ℕ, ◌≡◌, refl, ◌⊎◌, inl, inr, Bool, true, false, not, ◌&&◌, ◌||◌, Option, none, some, List, [],
  ◌∷◌, map, is_empty, ◌==◌, ltb, if◌then◌else◌, str_eq, Map, insert,
}
use go_broker.Base.Int.{int_eq}
use go_broker.Wire.Message.{Message}
use go_broker.Topic.Types.{
  TopicError, is_closed, partition_too_large, write_failed, offset_conflict, offset_gap,
  TopicResult, ok, err, StagedEntry, disk_message_from_message, Storage, Partition, is_too_large,
  next_u64,
}
use go_broker.Topic.Producers.{
  refuse, duplicate, fresh, validate_producer_message, update_producer_state,
  batch_has_transactional_messages,
}
use go_broker.Topic.Markers.{index_marker, index_open}

-- The batch of a leader while it is staged: each message, with whether it is to be written.
pub record Staging : Type 0 where
  pub slots : List (Bool × Message)
  pub next_offset : ℕ
  pub failure : Option TopicError

abbrev pub unwritten : List Message → List (Bool × Message)
unwritten ms = map (λ m. (false, m)) ms

abbrev pub add_slot : Bool × Message → Staging → Staging
add_slot slot s = record s { slots = slot ∷ s.slots }

-- The messages to be written, in order.
unfoldable pub pending : List (Bool × Message) → List Message
pending [] = []
pending ((true, m) ∷ slots) = m ∷ pending slots
pending ((false, m) ∷ slots) = pending slots

abbrev pub messages_of : List (Bool × Message) → List Message
messages_of slots = map (λ slot. slot.1) slots

-- A failed write takes the offsets back.
unfoldable pub take_back : List (Bool × Message) → List Message
take_back [] = []
take_back ((true, m) ∷ slots) = record m { offset = 0 } ∷ take_back slots
take_back ((false, m) ∷ slots) = m ∷ take_back slots

unfoldable pub same_bytes : Option (List ℕ) → Option (List ℕ) → Bool
same_bytes none none = true
same_bytes none (some b) = is_empty b
same_bytes (some a) none = is_empty a
same_bytes (some a) (some b) = str_eq a b

unfoldable pub same_replicated_message : Message → Message → Bool
same_replicated_message a b =
    a.offset == b.offset
    && str_eq a.producer_id b.producer_id
    && a.seq_num == b.seq_num
    && str_eq a.payload b.payload
    && str_eq a.key b.key
    && int_eq a.epoch b.epoch
    && str_eq a.event_type b.event_type
    && a.schema_version == b.schema_version
    && a.aggregate_version == b.aggregate_version
    && str_eq a.metadata b.metadata
    && str_eq a.transactional_id b.transactional_id
    && str_eq a.transaction_state b.transaction_state
    && str_eq a.transaction_marker b.transaction_marker
    && str_eq a.control_batch_type b.control_batch_type
    && int_eq a.control_batch_version b.control_batch_version
    && int_eq a.control_batch_coordinator_epoch b.control_batch_coordinator_epoch
    && same_bytes a.control_batch_key b.control_batch_key
    && same_bytes a.control_batch_value b.control_batch_value

-- `stagedByOffset` has the message under its offset, and it is the same one.
unfoldable pub is_staged : List Message → Message → Bool
is_staged [] m = false
is_staged (x ∷ xs) m =
    let rest = is_staged xs m in if x.offset == m.offset then same_replicated_message x m else rest

-- What a follower does with a message of the leader.
pub data Placement : Type 0 where
  skip place : Placement
  misplaced : TopicError → Placement

module _ {S : Type 0} where
  unfoldable pub restage : Partition S → Bool → Message → Map StagedEntry → Map StagedEntry
  restage p force m staged =
      if (p.is_idempotent || force) && not (is_empty m.producer_id) && ltb 0 m.seq_num
      then insert m.producer_id (record { last_epoch = m.epoch; last_seq = m.seq_num }) staged
      else staged

  unfoldable pub stage : Partition S → Bool → ℕ → Map StagedEntry → List Message → Staging
  stage p force next staged [] = record { slots = []; next_offset = next; failure = none }
  stage p force next staged (m ∷ ms) = elim (validate_producer_message p m staged force) [
    | refuse e ↦ record { slots = unwritten (m ∷ ms); next_offset = next; failure = some e }
    | duplicate ↦ add_slot (false, m) (stage p force next staged ms)
    | fresh ↦
        add_slot (true, record m { offset = next })
          (stage p force (next_u64 next) (restage p force m staged) ms)
  ]

  -- `updateProducerStateWithMode` and `indexTransactionMessage` on the records that are written.
  unfoldable pub note_written : (Message → Bool) → ℕ → List Message → Partition S → Partition S
  note_written force now [] p = p
  note_written force now (m ∷ ms) p = note_written force now ms (record p {
    producer_state = update_producer_state p.is_idempotent (force m) now m p.producer_state;
    txn_markers = index_marker m p.txn_markers;
    txn_open_offsets = index_open m p.txn_open_offsets;
  })

  -- Why an append is refused before it looks at the messages.
  unfoldable pub append_error : Partition S → Option TopicError
  append_error p =
      if p.closed
      then some is_closed
      else if is_too_large p.id
      then some partition_too_large
      else none

module _ {S : Type 0} (storage : Storage S) where
  -- The end of `EnqueueBatchLeaderWithMode`: the write of the staged batch.
  unfoldable pub write_staged :
      Bool → ℕ → Partition S → Staging → Partition S × List Message × Option TopicError
  write_staged force now p s = elim s.failure [
    | some e ↦ (p, messages_of s.slots, some e)
    | none ↦
        if is_empty (pending s.slots)
        then (p, messages_of s.slots, none)
        else (let batch = map (disk_message_from_message p.topic p.id) (pending s.slots) in
            let (dh, written) = storage.write_batch batch p.dh in
            if not written then (record p { dh = dh }, take_back s.slots, some write_failed) else (
              record (note_written (λ _. force) now (pending s.slots) p) {
                dh = dh;
                leo = s.next_offset;
              },
              messages_of s.slots,
              none,
            ))
  ]

  -- `EnqueueBatchLeaderWithMode`: the partition and the messages after it, and the error.
  unfoldable pub enqueue_batch_leader :
      List Message → Bool → ℕ → Partition S → Partition S × List Message × Option TopicError
  enqueue_batch_leader ms force now p = elim (append_error p) [
    | some e ↦ (p, ms, some e)
    | none ↦
        let forced = force || batch_has_transactional_messages ms in
        write_staged forced now p (stage p forced p.leo [] ms)
  ]

  -- The storage has the message under its offset.
  unfoldable pub is_stored : S → Message → Bool
  is_stored dh m = elim (storage.read_messages m.offset 1 dh) [
    | none ↦ false
    | some [] ↦ false
    | some (x ∷ xs) ↦ is_empty xs && same_replicated_message x m
  ]

  unfoldable pub placement : ℕ → S → ℕ → List Message → Message → Placement
  placement initial dh next staged m =
      if ltb m.offset initial
      then (if is_stored dh m then skip else misplaced offset_conflict)
      else if ltb m.offset next
      then (if is_staged staged m then skip else misplaced offset_conflict)
      else if ltb next m.offset
      then misplaced offset_gap
      else place

  -- The messages to be written, and the offset behind them.
  unfoldable pub stage_replica :
      ℕ → S → ℕ → List Message → List Message → TopicResult (List Message × ℕ)
  stage_replica initial dh next staged [] = ok ([], next)
  stage_replica initial dh next staged (m ∷ ms) = elim (placement initial dh next staged m) [
    | misplaced e ↦ err e
    | skip ↦ stage_replica initial dh next staged ms
    | place ↦ elim (stage_replica initial dh (next_u64 next) (m ∷ staged) ms) [
      | err e ↦ err e
      | ok (rest, end) ↦ ok (m ∷ rest, end)
    ]
  ]

  -- The end of `ReplicaAppendWithMode`
  unfoldable pub write_replica :
      Bool → ℕ → Partition S → List Message → ℕ → Partition S × Option TopicError
  write_replica force now p batch end =
      if is_empty batch
      then (p, none)
      else (let (dh, written) =
            storage.write_batch (map (disk_message_from_message p.topic p.id) batch) p.dh in
          if not written then (record p { dh = dh }, some write_failed) else (
            record (note_written (λ m. force || not (is_empty m.transactional_id)) now batch p) {
              dh = dh;
              leo = end;
            },
            none,
          ))

  -- `ReplicaAppendWithMode`
  unfoldable pub replica_append :
      List Message → Bool → ℕ → Partition S → Partition S × Option TopicError
  replica_append ms force now p = elim (append_error p) [
    | some e ↦ (p, some e)
    | none ↦ elim (stage_replica p.leo p.dh p.leo [] ms) [
      | err e ↦ (p, some e)
      | ok (batch, end) ↦ write_replica force now p batch end
    ]
  ]

pub Placement-cases :
    (v : Placement) → ((e : TopicError) × (v ≡ misplaced e)) ⊎ ((v ≡ skip) ⊎ (v ≡ place))
Placement-cases (misplaced e) = inl (e, refl)
Placement-cases skip = inr (inl refl)
Placement-cases place = inr (inr refl)
