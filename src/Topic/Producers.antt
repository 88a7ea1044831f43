-- ===== src/Topic/Producers.antt =====
-- The checks and the state of idempotent producers in pkg/topic/partition.go.
use go_broker.Base.{
  ℕ, ◌≡◌, refl, ◌⊎◌, inl, inr, Bool, true, not, ◌&&◌, ◌||◌, none, some, List, is_empty, ◌==◌, leb,
  if◌then◌else◌, any, Map, lookup, insert,
}
use go_broker.Base.Int.{ℤ, int_eq, int_lt}
use go_broker.Wire.Message.{Message}
use go_broker.Topic.Types.{
  TopicError, stale_producer_epoch, idempotency_gap, first_sequence, missing_sequence,
  ProducerEntry, StagedEntry, Partition, next_u64,
}

-- What the checks say of a message: the error that is returned, or whether it is a duplicate.
pub data Verdict : Type 0 where
  refuse : TopicError → Verdict
  duplicate fresh : Verdict

unfoldable pub validate_against_producer_state : Message → ℤ → ℕ → Bool → Verdict
validate_against_producer_state m last_epoch last_seq allow_duplicate =
    if int_lt m.epoch last_epoch
    then refuse stale_producer_epoch
    else if int_eq m.epoch last_epoch
    then (if allow_duplicate && leb m.seq_num last_seq
        then duplicate
        else if not (m.seq_num == next_u64 last_seq)
        then refuse idempotency_gap
        else fresh)
    else if not (m.seq_num == 1)
    then refuse first_sequence
    else fresh

-- `validateProducerMessageWithStage`; a nil map of staged entries is an empty one.
unfoldable pub validate_producer_message :
    {S : Type 0} → Partition S → Message → Map StagedEntry → Bool → Verdict
validate_producer_message p m staged force =
    if not p.is_idempotent && not force
    then fresh
    else if is_empty m.producer_id
    then fresh
    else if m.seq_num == 0
    then (if force then refuse missing_sequence else fresh)
    else elim (lookup m.producer_id staged) [
      | some entry ↦ validate_against_producer_state m entry.last_epoch entry.last_seq true
      | none ↦ elim (lookup m.producer_id p.producer_state) [
        | some entry ↦ validate_against_producer_state m entry.last_epoch entry.last_seq true
        | none ↦ if not (m.seq_num == 1) then refuse first_sequence else fresh
      ]
    ]

-- `updateProducerStateWithMode`, on the map of producers; `idempotent` is the partition's setting.
unfoldable pub update_producer_state :
    Bool → Bool → ℕ → Message → Map ProducerEntry → Map ProducerEntry
update_producer_state idempotent force now m state =
    if (not idempotent && not force) || is_empty m.producer_id
    then state
    else insert m.producer_id
        (record { last_epoch = m.epoch; last_seq = m.seq_num; last_seen = now }) state

unfoldable pub batch_has_transactional_messages : List Message → Bool
batch_has_transactional_messages ms = any (λ m. not (is_empty m.transactional_id)) ms

pub Verdict-cases :
    (v : Verdict) → ((e : TopicError) × (v ≡ refuse e)) ⊎ ((v ≡ duplicate) ⊎ (v ≡ fresh))
Verdict-cases (refuse e) = inl (e, refl)
Verdict-cases duplicate = inr (inl refl)
Verdict-cases fresh = inr (inr refl)
