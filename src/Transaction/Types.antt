-- ===== src/Transaction/Types.antt =====
-- The data of pkg/transaction/manager.go: operations, transactions, snapshots and the manager.
-- Times are nanoseconds since Go's zero time. The empty slices of a
-- stored transaction are nil, since they are copies by `append` to nil; those of a snapshot may be
-- allocated. The values of the manager's map are never nil: every assignment stores a new object.
use go_broker.Base.{
  ℕ, ◌+◌, ◌%◌, ◌^◌, ◌≡◌, ◌↔◌, Bool, true, false, ◌&&◌, List, ◌==◌, arith, Str, str_eq, str_eq_iff,
  Map, Decides,
}
use go_broker.Base.Int.{ℤ, int_eq}
use go_broker.Wire.Message.{Message, message_eq, message_eq_iff}

-- The states of the source are strings. `opened` is "open"; `unknown` is any other string that a
-- decoded snapshot may hold.
pub data State : Type 0 where
  opened committing committed aborted : State
  unknown : Str → State

unfoldable pub state_eq : State → State → Bool
state_eq opened opened = true
state_eq committing committing = true
state_eq committed committed = true
state_eq aborted aborted = true
state_eq (unknown s) (unknown t) = str_eq s t
state_eq _ _ = false

pub state_eq_iff : (s t : State) → (state_eq s t ≡ true) ↔ (s ≡ t)
unfolding state_eq
state_eq_iff (unknown s) (unknown t) = ground (arith, str_eq_iff s t)
state_eq_iff s t = ground arith

pub record MessageOperation : Type 0 where
  pub topic : Str
  pub partition : ℤ
  pub message : Message

pub record OffsetOperation : Type 0 where
  pub topic : Str
  pub group : Str
  pub member : Str
  pub generation : ℤ
  pub partition : ℤ
  pub offset : ℕ

pub record Transaction : Type 0 where
  pub id : Str
  pub producer : Str
  pub epoch : ℤ  -- int64
  pub revision : ℕ  -- uint64
  pub ready : Bool
  pub expired : Bool
  pub state : State
  pub messages : List MessageOperation
  pub offsets : List OffsetOperation
  pub created_at : ℕ
  pub updated_at : ℕ

-- `messages_made` and `offsets_made`: the slice is allocated, which tells an empty one from nil.
pub record Snapshot : Type 0 where
  pub id : Str
  pub producer : Str
  pub epoch : ℤ
  pub revision : ℕ
  pub ready : Bool
  pub expired : Bool
  pub state : State
  pub messages : List MessageOperation
  pub messages_made : Bool
  pub offsets : List OffsetOperation
  pub offsets_made : Bool
  pub created_at : ℕ
  pub updated_at : ℕ

pub record Manager : Type 0 where
  pub txns : Map Transaction
  pub expiration : ℕ

-- The errors of the package, one constructor for each message.
pub data Error : Type 0 where
  missing_id missing_producer not_initialized owner_mismatch fenced epoch_not_initialized : Error
  reinitialization_required already_active not_found no_offsets scope_mismatch : Error
  offset_regression is_committing is_aborted not_prepared already_committed : Error
  invalid_identity negative_epoch missing_revision invalid_state invalid_timestamps : Error
  stale_snapshot nil_snapshot key_mismatch expired_transaction topic_in_use : Error
  not_open cannot_abort : State → Error

pub data Result {ℓ} (A : Type ℓ) : Type ℓ where
  ok : A → Result A
  err : Error → Result A

-- x + 1 on uint64.
unfoldable pub u64_succ : ℕ → ℕ
u64_succ n = (n + 1) % 2 ^ 64

unfoldable pub message_operation_eq : MessageOperation → MessageOperation → Bool
message_operation_eq a b =
    str_eq a.topic b.topic && int_eq a.partition b.partition && message_eq a.message b.message

unfoldable pub offset_operation_eq : OffsetOperation → OffsetOperation → Bool
offset_operation_eq a b =
    str_eq a.topic b.topic
    && str_eq a.group b.group
    && str_eq a.member b.member
    && int_eq a.generation b.generation
    && int_eq a.partition b.partition
    && a.offset == b.offset

pub message_operation_eq_iff : Decides message_operation_eq
unfolding message_operation_eq
message_operation_eq_iff a b =
    ground (arith, str_eq_iff a.topic b.topic, message_eq_iff a.message b.message)

pub offset_operation_eq_iff : Decides offset_operation_eq
unfolding offset_operation_eq
offset_operation_eq_iff a b =
    ground
      (arith, str_eq_iff a.topic b.topic, str_eq_iff a.group b.group, str_eq_iff a.member b.member)

-- `clone` returns an equal object with its own slices, and the model's values are not shared.
unfoldable pub clone : Transaction → Transaction
clone tx = tx

-- The slices are copies by `append` to nil, so that an empty one is nil.
unfoldable pub snapshot : Transaction → Snapshot
snapshot tx = record {
  id = tx.id;
  producer = tx.producer;
  epoch = tx.epoch;
  revision = tx.revision;
  ready = tx.ready;
  expired = tx.expired;
  state = tx.state;
  messages = tx.messages;
  messages_made = false;
  offsets = tx.offsets;
  offsets_made = false;
  created_at = tx.created_at;
  updated_at = tx.updated_at;
}

unfoldable pub transaction_from_snapshot : Snapshot → Transaction
transaction_from_snapshot snap = record {
  id = snap.id;
  producer = snap.producer;
  epoch = snap.epoch;
  revision = snap.revision;
  ready = snap.ready;
  expired = snap.expired;
  state = snap.state;
  messages = snap.messages;
  offsets = snap.offsets;
  created_at = snap.created_at;
  updated_at = snap.updated_at;
}
