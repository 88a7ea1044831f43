-- ===== src/Wire/Message.antt =====
-- The record schema of broker and SDK, pkg/wire/message.go. Strings are byte sequences; a signed
-- number is an integer; a byte slice that may be nil is an option.
use go_broker.Base.{
  ℕ, ◌≡◌, refl, ◌↔◌, Bool, true, ◌&&◌, Option, List, arith, Str, str_eq, str_eq_iff, str_eq_refl,
  ◌==◌, bool_eq, option_eq, option_eq_iff,
}
use mathlib.Core.Path.{subst}
use go_broker.Base.Int.{ℤ, int_eq}

pub record Message : Type 0 where
  pub topic : Str
  pub partition : ℤ  -- int
  pub offset : ℕ  -- uint64
  pub timestamp : ℤ  -- int64
  pub producer_id : Str
  pub seq_num : ℕ  -- uint64
  pub payload : Str
  pub key : Str
  pub epoch : ℤ  -- int64
  pub event_type : Str
  pub schema_version : ℕ  -- uint32
  pub aggregate_version : ℕ  -- uint64
  pub metadata : Str
  pub transactional_id : Str
  pub transaction_state : Str
  pub transaction_marker : Str
  pub control_batch_type : Str
  pub control_batch_version : ℤ  -- int16
  pub control_batch_coordinator_epoch : ℤ  -- int64
  pub control_batch_key : Option (List ℕ)
  pub control_batch_value : Option (List ℕ)
  pub retry_count : ℤ  -- int
  pub retry : Bool

same_record : Message → Message → Bool
same_record a b =
    str_eq a.topic b.topic
    && int_eq a.partition b.partition
    && a.offset == b.offset
    && int_eq a.timestamp b.timestamp
    && str_eq a.producer_id b.producer_id
    && a.seq_num == b.seq_num
    && str_eq a.payload b.payload
    && str_eq a.key b.key

same_record→eq :
    (a b : Message)
    → same_record a b ≡ true
    → (a.topic ≡ b.topic)
      × (a.partition ≡ b.partition)
      × (a.offset ≡ b.offset)
      × (a.timestamp ≡ b.timestamp)
      × (a.producer_id ≡ b.producer_id)
      × (a.seq_num ≡ b.seq_num)
      × (a.payload ≡ b.payload)
      × (a.key ≡ b.key)
unfolding same_record
same_record→eq a b h = ground (
  arith,
  str_eq_iff a.topic b.topic,
  str_eq_iff a.producer_id b.producer_id,
  str_eq_iff a.payload b.payload,
  str_eq_iff a.key b.key,
)

same_record_refl : (a : Message) → same_record a a ≡ true
unfolding same_record
same_record_refl a = ground (
  arith,
  str_eq_refl a.topic,
  str_eq_refl a.producer_id,
  str_eq_refl a.payload,
  str_eq_refl a.key,
)

same_event : Message → Message → Bool
same_event a b =
    int_eq a.epoch b.epoch
    && str_eq a.event_type b.event_type
    && a.schema_version == b.schema_version
    && a.aggregate_version == b.aggregate_version
    && str_eq a.metadata b.metadata
    && str_eq a.transactional_id b.transactional_id

same_event→eq :
    (a b : Message)
    → same_event a b ≡ true
    → (a.epoch ≡ b.epoch)
      × (a.event_type ≡ b.event_type)
      × (a.schema_version ≡ b.schema_version)
      × (a.aggregate_version ≡ b.aggregate_version)
      × (a.metadata ≡ b.metadata)
      × (a.transactional_id ≡ b.transactional_id)
unfolding same_event
same_event→eq a b h = ground (
  arith,
  str_eq_iff a.event_type b.event_type,
  str_eq_iff a.metadata b.metadata,
  str_eq_iff a.transactional_id b.transactional_id,
)

same_event_refl : (a : Message) → same_event a a ≡ true
unfolding same_event
same_event_refl a =
    ground (arith, str_eq_refl a.event_type, str_eq_refl a.metadata, str_eq_refl a.transactional_id)

same_transaction : Message → Message → Bool
same_transaction a b =
    str_eq a.transaction_state b.transaction_state
    && str_eq a.transaction_marker b.transaction_marker
    && str_eq a.control_batch_type b.control_batch_type
    && int_eq a.control_batch_version b.control_batch_version
    && int_eq a.control_batch_coordinator_epoch b.control_batch_coordinator_epoch

same_transaction→eq :
    (a b : Message)
    → same_transaction a b ≡ true
    → (a.transaction_state ≡ b.transaction_state)
      × (a.transaction_marker ≡ b.transaction_marker)
      × (a.control_batch_type ≡ b.control_batch_type)
      × (a.control_batch_version ≡ b.control_batch_version)
      × (a.control_batch_coordinator_epoch ≡ b.control_batch_coordinator_epoch)
unfolding same_transaction
same_transaction→eq a b h = ground (
  arith,
  str_eq_iff a.transaction_state b.transaction_state,
  str_eq_iff a.transaction_marker b.transaction_marker,
  str_eq_iff a.control_batch_type b.control_batch_type,
)

same_transaction_refl : (a : Message) → same_transaction a a ≡ true
unfolding same_transaction
same_transaction_refl a = ground (
  arith,
  str_eq_refl a.transaction_state,
  str_eq_refl a.transaction_marker,
  str_eq_refl a.control_batch_type,
)

same_control : Message → Message → Bool
same_control a b =
    option_eq str_eq a.control_batch_key b.control_batch_key
    && option_eq str_eq a.control_batch_value b.control_batch_value
    && int_eq a.retry_count b.retry_count
    && bool_eq a.retry b.retry

same_control→eq :
    (a b : Message)
    → same_control a b ≡ true
    → (a.control_batch_key ≡ b.control_batch_key)
      × (a.control_batch_value ≡ b.control_batch_value)
      × (a.retry_count ≡ b.retry_count)
      × (a.retry ≡ b.retry)
unfolding same_control
same_control→eq a b h = ground (
  arith,
  option_eq_iff str_eq str_eq_iff a.control_batch_key b.control_batch_key,
  option_eq_iff str_eq str_eq_iff a.control_batch_value b.control_batch_value,
)

same_control_refl : (a : Message) → same_control a a ≡ true
unfolding same_control
same_control_refl a = ground (
  arith,
  (option_eq_iff str_eq str_eq_iff a.control_batch_key a.control_batch_key).1 refl,
  (option_eq_iff str_eq str_eq_iff a.control_batch_value a.control_batch_value).1 refl,
)

-- `reflect.DeepEqual` on two messages.
pub message_eq : Message → Message → Bool
message_eq a b = same_record a b && same_event a b && same_transaction a b && same_control a b

message_eq→eq : (a b : Message) → message_eq a b ≡ true → a ≡ b
unfolding message_eq
message_eq→eq a b h =
    let ep = same_record→eq a b (ground arith) in
    let eq = same_event→eq a b (ground arith) in
    let er = same_transaction→eq a b (ground arith) in
    let es = same_control→eq a b (ground arith) in
    λ i. record {
      topic = (ep.0) i;
      partition = (ep.1) i;
      offset = (ep.2) i;
      timestamp = (ep.3) i;
      producer_id = (ep.4) i;
      seq_num = (ep.5) i;
      payload = (ep.6) i;
      key = (ep.7) i;
      epoch = (eq.0) i;
      event_type = (eq.1) i;
      schema_version = (eq.2) i;
      aggregate_version = (eq.3) i;
      metadata = (eq.4) i;
      transactional_id = (eq.5) i;
      transaction_state = (er.0) i;
      transaction_marker = (er.1) i;
      control_batch_type = (er.2) i;
      control_batch_version = (er.3) i;
      control_batch_coordinator_epoch = (er.4) i;
      control_batch_key = (es.0) i;
      control_batch_value = (es.1) i;
      retry_count = (es.2) i;
      retry = (es.3) i;
    }

message_eq_refl : (a : Message) → message_eq a a ≡ true
unfolding message_eq
message_eq_refl a =
    ground
      (arith, same_record_refl a, same_event_refl a, same_transaction_refl a, same_control_refl a)

pub message_eq_iff : (a b : Message) → (message_eq a b ≡ true) ↔ (a ≡ b)
message_eq_iff a b =
    (message_eq→eq a b, λ e. subst (λ m. message_eq a m ≡ true) e (message_eq_refl a))
