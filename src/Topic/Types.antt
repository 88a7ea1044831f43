-- ===== src/Topic/Types.antt =====
-- The data of pkg/topic/partition.go: partitions, the state kept for producers, the storage interface
-- of pkg/types/storage.go and the records written to it, `DiskMessage` of pkg/types/message.go.
use go_broker.Base.{
  ℕ, ◌+◌, ◌-◌, ◌%◌, ◌^◌, ◌≡◌, refl, ◌⊎◌, inl, inr, Bool, false, ◌&&◌, Option, none, some, List, [],
  ◌∷◌, if◌then◌else◌, ltb, Str, str_eq, Map,
}
use go_broker.Base.Int.{ℤ, pos, negsuc, int_eq}
use go_broker.Wire.Message.{Message}

pub data TopicError : Type 0 where
  is_closed partition_too_large stale_producer_epoch idempotency_gap first_sequence : TopicError
  missing_sequence write_failed offset_conflict offset_gap ahead_of_leo behind_watermark :
      TopicError
  recovery_pending boundary_changed truncate_failed reservation_overflow : TopicError
  invalid_range invalid_range_offset : TopicError

-- A value, or the error that was returned.
pub data TopicResult {ℓ} (A : Type ℓ) : Type ℓ where
  ok : A → TopicResult A
  err : TopicError → TopicResult A

pub record ProducerEntry : Type 0 where
  pub last_epoch : ℤ  -- int64
  pub last_seq : ℕ  -- uint64
  pub last_seen : ℕ

-- `stagedProducerEntry`
pub record StagedEntry : Type 0 where
  pub last_epoch : ℤ
  pub last_seq : ℕ

pub record DiskMessage : Type 0 where
  pub topic : Str
  pub partition : ℤ  -- int32
  pub offset : ℕ
  pub producer_id : Str
  pub seq_num : ℕ
  pub epoch : ℤ
  pub payload : Str
  pub key : Str
  pub event_type : Str
  pub schema_version : ℕ
  pub aggregate_version : ℕ
  pub metadata : Str
  pub transactional_id : Str
  pub transaction_state : Str
  pub transaction_marker : Str
  pub control_batch_type : Str
  pub control_batch_version : ℤ
  pub control_batch_coordinator_epoch : ℤ
  pub control_batch_key : Option (List ℕ)
  pub control_batch_value : Option (List ℕ)

unfoldable pub disk_message_from_message : Str → ℤ → Message → DiskMessage
disk_message_from_message topic partition m = record {
  topic = topic;
  partition = partition;
  offset = m.offset;
  producer_id = m.producer_id;
  seq_num = m.seq_num;
  epoch = m.epoch;
  payload = m.payload;
  key = m.key;
  event_type = m.event_type;
  schema_version = m.schema_version;
  aggregate_version = m.aggregate_version;
  metadata = m.metadata;
  transactional_id = m.transactional_id;
  transaction_state = m.transaction_state;
  transaction_marker = m.transaction_marker;
  control_batch_type = m.control_batch_type;
  control_batch_version = m.control_batch_version;
  control_batch_coordinator_epoch = m.control_batch_coordinator_epoch;
  control_batch_key = m.control_batch_key;
  control_batch_value = m.control_batch_value;
}

-- The operations of a storage handler with the state S that partitions use. A read that fails is
-- `none`; a write gives the state after it and whether it returned no error.
pub record Storage (S : Type 0) : Type 0 where
  pub read_messages : ℕ → ℕ → S → Option (List Message)
  pub first_offset : S → ℕ
  pub absolute_offset : S → ℕ
  pub flushed_offset : S → ℕ
  pub write_batch : List DiskMessage → S → S × Bool
  pub write_compacted : ℕ → ℕ → List DiskMessage → S → S × Bool
  pub truncate_to : ℕ → S → S × Bool

-- `transactionMarkerKey`: transactional identifier and epoch
abbrev pub MarkerKey : Type 0
MarkerKey = Str × ℤ

pub record MarkerInfo : Type 0 where
  pub marker : Str
  pub offset : ℕ

-- A Go map with marker keys
abbrev pub MarkerMap {ℓ} : Type ℓ → Type ℓ
MarkerMap V = List (MarkerKey × V)

abbrev pub same_key : MarkerKey → MarkerKey → Bool
same_key (i, e) (j, f) = str_eq i j && int_eq e f

module _ {ℓ} {V : Type ℓ} where
  unfoldable pub marked : MarkerKey → MarkerMap V → Option V
  marked k [] = none
  marked k ((j, v) ∷ m) = if same_key j k then some v else marked k m

  unfoldable pub mark : MarkerKey → V → MarkerMap V → MarkerMap V
  mark k v [] = (k, v) ∷ []
  mark k v ((j, w) ∷ m) =
      let rest = mark k v m in if same_key j k then (k, v) ∷ m else (j, w) ∷ rest

pub record Partition (S : Type 0) : Type 0 where
  pub id : ℤ  -- int
  pub topic : Str
  pub leo : ℕ  -- uint64
  pub hwm : ℕ  -- uint64
  pub snapshot_recovery : Bool
  pub recovery_checkpoint_hwm : ℕ
  pub recovery_snapshot_hwm : ℕ
  pub dh : S
  pub closed : Bool
  pub tracks_producers : Bool  -- `producerStateCh` is not nil
  pub producer_state : Map ProducerEntry
  pub is_idempotent : Bool
  pub txn_markers : MarkerMap MarkerInfo
  pub txn_open_offsets : MarkerMap ℕ
  pub txn_retention_floor : ℕ

-- `id > math.MaxInt32`
abbrev pub is_too_large : ℤ → Bool
is_too_large (pos n) = ltb (2 ^ 31 - 1) n
is_too_large (negsuc n) = false

-- x + 1 on uint64
unfoldable pub next_u64 : ℕ → ℕ
next_u64 n = (n + 1) % 2 ^ 64

pub TopicResult-cases {ℓ} :
    {A : Type ℓ} (r : TopicResult A) → ((e : TopicError) × (r ≡ err e)) ⊎ ((a : A) × (r ≡ ok a))
TopicResult-cases (err e) = inl (e, refl)
TopicResult-cases (ok a) = inr (a, refl)
