-- ===== src/Topic/Tests.antt =====
-- Partitions on a list as storage, and the theorems about them at concrete calls.
use go_broker.Base.{
  ℕ, zero, suc, ◌+◌, ◌≤◌, ◌≡◌, refl, true, false, Bool-cases, inl, inr, none, some, List, [], ◌∷◌,
  ◌++◌, map, take, keep, length, ◌==◌, leb, lit, arith, Str, str_eq, lookup, insert,
}
use go_broker.Base.Int.{pos}
use go_broker.Wire.Message.{Message}
use go_broker.Topic.Types.{DiskMessage, Storage, Partition, next_u64}
use go_broker.Topic.Producers.{
  validate_producer_message, validate_against_producer_state, batch_has_transactional_messages,
}
use go_broker.Topic.Appends.{
  pending, stage, restage, note_written, append_error, write_staged, enqueue_batch_leader,
  replica_append,
}
use go_broker.Topic.Calls.{
  Call, lead, advance, commit_to, reconcile_to, stage_recovery, finish_recovery, reserve, run,
}
use go_broker.Topic.Bounds.{hwm_within_log}
use go_broker.Topic.Retries.{retry_appends_nothing}
use go_broker.Topic.Produce.{mark_leader_offsets_unassigned, append_as_leader}
use go_broker.Topic.Copies.{replica_append-append_as_leader}
use go_broker.Topic.Reads.{ReadResult, read_committed}
use go_broker.Topic.Scans.{begins_at, shown_by, read_limit, Sound, read_committed_ends}

message_from_disk : DiskMessage → Message
message_from_disk d = record {
  topic = d.topic;
  partition = d.partition;
  offset = d.offset;
  timestamp = pos 0;
  producer_id = d.producer_id;
  seq_num = d.seq_num;
  payload = d.payload;
  key = d.key;
  epoch = d.epoch;
  event_type = d.event_type;
  schema_version = d.schema_version;
  aggregate_version = d.aggregate_version;
  metadata = d.metadata;
  transactional_id = d.transactional_id;
  transaction_state = d.transaction_state;
  transaction_marker = d.transaction_marker;
  control_batch_type = d.control_batch_type;
  control_batch_version = d.control_batch_version;
  control_batch_coordinator_epoch = d.control_batch_coordinator_epoch;
  control_batch_key = d.control_batch_key;
  control_batch_value = d.control_batch_value;
  retry_count = pos 0;
  retry = false;
}

-- The records from the one at an offset on.
records_from : ℕ → List Message → List Message
records_from offset [] = []
records_from offset (m ∷ ms) =
    let rest = records_from offset ms in elim (m.offset == offset) [ true ↦ m ∷ ms | false ↦ rest ]

abbrev list_storage : Storage (List Message)
list_storage = record {
  read_messages = λ offset count log. some (take count (records_from offset log));
  first_offset = λ log. 0;
  absolute_offset = λ log. length log;
  flushed_offset = λ log. length log;
  write_batch = λ batch log. (log ++ map message_from_disk batch, true);
  write_compacted = λ start end batch log. (log ++ map message_from_disk batch, true);
  truncate_to = λ next log. (keep (λ m. leb (m.offset + 1) next) log, true);
}

records_from-begins_at :
    (offset count : ℕ) (log : List Message)
    → begins_at offset (some (take count (records_from offset log))) ≡ true
unfolding records_from begins_at
records_from-begins_at offset zero log = refl
records_from-begins_at offset (suc count) [] = refl
records_from-begins_at offset (suc count) (m ∷ ms) = elim (Bool-cases (m.offset == offset)) [
  | inl e ↦ rw (e, records_from) e
  | inr e ↦ rw (e, records_from) (records_from-begins_at offset (suc count) ms)
]

order : Str → ℕ → Message
order payload seq_num = record {
  topic = lit "orders";
  partition = pos 0;
  offset = 0;
  timestamp = pos 0;
  producer_id = lit "p";
  seq_num = seq_num;
  payload = payload;
  key = [];
  epoch = pos 1;
  event_type = [];
  schema_version = 0;
  aggregate_version = 0;
  metadata = [];
  transactional_id = [];
  transaction_state = [];
  transaction_marker = [];
  control_batch_type = [];
  control_batch_version = pos 0;
  control_batch_coordinator_epoch = pos 0;
  control_batch_key = none;
  control_batch_value = none;
  retry_count = pos 0;
  retry = false;
}

abbrev batch : List Message
batch = order (lit "a") 1 ∷ order (lit "b") 2 ∷ []

abbrev orders : Partition (List Message)
orders = record {
  id = pos 0;
  topic = lit "orders";
  leo = 0;
  hwm = 0;
  snapshot_recovery = false;
  recovery_checkpoint_hwm = 0;
  recovery_snapshot_hwm = 0;
  dh = [];
  closed = false;
  tracks_producers = true;
  producer_state = [];
  is_idempotent = false;
  txn_markers = [];
  txn_open_offsets = [];
  txn_retention_floor = 0;
}

abbrev filled : Partition (List Message)
filled = (enqueue_batch_leader list_storage batch true 5 orders).0

abbrev sent : List Message
sent = (enqueue_batch_leader list_storage batch true 5 orders).1

-- A leader appends, commits and reconciles.
abbrev calls : List (Call × ℕ)
calls =
    (lead batch true, 5)
    ∷ (advance, 6)
    ∷ (reserve 3, 7)
    ∷ (commit_to 4, 8)
    ∷ (reconcile_to 3, 9)
    ∷ (stage_recovery 1, 10)
    ∷ (finish_recovery 2, 11)
    ∷ []

hwm_within_log_example : (run list_storage calls orders).hwm ≤ (run list_storage calls orders).leo
hwm_within_log_example = hwm_within_log list_storage calls orders (omega arith) (omega arith)

filled-accepted : enqueue_batch_leader list_storage batch true 5 orders ≡ (filled, sent, none)
unfolding enqueue_batch_leader append_error batch_has_transactional_messages write_staged stage
    validate_producer_message validate_against_producer_state order restage pending next_u64 lookup
    insert str_eq note_written
filled-accepted = refl

retry_appends_nothing_example :
    enqueue_batch_leader list_storage batch true 9 filled ≡ (filled, batch, none)
unfolding order
retry_appends_nothing_example =
    retry_appends_nothing list_storage batch 5 9 orders filled (lit "p") (pos 1) sent refl
      ((refl, refl), ((refl, refl), tt)) filled-accepted

abbrev led : Partition (List Message)
led = (append_as_leader list_storage batch true 5 orders).0

abbrev copied : List Message
copied = (append_as_leader list_storage batch true 5 orders).1

led-accepted : append_as_leader list_storage batch true 5 orders ≡ (led, copied, none)
unfolding append_as_leader mark_leader_offsets_unassigned enqueue_batch_leader append_error
    batch_has_transactional_messages write_staged stage validate_producer_message
    validate_against_producer_state order restage pending next_u64 lookup insert str_eq note_written
led-accepted = refl

abbrev follower : Partition (List Message)
follower = record orders { is_idempotent = true; hwm = 0 }

replica_append-append_as_leader_example :
    ((replica_append list_storage copied false 6 follower).1 ≡ none)
    × ((replica_append list_storage copied false 6 follower).0.dh ≡ led.dh)
    × ((replica_append list_storage copied false 6 follower).0.leo ≡ led.leo)
    × ((replica_append list_storage copied false 6 follower).0.hwm ≡ follower.hwm)
    × (led.hwm ≡ orders.hwm)
replica_append-append_as_leader_example =
    replica_append-append_as_leader list_storage batch true false 5 6 orders led follower copied
      (omega arith) refl refl refl refl refl led-accepted

abbrev committed : Partition (List Message)
committed = record led { hwm = 2 }

read_committed_ends_example :
    (r : ReadResult) × ((read_committed list_storage (λ id epoch. none) 0 5 committed).1 ≡ some r)
    × Sound
        (shown_by list_storage (λ id epoch. none) committed)
        (read_limit list_storage (λ id epoch. none) committed)
        5
        r
read_committed_ends_example =
    read_committed_ends list_storage (λ id epoch. none) 0 5 committed records_from-begins_at
