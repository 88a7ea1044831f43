-- ===== src/Wire/Record.antt =====
-- `EncodeRecord` and `DecodeRecord` of pkg/wire/record.go.
use go_broker.Base.{
  ℕ, zero, suc, ◌+◌, ◌*◌, ◌/◌, ◌%◌, ◌^◌, ◌<◌, ◌≡◌, Bool, true, false, not, ◌&&◌, ◌||◌, Option, none,
  some, List, [], ◌∷◌, is_empty, ◌==◌, if◌then◌else◌, Str, str_eq, lit,
}
use go_broker.Base.Int.{ℤ, pos, int_eq}
use go_broker.Wire.Message.{Message}
use go_broker.Wire.Bytes.{is_int}
use go_broker.Wire.Encoder.{
  WireError, unsupported_version, unknown_bits, invalid_transaction_field, partition_out_of_range,
  WireResult, ok, err, Encoder, new_encoder, write_uint, write_int, write_bytes, write_if,
  finish_encoding, ◌▹◌,
}
use go_broker.Wire.Decoder.{
  Decoder, max_frame_payload, new_decoder, Reader, ◌>>=◌, pure, read_uint, read_int, read_bytes,
  read_if, finish_error,
}
pub mod Layout
pub mod Presence
pub mod RoundTrip

-- `recordVersion`
abbrev pub record_version : ℕ
record_version = 2

-- `validateTransactionFields`; `none` is nil.

unfoldable pub transaction_fields_error : Message → Option WireError
transaction_fields_error m =
    if not (
      is_empty m.transaction_state
      || str_eq m.transaction_state (lit "open")
      || str_eq m.transaction_state (lit "committed")
      || str_eq m.transaction_state (lit "aborted"))
    then some invalid_transaction_field
    else if not (
        is_empty m.transaction_marker
        || str_eq m.transaction_marker (lit "commit")
        || str_eq m.transaction_marker (lit "abort"))
    then some invalid_transaction_field
    else if not (is_empty m.control_batch_type || str_eq m.control_batch_type (lit "transaction"))
    then some invalid_transaction_field
    else none

abbrev pub is_some : Option (List ℕ) → Bool
is_some none = false
is_some (some x) = true

abbrev pub or_empty : Option (List ℕ) → List ℕ
or_empty none = []
or_empty (some x) = x

abbrev pub nonzero : ℤ → Bool
nonzero n = not (int_eq n (pos 0))

-- The tests of `recordPresence`, in the order of the bits.
unfoldable pub presence_flags : Message → List Bool
presence_flags m =
    nonzero m.timestamp
    ∷ (not (is_empty m.producer_id) || not (m.seq_num == 0) || nonzero m.epoch)
    ∷ not (is_empty m.key)
    ∷ not (is_empty m.event_type)
    ∷ not (m.schema_version == 0)
    ∷ not (m.aggregate_version == 0)
    ∷ not (is_empty m.metadata)
    ∷ not (is_empty m.transactional_id)
    ∷ not (is_empty m.transaction_state)
    ∷ not (is_empty m.transaction_marker)
    ∷ not (is_empty m.control_batch_type)
    ∷ nonzero m.control_batch_version
    ∷ nonzero m.control_batch_coordinator_epoch
    ∷ is_some m.control_batch_key
    ∷ is_some m.control_batch_value
    ∷ []

-- The bits set by `|=`, the first of the list in bit 0.
unfoldable pub pack : List Bool → ℕ
pack [] = 0
pack (b ∷ bs) = (if b then 1 else 0) + 2 * pack bs

unfoldable pub record_presence : Message → ℕ
unfolding presence_flags pack
record_presence m = pack (presence_flags m)

-- `presence & (1 << k) != 0`
unfoldable pub has_flag : ℕ → ℕ → Bool
has_flag zero presence = presence % 2 == 1
has_flag (suc k) presence = has_flag k (presence / 2)

-- `presence &^ recordKnownMask != 0`
unfoldable pub has_unknown_bits : ℕ → Bool
has_unknown_bits presence = not (presence / 2 ^ 15 == 0)

unfoldable pub write_record : ℕ → Message → Encoder → Encoder
write_record presence m =
    write_uint 2 record_version
    ▹ write_uint 8 presence
    ▹ write_bytes m.topic
    ▹ write_int 4 31 m.partition
    ▹ write_uint 8 m.offset
    ▹ write_bytes m.payload
    ▹ write_if (has_flag 0 presence) (write_int 8 63 m.timestamp)
    ▹ write_if (has_flag 1 presence)
        (write_bytes m.producer_id ▹ write_uint 8 m.seq_num ▹ write_int 8 63 m.epoch)
    ▹ write_if (has_flag 2 presence) (write_bytes m.key)
    ▹ write_if (has_flag 3 presence) (write_bytes m.event_type)
    ▹ write_if (has_flag 4 presence) (write_uint 4 m.schema_version)
    ▹ write_if (has_flag 5 presence) (write_uint 8 m.aggregate_version)
    ▹ write_if (has_flag 6 presence) (write_bytes m.metadata)
    ▹ write_if (has_flag 7 presence) (write_bytes m.transactional_id)
    ▹ write_if (has_flag 8 presence) (write_bytes m.transaction_state)
    ▹ write_if (has_flag 9 presence) (write_bytes m.transaction_marker)
    ▹ write_if (has_flag 10 presence) (write_bytes m.control_batch_type)
    ▹ write_if (has_flag 11 presence) (write_int 2 15 m.control_batch_version)
    ▹ write_if (has_flag 12 presence) (write_int 8 63 m.control_batch_coordinator_epoch)
    ▹ write_if (has_flag 13 presence) (write_bytes (or_empty m.control_batch_key))
    ▹ write_if (has_flag 14 presence) (write_bytes (or_empty m.control_batch_value))

unfoldable pub encode_record : Message → WireResult (List ℕ)
encode_record m =
    if not (is_int 31 m.partition)
    then err partition_out_of_range
    else elim (transaction_fields_error m) [
      | some e ↦ err e
      | none ↦ finish_encoding (write_record (record_presence m) m (new_encoder max_frame_payload))
    ]

unfoldable pub read_producer : Reader (Str × ℕ × ℤ)
read_producer = do
  producer_id ← read_bytes
  seq_num ← read_uint 8
  epoch ← read_int 8 63
  pure (producer_id, seq_num, epoch)

unfoldable pub read_slice : Reader (Option (List ℕ))
read_slice = do value ← read_bytes; pure (some value)

unfoldable pub read_record : ℕ → Reader Message
unfolding read_producer read_slice
read_record presence = do
  topic ← read_bytes
  partition ← read_int 4 31
  offset ← read_uint 8
  payload ← read_bytes
  timestamp ← read_if (has_flag 0 presence) (read_int 8 63) (pos 0)
  producer ← read_if (has_flag 1 presence) read_producer ([], 0, pos 0)
  key ← read_if (has_flag 2 presence) read_bytes []
  event_type ← read_if (has_flag 3 presence) read_bytes []
  schema_version ← read_if (has_flag 4 presence) (read_uint 4) 0
  aggregate_version ← read_if (has_flag 5 presence) (read_uint 8) 0
  metadata ← read_if (has_flag 6 presence) read_bytes []
  transactional_id ← read_if (has_flag 7 presence) read_bytes []
  transaction_state ← read_if (has_flag 8 presence) read_bytes []
  transaction_marker ← read_if (has_flag 9 presence) read_bytes []
  control_batch_type ← read_if (has_flag 10 presence) read_bytes []
  control_batch_version ← read_if (has_flag 11 presence) (read_int 2 15) (pos 0)
  coordinator_epoch ← read_if (has_flag 12 presence) (read_int 8 63) (pos 0)
  control_batch_key ← read_if (has_flag 13 presence) read_slice none
  control_batch_value ← read_if (has_flag 14 presence) read_slice none
  pure (record {
    topic = topic;
    partition = partition;
    offset = offset;
    timestamp = timestamp;
    producer_id = producer.0;
    seq_num = producer.1;
    payload = payload;
    key = key;
    epoch = producer.2;
    event_type = event_type;
    schema_version = schema_version;
    aggregate_version = aggregate_version;
    metadata = metadata;
    transactional_id = transactional_id;
    transaction_state = transaction_state;
    transaction_marker = transaction_marker;
    control_batch_type = control_batch_type;
    control_batch_version = control_batch_version;
    control_batch_coordinator_epoch = coordinator_epoch;
    control_batch_key = control_batch_key;
    control_batch_value = control_batch_value;
    retry_count = pos 0;
    retry = false;
  })

-- The end of `DecodeRecord`.
unfoldable pub accept_record : Message × Decoder → WireResult Message
accept_record (message, d) = elim (finish_error d) [
  | some e ↦ err e
  | none ↦ elim (transaction_fields_error message) [ some e ↦ err e | none ↦ ok message ]
]

-- `DecodeRecord` once the version and the presence bits are read.
unfoldable pub decode_fields : ℕ → Decoder → WireResult Message
decode_fields presence d =
    if has_unknown_bits presence then err unknown_bits else accept_record (read_record presence d)

unfoldable pub decode_record : List ℕ → WireResult Message
decode_record bytes =
    let (version, d) = read_uint 2 (new_decoder bytes) in
    elim d.failure [
      | some e ↦ err e
      | none ↦
          if not (version == record_version)
          then err unsupported_version
          else (let (presence, d') = read_uint 8 d in decode_fields presence d')
    ]
