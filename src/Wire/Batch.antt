-- ===== src/Wire/Batch.antt =====
-- `IsBatch`, `EncodeBatch` and `DecodeBatch` of pkg/wire/batch.go.
use go_broker.Base.{
  ℕ, zero, suc, ◌+◌, ◌-◌, ◌/◌, ◌%◌, ◌^◌, Bool, true, false, not, ◌&&◌, ◌||◌, Option, none, some,
  List, [], ◌∷◌, ◌++◌, length, take, drop, is_empty, ltb, leb, ◌==◌, if◌then◌else◌, Str, str_eq,
  lit, map,
}
use go_broker.Base.Int.{ℤ, int_eq}
use go_broker.Wire.Message.{Message}
use go_broker.Wire.Bytes.{of_big_endian, is_int}
use go_broker.Wire.Encoder.{
  WireError, field_too_long, partition_out_of_range, too_many_messages, invalid_acks, invalid_magic,
  unsupported_version, unknown_flags, routing_conflict, WireResult, ok, err, Encoder, new_encoder,
  write_uint, write_int, write_bytes, finish_encoding, ◌▹◌,
}
use go_broker.Wire.Decoder.{
  Decoder, max_frame_payload, new_decoder, Reader, ◌>>=◌, pure, read_uint, read_int, read_bytes,
  finish_error,
}
use go_broker.Wire.Record.{encode_record, decode_record}
pub mod Layout
pub mod Loop
pub mod RoundTrip

pub record Batch : Type 0 where
  pub topic : Str
  pub partition : ℤ  -- int
  pub batch_start : ℕ  -- uint64
  pub batch_end : ℕ  -- uint64
  pub acks : Str
  pub is_idempotent : Bool
  pub messages : List Message

-- `batchMagic`, `batchVersion` and `MaxBatchRecords`
abbrev pub batch_magic : ℕ
batch_magic = 0x43425632

abbrev pub batch_version : ℕ
batch_version = 2

abbrev pub max_batch_records : ℕ
max_batch_records = 100000

unfoldable pub is_batch : List ℕ → Bool
is_batch bytes =
    leb 6 (length bytes)
    && of_big_endian (take 4 bytes) == batch_magic
    && of_big_endian (take 2 (drop 4 bytes)) == batch_version

-- `validateAcks`; `none` is nil.
unfoldable pub acks_error : Str → Option WireError
acks_error acks =
    if is_empty acks
      || str_eq acks (lit "0")
      || str_eq acks (lit "1")
      || str_eq acks (lit "-1")
      || str_eq acks (lit "all")
    then none
    else some invalid_acks

abbrev pub last_seq_num : ℕ → List Message → ℕ
last_seq_num n [] = n
last_seq_num n (m ∷ ms) = last_seq_num m.seq_num ms

-- A batch with messages has the bounds that it does not give from its messages.
unfoldable pub with_bounds : Batch → Batch
with_bounds batch = elim batch.messages [
  | [] ↦ batch
  | first ∷ rest ↦ record batch {
    batch_start = if batch.batch_start == 0 then first.seq_num else batch.batch_start;
    batch_end = if batch.batch_end == 0 then last_seq_num first.seq_num rest else batch.batch_end;
  }
]

-- The message with the topic and the partition of its batch.
unfoldable pub routed : Str → ℤ → Message → Message
routed topic partition m = record m { topic = topic; partition = partition }

unfoldable pub write_fields : Batch → Encoder → Encoder
write_fields batch =
    write_bytes batch.topic
    ▹ write_int 4 31 batch.partition
    ▹ write_bytes batch.acks
    ▹ write_uint 8 batch.batch_start
    ▹ write_uint 8 batch.batch_end

unfoldable pub write_head : Batch → Encoder → Encoder
write_head batch =
    write_uint 4 batch_magic
    ▹ write_uint 2 batch_version
    ▹ write_uint 2 (if batch.is_idempotent then 1 else 0)
    ▹ write_fields batch
    ▹ write_uint 4 (length batch.messages)

unfoldable pub write_messages : Str → ℤ → List Message → Encoder → WireResult Encoder
write_messages topic partition [] e = ok e
write_messages topic partition (m ∷ ms) e = elim (encode_record (routed topic partition m)) [
  | err x ↦ err x
  | ok record_bytes ↦ write_messages topic partition ms (write_bytes record_bytes e)
]

unfoldable pub encode_batch : Batch → WireResult (List ℕ)
encode_batch given =
    if not (is_int 31 given.partition)
    then err partition_out_of_range
    else if ltb max_batch_records (length given.messages)
    then err too_many_messages
    else if ltb (2 ^ 32 - 1) (length given.messages)
    then err too_many_messages
    else elim (acks_error given.acks) [
      | some x ↦ err x
      | none ↦
          let batch = with_bounds given in
          elim (write_messages batch.topic batch.partition batch.messages
            (write_head batch (new_encoder max_frame_payload))) [
              | err x ↦ err x
              | ok e ↦ finish_encoding e
            ]
    ]

-- The fields behind the flags, with no messages yet.
unfoldable pub read_head : ℕ → Reader Batch
read_head flags = do
  topic ← read_bytes
  partition ← read_int 4 31
  acks ← read_bytes
  batch_start ← read_uint 8
  batch_end ← read_uint 8
  pure (record {
    topic = topic;
    partition = partition;
    batch_start = batch_start;
    batch_end = batch_end;
    acks = acks;
    is_idempotent = flags % 2 == 1;
    messages = [];
  })

unfoldable pub decode_messages : ℕ → Batch → Decoder → WireResult (List Message × Decoder)
decode_messages zero batch d = ok ([], d)
decode_messages (suc count) batch d =
    let (bytes, d') = read_bytes d in
    elim d'.failure [
      | some x ↦ err x
      | none ↦ elim (decode_record bytes) [
        | err x ↦ err x
        | ok message ↦
            if not (str_eq message.topic batch.topic)
              || not (int_eq message.partition batch.partition)
            then err routing_conflict
            else elim (decode_messages count batch d') [
              | err x ↦ err x
              | ok (messages, d'') ↦ ok (message ∷ messages, d'')
            ]
      ]
    ]

-- The end of `DecodeBatch`.
unfoldable pub accept_batch : Batch → WireResult (List Message × Decoder) → WireResult Batch
accept_batch batch (err x) = err x
accept_batch batch (ok (messages, d)) = elim (finish_error d) [
  | some x ↦ err x
  | none ↦ ok (record batch { messages = messages })
]

-- `DecodeBatch` behind the header fields.
unfoldable pub decode_count : Batch → Decoder → WireResult Batch
decode_count batch d = elim (acks_error batch.acks) [
  | some x ↦ err x
  | none ↦
      let (count, d') = read_uint 4 d in
      if ltb max_batch_records count
      then err too_many_messages
      else accept_batch batch (decode_messages count batch d')
]

-- `DecodeBatch` behind the version, and behind the magic number.
unfoldable pub decode_flags : Decoder → WireResult Batch
decode_flags d =
    let (flags, d') = read_uint 2 d in
    if not (flags / 2 == 0)
    then err unknown_flags
    else (let (batch, d'') = read_head flags d' in decode_count batch d'')

unfoldable pub decode_version : Decoder → WireResult Batch
unfolding decode_flags
decode_version d =
    let (version, d') = read_uint 2 d in
    if not (version == batch_version) then err unsupported_version else decode_flags d'

unfoldable pub decode_batch : List ℕ → WireResult Batch
decode_batch bytes =
    let (magic, d) = read_uint 4 (new_decoder bytes) in
    elim d.failure [
      | some x ↦ err x
      | none ↦ if not (magic == batch_magic) then err invalid_magic else decode_version d
    ]
