-- ===== src/Wire/Batch/RoundTrip.antt =====
-- `DecodeBatch` after `EncodeBatch`, pkg/wire/batch.go.
use go_broker.Base.{
  ℕ, ◌^◌, ◌<◌, ◌≤◌, ◌≡◌, inl, inr, sym, ◌∙◌, ap, true, none, List, [], ◌++◌, length, length-append,
  is_empty, if◌then◌else◌, arith, map, All,
}
use mathlib.Core.List.{append_assoc}
use go_broker.Wire.Bytes.{big_endian, is_int, of_big_endian}
use go_broker.Wire.Encoder.{
  WireResult-cases, ok, err, trailing_bytes, ▹-Writes, encoded, new_encoder, finish_encoding, ◌▹◌,
}
use go_broker.Wire.Decoder.{at, max_frame_payload, new_decoder, read_uint-Reads, finish_error}
use go_broker.Wire.Record.RoundTrip.{InRange}
use go_broker.Wire.Batch.{
  Batch, batch_magic, batch_version, max_batch_records, is_batch, acks_error, with_bounds,
  write_head, write_messages, encode_batch, accept_batch, decode_count, decode_version,
  decode_batch,
}
use go_broker.Wire.Batch.Loop.{
  Encoded, sized_all, write_all-Writes, write_messages-Encoded, delivered, decode_messages-at,
}
use go_broker.Wire.Batch.Layout.{
  BatchInRange, field_bytes, flag_bits, head_bytes, write_head-Writes, read_head-Reads,
  with_bounds-fields, with_bounds-InRange,
}

unfoldable pub batch_bytes : Batch → List (List ℕ) → List ℕ
batch_bytes b rs = head_bytes b ++ sized_all rs

-- What a batch that is encoded without an error consists of; `b` has its bounds.
encode_batch-bytes :
    (given : Batch) (bytes : List ℕ)
    → encode_batch given ≡ ok bytes
    → let b = with_bounds given in
      (is_int 31 b.partition ≡ true)
      × (length b.messages ≤ max_batch_records)
      × (acks_error b.acks ≡ none)
      × ((rs : List (List ℕ)) × Encoded b.topic b.partition b.messages rs
          × (bytes ≡ batch_bytes b rs)
          × (length bytes ≤ max_frame_payload))
unfolding encode_batch batch_bytes ◌▹◌
encode_batch-bytes given bytes h =
    let b = with_bounds given in
    let e = write_head b (new_encoder max_frame_payload) in
    let same = with_bounds-fields given in
    elim (WireResult-cases (write_messages b.topic b.partition b.messages e)) [
      | inr (x, bad) ↦ ground arith
      | inl (e', good) ↦
          let (rs, records, written) =
            write_messages-Encoded b.topic b.partition b.messages e e' good in
          let w = ▹-Writes (write_head-Writes b) (write_all-Writes rs) in
          let done : finish_encoding e' ≡ ok bytes = ground arith in
          let (bs, room) =
            encoded w max_frame_payload bytes (ap finish_encoding (sym written) ∙ done) in
          (ground arith, ground arith, ground arith, (rs, records, bs, room))
    ]

batch_bytes-append :
    (b : Batch) (rs : List (List ℕ)) (tail : List ℕ)
    → batch_bytes b rs ++ tail
      ≡ big_endian 4 batch_magic
        ++ (big_endian 2 batch_version
            ++ (big_endian 2 (flag_bits b)
                ++ (field_bytes b ++ (big_endian 4 (length b.messages) ++ (sized_all rs ++ tail)))))
unfolding batch_bytes head_bytes
batch_bytes-append b rs tail = simp (append_assoc)

decode_version-at :
    (b : Batch) (rest : List ℕ)
    → is_int 31 b.partition ≡ true
    → BatchInRange b
    → length (big_endian 2 batch_version ++ (big_endian 2 (flag_bits b) ++ (field_bytes b ++ rest)))
      < 2 ^ 32
    → decode_version
        (at (big_endian 2 batch_version ++ (big_endian 2 (flag_bits b) ++ (field_bytes b ++ rest))))
      ≡ decode_count (record b { messages = [] }) (at rest)
unfolding decode_version
decode_version-at b rest p31 v short =
    let fields : List ℕ = field_bytes b ++ rest in
    let size = length-append (big_endian 2 batch_version) (big_endian 2 (flag_bits b) ++ fields) in
    let size' = length-append (big_endian 2 (flag_bits b)) fields in
    let small : flag_bits b < 2 = ground arith in
    let version =
      (read_uint-Reads 2 batch_version (omega arith)).reads (big_endian 2 (flag_bits b) ++ fields)
        short in
    let flags = (read_uint-Reads 2 (flag_bits b) (omega arith)).reads fields (omega arith) in
    let head = (read_head-Reads b p31 v).reads rest (omega arith) in
    ground (arith, version, flags, head)

decode_count-at :
    (b : Batch) (rs : List (List ℕ)) (tail : List ℕ)
    → acks_error b.acks ≡ none
    → length b.messages ≤ max_batch_records
    → Encoded b.topic b.partition b.messages rs
    → All InRange b.messages
    → length (big_endian 4 (length b.messages) ++ (sized_all rs ++ tail)) < 2 ^ 32
    → decode_count
        (record b { messages = [] })
        (at (big_endian 4 (length b.messages) ++ (sized_all rs ++ tail)))
      ≡ (if is_empty tail
          then ok (record b { messages = map (delivered b.topic b.partition) b.messages })
          else err trailing_bytes)
unfolding decode_count accept_batch finish_error
decode_count-at b rs tail acks few records v short =
    let n = length b.messages in
    let size = length-append (big_endian 4 n) (sized_all rs ++ tail) in
    let count = (read_uint-Reads 4 n (omega arith)).reads (sized_all rs ++ tail) short in
    let loop =
      decode_messages-at (record b { messages = [] }) b.messages rs tail records v (omega arith) in
    ground (arith, count, loop)

decode_batch-at :
    (rest : List ℕ)
    → length (big_endian 4 batch_magic ++ rest) ≤ max_frame_payload
    → decode_batch (big_endian 4 batch_magic ++ rest) ≡ decode_version (at rest)
unfolding decode_batch new_decoder
decode_batch-at rest room =
    let magic = (read_uint-Reads 4 batch_magic (omega arith)).reads rest (omega arith) in
    ground (arith, magic)

is_batch-at :
    (rest : List ℕ)
    → is_batch (big_endian 4 batch_magic ++ (big_endian 2 batch_version ++ rest)) ≡ true
unfolding is_batch big_endian of_big_endian
is_batch-at rest = ground arith

-- The batch as it comes back: with its bounds set, and each message as it is delivered.
unfoldable pub delivered_batch : Batch → Batch
delivered_batch given =
    let b = with_bounds given in
    record b { messages = map (delivered b.topic b.partition) b.messages }

-- A batch whose numbers lie in the ranges of their types, once it is encoded without an error, is known
-- as a batch and is decoded to itself, with the bounds that were missing taken from its messages and
-- each message with the topic and partition of the batch and no retry fields; with bytes behind it, and
-- a payload of at most 64 MiB in all, it is refused for them.
pub decode_batch-encode_batch :
    (given : Batch) (bytes tail : List ℕ)
    → BatchInRange given
    → encode_batch given ≡ ok bytes
    → length (bytes ++ tail) ≤ max_frame_payload
    → (is_batch (bytes ++ tail) ≡ true)
      × (decode_batch (bytes ++ tail)
          ≡ (if is_empty tail then ok (delivered_batch given) else err trailing_bytes))
unfolding delivered_batch
decode_batch-encode_batch given bytes tail range h room =
    let b = with_bounds given in
    let v = with_bounds-InRange given range in
    let (p31, few, acks, (rs, records, same, _)) = encode_batch-bytes given bytes h in
    let rest : List ℕ = big_endian 4 (length b.messages) ++ (sized_all rs ++ tail) in
    let fields : List ℕ = field_bytes b ++ rest in
    let flags : List ℕ = big_endian 2 (flag_bits b) ++ fields in
    let versioned : List ℕ = big_endian 2 batch_version ++ flags in
    let whole : bytes ++ tail ≡ big_endian 4 batch_magic ++ versioned =
      ap (λ x. x ++ tail) same ∙ batch_bytes-append b rs tail in
    let total = ap length whole in
    let s1 = length-append (big_endian 4 batch_magic) versioned in
    let s2 = length-append (big_endian 2 batch_version) flags in
    let s3 = length-append (big_endian 2 (flag_bits b)) fields in
    let s4 = length-append (field_bytes b) rest in
    (
      ap is_batch whole ∙ is_batch-at flags,
      ap decode_batch whole
          ∙ decode_batch-at versioned (omega (arith, total))
          ∙ decode_version-at b rest p31 v (omega (arith, total))
          ∙ decode_count-at b rs tail acks few records v.messages (omega (arith, total)),
    )
