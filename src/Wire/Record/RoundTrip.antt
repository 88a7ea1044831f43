-- ===== src/Wire/Record/RoundTrip.antt =====
-- `DecodeRecord` after `EncodeRecord`, pkg/wire/record.go.
use go_broker.Base.{
  ℕ, suc, ◌^◌, ◌<◌, ◌≤◌, ◌≡◌, refl, ◌∙◌, ap, Bool, true, false, not, ◌||◌, Option, none, some, List,
  [], ◌++◌, length, length-append, arith, Str, if◌then◌else◌, is_empty, ◌==◌, Bool-cases,
  Option-cases,
}
use go_broker.Base.Int.{ℤ, pos}
use mathlib.Core.List.{append_assoc}
use go_broker.Wire.Message.{Message}
use go_broker.Wire.Bytes.{big_endian, to_bits, is_int}
use go_broker.Wire.Encoder.{ok, err, trailing_bytes, sized, encoded, encodes}
use go_broker.Wire.Decoder.{
  at, max_frame_payload, new_decoder, Reads, >>=-Reads, last-Reads, read_int, read_if,
  read_uint-Reads, read_int-Reads, read_bytes-Reads, read_if-Reads, read_uint, read_bytes,
  finish_error,
}
use go_broker.Wire.Record.{
  record_version, nonzero, is_some, or_empty, presence_flags, record_presence,
  transaction_fields_error, encode_record, read_producer, read_slice, read_record, accept_record,
  decode_fields, decode_record,
}
use go_broker.Wire.Record.Layout.{present, field_bytes, record_bytes, write_record-Writes}
use go_broker.Wire.Record.Presence.{
  record_presence-known, has_flag-record_presence, record_presence-lt, absent_text, absent_nat,
  absent_int,
}

-- The numbers lie in the ranges of their Go types. The partition is an `int`, whose range the encoder
-- tests.
pub record InRange (m : Message) : Type 0 where
  pub offset : m.offset < 2 ^ 64
  pub timestamp : is_int 63 m.timestamp ≡ true
  pub seq_num : m.seq_num < 2 ^ 64
  pub epoch : is_int 63 m.epoch ≡ true
  pub schema_version : m.schema_version < 2 ^ 32
  pub aggregate_version : m.aggregate_version < 2 ^ 64
  pub control_batch_version : is_int 15 m.control_batch_version ≡ true
  pub coordinator_epoch : is_int 63 m.control_batch_coordinator_epoch ≡ true

-- What of a message is on the wire: not the retry fields.
unfoldable pub without_retries : Message → Message
without_retries m = record m { retry_count = pos 0; retry = false }

read_slice-Reads : (v : List ℕ) → Reads read_slice (sized v) (some v)
unfolding read_slice
read_slice-Reads v = last-Reads some (read_bytes-Reads v)

slice-Reads :
    (b : Bool) (s : Option (List ℕ))
    → b ≡ is_some s
    → Reads (read_if b read_slice none) (present b (sized (or_empty s))) s
slice-Reads b none h = read_if-Reads b (λ e. cc) (λ _. refl)
slice-Reads b (some x) h = read_if-Reads b (λ _. read_slice-Reads x) (λ e. cc)

text-Reads :
    (b : Bool) (s : Str)
    → b ≡ not (is_empty s)
    → Reads (read_if b read_bytes []) (present b (sized s)) s
text-Reads b s h = read_if-Reads b (λ _. read_bytes-Reads s) (absent_text b s h)

nat-Reads :
    (k : ℕ) (b : Bool) (n : ℕ)
    → n < 256 ^ k
    → b ≡ not (n == 0)
    → Reads (read_if b (read_uint k) 0) (present b (big_endian k n)) n
nat-Reads k b n r h = read_if-Reads b (λ _. read_uint-Reads k n r) (absent_nat b n h)

int-Reads :
    (k w : ℕ) (b : Bool) (n : ℤ)
    → 2 ^ suc w ≤ 256 ^ k
    → is_int w n ≡ true
    → b ≡ nonzero n
    → Reads (read_if b (read_int k w) (pos 0)) (present b (big_endian k (to_bits w n))) n
int-Reads k w b n fits r h = read_if-Reads b (λ _. read_int-Reads k w n r fits) (absent_int b n h)

accept_record-at :
    (m : Message) (tail : List ℕ)
    → transaction_fields_error m ≡ none
    → accept_record (m, at tail) ≡ (if is_empty tail then ok m else err trailing_bytes)
unfolding accept_record finish_error
accept_record-at m tail h = ground arith

module _ (m : Message) (v : InRange m) where
  abbrev producer : Str × ℕ × ℤ
  producer = (m.producer_id, m.seq_num, m.epoch)

  read_producer-Reads :
      Reads read_producer
        (sized m.producer_id ++ (big_endian 8 m.seq_num ++ big_endian 8 (to_bits 63 m.epoch)))
        producer
  unfolding read_producer
  read_producer-Reads = >>=-Reads _ (read_bytes-Reads m.producer_id) (
      >>=-Reads _ (read_uint-Reads 8 m.seq_num (omega (arith, v.seq_num)))
        (last-Reads _ (read_int-Reads 8 63 m.epoch v.epoch (omega arith))))

  no_producer :
      (b : Bool)
      → b ≡ (not (is_empty m.producer_id) || not (m.seq_num == 0) || nonzero m.epoch)
      → b ≡ false
      → producer ≡ ([], 0, pos 0)
  no_producer b h k =
      let text = absent_text (not (is_empty m.producer_id)) m.producer_id refl (ground arith) in
      ground arith

  producer-Reads :
      (b : Bool)
      → b ≡ (not (is_empty m.producer_id) || not (m.seq_num == 0) || nonzero m.epoch)
      → Reads
          (read_if b read_producer ([], 0, pos 0))
          (present b
            (sized m.producer_id ++ (big_endian 8 m.seq_num ++ big_endian 8 (to_bits 63 m.epoch))))
          producer
  producer-Reads b h = read_if-Reads b (λ _. read_producer-Reads) (no_producer b h)

  read_record-Reads :
      is_int 31 m.partition ≡ true
      → let p = record_presence m in Reads (read_record p) (field_bytes p m) (without_retries m)
  unfolding read_record field_bytes without_retries presence_flags
  read_record-Reads p31 =
      let p = record_presence m in
      let flag = λ (k : ℕ). has_flag-record_presence k m in
      >>=-Reads _ (read_bytes-Reads m.topic) (
        >>=-Reads _ (read_int-Reads 4 31 m.partition p31 (omega arith)) (
          >>=-Reads _ (read_uint-Reads 8 m.offset (omega (arith, v.offset))) (
            >>=-Reads _ (read_bytes-Reads m.payload) (
              >>=-Reads _ (int-Reads 8 63 _ m.timestamp (omega arith) v.timestamp (flag 0)) (
                >>=-Reads _ (producer-Reads _ (flag 1)) (
                  >>=-Reads _ (text-Reads _ m.key (flag 2)) (
                    >>=-Reads _ (text-Reads _ m.event_type (flag 3)) (
                      >>=-Reads _
                        (nat-Reads 4 _ m.schema_version (omega (arith, v.schema_version)) (flag 4))
                        (>>=-Reads _
                          (nat-Reads 8 _ m.aggregate_version (omega (arith, v.aggregate_version))
                            (flag 5))
                          (>>=-Reads _ (text-Reads _ m.metadata (flag 6)) (
                            >>=-Reads _ (text-Reads _ m.transactional_id (flag 7)) (
                              >>=-Reads _ (text-Reads _ m.transaction_state (flag 8)) (
                                >>=-Reads _ (text-Reads _ m.transaction_marker (flag 9)) (
                                  >>=-Reads _ (text-Reads _ m.control_batch_type (flag 10)) (
                                    >>=-Reads _
                                      (int-Reads 2 15 _ m.control_batch_version (omega arith)
                                        v.control_batch_version (flag 11))
                                      (>>=-Reads _
                                        (int-Reads 8 63 _ m.control_batch_coordinator_epoch
                                          (omega arith) v.coordinator_epoch (flag 12))
                                        (>>=-Reads _ (slice-Reads _ m.control_batch_key (flag 13)) (
                                          last-Reads _ (
                                            slice-Reads _ m.control_batch_value
                                              (flag 14))))))))))))))))))))

  same_transaction_fields :
      transaction_fields_error (without_retries m) ≡ transaction_fields_error m
  unfolding transaction_fields_error without_retries
  same_transaction_fields = refl

  decode_fields-append :
      (tail : List ℕ)
      → is_int 31 m.partition ≡ true
      → transaction_fields_error m ≡ none
      → length (field_bytes (record_presence m) m ++ tail) < 2 ^ 32
      → decode_fields (record_presence m) (at (field_bytes (record_presence m) m ++ tail))
        ≡ (if is_empty tail then ok (without_retries m) else err trailing_bytes)
  unfolding decode_fields
  decode_fields-append tail p31 valid short = ground (
    arith,
    ap accept_record ((read_record-Reads p31).reads tail short),
    record_presence-known m,
    accept_record-at (without_retries m) tail,
    same_transaction_fields,
  )

-- What a record that is encoded without an error consists of.
pub encode_record-bytes :
    (m : Message) (bytes : List ℕ)
    → encode_record m ≡ ok bytes
    → (is_int 31 m.partition ≡ true)
      × (transaction_fields_error m ≡ none)
      × (bytes ≡ record_bytes (record_presence m) m)
      × (length bytes ≤ max_frame_payload)
unfolding encode_record
encode_record-bytes m bytes h = ground (
  arith,
  encoded (write_record-Writes (record_presence m) m) max_frame_payload bytes,
  Bool-cases (is_int 31 m.partition),
  Option-cases (transaction_fields_error m),
)

-- A message whose partition is an int32, whose transaction fields are known words and whose bytes fit
-- in a payload is encoded.
pub encode_record-fits :
    (m : Message)
    → is_int 31 m.partition ≡ true
    → transaction_fields_error m ≡ none
    → length (record_bytes (record_presence m) m) ≤ max_frame_payload
    → encode_record m ≡ ok (record_bytes (record_presence m) m)
unfolding encode_record
encode_record-fits m p31 valid room = ground (
  arith,
  encodes (write_record-Writes (record_presence m) m) max_frame_payload (omega arith) room,
)

record_bytes-append :
    (p : ℕ) (m : Message) (tail : List ℕ)
    → record_bytes p m ++ tail
      ≡ big_endian 2 record_version ++ (big_endian 8 p ++ (field_bytes p m ++ tail))
unfolding record_bytes
record_bytes-append p m tail =
    append_assoc (big_endian 2 record_version) (big_endian 8 p ++ field_bytes p m) tail
    ∙ ap (λ x. big_endian 2 record_version ++ x)
        (append_assoc (big_endian 8 p) (field_bytes p m) tail)

decode_record-at :
    (p : ℕ) (rest : List ℕ)
    → p < 256 ^ 8
    → length (big_endian 2 record_version ++ (big_endian 8 p ++ rest)) ≤ max_frame_payload
    → decode_record (big_endian 2 record_version ++ (big_endian 8 p ++ rest))
      ≡ decode_fields p (at rest)
unfolding decode_record new_decoder
decode_record-at p rest small room =
    let after : List ℕ = big_endian 8 p ++ rest in
    let shorter = length-append (big_endian 2 record_version) after in
    let version = (read_uint-Reads 2 record_version (omega arith)).reads after (omega arith) in
    let flags = (read_uint-Reads 8 p small).reads rest (omega arith) in
    ground (arith, version, flags)

-- A message whose numbers lie in the ranges of their types, once it is encoded without an error, is
-- decoded to itself, but for the retry fields, which are not on the wire; with bytes behind it, and a
-- payload of at most 64 MiB in all, it is refused for them.
pub decode_record-encode_record :
    (m : Message) (bytes tail : List ℕ)
    → InRange m
    → encode_record m ≡ ok bytes
    → length (bytes ++ tail) ≤ max_frame_payload
    → decode_record (bytes ++ tail)
      ≡ (if is_empty tail then ok (without_retries m) else err trailing_bytes)
decode_record-encode_record m bytes tail v h room =
    let (p31, valid, same, _) = encode_record-bytes m bytes h in
    let p = record_presence m in
    let body : List ℕ = field_bytes p m ++ tail in
    let whole : bytes ++ tail ≡ big_endian 2 record_version ++ (big_endian 8 p ++ body) =
      ap (λ x. x ++ tail) same ∙ record_bytes-append p m tail in
    let size = length-append (big_endian 2 record_version) (big_endian 8 p ++ body) in
    let size' = length-append (big_endian 8 p) body in
    ap decode_record whole
    ∙ decode_record-at p body (record_presence-lt m) (omega (arith, ap length whole))
    ∙ decode_fields-append m v tail p31 valid (omega (arith, ap length whole, size, size'))
