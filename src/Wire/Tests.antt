-- ===== src/Wire/Tests.antt =====
-- The round trips of pkg/wire/record.go and pkg/wire/batch.go at two messages.
use go_broker.Base.{ℕ, ◌≡◌, refl, true, none, some, List, [], ◌∷◌, ◌++◌, arith, lit, str_eq}
use go_broker.Base.Int.{pos, negsuc}
use go_broker.Wire.Message.{Message}
use go_broker.Wire.Bytes.{big_endian, to_bits, is_int}
use go_broker.Wire.Encoder.{
  ok, err, trailing_bytes, append, write_uint, write_int, write_bytes, write_if, new_encoder,
  finish_encoding, ◌▹◌,
}
use go_broker.Wire.Record.{
  transaction_fields_error, record_presence, has_flag, write_record, encode_record, decode_record,
}
use go_broker.Wire.Record.RoundTrip.{InRange, without_retries, decode_record-encode_record}
use go_broker.Wire.Batch.{
  Batch, is_batch, acks_error, with_bounds, routed, write_fields, write_head, write_messages,
  encode_batch, decode_batch,
}
use go_broker.Wire.Batch.Layout.{BatchInRange}
use go_broker.Wire.Batch.RoundTrip.{delivered_batch, decode_batch-encode_batch}

abbrev order : Message
order = record {
  topic = lit "orders";
  partition = pos 2;
  offset = 7;
  timestamp = negsuc 0;
  producer_id = lit "p";
  seq_num = 4;
  payload = lit "x";
  key = [];
  epoch = pos 1;
  event_type = [];
  schema_version = 3;
  aggregate_version = 0;
  metadata = [];
  transactional_id = lit "t";
  transaction_state = lit "open";
  transaction_marker = [];
  control_batch_type = [];
  control_batch_version = pos 0;
  control_batch_coordinator_epoch = pos 0;
  control_batch_key = some [];
  control_batch_value = none;
  retry_count = pos 5;
  retry = true;
}

order-InRange : InRange order
unfolding is_int
order-InRange = record {
  offset = omega arith;
  timestamp = refl;
  seq_num = omega arith;
  epoch = refl;
  schema_version = omega arith;
  aggregate_version = omega arith;
  control_batch_version = refl;
  coordinator_epoch = refl;
}

abbrev order_bytes : List ℕ
order_bytes =
    0 ∷ 2 ∷ 0 ∷ 0 ∷ 0 ∷ 0 ∷ 0 ∷ 0 ∷ 33 ∷ 147 ∷ 0 ∷ 0 ∷ 0 ∷ 6 ∷ 111 ∷ 114 ∷ 100 ∷ 101 ∷ 114 ∷ 115 ∷ 0
    ∷ 0 ∷ 0 ∷ 2 ∷ 0 ∷ 0 ∷ 0 ∷ 0 ∷ 0 ∷ 0 ∷ 0 ∷ 7 ∷ 0 ∷ 0 ∷ 0 ∷ 1 ∷ 120 ∷ 255 ∷ 255 ∷ 255 ∷ 255 ∷ 255
    ∷ 255 ∷ 255 ∷ 255 ∷ 0 ∷ 0 ∷ 0 ∷ 1 ∷ 112 ∷ 0 ∷ 0 ∷ 0 ∷ 0 ∷ 0 ∷ 0 ∷ 0 ∷ 4 ∷ 0 ∷ 0 ∷ 0 ∷ 0 ∷ 0 ∷ 0
    ∷ 0 ∷ 1 ∷ 0 ∷ 0 ∷ 0 ∷ 3 ∷ 0 ∷ 0 ∷ 0 ∷ 1 ∷ 116 ∷ 0 ∷ 0 ∷ 0 ∷ 4 ∷ 111 ∷ 112 ∷ 101 ∷ 110 ∷ 0 ∷ 0
    ∷ 0 ∷ 0 ∷ []

order_is_encoded : encode_record order ≡ ok order_bytes
unfolding encode_record is_int transaction_fields_error str_eq record_presence write_record has_flag
    write_if write_bytes write_int write_uint append big_endian to_bits new_encoder finish_encoding
    ◌▹◌
order_is_encoded = refl

decode_record-encode_record_example :
    (decode_record (order_bytes ++ []) ≡ ok (without_retries order))
decode_record-encode_record_example =
    decode_record-encode_record order order_bytes [] order-InRange order_is_encoded (omega arith)

-- One byte too many.
order_with_tail : decode_record (order_bytes ++ (0 ∷ [])) ≡ err trailing_bytes
order_with_tail =
    decode_record-encode_record order order_bytes (0 ∷ []) order-InRange order_is_encoded
      (omega arith)

abbrev orders : Batch
orders = record {
  topic = lit "orders";
  partition = pos 2;
  batch_start = 0;
  batch_end = 9;
  acks = lit "all";
  is_idempotent = true;
  messages = order ∷ [];
}

abbrev orders_bytes : List ℕ
orders_bytes =
    67 ∷ 66 ∷ 86 ∷ 50 ∷ 0 ∷ 2 ∷ 0 ∷ 1 ∷ 0 ∷ 0 ∷ 0 ∷ 6 ∷ 111 ∷ 114 ∷ 100 ∷ 101 ∷ 114 ∷ 115 ∷ 0 ∷ 0
    ∷ 0 ∷ 2 ∷ 0 ∷ 0 ∷ 0 ∷ 3 ∷ 97 ∷ 108 ∷ 108 ∷ 0 ∷ 0 ∷ 0 ∷ 0 ∷ 0 ∷ 0 ∷ 0 ∷ 4 ∷ 0 ∷ 0 ∷ 0 ∷ 0 ∷ 0 ∷ 0
    ∷ 0 ∷ 9 ∷ 0 ∷ 0 ∷ 0 ∷ 1 ∷ 0 ∷ 0 ∷ 0 ∷ 87 ∷ 0 ∷ 2 ∷ 0 ∷ 0 ∷ 0 ∷ 0 ∷ 0 ∷ 0 ∷ 33 ∷ 147 ∷ 0 ∷ 0 ∷ 0
    ∷ 6 ∷ 111 ∷ 114 ∷ 100 ∷ 101 ∷ 114 ∷ 115 ∷ 0 ∷ 0 ∷ 0 ∷ 2 ∷ 0 ∷ 0 ∷ 0 ∷ 0 ∷ 0 ∷ 0 ∷ 0 ∷ 7 ∷ 0 ∷ 0
    ∷ 0 ∷ 1 ∷ 120 ∷ 255 ∷ 255 ∷ 255 ∷ 255 ∷ 255 ∷ 255 ∷ 255 ∷ 255 ∷ 0 ∷ 0 ∷ 0 ∷ 1 ∷ 112 ∷ 0 ∷ 0 ∷ 0
    ∷ 0 ∷ 0 ∷ 0 ∷ 0 ∷ 4 ∷ 0 ∷ 0 ∷ 0 ∷ 0 ∷ 0 ∷ 0 ∷ 0 ∷ 1 ∷ 0 ∷ 0 ∷ 0 ∷ 3 ∷ 0 ∷ 0 ∷ 0 ∷ 1 ∷ 116 ∷ 0
    ∷ 0 ∷ 0 ∷ 4 ∷ 111 ∷ 112 ∷ 101 ∷ 110 ∷ 0 ∷ 0 ∷ 0 ∷ 0 ∷ []

orders_are_encoded : encode_batch orders ≡ ok orders_bytes
unfolding encode_batch acks_error with_bounds routed write_fields write_head write_messages
    encode_record is_int transaction_fields_error str_eq record_presence write_record has_flag
    write_if write_bytes write_int write_uint append big_endian to_bits new_encoder finish_encoding
    ◌▹◌
orders_are_encoded = refl

orders-InRange : BatchInRange orders
orders-InRange = record {
  start_bound = omega arith;
  end_bound = omega arith;
  messages = (order-InRange, tt);
}

decode_batch-encode_batch_example :
    (is_batch (orders_bytes ++ []) ≡ true)
    × (decode_batch (orders_bytes ++ []) ≡ ok (delivered_batch orders))
decode_batch-encode_batch_example =
    decode_batch-encode_batch orders orders_bytes [] orders-InRange orders_are_encoded (omega arith)
