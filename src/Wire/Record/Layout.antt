-- ===== src/Wire/Record/Layout.antt =====
-- The bytes of a record, field by field, as `EncodeRecord` of pkg/wire/record.go writes them and
-- `DecodeRecord` reads them.
use go_broker.Base.{ℕ, Bool, List, [], ◌++◌, if◌then◌else◌}
use go_broker.Wire.Message.{Message}
use go_broker.Wire.Bytes.{big_endian, to_bits}
use go_broker.Wire.Encoder.{
  Writes, ▹-Writes, write_uint-Writes, write_int-Writes, write_bytes-Writes, write_if-Writes, sized,
}
use go_broker.Wire.Record.{record_version, or_empty, has_flag, write_record}

abbrev pub present : Bool → List ℕ → List ℕ
present b bs = if b then bs else []

-- The fields behind the presence bits.
unfoldable pub field_bytes : ℕ → Message → List ℕ
field_bytes p m =
    sized m.topic
    ++ (big_endian 4 (to_bits 31 m.partition)
        ++ (big_endian 8 m.offset
            ++ (sized m.payload
                ++ (present (has_flag 0 p) (big_endian 8 (to_bits 63 m.timestamp))
                    ++ (present (has_flag 1 p) (
                          sized m.producer_id
                          ++ (big_endian 8 m.seq_num ++ big_endian 8 (to_bits 63 m.epoch)))
                        ++ (present (has_flag 2 p) (sized m.key)
                            ++ (present (has_flag 3 p) (sized m.event_type)
                                ++ (present (has_flag 4 p) (big_endian 4 m.schema_version)
                                    ++ (present (has_flag 5 p) (big_endian 8 m.aggregate_version)
                                        ++ (present (has_flag 6 p) (sized m.metadata)
                                            ++ (present (has_flag 7 p) (sized m.transactional_id)
                                                ++ (present (has_flag 8 p)
                                                      (sized m.transaction_state)
                                                    ++ (present (has_flag 9 p)
                                                          (sized m.transaction_marker)
                                                        ++ (present (has_flag 10 p)
                                                            (sized m.control_batch_type)
                                                            ++ (present (has_flag 11 p) (
                                                            big_endian 2
                                                            (to_bits 15 m.control_batch_version))
                                                            ++ (present (has_flag 12 p) (
                                                            big_endian 8 (
                                                            to_bits 63
                                                            m.control_batch_coordinator_epoch))
                                                            ++ (present (has_flag 13 p)
                                                            (sized (or_empty m.control_batch_key))
                                                            ++ present (has_flag 14 p) (
                                                            sized (
                                                            or_empty
                                                            m.control_batch_value)))))))))))))))))))

unfoldable pub record_bytes : ℕ → Message → List ℕ
record_bytes p m = big_endian 2 record_version ++ (big_endian 8 p ++ field_bytes p m)

pub write_record-Writes : (p : ℕ) (m : Message) → Writes (write_record p m) (record_bytes p m)
unfolding write_record record_bytes field_bytes
write_record-Writes p m = ▹-Writes (write_uint-Writes 2 record_version) (
    ▹-Writes (write_uint-Writes 8 p) (
      ▹-Writes (write_bytes-Writes m.topic) (
        ▹-Writes (write_int-Writes 4 31 m.partition) (
          ▹-Writes (write_uint-Writes 8 m.offset) (
            ▹-Writes (write_bytes-Writes m.payload) (
              ▹-Writes (write_if-Writes (has_flag 0 p) (write_int-Writes 8 63 m.timestamp)) (
                ▹-Writes
                  (write_if-Writes (has_flag 1 p) (
                    ▹-Writes (write_bytes-Writes m.producer_id)
                      (▹-Writes (write_uint-Writes 8 m.seq_num) (write_int-Writes 8 63 m.epoch))))
                  (▹-Writes (write_if-Writes (has_flag 2 p) (write_bytes-Writes m.key)) (
                    ▹-Writes (write_if-Writes (has_flag 3 p) (write_bytes-Writes m.event_type)) (
                      ▹-Writes
                        (write_if-Writes (has_flag 4 p) (write_uint-Writes 4 m.schema_version))
                        (▹-Writes
                          (write_if-Writes (has_flag 5 p) (write_uint-Writes 8 m.aggregate_version))
                          (▹-Writes (write_if-Writes (has_flag 6 p) (write_bytes-Writes m.metadata))
                            (▹-Writes
                              (write_if-Writes (has_flag 7 p)
                                (write_bytes-Writes m.transactional_id))
                              (▹-Writes
                                (write_if-Writes (has_flag 8 p)
                                  (write_bytes-Writes m.transaction_state))
                                (▹-Writes
                                  (write_if-Writes (has_flag 9 p)
                                    (write_bytes-Writes m.transaction_marker))
                                  (▹-Writes
                                    (write_if-Writes (has_flag 10 p)
                                      (write_bytes-Writes m.control_batch_type))
                                    (▹-Writes
                                      (write_if-Writes (has_flag 11 p)
                                        (write_int-Writes 2 15 m.control_batch_version))
                                      (▹-Writes
                                        (write_if-Writes (has_flag 12 p)
                                          (write_int-Writes 8 63 m.control_batch_coordinator_epoch))
                                        (▹-Writes
                                          (write_if-Writes (has_flag 13 p)
                                            (write_bytes-Writes (or_empty m.control_batch_key)))
                                          (write_if-Writes (has_flag 14 p) (
                                            write_bytes-Writes
                                              (or_empty m.control_batch_value))))))))))))))))))))))
