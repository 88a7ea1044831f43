-- ===== src/Wire/Batch/Layout.antt =====
-- The header of a batch, field by field, and the bounds that it takes from its messages,
-- pkg/wire/batch.go.
use go_broker.Base.{
  ℕ, ◌%◌, ◌^◌, ◌<◌, ◌≡◌, ◌⊎◌, inl, inr, refl, true, List, [], ◌∷◌, ◌++◌, length, ◌==◌,
  if◌then◌else◌, arith, All,
}
use mathlib.Core.Path.{subst}
use go_broker.Wire.Message.{Message}
use go_broker.Wire.Bytes.{big_endian, to_bits, is_int}
use go_broker.Wire.Encoder.{
  Writes, ▹-Writes, write_uint-Writes, write_int-Writes, write_bytes-Writes, sized,
}
use go_broker.Wire.Decoder.{
  Reads, >>=-Reads, last-Reads, read_uint-Reads, read_int-Reads, read_bytes-Reads,
}
use go_broker.Wire.Record.RoundTrip.{InRange}
use go_broker.Wire.Batch.{
  Batch, batch_magic, batch_version, with_bounds, last_seq_num, write_fields, write_head, read_head,
}

-- The numbers lie in the ranges of their Go types.
pub record BatchInRange (b : Batch) : Type 0 where
  pub start_bound : b.batch_start < 2 ^ 64
  pub end_bound : b.batch_end < 2 ^ 64
  pub messages : All InRange b.messages

unfoldable pub field_bytes : Batch → List ℕ
field_bytes b =
    sized b.topic
    ++ (big_endian 4 (to_bits 31 b.partition)
        ++ (sized b.acks ++ (big_endian 8 b.batch_start ++ big_endian 8 b.batch_end)))

abbrev pub flag_bits : Batch → ℕ
flag_bits b = if b.is_idempotent then 1 else 0

unfoldable pub head_bytes : Batch → List ℕ
head_bytes b =
    big_endian 4 batch_magic
    ++ (big_endian 2 batch_version
        ++ (big_endian 2 (flag_bits b) ++ (field_bytes b ++ big_endian 4 (length b.messages))))

write_fields-Writes : (b : Batch) → Writes (write_fields b) (field_bytes b)
unfolding write_fields field_bytes
write_fields-Writes b = ▹-Writes (write_bytes-Writes b.topic) (
    ▹-Writes (write_int-Writes 4 31 b.partition) (
      ▹-Writes (write_bytes-Writes b.acks)
        (▹-Writes (write_uint-Writes 8 b.batch_start) (write_uint-Writes 8 b.batch_end))))

pub write_head-Writes : (b : Batch) → Writes (write_head b) (head_bytes b)
unfolding write_head head_bytes
write_head-Writes b = ▹-Writes (write_uint-Writes 4 batch_magic) (
    ▹-Writes (write_uint-Writes 2 batch_version) (
      ▹-Writes (write_uint-Writes 2 (flag_bits b))
        (▹-Writes (write_fields-Writes b) (write_uint-Writes 4 (length b.messages)))))

pub read_head-Reads :
    (b : Batch)
    → is_int 31 b.partition ≡ true
    → BatchInRange b
    → Reads (read_head (flag_bits b)) (field_bytes b) (record b { messages = [] })
unfolding read_head field_bytes
read_head-Reads b p31 v =
    let same : (flag_bits b % 2 == 1) ≡ b.is_idempotent = ground arith in
    subst
      (λ x.
        Reads (read_head (flag_bits b)) (field_bytes b)
          (record b { is_idempotent = x; messages = [] }))
      same
      (>>=-Reads _ (read_bytes-Reads b.topic) (
        >>=-Reads _ (read_int-Reads 4 31 b.partition p31 (omega arith)) (
          >>=-Reads _ (read_bytes-Reads b.acks) (
            >>=-Reads _ (read_uint-Reads 8 b.batch_start (omega (arith, v.start_bound)))
              (last-Reads _ (read_uint-Reads 8 b.batch_end (omega (arith, v.end_bound))))))))

last_seq_num-lt :
    (n : ℕ) (ms : List Message) → n < 2 ^ 64 → All InRange ms → last_seq_num n ms < 2 ^ 64
last_seq_num-lt n [] h v = h
last_seq_num-lt n (m ∷ ms) h v = last_seq_num-lt m.seq_num ms v.0.seq_num v.1

List-cases :
    (ms : List Message) → (ms ≡ []) ⊎ ((m : Message) × (rest : List Message) × (ms ≡ m ∷ rest))
List-cases [] = inl refl
List-cases (m ∷ rest) = inr (m, rest, refl)

module _ (b : Batch) where
  pub with_bounds-fields :
      ((with_bounds b).topic ≡ b.topic)
      × ((with_bounds b).partition ≡ b.partition)
      × ((with_bounds b).acks ≡ b.acks)
      × ((with_bounds b).messages ≡ b.messages)
  unfolding with_bounds
  with_bounds-fields = ground arith

  pub with_bounds-InRange : BatchInRange b → BatchInRange (with_bounds b)
  unfolding with_bounds
  with_bounds-InRange v = elim (List-cases b.messages) [
    | inl empty ↦ record {
      start_bound = ground (arith, v.start_bound);
      end_bound = ground (arith, v.end_bound);
      messages = ground (arith, v.messages);
    }
    | inr (first, rest, shape) ↦
        let vs : All InRange (first ∷ rest) = subst (λ ms. All InRange ms) shape v.messages in
        record {
          start_bound = ground (arith, v.start_bound, vs.0.seq_num);
          end_bound =
              ground (arith, v.end_bound, last_seq_num-lt first.seq_num rest vs.0.seq_num vs.1);
          messages = ground (arith, v.messages);
        }
  ]
