-- ===== src/Wire/Batch/Loop.antt =====
-- The loops of `EncodeBatch` and `DecodeBatch` over the messages of a batch, pkg/wire/batch.go.
use go_broker.Base.{
  ℕ, ◌^◌, ◌<◌, ◌≡◌, inl, inr, refl, sym, ◌∙◌, ap, true, List, [], ◌∷◌, ◌++◌, length, length-append,
  arith, Str, str_eq, str_eq_refl, map, All,
}
use go_broker.Base.Int.{ℤ, int_eq, int_eq_iff}
use mathlib.Core.List.{append_assoc, append-nil}
use go_broker.Wire.Message.{Message}
use go_broker.Wire.Encoder.{
  WireResult-cases, ok, Encoder, Writes, ▹-Writes, write_bytes-Writes, write_bytes, sized, ◌▹◌,
}
use go_broker.Wire.Decoder.{at, read_bytes-Reads, read_bytes}
use go_broker.Wire.Record.{encode_record, decode_record}
use go_broker.Wire.Record.RoundTrip.{
  InRange, without_retries, encode_record-bytes, decode_record-encode_record,
}
use go_broker.Wire.Batch.{Batch, routed, write_messages, decode_messages}

-- The records are the encodings of the messages of a batch.
abbrev pub Encoded : Str → ℤ → List Message → List (List ℕ) → Type 0
Encoded topic partition [] [] = Unit
Encoded topic partition (m ∷ ms) (r ∷ rs) =
    (encode_record (routed topic partition m) ≡ ok r) × Encoded topic partition ms rs
Encoded topic partition _ _ = ⊥

unfoldable pub write_all : List (List ℕ) → Encoder → Encoder
write_all [] e = e
write_all (r ∷ rs) e = write_all rs (write_bytes r e)

unfoldable pub sized_all : List (List ℕ) → List ℕ
sized_all [] = []
sized_all (r ∷ rs) = sized r ++ sized_all rs

pub write_all-Writes : (rs : List (List ℕ)) → Writes (write_all rs) (sized_all rs)
unfolding write_all sized_all ◌▹◌
write_all-Writes [] = record {
  clean = λ e h. h;
  appends = λ e h. ground (arith, append-nil e.bytes);
  same_limit = λ e. refl;
  within = λ e h. h;
  fits = λ e h b k. h;
}
write_all-Writes (r ∷ rs) = ▹-Writes (write_bytes-Writes r) (write_all-Writes rs)

pub write_messages-Encoded :
    (topic : Str) (partition : ℤ) (ms : List Message) (e e' : Encoder)
    → write_messages topic partition ms e ≡ ok e'
    → (rs : List (List ℕ)) × Encoded topic partition ms rs × (e' ≡ write_all rs e)
unfolding write_messages write_all
write_messages-Encoded topic partition [] e e' h = ([], tt, ground arith)
write_messages-Encoded topic partition (m ∷ ms) e e' h =
    elim (WireResult-cases (encode_record (routed topic partition m))) [
      | inr (x, bad) ↦ ground arith
      | inl (r, good) ↦
          let (rs, encoded_rest, same) =
            write_messages-Encoded topic partition ms (write_bytes r e) e' (ground arith) in
          (r ∷ rs, (good, encoded_rest), same)
    ]

-- The message as it comes back: with the routing of its batch, without its retry fields.
unfoldable pub delivered : Str → ℤ → Message → Message
delivered topic partition m = without_retries (routed topic partition m)

routed-InRange :
    (topic : Str) (partition : ℤ) (m : Message) → InRange m → InRange (routed topic partition m)
unfolding routed
routed-InRange topic partition m v = record {
  offset = v.offset;
  timestamp = v.timestamp;
  seq_num = v.seq_num;
  epoch = v.epoch;
  schema_version = v.schema_version;
  aggregate_version = v.aggregate_version;
  control_batch_version = v.control_batch_version;
  coordinator_epoch = v.coordinator_epoch;
}

decode_record-routed :
    (topic : Str) (partition : ℤ) (m : Message) (r : List ℕ)
    → InRange m
    → encode_record (routed topic partition m) ≡ ok r
    → decode_record r ≡ ok (delivered topic partition m)
unfolding delivered
decode_record-routed topic partition m r v h =
    let (_, _, _, room) = encode_record-bytes (routed topic partition m) r h in
    let nil = append-nil r in
    ap decode_record (sym nil)
    ∙ decode_record-encode_record (routed topic partition m) r []
        (routed-InRange topic partition m v) h (ground arith)

same_routing :
    (topic : Str) (partition : ℤ) (m : Message)
    → (str_eq (delivered topic partition m).topic topic ≡ true)
      × (int_eq (delivered topic partition m).partition partition ≡ true)
unfolding delivered routed without_retries
same_routing topic partition m = (str_eq_refl topic, (int_eq_iff partition partition).1 refl)

module _ (b : Batch) where
  pub decode_messages-at :
      (ms : List Message) (rs : List (List ℕ)) (tail : List ℕ)
      → Encoded b.topic b.partition ms rs
      → All InRange ms
      → length (sized_all rs ++ tail) < 2 ^ 32
      → decode_messages (length ms) b (at (sized_all rs ++ tail))
        ≡ ok (map (delivered b.topic b.partition) ms, at tail)
  unfolding decode_messages sized_all
  decode_messages-at [] [] tail e v short = refl
  decode_messages-at [] (r ∷ rs) tail e v short = elim e [ ]
  decode_messages-at (m ∷ ms) [] tail e v short = elim e [ ]
  decode_messages-at (m ∷ ms) (r ∷ rs) tail e v short =
      let regroup = append_assoc (sized r) (sized_all rs) tail in
      let size = length-append (sized r) (sized_all rs ++ tail) in
      let taken =
        ap (λ x. read_bytes (at x)) regroup
        ∙ (read_bytes-Reads r).reads (sized_all rs ++ tail) (omega (arith, ap length regroup)) in
      let rest = decode_messages-at ms rs tail e.1 v.1 (omega (arith, ap length regroup)) in
      let one = decode_record-routed b.topic b.partition m r v.0 e.0 in
      ground (arith, taken, rest, one, same_routing b.topic b.partition m)
