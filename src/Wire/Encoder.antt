-- ===== src/Wire/Encoder.antt =====
-- `binaryEncoder` of pkg/wire/record.go: fields appended to a payload of bounded size, with an error
-- that stays once it is set.
use go_broker.Base.{
  ℕ, ◌+◌, ◌-◌, ◌^◌, ◌≤◌, ◌<◌, ◌≡◌, ◌⊎◌, inl, inr, refl, ap, sym, ◌∙◌, Bool, true, false, Option,
  none, some, List, [], ◌++◌, length, length-append, ltb, if◌then◌else◌, arith, Bool-cases,
}
use go_broker.Base.Int.{ℤ}
use mathlib.Core.Path.{fun_ext}
use mathlib.Core.List.{append_assoc, append-nil}
use go_broker.Wire.Bytes.{big_endian, to_bits}

pub data WireError : Type 0 where
  payload_too_large field_too_long truncated unsupported_version unknown_bits : WireError
  trailing_bytes invalid_transaction_field partition_out_of_range too_many_messages : WireError
  invalid_acks invalid_magic unknown_flags routing_conflict : WireError

pub data WireResult {ℓ} (A : Type ℓ) : Type ℓ where
  ok : A → WireResult A
  err : WireError → WireResult A

pub WireResult-cases {ℓ} :
    {A : Type ℓ} (r : WireResult A) → ((a : A) × (r ≡ ok a)) ⊎ ((e : WireError) × (r ≡ err e))
WireResult-cases (ok a) = inl (a, refl)
WireResult-cases (err e) = inr (e, refl)

pub record Encoder : Type 0 where
  pub bytes : List ℕ  -- data
  pub limit : ℕ
  pub failure : Option WireError  -- err

unfoldable pub new_encoder : ℕ → Encoder
new_encoder limit = record { bytes = []; limit = limit; failure = none }

-- `append` and the copy into what it returns.
unfoldable pub append : List ℕ → Encoder → Encoder
append field e = elim e.failure [
  | some x ↦ e
  | none ↦
      if ltb (e.limit - length e.bytes) (length field)
      then record e { failure = some payload_too_large }
      else record e { bytes = e.bytes ++ field }
]

-- The `uint16`, `uint32` and `uint64` of the encoder, for 2, 4 and 8 bytes.
unfoldable pub write_uint : ℕ → ℕ → Encoder → Encoder
unfolding append
write_uint k v e = append (big_endian k v) e

-- `int16`, `int32` and `int64`, for 15, 31 and 63 bits beside the sign.
unfoldable pub write_int : ℕ → ℕ → ℤ → Encoder → Encoder
unfolding write_uint
write_int k w n e = write_uint k (to_bits w n) e

-- `bytes` and `string`
unfoldable pub write_bytes : List ℕ → Encoder → Encoder
unfolding write_uint append
write_bytes value e =
    if ltb (2 ^ 32 - 1) (length value)
    then record e { failure = some field_too_long }
    else append value (write_uint 4 (length value) e)

-- `result`
unfoldable pub finish_encoding : Encoder → WireResult (List ℕ)
finish_encoding e = elim e.failure [ some x ↦ err x | none ↦ ok e.bytes ]

-- One write after the other.
infixr 6 ◌▹◌
unfoldable pub ◌▹◌ : (Encoder → Encoder) → (Encoder → Encoder) → Encoder → Encoder
(w ▹ w') e = w' (w e)

-- A write inside an `if`.
unfoldable pub write_if : Bool → (Encoder → Encoder) → Encoder → Encoder
write_if present w e = if present then w e else e

-- What a write that leaves no error behind has done: it found none, and appended the bytes. An encoder
-- within its limit stays so. It leaves no error where the bytes fit.
pub record Writes (w : Encoder → Encoder) (bs : List ℕ) : Type 0 where
  pub clean : (e : Encoder) → (w e).failure ≡ none → e.failure ≡ none
  pub appends : (e : Encoder) → (w e).failure ≡ none → (w e).bytes ≡ e.bytes ++ bs
  pub same_limit : (e : Encoder) → (w e).limit ≡ e.limit
  pub within : (e : Encoder) → length e.bytes ≤ e.limit → length (w e).bytes ≤ (w e).limit
  pub fits :
      (e : Encoder)
      → e.failure ≡ none
      → e.limit < 2 ^ 32
      → length e.bytes + length bs ≤ e.limit
      → (w e).failure ≡ none

pub append-Writes : (bs : List ℕ) → Writes (append bs) bs
unfolding append
append-Writes bs = record {
  clean = λ e h. ground arith;
  appends = λ e h. ground arith;
  same_limit = λ e. ground arith;
  within = λ e h. ground (arith, length-append e.bytes bs);
  fits = λ e h b k. ground arith;
}

pub write_uint-Writes : (k v : ℕ) → Writes (write_uint k v) (big_endian k v)
unfolding write_uint
write_uint-Writes k v = append-Writes (big_endian k v)

pub write_int-Writes : (k w : ℕ) (n : ℤ) → Writes (write_int k w n) (big_endian k (to_bits w n))
unfolding write_int
write_int-Writes k w n = write_uint-Writes k (to_bits w n)

pub ▹-Writes :
    {w w' : Encoder → Encoder} {bs cs : List ℕ}
    → Writes w bs
    → Writes w' cs
    → Writes (w ▹ w') (bs ++ cs)
unfolding ◌▹◌
▹-Writes {w = w} {w' = w'} {bs = bs} {cs = cs} f g = record {
  clean = λ e h. f.clean e (g.clean (w e) h);
  appends = λ e h.
      g.appends (w e) h
      ∙ ap (λ x. x ++ cs) (f.appends e (g.clean (w e) h))
      ∙ append_assoc e.bytes bs cs;
  same_limit = λ e. g.same_limit (w e) ∙ f.same_limit e;
  within = λ e h. g.within (w e) (f.within e h);
  fits = λ e h b k.
      let first = f.fits e h b (omega (arith, length-append bs cs)) in
      g.fits (w e) first (omega (arith, f.same_limit e)) (
        omega (
          arith,
          f.same_limit e,
          ap length (f.appends e first),
          length-append e.bytes bs,
          length-append bs cs,
        ));
}

pub write_if-Writes :
    {w : Encoder → Encoder} {bs : List ℕ} (present : Bool)
    → Writes w bs
    → Writes (write_if present w) (if present then bs else [])
unfolding write_if
write_if-Writes true f = f
write_if-Writes false f = record {
  clean = λ e h. h;
  appends = λ e h. ground (arith, append-nil e.bytes);
  same_limit = λ e. refl;
  within = λ e h. h;
  fits = λ e h b k. h;
}

-- The bytes of a field with its length.
unfoldable pub sized : List ℕ → List ℕ
sized value = big_endian 4 (length value) ++ value

write_bytes-long :
    (value : List ℕ) (e : Encoder)
    → ltb (2 ^ 32 - 1) (length value) ≡ true
    → write_bytes value e ≡ record e { failure = some field_too_long }
unfolding write_bytes
write_bytes-long value e h = ground arith

write_bytes-short :
    (value : List ℕ)
    → ltb (2 ^ 32 - 1) (length value) ≡ false
    → write_bytes value ≡ (write_uint 4 (length value) ▹ append value)
unfolding write_bytes ◌▹◌
write_bytes-short value h = fun_ext (λ e. ground arith)

too_long-Writes :
    (value : List ℕ)
    → ltb (2 ^ 32 - 1) (length value) ≡ true
    → Writes (write_bytes value) (sized value)
unfolding sized
too_long-Writes value long = record {
  clean = λ e h. cc (write_bytes-long value e long);
  appends = λ e h. cc (write_bytes-long value e long);
  same_limit = λ e. ap (λ x. x.limit) (write_bytes-long value e long);
  within = λ e h. rw (write_bytes-long value e long) h;
  fits = λ e h b k. absurd (ground (arith, length-append (big_endian 4 (length value)) value));
}

pub write_bytes-Writes : (value : List ℕ) → Writes (write_bytes value) (sized value)
write_bytes-Writes value = elim (Bool-cases (ltb (2 ^ 32 - 1) (length value))) [
  | inl long ↦ too_long-Writes value long
  | inr short ↦
      rw (write_bytes-short value short)
        (unfold sized in ▹-Writes (write_uint-Writes 4 (length value)) (append-Writes value))
]

finished :
    (e : Encoder) (bytes : List ℕ)
    → finish_encoding e ≡ ok bytes
    → (e.failure ≡ none) × (e.bytes ≡ bytes)
unfolding finish_encoding
finished e bytes h = ground arith

module _ {w : Encoder → Encoder} {bs : List ℕ} (f : Writes w bs) (limit : ℕ) where
  -- The bytes of an encoding that ends without an error.
  pub encoded :
      (bytes : List ℕ)
      → finish_encoding (w (new_encoder limit)) ≡ ok bytes
      → (bytes ≡ bs) × (length bytes ≤ limit)
  unfolding new_encoder
  encoded bytes h =
      let e = new_encoder limit in
      let (clean, same) = finished (w e) bytes h in
      (
        sym same ∙ f.appends e clean,
        omega (arith, ap length same, f.within e (omega arith), f.same_limit e),
      )

  -- An encoding whose bytes fit ends without an error.
  pub encodes : limit < 2 ^ 32 → length bs ≤ limit → finish_encoding (w (new_encoder limit)) ≡ ok bs
  unfolding new_encoder finish_encoding
  encodes small room =
      let e = new_encoder limit in
      let clean = f.fits e refl small (omega arith) in ground (arith, f.appends e clean)
