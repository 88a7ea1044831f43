-- ===== src/Wire/Decoder.antt =====
-- `binaryDecoder` of pkg/wire/record.go: fields read off a payload, with an error that stays once it is
-- set. `rest` is what `data` holds from `pos` on.
use go_broker.Base.{
  ℕ, suc, ◌^◌, ◌≤◌, ◌<◌, ◌≡◌, refl, ap, ◌∙◌, sym, Bool, true, false, Option, none, some, List, [],
  ◌∷◌, ◌++◌, length, length-append, take, drop, is_empty, ltb, ◌==◌, if◌then◌else◌, arith,
}
use go_broker.Base.Int.{ℤ}
use mathlib.Core.Path.{subst}
use mathlib.Core.List.{append_assoc}
use go_broker.Wire.Bytes.{
  big_endian, of_big_endian, length-big_endian, of_big_endian-big_endian, to_bits, of_bits, is_int,
  of_bits-to_bits, to_bits-lt,
}
use go_broker.Wire.Encoder.{WireError, payload_too_large, truncated, trailing_bytes, sized}

pub record Decoder : Type 0 where
  pub rest : List ℕ
  pub failure : Option WireError  -- err

abbrev pub at : List ℕ → Decoder
at xs = record { rest = xs; failure = none }

-- 64 MiB
abbrev pub max_frame_payload : ℕ
max_frame_payload = 67108864

unfoldable pub new_decoder : List ℕ → Decoder
new_decoder xs =
    if ltb max_frame_payload (length xs)
    then record { rest = []; failure = some payload_too_large }
    else at xs

abbrev pub Reader : Type 0 → Type 0
Reader A = Decoder → A × Decoder

infixl 5 ◌>>=◌
unfoldable pub ◌>>=◌ : {A B : Type 0} → Reader A → (A → Reader B) → Reader B
◌>>=◌ r f d = f (r d).0 (r d).1

unfoldable pub pure : {A : Type 0} → A → Reader A
pure a d = (a, d)

-- `take`; the empty list is nil.
unfoldable pub take_bytes : ℕ → Reader (List ℕ)
take_bytes size d = elim d.failure [
  | some x ↦ ([], d)
  | none ↦
      if ltb (length d.rest) size
      then ([], record d { failure = some truncated })
      else (take size d.rest, record d { rest = drop size d.rest })
]

-- `uint16`, `uint32` and `uint64`, for 2, 4 and 8 bytes.
unfoldable pub read_uint : ℕ → Reader ℕ
read_uint k d =
    let (field, d') = take_bytes k d in (if length field == k then of_big_endian field else 0, d')

-- `int16`, `int32` and `int64`, for 15, 31 and 63 bits beside the sign.
unfoldable pub read_int : ℕ → ℕ → Reader ℤ
read_int k w d = let (v, d') = read_uint k d in (of_bits w v, d')

-- What `bytes` does once it has the length.
unfoldable pub read_body : ℕ → Reader (List ℕ)
read_body size d = elim d.failure [
  | some x ↦ ([], d)
  | none ↦
      if ltb (length d.rest) size
      then ([], record d { failure = some truncated })
      else take_bytes size d
]

-- `bytes` and `string`; the empty list is also nil.
unfoldable pub read_bytes : Reader (List ℕ)
unfolding read_body
read_bytes = read_uint 4 >>= read_body

-- `finish`; `none` is nil.
unfoldable pub finish_error : Decoder → Option WireError
finish_error d = elim d.failure [
  | some x ↦ some x
  | none ↦ if is_empty d.rest then none else some trailing_bytes
]

-- A read inside an `if`, of a field that keeps its zero value otherwise.
unfoldable pub read_if : {A : Type 0} → Bool → Reader A → A → Reader A
read_if present r zero d = if present then r d else (zero, d)

-- The reader takes these bytes off any payload that starts with them, and gives the value. No payload
-- is 4 GiB long.
pub record Reads {A : Type 0} (r : Reader A) (bs : List ℕ) (a : A) : Type 0 where
  pub reads : (tail : List ℕ) → length (bs ++ tail) < 2 ^ 32 → r (at (bs ++ tail)) ≡ (a, at tail)

take-length-append : (xs ys : List ℕ) → take (length xs) (xs ++ ys) ≡ xs
take-length-append [] ys = refl
take-length-append (x ∷ xs) ys = ap (λ t. x ∷ t) (take-length-append xs ys)

drop-length-append : (xs ys : List ℕ) → drop (length xs) (xs ++ ys) ≡ ys
drop-length-append [] ys = refl
drop-length-append (x ∷ xs) ys = drop-length-append xs ys

take_bytes-append :
    (k : ℕ) (bs tail : List ℕ) → length bs ≡ k → take_bytes k (at (bs ++ tail)) ≡ (bs, at tail)
unfolding take_bytes
take_bytes-append k bs tail h =
    subst (λ n. take_bytes n (at (bs ++ tail)) ≡ (bs, at tail)) h
      (ground
        (arith, take-length-append bs tail, drop-length-append bs tail, length-append bs tail))

pub read_uint-Reads : (k v : ℕ) → v < 256 ^ k → Reads (read_uint k) (big_endian k v) v
unfolding read_uint
read_uint-Reads k v h = record {
  reads = λ tail short.
      let taken = take_bytes-append k (big_endian k v) tail (length-big_endian k v) in
      ap (λ t. (if length t.0 == k then of_big_endian t.0 else 0, t.1)) taken
      ∙ ground (arith, length-big_endian k v, of_big_endian-big_endian k v);
}

pub read_int-Reads :
    (k w : ℕ) (n : ℤ)
    → is_int w n ≡ true
    → 2 ^ suc w ≤ 256 ^ k
    → Reads (read_int k w) (big_endian k (to_bits w n)) n
unfolding read_int
read_int-Reads k w n h b = record {
  reads = λ tail short.
      let small : to_bits w n < 256 ^ k = omega (arith, to_bits-lt w n h) in
      ap (λ t. (of_bits w t.0, t.1)) ((read_uint-Reads k (to_bits w n) small).reads tail short)
      ∙ ground (arith, of_bits-to_bits w n);
}

pub pure-Reads : {A : Type 0} (a : A) → Reads (pure a) [] a
unfolding pure
pure-Reads a = record { reads = λ tail short. refl }

pub >>=-Reads :
    {A B : Type 0} {r : Reader A} {bs cs : List ℕ} {a : A} {b : B} (f : A → Reader B)
    → Reads r bs a
    → Reads (f a) cs b
    → Reads (r >>= f) (bs ++ cs) b
unfolding ◌>>=◌
>>=-Reads {r = r} {bs = bs} {cs = cs} f h k = record {
  reads = λ tail short.
      let regroup = append_assoc bs cs tail in
      let whole : length (bs ++ (cs ++ tail)) < 2 ^ 32 = ground (arith, regroup) in
      ap (λ x. (r >>= f) (at x)) regroup
      ∙ ap (λ t. f t.0 t.1) (h.reads (cs ++ tail) whole)
      ∙ k.reads tail (omega (arith, length-append bs (cs ++ tail)));
}

-- The last read of a block.
pub last-Reads :
    {A B : Type 0} {r : Reader A} {bs : List ℕ} {a : A} (f : A → B)
    → Reads r bs a
    → Reads (r >>= λ x. pure (f x)) bs (f a)
unfolding ◌>>=◌ pure
last-Reads f h = record { reads = λ tail short. ap (λ t. (f t.0, t.1)) (h.reads tail short) }

pub read_bytes-Reads : (bs : List ℕ) → Reads read_bytes (sized bs) bs
unfolding read_bytes sized
read_bytes-Reads bs = record {
  reads = λ tail short.
      let small : length bs < 2 ^ 32 = omega (
        arith,
        length-append (big_endian 4 (length bs) ++ bs) tail,
        length-append (big_endian 4 (length bs)) bs,
      ) in
      let body : Reads (read_body (length bs)) bs bs = record {
        reads = λ more _.
            ground (arith, take_bytes-append (length bs) bs more refl, length-append bs more);
      } in
      (>>=-Reads read_body (read_uint-Reads 4 (length bs) small) body).reads tail short;
}

pub read_if-Reads :
    {A : Type 0} {r : Reader A} {zero a : A} {bs : List ℕ} (present : Bool)
    → (present ≡ true → Reads r bs a)
    → (present ≡ false → a ≡ zero)
    → Reads (read_if present r zero) (if present then bs else []) a
unfolding read_if
read_if-Reads true h k = record { reads = λ tail short. (h refl).reads tail short }
read_if-Reads false h k = record { reads = λ tail short. ap (λ x. (x, at tail)) (sym (k refl)) }
