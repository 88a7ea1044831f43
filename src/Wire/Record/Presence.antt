-- ===== src/Wire/Record/Presence.antt =====
-- The presence bits of a record, `recordPresence` of pkg/wire/record.go.
use go_broker.Base.{
  ℕ, zero, suc, ◌+◌, ◌*◌, ◌/◌, ◌^◌, ◌<◌, ◌≡◌, refl, ◌∙◌, ap, Bool, false, not, List, [], ◌∷◌,
  length, arith, Str, if◌then◌else◌, is_empty, ◌==◌,
}
use go_broker.Base.Int.{ℤ, pos}
use go_broker.Wire.Message.{Message}
use go_broker.Wire.Record.{
  nonzero, presence_flags, pack, record_presence, has_flag, has_unknown_bits,
}

abbrev pub flag_at : ℕ → List Bool → Bool
flag_at k [] = false
flag_at zero (b ∷ bs) = b
flag_at (suc k) (b ∷ bs) = flag_at k bs

has_flag-zero : (k : ℕ) → has_flag k 0 ≡ false
unfolding has_flag
has_flag-zero zero = refl
has_flag-zero (suc k) = has_flag-zero k

has_flag-pack : (k : ℕ) (bs : List Bool) → has_flag k (pack bs) ≡ flag_at k bs
unfolding has_flag pack
has_flag-pack zero [] = refl
has_flag-pack (suc k) [] = has_flag-zero k
has_flag-pack zero (b ∷ bs) = ground arith
has_flag-pack (suc k) (b ∷ bs) =
    let half : ((if b then 1 else 0) + 2 * pack bs) / 2 ≡ pack bs = ground arith in
    ap (has_flag k) half ∙ has_flag-pack k bs

pack-lt : (bs : List Bool) → pack bs < 2 ^ length bs
unfolding pack
pack-lt [] = omega arith
pack-lt (b ∷ bs) = ground (arith, pack-lt bs)

record_presence-lt_known : (m : Message) → record_presence m < 2 ^ 15
unfolding record_presence presence_flags
record_presence-lt_known m = pack-lt (presence_flags m)

pub record_presence-known : (m : Message) → has_unknown_bits (record_presence m) ≡ false
unfolding has_unknown_bits
record_presence-known m = ground (arith, record_presence-lt_known m)

pub has_flag-record_presence :
    (k : ℕ) (m : Message) → has_flag k (record_presence m) ≡ flag_at k (presence_flags m)
unfolding record_presence
has_flag-record_presence k m = has_flag-pack k (presence_flags m)

pub record_presence-lt : (m : Message) → record_presence m < 256 ^ 8
record_presence-lt m = omega (arith, record_presence-lt_known m)

pub absent_text : (b : Bool) (s : Str) → b ≡ not (is_empty s) → b ≡ false → s ≡ []
absent_text b [] h k = refl
absent_text b (x ∷ xs) h k = cc

pub absent_nat : (b : Bool) (n : ℕ) → b ≡ not (n == 0) → b ≡ false → n ≡ 0
absent_nat b n h k = ground arith

pub absent_int : (b : Bool) (n : ℤ) → b ≡ nonzero n → b ≡ false → n ≡ pos 0
absent_int b n h k = ground arith
