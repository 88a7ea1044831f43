-- ===== src/Wire/Bytes.antt =====
-- Numbers as bytes: `binary.BigEndian` and the two's-complement conversions that pkg/wire/record.go
-- makes. A byte is a number below 256.
use go_broker.Base.{
  ℕ, zero, suc, ◌+◌, ◌-◌, ◌*◌, ◌/◌, ◌%◌, ◌^◌, ◌<◌, ◌≡◌, refl, ◌∙◌, Bool, true, List, [], ◌∷◌, ◌++◌,
  length, length-append, ltb, if◌then◌else◌, arith,
}
use go_broker.Base.Int.{ℤ, pos, negsuc}
use native.Mathlib.Nat.{mod-eq_of_lt}

-- `PutUint16`, `PutUint32` and `PutUint64`: the last `k` bytes of a number.
unfoldable pub big_endian : ℕ → ℕ → List ℕ
big_endian zero v = []
big_endian (suc k) v = big_endian k (v / 256) ++ (v % 256 ∷ [])

unfoldable pub from_bytes : ℕ → List ℕ → ℕ
from_bytes acc [] = acc
from_bytes acc (b ∷ bs) = from_bytes (acc * 256 + b) bs

-- `Uint16`, `Uint32` and `Uint64`
unfoldable pub of_big_endian : List ℕ → ℕ
unfolding from_bytes
of_big_endian bs = from_bytes 0 bs

from_bytes-append :
    (acc b : ℕ) (bs : List ℕ) → from_bytes acc (bs ++ (b ∷ [])) ≡ from_bytes acc bs * 256 + b
unfolding from_bytes
from_bytes-append acc b [] = refl
from_bytes-append acc b (c ∷ bs) = from_bytes-append (acc * 256 + c) b bs

pub length-big_endian : (k v : ℕ) → length (big_endian k v) ≡ k
unfolding big_endian
length-big_endian zero v = refl
length-big_endian (suc k) v =
    omega
      (arith, length-append (big_endian k (v / 256)) (v % 256 ∷ []), length-big_endian k (v / 256))

pub of_big_endian-big_endian : (k v : ℕ) → v < 256 ^ k → of_big_endian (big_endian k v) ≡ v
unfolding big_endian of_big_endian
of_big_endian-big_endian zero v h = omega arith
of_big_endian-big_endian (suc k) v h =
    from_bytes-append 0 (v % 256) (big_endian k (v / 256))
    ∙ (let ih = of_big_endian-big_endian k (v / 256) in
        let step : 256 ^ suc k ≡ 256 * 256 ^ k = omega arith in
        let small : v / 256 < 256 ^ k = omega arith in omega (arith, ih small))

-- The bit pattern of a signed number of `w + 1` bits, and the number of a pattern.
unfoldable pub to_bits : ℕ → ℤ → ℕ
to_bits w (pos n) = n % 2 ^ suc w
to_bits w (negsuc n) = 2 ^ suc w - 1 - n % 2 ^ suc w

unfoldable pub of_bits : ℕ → ℕ → ℤ
of_bits w v = if ltb v (2 ^ w) then pos v else negsuc (2 ^ suc w - 1 - v)

-- A number of `w + 1` bits: from -2^w to 2^w - 1.
unfoldable pub is_int : ℕ → ℤ → Bool
is_int w (pos n) = ltb n (2 ^ w)
is_int w (negsuc n) = ltb n (2 ^ w)

pub of_bits-to_bits : (w : ℕ) (n : ℤ) → is_int w n ≡ true → of_bits w (to_bits w n) ≡ n
unfolding of_bits to_bits is_int
of_bits-to_bits w (pos n) h =
    let double : 2 ^ suc w ≡ 2 * 2 ^ w = omega arith in
    let small : n < 2 ^ suc w = ground arith in ground (arith, mod-eq_of_lt small)
of_bits-to_bits w (negsuc n) h =
    let double : 2 ^ suc w ≡ 2 * 2 ^ w = omega arith in
    let small : n < 2 ^ suc w = ground arith in ground (arith, mod-eq_of_lt small)

pub to_bits-lt : (w : ℕ) (n : ℤ) → is_int w n ≡ true → to_bits w n < 2 ^ suc w
unfolding to_bits is_int
to_bits-lt w (pos n) h =
    let double : 2 ^ suc w ≡ 2 * 2 ^ w = omega arith in
    let small : n < 2 ^ suc w = ground arith in ground (arith, mod-eq_of_lt small)
to_bits-lt w (negsuc n) h = let double : 2 ^ suc w ≡ 2 * 2 ^ w = omega arith in ground arith
