-- ===== src/Base/Maps.antt =====
-- Go maps with string keys, as association lists. A write replaces the entry of its key in place
-- or adds one at the end; the order of entries stands for one order of Go's iteration.
use mathlib.Core.Path.{◌≡◌, refl, ap, subst}
use mathlib.Core.Logic.{inl, inr}
use mathlib.Core.Option.{Option, none, some}
use mathlib.Core.List.{List, [], ◌∷◌}
use native.Mathlib.Omega.{arith}
use go_broker.Base.Tests.{if◌then◌else◌, Bool-cases}
use go_broker.Base.Strings.{Str, str_eq, str_eq_iff, str_eq_refl}

abbrev pub Map {ℓ} : Type ℓ → Type ℓ
Map V = List (Str × V)

module _ {ℓ} {V : Type ℓ} where
  -- m[k], with the second result of Go's lookup
  unfoldable pub lookup : Str → Map V → Option V
  lookup k [] = none
  lookup k ((j, v) ∷ m) = if str_eq j k then some v else lookup k m

  -- m[k] = v
  unfoldable pub insert : Str → V → Map V → Map V
  insert k v [] = (k, v) ∷ []
  insert k v ((j, w) ∷ m) =
      let rest = insert k v m in if str_eq j k then (k, v) ∷ m else (j, w) ∷ rest

  -- delete(m, k)
  unfoldable pub erase : Str → Map V → Map V
  erase k [] = []
  erase k ((j, w) ∷ m) = let rest = erase k m in if str_eq j k then rest else (j, w) ∷ rest

  pub lookup-insert :
      (k j : Str) (v : V) (m : Map V)
      → lookup j (insert k v m) ≡ (if str_eq k j then some v else lookup j m)
  unfolding lookup insert
  lookup-insert k j v [] = refl
  lookup-insert k j v ((i, w) ∷ m) =
      ground (arith, str_eq_iff k j, str_eq_iff i k, str_eq_iff i j, lookup-insert k j v m)

  pub lookup-inserted : (k : Str) (v : V) (m : Map V) → lookup k (insert k v m) ≡ some v
  lookup-inserted k v m = ground (arith, lookup-insert k k v m, str_eq_refl k)

  pub lookup-erase :
      (k j : Str) (m : Map V) → lookup j (erase k m) ≡ (if str_eq k j then none else lookup j m)
  unfolding lookup erase
  lookup-erase k j [] = ground arith
  lookup-erase k j ((i, w) ∷ m) =
      ground (arith, str_eq_iff k j, str_eq_iff i k, str_eq_iff i j, lookup-erase k j m)

-- No key has two entries, as in every Go map.
abbrev pub Distinct {ℓ} : {V : Type ℓ} → Map V → Type ℓ
Distinct [] = Unit
Distinct ((k, v) ∷ m) = (lookup k m ≡ none) × Distinct m

module _ {ℓ} {V : Type ℓ} where
  pub Distinct-insert : (k : Str) (v : V) (m : Map V) → Distinct m → Distinct (insert k v m)
  unfolding insert
  Distinct-insert k v [] h = (unfold lookup in refl, tt)
  Distinct-insert k v ((j, w) ∷ m) h = elim (Bool-cases (str_eq j k)) [
    | inl e ↦ rw e (subst (λ i. lookup i m ≡ none) ((str_eq_iff j k).0 e) h.0, h.1)
    | inr e ↦ rw e (
      ground (arith, lookup-insert k j v m, str_eq_iff j k, str_eq_iff k j),
      Distinct-insert k v m h.1,
    )
  ]

-- Every entry satisfies the predicate.
abbrev pub Each {ℓ κ} : {V : Type ℓ} → (Str → V → Type κ) → Map V → Type κ
Each P [] = Unit
Each P ((k, v) ∷ m) = P k v × Each P m

pub Each-insert {ℓ κ} :
    {V : Type ℓ} (P : Str → V → Type κ) (k : Str) (v : V) (m : Map V)
    → Each P m
    → P k v
    → Each P (insert k v m)
unfolding insert
Each-insert P k v [] h p = (p, tt)
Each-insert P k v ((j, w) ∷ m) h p = elim (Bool-cases (str_eq j k)) [
  | inl e ↦ rw e (p, h.1)
  | inr e ↦ rw e (h.0, Each-insert P k v m h.1 p)
]

pub Each-lookup {ℓ κ} :
    {V : Type ℓ} (P : Str → V → Type κ) (k : Str) {v : V} (m : Map V)
    → Each P m
    → lookup k m ≡ some v
    → P k v
unfolding lookup
Each-lookup P k [] h e = absurd (cc)
Each-lookup P k {v} ((j, w) ∷ m) h e = elim (Bool-cases (str_eq j k)) [
  | inl same ↦ subst (λ i. P i v) ((str_eq_iff j k).0 same) (subst (P j) (ground arith) h.0)
  | inr other ↦ Each-lookup P k m h.1 (ground arith)
]

pub Each-map {ℓ κ κ'} :
    {V : Type ℓ} {P : Str → V → Type κ} {Q : Str → V → Type κ'} (m : Map V)
    → ((k : Str) (v : V) → P k v → Q k v)
    → Each P m
    → Each Q m
Each-map [] f h = tt
Each-map ((k, v) ∷ m) f h = (f k v h.0, Each-map m f h.1)

module _ {ℓ} {V : Type ℓ} where
  -- A key of the rest of a map is not the first one.
  lookup-rest :
      (k i : Str) (v w : V) (m : Map V)
      → lookup k m ≡ none
      → lookup i m ≡ some w
      → lookup i ((k, v) ∷ m) ≡ some w
  unfolding lookup
  lookup-rest k i v w m n e = elim (Bool-cases (str_eq k i)) [
    | inl same ↦ let q = (str_eq_iff k i).0 same in cc (ap (λ x. lookup x m) q)
    | inr other ↦ rw other e
  ]

  lookup-first : (k : Str) (v : V) (m : Map V) → lookup k ((k, v) ∷ m) ≡ some v
  unfolding lookup
  lookup-first k v m = rw (str_eq_refl k)

pub Each-of_lookup {ℓ κ} :
    {V : Type ℓ} (P : Str → V → Type κ) (m : Map V)
    → Distinct m
    → ((k : Str) (v : V) → lookup k m ≡ some v → P k v)
    → Each P m
Each-of_lookup P [] d f = tt
Each-of_lookup P ((k, v) ∷ m) d f = (
  f k v (lookup-first k v m),
  Each-of_lookup P m d.1 (λ i w e. f i w (lookup-rest k i v w m d.0 e)),
)

-- A write of the value that is there changes nothing.
pub insert-same {ℓ} :
    {V : Type ℓ} (k : Str) (v : V) (m : Map V) → lookup k m ≡ some v → insert k v m ≡ m
unfolding lookup insert
insert-same k v [] h = absurd (cc)
insert-same k v ((j, w) ∷ m) h = ground (arith, insert-same k v m, str_eq_iff j k)
