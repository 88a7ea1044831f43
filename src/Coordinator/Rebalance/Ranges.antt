-- ===== src/Coordinator/Rebalance/Ranges.antt =====
-- The ranges that `rebalanceRange` of pkg/coordinator/rebalancer.go hands out.
use go_broker.Base.{
  ℕ, zero, suc, ◌+◌, ◌-◌, ◌*◌, ◌≤◌, ◌≡◌, refl, sym, ◌∙◌, ap, ◌⊎◌, inl, inr, Bool, true, false, not,
  ◌&&◌, Option, none, some, List, [], ◌∷◌, ◌++◌, arith, Str, str_eq, str_eq_iff, str_eq_refl, Map,
  lookup, lookup-insert, length, take, drop, ltb, if◌then◌else◌, length-take, length-drop,
  take-append-drop, Bool-cases, Option-cases,
}
use go_broker.Base.Int.{ℤ}
use go_broker.Coordinator.Types.{MemberMetadata}
use go_broker.Coordinator.Rebalance.{set_assignments, next_assignments, assign_ranges}
use go_broker.Coordinator.Rebalance.Members.{has_name, distinct_names}

-- The assignments of a member, and of a list of members in its order.
abbrev pub share : Map MemberMetadata → Str → List ℤ
share members id = elim (lookup id members) [ none ↦ [] | some member ↦ member.assignments ]

abbrev pub shares : Map MemberMetadata → List Str → List ℤ
shares members [] = []
shares members (id ∷ ids) = share members id ++ shares members ids

abbrev pub is_missing : Option MemberMetadata → Bool
is_missing none = true
is_missing (some member) = false

-- Every name is a member.
abbrev pub known : Map MemberMetadata → List Str → Bool
known members [] = true
known members (id ∷ ids) = not (is_missing (lookup id members)) && known members ids

share-set_assignments :
    (id j : Str) (assigned : List ℤ) (members : Map MemberMetadata)
    → is_missing (lookup id members) ≡ false
    → share (set_assignments id assigned members) j
      ≡ (if str_eq id j then assigned else share members j)
unfolding set_assignments
share-set_assignments id j assigned members h = elim (Option-cases (lookup id members)) [
  | inl gone ↦ ground arith
  | inr (m, found) ↦
      ground (arith, lookup-insert id j (record m { assignments = assigned }) members)
]

missing-set_assignments :
    (id j : Str) (assigned : List ℤ) (members : Map MemberMetadata)
    → is_missing (lookup j (set_assignments id assigned members)) ≡ is_missing (lookup j members)
unfolding set_assignments
missing-set_assignments id j assigned members = elim (Option-cases (lookup id members)) [
  | inl gone ↦ ground arith
  | inr (m, found) ↦ ground (
    arith,
    lookup-insert id j (record m { assignments = assigned }) members,
    str_eq_iff id j,
    Bool-cases (str_eq id j),
  )
]

known-set_assignments :
    (id : Str) (assigned : List ℤ) (members : Map MemberMetadata) (ids : List Str)
    → known (set_assignments id assigned members) ids ≡ known members ids
known-set_assignments id assigned members [] = refl
known-set_assignments id assigned members (j ∷ ids) = ground (
  arith,
  missing-set_assignments id j assigned members,
  known-set_assignments id assigned members ids,
)

drop-nil : (n : ℕ) → drop {A = ℤ} n [] ≡ []
drop-nil zero = refl
drop-nil (suc n) = refl

drop-drop : (n m : ℕ) (xs : List ℤ) → drop n (drop m xs) ≡ drop (m + n) xs
drop-drop n zero xs = let e : n ≡ 0 + n = omega arith in ap (λ k. drop k xs) e
drop-drop n (suc m) [] = drop-nil n ∙ sym (drop-nil (suc m + n))
drop-drop n (suc m) (x ∷ xs) =
    let e : suc (m + n) ≡ suc m + n = omega arith in drop-drop n m xs ∙ ap (λ k. drop k (x ∷ xs)) e

drop-all : (xs : List ℤ) → drop (length xs) xs ≡ []
drop-all [] = refl
drop-all (x ∷ xs) = drop-all xs

-- How many partitions the member at place `i` gets.
abbrev count_of : ℕ → ℕ → ℕ → ℕ
count_of per rem i = if ltb i rem then per + 1 else per

count_of-cases : (per rem i l : ℕ) → l ≡ count_of per rem i → (l ≡ per) ⊎ (l ≡ per + 1)
count_of-cases per rem i l h = ground arith

count_of-left :
    (per rem i index len n : ℕ)
    → rem ≤ i + suc len
    → n ≡ index + per * suc len + (rem - i)
    → n ≡ index + count_of per rem i + per * len + (rem - suc i)
count_of-left per rem i index len n r h = ground arith

module _ (partitions : List ℤ) (per rem : ℕ) where
  share-assign_ranges :
      (j : Str) (i index : ℕ) (ids : List Str) (members : Map MemberMetadata)
      → has_name j ids ≡ false
      → known members ids ≡ true
      → share (assign_ranges partitions per rem i index ids members) j ≡ share members j
  unfolding assign_ranges
  share-assign_ranges j i index [] members h k = refl
  share-assign_ranges j i index (id ∷ ids) members h k =
      let a = next_assignments partitions per rem i index in
      ground (
        arith,
        share-assign_ranges j (suc i) (index + length a) ids (set_assignments id a members),
        share-set_assignments id j a members,
        known-set_assignments id a members ids,
      )

  next_assignments-take :
      (i index : ℕ)
      → index + count_of per rem i ≤ length partitions
      → next_assignments partitions per rem i index
        ≡ take (count_of per rem i) (drop index partitions)
  unfolding next_assignments
  next_assignments-take i index h =
      let count = count_of per rem i in
      let width : index + count - index ≡ count = omega arith in
      elim (Bool-cases (ltb index (length partitions))) [
        | inl inside ↦ ground (arith, ap (λ k. take k (drop index partitions)) width)
        | inr outside ↦
            let none_left : count ≡ 0 = ground arith in
            ground (arith, ap (λ k. take k (drop index partitions)) none_left)
      ]

  length-next_assignments :
      (i index : ℕ)
      → index + count_of per rem i ≤ length partitions
      → length (next_assignments partitions per rem i index) ≡ count_of per rem i
  length-next_assignments i index h =
      ap length (next_assignments-take i index h)
      ∙ omega (
        arith,
        length-take (count_of per rem i) (drop index partitions),
        length-drop index partitions,
      )

  pub shares-assign_ranges :
      (i index : ℕ) (ids : List Str) (members : Map MemberMetadata)
      → distinct_names ids ≡ true
      → known members ids ≡ true
      → rem ≤ i + length ids
      → length partitions ≡ index + per * length ids + (rem - i)
      → shares (assign_ranges partitions per rem i index ids members) ids ≡ drop index partitions
  unfolding assign_ranges
  shares-assign_ranges i index [] members d k r n =
      let e : length partitions ≡ index = omega arith in
      sym (drop-all partitions) ∙ ap (λ k. drop k partitions) e
  shares-assign_ranges i index (id ∷ ids) members d k r n =
      let count = count_of per rem i in
      let a = next_assignments partitions per rem i index in
      let left = count_of-left per rem i index (length ids) (length partitions) r n in
      let cut : a ≡ take count (drop index partitions) =
        next_assignments-take i index (omega arith) in
      let size = length-next_assignments i index (omega arith) in
      let rest =
        shares-assign_ranges (suc i) (index + length a) ids (set_assignments id a members)
          (ground arith) (ground (arith, known-set_assignments id a members ids)) (omega arith)
          (omega arith) in
      let first =
        share-assign_ranges id (suc i) (index + length a) ids (set_assignments id a members)
          (ground arith) (ground (arith, known-set_assignments id a members ids)) in
      let own = share-set_assignments id id a members (ground arith) in
      let step : index + length a ≡ index + count = ap (λ k. index + k) size in
      ground (
        arith,
        str_eq_refl id,
        ap (λ k. drop k partitions) step,
        drop-drop count index partitions,
        take-append-drop count (drop index partitions),
      )

  pub length-share-assign_ranges :
      (j : Str) (i index : ℕ) (ids : List Str) (members : Map MemberMetadata)
      → has_name j ids ≡ true
      → distinct_names ids ≡ true
      → known members ids ≡ true
      → rem ≤ i + length ids
      → length partitions ≡ index + per * length ids + (rem - i)
      → let size = length (share (assign_ranges partitions per rem i index ids members) j) in
        (size ≡ per) ⊎ (size ≡ per + 1)
  unfolding assign_ranges
  length-share-assign_ranges j i index [] members h d k r n = ground arith
  length-share-assign_ranges j i index (id ∷ ids) members h d k r n =
      let a = next_assignments partitions per rem i index in
      let left = count_of-left per rem i index (length ids) (length partitions) r n in
      let size = length-next_assignments i index (omega arith) in
      let known' : known (set_assignments id a members) ids ≡ true =
        known-set_assignments id a members ids ∙ ground arith in
      elim (Bool-cases (str_eq id j)) [
        | inl same ↦
            let e = (str_eq_iff id j).0 same in
            let kept =
              share-assign_ranges j (suc i) (index + length a) ids (set_assignments id a members)
                (ap (λ x. has_name x ids) (sym e) ∙ ground arith) known' in
            let own = share-set_assignments id j a members (ground arith) in
            let mine = ap length (kept ∙ own ∙ ground arith) ∙ size in
            count_of-cases per rem i _ mine
        | inr other ↦
            length-share-assign_ranges j (suc i) (index + length a) ids
              (set_assignments id a members) (ground arith) (ground arith) known' (omega arith)
              (omega arith)
      ]
