-- ===== src/Coordinator/Rebalance/Owners.antt =====
-- What `rebalanceRange` of pkg/coordinator/rebalancer.go does to a whole group: which partitions the
-- members get, how many, and who owns a partition.
use native.Mathlib.Nat.{mod-lt, mod-add-div'}
use go_broker.Base.{
  ℕ, suc, ◌+◌, ◌-◌, ◌*◌, ◌/◌, ◌%◌, ◌≤◌, ◌<◌, ◌≡◌, refl, sym, ◌∙◌, ap, ◌⊎◌, inl, inr, Bool, true,
  false, not, ◌&&◌, ◌||◌, List, [], ◌∷◌, ◌++◌, arith, Str, str_eq, str_eq_iff, str_eq_refl, Map,
  Distinct, length, sort_strings, is_empty, Bool-cases,
}
use go_broker.Base.Int.{ℤ, int_eq_iff}
use go_broker.Coordinator.Types.{MemberMetadata, GroupMetadata, contains}
use go_broker.Coordinator.Rebalance.{member_ids, assign_ranges, rebalance_range}
use go_broker.Coordinator.Rebalance.Members.{
  has_name, distinct_names, has_name-sort_strings, distinct_names-sort_strings, length-sort_strings,
  member_ids-lookup, distinct_names-member_ids,
}
use go_broker.Coordinator.Rebalance.Ranges.{
  share, shares, known, shares-assign_ranges, length-share-assign_ranges,
}

-- No number twice.
abbrev pub distinct_partitions : List ℤ → Bool
distinct_partitions [] = true
distinct_partitions (p ∷ ps) = not (contains ps p) && distinct_partitions ps

contains-append :
    (xs ys : List ℤ) (p : ℤ) → contains (xs ++ ys) p ≡ (contains xs p || contains ys p)
unfolding contains
contains-append [] ys p = refl
contains-append (x ∷ xs) ys p = ground (arith, contains-append xs ys p)

distinct_partitions-append :
    (xs ys : List ℤ) (p : ℤ)
    → distinct_partitions (xs ++ ys) ≡ true
    → (contains xs p && contains ys p ≡ false) × (distinct_partitions ys ≡ true)
unfolding contains
distinct_partitions-append [] ys p h = (refl, h)
distinct_partitions-append (x ∷ xs) ys p h =
    ground (arith, contains-append xs ys x, distinct_partitions-append xs ys p, int_eq_iff x p)

share-same :
    (ms : Map MemberMetadata) (a b : Str) (p : ℤ)
    → str_eq a b ≡ true
    → contains (share ms a) p ≡ contains (share ms b) p
share-same ms a b p h = ap (λ j. contains (share ms j) p) ((str_eq_iff a b).0 h)

share-contains :
    (ms : Map MemberMetadata) (ids : List Str) (a : Str) (p : ℤ)
    → has_name a ids ≡ true
    → contains (share ms a) p ≡ true
    → contains (shares ms ids) p ≡ true
share-contains ms [] a p h k = ground arith
share-contains ms (id ∷ ids) a p h k = elim (Bool-cases (str_eq id a)) [
  | inl same ↦
      contains-append (share ms id) (shares ms ids) p ∙ ground (arith, share-same ms id a p same)
  | inr other ↦
      let rest = share-contains ms ids a p (ground arith) k in
      contains-append (share ms id) (shares ms ids) p ∙ ground (arith, rest)
]

share-exclusive :
    (ms : Map MemberMetadata) (ids : List Str) (a b : Str) (p : ℤ)
    → distinct_partitions (shares ms ids) ≡ true
    → has_name a ids ≡ true
    → has_name b ids ≡ true
    → str_eq a b ≡ false
    → contains (share ms a) p && contains (share ms b) p ≡ false
share-exclusive ms [] a b p d ha hb ne = ground arith
share-exclusive ms (id ∷ ids) a b p d ha hb ne =
    let (apart, d') = distinct_partitions-append (share ms id) (shares ms ids) p d in
    ground (
      arith,
      share-exclusive ms ids a b p d',
      share-contains ms ids a p,
      share-contains ms ids b p,
      str_eq_iff id a,
      str_eq_iff id b,
      str_eq_iff a b,
      share-same ms id a p,
      share-same ms id b p,
    )

known-member_ids :
    (ms : Map MemberMetadata) (ids : List Str)
    → ((j : Str) → has_name j ids ≡ true → has_name j (member_ids ms) ≡ true)
    → known ms ids ≡ true
known-member_ids ms [] f = refl
known-member_ids ms (id ∷ ids) f =
    let (m, found) = member_ids-lookup id ms (f id (ground (arith, str_eq_refl id))) in
    let rest = known-member_ids ms ids (λ j h. f j (ground arith)) in ground arith

length-member_ids : (ms : Map MemberMetadata) → length (member_ids ms) ≡ length ms
unfolding member_ids
length-member_ids [] = refl
length-member_ids ((id, member) ∷ ms) = ap (λ n. suc n) (length-member_ids ms)

is_empty-length {ℓ κ} :
    {A : Type ℓ} {B : Type κ} (xs : List A) (ys : List B)
    → length xs ≡ length ys
    → is_empty xs ≡ is_empty ys
is_empty-length [] [] h = refl
is_empty-length [] (y ∷ ys) h = ground arith
is_empty-length (x ∷ xs) [] h = ground arith
is_empty-length (x ∷ xs) (y ∷ ys) h = refl

is_empty-names : (ms : Map MemberMetadata) → is_empty (sort_strings (member_ids ms)) ≡ is_empty ms
is_empty-names ms =
    is_empty-length (sort_strings (member_ids ms)) ms
      (length-sort_strings (member_ids ms) ∙ length-member_ids ms)

module _ (now : ℕ) (group : GroupMetadata) where
  rebalanced :
      is_empty group.members ≡ false
      → let ids = sort_strings (member_ids group.members) in
        (rebalance_range now group).members
        ≡ assign_ranges group.partitions
            (length group.partitions / length ids)
            (length group.partitions % length ids)
            0
            0
            ids
            group.members
  unfolding rebalance_range
  rebalanced h = ground (arith, is_empty-names group.members)

  module _ (d : Distinct group.members) (some_member : is_empty group.members ≡ false) where
    names-distinct : distinct_names (sort_strings (member_ids group.members)) ≡ true
    names-distinct =
        distinct_names-sort_strings (member_ids group.members)
        ∙ distinct_names-member_ids group.members d

    names-known : known group.members (sort_strings (member_ids group.members)) ≡ true
    names-known =
        known-member_ids group.members (sort_strings (member_ids group.members))
          (λ j k. sym (has_name-sort_strings j (member_ids group.members)) ∙ k)

    split_sizes :
        let ids = sort_strings (member_ids group.members) in
        let n = length group.partitions in
        (n % length ids ≤ 0 + length ids)
        × (n ≡ 0 + n / length ids * length ids + (n % length ids - 0))
    split_sizes =
        let n = length group.partitions in
        let m = length (sort_strings (member_ids group.members)) in
        let some_ids : 0 < m = ground (arith, is_empty-names group.members) in
        (omega (arith, mod-lt n some_ids), omega (arith, mod-add-div' n m))

    -- With at least one member and no member twice, the ranges of the members in the order of their
    -- names are the partitions of the group, in their order: none is left out, none is added.
    pub ranges_cover_partitions :
        shares (rebalance_range now group).members (sort_strings (member_ids group.members))
        ≡ group.partitions
    ranges_cover_partitions =
        let ids = sort_strings (member_ids group.members) in
        let n = length group.partitions in
        ap (λ ms. shares ms ids) (rebalanced some_member)
        ∙ shares-assign_ranges group.partitions (n / length ids) (n % length ids) 0 0 ids
            group.members names-distinct names-known split_sizes.0 split_sizes.1

    -- With at least one member and no member twice, every member gets the number of partitions divided
    -- by the number of members, or one more.
    pub ranges_are_fair :
        (m : Str)
        → has_name m (member_ids group.members) ≡ true
        → let size = length (share (rebalance_range now group).members m) in
          let even = length group.partitions / length group.members in
          (size ≡ even) ⊎ (size ≡ even + 1)
    ranges_are_fair m h =
        let ids = sort_strings (member_ids group.members) in
        let n = length group.partitions in
        let count : length ids ≡ length group.members =
          length-sort_strings (member_ids group.members) ∙ length-member_ids group.members in
        let fair =
          length-share-assign_ranges group.partitions (n / length ids) (n % length ids) m 0 0 ids
            group.members (has_name-sort_strings m (member_ids group.members) ∙ h) names-distinct
            names-known split_sizes.0 split_sizes.1 in
        elim fair [
          | inl e ↦
              inl
                (ap (λ x. length (share x m)) (rebalanced some_member) ∙ e ∙ ap (λ k. n / k) count)
          | inr e ↦ inr (
              ap (λ x. length (share x m)) (rebalanced some_member) ∙ e ∙ ap (λ k. n / k + 1) count)
        ]

    -- With at least one member, no member twice and no partition twice, two members whose ranges have
    -- the same partition are the same member.
    pub owner_is_unique :
        (p : ℤ) (a b : Str)
        → distinct_partitions group.partitions ≡ true
        → has_name a (member_ids group.members) ≡ true
        → has_name b (member_ids group.members) ≡ true
        → contains (share (rebalance_range now group).members a) p ≡ true
        → contains (share (rebalance_range now group).members b) p ≡ true
        → a ≡ b
    owner_is_unique p a b u ha hb oa ob =
        let ms = (rebalance_range now group).members in
        let ids = sort_strings (member_ids group.members) in
        elim (Bool-cases (str_eq a b)) [
          | inl same ↦ (str_eq_iff a b).0 same
          | inr apart ↦
              let clash =
                share-exclusive ms ids a b p (ap distinct_partitions ranges_cover_partitions ∙ u)
                  (has_name-sort_strings a (member_ids group.members) ∙ ha)
                  (has_name-sort_strings b (member_ids group.members) ∙ hb) apart in
              ground arith
        ]
