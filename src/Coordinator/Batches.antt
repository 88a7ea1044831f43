-- ===== src/Coordinator/Batches.antt =====
-- What an accepted batch of offsets leaves in its group: `validateOffsetBatchLocked`,
-- `commitOffsetsBulkForGroupLocked` and `ApplyFencedOffsetUpdateFromFSM` of
-- pkg/coordinator/coordinator_offset.go.
use go_broker.Base.{
  ℕ, ◌≡◌, ◌⊎◌, inl, inr, refl, ap, Bool, true, false, not, ◌&&◌, Option, none, some, List, [], ◌∷◌,
  arith, Str, str_eq_refl, lookup, lookup-inserted, map, any, ◌==◌, if◌then◌else◌, Option-cases,
  Bool-cases,
}
use go_broker.Base.Int.{ℤ, int_eq, int_eq_iff}
use go_broker.Coordinator.Types.{
  GroupMetadata, Coordinator, OffsetItem, ok, contains, get_offset_safe,
}
use go_broker.Coordinator.Members.{set_group}
use go_broker.Coordinator.Offsets.{
  is_stored, bump_revision, store_offsets, batch_error_from, batch_error,
  commit_offsets_bulk_for_group, validate_and_commit_offsets_bulk,
  apply_fenced_offset_update_from_fsm, fenced, get_offset,
}
use go_broker.Coordinator.Commits.{last_item, get_offset_safe-store_offsets}
use go_broker.Coordinator.Refusals.{fenced-cases, fenced-lookup}

-- The batch has the offset for the partition.
abbrev has : ℤ → ℕ → List OffsetItem → Bool
has p o items = any (λ i. int_eq i.partition p && i.offset == o) items

last_item-seen :
    (gm : GroupMetadata) (t : Str) (p : ℤ) (seen : List ℤ) (items : List OffsetItem) (b : Option ℕ)
    → contains seen p ≡ true
    → batch_error_from gm t seen items ≡ none
    → last_item p items b ≡ b
unfolding batch_error_from contains
last_item-seen gm t p seen [] b h k = refl
last_item-seen gm t p seen (item ∷ items) b h k =
    ground
      (arith, last_item-seen gm t p (item.partition ∷ seen) items b, int_eq_iff item.partition p)

last_item-has :
    (gm : GroupMetadata) (t : Str) (p : ℤ) (o : ℕ) (seen : List ℤ) (items : List OffsetItem)
    (b : Option ℕ)
    → has p o items ≡ true
    → batch_error_from gm t seen items ≡ none
    → last_item p items b ≡ some o
unfolding batch_error_from contains
last_item-has gm t p o seen [] b h k = ground arith
last_item-has gm t p o seen (item ∷ items) b h k = ground (
  arith,
  last_item-has gm t p o (item.partition ∷ seen) items
      (if int_eq item.partition p then some item.offset else b),
  last_item-seen gm t p (item.partition ∷ seen) items (some item.offset),
  int_eq_iff item.partition p,
)

last_item-other :
    (p : ℤ) (items : List OffsetItem) (b : Option ℕ)
    → contains (map (λ i. i.partition) items) p ≡ false
    → last_item p items b ≡ b
unfolding contains
last_item-other p [] b h = refl
last_item-other p (item ∷ items) b h = ground (arith, last_item-other p items b)

-- The group holds each offset of the batch, and what it held elsewhere in the topic.
record HasBatch (t : Str) (items : List OffsetItem) (gm gm' : GroupMetadata) : Type 0 where
  holds : (p : ℤ) (o : ℕ) → has p o items ≡ true → get_offset_safe gm' t p ≡ some o
  keeps :
      (p : ℤ)
      → contains (map (λ i. i.partition) items) p ≡ false
      → get_offset_safe gm' t p ≡ get_offset_safe gm t p

store_offsets-HasBatch :
    (gm : GroupMetadata) (t : Str) (items : List OffsetItem)
    → batch_error_from gm t [] items ≡ none
    → HasBatch t items gm (store_offsets t items gm)
store_offsets-HasBatch gm t items good = record {
  holds = λ p o h.
      rw (get_offset_safe-store_offsets t t p items gm, str_eq_refl t)
        (last_item-has gm t p o [] items (get_offset_safe gm t p) h good);
  keeps = λ p h.
      rw (get_offset_safe-store_offsets t t p items gm, str_eq_refl t)
        (last_item-other p items (get_offset_safe gm t p) h);
}

bump_revision-HasBatch :
    (t : Str) (items : List OffsetItem) (b gm gm' : GroupMetadata)
    → HasBatch t items gm gm'
    → HasBatch t items gm (bump_revision t b gm')
unfolding bump_revision get_offset_safe
bump_revision-HasBatch t items b gm gm' k = record { holds = k.holds; keeps = k.keeps }

commit_offsets_bulk_for_group-outcome :
    (matches : Str → Str → Bool) (standalone written : Bool) (gm : GroupMetadata) (t : Str)
    (items : List OffsetItem)
    → (commit_offsets_bulk_for_group matches standalone written gm t items).1 ≡ ok tt
    → ((commit_offsets_bulk_for_group matches standalone written gm t items).0 ≡ gm)
        × (any (λ item. not (is_stored gm t item)) items ≡ false)
      ⊎ (batch_error_from gm t [] items ≡ none)
        × ((commit_offsets_bulk_for_group matches standalone written gm t items).0
              ≡ store_offsets t items gm
            ⊎ (commit_offsets_bulk_for_group matches standalone written gm t items).0
              ≡ bump_revision t gm (store_offsets t items gm))
unfolding commit_offsets_bulk_for_group batch_error
commit_offsets_bulk_for_group-outcome matches standalone written gm t items h = ground arith

stored-has :
    (gm : GroupMetadata) (t : Str) (p : ℤ) (o : ℕ) (items : List OffsetItem)
    → any (λ item. not (is_stored gm t item)) items ≡ false
    → has p o items ≡ true
    → get_offset_safe gm t p ≡ some o
unfolding is_stored
stored-has gm t p o [] h k = ground arith
stored-has gm t p o (item ∷ items) h k =
    elim (Bool-cases (int_eq item.partition p && item.offset == o)) [
      | inl here ↦ ground (
        arith,
        ap (get_offset_safe gm t) ((int_eq_iff item.partition p).0 (ground arith)),
        Option-cases (get_offset_safe gm t item.partition),
      )
      | inr later ↦ stored-has gm t p o items (ground arith) (ground arith)
    ]

commit_offsets_bulk_for_group-HasBatch :
    (matches : Str → Str → Bool) (standalone written : Bool) (gm : GroupMetadata) (t : Str)
    (items : List OffsetItem)
    → (commit_offsets_bulk_for_group matches standalone written gm t items).1 ≡ ok tt
    → HasBatch t items gm (commit_offsets_bulk_for_group matches standalone written gm t items).0
commit_offsets_bulk_for_group-HasBatch matches standalone written gm t items h =
    elim (commit_offsets_bulk_for_group-outcome matches standalone written gm t items h) [
      | inl (same, stored) ↦
          rw same
            (record { holds = λ p o k. stored-has gm t p o items stored k; keeps = λ p k. refl })
      | inr (good, inl moved) ↦ rw moved (store_offsets-HasBatch gm t items good)
      | inr (good, inr bumped) ↦
          rw bumped
            (bump_revision-HasBatch t items gm gm _ (store_offsets-HasBatch gm t items good))
    ]

module _ (g t : Str) (items : List OffsetItem) (p : ℤ) (o : ℕ) (p' : ℤ) where
  set_group-committed :
      (c : Coordinator) (gm gm' : GroupMetadata)
      → has p o items ≡ true
      → contains (map (λ i. i.partition) items) p' ≡ false
      → lookup g c.groups ≡ some gm
      → HasBatch t items gm gm'
      → (get_offset (set_group c g gm') g t p ≡ some o)
        × (get_offset (set_group c g gm') g t p' ≡ get_offset c g t p')
  unfolding get_offset
  set_group-committed c gm gm' h k found b = (
    ground (arith, lookup-inserted g gm' c.groups, b.holds p o h),
    ground (arith, lookup-inserted g gm' c.groups, b.keeps p' k),
  )

  module _ (matches : Str → Str → Bool) (m : Str) (n : ℤ) (c : Coordinator) where
    -- A batch that ValidateAndCommitOffsetsBulk accepts is stored whole: a partition of the batch holds
    -- the offset that the batch has for it, and a partition of the topic that is not in the batch holds
    -- in the group what it held.
    pub accepted_batch_stored :
        (written : Bool)
        → (validate_and_commit_offsets_bulk matches g t m n items written c).1 ≡ ok tt
        → has p o items ≡ true
        → contains (map (λ i. i.partition) items) p' ≡ false
        → let c' = (validate_and_commit_offsets_bulk matches g t m n items written c).0 in
          (get_offset c' g t p ≡ some o) × (get_offset c' g t p' ≡ get_offset c g t p')
    unfolding validate_and_commit_offsets_bulk
    accepted_batch_stored written h k l =
        elim (fenced-cases (fenced c g m n (map (λ i. i.partition) items))) [
          | inr (e, bad) ↦ ground arith
          | inl (gm, good) ↦
              let found = fenced-lookup c g m n (map (λ i. i.partition) items) gm good in
              let whole =
                commit_offsets_bulk_for_group-HasBatch matches c.standalone written gm t items
                  (ground arith) in
              ground (arith, set_group-committed c gm _ k l found whole)
        ]

    -- The same for a batch that ApplyFencedOffsetUpdateFromFSM accepts: it is stored whole, and a
    -- partition of the topic that is not in the batch holds in the group what it held.
    pub replicated_batch_stored :
        (apply_fenced_offset_update_from_fsm matches g t m n items c).1 ≡ ok tt
        → has p o items ≡ true
        → contains (map (λ i. i.partition) items) p' ≡ false
        → let c' = (apply_fenced_offset_update_from_fsm matches g t m n items c).0 in
          (get_offset c' g t p ≡ some o) × (get_offset c' g t p' ≡ get_offset c g t p')
    unfolding apply_fenced_offset_update_from_fsm batch_error
    replicated_batch_stored h k l =
        elim (fenced-cases (fenced c g m n (map (λ i. i.partition) items))) [
          | inr (e, bad) ↦ ground arith
          | inl (gm, good) ↦
              let found = fenced-lookup c g m n (map (λ i. i.partition) items) gm good in
              let whole = store_offsets-HasBatch gm t items (ground arith) in
              ground (arith, set_group-committed c gm _ k l found whole)
        ]
