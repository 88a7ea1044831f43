-- ===== src/Coordinator/Commits.antt =====
-- Offset commits on one group, the part of pkg/coordinator/coordinator_offset.go that stores offsets:
-- what the group holds afterwards.
use go_broker.Base.{
  ℕ, ◌≤◌, ◌≡◌, ◌⊎◌, inl, inr, refl, ap, ◌∙◌, Bool, false, ◌&&◌, Option, none, some, List, [], ◌∷◌,
  arith, Str, str_eq, str_eq_iff, lookup-insert, if◌then◌else◌, find, find-put, put, Bool-cases,
}
use go_broker.Base.Int.{ℤ, int_eq, int_eq_iff}
use go_broker.Coordinator.Types.{
  GroupMetadata, OffsetItem, get_offset_safe, store_offset, topic_offsets,
}
use go_broker.Coordinator.Offsets.{
  regresses, bump_revision, store_offsets, batch_error_from, batch_error, commit_offset_for_group,
  commit_offsets_bulk_for_group,
}

find-nil : (p : ℤ) → find {V = ℕ} p [] ≡ none
unfolding find
find-nil p = refl

get_offset_safe-store_offset :
    (gm : GroupMetadata) (t t' : Str) (p p' : ℤ) (o : ℕ)
    → get_offset_safe (store_offset gm t p o) t' p'
      ≡ (if str_eq t t' && int_eq p p' then some o else get_offset_safe gm t' p')
unfolding get_offset_safe store_offset
get_offset_safe-store_offset gm t t' p p' o = ground (
  arith,
  lookup-insert t t' (put p o (topic_offsets gm.offsets t)) gm.offsets,
  find-put p p' o (topic_offsets gm.offsets t),
  str_eq_iff t t',
  find-nil p',
)

-- What a list of items leaves at a partition.
abbrev pub last_item : ℤ → List OffsetItem → Option ℕ → Option ℕ
last_item p [] before = before
last_item p (item ∷ items) before =
    last_item p items (if int_eq item.partition p then some item.offset else before)

pub get_offset_safe-store_offsets :
    (t t' : Str) (p : ℤ) (items : List OffsetItem) (gm : GroupMetadata)
    → get_offset_safe (store_offsets t items gm) t' p ≡ (
        if str_eq t t'
        then last_item p items (get_offset_safe gm t' p)
        else get_offset_safe gm t' p)
unfolding store_offsets
get_offset_safe-store_offsets t t' p [] gm = ground arith
get_offset_safe-store_offsets t t' p (item ∷ items) gm = ground (
  arith,
  get_offset_safe-store_offsets t t' p items (store_offset gm t item.partition item.offset),
  get_offset_safe-store_offset gm t t' item.partition p item.offset,
)

-- Every stored offset is still there, at least as large.
pub record Keeps (gm gm' : GroupMetadata) : Type 0 where
  pub at :
      (t : Str) (p : ℤ) (x : ℕ)
      → get_offset_safe gm t p ≡ some x
      → (y : ℕ) × (get_offset_safe gm' t p ≡ some y) × (x ≤ y)

store_offset-Keeps :
    (gm : GroupMetadata) (t : Str) (p : ℤ) (o : ℕ)
    → regresses gm t p o ≡ false
    → Keeps gm (store_offset gm t p o)
unfolding regresses
store_offset-Keeps gm t p o h = record {
  at = λ t' p' x e. elim (Bool-cases (str_eq t t' && int_eq p p')) [
    | inl same ↦
        let q : t ≡ t' = ground (arith, str_eq_iff t t') in
        let r : p ≡ p' = ground (arith, int_eq_iff p p') in
        (
          o,
          rw (get_offset_safe-store_offset gm t t' p p' o, same),
          ground (arith, ap (λ s. get_offset_safe gm s p) q, ap (get_offset_safe gm t') r),
        )
    | inr other ↦ (x, ground (arith, get_offset_safe-store_offset gm t t' p p' o), ground arith)
  ];
}

last_item-ge :
    (gm : GroupMetadata) (t : Str) (p : ℤ) (x z : ℕ) (seen : List ℤ) (items : List OffsetItem)
    → get_offset_safe gm t p ≡ some x
    → batch_error_from gm t seen items ≡ none
    → x ≤ z
    → (y : ℕ) × (last_item p items (some z) ≡ some y) × (x ≤ y)
unfolding batch_error_from regresses
last_item-ge gm t p x z seen [] e h le = (z, refl, le)
last_item-ge gm t p x z seen (item ∷ items) e h le = elim (Bool-cases (int_eq item.partition p)) [
  | inl same ↦
      let q = (int_eq_iff item.partition p).0 same in
      let (y, found, le') =
        last_item-ge gm t p x item.offset (item.partition ∷ seen) items e (ground arith)
          (ground (arith, ap (get_offset_safe gm t) q)) in
      (y, ground arith, le')
  | inr other ↦
      let (y, found, le') =
        last_item-ge gm t p x z (item.partition ∷ seen) items e (ground arith) le in
      (y, ground arith, le')
]

pub store_offsets-Keeps :
    (gm : GroupMetadata) (t : Str) (seen : List ℤ) (items : List OffsetItem)
    → batch_error_from gm t seen items ≡ none
    → Keeps gm (store_offsets t items gm)
store_offsets-Keeps gm t seen items h = record {
  at = λ t' p x e. elim (Bool-cases (str_eq t t')) [
    | inl same ↦
        let q : t ≡ t' = (str_eq_iff t t').0 same in
        let (y, found, le) =
          last_item-ge gm t p x x seen items (ap (λ s. get_offset_safe gm s p) q ∙ e) h
            (omega arith) in
        (y, rw (get_offset_safe-store_offsets t t' p items gm, same, e) found, le)
    | inr other ↦ (x, rw (get_offset_safe-store_offsets t t' p items gm, other) e, omega arith)
  ];
}

pub Keeps-refl : (gm : GroupMetadata) → Keeps gm gm
Keeps-refl gm = record { at = λ t p x e. (x, e, omega arith) }

Keeps-bump_revision :
    (t : Str) (b gm gm' : GroupMetadata) → Keeps gm gm' → Keeps gm (bump_revision t b gm')
unfolding bump_revision get_offset_safe
Keeps-bump_revision t b gm gm' k = record { at = k.at }

module _ (matches : Str → Str → Bool) where
  commit_offset_for_group-moves :
      (standalone written : Bool) (gm : GroupMetadata) (t : Str) (p : ℤ) (o : ℕ)
      → (commit_offset_for_group matches standalone written gm t p o).0 ≡ gm
        ⊎ (regresses gm t p o ≡ false)
          × ((commit_offset_for_group matches standalone written gm t p o).0 ≡ store_offset gm t p o
              ⊎ (commit_offset_for_group matches standalone written gm t p o).0
                ≡ bump_revision t gm (store_offset gm t p o))
  unfolding commit_offset_for_group
  commit_offset_for_group-moves standalone written gm t p o = ground arith

  pub commit_offset_for_group-Keeps :
      (standalone written : Bool) (gm : GroupMetadata) (t : Str) (p : ℤ) (o : ℕ)
      → Keeps gm (commit_offset_for_group matches standalone written gm t p o).0
  commit_offset_for_group-Keeps standalone written gm t p o =
      elim (commit_offset_for_group-moves standalone written gm t p o) [
        | inl same ↦ rw same (Keeps-refl gm)
        | inr (good, inl stored) ↦ rw stored (store_offset-Keeps gm t p o good)
        | inr (good, inr bumped) ↦
            rw bumped (Keeps-bump_revision t gm gm _ (store_offset-Keeps gm t p o good))
      ]

  commit_offsets_bulk_for_group-moves :
      (standalone written : Bool) (gm : GroupMetadata) (t : Str) (items : List OffsetItem)
      → (commit_offsets_bulk_for_group matches standalone written gm t items).0 ≡ gm
        ⊎ (batch_error_from gm t [] items ≡ none)
          × ((commit_offsets_bulk_for_group matches standalone written gm t items).0
                ≡ store_offsets t items gm
              ⊎ (commit_offsets_bulk_for_group matches standalone written gm t items).0
                ≡ bump_revision t gm (store_offsets t items gm))
  unfolding commit_offsets_bulk_for_group batch_error
  commit_offsets_bulk_for_group-moves standalone written gm t items = ground arith

  pub commit_offsets_bulk_for_group-Keeps :
      (standalone written : Bool) (gm : GroupMetadata) (t : Str) (items : List OffsetItem)
      → Keeps gm (commit_offsets_bulk_for_group matches standalone written gm t items).0
  commit_offsets_bulk_for_group-Keeps standalone written gm t items =
      elim (commit_offsets_bulk_for_group-moves standalone written gm t items) [
        | inl same ↦ rw same (Keeps-refl gm)
        | inr (good, inl stored) ↦ rw stored (store_offsets-Keeps gm t [] items good)
        | inr (good, inr bumped) ↦
            rw bumped (Keeps-bump_revision t gm gm _ (store_offsets-Keeps gm t [] items good))
      ]
