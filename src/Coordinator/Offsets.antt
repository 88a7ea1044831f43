-- ===== src/Coordinator/Offsets.antt =====
-- Offset commits, pkg/coordinator/coordinator_offset.go. `matches` is the regular-expression match of
-- a topic against a pattern with wildcards; `written` says whether the durable offset record of the
-- call was written, which the coordinator asks the topic handler for.
use go_broker.Base.{
  ℕ, ◌+◌, ◌%◌, ◌^◌, Bool, true, false, not, ◌&&◌, ◌||◌, Option, none, some, List, [], ◌∷◌, ltb,
  ◌==◌, if◌then◌else◌, Str, str_eq, lookup, insert, length, any, map,
}
use go_broker.Base.Int.{ℤ, pos, int_lt}
use go_broker.Coordinator.Types.{
  GroupMetadata, Coordinator, OffsetItem, Error, group_not_found, not_owner, lifecycle_pending,
  topic_mismatch, invalid_partition, offset_regression, duplicate_partition, not_registered,
  write_failed, Result, ok, err, contains, is_pending, get_offset_safe, store_offset,
  member_generation_error,
}
use go_broker.Coordinator.Members.{set_group, assignments_of}

-- `strings.ContainsAny(pattern, "*?")`
abbrev pub has_wildcard : Str → Bool
has_wildcard pattern = any (λ c. c == 42 || c == 63) pattern

-- `partition < 0 || partition >= len(gm.Partitions)`
abbrev pub in_partitions : GroupMetadata → ℤ → Bool
in_partitions gm partition =
    not (int_lt partition (pos 0)) && int_lt partition (pos (length gm.partitions))

-- A commit of an offset below the stored one.
unfoldable pub regresses : GroupMetadata → Str → ℤ → ℕ → Bool
regresses gm topic partition offset = elim (get_offset_safe gm topic partition) [
  | none ↦ false
  | some current ↦ ltb offset current
]

-- The stored offset is there and equal.
unfoldable pub is_stored : GroupMetadata → Str → OffsetItem → Bool
is_stored gm topic item = elim (get_offset_safe gm topic item.partition) [
  | none ↦ false
  | some current ↦ current == item.offset
]

unfoldable pub revision_of : GroupMetadata → Str → ℕ
revision_of gm topic = elim (lookup topic gm.offset_revisions) [ none ↦ 0 | some r ↦ r ]

-- `gm.OffsetRevisions[topic] = revision`, one above the last.
unfoldable pub bump_revision : Str → GroupMetadata → GroupMetadata → GroupMetadata
unfolding revision_of
bump_revision topic before gm = record gm {
  offset_revisions = insert topic ((revision_of before topic + 1) % 2 ^ 64) gm.offset_revisions;
}

-- The loop that stores each item.
unfoldable pub store_offsets : Str → List OffsetItem → GroupMetadata → GroupMetadata
store_offsets topic [] gm = gm
store_offsets topic (item ∷ items) gm =
    store_offsets topic items (store_offset gm topic item.partition item.offset)

-- The loop of `validateOffsetBatchLocked`, over the partitions seen before.
unfoldable pub batch_error_from : GroupMetadata → Str → List ℤ → List OffsetItem → Option Error
batch_error_from group topic seen [] = none
batch_error_from group topic seen (item ∷ items) =
    let later = batch_error_from group topic (item.partition ∷ seen) items in
    if contains seen item.partition
    then some duplicate_partition
    else if regresses group topic item.partition item.offset
    then some offset_regression
    else later

-- The checks that fenced commits share: lifecycle, generation, and ownership of every partition.
unfoldable pub fenced : Coordinator → Str → Str → ℤ → List ℤ → Result GroupMetadata
fenced c group_name member_id generation partitions =
    if is_pending c group_name
    then err lifecycle_pending
    else elim (member_generation_error c group_name member_id generation) [
      | some e ↦ err e
      | none ↦ elim (lookup group_name c.groups) [
        | none ↦ err group_not_found
        | some group ↦
            if any (λ p. not (contains (assignments_of member_id group) p)) partitions
            then err not_owner
            else ok group
      ]
    ]

module _ (matches : Str → Str → Bool) where
  unfoldable pub group_topic_matches : Str → Str → Bool
  group_topic_matches pattern topic =
      if str_eq pattern topic
      then true
      else if not (has_wildcard pattern)
      then false
      else matches pattern topic

  -- `validateGroupTopicLocked`
  unfoldable pub topic_error : GroupMetadata → Str → Option Error
  topic_error group topic =
      if not (str_eq group.topic_name []) && not (group_topic_matches group.topic_name topic)
      then some topic_mismatch
      else none

  unfoldable pub commit_offset_for_group :
      Bool → Bool → GroupMetadata → Str → ℤ → ℕ → GroupMetadata × Result (Unit {0})
  unfolding topic_error bump_revision
  commit_offset_for_group standalone written gm topic partition offset =
      elim (topic_error gm topic) [
        | some e ↦ (gm, err e)
        | none ↦
            if not (in_partitions gm partition)
            then (gm, err invalid_partition)
            else if regresses gm topic partition offset
            then (gm, err offset_regression)
            else if standalone
            then (if gm.registration_epoch == 0
                then (gm, err not_registered)
                else if is_stored gm topic (record { partition = partition; offset = offset })
                then (gm, ok tt)
                else if not written
                then (gm, err write_failed)
                else (bump_revision topic gm (store_offset gm topic partition offset), ok tt))
            else if regresses gm topic partition offset
            then (gm, err offset_regression)
            else (store_offset gm topic partition offset, ok tt)
      ]

  unfoldable pub commit_offset :
      Str → Str → ℤ → ℕ → Bool → Coordinator → Coordinator × Result (Unit {0})
  commit_offset group_name topic partition offset written c =
      if is_pending c group_name
      then (c, err lifecycle_pending)
      else elim (lookup group_name c.groups) [
        | none ↦ (c, err group_not_found)
        | some gm ↦
            let (gm', r) = commit_offset_for_group c.standalone written gm topic partition offset in
            (set_group c group_name gm', r)
      ]

  unfoldable pub batch_error : GroupMetadata → Str → List OffsetItem → Option Error
  unfolding topic_error batch_error_from
  batch_error group topic items = elim (topic_error group topic) [
    | some e ↦ some e
    | none ↦ batch_error_from group topic [] items
  ]

  unfoldable pub commit_offsets_bulk_for_group :
      Bool → Bool → GroupMetadata → Str → List OffsetItem → GroupMetadata × Result (Unit {0})
  unfolding bump_revision
  commit_offsets_bulk_for_group standalone written gm topic items =
      elim (batch_error gm topic items) [
        | some e ↦ (gm, err e)
        | none ↦
            if any (λ item. not (in_partitions gm item.partition)) items
            then (gm, err invalid_partition)
            else if standalone
            then (if gm.registration_epoch == 0
                then (gm, err not_registered)
                else if not (any (λ item. not (is_stored gm topic item)) items)
                then (gm, ok tt)
                else if not written
                then (gm, err write_failed)
                else (bump_revision topic gm (store_offsets topic items gm), ok tt))
            else (store_offsets topic items gm, ok tt)
      ]

  unfoldable pub commit_offsets_bulk :
      Str → Str → List OffsetItem → Bool → Coordinator → Coordinator × Result (Unit {0})
  commit_offsets_bulk group_name topic [] written c = (c, ok tt)
  commit_offsets_bulk group_name topic (item ∷ items) written c =
      if is_pending c group_name
      then (c, err lifecycle_pending)
      else elim (lookup group_name c.groups) [
        | none ↦ (c, err group_not_found)
        | some gm ↦
            let (gm', r) =
              commit_offsets_bulk_for_group c.standalone written gm topic (item ∷ items) in
            (set_group c group_name gm', r)
      ]

  unfoldable pub validate_and_commit :
      Str → Str → ℤ → ℕ → ℤ → Str → Bool → Coordinator → Coordinator × Result (Unit {0})
  unfolding fenced
  validate_and_commit group_name topic partition offset generation member_id written c =
      elim (fenced c group_name member_id generation (partition ∷ [])) [
        | err e ↦ (c, err e)
        | ok gm ↦
            let (gm', r) = commit_offset_for_group c.standalone written gm topic partition offset in
            (set_group c group_name gm', r)
      ]

  unfoldable pub validate_and_commit_offsets_bulk :
      Str → Str → Str → ℤ → List OffsetItem → Bool → Coordinator → Coordinator × Result (Unit {0})
  unfolding fenced
  validate_and_commit_offsets_bulk group_name topic member_id generation items written c =
      elim (fenced c group_name member_id generation (map (λ i. i.partition) items)) [
        | err e ↦ (c, err e)
        | ok gm ↦
            let (gm', r) = commit_offsets_bulk_for_group c.standalone written gm topic items in
            (set_group c group_name gm', r)
      ]

  unfoldable pub apply_fenced_offset_update_from_fsm :
      Str → Str → Str → ℤ → List OffsetItem → Coordinator → Coordinator × Result (Unit {0})
  unfolding fenced
  apply_fenced_offset_update_from_fsm group_name topic member_id generation items c =
      elim (fenced c group_name member_id generation (map (λ i. i.partition) items)) [
        | err e ↦ (c, err e)
        | ok gm ↦ elim (batch_error gm topic items) [
          | some e ↦ (c, err e)
          | none ↦ (set_group c group_name (store_offsets topic items gm), ok tt)
        ]
      ]

-- `GetOffset`; `none` is (0, false).
unfoldable pub get_offset : Coordinator → Str → Str → ℤ → Option ℕ
get_offset c group_name topic partition = elim (lookup group_name c.groups) [
  | none ↦ none
  | some gm ↦ get_offset_safe gm topic partition
]
