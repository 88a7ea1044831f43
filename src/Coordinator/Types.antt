-- ===== src/Coordinator/Types.antt =====
-- The data of pkg/coordinator/coordinator.go, and its basic reads and writes. Groups and members are
-- never nil. Times are numbers of nanoseconds.
use go_broker.Base.{
  ℕ, Bool, false, not, ◌&&◌, Option, none, some, List, [], if◌then◌else◌, Str, Map, lookup, insert,
  any, is_empty, IntMap, find, put,
}
use go_broker.Base.Int.{ℤ, pos, int_eq, int_lt}

pub record MemberMetadata : Type 0 where
  pub id : Str
  pub last_heartbeat : ℕ
  pub assignments : List ℤ

pub record GroupMetadata : Type 0 where
  pub topic_name : Str
  pub members : Map MemberMetadata
  pub generation : ℤ  -- int
  pub partitions : List ℤ
  pub last_rebalance : ℕ
  pub last_activity : ℕ
  pub offsets : Map (IntMap ℕ)
  pub registration_epoch : ℕ  -- uint64
  pub offset_revisions : Map ℕ

-- The part of `Coordinator` that the operations read and write. A group in `lifecycle_pending` has a
-- durable lifecycle write in progress.
pub record Coordinator : Type 0 where
  pub groups : Map GroupMetadata
  pub lifecycle_pending : Map Bool
  pub standalone : Bool
  pub group_epochs : Map ℕ
  pub ownership_since : Map ℕ

pub record OffsetItem : Type 0 where
  pub partition : ℤ
  pub offset : ℕ

pub data Error : Type 0 where
  group_not_found missing_member member_not_found gen_mismatch not_owner lifecycle_pending : Error
  topic_mismatch invalid_partition offset_regression duplicate_partition not_registered : Error
  write_failed empty_name invalid_partition_count partition_count_mismatch epoch_overflow : Error
  legacy_offsets active_members group_changed : Error

pub data Result {ℓ} (A : Type ℓ) : Type ℓ where
  ok : A → Result A
  err : Error → Result A

-- `contains`
unfoldable pub contains : List ℤ → ℤ → Bool
contains slice item = any (λ s. int_eq s item) slice

-- `c.lifecyclePending[name]`, false for a missing key
unfoldable pub is_pending : Coordinator → Str → Bool
is_pending c name = elim (lookup name c.lifecycle_pending) [ none ↦ false | some b ↦ b ]

-- `getOffsetSafe`
unfoldable pub get_offset_safe : GroupMetadata → Str → ℤ → Option ℕ
get_offset_safe gm topic partition = elim (lookup topic gm.offsets) [
  | none ↦ none
  | some partitions ↦ find partition partitions
]

-- `gm.Offsets[topic]`, the empty map for a missing key
unfoldable pub topic_offsets : Map (IntMap ℕ) → Str → IntMap ℕ
topic_offsets offsets topic = elim (lookup topic offsets) [ none ↦ [] | some m ↦ m ]

-- `storeOffset`
unfoldable pub store_offset : GroupMetadata → Str → ℤ → ℕ → GroupMetadata
unfolding topic_offsets
store_offset gm topic partition offset = record gm {
  offsets = insert topic (put partition offset (topic_offsets gm.offsets topic)) gm.offsets;
}

abbrev pub not_negative : ℤ → Bool
not_negative n = not (int_lt n (pos 0))

-- `validateMemberGenerationLocked`; `none` is the empty string. A negative generation is not compared.
unfoldable pub member_generation_error : Coordinator → Str → Str → ℤ → Option Error
member_generation_error c group_name member_id generation = elim (lookup group_name c.groups) [
  | none ↦ some group_not_found
  | some group ↦
      if is_empty member_id then some missing_member else elim (lookup member_id group.members) [
        | none ↦ some member_not_found
        | some member ↦
            if not_negative generation && not (int_eq group.generation generation)
            then some gen_mismatch
            else none
      ]
]
