-- ===== src/Coordinator/Lifecycle.antt =====
-- Registration and deletion of groups, `RegisterGroup` and `DeleteGroup` of
-- pkg/coordinator/rebalancer.go. Each gives up the coordinator's lock while the durable record is
-- written, so it is two steps, the one before the write and the one after, and other calls run in
-- between. The calls mutate a group in place: that the map holds the same group after the write is that
-- it holds one.
use go_broker.Base.{
  ℕ, zero, suc, ◌+◌, ◌%◌, ◌^◌, Bool, true, not, ◌&&◌, ◌||◌, none, some, List, [], ◌∷◌, ◌++◌, ltb,
  ◌==◌, if◌then◌else◌, Str, str_eq, lookup, insert, erase, length, is_empty, any,
}
use go_broker.Base.Int.{ℤ, pos, negsuc, int_eq, int_lt}
use go_broker.Coordinator.Types.{
  GroupMetadata, Coordinator, empty_name, invalid_partition_count, topic_mismatch,
  partition_count_mismatch, epoch_overflow, legacy_offsets, active_members, write_failed,
  group_changed, Result, ok, err,
}
use go_broker.Coordinator.Members.{set_group}
use go_broker.Coordinator.Offsets.{group_topic_matches}

-- How the first step ends: with the call's result, or with a record to write, of this epoch.
pub data Phase : Type 0 where
  ended : Result (Unit {0}) → Phase
  writing : ℕ → Phase

unfoldable pub partitions_below : ℕ → List ℤ
partitions_below zero = []
partitions_below (suc n) = partitions_below n ++ (pos n ∷ [])

-- `makePartitions`, whose argument is never negative: Go's `make` would panic.
unfoldable pub make_partitions : ℤ → List ℤ
unfolding partitions_below
make_partitions (pos n) = partitions_below n
make_partitions (negsuc n) = []

-- `c.groupEpochs[groupName]`, 0 for a missing key
unfoldable pub epoch_of : Coordinator → Str → ℕ
epoch_of c name = elim (lookup name c.group_epochs) [ none ↦ 0 | some e ↦ e ]

abbrev pub set_pending : Str → Coordinator → Coordinator
set_pending name c = record c { lifecycle_pending = insert name true c.lifecycle_pending }

abbrev pub clear_pending : Str → Coordinator → Coordinator
clear_pending name c = record c { lifecycle_pending = erase name c.lifecycle_pending }

abbrev pub set_epoch : Str → ℕ → Coordinator → Coordinator
set_epoch name epoch c = record c { group_epochs = insert name epoch c.group_epochs }

-- The topic, the activity and, if there are none, the partitions of a registered group.
unfoldable pub described : Str → ℤ → ℕ → GroupMetadata → GroupMetadata
unfolding make_partitions
described topic count now group = record group {
  topic_name = topic;
  last_activity = now;
  partitions = if is_empty group.partitions then make_partitions count else group.partitions;
}

unfoldable pub new_group : Str → ℤ → ℕ → ℕ → GroupMetadata
unfolding make_partitions
new_group topic count now epoch = record {
  topic_name = topic;
  members = [];
  generation = pos 0;
  partitions = make_partitions count;
  last_rebalance = 0;
  last_activity = now;
  offsets = [];
  registration_epoch = epoch;
  offset_revisions = [];
}

-- A record to write for the next epoch, unless it wraps to 0.
unfoldable pub start_writing : Str → ℕ → Coordinator → Coordinator × Phase
start_writing name epoch c =
    if epoch == 0 then (c, ended (err epoch_overflow)) else (set_pending name c, writing epoch)

unfoldable pub next_epoch : ℕ → ℕ
next_epoch e = (e + 1) % 2 ^ 64

module _ (matches : Str → Str → Bool) where
  -- The group that is there already.
  unfoldable pub register_existing :
      Str → Str → ℤ → ℕ → GroupMetadata → Coordinator → Coordinator × Phase
  unfolding described start_writing epoch_of next_epoch
  register_existing topic name count now group c =
      if not (is_empty group.topic_name) && not (str_eq group.topic_name topic)
      then (c, ended (err topic_mismatch))
      else if not (is_empty group.partitions) && not (int_eq (pos (length group.partitions)) count)
      then (c, ended (err partition_count_mismatch))
      else if not (group.registration_epoch == 0)
      then (
        set_group
            (if ltb (epoch_of c name) group.registration_epoch
              then set_epoch name group.registration_epoch c
              else c)
            name (described topic count now group),
        ended (ok tt),
      )
      else if next_epoch (epoch_of c name) == 0
      then (c, ended (err epoch_overflow))
      else if any (λ entry. not (group_topic_matches matches topic entry.0)) group.offsets
      then (c, ended (err legacy_offsets))
      else start_writing name (next_epoch (epoch_of c name)) c

  unfoldable pub register_group_begin : Str → Str → ℤ → ℕ → Coordinator → Coordinator × Phase
  unfolding register_existing start_writing epoch_of next_epoch
  register_group_begin topic name count now c =
      if is_empty topic || is_empty name
      then (c, ended (err empty_name))
      else if not (int_lt (pos 0) count)
      then (c, ended (err invalid_partition_count))
      else elim (lookup name c.groups) [
        | some group ↦ register_existing topic name count now group c
        | none ↦ start_writing name (next_epoch (epoch_of c name)) c
      ]

-- The step after the write; `existed` says whether the call found the group.
unfoldable pub register_group_end :
    Str → Str → ℤ → ℕ → ℕ → Bool → Bool → Coordinator → Coordinator × Result (Unit {0})
unfolding described new_group
register_group_end topic name count now epoch existed written before =
    let c = clear_pending name before in
    if not written then (c, err write_failed) else elim (lookup name c.groups) [
      | some group ↦
          if existed
          then (
            set_epoch name epoch (
                set_group c name
                  (described topic count now (record group { registration_epoch = epoch }))),
            ok tt,
          )
          else (c, err group_changed)
      | none ↦
          if existed
          then (c, err group_changed)
          else (set_epoch name epoch (set_group c name (new_group topic count now epoch)), ok tt)
    ]

unfoldable pub delete_group_begin : Str → Coordinator → Coordinator × Phase
unfolding start_writing epoch_of next_epoch
delete_group_begin name c =
    if is_empty name then (c, ended (err empty_name)) else elim (lookup name c.groups) [
      | none ↦ (c, ended (ok tt))
      | some group ↦
          if not (is_empty group.members)
          then (c, ended (err active_members))
          else start_writing name
              (next_epoch (
                if ltb (epoch_of c name) group.registration_epoch
                then group.registration_epoch
                else epoch_of c name))
              c
    ]

unfoldable pub delete_group_end : Str → ℕ → Bool → Coordinator → Coordinator × Result (Unit {0})
delete_group_end name epoch written before =
    let c = clear_pending name before in
    if not written then (c, err write_failed) else elim (lookup name c.groups) [
      | none ↦ (c, err group_changed)
      | some group ↦ (
        set_epoch name epoch (record c {
          groups = erase name c.groups;
          ownership_since = erase name c.ownership_since;
        }),
        ok tt,
      )
    ]
