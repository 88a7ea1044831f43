-- ===== src/Coordinator/Tests.antt =====
-- The theorems on pkg/coordinator at a group of two members with three partitions.
use go_broker.Base.{
  ℕ, ◌≤◌, ◌≡◌, refl, Bool, true, false, none, some, List, [], ◌∷◌, Str, lit, str_eq, str_lt, lookup,
  insert, Distinct, length, ◌⊎◌, ◌/◌, ◌+◌, sort_strings, insert_string, find,
}
use go_broker.Base.Int.{pos}
use go_broker.Coordinator.Types.{
  MemberMetadata, GroupMetadata, Coordinator, OffsetItem, Error, ok, contains, is_pending,
  get_offset_safe, member_generation_error, gen_mismatch,
}
use go_broker.Coordinator.Rebalance.{
  member_ids, rebalance_range, assign_ranges, next_assignments, set_assignments,
}
use go_broker.Coordinator.Rebalance.Members.{has_name}
use go_broker.Coordinator.Rebalance.Ranges.{share, shares}
use go_broker.Coordinator.Rebalance.Owners.{
  distinct_partitions, ranges_cover_partitions, ranges_are_fair, owner_is_unique,
}
use go_broker.Coordinator.Members.{add_consumer}
use go_broker.Coordinator.Offsets.{
  regresses, topic_error, group_topic_matches, batch_error_from, batch_error, fenced,
  commit_offsets_bulk_for_group, validate_and_commit_offsets_bulk,
  apply_fenced_offset_update_from_fsm, get_offset,
}
use go_broker.Coordinator.Calls.{GroupCall, one, fenced_fsm, join, error_of, step, run}
use go_broker.Coordinator.Refusals.{refused_changes_nothing}
use go_broker.Coordinator.History.{offsets_never_regress}
use go_broker.Coordinator.Fencing.{
  by_fsm, joining, IsOwner, accepted_commit_owns, membership_change_fences,
}
use go_broker.Coordinator.Batches.{accepted_batch_stored, replicated_batch_stored}

abbrev orders : Str
orders = lit "orders"

abbrev ann : MemberMetadata
ann = record { id = lit "ann"; last_heartbeat = 1; assignments = pos 0 ∷ pos 1 ∷ [] }

abbrev bob : MemberMetadata
bob = record { id = lit "bob"; last_heartbeat = 1; assignments = pos 2 ∷ [] }

abbrev team : GroupMetadata
team = record {
  topic_name = orders;
  members = (lit "bob", bob) ∷ (lit "ann", ann) ∷ [];
  generation = pos 2;
  partitions = pos 0 ∷ pos 1 ∷ pos 2 ∷ [];
  last_rebalance = 1;
  last_activity = 1;
  offsets = (orders, (pos 0, 5) ∷ []) ∷ [];
  registration_epoch = 1;
  offset_revisions = [];
}

abbrev coordinator : Coordinator
coordinator = record {
  groups = (lit "team", team) ∷ [];
  lifecycle_pending = [];
  standalone = false;
  group_epochs = [];
  ownership_since = [];
}

abbrev batch : List OffsetItem
batch = record { partition = pos 0; offset = 7 } ∷ record { partition = pos 1; offset = 3 } ∷ []

abbrev batch_of_ann : GroupCall
batch_of_ann = fenced_fsm orders (lit "ann") (pos 2) batch

abbrev no_wildcards : Str → Str → Bool
no_wildcards pattern topic = false

stored_before : get_offset coordinator (lit "team") orders (pos 0) ≡ some 5
unfolding get_offset get_offset_safe lookup str_eq find
stored_before = refl

offsets_never_regress_example :
    (y : ℕ) × (get_offset
        (run no_wildcards
          ((join (lit "cat"), lit "team", 4) ∷ (one orders (pos 0) 9 true, lit "team", 5) ∷ [])
          coordinator)
        (lit "team")
        orders
        (pos 0)
      ≡ some y)
    × (5 ≤ y)
offsets_never_regress_example =
    offsets_never_regress no_wildcards
      ((join (lit "cat"), lit "team", 4) ∷ (one orders (pos 0) 9 true, lit "team", 5) ∷ [])
      coordinator (lit "team") orders (pos 0) 5 stored_before

late_call_refused :
    (step no_wildcards (fenced_fsm orders (lit "ann") (pos 1) batch) (lit "team") 4 coordinator).1
    ≡ some gen_mismatch
unfolding step apply_fenced_offset_update_from_fsm fenced is_pending member_generation_error lookup
    str_eq error_of
late_call_refused = refl

refused_changes_nothing_example :
    (step no_wildcards (fenced_fsm orders (lit "ann") (pos 1) batch) (lit "team") 4 coordinator).0
    ≡ coordinator
refused_changes_nothing_example =
    refused_changes_nothing no_wildcards (fenced_fsm orders (lit "ann") (pos 1) batch) (lit "team")
      4 coordinator gen_mismatch late_call_refused

batch_applied :
    (apply_fenced_offset_update_from_fsm no_wildcards
      (lit "team")
      orders
      (lit "ann")
      (pos 2)
      batch
      coordinator).1
    ≡ ok tt
unfolding apply_fenced_offset_update_from_fsm fenced is_pending member_generation_error lookup
    str_eq contains batch_error topic_error group_topic_matches batch_error_from regresses
    get_offset_safe find
batch_applied = refl

batch_accepted : (step no_wildcards batch_of_ann (lit "team") 4 coordinator).1 ≡ none
unfolding step error_of apply_fenced_offset_update_from_fsm fenced is_pending
    member_generation_error lookup str_eq contains batch_error topic_error group_topic_matches
    batch_error_from regresses get_offset_safe find
batch_accepted = refl

batch_committed :
    (validate_and_commit_offsets_bulk no_wildcards
      (lit "team")
      orders
      (lit "ann")
      (pos 2)
      batch
      true
      coordinator).1
    ≡ ok tt
unfolding validate_and_commit_offsets_bulk commit_offsets_bulk_for_group fenced is_pending
    member_generation_error lookup str_eq contains batch_error topic_error group_topic_matches
    batch_error_from regresses get_offset_safe find
batch_committed = refl

in_batch : contains (pos 0 ∷ pos 1 ∷ []) (pos 1) ≡ true
unfolding contains
in_batch = refl

not_in_batch : contains (pos 0 ∷ pos 1 ∷ []) (pos 2) ≡ false
unfolding contains
not_in_batch = refl

accepted_commit_owns_example :
    (gm : GroupMetadata) × IsOwner coordinator (lit "team") (lit "ann") (pos 2) (pos 1) gm
accepted_commit_owns_example =
    accepted_commit_owns no_wildcards batch_of_ann (lit "team") 4 coordinator (lit "ann") (pos 2)
      (pos 0 ∷ pos 1 ∷ []) (pos 1) by_fsm batch_accepted in_batch

cat_joins : (step no_wildcards (join (lit "cat")) (lit "team") 4 coordinator).1 ≡ none
unfolding step error_of add_consumer is_pending lookup str_eq
cat_joins = refl

team_found : lookup (lit "team") coordinator.groups ≡ some team
unfolding lookup str_eq
team_found = refl

membership_change_fences_example :
    let after = (step no_wildcards (join (lit "cat")) (lit "team") 4 coordinator).0 in
    (step no_wildcards batch_of_ann (lit "team") 5 after).0 ≡ after
    × ((e : Error) × ((step no_wildcards batch_of_ann (lit "team") 5 after).1 ≡ some e))
membership_change_fences_example =
    membership_change_fences no_wildcards (join (lit "cat")) batch_of_ann (lit "team") 4 5
      coordinator team (lit "ann") (pos 0 ∷ pos 1 ∷ []) joining cat_joins team_found refl by_fsm

accepted_batch_stored_example :
    let after =
      (validate_and_commit_offsets_bulk no_wildcards
        (lit "team")
        orders
        (lit "ann")
        (pos 2)
        batch
        true
        coordinator).0 in
    (get_offset after (lit "team") orders (pos 1) ≡ some 3)
    × (get_offset after (lit "team") orders (pos 2)
        ≡ get_offset coordinator (lit "team") orders (pos 2))
accepted_batch_stored_example =
    accepted_batch_stored (lit "team") orders batch (pos 1) 3 (pos 2) no_wildcards (lit "ann")
      (pos 2) coordinator true batch_committed refl not_in_batch

replicated_batch_stored_example :
    let after =
      (apply_fenced_offset_update_from_fsm no_wildcards
        (lit "team")
        orders
        (lit "ann")
        (pos 2)
        batch
        coordinator).0 in
    (get_offset after (lit "team") orders (pos 1) ≡ some 3)
    × (get_offset after (lit "team") orders (pos 2)
        ≡ get_offset coordinator (lit "team") orders (pos 2))
replicated_batch_stored_example =
    replicated_batch_stored (lit "team") orders batch (pos 1) 3 (pos 2) no_wildcards (lit "ann")
      (pos 2) coordinator batch_applied refl not_in_batch

team-Distinct : Distinct team.members
unfolding lookup str_eq
team-Distinct = (refl, (refl, tt))

ann_in_team : has_name (lit "ann") (member_ids team.members) ≡ true
unfolding member_ids str_eq
ann_in_team = refl

ranges_cover_partitions_example :
    shares (rebalance_range 4 team).members (sort_strings (member_ids team.members))
    ≡ team.partitions
ranges_cover_partitions_example = ranges_cover_partitions 4 team team-Distinct refl

ranges_are_fair_example :
    (length (share (rebalance_range 4 team).members (lit "ann"))
      ≡ length team.partitions / length team.members)
    ⊎ (length (share (rebalance_range 4 team).members (lit "ann"))
        ≡ length team.partitions / length team.members + 1)
ranges_are_fair_example = ranges_are_fair 4 team team-Distinct refl (lit "ann") ann_in_team

ann_owns : contains (share (rebalance_range 4 team).members (lit "ann")) (pos 1) ≡ true
unfolding rebalance_range assign_ranges next_assignments set_assignments member_ids sort_strings
    insert_string str_lt str_eq lookup insert contains
ann_owns = refl

bob_owns : contains (share (rebalance_range 4 team).members (lit "bob")) (pos 2) ≡ true
unfolding rebalance_range assign_ranges next_assignments set_assignments member_ids sort_strings
    insert_string str_lt str_eq lookup insert contains
bob_owns = refl

each_once : distinct_partitions team.partitions ≡ true
unfolding contains
each_once = refl

owner_is_unique_example : lit "ann" ≡ lit "ann"
owner_is_unique_example =
    owner_is_unique 4 team team-Distinct refl (pos 1) (lit "ann") (lit "ann") each_once ann_in_team
      ann_in_team ann_owns ann_owns
