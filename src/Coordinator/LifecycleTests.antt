-- ===== src/Coordinator/LifecycleTests.antt =====
-- The theorems on registrations and deletions (pkg/coordinator/rebalancer.go), at a group that was
-- deleted before.
use go_broker.Base.{
  ◌^◌, ◌<◌, ◌≡◌, refl, Bool, true, false, none, some, [], ◌∷◌, arith, lit, Str, lookup, str_eq,
}
use go_broker.Base.Int.{pos}
use go_broker.Coordinator.Types.{GroupMetadata, Coordinator, write_failed, ok, err, is_pending}
use go_broker.Coordinator.Calls.{join, step}
use go_broker.Coordinator.Lifecycle.{
  writing, epoch_of, next_epoch, start_writing, register_group_begin, register_group_end,
  delete_group_begin, delete_group_end,
}
use go_broker.Coordinator.Epochs.{
  joins, registration_raises_epoch, failed_registration_rolls_back, registration_keeps_calls_out,
  deletion_raises_epoch,
}

abbrev empty : Coordinator
empty = record {
  groups = [];
  lifecycle_pending = [];
  standalone = true;
  group_epochs = (lit "team", 3) ∷ [];
  ownership_since = [];
}

abbrev idle_group : GroupMetadata
idle_group = record {
  topic_name = lit "orders";
  members = [];
  generation = pos 2;
  partitions = pos 0 ∷ [];
  last_rebalance = 1;
  last_activity = 1;
  offsets = [];
  registration_epoch = 4;
  offset_revisions = [];
}

abbrev registered : Coordinator
registered = record {
  groups = (lit "team", idle_group) ∷ [];
  lifecycle_pending = [];
  standalone = true;
  group_epochs = (lit "team", 4) ∷ [];
  ownership_since = [];
}

abbrev same : Str → Str → Bool
same pattern topic = false

registering : (register_group_begin same (lit "orders") (lit "team") (pos 2) 7 empty).1 ≡ writing 4
unfolding register_group_begin start_writing next_epoch epoch_of lookup str_eq
registering = refl

registered_at_end :
    (register_group_end (lit "orders") (lit "team") (pos 2) 7 4 false true empty).1 ≡ ok tt
unfolding register_group_end lookup str_eq
registered_at_end = refl

small_epoch : epoch_of empty (lit "team") < 2 ^ 64
unfolding epoch_of lookup str_eq
small_epoch = omega arith

not_pending : is_pending empty (lit "team") ≡ false
unfolding is_pending lookup str_eq
not_pending = refl

registration_raises_epoch_example :
    let after = (register_group_end (lit "orders") (lit "team") (pos 2) 7 4 false true empty).0 in
    (epoch_of empty (lit "team") < 4)
    × (epoch_of after (lit "team") ≡ 4)
    × ((group : GroupMetadata) × (lookup (lit "team") after.groups ≡ some group)
        × (group.registration_epoch ≡ 4))
registration_raises_epoch_example =
    registration_raises_epoch same (lit "orders") (lit "team") (pos 2) 7 4 empty false empty
      small_epoch registering registered_at_end

failed_registration_rolls_back_example :
    let c' = (register_group_begin same (lit "orders") (lit "team") (pos 2) 7 empty).0 in
    let (after, r) = register_group_end (lit "orders") (lit "team") (pos 2) 7 4 false false c' in
    (r ≡ err write_failed)
    × (after.groups ≡ empty.groups)
    × (after.group_epochs ≡ empty.group_epochs)
    × (is_pending after (lit "team") ≡ is_pending empty (lit "team"))
failed_registration_rolls_back_example =
    failed_registration_rolls_back same (lit "orders") (lit "team") (pos 2) 7 4 empty false
      (lit "team") not_pending registering

registration_keeps_calls_out_example :
    let c' = (register_group_begin same (lit "orders") (lit "team") (pos 2) 7 empty).0 in
    (step same (join (lit "ann")) (lit "team") 8 c').0 ≡ c'
registration_keeps_calls_out_example =
    registration_keeps_calls_out same (lit "orders") (lit "team") (pos 2) 7 4 empty
      (join (lit "ann")) 8 joins registering

team_found : lookup (lit "team") registered.groups ≡ some idle_group
unfolding lookup str_eq
team_found = refl

deleting : (delete_group_begin (lit "team") registered).1 ≡ writing 5
unfolding delete_group_begin start_writing next_epoch epoch_of lookup str_eq
deleting = refl

deleted : (delete_group_end (lit "team") 5 true registered).1 ≡ ok tt
unfolding delete_group_end lookup str_eq
deleted = refl

small_registered : epoch_of registered (lit "team") < 2 ^ 64
unfolding epoch_of lookup str_eq
small_registered = omega arith

deletion_raises_epoch_example :
    let after = (delete_group_end (lit "team") 5 true registered).0 in
    (lookup (lit "team") after.groups ≡ none)
    × (epoch_of after (lit "team") ≡ 5)
    × (epoch_of registered (lit "team") < 5)
    × (4 < 5)
deletion_raises_epoch_example =
    deletion_raises_epoch (lit "team") 5 registered idle_group registered team_found (omega arith)
      small_registered deleting deleted
