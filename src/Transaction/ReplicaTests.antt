-- ===== src/Transaction/ReplicaTests.antt =====
-- The theorems on versions, imports, replicas, offsets and topics at concrete histories.
use go_broker.Base.{
  ◌≡◌, ◌⊎◌, ◌↔◌, ◌≤◌, refl, true, false, none, some, List, [], ◌∷◌, arith, lit, lookup, str_eq,
}
use go_broker.Base.Int.{pos}
use go_broker.Transaction.Types.{
  committed, Transaction, OffsetOperation, Snapshot, Manager, snapshot, ok, err, offset_regression,
  topic_in_use,
}
use go_broker.Transaction.Manager.{
  new_manager, new_manager_with_expiration, same_scope, same_slot, add_offsets, put_offset,
  put_offsets, offset_scope, active_owned, build_committed_snapshot, commit,
}
use go_broker.Transaction.Calls.{prepare, decide, step, succeeds, run}
use go_broker.Transaction.Samples.{
  same, txn, owner, message_a, offset_at, opening, manager_after, open_manager, open_txn,
  open_found, open-Distinct, prepared_manager, prepared_txn, prepared_found,
}
use go_broker.Transaction.Versions.{IsLater, accepted-newer}
use go_broker.Transaction.Health.{
  IsSound, IsSound-snapshot_error, IsHealthy, run-IsHealthy, import-export_run,
}
use go_broker.Transaction.Replica.{
  valid_state, snapshot_error, snapshot_is_newer, export_state, import_state,
  apply_replicated_snapshot,
}
use go_broker.Transaction.Convergence.{
  apply_replicated_idempotent, apply_replicated_no_regression, apply_replicated_comm,
  replica_follows, committed_snapshot-commit,
}
use go_broker.Transaction.Offsets.{
  find_slot, latest, find_slot-put_offsets, put_offsets_grows, add_offsets_partial,
}
use go_broker.Transaction.Topics.{prune_topic_references}
use go_broker.Transaction.Deletion.{
  some_transaction, holds, is_running, NoReference, erase_topic, prune_refused_iff, prune_accepted,
}

accepted-newer_example : (prepared_txn ≡ open_txn) ⊎ IsLater open_txn prepared_txn
accepted-newer_example =
    accepted-newer same (prepare txn owner (pos 0)) 14 open_manager txn open_txn prepared_txn
      open-Distinct (ground arith) open_found (unfold manager_after in refl) prepared_found

new_manager-IsHealthy : IsHealthy 1 0 new_manager
unfolding new_manager lookup
new_manager-IsHealthy j tx h = cc

run-IsHealthy_example : IsHealthy 13 4 (run same opening new_manager)
run-IsHealthy_example =
    run-IsHealthy same opening 1 0 new_manager (unfold new_manager in tt) new_manager-IsHealthy
      (omega arith) (omega arith) (omega arith)

import-export_run_example :
    import_state
      (export_state (run same opening (new_manager_with_expiration (pos 5))))
      open_manager
    ≡ (
      record open_manager { txns = (run same opening (new_manager_with_expiration (pos 5))).txns },
      ok tt,
    )
import-export_run_example =
    import-export_run same opening 1 (pos 5) open_manager (omega arith) (omega arith) (omega arith)

open-IsSound : IsSound 13 4 txn open_txn
open-IsSound = unfold valid_state in ground arith

prepared-IsSound : IsSound 14 5 txn prepared_txn
prepared-IsSound = unfold valid_state in ground arith

open_valid : snapshot_error (snapshot open_txn) ≡ none
open_valid = IsSound-snapshot_error 13 4 txn open_txn open-IsSound

prepared_valid : snapshot_error (snapshot prepared_txn) ≡ none
prepared_valid = IsSound-snapshot_error 14 5 txn prepared_txn prepared-IsSound

-- A replica that is behind takes the prepared snapshot, twice.
apply_replicated_idempotent_example :
    let m = (apply_replicated_snapshot (some (snapshot prepared_txn)) open_manager).0 in
    apply_replicated_snapshot (some (snapshot prepared_txn)) m ≡ (m, ok tt)
apply_replicated_idempotent_example =
    apply_replicated_idempotent (snapshot prepared_txn) open_manager (unfold snapshot in refl) (
      unfold manager_after apply_replicated_snapshot snapshot_error snapshot_is_newer valid_state in
      refl)

-- A replica that is ahead keeps what it has.
apply_replicated_no_regression_example :
    (tx' : Transaction) × (lookup txn
        (apply_replicated_snapshot (some (snapshot open_txn)) prepared_manager).0.txns
      ≡ some tx')
    × ((tx' ≡ prepared_txn) ⊎ IsLater prepared_txn tx')
apply_replicated_no_regression_example =
    apply_replicated_no_regression (some (snapshot open_txn)) prepared_manager txn prepared_txn
      prepared_found

apply_replicated_comm_example :
    lookup txn
      (apply_replicated_snapshot
        (some (snapshot prepared_txn))
        (apply_replicated_snapshot (some (snapshot open_txn)) new_manager).0).0.txns
    ≡ lookup txn
        (apply_replicated_snapshot
          (some (snapshot open_txn))
          (apply_replicated_snapshot (some (snapshot prepared_txn)) new_manager).0).0.txns
apply_replicated_comm_example =
    apply_replicated_comm (snapshot open_txn) (snapshot prepared_txn) new_manager txn open_valid
      prepared_valid (λ e v. unfold snapshot in omega (arith, v.1))

replica_follows_example :
    let r = apply_replicated_snapshot (some (snapshot prepared_txn)) open_manager in
    (r.1 ≡ ok tt) × (lookup txn r.0.txns ≡ some prepared_txn)
replica_follows_example =
    replica_follows same (prepare txn owner (pos 0)) 14 13 4 14 open_manager open_manager txn
      open_txn prepared_txn open-Distinct open_found open-IsSound (omega arith)
      (unfold manager_after in refl) prepared_found prepared-IsSound open_found

abbrev decision : Snapshot
decision = record {
  id = txn;
  producer = owner;
  epoch = pos 0;
  revision = 6;
  ready = false;
  expired = false;
  state = committed;
  messages = message_a ∷ [];
  messages_made = false;
  offsets = offset_at 0 5 ∷ [];
  offsets_made = false;
  created_at = 11;
  updated_at = 15;
}

committed_snapshot-commit_example :
    apply_replicated_snapshot (some decision) prepared_manager ≡ commit txn 15 prepared_manager
committed_snapshot-commit_example =
    committed_snapshot-commit 15 14 5 prepared_manager txn prepared_txn decision prepared_found
      prepared-IsSound refl (omega arith) (omega arith)
      (unfold manager_after build_committed_snapshot in refl)

-- Two partitions, one of them named twice.
staged : List OffsetOperation
staged = offset_at 1 7 ∷ offset_at 0 6 ∷ offset_at 1 8 ∷ []

find_slot-put_offsets_example :
    find_slot (offset_at 1 0) (offset_at 0 6 ∷ offset_at 1 8 ∷ [])
    ≡ latest (offset_at 1 0) staged (find_slot (offset_at 1 0) (offset_at 0 5 ∷ []))
find_slot-put_offsets_example =
    find_slot-put_offsets staged (offset_at 0 5 ∷ []) (offset_at 0 6 ∷ offset_at 1 8 ∷ [])
      (offset_at 1 0) (unfold staged put_offsets same_slot str_eq in refl)

put_offsets_grows_example :
    (y : OffsetOperation) × (find_slot (offset_at 0 0) (offset_at 0 6 ∷ offset_at 1 8 ∷ [])
      ≡ some y)
    × (5 ≤ y.offset)
put_offsets_grows_example =
    put_offsets_grows staged (offset_at 0 5 ∷ []) (offset_at 0 6 ∷ offset_at 1 8 ∷ [])
      (offset_at 0 0) (offset_at 0 5) (unfold staged put_offsets same_slot str_eq in refl)
      (unfold find_slot same_slot str_eq in refl)

-- Partition 1 is new, partition 0 goes back from 5 to 4: the call fails and partition 1 stays staged.
add_offsets_partial_example :
    let r = add_offsets txn owner (pos 0) (offset_at 1 7 ∷ offset_at 0 4 ∷ []) 15 open_manager in
    (r.1 ≡ err offset_regression)
    × (lookup txn r.0.txns
        ≡ some (record open_txn { offsets = offset_at 0 5 ∷ offset_at 1 7 ∷ [] }))
add_offsets_partial_example =
    add_offsets_partial txn owner (pos 0) (offset_at 1 7) (offset_at 0 4) []
      (offset_at 0 5 ∷ offset_at 1 7 ∷ []) 15 open_manager open_txn
      (unfold manager_after active_owned in refl) (unfold same_scope offset_scope str_eq in refl)
      (unfold put_offset same_slot str_eq in refl) (unfold put_offset same_slot str_eq in refl)

prune_refused_iff_example :
    (prune_topic_references (lit "a") open_manager ≡ (open_manager, err topic_in_use))
    ↔ (some_transaction (holds (lit "a")) open_manager.txns ≡ true)
prune_refused_iff_example = prune_refused_iff (lit "a") open_manager

decided_manager : Manager
decided_manager = step same (decide txn) 15 prepared_manager

prune_accepted_example :
    (succeeds (prune_topic_references (lit "a") decided_manager).1 ≡ true)
    × ((prune_topic_references (lit "a") decided_manager).0
        ≡ record decided_manager { txns = erase_topic (lit "a") decided_manager.txns })
    × NoReference (lit "a") (prune_topic_references (lit "a") decided_manager).0.txns
prune_accepted_example =
    prune_accepted (lit "a") decided_manager
      (unfold decided_manager manager_after some_transaction is_running in refl)
