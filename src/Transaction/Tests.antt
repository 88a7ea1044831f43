-- ===== src/Transaction/Tests.antt =====
-- Runs of the transaction manager, and the theorems at them.
use go_broker.Base.{◌≡◌, refl, false, some, arith, lookup, str_eq}
use go_broker.Base.Int.{pos}
use go_broker.Transaction.Types.{committed, u64_succ, ok, snapshot}
use go_broker.Transaction.Manager.{expire_transaction, commit}
use go_broker.Transaction.Machine.{machine, concerns}
use go_broker.Transaction.Refines.{lookup-step}
use go_broker.Transaction.Events
use go_broker.Transaction.Events.{run_events}
use go_broker.Transaction.Decision.{prepared_survives, prepared-commit}
use go_broker.Transaction.Fencing
use go_broker.Transaction.Fencing.{stale_epoch_refused, init_producer_fences}
use go_broker.Transaction.Calls.{init, message, prepare, step, accepted}
use go_broker.Transaction.Samples.{
  same, txn, owner, message_a, manager_after, open_manager, open_txn, open_found, open-Distinct,
  prepared_manager, prepared_txn, prepared_found, prepared-Distinct, hostile,
}

lookup-step_example :
    lookup txn (step same (prepare txn owner (pos 0)) 14 open_manager).txns ≡ some prepared_txn
unfolding manager_after machine concerns
lookup-step_example = lookup-step same (prepare txn owner (pos 0)) 14 open_manager txn open-Distinct

prepared_survives_example :
    lookup txn (run_events same hostile prepared_manager).txns ≡ some prepared_txn
unfolding manager_after
prepared_survives_example =
    prepared_survives same hostile prepared_manager txn prepared_txn prepared-Distinct
      prepared_found refl refl (unfold Events.may_end snapshot in refl)

prepared-commit_example :
    ((commit txn 30 (run_events same hostile prepared_manager)).1 ≡ ok tt)
    × (lookup txn (commit txn 30 (run_events same hostile prepared_manager)).0.txns
        ≡ some (record prepared_txn { state = committed; revision = u64_succ 5; updated_at = 30 }))
unfolding manager_after
prepared-commit_example =
    prepared-commit same hostile 30 prepared_manager txn prepared_txn prepared-Distinct
      prepared_found refl refl (unfold Events.may_end snapshot in refl)

stale_epoch_refused_example :
    (step same (prepare txn owner (pos 1)) 14 open_manager ≡ open_manager)
    × (accepted same (prepare txn owner (pos 1)) 14 open_manager ≡ false)
stale_epoch_refused_example =
    stale_epoch_refused same (prepare txn owner (pos 1)) 14 open_manager txn (pos 1) open_txn
      open_found (unfold Fencing.carries str_eq in refl) (λ e. ground arith)

-- The first producer's calls after a second one has initialised.
init_producer_fences_example :
    let m = step same (init txn) 20 open_manager in
    (step same (message txn owner (pos 0) message_a) 21 m ≡ m)
    × (accepted same (message txn owner (pos 0) message_a) 21 m ≡ false)
init_producer_fences_example =
    init_producer_fences same 20 21 open_manager txn open_txn (message txn owner (pos 0) message_a)
      open_found (unfold manager_after expire_transaction in refl)
      (unfold Fencing.carries str_eq in refl)
