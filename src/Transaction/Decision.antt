-- ===== src/Transaction/Decision.antt =====
-- Prepared transactions: what it takes to end one, and that `Commit` then stores what was prepared.
use go_broker.Base.{
  ℕ, ◌≡◌, true, false, not, some, List, [], ◌∷◌, arith, Str, str_eq_iff, lookup, lookup-insert,
  Distinct, all,
}
use go_broker.Transaction.Types.{
  committing, committed, state_eq, Transaction, Manager, u64_succ, ok,
}
use go_broker.Transaction.Manager.{commit}
use go_broker.Transaction.Events.{Event, run_events, may_end}
use go_broker.Transaction.Survival.{Distinct-step_event, step_event-committing}

-- A prepared transaction that has not expired is found unchanged after every history of producer
-- calls, prunings of expired transactions, replicated and restored snapshots, deletions and topic
-- prunings, for any identifiers, producers, epochs and times, with no Commit of its identifier, no
-- snapshot of it that is replicated with a later version or restored by ApplySnapshot, no Delete of it
-- and no import. The keys of the map are distinct.
pub prepared_survives :
    (digest : Str → Str) (events : List Event) (m : Manager) (j : Str) (tx : Transaction)
    → Distinct m.txns
    → lookup j m.txns ≡ some tx
    → tx.state ≡ committing
    → tx.expired ≡ false
    → all (λ e. not (may_end j tx e)) events ≡ true
    → lookup j (run_events digest events m).txns ≡ some tx
unfolding run_events
prepared_survives digest [] m j tx d f h x n = f
prepared_survives digest (e ∷ events) m j tx d f h x n =
    let stays : may_end j tx e ≡ false = ground arith in
    prepared_survives digest events _ j tx (Distinct-step_event digest e m j tx stays d)
      (step_event-committing digest m j tx e d f h x stays) h x (ground arith)

-- Commit of a prepared transaction that has not expired succeeds, and stores it as committed with the
-- operations and the epoch that it was prepared with, the next revision and the time of the call. In
-- between there may be any producer calls, prunings of expired transactions, replicated and restored
-- snapshots, deletions and topic prunings, but no Commit of its identifier, no snapshot of it that is
-- replicated with a later version or restored by ApplySnapshot, no Delete of it and no import. The keys
-- of the map are distinct.
pub prepared-commit :
    (digest : Str → Str) (events : List Event) (now : ℕ) (m : Manager) (j : Str) (tx : Transaction)
    → Distinct m.txns
    → lookup j m.txns ≡ some tx
    → tx.state ≡ committing
    → tx.expired ≡ false
    → all (λ e. not (may_end j tx e)) events ≡ true
    → ((commit j now (run_events digest events m)).1 ≡ ok tt)
      × (lookup j (commit j now (run_events digest events m)).0.txns
          ≡ some
              (record tx { state = committed; revision = u64_succ tx.revision; updated_at = now }))
unfolding commit state_eq
prepared-commit digest events now m j tx d f h x n =
    let g = prepared_survives digest events m j tx d f h x n in
    grind (arith, lookup-insert, str_eq_iff)
