-- ===== src/Transaction/Manager/Decisions.antt =====
-- `PrepareCommit`, `Commit`, `Abort`, the readers and the decision snapshots of
-- pkg/transaction/manager.go.
use go_broker.Base.{
  ℕ, not, ◌||◌, Option, none, some, List, [], ◌∷◌, if◌then◌else◌, Str, Map, lookup, insert, erase,
  any,
}
use go_broker.Base.Int.{ℤ, int_eq}
use go_broker.Transaction.Types.{
  State, opened, committing, committed, aborted, unknown, state_eq, Transaction, Snapshot, Manager,
  not_found, is_aborted, not_prepared, already_committed, not_open, cannot_abort, Result, ok, err,
  u64_succ, clone, snapshot,
}
use go_broker.Transaction.Manager.Staging.{owner_error}

-- The lookup and owner check that four methods share.
unfoldable pub find_owned : Str → Str → ℤ → Manager → Result Transaction
unfolding owner_error
find_owned id producer epoch m = elim (lookup id m.txns) [
  | none ↦ err not_found
  | some tx ↦ elim (owner_error tx producer epoch) [ some e ↦ err e | none ↦ ok tx ]
]

-- The `switch` of `PrepareCommit`.
unfoldable pub prepare : State → Str → ℕ → Manager → Transaction → Manager × Result Transaction
prepare opened id now m tx =
    let tx' = record tx { state = committing; revision = u64_succ tx.revision; updated_at = now } in
    (record m { txns = insert id tx' m.txns }, ok (clone tx'))
prepare committing id now m tx = (m, ok (clone tx))
prepare committed id now m tx = (m, ok (clone tx))
prepare aborted id now m tx = (m, err is_aborted)
prepare (unknown s) id now m tx = (m, err (not_open (unknown s)))

unfoldable pub prepare_commit : Str → Str → ℤ → ℕ → Manager → Manager × Result Transaction
unfolding find_owned prepare
prepare_commit id producer epoch now m = elim (find_owned id producer epoch m) [
  | err e ↦ (m, err e)
  | ok tx ↦ prepare tx.state id now m tx
]

unfoldable pub commit : Str → ℕ → Manager → Manager × Result (Unit {0})
commit id now m = elim (lookup id m.txns) [
  | none ↦ (m, err not_found)
  | some tx ↦
      if not (state_eq tx.state committing)
      then (m, err not_prepared)
      else (let tx' = record tx {
        state = committed;
        revision = u64_succ tx.revision;
        updated_at = now;
      } in
          (record m { txns = insert id tx' m.txns }, ok tt))
]

-- The tests of `Abort` on the state, in their order.
unfoldable pub abort_from : State → Str → ℕ → Manager → Transaction → Manager × Result (Unit {0})
abort_from committed id now m tx = (m, err already_committed)
abort_from aborted id now m tx = (m, ok tt)
abort_from committing id now m tx = (m, err (cannot_abort committing))
abort_from _ id now m tx =
    let tx' = record tx {
      state = aborted;
      messages = [];
      offsets = [];
      revision = u64_succ tx.revision;
      updated_at = now;
    } in
    (record m { txns = insert id tx' m.txns }, ok tt)

unfoldable pub abort : Str → Str → ℤ → ℕ → Manager → Manager × Result (Unit {0})
unfolding find_owned abort_from
abort id producer epoch now m = elim (find_owned id producer epoch m) [
  | err e ↦ (m, err e)
  | ok tx ↦ abort_from tx.state id now m tx
]

unfoldable pub validate_owner : Str → Str → ℤ → Manager → Result Transaction
unfolding find_owned
validate_owner id producer epoch m = elim (find_owned id producer epoch m) [
  | err e ↦ err e
  | ok tx ↦ ok (clone tx)
]

unfoldable pub status : Str → Manager → Result Transaction
status id m = elim (lookup id m.txns) [
  | none ↦ err not_found
  | some tx ↦ if tx.expired then err not_found else ok (clone tx)
]

-- `none` is the result ("", false).
unfoldable pub transaction_decision : Str → ℤ → Manager → Option State
transaction_decision id epoch m = elim (lookup id m.txns) [
  | none ↦ none
  | some tx ↦ if tx.expired || not (int_eq tx.epoch epoch) then none else some tx.state
]

unfoldable pub committed_snapshot_of : State → ℕ → Transaction → Result Snapshot
committed_snapshot_of committed now tx = ok (snapshot tx)
committed_snapshot_of committing now tx =
    let snap = snapshot tx in
    ok (record snap { state = committed; revision = u64_succ snap.revision; updated_at = now })
committed_snapshot_of _ now tx = err not_prepared

unfoldable pub build_committed_snapshot : Str → ℕ → Manager → Result Snapshot
unfolding committed_snapshot_of
build_committed_snapshot id now m = elim (lookup id m.txns) [
  | none ↦ err not_found
  | some tx ↦ committed_snapshot_of tx.state now tx
]

unfoldable pub aborted_snapshot_of : State → ℕ → Transaction → Result Snapshot
aborted_snapshot_of committed now tx = err already_committed
aborted_snapshot_of aborted now tx = ok (snapshot tx)
aborted_snapshot_of committing now tx = err (cannot_abort committing)
aborted_snapshot_of opened now tx =
    let snap = snapshot tx in
    ok (record snap { state = aborted; revision = u64_succ snap.revision; updated_at = now })
aborted_snapshot_of (unknown s) now tx = err (cannot_abort (unknown s))

unfoldable pub build_aborted_snapshot : Str → Str → ℤ → ℕ → Manager → Result Snapshot
unfolding find_owned aborted_snapshot_of
build_aborted_snapshot id producer epoch now m = elim (find_owned id producer epoch m) [
  | err e ↦ err e
  | ok tx ↦ aborted_snapshot_of tx.state now tx
]

-- The clones of the transactions that have not expired and are in one of the states.
unfoldable pub transactions_by_state : List State → Map Transaction → List Transaction
transactions_by_state states [] = []
transactions_by_state states ((id, tx) ∷ m) =
    let rest = transactions_by_state states m in
    if tx.expired then rest else if any (state_eq tx.state) states then clone tx ∷ rest else rest

-- `Delete`
unfoldable pub delete : Str → Manager → Manager
delete id m = record m { txns = erase id m.txns }
