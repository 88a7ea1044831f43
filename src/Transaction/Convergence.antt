-- ===== src/Transaction/Convergence.antt =====
-- Replicated snapshots: replays, regressions, and the order in which they arrive.
use go_broker.Base.{
  ℕ, suc, Bool, is_empty, ◌&&◌, ◌^◌, ◌<◌, ◌≤◌, ◌≡◌, ◌⊎◌, inl, inr, refl, sym, ap, ◌∙◌, true, false,
  not, Option, none, some, [], arith, Str, str_eq, str_eq_iff, str_eq_refl, lookup, lookup-insert,
  lookup-inserted, Distinct, if◌then◌else◌, Bool-cases, list_eq_iff,
}
use go_broker.Base.Int.{int_eq, int_eq_iff, int_lt_trans}
use go_broker.Transaction.Types.{
  state_eq, state_eq_iff, message_operation_eq, message_operation_eq_iff, offset_operation_eq,
  offset_operation_eq_iff, Transaction, Snapshot, Manager, ok, snapshot, transaction_from_snapshot,
  committing, u64_succ,
}
use go_broker.Transaction.Manager.{build_committed_snapshot, commit}
use go_broker.Transaction.Calls.{Call, step, accepted}
use go_broker.Transaction.Replica.{
  snapshot_error, snapshot_is_newer, snapshots_equal, apply_replicated_snapshot,
}
use go_broker.Transaction.Health.{IsSound, IsSound-snapshot_error}
use go_broker.Transaction.Versions.{HasRoom, IsLater, accepted-snapshot_is_newer}

-- No slice of the snapshot is empty and allocated.
abbrev pub no_empty_made : Snapshot → Bool
no_empty_made snap =
    not (is_empty snap.messages && snap.messages_made)
    && not (is_empty snap.offsets && snap.offsets_made)

newer_irrefl : (snap : Snapshot) → snapshot_is_newer (transaction_from_snapshot snap) snap ≡ false
unfolding snapshot_is_newer transaction_from_snapshot
newer_irrefl snap = ground (arith, int_eq_iff snap.epoch snap.epoch)

snapshots_equal_refl :
    (snap : Snapshot)
    → no_empty_made snap ≡ true
    → snapshots_equal (transaction_from_snapshot snap) snap ≡ true
unfolding snapshots_equal transaction_from_snapshot
snapshots_equal_refl snap nils = ground (
  arith,
  str_eq_refl snap.id,
  str_eq_refl snap.producer,
  state_eq_iff snap.state snap.state,
  (list_eq_iff message_operation_eq message_operation_eq_iff snap.messages snap.messages).1 refl,
  (list_eq_iff offset_operation_eq offset_operation_eq_iff snap.offsets snap.offsets).1 refl,
)

-- A snapshot that was accepted is accepted again, and the second time changes nothing. Its slices of
-- messages and offsets, where they are empty, are nil.
pub apply_replicated_idempotent :
    (snap : Snapshot) (m : Manager)
    → no_empty_made snap ≡ true
    → (apply_replicated_snapshot (some snap) m).1 ≡ ok tt
    → apply_replicated_snapshot (some snap) (apply_replicated_snapshot (some snap) m).0
      ≡ ((apply_replicated_snapshot (some snap) m).0, ok tt)
unfolding apply_replicated_snapshot
apply_replicated_idempotent snap m nils h =
    let tx = transaction_from_snapshot snap in
    ground
      (arith, lookup-inserted snap.id tx m.txns, newer_irrefl snap, snapshots_equal_refl snap nils)

newer_snapshot :
    (tx : Transaction) (snap : Snapshot)
    → snapshot_is_newer tx snap ≡ true
    → IsLater tx (transaction_from_snapshot snap)
unfolding snapshot_is_newer transaction_from_snapshot
newer_snapshot tx snap h = elim (Bool-cases (int_eq snap.epoch tx.epoch)) [
  | inl same ↦ inr ((int_eq_iff snap.epoch tx.epoch).0 same, ground arith)
  | inr other ↦ inl (ground arith)
]

apply_replicated-cases :
    (snap : Snapshot) (m : Manager) (j : Str) (tx : Transaction)
    → lookup j m.txns ≡ some tx
    → let after = (apply_replicated_snapshot (some snap) m).0.txns in
      (lookup j after ≡ some tx)
      ⊎ ((snapshot_is_newer tx snap ≡ true)
          × (lookup j after ≡ some (transaction_from_snapshot snap)))
unfolding apply_replicated_snapshot
apply_replicated-cases snap m j tx f =
    ground
      (arith, lookup-insert snap.id j (transaction_from_snapshot snap) m.txns, str_eq_iff snap.id j)

-- Applying a snapshot, whether it is accepted or not, removes no transaction, and leaves each as it was
-- or replaces it by one with a greater epoch, or with the same epoch and a greater revision.
pub apply_replicated_no_regression :
    (snap : Option Snapshot) (m : Manager) (j : Str) (tx : Transaction)
    → lookup j m.txns ≡ some tx
    → (tx' : Transaction) × (lookup j (apply_replicated_snapshot snap m).0.txns ≡ some tx')
      × ((tx' ≡ tx) ⊎ IsLater tx tx')
unfolding apply_replicated_snapshot
apply_replicated_no_regression none m j tx f = (tx, f, inl refl)
apply_replicated_no_regression (some snap) m j tx f = elim (apply_replicated-cases snap m j tx f) [
  | inl same ↦ (tx, same, inl refl)
  | inr (newer, stored) ↦
      (transaction_from_snapshot snap, stored, inr (newer_snapshot tx snap newer))
]

-- Two snapshots of one identifier that have different versions.
abbrev pub SameVersion : Snapshot → Snapshot → Type 0
SameVersion a b = (a.epoch ≡ b.epoch) × (a.revision ≡ b.revision)

-- The transaction that the newer of a stored one and a snapshot leaves.
abbrev newest : Option Transaction → Snapshot → Transaction
newest none snap = transaction_from_snapshot snap
newest (some tx) snap = if snapshot_is_newer tx snap then transaction_from_snapshot snap else tx

lookup-apply :
    (snap : Snapshot) (m : Manager) (j : Str)
    → snapshot_error snap ≡ none
    → lookup j (apply_replicated_snapshot (some snap) m).0.txns
      ≡ (if str_eq snap.id j then some (newest (lookup j m.txns) snap) else lookup j m.txns)
unfolding apply_replicated_snapshot
lookup-apply snap m j v =
    ground
      (arith, lookup-insert snap.id j (transaction_from_snapshot snap) m.txns, str_eq_iff snap.id j)

newer_total :
    (a b : Snapshot)
    → ¬ SameVersion a b
    → snapshot_is_newer (transaction_from_snapshot a) b
      ≡ not (snapshot_is_newer (transaction_from_snapshot b) a)
unfolding snapshot_is_newer transaction_from_snapshot
newer_total a b h = ground (arith, int_eq_iff a.epoch b.epoch, int_eq_iff b.epoch a.epoch, h)

newer_trans :
    (tx : Transaction) (a b : Snapshot)
    → snapshot_is_newer tx a ≡ true
    → snapshot_is_newer (transaction_from_snapshot a) b ≡ true
    → snapshot_is_newer tx b ≡ true
unfolding snapshot_is_newer transaction_from_snapshot
newer_trans tx a b h k = ground (
  arith,
  int_eq_iff a.epoch tx.epoch,
  int_eq_iff b.epoch tx.epoch,
  int_eq_iff b.epoch a.epoch,
  int_lt_trans tx.epoch a.epoch b.epoch,
)

newest_comm :
    (o : Option Transaction) (a b : Snapshot)
    → ¬ SameVersion a b
    → newest (some (newest o a)) b ≡ newest (some (newest o b)) a
newest_comm none a b h = ground (arith, newer_total a b h)
newest_comm (some tx) a b h =
    ground (arith, newer_total a b h, newer_trans tx a b, newer_trans tx b a)

-- Two valid snapshots lead to the same transactions in either order, unless they are two snapshots
-- of one identifier with the same epoch and revision.
pub apply_replicated_comm :
    (a b : Snapshot) (m : Manager) (j : Str)
    → snapshot_error a ≡ none
    → snapshot_error b ≡ none
    → (a.id ≡ b.id → ¬ SameVersion a b)
    → lookup j (apply_replicated_snapshot (some b) (apply_replicated_snapshot (some a) m).0).0.txns
      ≡ lookup j
          (apply_replicated_snapshot (some a) (apply_replicated_snapshot (some b) m).0).0.txns
apply_replicated_comm a b m j va vb h =
    let ma = (apply_replicated_snapshot (some a) m).0 in
    let mb = (apply_replicated_snapshot (some b) m).0 in
    rw
      (lookup-apply b ma j vb, lookup-apply a m j va, lookup-apply a mb j va, lookup-apply b m j vb)
      (elim (Bool-cases (str_eq a.id j)) [
        | inl p ↦ elim (Bool-cases (str_eq b.id j)) [
          | inl q ↦
              rw (p, q)
                (ap some (
                  newest_comm (lookup j m.txns) a b
                    (h ((str_eq_iff a.id j).0 p ∙ sym ((str_eq_iff b.id j).0 q)))))
          | inr q ↦ rw (p, q)
        ]
        | inr p ↦ rw p
      ])

no_empty_made-snapshot : (tx : Transaction) → no_empty_made (snapshot tx) ≡ true
unfolding snapshot
no_empty_made-snapshot tx = ground arith

apply-newer :
    (tx tx' : Transaction) (m : Manager) (j : Str)
    → tx'.id ≡ j
    → snapshot_error (snapshot tx') ≡ none
    → lookup j m.txns ≡ some tx
    → (tx' ≡ tx) ⊎ (snapshot_is_newer tx (snapshot tx') ≡ true)
    → let r = apply_replicated_snapshot (some (snapshot tx')) m in
      (r.1 ≡ ok tt) × (lookup j r.0.txns ≡ some tx')
unfolding apply_replicated_snapshot snapshot transaction_from_snapshot
apply-newer tx tx' m j i v f (inl e) = ground (
  arith,
  newer_irrefl (snapshot tx'),
  snapshots_equal_refl (snapshot tx') (no_empty_made-snapshot tx'),
  lookup-inserted tx'.id tx' m.txns,
)
apply-newer tx tx' m j i v f (inr n) = ground (arith, lookup-inserted tx'.id tx' m.txns)

-- A sound transaction that the coordinator stored by an accepted InitProducer, Begin, AddMessage,
-- AddOffsets, PrepareCommit, Commit, Abort or PruneExpired has a snapshot that every replica accepts
-- that holds what the coordinator held before the call, and the replica then holds the same transaction.
-- What was held before is sound too, and the counters have room.
pub replica_follows :
    (digest : Str → Str) (c : Call) (now clock bound later : ℕ) (leader replica : Manager) (j : Str)
    (tx tx' : Transaction)
    → Distinct leader.txns
    → lookup j leader.txns ≡ some tx
    → IsSound clock bound j tx
    → bound < 2 ^ 61
    → accepted digest c now leader ≡ true
    → lookup j (step digest c now leader).txns ≡ some tx'
    → IsSound later (suc bound) j tx'
    → lookup j replica.txns ≡ some tx
    → let r = apply_replicated_snapshot (some (snapshot tx')) replica in
      (r.1 ≡ ok tt) × (lookup j r.0.txns ≡ some tx')
replica_follows digest c now clock bound later leader replica j tx tx' d f s b k g s' r =
    let room : HasRoom tx = ground (arith, s) in
    let valid = IsSound-snapshot_error later (suc bound) j tx' s' in
    apply-newer tx tx' replica j s'.named valid r
      (accepted-snapshot_is_newer digest c now leader j tx tx' d room f k g)

-- The decision that is replicated is the one that `Commit` would store: on a manager that holds a
-- sound prepared transaction, applying the snapshot of `BuildCommittedSnapshot` is `Commit`.
pub committed_snapshot-commit :
    (now clock bound : ℕ) (m : Manager) (j : Str) (tx : Transaction) (snap : Snapshot)
    → lookup j m.txns ≡ some tx
    → IsSound clock bound j tx
    → tx.state ≡ committing
    → bound < 2 ^ 61
    → clock ≤ now
    → build_committed_snapshot j now m ≡ ok snap
    → apply_replicated_snapshot (some snap) m ≡ commit j now m
unfolding apply_replicated_snapshot build_committed_snapshot commit snapshot_error
committed_snapshot-commit now clock bound m j tx snap f s p b t h =
    unfold snapshot transaction_from_snapshot state_eq u64_succ in
    ground (arith, s, str_eq_iff tx.id [], str_eq_iff tx.producer [], int_eq_iff tx.epoch tx.epoch)
