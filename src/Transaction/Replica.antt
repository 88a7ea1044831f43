-- ===== src/Transaction/Replica.antt =====
-- Export, import and the replicated snapshots of `Manager` in pkg/transaction/manager.go. The
-- errors of the import carry no position; a snapshot pointer that may be nil is an option.
use go_broker.Base.{
  Bool, true, false, not, ◌&&◌, ◌||◌, Option, none, some, List, [], ◌∷◌, ltb, ◌==◌, if◌then◌else◌,
  Str, str_eq, Map, lookup, insert, bool_eq, list_eq, is_empty,
}
use go_broker.Base.Int.{pos, int_eq, int_lt}
use go_broker.Transaction.Types.{
  State, committing, committed, unknown, state_eq, message_operation_eq, offset_operation_eq,
  Transaction, Snapshot, Manager, Error, invalid_identity, negative_epoch, missing_revision,
  invalid_state, invalid_timestamps, stale_snapshot, nil_snapshot, key_mismatch, Result, ok, err,
  u64_succ, snapshot, transaction_from_snapshot,
}

unfoldable pub valid_state : State → Bool
valid_state (unknown s) = false
valid_state _ = true

-- `validateSnapshot`: the error, or none.
unfoldable pub snapshot_error : Snapshot → Option Error
unfolding valid_state
snapshot_error snap =
    if str_eq snap.id [] || str_eq snap.producer []
    then some invalid_identity
    else if int_lt snap.epoch (pos 0)
    then some negative_epoch
    else if snap.revision == 0
    then some missing_revision
    else if not (valid_state snap.state)
    then some invalid_state
    else if snap.created_at == 0 || snap.updated_at == 0 || ltb snap.updated_at snap.created_at
    then some invalid_timestamps
    else none

-- One entry of the loop of `ValidateImportState`.
unfoldable pub import_entry_error : Str → Option Snapshot → Option Error
unfolding snapshot_error
import_entry_error id none = some nil_snapshot
import_entry_error id (some snap) =
    if not (str_eq snap.id id) then some key_mismatch else snapshot_error snap

unfoldable pub validate_import_state : Map (Option Snapshot) → Option Error
unfolding import_entry_error
validate_import_state [] = none
validate_import_state ((id, snap) ∷ rest) =
    let later = validate_import_state rest in
    elim (import_entry_error id snap) [ some e ↦ some e | none ↦ later ]

unfoldable pub export_entries : Map Transaction → Map (Option Snapshot)
export_entries [] = []
export_entries ((id, tx) ∷ m) = (id, some (snapshot tx)) ∷ export_entries m

unfoldable pub export_state : Manager → Map (Option Snapshot)
export_state m = export_entries m.txns

-- The loop of `ImportState`, which runs after the validation has refused every nil.
unfoldable pub import_entries : Map (Option Snapshot) → Map Transaction
import_entries [] = []
import_entries ((id, none) ∷ rest) = import_entries rest
import_entries ((id, some snap) ∷ rest) = (id, transaction_from_snapshot snap) ∷ import_entries rest

unfoldable pub import_state : Map (Option Snapshot) → Manager → Manager × Result (Unit {0})
import_state state m = elim (validate_import_state state) [
  | some e ↦ (m, err e)
  | none ↦ (record m { txns = import_entries state }, ok tt)
]

unfoldable pub apply_snapshot : Option Snapshot → Manager → Manager
apply_snapshot none m = m
apply_snapshot (some snap) m =
    if str_eq snap.id []
    then m
    else record m { txns = insert snap.id (transaction_from_snapshot snap) m.txns }

unfoldable pub snapshot_is_newer : Transaction → Snapshot → Bool
snapshot_is_newer current incoming =
    if not (int_eq incoming.epoch current.epoch)
    then int_lt current.epoch incoming.epoch
    else if not (incoming.revision == current.revision)
    then ltb current.revision incoming.revision
    else false

-- `reflect.DeepEqual` of a stored slice, which is nil where it is empty, and one that is allocated or
-- not.
unfoldable pub deep_equal {ℓ} : {A : Type ℓ} → (A → A → Bool) → List A → List A → Bool → Bool
deep_equal eq current incoming made = list_eq eq current incoming && not (is_empty incoming && made)

unfoldable pub snapshots_equal : Transaction → Snapshot → Bool
unfolding deep_equal
snapshots_equal current incoming =
    str_eq current.id incoming.id
    && str_eq current.producer incoming.producer
    && int_eq current.epoch incoming.epoch
    && current.revision == incoming.revision
    && bool_eq current.ready incoming.ready
    && bool_eq current.expired incoming.expired
    && state_eq current.state incoming.state
    && current.created_at == incoming.created_at
    && current.updated_at == incoming.updated_at
    && deep_equal message_operation_eq current.messages incoming.messages incoming.messages_made
    && deep_equal offset_operation_eq current.offsets incoming.offsets incoming.offsets_made

unfoldable pub committed_snapshot_succeeds : Transaction → Snapshot → Bool
unfolding deep_equal
committed_snapshot_succeeds current incoming =
    str_eq current.id incoming.id
    && str_eq current.producer incoming.producer
    && int_eq current.epoch incoming.epoch
    && state_eq current.state committed
    && state_eq incoming.state committing
    && current.revision == u64_succ incoming.revision
    && bool_eq current.ready incoming.ready
    && bool_eq current.expired incoming.expired
    && current.created_at == incoming.created_at
    && deep_equal message_operation_eq current.messages incoming.messages incoming.messages_made
    && deep_equal offset_operation_eq current.offsets incoming.offsets incoming.offsets_made

-- `ApplyReplicatedSnapshot` once the snapshot has passed the validation.
unfoldable pub apply_valid : Snapshot → Manager → Manager × Result (Unit {0})
unfolding snapshot_is_newer
apply_valid snap m = elim (lookup snap.id m.txns) [
  | none ↦ (record m { txns = insert snap.id (transaction_from_snapshot snap) m.txns }, ok tt)
  | some current ↦
      if snapshot_is_newer current snap
      then (record m { txns = insert snap.id (transaction_from_snapshot snap) m.txns }, ok tt)
      else if snapshots_equal current snap
      then (m, ok tt)
      else if committed_snapshot_succeeds current snap
      then (m, ok tt)
      else (m, err stale_snapshot)
]

unfoldable pub apply_replicated_snapshot : Option Snapshot → Manager → Manager × Result (Unit {0})
unfolding apply_valid
apply_replicated_snapshot none m = (m, err invalid_identity)
apply_replicated_snapshot (some snap) m = elim (snapshot_error snap) [
  | some e ↦ (m, err e)
  | none ↦ apply_valid snap m
]
