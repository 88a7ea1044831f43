-- ===== src/Transaction/Events.antt =====
-- All that changes a manager: the calls of producers, and the snapshots, imports, deletions and topic
-- prunings of pkg/transaction/manager.go and pkg/transaction/topic_lifecycle.go, as one step function.
use go_broker.Base.{
  ℕ, Bool, true, false, ◌&&◌, ◌||◌, Option, some, List, [], ◌∷◌, ltb, Str, str_eq, Map,
}
use go_broker.Base.Int.{int_eq, int_lt}
use go_broker.Transaction.Types.{Transaction, Snapshot, Manager}
use go_broker.Transaction.Manager.{delete}
use go_broker.Transaction.Calls.{Call, decide, step}
use go_broker.Transaction.Replica.{import_state, apply_snapshot, apply_replicated_snapshot}
use go_broker.Transaction.Topics.{prune_topic_references}

-- A call of a producer or of the coordinator at a time, `ApplyReplicatedSnapshot`, `ApplySnapshot`,
-- `Delete`, `ImportState` or `PruneTopicReferences`.
pub data Event : Type 0 where
  called : Call → ℕ → Event
  replicated restored : Option Snapshot → Event
  removed : Str → Event
  imported : Map (Option Snapshot) → Event
  topic_pruned : Str → Event

-- The manager after the event.
unfoldable pub step_event : (Str → Str) → Event → Manager → Manager
step_event digest (called c now) m = step digest c now m
step_event digest (replicated snap) m = (apply_replicated_snapshot snap m).0
step_event digest (restored snap) m = apply_snapshot snap m
step_event digest (removed id) m = delete id m
step_event digest (imported state) m = (import_state state m).0
step_event digest (topic_pruned topic_name) m = (prune_topic_references topic_name m).0

unfoldable pub run_events : (Str → Str) → List Event → Manager → Manager
run_events digest [] m = m
run_events digest (e ∷ events) m = run_events digest events (step_event digest e m)

-- A greater epoch, or the same epoch and a greater revision.
abbrev pub is_later_than : Transaction → Snapshot → Bool
is_later_than tx snap =
    int_lt tx.epoch snap.epoch || int_eq snap.epoch tx.epoch && ltb tx.revision snap.revision

-- What may end a prepared transaction `tx` of the identifier `j`: a `Commit` of the identifier, a
-- replicated snapshot of it that is later than `tx`, any snapshot of it that `ApplySnapshot` restores,
-- its deletion, and an import.
unfoldable pub may_end : Str → Transaction → Event → Bool
may_end j tx (called (decide id) now) = str_eq id j
may_end j tx (replicated (some snap)) = str_eq snap.id j && is_later_than tx snap
may_end j tx (restored (some snap)) = str_eq snap.id j
may_end j tx (removed id) = str_eq id j
may_end j tx (imported state) = true
may_end j tx _ = false
