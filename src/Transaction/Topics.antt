-- ===== src/Transaction/Topics.antt =====
-- Topic deletion against the transactions, pkg/transaction/topic_lifecycle.go.
-- The error carries no list of the active transactions.
use go_broker.Base.{
  Bool, true, not, ◌&&◌, ◌||◌, List, [], ◌∷◌, if◌then◌else◌, Str, str_eq, Map, any, keep, is_empty,
  sort_strings,
}
use go_broker.Transaction.Types.{
  opened, committing, state_eq, MessageOperation, OffsetOperation, Transaction, Snapshot, Manager,
  topic_in_use, Result, ok, err, snapshot, transaction_from_snapshot,
}

unfoldable pub transaction_references_topic : Snapshot → Str → Bool
transaction_references_topic snap topic_name =
    any (λ operation. str_eq operation.topic topic_name) snap.messages
    || any (λ operation. str_eq operation.topic topic_name) snap.offsets

unfoldable pub filter_topic_messages : List MessageOperation → Str → List MessageOperation
filter_topic_messages operations topic_name =
    keep (λ operation. not (str_eq operation.topic topic_name)) operations

unfoldable pub filter_topic_offsets : List OffsetOperation → Str → List OffsetOperation
filter_topic_offsets operations topic_name =
    keep (λ operation. not (str_eq operation.topic topic_name)) operations

-- What the loop gathers: the next state, the affected and the active transactions.
pub record Sweep : Type 0 where
  pub next : Map Snapshot
  pub affected : List Str
  pub active : List Str

unfoldable pub is_active : Transaction → Bool
is_active tx = not tx.expired && (state_eq tx.state opened || state_eq tx.state committing)

unfoldable pub sweep_entry : Str → Str → Transaction → Sweep → Sweep
unfolding transaction_references_topic filter_topic_messages filter_topic_offsets is_active
sweep_entry topic_name id tx rest =
    let snap = snapshot tx in
    if not (transaction_references_topic snap topic_name)
    then record rest { next = (id, snap) ∷ rest.next }
    else if is_active tx
    then record rest { next = (id, snap) ∷ rest.next; active = id ∷ rest.active }
    else (let filtered = record snap {
      messages = filter_topic_messages snap.messages topic_name;
      messages_made = true;
      offsets = filter_topic_offsets snap.offsets topic_name;
      offsets_made = true;
    } in
        record rest { next = (id, filtered) ∷ rest.next; affected = id ∷ rest.affected })

unfoldable pub sweep : Str → Map Transaction → Sweep
unfolding sweep_entry
sweep topic_name [] = record { next = []; affected = []; active = [] }
sweep topic_name ((id, tx) ∷ m) = sweep_entry topic_name id tx (sweep topic_name m)

-- `stateWithoutTopicReferencesLocked`, and `StateWithoutTopicReferences` on a manager.
unfoldable pub state_without_topic_references :
    Map Transaction → Str → Result (Map Snapshot × List Str)
state_without_topic_references current topic_name =
    let swept = sweep topic_name current in
    if not (is_empty swept.active)
    then err topic_in_use
    else ok (swept.next, sort_strings swept.affected)

unfoldable pub restore : Map Snapshot → Map Transaction
restore [] = []
restore ((id, snap) ∷ rest) = (id, transaction_from_snapshot snap) ∷ restore rest

unfoldable pub prune_topic_references : Str → Manager → Manager × Result (List Str)
prune_topic_references topic_name m = elim (state_without_topic_references m.txns topic_name) [
  | err e ↦ (m, err e)
  | ok (state, affected) ↦ (record m { txns = restore state }, ok affected)
]
