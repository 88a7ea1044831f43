-- ===== src/Transaction/Samples.antt =====
-- Histories of calls that the tests of the transaction manager run.
use go_broker.Base.{
  ◌≡◌, ◌*◌, refl, false, none, some, List, [], ◌∷◌, Str, lit, lookup, str_eq, insert, Distinct, ℕ,
}
use go_broker.Base.Int.{pos}
use go_broker.Wire.Message.{Message}
use go_broker.Transaction.Types.{
  opened, committing, state_eq, MessageOperation, OffsetOperation, Transaction, Manager, u64_succ,
  snapshot, transaction_from_snapshot,
}
use go_broker.Transaction.Manager.{
  new_manager, init_producer, begin, same_scope, same_slot, add_message, add_offsets,
  prepare_commit, commit, abort, prune_expired, producer_id_for_transactional_id,
  default_expiration,
}
use go_broker.Transaction.Events.{Event, called, replicated, restored, removed, topic_pruned}
use go_broker.Transaction.Calls.{
  Call, init, start, message, offsets, prepare, decide, cancel, prune, step, accepted, run,
}

abbrev pub same : Str → Str
same s = s

abbrev pub txn : Str
txn = lit "t"

abbrev pub owner : Str
owner = lit "txn-t"

abbrev pub record_a : Message
record_a = record {
  topic = lit "a";
  partition = pos 0;
  offset = 0;
  timestamp = pos 0;
  producer_id = owner;
  seq_num = 1;
  payload = lit "x";
  key = [];
  epoch = pos 0;
  event_type = [];
  schema_version = 0;
  aggregate_version = 0;
  metadata = [];
  transactional_id = txn;
  transaction_state = [];
  transaction_marker = [];
  control_batch_type = [];
  control_batch_version = pos 0;
  control_batch_coordinator_epoch = pos 0;
  control_batch_key = none;
  control_batch_value = none;
  retry_count = pos 0;
  retry = false;
}

abbrev pub message_a : MessageOperation
message_a = record { topic = lit "a"; partition = pos 0; message = record_a }

abbrev pub offset_at : ℕ → ℕ → OffsetOperation
offset_at partition offset = record {
  topic = lit "in";
  group = lit "g";
  member = lit "m";
  generation = pos 1;
  partition = pos partition;
  offset = offset;
}

abbrev pub opening : List (Call × ℕ)
opening =
    (init txn, 10)
    ∷ (start txn owner (pos 0), 11)
    ∷ (message txn owner (pos 0) message_a, 12)
    ∷ (offsets txn owner (pos 0) (offset_at 0 5 ∷ []), 13)
    ∷ []

-- The manager after a history, with all that a run computes with.
unfoldable pub manager_after : List (Call × ℕ) → Manager
unfolding run step accepted new_manager init_producer begin add_message add_offsets prepare_commit
    commit abort prune_expired lookup insert str_eq state_eq u64_succ same_slot same_scope
    producer_id_for_transactional_id snapshot transaction_from_snapshot
manager_after calls = run same calls new_manager

abbrev pub open_manager : Manager
open_manager = run same opening new_manager

abbrev pub open_txn : Transaction
open_txn = record {
  id = txn;
  producer = owner;
  epoch = pos 0;
  revision = 4;
  ready = false;
  expired = false;
  state = opened;
  messages = message_a ∷ [];
  offsets = offset_at 0 5 ∷ [];
  created_at = 11;
  updated_at = 13;
}

pub open_found : lookup txn open_manager.txns ≡ some open_txn
unfolding manager_after
open_found = refl

pub open-Distinct : Distinct open_manager.txns
unfolding manager_after
open-Distinct = (refl, tt)

abbrev pub prepared_manager : Manager
prepared_manager = step same (prepare txn owner (pos 0)) 14 open_manager

abbrev pub prepared_txn : Transaction
prepared_txn = record open_txn { state = committing; revision = 5; updated_at = 14 }

pub prepared_found : lookup txn prepared_manager.txns ≡ some prepared_txn
unfolding manager_after
prepared_found = refl

pub prepared-Distinct : Distinct prepared_manager.txns
unfolding manager_after
prepared-Distinct = (refl, tt)

-- Events that would end or change a transaction that is not prepared.
abbrev pub hostile : List Event
hostile =
    called (cancel txn owner (pos 0)) 15
    ∷ called (init txn) 16
    ∷ called (start txn owner (pos 0)) 17
    ∷ called (message txn owner (pos 0) message_a) 18
    ∷ called (decide (lit "u")) 19
    ∷ replicated (some (snapshot open_txn))
    ∷ restored (some (record (snapshot open_txn) { id = lit "u" }))
    ∷ topic_pruned (lit "a")
    ∷ removed (lit "u")
    ∷ called prune (2 * default_expiration)
    ∷ []
