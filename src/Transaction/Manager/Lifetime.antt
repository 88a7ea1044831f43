-- ===== src/Transaction/Manager/Lifetime.antt =====
-- `NewManager`, expiry, `InitProducer` and `Begin` of pkg/transaction/manager.go.
use go_broker.Base.{
  ℕ, ◌+◌, ◌-◌, ◌*◌, Bool, true, false, not, ◌&&◌, ◌||◌, Option, none, some, [], ◌∷◌, ◌++◌, ltb,
  if◌then◌else◌, Str, str_eq, lit, Map, lookup, insert,
}
use go_broker.Base.Int.{ℤ, pos, int_lt, int64_succ}
use go_broker.Transaction.Types.{
  opened, committing, committed, aborted, state_eq, Transaction, Manager, Error, missing_id,
  missing_producer, not_initialized, owner_mismatch, fenced, epoch_not_initialized,
  reinitialization_required, already_active, is_committing, Result, ok, err, u64_succ,
}

-- 7 * 24 hours in nanoseconds.
abbrev pub default_expiration : ℕ
default_expiration = 7 * 24 * 3600 * 1000000000

unfoldable pub new_manager_with_expiration : ℤ → Manager
new_manager_with_expiration (pos n) = record {
  txns = [];
  expiration = if ltb 0 n then n else default_expiration;
}
new_manager_with_expiration _ = record { txns = []; expiration = default_expiration }

unfoldable pub new_manager : Manager
unfolding new_manager_with_expiration
new_manager = new_manager_with_expiration (pos default_expiration)

-- The transaction after the call, and whether it was expired by it.
unfoldable pub expire_transaction : Transaction → ℕ → ℕ → Transaction × Bool
expire_transaction tx cutoff now =
    if tx.expired || not (ltb tx.updated_at cutoff)
    then (tx, false)
    else if not (state_eq tx.state committed) && not (state_eq tx.state aborted)
    then (tx, false)
    else (
      record tx {
        messages = [];
        offsets = [];
        ready = false;
        expired = true;
        revision = u64_succ tx.revision;
        updated_at = now;
      },
      true,
    )

-- One round of the loop of `pruneExpiredLocked`: the entry that stays, if any, and whether it counts.
unfoldable pub prune_entry : ℕ → ℕ → Transaction → Option Transaction × Bool
prune_entry cutoff now tx =
    if tx.expired
    then (if ltb tx.updated_at cutoff then (none, true) else (some tx, false))
    else (let (tx', done) = expire_transaction tx cutoff now in (some tx', done))

unfoldable pub prune_entries : ℕ → ℕ → Map Transaction → Map Transaction × ℕ
prune_entries cutoff now [] = ([], 0)
prune_entries cutoff now ((id, tx) ∷ m) =
    let (rest, removed) = prune_entries cutoff now m in
    let (stays, counts) = prune_entry cutoff now tx in
    (
      elim stays [ none ↦ rest | some tx' ↦ (id, tx') ∷ rest ],
      if counts then removed + 1 else removed,
    )

unfoldable pub prune_expired : ℕ → Manager → Manager × ℕ
prune_expired now m =
    if not (ltb 0 m.expiration)
    then (m, 0)
    else (let (kept, removed) = prune_entries (now - m.expiration) now m.txns in
        (record m { txns = kept }, removed))

-- `"txn-" + hex(sha256(id)[:8])`; `digest` is the hexadecimal form of those eight bytes.
unfoldable pub producer_id_for_transactional_id : (Str → Str) → Str → Str
producer_id_for_transactional_id digest id = lit "txn-" ++ digest id

-- The object that `InitProducer` stores.
unfoldable pub initialized : Str → Str → ℤ → ℕ → ℕ → Transaction
initialized id producer epoch revision now = record {
  id = id;
  producer = producer;
  epoch = epoch;
  revision = revision;
  ready = true;
  expired = false;
  state = aborted;
  messages = [];
  offsets = [];
  created_at = now;
  updated_at = now;
}

-- `InitProducer` where the identifier has a transaction; `tx` is as the expiry step left it.
unfoldable pub reinitialize :
    (Str → Str) → Str → ℕ → Manager → Transaction → Manager × Result (Str × ℤ)
unfolding initialized
reinitialize digest id now m tx =
    if state_eq tx.state committing
    then (record m { txns = insert id tx m.txns }, err is_committing)
    else (let producer =
          if str_eq tx.producer []
          then producer_id_for_transactional_id digest id
          else tx.producer in
        let epoch = int64_succ tx.epoch in
        (
          record m {
            txns = insert id (initialized id producer epoch (u64_succ tx.revision) now) m.txns;
          },
          ok (producer, epoch),
        ))

unfoldable pub init_producer : (Str → Str) → Str → ℕ → Manager → Manager × Result (Str × ℤ)
unfolding reinitialize
init_producer digest id now m =
    if str_eq id [] then (m, err missing_id) else elim (lookup id m.txns) [
      | none ↦
          let producer = producer_id_for_transactional_id digest id in
          (
            record m { txns = insert id (initialized id producer (pos 0) 1 now) m.txns },
            ok (producer, pos 0),
          )
      | some tx ↦ reinitialize digest id now m (expire_transaction tx (now - m.expiration) now).0
    ]

-- The checks of `Begin` on the transaction that it finds.
unfoldable pub begin_error : Transaction → Str → ℤ → Option Error
begin_error tx producer epoch =
    if tx.expired
    then some not_initialized
    else if not (str_eq tx.producer []) && not (str_eq tx.producer producer)
    then some owner_mismatch
    else if int_lt epoch tx.epoch
    then some fenced
    else if int_lt tx.epoch epoch
    then some epoch_not_initialized
    else if not tx.ready
    then some reinitialization_required
    else if not (state_eq tx.state committed) && not (state_eq tx.state aborted)
    then some already_active
    else none

unfoldable pub begun : Str → Str → ℤ → ℕ → ℕ → Transaction
begun id producer epoch revision now = record {
  id = id;
  producer = producer;
  epoch = epoch;
  revision = revision;
  ready = false;
  expired = false;
  state = opened;
  messages = [];
  offsets = [];
  created_at = now;
  updated_at = now;
}

unfoldable pub begin : Str → Str → ℤ → ℕ → Manager → Manager × Result (Unit {0})
unfolding begin_error begun
begin id producer epoch now m =
    if str_eq id []
    then (m, err missing_id)
    else if str_eq producer []
    then (m, err missing_producer)
    else elim (lookup id m.txns) [
      | none ↦ (m, err not_initialized)
      | some tx ↦ elim (begin_error tx producer epoch) [
        | some e ↦ (m, err e)
        | none ↦ (
          record m { txns = insert id (begun id producer epoch (u64_succ tx.revision) now) m.txns },
          ok tt,
        )
      ]
    ]
