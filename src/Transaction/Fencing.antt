-- ===== src/Transaction/Fencing.antt =====
-- Producer fencing: what a call gets that carries an epoch other than the current one.
use go_broker.Base.{
  ℕ, ◌-◌, ◌≡◌, ◌≢◌, refl, Bool, true, false, ◌&&◌, none, some, [], ◌∷◌, arith, Str, str_eq,
  str_eq_iff, lookup, lookup-insert, if◌then◌else◌,
}
use go_broker.Base.Int.{ℤ, int_eq, int_eq_iff, int64_succ}
use go_broker.Transaction.Types.{Transaction, Manager, u64_succ}
use go_broker.Transaction.Manager.{
  init_producer, initialized, producer_id_for_transactional_id, expire_transaction, begin,
  begin_error, add_message, add_offsets, owner_error, prepare_commit, abort,
}
use go_broker.Transaction.Calls.{
  Call, init, start, message, offsets, prepare, decide, cancel, prune, step, accepted,
}

-- The call is one of the owner's for the identifier, and carries the epoch.
unfoldable pub carries : Str → ℤ → Call → Bool
carries j e (start id producer epoch) = str_eq id j && int_eq epoch e
carries j e (message id producer epoch op) = str_eq id j && int_eq epoch e
carries j e (offsets id producer epoch ops) = str_eq id j && int_eq epoch e
carries j e (prepare id producer epoch) = str_eq id j && int_eq epoch e
carries j e (cancel id producer epoch) = str_eq id j && int_eq epoch e
carries j e _ = false

begin_error-stale : (tx : Transaction) (p : Str) (e : ℤ) → e ≢ tx.epoch → begin_error tx p e ≢ none
unfolding begin_error
begin_error-stale tx p e h = ground (arith, int_eq_iff e tx.epoch)

owner_error-stale : (tx : Transaction) (p : Str) (e : ℤ) → e ≢ tx.epoch → owner_error tx p e ≢ none
unfolding owner_error
owner_error-stale tx p e h = ground (arith, int_eq_iff e tx.epoch)

-- A call of `Begin`, `AddMessage`, `AddOffsets`, `PrepareCommit` or `Abort` that carries another
-- epoch than the transaction's is refused and changes nothing, whoever makes it.
pub stale_epoch_refused :
    (digest : Str → Str) (c : Call) (now : ℕ) (m : Manager) (j : Str) (e : ℤ) (tx : Transaction)
    → lookup j m.txns ≡ some tx
    → carries j e c ≡ true
    → e ≢ tx.epoch
    → (step digest c now m ≡ m) × (accepted digest c now m ≡ false)
unfolding step accepted carries begin add_message add_offsets prepare_commit abort
stale_epoch_refused digest (start id p e') now m j e tx f k h =
    ground (arith, str_eq_iff id j, int_eq_iff e' e, begin_error-stale tx p e h)
stale_epoch_refused digest (message id p e' op) now m j e tx f k h =
    ground (arith, str_eq_iff id j, int_eq_iff e' e, owner_error-stale tx p e h)
stale_epoch_refused digest (offsets id p e' []) now m j e tx f k h = (refl, refl)
stale_epoch_refused digest (offsets id p e' (op ∷ ops)) now m j e tx f k h =
    ground (arith, str_eq_iff id j, int_eq_iff e' e, owner_error-stale tx p e h)
stale_epoch_refused digest (prepare id p e') now m j e tx f k h =
    ground (arith, str_eq_iff id j, int_eq_iff e' e, owner_error-stale tx p e h)
stale_epoch_refused digest (cancel id p e') now m j e tx f k h =
    ground (arith, str_eq_iff id j, int_eq_iff e' e, owner_error-stale tx p e h)
stale_epoch_refused digest (init id) now m j e tx f k h = cc
stale_epoch_refused digest (decide id) now m j e tx f k h = cc
stale_epoch_refused digest prune now m j e tx f k h = cc

int64_succ-ne : (e : ℤ) → e ≢ int64_succ e
unfolding int64_succ
int64_succ-ne e = ground arith

init-epoch :
    (digest : Str → Str) (now : ℕ) (m : Manager) (j : Str) (tx : Transaction)
    → lookup j m.txns ≡ some tx
    → accepted digest (init j) now m ≡ true
    → (new : Transaction) × (lookup j (step digest (init j) now m).txns ≡ some new)
      × (new.epoch ≡ int64_succ tx.epoch)
unfolding step accepted init_producer expire_transaction
init-epoch digest now m j tx f k =
    let before = (expire_transaction tx (now - m.expiration) now).0 in
    let producer =
      if str_eq before.producer []
      then producer_id_for_transactional_id digest j
      else before.producer in
    (
      initialized j producer (int64_succ before.epoch) (u64_succ before.revision) now,
      grind (arith, lookup-insert, str_eq_iff),
      ground arith,
    )

-- After a successful `InitProducer` for an identifier that had a transaction, every owner's call with
-- the epoch that was current before it is refused and changes nothing.
pub init_producer_fences :
    (digest : Str → Str) (now later : ℕ) (m : Manager) (j : Str) (tx : Transaction) (c : Call)
    → lookup j m.txns ≡ some tx
    → accepted digest (init j) now m ≡ true
    → carries j tx.epoch c ≡ true
    → (step digest c later (step digest (init j) now m) ≡ step digest (init j) now m)
      × (accepted digest c later (step digest (init j) now m) ≡ false)
init_producer_fences digest now later m j tx c f k h =
    let (new, found, epoch) = init-epoch digest now m j tx f k in
    stale_epoch_refused digest c later (step digest (init j) now m) j tx.epoch new found h
      (rw epoch (int64_succ-ne tx.epoch))
