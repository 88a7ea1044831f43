-- ===== src/Transaction/Refines.antt =====
-- The manager refines the machines of `Transaction/Machine.antt`.
use go_broker.Base.{
  ℕ, ◌-◌, ◌≡◌, refl, Option, none, some, List, [], ◌∷◌, arith, Str, str_eq, str_eq_iff, Map, lookup,
  lookup-insert, Distinct, Distinct-insert, if◌then◌else◌, Option-cases, inl, inr,
}
use go_broker.Base.Int.{ℤ}
use go_broker.Transaction.Types.{state_eq, MessageOperation, OffsetOperation, Transaction, Manager}
use go_broker.Transaction.Manager.{
  initialized, producer_id_for_transactional_id, begun, prune_entry, prune_entries, prune_expired,
  init_producer, begin, add_message, add_offsets, prepare_commit, commit, abort,
}
use go_broker.Transaction.Calls.{
  Call, init, start, message, offsets, prepare, decide, cancel, prune, step,
}
use go_broker.Transaction.Checks.{
  owner_error-owned, begin_error-can_begin, same_scope-same_source, put_offsets-store_all,
  prune_entry-machine_prune, expire_transaction-is_due,
}
use go_broker.Transaction.Machine.{concerns, machine, machine_prune}

module _ (digest : Str → Str) (m : Manager) (now : ℕ) (j : Str) where
  lookup-init_producer :
      (id : Str)
      → lookup j (init_producer digest id now m).0.txns ≡ (
          if str_eq id j
          then machine digest m.expiration (init id) now (lookup j m.txns)
          else lookup j m.txns)
  unfolding init_producer machine initialized producer_id_for_transactional_id
  lookup-init_producer id = elim (Option-cases (lookup id m.txns)) [
    | inl fresh ↦ grind (arith, lookup-insert, str_eq_iff)
    | inr (tx, found) ↦
        let due = expire_transaction-is_due (now - m.expiration) now tx in
        let same = str_eq_iff id j in grind (arith, lookup-insert)
  ]

  lookup-begin :
      (id p : Str) (e : ℤ)
      → lookup j (begin id p e now m).0.txns ≡ (
          if str_eq id j
          then machine digest m.expiration (start id p e) now (lookup j m.txns)
          else lookup j m.txns)
  unfolding begin machine begun
  lookup-begin id p e = grind (arith, lookup-insert, str_eq_iff, begin_error-can_begin)

  lookup-add_message :
      (id p : Str) (e : ℤ) (op : MessageOperation)
      → lookup j (add_message id p e op now m).0.txns ≡ (
          if str_eq id j
          then machine digest m.expiration (message id p e op) now (lookup j m.txns)
          else lookup j m.txns)
  unfolding add_message machine
  lookup-add_message id p e op = grind (arith, lookup-insert, str_eq_iff)

  lookup-add_offsets :
      (id p : Str) (e : ℤ) (ops : List OffsetOperation)
      → lookup j (add_offsets id p e ops now m).0.txns ≡ (
          if str_eq id j
          then machine digest m.expiration (offsets id p e ops) now (lookup j m.txns)
          else lookup j m.txns)
  unfolding add_offsets machine
  lookup-add_offsets id p e [] = elim (Option-cases (lookup j m.txns)) [
    | inl away ↦ ground arith
    | inr (tx, found) ↦ ground arith
  ]
  lookup-add_offsets id p e (op ∷ ops) = elim (Option-cases (lookup id m.txns)) [
    | inl away ↦ ground (arith, str_eq_iff id j)
    | inr (tx, found) ↦
        let scope = same_scope-same_source op tx.offsets (op ∷ ops) in
        let owner = owner_error-owned tx p e in
        let stored = put_offsets-store_all (op ∷ ops) tx.offsets in
        let same = str_eq_iff id j in grind (arith, lookup-insert)
  ]

  lookup-prepare_commit :
      (id p : Str) (e : ℤ)
      → lookup j (prepare_commit id p e now m).0.txns ≡ (
          if str_eq id j
          then machine digest m.expiration (prepare id p e) now (lookup j m.txns)
          else lookup j m.txns)
  unfolding prepare_commit machine state_eq
  lookup-prepare_commit id p e = grind (arith, lookup-insert, str_eq_iff)

  lookup-commit :
      (id : Str)
      → lookup j (commit id now m).0.txns ≡ (
          if str_eq id j
          then machine digest m.expiration (decide id) now (lookup j m.txns)
          else lookup j m.txns)
  unfolding commit machine
  lookup-commit id = grind (arith, lookup-insert, str_eq_iff)

  lookup-abort :
      (id p : Str) (e : ℤ)
      → lookup j (abort id p e now m).0.txns ≡ (
          if str_eq id j
          then machine digest m.expiration (cancel id p e) now (lookup j m.txns)
          else lookup j m.txns)
  unfolding abort machine state_eq
  lookup-abort id p e = grind (arith, lookup-insert, str_eq_iff)

lookup-none-prune_entries :
    (cutoff now : ℕ) (j : Str) (m : Map Transaction)
    → lookup j m ≡ none
    → lookup j (prune_entries cutoff now m).0 ≡ none
unfolding lookup prune_entries
lookup-none-prune_entries cutoff now j [] h = refl
lookup-none-prune_entries cutoff now j ((i, tx) ∷ m) h =
    ground (arith, lookup-none-prune_entries cutoff now j m)

pruned : ℕ → ℕ → Option Transaction → Option Transaction
pruned cutoff now none = none
pruned cutoff now (some tx) = machine_prune cutoff now tx

lookup-prune_entries :
    (cutoff now : ℕ) (j : Str) (m : Map Transaction)
    → Distinct m
    → lookup j (prune_entries cutoff now m).0 ≡ pruned cutoff now (lookup j m)
unfolding lookup prune_entries pruned
lookup-prune_entries cutoff now j [] h = refl
lookup-prune_entries cutoff now j ((i, tx) ∷ m) h = ground (
  arith,
  lookup-prune_entries cutoff now j m h.1,
  prune_entry-machine_prune cutoff now tx,
  lookup-none-prune_entries cutoff now i m h.0,
  str_eq_iff i j,
)

lookup-prune_expired :
    (digest : Str → Str) (m : Manager) (now : ℕ) (j : Str)
    → Distinct m.txns
    → lookup j (prune_expired now m).0.txns
      ≡ machine digest m.expiration prune now (lookup j m.txns)
unfolding prune_expired machine pruned
lookup-prune_expired digest m now j d =
    ground (arith, lookup-prune_entries (now - m.expiration) now j m.txns d)

-- An InitProducer, Begin, AddMessage, AddOffsets, PrepareCommit, Commit, Abort or PruneExpired, accepted
-- or refused, changes the transaction of each identifier that it concerns as the machine of that
-- identifier does, and no other. The machine has its own checks, writes its own transactions and stores
-- offsets in its own way. The keys of the map are distinct.
pub lookup-step :
    (digest : Str → Str) (c : Call) (now : ℕ) (m : Manager) (j : Str)
    → Distinct m.txns
    → lookup j (step digest c now m).txns ≡ (
        if concerns c j
        then machine digest m.expiration c now (lookup j m.txns)
        else lookup j m.txns)
unfolding step concerns
lookup-step digest (init id) now m j d = lookup-init_producer digest m now j id
lookup-step digest (start id p e) now m j d = lookup-begin digest m now j id p e
lookup-step digest (message id p e op) now m j d = lookup-add_message digest m now j id p e op
lookup-step digest (offsets id p e ops) now m j d = lookup-add_offsets digest m now j id p e ops
lookup-step digest (prepare id p e) now m j d = lookup-prepare_commit digest m now j id p e
lookup-step digest (decide id) now m j d = lookup-commit digest m now j id
lookup-step digest (cancel id p e) now m j d = lookup-abort digest m now j id p e
lookup-step digest prune now m j d = lookup-prune_expired digest m now j d

Distinct-prune_entries :
    (cutoff now : ℕ) (m : Map Transaction) → Distinct m → Distinct (prune_entries cutoff now m).0
unfolding prune_entries
Distinct-prune_entries cutoff now [] d = tt
Distinct-prune_entries cutoff now ((i, tx) ∷ m) d =
    elim (Option-cases (prune_entry cutoff now tx).0) [
      | inl gone ↦ rw (gone, Distinct) (Distinct-prune_entries cutoff now m d.1)
      | inr (tx', stays) ↦
          rw (stays, Distinct)
            (lookup-none-prune_entries cutoff now i m d.0, Distinct-prune_entries cutoff now m d.1)
    ]

pub Distinct-step :
    (digest : Str → Str) (c : Call) (now : ℕ) (m : Manager)
    → Distinct m.txns
    → Distinct (step digest c now m).txns
unfolding step init_producer begin add_message add_offsets prepare_commit commit abort prune_expired
Distinct-step digest prune now m d =
    ground (arith, Distinct-prune_entries (now - m.expiration) now m.txns d)
Distinct-step digest (offsets id p e []) now m d = d
Distinct-step digest c now m d = grind (arith, Distinct-insert)

pub expiration-step :
    (digest : Str → Str) (c : Call) (now : ℕ) (m : Manager)
    → (step digest c now m).expiration ≡ m.expiration
unfolding step init_producer begin add_message add_offsets prepare_commit commit abort prune_expired
expiration-step digest (offsets id p e []) now m = refl
expiration-step digest c now m = ground arith
