-- ===== src/Transaction/Versions.antt =====
-- The version of a transaction, its epoch and then its revision: which calls raise it, so that a
-- replica takes the exported snapshot in place of the one that it has.
use mathlib.Core.Path.{subst}
use go_broker.Base.{
  ℕ, ◌+◌, ◌^◌, ◌<◌, ◌≡◌, ◌⊎◌, inl, inr, refl, Bool, true, false, some, List, [], ◌∷◌, arith, Str,
  str_eq, str_eq_iff, lookup, lookup-insert, Distinct, Bool-cases,
}
use go_broker.Base.Int.{
  ℤ, pos, int_lt, int_eq, int_eq_iff, int_lt_irrefl, int64_succ, int_lt-int64_succ, max_int64,
}
use go_broker.Transaction.Types.{
  state_eq, OffsetOperation, Transaction, Manager, u64_succ, snapshot,
}
use go_broker.Transaction.Manager.{add_offsets}
use go_broker.Transaction.Calls.{Call, init, start, offsets, prune, step, accepted, succeeds}
use go_broker.Transaction.Machine.{concerns, machine}
use go_broker.Transaction.Refines.{lookup-step}
use go_broker.Transaction.Replica.{snapshot_is_newer}

abbrev is_offsets : Call → Bool
is_offsets (offsets id producer epoch ops) = true
is_offsets _ = false

-- No counter is about to wrap.
pub record HasRoom (tx : Transaction) : Type 0 where
  pub epoch_room : int_lt tx.epoch (pos max_int64) ≡ true
  pub revision_room : tx.revision + 2 < 2 ^ 64

-- The second has a greater epoch, or the same epoch and a greater revision.
abbrev pub IsLater : Transaction → Transaction → Type 0
IsLater tx tx' =
    (int_lt tx.epoch tx'.epoch ≡ true) ⊎ ((tx'.epoch ≡ tx.epoch) × (tx.revision < tx'.revision))

pub IsLater-snapshot_is_newer :
    (tx tx' : Transaction) → snapshot_is_newer tx (snapshot tx') ≡ true → IsLater tx tx'
unfolding snapshot_is_newer snapshot
IsLater-snapshot_is_newer tx tx' h = elim (Bool-cases (int_eq tx'.epoch tx.epoch)) [
  | inl same ↦ inr ((int_eq_iff tx'.epoch tx.epoch).0 same, ground arith)
  | inr other ↦ inl (ground arith)
]

module _ (tx tx' : Transaction) (room : HasRoom tx) where
  newer_revision :
      tx'.epoch ≡ tx.epoch
      → tx'.revision ≡ u64_succ tx.revision
      → snapshot_is_newer tx (snapshot tx') ≡ true
  unfolding snapshot_is_newer snapshot u64_succ
  newer_revision h k = ground (arith, room, int_eq_iff tx'.epoch tx.epoch)

  newer_epoch : tx'.epoch ≡ int64_succ tx.epoch → snapshot_is_newer tx (snapshot tx') ≡ true
  unfolding snapshot_is_newer snapshot
  newer_epoch h = ground (
    arith,
    int_lt-int64_succ tx.epoch room.epoch_room,
    int_lt_irrefl tx.epoch,
    int_eq_iff tx'.epoch tx.epoch,
  )

machine-newer :
    (digest : Str → Str) (expiration : ℕ) (c : Call) (now : ℕ) (tx tx' : Transaction)
    → HasRoom tx
    → is_offsets c ≡ false
    → machine digest expiration c now (some tx) ≡ some tx'
    → (tx' ≡ tx) ⊎ (snapshot_is_newer tx (snapshot tx') ≡ true)
unfolding machine
machine-newer digest x (init id) now tx tx' r n h =
    unfold state_eq in ground (arith, newer_epoch tx tx' r)
machine-newer digest x (start id p e) now tx tx' r n h =
    ground (arith, newer_revision tx tx' r, int_eq_iff e tx.epoch)
machine-newer digest x (offsets id p e ops) now tx tx' r n h = cc
machine-newer digest x prune now tx tx' r n h = ground (arith, newer_revision tx tx' r)
machine-newer digest x c now tx tx' r n h = ground (arith, newer_revision tx tx' r)

add_offsets-newer :
    (id p : Str) (e : ℤ) (ops : List OffsetOperation) (now : ℕ) (m : Manager) (tx tx' : Transaction)
    → HasRoom tx
    → lookup id m.txns ≡ some tx
    → succeeds (add_offsets id p e ops now m).1 ≡ true
    → lookup id (add_offsets id p e ops now m).0.txns ≡ some tx'
    → (tx' ≡ tx) ⊎ (snapshot_is_newer tx (snapshot tx') ≡ true)
unfolding add_offsets
add_offsets-newer id p e [] now m tx tx' r f k h = cc
add_offsets-newer id p e (op ∷ ops) now m tx tx' r f k h =
    grind (arith, newer_revision tx tx' r, lookup-insert, str_eq_iff)

step-newer :
    (digest : Str → Str) (c : Call) (now : ℕ) (m : Manager) (j : Str) (tx tx' : Transaction)
    → Distinct m.txns
    → HasRoom tx
    → is_offsets c ≡ false
    → lookup j m.txns ≡ some tx
    → lookup j (step digest c now m).txns ≡ some tx'
    → (tx' ≡ tx) ⊎ (snapshot_is_newer tx (snapshot tx') ≡ true)
step-newer digest c now m j tx tx' d r n f h =
    let found = lookup-step digest c now m j d in
    ground (arith, machine-newer digest m.expiration c now tx tx' r n)

other_offsets-newer :
    (digest : Str → Str) (id p : Str) (e : ℤ) (ops : List OffsetOperation) (now : ℕ) (m : Manager)
    (j : Str) (tx tx' : Transaction)
    → Distinct m.txns
    → str_eq id j ≡ false
    → lookup j m.txns ≡ some tx
    → lookup j (step digest (offsets id p e ops) now m).txns ≡ some tx'
    → tx' ≡ tx
unfolding concerns
other_offsets-newer digest id p e ops now m j tx tx' d o f h =
    ground (arith, lookup-step digest (offsets id p e ops) now m j d)

pub accepted-snapshot_is_newer :
    (digest : Str → Str) (c : Call) (now : ℕ) (m : Manager) (j : Str) (tx tx' : Transaction)
    → Distinct m.txns
    → HasRoom tx
    → lookup j m.txns ≡ some tx
    → accepted digest c now m ≡ true
    → lookup j (step digest c now m).txns ≡ some tx'
    → (tx' ≡ tx) ⊎ (snapshot_is_newer tx (snapshot tx') ≡ true)
accepted-snapshot_is_newer digest (offsets id p e ops) now m j tx tx' d r f k h =
    elim (Bool-cases (str_eq id j)) [
      | inl same ↦
          let q = (str_eq_iff id j).0 same in
          unfold step accepted in
          subst
            (λ i.
              lookup i m.txns ≡ some tx
              → lookup i (add_offsets id p e ops now m).0.txns ≡ some tx'
              → (tx' ≡ tx) ⊎ (snapshot_is_newer tx (snapshot tx') ≡ true))
            q (λ f' h'. add_offsets-newer id p e ops now m tx tx' r f' k h') f h
      | inr other ↦ inl (other_offsets-newer digest id p e ops now m j tx tx' d other f h)
    ]
accepted-snapshot_is_newer digest (init id) now m j tx tx' d r f k h =
    step-newer digest (init id) now m j tx tx' d r refl f h
accepted-snapshot_is_newer digest c now m j tx tx' d r f k h =
    step-newer digest c now m j tx tx' d r refl f h

-- An InitProducer, Begin, AddMessage, AddOffsets, PrepareCommit, Commit, Abort or PruneExpired that
-- returns no error leaves each transaction as it was, removes it, or stores one with a greater epoch,
-- or with the same epoch and a greater revision. The keys of the map are distinct, and the old epoch and
-- revision are below the largest values of their types.
pub accepted-newer :
    (digest : Str → Str) (c : Call) (now : ℕ) (m : Manager) (j : Str) (tx tx' : Transaction)
    → Distinct m.txns
    → HasRoom tx
    → lookup j m.txns ≡ some tx
    → accepted digest c now m ≡ true
    → lookup j (step digest c now m).txns ≡ some tx'
    → (tx' ≡ tx) ⊎ IsLater tx tx'
accepted-newer digest c now m j tx tx' d r f k h =
    elim (accepted-snapshot_is_newer digest c now m j tx tx' d r f k h) [
      | inl same ↦ inl same
      | inr newer ↦ inr (IsLater-snapshot_is_newer tx tx' newer)
    ]
