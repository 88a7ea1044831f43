-- ===== src/Transaction/Checks.antt =====
-- The checks, the expiry and the storing of offsets of pkg/transaction/manager.go against those of
-- Transaction/Machine.antt.
use go_broker.Base.{
  Bool, true, false, all, ◌||◌, ℕ, ◌≡◌, refl, none, some, List, [], ◌∷◌, arith, Str, if◌then◌else◌,
  Option-cases, inl, inr,
}
use go_broker.Base.Int.{ℤ, int_eq_iff}
use go_broker.Transaction.Types.{
  State, opened, committing, committed, aborted, unknown, state_eq, u64_succ, OffsetOperation,
  Transaction,
}
use go_broker.Transaction.Manager.{
  put_offset, put_offsets, same_slot, expire_transaction, begin_error, owner_error, same_scope,
  offset_scope, prune_entry,
}
use go_broker.Transaction.Machine.{
  store_one, store_all, has_ended, owned, can_begin, is_due, same_source, first_of, machine_prune,
}

has_ended-state_eq : (s : State) → has_ended s ≡ (state_eq s committed || state_eq s aborted)
unfolding has_ended state_eq
has_ended-state_eq opened = refl
has_ended-state_eq committing = refl
has_ended-state_eq committed = refl
has_ended-state_eq aborted = refl
has_ended-state_eq (unknown s) = refl

-- The checks of the code and of the machine.
pub owner_error-owned :
    (tx : Transaction) (p : Str) (e : ℤ)
    → owned tx p e ≡ elim (owner_error tx p e) as (λ r. Bool) [ none ↦ true | some e ↦ false ]
unfolding owned owner_error
owner_error-owned tx p e = ground (arith, int_eq_iff e tx.epoch)

pub begin_error-can_begin :
    (tx : Transaction) (p : Str) (e : ℤ)
    → can_begin tx p e ≡ elim (begin_error tx p e) as (λ r. Bool) [ none ↦ true | some e ↦ false ]
unfolding can_begin begin_error
begin_error-can_begin tx p e = ground (arith, int_eq_iff e tx.epoch, has_ended-state_eq tx.state)

pub same_scope-same_source :
    (first : OffsetOperation) (stored ops : List OffsetOperation)
    → all (λ op. same_scope op (offset_scope first stored)) ops
      ≡ all (λ op. same_source op (first_of first stored)) ops
unfolding same_scope offset_scope
same_scope-same_source first [] ops = refl
same_scope-same_source first (x ∷ stored) ops = refl

put_offset-store_one :
    (op : OffsetOperation) (xs : List OffsetOperation) → put_offset op xs ≡ store_one op xs
unfolding put_offset same_slot store_one
put_offset-store_one op [] = refl
put_offset-store_one op (x ∷ xs) = ground (arith, put_offset-store_one op xs)

pub put_offsets-store_all : (ops xs : List OffsetOperation) → put_offsets ops xs ≡ store_all ops xs
unfolding put_offsets store_all
put_offsets-store_all [] xs = refl
put_offsets-store_all (op ∷ ops) xs = elim (Option-cases (store_one op xs)) [
  | inl below ↦ ground (arith, put_offset-store_one op xs)
  | inr (xs', stored) ↦ ground (arith, put_offset-store_one op xs, put_offsets-store_all ops xs')
]

module _ (cutoff now : ℕ) (tx : Transaction) where
  pub prune_entry-machine_prune : (prune_entry cutoff now tx).0 ≡ machine_prune cutoff now tx
  unfolding prune_entry expire_transaction machine_prune
  prune_entry-machine_prune = ground (arith, has_ended-state_eq tx.state)

  pub expire_transaction-is_due :
      let after = (expire_transaction tx cutoff now).0 in
      (after.state ≡ tx.state)
      × (after.producer ≡ tx.producer)
      × (after.epoch ≡ tx.epoch)
      × (after.revision ≡ (if is_due cutoff tx then u64_succ tx.revision else tx.revision))
      × (state_eq tx.state committing ≡ true → after ≡ tx)
  unfolding expire_transaction is_due has_ended state_eq
  expire_transaction-is_due = ground arith
