-- ===== src/Transaction/Manager/Staging.antt =====
-- The owner checks, `AddMessage` and `AddOffsets` of pkg/transaction/manager.go.
use go_broker.Base.{
  ℕ, Bool, true, false, not, ◌&&◌, Option, none, some, List, [], ◌∷◌, ◌++◌, ltb, if◌then◌else◌, Str,
  str_eq, lookup, insert, all,
}
use go_broker.Base.Int.{ℤ, int_eq}
use go_broker.Transaction.Types.{
  opened, state_eq, MessageOperation, OffsetOperation, Transaction, Manager, Error,
  missing_producer, owner_mismatch, fenced, not_found, no_offsets, scope_mismatch,
  offset_regression, expired_transaction, not_open, Result, ok, err, u64_succ,
}

-- `validateOwner`: the error, or none.
unfoldable pub owner_error : Transaction → Str → ℤ → Option Error
owner_error tx producer epoch =
    if tx.expired
    then some expired_transaction
    else if str_eq producer []
    then some missing_producer
    else if not (str_eq tx.producer producer)
    then some owner_mismatch
    else if not (int_eq epoch tx.epoch)
    then some fenced
    else none

-- `activeLocked` and then `validateOwner`.
unfoldable pub active_owned : Str → Str → ℤ → Manager → Result Transaction
unfolding owner_error
active_owned id producer epoch m = elim (lookup id m.txns) [
  | none ↦ err not_found
  | some tx ↦
      if not (state_eq tx.state opened)
      then err (not_open tx.state)
      else elim (owner_error tx producer epoch) [ some e ↦ err e | none ↦ ok tx ]
]

unfoldable pub add_message :
    Str → Str → ℤ → MessageOperation → ℕ → Manager → Manager × Result (Unit {0})
unfolding active_owned
add_message id producer epoch op now m = elim (active_owned id producer epoch m) [
  | err e ↦ (m, err e)
  | ok tx ↦
      let tx' = record tx {
        messages = tx.messages ++ op ∷ [];
        revision = u64_succ tx.revision;
        updated_at = now;
      } in
      (record m { txns = insert id tx' m.txns }, ok tt)
]

unfoldable pub same_scope : OffsetOperation → OffsetOperation → Bool
same_scope a b =
    str_eq a.topic b.topic
    && str_eq a.group b.group
    && str_eq a.member b.member
    && int_eq a.generation b.generation

unfoldable pub same_slot : OffsetOperation → OffsetOperation → Bool
same_slot a b = str_eq a.topic b.topic && str_eq a.group b.group && int_eq a.partition b.partition

-- The inner loop of `AddOffsets`: `none` is a regression.
unfoldable pub put_offset : OffsetOperation → List OffsetOperation → Option (List OffsetOperation)
put_offset op [] = some (op ∷ [])
put_offset op (current ∷ rest) =
    let after = put_offset op rest in
    if same_slot current op
    then (if ltb op.offset current.offset then none else some (op ∷ rest))
    else elim after [ none ↦ none | some rest' ↦ some (current ∷ rest') ]

-- The outer loop: the offsets when it ends, and whether it ended by a regression. An error leaves
-- the offsets that were stored before it.
unfoldable pub put_offsets :
    List OffsetOperation → List OffsetOperation → List OffsetOperation × Bool
unfolding put_offset
put_offsets [] current = (current, true)
put_offsets (op ∷ ops) current = elim (put_offset op current) [
  | none ↦ (current, false)
  | some current' ↦ put_offsets ops current'
]

-- `offsets[0]`, or the first stored offset where there is one.
unfoldable pub offset_scope : OffsetOperation → List OffsetOperation → OffsetOperation
offset_scope first [] = first
offset_scope first (stored ∷ rest) = stored

unfoldable pub add_offsets_to :
    Str
    → OffsetOperation
    → List OffsetOperation
    → ℕ
    → Manager
    → Transaction
    → Manager × Result (Unit {0})
unfolding put_offsets offset_scope
add_offsets_to id first ops now m tx =
    if not (all (λ op. same_scope op (offset_scope first tx.offsets)) ops)
    then (m, err scope_mismatch)
    else (let (offsets', done) = put_offsets ops tx.offsets in
        if done
        then (
          record m {
            txns =
                insert id
                  (record tx {
                    offsets = offsets';
                    revision = u64_succ tx.revision;
                    updated_at = now;
                  })
                  m.txns;
          },
          ok tt,
        )
        else (
          record m { txns = insert id (record tx { offsets = offsets' }) m.txns },
          err offset_regression,
        ))

unfoldable pub add_offsets :
    Str → Str → ℤ → List OffsetOperation → ℕ → Manager → Manager × Result (Unit {0})
unfolding active_owned add_offsets_to
add_offsets id producer epoch [] now m = (m, err no_offsets)
add_offsets id producer epoch (first ∷ ops) now m = elim (active_owned id producer epoch m) [
  | err e ↦ (m, err e)
  | ok tx ↦ add_offsets_to id first (first ∷ ops) now m tx
]
