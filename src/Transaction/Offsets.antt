-- ===== src/Transaction/Offsets.antt =====
-- The offsets that a transaction stages: what `AddOffsets` stores for each slot (topic, group and
-- partition), and the one consumer scope that all of them share.
use go_broker.Base.{
  ℕ, ◌≤◌, ◌≡◌, ap, ◌∙◌, true, false, Option, none, some, List, [], ◌∷◌, arith, Str, str_eq_iff,
  lookup, lookup-inserted, all, if◌then◌else◌, Bool-cases, Option-cases, inl, inr,
}
use go_broker.Base.Int.{ℤ, int_eq_iff}
use go_broker.Transaction.Types.{OffsetOperation, Transaction, Manager, ok, err, offset_regression}
use go_broker.Transaction.Manager.{
  same_slot, same_scope, put_offset, put_offsets, offset_scope, active_owned, add_offsets,
}

-- The stored operation of the slot of `key`.
unfoldable pub find_slot : OffsetOperation → List OffsetOperation → Option OffsetOperation
find_slot key [] = none
find_slot key (op ∷ ops) = if same_slot op key then some op else find_slot key ops

-- The last operation for the slot of `key`, or `before` where there is none.
unfoldable pub latest :
    OffsetOperation → List OffsetOperation → Option OffsetOperation → Option OffsetOperation
latest key [] before = before
latest key (op ∷ ops) before = latest key ops (if same_slot op key then some op else before)

same_slot_trans : (a b c : OffsetOperation) → same_slot a b ≡ true → same_slot a c ≡ same_slot b c
unfolding same_slot
same_slot_trans a b c h = ground (
  arith,
  str_eq_iff a.topic b.topic,
  str_eq_iff a.group b.group,
  int_eq_iff a.partition b.partition,
)

same_slot_sym : (a b : OffsetOperation) → same_slot a b ≡ same_slot b a
unfolding same_slot
same_slot_sym a b = ground (
  arith,
  str_eq_iff a.topic b.topic,
  str_eq_iff a.group b.group,
  str_eq_iff b.topic a.topic,
  str_eq_iff b.group a.group,
)

find_slot-put_offset :
    (key op : OffsetOperation) (current after : List OffsetOperation)
    → put_offset op current ≡ some after
    → find_slot key after ≡ (if same_slot op key then some op else find_slot key current)
unfolding put_offset find_slot
find_slot-put_offset key op [] after h = ground arith
find_slot-put_offset key op (c ∷ cs) after h = elim (Option-cases (put_offset op cs)) [
  | inl e ↦ ground (arith, same_slot_trans c op key)
  | inr (cs', e) ↦ ground (
    arith,
    same_slot_trans c op key,
    find_slot-put_offset key op cs cs' e,
    same_slot_trans op key c,
    same_slot_sym op c,
    same_slot_sym key c,
  )
]

-- After an `AddOffsets` loop that ends without a regression, every slot holds the last operation of
-- the call for it, and the slots that the call does not name hold what they held.
pub find_slot-put_offsets :
    (ops current after : List OffsetOperation) (key : OffsetOperation)
    → put_offsets ops current ≡ (after, true)
    → find_slot key after ≡ latest key ops (find_slot key current)
unfolding put_offsets latest
find_slot-put_offsets [] current after key h = ground arith
find_slot-put_offsets (op ∷ ops) current after key h = elim (Option-cases (put_offset op current)) [
  | inl e ↦ ground arith
  | inr (mid, e) ↦
      let rest : put_offsets ops mid ≡ (after, true) = ground arith in
      find_slot-put_offsets ops mid after key rest
      ∙ ap (latest key ops) (find_slot-put_offset key op current mid e)
]

put_offset_grows :
    (key op x : OffsetOperation) (current after : List OffsetOperation)
    → put_offset op current ≡ some after
    → find_slot key current ≡ some x
    → (y : OffsetOperation) × (find_slot key after ≡ some y) × (x.offset ≤ y.offset)
unfolding put_offset find_slot
put_offset_grows key op x [] after h f = cc
put_offset_grows key op x (c ∷ cs) after h f = elim (Bool-cases (same_slot c op)) [
  | inl same ↦ elim (Bool-cases (same_slot c key)) [
    | inl k ↦
        (op, ground (arith, same_slot_trans c op key), ground (arith, same_slot_trans c op key))
    | inr k ↦ (x, ground (arith, same_slot_trans c op key), ground arith)
  ]
  | inr other ↦ elim (Bool-cases (same_slot c key)) [
    | inl k ↦ (x, ground arith, ground arith)
    | inr k ↦ elim (Option-cases (put_offset op cs)) [
      | inl e ↦ absurd (ground arith)
      | inr (cs', e) ↦
          let (y, found, le) = put_offset_grows key op x cs cs' e (ground arith) in
          (y, ground arith, ground arith)
    ]
  ]
]

-- An `AddOffsets` loop that ends without a regression forgets no slot and moves none back.
pub put_offsets_grows :
    (ops current after : List OffsetOperation) (key x : OffsetOperation)
    → put_offsets ops current ≡ (after, true)
    → find_slot key current ≡ some x
    → (y : OffsetOperation) × (find_slot key after ≡ some y) × (x.offset ≤ y.offset)
unfolding put_offsets
put_offsets_grows [] current after key x h f = (x, ground arith, ground arith)
put_offsets_grows (op ∷ ops) current after key x h f = elim (Option-cases (put_offset op current)) [
  | inl e ↦ absurd (ground arith)
  | inr (mid, e) ↦
      let (y, found, le) = put_offset_grows key op x current mid e f in
      let rest : put_offsets ops mid ≡ (after, true) = ground arith in
      let (z, found', le') = put_offsets_grows ops mid after key y rest found in
      (z, found', omega arith)
]

-- A refused `AddOffsets` keeps the offsets that it stored before it met the regression: where the
-- first operation of the call is stored and the second is a regression, the call returns an error
-- and the transaction has the first one, at the epoch and revision that it had before.
pub add_offsets_partial :
    (id producer : Str) (epoch : ℤ) (first second : OffsetOperation)
    (ops mid : List OffsetOperation) (now : ℕ) (m : Manager) (tx : Transaction)
    → active_owned id producer epoch m ≡ ok tx
    → all (λ op. same_scope op (offset_scope first tx.offsets)) (first ∷ second ∷ ops) ≡ true
    → put_offset first tx.offsets ≡ some mid
    → put_offset second mid ≡ none
    → let r = add_offsets id producer epoch (first ∷ second ∷ ops) now m in
      (r.1 ≡ err offset_regression) × (lookup id r.0.txns ≡ some (record tx { offsets = mid }))
add_offsets_partial id producer epoch first second ops mid now m tx a s p q =
    let loop : put_offsets (first ∷ second ∷ ops) tx.offsets ≡ (mid, false) =
      unfold put_offsets in ground arith in
    unfold add_offsets in ground (arith, lookup-inserted id (record tx { offsets = mid }) m.txns)
