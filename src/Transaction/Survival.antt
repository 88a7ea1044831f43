-- ===== src/Transaction/Survival.antt =====
-- What each kind of event leaves of a prepared transaction, and of the keys of the map.
use go_broker.Base.{
  ℕ, ◌≡◌, refl, ◌∙◌, ap, inl, inr, Bool, true, false, Option, none, some, [], ◌∷◌, arith, Str,
  str_eq, str_eq_iff, Map, lookup, lookup-insert, lookup-erase, erase, Distinct, Distinct-insert,
  Bool-cases, ||-eq-false,
}
use go_broker.Base.Int.{int_eq_iff}
use go_broker.Transaction.Types.{committing, state_eq, Transaction, Manager}
use go_broker.Transaction.Manager.{delete}
use go_broker.Transaction.Calls.{Call, decide}
use go_broker.Transaction.Machine.{concerns, machine}
use go_broker.Transaction.Refines.{lookup-step, Distinct-step}
use go_broker.Transaction.Replica.{apply_snapshot, apply_replicated_snapshot, snapshot_is_newer}
use go_broker.Transaction.Topics.{prune_topic_references}
use go_broker.Transaction.Deletion.{
  some_transaction, holds, is_running, names_topic, without_topic, without_topic-id, erase_topic,
  prune_refused_iff, prune_accepted,
}
use go_broker.Transaction.Events.{
  Event, called, replicated, restored, removed, imported, topic_pruned, step_event, may_end,
}

lookup-erase-none {ℓ} :
    {A : Type ℓ} (k j : Str) (m : Map A) → lookup j m ≡ none → lookup j (erase k m) ≡ none
lookup-erase-none k j m h = ground (arith, lookup-erase k j m)

Distinct-erase {ℓ} : {A : Type ℓ} (k : Str) (m : Map A) → Distinct m → Distinct (erase k m)
unfolding erase
Distinct-erase k [] d = tt
Distinct-erase k ((i, x) ∷ m) d = elim (Bool-cases (str_eq i k)) [
  | inl same ↦ rw (same, erase) (Distinct-erase k m d.1)
  | inr other ↦ rw (other, erase) (lookup-erase-none k i m d.0, Distinct-erase k m d.1)
]

erased_entry : Str → Option Transaction → Option Transaction
erased_entry topic_name none = none
erased_entry topic_name (some tx) = some (without_topic topic_name tx)

lookup-erase_topic :
    (topic_name j : Str) (m : Map Transaction)
    → lookup j (erase_topic topic_name m) ≡ erased_entry topic_name (lookup j m)
unfolding erase_topic lookup erased_entry
lookup-erase_topic topic_name j [] = refl
lookup-erase_topic topic_name j ((i, tx) ∷ m) = ground (arith, lookup-erase_topic topic_name j m)

Distinct-erase_topic :
    (topic_name : Str) (m : Map Transaction) → Distinct m → Distinct (erase_topic topic_name m)
unfolding erase_topic erased_entry
Distinct-erase_topic topic_name [] d = tt
Distinct-erase_topic topic_name ((i, tx) ∷ m) d = (
  lookup-erase_topic topic_name i m ∙ ap (erased_entry topic_name) d.0,
  Distinct-erase_topic topic_name m d.1,
)

some_transaction-lookup :
    (p : Transaction → Bool) (j : Str) (tx : Transaction) (m : Map Transaction)
    → some_transaction p m ≡ false
    → lookup j m ≡ some tx
    → p tx ≡ false
unfolding some_transaction lookup
some_transaction-lookup p j tx [] h f = cc
some_transaction-lookup p j tx ((i, x) ∷ m) h f =
    ground (arith, some_transaction-lookup p j tx m, ||-eq-false (p x) (some_transaction p m) h)

module _ (topic_name j : Str) (m : Manager) (tx : Transaction) where
  -- A running transaction keeps its operations: where one of them is about the topic, the pruning is
  -- refused.
  lookup-prune_topic_references :
      lookup j m.txns ≡ some tx
      → tx.expired ≡ false
      → is_running tx.state ≡ true
      → lookup j (prune_topic_references topic_name m).0.txns ≡ some tx
  unfolding erased_entry
  lookup-prune_topic_references f x r =
      elim (Bool-cases (some_transaction (holds topic_name) m.txns)) [
        | inl used ↦ rw ((prune_refused_iff topic_name m).1 used) f
        | inr unused ↦
            let other : names_topic topic_name tx ≡ false =
              ground (arith, some_transaction-lookup (holds topic_name) j tx m.txns unused f) in
            rw ((prune_accepted topic_name m unused).1, lookup-erase_topic topic_name j m.txns, f)
              (ap some (without_topic-id topic_name tx other))
      ]

Distinct-prune_topic_references :
    (topic_name : Str) (m : Manager)
    → Distinct m.txns
    → Distinct (prune_topic_references topic_name m).0.txns
Distinct-prune_topic_references topic_name m d =
    elim (Bool-cases (some_transaction (holds topic_name) m.txns)) [
      | inl used ↦ rw ((prune_refused_iff topic_name m).1 used) d
      | inr unused ↦
          rw ((prune_accepted topic_name m unused).1) (Distinct-erase_topic topic_name m.txns d)
    ]

machine-committing :
    (digest : Str → Str) (expiration : ℕ) (c : Call) (now : ℕ) (j : Str) (tx : Transaction)
    → tx.state ≡ committing
    → tx.expired ≡ false
    → concerns c j ≡ true
    → may_end j tx (called c now) ≡ false
    → machine digest expiration c now (some tx) ≡ some tx
unfolding machine concerns may_end state_eq
machine-committing digest expiration (decide id) now j tx h x k d = cc
machine-committing digest expiration c now j tx h x k d = ground arith

pub Distinct-step_event :
    (digest : Str → Str) (e : Event) (m : Manager) (j : Str) (tx : Transaction)
    → may_end j tx e ≡ false
    → Distinct m.txns
    → Distinct (step_event digest e m).txns
unfolding step_event may_end apply_snapshot apply_replicated_snapshot delete
Distinct-step_event digest (called c now) m j tx n d = Distinct-step digest c now m d
Distinct-step_event digest (replicated none) m j tx n d = d
Distinct-step_event digest (replicated (some snap)) m j tx n d = grind (arith, Distinct-insert)
Distinct-step_event digest (restored none) m j tx n d = d
Distinct-step_event digest (restored (some snap)) m j tx n d = grind (arith, Distinct-insert)
Distinct-step_event digest (removed id) m j tx n d = Distinct-erase id m.txns d
Distinct-step_event digest (imported state) m j tx n d = cc
Distinct-step_event digest (topic_pruned t) m j tx n d = Distinct-prune_topic_references t m d

module _ (digest : Str → Str) (m : Manager) (j : Str) (tx : Transaction) where
  -- A prepared transaction is found unchanged after an event that may not end it.
  pub step_event-committing :
      (e : Event)
      → Distinct m.txns
      → lookup j m.txns ≡ some tx
      → tx.state ≡ committing
      → tx.expired ≡ false
      → may_end j tx e ≡ false
      → lookup j (step_event digest e m).txns ≡ some tx
  unfolding step_event may_end apply_snapshot apply_replicated_snapshot delete
  step_event-committing (called c now) d f h x n = elim (Bool-cases (concerns c j)) [
    | inl e ↦
        rw (lookup-step digest c now m j d, e, f)
          (machine-committing digest m.expiration c now j tx h x e n)
    | inr e ↦ rw (lookup-step digest c now m j d, e) f
  ]
  step_event-committing (replicated none) d f h x n = f
  step_event-committing (replicated (some snap)) d f h x n =
      let same = str_eq_iff snap.id j in
      let epochs = int_eq_iff snap.epoch tx.epoch in
      unfold snapshot_is_newer in grind (arith, lookup-insert)
  step_event-committing (restored none) d f h x n = f
  step_event-committing (restored (some snap)) d f h x n =
      let same = str_eq_iff snap.id j in grind (arith, lookup-insert)
  step_event-committing (removed id) d f h x n = ground (arith, lookup-erase id j m.txns)
  step_event-committing (imported state) d f h x n = cc
  step_event-committing (topic_pruned t) d f h x n =
      lookup-prune_topic_references t j m tx f x (unfold is_running in ground arith)
