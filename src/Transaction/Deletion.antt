-- ===== src/Transaction/Deletion.antt =====
-- Topic deletion: when it is refused, and what it leaves of the transactions.
use mathlib.Core.Path.{subst⁻¹}
use go_broker.Base.{
  ◌≡◌, ◌↔◌, refl, Bool, true, false, not, ◌&&◌, ◌||◌, List, [], ◌∷◌, arith, Str, str_eq, Map, any,
  keep, is_empty, Each, ||-eq-false, ap, ◌∙◌,
}
use go_broker.Transaction.Types.{
  State, opened, committing, committed, aborted, unknown, state_eq, MessageOperation,
  OffsetOperation, Transaction, Manager, err, topic_in_use, snapshot, transaction_from_snapshot,
}
use go_broker.Transaction.Calls.{succeeds}
use go_broker.Transaction.Topics.{
  transaction_references_topic, Sweep, is_active, sweep, sweep_entry,
  state_without_topic_references, restore, prune_topic_references,
}

-- What deletion leaves of a transaction.
abbrev pub without_topic : Str → Transaction → Transaction
without_topic topic_name tx = record tx {
  messages = keep (λ op. not (str_eq op.topic topic_name)) tx.messages;
  offsets = keep (λ op. not (str_eq op.topic topic_name)) tx.offsets;
}

any-keep {ℓ} : {A : Type ℓ} (p : A → Bool) (xs : List A) → any p (keep (λ x. not (p x)) xs) ≡ false
any-keep p [] = refl
any-keep p (x ∷ xs) = ground (arith, any-keep p xs)

keep-of_none {ℓ} :
    {A : Type ℓ} (p : A → Bool) (xs : List A) → any p xs ≡ false → keep (λ x. not (p x)) xs ≡ xs
keep-of_none p [] h = refl
keep-of_none p (x ∷ xs) h = ground (arith, keep-of_none p xs)

-- A transaction in this state is open, or prepared and not yet decided.
unfoldable pub is_running : State → Bool
is_running opened = true
is_running committing = true
is_running _ = false

-- A message or an offset of the transaction is about the topic.
abbrev pub names_topic : Str → Transaction → Bool
names_topic topic_name tx =
    any (λ op. str_eq op.topic topic_name) tx.messages
    || any (λ op. str_eq op.topic topic_name) tx.offsets

-- A running transaction that names the topic.
abbrev pub holds : Str → Transaction → Bool
holds topic_name tx = not tx.expired && is_running tx.state && names_topic topic_name tx

is_active-is_running : (s : State) → (state_eq s opened || state_eq s committing) ≡ is_running s
unfolding is_running state_eq
is_active-is_running opened = refl
is_active-is_running committing = refl
is_active-is_running committed = refl
is_active-is_running aborted = refl
is_active-is_running (unknown s) = refl

-- Whether some transaction passes.
unfoldable pub some_transaction : (Transaction → Bool) → Map Transaction → Bool
some_transaction p [] = false
some_transaction p ((id, tx) ∷ m) = p tx || some_transaction p m

sweep-active :
    (topic_name : Str) (m : Map Transaction)
    → is_empty (sweep topic_name m).active ≡ not (some_transaction (holds topic_name) m)
unfolding sweep some_transaction is_active transaction_references_topic snapshot
sweep-active topic_name [] = refl
sweep-active topic_name ((id, tx) ∷ m) =
    ground (arith, sweep-active topic_name m, is_active-is_running tx.state)

-- `PruneTopicReferences` changes nothing and returns an error exactly when a transaction that is open
-- or committing, and has not expired, names the topic.
pub prune_refused_iff :
    (topic_name : Str) (m : Manager)
    → (prune_topic_references topic_name m ≡ (m, err topic_in_use))
      ↔ (some_transaction (holds topic_name) m.txns ≡ true)
unfolding prune_topic_references state_without_topic_references
prune_refused_iff topic_name m =
    (ground (arith, sweep-active topic_name m.txns), ground (arith, sweep-active topic_name m.txns))

pub without_topic-id :
    (topic_name : Str) (tx : Transaction)
    → names_topic topic_name tx ≡ false
    → without_topic topic_name tx ≡ tx
without_topic-id topic_name tx h = ground (
  arith,
  keep-of_none (λ (op : MessageOperation). str_eq op.topic topic_name) tx.messages,
  keep-of_none (λ (op : OffsetOperation). str_eq op.topic topic_name) tx.offsets,
)

restore-sweep_entry :
    (topic_name id : Str) (tx : Transaction) (rest : Sweep)
    → holds topic_name tx ≡ false
    → restore (sweep_entry topic_name id tx rest).next
      ≡ (id, without_topic topic_name tx) ∷ restore rest.next
unfolding sweep_entry restore snapshot transaction_from_snapshot is_active
    transaction_references_topic
restore-sweep_entry topic_name id tx rest h = ground (
  arith,
  is_active-is_running tx.state,
  keep-of_none (λ (op : MessageOperation). str_eq op.topic topic_name) tx.messages,
  keep-of_none (λ (op : OffsetOperation). str_eq op.topic topic_name) tx.offsets,
)

-- Every transaction, without the operations of the topic.
unfoldable pub erase_topic : Str → Map Transaction → Map Transaction
erase_topic topic_name [] = []
erase_topic topic_name ((id, tx) ∷ m) = (id, without_topic topic_name tx) ∷ erase_topic topic_name m

restore-sweep :
    (topic_name : Str) (m : Map Transaction)
    → some_transaction (holds topic_name) m ≡ false
    → restore (sweep topic_name m).next ≡ erase_topic topic_name m
unfolding some_transaction erase_topic sweep
restore-sweep topic_name [] h = unfold restore in refl
restore-sweep topic_name ((id, tx) ∷ m) h =
    let parts = ||-eq-false (holds topic_name tx) (some_transaction (holds topic_name) m) h in
    restore-sweep_entry topic_name id tx (sweep topic_name m) parts.0
    ∙ ap (λ r. (id, without_topic topic_name tx) ∷ r) (restore-sweep topic_name m parts.1)

references-without_topic :
    (topic_name : Str) (tx : Transaction)
    → transaction_references_topic (snapshot (without_topic topic_name tx)) topic_name ≡ false
unfolding transaction_references_topic snapshot
references-without_topic topic_name tx = ground (
  arith,
  any-keep (λ (op : MessageOperation). str_eq op.topic topic_name) tx.messages,
  any-keep (λ (op : OffsetOperation). str_eq op.topic topic_name) tx.offsets,
)

abbrev pub NoReference : Str → Map Transaction → Type 0
NoReference topic_name =
    Each (λ id tx. transaction_references_topic (snapshot tx) topic_name ≡ false)

erase_topic-NoReference :
    (topic_name : Str) (m : Map Transaction) → NoReference topic_name (erase_topic topic_name m)
unfolding erase_topic
erase_topic-NoReference topic_name [] = tt
erase_topic-NoReference topic_name ((id, tx) ∷ m) =
    (references-without_topic topic_name tx, erase_topic-NoReference topic_name m)

-- Where no running transaction names the topic, `PruneTopicReferences` succeeds: the transactions are
-- those before, each with the operations of the other topics in their order and nothing else changed,
-- and none of them names the topic.
pub prune_accepted :
    (topic_name : Str) (m : Manager)
    → some_transaction (holds topic_name) m.txns ≡ false
    → (succeeds (prune_topic_references topic_name m).1 ≡ true)
      × ((prune_topic_references topic_name m).0
          ≡ record m { txns = erase_topic topic_name m.txns })
      × NoReference topic_name (prune_topic_references topic_name m).0.txns
unfolding prune_topic_references state_without_topic_references
prune_accepted topic_name m h =
    let e : is_empty (sweep topic_name m.txns).active ≡ true =
      ground (arith, sweep-active topic_name m.txns) in
    let r = restore-sweep topic_name m.txns h in
    let after : (prune_topic_references topic_name m).0
        ≡ record m { txns = erase_topic topic_name m.txns } =
      ground arith in
    (
      ground arith,
      after,
      subst⁻¹ (λ n. NoReference topic_name n.txns) after
          (erase_topic-NoReference topic_name m.txns),
    )
