-- ===== src/Transaction/Machine.antt =====
-- The specification of the manager: one machine for each transactional identifier. `machine` says
-- what a call does to the transaction of one identifier, whatever else the manager holds. The checks,
-- the new transactions and the storing of offsets are written out here, apart from the code.
use go_broker.Base.{
  ℕ, ◌-◌, Bool, true, false, not, ◌&&◌, ◌||◌, lit, Option, none, some, List, [], ◌∷◌, ◌++◌, ltb,
  if◌then◌else◌, Str, str_eq, all,
}
use go_broker.Base.Int.{ℤ, pos, int_eq, int64_succ}
use go_broker.Transaction.Types.{
  State, opened, committing, committed, aborted, state_eq, OffsetOperation, Transaction, u64_succ,
}
use go_broker.Transaction.Calls.{
  Call, init, start, message, offsets, prepare, decide, cancel, prune,
}

-- Whether the call is about the identifier.
unfoldable pub concerns : Call → Str → Bool
concerns (init id) j = str_eq id j
concerns (start id producer epoch) j = str_eq id j
concerns (message id producer epoch op) j = str_eq id j
concerns (offsets id producer epoch ops) j = str_eq id j
concerns (prepare id producer epoch) j = str_eq id j
concerns (decide id) j = str_eq id j
concerns (cancel id producer epoch) j = str_eq id j
concerns prune j = true

-- The call comes from the owner of a transaction that has not expired, under its epoch.
unfoldable pub owned : Transaction → Str → ℤ → Bool
owned tx producer epoch =
    not tx.expired
    && not (str_eq producer [])
    && str_eq tx.producer producer
    && int_eq epoch tx.epoch

-- The states that `Abort` leaves for "aborted".
unfoldable pub abortable : State → Bool
abortable committing = false
abortable committed = false
abortable aborted = false
abortable _ = true

unfoldable pub has_ended : State → Bool
has_ended committed = true
has_ended aborted = true
has_ended _ = false

-- An initialised transaction that has ended may begin again, by its owner if it has one.
unfoldable pub can_begin : Transaction → Str → ℤ → Bool
unfolding has_ended
can_begin tx producer epoch =
    not tx.expired
    && (str_eq tx.producer [] || str_eq tx.producer producer)
    && int_eq epoch tx.epoch
    && tx.ready
    && has_ended tx.state

-- A transaction that has ended, and that was not touched since the cutoff, is due to expire.
unfoldable pub is_due : ℕ → Transaction → Bool
unfolding has_ended
is_due cutoff tx = has_ended tx.state && not tx.expired && ltb tx.updated_at cutoff

-- A transaction without operations.
abbrev pub blank : Str → Str → ℤ → ℕ → Bool → State → ℕ → Transaction
blank id producer epoch revision ready state now = record {
  id = id;
  producer = producer;
  epoch = epoch;
  revision = revision;
  ready = ready;
  expired = false;
  state = state;
  messages = [];
  offsets = [];
  created_at = now;
  updated_at = now;
}

-- The producer of an identifier that has none.
abbrev pub default_producer : (Str → Str) → Str → Str
default_producer digest id = lit "txn-" ++ digest id

-- A transaction that is due expires on the way, which counts as a revision of its own.
unfoldable pub machine_init : (Str → Str) → ℕ → Str → ℕ → Option Transaction → Option Transaction
unfolding is_due
machine_init digest expiration id now none =
    if str_eq id []
    then none
    else some (blank id (default_producer digest id) (pos 0) 1 true aborted now)
machine_init digest expiration id now (some tx) =
    if str_eq id []
    then some tx
    else if state_eq tx.state committing
    then some tx
    else some (
        blank id (if str_eq tx.producer [] then default_producer digest id else tx.producer)
          (int64_succ tx.epoch)
          (if is_due (now - expiration) tx
            then u64_succ (u64_succ tx.revision)
            else u64_succ tx.revision)
          true aborted now)

unfoldable pub machine_start : Str → Str → ℤ → ℕ → Transaction → Transaction
unfolding can_begin
machine_start id producer epoch now tx =
    if not (str_eq id []) && not (str_eq producer []) && can_begin tx producer epoch
    then blank id producer epoch (u64_succ tx.revision) false opened now
    else tx

-- An expired transaction is dropped once it is old enough again; one that is due loses its operations
-- and expires.
unfoldable pub machine_prune : ℕ → ℕ → Transaction → Option Transaction
unfolding is_due
machine_prune cutoff now tx =
    if tx.expired && ltb tx.updated_at cutoff
    then none
    else if is_due cutoff tx
    then some (record tx {
      messages = [];
      offsets = [];
      ready = false;
      expired = true;
      revision = u64_succ tx.revision;
      updated_at = now;
    })
    else some tx

-- The operations of one call are about one topic, group, member and generation.
abbrev pub same_source : OffsetOperation → OffsetOperation → Bool
same_source a b =
    str_eq a.topic b.topic
    && str_eq a.group b.group
    && str_eq a.member b.member
    && int_eq a.generation b.generation

abbrev pub first_of : OffsetOperation → List OffsetOperation → OffsetOperation
first_of first [] = first
first_of first (stored ∷ rest) = stored

-- A transaction holds one offset for a topic, group and partition.
abbrev pub same_place : OffsetOperation → OffsetOperation → Bool
same_place a b = str_eq a.topic b.topic && str_eq a.group b.group && int_eq a.partition b.partition

unfoldable pub held : OffsetOperation → List OffsetOperation → Option OffsetOperation
held op [] = none
held op (x ∷ xs) = if same_place x op then some x else held op xs

unfoldable pub replaced : OffsetOperation → List OffsetOperation → List OffsetOperation
replaced op [] = []
replaced op (x ∷ xs) = if same_place x op then op ∷ xs else x ∷ replaced op xs

-- A new place goes to the end; a place that is held gets the new offset, unless that is below.
unfoldable pub store_one : OffsetOperation → List OffsetOperation → Option (List OffsetOperation)
unfolding held replaced
store_one op xs = elim (held op xs) [
  | none ↦ some (xs ++ op ∷ [])
  | some x ↦ if ltb op.offset x.offset then none else some (replaced op xs)
]

-- One after the other, up to the first that is below; what was stored before it stays.
unfoldable pub store_all : List OffsetOperation → List OffsetOperation → List OffsetOperation × Bool
unfolding store_one
store_all [] xs = (xs, true)
store_all (op ∷ ops) xs = elim (store_one op xs) [
  | none ↦ (xs, false)
  | some xs' ↦ store_all ops xs'
]

unfoldable pub machine_offsets : List OffsetOperation → ℕ → Transaction → Transaction
unfolding store_all
machine_offsets [] now tx = tx
machine_offsets (first ∷ ops) now tx =
    if not (all (λ op. same_source op (first_of first tx.offsets)) (first ∷ ops))
    then tx
    else (let (offsets', done) = store_all (first ∷ ops) tx.offsets in
        if done
        then record tx { offsets = offsets'; revision = u64_succ tx.revision; updated_at = now }
        else record tx { offsets = offsets' })

-- A call about a transaction that is there.
unfoldable pub machine_found : Call → ℕ → ℕ → Transaction → Option Transaction
unfolding machine_start machine_offsets machine_prune owned abortable
machine_found (init id) expiration now tx = some tx
machine_found (start id producer epoch) expiration now tx =
    some (machine_start id producer epoch now tx)
machine_found (message id producer epoch op) expiration now tx =
    if state_eq tx.state opened && owned tx producer epoch
    then some (record tx {
      messages = tx.messages ++ op ∷ [];
      revision = u64_succ tx.revision;
      updated_at = now;
    })
    else some tx
machine_found (offsets id producer epoch ops) expiration now tx =
    if state_eq tx.state opened && owned tx producer epoch
    then some (machine_offsets ops now tx)
    else some tx
machine_found (prepare id producer epoch) expiration now tx =
    if state_eq tx.state opened && owned tx producer epoch
    then some (record tx { state = committing; revision = u64_succ tx.revision; updated_at = now })
    else some tx
machine_found (decide id) expiration now tx =
    if state_eq tx.state committing
    then some (record tx { state = committed; revision = u64_succ tx.revision; updated_at = now })
    else some tx
machine_found (cancel id producer epoch) expiration now tx =
    if abortable tx.state && owned tx producer epoch
    then some (record tx {
      state = aborted;
      messages = [];
      offsets = [];
      revision = u64_succ tx.revision;
      updated_at = now;
    })
    else some tx
machine_found prune expiration now tx =
    if ltb 0 expiration then machine_prune (now - expiration) now tx else some tx

-- What a call makes of the transaction of its identifier.
unfoldable pub machine : (Str → Str) → ℕ → Call → ℕ → Option Transaction → Option Transaction
unfolding machine_init machine_found
machine digest expiration (init id) now found = machine_init digest expiration id now found
machine digest expiration c now none = none
machine digest expiration c now (some tx) = machine_found c expiration now tx
