-- ===== src/Transaction/Health.antt =====
-- The well-formedness of a manager that was reached by calls, and what the export needs of it.
use mathlib.Core.Path.{subst, subst⁻¹}
use native.Mathlib.Nat.{add-zero, add-suc, suc-add}
use go_broker.Base.{
  ℕ, suc, ◌+◌, ◌*◌, ◌^◌, ◌<◌, ◌≤◌, ◌≡◌, ◌≢◌, ◌⊎◌, inl, inr, refl, true, false, Option, none, some,
  List, [], ◌∷◌, arith, Str, str_eq_iff, Map, lookup, Distinct, Each, Each-of_lookup, length, ap,
  Bool-cases, Option-cases,
}
use go_broker.Base.Int.{ℤ, pos, negsuc, int_lt, int64_succ}
use go_broker.Transaction.Types.{
  committed, aborted, state_eq, Transaction, Snapshot, Manager, ok, u64_succ, snapshot,
  transaction_from_snapshot,
}
use go_broker.Transaction.Manager.{new_manager_with_expiration}
use go_broker.Transaction.Calls.{Call, init, start, prune, step, run}
use go_broker.Transaction.Machine.{concerns, machine, has_ended}
use go_broker.Transaction.Refines.{lookup-step, Distinct-step}
use go_broker.Transaction.Replica.{
  valid_state, snapshot_error, validate_import_state, export_entries, export_state, import_entries,
  import_state,
}

-- A transaction stored under `id` by time `clock`, whose counters are at most `bound`.
pub record IsSound (clock bound : ℕ) (id : Str) (tx : Transaction) : Type 0 where
  pub named : tx.id ≡ id
  pub identified : id ≢ []
  pub produced : tx.producer ≢ []
  pub epoch_low : int_lt tx.epoch (pos 0) ≡ false
  pub epoch_high : int_lt (pos bound) tx.epoch ≡ false
  pub revision_low : 0 < tx.revision
  pub revision_high : tx.revision ≤ 2 * bound + 1
  pub state_valid : valid_state tx.state ≡ true
  pub created : 0 < tx.created_at
  pub ordered : tx.created_at ≤ tx.updated_at
  pub past : tx.updated_at ≤ clock
  pub expired_ended : tx.expired ≡ true → (tx.state ≡ committed) ⊎ (tx.state ≡ aborted)

-- The snapshot of such a transaction passes the validation of imports and replicas.
pub IsSound-snapshot_error :
    (clock bound : ℕ) (id : Str) (tx : Transaction)
    → IsSound clock bound id tx
    → snapshot_error (snapshot tx) ≡ none
unfolding snapshot_error snapshot
IsSound-snapshot_error clock bound id tx s =
    ground (arith, s, str_eq_iff tx.id [], str_eq_iff tx.producer [])

machine-IsSound :
    (digest : Str → Str) (expiration : ℕ) (c : Call) (now clock bound : ℕ) (j : Str)
    (tx tx' : Transaction)
    → IsSound clock bound j tx
    → clock ≤ now
    → bound < 2 ^ 62
    → concerns c j ≡ true
    → machine digest expiration c now (some tx) ≡ some tx'
    → IsSound now (suc bound) j tx'
unfolding machine u64_succ concerns valid_state
machine-IsSound digest x (init id) now clock bound j tx tx' s t b k h =
    unfold state_eq int64_succ in ground (arith, s, str_eq_iff id j, str_eq_iff tx.producer [])
machine-IsSound digest x (start id p e) now clock bound j tx tx' s t b k h =
    ground (arith, s, str_eq_iff id j, str_eq_iff p [])
machine-IsSound digest x prune now clock bound j tx tx' s t b k h =
    unfold has_ended in ground (arith, s)
machine-IsSound digest x c now clock bound j tx tx' s t b k h = ground (arith, s)

-- Every transaction of the manager is sound.
abbrev pub IsHealthy : ℕ → ℕ → Manager → Type 0
IsHealthy clock bound m =
    (j : Str) (tx : Transaction) → lookup j m.txns ≡ some tx → IsSound clock bound j tx

machine-none-IsSound :
    (digest : Str → Str) (expiration : ℕ) (c : Call) (now bound : ℕ) (j : Str) (tx' : Transaction)
    → 0 < now
    → concerns c j ≡ true
    → machine digest expiration c now none ≡ some tx'
    → IsSound now (suc bound) j tx'
unfolding machine concerns valid_state
machine-none-IsSound digest x (init id) now bound j tx' t k h =
    ground (arith, str_eq_iff id j, str_eq_iff id [])
machine-none-IsSound digest x c now bound j tx' t k h = cc

IsSound-mono :
    (clock now bound : ℕ) (j : Str) (tx : Transaction)
    → clock ≤ now
    → IsSound clock bound j tx
    → IsSound now (suc bound) j tx
IsSound-mono clock now bound j tx t s = ground (arith, s)

step-IsHealthy :
    (digest : Str → Str) (c : Call) (now clock bound : ℕ) (m : Manager)
    → Distinct m.txns
    → IsHealthy clock bound m
    → clock ≤ now
    → 0 < now
    → bound < 2 ^ 62
    → IsHealthy now (suc bound) (step digest c now m)
step-IsHealthy digest c now clock bound m d s t z b j tx' h = elim (Bool-cases (concerns c j)) [
  | inl e ↦
      let h' : machine digest m.expiration c now (lookup j m.txns) ≡ some tx' =
        ground (arith, lookup-step digest c now m j d) in
      elim (Option-cases (lookup j m.txns)) [
        | inl gone ↦ machine-none-IsSound digest m.expiration c now bound j tx' z e (ground arith)
        | inr (tx, found) ↦
            machine-IsSound digest m.expiration c now clock bound j tx tx' (s j tx found) t b e
              (ground arith)
      ]
  | inr e ↦
      let h' : lookup j m.txns ≡ some tx' = ground (arith, lookup-step digest c now m j d) in
      IsSound-mono clock now bound j tx' t (s j tx' h')
]

-- The times of the calls do not go back.
abbrev pub Chronological : ℕ → List (Call × ℕ) → Type 0
Chronological clock [] = Unit
Chronological clock ((c, now) ∷ calls) = (clock ≤ now) × Chronological now calls

abbrev pub end_time : ℕ → List (Call × ℕ) → ℕ
end_time clock [] = clock
end_time clock ((c, now) ∷ calls) = end_time now calls

pub Distinct-run :
    (digest : Str → Str) (calls : List (Call × ℕ)) (m : Manager)
    → Distinct m.txns
    → Distinct (run digest calls m).txns
unfolding run
Distinct-run digest [] m d = d
Distinct-run digest ((c, now) ∷ calls) m d =
    Distinct-run digest calls (step digest c now m) (Distinct-step digest c now m d)

-- From a sound manager every chronological history of InitProducer, Begin, AddMessage, AddOffsets,
-- PrepareCommit, Commit, Abort and PruneExpired leads to a sound manager, as long as the counters have
-- room for one step to a call. The keys of the map are distinct.
pub run-IsHealthy :
    (digest : Str → Str) (calls : List (Call × ℕ)) (clock bound : ℕ) (m : Manager)
    → Distinct m.txns
    → IsHealthy clock bound m
    → Chronological clock calls
    → 0 < clock
    → bound + length calls ≤ 2 ^ 62
    → IsHealthy (end_time clock calls) (bound + length calls) (run digest calls m)
unfolding run
run-IsHealthy digest [] clock bound m d s t z b = rw add-zero s
run-IsHealthy digest ((c, now) ∷ calls) clock bound m d s t z b =
    rw (add-suc, ← suc-add)
      (run-IsHealthy digest calls now (suc bound) (step digest c now m)
        (Distinct-step digest c now m d)
        (step-IsHealthy digest c now clock bound m d s t.0 (omega arith) (omega arith)) t.1
        (omega arith) (omega arith))

id-snapshot : (tx : Transaction) → (snapshot tx).id ≡ tx.id
unfolding snapshot
id-snapshot tx = refl

validate-export :
    (clock bound : ℕ) (m : Map Transaction)
    → Each (IsSound clock bound) m
    → validate_import_state (export_entries m) ≡ none
unfolding validate_import_state export_entries
validate-export clock bound [] s = refl
validate-export clock bound ((id, tx) ∷ m) s = ground (
  arith,
  validate-export clock bound m s.1,
  IsSound-snapshot_error clock bound id tx s.0,
  s.0.named,
  str_eq_iff (snapshot tx).id id,
  id-snapshot tx,
)

import-export : (m : Map Transaction) → import_entries (export_entries m) ≡ m
unfolding import_entries export_entries transaction_from_snapshot snapshot
import-export [] = refl
import-export ((id, tx) ∷ m) = ap (λ r. (id, tx) ∷ r) (import-export m)

txns-new_manager : (expiration : ℤ) → (new_manager_with_expiration expiration).txns ≡ []
unfolding new_manager_with_expiration
txns-new_manager (pos n) = refl
txns-new_manager (negsuc n) = refl

not-found : (j : Str) (tx : Transaction) → lookup j [] ≢ some tx
unfolding lookup
not-found j tx h = cc

import-of_valid :
    (state : Map (Option Snapshot)) (txns : Map Transaction) (other : Manager)
    → validate_import_state state ≡ none
    → import_entries state ≡ txns
    → import_state state other ≡ (record other { txns = txns }, ok tt)
unfolding import_state
import-of_valid state txns other v e = ground arith

-- The state that a new manager exports after any chronological history of at most 2^62 calls of
-- InitProducer, Begin, AddMessage, AddOffsets, PrepareCommit, Commit, Abort and PruneExpired is
-- accepted by `ImportState` on any manager, which then holds exactly the exported transactions.
pub import-export_run :
    (digest : Str → Str) (calls : List (Call × ℕ)) (clock : ℕ) (expiration : ℤ) (other : Manager)
    → Chronological clock calls
    → 0 < clock
    → length calls ≤ 2 ^ 62
    → let m = run digest calls (new_manager_with_expiration expiration) in
      import_state (export_state m) other ≡ (record other { txns = m.txns }, ok tt)
unfolding export_state
import-export_run digest calls clock expiration other t z b =
    let fresh = new_manager_with_expiration expiration in
    let m = run digest calls fresh in
    let none_yet = txns-new_manager expiration in
    let start = subst⁻¹ (Distinct {V = Transaction}) none_yet tt in
    let d = Distinct-run digest calls fresh start in
    let s =
      run-IsHealthy digest calls clock 0 fresh start
        (λ j tx h. absurd (not-found j tx (subst (λ l. lookup j l ≡ some tx) none_yet h))) t z
        (omega arith) in
    let v =
      validate-export (end_time clock calls) (0 + length calls) m.txns
        (Each-of_lookup (IsSound (end_time clock calls) (0 + length calls)) m.txns d s) in
    import-of_valid (export_entries m.txns) m.txns other v (import-export m.txns)
