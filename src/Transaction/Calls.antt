-- ===== src/Transaction/Calls.antt =====
-- The calls of producers, of the coordinator's decision and of the expiry loop, as one step function:
-- `InitProducer`, `Begin`, `AddMessage`, `AddOffsets`, `PrepareCommit`, `Commit`, `Abort` and
-- `PruneExpired`. Snapshots, imports and deletions are in Transaction/Events.antt.
use go_broker.Base.{ℕ, Bool, true, false, List, [], ◌∷◌, Str}
use go_broker.Base.Int.{ℤ}
use go_broker.Transaction.Types.{MessageOperation, OffsetOperation, Manager, Result, ok, err}
use go_broker.Transaction.Manager.{
  prune_expired, init_producer, begin, add_message, add_offsets, prepare_commit, commit, abort,
}

-- The arguments of a call, but for the time and the manager.
pub data Call : Type 0 where
  init : Str → Call
  start : Str → Str → ℤ → Call
  message : Str → Str → ℤ → MessageOperation → Call
  offsets : Str → Str → ℤ → List OffsetOperation → Call
  prepare : Str → Str → ℤ → Call
  decide : Str → Call
  cancel : Str → Str → ℤ → Call
  prune : Call

abbrev pub succeeds {ℓ} : {A : Type ℓ} → Result A → Bool
succeeds (ok a) = true
succeeds (err e) = false

module _ (digest : Str → Str) where
  -- The manager after the call.
  unfoldable pub step : Call → ℕ → Manager → Manager
  step (init id) now m = (init_producer digest id now m).0
  step (start id producer epoch) now m = (begin id producer epoch now m).0
  step (message id producer epoch op) now m = (add_message id producer epoch op now m).0
  step (offsets id producer epoch ops) now m = (add_offsets id producer epoch ops now m).0
  step (prepare id producer epoch) now m = (prepare_commit id producer epoch now m).0
  step (decide id) now m = (commit id now m).0
  step (cancel id producer epoch) now m = (abort id producer epoch now m).0
  step prune now m = (prune_expired now m).0

  -- Whether the call returned no error.
  unfoldable pub accepted : Call → ℕ → Manager → Bool
  accepted (init id) now m = succeeds (init_producer digest id now m).1
  accepted (start id producer epoch) now m = succeeds (begin id producer epoch now m).1
  accepted (message id producer epoch op) now m =
      succeeds (add_message id producer epoch op now m).1
  accepted (offsets id producer epoch ops) now m =
      succeeds (add_offsets id producer epoch ops now m).1
  accepted (prepare id producer epoch) now m = succeeds (prepare_commit id producer epoch now m).1
  accepted (decide id) now m = succeeds (commit id now m).1
  accepted (cancel id producer epoch) now m = succeeds (abort id producer epoch now m).1
  accepted prune now m = true

  -- A history: calls with their times.
  unfoldable pub run : List (Call × ℕ) → Manager → Manager
  run [] m = m
  run ((c, now) ∷ calls) m = run calls (step c now m)
