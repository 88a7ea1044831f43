-- ===== src/Coordinator/Calls.antt =====
-- The calls of the coordinator as data, and the step that runs one of them: the coordinator after the
-- call, and the error of the call if it is refused.
use go_broker.Base.{ℕ, Bool, Option, none, some, List, [], ◌∷◌, Str}
use go_broker.Base.Int.{ℤ}
use go_broker.Coordinator.Types.{Coordinator, OffsetItem, Error, Result, ok, err}
use go_broker.Coordinator.Members.{
  add_consumer, remove_consumer, remove_consumer_for_generation, expire_consumers, rebalance,
  record_heartbeat, record_heartbeat_for_generation, resume_consumer, check_single_group_timeout,
}
use go_broker.Coordinator.Offsets.{
  commit_offset, commit_offsets_bulk, validate_and_commit, validate_and_commit_offsets_bulk,
  apply_fenced_offset_update_from_fsm,
}

-- The fields are the parameters of the calls in their order. Every call is made on a group.
pub data GroupCall : Type 0 where
  one : Str → ℤ → ℕ → Bool → GroupCall
  bulk : Str → List OffsetItem → Bool → GroupCall
  fenced_one : Str → ℤ → ℕ → ℤ → Str → Bool → GroupCall
  fenced_bulk : Str → Str → ℤ → List OffsetItem → Bool → GroupCall
  fenced_fsm : Str → Str → ℤ → List OffsetItem → GroupCall
  join : Str → GroupCall
  leave : Str → GroupCall
  leave_generation : Str → ℤ → GroupCall
  expire : ℤ → List Str → GroupCall
  even_out : GroupCall
  beat : Str → GroupCall
  beat_generation : Str → ℤ → GroupCall
  resume : Str → ℤ → GroupCall
  watch : ℕ → GroupCall

unfoldable pub error_of {ℓ} : {A : Type ℓ} → Result A → Option Error
error_of (ok a) = none
error_of (err e) = some e

abbrev answered {ℓ} : {A : Type ℓ} → Coordinator × Result A → Coordinator × Option Error
answered x = (x.0, error_of x.1)

module _ (matches : Str → Str → Bool) where
  unfoldable pub step : GroupCall → Str → ℕ → Coordinator → Coordinator × Option Error
  unfolding error_of
  step (one t p o written) g now c = answered (commit_offset matches g t p o written c)
  step (bulk t items written) g now c = answered (commit_offsets_bulk matches g t items written c)
  step (fenced_one t p o n m written) g now c =
      answered (validate_and_commit matches g t p o n m written c)
  step (fenced_bulk t m n items written) g now c =
      answered (validate_and_commit_offsets_bulk matches g t m n items written c)
  step (fenced_fsm t m n items) g now c =
      answered (apply_fenced_offset_update_from_fsm matches g t m n items c)
  step (join m) g now c = answered (add_consumer g m now c)
  step (leave m) g now c = answered (remove_consumer g m now c)
  step (leave_generation m n) g now c = answered (remove_consumer_for_generation g m n now c)
  step (expire n ids) g now c = answered (expire_consumers g n ids now c)
  step even_out g now c = (rebalance g now c, none)
  step (beat m) g now c = answered (record_heartbeat g m now c)
  step (beat_generation m n) g now c = answered (record_heartbeat_for_generation g m n now c)
  step (resume m n) g now c = answered (resume_consumer g m n now c)
  step (watch timeout) g now c = (check_single_group_timeout g timeout now c, none)

  -- A history: each call with its group and its time.
  unfoldable pub run : List (GroupCall × Str × ℕ) → Coordinator → Coordinator
  unfolding step
  run [] c = c
  run ((call, g, now) ∷ rest) c = run rest (step call g now c).0
