-- ===== src/Coordinator/History.antt =====
-- The stored offsets of pkg/coordinator/coordinator_offset.go over histories of coordinator calls.
use mathlib.Core.Path.{subst}
use go_broker.Base.{
  ◌||◌, ℕ, ◌≤◌, ◌≡◌, ◌⊎◌, inl, inr, refl, ap, Bool, none, some, List, [], ◌∷◌, arith, Str, str_eq,
  str_eq_iff, lookup, lookup-insert, map, Option-cases, Bool-cases, is_empty,
}
use go_broker.Base.Int.{ℤ, int64_succ}
use go_broker.Coordinator.Types.{GroupMetadata, Coordinator, OffsetItem, get_offset_safe}
use go_broker.Coordinator.Rebalance.{rebalance_range}
use go_broker.Coordinator.Members.{
  set_group, joined, left, touch, drop_members, add_consumer, remove_consumer,
  remove_consumer_for_generation, expire_consumers, rebalance, record_heartbeat,
  record_heartbeat_for_generation, resume_consumer, check_single_group_timeout, timed_out_members,
}
use go_broker.Coordinator.Offsets.{
  commit_offset, commit_offsets_bulk, validate_and_commit, validate_and_commit_offsets_bulk,
  apply_fenced_offset_update_from_fsm, fenced, batch_error, store_offsets, get_offset,
}
use go_broker.Coordinator.Commits.{
  Keeps, commit_offset_for_group-Keeps, commit_offsets_bulk_for_group-Keeps, store_offsets-Keeps,
}
use go_broker.Coordinator.Calls.{
  GroupCall, one, bulk, fenced_one, fenced_bulk, fenced_fsm, join, leave, leave_generation, expire,
  even_out, beat, beat_generation, resume, watch, step, run,
}
use go_broker.Coordinator.Refusals.{fenced-lookup, fenced-cases}

-- What a call may do to the coordinator: nothing, or a write of one group that keeps its offsets.
data Moves (c : Coordinator) (g : Str) (c' : Coordinator) : Type 0 where
  stays : c' ≡ c → Moves c g c'
  stores :
      (gm gm' : GroupMetadata)
      → lookup g c.groups ≡ some gm
      → c' ≡ set_group c g gm'
      → Keeps gm gm'
      → Moves c g c'

same_offsets-Keeps : (gm gm' : GroupMetadata) → gm'.offsets ≡ gm.offsets → Keeps gm gm'
unfolding get_offset_safe
same_offsets-Keeps gm gm' h = record { at = λ t p x e. (x, ground arith, ground arith) }

rebalance_range-Keeps :
    (now : ℕ) (before gm : GroupMetadata)
    → gm.offsets ≡ before.offsets
    → Keeps before (rebalance_range now gm)
unfolding rebalance_range
rebalance_range-Keeps now before gm h = same_offsets-Keeps before _ (ground arith)

touch-Keeps : (m : Str) (now : ℕ) (gm : GroupMetadata) → Keeps gm (touch m now gm)
unfolding touch
touch-Keeps m now gm = same_offsets-Keeps gm _ (ground arith)

joined-Keeps : (m : Str) (now : ℕ) (gm : GroupMetadata) → Keeps gm (joined m now gm)
unfolding joined
joined-Keeps m now gm = rebalance_range-Keeps now gm _ refl

left-Keeps : (m : Str) (now : ℕ) (gm : GroupMetadata) → Keeps gm (left m now gm)
unfolding left
left-Keeps m now gm = rebalance_range-Keeps now gm _ refl

one_write :
    (c c' : Coordinator) (g : Str) (gm gm' : GroupMetadata)
    → lookup g c.groups ≡ some gm
    → Keeps gm gm'
    → (c' ≡ c) ⊎ (c' ≡ set_group c g gm')
    → Moves c g c'
one_write c c' g gm gm' found k (inl same) = stays same
one_write c c' g gm gm' found k (inr moved) = stores gm gm' found moved k

expired :
    (g : Str) (n : ℤ) (ids : List Str) (now : ℕ) (c : Coordinator) (gm : GroupMetadata)
    → lookup g c.groups ≡ some gm
    → ((expire_consumers g n ids now c).0 ≡ c
        ⊎ (expire_consumers g n ids now c).0
          ≡ set_group c g (
              rebalance_range now (record gm {
                members = (drop_members ids gm.members).0;
                generation = int64_succ gm.generation;
              })))
unfolding expire_consumers
expired g n ids now c gm found = ground arith

expire_consumers-Moves :
    (g : Str) (n : ℤ) (ids : List Str) (now : ℕ) (c : Coordinator)
    → Moves c g (expire_consumers g n ids now c).0
expire_consumers-Moves g n ids now c = elim (Option-cases (lookup g c.groups)) [
  | inl gone ↦ stays (unfold expire_consumers in ground arith)
  | inr (gm, found) ↦
      one_write c _ g gm _ found (rebalance_range-Keeps now gm _ refl)
        (expired g n ids now c gm found)
]

check_single_group_timeout-Moves :
    (g : Str) (timeout now : ℕ) (c : Coordinator)
    → Moves c g (check_single_group_timeout g timeout now c)
unfolding check_single_group_timeout
check_single_group_timeout-Moves g timeout now c = elim (Option-cases (lookup g c.groups)) [
  | inl gone ↦ stays (ground arith)
  | inr (gm, found) ↦
      elim (Bool-cases
        (is_empty gm.members || is_empty (timed_out_members now timeout gm.members))) [
          | inl idle ↦ stays (ground arith)
          | inr busy ↦
              subst (λ x. Moves c g x) (ground arith)
                (expire_consumers-Moves g gm.generation (timed_out_members now timeout gm.members)
                  now c)
        ]
]

module _ (matches : Str → Str → Bool) where
  apply-Moves :
      (t : Str) (items : List OffsetItem) (g : Str) (c : Coordinator) (gm : GroupMetadata)
      → lookup g c.groups ≡ some gm
      → (c' : Coordinator)
      → (c' ≡ c)
        ⊎ (batch_error matches gm t items ≡ none) × (c' ≡ set_group c g (store_offsets t items gm))
      → Moves c g c'
  apply-Moves t items g c gm found c' (inl same) = stays same
  apply-Moves t items g c gm found c' (inr (good, moved)) =
      stores gm _ found moved
        (store_offsets-Keeps gm t [] items (unfold batch_error in ground arith))

  step-Moves :
      (call : GroupCall) (g : Str) (now : ℕ) (c : Coordinator)
      → Moves c g (step matches call g now c).0
  unfolding step
  step-Moves (one t p o w) g now c = elim (Option-cases (lookup g c.groups)) [
    | inl gone ↦ stays (unfold commit_offset in ground arith)
    | inr (gm, found) ↦
        one_write c _ g gm _ found (commit_offset_for_group-Keeps matches c.standalone w gm t p o)
          (unfold commit_offset in ground arith)
  ]
  step-Moves (bulk t [] w) g now c = stays (unfold commit_offsets_bulk in refl)
  step-Moves (bulk t (item ∷ items) w) g now c = elim (Option-cases (lookup g c.groups)) [
    | inl gone ↦ stays (unfold commit_offsets_bulk in ground arith)
    | inr (gm, found) ↦
        one_write c _ g gm _ found
          (commit_offsets_bulk_for_group-Keeps matches c.standalone w gm t (item ∷ items))
          (unfold commit_offsets_bulk in ground arith)
  ]
  step-Moves (fenced_one t p o n m w) g now c = elim (fenced-cases (fenced c g m n (p ∷ []))) [
    | inr (e, bad) ↦ stays (unfold validate_and_commit in ground arith)
    | inl (gm, good) ↦
        one_write c _ g gm _ (fenced-lookup c g m n (p ∷ []) gm good)
          (commit_offset_for_group-Keeps matches c.standalone w gm t p o)
          (unfold validate_and_commit in ground arith)
  ]
  step-Moves (fenced_bulk t m n items w) g now c =
      let ps = map (λ i. i.partition) items in
      elim (fenced-cases (fenced c g m n ps)) [
        | inr (e, bad) ↦ stays (unfold validate_and_commit_offsets_bulk in ground arith)
        | inl (gm, good) ↦
            one_write c _ g gm _ (fenced-lookup c g m n ps gm good)
              (commit_offsets_bulk_for_group-Keeps matches c.standalone w gm t items)
              (unfold validate_and_commit_offsets_bulk in ground arith)
      ]
  step-Moves (fenced_fsm t m n items) g now c =
      let ps = map (λ i. i.partition) items in
      elim (fenced-cases (fenced c g m n ps)) [
        | inr (e, bad) ↦ stays (unfold apply_fenced_offset_update_from_fsm in ground arith)
        | inl (gm, good) ↦
            apply-Moves t items g c gm (fenced-lookup c g m n ps gm good) _
              (unfold apply_fenced_offset_update_from_fsm in ground arith)
      ]
  step-Moves (join m) g now c = elim (Option-cases (lookup g c.groups)) [
    | inl gone ↦ stays (unfold add_consumer in ground arith)
    | inr (gm, found) ↦
        one_write c _ g gm _ found (joined-Keeps m now gm) (unfold add_consumer in ground arith)
  ]
  step-Moves (leave m) g now c = elim (Option-cases (lookup g c.groups)) [
    | inl gone ↦ stays (unfold remove_consumer in ground arith)
    | inr (gm, found) ↦
        one_write c _ g gm _ found (left-Keeps m now gm) (unfold remove_consumer in ground arith)
  ]
  step-Moves (leave_generation m n) g now c = elim (Option-cases (lookup g c.groups)) [
    | inl gone ↦ stays (unfold remove_consumer_for_generation remove_consumer in ground arith)
    | inr (gm, found) ↦
        one_write c _ g gm _ found (left-Keeps m now gm)
          (unfold remove_consumer_for_generation remove_consumer in ground arith)
  ]
  step-Moves (expire n ids) g now c = expire_consumers-Moves g n ids now c
  step-Moves even_out g now c = elim (Option-cases (lookup g c.groups)) [
    | inl gone ↦ stays (unfold rebalance in ground arith)
    | inr (gm, found) ↦
        one_write c _ g gm _ found (rebalance_range-Keeps now gm gm refl)
          (unfold rebalance in ground arith)
  ]
  step-Moves (beat m) g now c = elim (Option-cases (lookup g c.groups)) [
    | inl gone ↦ stays (unfold record_heartbeat record_heartbeat_for_generation in ground arith)
    | inr (gm, found) ↦
        one_write c _ g gm _ found (touch-Keeps m now gm)
          (unfold record_heartbeat record_heartbeat_for_generation in ground arith)
  ]
  step-Moves (beat_generation m n) g now c = elim (Option-cases (lookup g c.groups)) [
    | inl gone ↦ stays (unfold record_heartbeat_for_generation in ground arith)
    | inr (gm, found) ↦
        one_write c _ g gm _ found (touch-Keeps m now gm)
          (unfold record_heartbeat_for_generation in ground arith)
  ]
  step-Moves (resume m n) g now c = elim (Option-cases (lookup g c.groups)) [
    | inl gone ↦ stays (unfold resume_consumer in ground arith)
    | inr (gm, found) ↦
        one_write c _ g gm _ found (touch-Keeps m now gm) (unfold resume_consumer in ground arith)
  ]
  step-Moves (watch timeout) g now c = check_single_group_timeout-Moves g timeout now c

  Moves-offsets :
      (c c' : Coordinator) (g g' t : Str) (p : ℤ) (x : ℕ)
      → Moves c g c'
      → get_offset c g' t p ≡ some x
      → (y : ℕ) × (get_offset c' g' t p ≡ some y) × (x ≤ y)
  unfolding get_offset
  Moves-offsets c c' g g' t p x (stays same) h = (x, ground arith, ground arith)
  Moves-offsets c c' g g' t p x (stores gm gm' found moved k) h = elim (Bool-cases (str_eq g g')) [
    | inl same ↦
        let q : g ≡ g' = (str_eq_iff g g').0 same in
        let (y, kept, le) = k.at t p x (ground (arith, ap (λ s. lookup s c.groups) q)) in
        (y, ground (arith, lookup-insert g g' gm' c.groups), le)
    | inr other ↦ (x, ground (arith, lookup-insert g g' gm' c.groups), ground arith)
  ]

  -- An offset that is stored for a partition of a topic in a group is still there after any history
  -- of calls of the coordinator, on any groups at any times, and is at least as large: commits, joins,
  -- leaves, expiries, heartbeats, resumed sessions and rebalances never move it back or drop it.
  pub offsets_never_regress :
      (calls : List (GroupCall × Str × ℕ)) (c : Coordinator) (g t : Str) (p : ℤ) (x : ℕ)
      → get_offset c g t p ≡ some x
      → (y : ℕ) × (get_offset (run matches calls c) g t p ≡ some y) × (x ≤ y)
  unfolding run
  offsets_never_regress [] c g t p x h = (x, h, ground arith)
  offsets_never_regress ((call, g', now) ∷ calls) c g t p x h =
      let (y, kept, le) = Moves-offsets c _ g' g t p x (step-Moves call g' now c) h in
      let (z, still, le') =
        offsets_never_regress calls (step matches call g' now c).0 g t p y kept in
      (z, still, omega arith)
