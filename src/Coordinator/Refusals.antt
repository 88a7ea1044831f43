-- ===== src/Coordinator/Refusals.antt =====
-- Calls that the coordinator refuses, of pkg/coordinator/coordinator.go, coordinator_offset.go,
-- rebalancer.go and heartbeat.go.
use go_broker.Base.{
  ℕ, ◌≡◌, ◌⊎◌, inl, inr, refl, map, Option-cases, ap, Bool, some, List, [], ◌∷◌, arith, Str, lookup,
  insert-same,
}
use go_broker.Base.Int.{ℤ}
use go_broker.Coordinator.Types.{GroupMetadata, Coordinator, OffsetItem, Error, Result, ok, err}
use go_broker.Coordinator.Members.{
  set_group, add_consumer, remove_consumer, remove_consumer_for_generation, expire_consumers,
  record_heartbeat, record_heartbeat_for_generation, resume_consumer,
}
use go_broker.Coordinator.Offsets.{
  commit_offset_for_group, commit_offset, commit_offsets_bulk_for_group, commit_offsets_bulk,
  validate_and_commit, validate_and_commit_offsets_bulk, apply_fenced_offset_update_from_fsm,
  fenced,
}
use go_broker.Coordinator.Calls.{
  GroupCall, one, bulk, fenced_one, fenced_bulk, fenced_fsm, join, leave, leave_generation, expire,
  even_out, beat, beat_generation, resume, watch, error_of, step,
}

set_group-same :
    (c : Coordinator) (g : Str) (gm : GroupMetadata)
    → lookup g c.groups ≡ some gm
    → set_group c g gm ≡ c
set_group-same c g gm h = ap (λ m. record c { groups = m }) (insert-same g gm c.groups h)

pub fenced-lookup :
    (c : Coordinator) (g m : Str) (n : ℤ) (ps : List ℤ) (gm : GroupMetadata)
    → fenced c g m n ps ≡ ok gm
    → lookup g c.groups ≡ some gm
unfolding fenced
fenced-lookup c g m n ps gm h = ground arith

pub fenced-cases :
    (r : Result GroupMetadata) → ((gm : GroupMetadata) × (r ≡ ok gm)) ⊎ ((e : Error) × (r ≡ err e))
fenced-cases (ok gm) = inl (gm, refl)
fenced-cases (err e) = inr (e, refl)

set_group-refused :
    (c : Coordinator) (g : Str) (gm : GroupMetadata) (x : GroupMetadata × Result (Unit {0}))
    (e : Error)
    → lookup g c.groups ≡ some gm
    → ((e' : Error) → x.1 ≡ err e' → x.0 ≡ gm)
    → error_of x.1 ≡ some e
    → set_group c g x.0 ≡ c
unfolding error_of
set_group-refused c g gm (gm', ok done) e found same h = ground arith
set_group-refused c g gm (gm', err e') e found same h =
    rw (same e' refl) (set_group-same c g gm found)

module _ (matches : Str → Str → Bool) where
  commit_offset_for_group-refused :
      (standalone written : Bool) (gm : GroupMetadata) (t : Str) (p : ℤ) (o : ℕ) (e : Error)
      → (commit_offset_for_group matches standalone written gm t p o).1 ≡ err e
      → (commit_offset_for_group matches standalone written gm t p o).0 ≡ gm
  unfolding commit_offset_for_group
  commit_offset_for_group-refused standalone written gm t p o e h = ground arith

  commit_offsets_bulk_for_group-refused :
      (standalone written : Bool) (gm : GroupMetadata) (t : Str) (items : List OffsetItem)
      (e : Error)
      → (commit_offsets_bulk_for_group matches standalone written gm t items).1 ≡ err e
      → (commit_offsets_bulk_for_group matches standalone written gm t items).0 ≡ gm
  unfolding commit_offsets_bulk_for_group
  commit_offsets_bulk_for_group-refused standalone written gm t items e h = ground arith

  -- A call that the coordinator refuses leaves every group and every setting exactly as it was:
  -- commits, joins, leaves, expiries, heartbeats and resumed sessions.
  pub refused_changes_nothing :
      (call : GroupCall) (g : Str) (now : ℕ) (c : Coordinator) (e : Error)
      → (step matches call g now c).1 ≡ some e
      → (step matches call g now c).0 ≡ c
  unfolding step
  refused_changes_nothing (one t p o w) g now c e h = elim (Option-cases (lookup g c.groups)) [
    | inl gone ↦ unfold commit_offset in ground arith
    | inr (gm, found) ↦
        let same =
          set_group-refused c g gm (commit_offset_for_group matches c.standalone w gm t p o) e found
            (commit_offset_for_group-refused c.standalone w gm t p o) in
        unfold commit_offset in ground arith
  ]
  refused_changes_nothing (bulk t [] w) g now c e h = unfold commit_offsets_bulk in refl
  refused_changes_nothing (bulk t (item ∷ items) w) g now c e h =
      elim (Option-cases (lookup g c.groups)) [
        | inl gone ↦ unfold commit_offsets_bulk in ground arith
        | inr (gm, found) ↦
            let same =
              set_group-refused c g gm
                (commit_offsets_bulk_for_group matches c.standalone w gm t (item ∷ items)) e found
                (commit_offsets_bulk_for_group-refused c.standalone w gm t (item ∷ items)) in
            unfold commit_offsets_bulk in ground arith
      ]
  refused_changes_nothing (fenced_one t p o n m w) g now c e h =
      elim (fenced-cases (fenced c g m n (p ∷ []))) [
        | inr (e', bad) ↦ unfold validate_and_commit in ground arith
        | inl (gm, good) ↦
            let same =
              set_group-refused c g gm (commit_offset_for_group matches c.standalone w gm t p o) e
                (fenced-lookup c g m n (p ∷ []) gm good)
                (commit_offset_for_group-refused c.standalone w gm t p o) in
            unfold validate_and_commit in ground arith
      ]
  refused_changes_nothing (fenced_bulk t m n items w) g now c e h =
      elim (fenced-cases (fenced c g m n (map (λ i. i.partition) items))) [
        | inr (e', bad) ↦ unfold validate_and_commit_offsets_bulk in ground arith
        | inl (gm, good) ↦
            let same =
              set_group-refused c g gm
                (commit_offsets_bulk_for_group matches c.standalone w gm t items) e
                (fenced-lookup c g m n (map (λ i. i.partition) items) gm good)
                (commit_offsets_bulk_for_group-refused c.standalone w gm t items) in
            unfold validate_and_commit_offsets_bulk in ground arith
      ]
  refused_changes_nothing (fenced_fsm t m n items) g now c e h =
      unfold apply_fenced_offset_update_from_fsm in ground arith
  refused_changes_nothing (join m) g now c e h = unfold add_consumer in ground arith
  refused_changes_nothing (leave m) g now c e h = unfold remove_consumer in ground arith
  refused_changes_nothing (leave_generation m n) g now c e h =
      unfold remove_consumer_for_generation remove_consumer in ground arith
  refused_changes_nothing (expire n ids) g now c e h = unfold expire_consumers in ground arith
  refused_changes_nothing even_out g now c e h = ground arith
  refused_changes_nothing (beat m) g now c e h =
      unfold record_heartbeat record_heartbeat_for_generation in ground arith
  refused_changes_nothing (beat_generation m n) g now c e h =
      unfold record_heartbeat_for_generation in ground arith
  refused_changes_nothing (resume m n) g now c e h = unfold resume_consumer in ground arith
  refused_changes_nothing (watch timeout) g now c e h = ground arith
