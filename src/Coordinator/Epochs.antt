-- ===== src/Coordinator/Epochs.antt =====
-- The epochs of groups, which registrations and deletions raise (pkg/coordinator/rebalancer.go), and the
-- calls that run while the durable record of one is written.
use go_broker.Base.{
  ℕ, ◌^◌, ◌<◌, ◌≡◌, inl, inr, ap, ◌∙◌, refl, Bool, true, false, none, some, List, [], ◌∷◌, arith,
  Str, str_eq_iff, str_eq_refl, if◌then◌else◌, lookup, insert, lookup-insert, lookup-inserted,
  lookup-erase, ltb, Option-cases,
}
use go_broker.Base.Int.{ℤ}
use go_broker.Coordinator.Types.{
  GroupMetadata, Coordinator, OffsetItem, write_failed, ok, err, is_pending,
}
use go_broker.Coordinator.Members.{add_consumer}
use go_broker.Coordinator.Offsets.{
  commit_offset, commit_offsets_bulk, validate_and_commit, validate_and_commit_offsets_bulk,
  apply_fenced_offset_update_from_fsm, fenced,
}
use go_broker.Coordinator.Calls.{
  GroupCall, one, bulk, fenced_one, fenced_bulk, fenced_fsm, join, step,
}
use go_broker.Coordinator.Lifecycle.{
  described, new_group, writing, epoch_of, next_epoch, start_writing, register_existing,
  register_group_begin, register_group_end, delete_group_begin, delete_group_end, set_pending,
  clear_pending,
}

start_writing-writing :
    (name : Str) (e epoch : ℕ) (c : Coordinator)
    → (start_writing name e c).1 ≡ writing epoch
    → (e ≡ epoch) × (0 < epoch) × ((start_writing name e c).0 ≡ set_pending name c)
unfolding start_writing
start_writing-writing name e epoch c h = ground arith

next_epoch-rises : (e : ℕ) → e < 2 ^ 64 → 0 < next_epoch e → e < next_epoch e
unfolding next_epoch
next_epoch-rises e h k = ground arith

pending-set_pending : (name : Str) (c : Coordinator) → is_pending (set_pending name c) name ≡ true
unfolding is_pending
pending-set_pending name c = ground (arith, lookup-inserted name true c.lifecycle_pending)

pending-clear_pending :
    (name j : Str) (c : Coordinator)
    → is_pending c name ≡ false
    → is_pending (clear_pending name (set_pending name c)) j ≡ is_pending c j
unfolding is_pending
pending-clear_pending name j c h = ground (
  arith,
  lookup-erase name j (insert name true c.lifecycle_pending),
  lookup-insert name j true c.lifecycle_pending,
  str_eq_iff name j,
  ap {A = Str} (λ i. lookup i c.lifecycle_pending),
)

register_group_end-ok :
    (topic name : Str) (count : ℤ) (now epoch : ℕ) (existed : Bool) (c : Coordinator)
    → (register_group_end topic name count now epoch existed true c).1 ≡ ok tt
    → let c' = (register_group_end topic name count now epoch existed true c).0 in
      (epoch_of c' name ≡ epoch)
      × ((group : GroupMetadata) × (lookup name c'.groups ≡ some group)
          × (group.registration_epoch ≡ epoch))
unfolding register_group_end epoch_of described new_group
register_group_end-ok topic name count now epoch existed c h =
    elim (Option-cases (lookup name c.groups)) [
      | inl gone ↦
          let group = new_group topic count now epoch in
          (
            ground (arith, lookup-inserted name epoch c.group_epochs),
            (group, ground (arith, lookup-inserted name group c.groups), refl),
          )
      | inr (old, found) ↦
          let group = described topic count now (record old { registration_epoch = epoch }) in
          (
            ground (arith, lookup-inserted name epoch c.group_epochs),
            (group, ground (arith, lookup-inserted name group c.groups), refl),
          )
    ]

delete_group_end-ok :
    (name : Str) (epoch : ℕ) (c : Coordinator)
    → (delete_group_end name epoch true c).1 ≡ ok tt
    → let c' = (delete_group_end name epoch true c).0 in
      (lookup name c'.groups ≡ none) × (epoch_of c' name ≡ epoch)
unfolding delete_group_end epoch_of
delete_group_end-ok name epoch c h = ground (
  arith,
  lookup-inserted name epoch c.group_epochs,
  lookup-erase name name c.groups,
  str_eq_refl name,
)

-- The calls that wait for the end of a registration or a deletion: joins and commits.
pub data IsKeptOut : GroupCall → Type 0 where
  joins : {m : Str} → IsKeptOut (join m)
  commits : {t : Str} {p : ℤ} {o : ℕ} {w : Bool} → IsKeptOut (one t p o w)
  commits_bulk : {t : Str} {items : List OffsetItem} {w : Bool} → IsKeptOut (bulk t items w)
  commits_fenced :
      {t : Str} {p : ℤ} {o : ℕ} {n : ℤ} {m : Str} {w : Bool} → IsKeptOut (fenced_one t p o n m w)
  commits_fenced_bulk :
      {t m : Str} {n : ℤ} {items : List OffsetItem} {w : Bool}
      → IsKeptOut (fenced_bulk t m n items w)
  commits_replicated :
      {t m : Str} {n : ℤ} {items : List OffsetItem} → IsKeptOut (fenced_fsm t m n items)

module _ (matches : Str → Str → Bool) where
  commit_offsets_bulk-pending :
      (name t : Str) (items : List OffsetItem) (w : Bool) (c : Coordinator)
      → is_pending c name ≡ true
      → (commit_offsets_bulk matches name t items w c).0 ≡ c
  unfolding commit_offsets_bulk
  commit_offsets_bulk-pending name t [] w c h = refl
  commit_offsets_bulk-pending name t (item ∷ items) w c h = ground arith

  IsKeptOut-pending :
      (call : GroupCall) (name : Str) (now : ℕ) (c : Coordinator)
      → IsKeptOut call
      → is_pending c name ≡ true
      → (step matches call name now c).0 ≡ c
  unfolding step
  IsKeptOut-pending _ name now c joins h = unfold add_consumer in ground arith
  IsKeptOut-pending _ name now c commits h = unfold commit_offset in ground arith
  IsKeptOut-pending _ name now c (commits_bulk {t} {items} {w}) h =
      commit_offsets_bulk-pending name t items w c h
  IsKeptOut-pending _ name now c commits_fenced h =
      unfold validate_and_commit fenced in ground arith
  IsKeptOut-pending _ name now c commits_fenced_bulk h =
      unfold validate_and_commit_offsets_bulk fenced in ground arith
  IsKeptOut-pending _ name now c commits_replicated h =
      unfold apply_fenced_offset_update_from_fsm fenced in ground arith

  module _ (topic name : Str) (count : ℤ) (now epoch : ℕ) (c : Coordinator) where
    register_group_begin-writing :
        (register_group_begin matches topic name count now c).1 ≡ writing epoch
        → (next_epoch (epoch_of c name) ≡ epoch)
          × (0 < epoch)
          × ((register_group_begin matches topic name count now c).0 ≡ set_pending name c)
    unfolding register_group_begin register_existing
    register_group_begin-writing h =
        ground (arith, start_writing-writing name (next_epoch (epoch_of c name)) epoch c)

    -- A registration that gets to write its record, and whose write succeeds while other calls may have
    -- run, and that is accepted, leaves the group with its record's epoch, which is above the epoch from
    -- before the call. The epoch from before is a uint64.
    pub registration_raises_epoch :
        (existed : Bool) (later : Coordinator)
        → epoch_of c name < 2 ^ 64
        → (register_group_begin matches topic name count now c).1 ≡ writing epoch
        → (register_group_end topic name count now epoch existed true later).1 ≡ ok tt
        → let c' = (register_group_end topic name count now epoch existed true later).0 in
          (epoch_of c name < epoch)
          × (epoch_of c' name ≡ epoch)
          × ((group : GroupMetadata) × (lookup name c'.groups ≡ some group)
              × (group.registration_epoch ≡ epoch))
    registration_raises_epoch existed later b h k =
        let (next, positive, _) = register_group_begin-writing h in
        let rises = next_epoch-rises (epoch_of c name) b (omega arith) in
        let (e, entry) = register_group_end-ok topic name count now epoch existed later k in
        (omega arith, e, entry)

    -- A registration whose write fails, with no other call in between and no other write in progress for
    -- the group, ends with an error and takes everything back: the groups, the epochs and which groups
    -- have a write in progress are as before.
    pub failed_registration_rolls_back :
        (existed : Bool) (j : Str)
        → is_pending c name ≡ false
        → (register_group_begin matches topic name count now c).1 ≡ writing epoch
        → let c' = (register_group_begin matches topic name count now c).0 in
          let (after, r) = register_group_end topic name count now epoch existed false c' in
          (r ≡ err write_failed)
          × (after.groups ≡ c.groups)
          × (after.group_epochs ≡ c.group_epochs)
          × (is_pending after j ≡ is_pending c j)
    unfolding register_group_end
    failed_registration_rolls_back existed j idle h =
        let (_, _, marked) = register_group_begin-writing h in
        (
          refl,
          ap (λ x. x.groups) marked,
          ap (λ x. x.group_epochs) marked,
          ap (λ x. is_pending (clear_pending name x) j) marked
              ∙ pending-clear_pending name j c idle,
        )

    -- While the record of a registration is written, a join of the group and a commit to it change
    -- nothing.
    pub registration_keeps_calls_out :
        (call : GroupCall) (later : ℕ)
        → IsKeptOut call
        → (register_group_begin matches topic name count now c).1 ≡ writing epoch
        → let c' = (register_group_begin matches topic name count now c).0 in
          (step matches call name later c').0 ≡ c'
    registration_keeps_calls_out call later kept h =
        let (_, _, marked) = register_group_begin-writing h in
        IsKeptOut-pending call name later _ kept
          (ap (λ x. is_pending x name) marked ∙ pending-set_pending name c)

module _ (name : Str) (epoch : ℕ) (c : Coordinator) where
  delete_group_begin-writing :
      (group : GroupMetadata)
      → lookup name c.groups ≡ some group
      → group.registration_epoch < 2 ^ 64
      → epoch_of c name < 2 ^ 64
      → (delete_group_begin name c).1 ≡ writing epoch
      → (epoch_of c name < epoch)
        × (group.registration_epoch < epoch)
        × ((delete_group_begin name c).0 ≡ set_pending name c)
  unfolding delete_group_begin
  delete_group_begin-writing group found b b' h =
      let own = group.registration_epoch in
      let e = if ltb (epoch_of c name) own then own else epoch_of c name in
      ground (
        arith,
        start_writing-writing name (next_epoch e) epoch c,
        next_epoch-rises own,
        next_epoch-rises (epoch_of c name),
      )

  -- A deletion that gets to write its record, and whose write succeeds, and that is accepted, removes
  -- the group, and leaves an epoch above the one from before the call and above the group's own. Both
  -- are uint64 numbers.
  pub deletion_raises_epoch :
      (group : GroupMetadata) (later : Coordinator)
      → lookup name c.groups ≡ some group
      → group.registration_epoch < 2 ^ 64
      → epoch_of c name < 2 ^ 64
      → (delete_group_begin name c).1 ≡ writing epoch
      → (delete_group_end name epoch true later).1 ≡ ok tt
      → let c' = (delete_group_end name epoch true later).0 in
        (lookup name c'.groups ≡ none)
        × (epoch_of c' name ≡ epoch)
        × (epoch_of c name < epoch)
        × (group.registration_epoch < epoch)
  deletion_raises_epoch group later found b b' h k =
      let (above, own, _) = delete_group_begin-writing group found b b' h in
      let (gone, e) = delete_group_end-ok name epoch later k in (gone, e, above, own)
