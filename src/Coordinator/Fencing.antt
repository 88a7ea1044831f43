-- ===== src/Coordinator/Fencing.antt =====
-- Fencing of commits by member, generation and ownership, the checks of pkg/coordinator/coordinator.go
-- that pkg/coordinator/coordinator_offset.go makes before it stores offsets.
use go_broker.Base.{
  ℕ, ◌≡◌, ◌≢◌, ◌⊎◌, ◌∙◌, Option-cases, inl, inr, Bool, true, false, not, none, some, List, [], ◌∷◌,
  arith, Str, lookup, lookup-inserted, map, any,
}
use go_broker.Base.Int.{ℤ, pos, int_lt, int_eq_iff, int64_succ}
use go_broker.Coordinator.Types.{
  MemberMetadata, GroupMetadata, Coordinator, OffsetItem, Error, ok, err, contains,
  member_generation_error,
}
use go_broker.Coordinator.Rebalance.{rebalance_range}
use go_broker.Coordinator.Members.{
  joined, left, add_consumer, remove_consumer, remove_consumer_for_generation, assignments_of,
}
use go_broker.Coordinator.Offsets.{
  validate_and_commit, validate_and_commit_offsets_bulk, apply_fenced_offset_update_from_fsm,
  fenced,
}
use go_broker.Coordinator.Refusals.{fenced-cases, refused_changes_nothing}
use go_broker.Coordinator.Calls.{
  GroupCall, fenced_one, fenced_bulk, fenced_fsm, join, leave, leave_generation, step,
}

-- A commit that carries the member, the generation and the partitions.
pub data IsFenced : GroupCall → Str → ℤ → List ℤ → Type 0 where
  by_one :
      {t : Str} {p : ℤ} {o : ℕ} {n : ℤ} {m : Str} {w : Bool}
      → IsFenced (fenced_one t p o n m w) m n (p ∷ [])
  by_bulk :
      {t m : Str} {n : ℤ} {items : List OffsetItem} {w : Bool}
      → IsFenced (fenced_bulk t m n items w) m n (map (λ i. i.partition) items)
  by_fsm :
      {t m : Str} {n : ℤ} {items : List OffsetItem}
      → IsFenced (fenced_fsm t m n items) m n (map (λ i. i.partition) items)

-- The calls that change the membership of a group whenever they are accepted.
pub data ChangesMembers : GroupCall → Type 0 where
  joining : {m : Str} → ChangesMembers (join m)
  leaving : {m : Str} → ChangesMembers (leave m)
  leaving_generation : {m : Str} {n : ℤ} → ChangesMembers (leave_generation m n)

any-not-contains :
    (owned : List ℤ) (p : ℤ) (ps : List ℤ)
    → any (λ q. not (contains owned q)) ps ≡ false
    → contains ps p ≡ true
    → contains owned p ≡ true
unfolding contains
any-not-contains owned p [] h k = ground arith
any-not-contains owned p (q ∷ qs) h k = ground (arith, any-not-contains owned p qs, int_eq_iff q p)

-- The group is there, the member is in it and owns the partition, and the generation is the group's,
-- unless it is negative.
abbrev pub IsOwner : Coordinator → Str → Str → ℤ → ℤ → GroupMetadata → Type 0
IsOwner c g m n p gm =
    (lookup g c.groups ≡ some gm)
    × ((member : MemberMetadata) × (lookup m gm.members ≡ some member)
        × (contains member.assignments p ≡ true))
    × ((int_lt n (pos 0) ≡ true) ⊎ (n ≡ gm.generation))

fenced-owns :
    (c : Coordinator) (g m : Str) (n : ℤ) (ps : List ℤ) (gm : GroupMetadata)
    → fenced c g m n ps ≡ ok gm
    → (p : ℤ) → contains ps p ≡ true
    → IsOwner c g m n p gm
unfolding fenced member_generation_error contains
fenced-owns c g m n ps gm h p k = elim (Option-cases (lookup m gm.members)) [
  | inl away ↦ ground (arith, any-not-contains (assignments_of m gm) p ps)
  | inr (member, there) ↦
      let owns = any-not-contains (assignments_of m gm) p ps in
      (
        ground arith,
        (member, there, ground (arith, owns)),
        ground (arith, int_eq_iff gm.generation n),
      )
]

fenced-stale :
    (c : Coordinator) (g m : Str) (n : ℤ) (ps : List ℤ) (gm : GroupMetadata)
    → lookup g c.groups ≡ some gm
    → n ≢ gm.generation
    → int_lt n (pos 0) ≡ false
    → (e : Error) × (fenced c g m n ps ≡ err e)
unfolding fenced member_generation_error
fenced-stale c g m n ps gm found other real = elim (fenced-cases (fenced c g m n ps)) [
  | inl (gm', good) ↦ ground (arith, int_eq_iff gm.generation n)
  | inr bad ↦ bad
]

int64_succ-ne : (n : ℤ) → n ≢ int64_succ n
unfolding int64_succ
int64_succ-ne n = ground arith

module _ (matches : Str → Str → Bool) where
  IsFenced-refused :
      (call : GroupCall) (g : Str) (now : ℕ) (c : Coordinator) (m : Str) (n : ℤ) (ps : List ℤ)
      (e : Error)
      → IsFenced call m n ps
      → fenced c g m n ps ≡ err e
      → (step matches call g now c).1 ≡ some e
  unfolding step
  IsFenced-refused _ g now c m n ps e by_one h = unfold validate_and_commit in ground arith
  IsFenced-refused _ g now c m n ps e by_bulk h =
      unfold validate_and_commit_offsets_bulk in ground arith
  IsFenced-refused _ g now c m n ps e by_fsm h =
      unfold apply_fenced_offset_update_from_fsm in ground arith

  -- A fenced commit that is accepted, on any of the three paths, is for a group that is there, from a
  -- member of the group whose assignments have every partition of the commit, in a generation that is
  -- negative or the group's.
  pub accepted_commit_owns :
      (call : GroupCall) (g : Str) (now : ℕ) (c : Coordinator) (m : Str) (n : ℤ) (ps : List ℤ)
      (p : ℤ)
      → IsFenced call m n ps
      → (step matches call g now c).1 ≡ none
      → contains ps p ≡ true
      → (gm : GroupMetadata) × IsOwner c g m n p gm
  accepted_commit_owns call g now c m n ps p f h k = elim (fenced-cases (fenced c g m n ps)) [
    | inl (gm, good) ↦ (gm, fenced-owns c g m n ps gm good p k)
    | inr (e, bad) ↦ ground (arith, IsFenced-refused call g now c m n ps e f bad)
  ]

  ChangesMembers-generation :
      (call : GroupCall) (g : Str) (now : ℕ) (c : Coordinator) (gm : GroupMetadata)
      → ChangesMembers call
      → (step matches call g now c).1 ≡ none
      → lookup g c.groups ≡ some gm
      → (gm' : GroupMetadata) × (lookup g (step matches call g now c).0.groups ≡ some gm')
        × (gm'.generation ≡ int64_succ gm.generation)
  unfolding step
  ChangesMembers-generation _ g now c gm (joining {m}) h found = (
    joined m now gm,
    unfold add_consumer in ground (arith, lookup-inserted g (joined m now gm) c.groups),
    unfold joined rebalance_range in ground arith,
  )
  ChangesMembers-generation _ g now c gm (leaving {m}) h found = (
    left m now gm,
    unfold remove_consumer in ground (arith, lookup-inserted g (left m now gm) c.groups),
    unfold left rebalance_range in ground arith,
  )
  ChangesMembers-generation _ g now c gm (leaving_generation {m} {n}) h found = (
    left m now gm,
    unfold remove_consumer_for_generation remove_consumer in
        ground (arith, lookup-inserted g (left m now gm) c.groups),
    unfold left rebalance_range in ground arith,
  )

  -- Once a member joins or leaves a group, a fenced commit that carries the generation from before,
  -- where that is not negative, is refused and changes nothing, whichever member makes it.
  pub membership_change_fences :
      (change call : GroupCall) (g : Str) (now later : ℕ) (c : Coordinator) (gm : GroupMetadata)
      (m : Str) (ps : List ℤ)
      → ChangesMembers change
      → (step matches change g now c).1 ≡ none
      → lookup g c.groups ≡ some gm
      → int_lt gm.generation (pos 0) ≡ false
      → IsFenced call m gm.generation ps
      → let c' = (step matches change g now c).0 in
        (step matches call g later c').0 ≡ c'
        × ((e : Error) × ((step matches call g later c').1 ≡ some e))
  membership_change_fences change call g now later c gm m ps j h found real f =
      let c' = (step matches change g now c).0 in
      let (gm', found', next) = ChangesMembers-generation change g now c gm j h found in
      let (e, bad) =
        fenced-stale c' g m gm.generation ps gm' found'
          (λ q. int64_succ-ne gm.generation (q ∙ next)) real in
      let refused = IsFenced-refused call g later c' m gm.generation ps e f bad in
      (refused_changes_nothing matches call g later c' e refused, (e, refused))
