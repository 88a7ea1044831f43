-- ===== src/Coordinator/Members.antt =====
-- Membership and sessions: pkg/coordinator/rebalancer.go, heartbeat.go and the ownership checks of
-- coordinator.go. A method returns the coordinator after the call and its result.
use go_broker.Base.{
  ℕ, ◌-◌, Bool, false, not, ◌&&◌, ◌||◌, ◌+◌, Option, none, some, List, [], ◌∷◌, ltb, if◌then◌else◌,
  Str, Map, lookup, insert, erase, length, is_empty, ◌==◌,
}
use go_broker.Base.Int.{ℤ, pos, negsuc, int_eq, int64_succ}
use go_broker.Coordinator.Types.{
  MemberMetadata, GroupMetadata, Coordinator, Error, group_not_found, member_not_found,
  gen_mismatch, not_owner, lifecycle_pending, Result, ok, err, contains, is_pending,
  member_generation_error,
}
use go_broker.Coordinator.Rebalance.{rebalance_range}

abbrev pub set_group : Coordinator → Str → GroupMetadata → Coordinator
set_group c name group = record c { groups = insert name group c.groups }

-- A new member in place of any old one, a new generation, and the assignments of all members.
unfoldable pub joined : Str → ℕ → GroupMetadata → GroupMetadata
joined consumer_id now group = rebalance_range now (record group {
  members =
      insert consumer_id (record { id = consumer_id; last_heartbeat = now; assignments = [] })
        group.members;
  generation = int64_succ group.generation;
})

abbrev pub assignments_of : Str → GroupMetadata → List ℤ
assignments_of member_id group = elim (lookup member_id group.members) [
  | none ↦ []
  | some member ↦ member.assignments
]

unfoldable pub add_consumer : Str → Str → ℕ → Coordinator → Coordinator × Result (List ℤ)
unfolding joined
add_consumer group_name consumer_id now c =
    if is_pending c group_name
    then (c, err lifecycle_pending)
    else elim (lookup group_name c.groups) [
      | none ↦ (c, err group_not_found)
      | some group ↦
          let group' = joined consumer_id now group in
          (set_group c group_name group', ok (assignments_of consumer_id group'))
    ]

unfoldable pub left : Str → ℕ → GroupMetadata → GroupMetadata
left consumer_id now group = rebalance_range now (record group {
  members = erase consumer_id group.members;
  generation = int64_succ group.generation;
})

-- `removeConsumerLocked`; the result is the member count and the generation.
unfoldable pub remove_consumer : Str → Str → ℕ → Coordinator → Coordinator × Result (ℕ × ℤ)
unfolding left
remove_consumer group_name consumer_id now c = elim (lookup group_name c.groups) [
  | none ↦ (c, err group_not_found)
  | some group ↦ elim (lookup consumer_id group.members) [
    | none ↦ (c, err member_not_found)
    | some member ↦
        let group' = left consumer_id now group in
        (set_group c group_name group', ok (length group'.members, group'.generation))
  ]
]

unfoldable pub remove_consumer_for_generation :
    Str → Str → ℤ → ℕ → Coordinator → Coordinator × Result (ℕ × ℤ)
unfolding remove_consumer
remove_consumer_for_generation group_name consumer_id generation now c =
    elim (member_generation_error c group_name consumer_id generation) [
      | some e ↦ (c, err e)
      | none ↦ remove_consumer group_name consumer_id now c
    ]

-- The members that stay, and how many of the listed ones were there.
unfoldable pub drop_members : List Str → Map MemberMetadata → Map MemberMetadata × ℕ
drop_members [] members = (members, 0)
drop_members (id ∷ ids) members = elim (lookup id members) [
  | none ↦ drop_members ids members
  | some member ↦ let (rest, removed) = drop_members ids (erase id members) in (rest, removed + 1)
]

unfoldable pub expire_consumers :
    Str → ℤ → List Str → ℕ → Coordinator → Coordinator × Result (Unit {0})
unfolding drop_members
expire_consumers group_name expected ids now c = elim (lookup group_name c.groups) [
  | none ↦ (c, err group_not_found)
  | some group ↦
      if not (int_eq group.generation expected)
      then (c, err gen_mismatch)
      else (let (members, removed) = drop_members ids group.members in
          if removed == 0 then (c, ok tt) else (
            set_group c group_name (
                rebalance_range now
                  (record group { members = members; generation = int64_succ group.generation })),
            ok tt,
          ))
]

-- `Rebalance`
unfoldable pub rebalance : Str → ℕ → Coordinator → Coordinator
rebalance group_name now c = elim (lookup group_name c.groups) [
  | none ↦ c
  | some group ↦ set_group c group_name (rebalance_range now group)
]

-- The write that a heartbeat and a resumed session share.
unfoldable pub touch : Str → ℕ → GroupMetadata → GroupMetadata
touch member_id now group = elim (lookup member_id group.members) [
  | none ↦ group
  | some member ↦ record group {
    members = insert member_id (record member { last_heartbeat = now }) group.members;
    last_activity = now;
  }
]

unfoldable pub record_heartbeat_for_generation :
    Str → Str → ℤ → ℕ → Coordinator → Coordinator × Result (Unit {0})
unfolding touch
record_heartbeat_for_generation group_name consumer_id generation now c =
    elim (member_generation_error c group_name consumer_id generation) [
      | some e ↦ (c, err e)
      | none ↦ elim (lookup group_name c.groups) [
        | none ↦ (c, err group_not_found)
        | some group ↦ (set_group c group_name (touch consumer_id now group), ok tt)
      ]
    ]

-- `RecordHeartbeat`: generation -1 is not compared.
unfoldable pub record_heartbeat : Str → Str → ℕ → Coordinator → Coordinator × Result (Unit {0})
unfolding record_heartbeat_for_generation
record_heartbeat group_name consumer_id now c =
    record_heartbeat_for_generation group_name consumer_id (negsuc 0) now c

unfoldable pub resume_consumer : Str → Str → ℤ → ℕ → Coordinator → Coordinator × Result (List ℤ)
unfolding touch
resume_consumer group_name member_id generation now c =
    elim (member_generation_error c group_name member_id generation) [
      | some e ↦ (c, err e)
      | none ↦ elim (lookup group_name c.groups) [
        | none ↦ (c, err group_not_found)
        | some group ↦ (
          set_group c group_name (touch member_id now group),
          ok (assignments_of member_id group),
        )
      ]
    ]

-- `ValidateOwnershipFailure`; `none` is the empty string.
unfoldable pub ownership_failure : Coordinator → Str → Str → ℤ → ℤ → Option Error
ownership_failure c group_name member_id generation partition =
    elim (member_generation_error c group_name member_id generation) [
      | some e ↦ some e
      | none ↦ elim (lookup group_name c.groups) [
        | none ↦ some group_not_found
        | some group ↦
            if contains (assignments_of member_id group) partition then none else some not_owner
      ]
    ]

unfoldable pub validate_ownership_atomic : Coordinator → Str → Str → ℤ → ℤ → Bool
validate_ownership_atomic c group_name member_id generation partition =
    elim (lookup group_name c.groups) [
      | none ↦ false
      | some group ↦ elim (lookup member_id group.members) [
        | none ↦ false
        | some member ↦ int_eq group.generation generation && contains member.assignments partition
      ]
    ]

-- The members whose session is over: `now.Sub(member.LastHeartbeat) > timeout`.
unfoldable pub timed_out_members : ℕ → ℕ → Map MemberMetadata → List Str
timed_out_members now timeout [] = []
timed_out_members now timeout ((id, member) ∷ members) =
    let rest = timed_out_members now timeout members in
    if ltb timeout (now - member.last_heartbeat) then id ∷ rest else rest

-- `checkSingleGroupTimeout` on a broker that runs alone.
unfoldable pub check_single_group_timeout : Str → ℕ → ℕ → Coordinator → Coordinator
check_single_group_timeout group_name timeout now c = elim (lookup group_name c.groups) [
  | none ↦ c
  | some group ↦
      let timed_out = timed_out_members now timeout group.members in
      if is_empty group.members || is_empty timed_out
      then c
      else (expire_consumers group_name group.generation timed_out now c).0
]

-- `GetGeneration`
unfoldable pub get_generation : Coordinator → Str → ℤ
get_generation c group_name = elim (lookup group_name c.groups) [
  | none ↦ pos 0
  | some group ↦ group.generation
]
