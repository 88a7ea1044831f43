-- ===== src/Coordinator/Rebalance.antt =====
-- `rebalanceRange` of pkg/coordinator/rebalancer.go on one group.
use go_broker.Base.{
  ℕ, suc, ◌+◌, ◌-◌, ◌/◌, ◌%◌, Option, none, some, List, [], ◌∷◌, ltb, if◌then◌else◌, Str, Map,
  lookup, insert, length, take, drop, is_empty, sort_strings,
}
use go_broker.Base.Int.{ℤ}
use go_broker.Coordinator.Types.{MemberMetadata, GroupMetadata}
pub mod Members
pub mod Ranges
pub mod Owners

unfoldable pub member_ids : Map MemberMetadata → List Str
member_ids [] = []
member_ids ((id, member) ∷ members) = id ∷ member_ids members

-- `group.Members[id].Assignments = assigned`
unfoldable pub set_assignments : Str → List ℤ → Map MemberMetadata → Map MemberMetadata
set_assignments id assigned members = elim (lookup id members) [
  | none ↦ members
  | some member ↦ insert id (record member { assignments = assigned }) members
]

-- The partitions from `index` that the member at place `i` gets: `count` of them, as far as there are.
unfoldable pub next_assignments : List ℤ → ℕ → ℕ → ℕ → ℕ → List ℤ
next_assignments partitions per_consumer remainder i index =
    let count = if ltb i remainder then per_consumer + 1 else per_consumer in
    let end =
      if ltb (length partitions) (index + count) then length partitions else index + count in
    if ltb index (length partitions) then take (end - index) (drop index partitions) else []

unfoldable pub assign_ranges :
    List ℤ → ℕ → ℕ → ℕ → ℕ → List Str → Map MemberMetadata → Map MemberMetadata
assign_ranges partitions per_consumer remainder i index [] members = members
assign_ranges partitions per_consumer remainder i index (id ∷ ids) members =
    let assigned = next_assignments partitions per_consumer remainder i index in
    assign_ranges partitions per_consumer remainder (suc i) (index + length assigned) ids
      (set_assignments id assigned members)

unfoldable pub rebalance_range : ℕ → GroupMetadata → GroupMetadata
unfolding assign_ranges
rebalance_range now group =
    let ids = sort_strings (member_ids group.members) in
    let touched = record group { last_activity = now; last_rebalance = now } in
    if is_empty ids
    then touched
    else (let p_count = length group.partitions in
        let m_count = length ids in
        record touched {
          members =
              assign_ranges group.partitions (p_count / m_count) (p_count % m_count) 0 0 ids
                group.members;
        })
