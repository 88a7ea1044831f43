-- ===== src/Replication/Isr.antt =====
-- The in-sync replicas of a partition, pkg/cluster/replication/isr_manager.go. Times are arguments.
use go_broker.Base.{
  ℕ, ◌-◌, Bool, true, false, not, ◌&&◌, ◌||◌, Option, none, some, List, [], ◌∷◌, is_empty, keep,
  any, length, ◌==◌, ltb, leb, if◌then◌else◌, Str, str_eq, lit, Map, lookup, insert, sort_strings,
}
use go_broker.Base.Int.{ℤ, int64_succ}
use go_broker.Replication.Types.{
  PartitionMetadata, BrokerInfo, BrokerFsm, contains_string, partition_key,
}
use go_broker.Replication.Commands.{marshal, apply_partition}

pub record IsrManager : Type 0 where
  pub broker_id : Str
  pub last_seen : Map ℕ
  pub heartbeat_timeout : ℕ

unfoldable pub update_heartbeat : Str → ℕ → IsrManager → IsrManager
update_heartbeat broker now i =
    if is_empty broker then i else record i { last_seen = insert broker now i.last_seen }

unfoldable pub clean_stale_heartbeats : ℕ → IsrManager → IsrManager
clean_stale_heartbeats now i = record i {
  last_seen =
      keep (λ (id, last). str_eq id i.broker_id || leb (now - last) i.heartbeat_timeout)
        i.last_seen;
}

abbrev pub is_active : Option BrokerInfo → Bool
is_active none = true
is_active (some info) = str_eq info.status (lit "active")

abbrev pub is_recent : ℕ → ℕ → Option ℕ → Bool
is_recent now timeout none = false
is_recent now timeout (some last) = ltb (now - last) timeout

-- The first of the members, which a failover makes the leader.
abbrev pub first_or : Str → List Str → Str
first_or leader [] = leader
first_or leader (b ∷ bs) = b

unfoldable pub needs_update : List Str → List Str → Bool
needs_update current isr =
    not (length current == length isr) || any (λ m. not (contains_string isr m)) current

-- The metadata that `ComputeISR` proposes for the live members, `none` where there is no need.
unfoldable pub proposal : List Str → PartitionMetadata → Option PartitionMetadata
proposal current m =
    let sorted = sort_strings current in
    if contains_string current m.leader
    then (if needs_update current m.isr then some (record m { isr = current }) else none)
    else if is_empty current
    then some (record m { isr = [] })
    else some (record m {
      isr = sorted;
      leader = first_or m.leader sorted;
      leader_epoch = int64_succ m.leader_epoch;
    })

module _ {S : Type 0} where
  -- A broker that is active, if it is known, and was heard of within the timeout.
  unfoldable pub is_live : ℕ → IsrManager → BrokerFsm S → Str → Bool
  is_live now i f replica =
      is_active (lookup replica f.brokers)
      && is_recent now i.heartbeat_timeout (lookup replica i.last_seen)

  -- `ComputeISR` on the Raft leader. The metadata is read from one state of the machine; the proposal
  -- goes through the log, which other commands may have taken to another state by then. Where
  -- `ApplyCommand` fails without applying it (`delivered` is false), the error is logged and nothing
  -- changes. The result is the state of the machine after the call.
  unfoldable pub compute_isr :
      Str → ℤ → ℕ → IsrManager → BrokerFsm S → BrokerFsm S → Bool → BrokerFsm S
  compute_isr topic partition now i f later delivered =
      let key = partition_key topic partition in
      elim (lookup key f.partition_metadata) [
        | none ↦ later
        | some m ↦ elim (proposal (keep (is_live now i f) m.isr) m) [
          | none ↦ later
          | some m' ↦ if delivered then (apply_partition key (marshal m') later).0 else later
        ]
      ]

  unfoldable pub has_quorum : Str → ℤ → ℕ → BrokerFsm S → Bool
  has_quorum topic partition min_isr f =
      elim (lookup (partition_key topic partition) f.partition_metadata) [
        | none ↦ leb min_isr 0
        | some m ↦ leb min_isr (length m.isr)
      ]
