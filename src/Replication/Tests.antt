-- ===== src/Replication/Tests.antt =====
-- The theorems about the replication of partitions at concrete clusters.
use go_broker.Base.{
  ◌≡◌, refl, Bool, true, false, some, List, [], ◌∷◌, Str, lit, lookup, insert, str_eq,
}
use go_broker.Base.Int.{pos, int64_succ}
use go_broker.Replication.Types.{
  PartitionMetadata, BrokerInfo, BrokerFsm, contains_string, next_decimal, decimal, itoa,
  partition_key,
}
use go_broker.Replication.Commands.{
  marshal, unmarshal, partition_error, commit_error, is_blank, equal_fold, proof_error, readmitted,
  candidate_error, apply_partition, commit_local, apply_partition_commit, apply_isr_catchup,
  apply_leader_election,
}
use go_broker.Replication.Histories.{
  Command, update, commit, readmit, elect, apply, run, has_room, have_room, Continues,
}
use go_broker.Replication.Epochs.{epoch_has_one_leader}
use go_broker.Replication.Isr.{IsrManager, is_live, compute_isr}
use go_broker.Replication.Failover.{IsClean, failover-IsClean}

abbrev orders : PartitionMetadata
orders = record {
  leader = lit "a";
  replicas = lit "a" ∷ lit "b" ∷ lit "c" ∷ [];
  isr = lit "a" ∷ lit "c" ∷ lit "b" ∷ [];
  leader_epoch = pos 3;
  committed_hwm = 5;
  committed_hwm_known = true;
  partition_count = pos 1;
  idempotent = false;
  lifecycle_epoch = 1;
}

broker : Str → BrokerInfo
broker id = record {
  id = id;
  addr = [];
  client_addr = [];
  status = lit "active";
  last_seen = 0;
  lifecycle_protocol = pos 1;
}

abbrev cluster : BrokerFsm Bool
cluster = record {
  brokers = (lit "a", broker (lit "a")) ∷ (lit "b", broker (lit "b")) ∷ [];
  partition_metadata = (lit "orders-0", orders) ∷ [];
  topic_state =
      (
        lit "orders",
        record {
          name = lit "orders";
          revision = 1;
          lifecycle_epoch = 1;
          partitions = pos 1;
          replication_factor = pos 3;
          idempotent = false;
          event_sourcing = false;
        },
      )
      ∷ [];
  local = [];
}

-- A commit, an election of b, an ISR without a, a proof of a, and a commit of the old leader.
abbrev commands : List Command
commands =
    commit (record {
      topic = lit "orders";
      partition = pos 0;
      leader = lit "a";
      leader_epoch = pos 3;
      hwm = 8;
      lifecycle_epoch = 1;
    })
    ∷ elect (record {
      topic = lit "orders";
      partition = pos 0;
      broker = lit "b";
      expected_leader_epoch = pos 3;
    })
    ∷ update (lit "orders-0") (
        marshal (record orders {
          leader = lit "b";
          leader_epoch = pos 4;
          committed_hwm = 8;
          isr = lit "b" ∷ [];
        }))
    ∷ readmit (record {
      topic = lit "orders";
      partition = pos 0;
      broker_id = lit "a";
      committed_hwm = 8;
      local_leo = 8;
      local_hwm = 8;
      leader_epoch = pos 4;
      lifecycle_epoch = 1;
    })
    ∷ commit (record {
      topic = lit "orders";
      partition = pos 0;
      leader = lit "a";
      leader_epoch = pos 3;
      hwm = 9;
      lifecycle_epoch = 1;
    })
    ∷ []

known_orders : lookup (lit "orders-0") cluster.partition_metadata ≡ some orders
unfolding lookup str_eq
known_orders = refl

enough_epochs : have_room commands cluster ≡ true
unfolding have_room has_room apply lookup insert str_eq partition_key itoa decimal next_decimal
    apply_partition marshal unmarshal partition_error commit_error is_blank equal_fold proof_error
    readmitted candidate_error commit_local apply_partition_commit apply_isr_catchup
    apply_leader_election contains_string int64_succ broker
enough_epochs = refl

epoch_has_one_leader_example :
    (m' : PartitionMetadata) × (lookup (lit "orders-0") (run commands cluster).partition_metadata
      ≡ some m')
    × Continues orders m'
epoch_has_one_leader_example =
    epoch_has_one_leader commands (lit "orders-0") orders cluster known_orders refl enough_epochs

-- Broker a was last heard of long ago.
abbrev heartbeats : IsrManager
heartbeats = record {
  broker_id = lit "c";
  last_seen = (lit "a", 10) ∷ (lit "b", 98) ∷ (lit "c", 99) ∷ [];
  heartbeat_timeout = 3;
}

keyed_orders :
    lookup (partition_key (lit "orders") (pos 0)) cluster.partition_metadata ≡ some orders
unfolding lookup str_eq partition_key itoa decimal
keyed_orders = refl

failover-IsClean_example :
    (compute_isr (lit "orders") (pos 0) 100 heartbeats cluster cluster false ≡ cluster)
    × ((m' : PartitionMetadata) × (lookup
            (partition_key (lit "orders") (pos 0))
            (compute_isr
              (lit "orders")
              (pos 0)
              100
              heartbeats
              cluster
              cluster
              true).partition_metadata
          ≡ some m')
        × IsClean (is_live 100 heartbeats cluster) orders m')
failover-IsClean_example =
    failover-IsClean (lit "orders") (pos 0) 100 heartbeats cluster cluster orders keyed_orders
      keyed_orders refl refl refl
