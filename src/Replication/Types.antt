-- ===== src/Replication/Types.antt =====
-- The partition metadata and the state of the replicated state machine, pkg/cluster/replication/fsm.
use go_broker.Base.{
  ℕ, zero, suc, ◌+◌, Bool, Option, List, [], ◌∷◌, ◌++◌, ◌==◌, if◌then◌else◌, Str, str_eq, lit, Map,
  any,
}
use go_broker.Base.Int.{ℤ, pos, negsuc}
use go_broker.Topic.Types.{Partition}

pub record PartitionMetadata : Type 0 where
  pub leader : Str
  pub replicas : List Str
  pub isr : List Str
  pub leader_epoch : ℤ  -- int
  pub committed_hwm : ℕ  -- uint64
  pub committed_hwm_known : Bool
  pub partition_count : ℤ
  pub idempotent : Bool
  pub lifecycle_epoch : ℕ  -- uint64

-- `partitionMetadataJSON`; a missing field is `none`.
pub record PartitionMetadataJson : Type 0 where
  pub leader : Str
  pub replicas : List Str
  pub isr : List Str
  pub leader_epoch : ℤ
  pub committed_hwm_version : Option ℤ
  pub committed_hwm : Option ℕ
  pub partition_count : ℤ
  pub idempotent : Bool
  pub lifecycle_epoch : ℕ

pub record BrokerInfo : Type 0 where
  pub id : Str
  pub addr : Str
  pub client_addr : Str
  pub status : Str
  pub last_seen : ℕ
  pub lifecycle_protocol : ℤ

-- `topic.Definition`, but for its policy
pub record Definition : Type 0 where
  pub name : Str
  pub revision : ℕ
  pub lifecycle_epoch : ℕ
  pub partitions : ℤ
  pub replication_factor : ℤ
  pub idempotent : Bool
  pub event_sourcing : Bool

pub record CatchupProof : Type 0 where
  pub topic : Str
  pub partition : ℤ
  pub broker_id : Str
  pub committed_hwm : ℕ
  pub local_leo : ℕ
  pub local_hwm : ℕ
  pub leader_epoch : ℤ
  pub lifecycle_epoch : ℕ

pub record CommitCommand : Type 0 where
  pub topic : Str
  pub partition : ℤ
  pub leader : Str
  pub leader_epoch : ℤ
  pub hwm : ℕ
  pub lifecycle_epoch : ℕ

pub record ElectionCommand : Type 0 where
  pub topic : Str
  pub partition : ℤ
  pub broker : Str
  pub expected_leader_epoch : ℤ

-- The part of `BrokerFSM` that the commands on partitions use. `local` stands for the topic manager:
-- the broker's own partitions under their keys.
pub record BrokerFsm (S : Type 0) : Type 0 where
  pub brokers : Map BrokerInfo
  pub partition_metadata : Map PartitionMetadata
  pub topic_state : Map Definition
  pub local : Map (Partition S)

pub data FsmError : Type 0 where
  unsupported_recovery_protocol stale_leader_epoch leader_change_without_epoch : FsmError
  hwm_regression stale_lifecycle_epoch metadata_not_found commit_fenced : FsmError
  missing_lifecycle_epoch invalid_identity not_a_replica hwm_mismatch not_synchronized : FsmError
  topic_not_found lifecycle_conflict leader_not_a_replica isr_not_a_replica : FsmError
  missing_argument broker_not_found broker_not_active not_in_isr identity_mismatch : FsmError

-- `containsString` and `containsBroker`
unfoldable pub contains_string : List Str → Str → Bool
contains_string values wanted = any (λ v. str_eq v wanted) values

-- The decimal digits, the last one first, of the number after the one whose digits are given.
unfoldable pub next_decimal : List ℕ → List ℕ
next_decimal [] = 49 ∷ []
next_decimal (d ∷ ds) = let rest = next_decimal ds in if d == 57 then 48 ∷ rest else (d + 1) ∷ ds

unfoldable pub decimal : ℕ → List ℕ
decimal zero = 48 ∷ []
decimal (suc n) = next_decimal (decimal n)

abbrev pub backwards : List ℕ → List ℕ → List ℕ
backwards [] ys = ys
backwards (x ∷ xs) ys = backwards xs (x ∷ ys)

-- `strconv.Itoa`
unfoldable pub itoa : ℤ → Str
itoa (pos n) = backwards (decimal n) []
itoa (negsuc n) = lit "-" ++ backwards (decimal (suc n)) []

unfoldable pub partition_key : Str → ℤ → Str
partition_key topic partition = topic ++ (lit "-" ++ itoa partition)
