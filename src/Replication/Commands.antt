-- ===== src/Replication/Commands.antt =====
-- The commands on partitions of the replicated state machine, pkg/cluster/replication/fsm: each is
-- applied with its payload decoded, and gives the state after it and the error, `none` for nil.
use go_broker.Base.{
  ℕ, ◌+◌, Bool, true, false, not, ◌&&◌, ◌||◌, Option, none, some, List, [], ◌∷◌, is_empty, keep,
  all, ◌==◌, ltb, if◌then◌else◌, Str, str_eq, lit, lookup, insert,
}
use go_broker.Base.Int.{ℤ, pos, negsuc, int_eq, int_lt, int64_succ}
use go_broker.Topic.Watermark.{apply_replica_hwm}
use go_broker.Replication.Types.{
  PartitionMetadata, PartitionMetadataJson, BrokerInfo, Definition, CatchupProof, CommitCommand,
  ElectionCommand, BrokerFsm, FsmError, unsupported_recovery_protocol, stale_leader_epoch,
  leader_change_without_epoch, hwm_regression, stale_lifecycle_epoch, metadata_not_found,
  commit_fenced, missing_lifecycle_epoch, invalid_identity, not_a_replica, hwm_mismatch,
  not_synchronized, topic_not_found, lifecycle_conflict, leader_not_a_replica, isr_not_a_replica,
  missing_argument, broker_not_found, broker_not_active, not_in_isr, contains_string, partition_key,
}

abbrev pub committed_hwm_version_current : ℤ
committed_hwm_version_current = pos 1

-- `MarshalJSON`
unfoldable pub marshal : PartitionMetadata → PartitionMetadataJson
marshal m = record {
  leader = m.leader;
  replicas = m.replicas;
  isr = m.isr;
  leader_epoch = m.leader_epoch;
  committed_hwm_version = some committed_hwm_version_current;
  committed_hwm = some m.committed_hwm;
  partition_count = m.partition_count;
  idempotent = m.idempotent;
  lifecycle_epoch = m.lifecycle_epoch;
}

abbrev pub is_current_version : Option ℤ → Bool
is_current_version none = false
is_current_version (some v) = int_eq v committed_hwm_version_current

-- `UnmarshalJSON` on the fields; `none` is an error.
unfoldable pub unmarshal : PartitionMetadataJson → Option PartitionMetadata
unmarshal j =
    if not (is_current_version j.committed_hwm_version) then none else elim j.committed_hwm [
      | none ↦ none
      | some hwm ↦
          if j.lifecycle_epoch == 0
          then none
          else some (record {
            leader = j.leader;
            replicas = j.replicas;
            isr = j.isr;
            leader_epoch = j.leader_epoch;
            committed_hwm = hwm;
            committed_hwm_known = true;
            partition_count = j.partition_count;
            idempotent = j.idempotent;
            lifecycle_epoch = j.lifecycle_epoch;
          })
    ]

-- The fences of `applyPartitionCommand` against the metadata that is there.
unfoldable pub partition_error : PartitionMetadata → PartitionMetadata → Option FsmError
partition_error current m =
    if int_lt m.leader_epoch current.leader_epoch
    then some stale_leader_epoch
    else if not (str_eq m.leader current.leader) && not (int_lt current.leader_epoch m.leader_epoch)
    then some leader_change_without_epoch
    else if m.committed_hwm_known
        && current.committed_hwm_known
        && ltb m.committed_hwm current.committed_hwm
    then some hwm_regression
    else if not (m.lifecycle_epoch == current.lifecycle_epoch)
    then some stale_lifecycle_epoch
    else none

abbrev pub partition_error_at : Option PartitionMetadata → PartitionMetadata → Option FsmError
partition_error_at none m = none
partition_error_at (some current) m = partition_error current m

unfoldable pub commit_error : CommitCommand → PartitionMetadata → Option FsmError
commit_error cmd m =
    if not (str_eq cmd.leader m.leader)
    then some commit_fenced
    else if not (int_eq cmd.leader_epoch m.leader_epoch)
    then some commit_fenced
    else if ltb cmd.hwm m.committed_hwm
    then some hwm_regression
    else if cmd.lifecycle_epoch == 0
    then some missing_lifecycle_epoch
    else if not (cmd.lifecycle_epoch == m.lifecycle_epoch)
    then some stale_lifecycle_epoch
    else none

-- `strings.TrimSpace(s) == ""` for a string of ASCII characters
unfoldable pub is_blank : Str → Bool
is_blank s = all (λ c. c == 32 || (ltb 8 c && ltb c 14)) s

-- One byte, with its capital folded to lower case.
abbrev pub lower : ℕ → ℕ
lower c = if ltb 64 c && ltb c 91 then c + 32 else c

-- `strings.EqualFold` against a word in lower case
unfoldable pub equal_fold : Str → Str → Bool
equal_fold [] [] = true
equal_fold (x ∷ xs) (y ∷ ys) = lower x == y && equal_fold xs ys
equal_fold _ _ = false

-- `validateISRCatchupProofLocked` against the metadata; the second check is the topic's.
unfoldable pub proof_error : CatchupProof → PartitionMetadata → Option Definition → Option FsmError
proof_error proof m definition =
    if not (contains_string m.replicas proof.broker_id)
    then some not_a_replica
    else if not m.committed_hwm_known
    then some unsupported_recovery_protocol
    else if not (proof.committed_hwm == m.committed_hwm)
    then some hwm_mismatch
    else if not (proof.local_leo == m.committed_hwm) || not (proof.local_hwm == m.committed_hwm)
    then some not_synchronized
    else if not (int_eq proof.leader_epoch m.leader_epoch)
    then some stale_leader_epoch
    else if not (proof.lifecycle_epoch == m.lifecycle_epoch)
    then some stale_lifecycle_epoch
    else elim definition [
      | none ↦ some topic_not_found
      | some d ↦
          if not (d.lifecycle_epoch == m.lifecycle_epoch)
          then some lifecycle_conflict
          else if not (contains_string m.replicas m.leader)
          then some leader_not_a_replica
          else none
    ]

abbrev pub is_negative : ℤ → Bool
is_negative (pos n) = false
is_negative (negsuc n) = true

-- The ISR with a broker added, in the order of the replicas.
unfoldable pub readmitted : PartitionMetadata → Str → List Str
readmitted m broker = keep (λ r. contains_string m.isr r || str_eq broker r) m.replicas

-- Why a broker may not be elected.
unfoldable pub candidate_error : Option BrokerInfo → Str → PartitionMetadata → Option FsmError
candidate_error none broker m = some broker_not_found
candidate_error (some info) broker m =
    if not (equal_fold info.status (lit "active"))
    then some broker_not_active
    else if not (contains_string m.replicas broker)
    then some not_a_replica
    else if not (contains_string m.isr broker)
    then some not_in_isr
    else none

module _ {S : Type 0} where
  abbrev pub with_metadata : Str → PartitionMetadata → BrokerFsm S → BrokerFsm S
  with_metadata key m f = record f { partition_metadata = insert key m f.partition_metadata }

  unfoldable pub apply_partition :
      Str → PartitionMetadataJson → BrokerFsm S → BrokerFsm S × Option FsmError
  apply_partition key json f = elim (unmarshal json) [
    | none ↦ (f, some unsupported_recovery_protocol)
    | some m ↦ elim (partition_error_at (lookup key f.partition_metadata) m) [
      | some e ↦ (f, some e)
      | none ↦ (with_metadata key m f, none)
    ]
  ]

  -- The watermark of the broker's own partition; one that is behind it stays as it is.
  unfoldable pub commit_local : Str → ℕ → BrokerFsm S → BrokerFsm S
  commit_local key hwm f = elim (lookup key f.local) [
    | none ↦ f
    | some p ↦ record f { local = insert key (apply_replica_hwm hwm p).0 f.local }
  ]

  unfoldable pub apply_partition_commit :
      CommitCommand → BrokerFsm S → BrokerFsm S × Option FsmError
  apply_partition_commit cmd f =
      let key = partition_key cmd.topic cmd.partition in
      elim (lookup key f.partition_metadata) [
        | none ↦ (f, some metadata_not_found)
        | some m ↦ elim (commit_error cmd m) [
          | some e ↦ (f, some e)
          | none ↦ (
            commit_local key cmd.hwm (
                with_metadata key (record m { committed_hwm = cmd.hwm; committed_hwm_known = true })
                  f),
            none,
          )
        ]
      ]

  unfoldable pub apply_isr_catchup : CatchupProof → BrokerFsm S → BrokerFsm S × Option FsmError
  apply_isr_catchup proof f =
      let key = partition_key proof.topic proof.partition in
      if is_empty proof.topic || is_negative proof.partition || is_empty proof.broker_id
      then (f, some invalid_identity)
      else elim (lookup key f.partition_metadata) [
        | none ↦ (f, some metadata_not_found)
        | some m ↦ elim (proof_error proof m (lookup proof.topic f.topic_state)) [
          | some e ↦ (f, some e)
          | none ↦
              if contains_string m.isr proof.broker_id
              then (f, none)
              else if not (all (λ b. contains_string m.replicas b) m.isr)
              then (f, some isr_not_a_replica)
              else (with_metadata key (record m { isr = readmitted m proof.broker_id }) f, none)
        ]
      ]

  unfoldable pub apply_leader_election :
      ElectionCommand → BrokerFsm S → BrokerFsm S × Option FsmError
  apply_leader_election cmd f =
      let key = partition_key cmd.topic cmd.partition in
      if is_blank cmd.topic || is_negative cmd.partition || is_blank cmd.broker
      then (f, some missing_argument)
      else elim (lookup key f.partition_metadata) [
        | none ↦ (f, some metadata_not_found)
        | some m ↦ elim (candidate_error (lookup cmd.broker f.brokers) cmd.broker m) [
          | some e ↦ (f, some e)
          | none ↦
              if str_eq m.leader cmd.broker
              then (f, none)
              else if not (int_eq cmd.expected_leader_epoch m.leader_epoch)
              then (f, some stale_leader_epoch)
              else (
                with_metadata key
                    (record m { leader = cmd.broker; leader_epoch = int64_succ m.leader_epoch }) f,
                none,
              )
        ]
      ]
