-- ===== src/Lib.antt =====
-- Verification library of Cursus, a partitioned-log message broker.
--
-- pkg/transaction keeps the broker's transactions. A client initialises a producer for a
-- transactional identifier, begins, stages messages and consumer offsets, and ends by a two-step
-- commit or an abort. `Manager` is the map of transactions; its methods hold one mutex, so each
-- call is one step. A coordinator replicates the snapshot of a transaction after each call;
-- replicas apply it by `ApplyReplicatedSnapshot`.
--
-- Base: tests on numbers, lists over the native numbers, Go strings as byte lists, Go maps as
-- association lists, int64 as integers that wrap, `==` and `reflect.DeepEqual` as Boolean
-- functions, `sort.Strings`. Wire/Message: the record schema of pkg/wire/message.go. Wire/Encoder
-- and Wire/Decoder: the binary encoder and decoder of pkg/wire/record.go, over lists of bytes below
-- 256; a decoder is the bytes that it has not read and its error. Wire/Record: `EncodeRecord` and
-- `DecodeRecord`. Wire/Batch: `EncodeBatch`, `DecodeBatch` and `IsBatch` of pkg/wire/batch.go.
-- Wire/Bytes and the files under Wire/Record and Wire/Batch hold proofs. Transaction/Types: the
-- data of pkg/transaction/manager.go. Transaction/Manager, with its children Lifetime, Staging and
-- Decisions: the methods of the manager, `NewManager`, `PruneExpired`, `InitProducer`, `Begin`,
-- `AddMessage`, `AddOffsets`, `PrepareCommit`, `Commit`, `Abort` and the readers; a method returns
-- the manager after the call and its result. Transaction/Replica: export, import and replicated
-- snapshots. Transaction/Topics: pkg/transaction/topic_lifecycle.go. Transaction/Calls: the calls
-- of producers, `Commit` and `PruneExpired` as one step function, and histories of these calls.
-- Transaction/Events: the calls and all else that changes the manager, snapshots, imports, deletions
-- and topic prunings, as one step function. Transaction/Machine: what a call does to the transaction
-- of one identifier, as a specification. The other files under Transaction hold proofs,
-- named for what they are about, and tests.
--
-- pkg/coordinator keeps the consumer groups: who is a member, which partitions each member owns in
-- the current generation, and the offsets that the group has committed. A join, a leave or an
-- expiry makes a new generation and hands the partitions out again; a fenced commit names its
-- member and generation. The transaction manager stages offsets that are committed to these groups
-- when a transaction ends.
--
-- Coordinator/Types: the data of pkg/coordinator/coordinator.go, with the reads and writes of
-- offsets. Coordinator/Rebalance: `rebalanceRange` of pkg/coordinator/rebalancer.go.
-- Coordinator/Members: joins, leaves, expiries, heartbeats (pkg/coordinator/heartbeat.go), resumed
-- sessions and ownership checks. Coordinator/Offsets: the commits of
-- pkg/coordinator/coordinator_offset.go. Coordinator/Calls: the calls as one step function, and
-- histories of calls. Coordinator/Lifecycle: registration and deletion of groups, `RegisterGroup`
-- and `DeleteGroup` of pkg/coordinator/rebalancer.go, each as the steps before and after the write
-- of its record. The other files under Coordinator hold proofs and tests.
--
-- pkg/topic keeps the partitions of topics. A partition has a log in a storage handler, its end
-- (the LEO), and a high watermark below which records are committed. In a cluster the leader of a
-- partition appends the batches of its clients, followers copy the records, and the watermark moves
-- on once enough of them have; a follower drops what is behind the cluster's watermark. Readers of
-- committed records see a transaction once its marker, which the transaction manager decides, is
-- committed.
--
-- Topic/Types: the data of pkg/topic/partition.go, and the storage handler of pkg/types/storage.go
-- as an interface. Topic/Producers: the checks of idempotent producers. Topic/Markers: the index of
-- transaction markers and what it shows. Topic/Appends: `EnqueueBatchLeaderWithMode` and
-- `ReplicaAppendWithMode`. Topic/Compacted: `ReplicaAppendCompactedRange`. Topic/Produce: the
-- marking and collection of appended records in pkg/controller/produce_handler.go. Topic/Watermark:
-- the high watermark, `ReserveOffsets`, reconciliation and snapshot recovery. Topic/Reads:
-- `ReadCommitted` and `LastStableOffset`. Topic/Calls: the calls as one step function, and
-- histories of calls. The other files under Topic hold proofs and tests.
--
-- pkg/cluster/replication keeps the metadata of partitions in a state machine that the Raft log
-- drives: who leads a partition under which epoch, which replicas are in sync, and up to where its
-- log is committed. The in-sync replica manager on the Raft leader follows the heartbeats of
-- brokers, drops the silent ones and moves leadership to a replica that is in sync. A partition
-- commit also moves the high watermark of the broker's own partition of pkg/topic.
--
-- Replication/Types: the data of pkg/cluster/replication/fsm. Replication/Commands: `PARTITION`,
-- `PARTITION_COMMIT`, `ISR_CATCHUP` and leader election, the commands of fsm_command.go,
-- isr_catchup.go and fsm_admin.go, with the JSON form of the metadata. Replication/Isr:
-- pkg/cluster/replication/isr_manager.go; a refresh reads one state of the machine, and its proposal
-- may be applied to a later one or to none. Replication/Histories: histories of commands. The other
-- files under Replication hold proofs and tests.
--
-- Parameters: the storage of a partition with its reads and writes, the decisions of a transaction
-- resolver, the digest of a transactional identifier (SHA-256), the time of each call, the match of
-- a topic against a pattern (Go's regexp), and whether a durable record was written. Most loops are
-- recursions on lists. The loops of Topic that read a log in batches have fuel: as many turns as
-- offsets, since a turn moves on by one offset at least, and one more for the scan of a reader. An
-- unsigned counter wraps at 2^64 and an epoch at 2^63; where a theorem needs room for a counter, it
-- says so.
--
-- Not modelled: locks (each method is one step, registration and deletion two), log output, the
-- wording of errors, notifications and checkpoint files, the order in which Go iterates over a map
-- (an association list fixes one order), nil slices as different from empty ones but in the snapshots
-- of transactions, whose comparison tells them apart, the contents of
-- durable records, and the files and network of the broker.
pub mod Base
pub mod Wire
pub mod Transaction
pub mod Coordinator
pub mod Topic
pub mod Replication
