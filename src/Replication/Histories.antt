-- ===== src/Replication/Histories.antt =====
-- Histories of the commands on partitions, and proofs about what they do to the metadata of one.
use go_broker.Base.{
  ◌≤◌, ◌≡◌, refl, ◌∙◌, ◌⊎◌, inl, inr, Bool, true, false, ◌&&◌, Option, none, some, List, [], ◌∷◌,
  Str, str_eq_iff, lookup, arith,
}
use go_broker.Base.Int.{ℤ, pos, int_lt, int_lt_irrefl, int64_succ, int_lt-int64_succ, max_int64}
use go_broker.Replication.Types.{
  PartitionMetadata, PartitionMetadataJson, CatchupProof, CommitCommand, ElectionCommand, BrokerFsm,
  partition_key,
}
use go_broker.Replication.Commands.{
  unmarshal, partition_error, commit_error, apply_partition, apply_partition_commit,
  apply_isr_catchup, apply_leader_election,
}

pub data Command : Type 0 where
  update : Str → PartitionMetadataJson → Command
  commit : CommitCommand → Command
  readmit : CatchupProof → Command
  elect : ElectionCommand → Command

abbrev pub can_count : Option PartitionMetadata → Bool
can_count none = true
can_count (some m) = int_lt m.leader_epoch (pos max_int64)

module _ {S : Type 0} where
  unfoldable pub apply : Command → BrokerFsm S → BrokerFsm S
  apply (update key json) f = (apply_partition key json f).0
  apply (commit cmd) f = (apply_partition_commit cmd f).0
  apply (readmit proof) f = (apply_isr_catchup proof f).0
  apply (elect cmd) f = (apply_leader_election cmd f).0

  unfoldable pub run : List Command → BrokerFsm S → BrokerFsm S
  run [] f = f
  run (c ∷ cs) f = run cs (apply c f)

  -- An election has a leader epoch left, where it is not the largest int.
  unfoldable pub has_room : Command → BrokerFsm S → Bool
  has_room (elect cmd) f =
      can_count (lookup (partition_key cmd.topic cmd.partition) f.partition_metadata)
  has_room _ f = true

  unfoldable pub have_room : List Command → BrokerFsm S → Bool
  have_room [] f = true
  have_room (c ∷ cs) f = let rest = have_room cs (apply c f) in has_room c f && rest

-- The metadata of a partition at a later time: its committed watermark is known and no lower, its
-- leader epoch is no lower, and another leader has a higher one.
pub record Continues (m m' : PartitionMetadata) : Type 0 where
  pub known : m'.committed_hwm_known ≡ true
  pub hwm : m.committed_hwm ≤ m'.committed_hwm
  pub epoch : int_lt m'.leader_epoch m.leader_epoch ≡ false
  pub leader : (m'.leader ≡ m.leader) ⊎ (int_lt m.leader_epoch m'.leader_epoch ≡ true)

int_lt_asym : (a b : ℤ) → int_lt a b ≡ true → int_lt b a ≡ false
int_lt_asym a b h = ground arith

int_le_lt : (a b c : ℤ) → int_lt b a ≡ false → int_lt b c ≡ true → int_lt a c ≡ true
int_le_lt a b c h k = ground arith

int_lt_le : (a b c : ℤ) → int_lt a b ≡ true → int_lt c b ≡ false → int_lt a c ≡ true
int_lt_le a b c h k = ground arith

int_le_trans : (a b c : ℤ) → int_lt b a ≡ false → int_lt c b ≡ false → int_lt c a ≡ false
int_le_trans a b c h k = ground arith

pub Continues-refl : (m : PartitionMetadata) → m.committed_hwm_known ≡ true → Continues m m
Continues-refl m h = record {
  known = h;
  hwm = omega arith;
  epoch = int_lt_irrefl m.leader_epoch;
  leader = inl refl;
}

pub Continues-trans : {a b c : PartitionMetadata} → Continues a b → Continues b c → Continues a c
Continues-trans {a} {b} {c} h k = record {
  known = k.known;
  hwm = omega (arith, h.hwm, k.hwm);
  epoch = int_le_trans a.leader_epoch b.leader_epoch c.leader_epoch h.epoch k.epoch;
  leader = elim h.leader [
    | inr up ↦ inr (int_lt_le a.leader_epoch b.leader_epoch c.leader_epoch up k.epoch)
    | inl same ↦ elim k.leader [
      | inl same' ↦ inl (same' ∙ same)
      | inr up ↦ inr (int_le_lt a.leader_epoch b.leader_epoch c.leader_epoch h.epoch up)
    ]
  ];
}

-- Accepted metadata continues what is there.
pub partition_error-Continues :
    (current m : PartitionMetadata)
    → current.committed_hwm_known ≡ true
    → m.committed_hwm_known ≡ true
    → partition_error current m ≡ none
    → Continues current m
unfolding partition_error
partition_error-Continues current m h k e = record {
  known = k;
  hwm = ground arith;
  epoch = ground arith;
  leader = ground (arith, str_eq_iff m.leader current.leader);
}

pub unmarshal-known :
    (json : PartitionMetadataJson) {m : PartitionMetadata}
    → unmarshal json ≡ some m
    → m.committed_hwm_known ≡ true
unfolding unmarshal
unmarshal-known json e = ground arith

pub commit_error-Continues :
    (cmd : CommitCommand) (m : PartitionMetadata)
    → commit_error cmd m ≡ none
    → Continues m (record m { committed_hwm = cmd.hwm; committed_hwm_known = true })
unfolding commit_error
commit_error-Continues cmd m e = record {
  known = refl;
  hwm = ground arith;
  epoch = int_lt_irrefl m.leader_epoch;
  leader = inl refl;
}

pub elected-Continues :
    (m : PartitionMetadata) (broker : Str)
    → m.committed_hwm_known ≡ true
    → int_lt m.leader_epoch (pos max_int64) ≡ true
    → Continues m (record m { leader = broker; leader_epoch = int64_succ m.leader_epoch })
elected-Continues m broker known room =
    let up = int_lt-int64_succ m.leader_epoch room in
    record {
      known = known;
      hwm = omega arith;
      epoch = int_lt_asym m.leader_epoch (int64_succ m.leader_epoch) up;
      leader = inr up;
    }
