-- ===== src/Replication/Epochs.antt =====
-- Proofs about the leader epochs and the committed watermark of a partition.
use go_broker.Base.{
  ℕ, ◌≡◌, refl, sym, ap, ◌∙◌, inl, inr, true, ◌||◌, &&-eq-true, some, Option-cases, Bool-cases,
  List, [], ◌∷◌, is_empty, all, Str, str_eq, str_eq_iff, Map, lookup, insert, lookup-insert, arith,
}
use mathlib.Core.Path.{subst}
use go_broker.Base.Int.{int_eq, int_lt_irrefl, int64_succ}
use go_broker.Replication.Types.{
  PartitionMetadata, PartitionMetadataJson, CatchupProof, CommitCommand, ElectionCommand, BrokerFsm,
  contains_string, partition_key,
}
use go_broker.Replication.Commands.{
  unmarshal, partition_error_at, commit_error, proof_error, readmitted, is_negative, is_blank,
  candidate_error, with_metadata, apply_partition, commit_local, apply_partition_commit,
  apply_isr_catchup, apply_leader_election,
}
use go_broker.Replication.Histories.{
  Command, update, commit, readmit, elect, apply, run, has_room, have_room, Continues,
  Continues-refl, Continues-trans, partition_error-Continues, unmarshal-known,
  commit_error-Continues, elected-Continues,
}

-- A write of metadata that continues what was there keeps every partition going.
insert-Continues :
    (j key : Str) (n m : PartitionMetadata) (metadata : Map PartitionMetadata)
    → lookup key metadata ≡ some m
    → m.committed_hwm_known ≡ true
    → (lookup j metadata ≡ some m → Continues m n)
    → (m' : PartitionMetadata) × (lookup key (insert j n metadata) ≡ some m') × Continues m m'
insert-Continues j key n m metadata h known f = elim (Bool-cases (str_eq j key)) [
  | inl e ↦ (
    n,
    ground (arith, lookup-insert j key n metadata),
    f (cc (h, ap (λ x. lookup x metadata) ((str_eq_iff j key).0 e))),
  )
  | inr e ↦ (m, ground (arith, lookup-insert j key n metadata), Continues-refl m known)
]

-- A key has one entry.
lookup_same :
    (j : Str) (metadata : Map PartitionMetadata) (m n : PartitionMetadata)
    → lookup j metadata ≡ some n
    → lookup j metadata ≡ some m
    → n ≡ m
lookup_same j metadata m n e q = ground (arith, e, q)

same-Continues :
    (m n : PartitionMetadata) (isr : List Str)
    → n ≡ m
    → m.committed_hwm_known ≡ true
    → Continues m (record n { isr = isr })
same-Continues m n isr e known =
    subst (λ x. Continues m (record x { isr = isr })) (sym e)
      (record {
        known = known;
        hwm = omega arith;
        epoch = int_lt_irrefl m.leader_epoch;
        leader = inl refl;
      })

module _ {S : Type 0} where
  -- The partition of a key after a command, from its metadata before.
  Keeps : Str → PartitionMetadata → BrokerFsm S → Type 0
  Keeps key m f =
      (m' : PartitionMetadata) × (lookup key f.partition_metadata ≡ some m') × Continues m m'

  commit_local-metadata :
      (key : Str) (hwm : ℕ) (f : BrokerFsm S)
      → (commit_local key hwm f).partition_metadata ≡ f.partition_metadata
  unfolding commit_local
  commit_local-metadata key hwm f = ground arith

  update-Keeps :
      (j : Str) (json : PartitionMetadataJson) (key : Str) (m : PartitionMetadata) (f : BrokerFsm S)
      → lookup key f.partition_metadata ≡ some m
      → m.committed_hwm_known ≡ true
      → Keeps key m (apply_partition j json f).0
  unfolding Keeps apply_partition
  update-Keeps j json key m f h known = elim (Option-cases (unmarshal json)) [
    | inl e ↦ rw (e, apply_partition) (m, h, Continues-refl m known)
    | inr (n, e) ↦ elim (Option-cases (partition_error_at (lookup j f.partition_metadata) n)) [
      | inr (x, r) ↦ rw (e, r, apply_partition) (m, h, Continues-refl m known)
      | inl r ↦
          rw (e, r, apply_partition)
            (insert-Continues j key n m f.partition_metadata h known (λ q.
              partition_error-Continues m n known (unmarshal-known json e) (ground (arith, q, r))))
    ]
  ]

  commit-Keeps :
      (cmd : CommitCommand) (key : Str) (m : PartitionMetadata) (f : BrokerFsm S)
      → lookup key f.partition_metadata ≡ some m
      → m.committed_hwm_known ≡ true
      → Keeps key m (apply_partition_commit cmd f).0
  unfolding Keeps apply_partition_commit
  commit-Keeps cmd key m f h known =
      let j = partition_key cmd.topic cmd.partition in
      elim (Option-cases (lookup j f.partition_metadata)) [
        | inl e ↦ rw (e, apply_partition_commit) (m, h, Continues-refl m known)
        | inr (n, e) ↦ elim (Option-cases (commit_error cmd n)) [
          | inr (x, r) ↦ rw (e, r, apply_partition_commit) (m, h, Continues-refl m known)
          | inl r ↦
              let n' : PartitionMetadata = record n {
                committed_hwm = cmd.hwm;
                committed_hwm_known = true;
              } in
              rw (e, r, apply_partition_commit)
                (rw (commit_local-metadata j cmd.hwm (with_metadata j n' f)) (
                  insert-Continues j key n' m f.partition_metadata h known (λ q.
                    subst (λ x. Continues x n') (lookup_same j f.partition_metadata m n e q)
                      (commit_error-Continues cmd n r))))
        ]
      ]

  readmit-Keeps :
      (proof : CatchupProof) (key : Str) (m : PartitionMetadata) (f : BrokerFsm S)
      → lookup key f.partition_metadata ≡ some m
      → m.committed_hwm_known ≡ true
      → Keeps key m (apply_isr_catchup proof f).0
  unfolding Keeps apply_isr_catchup
  readmit-Keeps proof key m f h known =
      let j = partition_key proof.topic proof.partition in
      let stay : Keeps key m f = (m, h, Continues-refl m known) in
      elim (Bool-cases
        (is_empty proof.topic || is_negative proof.partition || is_empty proof.broker_id)) [
          | inl b ↦ rw (b, apply_isr_catchup) stay
          | inr b ↦ elim (Option-cases (lookup j f.partition_metadata)) [
            | inl e ↦ rw (b, e, apply_isr_catchup) stay
            | inr (n, e) ↦
                elim (Option-cases (proof_error proof n (lookup proof.topic f.topic_state))) [
                  | inr (x, r) ↦ rw (b, e, r, apply_isr_catchup) stay
                  | inl r ↦ elim (Bool-cases (contains_string n.isr proof.broker_id)) [
                    | inl c ↦ rw (b, e, r, c, apply_isr_catchup) stay
                    | inr c ↦ elim (Bool-cases (all (λ x. contains_string n.replicas x) n.isr)) [
                      | inr d ↦ rw (b, e, r, c, d, apply_isr_catchup) stay
                      | inl d ↦
                          let n' : PartitionMetadata = record n {
                            isr = readmitted n proof.broker_id;
                          } in
                          rw (b, e, r, c, d, apply_isr_catchup)
                            (insert-Continues j key n' m f.partition_metadata h known (λ q.
                              same-Continues m n (readmitted n proof.broker_id)
                                (lookup_same j f.partition_metadata m n e q) known))
                    ]
                  ]
                ]
          ]
        ]

  elect-Keeps :
      (cmd : ElectionCommand) (key : Str) (m : PartitionMetadata) (f : BrokerFsm S)
      → lookup key f.partition_metadata ≡ some m
      → m.committed_hwm_known ≡ true
      → has_room (elect cmd) f ≡ true
      → Keeps key m (apply_leader_election cmd f).0
  unfolding Keeps apply_leader_election has_room
  elect-Keeps cmd key m f h known room =
      let j = partition_key cmd.topic cmd.partition in
      let stay : Keeps key m f = (m, h, Continues-refl m known) in
      elim (Bool-cases (is_blank cmd.topic || is_negative cmd.partition || is_blank cmd.broker)) [
        | inl b ↦ rw (b, apply_leader_election) stay
        | inr b ↦ elim (Option-cases (lookup j f.partition_metadata)) [
          | inl e ↦ rw (b, e, apply_leader_election) stay
          | inr (n, e) ↦
              elim (Option-cases (candidate_error (lookup cmd.broker f.brokers) cmd.broker n)) [
                | inr (x, r) ↦ rw (b, e, r, apply_leader_election) stay
                | inl r ↦ elim (Bool-cases (str_eq n.leader cmd.broker)) [
                  | inl c ↦ rw (b, e, r, c, apply_leader_election) stay
                  | inr c ↦ elim (Bool-cases (int_eq cmd.expected_leader_epoch n.leader_epoch)) [
                    | inr d ↦ rw (b, e, r, c, d, apply_leader_election) stay
                    | inl d ↦
                        let n' : PartitionMetadata = record n {
                          leader = cmd.broker;
                          leader_epoch = int64_succ n.leader_epoch;
                        } in
                        rw (b, e, r, c, d, apply_leader_election)
                          (insert-Continues j key n' m f.partition_metadata h known (λ q.
                            let same = lookup_same j f.partition_metadata m n e q in
                            subst (λ x. Continues x n') same
                              (elected-Continues n cmd.broker
                                (ap (λ x. x.committed_hwm_known) same ∙ known)
                                (ground (arith, room, e)))))
                  ]
                ]
              ]
        ]
      ]

  apply-Keeps :
      (c : Command) (key : Str) (m : PartitionMetadata) (f : BrokerFsm S)
      → lookup key f.partition_metadata ≡ some m
      → m.committed_hwm_known ≡ true
      → has_room c f ≡ true
      → Keeps key m (apply c f)
  unfolding apply
  apply-Keeps (update j json) key m f h known room = update-Keeps j json key m f h known
  apply-Keeps (commit cmd) key m f h known room = commit-Keeps cmd key m f h known
  apply-Keeps (readmit proof) key m f h known room = readmit-Keeps proof key m f h known
  apply-Keeps (elect cmd) key m f h known room = elect-Keeps cmd key m f h known room

  -- Through every history of metadata updates, partition commits, catch-up proofs and leader elections,
  -- accepted or refused, a partition whose committed watermark is known keeps its metadata, with a known
  -- watermark that is no lower and a leader epoch that is no lower; a leader that is not the one from
  -- before has a higher epoch, so that an epoch has one leader. No election is to meet an epoch that is
  -- the largest int.
  pub epoch_has_one_leader :
      (commands : List Command) (key : Str) (m : PartitionMetadata) (f : BrokerFsm S)
      → lookup key f.partition_metadata ≡ some m
      → m.committed_hwm_known ≡ true
      → have_room commands f ≡ true
      → (m' : PartitionMetadata) × (lookup key (run commands f).partition_metadata ≡ some m')
        × Continues m m'
  unfolding run have_room Keeps
  epoch_has_one_leader [] key m f h known room = (m, h, Continues-refl m known)
  epoch_has_one_leader (c ∷ cs) key m f h known room =
      let (now, later) = &&-eq-true (has_room c f) (have_room cs (apply c f)) room in
      let (m1, h1, c1) = apply-Keeps c key m f h known now in
      let (m2, h2, c2) = epoch_has_one_leader cs key m1 (apply c f) h1 c1.known later in
      (m2, h2, Continues-trans c1 c2)
