-- ===== src/Replication/Failover.antt =====
-- Proofs about failover among the in-sync replicas.
use go_broker.Base.{
  ℕ, ◌≤◌, ◌≡◌, refl, sym, ap, ◌∙◌, ◌⊎◌, inl, inr, Bool, true, false, ◌&&◌, ◌||◌, none, some,
  Option-cases, Bool-cases, List, [], ◌∷◌, is_empty, keep, length, ◌==◌, Str, str_eq, str_eq_iff,
  str_eq_refl, lookup, lookup-inserted, insert_string, sort_strings, arith,
}
use mathlib.Core.Path.{subst}
use go_broker.Base.Int.{ℤ, pos, int_lt, int_lt_irrefl, int64_succ, int_lt-int64_succ, max_int64}
use go_broker.Replication.Types.{PartitionMetadata, BrokerFsm, contains_string, partition_key}
use go_broker.Replication.Commands.{marshal, unmarshal, partition_error, apply_partition}
use go_broker.Replication.Isr.{IsrManager, first_or, is_live, needs_update, proposal, compute_isr}

contains_string-keep :
    (p : Str → Bool) (xs : List Str) (b : Str)
    → contains_string (keep p xs) b ≡ (contains_string xs b && p b)
unfolding contains_string
contains_string-keep p [] b = refl
contains_string-keep p (x ∷ xs) b = elim (Bool-cases (str_eq x b)) [
  | inl e ↦ let q = ap p ((str_eq_iff x b).0 e) in ground (arith, contains_string-keep p xs b, q)
  | inr e ↦ ground (arith, contains_string-keep p xs b)
]

contains_string-insert_string :
    (x : Str) (ys : List Str) (b : Str)
    → contains_string (insert_string x ys) b ≡ (str_eq x b || contains_string ys b)
unfolding contains_string insert_string
contains_string-insert_string x [] b = refl
contains_string-insert_string x (y ∷ ys) b = ground (arith, contains_string-insert_string x ys b)

contains_string-sort_strings :
    (xs : List Str) (b : Str) → contains_string (sort_strings xs) b ≡ contains_string xs b
unfolding contains_string sort_strings
contains_string-sort_strings [] b = refl
contains_string-sort_strings (x ∷ xs) b =
    ground (
      arith,
      contains_string-insert_string x (sort_strings xs) b,
      contains_string-sort_strings xs b,
    )

length-keep : (p : Str → Bool) (xs : List Str) → length (keep p xs) ≤ length xs
length-keep p [] = omega arith
length-keep p (x ∷ xs) = ground (arith, length-keep p xs)

keep-all : (p : Str → Bool) (xs : List Str) → length (keep p xs) ≡ length xs → keep p xs ≡ xs
keep-all p [] h = refl
keep-all p (x ∷ xs) h = ground (arith, length-keep p xs, keep-all p xs)

-- The first of the sorted members is one of them.
first_or-sort_strings :
    (leader : Str) (xs : List Str)
    → is_empty xs ≡ false
    → contains_string (sort_strings xs) (first_or leader (sort_strings xs)) ≡ true
unfolding contains_string sort_strings insert_string
first_or-sort_strings leader [] h = ground arith
first_or-sort_strings leader (x ∷ xs) h =
    elim (sort_strings xs)
      as (λ s. contains_string (insert_string x s) (first_or leader (insert_string x s)) ≡ true) [
        | [] ↦ ground (arith, str_eq_refl x)
        | y ∷ ys ↦ ground (arith, str_eq_refl x, str_eq_refl y)
      ]

-- The metadata after a refresh of the ISR: its members are the live ones of the old ISR. The leader is
-- the same, with its epoch, or the old one is not among the members and the epoch is the next one. The
-- leader is a member, unless there is none, and then it is the same. The rest is as it was.
pub record IsClean (live : Str → Bool) (m m' : PartitionMetadata) : Type 0 where
  pub members : (b : Str) → contains_string m'.isr b ≡ (contains_string m.isr b && live b)
  pub leader :
      ((m'.leader ≡ m.leader) × (m'.leader_epoch ≡ m.leader_epoch))
      ⊎ ((contains_string m'.isr m.leader ≡ false) × (m'.leader_epoch ≡ int64_succ m.leader_epoch))
  pub in_sync : (contains_string m'.isr m'.leader ≡ true) ⊎ ((m'.isr ≡ []) × (m'.leader ≡ m.leader))
  pub rest :
      (m'.replicas ≡ m.replicas)
      × (m'.committed_hwm ≡ m.committed_hwm)
      × (m'.committed_hwm_known ≡ m.committed_hwm_known)
      × (m'.lifecycle_epoch ≡ m.lifecycle_epoch)

-- No proposal is made where the metadata is clean.
proposal-none :
    (live : Str → Bool) (m : PartitionMetadata)
    → proposal (keep live m.isr) m ≡ none
    → IsClean live m m
unfolding proposal needs_update
proposal-none live m h =
    let current = keep live m.isr in
    let alive : contains_string current m.leader ≡ true = ground arith in
    let same : length current ≡ length m.isr = ground (arith, alive) in
    let all_live = keep-all live m.isr same in
    record {
      members =
          λ b. ap (λ x. contains_string x b) (sym all_live) ∙ contains_string-keep live m.isr b;
      leader = inl (refl, refl);
      in_sync = inl (subst (λ x. contains_string x m.leader ≡ true) all_live alive);
      rest = (refl, refl, refl, refl);
    }

contains_string-empty :
    (xs : List Str) (b : Str) → is_empty xs ≡ true → contains_string xs b ≡ false
unfolding contains_string
contains_string-empty xs b h = ground arith

-- What is proposed is clean.
proposal-some :
    (live : Str → Bool) (m : PartitionMetadata) {n : PartitionMetadata}
    → proposal (keep live m.isr) m ≡ some n
    → IsClean live m n
unfolding proposal
proposal-some live m {n} h =
    let current = keep live m.isr in
    let sorted = sort_strings current in
    let member = contains_string-keep live m.isr in
    elim (Bool-cases (contains_string current m.leader)) [
      | inl alive ↦
          let e : record m { isr = current } ≡ n = ground (arith, alive) in
          subst (IsClean live m) e (record {
            members = member;
            leader = inl (refl, refl);
            in_sync = inl alive;
            rest = (refl, refl, refl, refl);
          })
      | inr dead ↦ elim (Bool-cases (is_empty current)) [
        | inl none_left ↦
            let e : record m { isr = [] } ≡ n = ground (arith, dead, none_left) in
            subst (IsClean live m) e (record {
              members = λ b.
                  contains_string-empty [] b refl
                  ∙ sym (contains_string-empty current b none_left)
                  ∙ member b;
              leader = inl (refl, refl);
              in_sync = inr (refl, refl);
              rest = (refl, refl, refl, refl);
            })
        | inr some_left ↦
            let e : record m {
              isr = sorted;
              leader = first_or m.leader sorted;
              leader_epoch = int64_succ m.leader_epoch;
            }
                ≡ n =
              ground (arith, dead, some_left) in
            subst (IsClean live m) e (record {
              members = λ b. contains_string-sort_strings current b ∙ member b;
              leader = inr (contains_string-sort_strings current m.leader ∙ dead, refl);
              in_sync = inl (first_or-sort_strings m.leader current some_left);
              rest = (refl, refl, refl, refl);
            })
      ]
    ]

int_lt_asym : (a b : ℤ) → int_lt a b ≡ true → int_lt b a ≡ false
int_lt_asym a b h = ground arith

unmarshal-marshal :
    (n : PartitionMetadata)
    → n.committed_hwm_known ≡ true
    → (n.lifecycle_epoch == 0) ≡ false
    → unmarshal (marshal n) ≡ some n
unfolding unmarshal marshal
unmarshal-marshal n known life =
    rw life (ap (λ k. some (record n { committed_hwm_known = k })) (sym known))

-- The state machine accepts it.
IsClean-accepted :
    (live : Str → Bool) (m n : PartitionMetadata)
    → IsClean live m n
    → m.committed_hwm_known ≡ true
    → (m.lifecycle_epoch == 0) ≡ false
    → int_lt m.leader_epoch (pos max_int64) ≡ true
    → (unmarshal (marshal n) ≡ some n) × (partition_error m n ≡ none)
unfolding partition_error
IsClean-accepted live m n c known life room =
    let (_, hwm, known_n, life_n) = c.rest in
    let up = int_lt-int64_succ m.leader_epoch room in
    let irr = int_lt_irrefl m.leader_epoch in
    let later = int_lt_asym m.leader_epoch (int64_succ m.leader_epoch) up in
    let here = str_eq_refl m.leader in
    let life' : (n.lifecycle_epoch == 0) ≡ false = ap (λ x. x == 0) life_n ∙ life in
    (
      unmarshal-marshal n (known_n ∙ known) life',
      elim c.leader [
        | inl (e, q) ↦ ground (arith, e, q, irr, here, hwm, life_n, ap (λ x. str_eq x m.leader) e)
        | inr (_, q) ↦ ground (arith, q, up, later, hwm, life_n)
      ],
    )

module _ {S : Type 0} where
  apply_partition-accepted :
      (key : Str) (m n : PartitionMetadata) (f : BrokerFsm S)
      → lookup key f.partition_metadata ≡ some m
      → unmarshal (marshal n) ≡ some n
      → partition_error m n ≡ none
      → lookup key (apply_partition key (marshal n) f).0.partition_metadata ≡ some n
  unfolding apply_partition
  apply_partition-accepted key m n f h decoded accepted =
      rw (decoded, h, accepted, apply_partition) (lookup-inserted key n f.partition_metadata)

  -- On the Raft leader, a refresh of the in-sync replicas of a partition whose proposal fails without
  -- being applied changes nothing. One whose proposal the log applies, to a state that still has the
  -- metadata that was read, keeps the live in-sync replicas and adds none; a leader that is no longer
  -- among them is replaced by one of them under the next epoch, and is kept when there is none left. The
  -- watermark, the replicas and the lifecycle are as before. The partition has a known watermark and a
  -- lifecycle epoch, and its leader epoch is not the largest int.
  pub failover-IsClean :
      (topic : Str) (partition : ℤ) (now : ℕ) (i : IsrManager) (f later : BrokerFsm S)
      (m : PartitionMetadata)
      → lookup (partition_key topic partition) f.partition_metadata ≡ some m
      → lookup (partition_key topic partition) later.partition_metadata ≡ some m
      → m.committed_hwm_known ≡ true
      → (m.lifecycle_epoch == 0) ≡ false
      → int_lt m.leader_epoch (pos max_int64) ≡ true
      → (compute_isr topic partition now i f later false ≡ later)
        × ((m' : PartitionMetadata) × (lookup
                (partition_key topic partition)
                (compute_isr topic partition now i f later true).partition_metadata
              ≡ some m')
            × IsClean (is_live now i f) m m')
  unfolding compute_isr
  failover-IsClean topic partition now i f later m h h' known life room =
      let key = partition_key topic partition in
      let live = is_live now i f in
      elim (Option-cases (proposal (keep live m.isr) m)) [
        | inl e ↦ (rw (h, e, compute_isr), (m, rw (h, e, compute_isr) h', proposal-none live m e))
        | inr (n, e) ↦
            let c = proposal-some live m e in
            let (decoded, accepted) = IsClean-accepted live m n c known life room in
            (
              rw (h, e, compute_isr),
              (
                n,
                rw (h, e, compute_isr) (apply_partition-accepted key m n later h' decoded accepted),
                c,
              ),
            )
      ]
