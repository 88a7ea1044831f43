-- ===== src/Topic/Produce.antt =====
-- How a leader finds the records that its followers are to copy, pkg/controller/produce_handler.go.
use go_broker.Base.{ℕ, ◌-◌, ◌^◌, Bool, not, Option, List, [], ◌∷◌, keep, ◌==◌}
use go_broker.Wire.Message.{Message}
use go_broker.Topic.Types.{TopicError, Storage, Partition}
use go_broker.Topic.Appends.{enqueue_batch_leader}

-- `unassignedLeaderOffset`
abbrev pub unassigned_leader_offset : ℕ
unassigned_leader_offset = 2 ^ 64 - 1

unfoldable pub mark_leader_offsets_unassigned : List Message → List Message
mark_leader_offsets_unassigned [] = []
mark_leader_offsets_unassigned (m ∷ ms) =
    record m { offset = unassigned_leader_offset } ∷ mark_leader_offsets_unassigned ms

unfoldable pub appended_leader_messages : List Message → List Message
appended_leader_messages ms = keep (λ m. not (m.offset == unassigned_leader_offset)) ms

-- The append of a produce request: the partition, the records for the followers, and the error.
unfoldable pub append_as_leader :
    {S : Type 0}
    → Storage S
    → List Message
    → Bool
    → ℕ
    → Partition S
    → Partition S × List Message × Option TopicError
append_as_leader storage ms force now p =
    let (q, sent, failure) =
      enqueue_batch_leader storage (mark_leader_offsets_unassigned ms) force now p in
    (q, appended_leader_messages sent, failure)
