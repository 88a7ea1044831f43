-- ===== src/Topic/Retries.antt =====
-- Proofs about a batch of an idempotent producer that is sent again.
use go_broker.Base.{
  ℕ, ◌≡◌, refl, sym, ap, ◌∙◌, true, false, Option, none, some, List, [], ◌∷◌, is_empty, ◌==◌, Str,
  lookup, All, arith,
}
use mathlib.Core.Path.{subst}
use go_broker.Base.Int.{ℤ}
use go_broker.Wire.Message.{Message}
use go_broker.Topic.Types.{ProducerEntry, Storage, Partition}
use go_broker.Topic.Producers.{duplicate, validate_producer_message}
use go_broker.Topic.Appends.{
  Staging, unwritten, add_slot, messages_of, pending, stage, append_error, write_staged,
  enqueue_batch_leader,
}
use go_broker.Topic.Coverage.{
  is_covered, view_staged, view, IsOwn, noted, note_written-producer_state, note_written-rest,
  validate-view, verdict_on-covered, Agree, noted-covers,
}

view-unstaged : (k : Str) (o : Option ProducerEntry) → view_staged (lookup k []) o ≡ view o
unfolding lookup view_staged view
view-unstaged k none = refl
view-unstaged k (some e) = refl

pending-unwritten : (ms : List Message) → pending (unwritten ms) ≡ []
unfolding pending
pending-unwritten [] = refl
pending-unwritten (m ∷ ms) = pending-unwritten ms

messages_of-unwritten : (ms : List Message) → messages_of (unwritten ms) ≡ ms
messages_of-unwritten [] = refl
messages_of-unwritten (m ∷ ms) = ap (λ t. m ∷ t) (messages_of-unwritten ms)

covered-numbered :
    (m : Message) (o : Option ProducerEntry) → is_covered m o ≡ true → (m.seq_num == 0) ≡ false
unfolding is_covered
covered-numbered m none h = ground arith
covered-numbered m (some e) h = ground arith

module _ {S : Type 0} where
  -- A batch that the state covers is staged with nothing to write.
  stage-covered :
      (p : Partition S) (producer : Str) (epoch : ℤ) (next : ℕ) (ms : List Message)
      → is_empty producer ≡ false
      → All (IsOwn producer epoch) ms
      → All (λ m. is_covered m (lookup producer p.producer_state) ≡ true) ms
      → stage p true next [] ms
        ≡ record { slots = unwritten ms; next_offset = next; failure = none }
  unfolding stage
  stage-covered p producer epoch next [] full own h = refl
  stage-covered p producer epoch next (m ∷ ms) full own h =
      let o = lookup producer p.producer_state in
      let same = own.0.0 in
      let v = validate-view p m [] (ap is_empty same ∙ full) (covered-numbered m o h.0) in
      let c = verdict_on-covered m o h.0 in
      let ih = stage-covered p producer epoch next ms full own.1 h.1 in
      let d : validate_producer_message p m [] true ≡ duplicate = cc (
        v,
        c,
        view-unstaged m.producer_id (lookup m.producer_id p.producer_state),
        ap (λ x. lookup x p.producer_state) same,
      ) in
      rw (d, stage) (ap (λ t. add_slot (false, m) t) ih)

  write_staged-accepted :
      (storage : Storage S) (now : ℕ) (p q : Partition S) (s : Staging) {sent : List Message}
      → write_staged storage true now p s ≡ (q, sent, none)
      → (s.failure ≡ none)
        × (q.producer_state ≡ noted p.is_idempotent now (pending s.slots) p.producer_state)
        × (q.closed ≡ p.closed)
        × (q.id ≡ p.id)
  unfolding write_staged noted
  write_staged-accepted storage now p q s h =
      let n = note_written-producer_state now (pending s.slots) p in
      let r = note_written-rest now (pending s.slots) p in ground (arith, n, r)

  write_staged-nothing :
      (storage : Storage S) (now : ℕ) (q : Partition S) (ms : List Message)
      → write_staged storage true now q
          (record { slots = unwritten ms; next_offset = q.leo; failure = none })
        ≡ (q, ms, none)
  unfolding write_staged
  write_staged-nothing storage now q ms = rw (pending-unwritten ms, messages_of-unwritten ms) refl

  -- A leader that has appended a batch of one producer in one epoch, with producer sequencing
  -- enforced, accepts the same batch again, and then neither its log nor anything else of the partition
  -- changes. The producer has a name.
  pub retry_appends_nothing :
      (storage : Storage S) (ms : List Message) (now now' : ℕ) (p q : Partition S) (producer : Str)
      (epoch : ℤ) (sent : List Message)
      → is_empty producer ≡ false
      → All (IsOwn producer epoch) ms
      → enqueue_batch_leader storage ms true now p ≡ (q, sent, none)
      → enqueue_batch_leader storage ms true now' q ≡ (q, ms, none)
  unfolding enqueue_batch_leader append_error Agree
  retry_appends_nothing storage ms now now' p q producer epoch sent full own h =
      let s = stage p true p.leo [] ms in
      let accepted : write_staged storage true now p s ≡ (q, sent, none) = ground arith in
      let (good, state, same_closed, same_id) = write_staged-accepted storage now p q s accepted in
      let covers =
        noted-covers p producer epoch now [] p.producer_state p.leo ms full own
          (view-unstaged producer (lookup producer p.producer_state)) good in
      let again =
        stage-covered q producer epoch q.leo ms full own
          (subst (λ z. All (λ m. is_covered m (lookup producer z) ≡ true) ms) (sym state) covers) in
      let nothing = write_staged-nothing storage now' q ms in
      ground (arith, again, nothing, same_closed, same_id)
