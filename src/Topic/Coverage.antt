-- ===== src/Topic/Coverage.antt =====
-- Proofs about the numbers of an idempotent producer that the state of a partition covers.
use go_broker.Base.{
  ℕ, ◌≡◌, refl, ap, ◌∙◌, ◌⊎◌, inl, inr, Bool, true, false, ◌&&◌, Option, none, some, Bool-cases,
  List, [], ◌∷◌, is_empty, leb, ltb, if◌then◌else◌, ◌==◌, Str, str_eq_refl, Map, lookup,
  lookup-insert, All, arith,
}
use mathlib.Core.Path.{subst}
use go_broker.Base.Int.{ℤ, int_eq, int_eq_iff}
use go_broker.Wire.Message.{Message}
use go_broker.Topic.Types.{
  first_sequence, missing_sequence, ProducerEntry, StagedEntry, Partition, next_u64,
}
use go_broker.Topic.Producers.{
  Verdict, refuse, duplicate, fresh, Verdict-cases, validate_producer_message,
  validate_against_producer_state, update_producer_state,
}
use go_broker.Topic.Appends.{pending, stage, restage, note_written}

-- A message that the state of its producer covers.
unfoldable pub is_covered : Message → Option ProducerEntry → Bool
is_covered m none = false
is_covered m (some entry) =
    int_eq m.epoch entry.last_epoch && leb m.seq_num entry.last_seq && ltb 0 m.seq_num

-- The epoch and the number that the checks compare a message of a producer with.
unfoldable pub view_staged : Option StagedEntry → Option ProducerEntry → Option (ℤ × ℕ)
view_staged (some s) e = some (s.last_epoch, s.last_seq)
view_staged none (some e) = some (e.last_epoch, e.last_seq)
view_staged none none = none

unfoldable pub view : Option ProducerEntry → Option (ℤ × ℕ)
view none = none
view (some e) = some (e.last_epoch, e.last_seq)

-- The verdict on a message with a number, from what the checks compare it with.
pub verdict_on : Message → Option (ℤ × ℕ) → Verdict
unfolding validate_against_producer_state
verdict_on m none = if m.seq_num == 1 then fresh else refuse first_sequence
verdict_on m (some (epoch, seq)) = validate_against_producer_state m epoch seq true

-- A message of one producer in one epoch.
abbrev pub IsOwn : Str → ℤ → Message → Type 0
IsOwn producer epoch m = (m.producer_id ≡ producer) × (m.epoch ≡ epoch)

unfoldable pub noted : Bool → ℕ → List Message → Map ProducerEntry → Map ProducerEntry
noted idempotent now [] state = state
noted idempotent now (m ∷ ms) state =
    noted idempotent now ms (update_producer_state idempotent true now m state)

module _ {S : Type 0} where
  pub note_written-producer_state :
      (now : ℕ) (ms : List Message) (p : Partition S)
      → (note_written (λ _. true) now ms p).producer_state
        ≡ noted p.is_idempotent now ms p.producer_state
  unfolding note_written noted
  note_written-producer_state now [] p = refl
  note_written-producer_state now (m ∷ ms) p = note_written-producer_state now ms _

  pub note_written-rest :
      (now : ℕ) (ms : List Message) (p : Partition S)
      → ((note_written (λ _. true) now ms p).closed ≡ p.closed)
        × ((note_written (λ _. true) now ms p).id ≡ p.id)
  unfolding note_written
  note_written-rest now [] p = (refl, refl)
  note_written-rest now (m ∷ ms) p = note_written-rest now ms _

  -- A forced check goes by the view of the producer.
  pub validate-view :
      (p : Partition S) (m : Message) (staged : Map StagedEntry)
      → is_empty m.producer_id ≡ false
      → (m.seq_num == 0) ≡ false
      → validate_producer_message p m staged true
        ≡ verdict_on m
            (view_staged (lookup m.producer_id staged) (lookup m.producer_id p.producer_state))
  unfolding validate_producer_message verdict_on view_staged
  validate-view p m staged h k = ground arith

  validate-unnumbered :
      (p : Partition S) (m : Message) (staged : Map StagedEntry)
      → is_empty m.producer_id ≡ false
      → (m.seq_num == 0) ≡ true
      → validate_producer_message p m staged true ≡ refuse missing_sequence
  unfolding validate_producer_message
  validate-unnumbered p m staged h k = ground arith

-- A covered message is a duplicate.
pub verdict_on-covered :
    (m : Message) (o : Option ProducerEntry)
    → is_covered m o ≡ true
    → verdict_on m (view o) ≡ duplicate
unfolding is_covered verdict_on view validate_against_producer_state
verdict_on-covered m o h = ground arith

-- What covers a message, still does once a message that is not a duplicate is noted.
fresh-covers :
    (m m' : Message) (o : Option ProducerEntry) (now : ℕ)
    → m.epoch ≡ m'.epoch
    → is_covered m o ≡ true
    → verdict_on m' (view o) ≡ fresh
    → is_covered m (some (record { last_epoch = m'.epoch; last_seq = m'.seq_num; last_seen = now }))
      ≡ true
unfolding is_covered verdict_on view validate_against_producer_state
fresh-covers m m' o now e h k = ground (arith, int_eq_iff m.epoch m'.epoch)

duplicate-covered :
    (m : Message) (o : Option ProducerEntry)
    → (m.seq_num == 0) ≡ false
    → verdict_on m (view o) ≡ duplicate
    → is_covered m o ≡ true
unfolding is_covered verdict_on view validate_against_producer_state
duplicate-covered m none n h = ground arith
duplicate-covered m (some entry) n h = ground (arith, int_eq_iff m.epoch entry.last_epoch)

fresh-noted :
    (m : Message) (now : ℕ)
    → (m.seq_num == 0) ≡ false
    → is_covered m (some (record { last_epoch = m.epoch; last_seq = m.seq_num; last_seen = now }))
      ≡ true
unfolding is_covered
fresh-noted m now n = ground (arith, int_eq_iff m.epoch m.epoch)

module _ {S : Type 0} (p : Partition S) (producer : Str) (epoch : ℤ) (now : ℕ) where
  -- The staged entries and the state of the producers agree on the producer.
  unfoldable pub Agree : Map StagedEntry → Map ProducerEntry → Type 0
  Agree staged q =
      view_staged (lookup producer staged) (lookup producer p.producer_state)
      ≡ view (lookup producer q)

  note : ℕ → Message → Map ProducerEntry → Map ProducerEntry
  note next m q = update_producer_state p.is_idempotent true now (record m { offset = next }) q

  -- A batch whose staging goes on behind a message has found it covered, or notes it.
  stage-step :
      (staged : Map StagedEntry) (q : Map ProducerEntry) (next : ℕ) (m : Message)
      (ms : List Message)
      → is_empty producer ≡ false
      → IsOwn producer epoch m
      → Agree staged q
      → (stage p true next staged (m ∷ ms)).failure ≡ none
      → ((validate_producer_message p m staged true ≡ duplicate)
          × (is_covered m (lookup producer q) ≡ true)
          × ((stage p true next staged ms).failure ≡ none))
        ⊎ ((validate_producer_message p m staged true ≡ fresh)
            × (verdict_on m (view (lookup producer q)) ≡ fresh)
            × ((m.seq_num == 0) ≡ false)
            × ((stage p true (next_u64 next) (restage p true m staged) ms).failure ≡ none))
  unfolding stage Agree
  stage-step staged q next m ms full (same, _) agree h = elim (Bool-cases (m.seq_num == 0)) [
    | inl z ↦ absurd (ground (arith, validate-unnumbered p m staged (ap is_empty same ∙ full) z))
    | inr n ↦
        let v = validate-view p m staged (ap is_empty same ∙ full) n in
        let v' : validate_producer_message p m staged true
            ≡ verdict_on m (view (lookup producer q)) =
          cc (v, agree, ap (λ x. lookup x staged) same, ap (λ x. lookup x p.producer_state) same) in
        elim (Verdict-cases (validate_producer_message p m staged true)) [
          | inl (e, r) ↦ absurd (ground (arith, r))
          | inr (inl r) ↦
              inl (r, duplicate-covered m (lookup producer q) n (cc (r, v')), ground (arith, r))
          | inr (inr r) ↦ inr (r, cc (r, v'), n, ground (arith, r))
        ]
  ]

  restage-Agree :
      (staged : Map StagedEntry) (q : Map ProducerEntry) (next : ℕ) (m : Message)
      → is_empty producer ≡ false
      → IsOwn producer epoch m
      → (m.seq_num == 0) ≡ false
      → Agree (restage p true m staged) (note next m q)
  unfolding Agree note restage update_producer_state view view_staged
  restage-Agree staged q next m full (same, _) n =
      let s : StagedEntry = record { last_epoch = m.epoch; last_seq = m.seq_num } in
      let e : ProducerEntry = record {
        last_epoch = m.epoch;
        last_seq = m.seq_num;
        last_seen = now;
      } in
      ground (
        arith,
        lookup-insert m.producer_id producer s staged,
        lookup-insert m.producer_id producer e q,
        str_eq_refl producer,
      )

  lookup-note :
      (q : Map ProducerEntry) (next : ℕ) (m : Message)
      → is_empty producer ≡ false
      → IsOwn producer epoch m
      → lookup producer (note next m q)
        ≡ some (record { last_epoch = m.epoch; last_seq = m.seq_num; last_seen = now })
  unfolding note update_producer_state
  lookup-note q next m full (same, _) =
      let e : ProducerEntry = record {
        last_epoch = m.epoch;
        last_seq = m.seq_num;
        last_seen = now;
      } in
      ground (arith, lookup-insert m.producer_id producer e q, str_eq_refl producer)

  -- What the state covers before a batch is noted, it covers after it.
  noted-keeps :
      (staged : Map StagedEntry) (q : Map ProducerEntry) (next : ℕ) (ms : List Message)
      (m : Message)
      → is_empty producer ≡ false
      → All (IsOwn producer epoch) ms
      → Agree staged q
      → (stage p true next staged ms).failure ≡ none
      → m.epoch ≡ epoch
      → is_covered m (lookup producer q) ≡ true
      → is_covered m (
          lookup producer
            (noted p.is_idempotent now (pending (stage p true next staged ms).slots) q))
        ≡ true
  unfolding stage noted pending note
  noted-keeps staged q next [] m full own agree h e c = c
  noted-keeps staged q next (x ∷ ms) m full own agree h e c =
      elim (stage-step staged q next x ms full own.0 agree h) [
        | inl (r, _, h') ↦ rw (r, stage) (noted-keeps staged q next ms m full own.1 agree h' e c)
        | inr (r, f, n, h') ↦
            rw (r, stage)
              (noted-keeps (restage p true x staged) (note next x q) (next_u64 next) ms m full own.1
                (restage-Agree staged q next x full own.0 n) h' e
                (rw (lookup-note q next x full own.0)
                  (fresh-covers m x (lookup producer q) now (cc (e, own.0.1)) c f)))
      ]

  -- Once a batch is noted, the state covers it.
  pub noted-covers :
      (staged : Map StagedEntry) (q : Map ProducerEntry) (next : ℕ) (ms : List Message)
      → is_empty producer ≡ false
      → All (IsOwn producer epoch) ms
      → Agree staged q
      → (stage p true next staged ms).failure ≡ none
      → All
          (λ m.
            is_covered m (
              lookup producer
                (noted p.is_idempotent now (pending (stage p true next staged ms).slots) q))
            ≡ true)
          ms
  unfolding stage noted pending note
  noted-covers staged q next [] full own agree h = tt
  noted-covers staged q next (m ∷ ms) full own agree h =
      let after =
        λ (z : Map ProducerEntry). All (λ x. is_covered x (lookup producer z) ≡ true) (m ∷ ms) in
      elim (stage-step staged q next m ms full own.0 agree h) [
        | inl (r, c, h') ↦ subst after (rw (r, stage) refl) (
          noted-keeps staged q next ms m full own.1 agree h' own.0.1 c,
          noted-covers staged q next ms full own.1 agree h',
        )
        | inr (r, f, n, h') ↦
            let a = restage-Agree staged q next m full own.0 n in
            subst after (rw (r, stage) refl) (
              noted-keeps (restage p true m staged) (note next m q) (next_u64 next) ms m full own.1
                  a h' own.0.1 (rw (lookup-note q next m full own.0) (fresh-noted m now n)),
              noted-covers (restage p true m staged) (note next m q) (next_u64 next) ms full own.1 a
                  h',
            )
      ]
