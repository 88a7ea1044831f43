-- ===== src/Topic/Markers.antt =====
-- The index of transaction markers in pkg/topic/partition.go, and what readers of committed records
-- may see of a transaction.
use go_broker.Base.{
  ℕ, Bool, true, false, not, ◌&&◌, ◌||◌, Option, none, some, [], ◌∷◌, is_empty, ltb, leb,
  if◌then◌else◌, Str, str_eq, lit,
}
use go_broker.Base.Int.{ℤ}
use go_broker.Wire.Message.{Message}
use go_broker.Topic.Types.{MarkerKey, MarkerInfo, MarkerMap, marked, mark}

-- `messageTransactionMarkerKey`
abbrev pub marker_key : Message → MarkerKey
marker_key m = (m.transactional_id, m.epoch)

-- The two maps after `indexTransactionMessage`
unfoldable pub index_marker : Message → MarkerMap MarkerInfo → MarkerMap MarkerInfo
index_marker m markers =
    let info : MarkerInfo = record { marker = m.transaction_marker; offset = m.offset } in
    if is_empty m.transactional_id || is_empty m.transaction_marker
    then markers
    else elim (marked (marker_key m) markers) [
      | none ↦ mark (marker_key m) info markers
      | some existing ↦
          if leb existing.offset m.offset then mark (marker_key m) info markers else markers
    ]

unfoldable pub index_open : Message → MarkerMap ℕ → MarkerMap ℕ
index_open m opens =
    if is_empty m.transactional_id
      || not (is_empty m.transaction_marker)
      || not (str_eq m.transaction_state (lit "open"))
    then opens
    else elim (marked (marker_key m) opens) [
      | none ↦ mark (marker_key m) m.offset opens
      | some existing ↦ if ltb m.offset existing then mark (marker_key m) m.offset opens else opens
    ]

-- The answer of a `TransactionDecisionResolver`: the state, where it is known; a partition without a
-- resolver knows none.
abbrev pub Resolver : Type 0
Resolver = Str → ℤ → Option Str

unfoldable pub transaction_decision_matches_marker : MarkerKey → MarkerInfo → Resolver → Bool
transaction_decision_matches_marker (id, epoch) info resolver = elim (resolver id epoch) [
  | none ↦ true
  | some state ↦
      (str_eq info.marker (lit "commit") && str_eq state (lit "committed"))
      || (str_eq info.marker (lit "abort") && str_eq state (lit "aborted"))
]

-- Whether the marker of a transaction that is open from `offset` on decides it below `hwm`.
unfoldable pub is_resolved : ℕ → MarkerKey → ℕ → MarkerMap MarkerInfo → Resolver → Bool
is_resolved hwm key offset markers resolver = elim (marked key markers) [
  | none ↦ false
  | some info ↦
      ltb info.offset hwm
      && ltb offset info.offset
      && transaction_decision_matches_marker key info resolver
]

unfoldable pub first_unresolved_from : ℕ → ℕ → MarkerMap ℕ → MarkerMap MarkerInfo → Resolver → ℕ → ℕ
first_unresolved_from hwm floor [] markers resolver found = found
first_unresolved_from hwm floor ((key, offset) ∷ opens) markers resolver found =
    let from = if ltb offset floor then floor else offset in
    let next =
      if leb hwm offset || is_resolved hwm key offset markers resolver
      then found
      else if ltb from found
      then from
      else found in
    first_unresolved_from hwm floor opens markers resolver next

unfoldable pub first_unresolved_open_offset :
    ℕ → ℕ → MarkerMap ℕ → MarkerMap MarkerInfo → Resolver → ℕ
first_unresolved_open_offset hwm floor opens markers resolver =
    first_unresolved_from hwm floor opens markers resolver hwm

unfoldable pub is_read_committed_visible : Message → ℕ → MarkerMap MarkerInfo → Resolver → Bool
is_read_committed_visible m hwm markers resolver =
    if not (is_empty m.transaction_marker)
    then false
    else if is_empty m.transactional_id
    then true
    else if str_eq m.transaction_state (lit "aborted")
    then false
    else elim (marked (marker_key m) markers) [
      | none ↦ false
      | some info ↦
          ltb info.offset hwm
          && ltb m.offset info.offset
          && str_eq info.marker (lit "commit")
          && transaction_decision_matches_marker (marker_key m) info resolver
    ]
