-- ===== src/Coordinator/Rebalance/Members.antt =====
-- The list of member names that `rebalanceRange` of pkg/coordinator/rebalancer.go sorts.
use go_broker.Base.{
  suc, ◌≡◌, refl, inl, inr, Bool, true, false, not, ◌&&◌, none, some, List, [], ◌∷◌, arith, Str,
  str_eq, str_eq_iff, Map, lookup, Distinct, length, any, insert_string, sort_strings, Option-cases,
}
use go_broker.Coordinator.Types.{MemberMetadata}
use go_broker.Coordinator.Rebalance.{member_ids}

abbrev pub has_name : Str → List Str → Bool
has_name x names = any (λ y. str_eq y x) names

-- No name twice.
abbrev pub distinct_names : List Str → Bool
distinct_names [] = true
distinct_names (x ∷ xs) = not (has_name x xs) && distinct_names xs

has_name-insert_string :
    (z x : Str) (xs : List Str) → has_name z (insert_string x xs) ≡ has_name z (x ∷ xs)
unfolding insert_string
has_name-insert_string z x [] = refl
has_name-insert_string z x (y ∷ ys) = ground (arith, has_name-insert_string z x ys)

pub has_name-sort_strings : (z : Str) (xs : List Str) → has_name z (sort_strings xs) ≡ has_name z xs
unfolding sort_strings
has_name-sort_strings z [] = refl
has_name-sort_strings z (x ∷ xs) =
    ground (arith, has_name-insert_string z x (sort_strings xs), has_name-sort_strings z xs)

distinct_names-insert_string :
    (x : Str) (xs : List Str) → distinct_names (insert_string x xs) ≡ distinct_names (x ∷ xs)
unfolding insert_string
distinct_names-insert_string x [] = refl
distinct_names-insert_string x (y ∷ ys) = ground (
  arith,
  distinct_names-insert_string x ys,
  has_name-insert_string y x ys,
  str_eq_iff x y,
  str_eq_iff y x,
)

pub distinct_names-sort_strings :
    (xs : List Str) → distinct_names (sort_strings xs) ≡ distinct_names xs
unfolding sort_strings
distinct_names-sort_strings [] = refl
distinct_names-sort_strings (x ∷ xs) = ground (
  arith,
  distinct_names-insert_string x (sort_strings xs),
  distinct_names-sort_strings xs,
  has_name-sort_strings x xs,
)

length-insert_string : (x : Str) (xs : List Str) → length (insert_string x xs) ≡ suc (length xs)
unfolding insert_string
length-insert_string x [] = refl
length-insert_string x (y ∷ ys) = ground (arith, length-insert_string x ys)

pub length-sort_strings : (xs : List Str) → length (sort_strings xs) ≡ length xs
unfolding sort_strings
length-sort_strings [] = refl
length-sort_strings (x ∷ xs) =
    ground (arith, length-insert_string x (sort_strings xs), length-sort_strings xs)

lookup-member_ids :
    (x : Str) (members : Map MemberMetadata)
    → lookup x members ≡ none
    → has_name x (member_ids members) ≡ false
unfolding member_ids lookup
lookup-member_ids x [] h = refl
lookup-member_ids x ((id, member) ∷ members) h = ground (arith, lookup-member_ids x members)

pub member_ids-lookup :
    (x : Str) (members : Map MemberMetadata)
    → has_name x (member_ids members) ≡ true
    → (member : MemberMetadata) × (lookup x members ≡ some member)
member_ids-lookup x members h = elim (Option-cases (lookup x members)) [
  | inl gone ↦ ground (arith, lookup-member_ids x members gone)
  | inr found ↦ found
]

pub distinct_names-member_ids :
    (members : Map MemberMetadata) → Distinct members → distinct_names (member_ids members) ≡ true
unfolding member_ids
distinct_names-member_ids [] d = refl
distinct_names-member_ids ((id, member) ∷ members) d =
    ground (arith, lookup-member_ids id members d.0, distinct_names-member_ids members d.1)
