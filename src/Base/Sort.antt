-- ===== src/Base/Sort.antt =====
-- `sort.Strings`, as an insertion sort in the byte-wise order of Go's strings.
use mathlib.Core.List.{List, [], ◌∷◌}
use go_broker.Base.Tests.{if◌then◌else◌}
use go_broker.Base.Strings.{Str, str_lt}

unfoldable pub insert_string : Str → List Str → List Str
insert_string x [] = x ∷ []
insert_string x (y ∷ ys) =
    let rest = insert_string x ys in if str_lt y x then y ∷ rest else x ∷ y ∷ ys

unfoldable pub sort_strings : List Str → List Str
unfolding insert_string
sort_strings [] = []
sort_strings (x ∷ xs) = insert_string x (sort_strings xs)
