-- ===== src/Base/IntMaps.antt =====
-- Go maps whose keys are integers, `map[int]T`, as association lists.
use mathlib.Core.Path.{◌≡◌, refl}
use mathlib.Core.Option.{Option, none, some}
use mathlib.Core.List.{List, [], ◌∷◌}
use native.Mathlib.Omega.{arith}
use go_broker.Base.Tests.{if◌then◌else◌}
use go_broker.Base.Int.{ℤ, int_eq, int_eq_iff}

abbrev pub IntMap {ℓ} : Type ℓ → Type ℓ
IntMap V = List (ℤ × V)

module _ {ℓ} {V : Type ℓ} where
  unfoldable pub find : ℤ → IntMap V → Option V
  find k [] = none
  find k ((j, v) ∷ m) = if int_eq j k then some v else find k m

  unfoldable pub put : ℤ → V → IntMap V → IntMap V
  put k v [] = (k, v) ∷ []
  put k v ((j, w) ∷ m) = let rest = put k v m in if int_eq j k then (k, v) ∷ m else (j, w) ∷ rest

  pub find-put :
      (k j : ℤ) (v : V) (m : IntMap V)
      → find j (put k v m) ≡ (if int_eq k j then some v else find j m)
  unfolding find put
  find-put k j v [] = refl
  find-put k j v ((i, w) ∷ m) =
      ground (arith, int_eq_iff k j, int_eq_iff i k, int_eq_iff i j, find-put k j v m)
