-- ===== src/Base/Equality.antt =====
-- Boolean equality, as Go's `==` and `reflect.DeepEqual` decide it, with its meaning.
use mathlib.Core.Path.{◌≡◌, refl, ap}
use mathlib.Core.Logic.{◌↔◌}
use mathlib.Core.Bool.{Bool, true, false, not, ◌&&◌}
use mathlib.Core.Option.{Option, none, some}
use mathlib.Core.List.{List, [], ◌∷◌}
use native.Mathlib.Omega.{arith}

-- `eq` decides equality.
abbrev pub Decides {ℓ} : {A : Type ℓ} → (A → A → Bool) → Type ℓ
Decides {A} eq = (a b : A) → (eq a b ≡ true) ↔ (a ≡ b)

abbrev pub bool_eq : Bool → Bool → Bool
bool_eq true b = b
bool_eq false b = not b

pub bool_eq_iff : Decides bool_eq
bool_eq_iff a b = ground arith

module _ {ℓ} {A : Type ℓ} (eq : A → A → Bool) where
  unfoldable pub list_eq : List A → List A → Bool
  list_eq [] [] = true
  list_eq (x ∷ xs) (y ∷ ys) = eq x y && list_eq xs ys
  list_eq _ _ = false

  unfoldable pub option_eq : Option A → Option A → Bool
  option_eq none none = true
  option_eq (some x) (some y) = eq x y
  option_eq _ _ = false

  module _ (decides : Decides eq) where
    list_eq→eq : (xs ys : List A) → list_eq xs ys ≡ true → xs ≡ ys
    unfolding list_eq
    list_eq→eq [] [] h = refl
    list_eq→eq [] (y ∷ ys) h = cc
    list_eq→eq (x ∷ xs) [] h = cc
    list_eq→eq (x ∷ xs) (y ∷ ys) h = ground (arith, decides x y, list_eq→eq xs ys)

    list_eq_refl : (xs : List A) → list_eq xs xs ≡ true
    unfolding list_eq
    list_eq_refl [] = refl
    list_eq_refl (x ∷ xs) = ground (arith, decides x x, list_eq_refl xs)

    pub list_eq_iff : (xs ys : List A) → (list_eq xs ys ≡ true) ↔ (xs ≡ ys)
    list_eq_iff xs ys = (list_eq→eq xs ys, λ e. cc (list_eq_refl xs))

    pub option_eq_iff : (a b : Option A) → (option_eq a b ≡ true) ↔ (a ≡ b)
    unfolding option_eq
    option_eq_iff none none = (λ _. refl, λ _. refl)
    option_eq_iff none (some y) = (λ h. cc, λ h. cc)
    option_eq_iff (some x) none = (λ h. cc, λ h. cc)
    option_eq_iff (some x) (some y) = (λ h. ap some ((decides x y).0 h), λ h. (decides x y).1 (cc))
