-- ===== src/Base/Empty.antt =====
-- The Boolean test of an empty list: a list of errors is read by it, part by part.
use mathlib.Core.Path.{◌≡◌, refl, ap}
use mathlib.Core.Logic.{◌↔◌}
use mathlib.Core.Bool.{Bool, true, false, ◌&&◌}
use mathlib.Core.List.{List, map, [], ◌∷◌, ◌++◌}
use native.Mathlib.Omega.{arith}

abbrev pub is_empty {ℓ} : {A : Type ℓ} → List A → Bool
is_empty [] = true
is_empty (x ∷ l) = false

pub is_empty-append {ℓ} :
    {A : Type ℓ} (xs ys : List A) → is_empty (xs ++ ys) ≡ (is_empty xs && is_empty ys)
is_empty-append [] ys = refl
is_empty-append (x ∷ xs) ys = refl

pub is_empty-nil {ℓ} : {A : Type ℓ} (l : List A) → (l ≡ []) ↔ (is_empty l ≡ true)
is_empty-nil [] = (λ h. refl, λ h. refl)
is_empty-nil (x ∷ l) = (λ h. ap is_empty h, λ h. absurd (ground arith))

pub is_empty-map {ℓ ℓ'} :
    {A : Type ℓ} {B : Type ℓ'} (f : A → B) (l : List A) → is_empty (map f l) ≡ is_empty l
is_empty-map f [] = refl
is_empty-map f (x ∷ l) = refl
