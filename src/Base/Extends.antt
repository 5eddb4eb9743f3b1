-- ===== src/Base/Extends.antt =====
-- Tables that only grow: a list and what is added behind it.
use mathlib.Core.Path.{◌≡◌, refl, ap, ◌∙◌}
use mathlib.Core.List.{List, [], ◌∷◌, ◌++◌}

-- The second list is the first with rows added behind it.
abbrev pub Extends : {A : Type 0} → List A → List A → Type 0
Extends {A} xs ys = (added : List A) × (ys ≡ xs ++ added)

pub append_nil : {A : Type 0} (xs : List A) → xs ≡ xs ++ []
append_nil [] = refl
append_nil (x ∷ xs) = ap (λ l. x ∷ l) (append_nil xs)

pub append_assoc : {A : Type 0} (xs ys zs : List A) → (xs ++ ys) ++ zs ≡ xs ++ (ys ++ zs)
append_assoc [] ys zs = refl
append_assoc (x ∷ xs) ys zs = ap (λ l. x ∷ l) (append_assoc xs ys zs)

pub Extends-same : {A : Type 0} (xs : List A) → Extends xs xs
Extends-same xs = ([], append_nil xs)

pub Extends-then : {A : Type 0} (xs ys zs : List A) → Extends xs ys → Extends ys zs → Extends xs zs
Extends-then xs ys zs (a, e) (b, e') = (a ++ b, e' ∙ (ap (λ l. l ++ b) e ∙ append_assoc xs a b))
