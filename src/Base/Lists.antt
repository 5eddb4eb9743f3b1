-- ===== src/Base/Lists.antt =====
-- Lists measured and indexed by native numbers, under the library's names.
use Prim.Native.Nat.{ℕ, zero, suc, ◌+◌}
use mathlib.Core.Path.{◌≡◌, refl, ap, subst}
use mathlib.Core.Bool.{Bool, true, false, ◌||◌}
use mathlib.Core.Logic.{inl, inr}
use mathlib.Core.List.{List, [], ◌∷◌, ◌++◌, map}
use mathlib.Core.Option.{Option, none, some}
use native.Mathlib.Omega.{arith}
use llm_arbitrage_system.Base.Tests.{if◌then◌else◌, Bool-cases}

module _ {ℓ} {A : Type ℓ} where
  abbrev pub length : List A → ℕ
  length [] = 0
  length (x ∷ xs) = suc (length xs)

  abbrev pub get_elem? : List A → ℕ → Option A
  get_elem? [] i = none
  get_elem? (x ∷ xs) zero = some x
  get_elem? (x ∷ xs) (suc i) = get_elem? xs i

  -- The elements that pass a Boolean test.
  abbrev pub select : (A → Bool) → List A → List A
  select p [] = []
  select p (x ∷ xs) = if p x then x ∷ select p xs else select p xs

  -- The first element that passes a Boolean test.
  abbrev pub first? : (A → Bool) → List A → Option A
  first? p [] = none
  first? p (x ∷ xs) = if p x then some x else first? p xs

  -- Some element passes a Boolean test.
  abbrev pub any : (A → Bool) → List A → Bool
  any p [] = false
  any p (x ∷ xs) = p x || any p xs

  -- How many elements pass a Boolean test.
  abbrev pub count_if : (A → Bool) → List A → ℕ
  count_if p [] = 0
  count_if p (x ∷ xs) = if p x then suc (count_if p xs) else count_if p xs

  -- The list of `f 0` to `f (n - 1)`, starting at `i`.
  abbrev pub tabulate : ℕ → (ℕ → A) → ℕ → List A
  tabulate i f zero = []
  tabulate i f (suc n) = f i ∷ tabulate (suc i) f n

  -- A property of every element.
  abbrev pub All {κ} : (A → Type κ) → List A → Type κ
  All P [] = Unit
  All P (x ∷ xs) = P x × All P xs

  pub first?-append :
      (key : A → Bool) (rows more : List A) (r : A)
      → first? key rows ≡ some r
      → first? key (rows ++ more) ≡ some r
  first?-append key [] more r h = cc
  first?-append key (x ∷ rows) more r h = ground (arith, first?-append key rows more r)

  pub first?-passes :
      (key : A → Bool) (rows : List A) (r : A) → first? key rows ≡ some r → key r ≡ true
  first?-passes key [] r h = cc
  first?-passes key (x ∷ rows) r h = ground (arith, first?-passes key rows r)

  -- A test that nothing passes, weakened on a list that grows.
  pub any-append :
      (p q : A → Bool) (xs ys : List A)
      → ((x : A) → p x ≡ false → q x ≡ false)
      → any p xs ≡ false
      → any q ys ≡ false
      → any q (xs ++ ys) ≡ false
  any-append p q [] ys weakens none_old none_new = none_new
  any-append p q (x ∷ xs) ys weakens none_old none_new =
      ground (arith, weakens x, any-append p q xs ys weakens)

  pub any-weaken :
      (p q : A → Bool) (xs : List A)
      → ((x : A) → p x ≡ false → q x ≡ false)
      → any p xs ≡ false
      → any q xs ≡ false
  any-weaken p q [] weakens none_passes = refl
  any-weaken p q (x ∷ xs) weakens none_passes = ground (arith, weakens x, any-weaken p q xs weakens)

  pub first?-last :
      (p : A → Bool) (xs : List A) (x : A)
      → first? p xs ≡ none
      → p x ≡ true
      → first? p (xs ++ x ∷ []) ≡ some x
  first?-last p [] x absent holds = ground (arith)
  first?-last p (y ∷ xs) x absent holds = ground (arith, first?-last p xs x)

  pub length-append : (xs ys : List A) → length (xs ++ ys) ≡ length xs + length ys
  length-append [] ys = omega arith
  length-append (x ∷ xs) ys = omega (arith, length-append xs ys)

  pub length-tabulate : (i : ℕ) (f : ℕ → A) (n : ℕ) → length (tabulate i f n) ≡ n
  length-tabulate i f zero = refl
  length-tabulate i f (suc n) = ap suc (length-tabulate (suc i) f n)

option_injective : {A : Type 0} (x y : A) → ◌≡◌ {A = Option A} (some x) (some y) → x ≡ y
option_injective x y h = cc

module _ {A : Type 0} {P Q : A → Type 0} where
  pub All-weaken : (xs : List A) → ((x : A) → P x → Q x) → All P xs → All Q xs
  All-weaken [] weakens all = tt
  All-weaken (x ∷ xs) weakens all = (weakens x all.0, All-weaken xs weakens all.1)

  pub All-append : (xs ys : List A) → ((x : A) → P x → Q x) → All P xs → All Q ys → All Q (xs ++ ys)
  All-append [] ys weakens old new = new
  All-append (x ∷ xs) ys weakens old new = (weakens x old.0, All-append xs ys weakens old.1 new)

pub All-first? :
    {A : Type 0} (P : A → Type 0) (p : A → Bool) (xs : List A) (x : A)
    → All P xs
    → first? p xs ≡ some x
    → P x
All-first? P p [] x all h = absurd (cc)
All-first? P p (y ∷ xs) x all h = elim (Bool-cases (p y)) [
  | inl e ↦ subst P (option_injective y x (ground (arith, e, h))) all.0
  | inr e ↦ All-first? P p xs x all.1 (ground (arith, e, h))
]

pub length-map {ℓ κ} :
    {A : Type ℓ} {B : Type κ} (xs : List A) (f : A → B) → length (map f xs) ≡ length xs
length-map [] f = refl
length-map (x ∷ xs) f = ap suc (length-map xs f)
