-- ===== src/Domain/Numbers.antt =====
-- Python's `Decimal` and `float`, and the text of numbers: a parameter of everything that computes
-- with them. Decimals are finite here, as the program's are, and rounded by the context in force;
-- no law of arithmetic is assumed, and a theorem that needs one names it as a hypothesis.
use llm_arbitrage_system.Base.{ℕ, String, Bool, not, ◌&&◌, Option, List, [], ◌∷◌}
use llm_arbitrage_system.Base.Tests.{if◌then◌else◌}
use llm_arbitrage_system.Base.Int.{ℤ}

pub record Numbers : Type 1 where
  pub Decimal : Type 0
  pub Float : Type 0
  -- `Decimal(n)`, and the operators of `Decimal`
  pub decimal : ℕ → Decimal
  pub add : Decimal → Decimal → Decimal
  pub sub : Decimal → Decimal → Decimal
  pub mul : Decimal → Decimal → Decimal
  pub div : Decimal → Decimal → Decimal
  pub neg : Decimal → Decimal
  pub less : Decimal → Decimal → Bool
  -- `float(d)`, `Decimal(str(f))`, the float n / m, and the operators of `float`
  pub to_float : Decimal → Float
  pub from_float : Float → Decimal
  pub float : ℕ → ℕ → Float
  pub float_mul : Float → Float → Float
  pub float_div : Float → Float → Float
  pub float_neg : Float → Float
  pub float_less : Float → Float → Bool
  -- `timedelta.total_seconds()` of a number of microseconds
  pub total_seconds : ℤ → Float
  -- `str(d)`, `str(f)`, `str(n)`, and `Decimal(text)`, which raises on a text that is no number
  pub show : Decimal → String
  pub show_float : Float → String
  pub show_int : ℕ → String
  pub parse : String → Option Decimal

module _ (N : Numbers) where
  open N use {Decimal, Float, decimal, add, sub, neg, less, float_less, float_neg, float}

  abbrev pub zero_d : Decimal
  zero_d = decimal 0

  -- `a <= b`, `a == b`, on finite values
  abbrev pub at_most : Decimal → Decimal → Bool
  at_most a b = not (less b a)

  abbrev pub equal_d : Decimal → Decimal → Bool
  equal_d a b = not (less a b) && not (less b a)

  -- Python's `min` and `max` of two values return the first where neither is smaller.
  abbrev pub min_d : Decimal → Decimal → Decimal
  min_d a b = if less b a then b else a

  abbrev pub max_d : Decimal → Decimal → Decimal
  max_d a b = if less a b then b else a

  abbrev pub abs_d : Decimal → Decimal
  abs_d a = if less a zero_d then neg a else a

  -- `sum(values, ZERO)`
  abbrev pub sum_from : Decimal → List Decimal → Decimal
  sum_from total [] = total
  sum_from total (x ∷ xs) = sum_from (add total x) xs

  abbrev pub sum_d : List Decimal → Decimal
  sum_d = sum_from zero_d

  -- `max(first, *rest)` and `min(first, *rest)`
  abbrev pub largest : Decimal → List Decimal → Decimal
  largest best [] = best
  largest best (x ∷ xs) = largest (max_d best x) xs

  abbrev pub smallest : Decimal → List Decimal → Decimal
  smallest best [] = best
  smallest best (x ∷ xs) = smallest (min_d best x) xs

  abbrev pub float_at_most : Float → Float → Bool
  float_at_most a b = not (float_less b a)

  abbrev pub abs_f : Float → Float
  abs_f a = if float_less a (float 0 1) then float_neg a else a

  abbrev pub min_f : Float → Float → Float
  min_f a b = if float_less b a then b else a
