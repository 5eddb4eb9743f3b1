-- ===== src/Domain/Whole.antt =====
-- Whole numbers in the place of decimals and floats: an instance on which tests compute.
-- Quotients are cut, and texts of numbers are one fixed text.
use llm_arbitrage_system.Base.{some, ◌+◌, ◌*◌, ◌/◌}
use llm_arbitrage_system.Base.Int.{ℤ, pos, pos_part, neg_part, sub_ℕ, ◌+ℤ◌, ◌-ℤ◌, ltb_ℤ}
use llm_arbitrage_system.Domain.Numbers.{Numbers}

abbrev pub negate : ℤ → ℤ
negate a = sub_ℕ (neg_part a) (pos_part a)

abbrev pub times : ℤ → ℤ → ℤ
times a b =
    sub_ℕ (pos_part a * pos_part b + neg_part a * neg_part b)
      (pos_part a * neg_part b + neg_part a * pos_part b)

-- towards zero, by a positive divisor
abbrev pub quotient : ℤ → ℤ → ℤ
quotient a b = sub_ℕ (pos_part a / pos_part b) (neg_part a / pos_part b)

abbrev pub whole : Numbers
whole = record {
  Decimal = ℤ;
  Float = ℤ;
  decimal = pos;
  add = ◌+ℤ◌;
  sub = ◌-ℤ◌;
  mul = times;
  div = quotient;
  neg = negate;
  less = ltb_ℤ;
  to_float = λ d. d;
  from_float = λ f. f;
  float = λ n m. pos (n / m);
  float_mul = times;
  float_div = quotient;
  float_neg = negate;
  float_less = ltb_ℤ;
  total_seconds = λ t. quotient t (pos 1000000);
  show = λ d. "number";
  show_float = λ f. "number";
  show_int = λ n. "index";
  parse = λ t. some (pos 10);
}
