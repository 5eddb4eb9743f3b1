-- ===== src/ReviewQuorum/Distinct.antt =====
-- Texts of which no two are the same.
use llm_arbitrage_system.Base.{
  ◌≤◌, String, ◌≡◌, refl, inl, inr, false, List, [], ◌∷◌, str_eq, arith,
}
use llm_arbitrage_system.Base.Tests.{Bool-cases}
use llm_arbitrage_system.Base.Lists.{length, any}
use llm_arbitrage_system.ReviewQuorum.Envelope.{distinct_count}
use llm_arbitrage_system.ReviewQuorum.Load.{has_duplicate}

-- No text occurs again behind itself.
abbrev pub IsDistinctList : List String → Type 0
IsDistinctList [] = Unit
IsDistinctList (x ∷ xs) = (any (λ y. str_eq y x) xs ≡ false) × IsDistinctList xs

pub distinct_count-le : (xs : List String) → distinct_count xs ≤ length xs
distinct_count-le [] = omega arith
distinct_count-le (x ∷ xs) = ground (arith, distinct_count-le xs)

pub has_duplicate-IsDistinct : (xs : List String) → has_duplicate xs ≡ false → IsDistinctList xs
has_duplicate-IsDistinct [] h = tt
has_duplicate-IsDistinct (x ∷ xs) h = elim (Bool-cases (any (λ y. str_eq y x) xs)) [
  | inl again ↦ absurd (ground (arith, again, distinct_count-le xs, h))
  | inr fresh ↦ (fresh, has_duplicate-IsDistinct xs (ground (arith, fresh, h)))
]

pub distinct_count-length : (xs : List String) → IsDistinctList xs → distinct_count xs ≡ length xs
distinct_count-length [] distinct = refl
distinct_count-length (x ∷ xs) (fresh, distinct) = ground (arith, distinct_count-length xs distinct)
