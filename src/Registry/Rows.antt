-- ===== src/Registry/Rows.antt =====
-- Rows that are found stay found when rows are added.
use llm_arbitrage_system.Base.{◌≡◌, Bool, true, List, [], ◌∷◌, ◌++◌, arith}
use llm_arbitrage_system.Base.Lists.{first?}
use llm_arbitrage_system.Registry.Schema.{is_found}

module _ {A : Type 0} (key : A → Bool) where
  pub found-append :
      (rows more : List A)
      → is_found (first? key rows) ≡ true
      → is_found (first? key (rows ++ more)) ≡ true
  found-append [] more h = absurd (cc)
  found-append (n ∷ rows) more h = ground (arith, found-append rows more)

  pub found-last :
      (n : A) (rows : List A) → key n ≡ true → is_found (first? key (rows ++ n ∷ [])) ≡ true
  found-last n [] h = ground (arith)
  found-last n (m ∷ rows) h = ground (arith, found-last n rows)
