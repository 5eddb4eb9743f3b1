-- ===== src/CampaignStore/Updates.antt =====
-- How a lookup and a count read a table after an UPDATE or an INSERT.
use llm_arbitrage_system.Base.{◌+◌, ◌≡◌, refl, Bool, true, false, some, List, [], ◌∷◌, arith}
use llm_arbitrage_system.Base.Tests.{if◌then◌else◌}
use llm_arbitrage_system.Base.Lists.{first?, count_if, All}
use llm_arbitrage_system.CampaignStore.Schema.{update_where}

module _ {A : Type 0} where
  -- the row that an UPDATE makes of `r`
  abbrev pub updated : (A → Bool) → (A → A) → A → A
  updated p f r = if p r then f r else r

  pub first?-update_where :
      (key p : A → Bool) (f : A → A) (rows : List A) (r : A)
      → ((x : A) → key (f x) ≡ key x)
      → first? key rows ≡ some r
      → first? key (update_where p f rows) ≡ some (updated p f r)
  first?-update_where key p f [] r keeps h = cc
  first?-update_where key p f (x ∷ rows) r keeps h =
      ground (arith, keeps x, first?-update_where key p f rows r keeps)

  pub All-count_if-zero :
      (p : A → Bool) (rows : List A) → count_if p rows ≡ 0 → All (λ r. p r ≡ false) rows
  All-count_if-zero p [] h = tt
  All-count_if-zero p (x ∷ rows) h = ground (arith, All-count_if-zero p rows)

  -- After an UPDATE that takes every selected row out of a test, no row passes it.
  pub count_if-update_where_none :
      (p : A → Bool) (f : A → A) (rows : List A)
      → ((x : A) → p (f x) ≡ false)
      → count_if p (update_where p f rows) ≡ 0
  count_if-update_where_none p f [] leaves = refl
  count_if-update_where_none p f (x ∷ rows) leaves =
      ground (arith, leaves x, count_if-update_where_none p f rows leaves)

  -- An UPDATE that moves the rows of one test into another adds their numbers.
  pub count_if-update_where_add :
      (p q : A → Bool) (f : A → A) (rows : List A)
      → ((x : A) → p x ≡ true → (q x ≡ false) × (q (f x) ≡ true))
      → count_if q (update_where p f rows) ≡ count_if q rows + count_if p rows
  count_if-update_where_add p q f [] moves = refl
  count_if-update_where_add p q f (x ∷ rows) moves =
      ground (arith, moves x, count_if-update_where_add p q f rows moves)

  -- An UPDATE that leaves a test alone leaves its count.
  pub count_if-update_where_same :
      (p q : A → Bool) (f : A → A) (rows : List A)
      → ((x : A) → p x ≡ true → q (f x) ≡ q x)
      → count_if q (update_where p f rows) ≡ count_if q rows
  count_if-update_where_same p q f [] same = refl
  count_if-update_where_same p q f (x ∷ rows) same =
      ground (arith, same x, count_if-update_where_same p q f rows same)
