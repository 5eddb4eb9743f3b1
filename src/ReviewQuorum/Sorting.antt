-- ===== src/ReviewQuorum/Sorting.antt =====
-- The reviews in lexical order: sorting a sorted list changes nothing, and keeps what differs apart.
use Prim.Native.Nat.{compare as compare_ℕ, Ordering}
use Prim.Native.String.{compare as compare_text, then as then_by, ◌∷◌ as char_cons, [] as no_text}
use Prim.Native.String.compare
use Prim.Native.Char.{code}
use text.Mathlib.Text.{is_eq, is_lt, is_le}
use llm_arbitrage_system.Base.{
  ℕ, suc, String, ◌≡◌, refl, sym, ap, ◌∙◌, inl, inr, Bool, true, false, ◌&&◌, ◌||◌, List, [], ◌∷◌,
  ◌++◌, str_eq, eq_iff, arith, map,
}
use llm_arbitrage_system.Base.Tests.{Bool-cases}
use llm_arbitrage_system.Base.Lists.{length, any}
use llm_arbitrage_system.ReviewQuorum.Envelope.{
  QuorumReviewEvidence, in_order, insert_review, sort_reviews,
}
use llm_arbitrage_system.ReviewQuorum.Distinct.{IsDistinctList}

abbrev flipped : Ordering → Ordering
flipped Ordering.lt = Ordering.gt
flipped Ordering.eq = Ordering.eq
flipped Ordering.gt = Ordering.lt

flipped-then : (a b : Ordering) → then_by (flipped a) (flipped b) ≡ flipped (then_by a b)
flipped-then Ordering.lt b = refl
flipped-then Ordering.eq b = refl
flipped-then Ordering.gt b = refl

compare_ℕ-flipped : (a b : ℕ) → compare_ℕ b a ≡ flipped (compare_ℕ a b)
compare_ℕ-flipped a b = ground arith

compare_text-flipped : (s t : String) → compare_text t s ≡ flipped (compare_text s t)
compare_text-flipped no_text no_text = compare.nil-nil ∙ ap flipped (sym compare.nil-nil)
compare_text-flipped no_text (char_cons d t) =
    compare.cons-nil d t ∙ ap flipped (sym (compare.nil-cons d t))
compare_text-flipped (char_cons c s) no_text =
    compare.nil-cons c s ∙ ap flipped (sym (compare.cons-nil c s))
compare_text-flipped (char_cons c s) (char_cons d t) =
    compare.cons-cons d c t s
    ∙ (ap (λ o. then_by o (compare_text t s)) (compare_ℕ-flipped (code c) (code d))
        ∙ (ap (λ o. then_by (flipped (compare_ℕ (code c) (code d))) o) (compare_text-flipped s t)
            ∙ (flipped-then (compare_ℕ (code c) (code d)) (compare_text s t)
                ∙ ap flipped (sym (compare.cons-cons c d s t)))))

abbrev by_order : (keys records : Ordering) → Bool
by_order keys records = is_lt keys || (is_eq keys && is_le records)

by_order-total :
    (keys records : Ordering)
    → by_order keys records ≡ false
    → by_order (flipped keys) (flipped records) ≡ true
by_order-total Ordering.lt r h = absurd (cc)
by_order-total Ordering.gt r h = refl
by_order-total Ordering.eq Ordering.lt h = absurd (cc)
by_order-total Ordering.eq Ordering.eq h = absurd (cc)
by_order-total Ordering.eq Ordering.gt h = refl

in_order-total : (a b : QuorumReviewEvidence) → in_order a b ≡ false → in_order b a ≡ true
in_order-total a b h =
    rw
      (
        compare_text-flipped a.reviewer_key_id b.reviewer_key_id,
        compare_text-flipped a.record_id b.record_id,
      )
      (by_order-total (compare_text a.reviewer_key_id b.reviewer_key_id)
        (compare_text a.record_id b.record_id) h)

abbrev Leads : QuorumReviewEvidence → List QuorumReviewEvidence → Type 0
Leads r [] = Unit
Leads r (x ∷ xs) = in_order r x ≡ true

abbrev pub IsSorted : List QuorumReviewEvidence → Type 0
IsSorted [] = Unit
IsSorted (x ∷ xs) = Leads x xs × IsSorted xs

Leads-insert :
    (x r : QuorumReviewEvidence) (xs : List QuorumReviewEvidence)
    → in_order x r ≡ true
    → Leads x xs
    → Leads x (insert_review r xs)
Leads-insert x r [] before leads = before
Leads-insert x r (y ∷ ys) before leads = elim (Bool-cases (in_order r y)) [
  | inl h ↦ rw (h, Leads, insert_review) before
  | inr h ↦ rw (h, Leads, insert_review) leads
]

insert_review-IsSorted :
    (r : QuorumReviewEvidence) (xs : List QuorumReviewEvidence)
    → IsSorted xs
    → IsSorted (insert_review r xs)
insert_review-IsSorted r [] sorted = (tt, tt)
insert_review-IsSorted r (x ∷ xs) sorted = elim (Bool-cases (in_order r x)) [
  | inl h ↦ rw (h, IsSorted, insert_review) (h, sorted)
  | inr h ↦
      rw (h, IsSorted, insert_review)
        (Leads-insert x r xs (in_order-total r x h) sorted.0, insert_review-IsSorted r xs sorted.1)
]

sort_reviews-IsSorted : (xs : List QuorumReviewEvidence) → IsSorted (sort_reviews xs)
sort_reviews-IsSorted [] = tt
sort_reviews-IsSorted (r ∷ xs) =
    insert_review-IsSorted r (sort_reviews xs) (sort_reviews-IsSorted xs)

insert_review-first :
    (r : QuorumReviewEvidence) (xs : List QuorumReviewEvidence)
    → Leads r xs
    → insert_review r xs ≡ r ∷ xs
insert_review-first r [] leads = refl
insert_review-first r (x ∷ xs) leads = rw leads refl

IsSorted-sort_reviews : (xs : List QuorumReviewEvidence) → IsSorted xs → sort_reviews xs ≡ xs
IsSorted-sort_reviews [] sorted = refl
IsSorted-sort_reviews (x ∷ xs) sorted =
    ap (insert_review x) (IsSorted-sort_reviews xs sorted.1) ∙ insert_review-first x xs sorted.0

pub sort_reviews-sort_reviews :
    (xs : List QuorumReviewEvidence) → sort_reviews (sort_reviews xs) ≡ sort_reviews xs
sort_reviews-sort_reviews xs = IsSorted-sort_reviews (sort_reviews xs) (sort_reviews-IsSorted xs)

-- Sorting moves reviews, and leaves what holds of some review or of each pair.
any-insert_review :
    (p : QuorumReviewEvidence → Bool) (r : QuorumReviewEvidence) (xs : List QuorumReviewEvidence)
    → any p (insert_review r xs) ≡ (p r || any p xs)
any-insert_review p r [] = refl
any-insert_review p r (x ∷ xs) = ground (arith, any-insert_review p r xs)

pub any-sort_reviews :
    (p : QuorumReviewEvidence → Bool) (xs : List QuorumReviewEvidence)
    → any p (sort_reviews xs) ≡ any p xs
any-sort_reviews p [] = refl
any-sort_reviews p (r ∷ xs) =
    any-insert_review p r (sort_reviews xs) ∙ ap (λ b. p r || b) (any-sort_reviews p xs)

length-insert_review :
    (r : QuorumReviewEvidence) (xs : List QuorumReviewEvidence)
    → length (insert_review r xs) ≡ suc (length xs)
length-insert_review r [] = refl
length-insert_review r (x ∷ xs) = ground (arith, length-insert_review r xs)

pub length-sort_reviews : (xs : List QuorumReviewEvidence) → length (sort_reviews xs) ≡ length xs
length-sort_reviews [] = refl
length-sort_reviews (r ∷ xs) =
    length-insert_review r (sort_reviews xs) ∙ ap suc (length-sort_reviews xs)

module _ (f : QuorumReviewEvidence → String) where
  -- No two reviews agree in a field.
  abbrev pub DistinctBy : List QuorumReviewEvidence → Type 0
  DistinctBy [] = Unit
  DistinctBy (r ∷ xs) = (any (λ x. str_eq (f x) (f r)) xs ≡ false) × DistinctBy xs

  any-map :
      (t : String) (xs : List QuorumReviewEvidence)
      → any (λ y. str_eq y t) (map f xs) ≡ any (λ x. str_eq (f x) t) xs
  any-map t [] = refl
  any-map t (x ∷ xs) = ap (λ b. str_eq (f x) t || b) (any-map t xs)

  pub DistinctBy-map : (xs : List QuorumReviewEvidence) → DistinctBy xs → IsDistinctList (map f xs)
  DistinctBy-map [] distinct = tt
  DistinctBy-map (r ∷ xs) (fresh, distinct) = (any-map (f r) xs ∙ fresh, DistinctBy-map xs distinct)

  insert_review-DistinctBy :
      (r : QuorumReviewEvidence) (xs : List QuorumReviewEvidence)
      → any (λ x. str_eq (f x) (f r)) xs ≡ false
      → DistinctBy xs
      → DistinctBy (insert_review r xs)
  insert_review-DistinctBy r [] fresh distinct = (refl, tt)
  insert_review-DistinctBy r (x ∷ xs) fresh distinct = elim (Bool-cases (in_order r x)) [
    | inl h ↦ rw (h, DistinctBy, insert_review) (fresh, distinct)
    | inr h ↦
        rw (h, DistinctBy, insert_review)
          (
            any-insert_review (λ y. str_eq (f y) (f x)) r xs
                ∙ ground (arith, eq_iff (f r) (f x), eq_iff (f x) (f r), distinct.0, fresh),
            insert_review-DistinctBy r xs (ground (arith, fresh)) distinct.1,
          )
  ]

  pub sort_reviews-DistinctBy :
      (xs : List QuorumReviewEvidence) → DistinctBy xs → DistinctBy (sort_reviews xs)
  sort_reviews-DistinctBy [] distinct = tt
  sort_reviews-DistinctBy (r ∷ xs) (fresh, distinct) =
      insert_review-DistinctBy r (sort_reviews xs)
        (any-sort_reviews (λ x. str_eq (f x) (f r)) xs ∙ fresh)
        (sort_reviews-DistinctBy xs distinct)

  fresh-append :
      (x r : QuorumReviewEvidence) (xs : List QuorumReviewEvidence)
      → any (λ y. str_eq (f y) (f x)) xs ≡ false
      → str_eq (f r) (f x) ≡ false
      → any (λ y. str_eq (f y) (f x)) (xs ++ r ∷ []) ≡ false
  fresh-append x r [] none_equal other = ground (arith, other)
  fresh-append x r (y ∷ xs) none_equal other = ground (arith, fresh-append x r xs, other)

  pub DistinctBy-append :
      (xs : List QuorumReviewEvidence) (r : QuorumReviewEvidence)
      → any (λ x. str_eq (f x) (f r)) xs ≡ false
      → DistinctBy xs
      → DistinctBy (xs ++ r ∷ [])
  DistinctBy-append [] r fresh distinct = (refl, tt)
  DistinctBy-append (x ∷ xs) r fresh (first, distinct) = (
    fresh-append x r xs first (ground (arith, fresh, eq_iff (f r) (f x), eq_iff (f x) (f r))),
    DistinctBy-append xs r (ground (arith, fresh)) distinct,
  )
