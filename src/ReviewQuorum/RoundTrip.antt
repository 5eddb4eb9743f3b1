-- ===== src/ReviewQuorum/RoundTrip.antt =====
-- The envelope that `build_review_quorum` returns, written and read again.
use Prim.Native.String.{◌++◌ as str_append}
use llm_arbitrage_system.Base.{
  ℕ, ◌≤◌, String, ◌≡◌, refl, sym, subst, ◌∙◌, true, false, Option, some, List, [], ◌∷◌, str_eq,
  eq_iff, arith, map,
}
use llm_arbitrage_system.Base.Tests.{◌==◌}
use llm_arbitrage_system.Base.Lists.{length, count_if, All, length-map}
use llm_arbitrage_system.Base.Int.{ℤ, pos, ltb_ℤ}
use llm_arbitrage_system.Base.Result.{ok}
use llm_arbitrage_system.Json.{object, same, same_items, same_int}
use llm_arbitrage_system.ReviewQuorum.Parsing.{checked_string}
use llm_arbitrage_system.Json.{Canonical}
use llm_arbitrage_system.ReviewQuorum.Envelope.{
  QuorumReviewEvidence, ReviewQuorumEnvelope, reviews_json, key_ids, distinct_count, quorum_status,
  envelope_fields, expected_id, sort_reviews, decides,
}
use llm_arbitrage_system.ReviewQuorum.Build.{
  ReviewQuorumSpec, QuorumInputs, envelope_of, build_review_quorum,
}
use llm_arbitrage_system.ReviewQuorum.Reading.{read_envelope}
use llm_arbitrage_system.ReviewQuorum.Load.{
  same_reviews, has_duplicate, check_reviews, check_counts, check_claims, check_canonical,
  load_review_quorum_envelope,
}
use llm_arbitrage_system.ReviewQuorum.Distinct.{IsDistinctList, distinct_count-length}
use llm_arbitrage_system.ReviewQuorum.Sorting.{
  sort_reviews-sort_reviews, any-sort_reviews, length-sort_reviews, DistinctBy, DistinctBy-map,
  sort_reviews-DistinctBy,
}
use llm_arbitrage_system.ReviewQuorum.Built.{is_near, IsApart, Collected, build_review_quorum-Built}
use llm_arbitrage_system.ReviewQuorum.Reread.{
  FieldsPass, checked_integer-least, pos-least, read_header-fields, read_parties-fields,
  read_terms-fields,
}

text_self : (s : String) → str_eq s s ≡ true
text_self s = (eq_iff s s).1 refl

nat_self : (n : ℕ) → (n == n) ≡ true
nat_self n = ground arith

int_self : (n : ℤ) → same_int n n ≡ true
int_self n = ground arith

same_reviews_self : (reviews : List QuorumReviewEvidence) → same_reviews reviews reviews ≡ true
same_reviews_self [] = refl
same_reviews_self (r ∷ reviews) =
    rw
      (
        text_self r.record_id,
        text_self r.record_sha256,
        text_self r.reviewer_subject,
        text_self r.reviewer_key_id,
        text_self r.decision,
        text_self r.reviewed_at,
        same_reviews_self reviews,
      )
      refl

no_duplicate : (xs : List String) → IsDistinctList xs → has_duplicate xs ≡ false
no_duplicate xs distinct = rw (distinct_count-length xs distinct) (ground arith)

distinct-field :
    (f : QuorumReviewEvidence → String) (evidence : List QuorumReviewEvidence)
    → DistinctBy f evidence
    → has_duplicate (map f (sort_reviews evidence)) ≡ false
distinct-field f evidence distinct =
    no_duplicate (map f (sort_reviews evidence))
      (DistinctBy-map f (sort_reviews evidence) (sort_reviews-DistinctBy f evidence distinct))

same_items-json :
    (reviews : List QuorumReviewEvidence)
    → same_items (reviews_json reviews) (reviews_json reviews) ≡ true
unfolding same
same_items-json [] = refl
same_items-json (r ∷ reviews) =
    rw
      (
        text_self r.record_id,
        text_self r.record_sha256,
        text_self r.reviewer_subject,
        text_self r.reviewer_key_id,
        text_self r.decision,
        text_self r.reviewed_at,
        same_items-json reviews,
      )
      refl

-- The dictionary of an envelope is equal to itself.
same-envelope :
    (e : ReviewQuorumEnvelope)
    → same (object (envelope_fields e)) (object (envelope_fields e)) ≡ true
unfolding same
same-envelope e =
    rw
      (
        text_self e.envelope_id,
        text_self e.request_id,
        text_self e.request_sha256,
        text_self e.requester_key_id,
        text_self e.dossier_id,
        text_self e.dossier_sha256,
        text_self e.dossier_key_id,
        text_self e.requested_candidate_id,
        int_self e.minimum_distinct_reviewers,
        text_self e.status,
        same_items-json e.reviews,
        nat_self (length e.reviews),
        nat_self (distinct_count (key_ids e.reviews)),
        nat_self (count_if (decides "approve_research_only") e.reviews),
        nat_self (count_if (decides "defer") e.reviews),
        nat_self (count_if (decides "reject") e.reviews),
      )
      refl

module _ (C : Canonical) (i : QuorumInputs) (minimum : ℤ) (total : ℕ) where
  -- The envelope of reviews that `build_review_quorum` has collected.
  abbrev returned_envelope : List QuorumReviewEvidence → ReviewQuorumEnvelope
  returned_envelope evidence = envelope_of C i minimum (sort_reviews evidence)

  check_reviews-built :
      (evidence : List QuorumReviewEvidence)
      → Collected i.requester_key_id i.dossier_key_id total evidence
      → str_eq i.requester_key_id i.dossier_key_id ≡ false
      → check_reviews (returned_envelope evidence) ≡ ok tt
  unfolding check_reviews
  check_reviews-built evidence c parties =
      rw
        (
          sort_reviews-sort_reviews evidence,
          same_reviews_self (sort_reviews evidence),
          distinct-field (λ r. r.record_id) evidence c.records,
          distinct-field (λ r. r.reviewer_key_id) evidence c.keys,
          distinct-field (λ r. r.reviewer_subject) evidence c.subjects,
          parties,
          any-sort_reviews (is_near i.requester_key_id i.dossier_key_id) evidence,
          c.apart,
        )
        refl

  check_counts-built :
      (evidence : List QuorumReviewEvidence)
      → 1 ≤ length (sort_reviews evidence)
      → 1 ≤ distinct_count (key_ids (sort_reviews evidence))
      → check_counts (envelope_fields (returned_envelope evidence)) (returned_envelope evidence)
        ≡ ok tt
  unfolding check_counts same
  check_counts-built evidence some_review some_key =
      let reviews = sort_reviews evidence in
      rw
        (
          checked_integer-least (pos (length reviews)) (pos 1) "review_count"
              (pos-least _ some_review),
          nat_self (length reviews),
          checked_integer-least (pos (distinct_count (key_ids reviews))) (pos 1)
              "distinct_reviewer_count" (pos-least _ some_key),
          nat_self (distinct_count (key_ids reviews)),
          nat_self (count_if (decides "approve_research_only") reviews),
          nat_self (count_if (decides "defer") reviews),
          nat_self (count_if (decides "reject") reviews),
          text_self (quorum_status reviews minimum),
        )
        refl

  check_canonical-built :
      (evidence : List QuorumReviewEvidence)
      → check_canonical C
          (envelope_fields (returned_envelope evidence))
          (str_append
            (C.canonical_json (object (envelope_fields (returned_envelope evidence))))
            "\n")
          (returned_envelope evidence)
        ≡ ok tt
  unfolding check_canonical
  check_canonical-built evidence =
      let e = returned_envelope evidence in
      rw
        (
          text_self (expected_id C e),
          same-envelope e,
          text_self (str_append (C.canonical_json (object (envelope_fields e))) "\n"),
        )
        refl

abbrev pub written : Canonical → ReviewQuorumEnvelope → String
written C e = str_append (C.canonical_json (object (envelope_fields e))) "\n"

load-passes :
    (C : Canonical) (e : ReviewQuorumEnvelope)
    → FieldsPass e
    → ltb_ℤ e.minimum_distinct_reviewers (pos 2) ≡ false
    → 1 ≤ length e.reviews
    → e.status ≡ quorum_status e.reviews e.minimum_distinct_reviewers
    → check_reviews e ≡ ok tt
    → check_counts (envelope_fields e) e ≡ ok tt
    → check_canonical C (envelope_fields e) (written C e) e ≡ ok tt
    → load_review_quorum_envelope C (some (envelope_fields e)) (written C e) ≡ ok e
unfolding load_review_quorum_envelope read_envelope check_claims checked_string
load-passes C e p least some_review status reviews counts canonical =
    rw
      (
        read_header-fields e p,
        read_parties-fields e p,
        read_terms-fields e p least some_review status,
        reviews,
        counts,
        canonical,
      )
      refl

-- What `build_review_quorum` returns is read back: where the reviewers' keys are not those of the
-- requester and the dossier, and the texts of the envelope have the forms that the reader wants, its
-- dictionary and its canonical text are accepted, and give the same envelope.
pub load-build :
    (C : Canonical) (spec : ReviewQuorumSpec) (i : QuorumInputs)
    (verified : List (Option QuorumReviewEvidence)) (e : ReviewQuorumEnvelope)
    → All (IsApart i.requester_key_id i.dossier_key_id) verified
    → FieldsPass e
    → build_review_quorum C spec i verified ≡ ok e
    → load_review_quorum_envelope C (some (envelope_fields e)) (written C e) ≡ ok e
load-build C spec i verified e apart p h =
    let minimum = spec.minimum_distinct_reviewers in
    let total = length verified in
    let b = build_review_quorum-Built C spec i verified e apart h in
    let f = envelope_of C i minimum (sort_reviews b.evidence) in
    let count = length-sort_reviews b.evidence ∙ b.collected.count in
    let some_review : 1 ≤ length (sort_reviews b.evidence) = omega (arith, count, b.some_review) in
    let distinct =
      distinct_count-length (key_ids (sort_reviews b.evidence)) (
        DistinctBy-map (λ r. r.reviewer_key_id) (sort_reviews b.evidence)
          (sort_reviews-DistinctBy (λ r. r.reviewer_key_id) b.evidence b.collected.keys))
      ∙ length-map (sort_reviews b.evidence) (λ r. r.reviewer_key_id) in
    subst (λ g. load_review_quorum_envelope C (some (envelope_fields g)) (written C g) ≡ ok g)
      (sym b.is)
      (load-passes C f (subst FieldsPass b.is p) b.least some_review refl
        (check_reviews-built C i minimum total b.evidence b.collected b.parties)
        (check_counts-built C i minimum total b.evidence some_review
          (omega (arith, distinct, some_review)))
        (check_canonical-built C i minimum total b.evidence))
