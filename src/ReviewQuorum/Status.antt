-- ===== src/ReviewQuorum/Status.antt =====
-- What the status of a set of reviews says about them.
use llm_arbitrage_system.Base.{
  ℕ, ◌≤◌, String, ◌≡◌, ◌↔◌, refl, sym, ◌∙◌, Bool, true, false, not, ◌&&◌, List, [], ◌∷◌, str_eq,
  eq_iff, arith, some,
}
use llm_arbitrage_system.Base.Tests.{if◌then◌else◌, leb}
use llm_arbitrage_system.Base.Lists.{length, any, All, length-map}
use llm_arbitrage_system.Base.Int.{ℤ, pos, ◌≤ℤ◌, ltb_ℤ}
use llm_arbitrage_system.Json.{Canonical}
use llm_arbitrage_system.ReviewQuorum.Envelope.{
  ReviewQuorumEnvelope, QuorumReviewEvidence, key_ids, decides, all_approve, distinct_count,
  quorum_status,
}
use llm_arbitrage_system.ReviewQuorum.Load.{load_review_quorum_envelope}
use llm_arbitrage_system.ReviewQuorum.Accepted.{load-Accepted}
use llm_arbitrage_system.Base.Result.{ok}
use llm_arbitrage_system.Json.{Fields}
use llm_arbitrage_system.ReviewQuorum.Distinct.{IsDistinctList, distinct_count-length}

-- At least the minimum of reviews, all of them by distinct keys and all approving.
abbrev pub Approved : List QuorumReviewEvidence → ℤ → Type 0
Approved reviews minimum =
    All (λ r. r.decision ≡ "approve_research_only") reviews
    × (1 ≤ length reviews)
    × (minimum ≤ℤ pos (length reviews))

any-All :
    (reviews : List QuorumReviewEvidence)
    → any (λ r. not (decides "approve_research_only" r)) reviews ≡ false
    → All (λ r. r.decision ≡ "approve_research_only") reviews
any-All [] h = tt
any-All (r ∷ reviews) h =
    ((eq_iff r.decision "approve_research_only").0 (ground arith), any-All reviews (ground arith))

All-any :
    (reviews : List QuorumReviewEvidence)
    → All (λ r. r.decision ≡ "approve_research_only") reviews
    → any (λ r. not (decides "approve_research_only" r)) reviews ≡ false
All-any [] all = refl
All-any (r ∷ reviews) (approves, all) = rw (approves, All-any reviews all) refl

none-decides :
    (reviews : List QuorumReviewEvidence) (decision : String)
    → str_eq "approve_research_only" decision ≡ false
    → All (λ r. r.decision ≡ "approve_research_only") reviews
    → any (decides decision) reviews ≡ false
none-decides [] decision other all = refl
none-decides (r ∷ reviews) decision other (approves, all) =
    rw (approves, other, none-decides reviews decision other all) refl

abbrev status_text : Bool → Bool → Bool → String
status_text rejects defers approves =
    if rejects
    then "rejected"
    else if defers
    then "deferred"
    else if approves
    then "approved_for_research_only"
    else "blocked"

approved_text :
    (rejects defers approves : Bool)
    → status_text rejects defers approves ≡ "approved_for_research_only"
    → (rejects ≡ false) × (defers ≡ false) × (approves ≡ true)
approved_text true d a h = absurd (cc)
approved_text false true a h = absurd (cc)
approved_text false false true h = (refl, refl, refl)
approved_text false false false h = absurd (cc)

count-pos :
    (count total : ℕ) (minimum : ℤ)
    → count ≡ total
    → ltb_ℤ (pos count) minimum ≡ false
    → minimum ≤ℤ pos total
count-pos count total minimum same h = ground arith

pos-count :
    (count total : ℕ) (minimum : ℤ)
    → count ≡ total
    → minimum ≤ℤ pos total
    → ltb_ℤ (pos count) minimum ≡ false
pos-count count total minimum same h = ground arith

some-leb : (n : ℕ) → 1 ≤ n → leb 1 n ≡ true
some-leb n h = ground arith

distinct-reviews :
    (reviews : List QuorumReviewEvidence)
    → IsDistinctList (key_ids reviews)
    → distinct_count (key_ids reviews) ≡ length reviews
distinct-reviews reviews distinct =
    distinct_count-length (key_ids reviews) distinct ∙ length-map reviews (λ r. r.reviewer_key_id)

-- Where no two reviews have the same key, the status is "approved_for_research_only" exactly for at
-- least one review, at least the minimum of them, and all of them approving.
pub quorum_status-Approved :
    (reviews : List QuorumReviewEvidence) (minimum : ℤ)
    → IsDistinctList (key_ids reviews)
    → (quorum_status reviews minimum ≡ "approved_for_research_only") ↔ Approved reviews minimum
unfolding quorum_status
quorum_status-Approved reviews minimum distinct =
    let count = distinct-reviews reviews distinct in
    (
      (λ h.
          let (_, _, approves) =
            approved_text (any (decides "reject") reviews) (any (decides "defer") reviews)
              (all_approve reviews && not (ltb_ℤ (pos (distinct_count (key_ids reviews))) minimum))
              h in
          (
            any-All reviews (ground (arith, approves)),
            ground (arith, approves),
            count-pos (distinct_count (key_ids reviews)) (length reviews) minimum count
                (ground (arith, approves)),
          )),
      (λ approved.
          let (all, some_review, enough) = approved in
          rw
            (
              none-decides reviews "reject" refl all,
              none-decides reviews "defer" refl all,
              All-any reviews all,
              some-leb (length reviews) some_review,
              pos-count (distinct_count (key_ids reviews)) (length reviews) minimum count enough,
            )
            refl),
    )

two-of : (n : ℕ) (minimum : ℤ) → ltb_ℤ minimum (pos 2) ≡ false → minimum ≤ℤ pos n → 2 ≤ n
two-of n minimum least enough = ground arith

-- A file that is accepted with the status "approved_for_research_only" holds at least two reviews,
-- and at least as many as it declares as the minimum; no two of them are signed by the same key, and
-- all of them approve.
pub load-Approved :
    (C : Canonical) (payload : Fields) (source : String) (e : ReviewQuorumEnvelope)
    → load_review_quorum_envelope C (some payload) source ≡ ok e
    → e.status ≡ "approved_for_research_only"
    → Approved e.reviews e.minimum_distinct_reviewers
      × (2 ≤ length e.reviews)
      × IsDistinctList (key_ids e.reviews)
load-Approved C payload source e h approved =
    let accepted = load-Accepted C payload source e h in
    let keys = accepted.separate.keys in
    let reviews =
      (quorum_status-Approved e.reviews e.minimum_distinct_reviewers keys).0
        (sym accepted.status ∙ approved) in
    (
      reviews,
      two-of (length e.reviews) e.minimum_distinct_reviewers accepted.minimum reviews.2,
      keys,
    )
