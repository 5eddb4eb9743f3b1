-- ===== src/ReviewQuorum/Reread.antt =====
-- The fields of an envelope, written and read again.
use llm_arbitrage_system.Base.{
  ℕ, ◌≤◌, String, ◌≡◌, refl, sym, subst, inl, inr, true, false, not, ◌&&◌, some, List, [], ◌∷◌,
  arith,
}
use llm_arbitrage_system.Base.Tests.{Bool-cases}
use llm_arbitrage_system.Base.Lists.{length, any, All}
use llm_arbitrage_system.Base.Int.{ℤ, pos, ltb_ℤ}
use llm_arbitrage_system.Base.Result.{ok}
use llm_arbitrage_system.Json.{int, string, array}
use llm_arbitrage_system.ReviewQuorum.Parsing.{
  checked_string, checked_integer, checked_object, checked_identifier, digest_value, checked_key_id,
  checked_candidate_id, require_fields,
}
use llm_arbitrage_system.ReviewQuorum.Envelope.{
  QuorumReviewEvidence, ReviewQuorumEnvelope, evidence_json, reviews_json, key_ids, distinct_count,
  quorum_status, envelope_fields, decides, all_approve,
}
use llm_arbitrage_system.ReviewQuorum.Reading.{
  is_one_of, statuses, listed, review_evidence, review_list, read_header, read_parties, read_terms,
}

pub pos-least : (n : ℕ) → 1 ≤ n → ltb_ℤ (pos n) (pos 1) ≡ false
pos-least n h = ground arith

-- The texts of an envelope have the forms that the reader wants.
pub record FieldsPass (e : ReviewQuorumEnvelope) : Type 0 where
  pub id :
      checked_identifier (some (string e.envelope_id)) "review-quorum-" "envelope_id"
      ≡ ok e.envelope_id
  pub request_id :
      checked_identifier (some (string e.request_id)) "decision-request-" "request_id"
      ≡ ok e.request_id
  pub request_sha256 :
      digest_value (some (string e.request_sha256)) "canonical_sha256" ≡ ok e.request_sha256
  pub requester :
      checked_key_id (some (string e.requester_key_id)) "requester_key_id" ≡ ok e.requester_key_id
  pub dossier_id :
      checked_identifier (some (string e.dossier_id)) "selection-dossier-" "dossier_id"
      ≡ ok e.dossier_id
  pub dossier_sha256 : digest_value (some (string e.dossier_sha256)) "sha256" ≡ ok e.dossier_sha256
  pub dossier :
      checked_key_id (some (string e.dossier_key_id)) "dossier_key_id" ≡ ok e.dossier_key_id
  pub named :
      checked_string (some (string e.requested_candidate_id)) "requested_candidate_id"
      ≡ ok e.requested_candidate_id
  pub candidate : checked_candidate_id e.requested_candidate_id ≡ ok e.requested_candidate_id
  pub reviews : All (λ r. review_evidence (evidence_json r) ≡ ok r) e.reviews

pub review_list-json :
    (reviews : List QuorumReviewEvidence)
    → All (λ r. review_evidence (evidence_json r) ≡ ok r) reviews
    → review_list (reviews_json reviews) ≡ ok reviews
unfolding review_list
review_list-json [] all = refl
review_list-json (r ∷ reviews) (passes, all) = rw (passes, review_list-json reviews all) refl

pub read_header-fields :
    (e : ReviewQuorumEnvelope) → FieldsPass e → read_header (envelope_fields e) ≡ ok e.envelope_id
unfolding read_header checked_string
read_header-fields e p = rw p.id refl

pub read_parties-fields :
    (e : ReviewQuorumEnvelope)
    → FieldsPass e
    → read_parties (envelope_fields e)
      ≡ ok (record {
        request_id = e.request_id;
        request_sha256 = e.request_sha256;
        requester_key_id = e.requester_key_id;
        dossier_id = e.dossier_id;
        dossier_sha256 = e.dossier_sha256;
        dossier_key_id = e.dossier_key_id;
      })
unfolding read_parties checked_object require_fields
read_parties-fields e p =
    rw (p.request_id, p.request_sha256, p.requester, p.dossier_id, p.dossier_sha256, p.dossier) refl

pub listed-json :
    (reviews : List QuorumReviewEvidence)
    → 1 ≤ length reviews
    → listed (some (array (reviews_json reviews))) ≡ ok (reviews_json reviews)
listed-json [] h = absurd (omega (arith, h))
listed-json (r ∷ reviews) h = refl

-- The status is one of the four texts.
pub quorum_status-passes :
    (reviews : List QuorumReviewEvidence) (minimum : ℤ)
    → (checked_string (some (string (quorum_status reviews minimum))) "status"
        ≡ ok (quorum_status reviews minimum))
      × (is_one_of statuses (quorum_status reviews minimum) ≡ true)
unfolding quorum_status checked_string
quorum_status-passes reviews minimum =
    let enough = not (ltb_ℤ (pos (distinct_count (key_ids reviews))) minimum) in
    elim (Bool-cases (any (decides "reject") reviews)) [
      | inl r ↦ rw r (refl, refl)
      | inr r ↦ elim (Bool-cases (any (decides "defer") reviews)) [
        | inl d ↦ rw (r, d) (refl, refl)
        | inr d ↦ elim (Bool-cases (all_approve reviews && enough)) [
          | inl a ↦ rw (r, d, a) (refl, refl)
          | inr a ↦ rw (r, d, a) (refl, refl)
        ]
      ]
    ]

pub checked_integer-least :
    (n minimum : ℤ) (name : String)
    → ltb_ℤ n minimum ≡ false
    → checked_integer (some (int n)) name minimum ≡ ok n
unfolding checked_integer
checked_integer-least n minimum name h = rw h refl

pub read_terms-fields :
    (e : ReviewQuorumEnvelope)
    → FieldsPass e
    → ltb_ℤ e.minimum_distinct_reviewers (pos 2) ≡ false
    → 1 ≤ length e.reviews
    → e.status ≡ quorum_status e.reviews e.minimum_distinct_reviewers
    → read_terms (envelope_fields e)
      ≡ ok (record {
        requested_candidate_id = e.requested_candidate_id;
        minimum_distinct_reviewers = e.minimum_distinct_reviewers;
        status = e.status;
        reviews = e.reviews;
      })
unfolding read_terms
read_terms-fields e p least some_review status =
    let (text, one) = quorum_status-passes e.reviews e.minimum_distinct_reviewers in
    let text' = subst (λ s. checked_string (some (string s)) "status" ≡ ok s) (sym status) text in
    let one' = subst (λ s. is_one_of statuses s ≡ true) (sym status) one in
    rw
      (
        p.named,
        p.candidate,
        checked_integer-least e.minimum_distinct_reviewers (pos 2) "minimum_distinct_reviewers"
            least,
        text',
        one',
        listed-json e.reviews some_review,
        review_list-json e.reviews p.reviews,
      )
      refl
