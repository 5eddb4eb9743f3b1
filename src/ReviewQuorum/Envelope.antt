-- ===== src/ReviewQuorum/Envelope.antt =====
-- experiments/review_quorum.py: `QuorumReviewEvidence`, `ReviewQuorumEnvelope`, the status that a set of
-- reviews has, and the JSON form of an envelope.
use Prim.Native.String.{compare as compare_text}
use Prim.Native.String.{◌++◌ as str_append}
use text.Mathlib.Text.{is_eq, is_lt, is_le}
use llm_arbitrage_system.Base.{
  ℕ, suc, String, Bool, false, not, ◌&&◌, ◌||◌, List, [], ◌∷◌, map, str_eq,
}
use llm_arbitrage_system.Base.Tests.{leb, if◌then◌else◌}
use llm_arbitrage_system.Base.Lists.{length, any, count_if}
use llm_arbitrage_system.Base.Int.{ℤ, pos, ltb_ℤ}
use llm_arbitrage_system.Json.{
  Canonical, Json, bool, int, string, array, object, Items, nil, item, Fields, end, field,
}
use llm_arbitrage_system.Base.Texts.{take_chars}

pub record QuorumReviewEvidence : Type 0 where
  pub record_id : String
  pub record_sha256 : String
  pub reviewer_subject : String
  pub reviewer_key_id : String
  pub decision : String
  pub reviewed_at : String

pub record ReviewQuorumEnvelope : Type 0 where
  pub envelope_id : String
  pub request_id : String
  pub request_sha256 : String
  pub requester_key_id : String
  pub dossier_id : String
  pub dossier_sha256 : String
  pub dossier_key_id : String
  pub requested_candidate_id : String
  pub minimum_distinct_reviewers : ℤ
  pub status : String
  pub reviews : List QuorumReviewEvidence

-- `_SCOPE`
abbrev pub quorum_scope : String
quorum_scope = "research_review_only"

-- `len` of a set of texts
abbrev pub distinct_count : List String → ℕ
distinct_count [] = 0
distinct_count (x ∷ xs) =
    if any (λ y. str_eq y x) xs then distinct_count xs else suc (distinct_count xs)

abbrev pub key_ids : List QuorumReviewEvidence → List String
key_ids = map (λ r. r.reviewer_key_id)

abbrev pub decides : String → QuorumReviewEvidence → Bool
decides decision r = str_eq r.decision decision

-- the set of decisions has one member, "approve_research_only"
abbrev pub all_approve : List QuorumReviewEvidence → Bool
all_approve reviews =
    leb 1 (length reviews) && not (any (λ r. not (decides "approve_research_only" r)) reviews)

-- `_quorum_status`
unfoldable pub quorum_status : List QuorumReviewEvidence → ℤ → String
quorum_status reviews minimum =
    if any (decides "reject") reviews
    then "rejected"
    else if any (decides "defer") reviews
    then "deferred"
    else if all_approve reviews && not (ltb_ℤ (pos (distinct_count (key_ids reviews))) minimum)
    then "approved_for_research_only"
    else "blocked"

-- `_decision_counts`
abbrev pub decision_counts : List QuorumReviewEvidence → Json
decision_counts reviews = object (
    field "approve_research_only" (int (pos (count_if (decides "approve_research_only") reviews))) (
      field "defer" (int (pos (count_if (decides "defer") reviews)))
        (field "reject" (int (pos (count_if (decides "reject") reviews))) end)))

-- `QuorumReviewEvidence.as_dict`
abbrev pub evidence_json : QuorumReviewEvidence → Json
evidence_json r = object (
    field "record_id" (string r.record_id) (
      field "record_sha256" (string r.record_sha256) (
        field "reviewer_subject" (string r.reviewer_subject) (
          field "reviewer_key_id" (string r.reviewer_key_id) (
            field "decision" (string r.decision)
              (field "reviewed_at" (string r.reviewed_at) end))))))

abbrev pub reviews_json : List QuorumReviewEvidence → Items
reviews_json [] = nil
reviews_json (r ∷ reviews) = item (evidence_json r) (reviews_json reviews)

abbrev pub request_json : ReviewQuorumEnvelope → Json
request_json e = object (
    field "request_id" (string e.request_id) (
      field "canonical_sha256" (string e.request_sha256)
        (field "requester_key_id" (string e.requester_key_id) end)))

abbrev pub dossier_json : ReviewQuorumEnvelope → Json
dossier_json e = object (
    field "dossier_id" (string e.dossier_id) (
      field "sha256" (string e.dossier_sha256)
        (field "dossier_key_id" (string e.dossier_key_id) end)))

abbrev pub assumptions : Items
assumptions =
    item
      (string
        "Reject is a veto; otherwise defer is a hold; only an all-approve set meeting the declared distinct-reviewer minimum can become approved_for_research_only.")
      (item
        (string
          "Approved_for_research_only authorizes only further offline human-supervised research and never release, deployment, or trading.")
        (item
          (string
            "Cryptographic key separation does not prove legal identity or organizational independence.")
          nil))

abbrev pub evidence_boundary : String
evidence_boundary =
    "This envelope binds independently signed research-review records to one signed request and one signed offline dossier. It does not prove source-market truth, causal alpha, future profitability, legal approval, release readiness, deployment authority, or live-trading authority."

-- `ReviewQuorumEnvelope.as_dict`
abbrev pub envelope_fields : ReviewQuorumEnvelope → Fields
envelope_fields e = field "schema_version" (int (pos 1)) (
    field "envelope_id" (string e.envelope_id) (
      field "scope" (string quorum_scope) (
        field "request" (request_json e) (
          field "dossier" (dossier_json e) (
            field "requested_candidate_id" (string e.requested_candidate_id) (
              field "minimum_distinct_reviewers" (int e.minimum_distinct_reviewers) (
                field "review_count" (int (pos (length e.reviews))) (
                  field "distinct_reviewer_count" (int (pos (distinct_count (key_ids e.reviews)))) (
                    field "decision_counts" (decision_counts e.reviews) (
                      field "status" (string e.status) (
                        field "reviews" (array (reviews_json e.reviews)) (
                          field "deployment_authorized" (bool false) (
                            field "trading_authorized" (bool false) (
                              field "release_authorized" (bool false) (
                                field "assumptions" (array assumptions) (
                                  field "evidence_boundary" (string evidence_boundary)
                                    end))))))))))))))))

-- The dictionary that the envelope's id is the hash of.
abbrev pub identity_json : ReviewQuorumEnvelope → Json
identity_json e = object (
    field "schema_version" (int (pos 1)) (
      field "scope" (string quorum_scope) (
        field "request" (request_json e) (
          field "dossier" (dossier_json e) (
            field "requested_candidate_id" (string e.requested_candidate_id) (
              field "minimum_distinct_reviewers" (int e.minimum_distinct_reviewers) (
                field "status" (string e.status) (
                  field "reviews" (array (reviews_json e.reviews)) (
                    field "deployment_authorized" (bool false) (
                      field "trading_authorized" (bool false)
                        (field "release_authorized" (bool false) end)))))))))))

abbrev pub expected_id : Canonical → ReviewQuorumEnvelope → String
expected_id C e =
    str_append "review-quorum-" (take_chars 40 (C.sha256_hex (C.canonical_json (identity_json e))))

-- the order of `sorted` by `(reviewer_key_id, record_id)`
abbrev pub in_order : QuorumReviewEvidence → QuorumReviewEvidence → Bool
in_order a b =
    let keys = compare_text a.reviewer_key_id b.reviewer_key_id in
    is_lt keys || (is_eq keys && is_le (compare_text a.record_id b.record_id))

abbrev pub insert_review :
    QuorumReviewEvidence → List QuorumReviewEvidence → List QuorumReviewEvidence
insert_review r [] = r ∷ []
insert_review r (x ∷ xs) = if in_order r x then r ∷ x ∷ xs else x ∷ insert_review r xs

abbrev pub sort_reviews : List QuorumReviewEvidence → List QuorumReviewEvidence
sort_reviews [] = []
sort_reviews (r ∷ reviews) = insert_review r (sort_reviews reviews)
