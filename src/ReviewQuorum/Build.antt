-- ===== src/ReviewQuorum/Build.antt =====
-- experiments/review_quorum.py: `ReviewQuorumSpec` and `build_review_quorum`. What the loaders and the
-- verifiers of signatures return for the files of the inputs is an argument.
use llm_arbitrage_system.Base.{ℕ, String, Bool, not, ◌||◌, Option, List, [], ◌∷◌, ◌++◌, str_eq}
use llm_arbitrage_system.Base.Tests.{ltb}
use llm_arbitrage_system.Base.Lists.{length, any}
use llm_arbitrage_system.Base.Int.{ℤ, pos, ltb_ℤ}
use llm_arbitrage_system.Base.Result.{ok, raise_if, or_raise, ◌>>=◌, ◌>>◌}
use llm_arbitrage_system.ReviewQuorum.Parsing.{
  invalid_field, mismatch, not_eligible, blocked_candidate, same_keys, duplicate_record,
  duplicate_key, duplicate_subject, unverified_review, Checked,
}
use llm_arbitrage_system.Json.{Canonical}
use llm_arbitrage_system.ReviewQuorum.Envelope.{
  QuorumReviewEvidence, ReviewQuorumEnvelope, quorum_scope, quorum_status, expected_id,
  sort_reviews,
}

-- `ReviewQuorumSpec`, without the paths
pub record ReviewQuorumSpec : Type 0 where
  pub minimum_distinct_reviewers : ℤ
  pub scope : String
  pub deployment_authorized : Bool
  pub trading_authorized : Bool
  pub release_authorized : Bool

-- `ReviewQuorumSpec.__post_init__`; of the reviews it reads only how many they are
unfoldable pub check_spec : ReviewQuorumSpec → ℕ → Checked (Unit {0})
check_spec spec review_count = do
  raise_if
      (ltb_ℤ spec.minimum_distinct_reviewers (pos 2)
        || ltb_ℤ (pos 64) spec.minimum_distinct_reviewers)
      (invalid_field "minimum_distinct_reviewers")
  raise_if (ltb review_count 1 || ltb 64 review_count) (invalid_field "reviews")
  raise_if (not (str_eq spec.scope quorum_scope)) (invalid_field "scope")
  raise_if spec.deployment_authorized (invalid_field "deployment_authorized")
  raise_if spec.trading_authorized (invalid_field "trading_authorized")
  raise_if spec.release_authorized (invalid_field "release_authorized")

-- What `build_review_quorum` reads of the loaded request and dossier, and of their attestations.
pub record QuorumInputs : Type 0 where
  pub request_id : String
  pub request_sha256 : String
  pub requester_key_id : String
  pub request_dossier_id : String
  pub request_dossier_sha256 : String
  pub requested_candidate_id : String
  pub dossier_id : String
  pub dossier_sha256 : String
  pub dossier_key_id : String
  pub eligible_candidate_ids : List String
  pub blocked_candidate_ids : List String

abbrev pub contains_text : String → List String → Bool
contains_text x = any (λ y. str_eq y x)

-- The checks before the reviews are read.
unfoldable pub check_inputs : QuorumInputs → Checked (Unit {0})
check_inputs i = do
  raise_if (not (str_eq i.request_dossier_id i.dossier_id)) (mismatch "dossier_id")
  raise_if (not (str_eq i.request_dossier_sha256 i.dossier_sha256)) (mismatch "dossier hash")
  raise_if (not (contains_text i.requested_candidate_id i.eligible_candidate_ids)) not_eligible
  raise_if (contains_text i.requested_candidate_id i.blocked_candidate_ids) blocked_candidate
  raise_if (str_eq i.requester_key_id i.dossier_key_id) same_keys

-- The loop over the reviews, with what it has appended so far; its three sets hold the record ids,
-- the keys and the subjects of that. A review that does not verify or load is `none`.
unfoldable pub collect_evidence :
    List (Option QuorumReviewEvidence)
    → List QuorumReviewEvidence
    → Checked (List QuorumReviewEvidence)
collect_evidence [] evidence = ok evidence
collect_evidence (verified ∷ rest) evidence = do
  r ← or_raise verified unverified_review
  raise_if (any (λ e. str_eq e.record_id r.record_id) evidence) duplicate_record
  raise_if (any (λ e. str_eq e.reviewer_key_id r.reviewer_key_id) evidence) duplicate_key
  raise_if (any (λ e. str_eq e.reviewer_subject r.reviewer_subject) evidence) duplicate_subject
  collect_evidence rest (evidence ++ r ∷ [])

abbrev pub named_envelope :
    QuorumInputs → ℤ → List QuorumReviewEvidence → String → ReviewQuorumEnvelope
named_envelope i minimum reviews id = record {
  envelope_id = id;
  request_id = i.request_id;
  request_sha256 = i.request_sha256;
  requester_key_id = i.requester_key_id;
  dossier_id = i.dossier_id;
  dossier_sha256 = i.dossier_sha256;
  dossier_key_id = i.dossier_key_id;
  requested_candidate_id = i.requested_candidate_id;
  minimum_distinct_reviewers = minimum;
  status = quorum_status reviews minimum;
  reviews = reviews;
}

-- The id is the hash of the other fields.
abbrev pub envelope_of :
    Canonical → QuorumInputs → ℤ → List QuorumReviewEvidence → ReviewQuorumEnvelope
envelope_of C i minimum reviews =
    named_envelope i minimum reviews (expected_id C (named_envelope i minimum reviews ""))

unfoldable pub build_review_quorum :
    Canonical
    → ReviewQuorumSpec
    → QuorumInputs
    → List (Option QuorumReviewEvidence)
    → Checked ReviewQuorumEnvelope
unfolding check_spec check_inputs collect_evidence
build_review_quorum C spec i verified = do
  check_spec spec (length verified)
  check_inputs i
  evidence ← collect_evidence verified []
  ok (envelope_of C i spec.minimum_distinct_reviewers (sort_reviews evidence))
