-- ===== src/ReviewQuorum/Tests.antt =====
-- Two reviewers who approve, in the order in which their files are listed.
use llm_arbitrage_system.Base.{◌≡◌, refl, false, Option, some, List, [], ◌∷◌, ◌≤◌}
use llm_arbitrage_system.Base.Lists.{length}
use llm_arbitrage_system.Base.Int.{pos}
use llm_arbitrage_system.Base.Result.{ok}
use llm_arbitrage_system.ReviewQuorum.Parsing.{
  checked_string, checked_object, checked_identifier, digest_value, checked_key_id,
  checked_candidate_id,
}
use llm_arbitrage_system.Json.{Canonical}
use llm_arbitrage_system.ReviewQuorum.Envelope.{
  QuorumReviewEvidence, ReviewQuorumEnvelope, key_ids, quorum_status, sort_reviews, envelope_fields,
}
use llm_arbitrage_system.ReviewQuorum.Build.{
  ReviewQuorumSpec, check_spec, QuorumInputs, check_inputs, collect_evidence, envelope_of,
  build_review_quorum,
}
use llm_arbitrage_system.ReviewQuorum.Reading.{review_evidence}
use llm_arbitrage_system.ReviewQuorum.Load.{load_review_quorum_envelope}
use llm_arbitrage_system.ReviewQuorum.Distinct.{IsDistinctList}
use llm_arbitrage_system.ReviewQuorum.Accepted.{Accepted, load-Accepted}
use llm_arbitrage_system.ReviewQuorum.Status.{Approved, load-Approved}
use llm_arbitrage_system.ReviewQuorum.Reread.{FieldsPass}
use llm_arbitrage_system.ReviewQuorum.RoundTrip.{written, load-build}

-- A hash that is the same for every text.
abbrev canonical : Canonical
canonical = record {
  canonical_json = λ v. "{}";
  sha256_hex = λ s. "eeeeeeeeeeeeeeeeeeeeeeeeeeeeeeeeeeeeeeeeeeeeeeeeeeeeeeeeeeeeeeee";
}

abbrev first_review : QuorumReviewEvidence
first_review = record {
  record_id = "review-record-bbbbbbbbbbbbbbbbbbbbbbbbbbbbbbbbbbbbbbbb";
  record_sha256 = "bbbbbbbbbbbbbbbbbbbbbbbbbbbbbbbbbbbbbbbbbbbbbbbbbbbbbbbbbbbbbbbb";
  reviewer_subject = "reviewer b";
  reviewer_key_id = "ed25519-bbbbbbbbbbbbbbbbbbbbbbbbbbbbbbbb";
  decision = "approve_research_only";
  reviewed_at = "2026-01-01T00:00:00.000000Z";
}

abbrev second_review : QuorumReviewEvidence
second_review = record {
  record_id = "review-record-aaaaaaaaaaaaaaaaaaaaaaaaaaaaaaaaaaaaaaaa";
  record_sha256 = "aaaaaaaaaaaaaaaaaaaaaaaaaaaaaaaaaaaaaaaaaaaaaaaaaaaaaaaaaaaaaaaa";
  reviewer_subject = "reviewer a";
  reviewer_key_id = "ed25519-aaaaaaaaaaaaaaaaaaaaaaaaaaaaaaaa";
  decision = "approve_research_only";
  reviewed_at = "2026-01-01T00:00:00.000000Z";
}

abbrev reviews : List QuorumReviewEvidence
reviews = sort_reviews (first_review ∷ second_review ∷ [])

abbrev inputs : QuorumInputs
inputs = record {
  request_id = "decision-request-cccccccccccccccccccccccccccccccccccccccc";
  request_sha256 = "cccccccccccccccccccccccccccccccccccccccccccccccccccccccccccccccc";
  requester_key_id = "ed25519-cccccccccccccccccccccccccccccccc";
  request_dossier_id = "selection-dossier-dddddddddddddddddddddddddddddddddddddddd";
  request_dossier_sha256 = "dddddddddddddddddddddddddddddddddddddddddddddddddddddddddddddddd";
  requested_candidate_id = "candidate-1";
  dossier_id = "selection-dossier-dddddddddddddddddddddddddddddddddddddddd";
  dossier_sha256 = "dddddddddddddddddddddddddddddddddddddddddddddddddddddddddddddddd";
  dossier_key_id = "ed25519-dddddddddddddddddddddddddddddddd";
  eligible_candidate_ids = "candidate-1" ∷ [];
  blocked_candidate_ids = [];
}

abbrev spec : ReviewQuorumSpec
spec = record {
  minimum_distinct_reviewers = pos 2;
  scope = "research_review_only";
  deployment_authorized = false;
  trading_authorized = false;
  release_authorized = false;
}

abbrev verified : List (Option QuorumReviewEvidence)
verified = some first_review ∷ some second_review ∷ []

abbrev envelope : ReviewQuorumEnvelope
envelope = envelope_of canonical inputs (pos 2) reviews

envelope_built : build_review_quorum canonical spec inputs verified ≡ ok envelope
unfolding build_review_quorum check_spec check_inputs collect_evidence
envelope_built = refl

approved : envelope.status ≡ "approved_for_research_only"
unfolding quorum_status
approved = refl

envelope-FieldsPass : FieldsPass envelope
unfolding checked_string checked_object checked_identifier digest_value checked_key_id
    checked_candidate_id review_evidence
envelope-FieldsPass = record {
  id = refl;
  request_id = refl;
  request_sha256 = refl;
  requester = refl;
  dossier_id = refl;
  dossier_sha256 = refl;
  dossier = refl;
  named = refl;
  candidate = refl;
  reviews = (refl, (refl, tt));
}

load-build_example :
    load_review_quorum_envelope canonical
      (some (envelope_fields envelope))
      (written canonical envelope)
    ≡ ok envelope
load-build_example =
    load-build canonical spec inputs verified envelope (refl, (refl, tt)) envelope-FieldsPass
      envelope_built

load-Accepted_example :
    Accepted canonical (envelope_fields envelope) (written canonical envelope) envelope
load-Accepted_example =
    load-Accepted canonical (envelope_fields envelope) (written canonical envelope) envelope
      load-build_example

load-Approved_example :
    Approved envelope.reviews (pos 2) × (2 ≤ length reviews) × IsDistinctList (key_ids reviews)
load-Approved_example =
    load-Approved canonical (envelope_fields envelope) (written canonical envelope) envelope
      load-build_example approved
