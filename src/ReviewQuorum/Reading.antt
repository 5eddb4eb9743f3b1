-- ===== src/ReviewQuorum/Reading.antt =====
-- experiments/review_quorum.py: what `load_review_quorum_envelope` reads from the object of a file, field
-- by field, before its first check of the reviews together.
use llm_arbitrage_system.Base.{String, Bool, false, not, Option, some, List, [], ◌∷◌, str_eq}
use llm_arbitrage_system.Base.Lists.{any}
use llm_arbitrage_system.Base.Int.{ℤ, pos}
use llm_arbitrage_system.Base.Result.{ok, err, raise_if, ◌>>=◌, ◌>>◌}
use llm_arbitrage_system.Json.{Json, int, array, Items, nil, item, Fields, get_field, same_int}
use llm_arbitrage_system.ReviewQuorum.Parsing.{
  invalid_field, invalid_fields, Checked, checked_string, checked_integer, checked_object,
  checked_identifier, digest_value, checked_key_id, checked_candidate_id, same_keys_as,
  require_fields,
}
use llm_arbitrage_system.ReviewQuorum.Envelope.{
  QuorumReviewEvidence, ReviewQuorumEnvelope, quorum_scope,
}

abbrev pub review_fields : List String
review_fields =
    "record_id" ∷ "record_sha256" ∷ "reviewer_subject" ∷ "reviewer_key_id" ∷ "decision"
    ∷ "reviewed_at" ∷ []

abbrev pub envelope_field_names : List String
envelope_field_names =
    "schema_version" ∷ "envelope_id" ∷ "scope" ∷ "request" ∷ "dossier" ∷ "requested_candidate_id"
    ∷ "minimum_distinct_reviewers" ∷ "review_count" ∷ "distinct_reviewer_count" ∷ "decision_counts"
    ∷ "status" ∷ "reviews" ∷ "deployment_authorized" ∷ "trading_authorized" ∷ "release_authorized"
    ∷ "assumptions" ∷ "evidence_boundary" ∷ []

abbrev pub is_one_of : List String → String → Bool
is_one_of options value = any (λ o. str_eq o value) options

-- `_review_evidence`
unfoldable pub review_evidence : Json → Checked QuorumReviewEvidence
unfolding checked_object checked_string checked_identifier digest_value checked_key_id
review_evidence value = do
  payload ← checked_object (some value) "evidence"
  raise_if (not (same_keys_as review_fields payload)) (invalid_fields "evidence")
  decision ← checked_string (get_field "decision" payload) "decision"
  raise_if (not (is_one_of ("approve_research_only" ∷ "defer" ∷ "reject" ∷ []) decision))
      (invalid_field "decision")
  record_id ← checked_identifier (get_field "record_id" payload) "review-record-" "record_id"
  record_sha256 ← digest_value (get_field "record_sha256" payload) "record_sha256"
  reviewer_subject ← checked_string (get_field "reviewer_subject" payload) "reviewer_subject"
  reviewer_key_id ← checked_key_id (get_field "reviewer_key_id" payload) "reviewer_key_id"
  reviewed_at ← checked_string (get_field "reviewed_at" payload) "reviewed_at"
  ok (record {
    record_id = record_id;
    record_sha256 = record_sha256;
    reviewer_subject = reviewer_subject;
    reviewer_key_id = reviewer_key_id;
    decision = decision;
    reviewed_at = reviewed_at;
  })

unfoldable pub review_list : Items → Checked (List QuorumReviewEvidence)
unfolding review_evidence
review_list nil = ok []
review_list (item value items) = do
  review ← review_evidence value
  reviews ← review_list items
  ok (review ∷ reviews)

-- a list that is not empty
abbrev pub listed : Option Json → Checked Items
listed (some (array (item value items))) = ok (item value items)
listed _ = err (invalid_field "reviews")

-- `schema_version` is the integer 1, and not a Boolean.
abbrev pub is_version : Option Json → Bool
is_version (some (int version)) = same_int version (pos 1)
is_version _ = false

-- The fields up to the scope; the id is the value.
unfoldable pub read_header : Fields → Checked String
unfolding checked_string checked_identifier
read_header payload = do
  raise_if (not (same_keys_as envelope_field_names payload)) (invalid_fields "envelope")
  raise_if (not (is_version (get_field "schema_version" payload))) (invalid_field "schema_version")
  envelope_id ← checked_identifier (get_field "envelope_id" payload) "review-quorum-" "envelope_id"
  scope ← checked_string (get_field "scope" payload) "scope"
  raise_if (not (str_eq scope quorum_scope)) (invalid_field "scope")
  ok envelope_id

-- The request and the dossier, each with the key that signed it.
pub record Parties : Type 0 where
  pub request_id : String
  pub request_sha256 : String
  pub requester_key_id : String
  pub dossier_id : String
  pub dossier_sha256 : String
  pub dossier_key_id : String

unfoldable pub read_parties : Fields → Checked Parties
unfolding checked_object checked_identifier digest_value checked_key_id require_fields
read_parties payload = do
  request ← checked_object (get_field "request" payload) "request"
  dossier ← checked_object (get_field "dossier" payload) "dossier"
  require_fields "request" request ("request_id" ∷ "canonical_sha256" ∷ "requester_key_id" ∷ [])
  require_fields "dossier" dossier ("dossier_id" ∷ "sha256" ∷ "dossier_key_id" ∷ [])
  request_id ← checked_identifier (get_field "request_id" request) "decision-request-" "request_id"
  request_sha256 ← digest_value (get_field "canonical_sha256" request) "canonical_sha256"
  requester_key ← checked_key_id (get_field "requester_key_id" request) "requester_key_id"
  dossier_id ← checked_identifier (get_field "dossier_id" dossier) "selection-dossier-" "dossier_id"
  dossier_sha256 ← digest_value (get_field "sha256" dossier) "sha256"
  dossier_key ← checked_key_id (get_field "dossier_key_id" dossier) "dossier_key_id"
  ok (record {
    request_id = request_id;
    request_sha256 = request_sha256;
    requester_key_id = requester_key;
    dossier_id = dossier_id;
    dossier_sha256 = dossier_sha256;
    dossier_key_id = dossier_key;
  })

-- What is requested, what it takes, the status and the reviews.
pub record Terms : Type 0 where
  pub requested_candidate_id : String
  pub minimum_distinct_reviewers : ℤ
  pub status : String
  pub reviews : List QuorumReviewEvidence

abbrev pub statuses : List String
statuses = "approved_for_research_only" ∷ "blocked" ∷ "deferred" ∷ "rejected" ∷ []

unfoldable pub read_terms : Fields → Checked Terms
unfolding checked_string checked_integer checked_candidate_id review_list
read_terms payload = do
  named ← checked_string (get_field "requested_candidate_id" payload) "requested_candidate_id"
  candidate_id ← checked_candidate_id named
  minimum ←
      checked_integer (get_field "minimum_distinct_reviewers" payload) "minimum_distinct_reviewers"
        (pos 2)
  status ← checked_string (get_field "status" payload) "status"
  raise_if (not (is_one_of statuses status)) (invalid_field "status")
  items ← listed (get_field "reviews" payload)
  reviews ← review_list items
  ok (record {
    requested_candidate_id = candidate_id;
    minimum_distinct_reviewers = minimum;
    status = status;
    reviews = reviews;
  })

abbrev pub assembled : String → Parties → Terms → ReviewQuorumEnvelope
assembled envelope_id parties terms = record {
  envelope_id = envelope_id;
  request_id = parties.request_id;
  request_sha256 = parties.request_sha256;
  requester_key_id = parties.requester_key_id;
  dossier_id = parties.dossier_id;
  dossier_sha256 = parties.dossier_sha256;
  dossier_key_id = parties.dossier_key_id;
  requested_candidate_id = terms.requested_candidate_id;
  minimum_distinct_reviewers = terms.minimum_distinct_reviewers;
  status = terms.status;
  reviews = terms.reviews;
}

-- Everything that is read before the first check of the reviews together.
unfoldable pub read_envelope : Fields → Checked ReviewQuorumEnvelope
unfolding read_header read_parties read_terms
read_envelope payload = do
  envelope_id ← read_header payload
  parties ← read_parties payload
  terms ← read_terms payload
  ok (assembled envelope_id parties terms)
