-- ===== src/ReviewQuorum/Load.antt =====
-- experiments/review_quorum.py: `load_review_quorum_envelope`, on the text of a file and the object
-- that `_json_object` reads from it.
use Prim.Native.String.{◌++◌ as str_append}
use llm_arbitrage_system.Base.{
  String, Bool, true, false, not, ◌&&◌, ◌||◌, Option, none, some, List, [], ◌∷◌, map, str_eq,
}
use llm_arbitrage_system.Base.Tests.{◌==◌}
use llm_arbitrage_system.Base.Lists.{length, any}
use llm_arbitrage_system.Base.Int.{pos}
use llm_arbitrage_system.Base.Result.{ok, err, raise_if, ◌>>=◌, ◌>>◌}
use llm_arbitrage_system.Json.{
  Json, bool, string, array, object, Items, nil, item, Fields, get_field, same_int, same,
}
use llm_arbitrage_system.ReviewQuorum.Parsing.{
  invalid_field, mismatch, same_keys, reviewer_not_apart, duplicate_record, duplicate_key,
  duplicate_subject, wrong_order, not_canonical, wrong_encoding, Checked, checked_string,
  checked_integer,
}
use llm_arbitrage_system.Json.{Canonical}
use llm_arbitrage_system.ReviewQuorum.Envelope.{
  QuorumReviewEvidence, ReviewQuorumEnvelope, distinct_count, key_ids, quorum_status,
  decision_counts, envelope_fields, expected_id, sort_reviews,
}
use llm_arbitrage_system.ReviewQuorum.Reading.{read_envelope}

-- `==` of two reviews, and of two tuples of them
abbrev pub same_review : QuorumReviewEvidence → QuorumReviewEvidence → Bool
same_review a b =
    str_eq a.record_id b.record_id
    && str_eq a.record_sha256 b.record_sha256
    && str_eq a.reviewer_subject b.reviewer_subject
    && str_eq a.reviewer_key_id b.reviewer_key_id
    && str_eq a.decision b.decision
    && str_eq a.reviewed_at b.reviewed_at

abbrev pub same_reviews : List QuorumReviewEvidence → List QuorumReviewEvidence → Bool
same_reviews [] [] = true
same_reviews (a ∷ as_) (b ∷ bs) = same_review a b && same_reviews as_ bs
same_reviews _ _ = false

-- `len({…}) != len(reviews)`
abbrev pub has_duplicate : List String → Bool
has_duplicate xs = not (distinct_count xs == length xs)

-- Order, duplicates and separate keys.
unfoldable pub check_reviews : ReviewQuorumEnvelope → Checked (Unit {0})
check_reviews e = do
  raise_if (not (same_reviews e.reviews (sort_reviews e.reviews))) wrong_order
  raise_if (has_duplicate (map (λ r. r.record_id) e.reviews)) duplicate_record
  raise_if (has_duplicate (key_ids e.reviews)) duplicate_key
  raise_if (has_duplicate (map (λ r. r.reviewer_subject) e.reviews)) duplicate_subject
  raise_if (str_eq e.requester_key_id e.dossier_key_id) same_keys
  raise_if
      (any
        (λ r.
          str_eq r.reviewer_key_id e.requester_key_id || str_eq r.reviewer_key_id e.dossier_key_id)
        e.reviews)
      reviewer_not_apart

abbrev pub agrees_with : Option Json → Json → Bool
agrees_with none expected = false
agrees_with (some value) expected = same value expected

-- What the file counts and concludes is what the reviews give.
unfoldable pub check_counts : Fields → ReviewQuorumEnvelope → Checked (Unit {0})
unfolding checked_integer
check_counts payload e = do
  review_count ← checked_integer (get_field "review_count" payload) "review_count" (pos 1)
  raise_if (not (same_int review_count (pos (length e.reviews)))) (mismatch "review_count")
  distinct ←
      checked_integer (get_field "distinct_reviewer_count" payload) "distinct_reviewer_count"
        (pos 1)
  raise_if (not (same_int distinct (pos (distinct_count (key_ids e.reviews)))))
      (mismatch "distinct_reviewer_count")
  raise_if (not (agrees_with (get_field "decision_counts" payload) (decision_counts e.reviews)))
      (mismatch "decision_counts")
  raise_if (not (str_eq e.status (quorum_status e.reviews e.minimum_distinct_reviewers)))
      (mismatch "status")

-- `payload.get(key) is False`
abbrev pub is_false : Option Json → Bool
is_false (some (bool false)) = true
is_false _ = false

-- strings, and none of them empty
abbrev pub nonempty_strings : Items → Bool
nonempty_strings nil = true
nonempty_strings (item (string value) items) = not (str_eq value "") && nonempty_strings items
nonempty_strings (item _ items) = false

abbrev pub lists_strings : Option Json → Bool
lists_strings (some (array items)) = nonempty_strings items
lists_strings _ = false

-- Nothing is authorized, and the texts are there.
unfoldable pub check_claims : Fields → Checked (Unit {0})
unfolding checked_string
check_claims payload = do
  raise_if (not (is_false (get_field "deployment_authorized" payload)))
      (invalid_field "deployment_authorized")
  raise_if (not (is_false (get_field "trading_authorized" payload)))
      (invalid_field "trading_authorized")
  raise_if (not (is_false (get_field "release_authorized" payload)))
      (invalid_field "release_authorized")
  raise_if (not (lists_strings (get_field "assumptions" payload))) (invalid_field "assumptions")
  boundary ← checked_string (get_field "evidence_boundary" payload) "evidence_boundary"
  ok tt

-- The id is the hash of the evidence, and the file is the canonical text of the envelope.
unfoldable pub check_canonical :
    Canonical → Fields → String → ReviewQuorumEnvelope → Checked (Unit {0})
check_canonical C payload source e = do
  raise_if (not (str_eq e.envelope_id (expected_id C e))) (mismatch "envelope_id")
  raise_if (not (same (object payload) (object (envelope_fields e)))) not_canonical
  raise_if (not (str_eq source (str_append (C.canonical_json (object payload)) "\n")))
      wrong_encoding

-- `payload` is none where `_json_object` raises.
unfoldable pub load_review_quorum_envelope :
    Canonical → Option Fields → String → Checked ReviewQuorumEnvelope
unfolding read_envelope check_reviews check_counts check_claims check_canonical
load_review_quorum_envelope C none source = err (invalid_field "JSON")
load_review_quorum_envelope C (some payload) source = do
  e ← read_envelope payload
  check_reviews e
  check_counts payload e
  check_claims payload
  check_canonical C payload source e
  ok e
