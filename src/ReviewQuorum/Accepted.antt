-- ===== src/ReviewQuorum/Accepted.antt =====
-- What a file that `load_review_quorum_envelope` accepts says.
use Prim.Native.String.{◌++◌ as str_append}
use llm_arbitrage_system.Base.{
  String, ◌≡◌, refl, ap, subst, Bool, true, false, not, ◌||◌, Option, none, some, str_eq, eq_iff,
  map,
}
use llm_arbitrage_system.Base.Lists.{length, any}
use llm_arbitrage_system.Base.Int.{ℤ, pos, ltb_ℤ}
use llm_arbitrage_system.Base.Result.{ok, returned, ok-injective, passed, passed_last}
use llm_arbitrage_system.Json.{
  Json, null, bool, int, string, array, object, Fields, get_field, same_int, same,
}
use llm_arbitrage_system.ReviewQuorum.Parsing.{
  checked_integer, checked_string, checked_candidate_id,
}
use llm_arbitrage_system.Json.{Canonical}
use llm_arbitrage_system.ReviewQuorum.Envelope.{
  ReviewQuorumEnvelope, key_ids, distinct_count, quorum_status, decision_counts, envelope_fields,
  expected_id,
}
use llm_arbitrage_system.ReviewQuorum.Load.{
  agrees_with, check_reviews, check_counts, check_claims, check_canonical, is_false,
  load_review_quorum_envelope,
}
use llm_arbitrage_system.ReviewQuorum.Reading.{
  is_one_of, statuses, listed, review_list, Terms, read_header, read_parties, read_terms,
  read_envelope,
}
use llm_arbitrage_system.ReviewQuorum.Distinct.{IsDistinctList, has_duplicate-IsDistinct}

pub record Separate (e : ReviewQuorumEnvelope) : Type 0 where
  pub records : IsDistinctList (map (λ r. r.record_id) e.reviews)
  pub keys : IsDistinctList (key_ids e.reviews)
  pub subjects : IsDistinctList (map (λ r. r.reviewer_subject) e.reviews)
  pub parties : str_eq e.requester_key_id e.dossier_key_id ≡ false
  pub apart :
      any
        (λ r.
          str_eq r.reviewer_key_id e.requester_key_id || str_eq r.reviewer_key_id e.dossier_key_id)
        e.reviews
      ≡ false

check_reviews-Separate : (e : ReviewQuorumEnvelope) → check_reviews e ≡ ok tt → Separate e
unfolding check_reviews
check_reviews-Separate e h =
    let (_, h1) = passed _ _ _ _ h in
    let (records, h2) = passed _ _ _ _ h1 in
    let (keys, h3) = passed _ _ _ _ h2 in
    let (subjects, h4) = passed _ _ _ _ h3 in
    let (parties, h5) = passed _ _ _ _ h4 in
    record {
      records = has_duplicate-IsDistinct (map (λ r. r.record_id) e.reviews) records;
      keys = has_duplicate-IsDistinct (key_ids e.reviews) keys;
      subjects = has_duplicate-IsDistinct (map (λ r. r.reviewer_subject) e.reviews) subjects;
      parties = parties;
      apart = passed_last _ _ h5;
    }

checked_integer-minimum :
    (value : Option Json) (name : String) (minimum result : ℤ)
    → checked_integer value name minimum ≡ ok result
    → ltb_ℤ result minimum ≡ false
unfolding checked_integer
checked_integer-minimum none name minimum result h = absurd (cc)
checked_integer-minimum (some null) name minimum result h = absurd (cc)
checked_integer-minimum (some (bool b)) name minimum result h = absurd (cc)
checked_integer-minimum (some (string s)) name minimum result h = absurd (cc)
checked_integer-minimum (some (array items)) name minimum result h = absurd (cc)
checked_integer-minimum (some (object fields)) name minimum result h = absurd (cc)
checked_integer-minimum (some (int n)) name minimum result h =
    let (least, returns) = passed (ltb_ℤ n minimum) _ _ _ h in
    subst (λ m. ltb_ℤ m minimum ≡ false) (ok-injective n result returns) least

read_terms-minimum :
    (payload : Fields) (terms : Terms)
    → read_terms payload ≡ ok terms
    → ltb_ℤ terms.minimum_distinct_reviewers (pos 2) ≡ false
unfolding read_terms
read_terms-minimum payload terms h =
    let (named, _, h1) =
      returned _ _
        (checked_string (get_field "requested_candidate_id" payload) "requested_candidate_id") h in
    let (_, _, h2) = returned _ _ (checked_candidate_id named) h1 in
    let (minimum, m, h3) =
      returned _ _
        (checked_integer (get_field "minimum_distinct_reviewers" payload)
          "minimum_distinct_reviewers" (pos 2))
        h2 in
    let (status, _, h4) = returned _ _ (checked_string (get_field "status" payload) "status") h3 in
    let (_, h5) = passed (not (is_one_of statuses status)) _ _ _ h4 in
    let (items, _, h6) = returned _ _ (listed (get_field "reviews" payload)) h5 in
    let (reviews, _, h7) = returned _ _ (review_list items) h6 in
    subst (λ n. ltb_ℤ n (pos 2) ≡ false)
      (ap (λ f. f.minimum_distinct_reviewers) (ok-injective _ terms h7))
      (checked_integer-minimum (get_field "minimum_distinct_reviewers" payload)
        "minimum_distinct_reviewers" (pos 2) minimum m)

read_envelope-minimum :
    (payload : Fields) (e : ReviewQuorumEnvelope)
    → read_envelope payload ≡ ok e
    → ltb_ℤ e.minimum_distinct_reviewers (pos 2) ≡ false
unfolding read_envelope
read_envelope-minimum payload e h =
    let (_, _, h1) = returned _ _ (read_header payload) h in
    let (_, _, h2) = returned _ _ (read_parties payload) h1 in
    let (terms, t, h3) = returned _ _ (read_terms payload) h2 in
    subst (λ n. ltb_ℤ n (pos 2) ≡ false)
      (ap (λ f. f.minimum_distinct_reviewers) (ok-injective _ e h3))
      (read_terms-minimum payload terms t)

-- What a file and its envelope have in common once it is accepted.
pub record Accepted (C : Canonical) (payload : Fields) (source : String) (e : ReviewQuorumEnvelope)
    : Type 0 where
  pub separate : Separate e
  pub minimum : ltb_ℤ e.minimum_distinct_reviewers (pos 2) ≡ false
  pub status : e.status ≡ quorum_status e.reviews e.minimum_distinct_reviewers
  pub no_deployment : is_false (get_field "deployment_authorized" payload) ≡ true
  pub no_trading : is_false (get_field "trading_authorized" payload) ≡ true
  pub no_release : is_false (get_field "release_authorized" payload) ≡ true
  pub id : e.envelope_id ≡ expected_id C e
  pub canonical : same (object payload) (object (envelope_fields e)) ≡ true
  pub text : source ≡ str_append (C.canonical_json (object payload)) "\n"

of_not : (b : Bool) → not b ≡ false → b ≡ true
of_not true h = refl
of_not false h = absurd (cc)

text_of_not : (a b : String) → not (str_eq a b) ≡ false → a ≡ b
text_of_not a b h = (eq_iff a b).0 (of_not (str_eq a b) h)

check_counts-status :
    (payload : Fields) (e : ReviewQuorumEnvelope)
    → check_counts payload e ≡ ok tt
    → e.status ≡ quorum_status e.reviews e.minimum_distinct_reviewers
unfolding check_counts
check_counts-status payload e h =
    let (count, _, h1) =
      returned _ _ (checked_integer (get_field "review_count" payload) "review_count" (pos 1)) h in
    let (_, h2) = passed (not (same_int count (pos (length e.reviews)))) _ _ _ h1 in
    let (distinct, _, h3) =
      returned _ _
        (checked_integer (get_field "distinct_reviewer_count" payload) "distinct_reviewer_count"
          (pos 1))
        h2 in
    let (_, h4) =
      passed (not (same_int distinct (pos (distinct_count (key_ids e.reviews))))) _ _ _ h3 in
    let (_, h5) =
      passed (not (agrees_with (get_field "decision_counts" payload) (decision_counts e.reviews))) _
        _ _ h4 in
    text_of_not e.status (quorum_status e.reviews e.minimum_distinct_reviewers) (passed_last _ _ h5)

abbrev AuthorizesNothing : Fields → Type 0
AuthorizesNothing payload =
    (is_false (get_field "deployment_authorized" payload) ≡ true)
    × (is_false (get_field "trading_authorized" payload) ≡ true)
    × (is_false (get_field "release_authorized" payload) ≡ true)

check_claims-nothing : (payload : Fields) → check_claims payload ≡ ok tt → AuthorizesNothing payload
unfolding check_claims
check_claims-nothing payload h =
    let (deployment, h1) = passed _ _ _ _ h in
    let (trading, h2) = passed _ _ _ _ h1 in
    let (release, h3) = passed _ _ _ _ h2 in
    (of_not _ deployment, of_not _ trading, of_not _ release)

-- A file that `load_review_quorum_envelope` accepts has no two reviews with one record, key or
-- subject, reviewer keys apart from the two others, a minimum of two or more, the status that the
-- reviews give, `false` for each authorization, an id that is the hash of its evidence, and the
-- canonical text of its own dictionary, which is equal to that of the envelope.
pub load-Accepted :
    (C : Canonical) (payload : Fields) (source : String) (e : ReviewQuorumEnvelope)
    → load_review_quorum_envelope C (some payload) source ≡ ok e
    → Accepted C payload source e
unfolding load_review_quorum_envelope check_canonical
load-Accepted C payload source e h =
    let (f, read, h1) = returned _ _ (read_envelope payload) h in
    let (_, reviews, h2) = returned _ _ (check_reviews f) h1 in
    let (_, counts, h3) = returned _ _ (check_counts payload f) h2 in
    let (_, claims, h4) = returned _ _ (check_claims payload) h3 in
    let (_, canonical, h5) = returned _ _ (check_canonical C payload source f) h4 in
    let (id, c1) = passed _ _ _ _ canonical in
    let (dictionary, c2) = passed _ _ _ _ c1 in
    let (deployment, trading, release) = check_claims-nothing payload claims in
    subst (Accepted C payload source) (ok-injective f e h5) (record {
      separate = check_reviews-Separate f reviews;
      minimum = read_envelope-minimum payload f read;
      status = check_counts-status payload f counts;
      no_deployment = deployment;
      no_trading = trading;
      no_release = release;
      id = text_of_not f.envelope_id (expected_id C f) id;
      canonical = of_not _ dictionary;
      text = text_of_not _ _ (passed_last _ _ c2);
    })
