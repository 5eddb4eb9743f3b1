-- ===== src/ReviewQuorum/Built.antt =====
-- What `build_review_quorum` returns.
use llm_arbitrage_system.Base.{
  ℕ, suc, ◌+◌, ◌≤◌, String, ◌≡◌, refl, sym, ap, subst, ◌∙◌, Bool, false, not, ◌||◌, Option, none,
  some, List, [], ◌∷◌, ◌++◌, str_eq, arith,
}
use llm_arbitrage_system.Base.Tests.{ltb}
use llm_arbitrage_system.Base.Lists.{length, any, All, length-append}
use llm_arbitrage_system.Base.Int.{ℤ, pos, ltb_ℤ}
use llm_arbitrage_system.Base.Result.{ok, or_raise, passed, passed_last, returned, ok-injective}
use llm_arbitrage_system.Json.{Canonical}
use llm_arbitrage_system.ReviewQuorum.Envelope.{
  QuorumReviewEvidence, ReviewQuorumEnvelope, sort_reviews,
}
use llm_arbitrage_system.ReviewQuorum.Parsing.{unverified_review}
use llm_arbitrage_system.ReviewQuorum.Build.{
  ReviewQuorumSpec, check_spec, QuorumInputs, contains_text, check_inputs, collect_evidence,
  envelope_of, build_review_quorum,
}
use llm_arbitrage_system.ReviewQuorum.Sorting.{DistinctBy, DistinctBy-append}

-- The reviewer's key is neither the requester's nor the dossier's.
abbrev pub is_near : String → String → QuorumReviewEvidence → Bool
is_near requester dossier r = str_eq r.reviewer_key_id requester || str_eq r.reviewer_key_id dossier

abbrev pub IsApart : String → String → Option QuorumReviewEvidence → Type 0
IsApart requester dossier none = Unit
IsApart requester dossier (some r) = is_near requester dossier r ≡ false

pub record Collected (requester dossier : String) (total : ℕ) (evidence : List QuorumReviewEvidence)
    : Type 0 where
  pub count : length evidence ≡ total
  pub records : DistinctBy (λ r. r.record_id) evidence
  pub keys : DistinctBy (λ r. r.reviewer_key_id) evidence
  pub subjects : DistinctBy (λ r. r.reviewer_subject) evidence
  pub apart : any (is_near requester dossier) evidence ≡ false

any-last :
    (p : QuorumReviewEvidence → Bool) (xs : List QuorumReviewEvidence) (r : QuorumReviewEvidence)
    → any p xs ≡ false
    → p r ≡ false
    → any p (xs ++ r ∷ []) ≡ false
any-last p [] r h k = ground (arith, k)
any-last p (x ∷ xs) r h k = ground (arith, any-last p xs r, k)

or_raise-some :
    {E A : Type 0} (o : Option A) (error : E) (value : A)
    → or_raise o error ≡ ok value
    → o ≡ some value
or_raise-some none error value h = absurd (cc)
or_raise-some (some v) error value h = ap some (ok-injective v value h)

collect_evidence-Collected :
    (requester dossier : String) (verified : List (Option QuorumReviewEvidence))
    (evidence out : List QuorumReviewEvidence) (total : ℕ)
    → All (IsApart requester dossier) verified
    → Collected requester dossier total evidence
    → collect_evidence verified evidence ≡ ok out
    → Collected requester dossier (total + length verified) out
unfolding collect_evidence
collect_evidence-Collected requester dossier [] evidence out total apart so_far h =
    subst (λ n. Collected requester dossier n out) (omega arith)
      (subst (Collected requester dossier total) (ok-injective evidence out h) so_far)
collect_evidence-Collected requester dossier (o ∷ rest) evidence out total apart so_far h =
    let (r, is, h1) = returned _ _ (or_raise o unverified_review) h in
    let (record_new, h2) = passed (any (λ e. str_eq e.record_id r.record_id) evidence) _ _ _ h1 in
    let (key_new, h3) =
      passed (any (λ e. str_eq e.reviewer_key_id r.reviewer_key_id) evidence) _ _ _ h2 in
    let (subject_new, h4) =
      passed (any (λ e. str_eq e.reviewer_subject r.reviewer_subject) evidence) _ _ _ h3 in
    let apart_r =
      subst (IsApart requester dossier) (or_raise-some o unverified_review r is) apart.0 in
    subst (λ n. Collected requester dossier n out) (omega arith)
      (collect_evidence-Collected requester dossier rest (evidence ++ r ∷ []) out (suc total)
        apart.1
        (record {
          count = length-append evidence (r ∷ []) ∙ omega (arith, so_far.count);
          records = DistinctBy-append (λ e. e.record_id) evidence r record_new so_far.records;
          keys = DistinctBy-append (λ e. e.reviewer_key_id) evidence r key_new so_far.keys;
          subjects =
              DistinctBy-append (λ e. e.reviewer_subject) evidence r subject_new so_far.subjects;
          apart = any-last (is_near requester dossier) evidence r so_far.apart apart_r;
        })
        h4)

pub record Built (C : Canonical) (i : QuorumInputs) (minimum : ℤ) (total : ℕ)
    (e : ReviewQuorumEnvelope) : Type 0 where
  pub evidence : List QuorumReviewEvidence
  pub collected : Collected i.requester_key_id i.dossier_key_id total evidence
  pub is : e ≡ envelope_of C i minimum (sort_reviews evidence)
  pub least : ltb_ℤ minimum (pos 2) ≡ false
  pub some_review : 1 ≤ total
  pub parties : str_eq i.requester_key_id i.dossier_key_id ≡ false

check_spec-bounds :
    (spec : ReviewQuorumSpec) (total : ℕ)
    → check_spec spec total ≡ ok tt
    → (ltb_ℤ spec.minimum_distinct_reviewers (pos 2) ≡ false) × (1 ≤ total)
unfolding check_spec
check_spec-bounds spec total h =
    let (minimum, h1) =
      passed
        (ltb_ℤ spec.minimum_distinct_reviewers (pos 2)
          || ltb_ℤ (pos 64) spec.minimum_distinct_reviewers)
        _ _ _ h in
    let (count, h2) = passed (ltb total 1 || ltb 64 total) _ _ _ h1 in
    (ground (arith, minimum), ground (arith, count))

check_inputs-parties :
    (i : QuorumInputs) → check_inputs i ≡ ok tt → str_eq i.requester_key_id i.dossier_key_id ≡ false
unfolding check_inputs
check_inputs-parties i h =
    let (_, h1) = passed (not (str_eq i.request_dossier_id i.dossier_id)) _ _ _ h in
    let (_, h2) = passed (not (str_eq i.request_dossier_sha256 i.dossier_sha256)) _ _ _ h1 in
    let (_, h3) =
      passed (not (contains_text i.requested_candidate_id i.eligible_candidate_ids)) _ _ _ h2 in
    let (_, h4) =
      passed (contains_text i.requested_candidate_id i.blocked_candidate_ids) _ _ _ h3 in
    passed_last _ _ h4

pub build_review_quorum-Built :
    (C : Canonical) (spec : ReviewQuorumSpec) (i : QuorumInputs)
    (verified : List (Option QuorumReviewEvidence)) (e : ReviewQuorumEnvelope)
    → All (IsApart i.requester_key_id i.dossier_key_id) verified
    → build_review_quorum C spec i verified ≡ ok e
    → Built C i spec.minimum_distinct_reviewers (length verified) e
unfolding build_review_quorum
build_review_quorum-Built C spec i verified e apart h =
    let (_, s, h1) = returned _ _ (check_spec spec (length verified)) h in
    let (_, p, h2) = returned _ _ (check_inputs i) h1 in
    let (evidence, c, h3) = returned _ _ (collect_evidence verified []) h2 in
    let (least, some_review) = check_spec-bounds spec (length verified) s in
    record {
      evidence = evidence;
      collected =
          subst (λ n. Collected i.requester_key_id i.dossier_key_id n evidence) (omega arith)
            (collect_evidence-Collected i.requester_key_id i.dossier_key_id verified [] evidence 0
              apart (record { count = refl; records = tt; keys = tt; subjects = tt; apart = refl })
              c);
      is = sym (ok-injective _ e h3);
      least = least;
      some_review = some_review;
      parties = check_inputs-parties i p;
    }
