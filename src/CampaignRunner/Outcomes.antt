-- ===== src/CampaignRunner/Outcomes.antt =====
-- What the store says of an evaluation once `_run_one_evaluation` has returned.
use llm_arbitrage_system.Base.{
  String, ◌≡◌, refl, ap, ◌∙◌, subst, inl, inr, Bool, true, false, some, arith,
}
use llm_arbitrage_system.Base.Tests.{Bool-cases, Option-cases}
use llm_arbitrage_system.Base.Lists.{first?, first?-passes}
use llm_arbitrage_system.Base.Result.{Result, ok, err, returned, ok-injective, Result-cases}
use llm_arbitrage_system.CampaignStore.Schema.{
  EvaluationStatus, EvaluationRow, Store, same_status, has_key, update_where,
}
use llm_arbitrage_system.CampaignStore.Queries.{Error, evaluation}
use llm_arbitrage_system.CampaignStore.Methods.{
  Outcome, is_settled, settled_row, set_terminal, mark_registered, mark_failed, mark_running,
}
use llm_arbitrage_system.CampaignStore.Updates.{first?-update_where}
use llm_arbitrage_system.CampaignRunner.{Failure, Work, fail_evaluation, run_one_evaluation}

-- The evaluation has a row with the status.
abbrev pub HasStatus : String → String → EvaluationStatus → Store → Type 0
HasStatus campaign_id evaluation_id status s =
    (r : EvaluationRow) × (first? (has_key campaign_id evaluation_id) s.evaluations ≡ some r)
    × (r.status ≡ status)

same_status_equal : (a b : EvaluationStatus) → same_status a b ≡ true → a ≡ b
same_status_equal a b h = ground arith

HasStatus-rows :
    (c e : String) (status : EvaluationStatus) (s s' : Store)
    → s'.evaluations ≡ s.evaluations
    → HasStatus c e status s
    → HasStatus c e status s'
HasStatus-rows c e status s s' same (r, found, is) = (r, ap (first? (has_key c e)) same ∙ found, is)

updated-HasStatus :
    (c e : String) (f : EvaluationRow → EvaluationRow) (s s' : Store) (r : EvaluationRow)
    → ((x : EvaluationRow) → has_key c e (f x) ≡ has_key c e x)
    → first? (has_key c e) s.evaluations ≡ some r
    → s'.evaluations ≡ update_where (has_key c e) f s.evaluations
    → HasStatus c e (f r).status s'
updated-HasStatus c e f s s' r keeps found written =
    let hit = first?-passes (has_key c e) s.evaluations r found in
    (
      f r,
      ap (first? (has_key c e)) written
          ∙ (first?-update_where (has_key c e) (has_key c e) f s.evaluations r keeps found
              ∙ ap some (rw hit refl)),
      refl,
    )

set_terminal-HasStatus :
    (c e : String) (o : Outcome) (now : String) (s s' : Store)
    → set_terminal c e o now s ≡ ok (tt, s')
    → HasStatus c e o.status s'
unfolding set_terminal evaluation
set_terminal-HasStatus c e o now s s' h = elim (Option-cases (first? (has_key c e) s.evaluations)) [
  | inl missing ↦ absurd (ground (arith, missing, h))
  | inr (r, found) ↦ elim (Bool-cases (is_settled r.status)) [
    | inl closed ↦
        HasStatus-rows c e o.status s s' (ground (arith, found, closed, h))
          (r, found, same_status_equal r.status o.status (ground (arith, found, closed, h)))
    | inr open_row ↦
        updated-HasStatus c e (settled_row o now) s s' r (λ x. refl) found
          (ground (arith, found, open_row, h))
  ]
]

-- "registered" for an evaluation that succeeds, "failed" for another
abbrev pub status_of_outcome : Bool → EvaluationStatus
status_of_outcome true = EvaluationStatus.registered
status_of_outcome false = EvaluationStatus.failed

fail_evaluation-HasStatus :
    (c e : String) (failure : Failure) (now : String) (outcome : Bool) (s s' : Store)
    → fail_evaluation c e failure now s ≡ ok (outcome, s')
    → HasStatus c e (status_of_outcome outcome) s'
unfolding mark_failed
fail_evaluation-HasStatus c e failure now outcome s s' h =
    let ((_, t), failed, h1) =
      returned _ _ (mark_failed c e failure.error_type failure.error_message now s) h in
    let is = ok-injective (false, t) (outcome, s') h1 in
    subst (λ p. HasStatus c e (status_of_outcome p.0) p.1) is
      (set_terminal-HasStatus c e _ now s t failed)

-- Where `_run_one_evaluation` returns, the store says what it returned: after `True` the evaluation is
-- registered, after `False` it has failed; it is not left running, whatever the work has raised.
pub run_one_evaluation-HasStatus :
    (describe : Error → Failure) (c e : String) (work : Result Failure Work) (now : String)
    (outcome : Bool) (s s' : Store)
    → run_one_evaluation describe c e work now s ≡ ok (outcome, s')
    → HasStatus c e (status_of_outcome outcome) s'
unfolding run_one_evaluation mark_registered
run_one_evaluation-HasStatus describe c e (err failure) now outcome s s' h =
    let ((_, t), _, h1) = returned _ _ (mark_running c e now s) h in
    fail_evaluation-HasStatus c e failure now outcome t s' h1
run_one_evaluation-HasStatus describe c e (ok w) now outcome s s' h =
    let ((_, t), _, h1) = returned _ _ (mark_running c e now s) h in
    elim (Result-cases (mark_registered c e w.experiment_id w.bundle w.attestation now t)) [
      | inr (error, failed) ↦
          fail_evaluation-HasStatus c e (describe error) now outcome t s' (rw failed at h1)
      | inl ((_, u), written) ↦
          subst (λ p. HasStatus c e (status_of_outcome p.0) p.1)
            (ok-injective (true, u) (outcome, s') (rw written at h1))
            (set_terminal-HasStatus c e _ now t u written)
    ]
