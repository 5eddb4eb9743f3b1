-- ===== src/CampaignRunner/Terminal.antt =====
-- How a campaign ends in the store.
use llm_arbitrage_system.Base.{ℕ, String, ◌≡◌, refl, sym, ap, subst, inl, inr, false, arith}
use llm_arbitrage_system.Base.Tests.{ltb, if◌then◌else◌, Bool-cases, Option-cases}
use llm_arbitrage_system.Base.Result.{ok, returned, passed, ok-injective}
use llm_arbitrage_system.CampaignStore.Schema.{CampaignStatus, EvaluationStatus, Store}
use llm_arbitrage_system.CampaignStore.Queries.{
  CampaignStoreSummary, summary, count_of, campaign_row,
}
use llm_arbitrage_system.CampaignStore.Methods.{recover_interrupted, finish, with_status}
use llm_arbitrage_system.CampaignStore.Totals.{Permits, finish_iff, recover_interrupted-counts}
use llm_arbitrage_system.CampaignRunner.{campaign_terminal_state, or_before, abort_campaign}

abbrev pub status_for : ℕ → ℕ → CampaignStatus
status_for waiting failures =
    if ltb 0 waiting
    then CampaignStatus.failed
    else if ltb 0 failures
    then CampaignStatus.partial
    else CampaignStatus.completed

status_for-Permits :
    (waiting active failures : ℕ)
    → ltb 0 active ≡ false
    → Permits (status_for waiting failures) waiting active failures
status_for-Permits waiting active failures idle = elim (Bool-cases (ltb 0 waiting)) [
  | inl w ↦ rw (w, Permits) (ground (arith, idle), ground (arith, w))
  | inr w ↦ elim (Bool-cases (ltb 0 failures)) [
    | inl f ↦ rw (w, f, Permits) (ground (arith, idle), ground (arith, f))
    | inr f ↦ rw (w, f, Permits) (ground (arith, w), ground (arith, idle), ground (arith, f))
  ]
]

-- The summary counts what `_counts` does.
record Counted (cid : String) (s : Store) (r : CampaignStoreSummary) : Type 0 where
  waiting : r.pending ≡ count_of cid EvaluationStatus.pending s
  active : r.running ≡ count_of cid EvaluationStatus.running s
  failures : r.failed ≡ count_of cid EvaluationStatus.failed s

summary-Counted :
    (cid : String) (s : Store) (r : CampaignStoreSummary) → summary cid s ≡ ok r → Counted cid s r
unfolding summary
summary-Counted cid s r h = elim (Option-cases (campaign_row cid s)) [
  | inl missing ↦ absurd (ground arith)
  | inr (row, found) ↦ record {
    waiting = ground arith;
    active = ground arith;
    failures = ground arith;
  }
]

campaign_terminal_state-Permits :
    (cid : String) (s : Store) (status : CampaignStatus)
    → campaign_terminal_state cid s ≡ ok status
    → Permits status
        (count_of cid EvaluationStatus.pending s)
        (count_of cid EvaluationStatus.running s)
        (count_of cid EvaluationStatus.failed s)
unfolding campaign_terminal_state
campaign_terminal_state-Permits cid s status h =
    let (r, found, h1) = returned _ _ (summary cid s) h in
    let (idle, h2) = passed (ltb 0 r.running) _ _ _ h1 in
    let c = summary-Counted cid s r found in
    let permitted = status_for-Permits r.pending r.running r.failed idle in
    rw (sym c.waiting, sym c.active, sym c.failures)
      (subst (λ t. Permits t r.pending r.running r.failed) (ok-injective _ status h2) permitted)

-- The terminal state that the runner chooses is one that `finish` accepts: wherever
-- `_campaign_terminal_state` returns, `finish` on its status returns too.
pub finish-campaign_terminal_state :
    (cid now : String) (s : Store) (status : CampaignStatus)
    → campaign_terminal_state cid s ≡ ok status
    → (s' : Store) × (finish cid status now s ≡ ok (tt, s'))
finish-campaign_terminal_state cid now s status h =
    (finish_iff cid now s status).1 (campaign_terminal_state-Permits cid s status h)

recover_interrupted-returns :
    (cid now : String) (s : Store)
    → (s' : Store) × (n : ℕ) × (recover_interrupted cid now s ≡ ok (n, s'))
unfolding recover_interrupted
recover_interrupted-returns cid now s = (_, _, refl)

finish-aborted :
    (cid now : String) (s : Store)
    → count_of cid EvaluationStatus.running s ≡ 0
    → finish cid CampaignStatus.aborted now s
      ≡ ok (tt, with_status cid CampaignStatus.aborted now s)
unfolding finish
finish-aborted cid now s idle = rw idle refl

-- An aborted campaign is finished in any state of the tables: once the interrupted evaluations are
-- recovered no row is running, so `finish` does not raise, and the campaign's status is set.
pub abort_campaign-finished :
    (cid now : String) (s : Store)
    → (s' : Store) × (n : ℕ) × (recover_interrupted cid now s ≡ ok (n, s'))
      × (abort_campaign cid now s ≡ ok (with_status cid CampaignStatus.aborted now s'))
unfolding abort_campaign
abort_campaign-finished cid now s =
    let (s', n, recovered) = recover_interrupted-returns cid now s in
    let idle = (recover_interrupted-counts cid now s s' n recovered).1 in
    (
      s',
      n,
      recovered,
      rw recovered (ap (λ r. ok (or_before s' r)) (finish-aborted cid now s' idle)),
    )
