-- ===== src/CampaignRunner/Ending.antt =====
-- The end of `run_campaign` where no evaluation runs: what its summary says.
use llm_arbitrage_system.Base.{
  ℕ, ◌<◌, ◌+◌, String, ◌≡◌, refl, ap, sym, subst, ◌∙◌, inl, inr, not, some, str_eq, arith,
}
use llm_arbitrage_system.Base.Tests.{ltb, Bool-cases}
use llm_arbitrage_system.Base.Lists.{first?-passes}
use llm_arbitrage_system.Base.Result.{ok, returned, passed, ok-injective}
use llm_arbitrage_system.CampaignStore.Schema.{
  CampaignStatus, EvaluationStatus, CampaignRow, Store, is_terminal_campaign,
}
use llm_arbitrage_system.CampaignStore.Queries.{
  CampaignStoreSummary, summary, count_of, campaign_row,
}
use llm_arbitrage_system.CampaignStore.Methods.{finish, check_finish, with_status}
use llm_arbitrage_system.CampaignStore.Updates.{first?-update_where}
use llm_arbitrage_system.CampaignRunner.{campaign_terminal_state, end_campaign}
use llm_arbitrage_system.CampaignRunner.Terminal.{status_for, finish-campaign_terminal_state}

-- What docs/phase5-campaigns.md says of the ends of a campaign that was not aborted, by the numbers of
-- its pending and failed evaluations.
abbrev pub Documented : CampaignStatus → ℕ → ℕ → Type 0
Documented CampaignStatus.completed waiting failures = (waiting ≡ 0) × (failures ≡ 0)
Documented CampaignStatus.partial waiting failures = (waiting ≡ 0) × (0 < failures)
Documented CampaignStatus.failed waiting failures = 0 < waiting
Documented _ waiting failures = ⊥

status_for-Documented :
    (waiting failures : ℕ) → Documented (status_for waiting failures) waiting failures
status_for-Documented waiting failures = elim (Bool-cases (ltb 0 waiting)) [
  | inl w ↦ rw (w, Documented) (ground (arith, w))
  | inr w ↦ elim (Bool-cases (ltb 0 failures)) [
    | inl f ↦ rw (w, f, Documented) (ground (arith, w), ground (arith, f))
    | inr f ↦ rw (w, f, Documented) (ground (arith, w), ground (arith, f))
  ]
]

abbrev pub summary_of : String → CampaignRow → Store → CampaignStoreSummary
summary_of cid row s = record {
  campaign_id = cid;
  status = row.status;
  planned =
      count_of cid EvaluationStatus.pending s
      + count_of cid EvaluationStatus.running s
      + count_of cid EvaluationStatus.registered s
      + count_of cid EvaluationStatus.skipped_existing s
      + count_of cid EvaluationStatus.failed s;
  pending = count_of cid EvaluationStatus.pending s;
  running = count_of cid EvaluationStatus.running s;
  registered = count_of cid EvaluationStatus.registered s;
  skipped_existing = count_of cid EvaluationStatus.skipped_existing s;
  failed = count_of cid EvaluationStatus.failed s;
  recovered_interrupted = row.recovered_interrupted;
}

-- The campaign's row after `finish`.
abbrev pub ended_row : CampaignStatus → String → CampaignRow → CampaignRow
ended_row status now row = record row { status = status; completed_at = some now }

-- A campaign that is known and has no running row.
module _ (cid now : String) (s : Store) (row : CampaignRow) (known : campaign_row cid s ≡ some row)
    (idle : count_of cid EvaluationStatus.running s ≡ 0) where
  summary-idle :
      (t : Store) (r : CampaignRow)
      → campaign_row cid t ≡ some r
      → count_of cid EvaluationStatus.running t ≡ 0
      → summary cid t ≡ ok (summary_of cid r t)
  unfolding summary
  summary-idle t r found none_runs = elim (Bool-cases (is_terminal_campaign r.status)) [
    | inl over ↦ rw (found, none_runs, over) refl
    | inr over ↦ rw (found, none_runs, over) refl
  ]

  abbrev chosen : CampaignStatus
  chosen =
      status_for (count_of cid EvaluationStatus.pending s) (count_of cid EvaluationStatus.failed s)

  terminal_state-chosen : campaign_terminal_state cid s ≡ ok chosen
  unfolding campaign_terminal_state
  terminal_state-chosen = rw (summary-idle s row known idle, idle) refl

  finish-with_status :
      (status : CampaignStatus) (s' : Store)
      → finish cid status now s ≡ ok (tt, s')
      → s' ≡ with_status cid status now s
  unfolding finish
  finish-with_status status s' h =
      let (_, h1) = passed (not (is_terminal_campaign status)) _ _ (tt, s') h in
      let (_, h2) = passed (ltb 0 (count_of cid EvaluationStatus.running s)) _ _ (tt, s') h1 in
      let (_, _, h3) =
        returned (λ _. ok (tt, with_status cid status now s)) (tt, s')
          (check_finish status (count_of cid EvaluationStatus.pending s)
            (count_of cid EvaluationStatus.failed s))
          h2 in
      ap (λ p. p.1) (sym (ok-injective _ _ h3))

  campaign_row-ended :
      (status : CampaignStatus)
      → campaign_row cid (with_status cid status now s) ≡ some (ended_row status now row)
  unfolding campaign_row
  campaign_row-ended status =
      let mine = first?-passes (λ c. str_eq c.campaign_id cid) s.campaigns row known in
      first?-update_where (λ c. str_eq c.campaign_id cid) (λ c. str_eq c.campaign_id cid)
        (λ c. record c { status = status; completed_at = some now }) s.campaigns row (λ c. refl)
        known
      ∙ rw mine refl

  finish-chosen : finish cid chosen now s ≡ ok (tt, with_status cid chosen now s)
  finish-chosen =
      let (s', done) = finish-campaign_terminal_state cid now s chosen terminal_state-chosen in
      subst (λ t. finish cid chosen now s ≡ ok (tt, t)) (finish-with_status chosen s' done) done

  summary-ended :
      (status : CampaignStatus)
      → summary cid (with_status cid status now s)
        ≡ ok (summary_of cid (ended_row status now row) s)
  unfolding count_of
  summary-ended status =
      summary-idle (with_status cid status now s) (ended_row status now row)
        (campaign_row-ended status) idle

  -- Where the campaign is in the store and none of its evaluations runs, the end of run_campaign
  -- returns. It sets one status, which is as docs/phase5-campaigns.md has it: completed with no pending
  -- and no failed evaluation, partial with a failed and no pending one, failed with a pending one. The
  -- summary that it returns has this status and the counts that were there before.
  pub end_campaign-Documented :
      (status : CampaignStatus) × Documented status
        (count_of cid EvaluationStatus.pending s)
        (count_of cid EvaluationStatus.failed s)
      × (end_campaign cid now s
          ≡ ok (summary_of cid (ended_row status now row) s, with_status cid status now s))
  unfolding end_campaign
  end_campaign-Documented = (
    chosen,
    status_for-Documented (count_of cid EvaluationStatus.pending s)
        (count_of cid EvaluationStatus.failed s),
    rw (terminal_state-chosen, finish-chosen, summary-ended chosen) refl,
  )
