-- ===== src/CampaignStore/Totals.antt =====
-- The counts of a campaign: what `summary` reports, what `finish` demands, what recovery moves.
use llm_arbitrage_system.Base.{
  ℕ, ◌+◌, ◌<◌, String, ◌≡◌, ◌↔◌, ◌⊎◌, Bool, true, false, str_eq, eq_iff, arith,
}
use llm_arbitrage_system.Base.Lists.{count_if}
use llm_arbitrage_system.Base.Result.{ok}
use llm_arbitrage_system.CampaignStore.Schema.{
  CampaignStatus, EvaluationStatus, Store, has_status, update_where,
}
use llm_arbitrage_system.CampaignStore.Queries.{count_of}
use llm_arbitrage_system.CampaignStore.Methods.{
  recover_interrupted, interrupted_row, finish, with_status,
}
use llm_arbitrage_system.CampaignStore.Updates.{
  count_if-update_where_none, count_if-update_where_add, count_if-update_where_same,
}

-- The counts at which `finish` accepts a status. It does not ask for pending rows before partial, where
-- docs/phase5-campaigns.md says that none remains.
abbrev pub Permits : CampaignStatus → ℕ → ℕ → ℕ → Type 0
Permits CampaignStatus.planned waiting active failures = ⊥
Permits CampaignStatus.running waiting active failures = ⊥
Permits CampaignStatus.completed waiting active failures =
    (waiting ≡ 0) × (active ≡ 0) × (failures ≡ 0)
Permits CampaignStatus.partial waiting active failures = (active ≡ 0) × (0 < failures)
Permits CampaignStatus.failed waiting active failures = (active ≡ 0) × (0 < waiting + failures)
Permits CampaignStatus.aborted waiting active failures = active ≡ 0

module _ (cid now : String) (s : Store) where
  -- `finish` returns exactly when the counts of the campaign permit the status: never with a running
  -- row; completed only with every row registered or skipped; partial with a failed row, whether rows
  -- are pending or not; failed with a failed or pending row; aborted whatever the rows are that do not
  -- run. No other status is terminal.
  pub finish_iff :
      (status : CampaignStatus)
      → ((s' : Store) × (finish cid status now s ≡ ok (tt, s')))
        ↔ Permits status
            (count_of cid EvaluationStatus.pending s)
            (count_of cid EvaluationStatus.running s)
            (count_of cid EvaluationStatus.failed s)
  unfolding finish
  finish_iff CampaignStatus.planned = (λ (_, h). absurd (ground arith), λ h. absurd h)
  finish_iff CampaignStatus.running = (λ (_, h). absurd (ground arith), λ h. absurd h)
  finish_iff CampaignStatus.completed =
      (λ (_, h). ground arith, λ h. (with_status cid CampaignStatus.completed now s, ground arith))
  finish_iff CampaignStatus.partial =
      (λ (_, h). ground arith, λ h. (with_status cid CampaignStatus.partial now s, ground arith))
  finish_iff CampaignStatus.failed =
      (λ (_, h). ground arith, λ h. (with_status cid CampaignStatus.failed now s, ground arith))
  finish_iff CampaignStatus.aborted =
      (λ (_, h). ground arith, λ h. (with_status cid CampaignStatus.aborted now s, ground arith))

abbrev pub is_waiting : EvaluationStatus → Bool
is_waiting EvaluationStatus.pending = true
is_waiting EvaluationStatus.running = true
is_waiting _ = false

module _ (cid now : String) (s s' : Store) (n : ℕ)
    (done : recover_interrupted cid now s ≡ ok (n, s')) where
  recovered_parts :
      (n ≡ count_if (has_status cid EvaluationStatus.running) s.evaluations)
      × (s'.evaluations
          ≡ update_where
              (has_status cid EvaluationStatus.running)
              (interrupted_row now)
              s.evaluations)
  unfolding recover_interrupted
  recovered_parts = ground arith

  -- Recovery makes every running row of its campaign pending and touches no other: it returns their
  -- number, leaves none running, adds that many to the pending rows, and leaves every other count.
  pub recover_interrupted-counts :
      (n ≡ count_of cid EvaluationStatus.running s)
      × (count_of cid EvaluationStatus.running s' ≡ 0)
      × (count_of cid EvaluationStatus.pending s' ≡ count_of cid EvaluationStatus.pending s + n)
      × ((other : String) (status : EvaluationStatus)
          → (str_eq other cid ≡ false) ⊎ (is_waiting status ≡ false)
          → count_of other status s' ≡ count_of other status s)
  unfolding count_of
  recover_interrupted-counts =
      let (total, rows) = recovered_parts in
      let running = has_status cid EvaluationStatus.running in
      (
        total,
        rw rows (
            count_if-update_where_none running (interrupted_row now) s.evaluations
              (λ x. ground arith)),
        rw (rows, total)
            (count_if-update_where_add running (has_status cid EvaluationStatus.pending)
              (interrupted_row now) s.evaluations (λ x h. ground arith)),
        λ other status apart. rw rows (
            count_if-update_where_same running (has_status other status) (interrupted_row now)
              s.evaluations
              (λ x h.
                ground
                  (arith, eq_iff x.campaign_id cid, eq_iff x.campaign_id other, eq_iff other cid))),
      )
