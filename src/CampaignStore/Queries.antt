-- ===== src/CampaignStore/Queries.antt =====
-- experiments/campaign_store.py: the errors, and the methods of `CampaignStore` that only read.
use llm_arbitrage_system.Base.{ℕ, ◌+◌, String, Bool, true, false, ◌&&◌, Option, List, map, str_eq}
use llm_arbitrage_system.Base.Tests.{ltb}
use llm_arbitrage_system.Base.Lists.{first?, select, count_if}
use llm_arbitrage_system.Base.Result.{Result, ok, ◌>>=◌, ◌>>◌, raise_if, or_raise}
use llm_arbitrage_system.CampaignStore.Schema.{
  CampaignStatus, EvaluationStatus, CampaignRow, EvaluationRow, Store, is_terminal_campaign,
  of_campaign, has_key, has_status, order_by_ordinal,
}

pub data Error : Type 0 where
  no_evaluations manifest_conflict plan_conflict integrity_error : Error
  unknown_campaign unknown_evaluation cannot_run immutable_conflict : Error
  invalid_terminal_state still_running completed_with_open_rows : Error
  partial_without_failure failed_without_open_rows terminal_with_running_rows : Error

abbrev pub Action : Type 0 → Type 0
Action A = Store → Result Error (A × Store)

unfoldable pub campaign_row : String → Store → Option CampaignRow
campaign_row campaign_id s = first? (λ c. str_eq c.campaign_id campaign_id) s.campaigns

unfoldable pub evaluations : String → Store → List EvaluationRow
evaluations campaign_id s = order_by_ordinal (select (of_campaign campaign_id) s.evaluations)

-- `_evaluation_ids`
unfoldable pub evaluation_ids : String → Store → List String
unfolding evaluations
evaluation_ids campaign_id s = map (λ r. r.evaluation_id) (evaluations campaign_id s)

unfoldable pub evaluation : String → String → Store → Result Error EvaluationRow
evaluation campaign_id evaluation_id s =
    or_raise (first? (has_key campaign_id evaluation_id) s.evaluations) unknown_evaluation

-- `status`
unfoldable pub campaign_status : String → Store → Result Error CampaignStatus
unfolding campaign_row
campaign_status campaign_id s = do
  row ← or_raise (campaign_row campaign_id s) unknown_campaign
  ok row.status

-- `_counts`
unfoldable pub count_of : String → EvaluationStatus → Store → ℕ
count_of campaign_id status s = count_if (has_status campaign_id status) s.evaluations

abbrev pub runnable : Bool → EvaluationStatus → Bool
runnable include_failed EvaluationStatus.pending = true
runnable include_failed EvaluationStatus.failed = include_failed
runnable include_failed _ = false

unfoldable pub pending_evaluation_ids : String → Bool → Store → List String
pending_evaluation_ids campaign_id include_failed s =
    map (λ r. r.evaluation_id)
      (order_by_ordinal
        (select (λ r. of_campaign campaign_id r && runnable include_failed r.status) s.evaluations))

-- `CampaignStoreSummary`, less the integrity string
pub record CampaignStoreSummary : Type 0 where
  pub campaign_id : String
  pub status : CampaignStatus
  pub planned : ℕ
  pub pending : ℕ
  pub running : ℕ
  pub registered : ℕ
  pub skipped_existing : ℕ
  pub failed : ℕ
  pub recovered_interrupted : ℕ

unfoldable pub summary : String → Store → Result Error CampaignStoreSummary
unfolding campaign_row count_of
summary campaign_id s = do
  row ← or_raise (campaign_row campaign_id s) unknown_campaign
  let pending = count_of campaign_id EvaluationStatus.pending s
  let running = count_of campaign_id EvaluationStatus.running s
  let registered = count_of campaign_id EvaluationStatus.registered s
  let skipped_existing = count_of campaign_id EvaluationStatus.skipped_existing s
  let failed = count_of campaign_id EvaluationStatus.failed s
  raise_if (is_terminal_campaign row.status && ltb 0 running) terminal_with_running_rows
  ok (record {
    campaign_id = campaign_id;
    status = row.status;
    planned = pending + running + registered + skipped_existing + failed;
    pending = pending;
    running = running;
    registered = registered;
    skipped_existing = skipped_existing;
    failed = failed;
    recovered_interrupted = row.recovered_interrupted;
  })
