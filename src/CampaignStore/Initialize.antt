-- ===== src/CampaignStore/Initialize.antt =====
-- experiments/campaign_store.py: `initialize`, which writes the plan of a campaign once.
use llm_arbitrage_system.Base.{
  ℕ, suc, String, Bool, true, false, not, ◌&&◌, ◌||◌, none, some, List, [], ◌∷◌, ◌++◌, str_eq,
}
use llm_arbitrage_system.Base.Tests.{ltb}
use llm_arbitrage_system.Base.Lists.{count_if}
use llm_arbitrage_system.Base.Result.{Result, ok, err, ◌>>=◌, ◌>>◌, raise_if}
use llm_arbitrage_system.CampaignStore.Schema.{
  CampaignStatus, EvaluationStatus, CampaignRow, EvaluationRow, clashes, clashes_campaign,
}
use llm_arbitrage_system.CampaignStore.Queries.{
  Error, no_evaluations, manifest_conflict, plan_conflict, integrity_error, Action, campaign_row,
  evaluation_ids,
}

-- What the store reads of a `CampaignManifest`; the last field is `_json(manifest.as_dict())`.
pub record CampaignManifest : Type 0 where
  pub campaign_id : String
  pub campaign_run_id : String
  pub manifest_json : String

pub data InitializeStatus : Type 0 where
  already_initialized initialized : InitializeStatus

abbrev pub same_plan : List String → List String → Bool
same_plan [] [] = true
same_plan (a ∷ as') (b ∷ bs) = str_eq a b && same_plan as' bs
same_plan _ _ = false

-- `INSERT INTO campaign_evaluations`, refused by the primary key and the unique ordinal
unfoldable pub insert_evaluation :
    EvaluationRow → List EvaluationRow → Result Error (List EvaluationRow)
insert_evaluation r rows = do
  raise_if (ltb 0 (count_if (clashes r) rows)) integrity_error
  ok (rows ++ r ∷ [])

abbrev pub new_row : String → String → ℕ → String → EvaluationRow
new_row campaign_id evaluation_id ordinal now = record {
  campaign_id = campaign_id;
  evaluation_id = evaluation_id;
  ordinal = ordinal;
  status = EvaluationStatus.pending;
  attempt_count = 0;
  experiment_id = none;
  bundle_path = none;
  attestation_path = none;
  error_type = none;
  error_message = none;
  updated_at = now;
}

-- `executemany` over `enumerate(evaluation_ids)`, from `ordinal` on
unfoldable pub insert_evaluations :
    String → List String → ℕ → (ℕ → String) → List EvaluationRow → Result Error (List EvaluationRow)
unfolding insert_evaluation
insert_evaluations campaign_id [] ordinal clock rows = ok rows
insert_evaluations campaign_id (evaluation_id ∷ ids) ordinal clock rows = do
  rows' ← insert_evaluation (new_row campaign_id evaluation_id ordinal (clock ordinal)) rows
  insert_evaluations campaign_id ids (suc ordinal) clock rows'

abbrev pub new_campaign : CampaignManifest → String → CampaignRow
new_campaign manifest now = record {
  campaign_id = manifest.campaign_id;
  campaign_run_id = manifest.campaign_run_id;
  manifest_json = manifest.manifest_json;
  status = CampaignStatus.planned;
  recovered_interrupted = 0;
  created_at = now;
  started_at = none;
  completed_at = none;
}

-- `initialize` where the campaign is in the table already
unfoldable pub reopen : CampaignManifest → List String → CampaignRow → Action InitializeStatus
unfolding evaluation_ids
reopen manifest ids existing s = do
  raise_if
      (not (str_eq existing.campaign_run_id manifest.campaign_run_id)
        || not (str_eq existing.manifest_json manifest.manifest_json))
      manifest_conflict
  raise_if (not (same_plan (evaluation_ids manifest.campaign_id s) ids)) plan_conflict
  ok (already_initialized, s)

-- `initialize` where it is not; the k-th row is written at `clock k`
unfoldable pub create :
    CampaignManifest → List String → String → (ℕ → String) → Action InitializeStatus
unfolding insert_evaluations
create manifest ids now clock s = do
  raise_if (ltb 0 (count_if (clashes_campaign (new_campaign manifest now)) s.campaigns))
      integrity_error
  rows ← insert_evaluations manifest.campaign_id ids 0 clock s.evaluations
  ok (
    initialized,
    record { campaigns = s.campaigns ++ new_campaign manifest now ∷ []; evaluations = rows },
  )

unfoldable pub initialize :
    CampaignManifest → List String → String → (ℕ → String) → Action InitializeStatus
unfolding reopen create campaign_row
initialize manifest [] now clock s = err no_evaluations
initialize manifest (i ∷ ids) now clock s = elim (campaign_row manifest.campaign_id s) [
  | none ↦ create manifest (i ∷ ids) now clock s
  | some existing ↦ reopen manifest (i ∷ ids) existing s
]
