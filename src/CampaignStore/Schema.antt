-- ===== src/CampaignStore/Schema.antt =====
-- experiments/campaign_store.py: the two tables, their states, and the SQL that the methods run.
-- Only the methods of `CampaignStore` write the tables, so a status is one of the strings of
-- `_CAMPAIGN_STATES` and `_EVALUATION_STATES`, here the constructors of two types.
use llm_arbitrage_system.Base.{
  ℕ, String, Bool, true, false, ◌&&◌, ◌||◌, Option, none, some, List, [], ◌∷◌, map, str_eq,
}
use llm_arbitrage_system.Base.Tests.{leb, ◌==◌, if◌then◌else◌}

pub data CampaignStatus : Type 0 where
  planned running completed partial failed aborted : CampaignStatus

pub data EvaluationStatus : Type 0 where
  pending running registered skipped_existing failed : EvaluationStatus

-- A row of `campaigns`.
pub record CampaignRow : Type 0 where
  pub campaign_id : String
  pub campaign_run_id : String
  pub manifest_json : String
  pub status : CampaignStatus
  pub recovered_interrupted : ℕ
  pub created_at : String
  pub started_at : Option String
  pub completed_at : Option String

-- A row of `campaign_evaluations`.
pub record EvaluationRow : Type 0 where
  pub campaign_id : String
  pub evaluation_id : String
  pub ordinal : ℕ
  pub status : EvaluationStatus
  pub attempt_count : ℕ
  pub experiment_id : Option String
  pub bundle_path : Option String
  pub attestation_path : Option String
  pub error_type : Option String
  pub error_message : Option String
  pub updated_at : String

pub record Store : Type 0 where
  pub campaigns : List CampaignRow
  pub evaluations : List EvaluationRow

-- `_TERMINAL_CAMPAIGN_STATES`
abbrev pub is_terminal_campaign : CampaignStatus → Bool
is_terminal_campaign CampaignStatus.planned = false
is_terminal_campaign CampaignStatus.running = false
is_terminal_campaign CampaignStatus.completed = true
is_terminal_campaign CampaignStatus.partial = true
is_terminal_campaign CampaignStatus.failed = true
is_terminal_campaign CampaignStatus.aborted = true

-- `_TERMINAL_EVALUATION_STATES`
abbrev pub is_terminal_evaluation : EvaluationStatus → Bool
is_terminal_evaluation EvaluationStatus.pending = false
is_terminal_evaluation EvaluationStatus.running = false
is_terminal_evaluation EvaluationStatus.registered = true
is_terminal_evaluation EvaluationStatus.skipped_existing = true
is_terminal_evaluation EvaluationStatus.failed = true

abbrev rank : EvaluationStatus → ℕ
rank EvaluationStatus.pending = 0
rank EvaluationStatus.running = 1
rank EvaluationStatus.registered = 2
rank EvaluationStatus.skipped_existing = 3
rank EvaluationStatus.failed = 4

-- `==` on the status strings
abbrev pub same_status : EvaluationStatus → EvaluationStatus → Bool
same_status a b = rank a == rank b

-- `==` on `str | None`
abbrev pub same_text : Option String → Option String → Bool
same_text none none = true
same_text (some a) (some b) = str_eq a b
same_text _ _ = false

-- `WHERE campaign_id = ?`
abbrev pub of_campaign : String → EvaluationRow → Bool
of_campaign campaign_id r = str_eq r.campaign_id campaign_id

-- `WHERE campaign_id = ? AND evaluation_id = ?`
abbrev pub has_key : String → String → EvaluationRow → Bool
has_key campaign_id evaluation_id r =
    str_eq r.campaign_id campaign_id && str_eq r.evaluation_id evaluation_id

-- `WHERE campaign_id = ? AND status = ?`
abbrev pub has_status : String → EvaluationStatus → EvaluationRow → Bool
has_status campaign_id status r = of_campaign campaign_id r && same_status r.status status

-- `UPDATE … SET f WHERE p`
abbrev pub update_where : {A : Type 0} → (A → Bool) → (A → A) → List A → List A
update_where p f = map (λ r. if p r then f r else r)

-- `ORDER BY ordinal`
abbrev pub insert_by_ordinal : EvaluationRow → List EvaluationRow → List EvaluationRow
insert_by_ordinal r [] = r ∷ []
insert_by_ordinal r (x ∷ xs) =
    if leb r.ordinal x.ordinal then r ∷ x ∷ xs else x ∷ insert_by_ordinal r xs

abbrev pub order_by_ordinal : List EvaluationRow → List EvaluationRow
order_by_ordinal [] = []
order_by_ordinal (r ∷ rows) = insert_by_ordinal r (order_by_ordinal rows)

-- The two rows clash on the primary key or on `UNIQUE (campaign_id, ordinal)`.
abbrev pub clashes : EvaluationRow → EvaluationRow → Bool
clashes r s =
    str_eq s.campaign_id r.campaign_id
    && (str_eq s.evaluation_id r.evaluation_id || s.ordinal == r.ordinal)

abbrev pub clashes_campaign : CampaignRow → CampaignRow → Bool
clashes_campaign r s =
    str_eq s.campaign_id r.campaign_id || str_eq s.campaign_run_id r.campaign_run_id
