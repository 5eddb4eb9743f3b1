-- ===== src/Journal/Schema.antt =====
-- storage/sqlite_journal.py: the journal's tables with the constraints that SQLite holds on them.
use llm_arbitrage_system.Base.{
  ℕ, String, Bool, true, false, not, ◌&&◌, ◌||◌, Option, List, [], ◌∷◌, ◌++◌, str_eq,
}
use llm_arbitrage_system.Base.Tests.{if◌then◌else◌, ◌==◌}
use llm_arbitrage_system.Base.Result.{Result, ok, err}
use llm_arbitrage_system.Domain.Contracts.{SignalKind, ExecutionStatus}

pub data RunStatus : Type 0 where
  running completed aborted : RunStatus

abbrev pub is_running : RunStatus → Bool
is_running running = true
is_running _ = false

-- A row of `replay_runs`.
pub record RunRow : Type 0 where
  pub run_id : String
  pub started_at : String
  pub completed_at : Option String
  pub status : RunStatus
  pub error : Option String
  pub report_json : Option String
  pub performance_report_json : Option String

-- A row of `market_events`.
pub record EventRow : Type 0 where
  pub run_id : String
  pub sequence : ℕ
  pub symbol : String
  pub event_timestamp : String
  pub payload_json : String

-- A row of `strategy_decisions`, `risk_evaluations` or `execution_results`: these have the same key,
-- and C stands for the columns in which they differ.
pub record PlanRow (C : Type 0) : Type 0 where
  pub run_id : String
  pub plan_id : String
  pub columns : C
  pub payload_json : String

pub record DecisionColumns : Type 0 where
  pub strategy : SignalKind
  pub symbol : String
  pub created_at : String

pub record RiskColumns : Type 0 where
  pub accepted : Bool
  pub recorded_at : String

pub record ResultColumns : Type 0 where
  pub status : ExecutionStatus
  pub recorded_at : String

pub record Database : Type 0 where
  pub replay_runs : List RunRow
  pub market_events : List EventRow
  pub strategy_decisions : List (PlanRow DecisionColumns)
  pub risk_evaluations : List (PlanRow RiskColumns)
  pub execution_results : List (PlanRow ResultColumns)

pub data JournalError : Type 0 where
  journal_closed constraint_failed run_not_running : JournalError

-- A journal object and the database it is connected to.
pub record Journal : Type 0 where
  pub run_id : String
  pub event_sequence : ℕ
  pub is_closed : Bool
  pub database : Database

-- What a method that writes leaves and returns.
abbrev pub Written : Type 0
Written = Journal × Result JournalError (Unit {0})

-- `_ensure_open`
abbrev pub if_open : Journal → Written → Written
if_open j written = if j.is_closed then (j, err journal_closed) else written

abbrev pub is_run : String → RunRow → Bool
is_run id row = str_eq row.run_id id

abbrev pub has_run : String → List RunRow → Bool
has_run id [] = false
has_run id (row ∷ rows) = is_run id row || has_run id rows

abbrev pub has_event : String → ℕ → List EventRow → Bool
has_event id sequence [] = false
has_event id sequence (row ∷ rows) =
    (str_eq row.run_id id && row.sequence == sequence) || has_event id sequence rows

abbrev pub has_plan : {C : Type 0} → String → String → List (PlanRow C) → Bool
has_plan id plan_id [] = false
has_plan id plan_id (row ∷ rows) =
    (str_eq row.run_id id && str_eq row.plan_id plan_id) || has_plan id plan_id rows

-- INSERT into a table whose rows name a plan: the run exists, and its plan has no row yet.
abbrev pub insert_plan :
    {C : Type 0} → Database → PlanRow C → List (PlanRow C) → Result JournalError (List (PlanRow C))
insert_plan d row rows =
    if has_run row.run_id d.replay_runs && not (has_plan row.run_id row.plan_id rows)
    then ok (rows ++ row ∷ [])
    else err constraint_failed
