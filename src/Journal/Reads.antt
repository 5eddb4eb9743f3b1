-- ===== src/Journal/Reads.antt =====
-- storage/sqlite_journal.py: what the methods that read return, on an open journal.
use llm_arbitrage_system.Base.{ℕ, String, Bool, Option, none, some, List, [], ◌∷◌, map, str_eq}
use llm_arbitrage_system.Base.Tests.{if◌then◌else◌, leb}
use llm_arbitrage_system.Base.Lists.{select, first?, count_if}
use llm_arbitrage_system.Journal.Schema.{EventRow, Journal, PlanRow, RunStatus, is_run}

unfoldable pub run_status : Journal → Option RunStatus
run_status j = elim (first? (is_run j.run_id) j.database.replay_runs) [
  | none ↦ none
  | some row ↦ some row.status
]

unfoldable pub load_report : Journal → Option String
load_report j = elim (first? (is_run j.run_id) j.database.replay_runs) [
  | none ↦ none
  | some row ↦ row.report_json
]

unfoldable pub load_performance_report : Journal → Option String
load_performance_report j = elim (first? (is_run j.run_id) j.database.replay_runs) [
  | none ↦ none
  | some row ↦ row.performance_report_json
]

abbrev pub is_event_of : String → EventRow → Bool
is_event_of id row = str_eq row.run_id id

-- ORDER BY sequence
abbrev pub place : EventRow → List EventRow → List EventRow
place row [] = row ∷ []
place row (r ∷ rows) = if leb row.sequence r.sequence then row ∷ r ∷ rows else r ∷ place row rows

abbrev pub by_sequence : List EventRow → List EventRow
by_sequence [] = []
by_sequence (row ∷ rows) = place row (by_sequence rows)

-- `load_market_event_payloads`, as the texts of the payloads
unfoldable pub load_market_event_payloads : Journal → List String
load_market_event_payloads j =
    map (λ row. row.payload_json)
      (by_sequence (select (is_event_of j.run_id) j.database.market_events))

pub record JournalCounts : Type 0 where
  pub market_events : ℕ
  pub strategy_decisions : ℕ
  pub risk_evaluations : ℕ
  pub execution_results : ℕ
  pub replay_runs : ℕ

abbrev pub plan_rows : {C : Type 0} → String → List (PlanRow C) → ℕ
plan_rows id rows = count_if (λ row. str_eq row.run_id id) rows

unfoldable pub counts : Journal → JournalCounts
counts j = record {
  market_events = count_if (is_event_of j.run_id) j.database.market_events;
  strategy_decisions = plan_rows j.run_id j.database.strategy_decisions;
  risk_evaluations = plan_rows j.run_id j.database.risk_evaluations;
  execution_results = plan_rows j.run_id j.database.execution_results;
  replay_runs = count_if (is_run j.run_id) j.database.replay_runs;
}
