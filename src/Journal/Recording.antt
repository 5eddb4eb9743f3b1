-- ===== src/Journal/Recording.antt =====
-- storage/sqlite_journal.py: what the pipeline and the replay service call.
use llm_arbitrage_system.Base.{suc, String, Bool, true, false, Option, none, some, List, [], ◌∷◌}
use llm_arbitrage_system.Base.Result.{ok, err}
use llm_arbitrage_system.Base.Int.{ℤ}
use llm_arbitrage_system.Domain.Numbers.{Numbers}
use llm_arbitrage_system.Domain.Contracts.{MarketEvent}
use llm_arbitrage_system.Domain.Plans.{StrategyDecision, ApprovedTradePlan, ExecutionResult}
use llm_arbitrage_system.Simulation.Approval.Gate.{RiskEvaluation}
use llm_arbitrage_system.Journal.Schema.{
  DecisionColumns, Journal, PlanRow, ResultColumns, RiskColumns, Written, if_open, insert_plan,
}
use llm_arbitrage_system.Journal.Methods.{abort_run, close, complete_run, insert_event, start_run}

module _ (N : Numbers) where
  -- `_to_json` of each payload, and `datetime.isoformat`.
  pub record Texts : Type 0 where
    pub event_json : MarketEvent N → String
    pub decision_json : StrategyDecision N → String
    pub evaluation_json : RiskEvaluation N → String
    pub result_json : ApprovedTradePlan N → ExecutionResult N → String
    pub isoformat : ℤ → String

  module _ (T : Texts) where
    -- `record_market_event`: the number is taken even where the INSERT fails
    unfoldable pub record_market_event : MarketEvent N → Journal → Written
    unfolding insert_event
    record_market_event event j = if_open j (
        insert_event
          (record {
            run_id = j.run_id;
            sequence = suc j.event_sequence;
            symbol = event.symbol;
            event_timestamp = T.isoformat event.timestamp;
            payload_json = T.event_json event;
          })
          (record j { event_sequence = suc j.event_sequence }))

    abbrev pub decision_row : StrategyDecision N → Journal → PlanRow DecisionColumns
    decision_row decision j = record {
      run_id = j.run_id;
      plan_id = decision.plan.plan_id;
      columns = record {
        strategy = decision.plan.strategy;
        symbol = decision.plan.symbol;
        created_at = T.isoformat decision.plan.created_at;
      };
      payload_json = T.decision_json decision;
    }

    unfoldable pub record_decision : StrategyDecision N → Journal → Written
    record_decision decision j =
        if_open j
          (elim (insert_plan j.database (decision_row decision j) j.database.strategy_decisions) [
            | err e ↦ (j, err e)
            | ok rows ↦
                (record j { database = record j.database { strategy_decisions = rows } }, ok tt)
          ])

    abbrev accepted : RiskEvaluation N → Bool
    accepted evaluation = elim evaluation.approved [ none ↦ false | some _ ↦ true ]

    abbrev pub risk_row :
        String → StrategyDecision N → RiskEvaluation N → Journal → PlanRow RiskColumns
    risk_row now decision evaluation j = record {
      run_id = j.run_id;
      plan_id = decision.plan.plan_id;
      columns = record { accepted = accepted evaluation; recorded_at = now };
      payload_json = T.evaluation_json evaluation;
    }

    unfoldable pub record_risk_evaluation :
        String → StrategyDecision N → RiskEvaluation N → Journal → Written
    record_risk_evaluation now decision evaluation j =
        if_open j
          (elim (insert_plan j.database (risk_row now decision evaluation j)
            j.database.risk_evaluations) [
              | err e ↦ (j, err e)
              | ok rows ↦
                  (record j { database = record j.database { risk_evaluations = rows } }, ok tt)
            ])

    abbrev pub result_row :
        String → ApprovedTradePlan N → ExecutionResult N → Journal → PlanRow ResultColumns
    result_row now approved result j = record {
      run_id = j.run_id;
      plan_id = result.plan_id;
      columns = record { status = result.status; recorded_at = now };
      payload_json = T.result_json approved result;
    }

    unfoldable pub record_execution_result :
        String → ApprovedTradePlan N → ExecutionResult N → Journal → Written
    record_execution_result now approved result j =
        if_open j
          (elim (insert_plan j.database (result_row now approved result j)
            j.database.execution_results) [
              | err e ↦ (j, err e)
              | ok rows ↦
                  (record j { database = record j.database { execution_results = rows } }, ok tt)
            ])

    -- The calls that write.
    pub data Call : Type 0 where
      starts : String → Call
      records_event : MarketEvent N → Call
      records_decision : StrategyDecision N → Call
      records_evaluation : String → StrategyDecision N → RiskEvaluation N → Call
      records_result : String → ApprovedTradePlan N → ExecutionResult N → Call
      completes : String → String → Option String → Call
      aborts : String → String → Call
      closes : Call

    unfoldable pub apply : Call → Journal → Written
    apply (starts now) j = start_run now j
    apply (records_event event) j = record_market_event event j
    apply (records_decision decision) j = record_decision decision j
    apply (records_evaluation now decision evaluation) j =
        record_risk_evaluation now decision evaluation j
    apply (records_result now approved result) j = record_execution_result now approved result j
    apply (completes now report performance) j = complete_run now report performance j
    apply (aborts now message) j = abort_run now message j
    apply closes j = close j

    -- The journal after a sequence of calls, whatever they return.
    abbrev pub after : List Call → Journal → Journal
    after [] j = j
    after (call ∷ calls) j = after calls (apply call j).0
