-- ===== src/Journal/AppendOnly.antt =====
-- What no sequence of calls takes back from the journal's tables.
use llm_arbitrage_system.Base.{
  ◌≡◌, refl, sym, inl, inr, not, ◌&&◌, Option, List, [], ◌∷◌, ◌++◌, arith, String, subst,
}
use llm_arbitrage_system.Base.Extends.{Extends}
use llm_arbitrage_system.Base.Tests.{Bool-cases}
use llm_arbitrage_system.Base.Result.{ok, Result-cases}
use llm_arbitrage_system.Domain.Numbers.{Numbers}
use llm_arbitrage_system.Journal.Schema.{
  Journal, Database, EventRow, PlanRow, Written, if_open, insert_plan, has_run, has_event, has_plan,
}
use llm_arbitrage_system.Journal.Recording.{
  Texts, Call, record_market_event, record_decision, record_risk_evaluation,
  record_execution_result, apply, after, starts, records_event, records_decision,
  records_evaluation, records_result, completes, aborts, closes, decision_row, risk_row, result_row,
}
use llm_arbitrage_system.Journal.Methods.{
  insert_event, update_runs, completed_row, aborted_row, start_run, complete_run, abort_run, close,
  new_run,
}
use llm_arbitrage_system.Journal.Kept.{
  Keeps, Keeps-decisions, Keeps-evaluations, Keeps-events, Keeps-results, Keeps-runs, Keeps-same,
  Keeps-then, KeptRuns-append, KeptRuns-update,
}

if_open-Keeps :
    (d : Database) (j : Journal) (w : Written)
    → j.database ≡ d
    → Keeps d w.0.database
    → Keeps d (if_open j w).0.database
if_open-Keeps d j w e h = elim (Bool-cases j.is_closed) [
  | inl holds ↦ rw holds (subst (λ b. Keeps d b) (sym e) (Keeps-same d))
  | inr fails ↦ rw fails h
]

insert_plan-Extends :
    {C : Type 0} (d : Database) (row : PlanRow C) (rows rows' : List (PlanRow C))
    → insert_plan d row rows ≡ ok rows'
    → Extends rows rows'
insert_plan-Extends d row rows rows' h =
    elim (Bool-cases
      (has_run row.run_id d.replay_runs && not (has_plan row.run_id row.plan_id rows))) [
        | inl holds ↦ (row ∷ [], ground (arith, holds))
        | inr fails ↦ absurd (ground (arith, fails))
      ]

start_run-Keeps : (now : String) (j : Journal) → Keeps j.database (start_run now j).0.database
unfolding start_run
start_run-Keeps now j =
    if_open-Keeps j.database j _ refl (elim (Bool-cases (has_run j.run_id j.database.replay_runs)) [
      | inl holds ↦ rw holds (Keeps-same j.database)
      | inr fails ↦ rw fails (
          Keeps-runs j.database (j.database.replay_runs ++ new_run j.run_id now ∷ [])
            (KeptRuns-append j.database.replay_runs (new_run j.run_id now ∷ [])))
    ])

insert_event-Keeps :
    (row : EventRow) (j : Journal) → Keeps j.database (insert_event row j).0.database
unfolding insert_event
insert_event-Keeps row j =
    elim (Bool-cases (
      has_run row.run_id j.database.replay_runs
      && not (has_event row.run_id row.sequence j.database.market_events))) [
        | inl holds ↦
            rw holds
              (Keeps-events j.database (j.database.market_events ++ row ∷ []) (row ∷ [], refl))
        | inr fails ↦ rw fails (Keeps-same j.database)
      ]

complete_run-Keeps :
    (now report : String) (performance : Option String) (j : Journal)
    → Keeps j.database (complete_run now report performance j).0.database
unfolding complete_run
complete_run-Keeps now report performance j = if_open-Keeps j.database j _ refl (
    Keeps-runs j.database
      (update_runs j.run_id (completed_row now report performance) j.database.replay_runs)
      (KeptRuns-update j.run_id (completed_row now report performance) j.database.replay_runs
        (λ r. (refl, refl, refl))))

abort_run-Keeps :
    (now message : String) (j : Journal) → Keeps j.database (abort_run now message j).0.database
unfolding abort_run
abort_run-Keeps now message j = if_open-Keeps j.database j _ refl (
    Keeps-runs j.database (update_runs j.run_id (aborted_row now message) j.database.replay_runs) (
      KeptRuns-update j.run_id (aborted_row now message) j.database.replay_runs
        (λ r. (refl, refl, refl))))

module _ (N : Numbers) (T : Texts N) where
  apply-Keeps : (call : Call N T) (j : Journal) → Keeps j.database (apply N T call j).0.database
  unfolding apply record_market_event record_decision record_risk_evaluation record_execution_result
      close
  apply-Keeps (starts now) j = start_run-Keeps now j
  apply-Keeps (records_event event) j = if_open-Keeps j.database j _ refl (insert_event-Keeps _ _)
  apply-Keeps (records_decision decision) j =
      if_open-Keeps j.database j _ refl
        (elim (Result-cases
          (insert_plan j.database (decision_row N T decision j) j.database.strategy_decisions)) [
            | inl (rows, e) ↦ rw e (
                Keeps-decisions j.database rows (
                  insert_plan-Extends j.database (decision_row N T decision j)
                    j.database.strategy_decisions rows e))
            | inr (error, e) ↦ rw e (Keeps-same j.database)
          ])
  apply-Keeps (records_evaluation now decision evaluation) j =
      if_open-Keeps j.database j _ refl
        (elim (Result-cases (
          insert_plan j.database (risk_row N T now decision evaluation j)
            j.database.risk_evaluations)) [
              | inl (rows, e) ↦ rw e (
                  Keeps-evaluations j.database rows (
                    insert_plan-Extends j.database (risk_row N T now decision evaluation j)
                      j.database.risk_evaluations rows e))
              | inr (error, e) ↦ rw e (Keeps-same j.database)
            ])
  apply-Keeps (records_result now approved result) j =
      if_open-Keeps j.database j _ refl
        (elim (Result-cases (
          insert_plan j.database (result_row N T now approved result j)
            j.database.execution_results)) [
              | inl (rows, e) ↦ rw e (
                  Keeps-results j.database rows (
                    insert_plan-Extends j.database (result_row N T now approved result j)
                      j.database.execution_results rows e))
              | inr (error, e) ↦ rw e (Keeps-same j.database)
            ])
  apply-Keeps (completes now report performance) j = complete_run-Keeps now report performance j
  apply-Keeps (aborts now message) j = abort_run-Keeps now message j
  apply-Keeps closes j = Keeps-same j.database

  -- Whatever calls follow, and whether they return or raise, the tables of events, decisions,
  -- evaluations and results only have rows added behind those they hold, and each run's row stays as
  -- it is unless the run is running; it then leaves that state once, with its id and start kept.
  pub after-Keeps :
      (calls : List (Call N T)) (j : Journal) → Keeps j.database (after N T calls j).database
  after-Keeps [] j = Keeps-same j.database
  after-Keeps (call ∷ calls) j =
      Keeps-then j.database (apply N T call j).0.database _ (apply-Keeps call j)
        (after-Keeps calls (apply N T call j).0)
