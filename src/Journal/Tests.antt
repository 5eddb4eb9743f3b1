-- ===== src/Journal/Tests.antt =====
-- A journal with one run.
use llm_arbitrage_system.Base.{◌≡◌, refl, false, none, some, List, [], ◌∷◌, ◌⊎◌, arith}
use llm_arbitrage_system.Domain.Whole.{whole}
use llm_arbitrage_system.Simulation.Samples.{event, decision}
use llm_arbitrage_system.Journal.Schema.{Journal, completed}
use llm_arbitrage_system.Journal.Recording.{
  Texts, Call, starts, records_event, records_decision, completes, aborts, after, apply,
  record_decision, record_market_event,
}
use llm_arbitrage_system.Journal.Reads.{run_status}
use llm_arbitrage_system.Journal.Methods.{new_run, start_run, abort_run, complete_run}
use llm_arbitrage_system.Journal.Kept.{Keeps}
use llm_arbitrage_system.Journal.AppendOnly.{after-Keeps}
use llm_arbitrage_system.Journal.Order.{Adds, record_market_event-Adds}
use llm_arbitrage_system.Journal.Runs.{Completes, Refuses, complete_run-exact}

abbrev texts : Texts whole
texts = record {
  event_json = λ e. e.symbol;
  decision_json = λ d. d.plan.plan_id;
  evaluation_json = λ e. "evaluation";
  result_json = λ a r. r.plan_id;
  isoformat = λ t. "1970-01-01";
}

abbrev fresh : Journal
fresh = record {
  run_id = "r1";
  event_sequence = 0;
  is_closed = false;
  database = record {
    replay_runs = [];
    market_events = [];
    strategy_decisions = [];
    risk_evaluations = [];
    execution_results = [];
  };
}

abbrev started : Journal
started = record fresh {
  database = record {
    replay_runs = new_run "r1" "now" ∷ [];
    market_events = [];
    strategy_decisions = [];
    risk_evaluations = [];
    execution_results = [];
  };
}

abbrev session : List (Call whole texts)
session =
    starts "now"
    ∷ records_event event
    ∷ records_decision decision
    ∷ records_decision decision
    ∷ completes "later" "{}" none
    ∷ aborts "later" "late"
    ∷ []

session_status : run_status (after whole texts session fresh) ≡ some completed
unfolding run_status apply start_run record_market_event record_decision complete_run abort_run
session_status = refl

after-Keeps_example : Keeps fresh.database (after whole texts session fresh).database
after-Keeps_example = after-Keeps whole texts session fresh

record_market_event-Adds_example :
    Adds whole texts event started (record_market_event whole texts event started)
record_market_event-Adds_example = record_market_event-Adds whole texts event started refl refl tt

complete_run-exact_example :
    Completes "later" "{}" none started (complete_run "later" "{}" none started)
    ⊎ Refuses "later" "{}" none started (complete_run "later" "{}" none started)
complete_run-exact_example = complete_run-exact "later" "{}" none started refl (omega arith)
