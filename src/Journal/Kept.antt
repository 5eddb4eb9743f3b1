-- ===== src/Journal/Kept.antt =====
-- What stays of the journal's tables when rows are added behind them and open runs are ended.
use llm_arbitrage_system.Base.{
  ◌≡◌, refl, sym, ◌∙◌, ◌⊎◌, inl, inr, true, false, List, [], ◌∷◌, ◌++◌, arith, String, subst,
}
use llm_arbitrage_system.Base.Extends.{Extends, Extends-same, Extends-then}
use llm_arbitrage_system.Base.Tests.{Bool-cases}
use llm_arbitrage_system.Journal.Schema.{
  Database, RunRow, EventRow, PlanRow, is_running, DecisionColumns, RiskColumns, ResultColumns,
}
use llm_arbitrage_system.Journal.Methods.{is_open_run, update_runs}

-- A run's row stays as it is, or is one that was running and is not any more.
abbrev pub KeptRun : RunRow → RunRow → Type 0
KeptRun r r' =
    (r' ≡ r)
    ⊎ ((is_running r.status ≡ true)
        × (is_running r'.status ≡ false)
        × (r'.run_id ≡ r.run_id)
        × (r'.started_at ≡ r.started_at))

-- Row by row, with new rows behind.
abbrev pub KeptRuns : List RunRow → List RunRow → Type 0
KeptRuns [] rs' = Unit
KeptRuns (r ∷ rs) [] = ⊥
KeptRuns (r ∷ rs) (r' ∷ rs') = KeptRun r r' × KeptRuns rs rs'

pub KeptRuns-append : (rs added : List RunRow) → KeptRuns rs (rs ++ added)
KeptRuns-append [] added = tt
KeptRuns-append (r ∷ rs) added = (inl refl, KeptRuns-append rs added)

pub KeptRuns-same : (rs : List RunRow) → KeptRuns rs rs
KeptRuns-same [] = tt
KeptRuns-same (r ∷ rs) = (inl refl, KeptRuns-same rs)

pub KeptRun-then : (a b c : RunRow) → KeptRun a b → KeptRun b c → KeptRun a c
KeptRun-then a b c (inl e) (inl e') = inl (e' ∙ e)
KeptRun-then a b c (inl e) (inr settled) = inr (
    subst
      (λ r.
        (is_running r.status ≡ true)
        × (is_running c.status ≡ false)
        × (c.run_id ≡ r.run_id)
        × (c.started_at ≡ r.started_at))
      e settled)
KeptRun-then a b c (inr settled) (inl e) = inr (
    subst
      (λ r.
        (is_running a.status ≡ true)
        × (is_running r.status ≡ false)
        × (r.run_id ≡ a.run_id)
        × (r.started_at ≡ a.started_at))
      (sym e) settled)
KeptRun-then a b c (inr settled) (inr again) = absurd (cc)

pub KeptRuns-then : (rs ss ts : List RunRow) → KeptRuns rs ss → KeptRuns ss ts → KeptRuns rs ts
KeptRuns-then [] bs cs h k = tt
KeptRuns-then (a ∷ rs) [] cs h k = absurd h
KeptRuns-then (a ∷ rs) (b ∷ bs) [] h k = absurd k
KeptRuns-then (a ∷ rs) (b ∷ bs) (c ∷ cs) h k =
    (KeptRun-then a b c h.0 k.0, KeptRuns-then rs bs cs h.1 k.1)

pub was_running : (id : String) (r : RunRow) → is_open_run id r ≡ true → is_running r.status ≡ true
was_running id r h = ground arith

pub KeptRuns-update :
    (id : String) (change : RunRow → RunRow) (rs : List RunRow)
    → ((r : RunRow)
        → (is_running (change r).status ≡ false)
          × ((change r).run_id ≡ r.run_id)
          × ((change r).started_at ≡ r.started_at))
    → KeptRuns rs (update_runs id change rs)
KeptRuns-update id change [] settles = tt
KeptRuns-update id change (r ∷ rs) settles =
    let rest = KeptRuns-update id change rs settles in
    elim (Bool-cases (is_open_run id r)) [
      | inl holds ↦
          rw holds (let (a, b, c) = settles r in inr (was_running id r holds, a, b, c), rest)
      | inr fails ↦ rw fails (inl refl, rest)
    ]

-- What stays of the tables: rows are only added to four of them, and runs are kept.
pub record Keeps (d d' : Database) : Type 0 where
  pub runs : KeptRuns d.replay_runs d'.replay_runs
  pub events : Extends d.market_events d'.market_events
  pub decisions : Extends d.strategy_decisions d'.strategy_decisions
  pub evaluations : Extends d.risk_evaluations d'.risk_evaluations
  pub results : Extends d.execution_results d'.execution_results

pub Keeps-same : (d : Database) → Keeps d d
Keeps-same d = record {
  runs = KeptRuns-same d.replay_runs;
  events = Extends-same d.market_events;
  decisions = Extends-same d.strategy_decisions;
  evaluations = Extends-same d.risk_evaluations;
  results = Extends-same d.execution_results;
}

pub Keeps-runs :
    (d : Database) (rows : List RunRow)
    → KeptRuns d.replay_runs rows
    → Keeps d (record d { replay_runs = rows })
Keeps-runs d rows kept = record {
  runs = kept;
  events = Extends-same d.market_events;
  decisions = Extends-same d.strategy_decisions;
  evaluations = Extends-same d.risk_evaluations;
  results = Extends-same d.execution_results;
}

pub Keeps-events :
    (d : Database) (rows : List EventRow)
    → Extends d.market_events rows
    → Keeps d (record d { market_events = rows })
Keeps-events d rows kept = record {
  runs = KeptRuns-same d.replay_runs;
  events = kept;
  decisions = Extends-same d.strategy_decisions;
  evaluations = Extends-same d.risk_evaluations;
  results = Extends-same d.execution_results;
}

pub Keeps-decisions :
    (d : Database) (rows : List (PlanRow DecisionColumns))
    → Extends d.strategy_decisions rows
    → Keeps d (record d { strategy_decisions = rows })
Keeps-decisions d rows kept = record {
  runs = KeptRuns-same d.replay_runs;
  events = Extends-same d.market_events;
  decisions = kept;
  evaluations = Extends-same d.risk_evaluations;
  results = Extends-same d.execution_results;
}

pub Keeps-evaluations :
    (d : Database) (rows : List (PlanRow RiskColumns))
    → Extends d.risk_evaluations rows
    → Keeps d (record d { risk_evaluations = rows })
Keeps-evaluations d rows kept = record {
  runs = KeptRuns-same d.replay_runs;
  events = Extends-same d.market_events;
  decisions = Extends-same d.strategy_decisions;
  evaluations = kept;
  results = Extends-same d.execution_results;
}

pub Keeps-results :
    (d : Database) (rows : List (PlanRow ResultColumns))
    → Extends d.execution_results rows
    → Keeps d (record d { execution_results = rows })
Keeps-results d rows kept = record {
  runs = KeptRuns-same d.replay_runs;
  events = Extends-same d.market_events;
  decisions = Extends-same d.strategy_decisions;
  evaluations = Extends-same d.risk_evaluations;
  results = kept;
}

pub Keeps-then : (d e f : Database) → Keeps d e → Keeps e f → Keeps d f
Keeps-then d e f h k = record {
  runs = KeptRuns-then d.replay_runs e.replay_runs f.replay_runs h.runs k.runs;
  events = Extends-then d.market_events _ f.market_events h.events k.events;
  decisions = Extends-then d.strategy_decisions _ f.strategy_decisions h.decisions k.decisions;
  evaluations = Extends-then d.risk_evaluations _ f.risk_evaluations h.evaluations k.evaluations;
  results = Extends-then d.execution_results _ f.execution_results h.results k.results;
}
