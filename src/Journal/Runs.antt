-- ===== src/Journal/Runs.antt =====
-- How a run ends.
use llm_arbitrage_system.Base.{
  ◌≤◌, String, ◌≡◌, ◌≢◌, refl, sym, ap, subst, ◌∙◌, ◌⊎◌, inl, inr, true, false, Option, some, List,
  [], ◌∷◌, str_eq, arith,
}
use llm_arbitrage_system.Base.Tests.{Bool-cases, Option-cases}
use llm_arbitrage_system.Base.Lists.{first?, count_if}
use llm_arbitrage_system.Base.Result.{ok, err}
use llm_arbitrage_system.Journal.Schema.{
  Journal, RunRow, RunStatus, running, completed, aborted, is_running, is_run, run_not_running,
  Written,
}
use llm_arbitrage_system.Journal.Methods.{
  is_open_run, update_runs, completed_row, with_runs, complete_run,
}
use llm_arbitrage_system.Journal.Reads.{run_status, load_report, load_performance_report}

-- The run is among the rows, and running; or it is not running there, and an update changes nothing.
abbrev OneRun : String → (RunRow → RunRow) → List RunRow → Type 0
OneRun id change rows =
    ((row : RunRow) × (first? (is_run id) rows ≡ some row)
      × (is_running row.status ≡ true)
      × (count_if (is_open_run id) rows ≡ 1)
      × (first? (is_run id) (update_runs id change rows) ≡ some (change row)))
    ⊎ ((count_if (is_open_run id) rows ≡ 0)
        × (update_runs id change rows ≡ rows)
        × ((row : RunRow) → first? (is_run id) rows ≡ some row → is_running row.status ≡ false))

module _ (id : String) (change : RunRow → RunRow)
    (same : (r : RunRow) → (change r).run_id ≡ r.run_id) where
  no_run :
      (rows : List RunRow)
      → count_if (is_run id) rows ≡ 0
      → (count_if (is_open_run id) rows ≡ 0) × (update_runs id change rows ≡ rows)
  no_run [] h = (refl, refl)
  no_run (r ∷ rows) h = elim (Bool-cases (is_run id r)) [
    | inl own ↦ absurd (ground (arith, own))
    | inr other ↦
        let (none_open, kept) = no_run rows (ground (arith, other)) in
        rw other (none_open, ap (λ l. r ∷ l) kept)
  ]

  own_run :
      (r : RunRow) (rows : List RunRow)
      → is_run id r ≡ true
      → (count_if (is_open_run id) rows ≡ 0) × (update_runs id change rows ≡ rows)
      → OneRun id change (r ∷ rows)
  own_run r rows own (none_open, kept) =
      let still : is_run id (change r) ≡ true = ap (λ t. str_eq t id) (same r) ∙ own in
      elim (Bool-cases (is_running r.status)) [
        | inl live ↦
            inl (r, rw own refl, live, rw (own, live, none_open) refl, rw (own, live, still) refl)
        | inr dead ↦ inr (
          rw (own, dead) none_open,
          rw (own, dead) (ap (λ l. r ∷ l) kept),
          λ row e. ground (arith, own, dead),
        )
      ]

  other_run :
      (r : RunRow) (rows : List RunRow)
      → is_run id r ≡ false
      → OneRun id change rows
      → OneRun id change (r ∷ rows)
  other_run r rows other (inl (row, found, live, one, changed)) =
      inl (row, rw other found, live, rw other one, rw (other, other) changed)
  other_run r rows other (inr (none_open, kept, dead)) =
      inr (rw other none_open, rw other (ap (λ l. r ∷ l) kept), λ row e. dead row (rw other at e))

  rows-OneRun : (rows : List RunRow) → count_if (is_run id) rows ≤ 1 → OneRun id change rows
  rows-OneRun [] h = inr (refl, refl, λ row e. absurd (cc))
  rows-OneRun (r ∷ rows) h = elim (Bool-cases (is_run id r)) [
    | inl own ↦ own_run r rows own (no_run rows (ground (arith, own)))
    | inr other ↦ other_run r rows other (rows-OneRun rows (ground (arith, other)))
  ]

running_is : (s : RunStatus) → is_running s ≡ true → s ≡ running
running_is running h = refl
running_is completed h = absurd (cc)
running_is aborted h = absurd (cc)

not_running :
    (j : Journal)
    → ((row : RunRow)
        → first? (is_run j.run_id) j.database.replay_runs ≡ some row
        → is_running row.status ≡ false)
    → run_status j ≢ some running
unfolding run_status
not_running j dead h = elim (Option-cases (first? (is_run j.run_id) j.database.replay_runs)) [
  | inl missing ↦ absurd (let bad = rw (missing, run_status) at h in cc)
  | inr (row, found) ↦
      absurd (let bad = rw (found, run_status) at h in let never = dead row found in ground (arith))
]

-- What `complete_run` and `abort_run` do to the row of the journal's run, by its status.
module _ (now report : String) (performance : Option String) (j : Journal) where
  -- The run was running: the call returns, and the run reads as completed, with its reports.
  abbrev pub Completes : Written → Type 0
  Completes (j', returned) =
      (run_status j ≡ some running)
      × (returned ≡ ok tt)
      × (run_status j' ≡ some completed)
      × (load_report j' ≡ some report)
      × (load_performance_report j' ≡ performance)

  -- It was not: the call raises and leaves the tables as they were.
  abbrev pub Refuses : Written → Type 0
  Refuses (j', returned) =
      (run_status j ≢ some running) × (returned ≡ err run_not_running) × (j' ≡ j)

  -- complete_run on an open journal, where at most one row has its run id as the primary key says,
  -- returns exactly if the run reads as running. It then reads as completed, with the given report and
  -- performance report; if it does not read as running, the call raises and changes no row.
  pub complete_run-exact :
      j.is_closed ≡ false
      → count_if (is_run j.run_id) j.database.replay_runs ≤ 1
      → Completes (complete_run now report performance j)
        ⊎ Refuses (complete_run now report performance j)
  unfolding complete_run run_status load_report load_performance_report
  complete_run-exact open_now key =
      elim (rows-OneRun j.run_id (completed_row now report performance) (λ r. refl)
        j.database.replay_runs key) [
          | inl (row, found, live, one, changed) ↦
              let eq : complete_run now report performance j ≡ (
                with_runs j (
                    update_runs j.run_id (completed_row now report performance)
                      j.database.replay_runs),
                ok tt,
              ) =
                rw (open_now, one) refl in
              inl (
                subst Completes (sym eq) (
                  rw (found, run_status) (ap some (running_is row.status live)),
                  refl,
                  rw (changed, run_status) refl,
                  rw (changed, load_report) refl,
                  rw (changed, load_performance_report) refl,
                ))
          | inr (none_open, kept, dead) ↦
              let eq : complete_run now report performance j ≡ (j, err run_not_running) =
                rw (open_now, none_open, kept) refl in
              inr (subst Refuses (sym eq) (not_running j dead, refl, refl))
        ]
