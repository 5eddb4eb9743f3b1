-- ===== src/Journal/Methods.antt =====
-- storage/sqlite_journal.py: the methods that write a run or insert a row.
use llm_arbitrage_system.Base.{
  String, Bool, true, not, ◌&&◌, Option, none, some, List, [], ◌∷◌, ◌++◌,
}
use llm_arbitrage_system.Base.Tests.{if◌then◌else◌, ◌==◌}
use llm_arbitrage_system.Base.Lists.{count_if}
use llm_arbitrage_system.Base.Result.{ok, err}
use llm_arbitrage_system.Journal.Schema.{
  EventRow, Journal, RunRow, Written, aborted, completed, constraint_failed, has_event, has_run,
  if_open, is_run, is_running, run_not_running, running,
}

-- `_start_run_sync`
abbrev pub new_run : String → String → RunRow
new_run id now = record {
  run_id = id;
  started_at = now;
  completed_at = none;
  status = running;
  error = none;
  report_json = none;
  performance_report_json = none;
}

unfoldable pub start_run : String → Journal → Written
start_run now j = if_open j (
    if has_run j.run_id j.database.replay_runs then (j, err constraint_failed) else (
      record j {
        database = record j.database {
          replay_runs = j.database.replay_runs ++ new_run j.run_id now ∷ [];
        };
      },
      ok tt,
    ))

-- the INSERT of `_record_market_event_sync`, with the sequence number taken before
unfoldable pub insert_event : EventRow → Journal → Written
insert_event row j =
    if has_run row.run_id j.database.replay_runs
      && not (has_event row.run_id row.sequence j.database.market_events)
    then (
      record j {
        database = record j.database { market_events = j.database.market_events ++ row ∷ [] };
      },
      ok tt,
    )
    else (j, err constraint_failed)

-- The rows that `complete_run` and `abort_run` update.
abbrev pub is_open_run : String → RunRow → Bool
is_open_run id row = is_run id row && is_running row.status

abbrev pub completed_row : String → String → Option String → RunRow → RunRow
completed_row now report performance row = record row {
  completed_at = some now;
  status = completed;
  error = none;
  report_json = some report;
  performance_report_json = performance;
}

abbrev pub aborted_row : String → String → RunRow → RunRow
aborted_row now message row = record row {
  completed_at = some now;
  status = aborted;
  error = some message;
}

-- UPDATE replay_runs SET ... WHERE run_id = ? AND status = 'running'
abbrev pub update_runs : String → (RunRow → RunRow) → List RunRow → List RunRow
update_runs id change [] = []
update_runs id change (row ∷ rows) =
    (if is_open_run id row then change row else row) ∷ update_runs id change rows

abbrev pub with_runs : Journal → List RunRow → Journal
with_runs j rows = record j { database = record j.database { replay_runs = rows } }

-- `complete_run`, on the texts of its reports
unfoldable pub complete_run : String → String → Option String → Journal → Written
complete_run now report performance j = if_open j (
    let runs = j.database.replay_runs in
    (
      with_runs j (update_runs j.run_id (completed_row now report performance) runs),
      (if count_if (is_open_run j.run_id) runs == 1 then ok tt else err run_not_running),
    ))

unfoldable pub abort_run : String → String → Journal → Written
abort_run now message j =
    if_open j
      (with_runs j (update_runs j.run_id (aborted_row now message) j.database.replay_runs), ok tt)

unfoldable pub close : Journal → Written
close j = (record j { is_closed = true }, ok tt)
