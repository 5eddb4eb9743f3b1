-- ===== src/CampaignStore/Methods.antt =====
-- experiments/campaign_store.py: the methods of `CampaignStore` that change a written plan.
use llm_arbitrage_system.Base.{
  ℕ, ◌+◌, String, Bool, true, false, not, ◌&&◌, ◌||◌, Option, none, some, str_eq,
}
use llm_arbitrage_system.Base.Tests.{ltb, if◌then◌else◌}
use llm_arbitrage_system.Base.Lists.{count_if}
use llm_arbitrage_system.Base.Result.{Result, ok, err, ◌>>=◌, ◌>>◌, raise_if}
use llm_arbitrage_system.CampaignStore.Schema.{
  CampaignStatus, EvaluationStatus, EvaluationRow, Store, is_terminal_campaign,
  is_terminal_evaluation, same_status, same_text, has_key, has_status, update_where,
}
use llm_arbitrage_system.CampaignStore.Queries.{
  Error, cannot_run, immutable_conflict, invalid_terminal_state, still_running,
  completed_with_open_rows, partial_without_failure, failed_without_open_rows, Action, evaluation,
  campaign_status, count_of,
}

-- the SET clauses of `recover_interrupted` and `mark_running`
abbrev pub interrupted_row : String → EvaluationRow → EvaluationRow
interrupted_row now r = record r {
  status = EvaluationStatus.pending;
  error_type = none;
  error_message = none;
  updated_at = now;
}

abbrev pub running_row : String → EvaluationRow → EvaluationRow
running_row now r = record r {
  status = EvaluationStatus.running;
  attempt_count = r.attempt_count + 1;
  experiment_id = none;
  bundle_path = none;
  attestation_path = none;
  error_type = none;
  error_message = none;
  updated_at = now;
}

unfoldable pub recover_interrupted : String → String → Action ℕ
recover_interrupted campaign_id now s =
    let interrupted = has_status campaign_id EvaluationStatus.running in
    let recovered = count_if interrupted s.evaluations in
    ok (
      recovered,
      record {
        campaigns =
            if ltb 0 recovered
            then update_where (λ c. str_eq c.campaign_id campaign_id)
                (λ c. record c { recovered_interrupted = c.recovered_interrupted + recovered })
                s.campaigns
            else s.campaigns;
        evaluations = update_where interrupted (interrupted_row now) s.evaluations;
      },
    )

abbrev pub or_now : Option String → String → Option String
or_now none now = some now
or_now (some earlier) now = some earlier

-- the UPDATE of `start`, skipped for a completed campaign
unfoldable pub start_from : CampaignStatus → String → String → Store → Store
start_from CampaignStatus.completed campaign_id now s = s
start_from _ campaign_id now s = record s {
  campaigns =
      update_where (λ c. str_eq c.campaign_id campaign_id)
        (λ c. record c {
          status = CampaignStatus.running;
          started_at = or_now c.started_at now;
          completed_at = none;
        })
        s.campaigns;
}

unfoldable pub start : String → String → Action (Unit {0})
unfolding campaign_status start_from
start campaign_id now s = do
  status ← campaign_status campaign_id s
  ok (tt, start_from status campaign_id now s)

-- `current.status not in {"pending", "failed"}`
abbrev pub may_run : EvaluationStatus → Bool
may_run EvaluationStatus.pending = true
may_run EvaluationStatus.failed = true
may_run _ = false

unfoldable pub mark_running : String → String → String → Action (Unit {0})
unfolding evaluation
mark_running campaign_id evaluation_id now s = do
  current ← evaluation campaign_id evaluation_id s
  raise_if (not (may_run current.status)) cannot_run
  ok (
    tt,
    record s {
      evaluations =
          update_where (has_key campaign_id evaluation_id) (running_row now) s.evaluations;
    },
  )

-- The keyword arguments of `_set_terminal`.
pub record Outcome : Type 0 where
  pub status : EvaluationStatus
  pub experiment_id : Option String
  pub bundle_path : Option String
  pub attestation_path : Option String
  pub error_type : Option String
  pub error_message : Option String

-- `current.status in {"registered", "skipped_existing"}`
abbrev pub is_settled : EvaluationStatus → Bool
is_settled EvaluationStatus.registered = true
is_settled EvaluationStatus.skipped_existing = true
is_settled _ = false

abbrev pub settled_row : Outcome → String → EvaluationRow → EvaluationRow
settled_row o now r = record r {
  status = o.status;
  experiment_id = o.experiment_id;
  bundle_path = o.bundle_path;
  attestation_path = o.attestation_path;
  error_type = o.error_type;
  error_message = o.error_message;
  updated_at = now;
}

-- `_set_terminal`; the states left over by the second check are exactly the writable ones
unfoldable pub set_terminal : String → String → Outcome → String → Action (Unit {0})
unfolding evaluation
set_terminal campaign_id evaluation_id o now s = do
  raise_if (not (is_terminal_evaluation o.status)) invalid_terminal_state
  current ← evaluation campaign_id evaluation_id s
  if is_settled current.status
      then (if same_status current.status o.status
            && same_text current.experiment_id o.experiment_id
          then ok (tt, s)
          else err immutable_conflict)
      else ok (
        tt,
        record s {
          evaluations =
              update_where (has_key campaign_id evaluation_id) (settled_row o now) s.evaluations;
        },
      )

-- The paths are resolved ones.
abbrev pub registered_outcome : String → String → String → Outcome
registered_outcome experiment_id bundle_path attestation_path = record {
  status = EvaluationStatus.registered;
  experiment_id = some experiment_id;
  bundle_path = some bundle_path;
  attestation_path = some attestation_path;
  error_type = none;
  error_message = none;
}

unfoldable pub mark_registered :
    String → String → String → String → String → String → Action (Unit {0})
unfolding set_terminal
mark_registered campaign_id evaluation_id experiment_id bundle_path attestation_path =
    set_terminal campaign_id evaluation_id
      (registered_outcome experiment_id bundle_path attestation_path)

unfoldable pub mark_skipped_existing : String → String → Option String → String → Action (Unit {0})
unfolding set_terminal
mark_skipped_existing campaign_id evaluation_id experiment_id =
    set_terminal campaign_id evaluation_id (record {
      status = EvaluationStatus.skipped_existing;
      experiment_id = experiment_id;
      bundle_path = none;
      attestation_path = none;
      error_type = none;
      error_message = none;
    })

-- The message is the one that `_bounded_message` has cut.
unfoldable pub mark_failed : String → String → String → String → String → Action (Unit {0})
unfolding set_terminal
mark_failed campaign_id evaluation_id error_type error_message =
    set_terminal campaign_id evaluation_id (record {
      status = EvaluationStatus.failed;
      experiment_id = none;
      bundle_path = none;
      attestation_path = none;
      error_type = some error_type;
      error_message = some error_message;
    })

-- The three checks of `finish` on the counts of one campaign.
unfoldable pub check_finish : CampaignStatus → ℕ → ℕ → Result Error (Unit {0})
check_finish CampaignStatus.completed open_rows failures =
    raise_if (ltb 0 open_rows || ltb 0 failures) completed_with_open_rows
check_finish CampaignStatus.partial open_rows failures =
    raise_if (not (ltb 0 failures)) partial_without_failure
check_finish CampaignStatus.failed open_rows failures =
    raise_if (not (ltb 0 failures || ltb 0 open_rows)) failed_without_open_rows
check_finish _ open_rows failures = ok tt

-- the UPDATE of `finish`
abbrev pub with_status : String → CampaignStatus → String → Store → Store
with_status campaign_id status now s = record s {
  campaigns =
      update_where (λ c. str_eq c.campaign_id campaign_id)
        (λ c. record c { status = status; completed_at = some now }) s.campaigns;
}

unfoldable pub finish : String → CampaignStatus → String → Action (Unit {0})
unfolding check_finish count_of
finish campaign_id status now s = do
  raise_if (not (is_terminal_campaign status)) invalid_terminal_state
  raise_if (ltb 0 (count_of campaign_id EvaluationStatus.running s)) still_running
  check_finish status (count_of campaign_id EvaluationStatus.pending s)
      (count_of campaign_id EvaluationStatus.failed s)
  ok (tt, with_status campaign_id status now s)
