-- ===== src/CampaignRunner/Tests.antt =====
-- A campaign of three evaluations, the second of which fails.
use llm_arbitrage_system.Base.{
  ℕ, String, ◌≡◌, refl, Bool, true, not, none, some, List, [], ◌∷◌, map, str_eq, arith,
}
use llm_arbitrage_system.Base.Lists.{All, length-map}
use llm_arbitrage_system.Base.Int.{pos}
use llm_arbitrage_system.Base.Result.{ok}
use llm_arbitrage_system.Registry.Schema.{ExperimentRow, RegisteredEvaluation, Tables}
use llm_arbitrage_system.Registry.Reads.{verify}
use llm_arbitrage_system.CampaignStore.Schema.{
  CampaignStatus, EvaluationStatus, CampaignRow, EvaluationRow, Store,
}
use llm_arbitrage_system.CampaignStore.Queries.{
  Error, evaluations, evaluation, summary, campaign_row, count_of,
}
use llm_arbitrage_system.CampaignStore.Methods.{
  mark_running, mark_registered, finish, recover_interrupted, with_status, mark_skipped_existing,
  set_terminal,
}
use llm_arbitrage_system.CampaignRunner.{
  Failure, Work, CampaignExecutionPolicy, batch_loop, campaign_terminal_state, abort_campaign,
  end_campaign, run_one_evaluation,
}
use llm_arbitrage_system.CampaignRunner.Batches.{
  Ends, batch_loop-Ends, WithinLimits, batch_loop-WithinLimits,
}
use llm_arbitrage_system.CampaignRunner.Terminal.{
  finish-campaign_terminal_state, abort_campaign-finished,
}
use llm_arbitrage_system.CampaignRunner.Ending.{
  Documented, summary_of, ended_row, end_campaign-Documented,
}
use llm_arbitrage_system.CampaignRunner.Outcomes.{HasStatus, run_one_evaluation-HasStatus}
use llm_arbitrage_system.CampaignRunner.Reconcile.{
  registry_evidence, verify_registry_evidence_identity, reconcile_one, reconcile_all,
  reconcile_registered_evaluations, Reconciled, reconcile-Reconciled,
}

abbrev execution : CampaignExecutionPolicy
execution = record {
  maximum_parallel_evaluations = 2;
  maximum_failures = 1;
  stop_on_failure = true;
}

-- "e2" fails.
abbrev run : List String → Unit {0} → List Bool × Unit {0}
run batch s = (map (λ id. not (str_eq id "e2")) batch, s)

abbrev ids : List String
ids = "e1" ∷ "e2" ∷ "e3" ∷ []

stops_after_one_batch :
    batch_loop run execution 3 ids 0 tt
    ≡ some (record { pending = "e3" ∷ []; failures = 1; stop_requested = true; state = tt })
unfolding batch_loop
stops_after_one_batch = refl

batch_loop-Ends_example : Ends run execution ids 0 tt (batch_loop run execution 3 ids 0 tt)
batch_loop-Ends_example = batch_loop-Ends run execution 3 ids 0 tt (omega arith) (omega arith)

batch_loop-WithinLimits_example : WithinLimits execution (batch_loop run execution 3 ids 0 tt)
batch_loop-WithinLimits_example =
    batch_loop-WithinLimits run execution (λ batch s. length-map batch (λ id. not (str_eq id "e2")))
      3 ids 0 tt (omega arith) (omega arith) (omega arith)

abbrev row : String → ℕ → EvaluationStatus → EvaluationRow
row id ordinal status = record {
  campaign_id = "c";
  evaluation_id = id;
  ordinal = ordinal;
  status = status;
  attempt_count = 1;
  experiment_id = none;
  bundle_path = none;
  attestation_path = none;
  error_type = none;
  error_message = none;
  updated_at = "t";
}

abbrev campaign : CampaignRow
campaign = record {
  campaign_id = "c";
  campaign_run_id = "r";
  manifest_json = "{}";
  status = CampaignStatus.running;
  recovered_interrupted = 0;
  created_at = "t";
  started_at = some "t";
  completed_at = none;
}

abbrev store : EvaluationStatus → Store
store status = record {
  campaigns = campaign ∷ [];
  evaluations =
      row "e1" 0 EvaluationStatus.registered
      ∷ row "e2" 1 EvaluationStatus.failed
      ∷ row "e3" 2 status
      ∷ [];
}

stopped : campaign_terminal_state "c" (store EvaluationStatus.pending) ≡ ok CampaignStatus.failed
unfolding campaign_terminal_state summary campaign_row count_of
stopped = refl

finish-campaign_terminal_state_example :
    (s' : Store) × (finish "c" CampaignStatus.failed "t" (store EvaluationStatus.pending)
      ≡ ok (tt, s'))
finish-campaign_terminal_state_example =
    finish-campaign_terminal_state "c" "t" (store EvaluationStatus.pending) CampaignStatus.failed
      stopped

end_campaign-Documented_example :
    (status : CampaignStatus) × Documented status
      (count_of "c" EvaluationStatus.pending (store EvaluationStatus.pending))
      (count_of "c" EvaluationStatus.failed (store EvaluationStatus.pending))
    × (end_campaign "c" "t" (store EvaluationStatus.pending)
        ≡ ok (
          summary_of "c" (ended_row status "t" campaign) (store EvaluationStatus.pending),
          with_status "c" status "t" (store EvaluationStatus.pending),
        ))
unfolding campaign_row count_of
end_campaign-Documented_example =
    end_campaign-Documented "c" "t" (store EvaluationStatus.pending) campaign refl refl

abort_campaign-finished_example :
    (s' : Store) × (n : ℕ) × (recover_interrupted "c" "t" (store EvaluationStatus.running)
      ≡ ok (n, s'))
    × (abort_campaign "c" "t" (store EvaluationStatus.running)
        ≡ ok (with_status "c" CampaignStatus.aborted "t" s'))
abort_campaign-finished_example = abort_campaign-finished "c" "t" (store EvaluationStatus.running)

abbrev experiment : String → ExperimentRow
experiment id = record {
  experiment_id = id;
  run_id = id;
  bundle_path = "/b";
  bundle_root_sha256 = id;
  signer_key_id = "k";
  trusted = true;
  lineage_id = none;
  dataset_semantic_sha256 = "d";
  config_canonical_sha256 = "c";
  manifest_json = "{}";
  replay_report_json = "{}";
  performance_report_json = "{}";
  imported_at = "t";
}

abbrev registered_evaluation : String → String → RegisteredEvaluation
registered_evaluation id experiment_id = record {
  evaluation_id = id;
  experiment_id = experiment_id;
  matrix_sha256 = "m";
  candidate_id = "candidate";
  candidate_config_sha256 = "c";
  test_semantic_sha256 = "d";
  train_semantic_sha256 = "t";
  window_index = pos 0;
  evaluation_json = "{}";
  registered_at = "t";
}

-- The third row is skipped, with the experiment of the registry.
abbrev reconciled_store : Store
reconciled_store = record (store EvaluationStatus.pending) {
  evaluations =
      row "e1" 0 EvaluationStatus.registered
      ∷ row "e2" 1 EvaluationStatus.failed
      ∷ record (row "e3" 2 EvaluationStatus.skipped_existing) { experiment_id = some "x3" }
      ∷ [];
}

-- "e1" and "e3" are in the registry.
abbrev registry : Tables
registry = record {
  trusted_keys =
      record {
        key_id = "k";
        algorithm = "Ed25519";
        public_key_base64 = "AAAA";
        label = none;
        added_at = "t";
      }
      ∷ [];
  lineage_nodes = [];
  lineage_edges = [];
  experiments = experiment "x1" ∷ experiment "x3" ∷ [];
  evaluations = registered_evaluation "e1" "x1" ∷ registered_evaluation "e3" "x3" ∷ [];
}

reconciled :
    reconcile_registered_evaluations "c" "m" registry "k" none "t" (store EvaluationStatus.pending)
    ≡ ok reconciled_store
unfolding reconcile_registered_evaluations reconcile_all reconcile_one registry_evidence
    verify_registry_evidence_identity verify evaluations mark_skipped_existing set_terminal
    evaluation
reconciled = refl

reconcile-Reconciled_example :
    All
      (λ state. Reconciled "k" none state (registry_evidence "m" state.evaluation_id registry))
      (evaluations "c" (store EvaluationStatus.pending))
reconcile-Reconciled_example =
    reconcile-Reconciled "c" "m" registry "k" none "t" (store EvaluationStatus.pending)
      reconciled_store reconciled

abbrev done : Work
done = record { experiment_id = "x3"; bundle = "/b"; attestation = "/a" }

abbrev describe : Error → Failure
describe error = record { error_type = "RuntimeError"; error_message = "store" }

abbrev registered_store : Store
registered_store = record (store EvaluationStatus.pending) {
  evaluations =
      row "e1" 0 EvaluationStatus.registered
      ∷ row "e2" 1 EvaluationStatus.failed
      ∷ record (row "e3" 2 EvaluationStatus.registered) {
        attempt_count = 2;
        experiment_id = some "x3";
        bundle_path = some "/b";
        attestation_path = some "/a";
      }
      ∷ [];
}

registers_the_third :
    run_one_evaluation describe "c" "e3" (ok done) "t" (store EvaluationStatus.pending)
    ≡ ok (true, registered_store)
unfolding run_one_evaluation mark_running mark_registered set_terminal evaluation
registers_the_third = refl

run_one_evaluation-HasStatus_example :
    HasStatus "c" "e3" EvaluationStatus.registered registered_store
run_one_evaluation-HasStatus_example =
    run_one_evaluation-HasStatus describe "c" "e3" (ok done) "t" true
      (store EvaluationStatus.pending) registered_store registers_the_third
