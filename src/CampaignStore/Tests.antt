-- ===== src/CampaignStore/Tests.antt =====
-- The store on a campaign of two evaluations.
use llm_arbitrage_system.Base.{
  ℕ, ◌+◌, String, ◌≡◌, ◌↔◌, ◌⊎◌, refl, Bool, false, none, some, List, [], ◌∷◌, str_eq,
}
use llm_arbitrage_system.Base.Result.{ok, err}
use llm_arbitrage_system.CampaignStore.Schema.{
  CampaignStatus, EvaluationStatus, CampaignRow, EvaluationRow, Store,
}
use llm_arbitrage_system.CampaignStore.Queries.{
  evaluation, evaluation_ids, pending_evaluation_ids, CampaignStoreSummary, summary, still_running,
  count_of,
}
use llm_arbitrage_system.CampaignStore.Initialize.{
  CampaignManifest, initialize, initialized, already_initialized, new_row,
}
use llm_arbitrage_system.CampaignStore.Methods.{
  with_status, recover_interrupted, mark_running, finish, interrupted_row, running_row,
}
use llm_arbitrage_system.CampaignStore.Changes.{Call, runs, recovers, apply, Change}
use llm_arbitrage_system.CampaignStore.Transitions.{Found, apply-Change, replay, replay-settled}
use llm_arbitrage_system.CampaignStore.Totals.{
  Permits, finish_iff, recover_interrupted-counts, is_waiting,
}
use llm_arbitrage_system.CampaignStore.Plan.{initialize_plan}

abbrev manifest : CampaignManifest
manifest = record { campaign_id = "c"; campaign_run_id = "r"; manifest_json = "{}" }

abbrev campaign : CampaignStatus → CampaignRow
campaign status = record {
  campaign_id = "c";
  campaign_run_id = "r";
  manifest_json = "{}";
  status = status;
  recovered_interrupted = 0;
  created_at = "t0";
  started_at = none;
  completed_at = none;
}

abbrev first_row : EvaluationRow
first_row = new_row "c" "e1" 0 "t1"

abbrev second_row : EvaluationRow
second_row = new_row "c" "e2" 1 "t1"

abbrev empty : Store
empty = record { campaigns = []; evaluations = [] }

abbrev fresh : Store
fresh = record {
  campaigns = campaign CampaignStatus.planned ∷ [];
  evaluations = first_row ∷ second_row ∷ [];
}

-- The first evaluation runs, the second is registered.
abbrev done_row : EvaluationRow
done_row = record second_row { status = EvaluationStatus.registered; experiment_id = some "x" }

abbrev busy : Store
busy = record fresh { evaluations = running_row "t2" first_row ∷ done_row ∷ [] }

abbrev closed : Store
closed = record fresh { evaluations = done_row ∷ [] }

initialize-fresh :
    initialize manifest ("e1" ∷ "e2" ∷ []) "t0" (λ _. "t1") empty ≡ ok (initialized, fresh)
unfolding initialize
initialize-fresh = refl

initialize_plan_example :
    (evaluation_ids "c" fresh ≡ "e1" ∷ "e2" ∷ [])
    × ((include_failed : Bool) → pending_evaluation_ids "c" include_failed fresh ≡ "e1" ∷ "e2" ∷ [])
    × ((later : String) (clock' : ℕ → String)
        → initialize manifest ("e1" ∷ "e2" ∷ []) later clock' fresh
          ≡ ok (already_initialized, fresh))
initialize_plan_example =
    initialize_plan manifest ("e1" ∷ "e2" ∷ []) "t0" (λ _. "t1") empty fresh refl initialize-fresh

finish-busy : finish "c" CampaignStatus.aborted "t3" busy ≡ err still_running
unfolding finish
finish-busy = refl

run_first :
    apply (runs "c" "e1") "t2" fresh
    ≡ ok (record fresh { evaluations = running_row "t2" first_row ∷ second_row ∷ [] })
unfolding mark_running
run_first = refl

Found-first : Found "c" "e1" fresh first_row
unfolding evaluation
Found-first = refl

apply-Change_example :
    (r' : EvaluationRow) × Found "c" "e1"
      (record fresh { evaluations = running_row "t2" first_row ∷ second_row ∷ [] })
      r'
    × Change first_row r'
apply-Change_example =
    apply-Change "c" "e1" (runs "c" "e1") "t2" fresh _ first_row run_first Found-first

Found-done : Found "c" "e2" busy done_row
unfolding evaluation
Found-done = refl

abbrev later_calls : List (Call × String)
later_calls = (recovers "c", "t3") ∷ (runs "c" "e2", "t4") ∷ (runs "c" "e1", "t5") ∷ []

replay-settled_example : Found "c" "e2" (replay later_calls busy) done_row
replay-settled_example = replay-settled "c" "e2" later_calls busy done_row Found-done refl

abbrev busy_summary : CampaignStoreSummary
busy_summary = record {
  campaign_id = "c";
  status = CampaignStatus.planned;
  planned = 2;
  pending = 0;
  running = 1;
  registered = 1;
  skipped_existing = 0;
  failed = 0;
  recovered_interrupted = 0;
}

summary-busy : summary "c" busy ≡ ok busy_summary
unfolding summary
summary-busy = refl

finish_iff_example :
    ((s' : Store) × (finish "c" CampaignStatus.completed "t3" closed ≡ ok (tt, s')))
    ↔ Permits CampaignStatus.completed
        (count_of "c" EvaluationStatus.pending closed)
        (count_of "c" EvaluationStatus.running closed)
        (count_of "c" EvaluationStatus.failed closed)
finish_iff_example = finish_iff "c" "t3" closed CampaignStatus.completed

-- A failed evaluation, and one that is pending.
abbrev half_done : Store
half_done = record fresh {
  evaluations = record first_row { status = EvaluationStatus.failed } ∷ second_row ∷ [];
}

partial_with_pending :
    finish "c" CampaignStatus.partial "t3" half_done
    ≡ ok (tt, with_status "c" CampaignStatus.partial "t3" half_done)
unfolding finish
partial_with_pending = refl

abbrev completed_store : Store
completed_store = record closed {
  campaigns = record (campaign CampaignStatus.completed) { completed_at = some "t3" } ∷ [];
}

finish-closed : finish "c" CampaignStatus.completed "t3" closed ≡ ok (tt, completed_store)
unfolding finish
finish-closed = refl

abbrev recovered_store : Store
recovered_store = record {
  campaigns = record (campaign CampaignStatus.planned) { recovered_interrupted = 1 } ∷ [];
  evaluations = interrupted_row "t3" (running_row "t2" first_row) ∷ done_row ∷ [];
}

recover_busy : recover_interrupted "c" "t3" busy ≡ ok (1, recovered_store)
unfolding recover_interrupted
recover_busy = refl

recover_interrupted-counts_example :
    (1 ≡ count_of "c" EvaluationStatus.running busy)
    × (count_of "c" EvaluationStatus.running recovered_store ≡ 0)
    × (count_of "c" EvaluationStatus.pending recovered_store
        ≡ count_of "c" EvaluationStatus.pending busy + 1)
    × ((other : String) (status : EvaluationStatus)
        → (str_eq other "c" ≡ false) ⊎ (is_waiting status ≡ false)
        → count_of other status recovered_store ≡ count_of other status busy)
recover_interrupted-counts_example =
    recover_interrupted-counts "c" "t3" busy recovered_store 1 recover_busy
