-- ===== src/CampaignRunner.antt =====
-- experiments/campaign_runner.py: the loop of `run_campaign` over the pending evaluations, in batches,
-- and the end of a campaign. What one evaluation does besides the store is an argument.
use llm_arbitrage_system.Base.{
  ℕ, zero, suc, ◌+◌, String, Bool, true, false, not, ◌&&◌, ◌||◌, Option, none, some, List, [], ◌∷◌,
  ◌++◌,
}
use llm_arbitrage_system.Base.Tests.{ltb, leb, if◌then◌else◌}
use llm_arbitrage_system.Base.Lists.{any, count_if}
use llm_arbitrage_system.Base.Result.{Result, ok, err, raise_if, ◌>>=◌, ◌>>◌}
use llm_arbitrage_system.CampaignStore.Schema.{CampaignStatus, Store}
use llm_arbitrage_system.CampaignStore.Queries.{Error, still_running, CampaignStoreSummary, summary}
use llm_arbitrage_system.CampaignStore.Methods.{
  recover_interrupted, mark_running, mark_registered, mark_failed, finish,
}
pub mod Batches
pub mod Terminal
pub mod Ending
pub mod Reconcile
pub mod Outcomes
mod Tests

-- `CampaignExecutionPolicy` of experiments/campaign.py
pub record CampaignExecutionPolicy : Type 0 where
  pub maximum_parallel_evaluations : ℕ
  pub maximum_failures : ℕ
  pub stop_on_failure : Bool

-- `pending[:n]` and `del pending[:n]`
abbrev pub take : {A : Type 0} → ℕ → List A → List A
take zero xs = []
take (suc n) [] = []
take (suc n) (x ∷ xs) = x ∷ take n xs

abbrev pub drop : {A : Type 0} → ℕ → List A → List A
drop zero xs = xs
drop (suc n) [] = []
drop (suc n) (x ∷ xs) = drop n xs

-- Where the loop stands: what is pending still, the failures so far, whether it was asked to stop, and
-- the state.
pub record Loop (S : Type 0) : Type 0 where
  pub pending : List String
  pub failures : ℕ
  pub stop_requested : Bool
  pub state : S

-- The test after a batch.
abbrev pub must_stop : CampaignExecutionPolicy → ℕ → List Bool → Bool
must_stop execution failures outcomes =
    any not outcomes && (execution.stop_on_failure || leb execution.maximum_failures failures)

-- The `while` loop, with one unit of fuel for each batch. `run` is `asyncio.gather` of a batch: the
-- outcome of each of its evaluations, and the state that they leave, in whatever order they went on.
unfoldable pub batch_loop :
    {S : Type 0}
    → (List String → S → List Bool × S)
    → CampaignExecutionPolicy
    → ℕ
    → List String
    → ℕ
    → S
    → Option (Loop S)
batch_loop run execution fuel [] failures s =
    some (record { pending = []; failures = failures; stop_requested = false; state = s })
batch_loop run execution zero (p ∷ ps) failures s = none
batch_loop run execution (suc fuel) (p ∷ ps) failures s =
    let parallelism = execution.maximum_parallel_evaluations in
    let batch = take parallelism (p ∷ ps) in
    let rest = drop parallelism (p ∷ ps) in
    let (outcomes, s') = run batch s in
    let failures' = failures + count_if not outcomes in
    let next = batch_loop run execution fuel rest failures' s' in
    if must_stop execution failures' outcomes
    then some (record { pending = rest; failures = failures'; stop_requested = true; state = s' })
    else next

-- `_campaign_terminal_state`
unfoldable pub campaign_terminal_state : String → Store → Result Error CampaignStatus
campaign_terminal_state campaign_id s = do
  found ← summary campaign_id s
  raise_if (ltb 0 found.running) still_running
  ok (
      if ltb 0 found.pending
      then CampaignStatus.failed
      else if ltb 0 found.failed
      then CampaignStatus.partial
      else CampaignStatus.completed)

-- The end of `run_campaign`, without the files it writes.
unfoldable pub end_campaign : String → String → Store → Result Error (CampaignStoreSummary × Store)
unfolding campaign_terminal_state
end_campaign campaign_id now s = do
  status ← campaign_terminal_state campaign_id s
  finished ← finish campaign_id status now s
  found ← summary campaign_id finished.1
  ok (found, finished.1)

-- `except RuntimeError: pass`
abbrev pub or_before : Store → Result Error (Unit {0} × Store) → Store
or_before before (ok written) = written.1
or_before before (err error) = before

-- The `except` of `run_campaign`: an error of `finish` is dropped.
unfoldable pub abort_campaign : String → String → Store → Result Error Store
abort_campaign campaign_id now s = do
  recovered ← recover_interrupted campaign_id now s
  ok (or_before recovered.1 (finish campaign_id CampaignStatus.aborted now recovered.1))

-- What the `try` of `_run_one_evaluation` finds or makes before the store is written.
pub record Work : Type 0 where
  pub experiment_id : String
  pub bundle : String
  pub attestation : String

pub record Failure : Type 0 where
  pub error_type : String
  pub error_message : String

abbrev pub fail_evaluation :
    String → String → Failure → String → Store → Result Error (Bool × Store)
fail_evaluation campaign_id evaluation_id failure now s = do
  written ← mark_failed campaign_id evaluation_id failure.error_type failure.error_message now s
  ok (false, written.1)

-- `_run_one_evaluation`; `describe` is the type and the message of an error of the store.
unfoldable pub run_one_evaluation :
    (Error → Failure)
    → String
    → String
    → Result Failure Work
    → String
    → Store
    → Result Error (Bool × Store)
run_one_evaluation describe campaign_id evaluation_id work now s = do
  running ← mark_running campaign_id evaluation_id now s
  elim work [
    | err failure ↦ fail_evaluation campaign_id evaluation_id failure now running.1
    | ok w ↦
        elim (mark_registered campaign_id evaluation_id w.experiment_id w.bundle w.attestation now
          running.1) [
            | ok written ↦ ok (true, written.1)
            | err error ↦ fail_evaluation campaign_id evaluation_id (describe error) now running.1
          ]
  ]
