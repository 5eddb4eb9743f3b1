-- ===== src/CampaignStore/Changes.antt =====
-- What a call may change of an evaluation's row, and what it inserts.
use mathlib.Core.List.{append-nil, append_assoc}
use llm_arbitrage_system.Base.{
  ℕ, suc, ◌+◌, String, ◌≡◌, refl, ap, ◌∙◌, true, false, List, [], ◌∷◌, ◌++◌, eq_iff, arith,
}
use llm_arbitrage_system.Base.Result.{Result, ok, err, returned}
use llm_arbitrage_system.CampaignStore.Schema.{
  CampaignStatus, EvaluationStatus, EvaluationRow, Store, has_key, is_terminal_evaluation,
}
use llm_arbitrage_system.CampaignStore.Queries.{Error}
use llm_arbitrage_system.CampaignStore.Initialize.{
  CampaignManifest, initialize, insert_evaluation, insert_evaluations, new_row,
}
use llm_arbitrage_system.CampaignStore.Methods.{
  Outcome, recover_interrupted, start, start_from, mark_running, set_terminal, finish, may_run,
  is_settled,
}

-- A call of a method that writes. `settle` is `_set_terminal`, which `mark_registered`,
-- `mark_skipped_existing` and `mark_failed` call with their own outcomes.
pub data Call : Type 0 where
  initializes : CampaignManifest → List String → (ℕ → String) → Call
  recovers : String → Call
  starts : String → Call
  runs : String → String → Call
  settles : String → String → Outcome → Call
  finishes : String → CampaignStatus → Call

abbrev pub tables : {A : Type 0} → Result Error (A × Store) → Result Error Store
tables (ok (_, s)) = ok s
tables (err e) = err e

abbrev pub apply : Call → String → Store → Result Error Store
apply (initializes manifest ids clock) now s = tables (initialize manifest ids now clock s)
apply (recovers campaign_id) now s = tables (recover_interrupted campaign_id now s)
apply (starts campaign_id) now s = tables (start campaign_id now s)
apply (runs campaign_id evaluation_id) now s = tables (mark_running campaign_id evaluation_id now s)
apply (settles campaign_id evaluation_id o) now s =
    tables (set_terminal campaign_id evaluation_id o now s)
apply (finishes campaign_id status) now s = tables (finish campaign_id status now s)

-- The edges of the state machine of one evaluation.
pub data Change (r r' : EvaluationRow) : Type 0 where
  unchanged : r' ≡ r → Change r r'
  -- pending or failed → running, one more attempt
  attempted :
      may_run r.status ≡ true
      → r'.status ≡ EvaluationStatus.running
      → r'.attempt_count ≡ r.attempt_count + 1
      → Change r r'
  -- running → pending, with the attempts and the evidence kept
  interrupted :
      r.status ≡ EvaluationStatus.running
      → r'.status ≡ EvaluationStatus.pending
      → r'.attempt_count ≡ r.attempt_count
      → Change r r'
  -- pending, running or failed → registered, skipped_existing or failed
  settled :
      is_settled r.status ≡ false
      → is_terminal_evaluation r'.status ≡ true
      → r'.attempt_count ≡ r.attempt_count
      → Change r r'

pub same_key :
    (c e c' e' : String) (r : EvaluationRow)
    → has_key c e r ≡ true
    → has_key c' e' r ≡ true
    → (c ≡ c') × (e ≡ e')
same_key c e c' e' r h h' = ground (
  arith,
  eq_iff r.campaign_id c,
  eq_iff r.campaign_id c',
  eq_iff r.evaluation_id e,
  eq_iff r.evaluation_id e',
)

pub insert_evaluation-append :
    (r : EvaluationRow) (rows rows' : List EvaluationRow)
    → insert_evaluation r rows ≡ ok rows'
    → rows' ≡ rows ++ r ∷ []
unfolding insert_evaluation
insert_evaluation-append r rows rows' h = ground arith

pub insert_evaluations-append :
    (cid : String) (ids : List String) (k : ℕ) (clock : ℕ → String)
    (rows rows' : List EvaluationRow)
    → insert_evaluations cid ids k clock rows ≡ ok rows'
    → (more : List EvaluationRow) × (rows' ≡ rows ++ more)
unfolding insert_evaluations
insert_evaluations-append cid [] k clock rows rows' h = ([], rw append-nil (cc))
insert_evaluations-append cid (i ∷ ids) k clock rows rows' h =
    let (mid, first, rest) =
      returned (λ m. insert_evaluations cid ids (suc k) clock m) rows'
        (insert_evaluation (new_row cid i k (clock k)) rows) h in
    let (more, e) = insert_evaluations-append cid ids (suc k) clock mid rows' rest in
    (
      new_row cid i k (clock k) ∷ more,
      e
          ∙ ap (λ rs. rs ++ more)
              (insert_evaluation-append (new_row cid i k (clock k)) rows mid first)
          ∙ append_assoc rows (new_row cid i k (clock k) ∷ []) more,
    )

pub start_from-evaluations :
    (status : CampaignStatus) (campaign_id now : String) (s : Store)
    → (start_from status campaign_id now s).evaluations ≡ s.evaluations
unfolding start_from
start_from-evaluations CampaignStatus.completed campaign_id now s = refl
start_from-evaluations _ campaign_id now s = refl
