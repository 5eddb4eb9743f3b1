-- ===== src/CampaignStore/Plan.antt =====
-- The plan that `initialize` writes, as the queries read it back.
use mathlib.Core.List.{append-nil, append_assoc}
use llm_arbitrage_system.Base.{
  ℕ, suc, String, ◌≡◌, ◌≢◌, refl, ap, ◌∙◌, inl, inr, Bool, true, ◌&&◌, none, some, List, [], ◌∷◌,
  ◌++◌, map, str_eq, eq_iff, arith,
}
use llm_arbitrage_system.Base.Tests.{Option-cases}
use llm_arbitrage_system.Base.Lists.{first?, select}
use llm_arbitrage_system.Base.Result.{ok, Result-cases, returned}
use llm_arbitrage_system.CampaignStore.Schema.{EvaluationRow, Store, of_campaign, order_by_ordinal}
use llm_arbitrage_system.CampaignStore.Queries.{
  campaign_row, evaluations, evaluation_ids, pending_evaluation_ids, runnable,
}
use llm_arbitrage_system.CampaignStore.Initialize.{
  CampaignManifest, initialized, already_initialized, initialize, create, reopen, same_plan,
  insert_evaluation, insert_evaluations, new_row, new_campaign,
}
use llm_arbitrage_system.CampaignStore.Changes.{insert_evaluation-append}

-- The rows of a plan, from `ordinal` on.
abbrev pub plan_rows : String → List String → ℕ → (ℕ → String) → List EvaluationRow
plan_rows cid [] ordinal clock = []
plan_rows cid (i ∷ ids) ordinal clock =
    new_row cid i ordinal (clock ordinal) ∷ plan_rows cid ids (suc ordinal) clock

insert_evaluations-plan_rows :
    (cid : String) (ids : List String) (k : ℕ) (clock : ℕ → String)
    (rows rows' : List EvaluationRow)
    → insert_evaluations cid ids k clock rows ≡ ok rows'
    → rows' ≡ rows ++ plan_rows cid ids k clock
unfolding insert_evaluations
insert_evaluations-plan_rows cid [] k clock rows rows' h = rw append-nil (cc)
insert_evaluations-plan_rows cid (i ∷ ids) k clock rows rows' h =
    let (mid, first, rest) =
      returned (λ m. insert_evaluations cid ids (suc k) clock m) rows'
        (insert_evaluation (new_row cid i k (clock k)) rows) h in
    insert_evaluations-plan_rows cid ids (suc k) clock mid rows' rest
    ∙ ap (λ rs. rs ++ plan_rows cid ids (suc k) clock)
        (insert_evaluation-append (new_row cid i k (clock k)) rows mid first)
    ∙ append_assoc rows (new_row cid i k (clock k) ∷ []) (plan_rows cid ids (suc k) clock)

-- A plan is in the order of its ordinals already.
order_plan_rows :
    (cid : String) (ids : List String) (k : ℕ) (clock : ℕ → String)
    → order_by_ordinal (plan_rows cid ids k clock) ≡ plan_rows cid ids k clock
order_plan_rows cid [] k clock = refl
order_plan_rows cid (i ∷ []) k clock = refl
order_plan_rows cid (i ∷ j ∷ ids) k clock =
    rw (order_plan_rows cid (j ∷ ids) (suc k) clock) (ground arith)

str_eq_self : (t : String) → str_eq t t ≡ true
str_eq_self t = (eq_iff t t).1 refl

select-append :
    (p : EvaluationRow → Bool) (xs ys : List EvaluationRow)
    → select p (xs ++ ys) ≡ select p xs ++ select p ys
select-append p [] ys = refl
select-append p (x ∷ xs) ys = ground (arith, select-append p xs ys)

-- Every row of a plan passes a test that new rows of the campaign pass.
select-plan_rows :
    (p : EvaluationRow → Bool) (cid : String) (ids : List String) (k : ℕ) (clock : ℕ → String)
    → ((i : String) (n : ℕ) (now : String) → p (new_row cid i n now) ≡ true)
    → select p (plan_rows cid ids k clock) ≡ plan_rows cid ids k clock
select-plan_rows p cid [] k clock h = refl
select-plan_rows p cid (i ∷ ids) k clock h =
    rw (h i k (clock k), select-plan_rows p cid ids (suc k) clock h)

ids-plan_rows :
    (cid : String) (ids : List String) (k : ℕ) (clock : ℕ → String)
    → map (λ r. r.evaluation_id) (plan_rows cid ids k clock) ≡ ids
ids-plan_rows cid [] k clock = refl
ids-plan_rows cid (i ∷ ids) k clock = rw (ids-plan_rows cid ids (suc k) clock)

same_plan_self : (ids : List String) → same_plan ids ids ≡ true
same_plan_self [] = refl
same_plan_self (i ∷ ids) = rw (str_eq_self i, same_plan_self ids)

first?-append_new :
    {A : Type 0} (p : A → Bool) (rows : List A) (x : A)
    → first? p rows ≡ none
    → p x ≡ true
    → first? p (rows ++ x ∷ []) ≡ some x
first?-append_new p [] x h e = rw e
first?-append_new p (r ∷ rows) x h e = ground (arith, first?-append_new p rows x)

-- What a call that created the campaign has written.
record Written (manifest : CampaignManifest) (ids : List String) (now : String) (clock : ℕ → String)
    (s s' : Store) : Type 0 where
  campaign : campaign_row manifest.campaign_id s' ≡ some (new_campaign manifest now)
  rows : s'.evaluations ≡ s.evaluations ++ plan_rows manifest.campaign_id ids 0 clock

create-Written :
    (manifest : CampaignManifest) (ids : List String) (now : String) (clock : ℕ → String)
    (s s' : Store)
    → campaign_row manifest.campaign_id s ≡ none
    → create manifest ids now clock s ≡ ok (initialized, s')
    → Written manifest ids now clock s s'
unfolding create campaign_row
create-Written manifest ids now clock s s' fresh h =
    elim (Result-cases (insert_evaluations manifest.campaign_id ids 0 clock s.evaluations)) [
      | inl (rows, made) ↦ record {
        campaign =
            let e : s'.campaigns ≡ s.campaigns ++ new_campaign manifest now ∷ [] = grind arith in
            rw e (
              first?-append_new (λ c. str_eq c.campaign_id manifest.campaign_id) s.campaigns
                (new_campaign manifest now) fresh (str_eq_self manifest.campaign_id));
        rows =
            let e : s'.evaluations ≡ rows = grind arith in
            e
            ∙ insert_evaluations-plan_rows manifest.campaign_id ids 0 clock s.evaluations rows made;
      }
      | inr (e, refused) ↦ absurd (grind arith)
    ]

initialize-Written :
    (manifest : CampaignManifest) (ids : List String) (now : String) (clock : ℕ → String)
    (s s' : Store)
    → initialize manifest ids now clock s ≡ ok (initialized, s')
    → Written manifest ids now clock s s'
unfolding initialize
initialize-Written manifest [] now clock s s' h = absurd (cc)
initialize-Written manifest (i ∷ ids) now clock s s' h =
    elim (Option-cases (campaign_row manifest.campaign_id s)) [
      | inl fresh ↦
          create-Written manifest (i ∷ ids) now clock s s' fresh (rw (fresh, initialize) at h)
      | inr (row, known) ↦ absurd (ground arith)
    ]

initialize-ids :
    (manifest : CampaignManifest) (ids : List String) (now : String) (clock : ℕ → String)
    (s s' : Store)
    → initialize manifest ids now clock s ≡ ok (initialized, s')
    → ids ≢ []
unfolding initialize
initialize-ids manifest [] now clock s s' h e = cc
initialize-ids manifest (i ∷ ids) now clock s s' h e = cc

reopen_same :
    (manifest : CampaignManifest) (created : String) (ids : List String) (later : String)
    (clock : ℕ → String) (s : Store)
    → ids ≢ []
    → campaign_row manifest.campaign_id s ≡ some (new_campaign manifest created)
    → evaluation_ids manifest.campaign_id s ≡ ids
    → initialize manifest ids later clock s ≡ ok (already_initialized, s)
unfolding initialize
reopen_same manifest created [] later clock s some_ids known back = absurd (some_ids refl)
reopen_same manifest created (i ∷ ids) later clock s some_ids known back = rw (
  known,
  initialize,
  reopen,
  str_eq_self manifest.campaign_run_id,
  str_eq_self manifest.manifest_json,
  back,
  same_plan_self (i ∷ ids),
)

select-and-none :
    (p q : EvaluationRow → Bool) (rows : List EvaluationRow)
    → select p rows ≡ []
    → select (λ r. p r && q r) rows ≡ []
select-and-none p q [] h = refl
select-and-none p q (r ∷ rows) h = ground (arith, select-and-none p q rows)

module _ (manifest : CampaignManifest) (ids : List String) (now : String) (clock : ℕ → String)
    (s s' : Store) (new_plan : select (of_campaign manifest.campaign_id) s.evaluations ≡ [])
    (done : initialize manifest ids now clock s ≡ ok (initialized, s')) where
  own_rows :
      select (of_campaign manifest.campaign_id) s'.evaluations
      ≡ plan_rows manifest.campaign_id ids 0 clock
  own_rows =
      rw
        (
          (initialize-Written manifest ids now clock s s' done).rows,
          select-append (of_campaign manifest.campaign_id) s.evaluations
              (plan_rows manifest.campaign_id ids 0 clock),
          new_plan,
        )
        (select-plan_rows (of_campaign manifest.campaign_id) manifest.campaign_id ids 0 clock
          (λ i n t. str_eq_self manifest.campaign_id))

  read_back : evaluation_ids manifest.campaign_id s' ≡ ids
  unfolding evaluation_ids evaluations
  read_back =
      rw (own_rows, order_plan_rows manifest.campaign_id ids 0 clock)
        (ids-plan_rows manifest.campaign_id ids 0 clock)

  pending_back :
      (include_failed : Bool) → pending_evaluation_ids manifest.campaign_id include_failed s' ≡ ids
  unfolding pending_evaluation_ids
  pending_back include_failed =
      let cid = manifest.campaign_id in
      let waits = λ (r : EvaluationRow). of_campaign cid r && runnable include_failed r.status in
      let none_before : select waits s.evaluations ≡ [] =
        select-and-none (of_campaign cid) (λ r. runnable include_failed r.status) s.evaluations
          new_plan in
      rw
        (
          (initialize-Written manifest ids now clock s s' done).rows,
          select-append waits s.evaluations (plan_rows cid ids 0 clock),
          none_before,
          select-plan_rows waits cid ids 0 clock (λ i n t. rw (str_eq_self cid)),
          order_plan_rows cid ids 0 clock,
        )
        (ids-plan_rows cid ids 0 clock)

  -- A plan that was written for a campaign with no rows is read back as it was given: the evaluation
  -- ids in their order, all of them pending, whether or not failed ones are asked for too; and
  -- initialising the same plan again, at any time, reports it and changes nothing.
  pub initialize_plan :
      (evaluation_ids manifest.campaign_id s' ≡ ids)
      × ((include_failed : Bool)
          → pending_evaluation_ids manifest.campaign_id include_failed s' ≡ ids)
      × ((later : String) (clock' : ℕ → String)
          → initialize manifest ids later clock' s' ≡ ok (already_initialized, s'))
  initialize_plan = (
    read_back,
    pending_back,
    λ later clock'.
        reopen_same manifest now ids later clock' s'
          (initialize-ids manifest ids now clock s s' done)
          (initialize-Written manifest ids now clock s s' done).campaign read_back,
  )
