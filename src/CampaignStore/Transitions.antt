-- ===== src/CampaignStore/Transitions.antt =====
-- What a call of the store can do to an evaluation that is in its plan.
use llm_arbitrage_system.Base.{
  ℕ, String, ◌≡◌, refl, subst, inl, inr, Bool, true, some, List, [], ◌∷◌, ◌++◌, arith,
}
use llm_arbitrage_system.Base.Tests.{Bool-cases, Option-cases}
use llm_arbitrage_system.Base.Lists.{first?}
use llm_arbitrage_system.Base.Result.{ok, err, Result-cases}
use llm_arbitrage_system.CampaignStore.Schema.{
  CampaignStatus, EvaluationStatus, EvaluationRow, Store, has_key, has_status, update_where,
}
use llm_arbitrage_system.CampaignStore.Queries.{evaluation, campaign_row, campaign_status}
use llm_arbitrage_system.CampaignStore.Initialize.{
  CampaignManifest, initialize, create, insert_evaluations,
}
use llm_arbitrage_system.CampaignStore.Methods.{
  Outcome, recover_interrupted, start, mark_running, set_terminal, finish, interrupted_row,
  running_row, settled_row, is_settled,
}
use llm_arbitrage_system.CampaignStore.Updates.{updated, first?-update_where}
use llm_arbitrage_system.Base.Lists.{first?-append, first?-passes}
use llm_arbitrage_system.CampaignStore.Changes.{
  Call, Change, apply, attempted, finishes, initializes, insert_evaluations-append, interrupted,
  recovers, runs, same_key, settled, settles, start_from-evaluations, starts, tables, unchanged,
}

module _ (cid eid : String) where
  abbrev pub Found : Store → EvaluationRow → Type 0
  Found s r = evaluation cid eid s ≡ ok r

  -- `evaluation` is the lookup by the primary key.
  Found-first? :
      (s : Store) (r : EvaluationRow) → Found s r → first? (has_key cid eid) s.evaluations ≡ some r
  unfolding evaluation
  Found-first? s r h = ground arith

  first?-Found :
      (s : Store) (r : EvaluationRow) → first? (has_key cid eid) s.evaluations ≡ some r → Found s r
  unfolding evaluation
  first?-Found s r h = rw h

  abbrev After : Store → EvaluationRow → Type 0
  After s' r = (r' : EvaluationRow) × Found s' r' × Change r r'

  -- The row that a call finds under its own key is `r` when the keys agree.
  same_row :
      (c e : String) (s : Store) (r current : EvaluationRow)
      → evaluation c e s ≡ ok current
      → Found s r
      → has_key c e r ≡ true
      → r ≡ current
  same_row c e s r current found h hit =
      let passes = first?-passes (has_key cid eid) s.evaluations r (Found-first? s r h) in
      let (ec, ee) = same_key c e cid eid r hit passes in
      let found' : Found s current =
        subst (λ z. evaluation cid z s ≡ ok current) ee
          (subst (λ z. evaluation z e s ≡ ok current) ec found) in
      cc

  -- An UPDATE that keeps the key changes the row found as `f` says, or not at all.
  update-After :
      (p : EvaluationRow → Bool) (f : EvaluationRow → EvaluationRow) (s s' : Store)
      (r : EvaluationRow)
      → ((x : EvaluationRow) → has_key cid eid (f x) ≡ has_key cid eid x)
      → s'.evaluations ≡ update_where p f s.evaluations
      → Found s r
      → (p r ≡ true → Change r (f r))
      → After s' r
  update-After p f s s' r keeps e h change = (updated p f r, first?-Found s' _ lookup, step)
    where
      lookup : first? (has_key cid eid) s'.evaluations ≡ some (updated p f r)
      lookup =
          rw e
            (first?-update_where (has_key cid eid) p f s.evaluations r keeps (Found-first? s r h))

      step : Change r (updated p f r)
      step = elim (Bool-cases (p r)) [
        | inl hit ↦ rw hit (change hit)
        | inr miss ↦ rw miss (unchanged refl)
      ]

  recover_interrupted-After :
      (campaign_id now : String) (s s' : Store) (r : EvaluationRow)
      → apply (recovers campaign_id) now s ≡ ok s'
      → Found s r
      → After s' r
  unfolding recover_interrupted
  recover_interrupted-After campaign_id now s s' r done h =
      update-After (has_status campaign_id EvaluationStatus.running) (interrupted_row now) s s' r
        (λ x. refl) (ground arith) h (λ hit. interrupted (ground arith) refl refl)

  start-After :
      (campaign_id now : String) (s s' : Store) (r : EvaluationRow)
      → apply (starts campaign_id) now s ≡ ok s'
      → Found s r
      → After s' r
  unfolding start campaign_status
  start-After campaign_id now s s' r done h =
      let same : s'.evaluations ≡ s.evaluations = grind (arith, start_from-evaluations) in
      (r, first?-Found s' r (rw same (Found-first? s r h)), unchanged refl)

  mark_running-After :
      (c e now : String) (s s' : Store) (r : EvaluationRow)
      → apply (runs c e) now s ≡ ok s'
      → Found s r
      → After s' r
  unfolding mark_running
  mark_running-After c e now s s' r done h = elim (Result-cases (evaluation c e s)) [
    | inl (current, found) ↦
        update-After (has_key c e) (running_row now) s s' r (λ x. refl) (ground arith) h
          (λ hit. attempted (rw (same_row c e s r current found h hit) (ground arith)) refl refl)
    | inr (e, missing) ↦ absurd (ground arith)
  ]

  same-After :
      (s s' : Store) (r : EvaluationRow) → s'.evaluations ≡ s.evaluations → Found s r → After s' r
  same-After s s' r e h = (r, first?-Found s' r (rw e (Found-first? s r h)), unchanged refl)

  set_terminal-After :
      (c e : String) (o : Outcome) (now : String) (s s' : Store) (r : EvaluationRow)
      → apply (settles c e o) now s ≡ ok s'
      → Found s r
      → After s' r
  unfolding set_terminal
  set_terminal-After c e o now s s' r done h = elim (Result-cases (evaluation c e s)) [
    | inl (current, found) ↦ elim (Bool-cases (is_settled current.status)) [
      | inl closed ↦ same-After s s' r (ground arith) h
      | inr open_row ↦
          update-After (has_key c e) (settled_row o now) s s' r (λ x. refl) (ground arith) h
            (λ hit.
              settled (rw (same_row c e s r current found h hit) open_row) (ground arith) refl)
    ]
    | inr (e, missing) ↦ absurd (ground arith)
  ]

  finish-After :
      (campaign_id : String) (status : CampaignStatus) (now : String) (s s' : Store)
      (r : EvaluationRow)
      → apply (finishes campaign_id status) now s ≡ ok s'
      → Found s r
      → After s' r
  unfolding finish
  finish-After campaign_id status now s s' r done h = same-After s s' r (grind arith) h

  create-After :
      (manifest : CampaignManifest) (ids : List String) (clock : ℕ → String) (now : String)
      (s s' : Store) (r : EvaluationRow)
      → tables (create manifest ids now clock s) ≡ ok s'
      → Found s r
      → After s' r
  unfolding create
  create-After manifest ids clock now s s' r done h =
      elim (Result-cases (insert_evaluations manifest.campaign_id ids 0 clock s.evaluations)) [
        | inl (rows, made) ↦
            let (more, e) =
              insert_evaluations-append manifest.campaign_id ids 0 clock s.evaluations rows made in
            let written : s'.evaluations ≡ s.evaluations ++ more = grind arith in
            (
              r,
              first?-Found s' r (
                  rw written
                    (first?-append (has_key cid eid) s.evaluations more r (Found-first? s r h))),
              unchanged refl,
            )
        | inr (e, refused) ↦ absurd (grind arith)
      ]

  initialize-After :
      (manifest : CampaignManifest) (ids : List String) (clock : ℕ → String) (now : String)
      (s s' : Store) (r : EvaluationRow)
      → apply (initializes manifest ids clock) now s ≡ ok s'
      → Found s r
      → After s' r
  unfolding initialize
  initialize-After manifest [] clock now s s' r done h = absurd (cc)
  initialize-After manifest (i ∷ ids) clock now s s' r done h =
      elim (Option-cases (campaign_row manifest.campaign_id s)) [
        | inl fresh ↦
            create-After manifest (i ∷ ids) clock now s s' r (rw (fresh, initialize) at done) h
        | inr (row, known) ↦ same-After s s' r (ground arith) h
      ]

  -- Whatever writing method is called and returns, an evaluation of the plan stays in the plan, and
  -- its row is as it was or has taken one edge of the state machine: an attempt, which counts one
  -- more, an interruption, or a settlement, and these two leave the number of attempts.
  pub apply-Change :
      (call : Call) (now : String) (s s' : Store) (r : EvaluationRow)
      → apply call now s ≡ ok s'
      → Found s r
      → (r' : EvaluationRow) × Found s' r' × Change r r'
  apply-Change (initializes manifest ids clock) now s s' r =
      initialize-After manifest ids clock now s s' r
  apply-Change (recovers campaign_id) now s s' r = recover_interrupted-After campaign_id now s s' r
  apply-Change (starts campaign_id) now s s' r = start-After campaign_id now s s' r
  apply-Change (runs c e) now s s' r = mark_running-After c e now s s' r
  apply-Change (settles c e o) now s s' r = set_terminal-After c e o now s s' r
  apply-Change (finishes campaign_id status) now s s' r = finish-After campaign_id status now s s' r

-- The calls of a process, one after another; one that raises leaves the tables as they are.
pub replay : List (Call × String) → Store → Store
replay [] s = s
replay ((call, now) ∷ calls) s = elim (apply call now s) [
  | ok s' ↦ replay calls s'
  | err e ↦ replay calls s
]

Change-settled : (r r' : EvaluationRow) → Change r r' → is_settled r.status ≡ true → r' ≡ r
Change-settled r r' (unchanged e) h = e
Change-settled r r' (attempted runs_again _ _) h = absurd (ground arith)
Change-settled r r' (interrupted was_running _ _) h = absurd (ground arith)
Change-settled r r' (settled was_open _ _) h = absurd (ground arith)

-- A registered or skipped evaluation is immutable: no sequence of calls, on this campaign or on any
-- other, changes a field of its row.
pub replay-settled :
    (cid eid : String) (calls : List (Call × String)) (s : Store) (r : EvaluationRow)
    → Found cid eid s r
    → is_settled r.status ≡ true
    → Found cid eid (replay calls s) r
unfolding replay
replay-settled cid eid [] s r h closed = h
replay-settled cid eid ((call, now) ∷ calls) s r h closed = elim (Result-cases (apply call now s)) [
  | inl (s', done) ↦
      let (r', found, change) = apply-Change cid eid call now s s' r done h in
      rw (done, replay)
        (replay-settled cid eid calls s' r (rw (Change-settled r r' change closed) at found) closed)
  | inr (e, raised) ↦ rw (raised, replay) (replay-settled cid eid calls s r h closed)
]
