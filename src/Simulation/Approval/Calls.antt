-- ===== src/Simulation/Approval/Calls.antt =====
-- Histories of calls of one approver.
use llm_arbitrage_system.Base.{
  String, ◌≡◌, sym, subst, inl, inr, Bool, false, Option, none, some, List, [], ◌∷◌,
}
use llm_arbitrage_system.Base.Lists.{All}
use llm_arbitrage_system.Base.Result.{Result, ok, err, Result-cases}
use llm_arbitrage_system.Base.Int.{ℤ}
use llm_arbitrage_system.Domain.Numbers.{Numbers}
use llm_arbitrage_system.Domain.Contracts.{ContractError}
use llm_arbitrage_system.Domain.Plans.{
  TradePlan, StrategyDecision, ExecutionResult, ApprovedTradePlan, gross_notional_usd,
}
use llm_arbitrage_system.Simulation.Approval.Gate.{
  Reason, PaperApprovalLimits, Approver, position_key, approve, RiskEvaluation,
}
use llm_arbitrage_system.Simulation.Approval.Settlement.{
  record_result, release_reservation, acknowledge_reconciliation,
}
use llm_arbitrage_system.Simulation.Approval.Exclusive.{
  is_residual, IsExclusive, Held-assign, Held-discard, Held-select, record_result-IsExclusive,
}
use llm_arbitrage_system.Simulation.Approval.Decisions.{Decided, approve-Decided}

-- A call of a method of the approver.
pub data Call (N : Numbers) : Type 0 where
  approves : ℤ → StrategyDecision N → Call N
  records : String → ExecutionResult N → Call N
  releases : String → Call N
  acknowledges : Call N

module _ (N : Numbers) (limits : PaperApprovalLimits N) (replay_mode : Bool) where
  open N use {Decimal, Float}

  -- The approver after a call; one that raises leaves it as it was.
  abbrev after : Result ContractError (RiskEvaluation N × Approver N) → Approver N → Approver N
  after (ok (_, s')) s = s'
  after (err _) s = s

  pub step : Call N → Approver N → Approver N
  step (approves clock decision) s = after (approve N limits replay_mode clock decision s) s
  step (records plan_id result) s = record_result N plan_id result s
  step (releases plan_id) s = release_reservation N plan_id s
  step acknowledges s = acknowledge_reconciliation N s

  pub run : List (Call N) → Approver N → Approver N
  run [] s = s
  run (call ∷ calls) s = run calls (step call s)

  -- A plan that comes for approval has a position key outside the residuals' name space.
  abbrev pub IsNamed : Call N → Type 0
  IsNamed (approves clock decision) = is_residual N (position_key N decision.plan) ≡ false
  IsNamed (records plan_id result) = Unit
  IsNamed (releases plan_id) = Unit
  IsNamed acknowledges = Unit

  -- Whatever `approve` answers.
  Decided-IsExclusive :
      (now : ℤ) (age : Float) (largest_leg : Decimal) (plan : TradePlan N)
      (o : Option (ApprovedTradePlan N)) (reasons : List Reason) (s s' : Approver N)
      → is_residual N (position_key N plan) ≡ false
      → IsExclusive N s
      → Decided N limits now age largest_leg plan s o reasons s'
      → IsExclusive N s'
  Decided-IsExclusive now age largest_leg plan none reasons s s' named held (same, _, _) =
      subst (IsExclusive N) (sym same) held
  Decided-IsExclusive now age largest_leg plan (some a) reasons s s' named held (fits, _, _, _, e) =
      subst (IsExclusive N) (sym e) (
        Held-assign N plan.plan_id (position_key N plan) (gross_notional_usd N plan) s.open_exposure
          s.reservations held fits.not_reserved fits.not_open named)

  -- Every call keeps each position key held once.
  pub step-IsExclusive :
      (call : Call N) (s : Approver N)
      → IsNamed call
      → IsExclusive N s
      → IsExclusive N (step call s)
  unfolding step
  step-IsExclusive (approves clock decision) s named held =
      elim (Result-cases (approve N limits replay_mode clock decision s)) [
        | inl ((ev, s'), done) ↦
            let (largest_leg, _, d) =
              approve-Decided N limits replay_mode clock decision s s' ev done in
            rw done (
              Decided-IsExclusive _ _ largest_leg decision.plan ev.approved ev.reasons s s' named
                held d)
        | inr (error, raised) ↦ rw raised held
      ]
  step-IsExclusive (records plan_id result) s named held =
      record_result-IsExclusive N plan_id result s held
  step-IsExclusive (releases plan_id) s named held =
      unfold release_reservation in Held-discard N plan_id s.open_exposure s.reservations held
  step-IsExclusive acknowledges s named held =
      unfold acknowledge_reconciliation in Held-select N _ s.open_exposure s.reservations held

  -- No history of calls lets a position key be reserved twice, or be reserved while it is open: from
  -- an approver with no reservation, each reserved key is reserved once, is not open, and is no
  -- residual's key, as long as the plans that come for approval are named outside the residuals.
  pub run-IsExclusive :
      (calls : List (Call N)) (s : Approver N)
      → All IsNamed calls
      → s.reservations ≡ []
      → IsExclusive N (run calls s)
  unfolding run
  run-IsExclusive calls s named none_held = go calls s named (rw none_held tt)
    where
      go :
          (cs : List (Call N)) (t : Approver N)
          → All IsNamed cs
          → IsExclusive N t
          → IsExclusive N (run cs t)
      go [] t ns held = held
      go (c ∷ cs) t ns held = go cs (step c t) ns.1 (step-IsExclusive c t ns.0 held)
