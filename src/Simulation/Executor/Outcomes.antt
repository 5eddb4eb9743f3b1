-- ===== src/Simulation/Executor/Outcomes.antt =====
-- What `execute` reports, against the outcomes of the single legs.
use llm_arbitrage_system.Base.{
  ℕ, suc, ◌+◌, ◌<◌, String, ◌≡◌, ◌≢◌, refl, ap, ◌∙◌, subst, List, [], ◌∷◌, map, arith,
}
use llm_arbitrage_system.Base.Lists.{length}
use llm_arbitrage_system.Base.Result.{Result, ok, err}
use llm_arbitrage_system.Domain.Numbers.{Numbers}
use llm_arbitrage_system.Domain.Contracts.{ExecutionStatus, Fill, check_fill}
use llm_arbitrage_system.Domain.Plans.{OrderLeg, ApprovedTradePlan}
use llm_arbitrage_system.Simulation.Executor.{
  LegError, Costs, simulate_leg, outcomes_from, fills_of, errors_of, reverse_fill, result_of,
  execute,
}

module _ (N : Numbers) (costs : Costs N) (plan_id : String) where
  -- How many of the legs, counted from `index`, fill, and how many raise.
  abbrev one : Result LegError (Fill N) → ℕ
  one (ok _) = 1
  one (err _) = 0

  abbrev pub filling : ℕ → List (OrderLeg N) → ℕ
  filling index [] = 0
  filling index (leg ∷ legs) =
      one (simulate_leg N costs plan_id index leg) + filling (suc index) legs

  length-fills_of :
      (index : ℕ) (legs : List (OrderLeg N))
      → length (fills_of N (outcomes_from N costs plan_id index legs)) ≡ filling index legs
  unfolding outcomes_from
  length-fills_of index [] = refl
  length-fills_of index (leg ∷ legs) = ground (arith, length-fills_of (suc index) legs)

  length-errors_of :
      (index : ℕ) (legs : List (OrderLeg N))
      → length (errors_of N (outcomes_from N costs plan_id index legs)) + filling index legs
        ≡ length legs
  unfolding outcomes_from
  length-errors_of index [] = refl
  length-errors_of index (leg ∷ legs) = ground (arith, length-errors_of (suc index) legs)

-- What a status says of the number of legs that filled.
abbrev pub Explains : ExecutionStatus → ℕ → ℕ → Type 0
Explains ExecutionStatus.filled filled legs = filled ≡ legs
Explains ExecutionStatus.failed filled legs = (filled ≡ 0) × (0 < legs)
Explains ExecutionStatus.compensated filled legs = (0 < filled) × (filled < legs)
Explains _ filled legs = ⊥

module _ (N : Numbers) (message : List LegError → String) where
  result_of-Explains :
      (plan_id : String) (errors : List LegError) (fills : List (Fill N))
      → Explains
          (result_of N message plan_id errors fills).status
          (length fills)
          (length errors + length fills)
  unfolding result_of
  result_of-Explains plan_id [] fills = omega arith
  result_of-Explains plan_id (e ∷ errors) [] = omega arith
  result_of-Explains plan_id (e ∷ errors) (f ∷ fills) = omega arith

  result_of-reverses :
      (plan_id : String) (errors : List LegError) (fills : List (Fill N))
      → let r = result_of N message plan_id errors fills in
        (r.fills ≡ fills)
        × (r.status ≡ ExecutionStatus.compensated
            → r.compensated_fills ≡ map (reverse_fill N) r.fills)
        × (r.status ≢ ExecutionStatus.compensated → r.compensated_fills ≡ [])
  unfolding result_of
  result_of-reverses plan_id [] fills = (refl, λ h. absurd (ground arith), λ h. refl)
  result_of-reverses plan_id (e ∷ errors) [] = (refl, λ h. absurd (ground arith), λ h. refl)
  result_of-reverses plan_id (e ∷ errors) (f ∷ fills) = (refl, λ h. refl, λ h. absurd (h refl))

  -- The status of a result says exactly how many legs filled: filled all of them, failed none of at
  -- least one, compensated some but not all; no other status is reported. The result holds a fill for
  -- each leg that filled; a compensated one also holds the reversal of each fill, in order, and any
  -- other holds no compensating fill.
  pub execute-Explains :
      (costs : Costs N) (approved : ApprovedTradePlan N)
      → let r = execute N message costs approved in
        let legs = approved.plan.legs in
        let filled = filling N costs approved.plan.plan_id 0 legs in
        Explains r.status filled (length legs)
        × (length r.fills ≡ filled)
        × (r.status ≡ ExecutionStatus.compensated
            → r.compensated_fills ≡ map (reverse_fill N) r.fills)
        × (r.status ≢ ExecutionStatus.compensated → r.compensated_fills ≡ [])
  unfolding execute
  execute-Explains costs approved =
      let id = approved.plan.plan_id in
      let legs = approved.plan.legs in
      let outcomes = outcomes_from N costs id 0 legs in
      let fills = fills_of N outcomes in
      let count = length-fills_of N costs id 0 legs in
      let (same, back, alone) = result_of-reverses id (errors_of N outcomes) fills in
      let total : length (errors_of N outcomes) + length fills ≡ length legs =
        omega (arith, count, length-errors_of N costs id 0 legs) in
      (
        subst (λ n. Explains (execute N message costs approved).status n (length legs)) count
            (subst (λ m. Explains (execute N message costs approved).status (length fills) m) total
              (result_of-Explains id (errors_of N outcomes) fills)),
        ap length same ∙ count,
        back,
        alone,
      )

  -- The reversal of a fill that was checked passes the same checks: `_reverse` never raises.
  pub check_fill-reverse_fill :
      (fill : Fill N)
      → fill.status ≡ ExecutionStatus.filled
      → check_fill N fill ≡ ok fill
      → check_fill N (reverse_fill N fill) ≡ ok (reverse_fill N fill)
  unfolding check_fill
  check_fill-reverse_fill fill filled h = ground arith
