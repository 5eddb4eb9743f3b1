-- ===== src/Simulation/Executor.antt =====
-- simulation/executor.py: `DeterministicPaperExecutor`. The legs run as tasks that share nothing, and
-- `gather` returns their outcomes in the order of the legs, so the outcomes are a map over the legs.
use Prim.Native.String.{◌++◌ as str_append}
use llm_arbitrage_system.Base.{
  ℕ, zero, suc, String, Bool, true, false, not, ◌||◌, Option, none, some, List, [], ◌∷◌, map,
}
use llm_arbitrage_system.Base.Tests.{if◌then◌else◌, ◌==◌}
use llm_arbitrage_system.Base.Result.{Result, ok, err, raise_if, ◌>>=◌, ◌>>◌}
use llm_arbitrage_system.Domain.Numbers.{Numbers, zero_d, equal_d}
use llm_arbitrage_system.Domain.Contracts.{
  Side, ExecutionStatus, Fill, ContractError, check_fill, opposite,
}
use llm_arbitrage_system.Domain.Plans.{OrderLeg, ApprovedTradePlan, ExecutionResult}
pub mod Outcomes
pub mod Residual
mod Tests

-- What a leg's task raises.
pub data LegError : Type 0 where
  simulated_failure : ℕ → LegError
  division_by_zero : LegError
  invalid_fill : ContractError → LegError

-- `index in self.fail_leg_indexes`
abbrev pub fails_at : ℕ → List ℕ → Bool
fails_at index [] = false
fails_at index (i ∷ rest) = i == index || fails_at index rest

module _ (N : Numbers) where
  open N use {Decimal, decimal, add, mul, div, neg, less, show_int}

  -- The fields of the executor; its constructor has refused negative costs.
  pub record Costs : Type 0 where
    pub slippage_bps : Decimal
    pub fee_bps : Decimal
    pub fail_leg_indexes : List ℕ

  abbrev pub direction : Side → Decimal
  direction Side.buy = decimal 1
  direction Side.sell = neg (decimal 1)

  -- the price in `_simulate_leg`
  abbrev pub fill_price : Costs → OrderLeg N → Decimal
  fill_price costs leg =
      mul leg.reference_price
        (add (decimal 1) (div (mul (direction leg.side) costs.slippage_bps) (decimal 10000)))

  abbrev pub leg_fill : Costs → String → ℕ → OrderLeg N → Fill N
  leg_fill costs plan_id index leg = record {
    venue = leg.venue;
    symbol = leg.symbol;
    side = leg.side;
    quantity = div leg.notional_usd (fill_price costs leg);
    price = fill_price costs leg;
    status = ExecutionStatus.filled;
    order_id = str_append "paper-" (str_append plan_id (str_append "-" (show_int index)));
    client_order_id = leg.client_order_id;
    fee_usd = div (mul leg.notional_usd costs.fee_bps) (decimal 10000);
  }

  abbrev pub checked : Result ContractError (Fill N) → Result LegError (Fill N)
  checked (ok fill) = ok fill
  checked (err error) = err (invalid_fill error)

  -- `_simulate_leg`
  unfoldable pub simulate_leg : Costs → String → ℕ → OrderLeg N → Result LegError (Fill N)
  unfolding check_fill
  simulate_leg costs plan_id index leg = do
    raise_if (fails_at index costs.fail_leg_indexes) (simulated_failure index)
    raise_if (equal_d N (fill_price costs leg) (zero_d N)) division_by_zero
    checked (check_fill N (leg_fill costs plan_id index leg))

  -- the tasks over `enumerate(approved.plan.legs)`
  unfoldable pub outcomes_from :
      Costs → String → ℕ → List (OrderLeg N) → List (Result LegError (Fill N))
  unfolding simulate_leg
  outcomes_from costs plan_id index [] = []
  outcomes_from costs plan_id index (leg ∷ legs) =
      simulate_leg costs plan_id index leg ∷ outcomes_from costs plan_id (suc index) legs

  -- the outcomes that are fills, and those that are exceptions
  abbrev pub fills_of : List (Result LegError (Fill N)) → List (Fill N)
  fills_of [] = []
  fills_of (ok fill ∷ rest) = fill ∷ fills_of rest
  fills_of (err error ∷ rest) = fills_of rest

  abbrev pub errors_of : List (Result LegError (Fill N)) → List LegError
  errors_of [] = []
  errors_of (ok fill ∷ rest) = errors_of rest
  errors_of (err error ∷ rest) = error ∷ errors_of rest

  -- `_reverse`; its fill has the quantity, price and fee of one that was checked
  abbrev pub reverse_fill : Fill N → Fill N
  reverse_fill fill = record fill {
    side = opposite fill.side;
    status = ExecutionStatus.filled;
    order_id = str_append "paper-reverse-" fill.order_id;
    client_order_id = str_append "reverse-" fill.client_order_id;
  }

  -- `execute` behind `gather`, by the errors and the fills; `message` joins the errors' texts
  unfoldable pub result_of :
      (List LegError → String) → String → List LegError → List (Fill N) → ExecutionResult N
  result_of message plan_id [] fills = record {
    plan_id = plan_id;
    status = ExecutionStatus.filled;
    fills = fills;
    compensated_fills = [];
    error = none;
  }
  result_of message plan_id (error ∷ errors) [] = record {
    plan_id = plan_id;
    status = ExecutionStatus.failed;
    fills = [];
    compensated_fills = [];
    error = some (message (error ∷ errors));
  }
  result_of message plan_id (error ∷ errors) (fill ∷ fills) = record {
    plan_id = plan_id;
    status = ExecutionStatus.compensated;
    fills = fill ∷ fills;
    compensated_fills = map reverse_fill (fill ∷ fills);
    error = some "simulated partial outcome was reversed";
  }

  -- `execute`
  unfoldable pub execute :
      (List LegError → String) → Costs → ApprovedTradePlan N → ExecutionResult N
  unfolding outcomes_from result_of
  execute message costs approved =
      let outcomes = outcomes_from costs approved.plan.plan_id 0 approved.plan.legs in
      result_of message approved.plan.plan_id (errors_of outcomes) (fills_of outcomes)
