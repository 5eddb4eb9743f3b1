-- ===== src/Simulation/Approval/Exclusive.antt =====
-- A position key is held once: by one reservation or by one open exposure.
use text.Mathlib.Text.{starts_with}
use text.Mathlib.TextPositions.{starts_with-append}
use llm_arbitrage_system.Base.{
  String, ◌≡◌, refl, inl, inr, Bool, false, some, [], ◌∷◌, str_eq, eq_iff, arith,
}
use llm_arbitrage_system.Base.Tests.{Option-cases}
use llm_arbitrage_system.Base.Lists.{select}
use llm_arbitrage_system.Domain.Numbers.{Numbers}
use llm_arbitrage_system.Domain.Contracts.{Dict, get, ExecutionStatus}
use llm_arbitrage_system.Domain.Plans.{ExecutionResult}
use llm_arbitrage_system.Simulation.Dicts.{
  assign, discard, contains, contains-assign, contains-select,
}
use llm_arbitrage_system.Simulation.Approval.Gate.{Approver, is_reserved}
use llm_arbitrage_system.Simulation.Approval.Settlement.{
  residual_key, record_residual, settle, record_result,
}

module _ (N : Numbers) where
  open N use {Decimal, less}

  -- The name space that `record_result` uses for residuals.
  abbrev pub is_residual : String → Bool
  is_residual key = starts_with key "residual:"

  -- Each reserved key is reserved once, is not open, and is no residual's key.
  abbrev pub Held : Dict Decimal → Dict (String × Decimal) → Type 0
  Held open_exposure [] = Unit
  Held open_exposure ((_, (key, _)) ∷ rest) =
      (is_reserved N key rest ≡ false)
      × (contains key open_exposure ≡ false)
      × (is_residual key ≡ false)
      × Held open_exposure rest

  abbrev pub IsExclusive : Approver N → Type 0
  IsExclusive s = Held s.open_exposure s.reservations

  is_reserved-assign :
      (j plan_id key : String) (amount : Decimal) (rs : Dict (String × Decimal))
      → is_reserved N j rs ≡ false
      → str_eq key j ≡ false
      → is_reserved N j (assign plan_id (key, amount) rs) ≡ false
  is_reserved-assign j plan_id key amount [] h apart = ground arith
  is_reserved-assign j plan_id key amount (r ∷ rs) h apart =
      ground (arith, is_reserved-assign j plan_id key amount rs)

  is_reserved-discard :
      (j plan_id : String) (rs : Dict (String × Decimal))
      → is_reserved N j rs ≡ false
      → is_reserved N j (discard plan_id rs) ≡ false
  is_reserved-discard j plan_id [] h = refl
  is_reserved-discard j plan_id (r ∷ rs) h = ground (arith, is_reserved-discard j plan_id rs)

  pub Held-assign :
      (plan_id key : String) (amount : Decimal) (open_exposure : Dict Decimal)
      (rs : Dict (String × Decimal))
      → Held open_exposure rs
      → is_reserved N key rs ≡ false
      → contains key open_exposure ≡ false
      → is_residual key ≡ false
      → Held open_exposure (assign plan_id (key, amount) rs)
  Held-assign plan_id key amount open_exposure [] held fresh closed named =
      (refl, closed, named, tt)
  Held-assign plan_id key amount open_exposure ((p, (k, a)) ∷ rs) held fresh closed named = ground (
    arith,
    Held-assign plan_id key amount open_exposure rs held.3,
    is_reserved-assign k plan_id key amount rs,
    eq_iff k key,
    eq_iff key k,
  )

  pub Held-discard :
      (plan_id : String) (open_exposure : Dict Decimal) (rs : Dict (String × Decimal))
      → Held open_exposure rs
      → Held open_exposure (discard plan_id rs)
  Held-discard plan_id open_exposure [] held = tt
  Held-discard plan_id open_exposure ((p, (k, a)) ∷ rs) held =
      ground (arith, Held-discard plan_id open_exposure rs held.3, is_reserved-discard k plan_id rs)

  found_apart :
      (plan_id j : String) (rs : Dict (String × Decimal)) (key : String) (amount : Decimal)
      → get plan_id rs ≡ some (key, amount)
      → is_reserved N j rs ≡ false
      → str_eq key j ≡ false
  found_apart plan_id j [] key amount found h = absurd (cc)
  found_apart plan_id j ((p, (k, a)) ∷ rs) key amount found h =
      ground (arith, found_apart plan_id j rs key amount)

  -- A discarded reservation's key is reserved no more.
  get-discard :
      (plan_id : String) (open_exposure : Dict Decimal) (rs : Dict (String × Decimal))
      (key : String) (amount : Decimal)
      → Held open_exposure rs
      → get plan_id rs ≡ some (key, amount)
      → (is_reserved N key (discard plan_id rs) ≡ false) × (is_residual key ≡ false)
  get-discard plan_id open_exposure [] key amount held found = absurd (cc)
  get-discard plan_id open_exposure ((p, (k, a)) ∷ rs) key amount held found = ground (
    arith,
    get-discard plan_id open_exposure rs key amount held.3,
    eq_iff k key,
    eq_iff key k,
    found_apart plan_id k rs key amount,
  )

  -- Opening a key that is not reserved.
  Held-open :
      (key : String) (amount : Decimal) (open_exposure : Dict Decimal)
      (rs : Dict (String × Decimal))
      → Held open_exposure rs
      → is_reserved N key rs ≡ false
      → Held (assign key amount open_exposure) rs
  Held-open key amount open_exposure [] held apart = tt
  Held-open key amount open_exposure ((p, (k, a)) ∷ rs) held apart = ground (
    arith,
    Held-open key amount open_exposure rs held.3,
    contains-assign key k amount open_exposure,
    eq_iff k key,
    eq_iff key k,
  )

  -- Closing exposures.
  pub Held-select :
      (p : String × Decimal → Bool) (open_exposure : Dict Decimal) (rs : Dict (String × Decimal))
      → Held open_exposure rs
      → Held (select p open_exposure) rs
  Held-select p open_exposure [] held = tt
  Held-select p open_exposure ((_, (k, a)) ∷ rs) held =
      ground (arith, Held-select p open_exposure rs held.3, contains-select p k open_exposure)

  residual_apart :
      (plan_id key : String) → is_residual key ≡ false → str_eq (residual_key plan_id) key ≡ false
  residual_apart plan_id key named =
      ground (arith, eq_iff (residual_key plan_id) key, starts_with-append "residual:" plan_id)

  -- A residual's key is reserved by nobody.
  residual_unreserved :
      (plan_id : String) (open_exposure : Dict Decimal) (rs : Dict (String × Decimal))
      → Held open_exposure rs
      → is_reserved N (residual_key plan_id) rs ≡ false
  residual_unreserved plan_id open_exposure [] held = refl
  residual_unreserved plan_id open_exposure ((p, (k, a)) ∷ rs) held = ground (
    arith,
    residual_unreserved plan_id open_exposure rs held.3,
    residual_apart plan_id k,
    eq_iff k (residual_key plan_id),
    eq_iff (residual_key plan_id) k,
  )

  record_residual-IsExclusive :
      (plan_id : String) (residual : Decimal) (s : Approver N)
      → IsExclusive s
      → IsExclusive (record_residual N plan_id residual s)
  unfolding record_residual
  record_residual-IsExclusive plan_id residual s held = ground (
    arith,
    Held-open (residual_key plan_id) residual s.open_exposure s.reservations held,
    residual_unreserved plan_id s.open_exposure s.reservations held,
  )

  settle-IsExclusive :
      (status : ExecutionStatus) (plan_id key : String) (result : ExecutionResult N)
      (s : Approver N)
      → IsExclusive s
      → is_reserved N key s.reservations ≡ false
      → IsExclusive (settle N status plan_id key result s)
  unfolding settle
  settle-IsExclusive ExecutionStatus.filled plan_id key result s held free =
      Held-open key _ s.open_exposure s.reservations held free
  settle-IsExclusive ExecutionStatus.compensated plan_id key result s held free = held
  settle-IsExclusive _ plan_id key result s held free = record_residual-IsExclusive plan_id _ s held

  pub record_result-IsExclusive :
      (plan_id : String) (result : ExecutionResult N) (s : Approver N)
      → IsExclusive s
      → IsExclusive (record_result N plan_id result s)
  unfolding record_result
  record_result-IsExclusive plan_id result s held =
      elim (Option-cases (get plan_id s.reservations)) [
        | inl missing ↦ rw (missing, record_result) held
        | inr ((key, amount), found) ↦
            rw (found, record_result)
              (settle-IsExclusive result.status plan_id key result
                (record s { reservations = discard plan_id s.reservations })
                (Held-discard plan_id s.open_exposure s.reservations held)
                (get-discard plan_id s.open_exposure s.reservations key amount held found).0)
      ]
