-- ===== src/WalkForward/Slices.antt =====
-- Where the planned train and test slices lie in the dataset.
use native.Mathlib.Nat.{div-mul-le_self}
use llm_arbitrage_system.Base.{
  ℕ, zero, suc, ◌+◌, ◌-◌, ◌*◌, ◌/◌, ◌≤◌, ◌<◌, ◌≡◌, ap, ◌∙◌, true, false, some, List, arith,
}
use llm_arbitrage_system.Base.Lists.{get_elem?, tabulate}
use llm_arbitrage_system.WalkForward.{WalkForwardSpec, WalkForwardWindow}
use llm_arbitrage_system.WalkForward.Windows.{IsValid, span, fitting, planned, Generated, generated}

get_elem?-tabulate {ℓ} :
    {A : Type ℓ} (i : ℕ) (f : ℕ → A) (n k : ℕ) {a : A}
    → get_elem? (tabulate i f n) k ≡ some a
    → (k < n) × (a ≡ f (i + k))
get_elem?-tabulate i f zero k h = absurd (cc)
get_elem?-tabulate i f (suc n) zero {a} h = (omega arith, shift)
  where
    at_start : i + 0 ≡ i
    at_start = omega arith

    shift : a ≡ f (i + 0)
    shift = rw at_start (cc)
get_elem?-tabulate i f (suc n) (suc k) {a} h =
    let rest = get_elem?-tabulate (suc i) f n k h in
    let shift : suc i + k ≡ i + suc k = omega arith in (omega (arith, rest.0), rest.1 ∙ ap f shift)

fitting_quotient :
    (n : ℕ) (spec : WalkForwardSpec) (k : ℕ)
    → k < fitting n spec 0
    → (span spec ≤ n) × (k ≤ (n - (span spec + 0)) / spec.step_size)
fitting_quotient n spec k h = ground arith

mul_mono : (a b s : ℕ) → a ≤ b → a * s ≤ b * s
mul_mono a b s h = grind arith

fitting_room :
    (n : ℕ) (spec : WalkForwardSpec) (k : ℕ)
    → k < fitting n spec 0
    → span spec + k * spec.step_size ≤ n
fitting_room n spec k h =
    let (fits, below) = fitting_quotient n spec k h in
    let room = n - (span spec + 0) in
    omega (
      arith,
      fits,
      mul_mono k (room / spec.step_size) spec.step_size below,
      div-mul-le_self room spec.step_size,
    )

module _ (n : ℕ) (spec : WalkForwardSpec) (v : IsValid spec) (windows : List WalkForwardWindow)
    (made : Generated n spec windows) where
  -- the k-th window of a returned plan is the k-th planned one, and it fits
  nth_window :
      (k : ℕ) {w : WalkForwardWindow}
      → get_elem? windows k ≡ some w
      → (w ≡ planned spec k) × (span spec + k * spec.step_size ≤ n)
  nth_window k h =
      let found =
        get_elem?-tabulate 0 (planned spec) _ k (rw (generated n spec v windows made).0 at h) in
      (found.1 ∙ ap (planned spec) (omega arith), fitting_room n spec k found.0)

  -- The k-th window of a returned plan has index k, a train slice that is not empty, a gap of
  -- exactly purge_size events, a test slice of exactly test_size events behind it, and ends inside
  -- the dataset; the train slice starts at event 0 when the plan is anchored, and has exactly
  -- train_size events when it is not.
  pub window_bounds :
      (k : ℕ) (w : WalkForwardWindow)
      → get_elem? windows k ≡ some w
      → (w.index ≡ k)
        × (w.train_start < w.train_end)
        × (w.test_start ≡ w.train_end + spec.purge_size)
        × (w.test_end ≡ w.test_start + spec.test_size)
        × (w.test_end ≤ n)
        × (spec.anchored ≡ true → w.train_start ≡ 0)
        × (spec.anchored ≡ false → w.train_end ≡ w.train_start + spec.train_size)
  window_bounds k w h = let (is, fits) = nth_window k h in rw is (ground arith)

  -- When the step is at least the test size, an earlier window's test slice ends before a later
  -- window's begins: no event is tested twice.
  pub tests_disjoint :
      spec.test_size ≤ spec.step_size
      → (i j : ℕ) (u w : WalkForwardWindow) → i < j
      → get_elem? windows i ≡ some u
      → get_elem? windows j ≡ some w
      → u.test_end ≤ w.test_start
  tests_disjoint apart i j u w before hu hw =
      rw ((nth_window i hu).0, (nth_window j hw).0)
        (omega (arith, mul_mono (suc i) j spec.step_size before))
