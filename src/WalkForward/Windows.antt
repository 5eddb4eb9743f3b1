-- ===== src/WalkForward/Windows.antt =====
-- The window generator against a closed form.
use native.Mathlib.Nat.{zero-mul}
use llm_arbitrage_system.Base.{
  ℕ, zero, suc, ◌+◌, ◌-◌, ◌*◌, ◌/◌, ◌≤◌, ◌<◌, ◌≡◌, ap, inl, inr, Bool, true, false, List, arith,
}
use llm_arbitrage_system.Base.Tests.{ltb, if◌then◌else◌, Bool-cases}
use llm_arbitrage_system.Base.Lists.{tabulate, length-tabulate}
use llm_arbitrage_system.Base.Result.{ok, err, raise_if}
use llm_arbitrage_system.Base.Int.{ℤ}
use llm_arbitrage_system.WalkForward.{
  too_few_windows, event_count_not_positive, WalkForwardSpec, WalkForwardWindow, check_window,
  window_at, make_spec, collect, generate_walk_forward_windows,
}

abbrev pub Generated : ℕ → WalkForwardSpec → List WalkForwardWindow → Type 0
Generated n spec windows = generate_walk_forward_windows n spec ≡ ok windows

-- What `__post_init__` guarantees.
pub record IsValid (spec : WalkForwardSpec) : Type 0 where
  pub train_pos : 1 ≤ spec.train_size
  pub test_pos : 1 ≤ spec.test_size
  pub step_pos : 1 ≤ spec.step_size
  pub minimum_pos : 1 ≤ spec.minimum_windows

-- The events that the first window needs.
abbrev pub span : WalkForwardSpec → ℕ
span spec = spec.train_size + spec.purge_size + spec.test_size

-- How many windows fit from `offset` on.
abbrev pub fitting : ℕ → WalkForwardSpec → ℕ → ℕ
fitting event_count spec offset =
    if ltb event_count (span spec + offset)
    then 0
    else (event_count - (span spec + offset)) / spec.step_size + 1

-- The k-th window of the plan.
abbrev pub planned : WalkForwardSpec → ℕ → WalkForwardWindow
planned spec k = window_at spec (k * spec.step_size) k

check_window-ok :
    (spec : WalkForwardSpec) (offset index : ℕ)
    → IsValid spec
    → check_window (window_at spec offset index) ≡ ok (window_at spec offset index)
unfolding check_window
check_window-ok spec offset index v = ground arith

div_step : (m s : ℕ) → 1 ≤ s → s ≤ m → m / s ≡ suc ((m - s) / s)
div_step m s h k = grind arith

div_below : (m s : ℕ) → m < s → m / s ≡ 0
div_below m s h = grind arith

next_offset : (index s : ℕ) → index * s + s ≡ suc index * s
next_offset index s = omega arith

sub_assoc : (a b c : ℕ) → a - b - c ≡ a - (b + c)
sub_assoc a b c = omega arith

fitting_next :
    (n : ℕ) (spec : WalkForwardSpec) (offset : ℕ)
    → IsValid spec
    → span spec + offset ≤ n
    → fitting n spec offset ≡ suc (fitting n spec (offset + spec.step_size))
fitting_next n spec offset v h =
    let room = n - (span spec + offset) in
    ground (
      arith,
      div_step room spec.step_size v.step_pos,
      div_below room spec.step_size,
      ap (λ (m : ℕ). m / spec.step_size) (sub_assoc n (span spec + offset) spec.step_size),
    )

fitting_none :
    (n : ℕ) (spec : WalkForwardSpec) (offset : ℕ)
    → n < span spec + offset
    → fitting n spec offset ≡ 0
fitting_none n spec offset h = ground arith

-- The loop, started at the `index`-th offset, produces the planned windows from there on.
collect-closed_form :
    (rounds n : ℕ) (spec : WalkForwardSpec) (index : ℕ)
    → IsValid spec
    → 1 ≤ rounds
    → n < rounds + index * spec.step_size
    → collect rounds n spec (index * spec.step_size) index
      ≡ ok (tabulate index (planned spec) (fitting n spec (index * spec.step_size)))
unfolding collect
collect-closed_form zero n spec index v r h = elim r [ ]
collect-closed_form (suc rounds) n spec index v r h =
    elim (Bool-cases (ltb n (planned spec index).test_end)) [
      | inl past ↦ rw (past, fitting_none n spec (index * spec.step_size) (ground arith))
      | inr fits ↦ rw (
        fits,
        check_window-ok spec (index * spec.step_size) index v,
        fitting_next n spec (index * spec.step_size) v (ground arith),
        next_offset index spec.step_size,
        collect-closed_form rounds n spec (suc index) v (ground arith) (ground arith),
      )
    ]

module _ (n : ℕ) (spec : WalkForwardSpec) (v : IsValid spec) where
  -- For a specification that passed its checks and at least one event, the generator returns
  -- exactly the windows whose test slice fits, the k-th one starting at offset k * step_size, or it
  -- raises when there are fewer of them than the minimum. In particular the loop always ends.
  pub generate-closed_form :
      1 ≤ n
      → generate_walk_forward_windows n spec ≡ (
          if ltb (fitting n spec 0) spec.minimum_windows
          then err (too_few_windows (fitting n spec 0))
          else ok (tabulate 0 (planned spec) (fitting n spec 0)))
  unfolding generate_walk_forward_windows
  generate-closed_form h = rw (raise_if_false (ground arith), loop, length-tabulate) (ground arith)
    where
      loop : collect (suc n) n spec 0 0 ≡ ok (tabulate 0 (planned spec) (fitting n spec 0))
      loop = rw zero-mul at (collect-closed_form (suc n) n spec 0 v (omega arith) (omega arith))

      raise_if_false : ltb n 1 ≡ false → raise_if (ltb n 1) event_count_not_positive ≡ ok tt
      raise_if_false e = rw e

  -- A plan is returned only when it holds at least the minimum number of windows.
  pub generated :
      (windows : List WalkForwardWindow)
      → Generated n spec windows
      → (windows ≡ tabulate 0 (planned spec) (fitting n spec 0))
        × (spec.minimum_windows ≤ fitting n spec 0)
  generated windows e = elim (Bool-cases (ltb n 1)) [
    | inl none_there ↦ absurd (raises none_there e)
    | inr some_there ↦ ground (arith, generate-closed_form (ground arith))
  ]
    where
      raises : ltb n 1 ≡ true → ¬ Generated n spec windows
      raises few = unfold generate_walk_forward_windows in rw few (λ h. cc)

-- What the checks of `WalkForwardSpec.__post_init__` let through is valid.
pub make_spec-IsValid :
    (train test step purge : ℤ) (anchored : Bool) (minimum : ℤ) (spec : WalkForwardSpec)
    → make_spec train test step purge anchored minimum ≡ ok spec
    → IsValid spec
unfolding make_spec
make_spec-IsValid train test step purge anchored minimum spec h = ground arith
