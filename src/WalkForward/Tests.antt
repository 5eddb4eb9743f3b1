-- ===== src/WalkForward/Tests.antt =====
-- The window plan of thirteen events.
use llm_arbitrage_system.Base.{◌+◌, ◌≤◌, ◌<◌, ◌≡◌, refl, true, false, List, [], ◌∷◌, arith}
use llm_arbitrage_system.Base.Lists.{tabulate}
use llm_arbitrage_system.Base.Result.{ok, err}
use llm_arbitrage_system.Base.Int.{pos, negsuc}
use llm_arbitrage_system.Base.Tests.{ltb, if◌then◌else◌}
use llm_arbitrage_system.WalkForward.{
  WalkForwardSpec, WalkForwardWindow, window_at, too_few_windows, sizes_not_positive, make_spec,
  generate_walk_forward_windows,
}
use llm_arbitrage_system.WalkForward.Windows.{
  IsValid, fitting, planned, Generated, generate-closed_form,
}
use llm_arbitrage_system.WalkForward.Slices.{window_bounds, tests_disjoint}

abbrev rolling : WalkForwardSpec
rolling = record {
  train_size = 4;
  test_size = 2;
  step_size = 3;
  purge_size = 1;
  anchored = false;
  minimum_windows = 2;
}

rolling-IsValid : IsValid rolling
rolling-IsValid = omega arith

abbrev plan : List WalkForwardWindow
plan = window_at rolling 0 0 ∷ window_at rolling 3 1 ∷ window_at rolling 6 2 ∷ []

generate_rolling : Generated 13 rolling plan
unfolding generate_walk_forward_windows
generate_rolling = refl

generate_short : generate_walk_forward_windows 9 rolling ≡ err (too_few_windows 1)
unfolding generate_walk_forward_windows
generate_short = refl

make_spec_negative :
    make_spec (pos 4) (negsuc 0) (pos 1) (pos 0) false (pos 1) ≡ err sizes_not_positive
unfolding make_spec
make_spec_negative = refl

make_rolling : make_spec (pos 4) (pos 2) (pos 3) (pos 1) false (pos 2) ≡ ok rolling
unfolding make_spec
make_rolling = refl

generate-closed_form_example : generate_walk_forward_windows 13 rolling ≡ (
    if ltb (fitting 13 rolling 0) 2
    then err (too_few_windows (fitting 13 rolling 0))
    else ok (tabulate 0 (planned rolling) (fitting 13 rolling 0)))
generate-closed_form_example = generate-closed_form 13 rolling rolling-IsValid (omega arith)

window_bounds_example :
    let w = window_at rolling 3 1 in
    (w.index ≡ 1)
    × (w.train_start < w.train_end)
    × (w.test_start ≡ w.train_end + 1)
    × (w.test_end ≡ w.test_start + 2)
    × (w.test_end ≤ 13)
    × (false ≡ true → w.train_start ≡ 0)
    × (false ≡ false → w.train_end ≡ w.train_start + 4)
window_bounds_example =
    window_bounds 13 rolling rolling-IsValid plan generate_rolling 1 (window_at rolling 3 1) refl

tests_disjoint_example : (window_at rolling 0 0).test_end ≤ (window_at rolling 6 2).test_start
tests_disjoint_example =
    tests_disjoint 13 rolling rolling-IsValid plan generate_rolling (omega arith) 0 2
      (window_at rolling 0 0) (window_at rolling 6 2) (omega arith) refl refl
