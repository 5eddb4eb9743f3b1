-- ===== src/WalkForward.antt =====
-- experiments/walk_forward.py and the walk-forward part of experiments/sweep.py: the plan of
-- train/purge/test windows over a dataset of `event_count` events. Python's ints are unbounded;
-- a specification that has passed its checks holds no negative number.
pub mod Windows
pub mod Slices
mod Tests
use llm_arbitrage_system.Base.{
  ℕ, zero, suc, ◌+◌, ◌-◌, Bool, true, false, not, ◌&&◌, ◌||◌, List, [], ◌∷◌,
}
use llm_arbitrage_system.Base.Tests.{ltb, leb, if◌then◌else◌}
use llm_arbitrage_system.Base.Lists.{length}
use llm_arbitrage_system.Base.Result.{Result, ok, err, ◌>>=◌, ◌>>◌, raise_if}
use llm_arbitrage_system.Base.Int.{ℤ, pos, negsuc, ltb_ℤ, pos_part}

pub data Error : Type 0 where
  sizes_not_positive purge_negative minimum_not_positive : Error
  indexes_not_ordered event_count_not_positive : Error
  too_few_windows : ℕ → Error
  -- the rounds given were used up; `generate-closed_form` shows that this is never returned
  out_of_rounds : Error

-- `WalkForwardSpec`, its checks passed
pub record WalkForwardSpec : Type 0 where
  pub train_size : ℕ
  pub test_size : ℕ
  pub step_size : ℕ
  pub purge_size : ℕ
  pub anchored : Bool
  pub minimum_windows : ℕ

-- `WalkForwardSpec.__post_init__`
pub make_spec : ℤ → ℤ → ℤ → ℤ → Bool → ℤ → Result Error WalkForwardSpec
make_spec train_size test_size step_size purge_size anchored minimum_windows = do
  raise_if (ltb_ℤ train_size (pos 1) || ltb_ℤ test_size (pos 1) || ltb_ℤ step_size (pos 1))
      sizes_not_positive
  raise_if (ltb_ℤ purge_size (pos 0)) purge_negative
  raise_if (ltb_ℤ minimum_windows (pos 1)) minimum_not_positive
  ok (record {
    train_size = pos_part train_size;
    test_size = pos_part test_size;
    step_size = pos_part step_size;
    purge_size = pos_part purge_size;
    anchored = anchored;
    minimum_windows = pos_part minimum_windows;
  })

pub record WalkForwardWindow : Type 0 where
  pub index : ℕ
  pub train_start : ℕ
  pub train_end : ℕ
  pub test_start : ℕ
  pub test_end : ℕ

-- `WalkForwardWindow.__post_init__`
pub check_window : WalkForwardWindow → Result Error WalkForwardWindow
check_window w = do
  raise_if
      (not (
        ltb w.train_start w.train_end
        && leb w.train_end w.test_start
        && ltb w.test_start w.test_end))
      indexes_not_ordered
  ok w

-- The window that one round of the loop computes from `offset` and `len(windows)`.
abbrev pub window_at : WalkForwardSpec → ℕ → ℕ → WalkForwardWindow
window_at spec offset index = record {
  index = index;
  train_start = if spec.anchored then 0 else offset;
  train_end = spec.train_size + offset;
  test_start = spec.train_size + offset + spec.purge_size;
  test_end = spec.train_size + offset + spec.purge_size + spec.test_size;
}

-- The `while True` loop, with a bound on its rounds.
pub collect : ℕ → ℕ → WalkForwardSpec → ℕ → ℕ → Result Error (List WalkForwardWindow)
unfolding check_window
collect zero event_count spec offset index = err out_of_rounds
collect (suc rounds) event_count spec offset index =
    let next = collect rounds event_count spec (offset + spec.step_size) (suc index) in
    let keep = (do
      window ← check_window (window_at spec offset index)
      windows ← next
      ok (window ∷ windows)) in
    if ltb event_count (window_at spec offset index).test_end then ok [] else keep

pub generate_walk_forward_windows : ℕ → WalkForwardSpec → Result Error (List WalkForwardWindow)
unfolding collect
generate_walk_forward_windows event_count spec = do
  raise_if (ltb event_count 1) event_count_not_positive
  windows ← collect (suc event_count) event_count spec 0 0
  raise_if (ltb (length windows) spec.minimum_windows) (too_few_windows (length windows))
  ok windows
