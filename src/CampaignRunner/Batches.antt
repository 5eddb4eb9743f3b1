-- ===== src/CampaignRunner/Batches.antt =====
-- The loop over the batches ends, and what it has run by then.
use llm_arbitrage_system.Base.{
  ℕ, zero, suc, ◌+◌, ◌≤◌, ◌<◌, String, ◌≡◌, refl, ap, ◌∙◌, inl, inr, ◌⊎◌, subst, Bool, true, false,
  not, Option, none, some, List, [], ◌∷◌, ◌++◌, arith,
}
use llm_arbitrage_system.Base.Extends.{append_assoc}
use llm_arbitrage_system.Base.Tests.{Bool-cases}
use llm_arbitrage_system.Base.Lists.{All, length, any, count_if}
use llm_arbitrage_system.CampaignRunner.{
  CampaignExecutionPolicy, take, drop, Loop, must_stop, batch_loop,
}

take-drop : {A : Type 0} (n : ℕ) (xs : List A) → take n xs ++ drop n xs ≡ xs
take-drop zero xs = refl
take-drop (suc n) [] = refl
take-drop (suc n) (x ∷ xs) = ap (λ l. x ∷ l) (take-drop n xs)

length-drop :
    {A : Type 0} (n : ℕ) (x : A) (xs : List A) → 1 ≤ n → length (drop n (x ∷ xs)) ≤ length xs
length-drop zero x xs h = absurd (omega (arith, h))
length-drop (suc zero) x xs h = omega arith
length-drop (suc (suc n)) x [] h = omega arith
length-drop (suc (suc n)) x (y ∷ xs) h = omega (arith, length-drop (suc n) y xs (omega arith))

take-some : {A : Type 0} (n : ℕ) (x : A) (xs : List A) → 1 ≤ n → 1 ≤ length (take n (x ∷ xs))
take-some zero x xs h = absurd (omega (arith, h))
take-some (suc n) x xs h = omega arith

length-take : {A : Type 0} (n : ℕ) (xs : List A) → length (take n xs) ≤ n
length-take zero xs = omega arith
length-take (suc n) [] = omega arith
length-take (suc n) (x ∷ xs) = omega (arith, length-take n xs)

-- Batches, one after another, each handed to `run` in the state that the one before has left: the
-- outcomes of each, and the last state.
abbrev pub play :
    {S : Type 0} → (List String → S → List Bool × S) → List (List String) → S → List (List Bool) × S
play run [] s = ([], s)
play run (batch ∷ batches) s =
    let (outcomes, s1) = run batch s in
    let (later, s2) = play run batches s1 in (outcomes ∷ later, s2)

abbrev pub join : {A : Type 0} → List (List A) → List A
join [] = []
join (xs ∷ xss) = xs ++ join xss

abbrev pub failed_in : List (List Bool) → ℕ
failed_in [] = 0
failed_in (outcomes ∷ later) = count_if not outcomes + failed_in later

-- A batch asks the loop to stop: one of its evaluations has failed, and the policy stops on any
-- failure or the failures up to now have reached its maximum.
abbrev pub AsksToStop : CampaignExecutionPolicy → ℕ → List Bool → Type 0
AsksToStop execution failures outcomes =
    (0 < count_if not outcomes)
    × ((execution.stop_on_failure ≡ true) ⊎ (execution.maximum_failures ≤ failures))

-- The loop is stopped behind the first batch that asks to, and not before; else it is not stopped.
abbrev pub Verdict : CampaignExecutionPolicy → ℕ → List (List Bool) → Bool → Type 0
Verdict execution failures [] stopped = stopped ≡ false
Verdict execution failures (outcomes ∷ later) stopped =
    let failures' = failures + count_if not outcomes in
    (AsksToStop execution failures' outcomes × (later ≡ []) × (stopped ≡ true))
    ⊎ ((¬ AsksToStop execution failures' outcomes) × Verdict execution failures' later stopped)

-- What the loop has done when it ends.
pub record Ended {S : Type 0} (run : List String → S → List Bool × S)
    (execution : CampaignExecutionPolicy) (waiting : List String) (failures : ℕ) (s : S)
    (l : Loop S) : Type 0 where
  pub batches : List (List String)
  pub split : join batches ++ l.pending ≡ waiting
  pub sizes :
      All (λ b. (1 ≤ length b) × (length b ≤ execution.maximum_parallel_evaluations)) batches
  pub state : l.state ≡ (play run batches s).1
  pub counted : l.failures ≡ failures + failed_in (play run batches s).0
  pub verdict : Verdict execution failures (play run batches s).0 l.stop_requested
  pub finished : l.stop_requested ≡ false → l.pending ≡ []

abbrev pub Ends :
    {S : Type 0}
    → (List String → S → List Bool × S)
    → CampaignExecutionPolicy
    → List String
    → ℕ
    → S
    → Option (Loop S)
    → Type 0
Ends run execution waiting failures s none = ⊥
Ends run execution waiting failures s (some l) = Ended run execution waiting failures s l

any-some : {A : Type 0} (p : A → Bool) (xs : List A) → any p xs ≡ true → 0 < count_if p xs
any-some p [] h = absurd (cc)
any-some p (x ∷ xs) h = ground (arith, any-some p xs)

any-count_if : {A : Type 0} (p : A → Bool) (xs : List A) → any p xs ≡ false → count_if p xs ≡ 0
any-count_if p [] h = refl
any-count_if p (x ∷ xs) h = ground (arith, any-count_if p xs)

must_stop-asks :
    (execution : CampaignExecutionPolicy) (failures : ℕ) (outcomes : List Bool)
    → must_stop execution failures outcomes ≡ true
    → AsksToStop execution failures outcomes
must_stop-asks execution failures outcomes stops = elim (Bool-cases execution.stop_on_failure) [
  | inl on_any ↦ (any-some not outcomes (ground arith), inl on_any)
  | inr not_on_any ↦ (any-some not outcomes (ground arith), inr (ground arith))
]

goes_on-no_asking :
    (execution : CampaignExecutionPolicy) (failures : ℕ) (outcomes : List Bool)
    → must_stop execution failures outcomes ≡ false
    → ¬ AsksToStop execution failures outcomes
goes_on-no_asking execution failures outcomes goes (some_failed, why) =
    elim (Bool-cases (any not outcomes)) [
      | inr none_failed ↦ omega (arith, any-count_if not outcomes none_failed, some_failed)
      | inl found ↦ elim why [
        | inl on_any ↦ ground (arith, found, on_any, goes)
        | inr reached ↦ ground (arith, found, reached, goes)
      ]
    ]

module _ {S : Type 0} (run : List String → S → List Bool × S)
    (execution : CampaignExecutionPolicy) where
  -- A batch that does not ask to stop, and how the loop ends behind it.
  Ends-then :
      (batch rest : List String) (failures : ℕ) (s : S) (next : Option (Loop S))
      → (1 ≤ length batch) × (length batch ≤ execution.maximum_parallel_evaluations)
      → (¬ AsksToStop execution (failures + count_if not (run batch s).0) (run batch s).0)
      → Ends run execution rest (failures + count_if not (run batch s).0) (run batch s).1 next
      → Ends run execution (batch ++ rest) failures s next
  Ends-then batch rest failures s none size goes ends = ends
  Ends-then batch rest failures s (some l) size goes ends = record {
    batches = batch ∷ ends.batches;
    split = append_assoc batch (join ends.batches) l.pending ∙ ap (λ l. batch ++ l) ends.split;
    sizes = (size, ends.sizes);
    state = ends.state;
    counted = (let was = ends.counted in omega (arith, was));
    verdict = inr (goes, ends.verdict);
    finished = ends.finished;
  }

  stopped_behind :
      (batch rest waiting : List String) (failures : ℕ) (s : S)
      → batch ++ rest ≡ waiting
      → (1 ≤ length batch) × (length batch ≤ execution.maximum_parallel_evaluations)
      → AsksToStop execution (failures + count_if not (run batch s).0) (run batch s).0
      → Ended run execution waiting failures s (record {
        pending = rest;
        failures = failures + count_if not (run batch s).0;
        stop_requested = true;
        state = (run batch s).1;
      })
  stopped_behind batch rest waiting failures s split size asks = record {
    batches = batch ∷ [];
    split = append_assoc batch [] rest ∙ split;
    sizes = (size, tt);
    state = refl;
    counted = omega arith;
    verdict = inl (asks, refl, refl);
    finished = λ h. absurd (cc);
  }

  -- With one round for each pending evaluation and batches of at least one, the loop ends. The pending
  -- evaluations are then batches, in their order and without gaps, none empty or larger than the
  -- policy allows, and what is pending still. The state is the one that `run` leaves when it is handed
  -- these batches one after another; the failures are those counted before and every failed outcome
  -- of the batches. The loop was stopped exactly if the last batch asks to, by a failed outcome under
  -- a policy that stops on any failure or at a number of failures that is reached; no batch before
  -- the last asks to. If it was not stopped, nothing is pending.
  pub batch_loop-Ends :
      (fuel : ℕ) (pending : List String) (failures : ℕ) (s : S)
      → 1 ≤ execution.maximum_parallel_evaluations
      → length pending ≤ fuel
      → Ends run execution pending failures s (batch_loop run execution fuel pending failures s)
  unfolding batch_loop
  batch_loop-Ends fuel [] failures s some_parallel enough = record {
    batches = [];
    split = refl;
    sizes = tt;
    state = refl;
    counted = omega arith;
    verdict = refl;
    finished = λ _. refl;
  }
  batch_loop-Ends zero (p ∷ ps) failures s some_parallel enough = absurd (omega (arith, enough))
  batch_loop-Ends (suc fuel) (p ∷ ps) failures s some_parallel enough =
      let n = execution.maximum_parallel_evaluations in
      let batch = take n (p ∷ ps) in
      let rest = drop n (p ∷ ps) in
      let done = run batch s in
      let failures' = failures + count_if not done.0 in
      let size : (1 ≤ length batch) × (length batch ≤ n) =
        (take-some n p ps some_parallel, length-take n (p ∷ ps)) in
      let next =
        batch_loop-Ends fuel rest failures' done.1 some_parallel
          (omega (arith, length-drop n p ps some_parallel, enough)) in
      elim (Bool-cases (must_stop execution failures' done.0)) [
        | inl stops ↦
            rw (stops, Ends)
              (stopped_behind batch rest (p ∷ ps) failures s (take-drop n (p ∷ ps)) size
                (must_stop-asks execution failures' done.0 stops))
        | inr goes ↦
            rw (goes, Ends)
              (subst
                (λ waiting.
                  Ends run execution waiting failures s
                    (batch_loop run execution fuel rest failures' done.1))
                (take-drop n (p ∷ ps))
                (Ends-then batch rest failures s _ size
                  (goes_on-no_asking execution failures' done.0 goes) next))
      ]

-- The failures stay below the maximum as long as the loop goes on, and the last batch adds no more
-- than its size.
abbrev pub WithinLimits : {S : Type 0} → CampaignExecutionPolicy → Option (Loop S) → Type 0
WithinLimits execution none = ⊥
WithinLimits execution (some l) =
    (l.stop_requested ≡ false → l.failures < execution.maximum_failures)
    × (l.failures < execution.maximum_failures + execution.maximum_parallel_evaluations)

count_if-le : {A : Type 0} (p : A → Bool) (xs : List A) → count_if p xs ≤ length xs
count_if-le p [] = omega arith
count_if-le p (x ∷ xs) = ground (arith, count_if-le p xs)

goes_on :
    (execution : CampaignExecutionPolicy) (failures : ℕ) (outcomes : List Bool)
    → failures < execution.maximum_failures
    → must_stop execution (failures + count_if not outcomes) outcomes ≡ false
    → failures + count_if not outcomes < execution.maximum_failures
goes_on execution failures outcomes below goes = elim (Bool-cases (any not outcomes)) [
  | inl some_failed ↦ ground (arith, some_failed, goes)
  | inr none_failed ↦ omega (arith, below, any-count_if not outcomes none_failed)
]

module _ {S : Type 0} (run : List String → S → List Bool × S) (execution : CampaignExecutionPolicy)
    (one_each : (batch : List String) (s : S) → length (run batch s).0 ≡ length batch) where
  -- Where a batch has one outcome for each of its evaluations, and the failures before are below the
  -- maximum: with one round for each pending evaluation and batches of at least one, the loop ends
  -- with fewer failures than the maximum and one batch together, and with fewer than the maximum if
  -- it was not asked to stop.
  pub batch_loop-WithinLimits :
      (fuel : ℕ) (pending : List String) (failures : ℕ) (s : S)
      → 1 ≤ execution.maximum_parallel_evaluations
      → length pending ≤ fuel
      → failures < execution.maximum_failures
      → WithinLimits execution (batch_loop run execution fuel pending failures s)
  unfolding batch_loop
  batch_loop-WithinLimits fuel [] failures s some_parallel enough below =
      (λ _. below, omega (arith, below))
  batch_loop-WithinLimits zero (p ∷ ps) failures s some_parallel enough below =
      absurd (omega (arith, enough))
  batch_loop-WithinLimits (suc fuel) (p ∷ ps) failures s some_parallel enough below =
      let n = execution.maximum_parallel_evaluations in
      let batch = take n (p ∷ ps) in
      let done = run batch s in
      let failures' = failures + count_if not done.0 in
      let added : failures' < execution.maximum_failures + n =
        omega (arith, count_if-le not done.0, one_each batch s, length-take n (p ∷ ps), below) in
      elim (Bool-cases (must_stop execution failures' done.0)) [
        | inl stops ↦ rw (stops, WithinLimits) (λ h. absurd (cc), added)
        | inr goes ↦
            rw (goes, WithinLimits)
              (batch_loop-WithinLimits fuel (drop n (p ∷ ps)) failures' done.1 some_parallel
                (omega (arith, length-drop n p ps some_parallel, enough))
                (goes_on execution failures done.0 below goes))
      ]
