-- ===== src/Registry/Trust.antt =====
-- What the consumers of `evaluation_rows` are given, and how far they can trust it.
use llm_arbitrage_system.Base.{
  suc, String, ◌≡◌, refl, ap, ◌∙◌, inl, inr, Bool, true, false, List, [], ◌∷◌, str_eq, arith,
}
use llm_arbitrage_system.Base.Tests.{Option-cases}
use llm_arbitrage_system.Base.Lists.{length, select, count_if, any, All, All-append, All-first?}
use llm_arbitrage_system.Base.Result.{ok}
use llm_arbitrage_system.Registry.Schema.{
  ExperimentRow, RegisteredEvaluation, Tables, key_row, experiment_row,
}
use llm_arbitrage_system.Registry.Methods.{AttestationVerificationResult, signer_trusted}
use llm_arbitrage_system.Registry.Reads.{
  evaluation_rows, join_experiments, insert_row, order_rows, evaluation_broken,
}
use llm_arbitrage_system.Registry.Changes.{
  RegistryCall, after, empty, Permission, Permits, Change, same, key_added, lineage_added,
  experiment_added, evaluation_added,
}
use llm_arbitrage_system.Registry.Integrity.{IsSound, Change-IsSound, empty-IsSound}
use llm_arbitrage_system.Registry.Sequences.{after-Changes, Changes-keep, after-keeps}

length-insert_row :
    (r : RegisteredEvaluation) (rows : List RegisteredEvaluation)
    → length (insert_row r rows) ≡ suc (length rows)
length-insert_row r [] = refl
length-insert_row r (x ∷ xs) = ground (arith, length-insert_row r xs)

length-order_rows : (rows : List RegisteredEvaluation) → length (order_rows rows) ≡ length rows
length-order_rows [] = refl
length-order_rows (r ∷ rows) =
    ground (arith, length-insert_row r (order_rows rows), length-order_rows rows)

any-insert_row :
    (p : RegisteredEvaluation → Bool) (r : RegisteredEvaluation) (rows : List RegisteredEvaluation)
    → p r ≡ false
    → any p rows ≡ false
    → any p (insert_row r rows) ≡ false
any-insert_row p r [] h k = ground (arith)
any-insert_row p r (x ∷ xs) h k = ground (arith, any-insert_row p r xs)

any-order_rows :
    (p : RegisteredEvaluation → Bool) (rows : List RegisteredEvaluation)
    → any p rows ≡ false
    → any p (order_rows rows) ≡ false
any-order_rows p [] h = refl
any-order_rows p (r ∷ rows) h =
    any-insert_row p r (order_rows rows) (ground arith) (any-order_rows p rows (ground arith))

any-select :
    {A : Type 0} (p q : A → Bool) (rows : List A)
    → any p rows ≡ false
    → any p (select q rows) ≡ false
any-select p q [] h = refl
any-select p q (r ∷ rows) h = ground (arith, any-select p q rows)

length-select :
    {A : Type 0} (q : A → Bool) (rows : List A) → length (select q rows) ≡ count_if q rows
length-select q [] = refl
length-select q (r ∷ rows) = ground (arith, length-select q rows)

-- Every evaluation whose experiment is found gives a row.
length-join :
    (experiments : List ExperimentRow) (rows : List RegisteredEvaluation)
    → any (evaluation_broken experiments) rows ≡ false
    → length (join_experiments experiments rows) ≡ length rows
length-join experiments [] h = refl
length-join experiments (e ∷ rows) h =
    let rest = length-join experiments rows (ground arith) in
    elim (Option-cases (experiment_row e.experiment_id experiments)) [
      | inr (x, found) ↦ rw (found, length, join_experiments) (ap suc rest)
      | inl absent ↦ absurd (ground (arith, absent, h))
    ]

-- The join with the experiments drops no evaluation, whatever calls were made.
length-evaluation_rows :
    (calls : List RegistryCall) (matrix : String)
    → length (evaluation_rows matrix (after calls empty))
      ≡ count_if (λ e. str_eq e.matrix_sha256 matrix) (after calls empty).evaluations
unfolding evaluation_rows
length-evaluation_rows calls matrix =
    let s = after calls empty in
    let chosen = select (λ e. str_eq e.matrix_sha256 matrix) s.evaluations in
    let sound = after-keeps IsSound (Change-IsSound _) calls empty empty-IsSound in
    length-join s.experiments (order_rows chosen)
      (any-order_rows _ chosen (any-select _ _ s.evaluations sound.evaluations))
    ∙ (length-order_rows chosen ∙ length-select _ s.evaluations)

-- The bundle is imported without `allow_untrusted`.
abbrev pub Strict : Permission
Strict verified bundle allowed = allowed ≡ false

signer_trusted-strict :
    (verified : AttestationVerificationResult) (allowed trusted : Bool) (s : Tables)
    → allowed ≡ false
    → signer_trusted verified allowed s ≡ ok trusted
    → trusted ≡ true
unfolding signer_trusted
signer_trusted-strict verified allowed trusted s strict h =
    elim (Option-cases (key_row verified.key_id s.trusted_keys)) [
      | inr (row, e) ↦ ground (arith, e, h)
      | inl e ↦ absurd (ground (arith, e, strict, h))
    ]

abbrev IsTrusted : Tables → Type 0
IsTrusted s = All (λ x. x.trusted ≡ true) s.experiments

Change-IsTrusted : (s t : Tables) → Change Strict s t → IsTrusted s → IsTrusted t
Change-IsTrusted s _ same old = old
Change-IsTrusted s _ (key_added k) old = old
Change-IsTrusted s _ (lineage_added n parents _ _) old = old
Change-IsTrusted s _
      (experiment_added identity verified bundle allowed trusted replay performance now strict _
        signed _ _)
      old =
    All-append s.experiments _ (λ x h. h) old
      (signer_trusted-strict verified allowed trusted s strict signed, tt)
Change-IsTrusted s _ (evaluation_added _ _ _ _ _ _ _ _ _ _ _) old = old

join-trusted :
    (experiments : List ExperimentRow) (rows : List RegisteredEvaluation)
    → All (λ x. x.trusted ≡ true) experiments
    → All (λ report. report.trusted ≡ true) (join_experiments experiments rows)
join-trusted experiments [] trusted = tt
join-trusted experiments (e ∷ rows) trusted =
    let rest = join-trusted experiments rows trusted in
    elim (Option-cases (experiment_row e.experiment_id experiments)) [
      | inr (x, found) ↦
          rw (found, All, join_experiments)
            (
              All-first? _ (λ y. str_eq y.experiment_id e.experiment_id) experiments x trusted
                  found,
              rest,
            )
      | inl absent ↦ rw (absent, All, join_experiments) rest
    ]

-- From an empty registry, and calls none of which allows an untrusted signer: `evaluation_rows` has as
-- many rows as the matrix has registered evaluations, and every row is marked as trusted.
pub evaluation_rows-trusted :
    (calls : List RegistryCall) (matrix : String)
    → All (Permits Strict) calls
    → (length (evaluation_rows matrix (after calls empty))
        ≡ count_if (λ e. str_eq e.matrix_sha256 matrix) (after calls empty).evaluations)
      × All (λ report. report.trusted ≡ true) (evaluation_rows matrix (after calls empty))
unfolding evaluation_rows
evaluation_rows-trusted calls matrix strict = (
  length-evaluation_rows calls matrix,
  join-trusted (after calls empty).experiments _ (
      Changes-keep Strict IsTrusted Change-IsTrusted empty _
        (after-Changes Strict calls empty strict) tt),
)
