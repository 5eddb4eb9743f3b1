-- ===== src/Registry/Sequences.antt =====
-- What any sequence of calls of the registry's methods does to the tables.
use llm_arbitrage_system.Base.{
  String, ◌≡◌, sym, ◌∙◌, subst, inl, inr, List, [], ◌∷◌, str_eq, eq_iff,
}
use llm_arbitrage_system.Base.Tests.{Bool-cases, Option-cases}
use llm_arbitrage_system.Base.Lists.{All}
use llm_arbitrage_system.Base.Result.{ok-injective, ok, err, Returns, Result, Result-cases}
use llm_arbitrage_system.Registry.Schema.{Tables, RegistryError, Reply}
use llm_arbitrage_system.Registry.Methods.{
  AttestationVerificationResult, Bundle, manifest_identity, Identity,
}
use llm_arbitrage_system.Registry.Evaluations.{
  MatrixEvaluation, EvaluationRequest, check_evaluation, settle, insert_registered, after_import,
  register_evaluation, planned_evaluation, agrees, expected_values,
}
use llm_arbitrage_system.Registry.Changes.{
  RegistryCall, trusts, imports_lineage, imports_bundle, registers, apply, after, Permission,
  Permits, Change, Changes, no_change, one_more,
}
use llm_arbitrage_system.Registry.Effects.{
  trust_public_key-Change, import_lineage-Change, Imports, Present, import_bundle-Imports,
  insert_registered-Changes,
}

-- The bundle of a request that passes has the planned dataset and configuration.
pub record Planned (r : EvaluationRequest) (planned : MatrixEvaluation) (identity : Identity)
    : Type 0 where
  pub names : manifest_identity r.bundle.manifest ≡ ok identity
  pub dataset : identity.dataset_hash ≡ planned.test_semantic_sha256
  pub config : identity.config_hash ≡ planned.candidate_config_sha256

check_evaluation-Returns :
    (r : EvaluationRequest) → Returns (λ found. Planned r found.0 found.1) (check_evaluation r)
unfolding check_evaluation
check_evaluation-Returns r = elim (Option-cases (planned_evaluation r.matrix r.evaluation_id)) [
  | inl e ↦ rw e tt
  | inr (p, e) ↦ elim (Option-cases r.entry) [
    | inl n ↦ rw (e, n) tt
    | inr (entry, n) ↦ elim (Result-cases (manifest_identity r.bundle.manifest)) [
      | inr (error, m) ↦ rw (e, n, m) tt
      | inl (i, m) ↦ elim (Bool-cases (agrees (expected_values r p i) entry)) [
        | inr a ↦ rw (e, n, m, a) tt
        | inl a ↦ elim (Bool-cases (str_eq i.dataset_hash p.test_semantic_sha256)) [
          | inr d ↦ rw (e, n, m, a, d) tt
          | inl d ↦ elim (Bool-cases (str_eq i.config_hash p.candidate_config_sha256)) [
            | inr c ↦ rw (e, n, m, a, d, c) tt
            | inl c ↦
                rw (e, n, m, a, d, c)
                  (record {
                    names = m;
                    dataset = (eq_iff i.dataset_hash p.test_semantic_sha256).0 d;
                    config = (eq_iff i.config_hash p.candidate_config_sha256).0 c;
                  })
          ]
        ]
      ]
    ]
  ]
]

pub check_evaluation-Planned :
    (r : EvaluationRequest) (planned : MatrixEvaluation) (identity : Identity)
    → check_evaluation r ≡ ok (planned, identity)
    → Planned r planned identity
check_evaluation-Planned r planned identity h =
    subst (Returns (λ found. Planned r found.0 found.1)) h (check_evaluation-Returns r)

module _ (H : Permission) where
  after_import-Changes :
      (r : EvaluationRequest) (planned : MatrixEvaluation) (identity : Identity) (now : String)
      (s : Tables) (result : Result RegistryError ((String × Reply) × Tables))
      → H r.verified r.bundle r.allow_untrusted
      → check_evaluation r ≡ ok (planned, identity)
      → Imports H r.verified r.bundle s result
      → Changes H s (after_import r planned identity now result s).0
  unfolding after_import
  after_import-Changes r planned identity now s (err error) permitted checked imports = no_change
  after_import-Changes r planned identity now s (ok ((id, reply), s')) permitted checked
        (i, names, found, imported, present) =
      let names' = (check_evaluation-Planned r planned identity checked).names in
      let i_is = ok-injective i identity (sym names ∙ names') in
      elim (Bool-cases (str_eq id identity.experiment_id)) [
        | inr h ↦ rw (h, after_import) (one_more s s' no_change imported)
        | inl h ↦
            rw (h, after_import)
              (subst (λ e. Changes H s (settle s' (insert_registered r planned e now s')).0)
                (sym ((eq_iff id identity.experiment_id).0 h))
                (insert_registered-Changes H r planned identity now s s' permitted checked imported
                  (subst (λ j. Present r.verified j s') i_is present)))
      ]

  register_evaluation-Changes :
      (r : EvaluationRequest) (now : String) (s : Tables)
      → H r.verified r.bundle r.allow_untrusted
      → Changes H s (register_evaluation r now s).0
  unfolding register_evaluation
  register_evaluation-Changes r now s permitted = elim (Result-cases (check_evaluation r)) [
    | inr (error, e) ↦ rw (e, register_evaluation) no_change
    | inl ((planned, identity), checked) ↦
        rw (checked, register_evaluation)
          (after_import-Changes r planned identity now s _ permitted checked
            (import_bundle-Imports H r.verified r.bundle r.allow_untrusted now s permitted))
  ]

  once : (s s' : Tables) → Change H s s' → Changes H s s'
  once s s' change = one_more s s' no_change change

  imported-Changes :
      (verified : AttestationVerificationResult) (bundle : Bundle) (s : Tables)
      (result : Result RegistryError ((String × Reply) × Tables))
      → Imports H verified bundle s result
      → Changes H s (settle s result).0
  imported-Changes verified bundle s (err error) imports = no_change
  imported-Changes verified bundle s (ok ((id, reply), s')) (i, names, found, imported, present) =
      once s s' imported

  apply-Changes : (call : RegistryCall) (s : Tables) → Permits H call → Changes H s (apply call s)
  unfolding apply
  apply-Changes (trusts identity label now) s permitted =
      once s _ (trust_public_key-Change H identity label now s)
  apply-Changes (imports_lineage manifest now) s permitted =
      once s _ (import_lineage-Change H manifest now s)
  apply-Changes (imports_bundle verified bundle allowed now) s permitted =
      imported-Changes verified bundle s _
        (import_bundle-Imports H verified bundle allowed now s permitted)
  apply-Changes (registers r now) s permitted = register_evaluation-Changes r now s permitted

  Changes-then : (s t u : Tables) → Changes H s t → Changes H t u → Changes H s u
  Changes-then s t u made no_change = made
  Changes-then s t _ made (one_more v u more last) =
      one_more v u (Changes-then s t v made more) last

  -- What a sequence of calls does to the tables is a sequence of changes.
  pub after-Changes :
      (calls : List RegistryCall) (s : Tables) → All (Permits H) calls → Changes H s (after calls s)
  after-Changes [] s permitted = no_change
  after-Changes (call ∷ calls) s permitted =
      Changes-then s (apply call s) _ (apply-Changes call s permitted.0)
        (after-Changes calls (apply call s) permitted.1)

  -- What every change keeps, any number of them keep.
  pub Changes-keep :
      (P : Tables → Type 0)
      → ((s t : Tables) → Change H s t → P s → P t)
      → (s t : Tables) → Changes H s t
      → P s
      → P t
  Changes-keep P keeps s t no_change holds = holds
  Changes-keep P keeps s _ (one_more u t made last) holds =
      keeps u t last (Changes-keep P keeps s u made holds)

always : (calls : List RegistryCall) → All (Permits (λ verified bundle allowed. Unit)) calls
always [] = tt
always (trusts identity label now ∷ calls) = (tt, always calls)
always (imports_lineage manifest now ∷ calls) = (tt, always calls)
always (imports_bundle verified bundle allowed now ∷ calls) = (tt, always calls)
always (registers r now ∷ calls) = (tt, always calls)

-- Calls with no condition on the bundles.
pub after-keeps :
    (P : Tables → Type 0)
    → ((s t : Tables) → Change (λ verified bundle allowed. Unit) s t → P s → P t)
    → (calls : List RegistryCall) (s : Tables) → P s
    → P (after calls s)
after-keeps P keeps calls s holds =
    Changes-keep (λ verified bundle allowed. Unit) P keeps s _
      (after-Changes (λ verified bundle allowed. Unit) calls s (always calls)) holds
