-- ===== src/CampaignRunner/Reconcile.antt =====
-- experiments/campaign_runner.py: what a campaign that is taken up again checks against the registry,
-- `_reconcile_registered_evaluations`, before it runs anything.
use llm_arbitrage_system.Base.{
  String, ◌≡◌, refl, Bool, true, false, not, ◌&&◌, Option, none, some, List, [], ◌∷◌, str_eq,
  eq_iff,
}
use llm_arbitrage_system.Base.Tests.{if◌then◌else◌}
use llm_arbitrage_system.Base.Lists.{All}
use llm_arbitrage_system.Base.Result.{
  Result, ok, err, raise_if, ◌>>=◌, ◌>>◌, returned, passed, passed_last,
}
use llm_arbitrage_system.Registry.Schema.{
  RegisteredEvaluation, ExperimentRow, Tables, RegistryError, experiment_row,
}
use llm_arbitrage_system.Registry.Reads.{verify}
use llm_arbitrage_system.CampaignStore.Schema.{EvaluationRow, Store, same_text}
use llm_arbitrage_system.CampaignStore.Queries.{Error, evaluations}
use llm_arbitrage_system.CampaignStore.Methods.{is_settled, mark_skipped_existing}

-- A value of the dictionary of `_registry_evaluation_evidence`.
pub record RegistryEvidence : Type 0 where
  pub experiment_id : String
  pub signer_key_id : String
  pub lineage_id : Option String
  pub trusted : Bool

abbrev pub evidence_row : ExperimentRow → RegistryEvidence
evidence_row x = record {
  experiment_id = x.experiment_id;
  signer_key_id = x.signer_key_id;
  lineage_id = x.lineage_id;
  trusted = x.trusted;
}

-- `by_id.get(evaluation_id)`: the evaluation's id is a primary key
abbrev pub joined_evidence :
    String → String → List ExperimentRow → List RegisteredEvaluation → Option RegistryEvidence
joined_evidence matrix_sha256 evaluation_id experiments [] = none
joined_evidence matrix_sha256 evaluation_id experiments (e ∷ rows) =
    let rest = joined_evidence matrix_sha256 evaluation_id experiments rows in
    if str_eq e.matrix_sha256 matrix_sha256 && str_eq e.evaluation_id evaluation_id
    then elim (experiment_row e.experiment_id experiments) [
      | some x ↦ some (evidence_row x)
      | none ↦ rest
    ]
    else rest

unfoldable pub registry_evidence : String → String → Tables → Option RegistryEvidence
registry_evidence matrix_sha256 evaluation_id registry =
    joined_evidence matrix_sha256 evaluation_id registry.experiments registry.evaluations

pub data ReconcileError : Type 0 where
  registry_error : RegistryError → ReconcileError
  store_error : Error → ReconcileError
  missing_evidence untrusted_evidence other_signer other_lineage : ReconcileError

-- `_verify_registry_evidence_identity`
unfoldable pub verify_registry_evidence_identity :
    String → Option String → RegistryEvidence → Result ReconcileError (Unit {0})
verify_registry_evidence_identity signer_key_id lineage_id row = do
  raise_if (not (str_eq row.signer_key_id signer_key_id)) other_signer
  raise_if (not (same_text row.lineage_id lineage_id)) other_lineage

abbrev pub in_store : {A : Type 0} → Result Error A → Result ReconcileError A
in_store (ok value) = ok value
in_store (err error) = err (store_error error)

-- The body of the loop for one state of the store.
unfoldable pub reconcile_one :
    String
    → String
    → Option String
    → String
    → EvaluationRow
    → Option RegistryEvidence
    → Store
    → Result ReconcileError Store
unfolding verify_registry_evidence_identity
reconcile_one campaign_id signer_key_id lineage_id now state none s = do
  raise_if (is_settled state.status) missing_evidence
  ok s
reconcile_one campaign_id signer_key_id lineage_id now state (some row) s = do
  raise_if (not row.trusted)
      (if is_settled state.status then missing_evidence else untrusted_evidence)
  verify_registry_evidence_identity signer_key_id lineage_id row
  elim (is_settled state.status) [
    | true ↦ ok s
    | false ↦ do
      written ←
          in_store
            (mark_skipped_existing campaign_id state.evaluation_id (some row.experiment_id) now s)
      ok written.1
  ]

unfoldable pub reconcile_all :
    String
    → String
    → Option String
    → String
    → (String → Option RegistryEvidence)
    → List EvaluationRow
    → Store
    → Result ReconcileError Store
unfolding reconcile_one
reconcile_all campaign_id signer_key_id lineage_id now by_id [] s = ok s
reconcile_all campaign_id signer_key_id lineage_id now by_id (state ∷ states) s = do
  s' ← reconcile_one campaign_id signer_key_id lineage_id now state (by_id state.evaluation_id) s
  reconcile_all campaign_id signer_key_id lineage_id now by_id states s'

abbrev pub in_registry : {A : Type 0} → Result RegistryError A → Result ReconcileError A
in_registry (ok value) = ok value
in_registry (err error) = err (registry_error error)

-- `_reconcile_registered_evaluations`: the states are those that the store holds before the loop.
unfoldable pub reconcile_registered_evaluations :
    String → String → Tables → String → Option String → String → Store → Result ReconcileError Store
unfolding reconcile_all registry_evidence
reconcile_registered_evaluations campaign_id matrix_sha256 registry signer_key_id lineage_id now s =
    do
      checked ← in_registry (verify true registry)
      reconcile_all campaign_id signer_key_id lineage_id now
          (λ evaluation_id. registry_evidence matrix_sha256 evaluation_id registry)
          (evaluations campaign_id s) s

-- The evidence is trusted, and of the campaign's signer and lineage.
pub record Accepts (signer_key_id : String) (lineage_id : Option String) (row : RegistryEvidence)
    : Type 0 where
  pub trusted : row.trusted ≡ true
  pub signer : row.signer_key_id ≡ signer_key_id
  pub lineage : same_text row.lineage_id lineage_id ≡ true

-- A settled evaluation has accepted evidence; another has accepted evidence or none.
abbrev pub Reconciled : String → Option String → EvaluationRow → Option RegistryEvidence → Type 0
Reconciled signer_key_id lineage_id state none = is_settled state.status ≡ false
Reconciled signer_key_id lineage_id state (some row) = Accepts signer_key_id lineage_id row

of_not : (b : Bool) → not b ≡ false → b ≡ true
of_not true h = refl
of_not false h = absurd (cc)

reconcile_one-Reconciled :
    (cid signer : String) (lineage : Option String) (now : String) (state : EvaluationRow)
    (evidence : Option RegistryEvidence) (s s' : Store)
    → reconcile_one cid signer lineage now state evidence s ≡ ok s'
    → Reconciled signer lineage state evidence
unfolding reconcile_one verify_registry_evidence_identity
reconcile_one-Reconciled cid signer lineage now state none s s' h =
    (passed (is_settled state.status) _ _ _ h).0
reconcile_one-Reconciled cid signer lineage now state (some row) s s' h =
    let (trusted, h1) = passed (not row.trusted) _ _ _ h in
    let (_, identity, h2) =
      returned _ _ (verify_registry_evidence_identity signer lineage row) h1 in
    let (same_signer, h3) = passed (not (str_eq row.signer_key_id signer)) _ _ _ identity in
    record {
      trusted = of_not row.trusted trusted;
      signer = (eq_iff row.signer_key_id signer).0 (of_not _ same_signer);
      lineage = of_not _ (passed_last _ _ h3);
    }

reconcile_all-Reconciled :
    (cid signer : String) (lineage : Option String) (now : String)
    (by_id : String → Option RegistryEvidence) (states : List EvaluationRow) (s s' : Store)
    → reconcile_all cid signer lineage now by_id states s ≡ ok s'
    → All (λ state. Reconciled signer lineage state (by_id state.evaluation_id)) states
unfolding reconcile_all
reconcile_all-Reconciled cid signer lineage now by_id [] s s' h = tt
reconcile_all-Reconciled cid signer lineage now by_id (state ∷ states) s s' h =
    let (t, one, h1) =
      returned _ _ (reconcile_one cid signer lineage now state (by_id state.evaluation_id) s) h in
    (
      reconcile_one-Reconciled cid signer lineage now state (by_id state.evaluation_id) s t one,
      reconcile_all-Reconciled cid signer lineage now by_id states t s' h1,
    )

-- Where the reconciliation returns, every evaluation of the campaign that was registered or skipped
-- has evidence in the registry, and all evidence for the campaign's evaluations is trusted, signed by
-- the campaign's signer and of its lineage.
pub reconcile-Reconciled :
    (cid matrix : String) (registry : Tables) (signer : String) (lineage : Option String)
    (now : String) (s s' : Store)
    → reconcile_registered_evaluations cid matrix registry signer lineage now s ≡ ok s'
    → All
        (λ state.
          Reconciled signer lineage state (registry_evidence matrix state.evaluation_id registry))
        (evaluations cid s)
unfolding reconcile_registered_evaluations
reconcile-Reconciled cid matrix registry signer lineage now s s' h =
    let (_, _, h1) = returned _ _ (in_registry (verify true registry)) h in
    reconcile_all-Reconciled cid signer lineage now _ (evaluations cid s) s s' h1
