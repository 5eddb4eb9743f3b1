-- ===== src/Registry/WriteOnce.antt =====
-- The abstract view of the registry: a map from evaluations to experiments that is written once.
use llm_arbitrage_system.Base.{
  String, ◌≡◌, ◌≢◌, refl, true, Option, none, some, List, [], ◌∷◌, ◌++◌, str_eq, eq_iff, arith,
}
use llm_arbitrage_system.Base.Tests.{if◌then◌else◌}
use llm_arbitrage_system.Registry.Schema.{RegisteredEvaluation, Tables, evaluation_row}
use llm_arbitrage_system.Registry.Evaluations.{has_evaluation}
use llm_arbitrage_system.Registry.Changes.{
  RegistryCall, after, Permission, Change, same, key_added, lineage_added, experiment_added,
  evaluation_added,
}
use llm_arbitrage_system.Registry.Sequences.{after-keeps}

-- The experiment of each evaluation that has one.
abbrev pub View : Type 0
View = String → Option String

-- One step of the specification: nothing, or a new evaluation is given an experiment that no other
-- evaluation has.
pub data WriteOnce (m m' : View) : Type 0 where
  unwritten : ((id : String) → m' id ≡ m id) → WriteOnce m m'
  writes :
      (id experiment : String)
      → m id ≡ none
      → ((other : String) → m other ≢ some experiment)
      → ((other : String) → m' other ≡ (if str_eq id other then some experiment else m other))
      → WriteOnce m m'

-- Any number of steps.
pub data Writes (m : View) : View → Type 0 where
  no_step : Writes m m
  then_step : (m' m'' : View) → Writes m m' → WriteOnce m' m'' → Writes m m''

abbrev pub experiment_of : List RegisteredEvaluation → View
experiment_of [] id = none
experiment_of (e ∷ rows) id =
    if str_eq e.evaluation_id id then some e.experiment_id else experiment_of rows id

abbrev pub view : Tables → View
view s = experiment_of s.evaluations

experiment_of-absent :
    (rows : List RegisteredEvaluation) (id : String)
    → evaluation_row id rows ≡ none
    → experiment_of rows id ≡ none
experiment_of-absent [] id h = refl
experiment_of-absent (e ∷ rows) id h = ground (arith, experiment_of-absent rows id)

experiment_of-has :
    (rows : List RegisteredEvaluation) (id experiment : String)
    → experiment_of rows id ≡ some experiment
    → has_evaluation experiment rows ≡ true
experiment_of-has [] id experiment h = absurd (cc)
experiment_of-has (e ∷ rows) id experiment h =
    ground (arith, eq_iff e.experiment_id experiment, experiment_of-has rows id experiment)

experiment_of-append :
    (rows : List RegisteredEvaluation) (e : RegisteredEvaluation) (id : String)
    → evaluation_row e.evaluation_id rows ≡ none
    → experiment_of (rows ++ e ∷ []) id
      ≡ (if str_eq e.evaluation_id id then some e.experiment_id else experiment_of rows id)
experiment_of-append [] e id fresh = refl
experiment_of-append (x ∷ rows) e id fresh = ground (
  arith,
  eq_iff x.evaluation_id e.evaluation_id,
  eq_iff x.evaluation_id id,
  eq_iff e.evaluation_id id,
  experiment_of-append rows e id,
)

Change-WriteOnce : (H : Permission) (s t : Tables) → Change H s t → WriteOnce (view s) (view t)
Change-WriteOnce H s _ same = unwritten (λ id. refl)
Change-WriteOnce H s _ (key_added k) = unwritten (λ id. refl)
Change-WriteOnce H s _ (lineage_added n parents _ _) = unwritten (λ id. refl)
Change-WriteOnce H s _ (experiment_added _ _ _ _ _ _ _ _ _ _ _ _ _) = unwritten (λ id. refl)
Change-WriteOnce H s _ (evaluation_added r planned identity now x _ _ _ _ fresh unused) =
    writes r.evaluation_id identity.experiment_id
      (experiment_of-absent s.evaluations r.evaluation_id fresh)
      (λ other h.
        absurd
          (ground (arith, experiment_of-has s.evaluations other identity.experiment_id h, unused)))
      (λ other. experiment_of-append s.evaluations _ other fresh)

-- The registry implements the map that is written once: whatever calls follow, what they do to the
-- experiments of the evaluations is a sequence of steps that each give one evaluation without an
-- experiment one that no other has.
pub after-Writes : (calls : List RegistryCall) (s : Tables) → Writes (view s) (view (after calls s))
after-Writes calls s =
    after-keeps (λ t. Writes (view s) (view t))
      (λ t u change so_far. then_step (view t) (view u) so_far (Change-WriteOnce _ t u change))
      calls s no_step
