-- ===== src/LineageManifest.antt =====
-- experiments/lineage.py: the parser of lineage manifests, on the mapping that the YAML text gives.
use Prim.Native.String.{compare as compare_text, ◌++◌ as str_append}
use text.Mathlib.Text.{is_le}
use llm_arbitrage_system.Base.{
  ℕ, String, Bool, true, false, not, ◌&&◌, ◌||◌, Option, none, some, List, [], ◌∷◌, str_eq,
}
use llm_arbitrage_system.Base.Tests.{◌==◌, if◌then◌else◌}
use llm_arbitrage_system.Base.Texts.{char_count, all_hex, strip, take_chars, has_hex_form}
use llm_arbitrage_system.Base.Lists.{any}
use llm_arbitrage_system.Base.Int.{pos}
use llm_arbitrage_system.Base.Result.{Result, ok, err, raise_if, ◌>>=◌, ◌>>◌}
use llm_arbitrage_system.Json.{
  Json, null, bool, int, string, array, object, Items, nil, item, Fields, end, field, get_field,
  same_int, Canonical,
}
pub mod Edges
pub mod Import
pub mod Tests

pub data LineageError : Type 0 where
  unknown_fields invalid : String → LineageError
  duplicate_parents source_with_parents derived_without_parents : LineageError
  wrong_id own_parent : LineageError

abbrev pub Parsed : Type 0 → Type 0
Parsed A = Result LineageError A

-- `LineageOperation`
pub record LineageOperation : Type 0 where
  pub name : String
  pub version : String
  pub parameters : Fields

-- `DatasetLineageManifest`
pub record DatasetLineageManifest : Type 0 where
  pub lineage_id : String
  pub dataset_semantic_sha256 : String
  pub kind : String
  pub operation : LineageOperation
  pub parents : List String
  pub source_uri : Option String
  pub notes : List String

-- `_required_string`
unfoldable pub stripped_string : Option Json → String → Parsed String
stripped_string (some (string value)) name = do
  raise_if (str_eq (strip value) "") (invalid name)
  ok (strip value)
stripped_string _ name = err (invalid name)

-- `_sha256`
unfoldable pub sha256_text : Option Json → String → Parsed String
unfolding stripped_string
sha256_text value name = do
  text ← stripped_string value name
  raise_if (not (char_count text == 64 && all_hex text)) (invalid name)
  ok text

-- `_lineage_id`
unfoldable pub lineage_id_text : Option Json → String → Parsed String
unfolding stripped_string
lineage_id_text value name = do
  text ← stripped_string value name
  raise_if (not (has_hex_form "lineage-" 40 text)) (invalid name)
  ok text

abbrev pub is_listed : List String → String → Bool
is_listed names key = any (λ name. str_eq name key) names

-- `set(payload) - allowed`
abbrev pub has_unknown : List String → Fields → Bool
has_unknown allowed end = false
has_unknown allowed (field k v rest) = not (is_listed allowed k) || has_unknown allowed rest

abbrev pub is_first_version : Option Json → Bool
is_first_version (some (int version)) = same_int version (pos 1)
is_first_version _ = false

abbrev pub mapping : Option Json → String → Parsed Fields
mapping (some (object payload)) name = ok payload
mapping _ name = err (invalid name)

-- `operation_payload.get("parameters", {})`
abbrev pub mapping_or_empty : Option Json → String → Parsed Fields
mapping_or_empty none name = ok end
mapping_or_empty (some value) name = mapping (some value) name

-- `payload.get(key, [])`
abbrev pub sequence_or_empty : Option Json → String → Parsed Items
sequence_or_empty none name = ok nil
sequence_or_empty (some (array items)) name = ok items
sequence_or_empty _ name = err (invalid name)

unfoldable pub read_operation : Option Json → Parsed LineageOperation
unfolding stripped_string
read_operation value = do
  payload ← mapping value "operation"
  raise_if (has_unknown ("name" ∷ "version" ∷ "parameters" ∷ []) payload)
      (unknown_fields "operation")
  parameters ← mapping_or_empty (get_field "parameters" payload) "operation.parameters"
  name ← stripped_string (get_field "name" payload) "operation.name"
  version ← stripped_string (get_field "version" payload) "operation.version"
  ok (record { name = name; version = version; parameters = parameters })

unfoldable pub read_parents : Items → Parsed (List String)
unfolding lineage_id_text
read_parents nil = ok []
read_parents (item value items) = do
  parent ← lineage_id_text (some value) "parent"
  parents ← read_parents items
  ok (parent ∷ parents)

-- `sorted`
abbrev pub insert_text : String → List String → List String
insert_text t [] = t ∷ []
insert_text t (x ∷ xs) = if is_le (compare_text t x) then t ∷ x ∷ xs else x ∷ insert_text t xs

abbrev pub sort_texts : List String → List String
sort_texts [] = []
sort_texts (t ∷ texts) = insert_text t (sort_texts texts)

-- `len(set(parents)) != len(parents)`: some parent occurs again
abbrev pub occurs_again : List String → Bool
occurs_again [] = false
occurs_again (x ∷ xs) = any (λ y. str_eq y x) xs || occurs_again xs

abbrev pub is_empty : List String → Bool
is_empty [] = true
is_empty (x ∷ xs) = false

unfoldable pub checked_parents : String → Option Json → Parsed (List String)
unfolding read_parents
checked_parents kind value = do
  items ← sequence_or_empty value "parents"
  unsorted ← read_parents items
  let parents = sort_texts unsorted
  raise_if (occurs_again parents) duplicate_parents
  raise_if (str_eq kind "source" && not (is_empty parents)) source_with_parents
  raise_if (not (str_eq kind "source") && is_empty parents) derived_without_parents
  ok parents

-- a string or null, and not blank
unfoldable pub optional_uri : Option Json → Parsed (Option String)
optional_uri none = ok none
optional_uri (some null) = ok none
optional_uri (some (string value)) = do
  raise_if (str_eq (strip value) "") (invalid "source_uri")
  ok (some value)
optional_uri _ = err (invalid "source_uri")

unfoldable pub read_notes : Items → Parsed (List String)
read_notes nil = ok []
read_notes (item (string value) items) = do
  raise_if (str_eq value "") (invalid "notes")
  notes ← read_notes items
  ok (value ∷ notes)
read_notes (item _ items) = err (invalid "notes")

abbrev pub texts_json : List String → Items
texts_json [] = nil
texts_json (t ∷ texts) = item (string t) (texts_json texts)

abbrev pub uri_json : Option String → Json
uri_json none = null
uri_json (some uri) = string uri

-- `DatasetLineageManifest.identity_payload`
abbrev pub identity_payload : DatasetLineageManifest → Json
identity_payload m = object (
    field "schema_version" (int (pos 1)) (
      field "dataset_semantic_sha256" (string m.dataset_semantic_sha256) (
        field "kind" (string m.kind) (
          field "operation"
            (object (
              field "name" (string m.operation.name) (
                field "version" (string m.operation.version)
                  (field "parameters" (object m.operation.parameters) end))))
            (field "parents" (array (texts_json m.parents)) (
              field "source_uri" (uri_json m.source_uri)
                (field "notes" (array (texts_json m.notes)) end)))))))

abbrev pub lineage_hash : Canonical → DatasetLineageManifest → String
lineage_hash C m =
    str_append "lineage-" (take_chars 40 (C.sha256_hex (C.canonical_json (identity_payload m))))

-- An id that is supplied has to be the computed one.
unfoldable pub check_supplied : Option Json → String → Parsed (Unit {0})
unfolding lineage_id_text
check_supplied none computed = ok tt
check_supplied (some null) computed = ok tt
check_supplied (some value) computed = do
  supplied ← lineage_id_text (some value) "lineage_id"
  raise_if (not (str_eq supplied computed)) wrong_id

abbrev pub lineage_fields : List String
lineage_fields =
    "schema_version" ∷ "lineage_id" ∷ "dataset_semantic_sha256" ∷ "kind" ∷ "operation" ∷ "parents"
    ∷ "source_uri" ∷ "notes" ∷ []

-- The manifest, still with no id.
unfoldable pub read_manifest : Fields → Parsed DatasetLineageManifest
unfolding stripped_string sha256_text read_operation checked_parents optional_uri read_notes
read_manifest payload = do
  raise_if (has_unknown lineage_fields payload) (unknown_fields "manifest")
  raise_if (not (is_first_version (get_field "schema_version" payload))) (invalid "schema_version")
  dataset ← sha256_text (get_field "dataset_semantic_sha256" payload) "dataset_semantic_sha256"
  kind ← stripped_string (get_field "kind" payload) "kind"
  raise_if (not (is_listed ("derived" ∷ "slice" ∷ "source" ∷ []) kind)) (invalid "kind")
  operation ← read_operation (get_field "operation" payload)
  parents ← checked_parents kind (get_field "parents" payload)
  source_uri ← optional_uri (get_field "source_uri" payload)
  items ← sequence_or_empty (get_field "notes" payload) "notes"
  notes ← read_notes items
  ok (record {
    lineage_id = "";
    dataset_semantic_sha256 = dataset;
    kind = kind;
    operation = operation;
    parents = parents;
    source_uri = source_uri;
    notes = notes;
  })

-- `parse_lineage_manifest`
unfoldable pub parse_lineage_manifest : Canonical → Fields → Parsed DatasetLineageManifest
unfolding read_manifest check_supplied
parse_lineage_manifest C payload = do
  m ← read_manifest payload
  let computed = lineage_hash C m
  check_supplied (get_field "lineage_id" payload) computed
  raise_if (is_listed m.parents computed) own_parent
  ok (record m { lineage_id = computed })
