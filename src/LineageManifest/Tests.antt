-- ===== src/LineageManifest/Tests.antt =====
-- A manifest of a lineage derived from two, listed in the other order.
use llm_arbitrage_system.Base.{String, ◌≡◌, refl, none, [], ◌∷◌, List}
use llm_arbitrage_system.Base.Int.{pos}
use llm_arbitrage_system.Base.Result.{ok, err}
use llm_arbitrage_system.Json.{int, string, array, object, nil, item, Fields, end, field, Canonical}
use llm_arbitrage_system.Registry.Schema.{registered, already_registered}
use llm_arbitrage_system.Registry.Methods.{Lineage, import_lineage, insert_edges}
use llm_arbitrage_system.Registry.Changes.{RegistryCall, imports_lineage, apply, after, empty}
use llm_arbitrage_system.LineageManifest.{
  duplicate_parents, DatasetLineageManifest, parse_lineage_manifest, read_manifest, check_supplied,
  stripped_string, sha256_text, lineage_id_text, read_operation, read_parents, checked_parents,
  optional_uri, read_notes,
}
use llm_arbitrage_system.LineageManifest.Import.{lineage_of, with_lineage, import_lineage-parse}

-- A hash that is the same for every text.
abbrev canonical : Canonical
canonical = record {
  canonical_json = λ v. "{}";
  sha256_hex = λ s. "eeeeeeeeeeeeeeeeeeeeeeeeeeeeeeeeeeeeeeeeeeeeeeeeeeeeeeeeeeeeeeee";
}

abbrev first_id : String
first_id = "lineage-aaaaaaaaaaaaaaaaaaaaaaaaaaaaaaaaaaaaaaaa"

abbrev second_id : String
second_id = "lineage-bbbbbbbbbbbbbbbbbbbbbbbbbbbbbbbbbbbbbbbb"

abbrev source : String → Lineage
source id = record {
  lineage_id = id;
  dataset_semantic_sha256 = "d1";
  kind = "source";
  parents = [];
  text = "{1}";
}

abbrev payload : String → Fields
payload other = field "schema_version" (int (pos 1)) (
    field "kind" (string " derived ") (
      field "dataset_semantic_sha256"
        (string "cccccccccccccccccccccccccccccccccccccccccccccccccccccccccccccccc")
        (field "operation"
          (object (field "name" (string "merge") (field "version" (string "1") end)))
          (field "parents" (array (item (string second_id) (item (string other) nil))) end))))

abbrev merged : DatasetLineageManifest
merged = record {
  lineage_id = "lineage-eeeeeeeeeeeeeeeeeeeeeeeeeeeeeeeeeeeeeeee";
  dataset_semantic_sha256 = "cccccccccccccccccccccccccccccccccccccccccccccccccccccccccccccccc";
  kind = "derived";
  operation = record { name = "merge"; version = "1"; parameters = end };
  parents = first_id ∷ second_id ∷ [];
  source_uri = none;
  notes = [];
}

parse_merged : parse_lineage_manifest canonical (payload first_id) ≡ ok merged
unfolding parse_lineage_manifest read_manifest check_supplied stripped_string sha256_text
    lineage_id_text read_operation read_parents checked_parents optional_uri read_notes
parse_merged = refl

parse_twice : parse_lineage_manifest canonical (payload second_id) ≡ err duplicate_parents
unfolding parse_lineage_manifest read_manifest check_supplied stripped_string sha256_text
    lineage_id_text read_operation read_parents checked_parents optional_uri read_notes
parse_twice = refl

abbrev calls : List RegistryCall
calls = imports_lineage (source first_id) "t1" ∷ imports_lineage (source second_id) "t1" ∷ []

import_lineage-parse_example :
    (import_lineage (lineage_of merged "{m}") "t2" (after calls empty)
      ≡ ok (registered, with_lineage calls (lineage_of merged "{m}") "t2"))
    × (import_lineage
          (lineage_of merged "{m}")
          "t3"
          (with_lineage calls (lineage_of merged "{m}") "t2")
        ≡ ok (already_registered, with_lineage calls (lineage_of merged "{m}") "t2"))
unfolding apply import_lineage insert_edges
import_lineage-parse_example =
    import_lineage-parse calls canonical (payload first_id) merged "{m}" "t2" "t3" parse_merged refl
      refl
