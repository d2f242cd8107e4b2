-- ===== src/Examples/Retrieval.antt =====
-- The fusion of two ranked lists, and a filter of two attributes.
use Prim.Native.String.{String}
use pufferlab.Prelude.{◌≡◌, ◌↔◌, refl, All, true, false, none, some, List, [], ◌∷◌}
use pufferlab.Prelude.Int.{ℤ, pos}
use pufferlab.Prelude.Result.{Result, ok, err}
use pufferlab.Datasets.Schema.{compile_namespace_write_spec, NamespaceAttributeWriteSpec}
use pufferlab.Retrieval.Fusion.{DocumentId, name, number, RrfEntry, RrfError, reconstruct_rrf}
use pufferlab.Retrieval.Fusion.Ranks.{IsFusion, reconstruct_rrf-IsFusion}
use pufferlab.Retrieval.Filters.{
  string, array, no_items, item, integer, in_list, gte, logical_and, logical_not, FilterNode,
  predicate, logical, no_nodes, node,
}
use pufferlab.Retrieval.Filters.Validator.{Attributes, validate}
use pufferlab.Datasets.Models.{
  DatasetManifest, VectorDtype, DistanceMetric, FtsAttribute, is_valid_manifest,
}
use pufferlab.Prelude.Text.{is_blank}
use pufferlab.Retrieval.Filters.Namespace.{validate-external_id}
use pufferlab.Retrieval.Filters.Accepted.{predicates, IsAccepted, validate-IsAccepted}
use pufferlab.Examples.Evals.{thousandths}

abbrev lists : List (List DocumentId)
lists = (name "a" ∷ number (pos 7) ∷ []) ∷ (number (pos 7) ∷ name "b" ∷ []) ∷ []

abbrev weights : List ℤ
weights = pos 1000 ∷ pos 2000 ∷ []

abbrev entries_or : Result RrfError (List (RrfEntry ℤ)) → List (RrfEntry ℤ)
entries_or (ok entries) = entries
entries_or (err _) = []

abbrev entries : List (RrfEntry ℤ)
entries = entries_or (reconstruct_rrf lists 60 weights)

entries-ok : reconstruct_rrf lists 60 weights ≡ ok entries
unfolding reconstruct_rrf
entries-ok = refl

reconstruct_rrf-IsFusion_example : IsFusion lists 60 weights entries
reconstruct_rrf-IsFusion_example = reconstruct_rrf-IsFusion lists 60 weights entries entries-ok

abbrev filtered : String → NamespaceAttributeWriteSpec ℤ
filtered type_name = record {
  type_name = type_name;
  filterable = some true;
  full_text_search = none;
  ann = none;
}

abbrev attributes : Attributes ℤ
attributes = ("external_id", filtered "string") ∷ ("year", filtered "int") ∷ []

abbrev expression : FilterNode ℤ
expression = logical logical_and (
    node
      (predicate (record {
        field = "external_id";
        op = in_list;
        value = array (item (string "a") (item (string "b") no_items));
      }))
      (node
        (logical logical_not (
          node (predicate (record { field = "year"; op = gte; value = integer (pos 2020) }))
            no_nodes))
        no_nodes))

expression-ok : validate attributes expression ≡ ok tt
unfolding validate
expression-ok = refl

validate-IsAccepted_example :
    (validate attributes expression ≡ ok tt) ↔ IsAccepted attributes expression
validate-IsAccepted_example = validate-IsAccepted attributes expression refl

expression-IsAccepted : IsAccepted attributes expression
expression-IsAccepted = (validate-IsAccepted attributes expression refl).0 expression-ok

abbrev manifest : DatasetManifest ℤ
manifest = record {
  slug = "unix";
  version = "v1";
  title = "Unix";
  license = "mit";
  source_url = "https://x";
  embedding = record { model = "m"; revision = "r"; dimensions = 1 };
  vector = record {
    attribute = "vector";
    dtype = VectorDtype.f32;
    distance_metric = DistanceMetric.cosine_distance;
  };
  fts = record {
    attributes = FtsAttribute.title_text ∷ [];
    tokenizer = "word";
    case_sensitive = false;
    language = "english";
    stemming = true;
    remove_stopwords = true;
    ascii_folding = false;
    max_token_length = 39;
    k1 = pos 1200;
    b = pos 750;
    k3 = pos 8000;
  };
}

manifest-valid : is_valid_manifest (λ _. true) manifest ≡ true
unfolding is_blank
manifest-valid = refl

abbrev by_id : FilterNode ℤ
by_id =
    predicate
      (record { field = "external_id"; op = in_list; value = array (item (string "a") no_items) })

by_id-ok : validate (compile_namespace_write_spec manifest).attributes by_id ≡ ok tt
unfolding validate compile_namespace_write_spec
by_id-ok = refl

validate-external_id_example : All (λ p. p.field ≡ "external_id") (predicates by_id)
validate-external_id_example =
    validate-external_id manifest (λ _. true) by_id manifest-valid by_id-ok
