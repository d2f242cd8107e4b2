-- ===== src/Datasets/Schema.antt =====
-- datasets/schema.py: a manifest is compiled to the attributes of its namespace.
use Prim.Native.String.{String, ◌++◌}
use pufferlab.Prelude.{
  ℕ, zero, suc, ◌/◌, ◌%◌, Bool, true, false, Option, none, some, List, [], ◌∷◌, ltb, ◌==◌,
  if◌then◌else◌, some_of,
}
use pufferlab.Datasets.Models.{
  FtsProfile, FtsAttribute, title_text, body_text, same_attribute, VectorDtype, f16, f32, i8,
  DistanceMetric, DatasetManifest,
}

pub record FullTextSearchWriteSpec (F : Type 0) : Type 0 where
  pub tokenizer : String
  pub case_sensitive : Bool
  pub language : String
  pub stemming : Bool
  pub remove_stopwords : Bool
  pub ascii_folding : Bool
  pub max_token_length : ℕ
  pub k1 : F
  pub b : F
  pub k3 : F

pub record NamespaceAttributeWriteSpec (F : Type 0) : Type 0 where
  pub type_name : String
  pub filterable : Option Bool
  pub full_text_search : Option (FullTextSearchWriteSpec F)
  pub ann : Option Bool

pub record NamespaceWriteSpec (F : Type 0) : Type 0 where
  pub attributes : List (String × NamespaceAttributeWriteSpec F)
  pub vector_attribute : String
  pub distance_metric : DistanceMetric

abbrev digit : ℕ → String
digit n =
    if n == 0
    then "0"
    else if n == 1
    then "1"
    else if n == 2
    then "2"
    else if n == 3
    then "3"
    else if n == 4
    then "4"
    else if n == 5
    then "5"
    else if n == 6
    then "6"
    else if n == 7
    then "7"
    else if n == 8
    then "8"
    else "9"

decimal_from : ℕ → ℕ → String
decimal_from zero n = ""
decimal_from (suc fuel) n =
    let more = decimal_from fuel (n / 10) ++ digit (n % 10) in if ltb n 10 then digit n else more

-- `str(n)`: a number has fewer digits than its successor counts.
pub decimal : ℕ → String
unfolding decimal_from
decimal n = decimal_from (suc n) n

abbrev dtype_name : VectorDtype → String
dtype_name f16 = "f16"
dtype_name f32 = "f32"
dtype_name i8 = "i8"

module _ {F : Type 0} where
  -- `FullTextSearchWriteSpec.from_profile`
  abbrev pub from_profile : FtsProfile F → FullTextSearchWriteSpec F
  from_profile p = record {
    tokenizer = p.tokenizer;
    case_sensitive = p.case_sensitive;
    language = p.language;
    stemming = p.stemming;
    remove_stopwords = p.remove_stopwords;
    ascii_folding = p.ascii_folding;
    max_token_length = p.max_token_length;
    k1 = p.k1;
    b = p.b;
    k3 = p.k3;
  }

  abbrev text_attribute :
      Option Bool → Option (FullTextSearchWriteSpec F) → NamespaceAttributeWriteSpec F
  text_attribute filterable fts = record {
    type_name = "string";
    filterable = filterable;
    full_text_search = fts;
    ann = none;
  }

  abbrev fts_of : DatasetManifest F → FtsAttribute → Option (FullTextSearchWriteSpec F)
  fts_of manifest attribute =
      if some_of (same_attribute attribute) manifest.fts.attributes
      then some (from_profile manifest.fts)
      else none

  unfoldable pub compile_namespace_write_spec : DatasetManifest F → NamespaceWriteSpec F
  unfolding decimal
  compile_namespace_write_spec manifest = record {
    attributes =
        ("external_id", text_attribute (some true) none)
        ∷ ("title", text_attribute (some false) (fts_of manifest title_text))
        ∷ ("body", text_attribute (some false) (fts_of manifest body_text))
        ∷ ("source_url", text_attribute (some false) none)
        ∷ (
          manifest.vector.attribute,
          record {
            type_name =
                "["
                ++ decimal manifest.embedding.dimensions
                ++ "]"
                ++ dtype_name manifest.vector.dtype;
            filterable = none;
            full_text_search = none;
            ann = some true;
          },
        )
        ∷ [];
    vector_attribute = manifest.vector.attribute;
    distance_metric = manifest.vector.distance_metric;
  }
