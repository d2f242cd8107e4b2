-- ===== src/Datasets/Models.antt =====
-- datasets/models.py: the models of a dataset pack, with the validators of its manifest. `F` is the
-- type of floats. The literals `format_version` and `provider` have one value each and no field.
use Prim.Native.String.{String}
use text.Mathlib.Text.{◌==◌ as str_eq}
use pufferlab.Prelude.{ℕ, Bool, true, false, not, ◌&&◌, List, [], ◌∷◌, some_of, ltb, leb, length}
use pufferlab.Prelude.Text.{is_blank}
use pufferlab.Evals.Float.{Float}

pub record EmbeddingProfile : Type 0 where
  pub model : String
  pub revision : String
  pub dimensions : ℕ

pub data VectorDtype : Type 0 where
  f16 f32 i8 : VectorDtype

pub data DistanceMetric : Type 0 where
  cosine_distance euclidean_squared : DistanceMetric

pub record VectorProfile : Type 0 where
  pub attribute : String
  pub dtype : VectorDtype
  pub distance_metric : DistanceMetric

-- `Literal["title", "body"]`
pub data FtsAttribute : Type 0 where
  title_text body_text : FtsAttribute

abbrev pub same_attribute : FtsAttribute → FtsAttribute → Bool
same_attribute FtsAttribute.title_text FtsAttribute.title_text = true
same_attribute FtsAttribute.body_text FtsAttribute.body_text = true
same_attribute _ _ = false

pub record FtsProfile (F : Type 0) : Type 0 where
  pub attributes : List FtsAttribute
  pub tokenizer : String
  pub case_sensitive : Bool
  pub language : String
  pub stemming : Bool
  pub remove_stopwords : Bool
  pub ascii_folding : Bool
  pub max_token_length : ℕ
  pub k1 : F
  pub b : F
  pub k3 : F

pub record DatasetManifest (F : Type 0) : Type 0 where
  pub slug : String
  pub version : String
  pub title : String
  pub license : String
  pub source_url : String
  pub embedding : EmbeddingProfile
  pub vector : VectorProfile
  pub fts : FtsProfile F

-- `attributes` is the text of its JSON object.
pub record SourceDocument : Type 0 where
  pub external_id : String
  pub title : String
  pub body : String
  pub source_url : String
  pub attributes : String

pub record FixtureQuery : Type 0 where
  pub external_id : String
  pub text : String
  pub expected_external_ids : List String

pub record FixtureCorpus (F : Type 0) : Type 0 where
  pub manifest : DatasetManifest F
  pub documents : List SourceDocument
  pub queries : List FixtureQuery
  pub corpus_hash : String

-- `len(names) == len(set(names))`
abbrev distinct_attributes : List FtsAttribute → Bool
distinct_attributes [] = true
distinct_attributes (a ∷ rest) = not (some_of (same_attribute a) rest) && distinct_attributes rest

-- `vector_attribute_does_not_collide`
abbrev pub vector_attribute_does_not_collide : {F : Type 0} → DatasetManifest F → Bool
vector_attribute_does_not_collide manifest = not (
    some_of (str_eq manifest.vector.attribute)
      ("id" ∷ "external_id" ∷ "title" ∷ "body" ∷ "source_url" ∷ []))

-- The fields of `FtsProfile` and `attributes_are_unique`.
abbrev pub is_valid_fts : {F : Type 0} → ⦃f : Float F⦄ → FtsProfile F → Bool
is_valid_fts ⦃f⦄ p =
    leb 1 (length p.attributes)
    && not (is_blank p.tokenizer)
    && not (is_blank p.language)
    && leb 1 p.max_token_length
    && leb p.max_token_length 254
    && f.is_finite p.k1
    && f.lt f.nought p.k1
    && f.is_finite p.b
    && f.le f.nought p.b
    && f.le p.b f.one
    && f.is_finite p.k3
    && f.lt f.nought p.k3
    && distinct_attributes p.attributes

-- `has_http_url` is `_validate_http_url`, by `urllib.parse`.
abbrev pub is_valid_manifest :
    {F : Type 0} → ⦃f : Float F⦄ → (String → Bool) → DatasetManifest F → Bool
is_valid_manifest has_http_url m =
    not (is_blank m.slug)
    && not (is_blank m.version)
    && not (is_blank m.title)
    && not (is_blank m.license)
    && not (is_blank m.source_url)
    && has_http_url m.source_url
    && not (is_blank m.embedding.model)
    && not (is_blank m.embedding.revision)
    && ltb 0 m.embedding.dimensions
    && not (is_blank m.vector.attribute)
    && is_valid_fts m.fts
    && vector_attribute_does_not_collide m
