-- ===== src/Retrieval/Fusion.antt =====
-- retrieval/rrf.py: weighted reciprocal-rank fusion of ranked lists.
pub mod Table
pub mod Ranks
use Prim.Native.String.{String, ◌++◌ as text_append}
use text.Mathlib.Text.{◌==◌ as str_eq}
use pufferlab.Prelude.{
  ℕ, zero, suc, ◌+◌, Bool, true, false, not, ◌&&◌, ◌||◌, Option, none, some, List, [], ◌∷◌, ◌++◌,
  ltb, ◌==◌, map, length, every, some_of, if◌then◌else◌,
}
use pufferlab.Prelude.Int.{ℤ, pos, negsuc}
use pufferlab.Prelude.Result.{Result, ok, err, ◌>>=◌, ◌>>◌, raise_if}
use pufferlab.Prelude.Sort.{sort}
use pufferlab.Prelude.Text.{text_lt}
use pufferlab.Datasets.Schema.{decimal}
use pufferlab.Evals.Float.{Float}

-- `DocumentId`: `str | int`
pub data DocumentId : Type 0 where
  name : String → DocumentId
  number : ℤ → DocumentId

abbrev same_number : ℤ → ℤ → Bool
same_number (pos a) (pos b) = a == b
same_number (negsuc a) (negsuc b) = a == b
same_number (pos a) (negsuc b) = false
same_number (negsuc a) (pos b) = false

abbrev pub same_id : DocumentId → DocumentId → Bool
same_id (name s) (name t) = str_eq s t
same_id (number a) (number b) = same_number a b
same_id (name s) (number b) = false
same_id (number a) (name t) = false

-- `str(document_id)`
id_text : DocumentId → String
id_text (name s) = s
id_text (number (pos n)) = decimal n
id_text (number (negsuc n)) = text_append "-" (decimal (n + 1))

pub record RrfEntry (F : Type 0) : Type 0 where
  pub document_id : DocumentId
  pub score : F
  pub source_ranks : List (Option ℕ)

-- The errors of the call.
pub data RrfError : Type 0 where
  too_few_lists weight_count rank_constant_not_positive bad_weight duplicate_ids : RrfError

abbrev pub Ranks : Type 0
Ranks = List (Option ℕ)

-- `ranks_by_document`, in the order of its keys.
abbrev pub Table : Type 0
Table = List (DocumentId × Ranks)

abbrev pub has_id : DocumentId → List DocumentId → Bool
has_id id ids = some_of (same_id id) ids

abbrev pub is_key : DocumentId → (DocumentId × Ranks) → Bool
is_key id entry = same_id id entry.0

-- `[None for _ in ranked_document_ids]`
abbrev pub no_ranks : ℕ → Ranks
no_ranks zero = []
no_ranks (suc n) = none ∷ no_ranks n

-- `ranks[source_index] = rank`
abbrev pub set_rank : ℕ → ℕ → Ranks → Ranks
set_rank index rank [] = []
set_rank zero rank (_ ∷ ranks) = some rank ∷ ranks
set_rank (suc index) rank (r ∷ ranks) = r ∷ set_rank index rank ranks

abbrev pub set_row : DocumentId → ℕ → ℕ → (DocumentId × Ranks) → DocumentId × Ranks
set_row id index rank row = if is_key id row then (row.0, set_rank index rank row.1) else row

-- `setdefault`, and the assignment of the rank.
abbrev pub add_rank : ℕ → ℕ → ℕ → DocumentId → Table → Table
add_rank width index rank id table =
    if some_of (is_key id) table
    then map (set_row id index rank) table
    else table ++ (id, set_rank index rank (no_ranks width)) ∷ []

-- The inner loop, over one ranked list.
unfoldable pub read_list :
    ℕ → ℕ → ℕ → List DocumentId → List DocumentId → Table → Result RrfError Table
read_list width index rank seen [] table = ok table
read_list width index rank seen (id ∷ ids) table =
    raise_if (has_id id seen) duplicate_ids
    >> read_list width index (rank + 1) (id ∷ seen) ids (add_rank width index rank id table)

-- The outer loop
unfoldable pub read_lists : ℕ → ℕ → List (List DocumentId) → Table → Result RrfError Table
unfolding read_list
read_lists width index [] table = ok table
read_lists width index (ids ∷ lists) table =
    read_list width index 1 [] ids table >>= λ table'. read_lists width (index + 1) lists table'

-- `min(rank for rank in source_ranks if rank is not None)`; an entry has a rank.
abbrev least_rank : Ranks → ℕ
least_rank [] = 0
least_rank (none ∷ ranks) = least_rank ranks
least_rank (some rank ∷ ranks) =
    let rest = least_rank ranks in if rest == 0 || ltb rank rest then rank else rest

module _ {F : Type 0} ⦃f : Float F⦄ where
  -- The terms of the score, for the sources that have the document.
  abbrev pub contributions : ℕ → List F → Ranks → List F
  contributions constant [] ranks = []
  contributions constant (weight ∷ weights) [] = []
  contributions constant (weight ∷ weights) (none ∷ ranks) = contributions constant weights ranks
  contributions constant (weight ∷ weights) (some rank ∷ ranks) =
      f.div weight (f.of_nat (constant + rank)) ∷ contributions constant weights ranks

  abbrev pub score_of : ℕ → List F → Ranks → F
  score_of constant weights ranks = f.sum (contributions constant weights ranks)

  abbrev pub entry_of : ℕ → List F → (DocumentId × Ranks) → RrfEntry F
  entry_of constant weights row = record {
    document_id = row.0;
    score = score_of constant weights row.1;
    source_ranks = row.1;
  }

  -- The order of the sort's keys.
  unfoldable pub entry_lt : RrfEntry F → RrfEntry F → Bool
  unfolding id_text
  entry_lt a b =
      if not (f.same (f.neg a.score) (f.neg b.score))
      then f.lt (f.neg a.score) (f.neg b.score)
      else if not (least_rank a.source_ranks == least_rank b.source_ranks)
      then ltb (least_rank a.source_ranks) (least_rank b.source_ranks)
      else text_lt (id_text a.document_id) (id_text b.document_id)

  abbrev pub is_positive_weight : F → Bool
  is_positive_weight weight = f.is_finite weight && f.lt f.nought weight

  unfoldable pub reconstruct_rrf :
      List (List DocumentId) → ℕ → List F → Result RrfError (List (RrfEntry F))
  unfolding read_lists entry_lt sort
  reconstruct_rrf lists rank_constant weights = do
    raise_if (ltb (length lists) 2) too_few_lists
    raise_if (not (length weights == length lists)) weight_count
    raise_if (ltb rank_constant 1) rank_constant_not_positive
    raise_if (not (every is_positive_weight weights)) bad_weight
    table ← read_lists (length lists) 0 lists []
    ok (sort entry_lt (map (entry_of rank_constant weights) table))
