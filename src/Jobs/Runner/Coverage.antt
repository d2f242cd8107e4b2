-- ===== src/Jobs/Runner/Coverage.antt =====
-- `finalize_durable_outcomes` asks for exactly one outcome of each config and query of the run.
use mathlib.Core.Path.{subst}
use pufferlab.Prelude.{
  ℕ, ◌+◌, ◌≤◌, ◌≡◌, refl, sym, ap, ◌∙◌, Bool, true, false, not, ◌&&◌, ◌||◌, List, [], ◌∷◌, ◌++◌,
  ◌==◌, ==_iff, map, keep, some_of, length, length-map, contains, distinct, All, All-map, arith,
  Bool-cases, inl, inr,
}
use pufferlab.Prelude.Result.{ok, raise_if, >>=-eq-ok, Gives, gives_cons, traverse-Gives}
use pufferlab.Prelude.Increasing.{map_same}
use pufferlab.Prelude.Subsets.{length-subset, contains-own_key}
use pufferlab.Persistence.Records.{ConfigRunSummary, EvalRun, QueryOutcome, config_ids}
use pufferlab.Evals.Float.{Float}
use pufferlab.Jobs.Runner.{another_run, duplicate_identities, inexact_coverage, PayloadCodec}
use pufferlab.Jobs.Runner.Finalize.{
  Pair, has_pair, distinct_pairs, is_pair_subset, product, pair_of, summarize,
  finalize_durable_outcomes,
}
use pufferlab.Jobs.Runner.Counts.{IsSummary, summarize-IsSummary}

has_pair-append :
    (c q : ℕ) (xs ys : List Pair) → has_pair c q (xs ++ ys) ≡ (has_pair c q xs || has_pair c q ys)
has_pair-append c q [] ys = refl
has_pair-append c q ((x, y) ∷ xs) ys = ground (arith, has_pair-append c q xs ys)

has_pair-row :
    (c q x : ℕ) (queries : List ℕ)
    → has_pair c q (map (λ query. (x, query)) queries) ≡ (x == c && contains q queries)
has_pair-row c q x [] = ground arith
has_pair-row c q x (y ∷ queries) = ground (arith, has_pair-row c q x queries)

has_pair-product :
    (c q : ℕ) (configs queries : List ℕ)
    → has_pair c q (product configs queries) ≡ (contains c configs && contains q queries)
has_pair-product c q [] queries = refl
has_pair-product c q (x ∷ configs) queries = ground (
  arith,
  has_pair-append c q (map (λ query. (x, query)) queries) (product configs queries),
  has_pair-row c q x queries,
  has_pair-product c q configs queries,
)

subset-has_pair :
    (c q : ℕ) (xs all : List Pair)
    → is_pair_subset xs all ≡ true
    → has_pair c q xs ≡ true
    → has_pair c q all ≡ true
subset-has_pair c q [] all h k = ground arith
subset-has_pair c q ((x, y) ∷ xs) all h k = elim (Bool-cases (x == c && y == q)) [
  | inl e ↦ same_pair c q x y all (ground arith) (ground arith) (ground arith)
  | inr e ↦ subset-has_pair c q xs all (ground arith) (ground arith)
]
  where
    same_pair :
        (c q x y : ℕ) (all : List Pair)
        → x ≡ c
        → y ≡ q
        → has_pair x y all ≡ true
        → has_pair c q all ≡ true
    same_pair c q x y all e e' h = rw (← e, ← e') h

module _ {P : Type 0} (config : ℕ) where
  abbrev is_of : QueryOutcome P → Bool
  is_of outcome = outcome.config_id == config

  -- The queries of a config's outcomes.
  abbrev queries_of : List (QueryOutcome P) → List ℕ
  queries_of outcomes = map (λ o. o.query_id) (keep is_of outcomes)

  contains-queries_of :
      (q : ℕ) (outcomes : List (QueryOutcome P))
      → contains q (queries_of outcomes) ≡ has_pair config q (map pair_of outcomes)
  contains-queries_of q [] = refl
  contains-queries_of q (o ∷ outcomes) = ground (arith, contains-queries_of q outcomes)

  distinct-queries_of :
      (outcomes : List (QueryOutcome P))
      → distinct_pairs (map pair_of outcomes) ≡ true
      → distinct (queries_of outcomes) ≡ true
  distinct-queries_of [] h = refl
  distinct-queries_of (o ∷ outcomes) h = elim (Bool-cases (o.config_id == config)) [
    | inr e ↦ rw e (distinct-queries_of outcomes (ground arith))
    | inl e ↦
        let same : has_pair config o.query_id (map pair_of outcomes) ≡ false =
          ap (λ k. has_pair k o.query_id (map pair_of outcomes))
            (sym ((==_iff o.config_id config).0 e))
          ∙ ground arith in
        ground (arith, distinct-queries_of outcomes, contains-queries_of o.query_id outcomes, same)
  ]

  -- A config of the run has one outcome for each query.
  queries_of-length :
      (outcomes : List (QueryOutcome P)) (configs queries : List ℕ)
      → distinct queries ≡ true
      → contains config configs ≡ true
      → distinct_pairs (map pair_of outcomes) ≡ true
      → is_pair_subset (map pair_of outcomes) (product configs queries) ≡ true
      → is_pair_subset (product configs queries) (map pair_of outcomes) ≡ true
      → length (keep is_of outcomes) ≡ length queries
  queries_of-length outcomes configs queries once here apart low high =
      let own = queries_of outcomes in
      let le : length own ≤ length queries =
        length-subset own queries (distinct-queries_of outcomes apart) (λ a h. ground (
          arith,
          contains-queries_of a outcomes,
          subset-has_pair config a (map pair_of outcomes) (product configs queries) low,
          has_pair-product config a configs queries,
        )) in
      let ge : length queries ≤ length own = length-subset queries own once (λ a h. ground (
        arith,
        contains-queries_of a outcomes,
        subset-has_pair config a (product configs queries) (map pair_of outcomes) high,
        has_pair-product config a configs queries,
      )) in
      omega (
        arith,
        le,
        ge,
        length-map {0, 0} (λ (o : QueryOutcome P). o.query_id) (keep is_of outcomes),
      )

module _ {F P : Type 0} ⦃f : Float F⦄ (c : PayloadCodec F P) where
  -- The summaries are those of the run's configs, in their order, and count every query once.
  pub record IsExact (run : EvalRun F) (outcomes : List (QueryOutcome P)) (query_ids : List ℕ)
      (summaries : List (ConfigRunSummary F)) : Type 0 where
    pub ids : map (λ summary. summary.config_id) summaries ≡ config_ids run
    pub each :
        All
          (λ summary.
            IsSummary c outcomes summary.config_id summary
            × (summary.completed_queries + summary.failed_queries ≡ length query_ids))
          summaries

  Gives-ids :
      (outcomes : List (QueryOutcome P)) (configs : List ℕ) (summaries : List (ConfigRunSummary F))
      → Gives (summarize c outcomes) configs summaries
      → map (λ summary. summary.config_id) summaries ≡ configs
  Gives-ids outcomes [] [] g = refl
  Gives-ids outcomes [] (s ∷ summaries) g = elim g [ ]
  Gives-ids outcomes (config ∷ configs) [] g = elim g [ ]
  Gives-ids outcomes (config ∷ configs) (s ∷ summaries) (gives_cons h g) =
      ap (λ id. id ∷ map (λ summary. summary.config_id) summaries)
        (summarize-IsSummary c outcomes config s h).config_id
      ∙ ap (λ ids. config ∷ ids) (Gives-ids outcomes configs summaries g)

  Gives-summaries :
      (outcomes : List (QueryOutcome P)) (total : ℕ) (configs : List ℕ)
      (summaries : List (ConfigRunSummary F))
      → Gives (summarize c outcomes) configs summaries
      → All
          (λ config. length (keep (λ outcome. outcome.config_id == config) outcomes) ≡ total)
          configs
      → All
          (λ summary.
            IsSummary c outcomes summary.config_id summary
            × (summary.completed_queries + summary.failed_queries ≡ total))
          summaries
  Gives-summaries outcomes total [] [] g h = tt
  Gives-summaries outcomes total [] (s ∷ summaries) g h = elim g [ ]
  Gives-summaries outcomes total (config ∷ configs) [] g h = elim g [ ]
  Gives-summaries outcomes total (config ∷ configs) (s ∷ summaries) (gives_cons e g) h =
      let is = summarize-IsSummary c outcomes config s e in
      (
        (subst (λ id. IsSummary c outcomes id s) (sym is.config_id) is, is.together ∙ h.0),
        Gives-summaries outcomes total configs summaries g h.1,
      )

  -- The summaries that finalize_durable_outcomes returns are those of the configs of the run, in
  -- their order. Each counts the succeeded and the failed outcomes of its config, and both together
  -- are as many as the queries. The query ids are distinct.
  pub finalize-IsExact :
      (run : EvalRun F) (outcomes : List (QueryOutcome P)) (query_ids : List ℕ)
      (summaries : List (ConfigRunSummary F))
      → distinct query_ids ≡ true
      → finalize_durable_outcomes c run outcomes query_ids ≡ ok summaries
      → IsExact run outcomes query_ids summaries
  unfolding finalize_durable_outcomes
  finalize-IsExact run outcomes query_ids summaries once h =
      let actual = map pair_of outcomes in
      let expected = product (config_ids run) query_ids in
      let (_, _, h1) =
        >>=-eq-ok
          (raise_if (some_of (λ (o : QueryOutcome P). not (o.run_id == run.id)) outcomes)
            another_run)
          _ h in
      let (_, apart, h2) =
        >>=-eq-ok (raise_if (not (distinct_pairs actual)) duplicate_identities) _ h1 in
      let (_, same, h3) =
        >>=-eq-ok
          (raise_if (not (is_pair_subset actual expected && is_pair_subset expected actual))
            inexact_coverage)
          _ h2 in
      let g = traverse-Gives (summarize c outcomes) (config_ids run) summaries h3 in
      record {
        ids = Gives-ids outcomes (config_ids run) summaries g;
        each = Gives-summaries outcomes (length query_ids) (config_ids run) summaries g (
            All-map
              (λ config here.
                queries_of-length config outcomes (config_ids run) query_ids once
                  (ap (λ ids. contains config ids) (sym (map_same (config_ids run))) ∙ here)
                  (ground arith) (ground arith) (ground arith))
              (config_ids run) (contains-own_key (λ (id : ℕ). id) (config_ids run)));
      }
