-- ===== src/Persistence/Codec.antt =====
-- persistence/canonical.py. JSON and pydantic are not part of the program: `T` is the type of the
-- texts that they write and read, and each codec is a parameter.
use pufferlab.Prelude.{ℕ, ◌≡◌, Bool, true, Option, none, some, if◌then◌else◌}
use pufferlab.Prelude.Result.{ok, err, ◌>>=◌}
use pufferlab.Persistence.Errors.{validation_error, Checked}
use pufferlab.Persistence.Records.{
  DateTime, QuerySet, RetrievalConfig, EvalRun, QueryOutcome, ApiErrorDetail,
}

-- `json.dumps` of each normalized value, `model_validate_json` of each row's text, and whether an
-- error detail is unchanged by a second validation.
pub record Codecs (F P T : Type 0) : Type 0 where
  pub same_text : T → T → Bool
  pub dump_run : EvalRun F → T
  pub parse_run : T → Option (EvalRun F)
  pub dump_outcome : QueryOutcome P → T
  pub parse_outcome : T → Option (QueryOutcome P)
  pub dump_query_set : QuerySet → T
  pub parse_query_set : T → Option QuerySet
  pub dump_config : RetrievalConfig → T
  pub parse_config : T → Option RetrievalConfig
  pub is_valid_error : ApiErrorDetail → Bool

-- Canonical UTC texts have a fixed width: an instant stands for its text.
unfoldable pub canonical_utc : DateTime → Checked ℕ
canonical_utc value = if value.aware then ok value.instant else err validation_error

unfoldable pub canonical_utc? : Option DateTime → Checked (Option ℕ)
unfolding canonical_utc
canonical_utc? none = ok none
canonical_utc? (some value) = canonical_utc value >>= λ text. ok (some text)

abbrev pub is_aware? : Option DateTime → Bool
is_aware? none = true
is_aware? (some value) = value.aware

module _ {F P T : Type 0} (c : Codecs F P T) where
  -- `canonical_json` of a run and of an outcome: a datetime with no offset is refused.
  unfoldable pub canonical_run : EvalRun F → Checked T
  unfolding canonical_utc canonical_utc?
  canonical_run v = do
    _ ← canonical_utc v.created_at
    _ ← canonical_utc? v.started_at
    _ ← canonical_utc? v.completed_at
    ok (c.dump_run v)

  unfoldable pub canonical_outcome : QueryOutcome P → Checked T
  unfolding canonical_utc
  canonical_outcome v = do _ ← canonical_utc v.created_at; ok (c.dump_outcome v)

abbrev pub HasAwareTimes : {F : Type 0} → EvalRun F → Type 0
HasAwareTimes v =
    (v.created_at.aware ≡ true)
    × (is_aware? v.started_at ≡ true)
    × (is_aware? v.completed_at ≡ true)

-- A value that was written is read back.
pub record IsFaithful {F P T : Type 0} (c : Codecs F P T) : Type 0 where
  pub parse-dump_run : (v : EvalRun F) → HasAwareTimes v → c.parse_run (c.dump_run v) ≡ some v
  pub parse-dump_outcome :
      (v : QueryOutcome P) → v.created_at.aware ≡ true → c.parse_outcome (c.dump_outcome v) ≡ some v
