-- ===== src/Persistence/Rows/Agreement.antt =====
-- `_decode_run_row`: when the indexed columns of a run row agree with its payload.
use pufferlab.Prelude.{ℕ, ◌≡◌, true, Option, none, some, arith}
use pufferlab.Prelude.Result.{ok}
use pufferlab.Persistence.Records.{DateTime, EvalRun}
use pufferlab.Persistence.Codec.{Codecs, is_aware?}
use pufferlab.Persistence.Rows.{EvalRunRow, decode_run_row}

abbrev pub instant? : Option DateTime → Option ℕ
instant? none = none
instant? (some at) = some at.instant

pub record Agrees {F P T : Type 0} (c : Codecs F P T) (row : EvalRunRow T) (v : EvalRun F)
    : Type 0 where
  pub parsed : c.parse_run row.payload_json ≡ some v
  pub id : v.id ≡ row.id
  pub query_set_id : v.query_set.id ≡ row.query_set_id
  pub status : v.status ≡ row.status
  pub completed_queries : v.completed_queries ≡ row.completed_queries
  pub total_queries : v.total_queries ≡ row.total_queries
  pub created_at : v.created_at.instant ≡ row.created_at
  pub started_at : instant? v.started_at ≡ row.started_at
  pub completed_at : instant? v.completed_at ≡ row.completed_at
  pub aware : v.created_at.aware ≡ true
  pub started_aware : is_aware? v.started_at ≡ true
  pub completed_aware : is_aware? v.completed_at ≡ true

module _ {F P T : Type 0} (c : Codecs F P T) (row : EvalRunRow T) where
  pub decode_run_row-Agrees : (v : EvalRun F) → decode_run_row c row ≡ ok v → Agrees c row v
  unfolding decode_run_row
  decode_run_row-Agrees v h = ground arith

  pub Agrees-decode_run_row : (v : EvalRun F) → Agrees c row v → decode_run_row c row ≡ ok v
  unfolding decode_run_row
  Agrees-decode_run_row v a = ground arith
