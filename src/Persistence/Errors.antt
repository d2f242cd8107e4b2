-- ===== src/Persistence/Errors.antt =====
-- persistence/errors.py: the classes; their messages are not modelled.
use pufferlab.Prelude.Result.{Result}

pub data PersistenceError : Type 0 where
  record_not_found immutable_record invalid_run_transition validation_error : PersistenceError

-- What one repository method returns: an error rolls its transaction back.
abbrev pub Checked : Type 0 → Type 0
Checked A = Result PersistenceError A
