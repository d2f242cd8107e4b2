-- ===== src/Datasets/Checkpoints.antt =====
-- datasets/checkpoints.py: checkpoints in files, one for each identity. `T` is the type of the file
-- texts; JSON and pydantic's parser are the record `CheckpointCodec`. A path is a number, the
-- SHA-256 digest of an identity; a file is replaced as a whole or not at all.
use Prim.Native.String.{String, [] as no_text, ◌∷◌ as text_cons}
use Prim.Native.Char.{code}
use pufferlab.Prelude.{
  ℕ, ◌-◌, ◌≡◌, ◌≢◌, refl, ap, ◌∙◌, Bool, true, false, not, ◌&&◌, ◌||◌, Option, none, some, List, [],
  ◌∷◌, ltb, leb, ◌==◌, ==_refl, distinct, same_list, if◌then◌else◌, arith,
}
use pufferlab.Prelude.Result.{Result, ok, err, ◌>>◌, raise_if}
use pufferlab.Prelude.Sort.{sort}
use pufferlab.Prelude.Text.{is_blank}
use pufferlab.Datasets.Ingestion.{IngestionCheckpoint}

abbrev is_hex : ℕ → Bool
is_hex c = leb 48 c && leb c 57 || leb 97 c && leb c 102

-- `[0-9a-f]{n}`, all of the text
abbrev all_hex : String → ℕ → Bool
all_hex no_text n = n == 0
all_hex (text_cons c s) n = ltb 0 n && is_hex (code c) && all_hex s (n - 1)

unfoldable pub is_hash : String → Bool
is_hash s = all_hex s 64

-- The fields and the validators of `_CheckpointPayload`.
unfoldable pub is_valid_payload : IngestionCheckpoint → Bool
is_valid_payload p =
    p.format_version == 1
    && not (is_blank p.namespace)
    && not (is_blank p.dataset_version)
    && is_hash p.corpus_hash
    && is_hash p.schema_hash
    && distinct p.completed_document_ids
    && same_list p.completed_document_ids (sort ltb p.completed_document_ids)

pub record CheckpointCodec (T : Type 0) : Type 0 where
  -- `json.dumps(payload.model_dump(mode="json"), ...)` and a newline
  pub dump : IngestionCheckpoint → T
  -- `none` for a duplicate key, an unknown field, or another type
  pub parse : T → Option IngestionCheckpoint
  -- `sha256` of the JSON list of the four texts
  pub digest : String → String → String → String → ℕ

pub record IsFaithfulCodec {T : Type 0} (c : CheckpointCodec T) : Type 0 where
  pub parse-dump :
      (p : IngestionCheckpoint) → is_valid_payload p ≡ true → c.parse (c.dump p) ≡ some p

pub data StoreError : Type 0 where
  validation_error os_error : StoreError

-- The files of the checkpoint directory.
abbrev pub Files : Type 0 → Type 0
Files T = List (ℕ × T)

abbrev read_text : {T : Type 0} → ℕ → Files T → Option T
read_text path [] = none
read_text path ((p, text) ∷ files) =
    let rest = read_text path files in if p == path then some text else rest

-- `os.replace(temporary, target)`
abbrev replace : {T : Type 0} → ℕ → T → Files T → Files T
replace path text [] = (path, text) ∷ []
replace path text ((p, old) ∷ files) =
    let rest = replace path text files in
    if p == path then (path, text) ∷ files else (p, old) ∷ rest

differ : (a b : ℕ) → a ≢ b → (a == b) ≡ false
differ a b h = ground arith

module _ {T : Type 0} (c : CheckpointCodec T) where
  -- `_path_for`
  abbrev pub path_for : IngestionCheckpoint → ℕ
  path_for p = c.digest p.namespace p.dataset_version p.corpus_hash p.schema_hash

  -- `_CheckpointPayload(format_version=1, ...)`
  abbrev pub payload_of : IngestionCheckpoint → IngestionCheckpoint
  payload_of checkpoint = record checkpoint { format_version = 1 }

  -- `disk` is false where the system fails to write or to rename.
  unfoldable pub save : Bool → IngestionCheckpoint → Files T → Result StoreError (ℕ × Files T)
  unfolding is_valid_payload
  save disk checkpoint files = do
    let payload = payload_of checkpoint
    raise_if (not (is_valid_payload payload)) validation_error
    raise_if (not disk) os_error
    ok (path_for payload, replace (path_for payload) (c.dump payload) files)

  abbrev loaded : Option IngestionCheckpoint → Result StoreError (Option IngestionCheckpoint)
  loaded none = err validation_error
  loaded (some payload) = do
    raise_if (not (is_valid_payload payload)) validation_error
    ok (some payload)

  abbrev parsed : Option T → Result StoreError (Option IngestionCheckpoint)
  parsed none = ok none
  parsed (some text) = loaded (c.parse text)

  -- `load`, for the identity whose path is given.
  unfoldable pub load : ℕ → Files T → Result StoreError (Option IngestionCheckpoint)
  unfolding is_valid_payload
  load target files = parsed (read_text target files)

  read_text-replace :
      (target path : ℕ) (text : T) (files : Files T)
      → read_text target (replace path text files)
        ≡ (if target == path then some text else read_text target files)
  read_text-replace target path text [] = ground arith
  read_text-replace target path text ((p, old) ∷ files) =
      ground (arith, read_text-replace target path text files)

  module _ (faithful : IsFaithfulCodec c) (checkpoint : IngestionCheckpoint) where
    loaded-dump :
        is_valid_payload (payload_of checkpoint) ≡ true
        → loaded (c.parse (c.dump (payload_of checkpoint))) ≡ ok (some (payload_of checkpoint))
    loaded-dump valid = rw (faithful.parse-dump (payload_of checkpoint) valid, valid) refl

    -- The checkpoint is saved in its file, and every other file is as before.
    pub record IsSaved (files : Files T) (result : Result StoreError (ℕ × Files T)) : Type 0 where
      pub after : Files T
      pub returned : result ≡ ok (path_for checkpoint, after)
      pub same : load (path_for checkpoint) after ≡ ok (some (payload_of checkpoint))
      pub others : (other : ℕ) → other ≢ path_for checkpoint → load other after ≡ load other files

    -- A checkpoint whose payload is valid is saved under the path of its identity when the disk
    -- works. Then load gives it back with format version 1, and every other path loads what it
    -- loaded before. A written payload is read back.
    pub save-IsSaved :
        (files : Files T)
        → is_valid_payload (payload_of checkpoint) ≡ true
        → IsSaved files (save true checkpoint files)
    unfolding save load
    save-IsSaved files valid = record {
      after = replace (path_for checkpoint) (c.dump (payload_of checkpoint)) files;
      returned = rw valid refl;
      same =
          ap parsed (
            read_text-replace (path_for checkpoint) (path_for checkpoint)
              (c.dump (payload_of checkpoint)) files)
          ∙ rw (==_refl (path_for checkpoint)) (loaded-dump valid);
      others = λ other differs.
          ap parsed
            (read_text-replace other (path_for checkpoint) (c.dump (payload_of checkpoint)) files)
          ∙ rw (differ other (path_for checkpoint) differs) refl;
    }
