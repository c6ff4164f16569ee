-- ===== src/Pipeline/Checkpoint.antt =====
-- Checkpoints: what they hash, how a run builds them, and their form as a dictionary. Of
-- src/stock_content/domain/checkpoint.py. The SHA-256 of the JSON text of the hashed facts is a
-- parameter, and so are `isoformat` and `fromisoformat`, whose result is taken in UTC. A dictionary
-- has entries of the types that `to_dict` writes; an entry that is `none` is missing or null.
use stock_content.Prelude.{
  ℕ, String, Bool, true, false, Option, none, some, List, [], ◌∷◌, map, if◌then◌else◌, or_else,
  one_of, Outcome, ok, raised, ◌>>=◌, ◌>>◌, require, filled,
}
use Prim.Native.String.{compare}
use Prim.Native.Nat.{Ordering}
use stock_content.Pipeline.{Artifact, CheckpointRecord, Identity}

pub data CheckpointError : Type 0 where
  value_error : CheckpointError

abbrev checkpoint_statuses : List String
checkpoint_statuses = "SUCCEEDED" ∷ "FAILED" ∷ "SKIPPED" ∷ []

-- the order of two texts by code points
abbrev pub text_le : String → String → Bool
text_le a b = elim (compare a b) [ Ordering.gt ↦ false | _ ↦ true ]

abbrev pub insert_item : String × String → Identity → Identity
insert_item x [] = x ∷ []
insert_item x (y ∷ ys) = if text_le x.0 y.0 then x ∷ y ∷ ys else y ∷ insert_item x ys

-- `sorted(value.items())`, whose keys are distinct
abbrev pub sorted_items : Identity → Identity
sorted_items [] = []
sorted_items (x ∷ xs) = insert_item x (sorted_items xs)

unfoldable pub identity_mapping : Option Identity → Option Identity
identity_mapping none = none
identity_mapping (some []) = none
identity_mapping (some (x ∷ xs)) = some (sorted_items (x ∷ xs))

-- the dictionary that `checkpoint_state_checksum` hashes
pub record ChecksumPayload : Type 0 where
  pub stage : String
  pub stage_version : String
  pub input_artifact_ids : List String
  pub input_hashes : List String
  pub output_artifact_ids : List String
  pub output_hashes : List String
  pub public_materialization_hash : String
  pub model_identity : Identity
  pub prompt_identity : Identity
  pub status : String

-- the identity that `_checkpoint_identity` returns and `build_checkpoint` takes
pub record CheckpointIdentity : Type 0 where
  pub public_materialization_hash : String
  pub model_identity : Option Identity
  pub prompt_identity : Option Identity
  pub worker_id : Option String
  pub fencing_token : Option ℕ

module _ (digest : ChecksumPayload → String) where
  unfoldable pub checkpoint_state_checksum : CheckpointRecord → String
  checkpoint_state_checksum r = digest (record {
    stage = r.stage;
    stage_version = r.stage_version;
    input_artifact_ids = r.input_artifact_ids;
    input_hashes = r.input_hashes;
    output_artifact_ids = r.output_artifact_ids;
    output_hashes = r.output_hashes;
    public_materialization_hash = r.public_materialization_hash;
    model_identity = or_else r.model_identity [];
    prompt_identity = or_else r.prompt_identity [];
    status = r.status;
  })

  -- the record of `build_checkpoint` before its checksum is set, with the defaults of the runner
  abbrev pub unsealed :
      ℕ
      → String
      → String
      → List String
      → List String
      → List Artifact
      → CheckpointIdentity
      → Option ℕ
      → String
      → Option String
      → CheckpointRecord
  unsealed now stage version input_ids input_hashes outputs identity started_at status error =
      record {
        stage = stage;
        stage_version = version;
        input_artifact_ids = input_ids;
        output_artifact_ids = map (λ (a : Artifact). a.artifact_id) outputs;
        output_hashes = map (λ (a : Artifact). a.content_hash) outputs;
        input_hashes = input_hashes;
        public_materialization_hash = identity.public_materialization_hash;
        model_identity = identity_mapping identity.model_identity;
        prompt_identity = identity_mapping identity.prompt_identity;
        worker_id = identity.worker_id;
        fencing_token = identity.fencing_token;
        state_checksum = "";
        started_at = started_at;
        finished_at = some now;
        status = status;
        retry_count = 0;
        schema_version = "checkpoint.v2";
        error = error;
      }

  abbrev pub sealed : CheckpointRecord → CheckpointRecord
  sealed r = record r { state_checksum = checkpoint_state_checksum r }

  unfoldable pub build_checkpoint :
      ℕ
      → String
      → String
      → List String
      → List String
      → List Artifact
      → CheckpointIdentity
      → Option ℕ
      → String
      → Option String
      → Outcome CheckpointError CheckpointRecord
  build_checkpoint now stage version input_ids input_hashes outputs identity started_at status
        error =
      require (one_of status checkpoint_statuses) value_error
      >> ok (
          sealed (
            unsealed now stage version input_ids input_hashes outputs identity started_at status
              error))

-- an instant of a dictionary: a `datetime`, or a text
pub data Moment : Type 0 where
  instant : ℕ → Moment
  iso : String → Moment

pub record Payload : Type 0 where
  pub stage : Option String
  pub stage_version : Option String
  pub input_artifact_ids : Option (List String)
  pub output_artifact_ids : Option (List String)
  pub output_hashes : Option (List String)
  pub input_hashes : Option (List String)
  pub public_materialization_hash : Option String
  pub model_identity : Option Identity
  pub prompt_identity : Option Identity
  pub worker_id : Option String
  pub fencing_token : Option ℕ
  pub state_checksum : Option String
  pub started_at : Option Moment
  pub finished_at : Option Moment
  pub status : Option String
  pub retry_count : Option ℕ
  pub schema_version : Option String
  pub error : Option String

-- `str(payload.get(key) or default)`
abbrev pub text_or : Option String → String → String
text_or none default = default
text_or (some s) default = if filled s then s else default

module _ (isoformat : ℕ → String) (fromisoformat : String → Option ℕ) where
  abbrev pub moment_of : Option ℕ → Option Moment
  moment_of none = none
  moment_of (some t) = some (iso (isoformat t))

  unfoldable pub to_dict : CheckpointRecord → Payload
  to_dict r = record {
    stage = some r.stage;
    stage_version = some r.stage_version;
    input_artifact_ids = some r.input_artifact_ids;
    output_artifact_ids = some r.output_artifact_ids;
    output_hashes = some r.output_hashes;
    input_hashes = some r.input_hashes;
    public_materialization_hash = some r.public_materialization_hash;
    model_identity = r.model_identity;
    prompt_identity = r.prompt_identity;
    worker_id = r.worker_id;
    fencing_token = r.fencing_token;
    state_checksum = some r.state_checksum;
    started_at = moment_of r.started_at;
    finished_at = moment_of r.finished_at;
    status = some r.status;
    retry_count = some r.retry_count;
    schema_version = some r.schema_version;
    error = r.error;
  }

  -- `_parse_time`; a text that is no instant raises
  abbrev pub parse_time : Option Moment → Outcome CheckpointError (Option ℕ)
  parse_time none = ok none
  parse_time (some (instant t)) = ok (some t)
  parse_time (some (iso s)) = elim (fromisoformat s) [
    | none ↦ raised value_error
    | some t ↦ ok (some t)
  ]

  unfoldable pub from_dict : Payload → Outcome CheckpointError CheckpointRecord
  from_dict p = do
    started_at ← parse_time p.started_at
    finished_at ← parse_time p.finished_at
    ok (record {
      stage = text_or p.stage "";
      stage_version = text_or p.stage_version "1.0.0";
      input_artifact_ids = or_else p.input_artifact_ids [];
      output_artifact_ids = or_else p.output_artifact_ids [];
      output_hashes = or_else p.output_hashes [];
      input_hashes = or_else p.input_hashes [];
      public_materialization_hash = text_or p.public_materialization_hash "";
      model_identity = identity_mapping p.model_identity;
      prompt_identity = identity_mapping p.prompt_identity;
      worker_id = p.worker_id;
      fencing_token = p.fencing_token;
      state_checksum = text_or p.state_checksum "";
      started_at = started_at;
      finished_at = finished_at;
      status = text_or p.status "SUCCEEDED";
      retry_count = or_else p.retry_count 0;
      schema_version = text_or p.schema_version "checkpoint.v2";
      error = p.error;
    })
