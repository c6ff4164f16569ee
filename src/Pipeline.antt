-- ===== src/Pipeline.antt =====
-- The processing pipeline of a content task with its checkpoints: src/stock_content/application/pipeline.py,
-- src/stock_content/application/stage_runner.py and src/stock_content/domain/checkpoint.py. Instants
-- are UTC microseconds. An artifact is its identifier, its type and its content hash, all that the
-- pipeline reads of it. The data are here; the modules below hold the checkpoints, the runs and the
-- proofs.
pub mod Checkpoint
pub mod Resume
pub mod Run
pub mod Process
pub mod Records
pub mod Prefix
pub mod Success
pub mod Sequence
pub mod Recovery
use stock_content.Prelude.{ℕ, String, Option, List}

pub record Artifact : Type 0 where
  pub artifact_id : String
  pub artifact_type : String
  pub content_hash : String

-- a mapping of names to texts, as its items
abbrev pub Identity : Type 0
Identity = List (String × String)

pub record CheckpointRecord : Type 0 where
  pub stage : String
  pub stage_version : String
  pub input_artifact_ids : List String
  pub output_artifact_ids : List String
  pub output_hashes : List String
  pub input_hashes : List String
  pub public_materialization_hash : String
  pub model_identity : Option Identity
  pub prompt_identity : Option Identity
  pub worker_id : Option String
  pub fencing_token : Option ℕ
  pub state_checksum : String
  pub started_at : Option ℕ
  pub finished_at : Option ℕ
  pub status : String
  pub retry_count : ℕ
  pub schema_version : String
  pub error : Option String
