-- ===== src/Examples/Pipeline.antt =====
-- A pipeline of two stages whose first has run.
use stock_content.Prelude.{
  ℕ, zero, suc, ◌≡◌, refl, ap, ◌↔◌, String, Bool, true, false, Option, none, some, List, [], ◌∷◌,
  ◌++◌, ok, if◌then◌else◌, ◌==◌,
}
use stock_content.Pipeline.{Artifact, CheckpointRecord}
use stock_content.Pipeline.Checkpoint.{
  ChecksumPayload, CheckpointIdentity, checkpoint_state_checksum, build_checkpoint, to_dict,
  from_dict, identity_mapping,
}
use stock_content.Pipeline.Resume.{validate_resume}
use stock_content.Pipeline.Run.{
  StageError, Context, returned, failed, stage_result, StageRunner, PipelineStage,
  ArtifactRepository, validate_outputs, persist_checkpoint, succeed, conclude, execute,
}
use stock_content.Pipeline.Process.{process}
use stock_content.Pipeline.Records.{from_dict-to_dict}
use stock_content.Pipeline.Prefix.{stages_of, AllValid, validate_resume_iff}
use stock_content.Pipeline.Success.{Appends, execute_records}
use stock_content.Pipeline.Sequence.{run_all}
use stock_content.Pipeline.Recovery.{stages_of_runners, resumed_like_uninterrupted}

-- the rest of a context is its list of artifacts
abbrev State : Type 0
State = List Artifact

abbrev repository : ArtifactRepository State
repository = record {
  put_with_fenced_checkpoint = none;
  put_with_checkpoint = some (λ s outputs task r. ok s);
}

abbrev artifacts : State → List Artifact
artifacts s = s

abbrev has_slot : State → String → Bool
has_slot s slot = true

abbrev digest : ChecksumPayload → String
digest p = p.stage

abbrev identity_of : Context State → CheckpointIdentity
identity_of c = record {
  public_materialization_hash = "m";
  model_identity = some (("asr", "w") ∷ ("vision", "v") ∷ []);
  prompt_identity = none;
  worker_id = c.worker_id;
  fencing_token = c.fencing_token;
}

abbrev describe : StageError → String
describe e = "error"

abbrev media : Artifact
media = record { artifact_id = "m1"; artifact_type = "media"; content_hash = "h1" }

abbrev start : Context State
start = record {
  task_id = "t";
  rest = [];
  checkpoints = [];
  current_stage = "queued";
  worker_id = none;
  fencing_token = none;
}

abbrev download : StageRunner State
download = record {
  name = "download";
  stage_version = "1.0.0";
  contract = record {
    required_inputs = [];
    output_types = "media" ∷ [];
    optional_output_types = [];
  };
  legacy_fallback = false;
  execute_stage = λ c. stage_result (record c { rest = media ∷ c.rest }) (media ∷ []);
  started_at = 1;
  finished_at = 2;
}

-- a second stage that fails
abbrev asr : PipelineStage State
asr = record { name = "asr"; execute = λ c. failed c (StageError.other_error "boom") }

abbrev made : CheckpointRecord
made = record {
  stage = "download";
  stage_version = "1.0.0";
  input_artifact_ids = [];
  output_artifact_ids = "m1" ∷ [];
  output_hashes = "h1" ∷ [];
  input_hashes = [];
  public_materialization_hash = "m";
  model_identity = some (("asr", "w") ∷ ("vision", "v") ∷ []);
  prompt_identity = none;
  worker_id = none;
  fencing_token = none;
  state_checksum = "download";
  started_at = some 1;
  finished_at = some 2;
  status = "SUCCEEDED";
  retry_count = 0;
  schema_version = "checkpoint.v2";
  error = none;
}

-- a text for every instant: its length in strokes
abbrev strokes : ℕ → String
strokes zero = ""
strokes (suc n) = String.◌∷◌ "|" (strokes n)

abbrev counted : String → ℕ
counted String.[] = 0
counted (String.◌∷◌ c s) = suc (counted s)

counted-strokes : (n : ℕ) → counted (strokes n) ≡ n
counted-strokes zero = refl
counted-strokes (suc n) = ap suc (counted-strokes n)

from_dict-to_dict_example :
    from_dict strokes (λ s. some (counted s)) (to_dict strokes (λ s. some (counted s)) made)
    ≡ ok made
from_dict-to_dict_example =
    from_dict-to_dict strokes (λ s. some (counted s)) (λ t. ap some (counted-strokes t)) made refl
      refl refl refl tt

abbrev stored : String → Option Artifact
stored i = if i == "m1" then some media else none

abbrev after_download : Context State
after_download = record start {
  rest = media ∷ [];
  checkpoints = made ∷ [];
  current_stage = "download";
}

abbrev names : List String
names = "download" ∷ []

validate_resume_iff_example :
    validate_resume digest (made ∷ record made { status = "FAILED" } ∷ []) stored (λ _. none)
      ≡ ok names
    ↔ ((names ≡ stages_of (made ∷ [])) × AllValid stored digest (λ _. none) (made ∷ []))
validate_resume_iff_example =
    validate_resume_iff stored digest (λ _. none) (made ∷ record made { status = "FAILED" } ∷ [])
      names

execute_records_example :
    Appends repository artifacts has_slot digest identity_of describe "download" start
      (execute repository artifacts has_slot digest identity_of describe download start)
execute_records_example =
    execute_records repository artifacts has_slot digest identity_of describe download start refl

downloaded :
    run_all
      (stages_of_runners repository artifacts has_slot digest identity_of describe (download ∷ []))
      start
    ≡ returned after_download
unfolding execute conclude validate_outputs succeed build_checkpoint checkpoint_state_checksum
    persist_checkpoint identity_mapping
downloaded = refl

resumed_like_uninterrupted_example :
    (process artifacts digest
      (stages_of_runners repository artifacts has_slot digest identity_of describe (download ∷ [])
        ++ asr ∷ [])
      stored
      true
      after_download).1
    ≡ (process artifacts digest
        (stages_of_runners repository artifacts has_slot digest identity_of describe (download ∷ [])
          ++ asr ∷ [])
        (λ _. none)
        false
        start).1
resumed_like_uninterrupted_example =
    resumed_like_uninterrupted repository artifacts has_slot digest identity_of describe
      (download ∷ []) (asr ∷ []) start after_download stored (λ _. none) refl downloaded
      ((λ c. refl), tt) ((((media, refl, refl), tt), tt), tt) (refl, tt)
