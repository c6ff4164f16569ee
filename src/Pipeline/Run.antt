-- ===== src/Pipeline/Run.antt =====
-- One stage of the pipeline: `StageRunner` of src/stock_content/application/stage_runner.py. A context is its task, its
-- checkpoints, its current stage, its lease and the rest: state, options and registry of artifacts,
-- with the database that a repository writes. What a stage does, what the registry holds and the
-- identity of a checkpoint are parameters.
use stock_content.Prelude.{
  ℕ, String, Bool, true, false, ◌&&◌, ◌||◌, not, Option, none, some, List, [], ◌∷◌, ◌++◌, map,
  if◌then◌else◌, one_of, filled, Outcome, ok, raised, ◌>>◌, require,
}
use stock_content.Pipeline.{Artifact, CheckpointRecord}
use stock_content.Pipeline.Checkpoint.{
  CheckpointError, ChecksumPayload, CheckpointIdentity, build_checkpoint,
}
use stock_content.Pipeline.Resume.{ResumeError}

pub data StageError : Type 0 where
  missing_required_artifacts undeclared_outputs missing_outputs not_a_stage_result : StageError
  invalid_checkpoint : CheckpointError → StageError
  invalid_resume : ResumeError → StageError
  other_error : String → StageError

pub record Context (S : Type 0) : Type 0 where
  pub task_id : String
  pub rest : S
  pub checkpoints : List CheckpointRecord
  pub current_stage : String
  pub worker_id : Option String
  pub fencing_token : Option ℕ

-- how a call on a context ends; an exception leaves the context as it is then
pub data Ended (S : Type 0) : Type 0 where
  returned : Context S → Ended S
  failed : Context S → StageError → Ended S

-- how the call of a stage ends: with the context and the artifacts of a `StageResult`, with the context
-- of a legacy stage, which is the one it was given, or with an exception
pub data StageEnd (S : Type 0) : Type 0 where
  stage_result : Context S → List Artifact → StageEnd S
  legacy_context : Context S → StageEnd S
  stage_failed : Context S → StageError → StageEnd S

pub record PipelineStage (S : Type 0) : Type 0 where
  pub name : String
  pub execute : Context S → Ended S

-- `put_with_fenced_checkpoint` and `put_with_checkpoint`, where the repository has them
pub record ArtifactRepository (S : Type 0) : Type 0 where
  pub put_with_fenced_checkpoint :
      Option (S → List Artifact → String → CheckpointRecord → String → ℕ → Outcome StageError S)
  pub put_with_checkpoint :
      Option (S → List Artifact → String → CheckpointRecord → Outcome StageError S)

pub record StageContract : Type 0 where
  pub required_inputs : List String
  pub output_types : List String
  pub optional_output_types : List String

-- a `StageRunner` in one run: its stage, its settings, and the instants at which it starts and ends
pub record StageRunner (S : Type 0) : Type 0 where
  pub name : String
  pub stage_version : String
  pub contract : StageContract
  pub legacy_fallback : Bool
  pub execute_stage : Context S → StageEnd S
  pub started_at : ℕ
  pub finished_at : ℕ

abbrev pub all_in : List String → List String → Bool
all_in [] l = true
all_in (x ∷ xs) l = one_of x l && all_in xs l

abbrev pub types : List Artifact → List String
types = map (λ (a : Artifact). a.artifact_type)

abbrev pub missing_types : List String → List String → List String → Bool
missing_types [] actual optional = false
missing_types (t ∷ ts) actual optional =
    not (one_of t actual) && not (one_of t optional) || missing_types ts actual optional

-- `_validate_outputs`
unfoldable pub validate_outputs : StageContract → List Artifact → Outcome StageError (Unit {0})
validate_outputs contract outputs =
    require (all_in (types outputs) contract.output_types) undeclared_outputs
    >> require
        (not (missing_types contract.output_types (types outputs) contract.optional_output_types))
        missing_outputs

-- `self.worker_id and fencing_token is not None`
abbrev pub lease_of : Option String → Option ℕ → Option (String × ℕ)
lease_of (some w) (some n) = if filled w then some (w, n) else none
lease_of _ _ = none

abbrev pub new_artifacts : List String → List Artifact → List Artifact
new_artifacts before [] = []
new_artifacts before (a ∷ l) =
    if one_of a.artifact_id before then new_artifacts before l else a ∷ new_artifacts before l

module _ {S : Type 0} where
  abbrev pub enter : String → Context S → Context S
  enter name c = record c { current_stage = name }

  abbrev pub checkpointed : Context S → CheckpointRecord → Context S
  checkpointed c r = record c { checkpoints = c.checkpoints ++ r ∷ [] }

  module _ (repository : ArtifactRepository S) where
    abbrev pub put_plain : S → List Artifact → String → CheckpointRecord → Outcome StageError S
    put_plain s outputs task_id r = elim repository.put_with_checkpoint [
      | none ↦ ok s
      | some put ↦ put s outputs task_id r
    ]

    -- `_persist_checkpoint`; no repository is one without either method
    unfoldable pub persist_checkpoint :
        List Artifact → Context S → CheckpointRecord → Outcome StageError S
    persist_checkpoint outputs c r = elim (lease_of c.worker_id c.fencing_token) [
      | none ↦ put_plain c.rest outputs c.task_id r
      | some l ↦ elim repository.put_with_fenced_checkpoint [
        | none ↦ put_plain c.rest outputs c.task_id r
        | some put ↦ put c.rest outputs c.task_id r l.0 l.1
      ]
    ]

    -- the context after its checkpoint is persisted, which may raise
    abbrev pub written : Context S → (Context S → Ended S) → Outcome StageError S → Ended S
    written c next (raised e) = failed c e
    written c next (ok s) = next (record c { rest = s })

    abbrev pub persisted :
        List Artifact → Context S → CheckpointRecord → (Context S → Ended S) → Ended S
    persisted outputs c r next = written c next (persist_checkpoint outputs c r)

    module _ (artifacts : S → List Artifact) (has_slot : S → String → Bool)
        (digest : ChecksumPayload → String) (identity_of : Context S → CheckpointIdentity)
        (describe : StageError → String) where
      abbrev pub has_slots : S → List String → Bool
      has_slots s [] = true
      has_slots s (x ∷ xs) = has_slot s x && has_slots s xs

      -- the checkpoint of a run of the stage that began with the context `before`
      abbrev pub checkpoint_of :
          StageRunner S
          → Context S
          → CheckpointIdentity
          → List Artifact
          → String
          → Option String
          → Outcome CheckpointError CheckpointRecord
      checkpoint_of runner before identity outputs status error =
          build_checkpoint digest runner.finished_at runner.name runner.stage_version
            (map (λ (a : Artifact). a.artifact_id) (artifacts before.rest))
            (map (λ (a : Artifact). a.content_hash) (artifacts before.rest)) outputs identity
            (some runner.started_at) status error

      -- the `except` branch, with the context as it is then
      unfoldable pub fail : StageRunner S → Context S → Context S → StageError → Ended S
      fail runner before c e =
          elim (checkpoint_of runner before (identity_of before) [] "FAILED" (some (describe e))) [
            | raised x ↦ failed c (invalid_checkpoint x)
            | ok r ↦ persisted [] (checkpointed c r) r (λ c'. failed c' e)
          ]

      unfoldable pub succeed : StageRunner S → Context S → Context S → List Artifact → Ended S
      succeed runner before c outputs =
          elim (checkpoint_of runner before (identity_of c) outputs "SUCCEEDED" none) [
            | raised x ↦ failed c (invalid_checkpoint x)
            | ok r ↦ persisted outputs (checkpointed c r) r returned
          ]

      -- what `execute` does with the end of its stage
      unfoldable pub conclude : StageRunner S → Context S → StageEnd S → Ended S
      conclude runner before (stage_result c outputs) =
          elim (validate_outputs runner.contract outputs) [
            | raised e ↦ fail runner before c e
            | ok _ ↦ succeed runner before c outputs
          ]
      conclude runner before (legacy_context c) =
          if runner.legacy_fallback
          then succeed runner before c (
              new_artifacts (map (λ (a : Artifact). a.artifact_id) (artifacts before.rest))
                (artifacts c.rest))
          else fail runner before c not_a_stage_result
      conclude runner before (stage_failed c e) = fail runner before c e

      -- `StageRunner.execute`
      unfoldable pub execute : StageRunner S → Context S → Ended S
      execute runner c =
          if has_slots c.rest runner.contract.required_inputs
          then conclude runner c (runner.execute_stage c)
          else failed c missing_required_artifacts

      abbrev pub stage_of : StageRunner S → PipelineStage S
      stage_of runner = record { name = runner.name; execute = execute runner }
