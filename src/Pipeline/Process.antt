-- ===== src/Pipeline/Process.antt =====
-- Runs of the whole pipeline: `ContentPipeline.process` of src/stock_content/application/pipeline.py. The
-- restored artifacts, which nothing else reads, are an argument. The callbacks are a list of the calls
-- they get.
use stock_content.Prelude.{
  ℕ, ◌+◌, ◌*◌, ◌/◌, max, String, Bool, true, false, ◌&&◌, not, Option, none, some, List, [], ◌∷◌,
  if◌then◌else◌, one_of, ok, raised, ◌==◌,
}
use stock_content.Pipeline.{Artifact, CheckpointRecord}
use stock_content.Pipeline.Checkpoint.{ChecksumPayload}
use stock_content.Pipeline.Resume.{validate_resume, is_empty, count}
use stock_content.Pipeline.Run.{
  invalid_resume, Context, Ended, returned, failed, PipelineStage, enter,
}

-- a call of `on_progress` or of `on_checkpoint`, with the checkpoint of its payload
pub data Event : Type 0 where
  progress : String → ℕ → Event
  checkpoint : String → Option CheckpointRecord → ℕ → Event

abbrev pub last : List CheckpointRecord → Option CheckpointRecord
last [] = none
last (r ∷ []) = some r
last (r ∷ s ∷ l) = last (s ∷ l)

-- `artifacts_by_id`, where the restored artifacts win
abbrev pub by_id : List Artifact → String → Option Artifact
by_id [] i = none
by_id (a ∷ l) i = elim (by_id l i) [
  | some b ↦ some b
  | none ↦ if a.artifact_id == i then some a else none
]

abbrev pub either_of : Option Artifact → Option Artifact → Option Artifact
either_of (some a) o = some a
either_of none o = o

module _ {S : Type 0} where
  -- the contiguous prefix of validated stages
  unfoldable pub completed_prefix : List String → List (PipelineStage S) → List String
  completed_prefix validated [] = []
  completed_prefix validated (s ∷ stages) =
      let rest = completed_prefix validated stages in
      if one_of s.name validated then s.name ∷ rest else []

  -- the loop of `process` from stage `index` on
  unfoldable pub walk :
      ℕ → List String → ℕ → List (PipelineStage S) → Context S → List Event × Ended S
  walk total completed index [] c = (progress "completed" 100 ∷ [], returned (enter "completed" c))
  walk total completed index (s ∷ stages) c = elim (one_of s.name completed) [
    | true ↦ walk total completed (index + 1) stages (enter s.name c)
    | false ↦ elim (s.execute (enter s.name c)) [
      | failed c' e ↦ (progress s.name (index * 100 / total) ∷ [], failed c' e)
      | returned c' ↦
          let rest = walk total completed (index + 1) stages c' in
          (
            progress s.name (index * 100 / total)
                ∷ checkpoint s.name (last c'.checkpoints) ((index + 1) * 100 / total)
                ∷ rest.0,
            rest.1,
          )
    ]
  ]

  module _ (artifacts : S → List Artifact) (digest : ChecksumPayload → String) where
    abbrev pub artifacts_by_id : (String → Option Artifact) → Context S → String → Option Artifact
    artifacts_by_id restored c i = either_of (restored i) (by_id (artifacts c.rest) i)

    -- `process`
    unfoldable pub process :
        List (PipelineStage S)
        → (String → Option Artifact)
        → Bool
        → Context S
        → List Event × Ended S
    process stages restored resume c =
        let total = max (count stages) 1 in
        if resume && not (is_empty c.checkpoints)
        then elim (validate_resume digest c.checkpoints (artifacts_by_id restored c) (λ _. none)) [
          | raised e ↦ ([], failed c (invalid_resume e))
          | ok validated ↦ walk total (completed_prefix validated stages) 0 stages c
        ]
        else walk total [] 0 stages c
