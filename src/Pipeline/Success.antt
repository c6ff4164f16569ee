-- ===== src/Pipeline/Success.antt =====
-- What a stage that returns has recorded.
use stock_content.Prelude.{
  ◌+◌, ◌≡◌, refl, ap, sym, ◌∙◌, String, Bool, true, false, List, [], ◌∷◌, ◌++◌, map, if◌then◌else◌,
  Outcome, ok, raised, Bool-cases, inl, inr,
}
use stock_content.Pipeline.{Artifact, CheckpointRecord}
use stock_content.Pipeline.Checkpoint.{
  ChecksumPayload, CheckpointIdentity, checkpoint_state_checksum, build_checkpoint,
}
use stock_content.Pipeline.Resume.{count}
use stock_content.Pipeline.Run.{
  StageError, not_a_stage_result, Context, Ended, returned, failed, StageEnd, stage_result,
  legacy_context, stage_failed, ArtifactRepository, StageRunner, validate_outputs, checkpointed,
  persist_checkpoint, written, persisted, has_slots, fail, succeed, conclude, execute,
}

module _ (digest : ChecksumPayload → String) where
  -- a checkpoint of success of the stage, with a hash for each input and with its checksum
  pub record Made (name : String) (r : CheckpointRecord) : Type 0 where
    pub stage : r.stage ≡ name
    pub status : r.status ≡ "SUCCEEDED"
    pub inputs : count r.input_artifact_ids ≡ count r.input_hashes
    pub checksum : r.state_checksum ≡ checkpoint_state_checksum digest r

count-map : (f : Artifact → String) (l : List Artifact) → count (map f l) ≡ count l
count-map f [] = refl
count-map f (a ∷ l) = ap (λ n. 1 + n) (count-map f l)

module _ {S : Type 0} where
  -- the stage leaves the checkpoints of its context to its runner
  abbrev pub Leaves : Context S → StageEnd S → Type 0
  Leaves c (stage_result c' outputs) = c'.checkpoints ≡ c.checkpoints
  Leaves c (legacy_context c') = c'.checkpoints ≡ c.checkpoints
  Leaves c (stage_failed c' e) = Unit

  module _ (repository : ArtifactRepository S) (artifacts : S → List Artifact)
      (has_slot : S → String → Bool) (digest : ChecksumPayload → String)
      (identity_of : Context S → CheckpointIdentity) (describe : StageError → String) where
    -- where a call returns, it appended a checkpoint of the stage
    abbrev pub Appends : String → Context S → Ended S → Type 0
    Appends name before (failed c e) = Unit
    Appends name before (returned c) =
        (r : CheckpointRecord) × (c.checkpoints ≡ before.checkpoints ++ r ∷ []) × Made digest name r

    Appends-persisted :
        (name : String) (before c : Context S) (outputs : List Artifact) (r : CheckpointRecord)
        → c.checkpoints ≡ before.checkpoints
        → Made digest name r
        → Appends name before (persisted repository outputs (checkpointed c r) r returned)
    Appends-persisted name before c outputs r same made =
        go (persist_checkpoint repository outputs (checkpointed c r) r)
      where
        go :
            (o : Outcome StageError S)
            → Appends name before (written repository (checkpointed c r) returned o)
        go (raised e) = tt
        go (ok s) = (r, ap (λ l. l ++ r ∷ []) same, made)

    Appends-succeed :
        (runner : StageRunner S) (before c : Context S) (outputs : List Artifact)
        → c.checkpoints ≡ before.checkpoints
        → Appends runner.name before (
            succeed repository artifacts has_slot digest identity_of describe runner before c
              outputs)
    unfolding succeed build_checkpoint checkpoint_state_checksum
    Appends-succeed runner before c outputs same =
        Appends-persisted runner.name before c outputs _ same (record {
          stage = refl;
          status = refl;
          inputs =
              count-map (λ a. a.artifact_id) (artifacts before.rest)
              ∙ sym (count-map (λ a. a.content_hash) (artifacts before.rest));
          checksum = refl;
        })

    Appends-failed :
        (name : String) (before c : Context S) (e : StageError) (o : Outcome StageError S)
        → Appends name before (written repository c (λ c'. failed c' e) o)
    Appends-failed name before c e (raised x) = tt
    Appends-failed name before c e (ok s) = tt

    Appends-fail :
        (runner : StageRunner S) (before c : Context S) (e : StageError)
        → Appends runner.name before
            (fail repository artifacts has_slot digest identity_of describe runner before c e)
    unfolding fail build_checkpoint
    Appends-fail runner before c e =
        Appends-failed runner.name before _ e
          (persist_checkpoint repository [] (checkpointed c _) _)

    Appends-conclude :
        (runner : StageRunner S) (before : Context S) (end : StageEnd S)
        → Leaves before end
        → Appends runner.name before
            (conclude repository artifacts has_slot digest identity_of describe runner before end)
    unfolding conclude
    Appends-conclude runner before (stage_result c outputs) same =
        go (validate_outputs runner.contract outputs) refl
      where
        go :
            (o : Outcome StageError (Unit {0}))
            → validate_outputs runner.contract outputs ≡ o
            → Appends runner.name before (
                conclude repository artifacts has_slot digest identity_of describe runner before
                  (stage_result c outputs))
        go (raised e) h = rw (conclude, h) (Appends-fail runner before c e)
        go (ok u) h = rw (conclude, h) (Appends-succeed runner before c outputs same)
    Appends-conclude runner before (legacy_context c) same =
        choose runner.legacy_fallback _ _ (Appends-succeed runner before c _ same)
          (Appends-fail runner before c not_a_stage_result)
      where
        choose :
            (b : Bool) (x y : Ended S)
            → Appends runner.name before x
            → Appends runner.name before y
            → Appends runner.name before (if b then x else y)
        choose true x y p q = p
        choose false x y p q = q
    Appends-conclude runner before (stage_failed c e) same = Appends-fail runner before c e

    -- Whatever a stage does, a call of its runner that returns has appended one checkpoint of its success,
    -- with a hash for each input and with its own checksum, where the stage leaves the checkpoints alone.
    pub execute_records :
        (runner : StageRunner S) (c : Context S)
        → Leaves c (runner.execute_stage c)
        → Appends runner.name c
            (execute repository artifacts has_slot digest identity_of describe runner c)
    unfolding execute
    execute_records runner c leaves =
        elim (Bool-cases (
          has_slots repository artifacts has_slot digest identity_of describe c.rest
            runner.contract.required_inputs)) [
              | inl h ↦ rw (execute, h) (Appends-conclude runner c (runner.execute_stage c) leaves)
              | inr h ↦ rw (execute, h) tt
            ]
