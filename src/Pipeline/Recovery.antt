-- ===== src/Pipeline/Recovery.antt =====
-- A run that is resumed, beside the run that was not interrupted.
use stock_content.Prelude.{
  max, ◌≡◌, refl, ap, sym, ◌∙◌, subst, String, Bool, true, false, Option, none, List, [], ◌∷◌, ◌++◌,
  map, arith, ok, eq_iff,
}
use stock_content.Pipeline.{Artifact, CheckpointRecord}
use stock_content.Pipeline.Checkpoint.{ChecksumPayload, CheckpointIdentity}
use stock_content.Pipeline.Resume.{count, succeeded, validate_resume, is_empty}
use stock_content.Pipeline.Run.{
  StageError, Context, Ended, returned, failed, PipelineStage, ArtifactRepository, StageRunner,
  enter, execute, stage_of,
}
use stock_content.Pipeline.Process.{completed_prefix, walk, artifacts_by_id, process}
use stock_content.Pipeline.Prefix.{succeeded_prefix, stages_of, Agrees, AllValid, resume_complete}
use stock_content.Pipeline.Success.{Made, Leaves, Appends, execute_records}
use stock_content.Pipeline.Sequence.{
  AllKnown-refl, Apart, Apart-[], bind_end, run_all, stage_names, finish, walk-run_all, walk-skips,
  completed_prefix-append, run_all-append,
}

append_assoc : {A : Type 0} (x y : List A) (a : A) → (x ++ a ∷ []) ++ y ≡ x ++ a ∷ y
append_assoc [] y a = refl
append_assoc (b ∷ x) y a = ap (λ l. b ∷ l) (append_assoc x y a)

append-nil : {A : Type 0} (x : List A) → x ++ [] ≡ x
append-nil [] = refl
append-nil (a ∷ x) = ap (λ l. a ∷ l) (append-nil x)

module _ {S : Type 0} where
  module _ (repository : ArtifactRepository S) (artifacts : S → List Artifact)
      (has_slot : S → String → Bool) (digest : ChecksumPayload → String)
      (identity_of : Context S → CheckpointIdentity) (describe : StageError → String) where
    abbrev pub stages_of_runners : List (StageRunner S) → List (PipelineStage S)
    stages_of_runners = map (stage_of repository artifacts has_slot digest identity_of describe)

    -- every stage leaves the checkpoints to its runner
    abbrev pub AllLeave : List (StageRunner S) → Type 0
    AllLeave [] = Unit
    AllLeave (r ∷ rs) = ((c : Context S) → Leaves c (r.execute_stage c)) × AllLeave rs

    -- one checkpoint of success for each runner
    abbrev AllMade : List (StageRunner S) → List CheckpointRecord → Type 0
    AllMade [] [] = Unit
    AllMade (r ∷ rs) (x ∷ xs) = Made digest r.name x × AllMade rs xs
    AllMade _ _ = ⊥

    runs_record :
        (pre : List (StageRunner S)) (c c' : Context S)
        → AllLeave pre
        → run_all (stages_of_runners pre) c ≡ returned c'
        → (l : List CheckpointRecord) × (c'.checkpoints ≡ c.checkpoints ++ l) × AllMade pre l
    runs_record [] c c' leave h = (
      [],
      (let p : c ≡ c' = ground arith in
          ap (λ x. x.checkpoints) (sym p) ∙ sym (append-nil c.checkpoints)),
      tt,
    )
    runs_record (r ∷ pre) c c' (leave, leaves) h =
        go (execute repository artifacts has_slot digest identity_of describe r (enter r.name c))
          (execute_records repository artifacts has_slot digest identity_of describe r
            (enter r.name c) (leave (enter r.name c)))
          h (λ x. runs_record pre x c' leaves)
      where
        go :
            (o : Ended S)
            → Appends repository artifacts has_slot digest identity_of describe r.name
                (enter r.name c)
                o
            → bind_end o (run_all (stages_of_runners pre)) ≡ returned c'
            → ((x : Context S)
                → run_all (stages_of_runners pre) x ≡ returned c'
                → (l : List CheckpointRecord) × (c'.checkpoints ≡ x.checkpoints ++ l)
                  × AllMade pre l)
            → (l : List CheckpointRecord) × (c'.checkpoints ≡ c.checkpoints ++ l)
              × AllMade (r ∷ pre) l
        go (failed x e) a g next = absurd (ground arith)
        go (returned x) (m, same, made) g next =
            let (l, q, all) = next x g in
            (m ∷ l, q ∙ ap (λ y. y ++ l) same ∙ append_assoc c.checkpoints l m, (made, all))

    -- the artifacts that the checkpoints name can be looked up with their hashes
    abbrev pub Stored : (String → Option Artifact) → List CheckpointRecord → Type 0
    Stored lookup [] = Unit
    Stored lookup (r ∷ rs) =
        (Agrees lookup r.output_artifact_ids r.output_hashes
          × Agrees lookup r.input_artifact_ids r.input_hashes)
        × Stored lookup rs

    made_valid :
        (lookup : String → Option Artifact) (pre : List (StageRunner S)) (l : List CheckpointRecord)
        → AllMade pre l
        → Stored lookup l
        → (succeeded_prefix l ≡ l)
          × AllValid lookup digest (λ _. none) l
          × (stages_of l ≡ stage_names (stages_of_runners pre))
    made_valid lookup [] [] m s = (refl, tt, refl)
    made_valid lookup [] (x ∷ l) m s = absurd m
    made_valid lookup (r ∷ pre) [] m s = absurd m
    made_valid lookup (r ∷ pre) (x ∷ l) (m, ms) ((o, i), ss) =
        let (p, v, n) = made_valid lookup pre l ms ss in
        let t : succeeded x ≡ true = (eq_iff x.status "SUCCEEDED").1 m.status in
        (
          rw (t, p) refl,
          (
            record {
              outputs = o;
              inputs = λ _. (m.inputs, i);
              checksum = λ _. m.checksum;
              version = refl;
            },
            v,
          ),
          ap (λ y. y ∷ stages_of l) m.stage ∙ ap (λ y. r.name ∷ y) n,
        )

    resumes :
        (stages : List (PipelineStage S)) (restored : String → Option Artifact) (c : Context S)
        (names : List String)
        → is_empty c.checkpoints ≡ false
        → validate_resume digest c.checkpoints
            (artifacts_by_id artifacts digest restored c)
            (λ _. none)
          ≡ ok names
        → (process artifacts digest stages restored true c).1
          ≡ (walk (max (count stages) 1) (completed_prefix names stages) 0 stages c).1
    unfolding process
    resumes stages restored c names some_there v = rw (process, some_there, v) refl

    resumed :
        (pre : List (StageRunner S)) (post : List (PipelineStage S)) (c : Context S)
        (restored : String → Option Artifact) (l : List CheckpointRecord)
        → c.checkpoints ≡ l
        → AllMade pre l
        → Stored (artifacts_by_id artifacts digest restored c) l
        → Apart (stage_names post) (stage_names (stages_of_runners pre))
        → (process artifacts digest (stages_of_runners pre ++ post) restored true c).1
          ≡ finish (run_all post c)
    unfolding process
    resumed [] post c restored [] e m s a =
        let none_there : is_empty c.checkpoints ≡ true = rw e refl in
        rw (process, none_there) (walk-run_all _ [] 0 post c (Apart-[] (stage_names post)))
    resumed [] post c restored (x ∷ l) e m s a = absurd m
    resumed (r ∷ pre) post c restored [] e m s a = absurd m
    resumed (r ∷ pre) post c restored (x ∷ l) e m s a =
        let lookup = artifacts_by_id artifacts digest restored c in
        let first = stages_of_runners (r ∷ pre) in
        let (p, v, n) = made_valid lookup (r ∷ pre) (x ∷ l) m s in
        let ok_names : validate_resume digest (x ∷ l) lookup (λ _. none) ≡ ok (stage_names first) =
          resume_complete lookup digest (λ _. none) (x ∷ l)
            (subst (AllValid lookup digest (λ _. none)) (sym p) v)
          ∙ ap ok (ap stages_of p ∙ n) in
        resumes (first ++ post) restored c (stage_names first) (rw e refl) (
          subst (λ y. validate_resume digest y lookup (λ _. none) ≡ ok (stage_names first)) (sym e)
            ok_names)
        ∙ ap (λ done. (walk (max (count (first ++ post)) 1) done 0 (first ++ post) c).1)
            (completed_prefix-append (stage_names first) first post
              (AllKnown-refl (stage_names first)) a)
        ∙ walk-skips _ (stage_names first) 0 first post c (AllKnown-refl (stage_names first)) a

    -- Where a run has come through its first runners, the run that is resumed from its context ends as the
    -- run that is never interrupted does, with the same context or the same error. The first run has begun
    -- without checkpoints, the stages leave the checkpoints to their runners, the artifacts that the
    -- checkpoints name can be looked up with their hashes, and no later stage has the name of one of the
    -- first.
    pub resumed_like_uninterrupted :
        (pre : List (StageRunner S)) (post : List (PipelineStage S)) (c₀ c : Context S)
        (restored before : String → Option Artifact)
        → c₀.checkpoints ≡ []
        → run_all (stages_of_runners pre) c₀ ≡ returned c
        → AllLeave pre
        → Stored (artifacts_by_id artifacts digest restored c) c.checkpoints
        → Apart (stage_names post) (stage_names (stages_of_runners pre))
        → (process artifacts digest (stages_of_runners pre ++ post) restored true c).1
          ≡ (process artifacts digest (stages_of_runners pre ++ post) before false c₀).1
    unfolding process
    resumed_like_uninterrupted pre post c₀ c restored before none_yet ran leave stored apart =
        let (l, q, made) = runs_record pre c₀ c leave ran in
        let e : c.checkpoints ≡ l = q ∙ ap (λ y. y ++ l) none_yet in
        resumed pre post c restored l e made
          (subst (Stored (artifacts_by_id artifacts digest restored c)) e stored) apart
        ∙ sym (
            walk-run_all _ [] 0 (stages_of_runners pre ++ post) c₀
              (Apart-[] (stage_names (stages_of_runners pre ++ post)))
            ∙ ap finish (run_all-append (stages_of_runners pre) post c₀ c ran))
