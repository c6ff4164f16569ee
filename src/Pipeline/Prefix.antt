-- ===== src/Pipeline/Prefix.antt =====
-- What the check before a resume accepts.
use stock_content.Prelude.{
  ◌≡◌, refl, ap, sym, ◌∙◌, ◌↔◌, String, true, false, not, ◌&&◌, Option, some, List, [], ◌∷◌, map,
  arith, if◌then◌else◌, nat_eq, Outcome, ok, raised, ◌>>=◌, ◌>>◌, require, require_ok, filled,
  Bool-cases, Option-cases, inl, inr, eq_iff, ◌==◌,
}
use stock_content.Pipeline.{Artifact, CheckpointRecord}
use stock_content.Pipeline.Checkpoint.{ChecksumPayload, checkpoint_state_checksum}
use stock_content.Pipeline.Resume.{
  ResumeError, succeeded, count, check_hashes, is_empty, check_inputs, compatible, check_record,
  validate_resume,
}

-- the records before the first that did not succeed
abbrev pub succeeded_prefix : List CheckpointRecord → List CheckpointRecord
succeeded_prefix [] = []
succeeded_prefix (r ∷ rs) = let rest = succeeded_prefix rs in if succeeded r then r ∷ rest else []

abbrev pub stages_of : List CheckpointRecord → List String
stages_of = map (λ (r : CheckpointRecord). r.stage)

guard_ok :
    {A : Type 0} (m : Outcome ResumeError (Unit {0})) (k : Outcome ResumeError A) (a : A)
    → (m >> k) ≡ ok a
    → (m ≡ ok tt) × (k ≡ ok a)
guard_ok (ok tt) k a h = (refl, h)
guard_ok (raised e) k a h = absurd (ground arith)

rest_ok :
    (stage : String) (o : Outcome ResumeError (List String)) (names : List String)
    → (o >>= λ ns. ok (stage ∷ ns)) ≡ ok names
    → (ns : List String) × (o ≡ ok ns) × (names ≡ stage ∷ ns)
rest_ok stage (ok ns) names h = (ns, refl, ground arith)
rest_ok stage (raised e) names h = absurd (ground arith)

module _ (lookup : String → Option Artifact) where
  -- every identifier has an artifact with the hash beside it
  abbrev pub Agrees : List String → List String → Type 0
  Agrees (i ∷ is) (h ∷ hs) =
      ((a : Artifact) × (lookup i ≡ some a) × (h ≡ a.content_hash)) × Agrees is hs
  Agrees _ _ = Unit

  check_hashes-Agrees :
      (missing mismatch : ResumeError) (is hs : List String)
      → check_hashes lookup missing mismatch is hs ≡ ok tt
      → Agrees is hs
  unfolding check_hashes
  check_hashes-Agrees missing mismatch [] hs h = tt
  check_hashes-Agrees missing mismatch (i ∷ is) [] h = tt
  check_hashes-Agrees missing mismatch (i ∷ is) (x ∷ hs) h = elim (Option-cases (lookup i)) [
    | inl e ↦ absurd (
        let g : ◌≡◌ {A = Outcome ResumeError (Unit {0})} (raised missing) (ok tt) =
          rw (check_hashes, e) at h in
        ground arith)
    | inr (a, e) ↦
        let (t, rest) =
          guard_ok (require (x == a.content_hash) mismatch)
            (check_hashes lookup missing mismatch is hs) tt (rw (check_hashes, e) at h) in
        (
          (a, e, (eq_iff x a.content_hash).0 (require_ok (x == a.content_hash) mismatch t)),
          check_hashes-Agrees missing mismatch is hs rest,
        )
  ]

  Agrees-check_hashes :
      (missing mismatch : ResumeError) (is hs : List String)
      → Agrees is hs
      → check_hashes lookup missing mismatch is hs ≡ ok tt
  unfolding check_hashes
  Agrees-check_hashes missing mismatch [] hs h = refl
  Agrees-check_hashes missing mismatch (i ∷ is) [] h = refl
  Agrees-check_hashes missing mismatch (i ∷ is) (x ∷ hs) ((a, e, p), rest) =
      rw (check_hashes, e, (eq_iff x a.content_hash).1 p)
        (Agrees-check_hashes missing mismatch is hs rest)

  module _ (digest : ChecksumPayload → String) (stage_versions : String → Option String) where
    -- A record that a run may be resumed from: the artifacts it names are there with their hashes, its
    -- inputs have one hash each where they have any, and its checksum and version are as expected.
    pub record Valid (r : CheckpointRecord) : Type 0 where
      pub outputs : Agrees r.output_artifact_ids r.output_hashes
      pub inputs :
          is_empty r.input_hashes ≡ false
          → (count r.input_artifact_ids ≡ count r.input_hashes)
            × Agrees r.input_artifact_ids r.input_hashes
      pub checksum :
          filled r.state_checksum ≡ true → r.state_checksum ≡ checkpoint_state_checksum digest r
      pub version : compatible (stage_versions r.stage) r.stage_version ≡ true

    abbrev pub AllValid : List CheckpointRecord → Type 0
    AllValid [] = Unit
    AllValid (r ∷ rs) = Valid r × AllValid rs

    inputs_ok :
        (r : CheckpointRecord)
        → check_inputs lookup r ≡ ok tt
        → is_empty r.input_hashes ≡ false
        → (count r.input_artifact_ids ≡ count r.input_hashes)
          × Agrees r.input_artifact_ids r.input_hashes
    unfolding check_inputs
    inputs_ok r h e =
        let (t, rest) = guard_ok _ _ tt (rw e at h) in
        let c : nat_eq (count r.input_artifact_ids) (count r.input_hashes) ≡ true =
          require_ok _ _ t in
        let n : count r.input_artifact_ids ≡ count r.input_hashes = ground arith in
        (n, check_hashes-Agrees _ _ r.input_artifact_ids r.input_hashes rest)

    ok_inputs :
        (r : CheckpointRecord)
        → (is_empty r.input_hashes ≡ false
            → (count r.input_artifact_ids ≡ count r.input_hashes)
              × Agrees r.input_artifact_ids r.input_hashes)
        → check_inputs lookup r ≡ ok tt
    unfolding check_inputs
    ok_inputs r f = elim (Bool-cases (is_empty r.input_hashes)) [
      | inl e ↦ rw e refl
      | inr e ↦
          let (c, a) = f e in
          let n : nat_eq (count r.input_artifact_ids) (count r.input_hashes) ≡ true =
            ground arith in
          rw (e, n) (Agrees-check_hashes _ _ r.input_artifact_ids r.input_hashes a)
    ]

    same_checksum :
        (r : CheckpointRecord)
        → filled r.state_checksum ≡ true
        → not (
            filled r.state_checksum && not (r.state_checksum == checkpoint_state_checksum digest r))
          ≡ true
        → r.state_checksum ≡ checkpoint_state_checksum digest r
    same_checksum r f c =
        ground (arith, eq_iff r.state_checksum (checkpoint_state_checksum digest r))

    check_record-Valid :
        (r : CheckpointRecord) → check_record digest lookup stage_versions r ≡ ok tt → Valid r
    unfolding check_record
    check_record-Valid r h =
        let (o, h1) = guard_ok _ _ tt h in
        let (i, h2) = guard_ok _ _ tt h1 in
        let (s, v) = guard_ok _ _ tt h2 in
        let c : not (
              filled r.state_checksum
              && not (r.state_checksum == checkpoint_state_checksum digest r))
            ≡ true =
          require_ok _ _ s in
        record {
          outputs = check_hashes-Agrees _ _ r.output_artifact_ids r.output_hashes o;
          inputs = inputs_ok r i;
          checksum = λ f. same_checksum r f c;
          version = require_ok _ _ v;
        }

    Valid-check_record :
        (r : CheckpointRecord) → Valid r → check_record digest lookup stage_versions r ≡ ok tt
    unfolding check_record
    Valid-check_record r v =
        let c : not (
              filled r.state_checksum
              && not (r.state_checksum == checkpoint_state_checksum digest r))
            ≡ true =
          elim (Bool-cases (filled r.state_checksum)) [
            | inl f ↦
                rw
                  (
                    f,
                    (eq_iff r.state_checksum (checkpoint_state_checksum digest r)).1 (v.checksum f),
                  )
                  refl
            | inr f ↦ rw f refl
          ] in
        rw
          (
            Agrees-check_hashes _ _ r.output_artifact_ids r.output_hashes v.outputs,
            ok_inputs r v.inputs,
            c,
            v.version,
          )
          refl

    resume_sound :
        (cs : List CheckpointRecord) (names : List String)
        → validate_resume digest cs lookup stage_versions ≡ ok names
        → (names ≡ stages_of (succeeded_prefix cs)) × AllValid (succeeded_prefix cs)
    unfolding validate_resume
    resume_sound [] names h = (ground arith, tt)
    resume_sound (r ∷ rs) names h = elim (Bool-cases (succeeded r)) [
      | inr e ↦
          let n : ◌≡◌ {A = Outcome ResumeError (List String)} (ok []) (ok names) =
            rw (validate_resume, e) at h in
          rw e (ground arith, tt)
      | inl e ↦
          let (c, rest) =
            guard_ok (check_record digest lookup stage_versions r)
              (validate_resume digest rs lookup stage_versions >>= λ names. ok (r.stage ∷ names))
              names (rw (validate_resume, e) at h) in
          let (ns, q, n) =
            rest_ok r.stage (validate_resume digest rs lookup stage_versions) names rest in
          let (same, valid) = resume_sound rs ns q in
          rw e (n ∙ ap (λ l. r.stage ∷ l) same, (check_record-Valid r c, valid))
    ]

    pub resume_complete :
        (cs : List CheckpointRecord)
        → AllValid (succeeded_prefix cs)
        → validate_resume digest cs lookup stage_versions ≡ ok (stages_of (succeeded_prefix cs))
    unfolding validate_resume
    resume_complete [] h = refl
    resume_complete (r ∷ rs) h = elim (Bool-cases (succeeded r)) [
      | inr e ↦ rw (validate_resume, e) refl
      | inl e ↦
          let (v, valid) : Valid r × AllValid (succeeded_prefix rs) = rw e at h in
          rw (validate_resume, e, Valid-check_record r v, resume_complete rs valid) refl
    ]

    -- The check accepts exactly where every record before the first that did not succeed is valid, and it
    -- returns exactly their stages: a failed record hides those after it.
    pub validate_resume_iff :
        (cs : List CheckpointRecord) (names : List String)
        → validate_resume digest cs lookup stage_versions ≡ ok names
          ↔ ((names ≡ stages_of (succeeded_prefix cs)) × AllValid (succeeded_prefix cs))
    validate_resume_iff cs names =
        (resume_sound cs names, λ h. resume_complete cs h.1 ∙ ap ok (sym h.0))
