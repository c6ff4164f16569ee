-- ===== src/Pipeline/Resume.antt =====
-- The check of checkpoints before a run is resumed: `validate_resume` of
-- src/stock_content/domain/checkpoint.py. The artifacts by identifier are a function, and the versions
-- of the stages another.
use stock_content.Prelude.{
  String, Bool, true, false, ◌&&◌, not, Option, none, some, List, [], ◌∷◌, if◌then◌else◌, nat_eq,
  filled, Outcome, ok, raised, ◌>>=◌, ◌>>◌, require, ◌==◌, ℕ, ◌+◌,
}
use stock_content.Pipeline.{Artifact, CheckpointRecord}
use stock_content.Pipeline.Checkpoint.{ChecksumPayload, checkpoint_state_checksum}

-- the errors of the check, with the stage
pub data ResumeError : Type 0 where
  missing_artifact artifact_hash_mismatch input_hash_count_mismatch missing_input_artifact :
      String → ResumeError
  input_artifact_hash_mismatch state_checksum_mismatch stage_version_incompatible :
      String → ResumeError

abbrev pub succeeded : CheckpointRecord → Bool
succeeded r = r.status == "SUCCEEDED"

abbrev pub count {ℓ} : {A : Type ℓ} → List A → ℕ
count [] = 0
count (_ ∷ l) = 1 + count l

-- the loop over the pairs of an identifier and its hash
unfoldable pub check_hashes :
    (String → Option Artifact)
    → ResumeError
    → ResumeError
    → List String
    → List String
    → Outcome ResumeError (Unit {0})
check_hashes lookup missing mismatch (i ∷ is) (h ∷ hs) = elim (lookup i) [
  | none ↦ raised missing
  | some a ↦ require (h == a.content_hash) mismatch >> check_hashes lookup missing mismatch is hs
]
check_hashes lookup missing mismatch _ _ = ok tt

abbrev pub is_empty {ℓ} : {A : Type ℓ} → List A → Bool
is_empty [] = true
is_empty (_ ∷ _) = false

unfoldable pub check_inputs :
    (String → Option Artifact) → CheckpointRecord → Outcome ResumeError (Unit {0})
check_inputs lookup r =
    if is_empty r.input_hashes
    then ok tt
    else (require (nat_eq (count r.input_artifact_ids) (count r.input_hashes))
          (input_hash_count_mismatch r.stage)
        >> check_hashes lookup (missing_input_artifact r.stage)
            (input_artifact_hash_mismatch r.stage) r.input_artifact_ids r.input_hashes)

abbrev pub compatible : Option String → String → Bool
compatible none version = true
compatible (some expected) version =
    not (filled expected && filled version && not (expected == version))

module _ (digest : ChecksumPayload → String) where
  -- the body of the loop of `validate_resume`
  unfoldable pub check_record :
      (String → Option Artifact)
      → (String → Option String)
      → CheckpointRecord
      → Outcome ResumeError (Unit {0})
  check_record lookup stage_versions r =
      check_hashes lookup (missing_artifact r.stage) (artifact_hash_mismatch r.stage)
        r.output_artifact_ids r.output_hashes
      >> (check_inputs lookup r
          >> (require
                (not (
                  filled r.state_checksum
                  && not (r.state_checksum == checkpoint_state_checksum digest r)))
                (state_checksum_mismatch r.stage)
              >> require (compatible (stage_versions r.stage) r.stage_version)
                  (stage_version_incompatible r.stage)))

  unfoldable pub validate_resume :
      List CheckpointRecord
      → (String → Option Artifact)
      → (String → Option String)
      → Outcome ResumeError (List String)
  validate_resume [] lookup stage_versions = ok []
  validate_resume (r ∷ rs) lookup stage_versions =
      let rest = validate_resume rs lookup stage_versions in
      if succeeded r
      then check_record lookup stage_versions r >> (rest >>= λ names. ok (r.stage ∷ names))
      else ok []
