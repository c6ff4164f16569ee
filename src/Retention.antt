-- ===== src/Retention.antt =====
-- Retention of artifacts: src/stock_content/domain/retention.py and
-- src/stock_content/adapters/retention/sql_retention.py. Instants are UTC seconds. The SHA-256 identity
-- of a tombstone and the scan for secrets are parameters. The service and the proofs are in the
-- modules below.
pub mod Service
pub mod Deletion
use stock_content.Prelude.{
  ℕ, ◌+◌, ◌*◌, String, Bool, true, false, ◌&&◌, ◌||◌, not, Option, none, some, List, [], ◌∷◌, leb,
  ltb, nat_eq, if◌then◌else◌, opt_eq, filled, is_some, or_else, ◌==◌, Outcome, ok, raised, ◌>>=◌,
  ◌>>◌, found, require,
}
use stock_content.Prelude.Table.{Table}
use stock_content.Prelude.Text.{prefix}

pub data RetentionClass : Type 0 where
  raw_media subtitle transcript knowledge : RetentionClass

abbrev pub same_class : RetentionClass → RetentionClass → Bool
same_class raw_media raw_media = true
same_class subtitle subtitle = true
same_class transcript transcript = true
same_class knowledge knowledge = true
same_class _ _ = false

-- `RetentionPolicy`, with a number of days for every class
pub record RetentionPolicy : Type 0 where
  pub days : RetentionClass → ℕ

abbrev pub in_range : ℕ → Bool
in_range day = leb 1 day && leb day 36500

pub data RetentionError : Type 0 where
  value_error key_error : RetentionError

-- `RetentionPolicy.__post_init__`
unfoldable pub policy_of : (RetentionClass → ℕ) → Outcome RetentionError RetentionPolicy
policy_of days = do
  require
      (in_range (days raw_media)
        && in_range (days subtitle)
        && in_range (days transcript)
        && in_range (days knowledge))
      value_error
  ok (record { days = days })

-- `expires_at`
unfoldable pub expires_at : RetentionPolicy → RetentionClass → ℕ → ℕ
expires_at policy artifact_class created_at = created_at + policy.days artifact_class * 86400

pub record RetentionCandidate : Type 0 where
  pub artifact_id : String
  pub artifact_class : RetentionClass
  pub content_hash : String
  pub source_identity_hash : String
  pub audit_lineage_id : String
  pub created_at : ℕ
  pub legal_hold : Bool

-- `RetentionCandidate.__post_init__`
unfoldable pub candidate_of :
    (List String → Bool) → RetentionCandidate → Outcome RetentionError RetentionCandidate
candidate_of contains_sensitive_value c = do
  require
      (filled c.artifact_id
        && filled c.content_hash
        && filled c.source_identity_hash
        && filled c.audit_lineage_id)
      value_error
  require
      (not (
        contains_sensitive_value
          (c.artifact_id ∷ c.content_hash ∷ c.source_identity_hash ∷ c.audit_lineage_id ∷ [])))
      value_error
  ok c

pub record Tombstone : Type 0 where
  pub tombstone_id : String
  pub artifact_id : String
  pub artifact_class : RetentionClass
  pub content_hash : String
  pub source_identity_hash : String
  pub audit_lineage_id : String
  pub reason : String
  pub expired_at : ℕ
  pub recorded_at : ℕ

pub data RetentionExecutionState : Type 0 where
  delete_pending deleted delete_failed : RetentionExecutionState

abbrev pub is_deleted : RetentionExecutionState → Bool
is_deleted deleted = true
is_deleted _ = false

-- A row of `RetentionExecutionRow`, its columns of the tombstone as one field.
pub record RetentionExecution : Type 0 where
  pub tombstone : Tombstone
  pub state : RetentionExecutionState
  pub attempt_count : ℕ
  pub last_error_code : Option String
  pub finalized_at : Option ℕ

abbrev pub same_tombstone : Tombstone → Tombstone → Bool
same_tombstone a b =
    a.tombstone_id == b.tombstone_id
    && a.artifact_id == b.artifact_id
    && same_class a.artifact_class b.artifact_class
    && a.content_hash == b.content_hash
    && a.source_identity_hash == b.source_identity_hash
    && a.audit_lineage_id == b.audit_lineage_id
    && a.reason == b.reason
    && nat_eq a.expired_at b.expired_at
    && nat_eq a.recorded_at b.recorded_at

pub data Action : Type 0 where
  legal_hold keep audit_tombstone_planned audit_tombstone_recorded retention_deleted
        retention_delete_failed :
      Action

pub record RetentionPlan : Type 0 where
  pub candidate : RetentionCandidate
  pub tombstone : Option Tombstone
  pub dry_run : Bool
  pub action : Action

-- a new execution, created at `now`
abbrev pub new_execution : Tombstone → ℕ → RetentionExecution
new_execution tombstone now = record {
  tombstone = record tombstone { recorded_at = now };
  state = delete_pending;
  attempt_count = 0;
  last_error_code = none;
  finalized_at = none;
}

abbrev pub for_artifact : String → RetentionExecution → Bool
for_artifact artifact_id row = row.tombstone.artifact_id == artifact_id

-- `mark_deleted` of a row that is there
unfoldable pub finish : ℕ → RetentionExecution → RetentionExecution
finish now row = if is_deleted row.state then row else record row {
  state = deleted;
  attempt_count = row.attempt_count + 1;
  last_error_code = none;
  finalized_at = some now;
}

-- `error_code and len(error_code) <= 64`
abbrev pub short : String → Bool
short error_code = filled error_code && prefix 64 error_code == error_code

-- `mark_failed` of a row that is there
unfoldable pub note_failure : String → RetentionExecution → RetentionExecution
note_failure error_code row = if is_deleted row.state then row else record row {
  state = delete_failed;
  attempt_count = row.attempt_count + 1;
  last_error_code = some error_code;
}

module _ (db : Table RetentionExecution) where
  open db use {State, get, put, scalar}

  unfoldable pub prepare_execution :
      State → ℕ → Tombstone → Outcome RetentionError (State × RetentionExecution)
  prepare_execution s now tombstone = elim (get s tombstone.tombstone_id) [
    | some row ↦ ok (s, row)
    | none ↦ elim (scalar (for_artifact tombstone.artifact_id) s) [
      | some (_, row) ↦ require (same_tombstone row.tombstone tombstone) value_error >> ok (s, row)
      | none ↦
          ok (
            put s tombstone.tombstone_id (new_execution tombstone now),
            new_execution tombstone now,
          )
    ]
  ]

  unfoldable pub mark_deleted : State → ℕ → String → Outcome RetentionError State
  mark_deleted s now tombstone_id = do
    row ← found (get s tombstone_id) key_error
    ok (put s tombstone_id (finish now row))

  unfoldable pub mark_failed : State → String → String → Outcome RetentionError State
  mark_failed s tombstone_id error_code = do
    require (short error_code) value_error
    row ← found (get s tombstone_id) key_error
    ok (put s tombstone_id (note_failure error_code row))
