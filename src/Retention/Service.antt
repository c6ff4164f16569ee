-- ===== src/Retention/Service.antt =====
-- The service of src/stock_content/application/retention_service.py. The adapter that deletes bytes is
-- a parameter: the service sees of a deletion whether it raised, and the name of the error.
use stock_content.Prelude.{
  ℕ, String, Bool, true, false, Option, none, some, ltb, if◌then◌else◌, Outcome, ok, ◌>>=◌,
}
use stock_content.Prelude.Table.{Table}
use stock_content.Retention.{
  RetentionPolicy, RetentionError, expires_at, RetentionCandidate, Tombstone, is_deleted,
  RetentionExecution, RetentionPlan, prepare_execution, mark_deleted, mark_failed, legal_hold, keep,
  audit_tombstone_planned, audit_tombstone_recorded, retention_deleted, retention_delete_failed,
}

module _ (db : Table RetentionExecution) (tombstone_id_of : RetentionCandidate → String) where
  open db use {State, get}

  -- `Tombstone.for_candidate`
  unfoldable pub for_candidate : RetentionCandidate → ℕ → ℕ → Tombstone
  for_candidate candidate expired_at now = record {
    tombstone_id = tombstone_id_of candidate;
    artifact_id = candidate.artifact_id;
    artifact_class = candidate.artifact_class;
    content_hash = candidate.content_hash;
    source_identity_hash = candidate.source_identity_hash;
    audit_lineage_id = candidate.audit_lineage_id;
    reason = "RETENTION_EXPIRED";
    expired_at = expired_at;
    recorded_at = now;
  }

  -- the end of `plan` for an expired artifact: `get(id) or insert_immutable(tombstone)`
  unfoldable pub record_tombstone :
      State
      → ℕ
      → RetentionCandidate
      → Tombstone
      → Option RetentionExecution
      → Outcome RetentionError (State × RetentionPlan)
  record_tombstone s now candidate tombstone (some row) = ok (
    s,
    record {
      candidate = candidate;
      tombstone = some row.tombstone;
      dry_run = false;
      action = audit_tombstone_recorded;
    },
  )
  record_tombstone s now candidate tombstone none = prepare_execution db s now tombstone >>= λ r.
      ok (
        r.0,
        record {
          candidate = candidate;
          tombstone = some r.1.tombstone;
          dry_run = false;
          action = audit_tombstone_recorded;
        },
      )

  unfoldable pub plan :
      RetentionPolicy
      → State
      → ℕ
      → Bool
      → RetentionCandidate
      → Outcome RetentionError (State × RetentionPlan)
  plan policy s now dry_run candidate =
      let expiry = expires_at policy candidate.artifact_class candidate.created_at in
      let tombstone = for_candidate candidate expiry now in
      if candidate.legal_hold
      then ok (
        s,
        record { candidate = candidate; tombstone = none; dry_run = dry_run; action = legal_hold },
      )
      else if ltb now expiry
      then ok
          (s, record { candidate = candidate; tombstone = none; dry_run = dry_run; action = keep })
      else if dry_run
      then ok (
        s,
        record {
          candidate = candidate;
          tombstone = some tombstone;
          dry_run = true;
          action = audit_tombstone_planned;
        },
      )
      else record_tombstone s now candidate tombstone (get s tombstone.tombstone_id)

  -- `execute`: the first number says how often the adapter was called; `failure` is the code of the
  -- error that the adapter raises, if it does. Each step commits before the next.
  unfoldable pub delete_bytes :
      State
      → ℕ
      → RetentionPlan
      → Tombstone
      → Option String
      → RetentionExecution
      → Outcome RetentionError (State × (ℕ × RetentionPlan))
  delete_bytes s now planned tombstone failure execution =
      if is_deleted execution.state
      then ok (s, (0, record planned { dry_run = false; action = retention_deleted }))
      else elim failure [
        | none ↦ mark_deleted db s now tombstone.tombstone_id >>= λ t.
            ok (t, (1, record planned { dry_run = false; action = retention_deleted }))
        | some code ↦ mark_failed db s tombstone.tombstone_id code >>= λ t.
            ok (t, (1, record planned { dry_run = false; action = retention_delete_failed }))
      ]

  unfoldable pub carry_out :
      State
      → ℕ
      → Bool
      → Option String
      → RetentionPlan
      → Option Tombstone
      → Outcome RetentionError (State × (ℕ × RetentionPlan))
  carry_out s now dry_run failure planned none = ok (s, (0, planned))
  carry_out s now dry_run failure planned (some tombstone) =
      if dry_run
      then ok (s, (0, planned))
      else (prepare_execution db s now tombstone >>= λ r.
          delete_bytes r.0 now planned tombstone failure r.1)

  unfoldable pub execute :
      RetentionPolicy
      → State
      → ℕ
      → Bool
      → Option String
      → RetentionCandidate
      → Outcome RetentionError (State × (ℕ × RetentionPlan))
  execute policy s now dry_run failure candidate = plan policy s now dry_run candidate >>= λ r.
      carry_out r.0 now dry_run failure r.1 r.1.tombstone
