-- ===== src/Examples/Retention.antt =====
-- An expired artifact whose bytes are deleted.
use stock_content.Prelude.{inl, true, ok, ◌≡◌, refl, String, false, none, some, [], ◌∷◌}
use stock_content.Prelude.Table.{Table, assoc_table}
use stock_content.Retention.{
  raw_media, RetentionPolicy, RetentionCandidate, Tombstone, deleted, RetentionExecution,
  RetentionPlan, retention_deleted, expires_at, finish, prepare_execution, mark_deleted,
}
use stock_content.Retention.Service.{
  for_candidate, record_tombstone, plan, delete_bytes, carry_out, execute,
}
use stock_content.Retention.Deletion.{execute-Spares, deleted_is_final}

abbrev db : Table RetentionExecution
db = assoc_table RetentionExecution

abbrev weekly : RetentionPolicy
weekly = record { days = λ c. 7 }

abbrev clip : RetentionCandidate
clip = record {
  artifact_id = "clip";
  artifact_class = raw_media;
  content_hash = "h";
  source_identity_hash = "s";
  audit_lineage_id = "l";
  created_at = 0;
  legal_hold = false;
}

abbrev stone_id : RetentionCandidate → String
stone_id candidate = "ts"

abbrev stone : Tombstone
stone = record {
  tombstone_id = "ts";
  artifact_id = "clip";
  artifact_class = raw_media;
  content_hash = "h";
  source_identity_hash = "s";
  audit_lineage_id = "l";
  reason = "RETENTION_EXPIRED";
  expired_at = 604800;
  recorded_at = 700000;
}

abbrev gone : RetentionExecution
gone = record {
  tombstone = stone;
  state = deleted;
  attempt_count = 1;
  last_error_code = none;
  finalized_at = some 700000;
}

abbrev done_plan : RetentionPlan
done_plan = record {
  candidate = clip;
  tombstone = some stone;
  dry_run = false;
  action = retention_deleted;
}

-- the retention of `clip` has expired, but it is under a legal hold
execute-Spares_example :
    (planned : RetentionPlan) × (execute db stone_id weekly [] 700000 false none
        (record clip { legal_hold = true })
      ≡ ok ([], (0, planned)))
execute-Spares_example =
    execute-Spares db stone_id weekly [] 700000 false none (record clip { legal_hold = true })
      (inl refl)

deleted_is_final_example : db.get (("ts", gone) ∷ []) "ts" ≡ some gone
unfolding execute plan record_tombstone prepare_execution carry_out delete_bytes mark_deleted finish
    for_candidate expires_at
deleted_is_final_example =
    deleted_is_final db stone_id "ts" gone refl weekly (("ts", gone) ∷ []) (("ts", gone) ∷ [])
      800000 false none clip 0 done_plan refl refl
