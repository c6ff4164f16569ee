-- ===== src/Examples/TaskRun.antt =====
-- A task run that is acquired, taken over, invalidated and finished, in memory and in SQL.
use stock_content.Prelude.{◌≡◌, refl, some, [], ◌∷◌, arith, raised}
use stock_content.Prelude.Table.{Table, assoc_table}
use stock_content.TaskRun.{
  running, paused, invalidated, lease_error, Checkpoint, TaskRun, create, acquire_lease,
  require_lease, renews, apply,
}
use stock_content.TaskRun.Lease.{run, acquire_fences}
use stock_content.TaskRun.Repository.{BackgroundTaskRunRow}
use stock_content.TaskRun.Repository.Agrees
use stock_content.TaskRun.Repository.Agrees.{Same, serve, Agree, repository_agrees}

abbrev held : TaskRun
held = record (unfold create in create "rebuild" "r") {
  state = running;
  owner = some "a";
  lease_expires_at = some 100;
  fencing_token = 1;
}

abbrev taken : TaskRun
taken = record held {
  owner = some "b";
  lease_expires_at = some 210;
  fencing_token = 2;
  audit =
      record {
        action = "lease_acquired";
        at = 150;
        actor = "b";
        detail = "";
        fencing_token = some 2;
      }
      ∷ [];
}

acquire_fences_example :
    require_lease "a" 1 160 (run taken (renews "b" 2 155 60 ∷ [])) ≡ raised lease_error
unfolding acquire_lease create
acquire_fences_example =
    acquire_fences "b" 150 60 held taken (renews "b" 2 155 60 ∷ []) "a" 1 160 refl (omega arith)

abbrev held_paused : TaskRun
held_paused = record held { state = paused }

abbrev cancelled : TaskRun
cancelled = record held_paused {
  state = invalidated;
  audit =
      record {
        action = "state_changed";
        at = 50;
        actor = "a";
        detail = "INVALIDATED";
        fencing_token = some 1;
      }
      ∷ [];
}

abbrev note : Checkpoint
note = record { name = "page"; payload = "7"; recorded_at = 60 }

abbrev db : Table BackgroundTaskRunRow
db = assoc_table BackgroundTaskRunRow

abbrev row : BackgroundTaskRunRow
row = record {
  task_run_id = "r";
  task_type = "rebuild";
  state = running;
  owner = some "a";
  lease_expires_at = some 100;
  fencing_token = 1;
  attempt = 0;
  checkpoints = [];
  updated_at = 0;
}

row-Same : Same row held
unfolding create
row-Same = ground arith

repository_agrees_example :
    Agree db "r"
      (serve db (("r", row) ∷ []) "r" (Agrees.Request.checkpoint "a" 1 note 50))
      (apply (Agrees.operation (Agrees.Request.checkpoint "a" 1 note 50)) held)
repository_agrees_example =
    repository_agrees db (("r", row) ∷ []) "r" (Agrees.Request.checkpoint "a" 1 note 50) row held
      refl row-Same
