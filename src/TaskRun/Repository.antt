-- ===== src/TaskRun/Repository.antt =====
-- Task runs in SQL: src/stock_content/adapters/postgres/repositories/task_run_repository.py. A row
-- keeps no audit trail, and keeps checkpoints as a dictionary by name.
pub mod Agrees
use mathlib.Core.List.{foldl}
use stock_content.Prelude.{
  ℕ, String, Bool, true, false, Option, none, some, List, [], ◌∷◌, map, nat_eq, is_some,
  if◌then◌else◌, Outcome, ok, raised, ◌>>=◌, ◌>>◌, found, require,
}
use stock_content.Prelude.Table.{Table}
use stock_content.Prelude.Text.{dict_set}
use stock_content.TaskRun.{
  TaskRunState, OperatorAction, TaskError, key_error, value_error, Checkpoint, TaskRun,
  acquire_lease, renew_lease, save_checkpoint, transition, operator_action,
}

pub record BackgroundTaskRunRow : Type 0 where
  pub task_run_id : String
  pub task_type : String
  pub state : TaskRunState
  pub owner : Option String
  pub lease_expires_at : Option ℕ
  pub fencing_token : ℕ
  pub attempt : ℕ
  pub checkpoints : List (String × String)
  pub updated_at : ℕ

-- `Checkpoint(name, dict(value or {}))`, stamped with the time of the read
abbrev pub as_checkpoint : ℕ → String × String → Checkpoint
as_checkpoint now (name, payload) = record { name = name; payload = payload; recorded_at = now }

-- `_domain`
unfoldable pub domain : ℕ → BackgroundTaskRunRow → TaskRun
domain now row = record {
  task_run_id = row.task_run_id;
  task_type = row.task_type;
  state = row.state;
  owner = row.owner;
  lease_expires_at = row.lease_expires_at;
  fencing_token = row.fencing_token;
  checkpoints = map (as_checkpoint now) row.checkpoints;
  audit = [];
  attempt = row.attempt;
}

abbrev pub add_item : List (String × String) → Checkpoint → List (String × String)
add_item d c = dict_set d c.name c.payload

-- `{item.name: item.payload for item in checkpoints}`
abbrev pub as_dict : List Checkpoint → List (String × String)
as_dict = foldl add_item []

module _ (db : Table BackgroundTaskRunRow) where
  open db use {State, get, put}

  unfoldable pub create : State → ℕ → TaskRun → State × TaskRun
  create s now task = (
    if is_some (get s task.task_run_id)
        then s
        else put s task.task_run_id (record {
          task_run_id = task.task_run_id;
          task_type = task.task_type;
          state = task.state;
          owner = none;
          lease_expires_at = none;
          fencing_token = task.fencing_token;
          attempt = task.attempt;
          checkpoints = [];
          updated_at = now;
        }),
    task,
  )

  -- `put`: persists a transition made elsewhere, if the token is still the row's
  unfoldable pub put_task : State → TaskRun → Outcome TaskError State
  put_task s task = do
    row ← found (get s task.task_run_id) key_error
    require (nat_eq row.fencing_token task.fencing_token) value_error
    ok (
        put s task.task_run_id (record row {
          state = task.state;
          owner = task.owner;
          lease_expires_at = task.lease_expires_at;
          attempt = task.attempt;
          checkpoints = as_dict task.checkpoints;
        }))

  unfoldable pub acquire : State → String → String → ℕ → ℕ → Outcome TaskError (State × TaskRun)
  unfolding domain acquire_lease
  acquire s id owner now ttl = do
    row ← found (get s id) key_error
    task ← acquire_lease owner now ttl (domain now row)
    ok (
      put s id (record row {
        state = task.state;
        owner = task.owner;
        lease_expires_at = task.lease_expires_at;
        fencing_token = task.fencing_token;
        updated_at = now;
      }),
      task,
    )

  unfoldable pub save :
      State → String → String → ℕ → Checkpoint → ℕ → Outcome TaskError (State × TaskRun)
  unfolding domain save_checkpoint
  save s id owner fencing_token checkpoint now = do
    row ← found (get s id) key_error
    task ← save_checkpoint owner fencing_token checkpoint now (domain now row)
    ok (put s id (record row { checkpoints = as_dict task.checkpoints; updated_at = now }), task)

  unfoldable pub renew : State → String → String → ℕ → ℕ → ℕ → Outcome TaskError (State × TaskRun)
  unfolding domain renew_lease
  renew s id owner fencing_token now ttl = do
    row ← found (get s id) key_error
    task ← renew_lease owner fencing_token now ttl (domain now row)
    ok (put s id (record row { lease_expires_at = task.lease_expires_at; updated_at = now }), task)

  unfoldable pub change :
      State → String → TaskRunState → String → ℕ → ℕ → Outcome TaskError (State × TaskRun)
  unfolding domain transition
  change s id target owner fencing_token now = do
    row ← found (get s id) key_error
    task ← transition target owner fencing_token now (domain now row)
    ok (
      put s id (record row {
        state = task.state;
        owner = task.owner;
        lease_expires_at = task.lease_expires_at;
        attempt = task.attempt;
        updated_at = now;
      }),
      task,
    )

  -- `operator_action`, less the row that it adds to the operators' own audit table
  unfoldable pub operate :
      State → String → OperatorAction → String → ℕ → Outcome TaskError (State × TaskRun)
  unfolding domain operator_action
  operate s id action actor now = do
    row ← found (get s id) key_error
    let task = operator_action action actor now (domain now row)
    ok (
      put s id (record row {
        state = task.state;
        owner = task.owner;
        lease_expires_at = task.lease_expires_at;
        attempt = task.attempt;
      }),
      task,
    )
