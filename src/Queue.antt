-- ===== src/Queue.antt =====
-- The content task queue: src/stock_content/adapters/postgres/repositories/content_task_repository.py,
-- with the row of src/stock_content/domain/models.py and the lease it is fenced by. Instants are
-- UTC microseconds; `datetime.now(UTC)` is the argument `now`. Payloads that the code only stores
-- stand as their JSON text. The proofs are in the modules below.
pub mod Moves
pub mod Fence
pub mod Invariant
pub mod Create
use stock_content.Prelude.{
  ℕ, ◌+◌, String, Bool, true, false, ◌&&◌, ◌||◌, Option, none, some, List, [], ◌∷◌, min, ltb, leb,
  nat_eq, if◌then◌else◌, owned_by, opt_eq, filled, is_some, ◌==◌, Outcome, ok, raised, ◌>>=◌, ◌>>◌,
  found, require,
}
use stock_content.Prelude.Table.{Table}
use stock_content.Prelude.Text.{ℤ, pos, negsuc, prefix, dict_set}

pub data Status : Type 0 where
  pending running succeeded failed : Status

pub record ContentTask : Type 0 where
  pub task_id : String
  pub source_type : String
  pub source_ref : String
  pub status : Status
  pub stage : String
  pub progress : ℕ
  pub retry_count : ℕ
  pub max_retries : ℕ
  pub error : Option String
  pub options : String
  pub result : String
  pub checkpoint : List (String × String)
  pub input_hash : Option String
  pub idempotency_key : Option String
  pub request_hash : Option String
  pub task_kind : String
  pub source_platform : String
  pub canonical_source_ref : Option String
  pub credential_ref_hash : Option String
  pub locator_secret_hash : Option String
  pub source_identity_hash : String
  pub trace_id : Option String
  pub lease_owner : Option String
  pub lease_expires_at : Option ℕ
  pub fencing_token : ℕ

pub data QueueError : Type 0 where
  stale_task_lease idempotency_conflict integrity_error : QueueError

abbrev pub is_running : Status → Bool
is_running running = true
is_running _ = false

abbrev pub is_pending : Status → Bool
is_pending pending = true
is_pending _ = false

-- `lease_expires_at is not None and expires_at > now`
abbrev pub live : Option ℕ → ℕ → Bool
live none now = false
live (some t) now = ltb now t

-- `lease_expires_at < now` of SQL, where NULL passes no comparison
abbrev pub lapsed : Option ℕ → ℕ → Bool
lapsed none now = false
lapsed (some t) now = ltb t now

-- the condition of `_fenced_row`, negated
unfoldable pub holds : ℕ → String → ℕ → ContentTask → Bool
holds now worker_id fencing_token row =
    is_running row.status
    && owned_by row.lease_owner worker_id
    && nat_eq row.fencing_token fencing_token
    && live row.lease_expires_at now

-- the filter of `claim_pending`
unfoldable pub claimable : ℕ → String → ContentTask → Bool
claimable now task_kind row =
    ltb row.retry_count row.max_retries
    && row.task_kind == task_kind
    && (is_pending row.status || is_running row.status && lapsed row.lease_expires_at now)

unfoldable pub lease_to : ℕ → String → ℕ → ContentTask → ContentTask
lease_to now worker_id lease_seconds row = record row {
  status = running;
  lease_owner = some worker_id;
  lease_expires_at = some (now + lease_seconds);
  fencing_token = row.fencing_token + 1;
}

-- `max(0, min(progress, 100))`
abbrev pub clamp_progress : ℤ → ℕ
clamp_progress (pos n) = min n 100
clamp_progress (negsuc n) = 0

-- What a worker writes to the row that it holds. A lease is given in microseconds.
pub data Write : Type 0 where
  renew_lease : ℕ → Write
  update_progress : String → ℤ → Write
  checkpoint : String → String → Option ℤ → Write
  commit_effect : String → Write
  fail : String → String → Write

abbrev pub progress_or : Option ℤ → ℕ → ℕ
progress_or none n = n
progress_or (some p) n = clamp_progress p

unfoldable pub apply_write : (ℕ → String) → ℕ → Write → ContentTask → ContentTask
apply_write isoformat now (renew_lease lease_seconds) row = record row {
  lease_expires_at = some (now + lease_seconds);
}
apply_write isoformat now (update_progress stage progress) row = record row {
  stage = stage;
  progress = clamp_progress progress;
}
apply_write isoformat now (checkpoint stage payload progress) row = record row {
  stage = stage;
  checkpoint = dict_set row.checkpoint stage payload;
  progress = progress_or progress row.progress;
}
apply_write isoformat now (commit_effect result) row = record row {
  status = succeeded;
  stage = "completed";
  progress = 100;
  result = result;
  checkpoint = dict_set row.checkpoint "completed" (isoformat now);
  error = none;
  lease_owner = none;
  lease_expires_at = none;
}
apply_write isoformat now (fail stage error) row = record row {
  retry_count = row.retry_count + 1;
  status = if leb row.max_retries (row.retry_count + 1) then failed else pending;
  stage = stage;
  error = some (prefix 4000 error);
  lease_owner = none;
  lease_expires_at = none;
}

-- The terminal writes of local replay records, which are never queued.
pub data Unleased : Type 0 where
  succeed_unleased : String → Unleased
  fail_unleased : String → String → Unleased

pub apply_unleased : Unleased → ContentTask → ContentTask
apply_unleased (succeed_unleased result) row = record row {
  status = succeeded;
  stage = "completed";
  progress = 100;
  result = result;
  error = none;
}
apply_unleased (fail_unleased stage error) row = record row {
  status = failed;
  stage = stage;
  error = some (prefix 4000 error);
}

-- `redact_for_serialization` of src/stock_content/domain/security_redaction.py, which rests on
-- regular expressions: what it makes of a text, of a JSON payload and of a dictionary.
pub record Redaction : Type 0 where
  pub redact_text : String → String
  pub redact_json : String → String
  pub redact_dict : List (String × String) → List (String × String)

abbrev pub redact_option : (String → String) → Option String → Option String
redact_option f none = none
redact_option f (some s) = some (f s)

-- `ContentTask.to_dict`: each text is redacted, and the key `locator_secret_hash` matches the
-- pattern of sensitive keys, so its value is replaced whatever it is.
unfoldable pub to_dict : Redaction → ContentTask → ContentTask
to_dict redaction task = record task {
  task_id = redact_text task.task_id;
  source_type = redact_text task.source_type;
  source_ref = redact_text task.source_ref;
  stage = redact_text task.stage;
  error = redact_option redact_text task.error;
  options = redact_json task.options;
  result = redact_json task.result;
  checkpoint = redact_dict task.checkpoint;
  input_hash = redact_option redact_text task.input_hash;
  idempotency_key = redact_option redact_text task.idempotency_key;
  request_hash = redact_option redact_text task.request_hash;
  task_kind = redact_text task.task_kind;
  source_platform = redact_text task.source_platform;
  canonical_source_ref = redact_option redact_text task.canonical_source_ref;
  credential_ref_hash = redact_option redact_text task.credential_ref_hash;
  locator_secret_hash = some "<redacted>";
  source_identity_hash = redact_text task.source_identity_hash;
  trace_id = redact_option redact_text task.trace_id;
  lease_owner = redact_option redact_text task.lease_owner;
}
  where
    open redaction use {redact_text, redact_json, redact_dict}

-- `idempotency_key == key` of SQL
abbrev pub keyed : String → ContentTask → Bool
keyed key row = owned_by row.idempotency_key key

module _ (db : Table ContentTask) where
  open db use {State, get, put, scalar, select}

  -- `_fenced_row`
  pub fenced_row : State → ℕ → String → String → ℕ → Outcome QueueError ContentTask
  fenced_row s now task_id worker_id fencing_token = do
    row ← found (get s task_id) stale_task_lease
    require (holds now worker_id fencing_token row) stale_task_lease
    ok row

  -- `renew_lease`, `update_progress`, `checkpoint`, `commit_effect` and `fail`; a refused write
  -- rolls back.
  pub write : (ℕ → String) → State → ℕ → String → String → ℕ → Write → Outcome QueueError State
  write isoformat s now task_id worker_id fencing_token w = do
    row ← fenced_row s now task_id worker_id fencing_token
    ok (put s task_id (apply_write isoformat now w row))

  unfoldable pub claim_first :
      State → ℕ → String → ℕ → List (String × ContentTask) → State × Option ContentTask
  claim_first s now worker_id lease_seconds [] = (s, none)
  claim_first s now worker_id lease_seconds ((task_id, row) ∷ _) =
      let row' = lease_to now worker_id lease_seconds row in (put s task_id row', some row')

  unfoldable pub claim_pending : State → ℕ → String → String → ℕ → State × Option ContentTask
  claim_pending s now worker_id task_kind lease_seconds =
      if task_kind == "legacy_unresolved"
      then (s, none)
      else claim_first s now worker_id lease_seconds (select (claimable now task_kind) 1 s)

  -- `succeed_unleased` and `fail_unleased`
  pub write_unleased : State → String → Unleased → Outcome QueueError State
  write_unleased s task_id w = do
    row ← found (get s task_id) stale_task_lease
    require (row.task_kind == "replay" && is_running row.status) stale_task_lease
    ok (put s task_id (apply_unleased w row))

  -- `idempotency_key` is unique where it is not NULL.
  unfoldable pub key_taken : State → Option String → Bool
  key_taken s none = false
  key_taken s (some key) = is_some (scalar (keyed key) s)

  -- the unique constraints of the table
  unfoldable pub violates : State → ContentTask → Bool
  unfolding key_taken
  violates s row = is_some (get s row.task_id) || key_taken s row.idempotency_key

  -- the query by idempotency key, where `task.idempotency_key` is not empty
  unfoldable pub keyed_row : State → Option String → Option (String × ContentTask)
  keyed_row s none = none
  keyed_row s (some key) = if filled key then scalar (keyed key) s else none

  -- `_reserve_existing` of the row that the query returned, or the error where it returned none
  pub reserve :
      State → Option (String × ContentTask) → ContentTask → Outcome QueueError (State × ContentTask)
  reserve s none task = raised integrity_error
  reserve s (some (_, existing)) task =
      if opt_eq existing.request_hash task.request_hash
      then ok (s, existing)
      else raised idempotency_conflict

  -- the insert, and what follows an `IntegrityError`
  pub insert_or_reserve : Redaction → State → ContentTask → Outcome QueueError (State × ContentTask)
  insert_or_reserve redaction s task =
      if violates s (to_dict redaction task)
      then reserve s (keyed_row s task.idempotency_key) task
      else ok (put s (to_dict redaction task).task_id (to_dict redaction task), task)

  -- `create`. The first query reads `s`; other transactions may commit before the insert, which
  -- meets `t`.
  pub create : Redaction → State → State → ContentTask → Outcome QueueError (State × ContentTask)
  create redaction s t task = elim (keyed_row s task.idempotency_key) [
    | none ↦ insert_or_reserve redaction t task
    | some row ↦ reserve t (some row) task
  ]
