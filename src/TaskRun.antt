-- ===== src/TaskRun.antt =====
-- Long-running operator tasks: src/stock_content/domain/task_run.py. A frozen dataclass is a record,
-- and each method returns the new one. Instants and spans are UTC microseconds; the argument `now` is
-- always given. The proofs are in the modules below.
pub mod Lease
pub mod Graph
pub mod Repository
use stock_content.Prelude.{
  ℕ, ◌+◌, String, Bool, true, false, ◌&&◌, ◌||◌, not, Option, none, some, List, [], ◌∷◌, ◌++◌, ltb,
  leb, nat_eq, if◌then◌else◌, owned_by, filled, Outcome, ok, raised, ◌>>=◌, ◌>>◌, require,
}

pub data TaskRunState : Type 0 where
  pending running paused retrying succeeded failed invalidated : TaskRunState

pub data OperatorAction : Type 0 where
  pause resume retry invalidate rebuild : OperatorAction

pub data TaskError : Type 0 where
  lease_error value_error key_error : TaskError

pub record Checkpoint : Type 0 where
  pub name : String
  pub payload : String
  pub recorded_at : ℕ

pub record TaskAudit : Type 0 where
  pub action : String
  pub at : ℕ
  pub actor : String
  pub detail : String
  pub fencing_token : Option ℕ

pub record TaskRun : Type 0 where
  pub task_run_id : String
  pub task_type : String
  pub state : TaskRunState
  pub owner : Option String
  pub lease_expires_at : Option ℕ
  pub fencing_token : ℕ
  pub checkpoints : List Checkpoint
  pub audit : List TaskAudit
  pub attempt : ℕ

-- `create`, with the identifier that the caller gives or `uuid4` makes
unfoldable pub create : String → String → TaskRun
create task_type task_run_id = record {
  task_run_id = task_run_id;
  task_type = task_type;
  state = pending;
  owner = none;
  lease_expires_at = none;
  fencing_token = 0;
  checkpoints = [];
  audit = [];
  attempt = 0;
}

-- `_audit`
abbrev pub add_audit : String → String → String → Option ℕ → ℕ → TaskRun → TaskRun
add_audit action actor detail token now t = record t {
  audit =
      t.audit
      ++ record { action = action; at = now; actor = actor; detail = detail; fencing_token = token }
        ∷ [];
}

abbrev pub is_closed : TaskRunState → Bool
is_closed succeeded = true
is_closed invalidated = true
is_closed _ = false

-- `expires is not None and expires > now`
abbrev pub live : Option ℕ → ℕ → Bool
live none now = false
live (some t) now = ltb now t

-- `self.owner and self.owner != owner`
abbrev pub other_owner : Option String → String → Bool
other_owner none w = false
other_owner (some o) w = filled o && not (owned_by (some o) w)

unfoldable pub acquire_lease : String → ℕ → ℕ → TaskRun → Outcome TaskError TaskRun
acquire_lease owner now ttl t = do
  require (not (is_closed t.state)) lease_error
  require (not (other_owner t.owner owner && live t.lease_expires_at now)) lease_error
  ok (
      add_audit "lease_acquired" owner "" (some (t.fencing_token + 1)) now (record t {
        state = running;
        owner = some owner;
        lease_expires_at = some (now + ttl);
        fencing_token = t.fencing_token + 1;
      }))

unfoldable pub require_lease : String → ℕ → ℕ → TaskRun → Outcome TaskError (Unit {0})
require_lease owner fencing_token now t = do
  require (owned_by t.owner owner && nat_eq t.fencing_token fencing_token) lease_error
  require (live t.lease_expires_at now) lease_error

unfoldable pub renew_lease : String → ℕ → ℕ → ℕ → TaskRun → Outcome TaskError TaskRun
unfolding require_lease
renew_lease owner fencing_token now ttl t = do
  require_lease owner fencing_token now t
  ok (
      add_audit "lease_renewed" owner "" (some fencing_token) now
        (record t { lease_expires_at = some (now + ttl) }))

unfoldable pub release_lease : String → ℕ → ℕ → TaskRun → Outcome TaskError TaskRun
unfolding require_lease
release_lease owner fencing_token now t = do
  require_lease owner fencing_token now t
  ok (
      add_audit "lease_released" owner "" (some fencing_token) now
        (record t { owner = none; lease_expires_at = none }))

unfoldable pub save_checkpoint : String → ℕ → Checkpoint → ℕ → TaskRun → Outcome TaskError TaskRun
unfolding require_lease
save_checkpoint owner fencing_token checkpoint now t = do
  require_lease owner fencing_token now t
  ok (
      add_audit "checkpoint" owner checkpoint.name (some fencing_token) now
        (record t { checkpoints = t.checkpoints ++ checkpoint ∷ [] }))

-- the table `allowed` of `transition`
unfoldable pub allowed : TaskRunState → TaskRunState → Bool
allowed running succeeded = true
allowed running failed = true
allowed running paused = true
allowed running retrying = true
allowed retrying running = true
allowed retrying failed = true
allowed paused running = true
allowed paused invalidated = true
allowed _ _ = false

abbrev pub value : TaskRunState → String
value pending = "PENDING"
value running = "RUNNING"
value paused = "PAUSED"
value retrying = "RETRYING"
value succeeded = "SUCCEEDED"
value failed = "FAILED"
value invalidated = "INVALIDATED"

abbrev pub is_released : TaskRunState → Bool
is_released succeeded = true
is_released failed = true
is_released _ = false

abbrev pub is_retrying : TaskRunState → Bool
is_retrying retrying = true
is_retrying _ = false

unfoldable pub transition : TaskRunState → String → ℕ → ℕ → TaskRun → Outcome TaskError TaskRun
unfolding require_lease allowed
transition target owner fencing_token now t = do
  require_lease owner fencing_token now t
  require (allowed t.state target) value_error
  ok (
      add_audit "state_changed" owner (value target) (some fencing_token) now (record t {
        state = target;
        owner = if is_released target then none else t.owner;
        lease_expires_at = if is_released target then none else t.lease_expires_at;
        attempt = t.attempt + (if is_retrying target then 1 else 0);
      }))

unfoldable pub operator_action : OperatorAction → String → ℕ → TaskRun → TaskRun
operator_action invalidate actor now t =
    add_audit "invalidate" actor "" none now
      (record t { state = invalidated; owner = none; lease_expires_at = none })
operator_action rebuild actor now t =
    add_audit "rebuild" actor "" none now (record t {
      state = retrying;
      owner = none;
      lease_expires_at = none;
      attempt = t.attempt + 1;
    })
operator_action pause actor now t =
    add_audit "pause" actor "" none now (record t { state = paused })
operator_action resume actor now t =
    add_audit "resume" actor "" none now (record t { state = running })
operator_action retry actor now t =
    add_audit "retry" actor "" none now (record t { state = retrying })

-- Any call of a method that returns a new task.
pub data Operation : Type 0 where
  acquires : String → ℕ → ℕ → Operation
  renews : String → ℕ → ℕ → ℕ → Operation
  releases : String → ℕ → ℕ → Operation
  checkpoints : String → ℕ → Checkpoint → ℕ → Operation
  transitions : TaskRunState → String → ℕ → ℕ → Operation
  operates : OperatorAction → String → ℕ → Operation

unfoldable pub apply : Operation → TaskRun → Outcome TaskError TaskRun
apply (acquires owner now ttl) t = acquire_lease owner now ttl t
apply (renews owner token now ttl) t = renew_lease owner token now ttl t
apply (releases owner token now) t = release_lease owner token now t
apply (checkpoints owner token c now) t = save_checkpoint owner token c now t
apply (transitions target owner token now) t = transition target owner token now t
apply (operates action actor now) t = ok (operator_action action actor now t)
