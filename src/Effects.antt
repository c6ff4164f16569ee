-- ===== src/Effects.antt =====
-- Effects of a content task that are applied under its fence: src/stock_content/application/fenced_effects.py,
-- with the row of src/stock_content/adapters/postgres/models.py. Instants are UTC microseconds, as in
-- the queue. A payload is its JSON text; the two SHA-256 identities are parameters, and so is the
-- callback, which acts on the other tables of the session. The dispatcher of the stored intents and
-- the proofs are in the modules below.
pub mod Dispatch
pub mod Moves
pub mod Calls
pub mod Continues
pub mod Once
pub mod Fence
use stock_content.Prelude.{
  ℕ, ◌+◌, String, Bool, true, false, ◌&&◌, not, Option, none, some, if◌then◌else◌, is_some, ◌==◌,
  Outcome, ok, raised, ◌>>=◌, ◌>>◌, found, require,
}
use stock_content.Prelude.Table.{Table}
use stock_content.Queue.{ContentTask, holds}

pub data EffectState : Type 0 where
  pending dispatching completed dead_letter : EffectState

pub record EffectRow : Type 0 where
  pub effect_id : String
  pub task_id : String
  pub effect_key : String
  pub effect_kind : String
  pub payload_hash : String
  pub projection_payload : String
  pub fencing_token : ℕ
  pub state : EffectState
  pub attempt_count : ℕ
  pub dispatch_owner : Option String
  pub dispatch_expires_at : Option ℕ
  pub next_attempt_at : Option ℕ
  pub last_error_code : Option String
  pub completed_at : Option ℕ

pub record EffectIntent : Type 0 where
  pub effect_key : String
  pub effect_kind : String
  pub payload : String

pub data EffectError : Type 0 where
  stale_task_lease value_error runtime_error integrity_error : EffectError

abbrev pub is_completed : EffectState → Bool
is_completed completed = true
is_completed _ = false

-- the condition of the query in `_intent`
abbrev pub bound_to : String → String → EffectRow → Bool
bound_to task_id effect_key row = row.task_id == task_id && row.effect_key == effect_key

-- a completed effect keeps its token
unfoldable pub refresh : ℕ → EffectRow → EffectRow
refresh fencing_token row =
    if is_completed row.state then row else record row { fencing_token = fencing_token }

unfoldable pub complete : ℕ → EffectRow → EffectRow
complete now row = record row {
  state = completed;
  completed_at = some now;
  attempt_count = row.attempt_count + 1;
}

module _ (tasks : Table ContentTask) where
  -- `_require_current`, whose condition is that of the queue
  unfoldable pub require_current :
      tasks.State → ℕ → String → String → ℕ → Outcome EffectError (Unit {0})
  require_current t now task_id worker_id fencing_token = do
    row ← found (tasks.get t task_id) stale_task_lease
    require (holds now worker_id fencing_token row) stale_task_lease

module _ (effects : Table EffectRow) (effect_id_of : String → String → String)
    (hash_of : String → String) where
  abbrev pub new_effect : String → ℕ → EffectIntent → EffectRow
  new_effect task_id fencing_token intent = record {
    effect_id = effect_id_of task_id intent.effect_key;
    task_id = task_id;
    effect_key = intent.effect_key;
    effect_kind = intent.effect_kind;
    payload_hash = hash_of intent.payload;
    projection_payload = intent.payload;
    fencing_token = fencing_token;
    state = pending;
    attempt_count = 0;
    dispatch_owner = none;
    dispatch_expires_at = none;
    next_attempt_at = none;
    last_error_code = none;
    completed_at = none;
  }

  -- `row.effect_kind == intent.effect_kind and row.payload_hash == intent.payload_hash`
  abbrev pub same_intent : EffectRow → EffectIntent → Bool
  same_intent row intent =
      row.effect_kind == intent.effect_kind && row.payload_hash == hash_of intent.payload

  -- `_intent` of what its query returned: the state, the key of the row and the row
  unfoldable pub bind_intent :
      effects.State
      → String
      → ℕ
      → EffectIntent
      → Option (String × EffectRow)
      → Outcome EffectError (effects.State × (String × EffectRow))
  bind_intent e task_id fencing_token intent none =
      let id = effect_id_of task_id intent.effect_key in
      let row = new_effect task_id fencing_token intent in
      if is_some (effects.get e id)
      then raised integrity_error
      else ok (effects.put e id row, (id, row))
  bind_intent e task_id fencing_token intent (some (id, row)) =
      require (same_intent row intent) value_error
      >> ok (effects.put e id (refresh fencing_token row), (id, refresh fencing_token row))

  unfoldable pub intent_row :
      effects.State
      → String
      → ℕ
      → EffectIntent
      → Outcome EffectError (effects.State × (String × EffectRow))
  intent_row e task_id fencing_token intent =
      bind_intent e task_id fencing_token intent
        (effects.scalar (bound_to task_id intent.effect_key) e)

  module _ (tasks : Table ContentTask) where
    -- `prepare_external`
    unfoldable pub prepare_external :
        tasks.State
        → effects.State
        → ℕ
        → String
        → String
        → ℕ
        → EffectIntent
        → Outcome EffectError (effects.State × String)
    prepare_external t e now task_id worker_id fencing_token intent =
        require_current tasks t now task_id worker_id fencing_token
        >> (intent_row e task_id fencing_token intent >>= λ r. ok (r.0, r.1.0))

    -- the second transaction of `dispatch_external`: is the callback to be called?
    unfoldable pub check_external :
        tasks.State → effects.State → ℕ → String → String → ℕ → String → Outcome EffectError Bool
    check_external t e now task_id worker_id fencing_token effect_id =
        require_current tasks t now task_id worker_id fencing_token
        >> elim (effects.get e effect_id) [
          | none ↦ ok true
          | some row ↦ ok (not (is_completed row.state))
        ]

    -- the last transaction of `dispatch_external`, after the callback
    unfoldable pub finish_external :
        tasks.State
        → effects.State
        → ℕ
        → String
        → String
        → ℕ
        → String
        → Outcome EffectError effects.State
    finish_external t e now task_id worker_id fencing_token effect_id =
        require_current tasks t now task_id worker_id fencing_token
        >> (found (effects.get e effect_id) runtime_error >>= λ row.
            ok (effects.put e effect_id (complete now row)))

    module _ {W A : Type 0} where
      -- `execute_sql` after the intent is bound
      unfoldable pub apply_once :
          ℕ
          → W
          → (W → Outcome EffectError (W × A))
          → effects.State × (String × EffectRow)
          → Outcome EffectError (effects.State × (W × Option A))
      apply_once now w callback (e, (id, row)) =
          if is_completed row.state
          then ok (e, (w, none))
          else (callback w >>= λ r. ok (effects.put e id (complete now row), (r.0, some r.1)))

      unfoldable pub execute_sql :
          tasks.State
          → effects.State
          → W
          → ℕ
          → String
          → String
          → ℕ
          → EffectIntent
          → (W → Outcome EffectError (W × A))
          → Outcome EffectError (effects.State × (W × Option A))
      execute_sql t e w now task_id worker_id fencing_token intent callback =
          require_current tasks t now task_id worker_id fencing_token
          >> (intent_row e task_id fencing_token intent >>= λ r. apply_once now w callback r)
