-- ===== src/Outbox.antt =====
-- The signal outbox: src/stock_content/adapters/postgres/repositories/signal_outbox_repository.py.
-- Instants are UTC seconds. The hash behind `outbox_id_of` is a parameter. The proofs are in the
-- modules below.
pub mod Moves
pub mod Delivery
pub mod Enqueue
use mathlib.Core.List.{foldl}
use stock_content.Prelude.{
  ℕ, ◌+◌, ◌-◌, zero, suc, String, Bool, true, false, ◌&&◌, ◌||◌, not, Option, none, some, List, [],
  ◌∷◌, ltb, leb, if◌then◌else◌, owned_by, opt_eq, filled, is_some, or_else, ◌==◌, Outcome, ok,
  raised, ◌>>=◌, ◌>>◌, found, require,
}
use stock_content.Prelude.Table.{Table}
use stock_content.Prelude.Batch.{put_all, map_rows}

pub data OutboxStatus : Type 0 where
  pending publishing retry published dead_letter : OutboxStatus

-- The keys that the repository reads of a payload, and the rest of it as text.
pub record Payload : Type 0 where
  pub signal_id : Option String
  pub content_snapshot_id : Option String
  pub claim_id : Option String
  pub signal_schema_version : Option String
  pub rest : String

pub record SignalOutboxRow : Type 0 where
  pub outbox_id : String
  pub signal_id : String
  pub content_snapshot_id : Option String
  pub claim_id : Option String
  pub schema_version : String
  pub payload : Payload
  pub status : OutboxStatus
  pub attempts : ℕ
  pub next_attempt_at : Option ℕ
  pub lease_owner : Option String
  pub lease_expires_at : Option ℕ
  pub published_at : Option ℕ
  pub last_error : Option String
  pub created_at : ℕ

pub data OutboxError : Type 0 where
  value_error key_error runtime_error integrity_error signal_outbox_integrity_error index_error :
      OutboxError

-- `OUTBOX_RETRY_SECONDS`
abbrev pub retry_seconds : List ℕ
retry_seconds = 60 ∷ 300 ∷ 1800 ∷ 7200 ∷ 43200 ∷ []

-- `values[i]` where the code never gives a negative index
abbrev pub at_index : List ℕ → ℕ → Option ℕ
at_index [] i = none
at_index (x ∷ xs) zero = some x
at_index (x ∷ xs) (suc i) = at_index xs i

abbrev pub same_payload : Payload → Payload → Bool
same_payload a b =
    opt_eq a.signal_id b.signal_id
    && opt_eq a.content_snapshot_id b.content_snapshot_id
    && opt_eq a.claim_id b.claim_id
    && opt_eq a.signal_schema_version b.signal_schema_version
    && a.rest == b.rest

-- `str(payload.get("signal_id") or "")`
abbrev pub id_of : Payload → String
id_of payload = or_else payload.signal_id ""

-- `value or default` of an optional text
abbrev pub text_or : Option String → String → String
text_or none d = d
text_or (some s) d = if filled s then s else d

abbrev pub unexpired : Option ℕ → ℕ → Bool
unexpired none now = true
unexpired (some t) now = ltb now t

-- `column IS NULL OR column <= now`
abbrev pub reached : Option ℕ → ℕ → Bool
reached none now = true
reached (some t) now = leb t now

abbrev pub is_publishing : OutboxStatus → Bool
is_publishing publishing = true
is_publishing _ = false

abbrev pub is_open : OutboxStatus → Bool
is_open pending = true
is_open retry = true
is_open publishing = true
is_open _ = false

-- the filter of `claim_due`
unfoldable pub due : ℕ → SignalOutboxRow → Bool
due now row =
    is_open row.status && reached row.next_attempt_at now && reached row.lease_expires_at now

unfoldable pub lease_to : ℕ → String → ℕ → SignalOutboxRow → SignalOutboxRow
lease_to now worker_id lease_seconds row = record row {
  status = publishing;
  lease_owner = some worker_id;
  lease_expires_at = some (now + lease_seconds);
}

-- `_assert_owner` of a row that is there
unfoldable pub assert_owner : ℕ → String → SignalOutboxRow → Outcome OutboxError (Unit {0})
assert_owner now worker_id row = do
  require (is_publishing row.status && owned_by row.lease_owner worker_id)
      signal_outbox_integrity_error
  require (unexpired row.lease_expires_at now) signal_outbox_integrity_error

unfoldable pub publish : ℕ → SignalOutboxRow → SignalOutboxRow
publish now row = record row {
  status = published;
  published_at = some now;
  lease_owner = none;
  lease_expires_at = none;
  next_attempt_at = none;
}

abbrev pub released : String → SignalOutboxRow → SignalOutboxRow
released error row = record row {
  attempts = row.attempts + 1;
  last_error = some error;
  lease_owner = none;
  lease_expires_at = none;
}

-- `mark_retry` after the owner is checked
unfoldable pub reschedule : ℕ → String → SignalOutboxRow → Outcome OutboxError SignalOutboxRow
reschedule now error row =
    if ltb 5 (row.attempts + 1)
    then ok (record (released error row) { status = dead_letter; next_attempt_at = none })
    else (do
      delay ← found (at_index retry_seconds row.attempts) index_error
      ok (record (released error row) { status = retry; next_attempt_at = some (now + delay) }))

-- the values of the insert
unfoldable pub new_row : (String → String) → ℕ → Payload → SignalOutboxRow
new_row outbox_id_of now payload = record {
  outbox_id = outbox_id_of (id_of payload);
  signal_id = id_of payload;
  content_snapshot_id = payload.content_snapshot_id;
  claim_id = payload.claim_id;
  schema_version = text_or payload.signal_schema_version "content-factor-signal.v4";
  payload = payload;
  status = pending;
  attempts = 0;
  next_attempt_at = some now;
  lease_owner = none;
  lease_expires_at = none;
  published_at = none;
  last_error = none;
  created_at = now;
}

abbrev pub has_signal : String → SignalOutboxRow → Bool
has_signal signal_id row = row.signal_id == signal_id

module _ (db : Table SignalOutboxRow) (outbox_id_of : String → String) where
  open db use {State, get, put, scalar, select}

  -- `_insert_ignore` with the unique column `signal_id`; a clash of the primary key alone raises
  unfoldable pub insert_ignore : State → SignalOutboxRow → Outcome OutboxError State
  insert_ignore s row =
      if is_some (scalar (has_signal row.signal_id) s)
      then ok s
      else if is_some (get s row.outbox_id)
      then raised integrity_error
      else ok (put s row.outbox_id row)

  -- the read after the insert
  unfoldable pub stored_signal :
      State
      → Payload
      → Option (String × SignalOutboxRow)
      → Outcome OutboxError (State × SignalOutboxRow)
  stored_signal s payload none = raised runtime_error
  stored_signal s payload (some (_, row)) =
      if same_payload row.payload payload then ok (s, row) else raised signal_outbox_integrity_error

  -- `enqueue`, `enqueue_in_session`
  unfoldable pub enqueue : State → ℕ → Payload → Outcome OutboxError (State × SignalOutboxRow)
  enqueue s now payload = do
    require (filled (id_of payload)) value_error
    t ← insert_ignore s (new_row outbox_id_of now payload)
    stored_signal t payload (scalar (has_signal (id_of payload)) t)

  unfoldable pub claim_due : State → String → ℕ → ℕ → ℕ → State × List (String × SignalOutboxRow)
  claim_due s worker_id limit lease_seconds now =
      let rows = select (due now) limit s in
      let lease = lease_to now worker_id lease_seconds in
      (put_all db lease s rows, map_rows lease rows)

  unfoldable pub mark_published : State → String → String → ℕ → Outcome OutboxError State
  mark_published s outbox_id worker_id now = do
    row ← found (get s outbox_id) key_error
    assert_owner now worker_id row
    ok (put s outbox_id (publish now row))

  unfoldable pub mark_retry : State → String → String → String → ℕ → Outcome OutboxError State
  mark_retry s outbox_id worker_id error now = do
    row ← found (get s outbox_id) key_error
    assert_owner now worker_id row
    updated ← reschedule now error row
    ok (put s outbox_id updated)
