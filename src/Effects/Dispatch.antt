-- ===== src/Effects/Dispatch.antt =====
-- The delivery of stored intents to the knowledge index:
-- src/stock_content/application/knowledge_projection_dispatcher.py. Loading the units and the call of
-- the index are not part of the model: it takes whether they succeed, and the name of the error
-- where they do not.
use stock_content.Prelude.{
  ℕ, ◌+◌, ◌-◌, ◌*◌, min, max, String, Bool, true, false, ◌&&◌, ◌||◌, Option, none, some, List,
  if◌then◌else◌, ltb, leb, nat_eq, owned_by, ◌==◌, Outcome, ok, raised, ◌>>=◌, ◌>>◌, found, require,
}
use Prim.Native.Nat.{◌^◌}
use stock_content.Prelude.Table.{Table}
use stock_content.Prelude.Batch.{put_all, map_rows}
use stock_content.Effects.{EffectState, pending, dispatching, completed, dead_letter, EffectRow}

pub data DispatchError : Type 0 where
  lease_lost : DispatchError

pub data DispatchOutcome : Type 0 where
  dispatched retried dead_lettered lost : DispatchOutcome

abbrev pub is_pending : EffectState → Bool
is_pending pending = true
is_pending _ = false

abbrev pub is_dispatching : EffectState → Bool
is_dispatching dispatching = true
is_dispatching _ = false

-- `column IS NULL OR column <= now`
abbrev pub reached : Option ℕ → ℕ → Bool
reached none now = true
reached (some t) now = leb t now

-- `column <= now` of SQL, where NULL passes no comparison
abbrev pub passed : Option ℕ → ℕ → Bool
passed none now = false
passed (some t) now = leb t now

-- the filter of `_claim_due`
unfoldable pub due : ℕ → EffectRow → Bool
due now row =
    row.effect_kind == "KNOWLEDGE_INDEX"
    && (is_pending row.state && reached row.next_attempt_at now
        || is_dispatching row.state && passed row.dispatch_expires_at now)

unfoldable pub lease_to : ℕ → String → ℕ → EffectRow → EffectRow
lease_to now worker_id lease_seconds row = record row {
  state = dispatching;
  dispatch_owner = some worker_id;
  dispatch_expires_at = some (now + max 1 lease_seconds * 1000000);
  next_attempt_at = none;
  attempt_count = row.attempt_count + 1;
  fencing_token = row.fencing_token + 1;
}

-- `expires_at is not None and expires_at > now`
abbrev pub live : Option ℕ → ℕ → Bool
live none now = false
live (some t) now = ltb now t

-- the condition of `_owned` for a claim with this token, negated
unfoldable pub owns : ℕ → String → ℕ → EffectRow → Bool
owns now worker_id token row =
    is_dispatching row.state
    && owned_by row.dispatch_owner worker_id
    && live row.dispatch_expires_at now
    && nat_eq row.fencing_token token

unfoldable pub deliver : ℕ → EffectRow → EffectRow
deliver now row = record row {
  state = completed;
  completed_at = some now;
  dispatch_owner = none;
  dispatch_expires_at = none;
  last_error_code = none;
}

-- `min(3600, base * 2 ** min(attempt_count - 1, 8))`; a claimed row has been attempted at least once
unfoldable pub delay_seconds : ℕ → ℕ → ℕ
delay_seconds base attempt_count = min 3600 (base * 2 ^ min (attempt_count - 1) 8)

abbrev pub released : String → EffectRow → EffectRow
released error_code row = record row {
  dispatch_owner = none;
  dispatch_expires_at = none;
  last_error_code = some error_code;
}

-- the row and the outcome of `_retry`
unfoldable pub retry : ℕ → ℕ → ℕ → String → EffectRow → EffectRow × DispatchOutcome
retry max_attempts base now error_code row =
    if leb max_attempts row.attempt_count
    then (record (released error_code row) { state = dead_letter }, dead_lettered)
    else (
      record (released error_code row) {
        state = pending;
        next_attempt_at = some (now + delay_seconds base row.attempt_count * 1000000);
      },
      retried,
    )

module _ (effects : Table EffectRow) where
  unfoldable pub claim_due :
      effects.State → ℕ → String → ℕ → ℕ → effects.State × List (String × EffectRow)
  claim_due e now worker_id limit lease_seconds =
      let rows = effects.select (due now) (max 1 limit) e in
      let lease = lease_to now worker_id lease_seconds in
      (put_all effects lease e rows, map_rows lease rows)

  -- `_owned`
  unfoldable pub owned : effects.State → ℕ → String → String → ℕ → Outcome DispatchError EffectRow
  owned e now effect_id worker_id token = do
    row ← found (effects.get e effect_id) lease_lost
    require (owns now worker_id token row) lease_lost
    ok row

  -- A lost lease is an outcome that writes nothing.
  abbrev pub or_lost :
      effects.State
      → Outcome DispatchError (effects.State × DispatchOutcome)
      → effects.State × DispatchOutcome
  or_lost e (ok r) = r
  or_lost e (raised _) = (e, lost)

  module _ (max_attempts base : ℕ) where
    -- `_retry`; the two bounds are at least 1
    unfoldable pub retry_claim :
        effects.State → ℕ → String → String → ℕ → String → effects.State × DispatchOutcome
    retry_claim e now effect_id worker_id token error_code = or_lost e (
        owned e now effect_id worker_id token >>= λ row.
        (let r = retry (max 1 max_attempts) (max 1 base) now error_code row in
          ok (effects.put e effect_id r.0, r.1)))

    -- `_dispatch_claim`: `failure` is the error of the units or of the index, which rolls the
    -- transaction back and is followed by the retry at `later`
    unfoldable pub dispatch_claim :
        effects.State
        → ℕ
        → ℕ
        → String
        → String
        → ℕ
        → Option String
        → effects.State × DispatchOutcome
    dispatch_claim e now later effect_id worker_id token failure =
        elim (owned e now effect_id worker_id token) [
          | raised _ ↦ (e, lost)
          | ok row ↦ elim failure [
            | none ↦ (effects.put e effect_id (deliver now row), dispatched)
            | some code ↦ retry_claim e later effect_id worker_id token code
          ]
        ]
