-- ===== src/Examples/Effects.antt =====
-- An effect that is applied once, and workers whose leases are lost.
use stock_content.Prelude.{
  ◌==◌, ◌&&◌, ◌≤◌, ◌+◌, ◌*◌, ltb, leb, ℕ, suc, ◌≡◌, refl, String, none, some, List, [], ◌∷◌, arith,
  Outcome, ok,
}
use stock_content.Prelude.Table.{Table, assoc_table}
use stock_content.Queue.{ContentTask, lease_to, claim_pending, claim_first, claimable, holds}
use stock_content.Queue.Moves.{claims, run}
use stock_content.Queue.Fence.{Takeover, claim_pending-takes_over}
use stock_content.Examples.Queue.{db, leased, rows}
use stock_content.Effects.{
  EffectState, dispatching, EffectRow, EffectIntent, EffectError, execute_sql, require_current,
  intent_row, bind_intent, apply_once, complete,
}
use stock_content.Effects.Dispatch.{due, retry}
use stock_content.Effects.Calls.{Call, claims as claims_effects, dispatches}
use stock_content.Effects.Calls
use stock_content.Effects.Continues.{Holds, effect_continues}
use stock_content.Effects.Once.{Skips, applied_once}
use stock_content.Effects.Fence.{Refused, stale_effects-Refused, retry_waits}

abbrev effects : Table EffectRow
effects = assoc_table EffectRow

abbrev id_of : String → String → String
id_of task_id key = "effect"

abbrev hash_of : String → String
hash_of payload = payload

abbrev intent : EffectIntent
intent = record { effect_key = "index"; effect_kind = "KNOWLEDGE_INDEX"; payload = "{}" }

-- the effect of the task `t`, leased to a dispatcher until 9
abbrev row : EffectRow
row = record {
  effect_id = "effect";
  task_id = "t";
  effect_key = "index";
  effect_kind = "KNOWLEDGE_INDEX";
  payload_hash = "{}";
  projection_payload = "{}";
  fencing_token = 5;
  state = dispatching;
  attempt_count = 1;
  dispatch_owner = some "d";
  dispatch_expires_at = some 9;
  next_attempt_at = none;
  last_error_code = none;
  completed_at = none;
}

abbrev stored : List (String × EffectRow)
stored = ("effect", row) ∷ []

-- a callback that counts its calls
abbrev bump : ℕ → Outcome EffectError (ℕ × ℕ)
bump n = ok (suc n, n)

effect_continues_example : Holds row (
    effects.get
      (Calls.run effects id_of hash_of db ℕ ℕ stored
        (claims_effects 10 "e" 1 60 ∷ dispatches 3 10 11 12 "effect" "e" 6 none ∷ []))
      "effect")
effect_continues_example =
    effect_continues effects id_of hash_of db ℕ ℕ stored
      (claims_effects 10 "e" 1 60 ∷ dispatches 3 10 11 12 "effect" "e" 6 none ∷ []) "effect" row
      refl

abbrev once : EffectRow
once = record row {
  state = EffectState.completed;
  fencing_token = 1;
  attempt_count = 1;
  dispatch_owner = none;
  dispatch_expires_at = none;
  completed_at = some 50;
}

abbrev after_once : List (String × EffectRow)
after_once = ("effect", once) ∷ []

ran_once :
    execute_sql effects id_of hash_of db rows [] 0 50 "t" "a" 1 intent bump
    ≡ ok (after_once, (1, some 0))
unfolding execute_sql require_current holds intent_row bind_intent apply_once complete
ran_once = refl

applied_once_example : Skips effects id_of hash_of db ℕ ℕ 1 (
    execute_sql effects id_of hash_of db rows
      (Calls.run effects id_of hash_of db ℕ ℕ after_once (claims_effects 60 "d" 1 60 ∷ []))
      1
      70
      "t"
      "a"
      1
      intent
      bump)
applied_once_example =
    applied_once effects id_of hash_of db ℕ ℕ [] after_once rows rows 0 1 1 50 70 "t" "a" "a" 1 1
      intent intent bump bump 0 (claims_effects 60 "d" 1 60 ∷ []) (λ k. tt) ran_once refl

-- `b` claims the task at 150
abbrev taken : List (String × ContentTask)
taken = ("t", lease_to 150 "b" 60 leased) ∷ []

took_over :
    claim_pending db rows 150 "b" "video_pipeline" 60 ≡ (taken, some (lease_to 150 "b" 60 leased))
unfolding claim_pending claim_first claimable
took_over = refl

abbrev over : Takeover db rows taken 150 "b" "video_pipeline" 60 (lease_to 150 "b" 60 leased)
over =
    claim_pending-takes_over db rows taken 150 "b" "video_pipeline" 60 (lease_to 150 "b" 60 leased)
      took_over

stale_effects-Refused_example :
    Refused db effects id_of hash_of ℕ ℕ
      (run db taken (claims 500 "c" "video_pipeline" 60 ∷ []))
      over.key
      0
stale_effects-Refused_example =
    stale_effects-Refused db effects id_of hash_of ℕ ℕ rows taken 150 "b" "video_pipeline" 60
      (lease_to 150 "b" 60 leased) over 0 (claims 500 "c" "video_pipeline" 60 ∷ []) (omega arith)

-- the task stores the effect again under its token 1
abbrev again : List (String × EffectRow)
again = ("effect", record row { fencing_token = 1 }) ∷ []

retry_waits_example :
    (delay : ℕ) × (1 ≤ delay)
    × (delay ≤ 3600)
    × ((later : ℕ)
        → due later (retry 3 10 12 "boom" row).0 ≡ (
            row.effect_kind == "KNOWLEDGE_INDEX"
            && (ltb row.attempt_count 3 && leb (12 + delay * 1000000) later)))
retry_waits_example = retry_waits 3 10 12 "boom" row (omega arith)
