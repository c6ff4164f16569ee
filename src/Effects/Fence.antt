-- ===== src/Effects/Fence.antt =====
-- The fences of effects: the tokens of the task queue, and those of the dispatcher.
use stock_content.Prelude.{
  ◌==◌, ◌&&◌, ltb, leb, ℕ, zero, suc, ◌≤◌, ◌≡◌, refl, String, some, List, arith, min, Outcome, ok,
  raised, Option-cases, inl, inr, ◌+◌, ◌-◌, ◌*◌,
}
use Prim.Native.Nat.{◌^◌}
use stock_content.Prelude.Table.{Table}
use stock_content.Queue.{ContentTask}
use stock_content.Queue.Moves.{Call, run, run_induction}
use stock_content.Queue.Fence.{AtLeast, AtLeast-move, Takeover, unheld_of_token}
use stock_content.Queue.{lease_to}
use stock_content.Effects.{
  EffectRow, EffectIntent, EffectError, stale_task_lease, require_current, prepare_external,
  check_external, finish_external, execute_sql,
}
use stock_content.Effects.Dispatch.{due, delay_seconds, retry}

module _ (tasks : Table ContentTask) where
  require_current_refused :
      (t : tasks.State) (now : ℕ) (key worker_id : String) (token : ℕ)
      → AtLeast (suc token) (tasks.get t key)
      → require_current tasks t now key worker_id token ≡ raised stale_task_lease
  unfolding require_current
  require_current_refused t now key worker_id token h = elim (Option-cases (tasks.get t key)) [
    | inl e ↦ absurd (rw e at h)
    | inr (row, e) ↦ rw (e, unheld_of_token now worker_id token row (rw e at h))
  ]

  AtLeast-taken :
      {s t : tasks.State} {now : ℕ} {worker_id kind : String} {seconds : ℕ} {row : ContentTask}
      (over : Takeover tasks s t now worker_id kind seconds row) (token : ℕ)
      → token ≤ over.old.fencing_token
      → AtLeast (suc token) (tasks.get t over.key)
  unfolding lease_to
  AtLeast-taken over token le = rw (over.stored, over.leased) (omega arith)

  module _ (effects : Table EffectRow) (effect_id_of : String → String → String)
      (hash_of : String → String) (W A : Type 0) where
    -- Every step of an effect is refused.
    pub record Refused (t : tasks.State) (key : String) (token : ℕ) : Type 0 where
      pub prepares :
          (e : effects.State) (now : ℕ) (worker_id : String) (intent : EffectIntent)
          → prepare_external effects effect_id_of hash_of tasks t e now key worker_id token intent
            ≡ raised stale_task_lease
      pub checks :
          (e : effects.State) (now : ℕ) (worker_id effect_id : String)
          → check_external effects effect_id_of hash_of tasks t e now key worker_id token effect_id
            ≡ raised stale_task_lease
      pub finishes :
          (e : effects.State) (now : ℕ) (worker_id effect_id : String)
          → finish_external effects effect_id_of hash_of tasks t e now key worker_id token effect_id
            ≡ raised stale_task_lease
      pub executes :
          (e : effects.State) (w : W) (now : ℕ) (worker_id : String) (intent : EffectIntent)
          (callback : W → Outcome EffectError (W × A))
          → execute_sql effects effect_id_of hash_of tasks t e w now key worker_id token intent
              callback
            ≡ raised stale_task_lease

    Refused-of_token :
        (t : tasks.State) (key : String) (token : ℕ)
        → AtLeast (suc token) (tasks.get t key)
        → Refused t key token
    unfolding prepare_external check_external finish_external execute_sql
    Refused-of_token t key token h = record {
      prepares =
          λ e now worker_id intent. rw (require_current_refused t now key worker_id token h) refl;
      checks = λ e now worker_id effect_id.
          rw (require_current_refused t now key worker_id token h) refl;
      finishes = λ e now worker_id effect_id.
          rw (require_current_refused t now key worker_id token h) refl;
      executes = λ e w now worker_id intent callback.
          rw (require_current_refused t now key worker_id token h) refl;
    }

    -- Once a task is taken over by another claim, no step of an effect with the token of an earlier
    -- holder is accepted, whatever calls of the queue come between, at any time and for any worker.
    pub stale_effects-Refused :
        (s t : tasks.State) (now : ℕ) (worker_id kind : String) (seconds : ℕ) (row : ContentTask)
        (over : Takeover tasks s t now worker_id kind seconds row) (token : ℕ)
        (qs : List (Call tasks))
        → token ≤ over.old.fencing_token
        → Refused (run tasks t qs) over.key token
    stale_effects-Refused s t now worker_id kind seconds row over token qs le =
        Refused-of_token (run tasks t qs) over.key token (
          run_induction tasks (AtLeast (suc token)) (AtLeast-move (suc token)) t qs over.key
            (AtLeast-taken over token le))

module _ (effects : Table EffectRow) (effect_id_of : String → String → String)
    (hash_of : String → String) (tasks : Table ContentTask) where
  -- where a stored effect is bound again, the row under its identifier has the token
  abbrev Retokened :
      String → ℕ → Outcome EffectError (effects.State × (String × EffectRow)) → Type 0
  Retokened id token (raised x) = Unit
  Retokened id token (ok (e, r)) =
      (row : EffectRow) × (effects.get e id ≡ some row) × (row.fencing_token ≡ token)

pow_pos : (k : ℕ) → 1 ≤ 2 ^ k
pow_pos zero = ground arith
pow_pos (suc k) = let p = pow_pos k in ground arith

mul_pos : (a b : ℕ) → 1 ≤ a → 1 ≤ b → 1 ≤ a * b
mul_pos zero b h g = absurd (omega arith)
mul_pos (suc a) b h g = ground arith

-- The delay of a retry is one second at least and one hour at most, for a base of one second at least.
delay_seconds-bounds :
    (base n : ℕ) → 1 ≤ base → (1 ≤ delay_seconds base n) × (delay_seconds base n ≤ 3600)
unfolding delay_seconds
delay_seconds-bounds base n b =
    let p = pow_pos (min (n - 1) 8) in
    let q : 1 ≤ base * 2 ^ min (n - 1) 8 = mul_pos base (2 ^ min (n - 1) 8) b p in
    (omega arith, omega arith)

-- After a failed delivery there is a delay between one second and one hour, for a base of one second at
-- least, such that the row is due exactly where it is of the index, its attempts are not used up and the
-- delay has passed. A row whose attempts are used up is never due.
pub retry_waits :
    (most base now : ℕ) (code : String) (row : EffectRow)
    → 1 ≤ base
    → (delay : ℕ) × (1 ≤ delay)
      × (delay ≤ 3600)
      × ((later : ℕ)
          → due later (retry most base now code row).0 ≡ (
              row.effect_kind == "KNOWLEDGE_INDEX"
              && (ltb row.attempt_count most && leb (now + delay * 1000000) later)))
unfolding retry due
retry_waits most base now code row b =
    let (p, q) = delay_seconds-bounds base row.attempt_count b in
    (delay_seconds base row.attempt_count, p, q, λ later. ground arith)
