-- ===== src/Effects/Calls.antt =====
-- The calls of the unit of work and of the dispatcher, and runs of them.
use stock_content.Prelude.{
  ℕ, ◌≡◌, refl, ap, sym, ◌∙◌, String, true, Option, none, some, List, [], ◌∷◌, arith, Outcome, ok,
  raised, ◌>>=◌, ◌>>◌, found, Bool-cases, Option-cases, inl, inr, max,
}
use stock_content.Prelude.Table.{Table}
use stock_content.Prelude.Batch.{put_all-cases}
use stock_content.Queue.{ContentTask}
use stock_content.Effects.{
  EffectRow, EffectIntent, EffectError, is_completed, complete, require_current, intent_row,
  prepare_external, finish_external, apply_once, execute_sql,
}
use stock_content.Effects.Dispatch.{
  DispatchOutcome, DispatchError, due, lease_to, owns, deliver, retry, claim_due, owned, or_lost,
  retry_claim, dispatch_claim,
}
use stock_content.Effects.Moves.{
  Moves, finished, claimed, delivered, retried, Kept, Kept-put, Bound, Bound-intent,
}

module _ (effects : Table EffectRow) (effect_id_of : String → String → String)
    (hash_of : String → String) where
  open effects use {State, get, put, select, select-rows}

  module _ (tasks : Table ContentTask) (W A : Type 0) where
    -- A call of the unit of work or of the dispatcher, at its time; `executes` carries the tables that
    -- its callback acts on.
    pub data Call : Type 0 where
      prepares : tasks.State → ℕ → String → String → ℕ → EffectIntent → Call
      finishes : tasks.State → ℕ → String → String → ℕ → String → Call
      executes :
          tasks.State
          → W
          → ℕ
          → String
          → String
          → ℕ
          → EffectIntent
          → (W → Outcome EffectError (W × A))
          → Call
      claims : ℕ → String → ℕ → ℕ → Call
      dispatches : ℕ → ℕ → ℕ → ℕ → String → String → ℕ → Option String → Call

    -- A call that raises rolls back.
    abbrev pub after : {X : Type 0} → State → Outcome EffectError (State × X) → State
    after s (ok (t, _)) = t
    after s (raised _) = s

    abbrev pub after_write : State → Outcome EffectError State → State
    after_write s (ok t) = t
    after_write s (raised _) = s

    unfoldable pub perform : State → Call → State
    perform s (prepares t now task_id worker_id token intent) =
        after s (
          prepare_external effects effect_id_of hash_of tasks t s now task_id worker_id token
            intent)
    perform s (finishes t now task_id worker_id token effect_id) = after_write s (
        finish_external effects effect_id_of hash_of tasks t s now task_id worker_id token
          effect_id)
    perform s (executes t w now task_id worker_id token intent callback) = after s (
        execute_sql effects effect_id_of hash_of tasks t s w now task_id worker_id token intent
          callback)
    perform s (claims now worker_id limit seconds) =
        (claim_due effects s now worker_id limit seconds).0
    perform s (dispatches most base now later effect_id worker_id token failure) =
        (dispatch_claim effects most base s now later effect_id worker_id token failure).0

    unfoldable pub run : State → List Call → State
    unfolding perform
    run s [] = s
    run s (c ∷ cs) = run (perform s c) cs

    module _ (k : String) (P : Option EffectRow → Type 0)
        (kept : Kept effects effect_id_of hash_of k P) where
      after-guard :
          {X : Type 0} (s : State) (m : Outcome EffectError (Unit {0}))
          (o : Outcome EffectError (State × X))
          → P (get s k)
          → P (get (after s o) k)
          → P (get (after s (m >> o)) k)
      after-guard s (ok u) o h g = g
      after-guard s (raised e) o h g = h

      after-bind :
          {X : Type 0} (s : State) (o : Outcome EffectError (State × (String × EffectRow)))
          (f : State × (String × EffectRow) → Outcome EffectError (State × X))
          → P (get s k)
          → Bound effects effect_id_of hash_of k P kept o
          → ((t : State) (id : String) (row : EffectRow)
              → P (get t k)
              → get t id ≡ some row
              → P (get (after s (f (t, (id, row)))) k))
          → P (get (after s (o >>= f)) k)
      after-bind s (ok (t, (id, row))) f h (p, e) g = g t id row p e
      after-bind s (raised e) f h b g = h

      write_one :
          (s : State) (m : Outcome EffectError (Unit {0})) (id : String) (now : ℕ)
          → P (get s k)
          → P (
              get
                (after_write s (
                  m
                  >> (found (get s id) EffectError.runtime_error >>= λ row.
                      ok (put s id (complete now row)))))
                k)
      write_one s (raised e) id now h = h
      write_one s (ok u) id now h = elim (Option-cases (get s id)) [
        | inl e ↦ rw e h
        | inr (row, e) ↦ rw e (
            Kept-put effects effect_id_of hash_of k P kept s id (complete now row)
              (λ same. finished now row (ap (get s) (sym same) ∙ e) refl) h)
      ]

      applied :
          (s t : State) (w : W) (now : ℕ) (id : String) (row : EffectRow)
          (callback : W → Outcome EffectError (W × A))
          → P (get s k)
          → P (get t k)
          → get t id ≡ some row
          → P (
              get
                (after {X = W × Option A} s
                  (apply_once effects effect_id_of hash_of tasks now w callback (t, (id, row))))
                k)
      unfolding apply_once
      applied s t w now id row callback h p e = elim (Bool-cases (is_completed row.state)) [
        | inl q ↦ rw q p
        | inr q ↦ rw q (called (callback w))
      ]
        where
          called :
              (o : Outcome EffectError (W × A))
              → P (
                  get
                    (after {X = W × Option A} s
                      (o >>= λ r. ok (put t id (complete now row), (r.0, some r.1))))
                    k)
          called (raised x) = h
          called (ok r) =
              Kept-put effects effect_id_of hash_of k P kept t id (complete now row)
                (λ same. finished now row (ap (get t) (sym same) ∙ e) refl) p

      or_lost-Kept :
          (s : State) (m : Outcome DispatchError EffectRow) (f : EffectRow → EffectRow)
          (x : EffectRow → DispatchOutcome) (id : String)
          → P (get s k)
          → ((row : EffectRow)
              → m ≡ ok row
              → id ≡ k
              → Moves effects effect_id_of hash_of k (get s k) (some (f row)))
          → P (get (or_lost effects s (m >>= λ row. ok (put s id (f row), x row))).0 k)
      or_lost-Kept s (raised e) f x id h g = h
      or_lost-Kept s (ok row) f x id h g =
          Kept-put effects effect_id_of hash_of k P kept s id (f row) (g row refl) h

      owned_ok :
          (s : State) (now : ℕ) (id worker_id : String) (token : ℕ) (row : EffectRow)
          → owned effects s now id worker_id token ≡ ok row
          → (get s id ≡ some row) × (owns now worker_id token row ≡ true)
      unfolding owned
      owned_ok s now id worker_id token row h = ground arith

      retry_claim-Kept :
          (most base : ℕ) (s : State) (now : ℕ) (id worker_id : String) (token : ℕ) (code : String)
          → P (get s k)
          → P (get (retry_claim effects most base s now id worker_id token code).0 k)
      unfolding retry_claim
      retry_claim-Kept most base s now id worker_id token code h =
          or_lost-Kept s (owned effects s now id worker_id token)
            (λ row. (retry (max 1 most) (max 1 base) now code row).0)
            (λ row. (retry (max 1 most) (max 1 base) now code row).1) id h
            (λ row e same.
              let (there, o) = owned_ok s now id worker_id token row e in
              retried most base now worker_id token code row (ap (get s) (sym same) ∙ there) o refl)

      dispatch_claim-Kept :
          (most base : ℕ) (s : State) (now later : ℕ) (id worker_id : String) (token : ℕ)
          (failure : Option String)
          → P (get s k)
          → P (get (dispatch_claim effects most base s now later id worker_id token failure).0 k)
      unfolding dispatch_claim
      dispatch_claim-Kept most base s now later id worker_id token failure h =
          go (owned effects s now id worker_id token) refl failure
        where
          go :
              (o : Outcome DispatchError EffectRow)
              → owned effects s now id worker_id token ≡ o
              → (f : Option String)
              → P (get (dispatch_claim effects most base s now later id worker_id token f).0 k)
          go (raised x) e f = rw (dispatch_claim, e) h
          go (ok row) e none =
              rw (dispatch_claim, e)
                (let (there, o) = owned_ok s now id worker_id token row e in
                  Kept-put effects effect_id_of hash_of k P kept s id (deliver now row)
                    (λ same.
                      delivered now worker_id token row (ap (get s) (sym same) ∙ there) o refl)
                    h)
          go (ok row) e (some code) =
              rw (dispatch_claim, e) (retry_claim-Kept most base s later id worker_id token code h)

      claim_due-Kept :
          (s : State) (now : ℕ) (worker_id : String) (limit seconds : ℕ)
          → P (get s k)
          → P (get (claim_due effects s now worker_id limit seconds).0 k)
      unfolding claim_due
      claim_due-Kept s now worker_id limit seconds h =
          elim (put_all-cases effects (lease_to now worker_id seconds) (due now) s
            (select (due now) (max 1 limit) s) k (select-rows (due now) (max 1 limit) s)) [
              | inl e ↦ rw e h
              | inr (row, e, d, e') ↦
                  kept.keep (get s k) _ (claimed now worker_id seconds row e d e') h
            ]

      -- Whatever a call does, it keeps the property.
      pub perform-Kept : (s : State) (c : Call) → P (get s k) → P (get (perform s c) k)
      unfolding perform prepare_external finish_external execute_sql
      perform-Kept s (prepares t now task_id worker_id token intent) h =
          after-guard s (require_current tasks t now task_id worker_id token) _ h (
            after-bind s (intent_row effects effect_id_of hash_of s task_id token intent) _ h
              (Bound-intent effects effect_id_of hash_of k P kept s task_id token intent h)
              (λ u id row p e. p))
      perform-Kept s (finishes t now task_id worker_id token effect_id) h =
          write_one s (require_current tasks t now task_id worker_id token) effect_id now h
      perform-Kept s (executes t w now task_id worker_id token intent callback) h =
          after-guard s (require_current tasks t now task_id worker_id token) _ h (
            after-bind s (intent_row effects effect_id_of hash_of s task_id token intent) _ h
              (Bound-intent effects effect_id_of hash_of k P kept s task_id token intent h)
              (λ u id row p e. applied s u w now id row callback h p e))
      perform-Kept s (claims now worker_id limit seconds) h =
          claim_due-Kept s now worker_id limit seconds h
      perform-Kept s (dispatches most base now later effect_id worker_id token failure) h =
          dispatch_claim-Kept most base s now later effect_id worker_id token failure h

      pub run_induction : (s : State) (cs : List Call) → P (get s k) → P (get (run s cs) k)
      unfolding run
      run_induction s [] h = h
      run_induction s (c ∷ cs) h = run_induction (perform s c) cs (perform-Kept s c h)
