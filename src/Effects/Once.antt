-- ===== src/Effects/Once.antt =====
-- How often the callback of a bound effect acts.
use stock_content.Prelude.{
  ℕ, ◌≡◌, refl, ap, sym, subst, ◌∙◌, String, true, Option, none, some, List, [], ◌∷◌, arith,
  Outcome, ok, raised, ◌>>=◌, ◌>>◌, Bool-cases, inl, inr, is_some, eq_iff,
}
use stock_content.Prelude.Table.{Table}
use stock_content.Queue.{ContentTask}
use stock_content.Effects.{
  EffectRow, EffectIntent, EffectError, is_completed, bound_to, refresh, complete, require_current,
  same_intent, bind_intent, intent_row, apply_once, execute_sql,
}
use stock_content.Effects.Calls.{Call, executes, perform, run}
use stock_content.Effects.Continues.{AllFiled, Filed, AllFiled-run, Settled, Settled-run}

module _ (effects : Table EffectRow) (effect_id_of : String → String → String)
    (hash_of : String → String) (tasks : Table ContentTask) (W A : Type 0) where
  open effects use {State, get, put, scalar, scalar-some, scalar-none}

  -- a result without an effect on the world `w`
  abbrev pub Skips : W → Outcome EffectError (State × (W × Option A)) → Type 0
  Skips w (raised e) = Unit
  Skips w (ok (s, (w', value))) = (w' ≡ w) × (value ≡ none)

  Skips-apply :
      (s : State) (w : W) (now : ℕ) (id : String) (row : EffectRow)
      (callback : W → Outcome EffectError (W × A))
      → is_completed row.state ≡ true
      → Skips w (apply_once effects effect_id_of hash_of tasks now w callback (s, (id, row)))
  unfolding apply_once
  Skips-apply s w now id row callback d = rw d (refl, refl)

  Skips-guard :
      (w : W) (m : Outcome EffectError (Unit {0}))
      (o : Outcome EffectError (State × (W × Option A)))
      → Skips w o
      → Skips w (m >> o)
  Skips-guard w (ok u) o h = h
  Skips-guard w (raised e) o h = tt

  completed-refresh :
      (token : ℕ) (r : EffectRow)
      → is_completed r.state ≡ true
      → is_completed (refresh token r).state ≡ true
  unfolding refresh
  completed-refresh token r d = rw d d

  -- the query of `_intent` finds a row of the task and the key, under its identifier
  found_row :
      (s : State) (task_id key id : String) (r : EffectRow)
      → AllFiled effects effect_id_of hash_of tasks W A s
      → scalar (bound_to task_id key) s ≡ some (id, r)
      → (get s id ≡ some r)
        × (r.task_id ≡ task_id)
        × (r.effect_key ≡ key)
        × (id ≡ effect_id_of task_id key)
  found_row s task_id key id r filed n =
      let (there, p) = scalar-some (bound_to task_id key) s id r n in
      let t : r.task_id ≡ task_id = ground (arith, eq_iff r.task_id task_id) in
      let q : r.effect_key ≡ key = ground (arith, eq_iff r.effect_key key) in
      let f : Filed effects effect_id_of hash_of tasks W A id (some r) =
        subst (Filed effects effect_id_of hash_of tasks W A id) there (filed id) in
      (there, t, q, f ∙ ap (λ (x : String × String). effect_id_of x.0 x.1) (λ i. (t i, q i)))

  only_row :
      (s : State) (task_id key id : String) (row r : EffectRow)
      → AllFiled effects effect_id_of hash_of tasks W A s
      → get s (effect_id_of task_id key) ≡ some row
      → scalar (bound_to task_id key) s ≡ some (id, r)
      → row ≡ r
  only_row s task_id key id row r filed e n =
      let (there, t, q, same) = found_row s task_id key id r filed n in
      let p : some row ≡ some r = sym e ∙ ap (get s) (sym same) ∙ there in ground arith

  Skips-Settled :
      (s : State) (w : W) (now : ℕ) (task_id : String) (token : ℕ) (intent : EffectIntent)
      (callback : W → Outcome EffectError (W × A))
      → AllFiled effects effect_id_of hash_of tasks W A s
      → Settled effects effect_id_of hash_of tasks W A s task_id intent.effect_key
      → Skips w (
          intent_row effects effect_id_of hash_of s task_id token intent >>= λ r.
          apply_once effects effect_id_of hash_of tasks now w callback r)
  unfolding intent_row bind_intent
  Skips-Settled s w now task_id token intent callback filed (row, e, t, q, d) =
      go (scalar (bound_to task_id intent.effect_key) s) refl
    where
      go :
          (o : Option (String × EffectRow))
          → scalar (bound_to task_id intent.effect_key) s ≡ o
          → Skips w (
              bind_intent effects effect_id_of hash_of s task_id token intent o >>= λ r.
              apply_once effects effect_id_of hash_of tasks now w callback r)
      go none n = absurd (
          let miss =
            scalar-none (bound_to task_id intent.effect_key) s
              (effect_id_of task_id intent.effect_key) row n e in
          ground (arith, eq_iff row.task_id task_id, eq_iff row.effect_key intent.effect_key))
      go (some (id, r)) n = elim (Bool-cases (same_intent effects effect_id_of hash_of r intent)) [
        | inr f ↦ rw (bind_intent, f) tt
        | inl f ↦
            rw (bind_intent, f)
              (Skips-apply (put s id (refresh token r)) w now id (refresh token r) callback (
                completed-refresh token r (
                  subst (λ (x : EffectRow). is_completed x.state ≡ true)
                    (only_row s task_id intent.effect_key id row r filed e n) d)))
      ]

  -- what a bound intent is
  abbrev Bound : String → String → Outcome EffectError (State × (String × EffectRow)) → Type 0
  Bound task_id key (raised e) = Unit
  Bound task_id key (ok (t, (id, row))) =
      (id ≡ effect_id_of task_id key) × (row.task_id ≡ task_id) × (row.effect_key ≡ key)

  Bound-intent :
      (s : State) (task_id : String) (token : ℕ) (intent : EffectIntent)
      → AllFiled effects effect_id_of hash_of tasks W A s
      → Bound task_id intent.effect_key
          (intent_row effects effect_id_of hash_of s task_id token intent)
  unfolding intent_row bind_intent refresh
  Bound-intent s task_id token intent filed =
      go (scalar (bound_to task_id intent.effect_key) s) refl
    where
      go :
          (o : Option (String × EffectRow))
          → scalar (bound_to task_id intent.effect_key) s ≡ o
          → Bound task_id intent.effect_key
              (bind_intent effects effect_id_of hash_of s task_id token intent o)
      go none n = elim (Bool-cases (is_some (get s (effect_id_of task_id intent.effect_key)))) [
        | inl b ↦ rw (bind_intent, b) tt
        | inr b ↦ rw (bind_intent, b) (refl, refl, refl)
      ]
      go (some (id, r)) n = elim (Bool-cases (same_intent effects effect_id_of hash_of r intent)) [
        | inr f ↦ rw (bind_intent, f) tt
        | inl f ↦
            let (there, t, q, same) = found_row s task_id intent.effect_key id r filed n in
            rw (bind_intent, f) (same, ground arith, ground arith)
      ]

  -- a call that calls back completes its row
  applied_row :
      (v s' : State) (w w' : W) (now : ℕ) (id : String) (row : EffectRow)
      (callback : W → Outcome EffectError (W × A)) (value : A)
      → apply_once effects effect_id_of hash_of tasks now w callback (v, (id, row))
        ≡ ok (s', (w', some value))
      → put v id (complete now row) ≡ s'
  unfolding apply_once
  applied_row v s' w w' now id row callback value h = elim (Bool-cases (is_completed row.state)) [
    | inl q ↦ absurd (
        let g : ◌≡◌ {A = Outcome EffectError (State × (W × Option A))} (ok (v, (w, none)))
            (ok (s', (w', some value))) =
          rw q at h in
        ground arith)
    | inr q ↦ called (callback w) (rw q at h)
  ]
    where
      called :
          (o : Outcome EffectError (W × A))
          → ◌≡◌ {A = Outcome EffectError (State × (W × Option A))}
              (o >>= λ r. ok (put v id (complete now row), (r.0, some r.1)))
              (ok (s', (w', some value)))
          → put v id (complete now row) ≡ s'
      called (raised x) g = absurd (ground arith)
      called (ok r) g = cc

  Settled-complete :
      (v : State) (now : ℕ) (id task_id key : String) (row : EffectRow)
      → id ≡ effect_id_of task_id key
      → row.task_id ≡ task_id
      → row.effect_key ≡ key
      → Settled effects effect_id_of hash_of tasks W A (put v id (complete now row)) task_id key
  unfolding complete
  Settled-complete v now id task_id key row i t q = (
    complete now row,
    ap (get (put v id (complete now row))) (sym i)
        ∙ effects.get-put v id id (complete now row)
        ∙ rw ((eq_iff id id).1 refl) refl,
    t,
    q,
    refl,
  )

  -- a call that was made completes its effect
  executed :
      (s s' : State) (t : tasks.State) (w w' : W) (now : ℕ) (task_id worker_id : String) (token : ℕ)
      (intent : EffectIntent) (callback : W → Outcome EffectError (W × A)) (value : A)
      → AllFiled effects effect_id_of hash_of tasks W A s
      → execute_sql effects effect_id_of hash_of tasks t s w now task_id worker_id token intent
          callback
        ≡ ok (s', (w', some value))
      → Settled effects effect_id_of hash_of tasks W A s' task_id intent.effect_key
  unfolding execute_sql
  executed s s' t w w' now task_id worker_id token intent callback value filed h =
      go (require_current tasks t now task_id worker_id token)
        (intent_row effects effect_id_of hash_of s task_id token intent)
        (Bound-intent s task_id token intent filed) h
    where
      go :
          (m : Outcome EffectError (Unit {0}))
          → (o : Outcome EffectError (State × (String × EffectRow)))
          → Bound task_id intent.effect_key o
          → (m >> (o >>= λ r. apply_once effects effect_id_of hash_of tasks now w callback r))
            ≡ ok (s', (w', some value))
          → Settled effects effect_id_of hash_of tasks W A s' task_id intent.effect_key
      go (raised x) o b g = absurd (ground arith)
      go (ok u) (raised x) b g = absurd (ground arith)
      go (ok u) (ok (v, (id, row))) (i, t', q) g =
          subst (λ x. Settled effects effect_id_of hash_of tasks W A x task_id intent.effect_key)
            (applied_row v s' w w' now id row callback value g)
            (Settled-complete v now id task_id intent.effect_key row i t' q)

  AllFiled-executed :
      (s s' : State) (t : tasks.State) (w w' : W) (now : ℕ) (task_id worker_id : String) (token : ℕ)
      (intent : EffectIntent) (callback : W → Outcome EffectError (W × A)) (value : A)
      → AllFiled effects effect_id_of hash_of tasks W A s
      → execute_sql effects effect_id_of hash_of tasks t s w now task_id worker_id token intent
          callback
        ≡ ok (s', (w', some value))
      → AllFiled effects effect_id_of hash_of tasks W A s'
  unfolding run perform
  AllFiled-executed s s' t w w' now task_id worker_id token intent callback value filed h =
      let all =
        AllFiled-run effects effect_id_of hash_of tasks W A s
          (executes t w now task_id worker_id token intent callback ∷ []) filed in
      rw h at all

  -- After a call of an effect that ran its callback, no later call for the same task and key runs one:
  -- it is refused, or it returns no value and leaves the tables of the callback as they are, whatever
  -- calls of the unit of work and of the dispatcher come between, whoever makes it and with whatever
  -- intent, where every row stands under the identifier of its task and key.
  pub applied_once :
      (s s' : State) (t t' : tasks.State) (w w' v : W) (now later : ℕ)
      (task_id worker_id worker : String) (token other : ℕ) (intent again : EffectIntent)
      (callback callback' : W → Outcome EffectError (W × A)) (value : A)
      (cs : List (Call effects effect_id_of hash_of tasks W A))
      → AllFiled effects effect_id_of hash_of tasks W A s
      → execute_sql effects effect_id_of hash_of tasks t s w now task_id worker_id token intent
          callback
        ≡ ok (s', (w', some value))
      → again.effect_key ≡ intent.effect_key
      → Skips v (
          execute_sql effects effect_id_of hash_of tasks t'
            (run effects effect_id_of hash_of tasks W A s' cs)
            v
            later
            task_id
            worker
            other
            again
            callback')
  unfolding execute_sql
  applied_once s s' t t' w w' v now later task_id worker_id worker token other intent again callback
        callback' value cs filed h same =
      let u = run effects effect_id_of hash_of tasks W A s' cs in
      Skips-guard v (require_current tasks t' later task_id worker other)
        (intent_row effects effect_id_of hash_of u task_id other again >>= λ r.
          apply_once effects effect_id_of hash_of tasks later v callback' r)
        (Skips-Settled u v later task_id other again callback'
          (AllFiled-run effects effect_id_of hash_of tasks W A s' cs (
            AllFiled-executed s s' t w w' now task_id worker_id token intent callback value filed
              h))
          (subst (Settled effects effect_id_of hash_of tasks W A u task_id) (sym same) (
            Settled-run effects effect_id_of hash_of tasks W A s' cs task_id intent.effect_key
              (executed s s' t w w' now task_id worker_id token intent callback value filed h))))
