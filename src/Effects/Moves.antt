-- ===== src/Effects/Moves.antt =====
-- What one write of the unit of work or of the dispatcher does to the row of an effect.
use stock_content.Prelude.{
  ℕ, ◌≡◌, refl, ap, sym, ◌∙◌, String, true, Option, none, some, Outcome, ok, raised, Bool-cases,
  Option-cases, inl, inr, eq_iff, max,
}
use stock_content.Prelude.Table.{Table}
use stock_content.Prelude.Batch.{put-cases}
use stock_content.Effects.{
  EffectRow, EffectIntent, EffectError, bound_to, refresh, complete, new_effect, same_intent,
  bind_intent, intent_row,
}
use stock_content.Effects.Dispatch.{due, lease_to, owns, deliver, retry}

module _ (effects : Table EffectRow) (effect_id_of : String → String → String)
    (hash_of : String → String) where
  open effects use {State, get, put, scalar, select, scalar-some, select-rows}

  -- What one write does to the row under `k`.
  pub data Moves (k : String) (o o' : Option EffectRow) : Type 0 where
    opened :
        (task_id : String) (token : ℕ) (intent : EffectIntent)
        → k ≡ effect_id_of task_id intent.effect_key
        → o ≡ none
        → o' ≡ some (new_effect effects effect_id_of hash_of task_id token intent)
        → Moves k o o'
    refreshed :
        (token : ℕ) (row : EffectRow) → o ≡ some row → o' ≡ some (refresh token row) → Moves k o o'
    finished :
        (now : ℕ) (row : EffectRow) → o ≡ some row → o' ≡ some (complete now row) → Moves k o o'
    claimed :
        (now : ℕ) (worker_id : String) (seconds : ℕ) (row : EffectRow)
        → o ≡ some row
        → due now row ≡ true
        → o' ≡ some (lease_to now worker_id seconds row)
        → Moves k o o'
    delivered :
        (now : ℕ) (worker_id : String) (token : ℕ) (row : EffectRow)
        → o ≡ some row
        → owns now worker_id token row ≡ true
        → o' ≡ some (deliver now row)
        → Moves k o o'
    retried :
        (most base now : ℕ) (worker_id : String) (token : ℕ) (code : String) (row : EffectRow)
        → o ≡ some row
        → owns now worker_id token row ≡ true
        → o' ≡ some (retry (max 1 most) (max 1 base) now code row).0
        → Moves k o o'

  -- A property of the row under `k` that every write keeps.
  pub record Kept (k : String) (P : Option EffectRow → Type 0) : Type 0 where
    pub keep : (o o' : Option EffectRow) → Moves k o o' → P o → P o'

  module _ (k : String) (P : Option EffectRow → Type 0) (kept : Kept k P) where
    pub Kept-put :
        (s : State) (j : String) (r : EffectRow)
        → (j ≡ k → Moves k (get s k) (some r))
        → P (get s k)
        → P (get (put s j r) k)
    Kept-put s j r m h = elim (put-cases effects s j k r) [
      | inl (e, p) ↦ rw p (kept.keep (get s k) (some r) (m e) h)
      | inr p ↦ rw p h
    ]

    -- the property of the state of a result, and that `id` then holds `row`
    abbrev pub Bound : Outcome EffectError (State × (String × EffectRow)) → Type 0
    Bound (raised e) = Unit
    Bound (ok (t, (id, row))) = P (get t k) × (get t id ≡ some row)

    get-put_same : (s : State) (j : String) (r : EffectRow) → get (put s j r) j ≡ some r
    get-put_same s j r = effects.get-put s j j r ∙ rw ((eq_iff j j).1 refl) refl

    pub Bound-intent :
        (s : State) (task_id : String) (token : ℕ) (intent : EffectIntent)
        → P (get s k)
        → Bound (intent_row effects effect_id_of hash_of s task_id token intent)
    unfolding intent_row bind_intent
    Bound-intent s task_id token intent h = go (scalar (bound_to task_id intent.effect_key) s) refl
      where
        go :
            (o : Option (String × EffectRow))
            → scalar (bound_to task_id intent.effect_key) s ≡ o
            → Bound (bind_intent effects effect_id_of hash_of s task_id token intent o)
        go none e = elim (Option-cases (get s (effect_id_of task_id intent.effect_key))) [
          | inr (row, q) ↦ rw (bind_intent, q) tt
          | inl q ↦
              let id = effect_id_of task_id intent.effect_key in
              let row = new_effect effects effect_id_of hash_of task_id token intent in
              rw (bind_intent, q)
                (
                  Kept-put s id row
                      (λ same.
                        opened task_id token intent (sym same) (ap (get s) (sym same) ∙ q) refl)
                      h,
                  get-put_same s id row,
                )
        ]
        go (some (id, row)) e =
            elim (Bool-cases (same_intent effects effect_id_of hash_of row intent)) [
              | inr q ↦ rw (bind_intent, q) tt
              | inl q ↦
                  let there = (scalar-some (bound_to task_id intent.effect_key) s id row e).0 in
                  rw (bind_intent, q)
                    (
                      Kept-put s id (refresh token row)
                          (λ same. refreshed token row (ap (get s) (sym same) ∙ there) refl) h,
                      get-put_same s id (refresh token row),
                    )
            ]
