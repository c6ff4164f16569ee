-- ===== src/Queue/Moves.antt =====
-- The queue as a whole, seen from one row.
use stock_content.Prelude.{
  ℕ, ◌≡◌, refl, ◌∙◌, String, true, false, ◌&&◌, Option, none, some, List, [], ◌∷◌, arith, Outcome,
  ok, raised, eq_iff, ◌==◌, Bool-cases, Option-cases, ◌⊎◌, inl, inr, opt_eq,
}
use stock_content.Prelude.Table.{Table, Selected}
use stock_content.Queue.{
  ContentTask, QueueError, holds, claimable, lease_to, Write, apply_write, Unleased, apply_unleased,
  Redaction, to_dict, is_running, fenced_row, write, claim_first, claim_pending, write_unleased,
  violates, insert_or_reserve, create, keyed_row, reserve,
}

-- What one call does to the row under one key.
pub data Moves (o o' : Option ContentTask) : Type 0 where
  stays : o' ≡ o → Moves o o'
  created :
      (redaction : Redaction) (task : ContentTask)
      → o ≡ none
      → o' ≡ some (to_dict redaction task)
      → Moves o o'
  claimed :
      (now : ℕ) (worker_id kind : String) (seconds : ℕ) (row : ContentTask)
      → o ≡ some row
      → claimable now kind row ≡ true
      → o' ≡ some (lease_to now worker_id seconds row)
      → Moves o o'
  written :
      (isoformat : ℕ → String) (now : ℕ) (worker_id : String) (token : ℕ) (w : Write)
      (row : ContentTask)
      → o ≡ some row
      → holds now worker_id token row ≡ true
      → o' ≡ some (apply_write isoformat now w row)
      → Moves o o'
  finished :
      (w : Unleased) (row : ContentTask)
      → o ≡ some row
      → (row.task_kind == "replay" && is_running row.status) ≡ true
      → o' ≡ some (apply_unleased w row)
      → Moves o o'

module _ (db : Table ContentTask) where
  open db use {State, get, put, select, get-put, select-rows}

  -- One call of the repository, at its time. `creates` carries the state that its first query read.
  pub data Call : Type 0 where
    creates : Redaction → State → ContentTask → Call
    claims : ℕ → String → String → ℕ → Call
    writes : (ℕ → String) → ℕ → String → String → ℕ → Write → Call
    finishes : String → Unleased → Call

  -- A call that raises rolls back.
  pub after_create : State → Outcome QueueError (State × ContentTask) → State
  after_create s (ok (t, _)) = t
  after_create s (raised _) = s

  pub after_write : State → Outcome QueueError State → State
  after_write s (ok t) = t
  after_write s (raised _) = s

  pub step : State → Call → State
  unfolding after_create after_write
  step s (creates redaction before task) = after_create s (create db redaction before s task)
  step s (claims now worker_id kind seconds) = (claim_pending db s now worker_id kind seconds).0
  step s (writes isoformat now task_id worker_id token w) =
      after_write s (write db isoformat s now task_id worker_id token w)
  step s (finishes task_id w) = after_write s (write_unleased db s task_id w)

  pub run : State → List Call → State
  run s [] = s
  run s (c ∷ cs) = run (step s c) cs

  -- a write to one row, seen from any row
  put-cases :
      (s : State) (j k : String) (r : ContentTask)
      → ((j ≡ k) × (get (put s j r) k ≡ some r)) ⊎ (get (put s j r) k ≡ get s k)
  put-cases s j k r = elim (Bool-cases (j == k)) [
    | inl e ↦ inl ((eq_iff j k).0 e, get-put s j k r ∙ (rw e))
    | inr e ↦ inr (get-put s j k r ∙ (rw e))
  ]

  Moves-put :
      (s : State) (j k : String) (r : ContentTask)
      → Moves (get s j) (some r)
      → Moves (get s k) (get (put s j r) k)
  Moves-put s j k r m = elim (put-cases s j k r) [
    | inl (e, p) ↦ rw (← e) (rw (get-put s j j r, (eq_iff j j).1 refl) m)
    | inr p ↦ stays p
  ]

  after_create-reserve :
      (s : State) (row : Option (String × ContentTask)) (task : ContentTask)
      → after_create s (reserve db s row task) ≡ s
  unfolding reserve after_create
  after_create-reserve s none task = refl
  after_create-reserve s (some (_, row)) task =
      elim (Bool-cases (opt_eq row.request_hash task.request_hash)) [ inl e ↦ rw e | inr e ↦ rw e ]

  unviolated :
      (s : State) (row : ContentTask) → violates db s row ≡ false → get s row.task_id ≡ none
  unfolding violates
  unviolated s row h = ground arith

  Moves-insert :
      (redaction : Redaction) (s : State) (task : ContentTask) (k : String)
      → Moves (get s k) (get (after_create s (insert_or_reserve db redaction s task)) k)
  unfolding insert_or_reserve after_create
  Moves-insert redaction s task k =
      let row = to_dict redaction task in
      elim (Bool-cases (violates db s row)) [
        | inl e ↦
            rw e
              (rw (after_create-reserve s (keyed_row db s task.idempotency_key) task) (stays refl))
        | inr e ↦
            rw e (Moves-put s row.task_id k row (created redaction task (unviolated s row e) refl))
      ]

  Moves-create :
      (redaction : Redaction) (before s : State) (task : ContentTask) (k : String)
      → Moves (get s k) (get (after_create s (create db redaction before s task)) k)
  unfolding create
  Moves-create redaction before s task k =
      elim (Option-cases (keyed_row db before task.idempotency_key)) [
        | inl e ↦ rw (e, create) (Moves-insert redaction s task k)
        | inr (row, e) ↦ rw (e, create) (rw (after_create-reserve s (some row) task) (stays refl))
      ]

  Moves-claim :
      (s : State) (now : ℕ) (worker_id kind : String) (seconds : ℕ) (k : String)
      → Moves (get s k) (get (claim_pending db s now worker_id kind seconds).0 k)
  unfolding claim_pending claim_first
  Moves-claim s now worker_id kind seconds k = elim (Bool-cases (kind == "legacy_unresolved")) [
    | inl e ↦ rw e (stays refl)
    | inr e ↦ rw e (first (select (claimable now kind) 1 s) (select-rows (claimable now kind) 1 s))
  ]
    where
      first :
          (l : List (String × ContentTask))
          → Selected (get s) (claimable now kind) l
          → Moves (get s k) (get (claim_first db s now worker_id seconds l).0 k)
      first [] rows = stays refl
      first ((j, row) ∷ l) rows =
          Moves-put s j k (lease_to now worker_id seconds row)
            (claimed now worker_id kind seconds row rows.0 rows.1 refl)

  Moves-write :
      (s : State) (isoformat : ℕ → String) (now : ℕ) (task_id worker_id : String) (token : ℕ)
      (w : Write) (k : String)
      → Moves (get s k) (get (after_write s (write db isoformat s now task_id worker_id token w)) k)
  unfolding write fenced_row after_write
  Moves-write s isoformat now task_id worker_id token w k = elim (Option-cases (get s task_id)) [
    | inl e ↦ rw e (stays refl)
    | inr (row, e) ↦ elim (Bool-cases (holds now worker_id token row)) [
      | inl h ↦
          rw (e, h)
            (Moves-put s task_id k (apply_write isoformat now w row)
              (written isoformat now worker_id token w row e h refl))
      | inr h ↦ rw (e, h) (stays refl)
    ]
  ]

  Moves-finish :
      (s : State) (task_id : String) (w : Unleased) (k : String)
      → Moves (get s k) (get (after_write s (write_unleased db s task_id w)) k)
  unfolding write_unleased after_write
  Moves-finish s task_id w k = elim (Option-cases (get s task_id)) [
    | inl e ↦ rw e (stays refl)
    | inr (row, e) ↦ elim (Bool-cases (row.task_kind == "replay" && is_running row.status)) [
      | inl h ↦ rw (e, h) (Moves-put s task_id k (apply_unleased w row) (finished w row e h refl))
      | inr h ↦ rw (e, h) (stays refl)
    ]
  ]

  -- Whatever a call of the repository does, to the row under any key it is one of the moves.
  pub step-Moves : (s : State) (c : Call) (k : String) → Moves (get s k) (get (step s c) k)
  unfolding step
  step-Moves s (creates redaction before task) k = Moves-create redaction before s task k
  step-Moves s (claims now worker_id kind seconds) k = Moves-claim s now worker_id kind seconds k
  step-Moves s (writes isoformat now task_id worker_id token w) k =
      Moves-write s isoformat now task_id worker_id token w k
  step-Moves s (finishes task_id w) k = Moves-finish s task_id w k

  -- A property of the row under `k` that every move keeps is kept by every run.
  pub run_induction :
      (P : Option ContentTask → Type 0)
      → ((o o' : Option ContentTask) → Moves o o' → P o → P o')
      → (s : State) (cs : List Call) (k : String) → P (get s k)
      → P (get (run s cs) k)
  unfolding run
  run_induction P keep s [] k h = h
  run_induction P keep s (c ∷ cs) k h =
      run_induction P keep (step s c) cs k (keep (get s k) (get (step s c) k) (step-Moves s c k) h)
