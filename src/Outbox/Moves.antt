-- ===== src/Outbox/Moves.antt =====
-- The outbox as a whole, seen from one row.
use stock_content.Prelude.{
  ℕ, ◌≡◌, refl, String, Bool, true, false, Option, none, some, List, [], ◌∷◌, arith, Outcome, ok,
  raised, Bool-cases, Option-cases, inl, inr, is_some, filled, eq_iff,
}
use stock_content.Prelude.Table.{Table}
use stock_content.Prelude.Batch.{put_all-cases, put-cases}
use stock_content.Outbox.{
  Payload, SignalOutboxRow, OutboxError, due, lease_to, assert_owner, publish, reschedule, new_row,
  has_signal, id_of, insert_ignore, stored_signal, enqueue, claim_due, mark_published, mark_retry,
  same_payload,
}

-- What one call does to the row under one key.
pub data Moves (o o' : Option SignalOutboxRow) : Type 0 where
  stays : o' ≡ o → Moves o o'
  enqueued :
      (outbox_id_of : String → String) (now : ℕ) (payload : Payload)
      → o ≡ none
      → o' ≡ some (new_row outbox_id_of now payload)
      → Moves o o'
  claimed :
      (now : ℕ) (worker_id : String) (seconds : ℕ) (row : SignalOutboxRow)
      → o ≡ some row
      → due now row ≡ true
      → o' ≡ some (lease_to now worker_id seconds row)
      → Moves o o'
  delivered :
      (now : ℕ) (worker_id : String) (row : SignalOutboxRow)
      → o ≡ some row
      → assert_owner now worker_id row ≡ ok tt
      → o' ≡ some (publish now row)
      → Moves o o'
  retried :
      (now : ℕ) (worker_id error : String) (row row' : SignalOutboxRow)
      → o ≡ some row
      → assert_owner now worker_id row ≡ ok tt
      → reschedule now error row ≡ ok row'
      → o' ≡ some row'
      → Moves o o'

pub data Call : Type 0 where
  enqueues : ℕ → Payload → Call
  claims : String → ℕ → ℕ → ℕ → Call
  publishes : String → String → ℕ → Call
  retries : String → String → String → ℕ → Call

module _ (db : Table SignalOutboxRow) (outbox_id_of : String → String) where
  open db use {State, get, put, scalar, select, get-put, select-rows}

  -- A call that raises rolls back.
  pub after_enqueue : State → Outcome OutboxError (State × SignalOutboxRow) → State
  after_enqueue s (ok (t, _)) = t
  after_enqueue s (raised _) = s

  pub after_mark : State → Outcome OutboxError State → State
  after_mark s (ok t) = t
  after_mark s (raised _) = s

  unfoldable pub step : State → Call → State
  unfolding after_enqueue after_mark
  step s (enqueues now payload) = after_enqueue s (enqueue db outbox_id_of s now payload)
  step s (claims worker_id limit seconds now) =
      (claim_due db outbox_id_of s worker_id limit seconds now).0
  step s (publishes outbox_id worker_id now) =
      after_mark s (mark_published db outbox_id_of s outbox_id worker_id now)
  step s (retries outbox_id worker_id error now) =
      after_mark s (mark_retry db outbox_id_of s outbox_id worker_id error now)

  unfoldable pub run : State → List Call → State
  unfolding step
  run s [] = s
  run s (c ∷ cs) = run (step s c) cs

  Moves-put :
      (s : State) (j k : String) (r : SignalOutboxRow)
      → Moves (get s j) (some r)
      → Moves (get s k) (get (put s j r) k)
  Moves-put s j k r m = elim (put-cases db s j k r) [
    | inl (e, p) ↦ rw (← e) (rw (get-put s j j r, (eq_iff j j).1 refl) m)
    | inr p ↦ stays p
  ]

  Moves-claim :
      (s : State) (worker_id : String) (limit seconds now : ℕ) (k : String)
      → Moves (get s k) (get (claim_due db outbox_id_of s worker_id limit seconds now).0 k)
  unfolding claim_due
  Moves-claim s worker_id limit seconds now k =
      elim (put_all-cases db (lease_to now worker_id seconds) (due now) s (select (due now) limit s)
        k (select-rows (due now) limit s)) [
          | inl e ↦ stays e
          | inr (row, e, d, e') ↦ claimed now worker_id seconds row e d e'
        ]

  Moves-publish :
      (s : State) (id worker_id : String) (now : ℕ) (k : String)
      → Moves (get s k) (get (after_mark s (mark_published db outbox_id_of s id worker_id now)) k)
  unfolding mark_published after_mark
  Moves-publish s id worker_id now k = elim (Option-cases (get s id)) [
    | inl e ↦ rw e (stays refl)
    | inr (row, e) ↦ go row e (assert_owner now worker_id row) refl
  ]
    where
      go :
          (row : SignalOutboxRow)
          → get s id ≡ some row
          → (o : Outcome OutboxError (Unit {0})) → assert_owner now worker_id row ≡ o
          → Moves
              (get s k)
              (get (after_mark s (mark_published db outbox_id_of s id worker_id now)) k)
      go row e (ok tt) h =
          rw (e, h) (Moves-put s id k (publish now row) (delivered now worker_id row e h refl))
      go row e (raised x) h = rw (e, h) (stays refl)

  Moves-retry :
      (s : State) (id worker_id error : String) (now : ℕ) (k : String)
      → Moves (get s k) (get (after_mark s (mark_retry db outbox_id_of s id worker_id error now)) k)
  unfolding mark_retry after_mark
  Moves-retry s id worker_id error now k = elim (Option-cases (get s id)) [
    | inl e ↦ rw e (stays refl)
    | inr (row, e) ↦ go row e (assert_owner now worker_id row) refl (reschedule now error row) refl
  ]
    where
      go :
          (row : SignalOutboxRow)
          → get s id ≡ some row
          → (o : Outcome OutboxError (Unit {0})) → assert_owner now worker_id row ≡ o
          → (q : Outcome OutboxError SignalOutboxRow) → reschedule now error row ≡ q
          → Moves
              (get s k)
              (get (after_mark s (mark_retry db outbox_id_of s id worker_id error now)) k)
      go row e (raised x) h q g = rw (e, h) (stays refl)
      go row e (ok tt) h (ok row') g =
          rw (e, h, g) (Moves-put s id k row' (retried now worker_id error row row' e h g refl))
      go row e (ok tt) h (raised x) g = rw (e, h, g) (stays refl)

  stored_signal-keeps :
      (s t : State) (payload : Payload) (o : Option (String × SignalOutboxRow)) (k : String)
      → Moves (get s k) (get t k)
      → Moves (get s k) (get (after_enqueue s (stored_signal db outbox_id_of t payload o)) k)
  unfolding stored_signal after_enqueue
  stored_signal-keeps s t payload none k m = stays refl
  stored_signal-keeps s t payload (some (_, row)) k m =
      elim (Bool-cases (same_payload row.payload payload)) [
        | inl e ↦ rw e m
        | inr e ↦ rw e (stays refl)
      ]

  insert_ignore-Moves :
      (s t : State) (now : ℕ) (payload : Payload) (k : String)
      → insert_ignore db outbox_id_of s (new_row outbox_id_of now payload) ≡ ok t
      → Moves (get s k) (get t k)
  unfolding insert_ignore
  insert_ignore-Moves s t now payload k h =
      let row = new_row outbox_id_of now payload in
      elim (Bool-cases (is_some (scalar (has_signal row.signal_id) s))) [
        | inl e ↦ let same : s ≡ t = ground arith in rw (← same) (stays refl)
        | inr e ↦ elim (Option-cases (get s row.outbox_id)) [
          | inl free ↦
              let same : put s row.outbox_id row ≡ t = ground arith in
              rw (← same)
                (Moves-put s row.outbox_id k row (enqueued outbox_id_of now payload free refl))
          | inr (other, taken) ↦ absurd (ground arith)
        ]
      ]

  Moves-enqueue :
      (s : State) (now : ℕ) (payload : Payload) (k : String)
      → Moves (get s k) (get (after_enqueue s (enqueue db outbox_id_of s now payload)) k)
  unfolding enqueue after_enqueue
  Moves-enqueue s now payload k =
      go (filled (id_of payload)) refl
        (insert_ignore db outbox_id_of s (new_row outbox_id_of now payload)) refl
    where
      go :
          (b : Bool)
          → filled (id_of payload) ≡ b
          → (o : Outcome OutboxError State)
          → insert_ignore db outbox_id_of s (new_row outbox_id_of now payload) ≡ o
          → Moves (get s k) (get (after_enqueue s (enqueue db outbox_id_of s now payload)) k)
      go false e o h = rw e (stays refl)
      go true e (raised x) h = rw (e, h) (stays refl)
      go true e (ok t) h =
          rw (e, h)
            (stored_signal-keeps s t payload (scalar (has_signal (id_of payload)) t) k
              (insert_ignore-Moves s t now payload k h))

  -- Whatever a call of the repository does, to the row under any key it is one of the moves.
  pub step-Moves : (s : State) (c : Call) (k : String) → Moves (get s k) (get (step s c) k)
  unfolding step
  step-Moves s (enqueues now payload) k = Moves-enqueue s now payload k
  step-Moves s (claims worker_id limit seconds now) k = Moves-claim s worker_id limit seconds now k
  step-Moves s (publishes id worker_id now) k = Moves-publish s id worker_id now k
  step-Moves s (retries id worker_id error now) k = Moves-retry s id worker_id error now k

  -- A property of the row under `k` that every move keeps is kept by every run.
  pub run_induction :
      (P : Option SignalOutboxRow → Type 0)
      → ((o o' : Option SignalOutboxRow) → Moves o o' → P o → P o')
      → (s : State) (cs : List Call) (k : String) → P (get s k)
      → P (get (run s cs) k)
  unfolding run
  run_induction P keep s [] k h = h
  run_induction P keep s (c ∷ cs) k h =
      run_induction P keep (step s c) cs k (keep (get s k) (get (step s c) k) (step-Moves s c k) h)
