-- ===== src/Queue/Invariant.antt =====
-- What holds of a queued task between two calls.
use stock_content.Prelude.{
  ℕ, ◌+◌, ◌≤◌, ◌<◌, ◌≡◌, refl, ap, ◌∙◌, String, true, false, Option, none, some, List, arith, ◌==◌,
  eq_iff, ltb, is_some, ◌⊎◌,
}
use stock_content.Prelude.Table.{Table}
use stock_content.Queue.{
  ContentTask, pending, running, succeeded, failed, is_running, holds, claimable, lease_to, Write,
  renew_lease, fail, apply_write,
}
use stock_content.Queue.Moves.{
  Moves, stays, created, claimed, written, finished, Call, run, run_induction,
}

-- A task that is not a local replay record: its counters are in range, it is leased exactly while it
-- runs, and it has failed only when its retries are used up.
pub record IsQueued (row : ContentTask) : Type 0 where
  pub kind : (row.task_kind == "replay") ≡ false
  pub progress_capped : row.progress ≤ 100
  pub retries_capped : row.retry_count ≤ row.max_retries
  pub owned : is_some row.lease_owner ≡ is_running row.status
  pub leased : is_some row.lease_expires_at ≡ is_running row.status
  pub busy : row.status ≡ running → row.retry_count < row.max_retries
  pub exhausted : row.status ≡ failed → row.retry_count ≡ row.max_retries
  pub waiting : row.status ≡ pending → (row.max_retries ≡ 0) ⊎ (row.retry_count < row.max_retries)

abbrev pub Queued : Option ContentTask → Type 0
Queued none = ⊥
Queued (some row) = IsQueued row

lease_to-IsQueued :
    (now : ℕ) (worker_id kind : String) (seconds : ℕ) (row : ContentTask)
    → claimable now kind row ≡ true
    → IsQueued row
    → IsQueued (lease_to now worker_id seconds row)
unfolding claimable lease_to
lease_to-IsQueued now worker_id kind seconds row c h = ground arith

apply_write-IsQueued :
    (isoformat : ℕ → String) (now : ℕ) (worker_id : String) (token : ℕ) (w : Write)
    (row : ContentTask)
    → holds now worker_id token row ≡ true
    → IsQueued row
    → IsQueued (apply_write isoformat now w row)
unfolding holds apply_write
apply_write-IsQueued isoformat now worker_id token (renew_lease n) row c h = ground arith
apply_write-IsQueued isoformat now worker_id token _ row c h = ground arith

IsQueued-move : (o o' : Option ContentTask) → Moves o o' → Queued o → Queued o'
IsQueued-move o o' (stays e) h = rw e h
IsQueued-move o o' (created redaction task e e') h = absurd (rw e at h)
IsQueued-move o o' (claimed now w k sec row e c e') h =
    rw e' (lease_to-IsQueued now w k sec row c (rw e at h))
IsQueued-move o o' (written iso now w tok wr row e c e') h =
    rw e' (apply_write-IsQueued iso now w tok wr row c (rw e at h))
IsQueued-move o o' (finished w row e c e') h =
    let q : IsQueued row = rw e at h in let k = q.kind in absurd (ground arith)

-- a row with a terminal status
abbrev pub IsTerminal : ContentTask → Type 0
IsTerminal row = (row.status ≡ succeeded) ⊎ (row.status ≡ failed)

terminal_unheld :
    (now : ℕ) (worker_id kind : String) (token : ℕ) (row : ContentTask)
    → IsTerminal row
    → (holds now worker_id token row ≡ false)
      × (claimable now kind row ≡ false)
      × (is_running row.status ≡ false)
unfolding holds claimable
terminal_unheld now worker_id kind token row h = ground arith

terminal-move :
    (r : ContentTask)
    → IsTerminal r
    → (o o' : Option ContentTask) → Moves o o'
    → o ≡ some r
    → o' ≡ some r
terminal-move r t o o' (stays e) h = e ∙ h
terminal-move r t o o' (created redaction task e e') h = cc
terminal-move r t o o' (claimed now w k sec row e c e') h =
    let q : row ≡ r = cc in
    let (_, no_claim, _) = terminal_unheld now w k 0 r t in cc (ap (claimable now k) q)
terminal-move r t o o' (written iso now w tok wr row e c e') h =
    let q : row ≡ r = cc in
    let (unheld, _, _) = terminal_unheld now w "" tok r t in cc (ap (holds now w tok) q)
terminal-move r t o o' (finished w row e c e') h =
    let q : row ≡ r = cc in let (_, _, idle) = terminal_unheld 0 "" "" 0 r t in ground arith

-- After `fail` by its holder a task waits for a new claim exactly when a retry is left.
pub fail_then_claimable :
    (isoformat : ℕ → String) (now later : ℕ) (stage error : String) (row : ContentTask)
    → row.retry_count < row.max_retries
    → claimable later row.task_kind (apply_write isoformat now (fail stage error) row)
      ≡ ltb (row.retry_count + 1) row.max_retries
unfolding claimable apply_write
fail_then_claimable isoformat now later stage error row h =
    ground (arith, (eq_iff row.task_kind row.task_kind).1 refl)

module _ (db : Table ContentTask) where
  open db use {State, get}

  -- The invariant of a queued task survives every call by every process, and the task stays.
  pub run-IsQueued :
      (s : State) (cs : List (Call db)) (k : String)
      → Queued (get s k)
      → Queued (get (run db s cs) k)
  run-IsQueued = run_induction db Queued IsQueued-move

  -- A task that has succeeded or failed is never written again.
  pub terminal_is_final :
      (s : State) (cs : List (Call db)) (k : String) (row : ContentTask)
      → get s k ≡ some row
      → IsTerminal row
      → get (run db s cs) k ≡ some row
  terminal_is_final s cs k row e t =
      run_induction db (λ o. o ≡ some row) (terminal-move row t) s cs k e
