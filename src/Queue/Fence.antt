-- ===== src/Queue/Fence.antt =====
-- The fence of the task queue: what a claim does to the holders before it.
use stock_content.Prelude.{
  ℕ, suc, ◌≤◌, ◌<◌, ◌≡◌, ◌≢◌, refl, String, true, false, Option, none, some, List, [], ◌∷◌, arith,
  raised, ◌==◌, eq_iff, Bool-cases, Option-cases, inl, inr, ltb,
}
use mathlib.Core.Path.{subst₂}
use stock_content.Prelude.Table.{Table, Selected}
use stock_content.Queue.{
  ContentTask, running, stale_task_lease, holds, claimable, lease_to, Write, renew_lease,
  apply_write, Unleased, succeed_unleased, apply_unleased, fenced_row, write, claim_first,
  claim_pending,
}
use stock_content.Queue.Moves.{
  Moves, stays, created, claimed, written, finished, Call, run, run_induction,
}

-- A task that may be claimed at `now` has no holder, then or later, whoever asks.
pub claimable_unheld :
    (now later : ℕ) (kind worker_id : String) (token : ℕ) (row : ContentTask)
    → claimable now kind row ≡ true
    → now ≤ later
    → holds later worker_id token row ≡ false
unfolding claimable holds
claimable_unheld now later kind worker_id token row h le = ground arith

-- A running task with retries left, leased until `t`, is held by its owner exactly before `t`, and
-- may be claimed, for its kind, exactly after `t`.
pub lease_ends :
    (now t : ℕ) (worker_id : String) (row : ContentTask)
    → row.status ≡ running
    → row.lease_owner ≡ some worker_id
    → row.lease_expires_at ≡ some t
    → row.retry_count < row.max_retries
    → (holds now worker_id row.fencing_token row ≡ ltb now t)
      × (claimable now row.task_kind row ≡ ltb t now)
unfolding claimable holds
lease_ends now t worker_id row st ow ex left = (
  ground (arith, (eq_iff worker_id worker_id).1 refl),
  ground (arith, (eq_iff row.task_kind row.task_kind).1 refl),
)

fencing_token-apply_write :
    (isoformat : ℕ → String) (now : ℕ) (w : Write) (row : ContentTask)
    → (apply_write isoformat now w row).fencing_token ≡ row.fencing_token
unfolding apply_write
fencing_token-apply_write isoformat now (renew_lease n) row = refl
fencing_token-apply_write isoformat now _ row = refl

fencing_token-apply_unleased :
    (w : Unleased) (row : ContentTask) → (apply_unleased w row).fencing_token ≡ row.fencing_token
unfolding apply_unleased
fencing_token-apply_unleased (succeed_unleased n) row = refl
fencing_token-apply_unleased _ row = refl

-- the row is there, and its token is at least `n`
abbrev pub AtLeast : ℕ → Option ContentTask → Type 0
AtLeast n none = ⊥
AtLeast n (some row) = n ≤ row.fencing_token

pub AtLeast-move : (n : ℕ) (o o' : Option ContentTask) → Moves o o' → AtLeast n o → AtLeast n o'
unfolding lease_to
AtLeast-move n o o' (stays e) h = rw e h
AtLeast-move n o o' (created redaction task e e') h = absurd (rw e at h)
AtLeast-move n o o' (claimed now w k sec row e c e') h =
    rw e' (let g : n ≤ row.fencing_token = rw e at h in omega arith)
AtLeast-move n o o' (written iso now w tok wr row e c e') h =
    rw e' (rw (fencing_token-apply_write iso now wr row) (rw e at h))
AtLeast-move n o o' (finished w row e c e') h =
    rw e' (rw (fencing_token-apply_unleased w row) (rw e at h))

pub unheld_of_token :
    (now : ℕ) (worker_id : String) (token : ℕ) (row : ContentTask)
    → token < row.fencing_token
    → holds now worker_id token row ≡ false
unfolding holds
unheld_of_token now worker_id token row h = ground arith

module _ (db : Table ContentTask) where
  open db use {State, get, put, select, get-put, select-rows}

  write_refused :
      (s : State) (isoformat : ℕ → String) (now : ℕ) (k worker_id : String) (token : ℕ) (w : Write)
      → AtLeast (suc token) (get s k)
      → write db isoformat s now k worker_id token w ≡ raised stale_task_lease
  unfolding write fenced_row
  write_refused s isoformat now k worker_id token w h = elim (Option-cases (get s k)) [
    | inl e ↦ absurd (rw e at h)
    | inr (row, e) ↦ rw (e, unheld_of_token now worker_id token row (rw e at h))
  ]

  -- Once the row under `k` carries a token above `token`, no write with `token` is accepted, by any
  -- worker, after any calls and at any time.
  pub superseded_never_writes :
      (s : State) (cs : List (Call db)) (isoformat : ℕ → String) (now : ℕ) (k worker_id : String)
      (token : ℕ) (w : Write)
      → AtLeast (suc token) (get s k)
      → write db isoformat (run db s cs) now k worker_id token w ≡ raised stale_task_lease
  superseded_never_writes s cs isoformat now k worker_id token w h =
      write_refused (run db s cs) isoformat now k worker_id token w
        (run_induction db (AtLeast (suc token)) (AtLeast-move (suc token)) s cs k h)

  -- What a successful claim did: the row under `key` was free for its kind and is leased to the
  -- worker, and no later write with a token of an earlier holder is accepted.
  pub record Takeover (s t : State) (now : ℕ) (worker_id kind : String) (seconds : ℕ)
      (row : ContentTask) : Type 0 where
    pub key : String
    pub old : ContentTask
    pub was : get s key ≡ some old
    pub free : claimable now kind old ≡ true
    pub leased : row ≡ lease_to now worker_id seconds old
    pub stored : get t key ≡ some row
    pub others : (j : String) → key ≢ j → get t j ≡ get s j
    pub fenced :
        (cs : List (Call db)) (isoformat : ℕ → String) (later : ℕ) (worker : String) (token : ℕ)
        (w : Write)
        → token ≤ old.fencing_token
        → write db isoformat (run db t cs) later key worker token w ≡ raised stale_task_lease

  Takeover-of_row :
      (s : State) (now : ℕ) (worker_id kind : String) (seconds : ℕ) (k : String) (old : ContentTask)
      → get s k ≡ some old
      → claimable now kind old ≡ true
      → Takeover s
          (put s k (lease_to now worker_id seconds old))
          now
          worker_id
          kind
          seconds
          (lease_to now worker_id seconds old)
  unfolding lease_to
  Takeover-of_row s now worker_id kind seconds k old e c =
      let row = lease_to now worker_id seconds old in
      let there : get (put s k row) k ≡ some row = rw (get-put s k k row, (eq_iff k k).1 refl) in
      record {
        key = k;
        old = old;
        was = e;
        free = c;
        leased = refl;
        stored = there;
        others = λ j ne. ground (arith, get-put s k j row, eq_iff k j);
        fenced = λ cs isoformat later worker token w le.
            superseded_never_writes (put s k row) cs isoformat later k worker token w
              (rw there (omega arith));
      }

  -- A claim that returns a task has taken a free one over, and fenced every earlier holder off.
  pub claim_pending-takes_over :
      (s t : State) (now : ℕ) (worker_id kind : String) (seconds : ℕ) (row : ContentTask)
      → claim_pending db s now worker_id kind seconds ≡ (t, some row)
      → Takeover s t now worker_id kind seconds row
  unfolding claim_pending claim_first
  claim_pending-takes_over s t now worker_id kind seconds row h =
      elim (Bool-cases (kind == "legacy_unresolved")) [
        | inl e ↦ unheld (rw e at h)
        | inr e ↦
            first (select (claimable now kind) 1 s) (select-rows (claimable now kind) 1 s)
              (rw e at h)
      ]
    where
      unheld :
          ◌≡◌ {A = State × Option ContentTask} (s, none) (t, some row)
          → Takeover s t now worker_id kind seconds row
      unheld g = cc

      first :
          (l : List (String × ContentTask))
          → Selected (get s) (claimable now kind) l
          → claim_first db s now worker_id seconds l ≡ (t, some row)
          → Takeover s t now worker_id kind seconds row
      first [] rows g = unheld g
      first ((k, old) ∷ l) rows g =
          let new = lease_to now worker_id seconds old in
          subst₂ (λ x y. Takeover s x now worker_id kind seconds y)
            (let p : put s k new ≡ t = cc in p) (let q : new ≡ row = cc in q)
            (Takeover-of_row s now worker_id kind seconds k old rows.0 rows.1)
