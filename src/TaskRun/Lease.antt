-- ===== src/TaskRun/Lease.antt =====
-- Leases and fencing of a task run.
use stock_content.Prelude.{
  ℕ, ◌+◌, ◌≤◌, ◌<◌, ◌≡◌, ◌≢◌, refl, String, true, Option, none, some, List, [], ◌∷◌, ◌++◌, arith,
  Outcome, ok, raised, eq_iff, filled, owned_by,
}
use stock_content.TaskRun.{
  invalidated, OperatorAction, pause, resume, retry, invalidate, rebuild, value, TaskError,
  lease_error, Checkpoint, TaskAudit, TaskRun, acquire_lease, require_lease, renew_lease,
  release_lease, save_checkpoint, transition, operator_action, Operation, acquires, renews,
  releases, checkpoints, transitions, operates, apply, other_owner, add_audit,
}

other_owner_of :
    (o : Option String) (owner other : String)
    → filled owner ≡ true
    → owner ≢ other
    → owned_by o owner ≡ true
    → other_owner o other ≡ true
other_owner_of none owner other named ne h = cc
other_owner_of (some o) owner other named ne h =
    let same : o ≡ owner = (eq_iff o owner).0 h in
    rw same (rw named (ground (arith, eq_iff owner other)))

-- While a worker's lease is live no other worker can acquire the task.
pub held_blocks_others :
    (owner other : String) (token now ttl : ℕ) (t : TaskRun)
    → filled owner ≡ true
    → owner ≢ other
    → require_lease owner token now t ≡ ok tt
    → acquire_lease other now ttl t ≡ raised lease_error
unfolding require_lease acquire_lease
held_blocks_others owner other token now ttl t named ne h =
    ground (arith, other_owner_of t.owner owner other)

-- An operation never lowers the fencing token.
fencing_token-apply :
    (op : Operation) (t t' : TaskRun) → apply op t ≡ ok t' → t.fencing_token ≤ t'.fencing_token
unfolding apply acquire_lease renew_lease release_lease save_checkpoint transition operator_action
fencing_token-apply (acquires owner now ttl) t t' h = ground arith
fencing_token-apply (operates invalidate actor now) t t' h = ground arith
fencing_token-apply (operates _ actor now) t t' h = ground arith
fencing_token-apply _ t t' h = ground arith

-- An operation that raises changes nothing.
abbrev pub kept : TaskRun → Outcome TaskError TaskRun → TaskRun
kept t (ok t') = t'
kept t (raised _) = t

unfoldable pub run : TaskRun → List Operation → TaskRun
run t [] = t
run t (op ∷ ops) = run (kept t (apply op t)) ops

fencing_token-kept :
    (op : Operation) (t : TaskRun) → t.fencing_token ≤ (kept t (apply op t)).fencing_token
fencing_token-kept op t = go (apply op t) (fencing_token-apply op t)
  where
    go :
        (o : Outcome TaskError TaskRun)
        → ((t' : TaskRun) → o ≡ ok t' → t.fencing_token ≤ t'.fencing_token)
        → t.fencing_token ≤ (kept t o).fencing_token
    go (ok t') h = h t' refl
    go (raised e) h = omega arith

fencing_token-run :
    (t : TaskRun) (ops : List Operation) → t.fencing_token ≤ (run t ops).fencing_token
unfolding run
fencing_token-run t [] = omega arith
fencing_token-run t (op ∷ ops) =
    omega (arith, fencing_token-kept op t, fencing_token-run (kept t (apply op t)) ops)

stale_refused :
    (worker : String) (token now : ℕ) (t : TaskRun)
    → token < t.fencing_token
    → require_lease worker token now t ≡ raised lease_error
unfolding require_lease
stale_refused worker token now t h = ground arith

-- After a worker has acquired the task, no token given out before is ever accepted again, whatever
-- workers and operators do.
pub acquire_fences :
    (owner : String) (now ttl : ℕ) (t t' : TaskRun) (ops : List Operation) (worker : String)
    (token later : ℕ)
    → acquire_lease owner now ttl t ≡ ok t'
    → token ≤ t.fencing_token
    → require_lease worker token later (run t' ops) ≡ raised lease_error
unfolding acquire_lease
acquire_fences owner now ttl t t' ops worker token later h le =
    let bump : t'.fencing_token ≡ t.fencing_token + 1 = ground arith in
    stale_refused worker token later (run t' ops) (omega (arith, fencing_token-run t' ops))

abbrev pub time_of : Operation → ℕ
time_of (acquires owner now ttl) = now
time_of (renews owner token now ttl) = now
time_of (releases owner token now) = now
time_of (checkpoints owner token c now) = now
time_of (transitions target owner token now) = now
time_of (operates action actor now) = now

-- the operations that a worker makes with its token
abbrev pub token_of : Operation → Option (String × ℕ)
token_of (acquires owner now ttl) = none
token_of (renews owner token now ttl) = some (owner, token)
token_of (releases owner token now) = some (owner, token)
token_of (checkpoints owner token c now) = some (owner, token)
token_of (transitions target owner token now) = some (owner, token)
token_of (operates action actor now) = none

-- An accepted operation of a worker that gives a token was made under the lease it names.
pub accepted_holds :
    (op : Operation) (t t' : TaskRun) (owner : String) (token : ℕ)
    → apply op t ≡ ok t'
    → token_of op ≡ some (owner, token)
    → require_lease owner token (time_of op) t ≡ ok tt
unfolding apply renew_lease release_lease save_checkpoint transition
accepted_holds (acquires owner' now ttl) t t' owner token h e = cc
accepted_holds (operates action actor now) t t' owner token h e = cc
accepted_holds _ t t' owner token h e = ground arith

abbrev pub action_value : OperatorAction → String
action_value pause = "pause"
action_value resume = "resume"
action_value retry = "retry"
action_value invalidate = "invalidate"
action_value rebuild = "rebuild"

abbrev pub entry : String → String → String → ℕ → Option ℕ → TaskAudit
entry action actor detail now token = record {
  action = action;
  at = now;
  actor = actor;
  detail = detail;
  fencing_token = token;
}

-- the entry that an operation owes the audit trail: its name, its actor, its time and its token
abbrev pub entry_of : TaskRun → Operation → TaskAudit
entry_of t (acquires owner now ttl) =
    entry "lease_acquired" owner "" now (some (t.fencing_token + 1))
entry_of t (renews owner token now ttl) = entry "lease_renewed" owner "" now (some token)
entry_of t (releases owner token now) = entry "lease_released" owner "" now (some token)
entry_of t (checkpoints owner token c now) = entry "checkpoint" owner c.name now (some token)
entry_of t (transitions target owner token now) =
    entry "state_changed" owner (value target) now (some token)
entry_of t (operates action actor now) = entry (action_value action) actor "" now none

-- Every accepted operation, of a worker or an operator, appends its entry to the audit trail and
-- changes no earlier entry.
pub audit-apply :
    (op : Operation) (t t' : TaskRun)
    → apply op t ≡ ok t'
    → t'.audit ≡ t.audit ++ entry_of t op ∷ []
unfolding apply acquire_lease renew_lease release_lease save_checkpoint transition operator_action
audit-apply (acquires owner now ttl) t t' h = ground arith
audit-apply (operates invalidate actor now) t t' h = ground arith
audit-apply (operates pause actor now) t t' h = ground arith
audit-apply (operates resume actor now) t t' h = ground arith
audit-apply (operates retry actor now) t t' h = ground arith
audit-apply (operates rebuild actor now) t t' h = ground arith
audit-apply _ t t' h = ground arith

-- A worker that invalidates a paused task keeps its lease, and can still record checkpoints under
-- it until it expires; an operator who invalidates the task ends the lease.
pub invalidated_keeps_lease :
    (t t' : TaskRun) (owner : String) (token now later : ℕ) (c : Checkpoint)
    → transition invalidated owner token now t ≡ ok t'
    → require_lease owner token later t ≡ ok tt
    → (t'.state ≡ invalidated)
      × ((t'' : TaskRun) × (save_checkpoint owner token c later t' ≡ ok t''))
      × (require_lease owner token later (operator_action invalidate owner now t)
          ≡ raised lease_error)
unfolding require_lease transition save_checkpoint operator_action
invalidated_keeps_lease t t' owner token now later c h live = (
  ground arith,
  (
    add_audit "checkpoint" owner c.name (some token) later
        (record t' { checkpoints = t'.checkpoints ++ c ∷ [] }),
    ground arith,
  ),
  ground arith,
)
