-- ===== src/TaskRun/Graph.antt =====
-- The states that a task run passes through.
use stock_content.Prelude.{
  ◌≡◌, refl, String, Bool, true, false, none, List, [], ◌∷◌, arith, Outcome, ok, raised, inl, inr,
  ◌⊎◌,
}
use stock_content.TaskRun.{
  TaskRunState, pending, running, paused, retrying, succeeded, failed, invalidated, invalidate,
  TaskError, lease_error, TaskRun, create, acquire_lease, require_lease, renew_lease, release_lease,
  save_checkpoint, transition, allowed, operator_action, Operation, acquires, transitions, operates,
  apply, is_closed,
}
use stock_content.TaskRun.Lease.{run, kept}

infix 40 ◌⟶◌
-- the diagram of the states
pub data ◌⟶◌ : TaskRunState → TaskRunState → Type 0 where
  start : pending ⟶ running
  revive : failed ⟶ running
  succeed : running ⟶ succeeded
  fail : running ⟶ failed
  hold : running ⟶ paused
  defer : running ⟶ retrying
  again : retrying ⟶ running
  give_up : retrying ⟶ failed
  continue : paused ⟶ running
  cancel : paused ⟶ invalidated

abbrev pub by_operator : Operation → Bool
by_operator (operates _ _ _) = true
by_operator _ = false

allowed-⟶ : (a b : TaskRunState) → allowed a b ≡ true → a ⟶ b
unfolding allowed
allowed-⟶ running succeeded h = succeed
allowed-⟶ running failed h = fail
allowed-⟶ running paused h = hold
allowed-⟶ running retrying h = defer
allowed-⟶ retrying running h = again
allowed-⟶ retrying failed h = give_up
allowed-⟶ paused running h = continue
allowed-⟶ paused invalidated h = cancel
allowed-⟶ _ _ h = cc

open-⟶ : (a : TaskRunState) → is_closed a ≡ false → (running ≡ a) ⊎ (a ⟶ running)
open-⟶ pending h = inr start
open-⟶ failed h = inr revive
open-⟶ retrying h = inr again
open-⟶ paused h = inr continue
open-⟶ running h = inl refl
open-⟶ _ h = cc

-- An accepted operation of a worker leaves the state as it is or follows an edge of the diagram.
pub apply-⟶ :
    (op : Operation) (t t' : TaskRun)
    → by_operator op ≡ false
    → apply op t ≡ ok t'
    → (t'.state ≡ t.state) ⊎ (t.state ⟶ t'.state)
unfolding apply acquire_lease renew_lease release_lease save_checkpoint transition
apply-⟶ (acquires owner now ttl) t t' w h =
    let e : t'.state ≡ running = ground arith in
    let still_open : is_closed t.state ≡ false = ground arith in rw e (open-⟶ t.state still_open)
apply-⟶ (transitions target owner token now) t t' w h =
    let e : t'.state ≡ target = ground arith in
    let a : allowed t.state target ≡ true = ground arith in inr (rw e (allowed-⟶ t.state target a))
apply-⟶ (operates action actor now) t t' w h = cc
apply-⟶ _ t t' w h = ground arith

-- a task that has succeeded has no owner
pub record IsReleased (t : TaskRun) : Type 0 where
  pub ownerless : t.state ≡ succeeded → t.owner ≡ none

apply-IsReleased :
    (op : Operation) (t t' : TaskRun) → IsReleased t → apply op t ≡ ok t' → IsReleased t'
unfolding apply acquire_lease renew_lease release_lease save_checkpoint transition operator_action
apply-IsReleased (acquires owner now ttl) t t' r h = ground arith
apply-IsReleased (transitions target owner token now) t t' r h = ground arith
apply-IsReleased (operates invalidate actor now) t t' r h = ground arith
apply-IsReleased (operates _ actor now) t t' r h = ground arith
apply-IsReleased _ t t' r h = ground arith

kept-IsReleased : (op : Operation) (t : TaskRun) → IsReleased t → IsReleased (kept t (apply op t))
kept-IsReleased op t r = go (apply op t) (λ t' h. apply-IsReleased op t t' r h)
  where
    go :
        (o : Outcome TaskError TaskRun)
        → ((t' : TaskRun) → o ≡ ok t' → IsReleased t')
        → IsReleased (kept t o)
    go (ok t') h = h t' refl
    go (raised e) h = r

run-IsReleased : (t : TaskRun) (ops : List Operation) → IsReleased t → IsReleased (run t ops)
unfolding run
run-IsReleased t [] r = r
run-IsReleased t (op ∷ ops) r = run-IsReleased (kept t (apply op t)) ops (kept-IsReleased op t r)

abbrev pub AllWorkers : List Operation → Type 0
AllWorkers [] = Unit
AllWorkers (op ∷ ops) = (by_operator op ≡ false) × AllWorkers ops

succeeded_refuses :
    (op : Operation) (t : TaskRun)
    → by_operator op ≡ false
    → t.state ≡ succeeded
    → t.owner ≡ none
    → apply op t ≡ raised lease_error
unfolding apply acquire_lease renew_lease release_lease save_checkpoint transition require_lease
succeeded_refuses (acquires owner now ttl) t w s o = ground arith
succeeded_refuses (operates action actor now) t w s o = cc
succeeded_refuses _ t w s o = ground arith

succeeded_stays :
    (t : TaskRun) (ops : List Operation)
    → AllWorkers ops
    → t.state ≡ succeeded
    → t.owner ≡ none
    → run t ops ≡ t
unfolding run
succeeded_stays t [] w s o = refl
succeeded_stays t (op ∷ ops) w s o =
    rw (succeeded_refuses op t w.0 s o) (succeeded_stays t ops w.1 s o)

-- A new task that has come to succeed, by whatever workers and operators did, is not changed by any
-- worker any more; only an operator can reopen it.
pub succeeded_is_final :
    (task_type id : String) (ops later : List Operation)
    → (run (create task_type id) ops).state ≡ succeeded
    → AllWorkers later
    → run (run (create task_type id) ops) later ≡ run (create task_type id) ops
succeeded_is_final task_type id ops later s w =
    succeeded_stays (run (create task_type id) ops) later w s
      ((run-IsReleased (create task_type id) ops fresh).ownerless s)
  where
    fresh : IsReleased (create task_type id)
    fresh = record { ownerless = unfold create in (λ e. cc) }
