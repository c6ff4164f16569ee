-- ===== src/TaskRun/Repository/Agrees.antt =====
-- The SQL repository against the domain object that the in-memory repository of
-- src/stock_content/application/task_lease_service.py keeps.
use mathlib.Core.List.{foldl, foldl-append}
use stock_content.Prelude.{
  ℕ, ◌+◌, ◌≡◌, refl, ap, ◌∙◌, String, ◌&&◌, Option, none, some, List, [], ◌∷◌, ◌++◌, map, arith,
  ◌==◌, eq_iff, eq_refl, Bool-cases, inl, inr, nat_eq, owned_by, Outcome, ok, raised,
}
use stock_content.Prelude.Table.{Table}
use stock_content.Prelude.Text.{dict_get, dict_set, dict_get-dict_set}
use stock_content.TaskRun.{
  TaskRunState, OperatorAction, invalidate, TaskError, Checkpoint, TaskRun, acquire_lease,
  renew_lease, save_checkpoint, transition as change_state, allowed, operator_action, Operation,
  acquires, renews, checkpoints, transitions, operates, apply, is_closed, other_owner, live,
}
use stock_content.TaskRun.Repository
use stock_content.TaskRun.Repository.{
  BackgroundTaskRunRow, domain, add_item, as_dict, as_checkpoint,
}

-- no key twice
abbrev pub Distinct : List (String × String) → Type 0
Distinct [] = Unit
Distinct ((k, v) ∷ d) = (dict_get d k ≡ none) × Distinct d

abbrev first_of_two : Option String → Option String → Option String
first_of_two none o = o
first_of_two (some v) o = some v

-- what a dictionary keeps of the checkpoints that were read from `d`
rebuilt :
    (now : ℕ) (d acc : List (String × String)) (j : String)
    → Distinct d
    → dict_get (foldl add_item acc (map (as_checkpoint now) d)) j
      ≡ first_of_two (dict_get d j) (dict_get acc j)
rebuilt now [] acc j h = refl
rebuilt now ((k, v) ∷ d) acc j h =
    rebuilt now d (dict_set acc k v) j h.1
    ∙ rw (dict_get-dict_set acc k j v) (ground (arith, eq_iff k j, h.0))

Distinct-set : (d : List (String × String)) (k v : String) → Distinct d → Distinct (dict_set d k v)
Distinct-set [] k v h = (refl, tt)
Distinct-set ((j, w) ∷ d) k v h = elim (Bool-cases (j == k)) [
  | inl e ↦ rw e h
  | inr e ↦ rw e (
    rw (dict_get-dict_set d k j v) (ground (arith, eq_iff j k, eq_iff k j)),
    Distinct-set d k v h.1,
  )
]

Distinct-fold :
    (acc : List (String × String)) (l : List Checkpoint)
    → Distinct acc
    → Distinct (foldl add_item acc l)
Distinct-fold acc [] h = h
Distinct-fold acc (c ∷ l) h =
    Distinct-fold (dict_set acc c.name c.payload) l (Distinct-set acc c.name c.payload h)

-- The row and the object show the same task: all but the audit trail and the times of checkpoints.
pub record Same (row : BackgroundTaskRunRow) (t : TaskRun) : Type 0 where
  pub state : row.state ≡ t.state
  pub owner : row.owner ≡ t.owner
  pub lease_expires_at : row.lease_expires_at ≡ t.lease_expires_at
  pub fencing_token : row.fencing_token ≡ t.fencing_token
  pub attempt : row.attempt ≡ t.attempt
  pub payloads : (j : String) → dict_get row.checkpoints j ≡ dict_get (as_dict t.checkpoints) j
  pub distinct : Distinct row.checkpoints

-- what the service asks of either repository
pub data Request : Type 0 where
  acquire : String → ℕ → ℕ → Request
  renew : String → ℕ → ℕ → ℕ → Request
  checkpoint : String → ℕ → Checkpoint → ℕ → Request
  transition : TaskRunState → String → ℕ → ℕ → Request
  operator : OperatorAction → String → ℕ → Request

abbrev pub operation : Request → Operation
operation (Request.acquire owner now ttl) = acquires owner now ttl
operation (Request.renew owner token now ttl) = renews owner token now ttl
operation (Request.checkpoint owner token c now) = checkpoints owner token c now
operation (Request.transition target owner token now) = transitions target owner token now
operation (Request.operator action actor now) = operates action actor now

module _ (db : Table BackgroundTaskRunRow) where
  open db use {State, get, put, get-put}

  unfoldable pub serve : State → String → Request → Outcome TaskError (State × TaskRun)
  serve s id (Request.acquire owner now ttl) = Repository.acquire db s id owner now ttl
  serve s id (Request.renew owner token now ttl) = Repository.renew db s id owner token now ttl
  serve s id (Request.checkpoint owner token c now) = Repository.save db s id owner token c now
  serve s id (Request.transition target owner token now) =
      Repository.change db s id target owner token now
  serve s id (Request.operator action actor now) = Repository.operate db s id action actor now

  -- Both raise the same error, or both succeed and show the same task again.
  abbrev pub Agree :
      String → Outcome TaskError (State × TaskRun) → Outcome TaskError TaskRun → Type 0
  Agree id (raised e) (raised e') = e ≡ e'
  Agree id (ok (s, _)) (ok t) = (row : BackgroundTaskRunRow) × (get s id ≡ some row) × Same row t
  Agree id _ _ = ⊥

  stored : (s : State) (id : String) (row : BackgroundTaskRunRow) → get (put s id row) id ≡ some row
  stored s id row = get-put s id id row ∙ rw (eq_refl id)

  Agree-acquire :
      (s : State) (id owner : String) (now ttl : ℕ) (row : BackgroundTaskRunRow) (t : TaskRun)
      → get s id ≡ some row
      → Same row t
      → Agree id (Repository.acquire db s id owner now ttl) (acquire_lease owner now ttl t)
  unfolding Repository.acquire acquire_lease
  Agree-acquire s id owner now ttl row t e h =
      rw (e, h.state, h.owner, h.lease_expires_at)
        (elim (Bool-cases (is_closed t.state)) [
          | inl c ↦ rw c refl
          | inr c ↦ elim (Bool-cases (other_owner t.owner owner && live t.lease_expires_at now)) [
            | inl b ↦ rw (c, b) refl
            | inr b ↦
                rw (c, b)
                  (
                    _,
                    stored s id _,
                    record {
                      state = refl;
                      owner = refl;
                      lease_expires_at = refl;
                      fencing_token = ap (λ n. n + 1) h.fencing_token;
                      attempt = h.attempt;
                      payloads = h.payloads;
                      distinct = h.distinct;
                    },
                  )
          ]
        ])

  Agree-renew :
      (s : State) (id owner : String) (token now ttl : ℕ) (row : BackgroundTaskRunRow) (t : TaskRun)
      → get s id ≡ some row
      → Same row t
      → Agree id (Repository.renew db s id owner token now ttl) (renew_lease owner token now ttl t)
  unfolding Repository.renew renew_lease
  Agree-renew s id owner token now ttl row t e h =
      rw (e, h.owner, h.fencing_token, h.lease_expires_at)
        (elim (Bool-cases (owned_by t.owner owner && nat_eq t.fencing_token token)) [
          | inr c ↦ rw c refl
          | inl c ↦ elim (Bool-cases (live t.lease_expires_at now)) [
            | inr b ↦ rw (c, b) refl
            | inl b ↦
                rw (c, b)
                  (
                    _,
                    stored s id _,
                    record {
                      state = h.state;
                      owner = refl;
                      lease_expires_at = refl;
                      fencing_token = refl;
                      attempt = h.attempt;
                      payloads = h.payloads;
                      distinct = h.distinct;
                    },
                  )
          ]
        ])

  payloads-save :
      (now : ℕ) (row : BackgroundTaskRunRow) (t : TaskRun) (c : Checkpoint) (j : String)
      → Same row t
      → dict_get (as_dict (map (as_checkpoint now) row.checkpoints ++ c ∷ [])) j
        ≡ dict_get (as_dict (t.checkpoints ++ c ∷ [])) j
  payloads-save now row t c j h =
      rw
        (
          foldl-append add_item [] (map (as_checkpoint now) row.checkpoints) (c ∷ []),
          foldl-append add_item [] t.checkpoints (c ∷ []),
        )
        (rw
          (
            dict_get-dict_set (as_dict (map (as_checkpoint now) row.checkpoints)) c.name j
                c.payload,
            dict_get-dict_set (as_dict t.checkpoints) c.name j c.payload,
          )
          (ground (arith, rebuilt now row.checkpoints [] j h.distinct, h.payloads j)))

  Agree-checkpoint :
      (s : State) (id owner : String) (token now : ℕ) (c : Checkpoint) (row : BackgroundTaskRunRow)
      (t : TaskRun)
      → get s id ≡ some row
      → Same row t
      → Agree id (Repository.save db s id owner token c now) (save_checkpoint owner token c now t)
  unfolding Repository.save save_checkpoint
  Agree-checkpoint s id owner token now c row t e h =
      rw (e, h.owner, h.fencing_token, h.lease_expires_at)
        (elim (Bool-cases (owned_by t.owner owner && nat_eq t.fencing_token token)) [
          | inr g ↦ rw g refl
          | inl g ↦ elim (Bool-cases (live t.lease_expires_at now)) [
            | inr b ↦ rw (g, b) refl
            | inl b ↦
                rw (g, b)
                  (
                    _,
                    stored s id _,
                    record {
                      state = h.state;
                      owner = refl;
                      lease_expires_at = refl;
                      fencing_token = refl;
                      attempt = h.attempt;
                      payloads = λ j. payloads-save now row t c j h;
                      distinct =
                          Distinct-fold [] (map (as_checkpoint now) row.checkpoints ++ c ∷ []) tt;
                    },
                  )
          ]
        ])

  Agree-transition :
      (s : State) (id owner : String) (token now : ℕ) (target : TaskRunState)
      (row : BackgroundTaskRunRow) (t : TaskRun)
      → get s id ≡ some row
      → Same row t
      → Agree id
          (Repository.change db s id target owner token now)
          (change_state target owner token now t)
  unfolding Repository.change change_state
  Agree-transition s id owner token now target row t e h =
      rw (e, h.state, h.owner, h.fencing_token, h.lease_expires_at, h.attempt)
        (elim (Bool-cases (owned_by t.owner owner && nat_eq t.fencing_token token)) [
          | inr g ↦ rw g refl
          | inl g ↦ elim (Bool-cases (live t.lease_expires_at now)) [
            | inr b ↦ rw (g, b) refl
            | inl b ↦ elim (Bool-cases (allowed t.state target)) [
              | inr a ↦ rw (g, b, a) refl
              | inl a ↦
                  rw (g, b, a)
                    (
                      _,
                      stored s id _,
                      record {
                        state = refl;
                        owner = refl;
                        lease_expires_at = refl;
                        fencing_token = refl;
                        attempt = refl;
                        payloads = h.payloads;
                        distinct = h.distinct;
                      },
                    )
            ]
          ]
        ])

  Agree-operator :
      (s : State) (id actor : String) (now : ℕ) (action : OperatorAction)
      (row : BackgroundTaskRunRow) (t : TaskRun)
      → get s id ≡ some row
      → Same row t
      → Agree id
          (Repository.operate db s id action actor now)
          (ok (operator_action action actor now t))
  unfolding Repository.operate operator_action
  Agree-operator s id actor now invalidate row t e h = rw e (_, stored s id _, ground arith)
  Agree-operator s id actor now _ row t e h = rw e (_, stored s id _, ground arith)

  -- While the row shows the same task as the object, each request is answered alike: the same error,
  -- or a success after which they show the same task.
  pub repository_agrees :
      (s : State) (id : String) (request : Request) (row : BackgroundTaskRunRow) (t : TaskRun)
      → get s id ≡ some row
      → Same row t
      → Agree id (serve s id request) (apply (operation request) t)
  unfolding serve apply
  repository_agrees s id (Request.acquire owner now ttl) row t e h =
      Agree-acquire s id owner now ttl row t e h
  repository_agrees s id (Request.renew owner token now ttl) row t e h =
      Agree-renew s id owner token now ttl row t e h
  repository_agrees s id (Request.checkpoint owner token c now) row t e h =
      Agree-checkpoint s id owner token now c row t e h
  repository_agrees s id (Request.transition target owner token now) row t e h =
      Agree-transition s id owner token now target row t e h
  repository_agrees s id (Request.operator action actor now) row t e h =
      Agree-operator s id actor now action row t e h
