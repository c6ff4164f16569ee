-- ===== src/Effects/Continues.antt =====
-- What no call of the unit of work or of the dispatcher changes of an effect.
use stock_content.Prelude.{
  ℕ, ◌≡◌, refl, ap, sym, subst, ◌∙◌, String, true, Option, none, some, List, arith,
}
use stock_content.Prelude.Table.{Table}
use stock_content.Queue.{ContentTask}
use stock_content.Effects.{EffectRow, is_completed, refresh, complete}
use stock_content.Effects.Dispatch.{due, lease_to, owns, deliver, retry}
use stock_content.Effects.Moves.{Moves, opened, refreshed, finished, claimed, delivered, retried}
use stock_content.Effects.Calls.{Call, run, run_induction}

-- What never changes of an effect, and that completion lasts.
pub record Continues (r r' : EffectRow) : Type 0 where
  pub task : r'.task_id ≡ r.task_id
  pub key : r'.effect_key ≡ r.effect_key
  pub kind : r'.effect_kind ≡ r.effect_kind
  pub hash : r'.payload_hash ≡ r.payload_hash
  pub payload : r'.projection_payload ≡ r.projection_payload
  pub settled : is_completed r.state ≡ true → is_completed r'.state ≡ true

-- the row is there and continues `r`
abbrev pub Holds : EffectRow → Option EffectRow → Type 0
Holds r none = ⊥
Holds r (some r') = Continues r r'

refresh-Continues :
    (r row : EffectRow) (token : ℕ) → Continues r row → Continues r (refresh token row)
unfolding refresh
refresh-Continues r row token c = ground arith

claim-Continues :
    (r row : EffectRow) (now seconds : ℕ) (w : String)
    → due now row ≡ true
    → Continues r row
    → Continues r (lease_to now w seconds row)
unfolding due lease_to
claim-Continues r row now seconds w d c = ground arith

deliver-Continues : (r row : EffectRow) (now : ℕ) → Continues r row → Continues r (deliver now row)
unfolding deliver
deliver-Continues r row now c = ground arith

retry-Continues :
    (r row : EffectRow) (now token most base : ℕ) (w code : String)
    → owns now w token row ≡ true
    → Continues r row
    → Continues r (retry most base now code row).0
unfolding owns retry
retry-Continues r row now token most base w code o c = ground arith

complete-Continues :
    (r row : EffectRow) (now : ℕ) → Continues r row → Continues r (complete now row)
unfolding complete
complete-Continues r row now c = ground arith

module _ (effects : Table EffectRow) (effect_id_of : String → String → String)
    (hash_of : String → String) (tasks : Table ContentTask) (W A : Type 0) where
  open effects use {State, get, put, scalar, scalar-some, scalar-none}

  Holds-move :
      (k : String) (r : EffectRow) (o o' : Option EffectRow)
      → Moves effects effect_id_of hash_of k o o'
      → Holds r o
      → Holds r o'
  Holds-move k r o o' (opened task_id token intent q e e') h = absurd (rw e at h)
  Holds-move k r o o' (refreshed token row e e') h =
      rw e' (refresh-Continues r row token (let c : Holds r (some row) = rw e at h in c))
  Holds-move k r o o' (finished now row e e') h =
      rw e' (complete-Continues r row now (let c : Holds r (some row) = rw e at h in c))
  Holds-move k r o o' (claimed now w seconds row e d e') h =
      rw e' (claim-Continues r row now seconds w d (let c : Holds r (some row) = rw e at h in c))
  Holds-move k r o o' (delivered now w token row e d e') h =
      rw e' (deliver-Continues r row now (let c : Holds r (some row) = rw e at h in c))
  Holds-move k r o o' (retried most base now w token code row e d e') h =
      rw e'
        (retry-Continues r row now token _ _ w code d (let c : Holds r (some row) = rw e at h in c))

  -- No call of the unit of work or of the dispatcher removes an effect, changes its task, its key, its
  -- kind or its payload, or reopens it once it is completed.
  pub effect_continues :
      (s : State) (cs : List (Call effects effect_id_of hash_of tasks W A)) (k : String)
      (r : EffectRow)
      → get s k ≡ some r
      → Holds r (get (run effects effect_id_of hash_of tasks W A s cs) k)
  effect_continues s cs k r e =
      run_induction effects effect_id_of hash_of tasks W A k (Holds r)
        (record { keep = Holds-move k r }) s cs
        (subst (Holds r) (sym e) (record {
          task = refl;
          key = refl;
          kind = refl;
          hash = refl;
          payload = refl;
          settled = λ c. c;
        }))

  -- the row stands under the identifier of its task and its key
  abbrev pub Filed : String → Option EffectRow → Type 0
  Filed k none = Unit
  Filed k (some row) = k ≡ effect_id_of row.task_id row.effect_key

  Filed-Holds :
      (k : String) (r : EffectRow) (o : Option EffectRow) → Filed k (some r) → Holds r o → Filed k o
  Filed-Holds k r none f h = tt
  Filed-Holds k r (some row) f c =
      f ∙ ap (λ (x : String × String). effect_id_of x.0 x.1) (λ i. (sym c.task i, sym c.key i))

  Continues-refl : (r : EffectRow) → Continues r r
  Continues-refl r = record {
    task = refl;
    key = refl;
    kind = refl;
    hash = refl;
    payload = refl;
    settled = λ c. c;
  }

  Filed-from :
      (k : String) (o o' : Option EffectRow) (row : EffectRow)
      → o ≡ some row
      → Moves effects effect_id_of hash_of k o o'
      → Filed k o
      → Filed k o'
  Filed-from k o o' row e m f =
      Filed-Holds k row o' (subst (Filed k) e f)
        (Holds-move k row o o' m (subst (Holds row) (sym e) (Continues-refl row)))

  Filed-move :
      (k : String) (o o' : Option EffectRow)
      → Moves effects effect_id_of hash_of k o o'
      → Filed k o
      → Filed k o'
  Filed-move k o o' (opened task_id token intent q e e') h = rw e' q
  Filed-move k o o' (refreshed token row e e') h =
      Filed-from k o o' row e (refreshed token row e e') h
  Filed-move k o o' (finished now row e e') h = Filed-from k o o' row e (finished now row e e') h
  Filed-move k o o' (claimed now w seconds row e d e') h =
      Filed-from k o o' row e (claimed now w seconds row e d e') h
  Filed-move k o o' (delivered now w token row e d e') h =
      Filed-from k o o' row e (delivered now w token row e d e') h
  Filed-move k o o' (retried most base now w token code row e d e') h =
      Filed-from k o o' row e (retried most base now w token code row e d e') h

  abbrev pub AllFiled : State → Type 0
  AllFiled s = (k : String) → Filed k (get s k)

  pub AllFiled-run :
      (s : State) (cs : List (Call effects effect_id_of hash_of tasks W A))
      → AllFiled s
      → AllFiled (run effects effect_id_of hash_of tasks W A s cs)
  AllFiled-run s cs f k =
      run_induction effects effect_id_of hash_of tasks W A k (Filed k)
        (record { keep = Filed-move k }) s cs (f k)

  -- the row of a task and a key that is completed is under `id`
  abbrev pub Settled : State → String → String → Type 0
  Settled s task_id key =
      (row : EffectRow) × (get s (effect_id_of task_id key) ≡ some row)
      × (row.task_id ≡ task_id)
      × (row.effect_key ≡ key)
      × (is_completed row.state ≡ true)

  pub Settled-run :
      (s : State) (cs : List (Call effects effect_id_of hash_of tasks W A)) (task_id key : String)
      → Settled s task_id key
      → Settled (run effects effect_id_of hash_of tasks W A s cs) task_id key
  Settled-run s cs task_id key (row, e, t, q, d) =
      go (get (run effects effect_id_of hash_of tasks W A s cs) (effect_id_of task_id key)) refl
        (effect_continues s cs (effect_id_of task_id key) row e)
    where
      go :
          (o : Option EffectRow)
          → get (run effects effect_id_of hash_of tasks W A s cs) (effect_id_of task_id key) ≡ o
          → Holds row o
          → Settled (run effects effect_id_of hash_of tasks W A s cs) task_id key
      go none n h = absurd h
      go (some r) n c = (r, n, c.task ∙ t, c.key ∙ q, c.settled d)
