-- ===== src/Outbox/Delivery.antt =====
-- What holds of an outbox row between two calls, and how its delivery ends.
use stock_content.Prelude.{
  ℕ, zero, suc, ◌≤◌, ◌≡◌, ◌≢◌, refl, ◌∙◌, String, Bool, true, false, Option, none, some, List,
  arith, ok, is_some, leb, if◌then◌else◌, ◌⊎◌,
}
use stock_content.Prelude.Table.{Table}
use stock_content.Outbox.{
  OutboxStatus, retry, published, dead_letter, Payload, SignalOutboxRow, is_publishing, is_open,
  due, lease_to, assert_owner, publish, reschedule, new_row, id_of,
}
use stock_content.Outbox.Moves.{
  Moves, stays, enqueued, claimed, delivered, retried, Call, run, run_induction,
}

abbrev pub is_published : OutboxStatus → Bool
is_published published = true
is_published _ = false

-- A row is leased exactly while it is being published, waits for a time exactly while it is open,
-- has a time of publication exactly when it is published, and has failed at most five times while it
-- is open and six times when it is dead.
pub record IsSound (row : SignalOutboxRow) : Type 0 where
  pub owned : is_some row.lease_owner ≡ is_publishing row.status
  pub leased : is_some row.lease_expires_at ≡ is_publishing row.status
  pub waits : is_some row.next_attempt_at ≡ is_open row.status
  pub dated : is_some row.published_at ≡ is_published row.status
  pub attempts_capped : row.attempts ≤ 6
  pub open_attempts : is_open row.status ≡ true → row.attempts ≤ 5
  pub dead_attempts : row.status ≡ dead_letter → row.attempts ≡ 6

abbrev pub Sound : Option SignalOutboxRow → Type 0
Sound none = Unit
Sound (some row) = IsSound row

lease_to-IsSound :
    (now : ℕ) (worker_id : String) (seconds : ℕ) (row : SignalOutboxRow)
    → due now row ≡ true
    → IsSound row
    → IsSound (lease_to now worker_id seconds row)
unfolding due lease_to
lease_to-IsSound now worker_id seconds row d h = ground arith

publish-IsSound :
    (now : ℕ) (worker_id : String) (row : SignalOutboxRow)
    → assert_owner now worker_id row ≡ ok tt
    → IsSound row
    → IsSound (publish now row)
unfolding assert_owner publish
publish-IsSound now worker_id row o h = ground arith

-- A publishing row has a delay in the schedule, so the reschedule never fails.
reschedule_open :
    (now n : ℕ) (error : String) (row : SignalOutboxRow)
    → row.attempts ≡ n
    → n ≤ 5
    → (row' : SignalOutboxRow) × (reschedule now error row ≡ ok row')
unfolding reschedule
reschedule_open now zero error row e h = rw e (_, refl)
reschedule_open now (suc zero) error row e h = rw e (_, refl)
reschedule_open now (suc (suc zero)) error row e h = rw e (_, refl)
reschedule_open now (suc (suc (suc zero))) error row e h = rw e (_, refl)
reschedule_open now (suc (suc (suc (suc zero)))) error row e h = rw e (_, refl)
reschedule_open now (suc (suc (suc (suc (suc zero))))) error row e h = rw e (_, refl)
reschedule_open now (suc (suc (suc (suc (suc (suc n)))))) error row e h = absurd (omega arith)

reschedule-IsSound :
    (now : ℕ) (worker_id error : String) (row row' : SignalOutboxRow)
    → assert_owner now worker_id row ≡ ok tt
    → reschedule now error row ≡ ok row'
    → IsSound row
    → IsSound row'
unfolding assert_owner reschedule
reschedule-IsSound now worker_id error row row' o e h = ground arith

IsSound-new_row :
    (outbox_id_of : String → String) (now : ℕ) (payload : Payload)
    → IsSound (new_row outbox_id_of now payload)
unfolding new_row
IsSound-new_row outbox_id_of now payload = ground arith

Sound-move : (o o' : Option SignalOutboxRow) → Moves o o' → Sound o → Sound o'
Sound-move o o' (stays e) h = rw e h
Sound-move o o' (enqueued f now p e e') h = rw e' (IsSound-new_row f now p)
Sound-move o o' (claimed now w sec row e d e') h =
    rw e' (lease_to-IsSound now w sec row d (rw e at h))
Sound-move o o' (delivered now w row e d e') h = rw e' (publish-IsSound now w row d (rw e at h))
Sound-move o o' (retried now w err row row' e d g e') h =
    rw e' (reschedule-IsSound now w err row row' d g (rw e at h))

-- A row that `claim_due` may take has no publisher, then or later.
pub due_unheld :
    (now later : ℕ) (worker_id : String) (row : SignalOutboxRow)
    → IsSound row
    → due now row ≡ true
    → now ≤ later
    → assert_owner later worker_id row ≢ ok tt
unfolding due assert_owner
due_unheld now later worker_id row h d le o = ground arith

abbrev pub IsOver : SignalOutboxRow → Type 0
IsOver row = (row.status ≡ published) ⊎ (row.status ≡ dead_letter)

over-move :
    (r : SignalOutboxRow)
    → IsOver r
    → (o o' : Option SignalOutboxRow) → Moves o o'
    → o ≡ some r
    → o' ≡ some r
unfolding due assert_owner
over-move r t o o' (stays e) h = e ∙ h
over-move r t o o' (enqueued f now p e e') h = cc
over-move r t o o' (claimed now w sec row e d e') h = let q : row ≡ r = cc in absurd (ground arith)
over-move r t o o' (delivered now w row e d e') h = let q : row ≡ r = cc in absurd (ground arith)
over-move r t o o' (retried now w err row row' e d g e') h =
    let q : row ≡ r = cc in absurd (ground arith)

-- the row is there with this payload
abbrev pub Carries : Payload → Option SignalOutboxRow → Type 0
Carries p none = ⊥
Carries p (some row) = (row.payload ≡ p) × (row.signal_id ≡ id_of p)

reschedule-payload :
    (now : ℕ) (error : String) (row row' : SignalOutboxRow)
    → reschedule now error row ≡ ok row'
    → (row'.payload ≡ row.payload) × (row'.signal_id ≡ row.signal_id)
unfolding reschedule
reschedule-payload now error row row' h = ground arith

Carries-move :
    (p : Payload) (o o' : Option SignalOutboxRow) → Moves o o' → Carries p o → Carries p o'
unfolding lease_to publish
Carries-move p o o' (stays e) h = rw e h
Carries-move p o o' (enqueued f now q e e') h = absurd (rw e at h)
Carries-move p o o' (claimed now w sec row e d e') h =
    rw e' (let c : Carries p (some row) = rw e at h in c)
Carries-move p o o' (delivered now w row e d e') h =
    rw e' (let c : Carries p (some row) = rw e at h in c)
Carries-move p o o' (retried now w err row row' e d g e') h = rw e' (
    let c : Carries p (some row) = rw e at h in
    let (a, b) = reschedule-payload now err row row' g in (a ∙ c.0, b ∙ c.1))

module _ (db : Table SignalOutboxRow) (outbox_id_of : String → String) where
  open db use {State, get}

  -- Whatever is called, a row stays sound, or is sound when it is first enqueued.
  pub run-IsSound :
      (s : State) (cs : List Call) (k : String)
      → Sound (get s k)
      → Sound (get (run db outbox_id_of s cs) k)
  run-IsSound = run_induction db outbox_id_of Sound Sound-move

  -- A published or dead row is never written again.
  pub over_is_final :
      (s : State) (cs : List Call) (k : String) (row : SignalOutboxRow)
      → get s k ≡ some row
      → IsOver row
      → get (run db outbox_id_of s cs) k ≡ some row
  over_is_final s cs k row e t =
      run_induction db outbox_id_of (λ o. o ≡ some row) (over-move row t) s cs k e

  -- No call changes the payload of a row, or removes the row.
  pub payload_is_immutable :
      (s : State) (cs : List Call) (k : String) (p : Payload)
      → Carries p (get s k)
      → Carries p (get (run db outbox_id_of s cs) k)
  payload_is_immutable s cs k p = run_induction db outbox_id_of (Carries p) (Carries-move p) s cs k

-- A sound row under a live lease can always be rescheduled: into the dead letters on its sixth
-- failure, and for a later time before.
pub reschedule_total :
    (now : ℕ) (worker_id error : String) (row : SignalOutboxRow)
    → IsSound row
    → assert_owner now worker_id row ≡ ok tt
    → (row' : SignalOutboxRow) × (reschedule now error row ≡ ok row')
      × (row'.status ≡ (if leb 5 row.attempts then dead_letter else retry))
unfolding assert_owner
reschedule_total now worker_id error row h o =
    let few : row.attempts ≤ 5 = ground arith in
    let (row', e) = reschedule_open now row.attempts error row refl few in
    (row', e, unfold reschedule in ground arith)
