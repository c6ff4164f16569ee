-- ===== src/Outbox/Enqueue.antt =====
-- What a second `enqueue` of a signal gets.
use stock_content.Prelude.{
  ℕ, ◌≡◌, refl, sym, ap, ◌∙◌, String, Bool, true, false, Option, none, some, arith, Outcome, ok,
  raised, Bool-cases, inl, inr, filled, eq_iff, if◌then◌else◌,
}
use stock_content.Prelude.Table.{Table}
use stock_content.Prelude.Same.{opt_eq→≡}
use stock_content.Outbox.{
  Payload, SignalOutboxRow, OutboxError, value_error, signal_outbox_integrity_error, new_row,
  has_signal, id_of, same_payload, insert_ignore, stored_signal, enqueue,
}

same_payload→≡ : (p q : Payload) → same_payload p q ≡ true → p ≡ q
same_payload→≡ p q h = ground (
  arith,
  opt_eq→≡ p.signal_id q.signal_id,
  opt_eq→≡ p.content_snapshot_id q.content_snapshot_id,
  opt_eq→≡ p.claim_id q.claim_id,
  opt_eq→≡ p.signal_schema_version q.signal_schema_version,
  eq_iff p.rest q.rest,
)

module _ (db : Table SignalOutboxRow) (outbox_id_of : String → String) where
  open db use {State, get, put, scalar, scalar-some}

  stored_signal_ok :
      (s t : State) (p : Payload) (o : Option (String × SignalOutboxRow)) (row : SignalOutboxRow)
      → stored_signal db outbox_id_of s p o ≡ ok (t, row)
      → (s ≡ t) × (row.payload ≡ p) × ((k : String) × (o ≡ some (k, row)))
  unfolding stored_signal
  stored_signal_ok s t p none row h = cc
  stored_signal_ok s t p (some (k, r)) row h = elim (Bool-cases (same_payload r.payload p)) [
    | inl e ↦
        let g : ◌≡◌ {A = Outcome OutboxError (State × SignalOutboxRow)} (ok (s, r)) (ok (t, row)) =
          rw e at h in
        let same : r ≡ row = cc in
        (
          cc,
          ap (λ (x : SignalOutboxRow). x.payload) (sym same) ∙ same_payload→≡ r.payload p e,
          (k, ap (λ x. some (k, x)) same),
        )
    | inr e ↦ cc (h, e)
  ]

  -- what a successful `enqueue` leaves
  enqueue_ok :
      (s t : State) (now : ℕ) (p : Payload) (row : SignalOutboxRow)
      → enqueue db outbox_id_of s now p ≡ ok (t, row)
      → (filled (id_of p) ≡ true)
        × (row.payload ≡ p)
        × ((k : String) × (scalar (has_signal (id_of p)) t ≡ some (k, row)))
  unfolding enqueue
  enqueue_ok s t now p row h =
      go (filled (id_of p)) refl (insert_ignore db outbox_id_of s (new_row outbox_id_of now p)) refl
    where
      go :
          (b : Bool)
          → filled (id_of p) ≡ b
          → (o : Outcome OutboxError State)
          → insert_ignore db outbox_id_of s (new_row outbox_id_of now p) ≡ o
          → (filled (id_of p) ≡ true)
            × (row.payload ≡ p)
            × ((k : String) × (scalar (has_signal (id_of p)) t ≡ some (k, row)))
      go false e o g =
          let x : ◌≡◌ {A = Outcome OutboxError (State × SignalOutboxRow)} (raised value_error)
              (ok (t, row)) =
            rw e at h in
          cc
      go true e (raised y) g =
          let x : ◌≡◌ {A = Outcome OutboxError (State × SignalOutboxRow)} (raised y) (ok (t, row)) =
            rw (e, g) at h in
          cc
      go true e (ok u) g =
          let x : stored_signal db outbox_id_of u p (scalar (has_signal (id_of p)) u)
              ≡ ok (t, row) =
            rw (e, g) at h in
          let (same, q, (k, z)) = stored_signal_ok u t p (scalar (has_signal (id_of p)) u) row x in
          (e, q, (k, rw (← same) z))

  enqueue_stored :
      (t : State) (later : ℕ) (q : Payload) (k : String) (row : SignalOutboxRow)
      → filled (id_of q) ≡ true
      → scalar (has_signal (id_of q)) t ≡ some (k, row)
      → enqueue db outbox_id_of t later q
        ≡ (if same_payload row.payload q then ok (t, row) else raised signal_outbox_integrity_error)
  unfolding enqueue insert_ignore stored_signal new_row
  enqueue_stored t later q k row f e = rw (f, e) (rw e)

  -- After a signal was enqueued, a payload for the same signal is answered by the stored row if it
  -- is the same payload, and refused if it differs; the table does not change.
  pub enqueue_again :
      (s t : State) (now later : ℕ) (p q : Payload) (row : SignalOutboxRow)
      → enqueue db outbox_id_of s now p ≡ ok (t, row)
      → id_of q ≡ id_of p
      → (row.payload ≡ p)
        × (enqueue db outbox_id_of t later q
            ≡ (if same_payload p q then ok (t, row) else raised signal_outbox_integrity_error))
  enqueue_again s t now later p q row h same =
      let (f, e, (k, z)) = enqueue_ok s t now p row h in
      (e, rw (← e) (enqueue_stored t later q k row (rw same f) (rw same z)))
