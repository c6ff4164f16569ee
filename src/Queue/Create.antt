-- ===== src/Queue/Create.antt =====
-- `create` under an idempotency key: what a retry of the request gets.
use stock_content.Prelude.{
  ◌≡◌, ◌≢◌, refl, sym, subst, ◌∙◌, ap, String, true, false, Option, none, some, arith, ok, raised,
  ◌==◌, eq_iff, eq_refl, Bool-cases, Option-cases, inl, inr, filled, opt_eq, owned_by,
  if◌then◌else◌,
}
use stock_content.Prelude.Table.{Table}
use stock_content.Queue.{
  ContentTask, integrity_error, idempotency_conflict, Redaction, to_dict, keyed, keyed_row,
  key_taken, reserve, violates, insert_or_reserve, create,
}

redacted_key :
    (redaction : Redaction) (task : ContentTask) (key kept : String)
    → task.idempotency_key ≡ some key
    → redaction.redact_text key ≡ kept
    → (to_dict redaction task).idempotency_key ≡ some kept
unfolding to_dict
redacted_key redaction task key kept e h = rw e (ap some h)

module _ (db : Table ContentTask) where
  open db use {State, get, put, scalar, get-put, scalar-some, scalar-none}

  -- a row that an insert has just added is the only one under its idempotency key
  keyed_row-put :
      (s : State) (new : ContentTask) (key : String)
      → new.idempotency_key ≡ some key
      → filled key ≡ true
      → scalar (keyed key) s ≡ none
      → keyed_row db (put s new.task_id new) (some key) ≡ some (new.task_id, new)
  unfolding keyed_row
  keyed_row-put s new key e f free = rw f (find (scalar (keyed key) t) refl)
    where
      t : State
      t = put s new.task_id new

      there : get t new.task_id ≡ some new
      there = get-put s new.task_id new.task_id new ∙ rw (eq_refl new.task_id)

      find :
          (o : Option (String × ContentTask))
          → scalar (keyed key) t ≡ o
          → scalar (keyed key) t ≡ some (new.task_id, new)
      find none h =
          let missed : keyed key new ≡ false = scalar-none (keyed key) t new.task_id new h there in
          let hit : keyed key new ≡ true = rw e (eq_refl key) in cc
      find (some (k, r)) h =
          let (at_k, hit) = scalar-some (keyed key) t k r h in
          elim (Bool-cases (new.task_id == k)) [
            | inl y ↦
                let same : new.task_id ≡ k = (eq_iff new.task_id k).0 y in
                let put_k : get t k ≡ some new = get-put s new.task_id k new ∙ rw y in
                let row : new ≡ r = cc in h ∙ cc (same, row)
            | inr x ↦
                let put_k : get t k ≡ get s k = get-put s new.task_id k new ∙ rw x in
                let old : get s k ≡ some r = sym put_k ∙ at_k in
                let missed : keyed key r ≡ false = scalar-none (keyed key) s k r free old in cc
          ]

  -- `violates` is false: the row's primary key and its idempotency key are free.
  free_of_violates :
      (s : State) (row : ContentTask) (key : String)
      → row.idempotency_key ≡ some key
      → violates db s row ≡ false
      → scalar (keyed key) s ≡ none
  unfolding violates key_taken
  free_of_violates s row key e h = ground arith

  inserted :
      (redaction : Redaction) (s t : State) (task : ContentTask)
      → keyed_row db s task.idempotency_key ≡ none
      → violates db t (to_dict redaction task) ≡ false
      → create db redaction s t task
        ≡ ok (put t (to_dict redaction task).task_id (to_dict redaction task), task)
  unfolding create insert_or_reserve
  inserted redaction s t task none_found fits = rw (none_found, create) (rw fits)

  reserved :
      (redaction : Redaction) (s u : State) (again : ContentTask) (k : String) (row : ContentTask)
      → keyed_row db s again.idempotency_key ≡ some (k, row)
      → create db redaction s u again ≡ (
          if opt_eq row.request_hash again.request_hash
          then ok (u, row)
          else raised idempotency_conflict)
  unfolding create reserve
  reserved redaction s u again k row hit = rw (hit, create)

  -- A task is inserted under a key that is not empty and that redaction leaves as it is. A later request
  -- with the same key that reads the table then is answered by the stored task if its request hash is the
  -- hash of the stored row, which is that of the task after redaction, and by a conflict if it is not; it
  -- writes nothing.
  pub create_again :
      (redaction : Redaction) (s t u : State) (task again : ContentTask) (key : String)
      → task.idempotency_key ≡ some key
      → filled key ≡ true
      → redaction.redact_text key ≡ key
      → keyed_row db s task.idempotency_key ≡ none
      → violates db t (to_dict redaction task) ≡ false
      → again.idempotency_key ≡ some key
      → let row = to_dict redaction task in
        (create db redaction s t task ≡ ok (put t row.task_id row, task))
        × (create db redaction (put t row.task_id row) u again ≡ (
            if opt_eq row.request_hash again.request_hash
            then ok (u, row)
            else raised idempotency_conflict))
  create_again redaction s t u task again key e f kept none_found fits e' =
      let row = to_dict redaction task in
      let stored : row.idempotency_key ≡ some key = redacted_key redaction task key key e kept in
      let hit : keyed_row db (put t row.task_id row) again.idempotency_key
          ≡ some (row.task_id, row) =
        rw e' (keyed_row-put t row key stored f (free_of_violates t row key stored fits)) in
      (
        inserted redaction s t task none_found fits,
        reserved redaction (put t row.task_id row) u again row.task_id row hit,
      )

  -- the raw key finds nothing after the insert of a row that carries another key
  unkeyed-put :
      (s : State) (new : ContentTask) (key other : String)
      → new.idempotency_key ≡ some other
      → other ≢ key
      → scalar (keyed key) s ≡ none
      → scalar (keyed key) (put s new.task_id new) ≡ none
  unkeyed-put s new key other e ne free = elim (Option-cases (scalar (keyed key) t)) [
    | inl none_found ↦ none_found
    | inr ((k, r), h) ↦
        let (at_k, hit) = scalar-some (keyed key) t k r h in
        elim (Bool-cases (new.task_id == k)) [
          | inl y ↦
              let put_k : get t k ≡ some new = get-put s new.task_id k new ∙ rw y in
              let row : new ≡ r = cc in
              let as_new : r.idempotency_key ≡ some other = cc in
              let same : owned_by (some other) key ≡ true =
                subst (λ o. owned_by o key ≡ true) as_new hit in
              absurd (ne ((eq_iff other key).0 same))
          | inr x ↦
              let put_k : get t k ≡ get s k = get-put s new.task_id k new ∙ rw x in
              let missed : keyed key r ≡ false =
                scalar-none (keyed key) s k r free (sym put_k ∙ at_k) in
              cc
        ]
  ]
    where
      t : State
      t = put s new.task_id new

  taken_after_put :
      (s : State) (new : ContentTask) (key : String)
      → new.idempotency_key ≡ some key
      → scalar (keyed key) (put s new.task_id new) ≢ none
  taken_after_put s new key e none_found =
      let there : get (put s new.task_id new) new.task_id ≡ some new =
        get-put s new.task_id new.task_id new ∙ rw (eq_refl new.task_id) in
      let missed : keyed key new ≡ false =
        scalar-none (keyed key) (put s new.task_id new) new.task_id new none_found there in
      let hit : keyed key new ≡ true = rw e (eq_refl key) in cc

  refused :
      (redaction : Redaction) (u : State) (again : ContentTask) (key : String)
      → again.idempotency_key ≡ some key
      → scalar (keyed key) u ≡ none
      → scalar (keyed (redaction.redact_text key)) u ≢ none
      → create db redaction u u again ≡ raised integrity_error
  unfolding create insert_or_reserve reserve keyed_row violates key_taken to_dict
  refused redaction u again key e unfound taken = ground arith

  -- A task was inserted under an idempotency key that redaction changes. A later request with the
  -- same key raises the database's integrity error, although nothing else happened in between.
  pub redacted_key_breaks_retry :
      (redaction : Redaction) (t : State) (task again : ContentTask) (key : String)
      → task.idempotency_key ≡ some key
      → again.idempotency_key ≡ some key
      → redaction.redact_text key ≢ key
      → scalar (keyed key) t ≡ none
      → let u = put t (to_dict redaction task).task_id (to_dict redaction task) in
        create db redaction u u again ≡ raised integrity_error
  redacted_key_breaks_retry redaction t task again key e e' changed free =
      let row = to_dict redaction task in
      let stored = redacted_key redaction task key (redaction.redact_text key) e refl in
      let u = put t row.task_id row in
      refused redaction u again key e'
        (unkeyed-put t row key (redaction.redact_text key) stored changed free)
        (taken_after_put t row (redaction.redact_text key) stored)
