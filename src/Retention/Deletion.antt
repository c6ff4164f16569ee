-- ===== src/Retention/Deletion.antt =====
-- When bytes are deleted, and what a deletion leaves.
use stock_content.Prelude.{
  ◌⊎◌, ℕ, ◌<◌, ◌≡◌, refl, ap, sym, subst, ◌∙◌, String, Bool, true, false, Option, none, some, arith,
  Outcome, ok, raised, ◌>>=◌, ◌>>◌, require, Bool-cases, Option-cases, inl, inr, ltb, if◌then◌else◌,
}
use stock_content.Prelude.Table.{Table}
use stock_content.Prelude.Batch.{put-cases}
use stock_content.Retention.{
  RetentionPolicy, RetentionCandidate, Tombstone, RetentionExecution, RetentionError, RetentionPlan,
  legal_hold, keep, audit_tombstone_planned, is_deleted, short, expires_at, finish, note_failure,
  prepare_execution, new_execution, for_artifact, same_tombstone, value_error, mark_deleted,
  mark_failed,
}
use stock_content.Retention.Service.{
  record_tombstone, plan, delete_bytes, carry_out, execute, for_candidate,
}

module _ (db : Table RetentionExecution) (tombstone_id_of : RetentionCandidate → String) where
  open db use {State, get, put}

  -- the execution returns without a call of the adapter, and the table is as it was
  abbrev pub Spares :
      RetentionPolicy → State → ℕ → Bool → Option String → RetentionCandidate → Type 0
  Spares policy s now dry_run failure candidate =
      (planned : RetentionPlan) × (execute db tombstone_id_of policy s now dry_run failure candidate
        ≡ ok (s, (0, planned)))

  module _ (policy : RetentionPolicy) (s : State) (now : ℕ) (failure : Option String)
      (candidate : RetentionCandidate) where
    Spares-held :
        (dry_run : Bool)
        → candidate.legal_hold ≡ true
        → Spares policy s now dry_run failure candidate
    unfolding execute plan carry_out
    Spares-held dry_run p = (
      record { candidate = candidate; tombstone = none; dry_run = dry_run; action = legal_hold },
      rw p refl,
    )

    Spares-kept :
        (dry_run : Bool)
        → ltb now (expires_at policy candidate.artifact_class candidate.created_at) ≡ true
        → Spares policy s now dry_run failure candidate
    unfolding execute plan carry_out
    Spares-kept dry_run q = elim (Bool-cases candidate.legal_hold) [
      | inl p ↦ Spares-held dry_run p
      | inr p ↦ (
        record { candidate = candidate; tombstone = none; dry_run = dry_run; action = keep },
        rw (p, q) refl,
      )
    ]

    Spares-dry_run : Spares policy s now true failure candidate
    unfolding execute plan carry_out
    Spares-dry_run = elim (Bool-cases candidate.legal_hold) [
      | inl p ↦ Spares-held true p
      | inr p ↦
          elim (Bool-cases
            (ltb now (expires_at policy candidate.artifact_class candidate.created_at))) [
              | inl q ↦ Spares-kept true q
              | inr q ↦ (
                record {
                  candidate = candidate;
                  tombstone = some (
                      for_candidate db tombstone_id_of candidate
                        (expires_at policy candidate.artifact_class candidate.created_at) now);
                  dry_run = true;
                  action = audit_tombstone_planned;
                },
                rw (p, q) refl,
              )
            ]
    ]

  -- For an artifact under a legal hold, for one whose retention has not expired, and in a dry run, the
  -- execution returns, does not call the adapter that deletes bytes, and leaves the table as it was.
  pub execute-Spares :
      (policy : RetentionPolicy) (s : State) (now : ℕ) (dry_run : Bool) (failure : Option String)
      (candidate : RetentionCandidate)
      → (candidate.legal_hold ≡ true)
        ⊎ ((now < expires_at policy candidate.artifact_class candidate.created_at)
            ⊎ (dry_run ≡ true))
      → Spares policy s now dry_run failure candidate
  execute-Spares policy s now dry_run failure candidate (inl held) =
      Spares-held policy s now failure candidate dry_run held
  execute-Spares policy s now dry_run failure candidate (inr (inl early)) =
      Spares-kept policy s now failure candidate dry_run (ground arith)
  execute-Spares policy s now dry_run failure candidate (inr (inr dry)) =
      subst (λ d. Spares policy s now d failure candidate) (sym dry)
        (Spares-dry_run policy s now failure candidate)

  module _ (k : String) (row : RetentionExecution) (d : is_deleted row.state ≡ true) where
    -- the row is still there in the state of a result
    abbrev Kept : {X : Type 0} → Outcome RetentionError (State × X) → Type 0
    Kept (ok (t, x)) = get t k ≡ some row
    Kept (raised e) = Unit

    Kept-bind :
        {X Y : Type 0} (o : Outcome RetentionError (State × X))
        (f : State × X → Outcome RetentionError (State × Y))
        → Kept o
        → ((r : State × X) → get r.0 k ≡ some row → Kept (f r))
        → Kept (o >>= f)
    Kept-bind (ok r) f a n = n r a
    Kept-bind (raised e) f a n = tt

    put-Kept :
        (s : State) (j : String) (new : RetentionExecution)
        → get s k ≡ some row
        → (get s j ≡ some row → new ≡ row)
        → get (put s j new) k ≡ some row
    put-Kept s j new there same = elim (put-cases db s j k new) [
      | inl (q, e) ↦ e ∙ ap some (same (ap (get s) q ∙ there))
      | inr q ↦ q ∙ there
    ]

    Kept-prepare_execution :
        (s : State) (now : ℕ) (tombstone : Tombstone)
        → get s k ≡ some row
        → Kept (prepare_execution db s now tombstone)
    unfolding prepare_execution
    Kept-prepare_execution s now tombstone there =
        known (get s tombstone.tombstone_id) refl (db.scalar (for_artifact tombstone.artifact_id) s)
          refl
      where
        known :
            (o : Option RetentionExecution)
            → get s tombstone.tombstone_id ≡ o
            → (b : Option (String × RetentionExecution))
            → db.scalar (for_artifact tombstone.artifact_id) s ≡ b
            → Kept (prepare_execution db s now tombstone)
        known (some old) e b f = rw (prepare_execution, e) there
        known none e none f =
            rw (prepare_execution, e, f)
              (put-Kept s tombstone.tombstone_id (new_execution tombstone now) there
                (λ q. absurd (let r : none ≡ some row = sym e ∙ q in ground arith)))
        known none e (some (j, old)) f =
            rw (prepare_execution, e, f) (bound (same_tombstone old.tombstone tombstone))
          where
            bound : (b : Bool) → Kept (require {E = RetentionError} b value_error >> ok (s, old))
            bound true = there
            bound false = tt

    Kept-mark_deleted :
        {X : Type 0} (s : State) (now : ℕ) (id : String) (x : X)
        → get s k ≡ some row
        → Kept (mark_deleted db s now id >>= λ t. ok (t, x))
    unfolding mark_deleted finish
    Kept-mark_deleted s now id x there = elim (Option-cases (get s id)) [
      | inl e ↦ rw e tt
      | inr (old, e) ↦ rw e (
          put-Kept s id (finish now old) there (λ q.
            let same : old ≡ row = (let r : some old ≡ some row = sym e ∙ q in ground arith) in
            rw (same, finish, d) refl))
    ]

    Kept-mark_failed :
        {X : Type 0} (s : State) (id code : String) (x : X)
        → get s k ≡ some row
        → Kept (mark_failed db s id code >>= λ t. ok (t, x))
    unfolding mark_failed note_failure
    Kept-mark_failed s id code x there = elim (Bool-cases (short code)) [
      | inr e ↦ rw (mark_failed, e) tt
      | inl f ↦ elim (Option-cases (get s id)) [
        | inl e ↦ rw (mark_failed, f, e) tt
        | inr (old, e) ↦
            rw (mark_failed, f, e)
              (put-Kept s id (note_failure code old) there (λ q.
                let same : old ≡ row = (let r : some old ≡ some row = sym e ∙ q in ground arith) in
                rw (same, note_failure, d) refl))
      ]
    ]

    Kept-delete_bytes :
        (s : State) (now : ℕ) (planned : RetentionPlan) (tombstone : Tombstone)
        (failure : Option String) (execution : RetentionExecution)
        → get s k ≡ some row
        → Kept {X = ℕ × RetentionPlan}
            (delete_bytes db tombstone_id_of s now planned tombstone failure execution)
    unfolding delete_bytes
    Kept-delete_bytes s now planned tombstone failure execution there =
        go (is_deleted execution.state) refl failure
      where
        go :
            (b : Bool)
            → is_deleted execution.state ≡ b
            → (f : Option String)
            → Kept {X = ℕ × RetentionPlan}
                (delete_bytes db tombstone_id_of s now planned tombstone f execution)
        go true e f = rw (delete_bytes, e) there
        go false e none =
            rw (delete_bytes, e) (Kept-mark_deleted s now tombstone.tombstone_id _ there)
        go false e (some code) =
            rw (delete_bytes, e) (Kept-mark_failed s tombstone.tombstone_id code _ there)

    Kept-carry_out :
        (s : State) (now : ℕ) (dry_run : Bool) (failure : Option String) (planned : RetentionPlan)
        (o : Option Tombstone)
        → get s k ≡ some row
        → Kept {X = ℕ × RetentionPlan}
            (carry_out db tombstone_id_of s now dry_run failure planned o)
    unfolding carry_out
    Kept-carry_out s now dry_run failure planned none there = there
    Kept-carry_out s now true failure planned (some tombstone) there = there
    Kept-carry_out s now false failure planned (some tombstone) there =
        Kept-bind (prepare_execution db s now tombstone) _
          (Kept-prepare_execution s now tombstone there)
          (λ r still. Kept-delete_bytes r.0 now planned tombstone failure r.1 still)

    Kept-record_tombstone :
        (s : State) (now : ℕ) (candidate : RetentionCandidate) (tombstone : Tombstone)
        (o : Option RetentionExecution)
        → get s k ≡ some row
        → Kept (record_tombstone db tombstone_id_of s now candidate tombstone o)
    unfolding record_tombstone
    Kept-record_tombstone s now candidate tombstone (some old) there = there
    Kept-record_tombstone s now candidate tombstone none there =
        Kept-bind (prepare_execution db s now tombstone) _
          (Kept-prepare_execution s now tombstone there) (λ r still. still)

    Kept-if :
        {X : Type 0} (b : Bool) (x y : Outcome RetentionError (State × X))
        → Kept x
        → Kept y
        → Kept (if b then x else y)
    Kept-if true x y a c = a
    Kept-if false x y a c = c

    Kept-plan :
        (policy : RetentionPolicy) (s : State) (now : ℕ) (dry_run : Bool)
        (candidate : RetentionCandidate)
        → get s k ≡ some row
        → Kept (plan db tombstone_id_of policy s now dry_run candidate)
    unfolding plan
    Kept-plan policy s now dry_run candidate there = Kept-if candidate.legal_hold _ _ there (
        Kept-if (ltb now (expires_at policy candidate.artifact_class candidate.created_at)) _ _
          there
          (Kept-if dry_run _ _ there (Kept-record_tombstone s now candidate _ (get s _) there)))

    -- A deleted execution is not changed by any later execution, of any artifact under any policy,
    -- that returns.
    pub deleted_is_final :
        (policy : RetentionPolicy) (s t : State) (now : ℕ) (dry_run : Bool)
        (failure : Option String) (candidate : RetentionCandidate) (calls : ℕ)
        (planned : RetentionPlan)
        → get s k ≡ some row
        → execute db tombstone_id_of policy s now dry_run failure candidate
          ≡ ok (t, (calls, planned))
        → get t k ≡ some row
    unfolding execute
    deleted_is_final policy s t now dry_run failure candidate calls planned there h =
        subst (Kept {X = ℕ × RetentionPlan}) h (
          Kept-bind (plan db tombstone_id_of policy s now dry_run candidate) _
            (Kept-plan policy s now dry_run candidate there)
            (λ r still. Kept-carry_out r.0 now dry_run failure r.1 r.1.tombstone still))
