-- ===== src/Verification/Results.antt =====
-- What completing a verification job writes.
use stock_content.Prelude.{
  ℕ, ◌≤◌, ◌≡◌, refl, ap, sym, subst, ◌∙◌, String, Bool, true, false, none, some, arith, Outcome, ok,
  raised, Option-cases, inl, inr, eq_iff, ◌==◌,
}
use mathlib.Core.Logic.{ite}
use stock_content.Prelude.Table.{Table}
use stock_content.Prelude.Batch.{put-cases}
use stock_content.Verification.{
  VerificationResult, JobRow, ResultRow, JobError, is_unfinished, assert_owner, close,
  verification_job_integrity_error,
}
use stock_content.Verification.Completion.{
  result_available_at, verification_id_of, Frozen-discrete, frozen, values, stamped, checked,
  persist_verification_result, recorded, complete_result,
}

-- A result is visible from no earlier than its completion, its own timestamp and the time it names.
pub result_available_at-bounds :
    (result : VerificationResult) (now t a : ℕ)
    → result.verification_timestamp ≡ some t
    → result.available_at ≡ some a
    → (now ≤ result_available_at result now)
      × (t ≤ result_available_at result now)
      × (a ≤ result_available_at result now)
unfolding result_available_at
result_available_at-bounds result now t a e f = ground arith

module _ (results : Table ResultRow) where
  open results use {State, get, put, get-put}

  -- `checked` on a decision
  outcome : {P : Type 0} → Dec P → State × ResultRow → Outcome JobError (State × ResultRow)
  outcome d x = ite d (ok x) (raised verification_job_integrity_error)

  outcome-same : {P : Type 0} (d : Dec P) (x : State × ResultRow) → P → outcome d x ≡ ok x
  unfolding outcome
  outcome-same (yes p) x h = refl
  outcome-same (no n) x h = absurd (n h)

  outcome-ok : {P : Type 0} (d : Dec P) (x y : State × ResultRow) → outcome d x ≡ ok y → (x ≡ y) × P
  unfolding outcome
  outcome-ok (yes p) x y h = (ground arith, p)
  outcome-ok (no n) x y h = absurd (ground arith)

  checked-same :
      (r : State) (row v : ResultRow)
      → frozen row ≡ frozen v
      → checked results r row v ≡ ok (r, row)
  unfolding checked outcome
  checked-same r row v e = outcome-same (Frozen-discrete (frozen row) (frozen v)) (r, row) e

  checked-ok :
      (r r' : State) (row v x : ResultRow)
      → checked results r row v ≡ ok (r', x)
      → (r' ≡ r) × (x ≡ row) × (frozen row ≡ frozen v)
  unfolding checked outcome
  checked-ok r r' row v x h =
      let (e, p) = outcome-ok (Frozen-discrete (frozen row) (frozen v)) (r, row) (r', x) h in
      (ap (λ y. y.0) (sym e), ap (λ y. y.1) (sym e), p)

  -- what is stored after a row was accepted
  persist-ok :
      (r r' : State) (v x : ResultRow)
      → persist_verification_result results r v ≡ ok (r', x)
      → (get r' v.verification_id ≡ some x)
        × (frozen x ≡ frozen v)
        × ((k : String) (row : ResultRow) → get r k ≡ some row → get r' k ≡ some row)
  unfolding persist_verification_result
  persist-ok r r' v x h = elim (Option-cases (get r v.verification_id)) [
    | inl e ↦
        let o : ok (put r v.verification_id v, v) ≡ ok (r', x) =
          rw (e, persist_verification_result) at h in
        let w : (put r v.verification_id v ≡ r') × (v ≡ x) = ground arith in
        rw (← w.0, ← w.1)
          (
            get-put r v.verification_id v.verification_id v
                ∙ rw ((eq_iff v.verification_id v.verification_id).1 refl),
            refl,
            λ k row there. elim (put-cases results r v.verification_id k v) [
              | inl (q, _) ↦
                  absurd (let c : none ≡ some row = sym e ∙ ap (get r) q ∙ there in ground arith)
              | inr q ↦ q ∙ there
            ],
          )
    | inr (row, e) ↦
        let o : checked results r row v ≡ ok (r', x) = rw (e, persist_verification_result) at h in
        let (a, b, c) = checked-ok r r' row v x o in rw (a, b) (e, c, λ k row there. there)
  ]

-- `v` with the visibility and the payload that `x` has
abbrev keeping : ResultRow → ResultRow → ResultRow
keeping x v = record v { available_at = x.available_at; result_payload = x.result_payload }

keeping-frozen : (x v : ResultRow) → frozen x ≡ frozen v → frozen x ≡ frozen (keeping x v)
unfolding frozen
keeping-frozen x v e =
    let a : x.available_at ≡ v.available_at = ap (λ f. f.available_at) e in
    let p : x.result_payload ≡ v.result_payload = ap (λ f. f.result_payload) e in e ∙ rw (a, p) refl

module _ (jobs : Table JobRow) (results : Table ResultRow)
    (digest : String → String → VerificationResult → String) where
  recorded-ok :
      (r r' : results.State) (worker_id : String) (now : ℕ) (job : JobRow)
      (result : VerificationResult) (x : ResultRow)
      → recorded jobs results digest r worker_id now job result ≡ ok (r', x)
      → (results.get r' (values digest now job result).verification_id ≡ some x)
        × (frozen x ≡ frozen (keeping x (values digest now job result)))
        × ((k : String) (row : ResultRow)
            → results.get r k ≡ some row
            → results.get r' k ≡ some row)
  unfolding recorded
  recorded-ok r r' worker_id now job result x h =
      elim (Option-cases (results.get r (values digest now job result).verification_id)) [
        | inr (row, e) ↦
            let o : persist_verification_result results r
                  (keeping row (values digest now job result))
                ≡ ok (r', x) =
              rw (e, recorded) at h in
            let (a, b, c) =
              persist-ok results r r' (keeping row (values digest now job result)) x o in
            let same : row ≡ x =
              let kept = c (values digest now job result).verification_id row e in
              let q : some row ≡ some x = sym kept ∙ a in ground arith in
            (a, subst (λ z. frozen x ≡ frozen (keeping z (values digest now job result))) same b, c)
        | inl e ↦
            let (a, b, c) = fresh_ok e (assert_owner now worker_id job) refl in
            (a, keeping-frozen x (values digest now job result) b, c)
      ]
    where
      fresh_ok :
          results.get r (values digest now job result).verification_id ≡ none
          → (o : Outcome JobError (Unit {0})) → assert_owner now worker_id job ≡ o
          → (results.get r' (values digest now job result).verification_id ≡ some x)
            × (frozen x ≡ frozen (values digest now job result))
            × ((k : String) (row : ResultRow)
                → results.get r k ≡ some row
                → results.get r' k ≡ some row)
      fresh_ok e (ok _) g =
          persist-ok results r r' (values digest now job result) x (rw (e, g, recorded) at h)
      fresh_ok e (raised _) g =
          absurd (let q : raised _ ≡ ok (r', x) = rw (e, g, recorded) at h in ground arith)

  recorded-again :
      (r : results.State) (worker_id : String) (now : ℕ) (job : JobRow)
      (result : VerificationResult) (x : ResultRow)
      → results.get r (values digest now job result).verification_id ≡ some x
      → frozen x ≡ frozen (keeping x (values digest now job result))
      → recorded jobs results digest r worker_id now job result ≡ ok (r, x)
  unfolding recorded persist_verification_result
  recorded-again r worker_id now job result x e f =
      rw (recorded, e, persist_verification_result, e)
        (checked-same results r x (keeping x (values digest now job result)) f)

  -- a completion that succeeds, taken apart
  completed :
      (s s' : jobs.State) (r r' : results.State) (job_id worker_id : String)
      (result : VerificationResult) (now : ℕ) (job : JobRow) (x : ResultRow)
      → complete_result jobs results digest s r job_id worker_id result now ≡ ok (s', r', x)
      → jobs.get s job_id ≡ some job
      → (is_unfinished result.status ≡ false)
        × ((result.claim_id == job.claim_id) ≡ true)
        × (recorded jobs results digest r worker_id now job (stamped now result) ≡ ok (r', x))
        × (s' ≡ jobs.put s job_id (close result.status job))
  unfolding complete_result
  completed s s' r r' job_id worker_id result now job x h e =
      go (is_unfinished result.status) refl (result.claim_id == job.claim_id) refl
        (recorded jobs results digest r worker_id now job (stamped now result)) refl
    where
      go :
          (b : Bool)
          → is_unfinished result.status ≡ b
          → (c : Bool) → (result.claim_id == job.claim_id) ≡ c
          → (o : Outcome JobError (results.State × ResultRow))
          → recorded jobs results digest r worker_id now job (stamped now result) ≡ o
          → (is_unfinished result.status ≡ false)
            × ((result.claim_id == job.claim_id) ≡ true)
            × (recorded jobs results digest r worker_id now job (stamped now result) ≡ ok (r', x))
            × (s' ≡ jobs.put s job_id (close result.status job))
      go true p c q o g =
          absurd (let k : raised _ ≡ ok (s', r', x) = rw (p, complete_result) at h in ground arith)
      go false p false q o g =
          absurd
            (let k : raised _ ≡ ok (s', r', x) = rw (p, e, q, complete_result) at h in ground arith)
      go false p true q (raised _) g = absurd (
          let k : raised _ ≡ ok (s', r', x) = rw (p, e, q, g, complete_result) at h in ground arith)
      go false p true q (ok (r2, x2)) g =
          let k : ok (jobs.put s job_id (close result.status job), r2, x2) ≡ ok (s', r', x) =
            rw (p, e, q, g, complete_result) at h in
          let w : (jobs.put s job_id (close result.status job) ≡ s') × (r2 ≡ r') × (x2 ≡ x) =
            ground arith in
          (p, q, g ∙ rw (w.1, w.2) refl, sym w.0)

  -- A completion that succeeds stores a row for the result under the identifier of job and result,
  -- changes no row that was stored, and closes the job with the status of the result.
  pub complete_result-writes :
      (s s' : jobs.State) (r r' : results.State) (job_id worker_id : String)
      (result : VerificationResult) (now : ℕ) (job : JobRow) (x : ResultRow)
      → jobs.get s job_id ≡ some job
      → complete_result jobs results digest s r job_id worker_id result now ≡ ok (s', r', x)
      → (results.get r' (verification_id_of digest job.claim_id job.provider result) ≡ some x)
        × (x.status ≡ result.status)
        × (x.claim_id ≡ job.claim_id)
        × ((k : String) (row : ResultRow)
            → results.get r k ≡ some row
            → results.get r' k ≡ some row)
        × (jobs.get s' job_id ≡ some (close result.status job))
  unfolding verification_id_of values stamped frozen
  complete_result-writes s s' r r' job_id worker_id result now job x e h =
      let (_, _, g, w) = completed s s' r r' job_id worker_id result now job x h e in
      let (a, b, c) = recorded-ok r r' worker_id now job (stamped now result) x g in
      (
        a,
        ap (λ f. f.status) b,
        ap (λ f. f.claim_id) b,
        c,
        rw w (
            jobs.get-put s job_id job_id (close result.status job)
            ∙ rw ((eq_iff job_id job_id).1 refl) refl),
      )

  -- After a completion the same result is accepted again at any time for any job of the claim and
  -- the provider and from any worker, whoever holds the lease: it returns the stored row, writes no
  -- result and closes the job.
  pub complete_again :
      (s s' s2 : jobs.State) (r r' r2 : results.State)
      (job_id worker_id job_id2 worker_id2 : String) (result : VerificationResult) (now later : ℕ)
      (job job2 : JobRow) (x : ResultRow)
      → jobs.get s job_id ≡ some job
      → complete_result jobs results digest s r job_id worker_id result now ≡ ok (s', r', x)
      → jobs.get s2 job_id2 ≡ some job2
      → job2.claim_id ≡ job.claim_id
      → job2.provider ≡ job.provider
      → results.get r2 (verification_id_of digest job.claim_id job.provider result) ≡ some x
      → complete_result jobs results digest s2 r2 job_id2 worker_id2 result later
        ≡ ok (jobs.put s2 job_id2 (close result.status job2), r2, x)
  unfolding complete_result verification_id_of values stamped frozen
  complete_again s s' s2 r r' r2 job_id worker_id job_id2 worker_id2 result now later job job2 x e h
        e2 cl pr there =
      let (f, q, g, w) = completed s s' r r' job_id worker_id result now job x h e in
      let (a, b, c) = recorded-ok r r' worker_id now job (stamped now result) x g in
      let same : frozen x ≡ frozen (keeping x (values digest later job2 (stamped later result))) =
        b ∙ rw (cl, pr) refl in
      let id_same : results.get r2 (values digest later job2 (stamped later result)).verification_id
          ≡ some x =
        ap (λ (k : String × String). results.get r2 (verification_id_of digest k.0 k.1 result))
          (λ i. (cl i, pr i))
        ∙ there in
      let q2 : (result.claim_id == job2.claim_id) ≡ true = ap (λ k. result.claim_id == k) cl ∙ q in
      rw (f, e2, q2, recorded-again r2 worker_id2 later job2 (stamped later result) x id_same same)
        refl
