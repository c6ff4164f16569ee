-- ===== src/Verification/Claimed.antt =====
-- A job that `claim_due` handed out, completed by its worker.
use mathlib.Core.List.{Memᴰ}
use stock_content.Prelude.{
  ap, sym, subst, some, List, Bool, true, ℕ, ◌+◌, ◌<◌, ◌≡◌, ◌≢◌, refl, ◌∙◌, String, true, false,
  some, none, arith, ok, raised, ◌>>◌, ◌==◌, Outcome-cases, inl, inr, eq_iff, eq_refl,
}
use stock_content.Prelude.Table.{Table}
use stock_content.Prelude.Batch.{put_all-map_rows}
use stock_content.Verification.{
  JobRow, ResultRow, VerificationResult, VerificationStatus, verification_job_integrity_error,
  is_unfinished, claim_due, due, lease_to, assert_owner, close,
}
use stock_content.Verification.Completion.{
  values, stamped, verification_id_of, persist_verification_result, recorded, complete_result,
}

owner_asked :
    (now later seconds : ℕ) (worker_id : String) (old : JobRow)
    → later < now + seconds
    → assert_owner later worker_id (lease_to now worker_id seconds old) ≡ ok tt
unfolding assert_owner lease_to
owner_asked now later seconds worker_id old h = ground (arith, eq_iff worker_id worker_id)

other_refused :
    (now later seconds : ℕ) (worker_id other : String) (old : JobRow)
    → other ≢ worker_id
    → assert_owner later other (lease_to now worker_id seconds old)
      ≡ raised verification_job_integrity_error
unfolding assert_owner lease_to
other_refused now later seconds worker_id other old ne = ground (arith, eq_iff worker_id other)

closed_stays :
    (status : VerificationStatus) (row : JobRow) (t : ℕ)
    → is_unfinished status ≡ false
    → due t (close status row) ≡ false
unfolding due close
closed_stays status row t f = ground arith

module _ (jobs : Table JobRow) where
  -- while `row` is stored under `job_id`, no claim by any worker at any time hands the job out
  abbrev pub NotClaimable : String → JobRow → Type 0
  NotClaimable job_id row =
      (t : jobs.State) (worker_id : String) (limit seconds now : ℕ) (handed : JobRow)
      → jobs.get t job_id ≡ some row
      → ¬ Memᴰ (job_id, handed) (claim_due jobs t worker_id limit seconds now).1

  closed-NotClaimable :
      (job_id : String) (status : VerificationStatus) (row : JobRow)
      → is_unfinished status ≡ false
      → NotClaimable job_id (close status row)
  unfolding claim_due
  closed-NotClaimable job_id status row f t worker_id limit seconds now handed e m =
      let (_, (old, was, asked, _)) =
        put_all-map_rows jobs (lease_to now worker_id seconds) (due now) t
          (jobs.select (due now) limit t) job_id handed (jobs.select-rows (due now) limit t) m in
      let one : some old ≡ some (close status row) = sym was ∙ e in
      let same : old ≡ close status row = cc in
      let never = closed_stays status row now f in
      let waiting : due now (close status row) ≡ true = rw (← same) asked in
      absurd (let q : ◌≡◌ {A = Bool} true false = sym waiting ∙ never in cc)

module _ (jobs : Table JobRow) (results : Table ResultRow)
    (digest : String → String → VerificationResult → String) where
  -- the row of a completion of `row` at `later`
  abbrev pub written : ℕ → JobRow → VerificationResult → ResultRow
  written later row result = values digest later row (stamped later result)

  recorded_new :
      (r : results.State) (worker_id : String) (now : ℕ) (job : JobRow)
      (result : VerificationResult)
      → results.get r (values digest now job result).verification_id ≡ none
      → recorded jobs results digest r worker_id now job result ≡ (
          assert_owner now worker_id job
          >> ok (
            results.put r
                (values digest now job result).verification_id
                (values digest now job result),
            values digest now job result,
          ))
  unfolding recorded persist_verification_result
  recorded_new r worker_id now job result n = rw (recorded, n, persist_verification_result, n) refl

  absent :
      (r : results.State) (row : JobRow) (result : VerificationResult) (later : ℕ)
      → results.get r (verification_id_of digest row.claim_id row.provider result) ≡ none
      → results.get r (written later row result).verification_id ≡ none
  unfolding values verification_id_of stamped
  absent r row result later n = n

  complete_new :
      (s : jobs.State) (r : results.State) (job_id worker_id : String) (row : JobRow)
      (result : VerificationResult) (later : ℕ)
      → jobs.get s job_id ≡ some row
      → is_unfinished result.status ≡ false
      → result.claim_id == row.claim_id ≡ true
      → results.get r (verification_id_of digest row.claim_id row.provider result) ≡ none
      → complete_result jobs results digest s r job_id worker_id result later ≡ (
          assert_owner later worker_id row
          >> ok (
            jobs.put s job_id (close result.status row),
            results.put r (written later row result).verification_id (written later row result),
            written later row result,
          ))
  unfolding complete_result
  complete_new s r job_id worker_id row result later e f c n =
      let new =
        recorded_new r worker_id later row (stamped later result) (absent r row result later n) in
      elim (Outcome-cases (assert_owner later worker_id row)) [
        | inl (_, o) ↦ rw (complete_result, f, e, c, new, o) refl
        | inr (_, o) ↦ rw (complete_result, f, e, c, new, o) refl
      ]

  -- A job that a claim handed out is completed by its worker until the lease ends, with any final result of
  -- its claim that is not stored yet, whatever calls came in between that left its row as it was handed out:
  -- the call returns and stores the result and the closed job. As long as the row stays closed, as a
  -- reopening does not leave it, no claim hands the job out again. The completion of another worker is refused.
  pub claimed_completes :
      (s s1 s2 : jobs.State) (r : results.State) (worker_id other : String)
      (limit seconds now later : ℕ) (job_id : String) (rows : List (String × JobRow)) (row : JobRow)
      (result : VerificationResult)
      → claim_due jobs s worker_id limit seconds now ≡ (s1, rows)
      → Memᴰ (job_id, row) rows
      → jobs.get s2 job_id ≡ jobs.get s1 job_id
      → later < now + seconds
      → is_unfinished result.status ≡ false
      → result.claim_id == row.claim_id ≡ true
      → results.get r (verification_id_of digest row.claim_id row.provider result) ≡ none
      → other ≢ worker_id
      → let id = verification_id_of digest row.claim_id row.provider result in
        ((t : jobs.State) × (u : results.State) × (x : ResultRow) × (complete_result jobs results
              digest s2 r job_id worker_id result later
            ≡ ok (t, u, x))
          × (results.get u id ≡ some x)
          × (x.status ≡ result.status)
          × (jobs.get t job_id ≡ some (close result.status row))
          × NotClaimable jobs job_id (close result.status row))
        × (complete_result jobs results digest s2 r job_id other result later
            ≡ raised verification_job_integrity_error)
  unfolding claim_due verification_id_of values stamped
  claimed_completes s s1 s2 r worker_id other limit seconds now later job_id rows row result claimed
        m same lt f c n ne =
      let m' : Memᴰ (job_id, row) (claim_due jobs s worker_id limit seconds now).1 =
        subst (λ (p : jobs.State × List (String × JobRow)). Memᴰ (job_id, row) p.1) (sym claimed)
          m in
      let (stored, (old, _, _, made)) =
        put_all-map_rows jobs (lease_to now worker_id seconds) (due now) s
          (jobs.select (due now) limit s) job_id row (jobs.select-rows (due now) limit s) m' in
      let there : jobs.get s2 job_id ≡ some row =
        same
        ∙ ap (λ (p : jobs.State × List (String × JobRow)). jobs.get p.0 job_id) (sym claimed)
        ∙ stored in
      let mine : assert_owner later worker_id row ≡ ok tt =
        rw made (owner_asked now later seconds worker_id old lt) in
      let theirs : assert_owner later other row ≡ raised verification_job_integrity_error =
        rw made (other_refused now later seconds worker_id other old ne) in
      let x = written later row result in
      (
        (
          jobs.put s2 job_id (close result.status row),
          results.put r x.verification_id x,
          x,
          complete_new s2 r job_id worker_id row result later there f c n ∙ (rw mine refl),
          results.get-put r x.verification_id x.verification_id x
              ∙ (rw (eq_refl x.verification_id) refl),
          refl,
          jobs.get-put s2 job_id job_id (close result.status row) ∙ (rw (eq_refl job_id) refl),
          closed-NotClaimable jobs job_id result.status row f,
        ),
        complete_new s2 r job_id other row result later there f c n ∙ (rw theirs refl),
      )
