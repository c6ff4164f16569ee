-- ===== src/Verification.antt =====
-- Verification jobs: src/stock_content/adapters/postgres/repositories/verification_job_repository.py,
-- with the result of src/stock_content/domain/claims.py. Instants are UTC seconds. The locks of
-- `coordination_lock` and of the row queries make the calls of one key one sequence, which is how
-- they are modelled. The completion and the proofs are in the modules below.
pub mod Completion
pub mod Lease
pub mod Results
pub mod Claimed
pub mod Enqueue
pub mod Created
pub mod Once
use stock_content.Prelude.{
  ℕ, ◌+◌, ◌-◌, suc, zero, max, String, Bool, true, false, ◌&&◌, ◌||◌, not, Option, none, some, List,
  [], ◌∷◌, ◌++◌, ltb, leb, nat_eq, if◌then◌else◌, owned_by, opt_eq, filled, is_some, or_else, ◌==◌,
  Outcome, ok, raised, ◌>>=◌, ◌>>◌, found, require,
}
use stock_content.Prelude.Table.{Table}
use stock_content.Prelude.Batch.{put_all, map_rows}

pub data VerificationStatus : Type 0 where
  verification_pending leased manual_review verified contradicted partially_verified not_verifiable
        not_required expired :
      VerificationStatus

pub record VerificationResult : Type 0 where
  pub claim_id : String
  pub status : VerificationStatus
  pub market_snapshot_id : Option String
  pub market_data_version : Option String
  pub fact_date : Option ℕ
  pub adjustment : Option String
  pub verification_timestamp : Option ℕ
  pub verification_rule_version : String
  pub available_at : Option ℕ
  pub rest : String

pub record JobRow : Type 0 where
  pub job_id : String
  pub claim_id : String
  pub provider : String
  pub status : VerificationStatus
  pub retry_count : ℕ
  pub max_retries : ℕ
  pub next_retry_at : Option ℕ
  pub lease_owner : Option String
  pub lease_expires_at : Option ℕ
  pub last_error : Option String
  pub trace_id : Option String

pub record ResultRow : Type 0 where
  pub verification_id : String
  pub claim_id : String
  pub provider : String
  pub status : VerificationStatus
  pub market_snapshot_id : Option String
  pub market_data_version : Option String
  pub result_payload : VerificationResult
  pub trace_id : Option String
  pub fact_date : Option ℕ
  pub adjustment : Option String
  pub verification_timestamp : Option ℕ
  pub verification_rule_version : String
  pub verified_at : Option ℕ
  pub available_at : Option ℕ
  pub created_at : ℕ

pub data JobError : Type 0 where
  key_error verification_job_integrity_error index_error : JobError

-- `RETRY_SCHEDULE_SECONDS`
abbrev pub retry_schedule : List ℕ
retry_schedule = 60 ∷ 300 ∷ 1800 ∷ 7200 ∷ 43200 ∷ []

abbrev pub at_index : List ℕ → ℕ → Option ℕ
at_index [] i = none
at_index (x ∷ xs) zero = some x
at_index (x ∷ xs) (suc i) = at_index xs i

abbrev pub is_leased : VerificationStatus → Bool
is_leased leased = true
is_leased _ = false

-- `status in (PENDING, LEASED)`
abbrev pub is_open : VerificationStatus → Bool
is_open verification_pending = true
is_open leased = true
is_open _ = false

-- `result.status in {PENDING, LEASED, MANUAL_REVIEW}`
abbrev pub is_unfinished : VerificationStatus → Bool
is_unfinished verification_pending = true
is_unfinished leased = true
is_unfinished manual_review = true
is_unfinished _ = false

-- `column IS NULL OR column <= now`
abbrev pub reached : Option ℕ → ℕ → Bool
reached none now = true
reached (some t) now = leb t now

abbrev pub unexpired : Option ℕ → ℕ → Bool
unexpired none now = true
unexpired (some t) now = ltb now t

-- the filter of `claim_due`
unfoldable pub due : ℕ → JobRow → Bool
due now row =
    is_open row.status && reached row.next_retry_at now && reached row.lease_expires_at now

unfoldable pub lease_to : ℕ → String → ℕ → JobRow → JobRow
lease_to now worker_id lease_seconds row = record row {
  status = leased;
  lease_owner = some worker_id;
  lease_expires_at = some (now + lease_seconds);
}

-- `_assert_owner` of a row that is there
unfoldable pub assert_owner : ℕ → String → JobRow → Outcome JobError (Unit {0})
assert_owner now worker_id row = do
  require (is_leased row.status && owned_by row.lease_owner worker_id)
      verification_job_integrity_error
  require (unexpired row.lease_expires_at now) verification_job_integrity_error

abbrev pub failed_once : String → JobRow → JobRow
failed_once error row = record row {
  retry_count = row.retry_count + 1;
  last_error = some error;
  lease_owner = none;
  lease_expires_at = none;
}

-- `mark_retry` after the owner is checked; a delay is read only where the index is not negative
unfoldable pub retry : ℕ → String → JobRow → Outcome JobError JobRow
retry now error row =
    if ltb row.max_retries (row.retry_count + 1)
    then ok (record (failed_once error row) { status = manual_review; next_retry_at = none })
    else (do
      delay ← found (at_index retry_schedule row.retry_count) index_error
      ok (record (failed_once error row) {
        status = verification_pending;
        next_retry_at = some (now + delay);
      }))

unfoldable pub review : String → JobRow → JobRow
review reason row = record row {
  status = manual_review;
  last_error = some reason;
  next_retry_at = none;
  lease_owner = none;
  lease_expires_at = none;
}

unfoldable pub reopen : ℕ → JobRow → JobRow
reopen now row = record row {
  status = verification_pending;
  next_retry_at = some now;
  lease_owner = none;
  lease_expires_at = none;
  last_error = none;
}

unfoldable pub close : VerificationStatus → JobRow → JobRow
close status row = record row {
  status = status;
  lease_owner = none;
  lease_expires_at = none;
  next_retry_at = none;
}

module _ (jobs : Table JobRow) where
  unfoldable pub claim_due : jobs.State → String → ℕ → ℕ → ℕ → jobs.State × List (String × JobRow)
  claim_due s worker_id limit lease_seconds now =
      let rows = jobs.select (due now) limit s in
      let lease = lease_to now worker_id lease_seconds in
      (put_all jobs lease s rows, map_rows lease rows)

  unfoldable pub owned_job : jobs.State → String → String → ℕ → Outcome JobError JobRow
  owned_job s job_id worker_id now = do
    row ← found (jobs.get s job_id) key_error
    assert_owner now worker_id row
    ok row

  unfoldable pub renew_lease : jobs.State → String → String → ℕ → ℕ → Outcome JobError jobs.State
  renew_lease s job_id worker_id lease_seconds now = do
    row ← owned_job s job_id worker_id now
    ok (jobs.put s job_id (record row { lease_expires_at = some (now + lease_seconds) }))

  unfoldable pub mark_retry :
      jobs.State → String → String → String → ℕ → Outcome JobError jobs.State
  mark_retry s job_id worker_id error now = do
    row ← owned_job s job_id worker_id now
    row' ← retry now error row
    ok (jobs.put s job_id row')

  unfoldable pub mark_manual_review :
      jobs.State → String → String → String → ℕ → Outcome JobError jobs.State
  mark_manual_review s job_id worker_id reason now = do
    row ← owned_job s job_id worker_id now
    ok (jobs.put s job_id (review reason row))

  unfoldable pub requeue : jobs.State → String → ℕ → Outcome JobError jobs.State
  requeue s job_id now = do
    row ← found (jobs.get s job_id) key_error
    ok (jobs.put s job_id (reopen now row))
