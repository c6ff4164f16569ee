-- ===== src/Verification/Completion.antt =====
-- Completing a verification job: `complete_result` and `persist_verification_result` of
-- src/stock_content/adapters/postgres/repositories/verification_job_repository.py.
use stock_content.Prelude.{
  ℕ, max, String, not, Option, none, some, or_else, ◌==◌, Outcome, ok, raised, ◌>>=◌, ◌>>◌, found,
  require,
}
use mathlib.Core.Logic.{ite}
use native.Mathlib.Decide.{ℕ_discrete}
use stock_content.Prelude.Same.{String-discrete}
use stock_content.Prelude.Table.{Table}
use stock_content.Verification.{
  VerificationStatus, VerificationResult, JobRow, ResultRow, JobError, key_error,
  verification_job_integrity_error, is_unfinished, assert_owner, close,
}

abbrev pub max_with : Option ℕ → ℕ → ℕ
max_with none n = n
max_with (some t) n = max t n

-- `_result_available_at`
unfoldable pub result_available_at : VerificationResult → ℕ → ℕ
result_available_at result fallback =
    max_with result.verification_timestamp (max (or_else result.available_at fallback) fallback)

-- `verification_id_of`: the digest of the claim, the provider and the result without its
-- `available_at`
unfoldable pub verification_id_of :
    (String → String → VerificationResult → String) → String → String → VerificationResult → String
verification_id_of digest claim_id provider result =
    digest claim_id provider (record result { available_at = none })

pub VerificationResult-discrete : Discrete VerificationResult
VerificationResult-discrete = hlevel (String-discrete, ℕ_discrete)

-- `immutable_fields`
pub record Frozen : Type 0 where
  pub claim_id : String
  pub provider : String
  pub status : VerificationStatus
  pub market_snapshot_id : Option String
  pub market_data_version : Option String
  pub result_payload : VerificationResult
  pub fact_date : Option ℕ
  pub adjustment : Option String
  pub verification_timestamp : Option ℕ
  pub verification_rule_version : String
  pub verified_at : Option ℕ
  pub available_at : Option ℕ

pub Frozen-discrete : Discrete Frozen
Frozen-discrete = hlevel (String-discrete, ℕ_discrete)

unfoldable pub frozen : ResultRow → Frozen
frozen row = record {
  claim_id = row.claim_id;
  provider = row.provider;
  status = row.status;
  market_snapshot_id = row.market_snapshot_id;
  market_data_version = row.market_data_version;
  result_payload = row.result_payload;
  fact_date = row.fact_date;
  adjustment = row.adjustment;
  verification_timestamp = row.verification_timestamp;
  verification_rule_version = row.verification_rule_version;
  verified_at = row.verified_at;
  available_at = row.available_at;
}

-- the `values` of `complete_result`
unfoldable pub values :
    (String → String → VerificationResult → String) → ℕ → JobRow → VerificationResult → ResultRow
values digest now job result = record {
  verification_id = verification_id_of digest job.claim_id job.provider result;
  claim_id = job.claim_id;
  provider = job.provider;
  status = result.status;
  market_snapshot_id = result.market_snapshot_id;
  market_data_version = result.market_data_version;
  result_payload = result;
  trace_id = job.trace_id;
  fact_date = result.fact_date;
  adjustment = result.adjustment;
  verification_timestamp = result.verification_timestamp;
  verification_rule_version = result.verification_rule_version;
  verified_at = result.verification_timestamp;
  available_at = some (result_available_at result now);
  created_at = now;
}

-- `result.model_copy(update={"available_at": …})`
unfoldable pub stamped : ℕ → VerificationResult → VerificationResult
stamped now result = record result { available_at = some (result_available_at result now) }

module _ (results : Table ResultRow) where
  -- what the read after the insert is compared with
  unfoldable pub checked :
      results.State → ResultRow → ResultRow → Outcome JobError (results.State × ResultRow)
  checked r row v =
      ite (Frozen-discrete (frozen row) (frozen v)) (ok (r, row))
        (raised verification_job_integrity_error)

  -- `persist_verification_result`: the first row under an identifier stays
  unfoldable pub persist_verification_result :
      results.State → ResultRow → Outcome JobError (results.State × ResultRow)
  persist_verification_result r v = elim (results.get r v.verification_id) [
    | none ↦ ok (results.put r v.verification_id v, v)
    | some row ↦ checked r row v
  ]

module _ (jobs : Table JobRow) (results : Table ResultRow)
    (digest : String → String → VerificationResult → String) where
  -- The owner is asked for only where the result is new; a stored result keeps its payload and the
  -- time from which it is visible.
  unfoldable pub recorded :
      results.State
      → String
      → ℕ
      → JobRow
      → VerificationResult
      → Outcome JobError (results.State × ResultRow)
  recorded r worker_id now job result =
      let v = values digest now job result in
      elim (results.get r v.verification_id) [
        | some existing ↦ persist_verification_result results r (record v {
          available_at = existing.available_at;
          result_payload = existing.result_payload;
        })
        | none ↦ assert_owner now worker_id job >> persist_verification_result results r v
      ]

  unfoldable pub complete_result :
      jobs.State
      → results.State
      → String
      → String
      → VerificationResult
      → ℕ
      → Outcome JobError (jobs.State × results.State × ResultRow)
  complete_result s r job_id worker_id result now = do
    require (not (is_unfinished result.status)) verification_job_integrity_error
    job ← found (jobs.get s job_id) key_error
    require (result.claim_id == job.claim_id) verification_job_integrity_error
    (r', row) ← recorded r worker_id now job (stamped now result)
    ok (jobs.put s job_id (close result.status job), r', row)
