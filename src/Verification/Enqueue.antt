-- ===== src/Verification/Enqueue.antt =====
-- Enqueueing verification jobs: `enqueue` of
-- src/stock_content/adapters/postgres/repositories/verification_job_repository.py. The text of the
-- values of a result that are not set is a parameter, and so is the digest of its identity.
use mathlib.Core.Logic.{ite}
use stock_content.Prelude.{
  ℕ, String, Bool, true, false, ◌&&◌, not, Option, none, some, List, [], ◌∷◌, if◌then◌else◌,
  is_some, one_of, filled, ◌==◌, Outcome, ok, raised, ◌>>=◌,
}
use Prim.Native.String.{◌++◌}
use stock_content.Prelude.Table.{Table}
use stock_content.Verification.{
  verification_pending, not_verifiable, not_required, VerificationResult, JobRow, ResultRow,
  JobError, verification_job_integrity_error,
}
use stock_content.Verification.Completion.{verification_id_of, VerificationResult-discrete}

pub data EnqueueError : Type 0 where
  job_error : JobError → EnqueueError
  runtime_error integrity_error : EnqueueError

-- what is read of a claim
pub record FinancialClaim : Type 0 where
  pub claim_id : String
  pub claim_type : String
  pub fact_category : String

-- `QUANT_VERIFIABLE_TYPES`
abbrev quant_verifiable_types : List String
quant_verifiable_types = "PRICE" ∷ "RETURN" ∷ "VALUATION" ∷ "FINANCIAL_METRIC" ∷ []

unfoldable pub is_quant_verifiable : FinancialClaim → Bool
is_quant_verifiable claim = one_of claim.claim_type quant_verifiable_types

-- the condition of the query for a job
abbrev pub job_for : String → String → JobRow → Bool
job_for claim_id provider row = row.claim_id == claim_id && row.provider == provider

-- `f"verify-job-{claim.claim_id}-{provider}"`
unfoldable pub job_id_of : String → String → String
job_id_of claim_id provider = "verify-job-" ++ claim_id ++ "-" ++ provider

abbrev pub new_job : ℕ → String → Option String → FinancialClaim → JobRow
new_job current provider trace_id claim = record {
  job_id = job_id_of claim.claim_id provider;
  claim_id = claim.claim_id;
  provider = provider;
  status = verification_pending;
  retry_count = 0;
  max_retries = 5;
  next_retry_at = some current;
  lease_owner = none;
  lease_expires_at = none;
  last_error = none;
  trace_id = trace_id;
}

-- the result of a claim that needs no verification
abbrev pub result_of : String → FinancialClaim → VerificationResult
result_of unset claim = record {
  claim_id = claim.claim_id;
  status = if claim.fact_category == "FACT" then not_verifiable else not_required;
  market_snapshot_id = none;
  market_data_version = none;
  fact_date = none;
  adjustment = none;
  verification_timestamp = none;
  verification_rule_version = "verification_rule.v1";
  available_at = none;
  rest = unset;
}

abbrev pub result_row :
    (String → String → VerificationResult → String)
    → ℕ
    → String
    → Option String
    → VerificationResult
    → ResultRow
result_row digest current provider trace_id result = record {
  verification_id = verification_id_of digest result.claim_id provider result;
  claim_id = result.claim_id;
  provider = provider;
  status = result.status;
  market_snapshot_id = none;
  market_data_version = none;
  result_payload = result;
  trace_id = trace_id;
  fact_date = result.fact_date;
  adjustment = result.adjustment;
  verification_timestamp = result.verification_timestamp;
  verification_rule_version = result.verification_rule_version;
  verified_at = result.verification_timestamp;
  available_at = some current;
  created_at = current;
}

-- the truth value of an optional text
abbrev pub present : Option String → Bool
present none = false
present (some s) = filled s

-- `if trace_id and not row.trace_id: row.trace_id = trace_id`
abbrev pub traced : Option String → JobRow → JobRow
traced trace_id row =
    if present trace_id && not (present row.trace_id)
    then record row { trace_id = trace_id }
    else row

module _ (results : Table ResultRow) (digest : String → String → VerificationResult → String)
    (unset : String) where
  abbrev pub same_result :
      results.State → VerificationResult → Option ResultRow → Outcome EnqueueError results.State
  same_result r result none = raised runtime_error
  same_result r result (some row) =
      ite (VerificationResult-discrete row.result_payload result) (ok r)
        (raised (job_error verification_job_integrity_error))

  -- the branch of a claim that is not verifiable by Quant
  unfoldable pub enqueue_result :
      results.State
      → ℕ
      → String
      → Option String
      → FinancialClaim
      → Outcome EnqueueError results.State
  enqueue_result r current provider trace_id claim =
      let result = result_of unset claim in
      let id = verification_id_of digest claim.claim_id provider result in
      let inserted =
        if is_some (results.get r id)
        then r
        else results.put r id (result_row digest current provider trace_id result) in
      same_result inserted result (results.get inserted id)

module _ (jobs : Table JobRow) where
  -- `_insert_ignore` with the unique columns `claim_id` and `provider`, and whether it inserted; a clash of
  -- the primary key alone raises
  unfoldable pub insert_job :
      jobs.State → JobRow → Option (String × JobRow) → Outcome EnqueueError (jobs.State × Bool)
  insert_job j row (some _) = ok (j, false)
  insert_job j row none =
      if is_some (jobs.get j row.job_id)
      then raised integrity_error
      else ok (jobs.put j row.job_id row, true)

  -- the rest of the branch, after the insert: the job's identifier where it was inserted
  unfoldable pub trace_job :
      jobs.State
      → Option String
      → Bool
      → Option (String × JobRow)
      → Outcome EnqueueError (jobs.State × Option String)
  trace_job j trace_id inserted none = raised runtime_error
  trace_job j trace_id inserted (some (k, row)) =
      ok (jobs.put j k (traced trace_id row), if inserted then some row.job_id else none)

  unfoldable pub enqueue_job :
      jobs.State
      → ℕ
      → String
      → Option String
      → FinancialClaim
      → Outcome EnqueueError (jobs.State × Option String)
  enqueue_job j current provider trace_id claim =
      insert_job j (new_job current provider trace_id claim)
        (jobs.scalar (λ row. job_for claim.claim_id provider row) j)
      >>= λ r.
          trace_job r.0 trace_id r.1 (jobs.scalar (λ row. job_for claim.claim_id provider row) r.0)

  abbrev pub with_created : Option String → List String → List String
  with_created none l = l
  with_created (some id) l = id ∷ l

  module _ (results : Table ResultRow) (digest : String → String → VerificationResult → String)
      (unset : String) where
    -- the body of the loop
    unfoldable pub enqueue_one :
        jobs.State × results.State
        → ℕ
        → String
        → Option String
        → FinancialClaim
        → Outcome EnqueueError ((jobs.State × results.State) × Option String)
    enqueue_one s current provider trace_id claim =
        if is_quant_verifiable claim
        then (enqueue_job s.0 current provider trace_id claim >>= λ r. ok ((r.0, s.1), r.1))
        else (enqueue_result results digest unset s.1 current provider trace_id claim >>= λ r.
            ok ((s.0, r), none))

    -- `enqueue`, with the identifiers of the jobs it created
    unfoldable pub enqueue :
        jobs.State × results.State
        → ℕ
        → String
        → Option String
        → List FinancialClaim
        → Outcome EnqueueError ((jobs.State × results.State) × List String)
    enqueue s current provider trace_id [] = ok (s, [])
    enqueue s current provider trace_id (claim ∷ claims) =
        enqueue_one s current provider trace_id claim >>= λ r.
        (enqueue r.0 current provider trace_id claims >>= λ rest.
        ok (rest.0, with_created r.1 rest.1))
