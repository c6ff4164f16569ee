-- ===== src/Examples/Verification.antt =====
-- A verification job that is leased, retried and completed.
use mathlib.Core.List.Memᴰ.{head}
use stock_content.Prelude.{
  ◌≡◌, refl, String, Option, List, none, some, [], ◌∷◌, ok, raised, arith, eq_iff,
}
use stock_content.Prelude.Batch.{put_all, map_rows}
use stock_content.Prelude.Table.{Table, assoc_table}
use stock_content.Verification.{
  verification_pending, leased, verified, VerificationResult, JobRow, ResultRow, assert_owner,
  close, due, lease_to, claim_due, verification_job_integrity_error,
}
use stock_content.Verification.Completion.{
  values, stamped, verification_id_of, result_available_at, persist_verification_result, recorded,
  complete_result,
}
use stock_content.Verification.Claimed.{claimed_completes, NotClaimable}
use stock_content.Verification.Results.{complete_result-writes, complete_again}
use stock_content.Verification.Enqueue.{
  FinancialClaim, new_job, job_id_of, is_quant_verifiable, enqueue_result, insert_job, trace_job,
  enqueue_job, enqueue_one, enqueue,
}
use stock_content.Verification.Once.{AllServed, enqueue_once}
use stock_content.Verification.Created.{Reports, Retraced}

abbrev jobs : Table JobRow
jobs = assoc_table JobRow

abbrev results : Table ResultRow
results = assoc_table ResultRow

abbrev claim_digest : String → String → VerificationResult → String
claim_digest claim_id provider result = claim_id

abbrev waiting : JobRow
waiting = record {
  job_id = "job";
  claim_id = "claim";
  provider = "quant";
  status = verification_pending;
  retry_count = 0;
  max_retries = 5;
  next_retry_at = some 0;
  lease_owner = none;
  lease_expires_at = none;
  last_error = none;
  trace_id = none;
}

abbrev held_by : String → JobRow
held_by worker_id = record waiting {
  status = leased;
  lease_owner = some worker_id;
  lease_expires_at = some 100;
}

abbrev confirmed : VerificationResult
confirmed = record {
  claim_id = "claim";
  status = verified;
  market_snapshot_id = some "market";
  market_data_version = some "1";
  fact_date = some 5;
  adjustment = none;
  verification_timestamp = some 40;
  verification_rule_version = "verification_rule.v1";
  available_at = some 30;
  rest = "";
}

abbrev worker_b : String
worker_b = "b"

abbrev stored : ResultRow
stored =
    unfold values stamped verification_id_of result_available_at in
    values claim_digest 50 (held_by "a") (stamped 50 confirmed)

abbrev closed : JobRow
closed = unfold close in close verified (held_by "a")

complete_result-writes_example :
    (results.get
        (("claim", stored) ∷ [])
        (verification_id_of claim_digest "claim" "quant" confirmed)
      ≡ some stored)
    × (stored.status ≡ verified)
    × (stored.claim_id ≡ "claim")
    × ((k : String) (row : ResultRow)
        → results.get [] k ≡ some row
        → results.get (("claim", stored) ∷ []) k ≡ some row)
    × (jobs.get (("job", closed) ∷ []) "job" ≡ some (close verified (held_by "a")))
unfolding complete_result recorded persist_verification_result assert_owner close values stamped
    verification_id_of result_available_at
complete_result-writes_example =
    complete_result-writes jobs results claim_digest (("job", held_by "a") ∷ [])
      (("job", closed) ∷ []) [] (("claim", stored) ∷ []) "job" "a" confirmed 50 (held_by "a") stored
      refl refl

-- `b` holds the lease and `c` closes the job
complete_again_example :
    complete_result jobs results claim_digest
      (("job", held_by "b") ∷ [])
      (("claim", stored) ∷ [])
      "job"
      "c"
      confirmed
      70
    ≡ ok (
      jobs.put (("job", held_by "b") ∷ []) "job" (close verified (held_by "b")),
      ("claim", stored) ∷ [],
      stored,
    )
unfolding complete_result recorded persist_verification_result assert_owner close values stamped
    verification_id_of result_available_at
complete_again_example =
    complete_again jobs results claim_digest (("job", held_by "a") ∷ []) (("job", closed) ∷ [])
      (("job", held_by "b") ∷ []) [] (("claim", stored) ∷ []) (("claim", stored) ∷ []) "job" "a"
      "job" "c" confirmed 50 70 (held_by "a") (held_by "b") stored refl refl refl refl refl refl

abbrev price : FinancialClaim
price = record { claim_id = "c"; claim_type = "PRICE"; fact_category = "FACT" }

abbrev other : FinancialClaim
other = record { claim_id = "d"; claim_type = "VALUATION"; fact_category = "FACT" }

abbrev claims : List FinancialClaim
claims = price ∷ other ∷ []

abbrev queued_jobs : Option String → List (String × JobRow)
queued_jobs trace_id =
    ("verify-job-c-quant", new_job 7 "quant" trace_id price)
    ∷ ("verify-job-d-quant", new_job 7 "quant" trace_id other)
    ∷ []

enqueued :
    enqueue jobs results claim_digest "{}" ([], []) 7 "quant" none claims
    ≡ ok ((queued_jobs none, []), "verify-job-c-quant" ∷ "verify-job-d-quant" ∷ [])
unfolding enqueue enqueue_one enqueue_job enqueue_result insert_job trace_job is_quant_verifiable
    job_id_of verification_id_of
enqueued = refl

enqueued_again :
    enqueue jobs results claim_digest "{}" (queued_jobs none, []) 9 "quant" (some "trace") claims
    ≡ ok ((queued_jobs (some "trace"), []), [])
unfolding enqueue enqueue_one enqueue_job enqueue_result insert_job trace_job is_quant_verifiable
    job_id_of verification_id_of
enqueued_again = refl

enqueue_once_example :
    AllServed jobs results claim_digest "{}" (queued_jobs none) "quant" claims
    × Reports jobs [] (queued_jobs none) ("verify-job-c-quant" ∷ "verify-job-d-quant" ∷ [])
    × (◌≡◌ {A = List String} [] [])
    × ((k : String)
        → Retraced (jobs.get (queued_jobs none) k) (jobs.get (queued_jobs (some "trace")) k))
enqueue_once_example =
    enqueue_once jobs results claim_digest "{}" ([], []) (queued_jobs none, [])
      (queued_jobs (some "trace"), []) 7 9 "quant" none (some "trace") claims
      ("verify-job-c-quant" ∷ "verify-job-d-quant" ∷ []) [] enqueued enqueued_again

abbrev started : jobs.State
started = ("job", held_by "a") ∷ []

-- `a` claims the job until 100, and completes it at 50
claimed_completes_example :
    ((t : jobs.State) × (u : results.State) × (x : ResultRow) × (complete_result jobs results
          claim_digest started [] "job" "a" confirmed 50
        ≡ ok (t, u, x))
      × (results.get u (verification_id_of claim_digest "claim" "quant" confirmed) ≡ some x)
      × (x.status ≡ verified)
      × (jobs.get t "job" ≡ some (close verified (held_by "a")))
      × NotClaimable jobs "job" (close verified (held_by "a")))
    × (complete_result jobs results claim_digest started [] "job" "b" confirmed 50
        ≡ raised verification_job_integrity_error)
unfolding claim_due put_all map_rows due lease_to
claimed_completes_example =
    claimed_completes jobs results claim_digest (("job", waiting) ∷ []) started started [] "a" "b"
      10 100 0 50 "job" started (held_by "a") confirmed refl (head refl) refl (omega arith) refl
      refl refl (λ e. let q = (eq_iff "b" "a").1 e in ground arith)
