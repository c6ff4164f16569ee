-- ===== src/Verification/Lease.antt =====
-- What the lease of a verification job guards, and how its retries end.
use stock_content.Prelude.{
  ℕ, zero, suc, ◌+◌, ◌≤◌, ◌<◌, ◌≡◌, ◌≢◌, ◌↔◌, refl, String, true, false, some, arith, ok, ltb,
  Bool-cases, inl, inr, if◌then◌else◌, leb, eq_iff,
}
use stock_content.Verification.{
  verification_pending, manual_review, JobRow, due, lease_to, assert_owner, retry, retry_schedule,
  at_index,
}

-- A due job that `claim_due` leases is the claimer's exactly until the lease ends, is no other
-- worker's while the row stays so, and is due again exactly when the lease has ended.
pub claimed_exclusive :
    (now t seconds : ℕ) (worker_id other : String) (row : JobRow)
    → due now row ≡ true
    → now ≤ t
    → other ≢ worker_id
    → (assert_owner t worker_id (lease_to now worker_id seconds row) ≡ ok tt ↔ t < now + seconds)
      × (assert_owner t other (lease_to now worker_id seconds row) ≢ ok tt)
      × (due t (lease_to now worker_id seconds row) ≡ true ↔ now + seconds ≤ t)
unfolding due lease_to assert_owner
claimed_exclusive now t seconds worker_id other row d le ne = (
  (
    λ h. ground (arith, eq_iff worker_id worker_id),
    λ h. ground (arith, eq_iff worker_id worker_id),
  ),
  (λ h. ground (arith, eq_iff worker_id other)),
  (λ h. ground arith, λ h. ground arith),
)

delay_of : (n : ℕ) → n < 5 → (d : ℕ) × (at_index retry_schedule n ≡ some d) × (0 < d)
delay_of zero h = (60, refl, omega arith)
delay_of (suc zero) h = (300, refl, omega arith)
delay_of (suc (suc zero)) h = (1800, refl, omega arith)
delay_of (suc (suc (suc zero))) h = (7200, refl, omega arith)
delay_of (suc (suc (suc (suc zero)))) h = (43200, refl, omega arith)
delay_of (suc (suc (suc (suc (suc n))))) h = absurd (omega arith)

-- A job whose limit of retries is at most five can always be retried: it waits for a later time
-- while retries are left, goes to manual review when they are used up, and is not due at that
-- instant either way.
pub retry_total :
    (now : ℕ) (error : String) (row : JobRow)
    → row.max_retries ≤ 5
    → (row' : JobRow) × (retry now error row ≡ ok row')
      × (due now row' ≡ false)
      × (row'.status
          ≡ (if leb row.max_retries row.retry_count then manual_review else verification_pending))
unfolding retry due
retry_total now error row le = elim (Bool-cases (ltb row.max_retries (row.retry_count + 1))) [
  | inl over ↦ rw over (_, refl, refl, ground arith)
  | inr left ↦
      let (d, e, later) = delay_of row.retry_count (ground arith) in
      rw (left, e) (_, refl, ground arith, ground arith)
]
