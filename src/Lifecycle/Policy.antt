-- ===== src/Lifecycle/Policy.antt =====
-- The decisions of the policy over time.
use stock_content.Prelude.{
  ℕ, ◌+◌, ◌≤◌, ◌≡◌, ◌≢◌, refl, String, Bool, true, false, ◌||◌, Option, none, some, arith,
  if◌then◌else◌, ltb, leb, ◌==◌, Bool-cases, inl, inr,
}
use stock_content.Lifecycle.{
  LifecycleEvaluation, FactTime, day_of, target_date, keep, forecast, aged, ttl_for,
  evaluate_lifecycle,
}

forecast_stays :
    (status : String) (as_of later : ℕ) (fact : Option FactTime)
    → as_of ≤ later
    → (forecast status as_of fact).action ≢ "KEEP"
    → forecast status later fact ≡ forecast status as_of fact
forecast_stays status as_of later none le act = absurd (act refl)
forecast_stays status as_of later (some target) le act =
    elim (Bool-cases (leb (target_date target) (day_of as_of))) [
      | inr h ↦ absurd (act (rw h refl))
      | inl h ↦
          let m : day_of as_of ≤ day_of later = omega arith in
          let k : leb (target_date target) (day_of later) ≡ true = ground arith in rw (h, k) refl
    ]

aged_stays :
    (claim_type status : String) (as_of later : ℕ) (from ttl : Option ℕ)
    → as_of ≤ later
    → (aged claim_type status as_of from ttl).action ≢ "KEEP"
    → aged claim_type status later from ttl ≡ aged claim_type status as_of from ttl
aged_stays claim_type status as_of later from none le act = absurd (act refl)
aged_stays claim_type status as_of later none (some ttl) le act =
    absurd (act (let h : ltb (as_of + ttl) as_of ≡ false = ground arith in rw h refl))
aged_stays claim_type status as_of later (some a) (some ttl) le act =
    elim (Bool-cases (ltb (a + ttl) as_of)) [
      | inr h ↦ absurd (act (rw h refl))
      | inl h ↦ let k : ltb (a + ttl) later ≡ true = ground arith in rw (h, k) refl
    ]

-- Knowledge that is due for a review or for being marked stale at some time is due for the same at every
-- later time, as long as nothing else of it changes.
pub due_stays :
    (claim_type status : String) (as_of later : ℕ) (from : Option ℕ) (fact : Option FactTime)
    → as_of ≤ later
    → (evaluate_lifecycle claim_type status as_of from fact).action ≢ "KEEP"
    → evaluate_lifecycle claim_type status later from fact
      ≡ evaluate_lifecycle claim_type status as_of from fact
unfolding evaluate_lifecycle
due_stays claim_type status as_of later from fact le =
    branches (status == "ACTIVE" || status == "VALIDATED") (claim_type == "FORECAST")
  where
    decide : Bool → Bool → ℕ → LifecycleEvaluation
    decide active is_forecast t =
        if active
        then (if is_forecast
            then forecast status t fact
            else aged claim_type status t from (ttl_for claim_type))
        else keep status "NOT_ACTIVE"

    branches :
        (active is_forecast : Bool)
        → (decide active is_forecast as_of).action ≢ "KEEP"
        → decide active is_forecast later ≡ decide active is_forecast as_of
    branches false is_forecast act = refl
    branches true true act = forecast_stays status as_of later fact le act
    branches true false act =
        aged_stays claim_type status as_of later from (ttl_for claim_type) le act
