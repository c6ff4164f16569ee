-- ===== src/Lifecycle.antt =====
-- The lifecycle of knowledge: src/stock_content/domain/lifecycle_event.py,
-- src/stock_content/domain/lifecycle_policy.py, src/stock_content/domain/knowledge_lifecycle.py and
-- src/stock_content/adapters/postgres/repositories/lifecycle_repository.py. Instants are UTC
-- microseconds. The SHA-256 behind the identifier of an event is a parameter. The proofs are in the
-- modules below.
pub mod Order
pub mod Selection
pub mod Policy
pub mod Ledger
use stock_content.Prelude.{
  ℕ, ◌+◌, ◌-◌, ◌*◌, ◌/◌, String, Bool, true, false, ◌&&◌, ◌||◌, not, Option, none, some, List, [],
  ◌∷◌, if◌then◌else◌, ltb, leb, nat_eq, opt_eq, one_of, or_else, filled, ◌==◌, Outcome, ok, raised,
  ◌>>=◌, ◌>>◌, require,
}
use stock_content.Prelude.Table.{Table}
use Prim.Native.Char.{Char, code}

pub data LifecycleTargetType : Type 0 where
  claim occurrence : LifecycleTargetType

pub record KnowledgeLifecycleEvent : Type 0 where
  pub lifecycle_event_id : String
  pub target_type : LifecycleTargetType
  pub target_id : String
  pub from_status : Option String
  pub to_status : String
  pub effective_at : ℕ
  pub recorded_at : ℕ
  pub reason_code : String
  pub policy_version : String
  pub supersedes_event_id : Option String

pub data LifecycleError : Type 0 where
  value_error : LifecycleError

abbrev pub same_type : LifecycleTargetType → LifecycleTargetType → Bool
same_type claim claim = true
same_type occurrence occurrence = true
same_type _ _ = false

-- `_identity`, where the hash does not read the identifier, `recorded_at` and `supersedes_event_id`
unfoldable pub identify :
    (LifecycleTargetType → String → Option String → String → ℕ → String → String → String)
    → KnowledgeLifecycleEvent
    → KnowledgeLifecycleEvent
identify id_of event = record event {
  lifecycle_event_id =
      if filled event.lifecycle_event_id
      then event.lifecycle_event_id
      else id_of event.target_type event.target_id event.from_status event.to_status
          event.effective_at event.reason_code event.policy_version;
}

-- the order of texts by code points
abbrev pub text_lt : String → String → Bool
text_lt String.[] String.[] = false
text_lt String.[] (String.◌∷◌ d t) = true
text_lt (String.◌∷◌ c s) String.[] = false
text_lt (String.◌∷◌ c s) (String.◌∷◌ d t) =
    ltb (code c) (code d) || nat_eq (code c) (code d) && text_lt s t

-- the order of `(effective_at, recorded_at, lifecycle_event_id)`
unfoldable pub earlier : KnowledgeLifecycleEvent → KnowledgeLifecycleEvent → Bool
earlier a b =
    ltb a.effective_at b.effective_at
    || nat_eq a.effective_at b.effective_at
      && (ltb a.recorded_at b.recorded_at
          || nat_eq a.recorded_at b.recorded_at
            && text_lt a.lifecycle_event_id b.lifecycle_event_id)

-- the filter of the candidates
unfoldable pub is_candidate : LifecycleTargetType → String → ℕ → ℕ → KnowledgeLifecycleEvent → Bool
is_candidate target_type target_id business_as_of knowledge_as_of event =
    same_type event.target_type target_type
    && event.target_id == target_id
    && leb event.effective_at business_as_of
    && leb event.recorded_at knowledge_as_of

-- `max` from the second element on: the first of the greatest
unfoldable pub maximum :
    KnowledgeLifecycleEvent → List KnowledgeLifecycleEvent → KnowledgeLifecycleEvent
maximum best [] = best
maximum best (e ∷ events) = maximum (if earlier best e then e else best) events

abbrev pub max_or_none : List KnowledgeLifecycleEvent → Option KnowledgeLifecycleEvent
max_or_none [] = none
max_or_none (e ∷ events) = some (maximum e events)

abbrev pub filter :
    (KnowledgeLifecycleEvent → Bool) → List KnowledgeLifecycleEvent → List KnowledgeLifecycleEvent
filter p [] = []
filter p (e ∷ events) = let rest = filter p events in if p e then e ∷ rest else rest

unfoldable pub select_lifecycle_event :
    List KnowledgeLifecycleEvent
    → LifecycleTargetType
    → String
    → ℕ
    → ℕ
    → Option KnowledgeLifecycleEvent
select_lifecycle_event events target_type target_id business_as_of knowledge_as_of =
    max_or_none (filter (is_candidate target_type target_id business_as_of knowledge_as_of) events)

-- the comparison of `append_in_session`
abbrev pub same_event : KnowledgeLifecycleEvent → KnowledgeLifecycleEvent → Bool
same_event row event =
    same_type row.target_type event.target_type
    && row.target_id == event.target_id
    && opt_eq row.from_status event.from_status
    && row.to_status == event.to_status
    && nat_eq row.effective_at event.effective_at
    && nat_eq row.recorded_at event.recorded_at
    && row.reason_code == event.reason_code
    && row.policy_version == event.policy_version
    && opt_eq row.supersedes_event_id event.supersedes_event_id

-- A row of the ledger has the fields of an event.
module _ (ledger : Table KnowledgeLifecycleEvent) where
  unfoldable pub append_in_session :
      ledger.State
      → KnowledgeLifecycleEvent
      → Outcome LifecycleError (ledger.State × KnowledgeLifecycleEvent)
  append_in_session s event = elim (ledger.get s event.lifecycle_event_id) [
    | none ↦ ok (ledger.put s event.lifecycle_event_id event, event)
    | some row ↦ require (same_event row event) value_error >> ok (s, event)
  ]

pub record LifecycleEvaluation : Type 0 where
  pub current_status : String
  pub action : String
  pub reason_code : String

abbrev terminal_statuses : List String
terminal_statuses = "REJECTED" ∷ "RETIRED" ∷ "RETRACTED" ∷ "INVALID" ∷ "SUPERSEDED" ∷ []

-- `LifecyclePolicy.evaluate`
unfoldable pub evaluate : String → String → Bool → LifecycleEvaluation
evaluate claim_type current_status target_expired =
    if one_of current_status terminal_statuses
    then record { current_status = current_status; action = "KEEP"; reason_code = "TERMINAL" }
    else if target_expired && claim_type == "FORECAST" && current_status == "ACTIVE"
    then record {
      current_status = current_status;
      action = "OUTCOME_REVIEW";
      reason_code = "FORECAST_TARGET_DATE_REACHED";
    }
    else record { current_status = current_status; action = "KEEP"; reason_code = "WITHIN_POLICY" }

-- a duration in microseconds
abbrev hours : ℕ → ℕ
hours n = n * 3600000000

abbrev days : ℕ → ℕ
days n = hours (n * 24)

-- `KNOWLEDGE_TTL.get(claim_type)`
unfoldable pub ttl_for : String → Option ℕ
ttl_for claim_type =
    if claim_type == "PRICE" || claim_type == "RETURN"
    then some (hours 1)
    else if claim_type == "VALUATION"
    then some (days 1)
    else if claim_type == "FINANCIAL_METRIC" || claim_type == "CORPORATE_EVENT"
    then some (days 3650)
    else if claim_type == "OPINION"
    then some (days 90)
    else none

-- a `datetime` or a `date`, which is its day since the epoch
pub data FactTime : Type 0 where
  instant : ℕ → FactTime
  day : ℕ → FactTime

abbrev pub day_of : ℕ → ℕ
day_of t = t / days 1

abbrev pub target_date : FactTime → ℕ
target_date (instant t) = day_of t
target_date (day d) = d

abbrev pub keep : String → String → LifecycleEvaluation
keep status reason = record { current_status = status; action = "KEEP"; reason_code = reason }

abbrev pub forecast : String → ℕ → Option FactTime → LifecycleEvaluation
forecast status as_of none = keep status "FORECAST_PENDING"
forecast status as_of (some target) =
    if leb (target_date target) (day_of as_of)
    then record {
      current_status = status;
      action = "OUTCOME_REVIEW";
      reason_code = "FORECAST_TARGET_DATE_REACHED";
    }
    else keep status "FORECAST_PENDING"

-- with the difference `as_of - anchor` as a sum on the other side
abbrev pub aged : String → String → ℕ → Option ℕ → Option ℕ → LifecycleEvaluation
aged claim_type status as_of available_from none = keep status "EVENT_DRIVEN"
aged claim_type status as_of available_from (some ttl) =
    if ltb (or_else available_from as_of + ttl) as_of
    then record {
      current_status = status;
      action = "MARK_STALE";
      reason_code = Prim.Native.String.◌++◌ "TTL_EXPIRED:" claim_type;
    }
    else keep status "WITHIN_TTL"

unfoldable pub evaluate_lifecycle :
    String → String → ℕ → Option ℕ → Option FactTime → LifecycleEvaluation
evaluate_lifecycle claim_type current_status as_of available_from fact_time =
    if current_status == "ACTIVE" || current_status == "VALIDATED"
    then (if claim_type == "FORECAST"
        then forecast current_status as_of fact_time
        else aged claim_type current_status as_of available_from (ttl_for claim_type))
    else keep current_status "NOT_ACTIVE"

abbrev outcome_review_outcomes : List String
outcome_review_outcomes =
    "VALIDATED" ∷ "VERIFIED" ∷ "CONTRADICTED" ∷ "PARTIALLY_VERIFIED" ∷ "NOT_VERIFIABLE" ∷ []

-- `LifecyclePolicy.outcome_review_evaluation`, whose `str.upper` is a parameter
unfoldable pub outcome_review_evaluation :
    (String → String) → String → Outcome LifecycleError LifecycleEvaluation
outcome_review_evaluation upper verification_status =
    let given = upper verification_status in
    let status = if given == "VERIFIED" then "VALIDATED" else given in
    require (one_of given outcome_review_outcomes) value_error
    >> ok (record {
      current_status = "OUTCOME_REVIEW";
      action = status;
      reason_code = Prim.Native.String.◌++◌ "OUTCOME_REVIEW_RESULT:" status;
    })

-- `outcome_review_event` for a claim
unfoldable pub outcome_review_event :
    (String → String)
    → (LifecycleTargetType → String → Option String → String → ℕ → String → String → String)
    → String
    → String
    → ℕ
    → ℕ
    → String
    → Outcome LifecycleError KnowledgeLifecycleEvent
outcome_review_event upper id_of claim_id verification_status effective_at recorded_at
      policy_version =
    outcome_review_evaluation upper verification_status >>= λ evaluation. ok (
      identify id_of (record {
        lifecycle_event_id = "";
        target_type = claim;
        target_id = claim_id;
        from_status = some evaluation.current_status;
        to_status = evaluation.action;
        effective_at = effective_at;
        recorded_at = recorded_at;
        reason_code = evaluation.reason_code;
        policy_version = policy_version;
        supersedes_event_id = none;
      }))
