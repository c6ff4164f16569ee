-- ===== src/Claims.antt =====
-- Claim state events: src/stock_content/domain/claim_state_event.py and
-- src/stock_content/adapters/postgres/repositories/claim_event_repository.py. Instants are UTC
-- seconds, so the check of the time zone has nothing to do; a payload is its canonical text; the
-- two SHA-256 identities are parameters. The table is the list of its rows, and the locks of
-- `append_in_session` make the calls for one claim one sequence. The proofs are in the modules below.
pub mod Chain
pub mod Append
use stock_content.Prelude.{
  ℕ, zero, suc, String, Bool, true, false, ◌&&◌, ◌||◌, not, Option, none, some, List, [], ◌∷◌, ltb,
  leb, nat_eq, if◌then◌else◌, opt_eq, filled, is_some, ◌==◌, Outcome, ok, raised, ◌>>=◌, ◌>>◌,
  require,
}

pub record ClaimStateEvent : Type 0 where
  pub claim_id : String
  pub event_type : String
  pub payload : String
  pub known_from : Option ℕ
  pub business_valid_from : Option ℕ
  pub business_valid_to : Option ℕ
  pub known_to : Option ℕ
  pub source_available_from : Option ℕ
  pub previous_event_hash : Option String
  pub event_id : String
  pub event_hash : String
  pub legacy_history_incomplete : Bool

-- `diverges` is no error of the program: the bound on a loop was too small.
pub data ClaimError : Type 0 where
  value_error diverges : ClaimError

-- `a and b and a > b` of optional instants
abbrev pub reversed : Option ℕ → Option ℕ → Bool
reversed (some a) (some b) = ltb b a
reversed _ _ = false

-- what `identity_payload` keeps of an event
abbrev pub identity_payload : ClaimStateEvent → ClaimStateEvent
identity_payload event = record event { event_id = ""; event_hash = "" }

abbrev pub logical_identity_payload : ClaimStateEvent → ClaimStateEvent
logical_identity_payload event = record (identity_payload event) { previous_event_hash = none }

abbrev pub instant_eq : Option ℕ → Option ℕ → Bool
instant_eq none none = true
instant_eq (some a) (some b) = nat_eq a b
instant_eq _ _ = false

abbrev pub same_flag : Bool → Bool → Bool
same_flag true b = b
same_flag false b = not b

-- the comparison of the fields but for the identifier
abbrev pub same_event : ClaimStateEvent → ClaimStateEvent → Bool
same_event a b =
    a.claim_id == b.claim_id
    && a.event_type == b.event_type
    && a.payload == b.payload
    && instant_eq a.known_from b.known_from
    && instant_eq a.known_to b.known_to
    && instant_eq a.business_valid_from b.business_valid_from
    && instant_eq a.business_valid_to b.business_valid_to
    && instant_eq a.source_available_from b.source_available_from
    && opt_eq a.previous_event_hash b.previous_event_hash
    && a.event_hash == b.event_hash
    && same_flag a.legacy_history_incomplete b.legacy_history_incomplete

-- `event_logical_identity(a) == event_logical_identity(b)`
abbrev pub same_logical : ClaimStateEvent → ClaimStateEvent → Bool
same_logical a b = same_event (logical_identity_payload a) (logical_identity_payload b)

-- `known_from is not None and known_from <= t`
abbrev pub begun : Option ℕ → ℕ → Bool
begun none t = false
begun (some a) t = leb a t

-- `limit is not None and t >= limit`
abbrev pub ended : Option ℕ → ℕ → Bool
ended none t = false
ended (some b) t = leb b t

-- `start is not None and t < start`
abbrev pub before : Option ℕ → ℕ → Bool
before none t = false
before (some a) t = ltb t a

unfoldable pub visible_at : ClaimStateEvent → ℕ → ℕ → ℕ → Bool
visible_at event business_as_of knowledge_as_of availability_as_of =
    if event.legacy_history_incomplete || not (is_some event.known_from)
    then false
    else if before event.known_from knowledge_as_of || ended event.known_to knowledge_as_of
    then false
    else if not (begun event.source_available_from availability_as_of)
    then false
    else if before event.business_valid_from business_as_of
    then false
    else not (ended event.business_valid_to business_as_of)

-- `by_previous` has the key
abbrev pub has_previous : Option String → List ClaimStateEvent → Bool
has_previous p [] = false
has_previous p (e ∷ es) = opt_eq e.previous_event_hash p || has_previous p es

-- no two events have one predecessor
abbrev pub distinct_previous : List ClaimStateEvent → Bool
distinct_previous [] = true
distinct_previous (e ∷ es) = not (has_previous e.previous_event_hash es) && distinct_previous es

abbrev pub push :
    ClaimStateEvent
    → Option (ClaimStateEvent × List ClaimStateEvent)
    → Option (ClaimStateEvent × List ClaimStateEvent)
push e none = none
push e (some (x, es)) = some (x, e ∷ es)

-- `by_previous.pop(previous, None)`, with what is left
unfoldable pub pop :
    Option String → List ClaimStateEvent → Option (ClaimStateEvent × List ClaimStateEvent)
pop p [] = none
pop p (e ∷ es) =
    let rest = pop p es in if opt_eq e.previous_event_hash p then some (e, es) else push e rest

abbrev pub size : List ClaimStateEvent → ℕ
size [] = zero
size (_ ∷ es) = suc (size es)

abbrev pub last_of : List ClaimStateEvent → Option ClaimStateEvent
last_of [] = none
last_of (e ∷ []) = some e
last_of (e ∷ (x ∷ xs)) = last_of (x ∷ xs)

module _ (event_id_of : ClaimStateEvent → String)
    (event_hash_of : String → ClaimStateEvent → String) where
  abbrev pub expected_id : ClaimStateEvent → String
  expected_id event = event_id_of (identity_payload event)

  abbrev pub expected_hash : ClaimStateEvent → String
  expected_hash event = event_hash_of (expected_id event) (identity_payload event)

  -- `__post_init__`
  unfoldable pub post_init : ClaimStateEvent → Outcome ClaimError ClaimStateEvent
  post_init event = do
    require (filled event.claim_id && filled event.event_type) value_error
    require (is_some event.known_from || event.legacy_history_incomplete) value_error
    require (not (reversed event.known_from event.known_to)) value_error
    require (not (reversed event.business_valid_from event.business_valid_to)) value_error
    require (not (filled event.event_id) || event.event_id == expected_id event) value_error
    require (not (filled event.event_hash) || event.event_hash == expected_hash event) value_error
    ok (record event {
      event_id = if filled event.event_id then event.event_id else expected_id event;
      event_hash = if filled event.event_hash then event.event_hash else expected_hash event;
    })

  -- the loop of `validate_event_chain`, one round for each event that is left
  unfoldable pub walk :
      ℕ → Option String → List ClaimStateEvent → Outcome ClaimError (List ClaimStateEvent)
  walk n previous [] = ok []
  walk zero previous (e ∷ es) = raised diverges
  walk (suc n) previous (e ∷ es) = elim (pop previous (e ∷ es)) [
    | none ↦ raised value_error
    | some (event, rest) ↦ post_init event >>= λ _.
        walk n (some event.event_hash) rest >>= λ ordered. ok (event ∷ ordered)
  ]

  unfoldable pub validate_event_chain :
      List ClaimStateEvent → Outcome ClaimError (List ClaimStateEvent)
  validate_event_chain events =
      require (distinct_previous events) value_error >> walk (size events) none events

  -- `session.get(ClaimStateEventRow, event_id)`
  abbrev pub stored_event : String → List ClaimStateEvent → Option ClaimStateEvent
  stored_event id [] = none
  stored_event id (e ∷ es) = if e.event_id == id then some e else stored_event id es

  -- the events with the logical identity of `event`
  abbrev pub logical_matches : ClaimStateEvent → List ClaimStateEvent → List ClaimStateEvent
  logical_matches event [] = []
  logical_matches event (e ∷ es) =
      let rest = logical_matches event es in if same_logical e event then e ∷ rest else rest

  -- the rows of one claim, through `_events_from_rows`
  unfoldable pub claim_events :
      String → List ClaimStateEvent → Outcome ClaimError (List ClaimStateEvent)
  claim_events claim_id [] = ok []
  claim_events claim_id (row ∷ rows) =
      let rest = claim_events claim_id rows in
      if row.claim_id == claim_id
      then (post_init row >>= λ event. rest >>= λ events. ok (event ∷ events))
      else rest

  -- the tail that an event has to follow
  abbrev pub follows : Option ClaimStateEvent → ClaimStateEvent → Bool
  follows none event = true
  follows (some tail) event = opt_eq event.previous_event_hash (some tail.event_hash)

  unfoldable pub placed :
      List ClaimStateEvent
      → ClaimStateEvent
      → List ClaimStateEvent
      → List ClaimStateEvent
      → Outcome ClaimError (List ClaimStateEvent × ClaimStateEvent)
  placed rows event existing [] = do
    require (follows (last_of existing) event) value_error
    ok (event ∷ rows, event)
  placed rows event existing (one ∷ []) = ok (rows, one)
  placed rows event existing (one ∷ (two ∷ more)) = raised value_error

  unfoldable pub append_in_session :
      List ClaimStateEvent
      → ClaimStateEvent
      → Outcome ClaimError (List ClaimStateEvent × ClaimStateEvent)
  append_in_session rows event = post_init event >>= λ _. elim (stored_event event.event_id rows) [
    | some row ↦ require (same_event row event) value_error >> ok (rows, event)
    | none ↦ claim_events event.claim_id rows >>= λ events.
        validate_event_chain events >>= λ existing.
        placed rows event existing (logical_matches event existing)
  ]

  -- `list_for_claim`
  unfoldable pub list_for_claim :
      List ClaimStateEvent → String → Outcome ClaimError (List ClaimStateEvent)
  list_for_claim rows claim_id =
      claim_events claim_id rows >>= λ events. validate_event_chain events
