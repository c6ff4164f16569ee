-- ===== src/Claims/Append.antt =====
-- What appending to the history of a claim keeps.
use stock_content.Prelude.{
  ℕ, ◌≡◌, refl, ap, sym, subst, ◌∙◌, String, Bool, true, false, Option, none, some, List, [], ◌∷◌,
  arith, Outcome, ok, raised, ◌>>=◌, ◌>>◌, require, opt_eq, inl, inr, ◌⊎◌, eq_iff, ◌==◌,
}
use stock_content.Claims.{
  ClaimStateEvent, ClaimError, value_error, same_event, instant_eq, same_flag, post_init,
  stored_event, logical_matches, claim_events, validate_event_chain, placed, follows, last_of, walk,
  append_in_session, list_for_claim,
}
use stock_content.Claims.Chain.{orphan_raises}

text_refl : (s : String) → (s == s) ≡ true
text_refl s = (eq_iff s s).1 refl

instant_eq_refl : (o : Option ℕ) → instant_eq o o ≡ true
instant_eq_refl none = refl
instant_eq_refl (some t) = ground arith

opt_eq_refl : (o : Option String) → opt_eq o o ≡ true
opt_eq_refl none = refl
opt_eq_refl (some s) = text_refl s

same_flag_refl : (b : Bool) → same_flag b b ≡ true
same_flag_refl true = refl
same_flag_refl false = refl

same_event_refl : (e : ClaimStateEvent) → same_event e e ≡ true
same_event_refl e =
    rw
      (
        text_refl e.claim_id,
        text_refl e.event_type,
        text_refl e.payload,
        instant_eq_refl e.known_from,
        instant_eq_refl e.known_to,
        instant_eq_refl e.business_valid_from,
        instant_eq_refl e.business_valid_to,
        instant_eq_refl e.source_available_from,
        opt_eq_refl e.previous_event_hash,
        text_refl e.event_hash,
        same_flag_refl e.legacy_history_incomplete,
      )
      refl

module _ (event_id_of : ClaimStateEvent → String)
    (event_hash_of : String → ClaimStateEvent → String) where
  abbrev append :
      List ClaimStateEvent
      → ClaimStateEvent
      → Outcome ClaimError (List ClaimStateEvent × ClaimStateEvent)
  append = append_in_session event_id_of event_hash_of

  -- the rows are left, or the event is new and is returned
  abbrev Appended :
      List ClaimStateEvent
      → ClaimStateEvent
      → Outcome ClaimError (List ClaimStateEvent × ClaimStateEvent)
      → Type 0
  Appended rows event (raised e) = Unit
  Appended rows event (ok (rows', e')) = (rows' ≡ rows) ⊎ ((rows' ≡ event ∷ rows) × (e' ≡ event))

  Appended-bind :
      {X : Type 0} (rows : List ClaimStateEvent) (event : ClaimStateEvent)
      (o : Outcome ClaimError X)
      (k : X → Outcome ClaimError (List ClaimStateEvent × ClaimStateEvent))
      → ((x : X) → Appended rows event (k x))
      → Appended rows event (o >>= k)
  Appended-bind rows event (ok x) k w = w x
  Appended-bind rows event (raised e) k w = tt

  Appended-placed :
      (rows : List ClaimStateEvent) (event : ClaimStateEvent)
      (existing matches : List ClaimStateEvent)
      → Appended rows event (placed event_id_of event_hash_of rows event existing matches)
  unfolding placed
  Appended-placed rows event existing [] =
      Appended-bind rows event
        (require (follows event_id_of event_hash_of (last_of existing) event) value_error)
        (λ _. ok (event ∷ rows, event)) (λ _. inr (refl, refl))
  Appended-placed rows event existing (one ∷ []) = inl refl
  Appended-placed rows event existing (one ∷ (two ∷ more)) = tt

  -- the rest of an append once the event is known to be well formed
  abbrev after_init :
      List ClaimStateEvent
      → ClaimStateEvent
      → Option ClaimStateEvent
      → Outcome ClaimError (List ClaimStateEvent × ClaimStateEvent)
  after_init rows event o = elim o [
    | some row ↦ require (same_event row event) value_error >> ok (rows, event)
    | none ↦ claim_events event_id_of event_hash_of event.claim_id rows >>= λ events.
        validate_event_chain event_id_of event_hash_of events >>= λ existing.
        placed event_id_of event_hash_of rows event existing
          (logical_matches event_id_of event_hash_of event existing)
  ]

  Appended-after_init :
      (rows : List ClaimStateEvent) (event : ClaimStateEvent) (o : Option ClaimStateEvent)
      → Appended rows event (after_init rows event o)
  Appended-after_init rows event (some row) =
      Appended-bind rows event (require (same_event row event) value_error) (λ _. ok (rows, event))
        (λ _. inl refl)
  Appended-after_init rows event none =
      Appended-bind rows event (claim_events event_id_of event_hash_of event.claim_id rows) _
        (λ events.
          Appended-bind rows event (validate_event_chain event_id_of event_hash_of events) _
            (λ existing.
              Appended-placed rows event existing
                (logical_matches event_id_of event_hash_of event existing)))

  Appended-append :
      (rows : List ClaimStateEvent) (event : ClaimStateEvent)
      → Appended rows event (append rows event)
  unfolding append_in_session
  Appended-append rows event =
      Appended-bind rows event (post_init event_id_of event_hash_of event) _ (λ _.
        Appended-after_init rows event (stored_event event_id_of event_hash_of event.event_id rows))

  append_new :
      (rows : List ClaimStateEvent) (event one : ClaimStateEvent)
      → post_init event_id_of event_hash_of event ≡ ok one
      → append (event ∷ rows) event ≡ ok (event ∷ rows, event)
  unfolding append_in_session
  append_new rows event one p =
      rw (append_in_session, p, text_refl event.event_id, same_event_refl event) refl

  -- An append leaves the rows or adds the event to them, and the same append again returns the same
  -- event and writes nothing.
  pub append_again :
      (rows rows' : List ClaimStateEvent) (event e' : ClaimStateEvent)
      → append_in_session event_id_of event_hash_of rows event ≡ ok (rows', e')
      → ((rows' ≡ rows) ⊎ ((rows' ≡ event ∷ rows) × (e' ≡ event)))
        × (append_in_session event_id_of event_hash_of rows' event ≡ ok (rows', e'))
  unfolding append_in_session
  append_again rows rows' event e' h =
      let w : Appended rows event (ok (rows', e')) =
        subst (Appended rows event) h (Appended-append rows event) in
      (w, again w)
    where
      again :
          (rows' ≡ rows) ⊎ ((rows' ≡ event ∷ rows) × (e' ≡ event))
          → append_in_session event_id_of event_hash_of rows' event ≡ ok (rows', e')
      again (inl q) =
          subst (λ r. append_in_session event_id_of event_hash_of r event ≡ ok (rows', e')) (sym q)
            h
      again (inr (q, s)) =
          ap (λ r. append r event) q
          ∙ formed (post_init event_id_of event_hash_of event) refl
          ∙ sym (ap (λ (x : List ClaimStateEvent × ClaimStateEvent). ok x) (λ i. (q i, s i)))
        where
          formed :
              (o : Outcome ClaimError ClaimStateEvent)
              → post_init event_id_of event_hash_of event ≡ o
              → append (event ∷ rows) event ≡ ok (event ∷ rows, event)
          formed (ok one) p = append_new rows event one p
          formed (raised x) p = absurd (
              let g : ◌≡◌ {A = Outcome ClaimError (List ClaimStateEvent × ClaimStateEvent)}
                  (raised x) (ok (rows', e')) =
                rw (append_in_session, p) at h in
              ground arith)

  first_orphan :
      (rows : List ClaimStateEvent) (event : ClaimStateEvent)
      → post_init event_id_of event_hash_of event ≡ ok event
      → stored_event event_id_of event_hash_of event.event_id rows ≡ none
      → claim_events event_id_of event_hash_of event.claim_id rows ≡ ok []
      → append rows event ≡ ok (event ∷ rows, event)
  unfolding append_in_session validate_event_chain placed walk
  first_orphan rows event p s c = rw (append_in_session, p, s, c) refl

  claim_events-orphan :
      (rows : List ClaimStateEvent) (event : ClaimStateEvent)
      → post_init event_id_of event_hash_of event ≡ ok event
      → claim_events event_id_of event_hash_of event.claim_id rows ≡ ok []
      → claim_events event_id_of event_hash_of event.claim_id (event ∷ rows) ≡ ok (event ∷ [])
  unfolding claim_events
  claim_events-orphan rows event p c = rw (claim_events, text_refl event.claim_id, p, c) refl

  -- The first event of a claim is appended whatever predecessor it names; with a predecessor, the
  -- history of the claim can not be listed from then on and no other event of it is ever appended.
  pub orphan_blocks_claim :
      (rows : List ClaimStateEvent) (event other one : ClaimStateEvent) (h : String)
      → post_init event_id_of event_hash_of event ≡ ok event
      → stored_event event_id_of event_hash_of event.event_id rows ≡ none
      → claim_events event_id_of event_hash_of event.claim_id rows ≡ ok []
      → event.previous_event_hash ≡ some h
      → other.claim_id ≡ event.claim_id
      → post_init event_id_of event_hash_of other ≡ ok one
      → stored_event event_id_of event_hash_of other.event_id (event ∷ rows) ≡ none
      → (append_in_session event_id_of event_hash_of rows event ≡ ok (event ∷ rows, event))
        × (list_for_claim event_id_of event_hash_of (event ∷ rows) event.claim_id
            ≡ raised value_error)
        × (append_in_session event_id_of event_hash_of (event ∷ rows) other ≡ raised value_error)
  unfolding list_for_claim append_in_session
  orphan_blocks_claim rows event other one h p s c prev same po so =
      let listed = claim_events-orphan rows event p c in
      let listed2 : claim_events event_id_of event_hash_of other.claim_id (event ∷ rows)
          ≡ ok (event ∷ []) =
        ap (λ k. claim_events event_id_of event_hash_of k (event ∷ rows)) same ∙ listed in
      let fails = orphan_raises event_id_of event_hash_of event h prev in
      (
        first_orphan rows event p s c,
        rw (list_for_claim, listed, fails) refl,
        rw (append_in_session, po, so, listed2, fails) refl,
      )
