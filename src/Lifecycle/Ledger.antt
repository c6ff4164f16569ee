-- ===== src/Lifecycle/Ledger.antt =====
-- Appending an event to the ledger again.
use stock_content.Prelude.{
  ◌≡◌, refl, ap, sym, ◌∙◌, subst, true, some, arith, eq_iff, Outcome, ok, require, bind_ok,
  require_ok, Option-cases, inl, inr,
}
use stock_content.Prelude.Table.{Table}
use stock_content.Prelude.Same.{opt_eq→≡}
use stock_content.Lifecycle.{
  LifecycleTargetType, claim, occurrence, KnowledgeLifecycleEvent, LifecycleError, value_error,
  same_type, same_event, append_in_session,
}

same_type→≡ : (a b : LifecycleTargetType) → same_type a b ≡ true → a ≡ b
same_type→≡ claim claim h = refl
same_type→≡ occurrence occurrence h = refl
same_type→≡ claim occurrence h = cc
same_type→≡ occurrence claim h = cc

-- the row has what the event has, apart from the identifier
same_event→≡ :
    (row event : KnowledgeLifecycleEvent)
    → same_event row event ≡ true
    → record row { lifecycle_event_id = event.lifecycle_event_id } ≡ event
same_event→≡ row event h = ground (
  arith,
  same_type→≡ row.target_type event.target_type,
  eq_iff row.target_id event.target_id,
  opt_eq→≡ row.from_status event.from_status,
  eq_iff row.to_status event.to_status,
  eq_iff row.reason_code event.reason_code,
  eq_iff row.policy_version event.policy_version,
  opt_eq→≡ row.supersedes_event_id event.supersedes_event_id,
)

module _ (ledger : Table KnowledgeLifecycleEvent) where
  open ledger use {State, get, put}

  -- the row under the identifier of the event has what the event has
  abbrev IsStored : State → KnowledgeLifecycleEvent → Type 0
  IsStored s event =
      (row : KnowledgeLifecycleEvent) × (get s event.lifecycle_event_id ≡ some row)
      × (record row { lifecycle_event_id = event.lifecycle_event_id } ≡ event)

  stored_before :
      (s t : State) (row event result : KnowledgeLifecycleEvent)
      → get s event.lifecycle_event_id ≡ some row
      → append_in_session ledger s event ≡ ok (t, result)
      → (t ≡ s) × (record row { lifecycle_event_id = event.lifecycle_event_id } ≡ event)
  unfolding append_in_session
  stored_before s t row event result e h =
      let (_, same, h1) =
        bind_ok (require (same_event row event) value_error) (λ _. ok (s, event)) (t, result)
          (rw (append_in_session, e) at h) in
      ((let p : t ≡ s = cc in p), same_event→≡ row event (require_ok _ _ same))

  append-IsStored :
      (s t : State) (event result : KnowledgeLifecycleEvent)
      → append_in_session ledger s event ≡ ok (t, result)
      → IsStored t event
  unfolding append_in_session
  append-IsStored s t event result h = elim (Option-cases (get s event.lifecycle_event_id)) [
    | inl e ↦
        let g : ◌≡◌ {A = Outcome LifecycleError (State × KnowledgeLifecycleEvent)}
            (ok (put s event.lifecycle_event_id event, event)) (ok (t, result)) =
          rw (append_in_session, e) at h in
        let p : put s event.lifecycle_event_id event ≡ t = cc in
        subst (λ x. IsStored x event) p
          (
            event,
            ledger.get-put s event.lifecycle_event_id event.lifecycle_event_id event
                ∙ rw ((eq_iff event.lifecycle_event_id event.lifecycle_event_id).1 refl) refl,
            refl,
          )
    | inr (row, e) ↦
        let (p, q) = stored_before s t row event result e h in
        (row, ap (λ x. get x event.lifecycle_event_id) p ∙ e, q)
  ]

  -- After an event was appended, an event with its identifier is accepted only if it is the same event,
  -- and then the ledger does not change.
  pub append_event_again :
      (s t u : State) (event again result result' : KnowledgeLifecycleEvent)
      → append_in_session ledger s event ≡ ok (t, result)
      → again.lifecycle_event_id ≡ event.lifecycle_event_id
      → append_in_session ledger t again ≡ ok (u, result')
      → (u ≡ t) × (again ≡ event)
  append_event_again s t u event again result result' h same g =
      let (row, e, q) = append-IsStored s t event result h in
      let (p, r) = stored_before t u row again result' (ap (get t) same ∙ e) g in
      (p, sym r ∙ ap (λ k. record row { lifecycle_event_id = k }) same ∙ q)
