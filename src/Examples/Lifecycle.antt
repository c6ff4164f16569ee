-- ===== src/Examples/Lifecycle.antt =====
-- A claim that is reviewed, and knowledge that grows old.
use mathlib.Core.List.{Memᴰ}
use mathlib.Core.List.Memᴰ.{head, tail, cases_cons, not-nil}
use stock_content.Prelude.{
  ◌≡◌, ◌≢◌, ◌⊎◌, eq_iff, refl, sym, ◌∙◌, String, false, none, some, List, [], ◌∷◌, arith, inl, inr,
  ok, ◌==◌,
}
use stock_content.Prelude.Table.{Table, assoc_table}
use stock_content.Lifecycle.{
  claim, KnowledgeLifecycleEvent, earlier, is_candidate, select_lifecycle_event, maximum,
  evaluate_lifecycle, ttl_for, append_in_session,
}
use stock_content.Lifecycle.Selection.{IsLatest, select_lifecycle_event-IsLatest, select_order}

abbrev first : KnowledgeLifecycleEvent
first = record {
  lifecycle_event_id = "le_1";
  target_type = claim;
  target_id = "c";
  from_status = none;
  to_status = "ACTIVE";
  effective_at = 5;
  recorded_at = 6;
  reason_code = "NEW";
  policy_version = "lifecycle.v1";
  supersedes_event_id = none;
}

abbrev second : KnowledgeLifecycleEvent
second = record first {
  lifecycle_event_id = "le_2";
  from_status = some "ACTIVE";
  to_status = "OUTCOME_REVIEW";
}

abbrev events : List KnowledgeLifecycleEvent
events = first ∷ second ∷ []

abbrev swapped : List KnowledgeLifecycleEvent
swapped = second ∷ first ∷ []

selected : select_lifecycle_event events claim "c" 10 10 ≡ some second
unfolding select_lifecycle_event is_candidate maximum earlier
selected = refl

select_lifecycle_event-IsLatest_example : IsLatest claim "c" 10 10 events (some second)
unfolding select_lifecycle_event is_candidate maximum earlier
select_lifecycle_event-IsLatest_example = select_lifecycle_event-IsLatest claim "c" 10 10 events

differ : (a b : String) → (a == b) ≡ false → a ≢ b
differ a b h e = let t = (eq_iff a b).1 e in ground arith

swap_members : (a b x : KnowledgeLifecycleEvent) → Memᴰ x (a ∷ b ∷ []) → Memᴰ x (b ∷ a ∷ [])
swap_members a b x m = elim (cases_cons m) [
  | inl e ↦ tail (head e)
  | inr t ↦ elim (cases_cons t) [ inl e ↦ head e | inr n ↦ absurd (not-nil n) ]
]

one_of_two : (x : KnowledgeLifecycleEvent) → Memᴰ x events → (x ≡ first) ⊎ (x ≡ second)
one_of_two x m = elim (cases_cons m) [
  | inl e ↦ inl e
  | inr t ↦ elim (cases_cons t) [ inl e ↦ inr e | inr n ↦ absurd (not-nil n) ]
]

unique :
    (x y : KnowledgeLifecycleEvent)
    → Memᴰ x events
    → Memᴰ y events
    → x.lifecycle_event_id ≡ y.lifecycle_event_id
    → x ≡ y
unique x y m n h = elim (one_of_two x m) [
  | inl e ↦ elim (one_of_two y n) [
    | inl f ↦ e ∙ sym f
    | inr f ↦ absurd (differ "le_1" "le_2" refl (rw (e, f) at h))
  ]
  | inr e ↦ elim (one_of_two y n) [
    | inl f ↦ absurd (differ "le_2" "le_1" refl (rw (e, f) at h))
    | inr f ↦ e ∙ sym f
  ]
]

select_order_example :
    select_lifecycle_event events claim "c" 10 10 ≡ select_lifecycle_event swapped claim "c" 10 10
select_order_example =
    select_order events swapped claim "c" 10 10
      (λ x. (swap_members first second x, swap_members second first x)) unique

-- a price goes stale after an hour
stale : (evaluate_lifecycle "PRICE" "ACTIVE" 3600000005 (some 4) none).action ≢ "KEEP"
unfolding evaluate_lifecycle ttl_for
stale = differ "MARK_STALE" "KEEP" refl

abbrev ledger : Table KnowledgeLifecycleEvent
ledger = assoc_table KnowledgeLifecycleEvent

abbrev stored : List (String × KnowledgeLifecycleEvent)
stored = ("le_1", first) ∷ []

appended : append_in_session ledger [] first ≡ ok (stored, first)
unfolding append_in_session
appended = refl

appended_again : append_in_session ledger stored first ≡ ok (stored, first)
unfolding append_in_session
appended_again = refl
