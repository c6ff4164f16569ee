-- ===== src/Lifecycle/Selection.antt =====
-- Which event is selected, and the order of the events.
use mathlib.Core.List.{Memᴰ}
use mathlib.Core.List.Memᴰ.{head, tail, cases_cons, not-nil}
use stock_content.Prelude.{
  ltb, ◌≤◌, ◌<◌, ◌⊎◌, Option, none, eq_iff, ◌==◌, ℕ, ◌≡◌, ◌↔◌, refl, ap, sym, ◌∙◌, String, Bool,
  true, false, some, List, [], ◌∷◌, arith, Bool-cases, inl, inr,
}
use stock_content.Lifecycle.{
  LifecycleTargetType, claim, occurrence, same_type, text_lt, KnowledgeLifecycleEvent, earlier,
  is_candidate, maximum, max_or_none, filter, select_lifecycle_event,
}
use stock_content.Lifecycle.Order.{earlier_asym, earlier_between, earlier_connected}

earlier_irrefl : (e : KnowledgeLifecycleEvent) → earlier e e ≡ false
earlier_irrefl e = let a = earlier_asym e e in ground arith

-- what is not before `b` is not before what is not after `b`
not_before :
    (a b c : KnowledgeLifecycleEvent)
    → earlier a b ≡ false
    → earlier b c ≡ false
    → earlier a c ≡ false
not_before a b c h g = let m = earlier_between a b c in ground arith

-- an event of the list after which no event of the list comes
pub record Greatest (events : List KnowledgeLifecycleEvent) (e : KnowledgeLifecycleEvent)
    : Type 0 where
  pub member : Memᴰ e events
  pub last : (x : KnowledgeLifecycleEvent) → Memᴰ x events → earlier e x ≡ false

maximum-Greatest :
    (best : KnowledgeLifecycleEvent) (events : List KnowledgeLifecycleEvent)
    → Greatest (best ∷ events) (maximum best events)
unfolding maximum
maximum-Greatest best [] = record {
  member = head refl;
  last = λ x m. elim (cases_cons m) [
    | inl e ↦ rw e (earlier_irrefl best)
    | inr t ↦ absurd (not-nil t)
  ];
}
maximum-Greatest best (e ∷ events) = elim (Bool-cases (earlier best e)) [
  | inl h ↦
      let g : Greatest (e ∷ events) (maximum e events) = maximum-Greatest e events in
      rw h (record {
        member = tail g.member;
        last = λ x m. elim (cases_cons m) [
          | inl same ↦
              rw same (
                not_before (maximum e events) e best (g.last e (head refl)) (earlier_asym best e h))
          | inr t ↦ g.last x t
        ];
      })
  | inr h ↦
      let g : Greatest (best ∷ events) (maximum best events) = maximum-Greatest best events in
      rw h (record {
        member = elim (cases_cons g.member) [ inl same ↦ head same | inr t ↦ tail (tail t) ];
        last = λ x m. elim (cases_cons m) [
          | inl same ↦ g.last x (head same)
          | inr t ↦ elim (cases_cons t) [
            | inl same ↦
                rw same (not_before (maximum best events) best e (g.last best (head refl)) h)
            | inr t' ↦ g.last x (tail t')
          ]
        ];
      })
]

filter-Mem :
    (p : KnowledgeLifecycleEvent → Bool) (l : List KnowledgeLifecycleEvent)
    (x : KnowledgeLifecycleEvent)
    → Memᴰ x (filter p l)
    → Memᴰ x l × (p x ≡ true)
filter-Mem p [] x m = absurd (not-nil m)
filter-Mem p (e ∷ l) x m = elim (Bool-cases (p e)) [
  | inl h ↦ elim (cases_cons (let n : Memᴰ x (e ∷ filter p l) = rw h at m in n)) [
    | inl same ↦ (head same, rw same h)
    | inr t ↦ let (there, q) = filter-Mem p l x t in (tail there, q)
  ]
  | inr h ↦ let (there, q) = filter-Mem p l x (rw h at m) in (tail there, q)
]

Mem-filter :
    (p : KnowledgeLifecycleEvent → Bool) (l : List KnowledgeLifecycleEvent)
    (x : KnowledgeLifecycleEvent)
    → Memᴰ x l
    → p x ≡ true
    → Memᴰ x (filter p l)
Mem-filter p [] x m h = absurd (not-nil m)
Mem-filter p (e ∷ l) x m h = elim (cases_cons m) [
  | inl same ↦ rw (let q : p e ≡ true = ap p (sym same) ∙ h in q) (head same)
  | inr t ↦ elim (Bool-cases (p e)) [
    | inl q ↦ rw q (tail (Mem-filter p l x t h))
    | inr q ↦ rw q (Mem-filter p l x t h)
  ]
]

-- an event of the target that is effective at the business time and recorded at the knowledge time
pub record IsCurrent (target_type : LifecycleTargetType) (target_id : String)
    (business_as_of knowledge_as_of : ℕ) (e : KnowledgeLifecycleEvent) : Type 0 where
  pub type : e.target_type ≡ target_type
  pub target : e.target_id ≡ target_id
  pub effective : e.effective_at ≤ business_as_of
  pub recorded : e.recorded_at ≤ knowledge_as_of

-- `x` is effective before `e`, or at once with it and recorded before it, or both at once with it and its
-- identifier is not the greater
abbrev pub AtMost : KnowledgeLifecycleEvent → KnowledgeLifecycleEvent → Type 0
AtMost x e =
    (x.effective_at < e.effective_at)
    ⊎ ((x.effective_at ≡ e.effective_at)
        × ((x.recorded_at < e.recorded_at)
            ⊎ ((x.recorded_at ≡ e.recorded_at)
                × (text_lt e.lifecycle_event_id x.lifecycle_event_id ≡ false))))

not_earlier-AtMost : (e x : KnowledgeLifecycleEvent) → earlier e x ≡ false → AtMost x e
unfolding earlier
not_earlier-AtMost e x h = elim (Bool-cases (ltb x.effective_at e.effective_at)) [
  | inl p ↦ inl (ground arith)
  | inr p ↦ inr (
    ground arith,
    elim (Bool-cases (ltb x.recorded_at e.recorded_at)) [
      | inl q ↦ inl (ground arith)
      | inr q ↦ inr (ground arith, ground arith)
    ],
  )
]

same_type→≡ : (a b : LifecycleTargetType) → same_type a b ≡ true → a ≡ b
same_type→≡ claim claim h = refl
same_type→≡ occurrence occurrence h = refl
same_type→≡ claim occurrence h = cc
same_type→≡ occurrence claim h = cc

same_type_refl : (a : LifecycleTargetType) → same_type a a ≡ true
same_type_refl claim = refl
same_type_refl occurrence = refl

module _ (target_type : LifecycleTargetType) (target_id : String)
    (business_as_of knowledge_as_of : ℕ) where
  abbrev Current : KnowledgeLifecycleEvent → Type 0
  Current = IsCurrent target_type target_id business_as_of knowledge_as_of

  is_candidate-Current :
      (e : KnowledgeLifecycleEvent)
      → is_candidate target_type target_id business_as_of knowledge_as_of e ≡ true
      → Current e
  unfolding is_candidate
  is_candidate-Current e h = record {
    type = same_type→≡ e.target_type target_type (ground arith);
    target = (eq_iff e.target_id target_id).0 (ground arith);
    effective = ground arith;
    recorded = ground arith;
  }

  Current-is_candidate :
      (e : KnowledgeLifecycleEvent)
      → Current e
      → is_candidate target_type target_id business_as_of knowledge_as_of e ≡ true
  unfolding is_candidate
  Current-is_candidate e c =
      let a : same_type e.target_type target_type ≡ true = rw c.type (same_type_refl target_type) in
      let b : e.target_id == target_id ≡ true = (eq_iff e.target_id target_id).1 c.target in
      let p = c.effective in let q = c.recorded in ground arith

  -- the current event that is the last, or none where no event is current
  abbrev pub IsLatest : List KnowledgeLifecycleEvent → Option KnowledgeLifecycleEvent → Type 0
  IsLatest events none = (x : KnowledgeLifecycleEvent) → Memᴰ x events → ¬ Current x
  IsLatest events (some e) =
      Memᴰ e events
      × Current e
      × ((x : KnowledgeLifecycleEvent) → Memᴰ x events → Current x → AtMost x e)

  max_or_none-IsLatest :
      (events l : List KnowledgeLifecycleEvent)
      → ((x : KnowledgeLifecycleEvent) → Memᴰ x l → Memᴰ x events × Current x)
      → ((x : KnowledgeLifecycleEvent) → Memᴰ x events → Current x → Memᴰ x l)
      → IsLatest events (max_or_none l)
  max_or_none-IsLatest events [] sound complete = λ x m c. not-nil (complete x m c)
  max_or_none-IsLatest events (a ∷ l) sound complete =
      let g = maximum-Greatest a l in
      let (there, c) = sound (maximum a l) g.member in
      (there, c, λ x m q. not_earlier-AtMost (maximum a l) x (g.last x (complete x m q)))

  -- The selected event is an event of the target that is effective at the business time and recorded at the
  -- knowledge time, and the last of these by the time it is effective, the time it is recorded and its
  -- identifier, in this order. Where none is selected there is no such event.
  pub select_lifecycle_event-IsLatest :
      (events : List KnowledgeLifecycleEvent)
      → IsLatest events
          (select_lifecycle_event events target_type target_id business_as_of knowledge_as_of)
  unfolding select_lifecycle_event
  select_lifecycle_event-IsLatest events =
      let p = is_candidate target_type target_id business_as_of knowledge_as_of in
      max_or_none-IsLatest events (filter p events)
        (λ x m. let (there, h) = filter-Mem p events x m in (there, is_candidate-Current x h))
        (λ x m c. Mem-filter p events x m (Current-is_candidate x c))

max_or_none-same :
    (l l' : List KnowledgeLifecycleEvent)
    → ((x : KnowledgeLifecycleEvent) → Memᴰ x l ↔ Memᴰ x l')
    → ((x y : KnowledgeLifecycleEvent)
        → Memᴰ x l
        → Memᴰ y l
        → x.lifecycle_event_id ≡ y.lifecycle_event_id
        → x ≡ y)
    → max_or_none l ≡ max_or_none l'
max_or_none-same [] [] same unique = refl
max_or_none-same [] (b ∷ l') same unique = absurd (not-nil ((same b).1 (head refl)))
max_or_none-same (a ∷ l) [] same unique = absurd (not-nil ((same a).0 (head refl)))
max_or_none-same (a ∷ l) (b ∷ l') same unique =
    let g = maximum-Greatest a l in
    let g' = maximum-Greatest b l' in
    let x = maximum a l in
    let y = maximum b l' in
    let member : Memᴰ y (a ∷ l) = (same y).1 g'.member in
    let id : x.lifecycle_event_id ≡ y.lifecycle_event_id =
      earlier_connected x y (g.last y member) (g'.last x ((same x).0 g.member)) in
    ap some (unique x y g.member member id)

-- Two lists of the same events, in whatever order and however often each stands there, select the same
-- event, where events with the same identifier are the same.
pub select_order :
    (events events' : List KnowledgeLifecycleEvent) (target_type : LifecycleTargetType)
    (target_id : String) (business_as_of knowledge_as_of : ℕ)
    → ((x : KnowledgeLifecycleEvent) → Memᴰ x events ↔ Memᴰ x events')
    → ((x y : KnowledgeLifecycleEvent)
        → Memᴰ x events
        → Memᴰ y events
        → x.lifecycle_event_id ≡ y.lifecycle_event_id
        → x ≡ y)
    → select_lifecycle_event events target_type target_id business_as_of knowledge_as_of
      ≡ select_lifecycle_event events' target_type target_id business_as_of knowledge_as_of
unfolding select_lifecycle_event
select_order events events' target_type target_id business_as_of knowledge_as_of same unique =
    let p = is_candidate target_type target_id business_as_of knowledge_as_of in
    max_or_none-same (filter p events) (filter p events')
      (λ x. (
        λ m.
            let (there, q) = filter-Mem p events x m in Mem-filter p events' x ((same x).0 there) q,
        λ m.
            let (there, q) = filter-Mem p events' x m in Mem-filter p events x ((same x).1 there) q,
      ))
      (λ x y m n. unique x y (filter-Mem p events x m).0 (filter-Mem p events y n).0)
