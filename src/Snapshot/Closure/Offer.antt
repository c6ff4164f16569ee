-- ===== src/Snapshot/Closure/Offer.antt =====
-- What `offer_all` does to the queue of the loading of artifacts.
use mathlib.Core.List.{Memᴰ}
use mathlib.Core.List.Memᴰ.{head, tail, cases_cons, not-nil, append_left, append_right}
use stock_content.Prelude.{
  ◌≡◌, refl, ◌∙◌, String, true, List, [], ◌∷◌, arith, one_of, ◌==◌, eq_iff, eq_refl, Bool-cases,
  inl, inr, ◌⊎◌,
}
use stock_content.Snapshot.Closure.{Loading, offer, offer_all}

offer-pending : (l : Loading) (p x : String) → Memᴰ x l.pending → Memᴰ x (offer l p).pending
offer-pending l p x m = elim (Bool-cases (one_of p l.queued)) [
  | inl h ↦ rw h m
  | inr h ↦ rw h (append_left (p ∷ []) m)
]

offer-new :
    (l : Loading) (p x : String)
    → one_of x (offer l p).queued ≡ true
    → (one_of x l.queued ≡ true) ⊎ ((x ≡ p) × Memᴰ x (offer l p).pending)
offer-new l p x h = elim (Bool-cases (one_of p l.queued)) [
  | inl old ↦ inl (rw old at h)
  | inr new ↦ elim (Bool-cases (x == p)) [
    | inl e ↦ inr ((eq_iff x p).0 e, rw new (append_right l.pending (head ((eq_iff x p).0 e))))
    | inr e ↦ inl (rw e at (rw new at h))
  ]
]

pub offer_all-queued :
    (l : Loading) (ps : List String) (x : String)
    → one_of x l.queued ≡ true
    → one_of x (offer_all l ps).queued ≡ true
unfolding offer_all
offer_all-queued l [] x h = h
offer_all-queued l (p ∷ ps) x h = offer_all-queued (offer l p) ps x (ground arith)

pub offer_all-all :
    (l : Loading) (ps : List String) (x : String)
    → Memᴰ x ps
    → one_of x (offer_all l ps).queued ≡ true
unfolding offer_all
offer_all-all l [] x m = absurd (not-nil m)
offer_all-all l (p ∷ ps) x m = elim (cases_cons m) [
  | inl e ↦ offer_all-queued (offer l p) ps x (rw e (ground (arith, eq_refl p)))
  | inr t ↦ offer_all-all (offer l p) ps x t
]

pub offer_all-pending :
    (l : Loading) (ps : List String) (x : String)
    → Memᴰ x l.pending
    → Memᴰ x (offer_all l ps).pending
unfolding offer_all
offer_all-pending l [] x h = h
offer_all-pending l (p ∷ ps) x h = offer_all-pending (offer l p) ps x (offer-pending l p x h)

-- what is queued afterwards was queued before, or is pending and one of the texts
pub offer_all-new :
    (l : Loading) (ps : List String) (x : String)
    → one_of x (offer_all l ps).queued ≡ true
    → (one_of x l.queued ≡ true) ⊎ (Memᴰ x ps × Memᴰ x (offer_all l ps).pending)
unfolding offer_all
offer_all-new l [] x h = inl h
offer_all-new l (p ∷ ps) x h = elim (offer_all-new (offer l p) ps x h) [
  | inr (t, m) ↦ inr (tail t, m)
  | inl q ↦ elim (offer-new l p x q) [
    | inl old ↦ inl old
    | inr (e, m) ↦ inr (head e, offer_all-pending (offer l p) ps x m)
  ]
]

pub offer_all-parents : (l : Loading) (ps : List String) → (offer_all l ps).parents ≡ l.parents
unfolding offer_all
offer_all-parents l [] = refl
offer_all-parents l (p ∷ ps) = offer_all-parents (offer l p) ps ∙ (ground arith)
