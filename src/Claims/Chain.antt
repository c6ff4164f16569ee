-- ===== src/Claims/Chain.antt =====
-- What an accepted chain of claim state events is, and when an event is visible.
use mathlib.Core.List.Perm
use mathlib.Core.List.{Perm}
use stock_content.Prelude.{
  ℕ, zero, suc, ◌≤◌, ◌<◌, ◌≡◌, ◌↔◌, refl, ap, String, Bool, true, false, Option, none, some, List,
  [], ◌∷◌, arith, Outcome, ok, raised, ◌>>=◌, is_some, opt_eq, Bool-cases, inl, inr, ◌⊎◌,
}
use stock_content.Prelude.Same.{opt_eq→≡}
use stock_content.Claims.{
  ClaimStateEvent, ClaimError, value_error, visible_at, begun, before, ended, distinct_previous,
  pop, size, post_init, walk, validate_event_chain,
}

-- it has begun at `t`
abbrev pub Begun : Option ℕ → ℕ → Type 0
Begun o t = (a : ℕ) × (o ≡ some a) × (a ≤ t)

abbrev pub NotBefore : Option ℕ → ℕ → Type 0
NotBefore none t = Unit
NotBefore (some a) t = a ≤ t

abbrev pub NotEnded : Option ℕ → ℕ → Type 0
NotEnded none t = Unit
NotEnded (some b) t = t < b

-- The three clocks at which an event may be seen.
pub record IsVisible (event : ClaimStateEvent) (business knowledge availability : ℕ) : Type 0 where
  pub complete : event.legacy_history_incomplete ≡ false
  pub known : Begun event.known_from knowledge
  pub still_known : NotEnded event.known_to knowledge
  pub available : Begun event.source_available_from availability
  pub valid_from : NotBefore event.business_valid_from business
  pub valid_to : NotEnded event.business_valid_to business

Begun-tests : (o : Option ℕ) (t : ℕ) → is_some o ≡ true → before o t ≡ false → Begun o t
Begun-tests none t h b = absurd (ground arith)
Begun-tests (some a) t h b = (a, refl, ground arith)

Begun-begun : (o : Option ℕ) (t : ℕ) → begun o t ≡ true → Begun o t
Begun-begun none t h = absurd (ground arith)
Begun-begun (some a) t h = (a, refl, ground arith)

NotBefore-before : (o : Option ℕ) (t : ℕ) → before o t ≡ false → NotBefore o t
NotBefore-before none t h = tt
NotBefore-before (some a) t h = ground arith

NotEnded-ended : (o : Option ℕ) (t : ℕ) → ended o t ≡ false → NotEnded o t
NotEnded-ended none t h = tt
NotEnded-ended (some a) t h = ground arith

is_some-Begun : (o : Option ℕ) (t : ℕ) → Begun o t → is_some o ≡ true
is_some-Begun o t (a, e, l) = rw e refl

before-Begun : (o : Option ℕ) (t : ℕ) → Begun o t → before o t ≡ false
before-Begun o t (a, e, l) = rw e (ground arith)

begun-Begun : (o : Option ℕ) (t : ℕ) → Begun o t → begun o t ≡ true
begun-Begun o t (a, e, l) = rw e (ground arith)

before-NotBefore : (o : Option ℕ) (t : ℕ) → NotBefore o t → before o t ≡ false
before-NotBefore none t h = refl
before-NotBefore (some a) t h = ground arith

ended-NotEnded : (o : Option ℕ) (t : ℕ) → NotEnded o t → ended o t ≡ false
ended-NotEnded none t h = refl
ended-NotEnded (some a) t h = ground arith

-- An event is visible exactly when its history is complete, it is known and not superseded at the
-- knowledge time, its source is available at the availability time, and the business time is in
-- its half-open interval.
pub visible_at_iff :
    (event : ClaimStateEvent) (business knowledge availability : ℕ)
    → visible_at event business knowledge availability ≡ true
      ↔ IsVisible event business knowledge availability
unfolding visible_at
visible_at_iff event business knowledge availability = (to, from)
  where
    to :
        visible_at event business knowledge availability ≡ true
        → IsVisible event business knowledge availability
    to h = record {
      complete = ground arith;
      known = Begun-tests event.known_from knowledge (ground arith) (ground arith);
      still_known = NotEnded-ended event.known_to knowledge (ground arith);
      available = Begun-begun event.source_available_from availability (ground arith);
      valid_from = NotBefore-before event.business_valid_from business (ground arith);
      valid_to = NotEnded-ended event.business_valid_to business (ground arith);
    }

    from :
        IsVisible event business knowledge availability
        → visible_at event business knowledge availability ≡ true
    from v =
        rw
          (
            v.complete,
            is_some-Begun event.known_from knowledge v.known,
            before-Begun event.known_from knowledge v.known,
            ended-NotEnded event.known_to knowledge v.still_known,
            begun-Begun event.source_available_from availability v.available,
            before-NotBefore event.business_valid_from business v.valid_from,
            ended-NotEnded event.business_valid_to business v.valid_to,
          )
          refl

pop-ok :
    (p : Option String) (es rest : List ClaimStateEvent) (x : ClaimStateEvent)
    → pop p es ≡ some (x, rest)
    → (x.previous_event_hash ≡ p) × (size es ≡ suc (size rest)) × Perm (x ∷ rest) es
unfolding pop
pop-ok p [] rest x h = absurd (ground arith)
pop-ok p (e ∷ es) rest x h =
    go (opt_eq e.previous_event_hash p) refl (pop p es) refl (λ y r. pop-ok p es r y)
  where
    go :
        (b : Bool)
        → opt_eq e.previous_event_hash p ≡ b
        → (o : Option (ClaimStateEvent × List ClaimStateEvent)) → pop p es ≡ o
        → ((y : ClaimStateEvent) (r : List ClaimStateEvent)
            → pop p es ≡ some (y, r)
            → (y.previous_event_hash ≡ p) × (size es ≡ suc (size r)) × Perm (y ∷ r) es)
        → (x.previous_event_hash ≡ p) × (suc (size es) ≡ suc (size rest)) × Perm (x ∷ rest) (e ∷ es)
    go true q o k ih =
        let g : ◌≡◌ {A = Option (ClaimStateEvent × List ClaimStateEvent)} (some (e, es))
            (some (x, rest)) =
          rw (pop, q) at h in
        let same : (e ≡ x) × (es ≡ rest) = ground arith in
        rw (← same.0, ← same.1) (opt_eq→≡ e.previous_event_hash p q, refl, Perm.refl (e ∷ es))
    go false q none k ih = absurd (
        let g : ◌≡◌ {A = Option (ClaimStateEvent × List ClaimStateEvent)} none (some (x, rest)) =
          rw (pop, q, k) at h in
        ground arith)
    go false q (some (y, r)) k ih =
        let g : ◌≡◌ {A = Option (ClaimStateEvent × List ClaimStateEvent)} (some (y, e ∷ r))
            (some (x, rest)) =
          rw (pop, q, k) at h in
        let same : (y ≡ x) × ((e ∷ r) ≡ rest) = ground arith in
        let (a, b, c) = ih y r k in
        rw (← same.0, ← same.1) (a, ap suc b, Perm.trans (Perm.swap e y r) (Perm.cons e c))

-- each event names the hash of the one before it
abbrev pub IsChain : Option String → List ClaimStateEvent → Type 0
IsChain p [] = Unit
IsChain p (e ∷ es) = (e.previous_event_hash ≡ p) × IsChain (some e.event_hash) es

module _ (event_id_of : ClaimStateEvent → String)
    (event_hash_of : String → ClaimStateEvent → String) where
  abbrev Walked :
      Option String → List ClaimStateEvent → Outcome ClaimError (List ClaimStateEvent) → Type 0
  Walked p es (ok ordered) = IsChain p ordered × Perm ordered es
  Walked p es (raised e) = e ≡ value_error

  post_init-raises :
      (event : ClaimStateEvent) (e : ClaimError)
      → post_init event_id_of event_hash_of event ≡ raised e
      → e ≡ value_error
  unfolding post_init
  post_init-raises event e h = ground arith

  Walked-cons :
      (p : Option String) (es rest : List ClaimStateEvent) (x : ClaimStateEvent)
      → x.previous_event_hash ≡ p
      → Perm (x ∷ rest) es
      → (o : Outcome ClaimError (List ClaimStateEvent)) → Walked (some x.event_hash) rest o
      → Walked p es (o >>= λ ordered. ok (x ∷ ordered))
  Walked-cons p es rest x e q (ok ordered) (c, r) = ((e, c), Perm.trans (Perm.cons x r) q)
  Walked-cons p es rest x e q (raised y) w = w

  Walked-init :
      (p : Option String) (es : List ClaimStateEvent) (o : Outcome ClaimError ClaimStateEvent)
      (k : Outcome ClaimError (List ClaimStateEvent))
      → ((y : ClaimError) → o ≡ raised y → y ≡ value_error)
      → Walked p es k
      → Walked p es (o >>= λ _. k)
  Walked-init p es (ok _) k f w = w
  Walked-init p es (raised y) k f w = f y refl

  Walked-walk :
      (n : ℕ) (p : Option String) (es : List ClaimStateEvent)
      → size es ≤ n
      → Walked p es (walk event_id_of event_hash_of n p es)
  unfolding walk
  Walked-walk n p [] le = (tt, Perm.refl [])
  Walked-walk zero p (e ∷ es) le = absurd (omega arith)
  Walked-walk (suc n) p (e ∷ es) le = go (pop p (e ∷ es)) refl (λ q rest l. Walked-walk n q rest l)
    where
      go :
          (o : Option (ClaimStateEvent × List ClaimStateEvent))
          → pop p (e ∷ es) ≡ o
          → ((q : Option String) (rest : List ClaimStateEvent)
              → size rest ≤ n
              → Walked q rest (walk event_id_of event_hash_of n q rest))
          → Walked p (e ∷ es) (walk event_id_of event_hash_of (suc n) p (e ∷ es))
      go none q ih = rw (walk, q) refl
      go (some (x, rest)) q ih =
          let (a, b, c) = pop-ok p (e ∷ es) rest x q in
          rw (walk, q)
            (Walked-init p (e ∷ es) (post_init event_id_of event_hash_of x)
              (walk event_id_of event_hash_of n (some x.event_hash) rest >>= λ ordered.
                ok (x ∷ ordered))
              (post_init-raises x)
              (Walked-cons p (e ∷ es) rest x a c
                (walk event_id_of event_hash_of n (some x.event_hash) rest)
                (ih (some x.event_hash) rest (omega (arith, b)))))

  -- Validation ends for any events: it returns them, each once, in an order in which the first names
  -- no predecessor and each other names the hash of the event before it, or raises ValueError.
  pub validate_event_chain-orders :
      (events : List ClaimStateEvent)
      → ((ordered : List ClaimStateEvent) × (validate_event_chain event_id_of event_hash_of events
            ≡ ok ordered)
          × IsChain none ordered
          × Perm ordered events)
        ⊎ (validate_event_chain event_id_of event_hash_of events ≡ raised value_error)
  unfolding validate_event_chain
  validate_event_chain-orders events = elim (Bool-cases (distinct_previous events)) [
    | inr e ↦ inr (rw e refl)
    | inl e ↦ rw e (
        ends (walk event_id_of event_hash_of (size events) none events)
          (Walked-walk (size events) none events (omega arith)))
  ]
    where
      ends :
          (o : Outcome ClaimError (List ClaimStateEvent))
          → Walked none events o
          → ((ordered : List ClaimStateEvent) × (o ≡ ok ordered)
              × IsChain none ordered
              × Perm ordered events)
            ⊎ (o ≡ raised value_error)
      ends (ok ordered) (c, q) = inl (ordered, refl, c, q)
      ends (raised e) w = inr (ap raised w)

  -- An event with a predecessor that is not among the events is in no valid chain of one event.
  pub orphan_raises :
      (event : ClaimStateEvent) (h : String)
      → event.previous_event_hash ≡ some h
      → validate_event_chain event_id_of event_hash_of (event ∷ []) ≡ raised value_error
  unfolding validate_event_chain walk pop
  orphan_raises event h e = rw e refl
