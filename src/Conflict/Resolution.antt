-- ===== src/Conflict/Resolution.antt =====
-- What is preferred in a conflict that is resolved.
use mathlib.Core.List.{Memᴰ}
use mathlib.Core.List.Memᴰ.{head, tail, cases_cons, not-nil}
use mathlib.Core.Path.{subst₂}
use stock_content.Prelude.{
  ◌≡◌, refl, sym, ◌∙◌, subst, String, Bool, true, false, none, some, List, [], ◌∷◌, ◌++◌, arith,
  one_of, Outcome, ok, Bool-cases, inl, inr, ap,
}
use stock_content.Conflict.{
  FinancialClaim, unresolved, auto_resolved, KnowledgeConflict, ConflictError,
  external_verification_wins, higher_source_confidence, latest_published, manual_review, top_of,
  second, descending, verified_in, conflict, by_confidence, resolve, auto_resolve,
}
use stock_content.Conflict.Ranking.{IsConfidence, Split, Sorted, Sorted-descending, rank}

module _ {C : Type 0} (less : C → C → Bool) (leads : C → C → Bool)
    (sorted : List String → List String) (conflict_id_of : String → List String → String) where
  -- of the claims of the group, the one at the place of `c` is verified, and no other is
  pub record OnlyVerified (group : List (FinancialClaim C)) (verified : List String)
      (c : FinancialClaim C) : Type 0 where
    pub before : List (FinancialClaim C)
    pub after : List (FinancialClaim C)
    pub whole : group ≡ before ++ c ∷ after
    pub this : one_of c.claim_id verified ≡ true
    pub others :
        (d : FinancialClaim C) → Memᴰ d (before ++ after) → one_of d.claim_id verified ≡ false

  -- the confidence of `c` leads that of each other claim of the group
  pub record Leading (group : List (FinancialClaim C)) (c : FinancialClaim C) : Type 0 where
    pub before : List (FinancialClaim C)
    pub after : List (FinancialClaim C)
    pub whole : group ≡ before ++ c ∷ after
    pub others :
        (d : FinancialClaim C)
        → Memᴰ d (before ++ after)
        → leads c.source_confidence d.source_confidence ≡ true

  -- a claim with the greatest confidence of the group does not lead another one of it
  pub record TooClose (group : List (FinancialClaim C)) : Type 0 where
    pub before : List (FinancialClaim C)
    pub after : List (FinancialClaim C)
    pub greatest : FinancialClaim C
    pub other : FinancialClaim C
    pub whole : group ≡ before ++ greatest ∷ after
    pub member : Memᴰ other (before ++ after)
    pub top :
        (d : FinancialClaim C)
        → Memᴰ d (before ++ after)
        → less greatest.source_confidence d.source_confidence ≡ false
    pub close : leads greatest.source_confidence other.source_confidence ≡ false

  abbrev checked : List String → List (FinancialClaim C) → List (FinancialClaim C)
  checked = verified_in less leads sorted conflict_id_of

  none_checked :
      (verified : List String) (l : List (FinancialClaim C))
      → checked verified l ≡ []
      → (d : FinancialClaim C) → Memᴰ d l
      → one_of d.claim_id verified ≡ false
  none_checked verified [] e d m = absurd (not-nil m)
  none_checked verified (c ∷ l) e d m = elim (Bool-cases (one_of c.claim_id verified)) [
    | inl h ↦ absurd (let n : c ∷ checked verified l ≡ [] = rw h at e in cc)
    | inr h ↦ elim (cases_cons m) [
      | inl q ↦ rw q h
      | inr t ↦ none_checked verified l (rw h at e) d t
    ]
  ]

  checked_none :
      (verified : List String) (l : List (FinancialClaim C))
      → ((d : FinancialClaim C) → Memᴰ d l → one_of d.claim_id verified ≡ false)
      → checked verified l ≡ []
  checked_none verified [] h = refl
  checked_none verified (c ∷ l) h =
      rw (h c (head refl)) (checked_none verified l (λ d m. h d (tail m)))

  checked-OnlyVerified :
      (verified : List String) (group : List (FinancialClaim C)) (v : FinancialClaim C)
      → checked verified group ≡ v ∷ []
      → OnlyVerified group verified v
  checked-OnlyVerified verified [] v e = absurd (let n : [] ≡ v ∷ [] = e in cc)
  checked-OnlyVerified verified (c ∷ l) v e = elim (Bool-cases (one_of c.claim_id verified)) [
    | inl h ↦
        let n : c ∷ checked verified l ≡ v ∷ [] = rw h at e in
        let same : c ≡ v = cc in
        let rest : checked verified l ≡ [] = cc in
        record {
          before = [];
          after = l;
          whole = ap (λ x. x ∷ l) same;
          this = subst (λ x. one_of x.claim_id verified ≡ true) same h;
          others = none_checked verified l rest;
        }
    | inr h ↦
        let o = checked-OnlyVerified verified l v (rw h at e) in
        record {
          before = c ∷ o.before;
          after = o.after;
          whole = ap (λ x. c ∷ x) o.whole;
          this = o.this;
          others = λ d m. elim (cases_cons m) [ inl q ↦ rw q h | inr t ↦ o.others d t ];
        }
  ]

  OnlyVerified-checked :
      (verified : List String) (group : List (FinancialClaim C)) (v : FinancialClaim C)
      → OnlyVerified group verified v
      → checked verified group ≡ v ∷ []
  OnlyVerified-checked verified group v o = ap (checked verified) o.whole ∙ go o.before o.others
    where
      go :
          (b : List (FinancialClaim C))
          → ((d : FinancialClaim C) → Memᴰ d (b ++ o.after) → one_of d.claim_id verified ≡ false)
          → checked verified (b ++ v ∷ o.after) ≡ v ∷ []
      go [] h = rw (o.this, checked_none verified o.after h) refl
      go (d ∷ b) h = rw (h d (head refl)) (go b (λ x m. h x (tail m)))

  -- what justifies a resolution of the group
  abbrev pub Justified : List (FinancialClaim C) → List String → KnowledgeConflict → Type 0
  Justified group verified k = elim k.resolution_policy [
    | latest_published ↦ ⊥
    | external_verification_wins ↦
        (c : FinancialClaim C) × OnlyVerified group verified c
        × (k.resolution_status ≡ auto_resolved)
        × (k.preferred_claim_id ≡ some c.claim_id)
    | higher_source_confidence ↦
        (c : FinancialClaim C) × ((v : FinancialClaim C) → ¬ OnlyVerified group verified v)
        × Leading group c
        × (k.resolution_status ≡ auto_resolved)
        × (k.preferred_claim_id ≡ some c.claim_id)
    | manual_review ↦
        ((v : FinancialClaim C) → ¬ OnlyVerified group verified v)
        × TooClose group
        × (k.resolution_status ≡ unresolved)
        × (k.preferred_claim_id ≡ none)
  ]

  module _ (laws : IsConfidence less leads) where
    by_confidence-Justified :
        (group : List (FinancialClaim C)) (verified : List String) (key : String)
        (h d : FinancialClaim C) (r : List (FinancialClaim C))
        → Split less leads sorted conflict_id_of laws group h (d ∷ r)
        → Sorted less leads sorted conflict_id_of laws (h ∷ d ∷ r)
        → ((v : FinancialClaim C) → ¬ OnlyVerified group verified v)
        → Justified group verified (by_confidence less leads sorted conflict_id_of group key h d)
    by_confidence-Justified group verified key h d r s (above, (next, _)) none_only =
        elim (Bool-cases (leads h.source_confidence d.source_confidence)) [
          | inl q ↦ rw q (
            h,
            none_only,
            record {
              before = s.before;
              after = s.after;
              whole = s.whole;
              others = λ x m. elim (cases_cons (s.into x m)) [
                | inl e ↦ rw e q
                | inr t ↦
                    laws.wider h.source_confidence d.source_confidence x.source_confidence q
                      (next x t)
              ];
            },
            refl,
            refl,
          )
          | inr q ↦ rw q (
            none_only,
            record {
              before = s.before;
              after = s.after;
              greatest = h;
              other = d;
              whole = s.whole;
              member = s.back d (head refl);
              top = λ x m. above x (s.into x m);
              close = q;
            },
            refl,
            refl,
          )
        ]

    resolve-Justified :
        (group : List (FinancialClaim C)) (verified : List String) (key : String)
        (h : FinancialClaim C) (r l : List (FinancialClaim C)) (k : KnowledgeConflict)
        → Split less leads sorted conflict_id_of laws group h r
        → Sorted less leads sorted conflict_id_of laws (h ∷ r)
        → checked verified group ≡ l
        → resolve less leads sorted conflict_id_of group key h
            (second less leads sorted conflict_id_of (h ∷ r))
            l
          ≡ ok k
        → Justified group verified k
    resolve-Justified group verified key h r (v ∷ []) k s o e q =
        subst (Justified group verified)
          (let p : conflict less leads sorted conflict_id_of group key auto_resolved
                  (some v.claim_id) external_verification_wins
                ≡ k =
              cc in
            p)
          (v, checked-OnlyVerified verified group v e, refl, refl)
    resolve-Justified group verified key h [] [] k s o e q = absurd (ground arith)
    resolve-Justified group verified key h [] (a ∷ b ∷ l) k s o e q = absurd (ground arith)
    resolve-Justified group verified key h (d ∷ r) [] k s o e q =
        subst (Justified group verified)
          (let p : by_confidence less leads sorted conflict_id_of group key h d ≡ k = cc in p)
          (by_confidence-Justified group verified key h d r s o (λ v only.
            let n : [] ≡ v ∷ [] = sym e ∙ OnlyVerified-checked verified group v only in absurd cc))
    resolve-Justified group verified key h (d ∷ r) (a ∷ b ∷ l) k s o e q =
        subst (Justified group verified)
          (let p : by_confidence less leads sorted conflict_id_of group key h d ≡ k = cc in p)
          (by_confidence-Justified group verified key h d r s o (λ v only.
            let n : a ∷ b ∷ l ≡ v ∷ [] = sym e ∙ OnlyVerified-checked verified group v only in
            absurd cc))

    abbrev auto : List (FinancialClaim C) → List String → Outcome ConflictError KnowledgeConflict
    auto = auto_resolve less leads sorted conflict_id_of

    returned-Justified :
        (group : List (FinancialClaim C)) (verified : List String) (k : KnowledgeConflict)
        → auto group verified ≡ ok k
        → Justified group verified k
    unfolding auto_resolve
    returned-Justified [] verified k q = absurd (ground arith)
    returned-Justified (c ∷ claims) verified k q =
        let (h, r, e, _, t, s) = rank less leads sorted conflict_id_of laws c claims in
        let o : Sorted less leads sorted conflict_id_of laws (h ∷ r) =
          subst (Sorted less leads sorted conflict_id_of laws) e
            (Sorted-descending less leads sorted conflict_id_of laws (c ∷ claims)) in
        resolve-Justified (c ∷ claims) verified c.default_key h r _ k s o refl (
          subst₂
            (λ x (y : List (FinancialClaim C)).
              resolve less leads sorted conflict_id_of (c ∷ claims) c.default_key x
                (second less leads sorted conflict_id_of y) (checked verified (c ∷ claims))
              ≡ ok k)
            t e q)

    Split-alone :
        (group : List (FinancialClaim C)) (h : FinancialClaim C)
        → Split less leads sorted conflict_id_of laws group h []
        → group ≡ h ∷ []
    Split-alone group h s = s.whole ∙ go s.before s.after s.into
      where
        go :
            (b a : List (FinancialClaim C))
            → ((d : FinancialClaim C) → Memᴰ d (b ++ a) → Memᴰ d [])
            → b ++ h ∷ a ≡ h ∷ []
        go [] [] into = refl
        go [] (d ∷ a) into = absurd (not-nil (into d (head refl)))
        go (d ∷ b) a into = absurd (not-nil (into d (head refl)))

    resolve_returns :
        (group : List (FinancialClaim C)) (key : String) (h d : FinancialClaim C)
        (l : List (FinancialClaim C))
        → (k : KnowledgeConflict) × (resolve less leads sorted conflict_id_of group key h (ok d) l
            ≡ ok k)
    resolve_returns group key h d [] = (_, refl)
    resolve_returns group key h d (v ∷ []) = (_, refl)
    resolve_returns group key h d (v ∷ w ∷ l) = (_, refl)

    returns :
        (c d : FinancialClaim C) (claims : List (FinancialClaim C)) (verified : List String)
        → (k : KnowledgeConflict) × (auto (c ∷ d ∷ claims) verified ≡ ok k)
    unfolding auto_resolve
    returns c d claims verified =
        let (h, r, e, _, t, s) = rank less leads sorted conflict_id_of laws c (d ∷ claims) in
        go h r e s
      where
        go :
            (h : FinancialClaim C) (r : List (FinancialClaim C))
            → descending less leads sorted conflict_id_of (c ∷ d ∷ claims) ≡ h ∷ r
            → Split less leads sorted conflict_id_of laws (c ∷ d ∷ claims) h r
            → (k : KnowledgeConflict) × (auto (c ∷ d ∷ claims) verified ≡ ok k)
        go h [] e s = absurd (
            let n : c ∷ d ∷ claims ≡ h ∷ [] = Split-alone (c ∷ d ∷ claims) h s in
            let m : d ∷ claims ≡ [] = cc in cc)
        go h (x ∷ r) e s =
            let (k, q) =
              resolve_returns (c ∷ d ∷ claims) c.default_key
                (top_of less leads sorted conflict_id_of c (d ∷ claims)) x
                (checked verified (c ∷ d ∷ claims)) in
            (k, rw (auto_resolve, e) q)

    -- A group of two claims or more is resolved. The only verified claim of it is preferred. Only where no
    -- claim is the only verified one, a claim whose confidence leads that of each other claim is preferred, or
    -- the conflict stays open and prefers none, since a claim of the greatest confidence does not lead another.
    -- No conflict is resolved by the date of publication. Confidences are compared as numbers are.
    pub auto_resolve-Justified :
        (c d : FinancialClaim C) (claims : List (FinancialClaim C)) (verified : List String)
        → (k : KnowledgeConflict) × (auto (c ∷ d ∷ claims) verified ≡ ok k)
          × Justified (c ∷ d ∷ claims) verified k
    auto_resolve-Justified c d claims verified =
        let (k, e) = returns c d claims verified in
        (k, e, returned-Justified (c ∷ d ∷ claims) verified k e)
