-- ===== src/Conflict/Ranking.antt =====
-- The claims of a group by confidence: the first of the greatest, and the runner-up.
use mathlib.Core.List.{Memᴰ}
use mathlib.Core.List.Memᴰ.{head, tail, cases_cons, not-nil}
use stock_content.Prelude.{
  ◌≡◌, refl, ap, sym, ◌∙◌, subst, String, Bool, true, false, List, [], ◌∷◌, ◌++◌, if◌then◌else◌,
  Bool-cases, inl, inr, ◌⊎◌,
}
use stock_content.Conflict.{FinancialClaim, top_of, place, descending}

-- What the tests `<` and `a - b >= 0.1` satisfy for confidences that are numbers.
pub record IsConfidence {C : Type 0} (less leads : C → C → Bool) : Type 0 where
  pub asym : (a b : C) → less a b ≡ true → less b a ≡ false
  pub trans : (a b c : C) → less a b ≡ true → less b c ≡ true → less a c ≡ true
  pub between : (a b c : C) → less a b ≡ false → less b c ≡ false → less a c ≡ false
  pub wider : (a b c : C) → leads a b ≡ true → less b c ≡ false → leads a c ≡ true

module _ {C : Type 0} (less : C → C → Bool) (leads : C → C → Bool)
    (sorted : List String → List String) (conflict_id_of : String → List String → String)
    (laws : IsConfidence less leads) where
  abbrev below : FinancialClaim C → FinancialClaim C → Bool
  below c d = less c.source_confidence d.source_confidence

  abbrev put_in : FinancialClaim C → List (FinancialClaim C) → List (FinancialClaim C)
  put_in = place less leads sorted conflict_id_of

  abbrev ranked : List (FinancialClaim C) → List (FinancialClaim C)
  ranked = descending less leads sorted conflict_id_of

  abbrev top : FinancialClaim C → List (FinancialClaim C) → FinancialClaim C
  top = top_of less leads sorted conflict_id_of

  Mem-place :
      (c x : FinancialClaim C) (l : List (FinancialClaim C))
      → (x ≡ c) ⊎ Memᴰ x l
      → Memᴰ x (put_in c l)
  Mem-place c x [] (inl e) = head e
  Mem-place c x [] (inr m) = absurd (not-nil m)
  Mem-place c x (d ∷ l) m = elim (Bool-cases (below c d)) [
    | inl h ↦ rw h (elim m [
      | inl e ↦ tail (Mem-place c x l (inl e))
      | inr n ↦ elim (cases_cons n) [ inl e ↦ head e | inr t ↦ tail (Mem-place c x l (inr t)) ]
    ])
    | inr h ↦ rw h (elim m [ inl e ↦ head e | inr n ↦ tail n ])
  ]

  place-Mem :
      (c x : FinancialClaim C) (l : List (FinancialClaim C))
      → Memᴰ x (put_in c l)
      → (x ≡ c) ⊎ Memᴰ x l
  place-Mem c x [] m = elim (cases_cons m) [ inl e ↦ inl e | inr n ↦ absurd (not-nil n) ]
  place-Mem c x (d ∷ l) m = elim (Bool-cases (below c d)) [
    | inl h ↦ elim (cases_cons (let n : Memᴰ x (d ∷ put_in c l) = rw h at m in n)) [
      | inl e ↦ inr (head e)
      | inr t ↦ elim (place-Mem c x l t) [ inl e ↦ inl e | inr n ↦ inr (tail n) ]
    ]
    | inr h ↦ elim (cases_cons (let n : Memᴰ x (c ∷ d ∷ l) = rw h at m in n)) [
      | inl e ↦ inl e
      | inr t ↦ inr t
    ]
  ]

  -- no claim comes after a lesser one
  abbrev pub Sorted : List (FinancialClaim C) → Type 0
  Sorted [] = Unit
  Sorted (c ∷ l) = ((d : FinancialClaim C) → Memᴰ d l → below c d ≡ false) × Sorted l

  Sorted-place :
      (c : FinancialClaim C) (l : List (FinancialClaim C)) → Sorted l → Sorted (put_in c l)
  Sorted-place c [] h = ((λ d m. absurd (not-nil m)), tt)
  Sorted-place c (d ∷ l) (first, h) = elim (Bool-cases (below c d)) [
    | inl q ↦ rw q (
      (λ x m. elim (place-Mem c x l m) [
        | inl e ↦ rw e (laws.asym c.source_confidence d.source_confidence q)
        | inr n ↦ first x n
      ]),
      Sorted-place c l h,
    )
    | inr q ↦ rw q (
      (λ x m. elim (cases_cons m) [
        | inl e ↦ rw e q
        | inr n ↦
            laws.between c.source_confidence d.source_confidence x.source_confidence q (first x n)
      ]),
      (first, h),
    )
  ]

  pub Sorted-descending : (l : List (FinancialClaim C)) → Sorted (ranked l)
  unfolding descending
  Sorted-descending [] = tt
  Sorted-descending (c ∷ l) = Sorted-place c (ranked l) (Sorted-descending l)

  -- `h` is a claim of the group, and `r` are the claims at the other places
  pub record Split (group : List (FinancialClaim C)) (h : FinancialClaim C)
      (r : List (FinancialClaim C)) : Type 0 where
    pub before : List (FinancialClaim C)
    pub after : List (FinancialClaim C)
    pub whole : group ≡ before ++ h ∷ after
    pub into : (d : FinancialClaim C) → Memᴰ d (before ++ after) → Memᴰ d r
    pub back : (d : FinancialClaim C) → Memᴰ d r → Memᴰ d (before ++ after)

  pub Split-all :
      {group : List (FinancialClaim C)} {h x : FinancialClaim C} {r : List (FinancialClaim C)}
      → Split group h r
      → Memᴰ x group
      → (x ≡ h) ⊎ Memᴰ x r
  Split-all {group = group} {h = h} {x = x} {r = r} s m =
      find s.before s.into (subst (λ l. Memᴰ x l) s.whole m)
    where
      find :
          (b : List (FinancialClaim C))
          → ((d : FinancialClaim C) → Memᴰ d (b ++ s.after) → Memᴰ d r)
          → Memᴰ x (b ++ h ∷ s.after)
          → (x ≡ h) ⊎ Memᴰ x r
      find [] into m = elim (cases_cons m) [ inl e ↦ inl e | inr t ↦ inr (into x t) ]
      find (d ∷ b) into m = elim (cases_cons m) [
        | inl e ↦ inr (into x (head e))
        | inr t ↦ find b (λ y n. into y (tail n)) t
      ]

  all-Split :
      {group : List (FinancialClaim C)} {h x : FinancialClaim C} {r : List (FinancialClaim C)}
      → Split group h r
      → (x ≡ h) ⊎ Memᴰ x r
      → Memᴰ x group
  all-Split {h = h} {x = x} s m =
      subst (λ l. Memᴰ x l) (sym s.whole)
        (add s.before (elim m [ inl e ↦ inl e | inr n ↦ inr (s.back x n) ]))
    where
      add :
          (b : List (FinancialClaim C))
          → (x ≡ h) ⊎ Memᴰ x (b ++ s.after)
          → Memᴰ x (b ++ h ∷ s.after)
      add [] (inl e) = head e
      add [] (inr n) = tail n
      add (d ∷ b) (inl e) = tail (add b (inl e))
      add (d ∷ b) (inr n) = elim (cases_cons n) [ inl e ↦ head e | inr t ↦ tail (add b (inr t)) ]

  Split-place :
      (c h : FinancialClaim C) (group r : List (FinancialClaim C))
      → Split group h r
      → (g : FinancialClaim C) × (q : List (FinancialClaim C)) × (put_in c (h ∷ r) ≡ g ∷ q)
        × (g ≡ (if below c h then h else c))
        × Split (c ∷ group) g q
  Split-place c h group r s = elim (Bool-cases (below c h)) [
    | inl e ↦ rw e (
      h,
      put_in c r,
      refl,
      refl,
      record {
        before = c ∷ s.before;
        after = s.after;
        whole = ap (λ l. c ∷ l) s.whole;
        into = λ d m. elim (cases_cons m) [
          | inl q ↦ Mem-place c d r (inl q)
          | inr t ↦ Mem-place c d r (inr (s.into d t))
        ];
        back = λ d m. elim (place-Mem c d r m) [ inl q ↦ head q | inr t ↦ tail (s.back d t) ];
      },
    )
    | inr e ↦ rw e (
      c,
      h ∷ r,
      refl,
      refl,
      record {
        before = [];
        after = group;
        whole = refl;
        into = λ d m. elim (Split-all s m) [ inl q ↦ head q | inr t ↦ tail t ];
        back = λ d m. all-Split s (cases_cons m);
      },
    )
  ]

  -- the first of the greater of two claims
  abbrev best : FinancialClaim C → FinancialClaim C → FinancialClaim C
  best b c = if below b c then c else b

  best_assoc : (b c h : FinancialClaim C) → best (best b c) h ≡ best b (best c h)
  best_assoc b c h =
      let u = b.source_confidence in
      let v = c.source_confidence in
      let w = h.source_confidence in
      elim (Bool-cases (below b c)) [
        | inl p ↦ elim (Bool-cases (below c h)) [
          | inl q ↦ rw (p, q, laws.trans u v w p q) refl
          | inr q ↦ rw (p, q, p) refl
        ]
        | inr p ↦ elim (Bool-cases (below c h)) [
          | inl q ↦ rw (p, q) refl
          | inr q ↦ rw (p, q, p, laws.between u v w p q) refl
        ]
      ]

  -- the order of a group begins with the claim that `max` returns
  pub rank :
      (c : FinancialClaim C) (l : List (FinancialClaim C))
      → (h : FinancialClaim C) × (r : List (FinancialClaim C)) × (ranked (c ∷ l) ≡ h ∷ r)
        × ((b : FinancialClaim C) → top b (c ∷ l) ≡ best b h)
        × (top c l ≡ h)
        × Split (c ∷ l) h r
  unfolding descending top_of
  rank c [] = (
    c,
    [],
    refl,
    (λ b. refl),
    refl,
    record { before = []; after = []; whole = refl; into = λ d m. m; back = λ d m. m },
  )
  rank c (d ∷ l) =
      let (h, r, e, tops, _, s) = rank d l in
      let (g, q, placed, first, split) = Split-place c h (d ∷ l) r s in
      (
        g,
        q,
        ap (put_in c) e ∙ placed,
        (λ b. tops (best b c) ∙ best_assoc b c h ∙ ap (best b) (sym first)),
        tops c ∙ sym first,
        split,
      )
