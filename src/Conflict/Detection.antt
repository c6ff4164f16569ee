-- ===== src/Conflict/Detection.antt =====
-- Which groups of claims are detected as conflicts.
use mathlib.Core.List.{Memᴰ}
use mathlib.Core.List.Memᴰ.{head, tail, cases_cons, not-nil}
use stock_content.Prelude.{
  ◌≡◌, ◌≢◌, refl, ap, sym, ◌∙◌, subst, String, true, List, [], ◌∷◌, ◌++◌, arith, ltb, one_of, ◌==◌,
  eq_iff, Bool-cases, inl, inr, ◌⊎◌,
}
use stock_content.Conflict.{
  FinancialClaim, count, distinct, add_to, group_all, values, is_conflict, conflicting,
  detect_conflicts,
}

Mem-distinct : (x : String) (l : List String) → Memᴰ x l → Memᴰ x (distinct l)
Mem-distinct x [] m = m
Mem-distinct x (y ∷ l) m = elim (Bool-cases (one_of y (distinct l))) [
  | inl h ↦
      rw h (elim (cases_cons m) [ inl e ↦ back (distinct l) h e | inr t ↦ Mem-distinct x l t ])
  | inr h ↦ rw h (elim (cases_cons m) [ inl e ↦ head e | inr t ↦ tail (Mem-distinct x l t) ])
]
  where
    back : (d : List String) → one_of y d ≡ true → x ≡ y → Memᴰ x d
    back [] h e = absurd (ground arith)
    back (z ∷ d) h e = elim (Bool-cases (y == z)) [
      | inl q ↦ head (e ∙ (eq_iff y z).0 q)
      | inr q ↦ tail (back d (rw q at h) e)
    ]

-- two different members of a list make it longer than one
two_members :
    {A : Type 0} (a b : A) (l : List A) → Memᴰ a l → Memᴰ b l → a ≢ b → ltb 1 (count l) ≡ true
two_members a b [] m n ne = absurd (not-nil m)
two_members {A = A} a b (x ∷ []) m n ne = absurd (ne (only a m ∙ sym (only b n)))
  where
    only : (c : A) → Memᴰ c (x ∷ []) → c ≡ x
    only c m = elim (cases_cons m) [ inl e ↦ e | inr t ↦ absurd (not-nil t) ]
two_members a b (x ∷ y ∷ l) m n ne = ground arith

module _ {C : Type 0} where
  -- the claim is in a group of the key
  abbrev In : List (String × List (FinancialClaim C)) → String → FinancialClaim C → Type 0
  In [] key c = ⊥
  In ((k, group) ∷ groups) key c = ((k ≡ key) × Memᴰ c group) ⊎ ((k ≢ key) × In groups key c)

  Mem-append :
      (c d : FinancialClaim C) (l : List (FinancialClaim C)) → Memᴰ c l → Memᴰ c (l ++ d ∷ [])
  Mem-append c d [] m = absurd (not-nil m)
  Mem-append c d (x ∷ l) m = elim (cases_cons m) [
    | inl e ↦ head e
    | inr t ↦ tail (Mem-append c d l t)
  ]

  Mem-last : (c : FinancialClaim C) (l : List (FinancialClaim C)) → Memᴰ c (l ++ c ∷ [])
  Mem-last c [] = head refl
  Mem-last c (x ∷ l) = tail (Mem-last c l)

  In-add :
      (key : String) (c : FinancialClaim C) (groups : List (String × List (FinancialClaim C)))
      → In (add_to key c groups) key c
  In-add key c [] = inl (refl, head refl)
  In-add key c ((k, group) ∷ groups) = elim (Bool-cases (k == key)) [
    | inl h ↦ rw h (inl ((eq_iff k key).0 h, Mem-last c group))
    | inr h ↦ rw h (inr ((λ e. let t = (eq_iff k key).1 e in ground arith), In-add key c groups))
  ]

  In-keep :
      (key : String) (d : FinancialClaim C) (groups : List (String × List (FinancialClaim C)))
      (other : String) (c : FinancialClaim C)
      → In groups other c
      → In (add_to key d groups) other c
  In-keep key d [] other c h = absurd h
  In-keep key d ((k, group) ∷ groups) other c h = elim (Bool-cases (k == key)) [
    | inl q ↦
        rw q (elim h [ inl (e, m) ↦ inl (e, Mem-append c d group m) | inr (e, i) ↦ inr (e, i) ])
    | inr q ↦
        rw q (elim h [
          | inl (e, m) ↦ inl (e, m)
          | inr (e, i) ↦ inr (e, In-keep key d groups other c i)
        ])
  ]

  group_all-keeps_In :
      (groups : List (String × List (FinancialClaim C))) (claims : List (FinancialClaim C))
      (key : String) (c : FinancialClaim C)
      → In groups key c
      → In (group_all groups claims) key c
  unfolding group_all
  group_all-keeps_In groups [] key c h = h
  group_all-keeps_In groups (d ∷ claims) key c h =
      group_all-keeps_In (add_to d.conflict_key d groups) claims key c
        (In-keep d.conflict_key d groups key c h)

  group_all-In :
      (groups : List (String × List (FinancialClaim C))) (claims : List (FinancialClaim C))
      (c : FinancialClaim C)
      → Memᴰ c claims
      → In (group_all groups claims) c.conflict_key c
  unfolding group_all
  group_all-In groups [] c m = absurd (not-nil m)
  group_all-In groups (d ∷ claims) c m = elim (cases_cons m) [
    | inl e ↦ group_all-keeps_In (add_to d.conflict_key d groups) claims c.conflict_key c (
        subst (λ x. In (add_to x.conflict_key x groups) c.conflict_key c) e
          (In-add c.conflict_key c groups))
    | inr t ↦ group_all-In (add_to d.conflict_key d groups) claims c t
  ]

  Mem-values :
      (c : FinancialClaim C) (l : List (FinancialClaim C)) → Memᴰ c l → Memᴰ c.value (values l)
  Mem-values c [] m = absurd (not-nil m)
  Mem-values c (x ∷ l) m = elim (cases_cons m) [
    | inl e ↦ head (ap (λ y. y.value) e)
    | inr t ↦ tail (Mem-values c l t)
  ]

  is_conflict-two :
      (a b : FinancialClaim C) (group : List (FinancialClaim C))
      → Memᴰ a group
      → Memᴰ b group
      → a.value ≢ b.value
      → is_conflict group ≡ true
  is_conflict-two a b group m n ne =
      let p = two_members a b group m n (λ e. ne (ap (λ y. y.value) e)) in
      let q =
        two_members a.value b.value (distinct (values group))
          (Mem-distinct a.value (values group) (Mem-values a group m))
          (Mem-distinct b.value (values group) (Mem-values b group n)) ne in
      rw (p, q) refl

  together :
      (groups : List (String × List (FinancialClaim C))) (key : String) (a b : FinancialClaim C)
      → In groups key a
      → In groups key b
      → a.value ≢ b.value
      → (group : List (FinancialClaim C)) × Memᴰ group (conflicting groups)
        × Memᴰ a group
        × Memᴰ b group
  together [] key a b i j ne = absurd i
  together ((k, group) ∷ groups) key a b (inl (e, m)) (inl (f, n)) ne =
      (group, rw (is_conflict-two a b group m n ne) (head refl), m, n)
  together ((k, group) ∷ groups) key a b (inl (e, m)) (inr (f, n)) ne = absurd (f e)
  together ((k, group) ∷ groups) key a b (inr (e, m)) (inl (f, n)) ne = absurd (e f)
  together ((k, group) ∷ groups) key a b (inr (e, i)) (inr (f, j)) ne =
      let (g, m, n, o) = together groups key a b i j ne in
      elim (Bool-cases (is_conflict group)) [
        | inl h ↦ (g, rw h (tail m), n, o)
        | inr h ↦ (g, rw h m, n, o)
      ]

  -- Two claims of one key with different values are in a conflict that is detected.
  pub detect_conflicts_complete :
      (claims : List (FinancialClaim C)) (a b : FinancialClaim C)
      → Memᴰ a claims
      → Memᴰ b claims
      → a.conflict_key ≡ b.conflict_key
      → a.value ≢ b.value
      → (group : List (FinancialClaim C)) × Memᴰ group (detect_conflicts claims)
        × Memᴰ a group
        × Memᴰ b group
  unfolding detect_conflicts
  detect_conflicts_complete claims a b m n same ne =
      together (group_all [] claims) a.conflict_key a b (group_all-In [] claims a m)
        (subst (λ k. In (group_all [] claims) k b) (sym same) (group_all-In [] claims b n)) ne

  -- each group has the claims of one key, all with the property
  abbrev OneKey : (FinancialClaim C → Type 0) → List (String × List (FinancialClaim C)) → Type 0
  OneKey P [] = Unit
  OneKey P ((k, group) ∷ groups) =
      ((c : FinancialClaim C) → Memᴰ c group → (c.conflict_key ≡ k) × P c) × OneKey P groups

  Mem-cases :
      (c d : FinancialClaim C) (l : List (FinancialClaim C))
      → Memᴰ c (l ++ d ∷ [])
      → (c ≡ d) ⊎ Memᴰ c l
  Mem-cases c d [] m = elim (cases_cons m) [ inl e ↦ inl e | inr t ↦ absurd (not-nil t) ]
  Mem-cases c d (x ∷ l) m = elim (cases_cons m) [
    | inl e ↦ inr (head e)
    | inr t ↦ elim (Mem-cases c d l t) [ inl e ↦ inl e | inr u ↦ inr (tail u) ]
  ]

  add_to-OneKey :
      (P : FinancialClaim C → Type 0) (d : FinancialClaim C)
      (groups : List (String × List (FinancialClaim C)))
      → P d
      → OneKey P groups
      → OneKey P (add_to d.conflict_key d groups)
  add_to-OneKey P d [] p h = (
    (λ c m. elim (cases_cons m) [
      | inl e ↦ (ap (λ x. x.conflict_key) e, subst P (sym e) p)
      | inr t ↦ absurd (not-nil t)
    ]),
    tt,
  )
  add_to-OneKey P d ((k, group) ∷ groups) p (h, hs) = elim (Bool-cases (k == d.conflict_key)) [
    | inl q ↦ rw q (
      (λ c m. elim (Mem-cases c d group m) [
        | inl e ↦
            (ap (λ x. x.conflict_key) e ∙ sym ((eq_iff k d.conflict_key).0 q), subst P (sym e) p)
        | inr t ↦ h c t
      ]),
      hs,
    )
    | inr q ↦ rw q (h, add_to-OneKey P d groups p hs)
  ]

  group_all-OneKey :
      (P : FinancialClaim C → Type 0) (groups : List (String × List (FinancialClaim C)))
      (claims : List (FinancialClaim C))
      → ((c : FinancialClaim C) → Memᴰ c claims → P c)
      → OneKey P groups
      → OneKey P (group_all groups claims)
  unfolding group_all
  group_all-OneKey P groups [] all h = h
  group_all-OneKey P groups (d ∷ claims) all h =
      group_all-OneKey P (add_to d.conflict_key d groups) claims (λ c m. all c (tail m))
        (add_to-OneKey P d groups (all d (head refl)) h)

  conflicting-OneKey :
      (P : FinancialClaim C → Type 0) (groups : List (String × List (FinancialClaim C)))
      (group : List (FinancialClaim C))
      → OneKey P groups
      → Memᴰ group (conflicting groups)
      → (key : String) × ((c : FinancialClaim C) → Memᴰ c group → (c.conflict_key ≡ key) × P c)
        × (is_conflict group ≡ true)
  conflicting-OneKey P [] group h m = absurd (not-nil m)
  conflicting-OneKey P ((k, g) ∷ groups) group (h, hs) m = elim (Bool-cases (is_conflict g)) [
    | inl q ↦ elim (cases_cons (let n : Memᴰ group (g ∷ conflicting groups) = rw q at m in n)) [
      | inl e ↦
          (k, (λ c x. h c (subst (λ y. Memᴰ c y) e x)), subst (λ y. is_conflict y ≡ true) (sym e) q)
      | inr t ↦ conflicting-OneKey P groups group hs t
    ]
    | inr q ↦ conflicting-OneKey P groups group hs (rw q at m)
  ]

  -- A conflict that is detected is a group of at least two of the claims, all of one key, with several
  -- values.
  pub detect_conflicts_sound :
      (claims group : List (FinancialClaim C))
      → Memᴰ group (detect_conflicts claims)
      → (key : String) × ((c : FinancialClaim C)
          → Memᴰ c group
          → (c.conflict_key ≡ key) × Memᴰ c claims)
        × (is_conflict group ≡ true)
  unfolding detect_conflicts
  detect_conflicts_sound claims group m =
      conflicting-OneKey (λ c. Memᴰ c claims) (group_all [] claims) group
        (group_all-OneKey (λ c. Memᴰ c claims) [] claims (λ c n. n) tt) m
