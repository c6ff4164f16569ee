-- ===== src/Snapshot/Closure/Walk.antt =====
-- The search for cycles.
use mathlib.Core.List.{Memᴰ}
use mathlib.Core.List.Memᴰ.{head, tail, cases_cons, not-nil}
use stock_content.Prelude.{
  ℕ, zero, suc, ◌<◌, ◌≡◌, ◌≢◌, refl, sym, ◌∙◌, subst, String, true, none, some, List, [], ◌∷◌,
  arith, one_of, ◌==◌, eq_iff, Outcome, ok, raised, ◌>>=◌, bind_ok, Bool-cases, Option-cases,
  Outcome-cases, inl, inr, ◌⊎◌,
}
use stock_content.Prelude.Text.{dict_get}
use stock_content.Prelude.Members.{length, Mem-one_of, unlisted, unlisted-le-length, unlisted_falls}
use stock_content.Snapshot.Closure.{
  ClosureError, out_of_fuel, parent_cycle, keys, each, validate_closure,
}

-- a loop whose body raises nothing of a kind raises nothing of that kind
each-ne :
    (e : ClosureError) (f : List String → String → Outcome ClosureError (List String))
    (v l : List String)
    → ((w : List String) (p : String) → f w p ≢ raised e)
    → each f v l ≢ raised e
unfolding each
each-ne e f v [] h q = cc
each-ne e f v (p ∷ l) h q = elim (Outcome-cases (f v p)) [
  | inl (w, t) ↦ each-ne e f w l h (rw t at q)
  | inr (x, t) ↦ h v p (t ∙ (rw t at q))
]

bind-ne :
    {A B : Type 0} (m : Outcome ClosureError A) (f : A → B) (e : ClosureError)
    → m ≢ raised e
    → (m >>= λ a. ok (f a)) ≢ raised e
bind-ne (ok a) f e h q = cc
bind-ne (raised x) f e h q = h (cc)

each_returns :
    (f : List String → String → Outcome ClosureError (List String)) (v l : List String)
    → ((w : List String) (p : String) → Memᴰ p l → (x : List String) × (f w p ≡ ok x))
    → (x : List String) × (each f v l ≡ ok x)
unfolding each
each_returns f v [] h = (v, refl)
each_returns f v (p ∷ l) h =
    let (w, t) = h v p (head refl) in
    let (x, q) = each_returns f w l (λ y r m. h y r (tail m)) in (x, rw t q)

Mem-keys :
    {A : Type 0} (d : List (String × A)) (id : String) (a : A)
    → dict_get d id ≡ some a
    → Memᴰ id (keys d)
unfolding keys
Mem-keys [] id a h = cc
Mem-keys ((k, b) ∷ d) id a h = elim (Bool-cases (k == id)) [
  | inl e ↦ head (sym ((eq_iff k id).0 e))
  | inr e ↦ tail (Mem-keys d id a (rw e at h))
]

module _ (d : List (String × List String)) where
  -- every chain of parents of the artifact ends
  pub data Grounded : String → Type 0 where
    absent : (id : String) → dict_get d id ≡ none → Grounded id
    listed :
        (id : String) (ps : List String)
        → dict_get d id ≡ some ps
        → ((p : String) → Memᴰ p ps → Grounded p)
        → Grounded id

  data Below : String → String → Type 0 where
    step : (x y : String) (ps : List String) → dict_get d x ≡ some ps → Memᴰ y ps → Below x y
    more :
        (x y z : String) (ps : List String)
        → Below x y
        → dict_get d y ≡ some ps
        → Memᴰ z ps
        → Below x z

  first_step :
      (x z : String)
      → Below x z
      → (ps : List String) × (p : String) × (dict_get d x ≡ some ps)
        × Memᴰ p ps
        × ((p ≡ z) ⊎ Below p z)
  first_step x z (step _ _ ps e m) = (ps, z, e, m, inl refl)
  first_step x z (more _ y _ ps b e m) =
      let (qs, p, f, n, r) = first_step x y b in
      (
        qs,
        p,
        f,
        n,
        elim r [ inl same ↦ inr (step p z ps (rw same e) m) | inr c ↦ inr (more p y z ps c e m) ],
      )

  no_cycle : (id : String) → Grounded id → Below id id → ⊥
  no_cycle id (absent _ e) b = let (ps, p, f, _, _) = first_step id id b in ground (arith)
  no_cycle id (listed _ ps e g) b =
      let (qs, p, f, m, r) = first_step id id b in
      let same : qs ≡ ps = cc in
      let m' : Memᴰ p ps = subst (λ y. Memᴰ p y) same m in
      no_cycle p (g p m')
        (elim r [ inl q ↦ subst (λ y. Below y y) (sym q) b | inr c ↦ more p id p ps c e m' ])

  parents_Grounded :
      (id : String) (ps : List String)
      → Grounded id
      → dict_get d id ≡ some ps
      → (p : String) → Memᴰ p ps
      → Grounded p
  parents_Grounded id ps (absent _ e) f p m = absurd (ground arith)
  parents_Grounded id ps (listed _ qs e g) f p m =
      g p (subst (λ y. Memᴰ p y) (let q : ps ≡ qs = cc in q) m)

  abbrev AllGrounded : List String → Type 0
  AllGrounded v = (x : String) → Memᴰ x v → Grounded x

  each-Grounded :
      (f : List String → String → Outcome ClosureError (List String)) (v w l : List String)
      → ((a b : List String) (p : String)
          → f a p ≡ ok b
          → AllGrounded a
          → AllGrounded b × Grounded p)
      → each f v l ≡ ok w
      → AllGrounded v
      → AllGrounded w × AllGrounded l
  unfolding each
  each-Grounded f v w [] h q g =
      (subst AllGrounded (let e : v ≡ w = cc in e) g, λ x m. absurd (not-nil m))
  each-Grounded f v w (p ∷ l) h q g =
      let (a, t, r) = bind_ok (f v p) (λ b. each f b l) w q in
      let (ga, gp) = h v a p t g in
      let (gw, gl) = each-Grounded f a w l h r ga in
      (gw, λ x m. elim (cases_cons m) [ inl e ↦ subst Grounded (sym e) gp | inr n ↦ gl x n ])

  closure-Grounded :
      (n : ℕ) (path v w : List String) (id : String)
      → validate_closure n d path v id ≡ ok w
      → AllGrounded v
      → AllGrounded w × Grounded id
  unfolding validate_closure
  closure-Grounded zero path v w id h g = cc
  closure-Grounded (suc n) path v w id h g = elim (Bool-cases (one_of id v)) [
    | inl old ↦ (
      subst AllGrounded
          (let e : ◌≡◌ {A = Outcome ClosureError (List String)} (ok v) (ok w) = rw old at h in cc)
          g,
      g id (Mem-one_of id v old),
    )
    | inr new ↦ elim (Option-cases (dict_get d id)) [
      | inl e ↦ (
        subst AllGrounded
            (let q : ◌≡◌ {A = Outcome ClosureError (List String)} (ok v) (ok w) =
                rw (validate_closure, e) at (rw new at h) in
              cc)
            g,
        absent id e,
      )
      | inr (ps, e) ↦ elim (Bool-cases (one_of id path)) [
        | inl cycle ↦ absurd (
            let q : ◌≡◌ {A = Outcome ClosureError (List String)} (raised parent_cycle) (ok w) =
              rw cycle at (rw e at (rw new at h)) in
            cc)
        | inr fresh ↦
            let (a, t, r) =
              bind_ok (each (validate_closure n d (id ∷ path)) v ps) (λ b. ok (id ∷ b)) w
                (rw fresh at (rw e at (rw new at h))) in
            let (ga, gp) =
              each-Grounded (validate_closure n d (id ∷ path)) v a ps
                (λ a b p. closure-Grounded n (id ∷ path) a b p) t g in
            let gid : Grounded id = listed id ps e gp in
            (
              subst AllGrounded (let q : id ∷ a ≡ w = cc in q) (λ x m. elim (cases_cons m) [
                | inl q ↦ subst Grounded (sym q) gid
                | inr k ↦ ga x k
              ]),
              gid,
            )
      ]
    ]
  ]

  closure_total :
      (n : ℕ) (path v : List String) (id : String)
      → unlisted path (keys d) < n
      → validate_closure n d path v id ≢ raised out_of_fuel
  unfolding validate_closure
  closure_total zero path v id lt h = absurd (omega arith)
  closure_total (suc n) path v id lt h = elim (Bool-cases (one_of id v)) [
    | inl old ↦
        let q : ◌≡◌ {A = Outcome ClosureError (List String)} (ok v) (raised out_of_fuel) =
          rw old at h in
        cc
    | inr new ↦ elim (Option-cases (dict_get d id)) [
      | inl e ↦
          let q : ◌≡◌ {A = Outcome ClosureError (List String)} (ok v) (raised out_of_fuel) =
            rw (validate_closure, e) at (rw new at h) in
          cc
      | inr (ps, e) ↦ elim (Bool-cases (one_of id path)) [
        | inl cycle ↦
            let q : ◌≡◌ {A = Outcome ClosureError (List String)} (raised parent_cycle)
                (raised out_of_fuel) =
              rw cycle at (rw e at (rw new at h)) in
            cc
        | inr fresh ↦
            let falls = unlisted_falls id path (keys d) (Mem-keys d id ps e) fresh in
            let m : unlisted (id ∷ path) (keys d) < n = omega arith in
            bind-ne _ (λ b. id ∷ b) out_of_fuel
              (each-ne out_of_fuel (validate_closure n d (id ∷ path)) v ps
                (λ w p. closure_total n (id ∷ path) w p m))
              (rw fresh at (rw e at (rw new at h)))
      ]
    ]
  ]

  closure_returns :
      (n : ℕ) (path v : List String) (id : String)
      → unlisted path (keys d) < n
      → Grounded id
      → ((x : String) → one_of x path ≡ true → Below x id)
      → (w : List String) × (validate_closure n d path v id ≡ ok w)
  unfolding validate_closure
  closure_returns zero path v id lt g b = absurd (omega arith)
  closure_returns (suc n) path v id lt g b = elim (Bool-cases (one_of id v)) [
    | inl old ↦ (v, rw old refl)
    | inr new ↦ elim (Option-cases (dict_get d id)) [
      | inl e ↦ (v, rw (new, e) refl)
      | inr (ps, e) ↦ elim (Bool-cases (one_of id path)) [
        | inl cycle ↦ absurd (no_cycle id g (b id cycle))
        | inr fresh ↦
            let falls = unlisted_falls id path (keys d) (Mem-keys d id ps e) fresh in
            let lt' : unlisted (id ∷ path) (keys d) < n = omega arith in
            let (w, t) = each_returns (validate_closure n d (id ∷ path)) v ps (λ a p m.
              closure_returns n (id ∷ path) a p lt' (parents_Grounded id ps g e p m) (λ x q.
                elim (Bool-cases (x == id)) [
                  | inl same ↦ rw ((eq_iff x id).0 same) (step id p ps e m)
                  | inr other ↦ more x id p ps (b x (rw other at q)) e m
                ])) in
            (id ∷ w, rw (new, e, fresh, t) refl)
      ]
    ]
  ]

  abbrev pub searched : List String → Outcome ClosureError (List String)
  searched = each (validate_closure (suc (length (keys d))) d []) []

  -- The search never runs out of fuel.
  pub searched_total : (roots : List String) → searched roots ≢ raised out_of_fuel
  searched_total roots = each-ne out_of_fuel _ [] roots (λ w p.
      closure_total (suc (length (keys d))) [] w p (omega (arith, unlisted-le-length [] (keys d))))

  -- A search that returns has found that every chain of parents ends,
  pub searched-Grounded :
      (roots w : List String) → searched roots ≡ ok w → (x : String) → Memᴰ x roots → Grounded x
  searched-Grounded roots w h =
      (each-Grounded _ [] w roots (λ a b p. closure-Grounded (suc (length (keys d))) [] a b p) h
        (λ x m. absurd (not-nil m))).1

  -- and where every chain ends, it returns.
  pub searched_returns :
      (roots : List String)
      → ((x : String) → Memᴰ x roots → Grounded x)
      → (w : List String) × (searched roots ≡ ok w)
  searched_returns roots g = each_returns _ [] roots (λ w p m.
      closure_returns (suc (length (keys d))) [] w p (omega (arith, unlisted-le-length [] (keys d)))
        (g p m) (λ x q. absurd (ground arith)))
