-- ===== src/Snapshot/Closure/Fuel.antt =====
-- The rounds of the loading, and when it returns.
use mathlib.Core.List.{Memᴰ}
use mathlib.Core.List.Memᴰ.{head, tail, append_left, append_right, append_cases, eq_of_singleton}
use stock_content.Prelude.{
  ℕ, zero, suc, ◌+◌, ◌≤◌, ◌≡◌, ◌≢◌, refl, ap, sym, ◌∙◌, subst, String, Bool, Option, some, List, [],
  ◌∷◌, ◌++◌, map, arith, one_of, ◌==◌, Outcome, ok, raised, ◌>>=◌, ◌>>◌, require, bind_ok, then_ok,
  Bool-cases, Option-cases, Outcome-cases, ok-inj, raised-inj, inl, inr, ◌⊎◌,
}
use stock_content.Prelude.Text.{dict_get, dict_set}
use stock_content.Prelude.Members.{
  length, take, drop, length-drop, length-append, unlisted, unlisted_falls,
}
use stock_content.Snapshot.Closure.{
  ContentArtifactRow, Tables, ClosureError, missing_artifact, invalid_artifact, out_of_fuel,
  Loading, batch_size, edges_of, offer, offer_all, all_parents, expected_edge, check_edges, visit,
  visit_all, load,
}
use stock_content.Snapshot.Closure.Load.{List-cases}

-- the texts that may still be queued, and those that wait
abbrev pub work : List String → Loading → ℕ
work u l = unlisted l.queued u + length l.pending

offer-work : (u : List String) (l : Loading) (p : String) → Memᴰ p u → work u (offer l p) ≤ work u l
offer-work u l p m = elim (Bool-cases (one_of p l.queued)) [
  | inl old ↦ rw old (omega arith)
  | inr new ↦
      rw new (omega (arith, unlisted_falls p l.queued u m new, length-append l.pending (p ∷ [])))
]

offer_all-work :
    (u : List String) (l : Loading) (ps : List String)
    → ((p : String) → Memᴰ p ps → Memᴰ p u)
    → work u (offer_all l ps) ≤ work u l
unfolding offer_all
offer_all-work u l [] h = omega arith
offer_all-work u l (p ∷ ps) h = omega (
  arith,
  offer-work u l p (h p (head refl)),
  offer_all-work u (offer l p) ps (λ q m. h q (tail m)),
)

pub offer_all-pending_cases :
    (l : Loading) (ps : List String) (x : String)
    → Memᴰ x (offer_all l ps).pending
    → Memᴰ x l.pending ⊎ Memᴰ x ps
unfolding offer_all
offer_all-pending_cases l [] x m = inl m
offer_all-pending_cases l (p ∷ ps) x m = elim (offer_all-pending_cases (offer l p) ps x m) [
  | inr t ↦ inr (tail t)
  | inl a ↦ elim (Bool-cases (one_of p l.queued)) [
    | inl old ↦ inl (rw old at a)
    | inr new ↦
        elim (append_cases l.pending (let b : Memᴰ x (l.pending ++ p ∷ []) = rw new at a in b)) [
          | inl b ↦ inl b
          | inr c ↦ inr (head (eq_of_singleton c))
        ]
  ]
]

module _ {P : Type 0} where
  Mem-all_parents :
      (artifacts : List (String × ContentArtifactRow P)) (id p : String)
      (row : ContentArtifactRow P)
      → dict_get artifacts id ≡ some row
      → Memᴰ p row.parent_artifact_ids
      → Memᴰ p (all_parents artifacts)
  unfolding all_parents
  Mem-all_parents [] id p row e m = cc
  Mem-all_parents ((k, r) ∷ artifacts) id p row e m = elim (Bool-cases (k == id)) [
    | inl h ↦ append_left (all_parents artifacts) (
        let q : r ≡ row =
          let t : ◌≡◌ {A = Option (ContentArtifactRow P)} (some r) (some row) = rw h at e in cc in
        subst (λ (y : ContentArtifactRow P). Memᴰ p y.parent_artifact_ids) {y = r} (sym q) m)
    | inr h ↦ append_right r.parent_artifact_ids (Mem-all_parents artifacts id p row (rw h at e) m)
  ]

  module _ (intact : ContentArtifactRow P → Bool) (edge_id_of : String → String → String)
      (legacy : Bool) (s : Tables P) where
    visit-cases :
        (l m : Loading) (id : String)
        → visit intact edge_id_of legacy s l id ≡ ok m
        → (l ≡ m)
          ⊎ ((row : ContentArtifactRow P) × (dict_get s.artifacts id ≡ some row)
              × (m
                  ≡ offer_all
                      (record l { parents = dict_set l.parents id row.parent_artifact_ids })
                      row.parent_artifact_ids))
    unfolding visit
    visit-cases l m id h = elim (Option-cases (dict_get s.artifacts id)) [
      | inl e ↦ elim (Bool-cases legacy) [
        | inl old ↦ inl (
            let q : ◌≡◌ {A = Outcome ClosureError Loading} (ok l) (ok m) =
              rw (visit, e, old) at h in
            cc)
        | inr new ↦ absurd (
            let q : ◌≡◌ {A = Outcome ClosureError Loading} (raised missing_artifact) (ok m) =
              rw (visit, e, new) at h in
            cc)
      ]
      | inr (row, e) ↦
          let next : Outcome ClosureError Loading = ok (
            offer_all (record l { parents = dict_set l.parents id row.parent_artifact_ids })
              row.parent_artifact_ids) in
          let edges =
            check_edges intact edge_id_of legacy (edges_of s.edges id)
              (map (expected_edge intact edge_id_of legacy id) row.parent_artifact_ids) in
          let (_, q) =
            then_ok (require (intact row) invalid_artifact) (edges >> next) m
              (rw (visit, e) at h) in
          let (_, t) = then_ok edges next m q in inr (row, e, sym (ok-inj t))
    ]

    visit-ne :
        (l : Loading) (id : String) → visit intact edge_id_of legacy s l id ≢ raised out_of_fuel
    unfolding visit check_edges
    visit-ne l id h = ground arith

    visit_all-ne :
        (l : Loading) (batch : List String)
        → visit_all intact edge_id_of legacy s l batch ≢ raised out_of_fuel
    unfolding visit_all
    visit_all-ne l [] h = cc
    visit_all-ne l (id ∷ batch) h = elim (Outcome-cases (visit intact edge_id_of legacy s l id)) [
      | inl (m, e) ↦ visit_all-ne m batch (rw e at h)
      | inr (x, e) ↦ visit-ne l id (e ∙ (rw e at h))
    ]

    module _ (u : List String)
        (known : (p : String) → Memᴰ p (all_parents s.artifacts) → Memᴰ p u) where
      visit-work :
          (l m : Loading) (id : String)
          → visit intact edge_id_of legacy s l id ≡ ok m
          → work u m ≤ work u l
      visit-work l m id h = elim (visit-cases l m id h) [
        | inl e ↦ rw e (omega arith)
        | inr (row, e, q) ↦ rw q (
            offer_all-work u (record l { parents = dict_set l.parents id row.parent_artifact_ids })
              row.parent_artifact_ids (λ p n. known p (Mem-all_parents s.artifacts id p row e n)))
      ]

      visit_all-work :
          (l m : Loading) (batch : List String)
          → visit_all intact edge_id_of legacy s l batch ≡ ok m
          → work u m ≤ work u l
      unfolding visit_all
      visit_all-work l m [] h = let e : l ≡ m = cc in rw e (omega arith)
      visit_all-work l m (id ∷ batch) h =
          let (k, v, rest) = bind_ok _ _ m h in
          omega (arith, visit-work l k id v, visit_all-work k m batch rest)

      pub load_total :
          (n : ℕ) (l : Loading)
          → work u l ≤ n
          → load intact edge_id_of legacy n s l ≢ raised out_of_fuel
      unfolding load
      load_total zero l lt h = elim (List-cases l.pending) [
        | inl e ↦
            let q : ◌≡◌ {A = Outcome ClosureError (List (String × List String))} (ok l.parents)
                (raised out_of_fuel) =
              rw (load, e) at h in
            cc
        | inr (p, rest, e) ↦ omega (arith, ap length e)
      ]
      load_total (suc n) l lt h = elim (List-cases l.pending) [
        | inl e ↦
            let q : ◌≡◌ {A = Outcome ClosureError (List (String × List String))} (ok l.parents)
                (raised out_of_fuel) =
              rw (load, e) at h in
            cc
        | inr (p, rest, e) ↦
            let l' : Loading = record l { pending = drop batch_size (p ∷ rest) } in
            let batch = take batch_size (p ∷ rest) in
            let shorter : work u l' ≤ n = omega (arith, ap length e, length-drop 499 rest) in
            let q : (visit_all intact edge_id_of legacy s l' batch
                  >>= load intact edge_id_of legacy n s)
                ≡ raised out_of_fuel =
              rw (load, e) at h in
            elim (Outcome-cases (visit_all intact edge_id_of legacy s l' batch)) [
              | inl (m, v) ↦
                  let less : work u m ≤ work u l' = visit_all-work l' m batch v in
                  load_total n m (omega arith) (rw v at q)
              | inr (x, v) ↦
                  let same : x ≡ out_of_fuel = raised-inj (rw v at q) in
                  visit_all-ne l' batch (rw same at v)
            ]
      ]
