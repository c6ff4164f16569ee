-- ===== src/Snapshot/Closure/Load.antt =====
-- What the loading of the artifacts leaves.
use mathlib.Core.List.{Memᴰ}
use mathlib.Core.List.Memᴰ.{cases_cons, not-nil}
use stock_content.Prelude.{
  ℕ, zero, suc, ◌≡◌, ◌↔◌, refl, sym, subst, String, Bool, true, false, some, List, [], ◌∷◌, map,
  arith, one_of, ◌==◌, eq_iff, eq_refl, Outcome, ok, raised, bind_ok, require_ok, Bool-cases,
  Option-cases, inl, inr, ◌⊎◌,
}
use stock_content.Prelude.Text.{dict_get, dict_set, dict_get-dict_set}
use stock_content.Prelude.Members.{take, drop, Mem-slices}
use stock_content.Snapshot.Closure.Edges.{check_edges_of_iff}
use stock_content.Snapshot.Closure.{
  ContentArtifactRow, ContentArtifactEdgeRow, Tables, ClosureError, missing_artifact, out_of_fuel,
  Loading, batch_size, offer_all, expected_edge, visit, visit_all, load,
}
use stock_content.Snapshot.Closure.Offer.{
  offer_all-queued, offer_all-all, offer_all-pending, offer_all-new, offer_all-parents,
}

pub List-cases : {A : Type 0} (l : List A) → (l ≡ []) ⊎ ((x : A) × (r : List A) × (l ≡ x ∷ r))
List-cases [] = inl refl
List-cases (x ∷ r) = inr (x, r, refl)

module _ {P : Type 0} (intact : ContentArtifactRow P → Bool) (edge_id_of : String → String → String)
    (s : Tables P) where
  -- A valid artifact is stored under its identifier with an intact payload, and the edges that start at
  -- it are those to its parents.
  abbrev pub IsValidRow : String → ContentArtifactRow P → Type 0
  IsValidRow x row =
      (dict_get s.artifacts x ≡ some row)
      × (intact row ≡ true)
      × ((e : ContentArtifactEdgeRow)
          → (Memᴰ e s.edges × (e.artifact_id ≡ x))
            ↔ Memᴰ e (map (expected_edge intact edge_id_of false x) row.parent_artifact_ids))

  abbrev pub Recorded : List (String × List String) → List String → String → Type 0
  Recorded d q x =
      (row : ContentArtifactRow P) × IsValidRow x row
      × (dict_get d x ≡ some row.parent_artifact_ids)
      × ((p : String) → Memᴰ p row.parent_artifact_ids → one_of p q ≡ true)

  abbrev pub Covered : Loading → List String → Type 0
  Covered l batch =
      (x : String)
      → one_of x l.queued ≡ true
      → Memᴰ x batch ⊎ (Memᴰ x l.pending ⊎ Recorded l.parents l.queued x)

  pub visited :
      (l m : Loading) (id : String)
      → visit intact edge_id_of false s l id ≡ ok m
      → (row : ContentArtifactRow P) × IsValidRow id row
        × (m
            ≡ offer_all
                (record l { parents = dict_set l.parents id row.parent_artifact_ids })
                row.parent_artifact_ids)
  unfolding visit
  visited l m id h = elim (Option-cases (dict_get s.artifacts id)) [
    | inl e ↦ absurd (
        let q : ◌≡◌ {A = Outcome ClosureError Loading} (raised missing_artifact) (ok m) =
          rw (visit, e) at h in
        cc)
    | inr (row, e) ↦
        let (a, p, q) = bind_ok _ _ m (rw (visit, e) at h) in
        let (b, r, t) = bind_ok _ _ m q in
        (
          row,
          (e, require_ok _ _ p, (check_edges_of_iff intact edge_id_of s.edges _ id).0 r),
          (let u : ◌≡◌ {A = Outcome ClosureError Loading} (ok m) (ok _) = sym t in cc),
        )
  ]

  visited-Recorded :
      (l : Loading) (id : String) (row : ContentArtifactRow P)
      → IsValidRow id row
      → let l' : Loading = record l { parents = dict_set l.parents id row.parent_artifact_ids } in
        let m = offer_all l' row.parent_artifact_ids in Recorded m.parents m.queued id
  visited-Recorded l id row valid =
      let l' : Loading = record l { parents = dict_set l.parents id row.parent_artifact_ids } in
      (
        row,
        valid,
        rw
            (
              offer_all-parents l' row.parent_artifact_ids,
              dict_get-dict_set l.parents id id row.parent_artifact_ids,
              eq_refl id,
            )
            refl,
        offer_all-all l' row.parent_artifact_ids,
      )

  record-Covered :
      (l : Loading) (id : String) (row : ContentArtifactRow P) (batch : List String)
      → IsValidRow id row
      → Covered l (id ∷ batch)
      → Covered
          (offer_all
            (record l { parents = dict_set l.parents id row.parent_artifact_ids })
            row.parent_artifact_ids)
          batch
  record-Covered l id row batch valid c x q =
      let ps = row.parent_artifact_ids in
      let l' : Loading = record l { parents = dict_set l.parents id ps } in
      elim (Bool-cases (id == x)) [
        | inl e ↦ inr (
            inr (
              subst (Recorded (offer_all l' ps).parents (offer_all l' ps).queued)
                ((eq_iff id x).0 e) (visited-Recorded l id row valid)))
        | inr e ↦ elim (offer_all-new l' ps x q) [
          | inr (_, m) ↦ inr (inl m)
          | inl old ↦ elim (c x old) [
            | inl m ↦ elim (cases_cons m) [
              | inl same ↦ absurd (let t = (eq_iff id x).1 (sym same) in ground arith)
              | inr t ↦ inl t
            ]
            | inr (inl m) ↦ inr (inl (offer_all-pending l' ps x m))
            | inr (inr (r, v, d, qs)) ↦ inr (
                inr (
                  r,
                  v,
                  rw (offer_all-parents l' ps, dict_get-dict_set l.parents id x ps, e) d,
                  λ p m. offer_all-queued l' ps p (qs p m),
                ))
          ]
        ]
      ]

  visit_all-Covered :
      (l m : Loading) (batch : List String)
      → visit_all intact edge_id_of false s l batch ≡ ok m
      → Covered l batch
      → Covered m []
  unfolding visit_all
  visit_all-Covered l m [] h c = subst (λ k. Covered k []) (let e : l ≡ m = cc in e) c
  visit_all-Covered l m (id ∷ batch) h c =
      let (k, v, rest) = bind_ok _ _ m h in
      let (row, valid, e) = visited l k id v in
      visit_all-Covered k m batch rest
        (subst (λ k. Covered k batch) (sym e) (record-Covered l id row batch valid c))

  visit-queued :
      (l m : Loading) (id x : String)
      → visit intact edge_id_of false s l id ≡ ok m
      → one_of x l.queued ≡ true
      → one_of x m.queued ≡ true
  visit-queued l m id x h q =
      let (row, _, e) = visited l m id h in rw e (offer_all-queued _ row.parent_artifact_ids x q)

  visit_all-queued :
      (l m : Loading) (batch : List String) (x : String)
      → visit_all intact edge_id_of false s l batch ≡ ok m
      → one_of x l.queued ≡ true
      → one_of x m.queued ≡ true
  unfolding visit_all
  visit_all-queued l m [] x h q =
      subst (λ (k : Loading). one_of x k.queued ≡ true) (let e : l ≡ m = cc in e) q
  visit_all-queued l m (id ∷ batch) x h q =
      let (k, v, rest) = bind_ok _ _ m h in
      visit_all-queued k m batch x rest (visit-queued l k id x v q)

  abbrev pub Closed : List (String × List String) → List String → Type 0
  Closed d q = (x : String) → one_of x q ≡ true → Recorded d q x

  nothing_left : (l : Loading) → l.pending ≡ [] → Covered l [] → Closed l.parents l.queued
  nothing_left l e c x q = elim (c x q) [
    | inl m ↦ absurd (not-nil m)
    | inr (inl m) ↦ absurd (not-nil (subst (λ y. Memᴰ x y) e m))
    | inr (inr r) ↦ r
  ]

  batch-Covered :
      (l : Loading) (n : ℕ)
      → Covered l []
      → Covered (record l { pending = drop n l.pending }) (take n l.pending)
  batch-Covered l n c x q = elim (c x q) [
    | inl m ↦ absurd (not-nil m)
    | inr (inl m) ↦ elim (Mem-slices x n l.pending m) [ inl t ↦ inl t | inr t ↦ inr (inl t) ]
    | inr (inr r) ↦ inr (inr r)
  ]

  -- A loading that returns has recorded each artifact of a closed set that holds what was queued.
  pub load-Closed :
      (n : ℕ) (l : Loading) (d : List (String × List String))
      → load intact edge_id_of false n s l ≡ ok d
      → Covered l []
      → (q : List String) × Closed d q
        × ((x : String) → one_of x l.queued ≡ true → one_of x q ≡ true)
  unfolding load
  load-Closed zero l d h c = elim (List-cases l.pending) [
    | inl e ↦ (
      l.queued,
      subst (λ y. Closed y l.queued)
          (let t : ◌≡◌ {A = Outcome ClosureError (List (String × List String))} (ok l.parents)
                (ok d) =
              rw (load, e) at h in
            cc)
          (nothing_left l e c),
      λ x q. q,
    )
    | inr (p, rest, e) ↦ absurd (
        let t : ◌≡◌ {A = Outcome ClosureError (List (String × List String))} (raised out_of_fuel)
            (ok d) =
          rw (load, e) at h in
        cc)
  ]
  load-Closed (suc n) l d h c = elim (List-cases l.pending) [
    | inl e ↦ (
      l.queued,
      subst (λ y. Closed y l.queued)
          (let t : ◌≡◌ {A = Outcome ClosureError (List (String × List String))} (ok l.parents)
                (ok d) =
              rw (load, e) at h in
            cc)
          (nothing_left l e c),
      λ x q. q,
    )
    | inr (p, rest, e) ↦
        let l' : Loading = record l { pending = drop batch_size (p ∷ rest) } in
        let (m, v, t) =
          bind_ok (visit_all intact edge_id_of false s l' (take batch_size (p ∷ rest)))
            (load intact edge_id_of false n s) d (rw (load, e) at h) in
        let c' : Covered l' (take batch_size (p ∷ rest)) =
          subst (λ y. Covered (record l { pending = drop batch_size y }) (take batch_size y)) e
            (batch-Covered l batch_size c) in
        let (q, closed, more) =
          load-Closed n m d t (visit_all-Covered l' m (take batch_size (p ∷ rest)) v c') in
        (q, closed, λ x h. more x (visit_all-queued l' m (take batch_size (p ∷ rest)) x v h))
  ]
