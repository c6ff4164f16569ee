-- ===== src/Snapshot/Closure/Edges.antt =====
-- The comparison of the edges of an artifact.
use mathlib.Core.List.{Memᴰ}
use mathlib.Core.List.Memᴰ.{head, tail, cases_cons, not-nil}
use stock_content.Prelude.{
  ◌≡◌, ◌↔◌, refl, sym, ap, ◌∙◌, subst, String, Bool, true, false, List, [], ◌∷◌, arith, ◌==◌,
  eq_iff, ok, Bool-cases, inl, inr,
}
use stock_content.Snapshot.Closure.{
  ContentArtifactRow, ContentArtifactEdgeRow, edges_of, same_edge, has_edge, edges_within,
  check_edges,
}

same_edge_iff : (a b : ContentArtifactEdgeRow) → (same_edge a b ≡ true) ↔ (a ≡ b)
same_edge_iff a b = (
  λ h. ground (
    arith,
    eq_iff a.edge_id b.edge_id,
    eq_iff a.artifact_id b.artifact_id,
    eq_iff a.parent_artifact_id b.parent_artifact_id,
    eq_iff a.relation b.relation,
  ),
  λ e. rw e (
      ground (
        arith,
        eq_iff b.edge_id b.edge_id,
        eq_iff b.artifact_id b.artifact_id,
        eq_iff b.parent_artifact_id b.parent_artifact_id,
        eq_iff b.relation b.relation,
      )),
)

Mem-edges_of :
    (edges : List ContentArtifactEdgeRow) (id : String) (e : ContentArtifactEdgeRow)
    → Memᴰ e (edges_of edges id) ↔ (Memᴰ e edges × (e.artifact_id ≡ id))
unfolding edges_of
Mem-edges_of [] id e = (λ m. absurd (not-nil m), λ m. m.0)
Mem-edges_of (f ∷ edges) id e = elim (Bool-cases (f.artifact_id == id)) [
  | inl h ↦ rw h (
    λ m. elim (cases_cons m) [
      | inl q ↦ (
        head q,
        ap (λ (x : ContentArtifactEdgeRow). x.artifact_id) q ∙ (eq_iff f.artifact_id id).0 h,
      )
      | inr t ↦ let (a, b) = (Mem-edges_of edges id e).0 t in (tail a, b)
    ],
    λ (m, b). elim (cases_cons m) [
      | inl q ↦ head q
      | inr t ↦ tail ((Mem-edges_of edges id e).1 (t, b))
    ],
  )
  | inr h ↦ rw h (
    λ m. let (a, b) = (Mem-edges_of edges id e).0 m in (tail a, b),
    λ (m, b). elim (cases_cons m) [
      | inl q ↦ absurd (
          let r : f.artifact_id == id ≡ true =
            (eq_iff f.artifact_id id).1
              (sym (ap (λ (x : ContentArtifactEdgeRow). x.artifact_id) q) ∙ b) in
          ground arith)
      | inr t ↦ (Mem-edges_of edges id e).1 (t, b)
    ],
  )
]

has_edge_iff :
    (e : ContentArtifactEdgeRow) (l : List ContentArtifactEdgeRow)
    → (has_edge e l ≡ true) ↔ Memᴰ e l
unfolding has_edge
has_edge_iff e [] = (λ h. cc, λ m. absurd (not-nil m))
has_edge_iff e (f ∷ l) = elim (Bool-cases (same_edge e f)) [
  | inl h ↦ rw h (λ _. head ((same_edge_iff e f).0 h), λ _. refl)
  | inr h ↦ rw h (
    λ q. tail ((has_edge_iff e l).0 q),
    λ m. elim (cases_cons m) [
      | inl q ↦ absurd (let r = (same_edge_iff e f).1 q in ground arith)
      | inr t ↦ (has_edge_iff e l).1 t
    ],
  )
]

edges_within_iff :
    (l edges : List ContentArtifactEdgeRow)
    → (edges_within l edges ≡ true) ↔ ((e : ContentArtifactEdgeRow) → Memᴰ e l → Memᴰ e edges)
unfolding edges_within
edges_within_iff [] edges = (λ _ e m. absurd (not-nil m), λ _. refl)
edges_within_iff (f ∷ l) edges = (
  λ h e m. elim (cases_cons m) [
    | inl q ↦ subst (λ x. Memᴰ x edges) (sym q) ((has_edge_iff f edges).0 (ground arith))
    | inr t ↦ (edges_within_iff l edges).0 (ground arith) e t
  ],
  λ h.
      let a = (has_edge_iff f edges).1 (h f (head refl)) in
      let b = (edges_within_iff l edges).1 (λ e m. h e (tail m)) in ground arith,
)

module _ {P : Type 0} (intact : ContentArtifactRow P → Bool)
    (edge_id_of : String → String → String) where
  -- Without the exception for old snapshots the check accepts exactly the expected edges.
  pub check_edges_iff :
      (edges expected : List ContentArtifactEdgeRow)
      → (check_edges intact edge_id_of false edges expected ≡ ok tt)
        ↔ ((e : ContentArtifactEdgeRow) → Memᴰ e edges ↔ Memᴰ e expected)
  unfolding check_edges
  check_edges_iff [] [] = (λ _ e. (λ m. m, λ m. m), λ _. refl)
  check_edges_iff [] (f ∷ expected) = (λ h. cc, λ h. absurd (not-nil ((h f).1 (head refl))))
  check_edges_iff (f ∷ edges) expected = (
    λ h e.
        let a : edges_within (f ∷ edges) expected ≡ true = ground arith in
        let b : edges_within expected (f ∷ edges) ≡ true = ground arith in
        (
          (edges_within_iff (f ∷ edges) expected).0 a e,
          (edges_within_iff expected (f ∷ edges)).0 b e,
        ),
    λ h.
        let a = (edges_within_iff (f ∷ edges) expected).1 (λ e. (h e).0) in
        let b = (edges_within_iff expected (f ∷ edges)).1 (λ e. (h e).1) in rw (a, b) refl,
  )

  pub check_edges_of_iff :
      (edges expected : List ContentArtifactEdgeRow) (id : String)
      → (check_edges intact edge_id_of false (edges_of edges id) expected ≡ ok tt)
        ↔ ((e : ContentArtifactEdgeRow) → (Memᴰ e edges × (e.artifact_id ≡ id)) ↔ Memᴰ e expected)
  check_edges_of_iff edges expected id = (
    λ h e.
        let q = (check_edges_iff (edges_of edges id) expected).0 h e in
        (λ m. q.0 ((Mem-edges_of edges id e).1 m), λ m. (Mem-edges_of edges id e).0 (q.1 m)),
    λ h. (check_edges_iff (edges_of edges id) expected).1 λ e. (
      λ m. (h e).0 ((Mem-edges_of edges id e).0 m),
      λ m. (Mem-edges_of edges id e).1 ((h e).1 m),
    ),
  )
