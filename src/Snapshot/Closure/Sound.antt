-- ===== src/Snapshot/Closure/Sound.antt =====
-- Sound artifacts, and what the validation accepts.
use mathlib.Core.List.{Memᴰ}
use mathlib.Core.List.Memᴰ.{head, tail, cases_cons, not-nil, append_right}
use stock_content.Prelude.{
  ℕ, zero, suc, ◌+◌, ◌≤◌, ◌≡◌, ◌≢◌, ◌↔◌, refl, subst, String, Bool, true, false, List, [], ◌∷◌,
  ◌++◌, map, arith, one_of, ◌==◌, eq_iff, Outcome, ok, raised, ◌>>=◌, bind_ok, Bool-cases,
  Outcome-cases, raised-inj, inl, inr, ◌⊎◌,
}
use stock_content.Prelude.Text.{dict_set}
use stock_content.Prelude.Members.{
  one_of-Mem, Mem-one_of, length, take, drop, Mem-take, Mem-drop, unlisted-le-length,
}
use stock_content.Snapshot.Closure.{
  ContentArtifactRow, Tables, ClosureError, out_of_fuel, Loading, batch_size, from_keys, offer_all,
  all_parents, expected_edge, visit, visit_all, load, start, validate_snapshot_artifacts,
}
use stock_content.Snapshot.Closure.Edges.{check_edges_of_iff}
use stock_content.Snapshot.Closure.Load.{IsValidRow, Closed, Covered, load-Closed, List-cases}
use stock_content.Snapshot.Closure.Walk.{
  Grounded, absent, listed, searched, searched_total, searched-Grounded, searched_returns,
}
use stock_content.Snapshot.Closure.Fuel.{offer_all-pending_cases, load_total}

from_keys-Mem :
    (seen l : List String) (x : String)
    → Memᴰ x l
    → (one_of x seen ≡ true) ⊎ Memᴰ x (from_keys seen l)
unfolding from_keys
from_keys-Mem seen [] x m = absurd (not-nil m)
from_keys-Mem seen (y ∷ l) x m = elim (Bool-cases (x == y)) [
  | inl e ↦ elim (Bool-cases (one_of y seen)) [
    | inl h ↦ inl (rw ((eq_iff x y).0 e) h)
    | inr h ↦ inr (rw h (head ((eq_iff x y).0 e)))
  ]
  | inr e ↦
      let t : Memᴰ x l = elim (cases_cons m) [
        | inl q ↦ absurd (let r = (eq_iff x y).1 q in ground arith)
        | inr t ↦ t
      ] in
      elim (from_keys-Mem (y ∷ seen) l x t) [
        | inl q ↦ inl (rw e at q)
        | inr n ↦ elim (Bool-cases (one_of y seen)) [
          | inl h ↦ inr (rw h n)
          | inr h ↦ inr (rw h (tail n))
        ]
      ]
]

Mem-from_keys : (seen l : List String) (x : String) → Memᴰ x (from_keys seen l) → Memᴰ x l
unfolding from_keys
Mem-from_keys seen [] x m = m
Mem-from_keys seen (y ∷ l) x m = elim (Bool-cases (one_of y seen)) [
  | inl h ↦ tail (Mem-from_keys (y ∷ seen) l x (rw h at m))
  | inr h ↦ elim (cases_cons (let n : Memᴰ x (y ∷ from_keys (y ∷ seen) l) = rw h at m in n)) [
    | inl e ↦ head e
    | inr t ↦ tail (Mem-from_keys (y ∷ seen) l x t)
  ]
]

length-from_keys : (seen l : List String) → length (from_keys seen l) ≤ length l
unfolding from_keys
length-from_keys seen [] = omega arith
length-from_keys seen (y ∷ l) = ground (arith, length-from_keys (y ∷ seen) l)

module _ {P : Type 0} (intact : ContentArtifactRow P → Bool) (edge_id_of : String → String → String)
    (s : Tables P) where
  -- A sound artifact is valid, and so are its parents, their parents and so on; each chain of parents
  -- ends, since a derivation is finite.
  pub data IsSound : String → Type 0 where
    sound :
        (id : String) (row : ContentArtifactRow P)
        → IsValidRow intact edge_id_of s id row
        → ((p : String) → Memᴰ p row.parent_artifact_ids → IsSound p)
        → IsSound id

  abbrev AllSound : List String → Type 0
  AllSound l = (x : String) → Memᴰ x l → IsSound x

  visit_returns :
      (l : Loading) (id : String)
      → IsSound id
      → AllSound l.pending
      → (m : Loading) × (visit intact edge_id_of false s l id ≡ ok m) × AllSound m.pending
  unfolding visit
  visit_returns l id (sound _ row (e, i, edges) parents) a =
      let l' : Loading = record l { parents = dict_set l.parents id row.parent_artifact_ids } in
      let fine =
        (check_edges_of_iff intact edge_id_of s.edges
            (map (expected_edge intact edge_id_of false id) row.parent_artifact_ids) id).1
          edges in
      (
        offer_all l' row.parent_artifact_ids,
        rw (visit, e, i, fine) refl,
        λ x m. elim (offer_all-pending_cases l' row.parent_artifact_ids x m) [
          | inl n ↦ a x n
          | inr n ↦ parents x n
        ],
      )

  visit_all_returns :
      (l : Loading) (batch : List String)
      → AllSound batch
      → AllSound l.pending
      → (m : Loading) × (visit_all intact edge_id_of false s l batch ≡ ok m) × AllSound m.pending
  unfolding visit_all
  visit_all_returns l [] b a = (l, refl, a)
  visit_all_returns l (id ∷ batch) b a =
      let (m, e, a') = visit_returns l id (b id (head refl)) a in
      let (k, f, a'') = visit_all_returns m batch (λ x n. b x (tail n)) a' in (k, rw e f, a'')

  load_returns :
      (n : ℕ) (l : Loading)
      → AllSound l.pending
      → load intact edge_id_of false n s l ≢ raised out_of_fuel
      → (d : List (String × List String)) × (load intact edge_id_of false n s l ≡ ok d)
  unfolding load
  load_returns zero l a h = elim (List-cases l.pending) [
    | inl e ↦ (l.parents, rw e refl)
    | inr (p, rest, e) ↦ absurd (h (rw (load, e) refl))
  ]
  load_returns (suc n) l a h = elim (List-cases l.pending) [
    | inl e ↦ (l.parents, rw e refl)
    | inr (p, rest, e) ↦
        let l' : Loading = record l { pending = drop batch_size (p ∷ rest) } in
        let all : AllSound (p ∷ rest) = subst AllSound e a in
        let (m, f, a') =
          visit_all_returns l' (take batch_size (p ∷ rest))
            (λ x q. all x (Mem-take x batch_size (p ∷ rest) q))
            (λ x q. all x (Mem-drop x batch_size (p ∷ rest) q)) in
        let (d, g) = load_returns n m a' (λ q. h (rw (load, e, f) q)) in (d, rw (e, f) g)
  ]

  Closed-Sound :
      (d : List (String × List String)) (q : List String)
      → Closed intact edge_id_of s d q
      → (id : String) → Grounded d id
      → one_of id q ≡ true
      → IsSound id
  Closed-Sound d q c id (absent _ e) h = let (row, v, f, _) = c id h in ground arith
  Closed-Sound d q c id (listed _ ps e g) h =
      let (row, v, f, more) = c id h in
      let same : row.parent_artifact_ids ≡ ps = cc in
      sound id row v (λ p m. Closed-Sound d q c p (g p (subst (λ y. Memᴰ p y) same m)) (more p m))

  Sound-Grounded :
      (d : List (String × List String)) (q : List String)
      → Closed intact edge_id_of s d q
      → (id : String) → IsSound id
      → one_of id q ≡ true
      → Grounded d id
  Sound-Grounded d q c id (sound _ row (e, _, _) parents) h =
      let (r, v, f, more) = c id h in
      let same : r ≡ row = cc in
      listed id r.parent_artifact_ids f (λ p m.
        Sound-Grounded d q c p
          (parents p
            (subst (λ (y : ContentArtifactRow P). Memᴰ p y.parent_artifact_ids) {y = row} same m))
          (more p m))

  module _ (roots : List String) where
    abbrev universe : List String
    universe = roots ++ all_parents s.artifacts

    abbrev fuel : ℕ
    fuel = length universe + length roots

    abbrev after : List (String × List String) → Outcome ClosureError (Unit {0})
    after d = searched d roots >>= λ _. ok tt

    enough :
        (legacy : Bool)
        → load intact edge_id_of legacy fuel s (start intact edge_id_of legacy roots)
          ≢ raised out_of_fuel
    enough legacy =
        load_total intact edge_id_of legacy s universe (λ p m. append_right roots m) fuel
          (start intact edge_id_of legacy roots)
          (omega
            (arith, unlisted-le-length (from_keys [] roots) universe, length-from_keys [] roots))

    start-Covered : Covered intact edge_id_of s (start intact edge_id_of false roots) []
    start-Covered x q = inr (inl (Mem-one_of x (from_keys [] roots) q))

    root_queued : (x : String) → Memᴰ x roots → one_of x (from_keys [] roots) ≡ true
    root_queued x m = elim (from_keys-Mem [] roots x m) [
      | inl q ↦ cc
      | inr n ↦ one_of-Mem x (from_keys [] roots) n
    ]

    -- The validation ends, with the exception for old snapshots and without: the fuel is never used up.
    pub validate_snapshot_artifacts_total :
        (legacy : Bool)
        → validate_snapshot_artifacts intact edge_id_of legacy s roots ≢ raised out_of_fuel
    unfolding validate_snapshot_artifacts
    validate_snapshot_artifacts_total legacy h =
        elim (Outcome-cases
          (load intact edge_id_of legacy fuel s (start intact edge_id_of legacy roots))) [
            | inr (x, e) ↦
                enough legacy (let same : x ≡ out_of_fuel = raised-inj (rw e at h) in rw same at e)
            | inl (d, e) ↦
                let q : after d ≡ raised out_of_fuel = rw e at h in
                elim (Outcome-cases (searched d roots)) [
                  | inl (w, f) ↦
                      let t : ◌≡◌ {A = Outcome ClosureError (Unit {0})} (ok tt)
                          (raised out_of_fuel) =
                        rw f at q in
                      cc
                  | inr (x, f) ↦
                      searched_total d roots
                        (let same : x ≡ out_of_fuel = raised-inj (rw f at q) in rw same at f)
                ]
          ]

    -- Without the exception for old snapshots the validation accepts exactly the snapshots whose artifacts
    -- are all sound.
    pub validate_snapshot_artifacts_iff :
        (validate_snapshot_artifacts intact edge_id_of false s roots ≡ ok tt)
        ↔ ((x : String) → Memᴰ x roots → IsSound x)
    unfolding validate_snapshot_artifacts
    validate_snapshot_artifacts_iff = (
      λ h x m.
          let (d, e, t) =
            bind_ok (load intact edge_id_of false fuel s (start intact edge_id_of false roots))
              after tt h in
          let (w, f, _) = bind_ok (searched d roots) (λ _. ok tt) tt t in
          let (q, closed, more) =
            load-Closed intact edge_id_of s fuel (start intact edge_id_of false roots) d e
              start-Covered in
          Closed-Sound d q closed x (searched-Grounded d roots w f x m) (more x (root_queued x m)),
      λ h.
          let (d, e) =
            load_returns fuel (start intact edge_id_of false roots)
              (λ x m. h x (Mem-from_keys [] roots x m)) (enough false) in
          let (q, closed, more) =
            load-Closed intact edge_id_of s fuel (start intact edge_id_of false roots) d e
              start-Covered in
          let (w, f) =
            searched_returns d roots
              (λ x m. Sound-Grounded d q closed x (h x m) (more x (root_queued x m))) in
          rw (e, f) refl,
    )
