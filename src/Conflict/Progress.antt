-- ===== src/Conflict/Progress.antt =====
-- The status of a conflict over the calls of the service.
use stock_content.Prelude.{
  ℕ, ◌≤◌, ◌≡◌, refl, ap, sym, ◌∙◌, subst, String, Bool, true, ◌&&◌, not, Option, none, some, List,
  [], ◌∷◌, arith, one_of, Outcome, ok, raised, require, bind_ok, require_ok, Bool-cases,
  Option-cases, inl, inr, ◌==◌, eq_iff,
}
use stock_content.Prelude.Text.{dict_get, dict_set, dict_get-dict_set}
use stock_content.Conflict.{
  FinancialClaim, ConflictStatus, unresolved, auto_resolved, manual_resolved, superseded,
  KnowledgeConflict, ConflictError, manual_review, auto_resolve,
}
use stock_content.Conflict.Service.{
  ServiceError, key_error, value_error, Conflicts, is_open, is_settled, place, register_groups,
  ConflictService, register_claims, manual_resolve, supersede,
}

abbrev rank : ConflictStatus → ℕ
rank unresolved = 0
rank auto_resolved = 1
rank manual_resolved = 2
rank superseded = 3

-- the conflict is there, with a status that is at least the given one
abbrev pub AtLeast : ℕ → Option KnowledgeConflict → Type 0
AtLeast n none = ⊥
AtLeast n (some k) = n ≤ rank k.resolution_status

-- a conflict that stands in its place does not fall behind
AtLeast-set :
    (d : Conflicts) (j id : String) (k old : KnowledgeConflict) (n : ℕ)
    → dict_get d j ≡ some old
    → rank old.resolution_status ≤ rank k.resolution_status
    → AtLeast n (dict_get d id)
    → AtLeast n (dict_get (dict_set d j k) id)
AtLeast-set d j id k old n e le h = elim (Bool-cases (j == id)) [
  | inl q ↦
      let there : dict_get d id ≡ some old = ap (dict_get d) (sym ((eq_iff j id).0 q)) ∙ e in
      let low : n ≤ rank old.resolution_status = rw there at h in
      rw (dict_get-dict_set d j id k, q) (omega arith)
  | inr q ↦ rw (dict_get-dict_set d j id k, q) h
]

AtLeast-new :
    (d : Conflicts) (j id : String) (k : KnowledgeConflict) (n : ℕ)
    → dict_get d j ≡ none
    → AtLeast n (dict_get d id)
    → AtLeast n (dict_get (dict_set d j k) id)
AtLeast-new d j id k n e h = elim (Bool-cases (j == id)) [
  | inl q ↦ absurd (
      let there : dict_get d id ≡ none = ap (dict_get d) (sym ((eq_iff j id).0 q)) ∙ e in
      rw there at h)
  | inr q ↦ rw (dict_get-dict_set d j id k, q) h
]

place-AtLeast :
    (d : Conflicts) (k : KnowledgeConflict) (o : Option KnowledgeConflict) (id : String) (n : ℕ)
    → dict_get d k.conflict_id ≡ o
    → AtLeast n (dict_get d id)
    → AtLeast n (dict_get (place d k o).0 id)
place-AtLeast d k none id n e h = AtLeast-new d k.conflict_id id k n e h
place-AtLeast d k (some old) id n e h =
    elim (Bool-cases (is_open old.resolution_status && not (is_open k.resolution_status))) [
      | inr q ↦ rw q h
      | inl q ↦
          let low : rank old.resolution_status ≤ rank k.resolution_status = ground arith in
          rw q (AtLeast-set d k.conflict_id id k old n e low h)
    ]

module _ {C : Type 0} (less : C → C → Bool) (leads : C → C → Bool)
    (sorted : List String → List String) (conflict_id_of : String → List String → String) where
  register_groups-AtLeast :
      (d : Conflicts) (verified : List String) (groups : List (List (FinancialClaim C)))
      (id : String) (n : ℕ)
      → AtLeast n (dict_get d id)
      → AtLeast n
          (dict_get (register_groups less leads sorted conflict_id_of d verified groups).0 id)
  unfolding register_groups
  register_groups-AtLeast d verified [] id n h = h
  register_groups-AtLeast d verified (group ∷ groups) id n h =
      go (auto_resolve less leads sorted conflict_id_of group verified) refl
        (λ e g. register_groups-AtLeast e verified groups id n g)
    where
      go :
          (o : Outcome ConflictError KnowledgeConflict)
          → auto_resolve less leads sorted conflict_id_of group verified ≡ o
          → ((e : Conflicts)
              → AtLeast n (dict_get e id)
              → AtLeast n (
                  dict_get
                    (register_groups less leads sorted conflict_id_of e verified groups).0
                    id))
          → AtLeast n (
              dict_get
                (register_groups less leads sorted conflict_id_of d verified (group ∷ groups)).0
                id)
      go (raised x) e next = rw (register_groups, e) h
      go (ok k) e next =
          rw (register_groups, e)
            (next (place d k (dict_get d k.conflict_id)).0
              (place-AtLeast d k (dict_get d k.conflict_id) id n refl h))

  -- A call of the service.
  pub data Call : Type 0 where
    registers : List (FinancialClaim C) → List String → Call
    resolves_manually : String → String → Call
    supersedes : String → Call

  -- a call that raises leaves the conflicts as they are
  abbrev pub settle : Conflicts → Outcome ServiceError Conflicts → Conflicts
  settle d (ok e) = e
  settle d (raised _) = d

  unfoldable pub perform :
      ConflictService less leads sorted conflict_id_of
      → Call
      → ConflictService less leads sorted conflict_id_of
  perform s (registers claims verified) =
      (register_claims less leads sorted conflict_id_of s claims verified).0
  perform s (resolves_manually id preferred) = record s {
    conflicts = settle s.conflicts (manual_resolve s.conflicts id preferred);
  }
  perform s (supersedes id) = record s { conflicts = settle s.conflicts (supersede s.conflicts id) }

  unfoldable pub run :
      ConflictService less leads sorted conflict_id_of
      → List Call
      → ConflictService less leads sorted conflict_id_of
  unfolding perform
  run s [] = s
  run s (c ∷ cs) = run (perform s c) cs

  settle-AtLeast :
      (d : Conflicts) (o : Outcome ServiceError Conflicts) (id : String) (n : ℕ)
      → ((e : Conflicts) → o ≡ ok e → AtLeast n (dict_get e id))
      → AtLeast n (dict_get d id)
      → AtLeast n (dict_get (settle d o) id)
  settle-AtLeast d (ok e) id n f h = f e refl
  settle-AtLeast d (raised x) id n f h = h

  manual_resolve-AtLeast :
      (d e : Conflicts) (j preferred id : String) (n : ℕ)
      → manual_resolve d j preferred ≡ ok e
      → AtLeast n (dict_get d id)
      → AtLeast n (dict_get e id)
  unfolding manual_resolve
  manual_resolve-AtLeast d e j preferred id n g h = elim (Option-cases (dict_get d j)) [
    | inl q ↦ absurd (
        let x : ◌≡◌ {A = Outcome ServiceError Conflicts} (raised key_error) (ok e) = rw q at g in
        ground arith)
    | inr (k, q) ↦
        let (_, t, g1) =
          bind_ok (require (not (is_settled k.resolution_status)) value_error) _ e (rw q at g) in
        let (_, _, g2) = bind_ok (require (one_of preferred k.claim_ids) value_error) _ e g1 in
        let new = record k {
          resolution_status = manual_resolved;
          preferred_claim_id = some preferred;
          resolution_policy = manual_review;
        } in
        let s : not (is_settled k.resolution_status) ≡ true = require_ok _ _ t in
        let low : rank k.resolution_status ≤ 2 = ground arith in
        subst (λ x. AtLeast n (dict_get x id)) (let w : dict_set d j new ≡ e = cc in w)
          (AtLeast-set d j id new k n q low h)
  ]

  supersede-AtLeast :
      (d e : Conflicts) (j id : String) (n : ℕ)
      → supersede d j ≡ ok e
      → AtLeast n (dict_get d id)
      → AtLeast n (dict_get e id)
  unfolding supersede
  supersede-AtLeast d e j id n g h = elim (Option-cases (dict_get d j)) [
    | inl q ↦ absurd (
        let x : ◌≡◌ {A = Outcome ServiceError Conflicts} (raised key_error) (ok e) = rw q at g in
        ground arith)
    | inr (k, q) ↦
        let new = record k { resolution_status = superseded } in
        let x : ok (dict_set d j new) ≡ ok e = rw q at g in
        let low : rank k.resolution_status ≤ 3 = ground arith in
        subst (λ x. AtLeast n (dict_get x id)) (let w : dict_set d j new ≡ e = cc in w)
          (AtLeast-set d j id new k n q low h)
  ]

  -- Whatever calls are made, a conflict is never removed and its status never falls back in the order
  -- unresolved, resolved automatically, resolved manually, superseded.
  pub never_falls_back :
      (s : ConflictService less leads sorted conflict_id_of) (cs : List Call) (id : String) (n : ℕ)
      → AtLeast n (dict_get s.conflicts id)
      → AtLeast n (dict_get (run s cs).conflicts id)
  unfolding run perform register_claims
  never_falls_back s [] id n h = h
  never_falls_back s (registers claims verified ∷ cs) id n h =
      never_falls_back (perform s (registers claims verified)) cs id n
        (register_groups-AtLeast s.conflicts verified _ id n h)
  never_falls_back s (resolves_manually j preferred ∷ cs) id n h =
      never_falls_back (perform s (resolves_manually j preferred)) cs id n (
        settle-AtLeast s.conflicts (manual_resolve s.conflicts j preferred) id n
          (λ e g. manual_resolve-AtLeast s.conflicts e j preferred id n g h) h)
  never_falls_back s (supersedes j ∷ cs) id n h =
      never_falls_back (perform s (supersedes j)) cs id n (
        settle-AtLeast s.conflicts (supersede s.conflicts j) id n
          (λ e g. supersede-AtLeast s.conflicts e j id n g h) h)
