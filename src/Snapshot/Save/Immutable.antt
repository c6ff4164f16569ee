-- ===== src/Snapshot/Save/Immutable.antt =====
-- What a save does to the stored snapshots.
use stock_content.Prelude.{
  ◌≡◌, refl, sym, ◌∙◌, subst, String, Bool, true, false, ◌||◌, some, List, if◌then◌else◌, ◌==◌,
  eq_iff, is_some, Outcome, ok, require, then_ok, require_ok, Bool-cases, Option-cases, inl, inr,
  ◌⊎◌,
}
use stock_content.Prelude.Table.{Table}
use stock_content.Prelude.Text.{dict_get, dict_get-dict_set}
use stock_content.Snapshot.Json.{Json, Fields, no_fields, field, field_get}
use stock_content.Snapshot.Closure.{ContentArtifactRow}
use stock_content.Snapshot.Heads.{ContentSourceHeadRow}
use stock_content.Snapshot.Provenance.{v1_schema_version, different_payload}
use stock_content.Snapshot.Identity.{has_schema, matches, compare_fields, compare_existing_identity}
use stock_content.Snapshot.Save.{
  ContentSnapshot, ContentSnapshotRow, SnapshotError, insert_ignore, row_of, save_in_session,
}
use stock_content.Snapshot.Save.Again.{
  S, saving, saving_row, save_row-parts, check_existing_ok, some-inj,
}

module _ (str_of : Json → String) (canonical_json : Json → String)
    (root_hash_of : List (String × String) → String) where
  compare_fields-get :
      (d c : Fields) (k : String) (v : Json)
      → compare_fields str_of canonical_json root_hash_of false d c ≡ ok tt
      → field_get d k ≡ some v
      → k == "created_at" ≡ false
      → (w : Json) × (field_get c k ≡ some w) × (canonical_json v ≡ canonical_json w)
  unfolding compare_fields
  compare_fields-get no_fields c k v h e n = cc
  compare_fields-get (field j u d) c k v h e n =
      let (this, rest) =
        then_ok
          (require
            (j == "created_at"
              || matches str_of canonical_json root_hash_of false j u (field_get c j))
            different_payload)
          _ tt h in
      elim (Bool-cases (j == k)) [
        | inr other ↦ compare_fields-get d c k v rest (rw other at e) n
        | inl same ↦
            let u_v : u ≡ v = some-inj (rw same at e) in
            let test : (k == "created_at"
                  || matches str_of canonical_json root_hash_of false k u (field_get c k))
                ≡ true =
              rw ((eq_iff j k).0 same) at (require_ok _ _ this) in
            elim (Option-cases (field_get c k)) [
              | inl missing ↦
                  absurd (let q : ◌≡◌ {A = Bool} false true = rw (n, missing) at test in cc)
              | inr (w, there) ↦
                  let q : canonical_json u == canonical_json w ≡ true = rw (n, there) at test in
                  (
                    w,
                    there,
                    subst (λ y. canonical_json y ≡ canonical_json w) u_v
                        ((eq_iff (canonical_json u) (canonical_json w)).0 q),
                  )
            ]
      ]

module _ {P : Type 0} (intact : ContentArtifactRow P → Bool) (edge_id_of : String → String → String)
    (str_of : Json → String) (canonical_json : Json → String)
    (root_hash_of : List (String × String) → String)
    (member_id_of : String → String → String → String) (source_hash_of : String → String → String)
    (upper : String → String) (lt : String → String → Bool) (db : Table ContentSourceHeadRow) where
  abbrev Sess : Type 0
  Sess =
      S intact edge_id_of str_of canonical_json root_hash_of member_id_of source_hash_of upper lt db

  abbrev save : Sess → ContentSnapshot → Outcome SnapshotError Sess
  save =
      saving intact edge_id_of str_of canonical_json root_hash_of member_id_of source_hash_of upper
        lt db

  kept :
      (d : List (String × ContentSnapshotRow)) (k j : String) (v r : ContentSnapshotRow)
      → dict_get d j ≡ some r
      → dict_get (insert_ignore d k v).0 j ≡ some r
  kept d k j v r h = elim (Bool-cases (is_some (dict_get d k))) [
    | inl e ↦ rw e h
    | inr e ↦
        rw (e, dict_get-dict_set d k j v)
          (elim (Bool-cases (k == j)) [
            | inl q ↦
                let t : is_some (dict_get d j) ≡ false = rw ((eq_iff k j).0 q) at e in
                absurd (let u : ◌≡◌ {A = Bool} true false = rw h at t in cc)
            | inr q ↦ rw q h
          ])
  ]

  when_false :
      (b : Bool) (m : Outcome SnapshotError (Unit {0}))
      → b ≡ false
      → (if b then ok tt else m) ≡ ok tt
      → m ≡ ok tt
  when_false b m e h = rw e at h

  save-keeps :
      (s s' : Sess) (x : ContentSnapshot) (j : String) (r : ContentSnapshotRow)
      → save s x ≡ ok s'
      → dict_get s.snapshots j ≡ some r
      → dict_get s'.snapshots j ≡ some r
  unfolding save_in_session
  save-keeps s s' x j r h there =
      let ins = insert_ignore s.snapshots x.content_snapshot_id (row_of x) in
      let (_, t) =
        then_ok _
          (saving_row intact edge_id_of str_of canonical_json root_hash_of member_id_of
            source_hash_of upper lt db s x ins.0 ins.1)
          s' h in
      let (row, e, c, v, same) =
        save_row-parts intact edge_id_of str_of canonical_json root_hash_of member_id_of
          source_hash_of upper lt db s s' x ins.0 ins.1 t in
      subst (λ (y : Sess). dict_get y.snapshots j ≡ some r) same
        (kept s.snapshots x.content_snapshot_id j (row_of x) r there)

  -- the identity has each field of the stored one, the time of creation excepted
  abbrev pub SameIdentity : ContentSnapshotRow → ContentSnapshot → Type 0
  SameIdentity o x =
      (k : String) (v : Json)
      → field_get o.identity k ≡ some v
      → k == "created_at" ≡ false
      → (w : Json) × (field_get x.identity k ≡ some w) × (canonical_json v ≡ canonical_json w)

  save-SameIdentity :
      (s s' : Sess) (x : ContentSnapshot) (r : ContentSnapshotRow)
      → save s x ≡ ok s'
      → dict_get s.snapshots x.content_snapshot_id ≡ some r
      → has_schema (field_get r.identity "schema_version") v1_schema_version ≡ false
      → SameIdentity r x
  unfolding save_in_session compare_existing_identity
  save-SameIdentity s s' x r h there new =
      let ins = insert_ignore s.snapshots x.content_snapshot_id (row_of x) in
      let (_, t) =
        then_ok _
          (saving_row intact edge_id_of str_of canonical_json root_hash_of member_id_of
            source_hash_of upper lt db s x ins.0 ins.1)
          s' h in
      let (row, e, c, v, same) =
        save_row-parts intact edge_id_of str_of canonical_json root_hash_of member_id_of
          source_hash_of upper lt db s s' x ins.0 ins.1 t in
      let row_r : row ≡ r =
        some-inj (
          sym e
          ∙ kept s.snapshots x.content_snapshot_id x.content_snapshot_id (row_of x) r there) in
      let taken : ins.1 ≡ false = rw there refl in
      let (compared, _) =
        check_existing_ok intact edge_id_of str_of canonical_json root_hash_of member_id_of
          source_hash_of upper lt db (record s { snapshots = ins.0 }) x row
          (when_false ins.1 _ taken c) in
      λ k v g n.
        compare_fields-get str_of canonical_json root_hash_of r.identity x.identity k v
          (let q = rw row_r at compared in rw new at q) g n

  -- A save that returns changes no stored snapshot, whether it inserts one or not. A stored snapshot has
  -- another identifier than the one that is saved, or is of the first version, or the identity that is saved
  -- has each field of the stored identity with the same value up to canonical_json, the time of creation
  -- excepted.
  pub save-Immutable :
      (s s' : Sess) (x : ContentSnapshot) (j : String) (o : ContentSnapshotRow)
      → save s x ≡ ok s'
      → dict_get s.snapshots j ≡ some o
      → (dict_get s'.snapshots j ≡ some o)
        × ((j == x.content_snapshot_id ≡ false)
            ⊎ ((has_schema (field_get o.identity "schema_version") v1_schema_version ≡ true)
                ⊎ SameIdentity o x))
  save-Immutable s s' x j o h there = (
    save-keeps s s' x j o h there,
    elim (Bool-cases (j == x.content_snapshot_id)) [
      | inr other ↦ inl other
      | inl same ↦
          inr
            (elim (Bool-cases
              (has_schema (field_get o.identity "schema_version") v1_schema_version)) [
                | inl first ↦ inl first
                | inr new ↦
                    let at : dict_get s.snapshots x.content_snapshot_id ≡ some o =
                      subst (λ k. dict_get s.snapshots k ≡ some o)
                        ((eq_iff j x.content_snapshot_id).0 same) there in
                    inr (save-SameIdentity s s' x o h at new)
              ])
    ],
  )
