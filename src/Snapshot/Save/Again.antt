-- ===== src/Snapshot/Save/Again.antt =====
-- Saving a snapshot again.
use stock_content.Prelude.{
  ◌≡◌, refl, sym, ◌∙◌, subst, String, Bool, false, some, List, if◌then◌else◌, eq_refl, is_some,
  Outcome, ok, raised, then_ok, ok-inj, Bool-cases, Option-cases, inl, inr,
}
use stock_content.Prelude.Table.{Table}
use stock_content.Prelude.Text.{dict_get, dict_set, dict_get-dict_set}
use stock_content.Snapshot.Json.{Json}
use stock_content.Snapshot.Closure.{ContentArtifactRow}
use stock_content.Snapshot.Heads.{ContentSourceHeadRow}
use stock_content.Snapshot.Identity.{
  validate_identity_against_values, compare_existing_identity, compare_candidate_to_existing_row,
}
use stock_content.Snapshot.Identity.Reflexive.{
  IsDict, compare_existing_identity_self, compare_candidate_self,
}
use stock_content.Snapshot.Save.{
  ContentSnapshot, ContentSnapshotRow, SnapshotArtifactRow, SnapshotError, lift, identity,
  disappeared, insert_ignore, Session, row_of, validate_snapshot_row, insert_members,
  check_existing, advance_head, save_row, save_in_session,
}
use stock_content.Snapshot.Save.Kept.{
  insert_ignore-again, insert_members-Present, insert_members_again, advance_head-is_some,
}

lift_ok {ℓ} :
    {E : Type ℓ} (f : E → SnapshotError) (m : Outcome E (Unit {0})) → lift f m ≡ ok tt → m ≡ ok tt
lift_ok f (ok tt) h = refl
lift_ok f (raised e) h = cc

pub some-inj {ℓ} : {A : Type ℓ} {a b : A} → some a ≡ some b → a ≡ b
some-inj h = cc

module _ {P : Type 0} (intact : ContentArtifactRow P → Bool) (edge_id_of : String → String → String)
    (str_of : Json → String) (canonical_json : Json → String)
    (root_hash_of : List (String × String) → String)
    (member_id_of : String → String → String → String) (source_hash_of : String → String → String)
    (upper : String → String) (lt : String → String → Bool) (db : Table ContentSourceHeadRow) where
  open db use {get, get-put}

  abbrev pub S : Type 0
  S =
      Session intact edge_id_of str_of canonical_json root_hash_of member_id_of source_hash_of upper
        lt db

  abbrev pub inserting :
      List (String × SnapshotArtifactRow)
      → String
      → List (String × String)
      → List (String × SnapshotArtifactRow)
  inserting =
      insert_members intact edge_id_of str_of canonical_json root_hash_of member_id_of
        source_hash_of upper lt db

  abbrev pub advancing : Bool → db.State → ContentSnapshot → db.State
  advancing =
      advance_head intact edge_id_of str_of canonical_json root_hash_of member_id_of source_hash_of
        upper lt db

  abbrev pub validating : S → String → ContentSnapshotRow → Outcome SnapshotError (Unit {0})
  validating =
      validate_snapshot_row intact edge_id_of str_of canonical_json root_hash_of member_id_of
        source_hash_of upper lt db

  abbrev pub checking : S → ContentSnapshot → ContentSnapshotRow → Outcome SnapshotError (Unit {0})
  checking =
      check_existing intact edge_id_of str_of canonical_json root_hash_of member_id_of
        source_hash_of upper lt db

  abbrev pub saving_row :
      S → ContentSnapshot → List (String × ContentSnapshotRow) → Bool → Outcome SnapshotError S
  saving_row =
      save_row intact edge_id_of str_of canonical_json root_hash_of member_id_of source_hash_of
        upper lt db

  abbrev pub saving : S → ContentSnapshot → Outcome SnapshotError S
  saving =
      save_in_session intact edge_id_of str_of canonical_json root_hash_of member_id_of
        source_hash_of upper lt db

  -- the tables after a save that inserts the given rows
  abbrev pub after : S → ContentSnapshot → List (String × ContentSnapshotRow) → Bool → S
  after s x snapshots inserted = record s {
    snapshots = snapshots;
    members = inserting s.members x.content_snapshot_id x.columns.artifact_ids;
    heads = advancing inserted s.heads x;
  }

  pub save_row-parts :
      (s s' : S) (x : ContentSnapshot) (snapshots : List (String × ContentSnapshotRow))
      (inserted : Bool)
      → saving_row s x snapshots inserted ≡ ok s'
      → (row : ContentSnapshotRow) × (dict_get snapshots x.content_snapshot_id ≡ some row)
        × ((if inserted then ok tt else checking (record s { snapshots = snapshots }) x row)
            ≡ ok tt)
        × (validating (after s x snapshots inserted) x.content_snapshot_id row ≡ ok tt)
        × (after s x snapshots inserted ≡ s')
  unfolding save_row validate_snapshot_row
  save_row-parts s s' x snapshots inserted h =
      elim (Option-cases (dict_get snapshots x.content_snapshot_id)) [
        | inl e ↦ absurd (
            let q : ◌≡◌ {A = Outcome SnapshotError S} (raised disappeared) (ok s') = rw e at h in
            cc)
        | inr (row, e) ↦
            let (c, t) =
              then_ok
                (if inserted then ok tt else checking (record s { snapshots = snapshots }) x row) _
                s' (rw e at h) in
            let (v, u) = then_ok _ _ s' t in (row, e, c, v, ok-inj u)
      ]

  abbrev pub Comparing : ContentSnapshot → ContentSnapshotRow → Type 0
  Comparing x row =
      (compare_existing_identity str_of canonical_json root_hash_of row.identity x.identity ≡ ok tt)
      × (compare_candidate_to_existing_row str_of canonical_json root_hash_of x.columns row.columns
            row.identity
          ≡ ok tt)

  pub check_existing_ok :
      (s : S) (x : ContentSnapshot) (row : ContentSnapshotRow)
      → checking s x row ≡ ok tt
      → Comparing x row
  unfolding check_existing
  check_existing_ok s x row h =
      let (_, t) = then_ok (validating s x.content_snapshot_id row) _ tt h in
      let (a, b) =
        then_ok
          (lift identity
            (compare_existing_identity str_of canonical_json root_hash_of row.identity x.identity))
          _ tt t in
      (lift_ok identity _ a, lift_ok identity _ b)

  valid_identity :
      (s : S) (id : String) (row : ContentSnapshotRow)
      → validating s id row ≡ ok tt
      → validate_identity_against_values str_of canonical_json root_hash_of row.identity row.columns
          id
        ≡ ok tt
  unfolding validate_snapshot_row
  valid_identity s id row h =
      lift_ok identity _
        (then_ok
          (lift identity (
            validate_identity_against_values str_of canonical_json root_hash_of row.identity
              row.columns id))
          _ tt h).0

  -- what is stored after a save compares with what was saved
  stored_compares :
      (s : S) (x : ContentSnapshot) (row : ContentSnapshotRow)
      → let ins = insert_ignore s.snapshots x.content_snapshot_id (row_of x) in
        IsDict x.identity
        → dict_get ins.0 x.content_snapshot_id ≡ some row
        → (if ins.1 then ok tt else checking (record s { snapshots = ins.0 }) x row) ≡ ok tt
        → validate_identity_against_values str_of canonical_json root_hash_of row.identity
            row.columns x.content_snapshot_id
          ≡ ok tt
        → Comparing x row
  stored_compares s x row own e c v =
      elim (Bool-cases (is_some (dict_get s.snapshots x.content_snapshot_id))) [
        | inl there ↦ check_existing_ok (record s { snapshots = s.snapshots }) x row (rw there at c)
        | inr fresh ↦
            let put : dict_get (dict_set s.snapshots x.content_snapshot_id (row_of x))
                  x.content_snapshot_id
                ≡ some row =
              rw fresh at e in
            let same : row_of x ≡ row = some-inj (
              sym (
                dict_get-dict_set s.snapshots x.content_snapshot_id x.content_snapshot_id (row_of x)
                ∙ (rw (eq_refl x.content_snapshot_id)))
              ∙ put) in
            subst (Comparing x) same (
              compare_existing_identity_self str_of canonical_json root_hash_of x.identity own,
              compare_candidate_self str_of canonical_json root_hash_of x.identity x.columns
                  x.content_snapshot_id
                  (subst
                    (λ (r : ContentSnapshotRow).
                      validate_identity_against_values str_of canonical_json root_hash_of r.identity
                        r.columns x.content_snapshot_id
                      ≡ ok tt)
                    {y = row_of x} (sym same) v),
            )
      ]

  checks_again :
      (s : S) (x : ContentSnapshot) (row : ContentSnapshotRow)
      → validating s x.content_snapshot_id row ≡ ok tt
      → Comparing x row
      → checking s x row ≡ ok tt
  unfolding check_existing
  checks_again s x row v (p, q) = rw (v, p, q) refl

  save_row_again :
      (s : S) (x : ContentSnapshot) (row : ContentSnapshotRow)
      → dict_get s.snapshots x.content_snapshot_id ≡ some row
      → checking s x row ≡ ok tt
      → inserting s.members x.content_snapshot_id x.columns.artifact_ids ≡ s.members
      → validating s x.content_snapshot_id row ≡ ok tt
      → advancing false s.heads x ≡ s.heads
      → saving_row s x s.snapshots false ≡ ok s
  unfolding save_row
  save_row_again s x row e c m v h = rw (e, c, m, v, h) refl

  -- A snapshot whose save returned, with an identity that has each key once, can be saved again: the save
  -- returns and changes nothing.
  pub save_again :
      (s s' : S) (x : ContentSnapshot)
      → IsDict x.identity
      → saving s x ≡ ok s'
      → saving s' x ≡ ok s'
  unfolding save_in_session
  save_again s s' x own h =
      let ins = insert_ignore s.snapshots x.content_snapshot_id (row_of x) in
      let (fine, t) = then_ok _ (saving_row s x ins.0 ins.1) s' h in
      let (row, e, c, v, same) = save_row-parts s s' x ins.0 ins.1 t in
      let compared =
        stored_compares s x row own e c (valid_identity _ x.content_snapshot_id row v) in
      let m = after s x ins.0 ins.1 in
      let id = x.content_snapshot_id in
      let taken : insert_ignore m.snapshots id (row_of x) ≡ (m.snapshots, false) =
        insert_ignore-again m.snapshots id (row_of x) (rw e refl) in
      let members_same : inserting m.members id x.columns.artifact_ids ≡ m.members =
        insert_members_again intact edge_id_of str_of canonical_json root_hash_of member_id_of
          source_hash_of upper lt db x.columns.artifact_ids m.members id
          (insert_members-Present intact edge_id_of str_of canonical_json root_hash_of member_id_of
            source_hash_of upper lt db x.columns.artifact_ids s.members id) in
      let head_same : advancing false m.heads x ≡ m.heads =
        rw
          (advance_head-is_some intact edge_id_of str_of canonical_json root_hash_of member_id_of
            source_hash_of upper lt db ins.1 s.heads x)
          refl in
      subst (λ (y : S). saving y x ≡ ok y) same
        (rw (fine, taken)
          (save_row_again m x row e (checks_again m x row v compared) members_same v head_same))
