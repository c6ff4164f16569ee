-- ===== src/Snapshot/Save.antt =====
-- `_save_in_session` of snapshot_repository.py with the validation of a stored row. An exception rolls the
-- transaction back, so a save returns the tables that it leaves, or the error. `identity` is what `to_dict`
-- returns; hashes and `upper` are parameters.
pub mod Kept
pub mod Again
pub mod Immutable
use stock_content.Prelude.{
  ℕ, String, Bool, true, false, ◌&&◌, ◌||◌, not, Option, none, some, List, [], ◌∷◌, map,
  if◌then◌else◌, ◌==◌, is_some, Outcome, ok, raised, ◌>>=◌, ◌>>◌, require, found,
}
use stock_content.Prelude.Table.{Table}
use stock_content.Prelude.Text.{dict_get, dict_set}
use stock_content.Snapshot.Closure.{
  ContentArtifactRow, Tables, ClosureError, validate_snapshot_artifacts,
}
use stock_content.Snapshot.Heads.{ContentSourceHeadRow, HeadValues, update_latest, upsert}
use stock_content.Snapshot.Json.{Json, Fields, field_get}
use stock_content.Snapshot.Provenance.{IdentityError, v1_schema_version}
use stock_content.Snapshot.Identity.{
  Columns, has_schema, validate_identity_against_values, compare_existing_identity,
  compare_candidate_to_existing_row,
}

pub record ContentSnapshot : Type 0 where
  pub content_snapshot_id : String
  pub columns : Columns
  pub identity : Fields
  pub created_at : ℕ

pub record ContentSnapshotRow : Type 0 where
  pub columns : Columns
  pub identity : Fields
  pub lifecycle_artifact_id : Option String
  pub created_at : ℕ

pub record SnapshotArtifactRow : Type 0 where
  pub content_snapshot_id : String
  pub artifact_id : String
  pub slot : String
  pub artifact_role : String

pub data SnapshotError : Type 0 where
  closure : ClosureError → SnapshotError
  identity : IdentityError → SnapshotError
  membership disappeared : SnapshotError

abbrev pub lift {ℓ} :
    {E : Type ℓ} → (E → SnapshotError) → Outcome E (Unit {0}) → Outcome SnapshotError (Unit {0})
lift f (ok a) = ok a
lift f (raised e) = raised (f e)

-- `_insert_ignore`: the table, and whether the row was inserted
abbrev pub insert_ignore {ℓ} :
    {A : Type ℓ} → List (String × A) → String → A → List (String × A) × Bool
insert_ignore d k v = if is_some (dict_get d k) then (d, false) else (dict_set d k v, true)

abbrev pub values {ℓ} : {A : Type ℓ} → List (String × A) → List A
values [] = []
values ((_, a) ∷ d) = a ∷ values d

-- the rows of a snapshot, under their `member_id`
unfoldable pub members_of :
    String → List (String × SnapshotArtifactRow) → List (String × SnapshotArtifactRow)
members_of id [] = []
members_of id ((k, m) ∷ l) =
    let rest = members_of id l in if m.content_snapshot_id == id then (k, m) ∷ rest else rest

-- the triples of `expected` and `actual`
abbrev pub Triple : Type 0
Triple = String × String × String

abbrev pub actual : List (String × SnapshotArtifactRow) → List Triple
actual = map (λ (p : String × SnapshotArtifactRow). (p.0, p.1.artifact_id, p.1.slot))

abbrev pub same_triple : Triple → Triple → Bool
same_triple (a, b, c) (x, y, z) = a == x && (b == y && c == z)

unfoldable pub has_triple : Triple → List Triple → Bool
has_triple t [] = false
has_triple t (u ∷ l) = if same_triple t u then true else has_triple t l

unfoldable pub triples_within : List Triple → List Triple → Bool
triples_within [] l = true
triples_within (t ∷ k) l = has_triple t l && triples_within k l

-- `len(actual) == len(members)`
unfoldable pub no_repeats : List Triple → Bool
no_repeats [] = true
no_repeats (t ∷ l) = not (has_triple t l) && no_repeats l

abbrev pub no_members : List (String × SnapshotArtifactRow) → Bool
no_members [] = true
no_members (_ ∷ _) = false

abbrev pub row_of : ContentSnapshot → ContentSnapshotRow
row_of x = record {
  columns = x.columns;
  identity = x.identity;
  lifecycle_artifact_id = dict_get x.columns.artifact_ids "lifecycle";
  created_at = x.created_at;
}

module _ {P : Type 0} (intact : ContentArtifactRow P → Bool) (edge_id_of : String → String → String)
    (str_of : Json → String) (canonical_json : Json → String)
    (root_hash_of : List (String × String) → String)
    (member_id_of : String → String → String → String) (source_hash_of : String → String → String)
    (upper : String → String) (lt : String → String → Bool) (db : Table ContentSourceHeadRow) where
  open db use {State, get}

  pub record Session : Type 0 where
    pub artifacts : Tables P
    pub snapshots : List (String × ContentSnapshotRow)
    pub members : List (String × SnapshotArtifactRow)
    pub heads : State

  abbrev pub expected : String → List (String × String) → List Triple
  expected id = map (λ (p : String × String). (member_id_of id p.0 p.1, p.1, p.0))

  -- `_validate_snapshot_members`
  unfoldable pub validate_snapshot_members :
      List (String × SnapshotArtifactRow)
      → String
      → ContentSnapshotRow
      → Outcome SnapshotError (Unit {0})
  validate_snapshot_members members id row =
      let rows = members_of id members in
      let wanted = expected id row.columns.artifact_ids in
      require
        (no_members rows
            && (row.columns.schema_version == v1_schema_version
                && has_schema (field_get row.identity "schema_version") v1_schema_version)
          || (no_repeats (actual rows)
              && (triples_within (actual rows) wanted && triples_within wanted (actual rows))))
        membership

  abbrev pub validate_artifacts : Tables P → Columns → Outcome SnapshotError (Unit {0})
  validate_artifacts t c = lift closure (
      validate_snapshot_artifacts intact edge_id_of (c.schema_version == v1_schema_version) t
        (values c.artifact_ids))

  -- `_validate_snapshot_row`
  unfoldable pub validate_snapshot_row :
      Session → String → ContentSnapshotRow → Outcome SnapshotError (Unit {0})
  validate_snapshot_row s id row = do
    lift identity (
        validate_identity_against_values str_of canonical_json root_hash_of row.identity row.columns
          id)
    validate_snapshot_members s.members id row
    validate_artifacts s.artifacts row.columns

  -- the loop over the slots
  unfoldable pub insert_members :
      List (String × SnapshotArtifactRow)
      → String
      → List (String × String)
      → List (String × SnapshotArtifactRow)
  insert_members members id [] = members
  insert_members members id ((slot, artifact_id) ∷ l) =
      insert_members
        (insert_ignore members (member_id_of id slot artifact_id) (record {
          content_snapshot_id = id;
          artifact_id = artifact_id;
          slot = slot;
          artifact_role = upper slot;
        })).0
        id l

  -- what is checked where the identifier is taken
  unfoldable pub check_existing :
      Session → ContentSnapshot → ContentSnapshotRow → Outcome SnapshotError (Unit {0})
  check_existing s x row = do
    validate_snapshot_row s x.content_snapshot_id row
    lift identity
        (compare_existing_identity str_of canonical_json root_hash_of row.identity x.identity)
    lift identity (
        compare_candidate_to_existing_row str_of canonical_json root_hash_of x.columns row.columns
          row.identity)

  abbrev pub head_values : ContentSnapshot → HeadValues
  head_values x = record {
    source_identity_hash = source_hash_of x.columns.source_type x.columns.source_ref;
    snapshot_id = x.content_snapshot_id;
    verified_snapshot_id = none;
    updated_at = x.created_at;
  }

  abbrev pub advance_head : Bool → State → ContentSnapshot → State
  advance_head inserted heads x =
      if inserted || not (is_some (get heads (head_values x).source_identity_hash))
      then upsert lt db (update_latest lt) heads (head_values x)
      else heads

  -- what follows the insert of the row
  unfoldable pub save_row :
      Session
      → ContentSnapshot
      → List (String × ContentSnapshotRow)
      → Bool
      → Outcome SnapshotError Session
  save_row s x snapshots inserted = do
    row ← found (dict_get snapshots x.content_snapshot_id) disappeared
    if inserted then ok tt else check_existing (record s { snapshots = snapshots }) x row
    let t : Session = record s {
      snapshots = snapshots;
      members = insert_members s.members x.content_snapshot_id x.columns.artifact_ids;
    }
    validate_snapshot_row t x.content_snapshot_id row
    ok (record t { heads = advance_head inserted s.heads x })

  -- `_save_in_session`
  unfoldable pub save_in_session : Session → ContentSnapshot → Outcome SnapshotError Session
  save_in_session s x = do
    validate_artifacts s.artifacts x.columns
    let inserted = insert_ignore s.snapshots x.content_snapshot_id (row_of x)
    save_row s x inserted.0 inserted.1
