-- ===== src/Snapshot/Save/Kept.antt =====
-- Inserts that ignore what is stored, and heads.
use stock_content.Prelude.{
  ◌≡◌, refl, String, Bool, true, false, List, [], ◌∷◌, ◌==◌, eq_refl, is_some, Bool-cases,
  Option-cases, inl, inr,
}
use stock_content.Prelude.Table.{Table}
use stock_content.Prelude.Text.{dict_get, dict_get-dict_set}
use stock_content.Snapshot.Json.{Json}
use stock_content.Snapshot.Closure.{ContentArtifactRow}
use stock_content.Snapshot.Heads.{ContentSourceHeadRow, HeadValues, head_row, update_latest, upsert}
use stock_content.Snapshot.Save.{
  ContentSnapshot, SnapshotArtifactRow, insert_ignore, insert_members, advance_head,
}

-- an insert leaves what is there, and is there afterwards
insert_ignore-get :
    {A : Type 0} (d : List (String × A)) (k j : String) (v : A)
    → is_some (dict_get d j) ≡ true
    → is_some (dict_get (insert_ignore d k v).0 j) ≡ true
insert_ignore-get d k j v h = elim (Bool-cases (is_some (dict_get d k))) [
  | inl e ↦ rw e h
  | inr e ↦
      rw (e, dict_get-dict_set d k j v)
        (elim (Bool-cases (k == j)) [ inl q ↦ rw q refl | inr q ↦ rw q h ])
]

insert_ignore_self :
    {A : Type 0} (d : List (String × A)) (k : String) (v : A)
    → is_some (dict_get (insert_ignore d k v).0 k) ≡ true
insert_ignore_self d k v = elim (Bool-cases (is_some (dict_get d k))) [
  | inl e ↦ rw e e
  | inr e ↦ rw (e, dict_get-dict_set d k k v, eq_refl k) refl
]

pub insert_ignore-again :
    {A : Type 0} (d : List (String × A)) (k : String) (v : A)
    → is_some (dict_get d k) ≡ true
    → insert_ignore d k v ≡ (d, false)
insert_ignore-again d k v h = rw h refl

module _ {P : Type 0} (intact : ContentArtifactRow P → Bool) (edge_id_of : String → String → String)
    (str_of : Json → String) (canonical_json : Json → String)
    (root_hash_of : List (String × String) → String)
    (member_id_of : String → String → String → String) (source_hash_of : String → String → String)
    (upper : String → String) (lt : String → String → Bool) (db : Table ContentSourceHeadRow) where
  open db use {get, get-put}

  abbrev inserting :
      List (String × SnapshotArtifactRow)
      → String
      → List (String × String)
      → List (String × SnapshotArtifactRow)
  inserting =
      insert_members intact edge_id_of str_of canonical_json root_hash_of member_id_of
        source_hash_of upper lt db

  abbrev pub Present :
      List (String × SnapshotArtifactRow) → String → List (String × String) → Type 0
  Present d id [] = Unit
  Present d id ((slot, a) ∷ l) =
      (is_some (dict_get d (member_id_of id slot a)) ≡ true) × Present d id l

  insert_members-get :
      (l : List (String × String)) (d : List (String × SnapshotArtifactRow)) (id j : String)
      → is_some (dict_get d j) ≡ true
      → is_some (dict_get (inserting d id l) j) ≡ true
  unfolding insert_members
  insert_members-get [] d id j h = h
  insert_members-get ((slot, a) ∷ l) d id j h =
      insert_members-get l _ id j (insert_ignore-get d (member_id_of id slot a) j _ h)

  pub insert_members-Present :
      (l : List (String × String)) (d : List (String × SnapshotArtifactRow)) (id : String)
      → Present (inserting d id l) id l
  unfolding insert_members
  insert_members-Present [] d id = tt
  insert_members-Present ((slot, a) ∷ l) d id = (
    insert_members-get l _ id (member_id_of id slot a)
        (insert_ignore_self d (member_id_of id slot a) _),
    insert_members-Present l _ id,
  )

  pub insert_members_again :
      (l : List (String × String)) (d : List (String × SnapshotArtifactRow)) (id : String)
      → Present d id l
      → inserting d id l ≡ d
  unfolding insert_members
  insert_members_again [] d id h = refl
  insert_members_again ((slot, a) ∷ l) d id (e, h) = rw e (insert_members_again l d id h)

  upsert-is_some :
      (heads : db.State) (v : HeadValues)
      → is_some (get (upsert lt db (update_latest lt) heads v) v.source_identity_hash) ≡ true
  unfolding upsert
  upsert-is_some heads v =
      let key = v.source_identity_hash in
      elim (Option-cases (get heads key)) [
        | inl e ↦ rw (upsert, e, get-put heads key key (head_row v), eq_refl key) refl
        | inr (h, e) ↦
            rw (upsert, e, get-put heads key key (update_latest lt v h), eq_refl key) refl
      ]

  -- there is a head for the source after the save
  pub advance_head-is_some :
      (inserted : Bool) (heads : db.State) (x : ContentSnapshot)
      → let key = source_hash_of x.columns.source_type x.columns.source_ref in
        is_some (
          get
            (advance_head intact edge_id_of str_of canonical_json root_hash_of member_id_of
              source_hash_of upper lt db inserted heads x)
            key)
        ≡ true
  advance_head-is_some true heads x = upsert-is_some heads _
  advance_head-is_some false heads x =
      let key = source_hash_of x.columns.source_type x.columns.source_ref in
      elim (Bool-cases (is_some (get heads key))) [
        | inl e ↦ rw e e
        | inr e ↦ rw e (upsert-is_some heads _)
      ]

  abbrev pub advancing : Bool → db.State → ContentSnapshot → db.State
  advancing =
      advance_head intact edge_id_of str_of canonical_json root_hash_of member_id_of source_hash_of
        upper lt db
