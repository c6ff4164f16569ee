-- ===== src/Snapshot/Heads.antt =====
-- `_upsert_source_head`, the head of a source: of snapshot_repository.py, and of
-- src/stock_content/application/verification/closure.py, which also records the last verified snapshot.
-- The order of texts is that of the collation of the database, a parameter. For other dialects the code
-- inserts the row, and compares in Python where the key is taken.
pub mod Latest
pub mod Verified
use stock_content.Prelude.{
  ℕ, ◌≡◌, String, Bool, true, false, not, ◌&&◌, ◌||◌, Option, none, some, List, [], ◌∷◌,
  if◌then◌else◌, ltb, nat_eq, is_some,
}
use stock_content.Prelude.Table.{Table}

pub record TextOrder (lt : String → String → Bool) : Type 0 where
  pub asym : (a b : String) → lt a b ≡ true → lt b a ≡ false
  pub between : (a b c : String) → lt a c ≡ true → (lt a b || lt b c) ≡ true
  pub connected : (a b : String) → lt a b ≡ false → lt b a ≡ false → a ≡ b

pub record ContentSourceHeadRow : Type 0 where
  pub latest_snapshot_id : String
  pub latest_verified_snapshot_id : Option String
  pub updated_at : ℕ

-- the arguments of `_upsert_source_head`
pub record HeadValues : Type 0 where
  pub source_identity_hash : String
  pub snapshot_id : String
  pub verified_snapshot_id : Option String
  pub updated_at : ℕ

abbrev pub head_row : HeadValues → ContentSourceHeadRow
head_row v = record {
  latest_snapshot_id = v.snapshot_id;
  latest_verified_snapshot_id = v.verified_snapshot_id;
  updated_at = v.updated_at;
}

module _ (lt : String → String → Bool) where
  -- `is_newer`, and `_head_is_newer`
  unfoldable pub is_newer : HeadValues → ContentSourceHeadRow → Bool
  is_newer v head =
      ltb head.updated_at v.updated_at
      || nat_eq v.updated_at head.updated_at && lt head.latest_snapshot_id v.snapshot_id

  -- `on_conflict_do_update` of closure.py
  unfoldable pub update_verified : HeadValues → ContentSourceHeadRow → ContentSourceHeadRow
  update_verified v head = record {
    latest_snapshot_id = if is_newer v head then v.snapshot_id else head.latest_snapshot_id;
    latest_verified_snapshot_id =
        if is_some v.verified_snapshot_id
          && (not (is_some head.latest_verified_snapshot_id) || is_newer v head)
        then v.verified_snapshot_id
        else head.latest_verified_snapshot_id;
    updated_at = if is_newer v head then v.updated_at else head.updated_at;
  }

  -- `on_conflict_do_update` of snapshot_repository.py
  unfoldable pub update_latest : HeadValues → ContentSourceHeadRow → ContentSourceHeadRow
  update_latest v head = record head {
    latest_snapshot_id = if is_newer v head then v.snapshot_id else head.latest_snapshot_id;
    updated_at = if is_newer v head then v.updated_at else head.updated_at;
  }

  -- the branch of closure.py for other dialects, where the key is taken
  unfoldable pub update_loaded : HeadValues → ContentSourceHeadRow → ContentSourceHeadRow
  update_loaded v head =
      if is_newer v head
      then record {
        latest_snapshot_id = v.snapshot_id;
        latest_verified_snapshot_id =
            if is_some v.verified_snapshot_id
            then v.verified_snapshot_id
            else head.latest_verified_snapshot_id;
        updated_at = v.updated_at;
      }
      else head

  -- the branch of snapshot_repository.py for other dialects
  unfoldable pub update_latest_loaded : HeadValues → ContentSourceHeadRow → ContentSourceHeadRow
  update_latest_loaded v head =
      if is_newer v head
      then record head { latest_snapshot_id = v.snapshot_id; updated_at = v.updated_at }
      else head

  module _ (db : Table ContentSourceHeadRow) where
    open db use {State, get, put}

    unfoldable pub upsert :
        (HeadValues → ContentSourceHeadRow → ContentSourceHeadRow) → State → HeadValues → State
    upsert update s v = elim (get s v.source_identity_hash) [
      | none ↦ put s v.source_identity_hash (head_row v)
      | some head ↦ put s v.source_identity_hash (update v head)
    ]
