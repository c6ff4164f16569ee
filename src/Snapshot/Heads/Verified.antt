-- ===== src/Snapshot/Heads/Verified.antt =====
-- The verified snapshot of a head.
use stock_content.Prelude.{
  ◌<◌, ◌≡◌, refl, ap, ◌∙◌, String, Bool, true, false, Option, none, some, List, [], ◌∷◌, map, arith,
  ◌==◌,
}
use stock_content.Prelude.Table.{Table}
use stock_content.Snapshot.Heads.{
  TextOrder, ContentSourceHeadRow, HeadValues, head_row, is_newer, update_verified, upsert,
}
use stock_content.Snapshot.Heads.Latest.{verifies, run, get-upsert, written}

abbrev pub verified : Option ContentSourceHeadRow → Option String
verified none = none
verified (some h) = h.latest_verified_snapshot_id

module _ (lt : String → String → Bool) where
  newer :
      (v : HeadValues) (h : ContentSourceHeadRow)
      → h.updated_at < v.updated_at
      → is_newer lt v h ≡ true
  unfolding is_newer
  newer v h t = ground arith

  older :
      (v : HeadValues) (h : ContentSourceHeadRow)
      → v.updated_at < h.updated_at
      → is_newer lt v h ≡ false
  unfolding is_newer
  older v h t = ground arith

  module _ (a b c : HeadValues) (x y : String) (av : a.verified_snapshot_id ≡ some x)
      (bv : b.verified_snapshot_id ≡ none) (cv : c.verified_snapshot_id ≡ some y)
      (ac : a.updated_at < c.updated_at) (cb : c.updated_at < b.updated_at) where
    in_order : verified (some (update_verified lt b (update_verified lt c (head_row a)))) ≡ some y
    unfolding update_verified
    in_order = rw (newer c (head_row a) ac, av, bv, cv) refl

    late : verified (some (update_verified lt c (update_verified lt b (head_row a)))) ≡ some x
    unfolding update_verified
    late =
        rw (newer b (head_row a) (omega arith), av, bv, cv)
          (let h : ContentSourceHeadRow = record {
            latest_snapshot_id = b.snapshot_id;
            latest_verified_snapshot_id = some x;
            updated_at = b.updated_at;
          } in
            rw (older (record c { verified_snapshot_id = some y }) h cb) refl)

    -- A source gets a verified snapshot, then a later verified one and then a snapshot that is later still and
    -- not verified: the head names the second as verified. Where the last of the three is written before
    -- the second, it goes on naming the first.
    module _ (order : TextOrder lt) (db : Table ContentSourceHeadRow) (k : String) where
      wrote :
          (s : db.State) (v : HeadValues) (o : Option ContentSourceHeadRow)
          → v.source_identity_hash == k ≡ true
          → db.get s k ≡ o
          → db.get (upsert lt db (update_verified lt) s v) k
            ≡ some (written lt order db k verifies v o)
      wrote s v o h e = get-upsert lt order db k verifies s v ∙ (rw (h, e) refl)

      pub verified_order :
          (s : db.State)
          → db.get s k ≡ none
          → a.source_identity_hash == k ≡ true
          → b.source_identity_hash == k ≡ true
          → c.source_identity_hash == k ≡ true
          → let after = λ (calls : List HeadValues).
            db.get (run lt order db k s (map (λ v. (verifies, v)) calls)) k in
            (verified (after (b ∷ c ∷ a ∷ [])) ≡ some y)
            × (verified (after (c ∷ b ∷ a ∷ [])) ≡ some x)
      unfolding run
      verified_order s e ak bk ck =
          let first = wrote s a none ak e in
          let s1 = upsert lt db (update_verified lt) s a in
          let s2 = upsert lt db (update_verified lt) s1 c in
          let s2' = upsert lt db (update_verified lt) s1 b in
          (
            ap verified (wrote s2 b _ bk (wrote s1 c _ ck first)) ∙ in_order,
            ap verified (wrote s2' c _ ck (wrote s1 b _ bk first)) ∙ late,
          )
