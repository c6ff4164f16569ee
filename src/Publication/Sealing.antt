-- ===== src/Publication/Sealing.antt =====
-- Writes to what is sealed with a publication run.
use stock_content.Prelude.{
  ℕ, ◌≡◌, refl, ap, sym, ◌∙◌, String, Bool, true, false, ◌&&◌, Option, none, some, List, [], ◌∷◌,
  arith, Outcome, ok, raised, ◌>>◌, require, filled, is_some, inl, inr, ◌==◌, eq_iff,
}
use stock_content.Prelude.Table.{Table}
use stock_content.Prelude.Same.{opt_eq→≡}
use stock_content.Prelude.Batch.{put-cases}
use stock_content.Publication.{
  ContentPublicationRun, PublicationError, value_error, integrity_error, ManifestRow, Payload,
  SealedSignalRow, same_payload, same_identity, conflicting, id_text, save_in_session,
  save_manifest, seal, save_sealed_signals, sealed_for, manifest_row, sealed_row,
}

module _ {Row : Type 0} (db : Table Row) where
  -- every row of `s` is in `t` as it was
  abbrev pub Keeps : db.State → db.State → Type 0
  Keeps s t = (k : String) (row : Row) → db.get s k ≡ some row → db.get t k ≡ some row

  put-Keeps : (s : db.State) (k : String) (row : Row) → db.get s k ≡ none → Keeps s (db.put s k row)
  put-Keeps s k row free j other there = elim (put-cases db s k j row) [
    | inl (q, _) ↦
        absurd (let c : none ≡ some other = sym free ∙ ap (db.get s) q ∙ there in ground arith)
    | inr q ↦ q ∙ there
  ]

  pub get-put_same : (s : db.State) (k : String) (row : Row) → db.get (db.put s k row) k ≡ some row
  get-put_same s k row = db.get-put s k k row ∙ rw ((eq_iff k k).1 refl) refl

module _ (manifests : Table ManifestRow) where
  open manifests use {State, get, put}

  -- A manifest that is saved for a run is stored with its hash and changes no stored row; from then
  -- on a save for the run succeeds only with this manifest and this hash, and writes nothing.
  pub save_manifest-once :
      (s t : State) (run : ContentPublicationRun) (manifest sealed_hash : String) (now : ℕ)
      → save_manifest manifests s run manifest sealed_hash now ≡ ok t
      → ((row : ManifestRow) × (get t run.publication_run_id ≡ some row)
          × (row.manifest ≡ manifest)
          × (row.manifest_hash ≡ sealed_hash))
        × Keeps manifests s t
        × ((t2 : State) (manifest2 hash2 : String) (later : ℕ)
            → save_manifest manifests t run manifest2 hash2 later ≡ ok t2
            → (manifest2 ≡ manifest) × (hash2 ≡ sealed_hash) × (t2 ≡ t))
  unfolding save_manifest
  save_manifest-once s t run manifest sealed_hash now h =
      let (row, e, m, f, k) = stored (get s run.publication_run_id) refl in
      ((row, e, m, f), k, λ t2 m2 h2 later g. again row e m f t2 m2 h2 later g)
    where
      stored :
          (o : Option ManifestRow)
          → get s run.publication_run_id ≡ o
          → (row : ManifestRow) × (get t run.publication_run_id ≡ some row)
            × (row.manifest ≡ manifest)
            × (row.manifest_hash ≡ sealed_hash)
            × Keeps manifests s t
      stored none e =
          let row = manifest_row run manifest sealed_hash now in
          let g : ok (put s run.publication_run_id row) ≡ ok t = rw (save_manifest, e) at h in
          let w : put s run.publication_run_id row ≡ t = ground arith in
          rw (← w) (
            row,
            get-put_same manifests s run.publication_run_id row,
            refl,
            refl,
            put-Keeps manifests s run.publication_run_id row e,
          )
      stored (some row) e =
          let g : (require (row.manifest_hash == sealed_hash && row.manifest == manifest)
                  value_error
                >> ok s)
              ≡ ok t =
            rw (save_manifest, e) at h in
          let w : (row.manifest_hash ≡ sealed_hash) × (row.manifest ≡ manifest) × (s ≡ t) =
            ground (arith, eq_iff row.manifest_hash sealed_hash, eq_iff row.manifest manifest) in
          rw (← w.2) (row, e, w.1, w.0, λ k r there. there)

      again :
          (row : ManifestRow)
          → get t run.publication_run_id ≡ some row
          → row.manifest ≡ manifest
          → row.manifest_hash ≡ sealed_hash
          → (t2 : State) (manifest2 hash2 : String) (later : ℕ)
          → save_manifest manifests t run manifest2 hash2 later ≡ ok t2
          → (manifest2 ≡ manifest) × (hash2 ≡ sealed_hash) × (t2 ≡ t)
      again row e m f t2 m2 h2 later g =
          let q : (require (row.manifest_hash == h2 && row.manifest == m2) value_error >> ok t)
              ≡ ok t2 =
            rw (save_manifest, e) at g in
          let w : (row.manifest_hash ≡ h2) × (row.manifest ≡ m2) × (t ≡ t2) =
            ground (arith, eq_iff row.manifest_hash h2, eq_iff row.manifest m2) in
          (sym w.1 ∙ m, sym w.0 ∙ f, sym w.2)

same_payload→≡ : (p q : Payload) → same_payload p q ≡ true → p ≡ q
same_payload→≡ p q h = ground (
  arith,
  opt_eq→≡ p.signal_id q.signal_id,
  opt_eq→≡ p.claim_id q.claim_id,
  opt_eq→≡ p.signal_schema_version q.signal_schema_version,
  opt_eq→≡ p.schema_version q.schema_version,
  eq_iff p.rest q.rest,
)

module _ (signals : Table SealedSignalRow) (sealed_id_of : String → String → String) where
  open signals use {State, get, put, scalar}

  -- the payload is stored as it is under its identifier
  abbrev pub IsSealed : State → ContentPublicationRun → Payload → Type 0
  IsSealed t run p =
      (row : SealedSignalRow) × (get t (sealed_id_of run.publication_run_id (id_text p)) ≡ some row)
      × (row.payload ≡ p)

  abbrev pub AllSealed : State → ContentPublicationRun → List Payload → Type 0
  AllSealed t run [] = Unit
  AllSealed t run (p ∷ ps) = IsSealed t run p × AllSealed t run ps

  seal-ok :
      (s t : State) (run : ContentPublicationRun) (now : ℕ) (p : Payload)
      → seal signals sealed_id_of s run now p ≡ ok t
      → IsSealed t run p × Keeps signals s t
  unfolding seal
  seal-ok s t run now p h =
      go (filled (id_text p)) refl (get s (sealed_id_of run.publication_run_id (id_text p))) refl
        (is_some (scalar (λ row. sealed_for run (id_text p) row) s)) refl
    where
      go :
          (b : Bool)
          → filled (id_text p) ≡ b
          → (o : Option SealedSignalRow)
          → get s (sealed_id_of run.publication_run_id (id_text p)) ≡ o
          → (c : Bool) → is_some (scalar (λ row. sealed_for run (id_text p) row) s) ≡ c
          → IsSealed t run p × Keeps signals s t
      go false f o e c q =
          absurd (let g : raised value_error ≡ ok t = rw (seal, f) at h in ground arith)
      go true f none e true q =
          absurd (let g : raised integrity_error ≡ ok t = rw (seal, f, e, q) at h in ground arith)
      go true f none e false q =
          let id = sealed_id_of run.publication_run_id (id_text p) in
          let row = sealed_row id run p now in
          let g : ok (put s id row) ≡ ok t = rw (seal, f, e, q) at h in
          let w : put s id row ≡ t = ground arith in
          rw (← w) ((row, get-put_same signals s id row, refl), put-Keeps signals s id row e)
      go true f (some row) e c q =
          let g : (require (same_payload row.payload p) value_error >> ok s) ≡ ok t =
            rw (seal, f, e) at h in
          let w : (same_payload row.payload p ≡ true) × (s ≡ t) = ground arith in
          rw (← w.1) ((row, e, same_payload→≡ row.payload p w.0), λ k r there. there)

  IsSealed-Keeps :
      (t u : State) (run : ContentPublicationRun) (p : Payload)
      → Keeps signals t u
      → IsSealed t run p
      → IsSealed u run p
  IsSealed-Keeps t u run p k (row, e, same) = (row, k _ row e, same)

  -- When the signals of a run are saved, each of them is stored under its identifier with the payload
  -- given, and no row that was stored is changed.
  pub save_sealed_signals-seals :
      (s t : State) (run : ContentPublicationRun) (now : ℕ) (ps : List Payload)
      → save_sealed_signals signals sealed_id_of s run now ps ≡ ok t
      → AllSealed t run ps × Keeps signals s t
  unfolding save_sealed_signals
  save_sealed_signals-seals s t run now [] h =
      let w : s ≡ t = ground arith in (tt, rw (← w) (λ k r there. there))
  save_sealed_signals-seals s t run now (p ∷ ps) h =
      go (seal signals sealed_id_of s run now p) refl
        (λ u. save_sealed_signals-seals u t run now ps)
    where
      go :
          (o : Outcome PublicationError State)
          → seal signals sealed_id_of s run now p ≡ o
          → ((u : State)
              → save_sealed_signals signals sealed_id_of u run now ps ≡ ok t
              → AllSealed t run ps × Keeps signals u t)
          → AllSealed t run (p ∷ ps) × Keeps signals s t
      go (raised x) e others =
          absurd (let g : raised x ≡ ok t = rw (save_sealed_signals, e) at h in ground arith)
      go (ok u) e others =
          let g : save_sealed_signals signals sealed_id_of u run now ps ≡ ok t =
            rw (save_sealed_signals, e) at h in
          let (one, k) = seal-ok s u run now p e in
          let (rest, k2) = others u g in
          ((IsSealed-Keeps u t run p k2 one, rest), λ j r there. k2 j r (k j r there))

module _ (runs : Table ContentPublicationRun) where
  open runs use {State, get}

  -- the row that `save_in_session` leaves of a row that is there
  abbrev updated : ContentPublicationRun → ContentPublicationRun → ContentPublicationRun
  updated row run = record row {
    state = run.state;
    manifest_hash = run.manifest_hash;
    version = run.version;
  }

  save_in_session-updates :
      (s : State) (row run : ContentPublicationRun)
      → get s run.publication_run_id ≡ some row
      → same_identity row run ≡ true
      → conflicting row.manifest_hash run.manifest_hash ≡ false
      → save_in_session runs s run ≡ ok (runs.put s run.publication_run_id (updated row run))
  unfolding save_in_session
  save_in_session-updates s row run e i c = rw (save_in_session, e, i, c) refl

  save_in_session-refuses :
      (s : State) (row run : ContentPublicationRun)
      → get s run.publication_run_id ≡ some row
      → same_identity row run ≡ true
      → conflicting row.manifest_hash run.manifest_hash ≡ true
      → save_in_session runs s run ≡ raised value_error
  unfolding save_in_session
  save_in_session-refuses s row run e i c = rw (save_in_session, e, i, c) refl

  -- Over a row with a manifest a run with another manifest is refused. Saving a run of the same identity
  -- without a manifest succeeds and clears the hash of the row; after that the refused run is accepted, and
  -- the row has its manifest.
  pub save_in_session-unseals :
      (s : State) (row run run2 : ContentPublicationRun) (sealed_hash other : String)
      → get s run.publication_run_id ≡ some row
      → same_identity row run ≡ true
      → same_identity row run2 ≡ true
      → run2.publication_run_id ≡ run.publication_run_id
      → row.manifest_hash ≡ some sealed_hash
      → run.manifest_hash ≡ none
      → run2.manifest_hash ≡ some other
      → sealed_hash == other ≡ false
      → (t : State) × (t2 : State) × (save_in_session runs s run2 ≡ raised value_error)
        × (save_in_session runs s run ≡ ok t)
        × (get t run.publication_run_id
            ≡ some (record row { state = run.state; manifest_hash = none; version = run.version }))
        × (save_in_session runs t run2 ≡ ok t2)
        × (get t2 run.publication_run_id
            ≡ some (record row {
              state = run2.state;
              manifest_hash = some other;
              version = run2.version;
            }))
  save_in_session-unseals s row run run2 sealed_hash other e i i2 k sealed m m2 ne =
      let clear : conflicting row.manifest_hash run.manifest_hash ≡ false = rw (sealed, m) refl in
      let clash : conflicting row.manifest_hash run2.manifest_hash ≡ true =
        rw (sealed, m2, ne) refl in
      let first = updated row run in
      let t = runs.put s run.publication_run_id first in
      let left = get-put_same runs s run.publication_run_id first in
      let there : get t run2.publication_run_id ≡ some first = rw k left in
      let open_again : conflicting first.manifest_hash run2.manifest_hash ≡ false = rw m refl in
      (
        t,
        _,
        save_in_session-refuses s row run2 (rw k e) i2 clash,
        save_in_session-updates s row run e i clear,
        left ∙ (rw m refl),
        save_in_session-updates t first run2 there i2 open_again,
        rw k (get-put_same runs t run.publication_run_id (updated first run2) ∙ (rw m2 refl)),
      )
