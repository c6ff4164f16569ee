-- ===== src/Publication/Fresh.antt =====
-- What the publication unit of work leaves of a new publication.
use stock_content.Prelude.{
  ℕ, ◌≡◌, refl, ap, sym, ◌∙◌, subst, String, Bool, true, false, not, Option, none, some, List,
  if◌then◌else◌, filled, is_some, Outcome, ok, raised, require, bind_ok, Option-cases, inl, inr,
}
use mathlib.Core.Path.{subst₂}
use stock_content.Prelude.Table.{Table}
use stock_content.Publication.{
  PublicationState, projecting, sealing, ready, ContentPublicationRun, value_error, integrity_error,
  transition, save_in_session, ManifestRow, save_manifest, Payload, same_identity, conflicting,
  first_of,
}
use stock_content.Publication.History.{IsNamed, moved, transition-ok, fresh-facts}
use stock_content.Publication.Sealing.{get-put_same, save_manifest-once}
use stock_content.Publication.UnitOfWork.{
  PublishError, lift, Request, identified, Writers, Database, save, write, snapshot_of, signals_of,
  outbox_of, project, seal_signals, make_ready, publish_row, publish_once,
}
use stock_content.Publication.Idempotence.{lift_ok, once_ok}

module _ (runs : Table ContentPublicationRun) where
  -- the row under the identifier of the run has what the run says
  pub record IsSaved (s : runs.State) (run : ContentPublicationRun) : Type 0 where
    pub row : ContentPublicationRun
    pub there : runs.get s run.publication_run_id ≡ some row
    pub state : row.state ≡ run.state
    pub hash : row.manifest_hash ≡ run.manifest_hash

  IsSaved-put :
      (s : runs.State) (run row : ContentPublicationRun)
      → row.state ≡ run.state
      → row.manifest_hash ≡ run.manifest_hash
      → IsSaved (runs.put s run.publication_run_id row) run
  IsSaved-put s run row st hs = record {
    row = row;
    there = get-put_same runs s run.publication_run_id row;
    state = st;
    hash = hs;
  }

  save_in_session-IsSaved :
      (s t : runs.State) (run : ContentPublicationRun)
      → save_in_session runs s run ≡ ok t
      → IsSaved t run
  unfolding save_in_session
  save_in_session-IsSaved s t run h = elim (Option-cases (runs.get s run.publication_run_id)) [
    | inl e ↦
        added (is_some (runs.scalar (λ row. same_identity row run) s))
          (rw (save_in_session, e) at h)
    | inr (row, e) ↦
        let (_, _, h1) =
          bind_ok (require (same_identity row run) value_error) _ t
            (rw (save_in_session, e) at h) in
        let (_, _, h2) =
          bind_ok (require (not (conflicting row.manifest_hash run.manifest_hash)) value_error) _ t
            h1 in
        let new = record row {
          state = run.state;
          manifest_hash = run.manifest_hash;
          version = run.version;
        } in
        let p : runs.put s run.publication_run_id new ≡ t = cc in
        subst (λ x. IsSaved x run) p (IsSaved-put s run new refl refl)
  ]
    where
      added :
          (b : Bool)
          → (if b then raised integrity_error else ok (runs.put s run.publication_run_id run))
            ≡ ok t
          → IsSaved t run
      added true g = cc
      added false g =
          let p : runs.put s run.publication_run_id run ≡ t = cc in
          subst (λ x. IsSaved x run) p (IsSaved-put s run run refl refl)

module _ (runs : Table ContentPublicationRun) (manifests : Table ManifestRow) (W : Type 0)
    (id_of : String → String → String → String) (hash_of : Request → String)
    (list_sealed_signals : W → String → List Payload) (writers : Writers W)
    (hook : String → Outcome PublishError (Unit {0})) where
  abbrev write_snapshot : Request → Option (W → Outcome PublishError W)
  write_snapshot q = snapshot_of runs manifests W id_of hash_of list_sealed_signals writers hook q

  abbrev write_signals : Request → String → Option (W → Outcome PublishError W)
  write_signals q run_id =
      signals_of runs manifests W id_of hash_of list_sealed_signals writers hook q run_id

  abbrev write_outbox : Request → Option (W → Outcome PublishError W)
  write_outbox q = outbox_of runs manifests W id_of hash_of list_sealed_signals writers hook q

  -- what a saving leaves
  save_ok :
      (d e : Database runs manifests W) (run u : ContentPublicationRun) (target : PublicationState)
      (name : String) (h : Option String)
      → save runs manifests W id_of hash_of list_sealed_signals writers hook d run target name h
        ≡ ok (e, u)
      → (transition id_of run target h ≡ ok u)
        × (e.manifest_rows ≡ d.manifest_rows)
        × IsSaved runs e.run_rows u
  unfolding save
  save_ok d e run u target name h g =
      let (v, e1, g1) = bind_ok (lift (transition id_of run target h)) _ (e, u) g in
      let (_, e2, g2) = bind_ok (hook name) _ (e, u) g1 in
      let (rows, e3, g3) = bind_ok (lift (save_in_session runs d.run_rows v)) _ (e, u) g2 in
      let p : record d { run_rows = rows } ≡ e = cc in
      let q : v ≡ u = cc in
      (
        lift_ok _ v e1 ∙ ap ok q,
        ap (λ x. x.manifest_rows) (sym p),
        subst₂ (λ x y. IsSaved runs x y) (ap (λ x. x.run_rows) p) q
            (save_in_session-IsSaved runs d.run_rows rows v (lift_ok _ rows e3)),
      )

  write_ok :
      (d e : Database runs manifests W) (f : Option (W → Outcome PublishError W))
      → write runs manifests W id_of hash_of list_sealed_signals writers hook f d ≡ ok e
      → (e.run_rows ≡ d.run_rows) × (e.manifest_rows ≡ d.manifest_rows)
  write_ok d e none g =
      let p : d ≡ e = cc in (ap (λ x. x.run_rows) (sym p), ap (λ x. x.manifest_rows) (sym p))
  write_ok d e (some f) g =
      let (w, _, g1) = bind_ok (f d.rest) (λ w. ok (record d { rest = w })) e g in
      let p : record d { rest = w } ≡ e = cc in
      (ap (λ x. x.run_rows) (sym p), ap (λ x. x.manifest_rows) (sym p))

  -- the manifest of the request is stored for the run
  abbrev pub HasManifest : manifests.State → String → Request → Type 0
  HasManifest m run_id q =
      (row : ManifestRow) × (manifests.get m run_id ≡ some row)
      × (row.manifest ≡ q.manifest)
      × (row.manifest_hash ≡ hash_of q)

  project_ok :
      (d e : Database runs manifests W) (now : ℕ) (q : Request) (run u : ContentPublicationRun)
      → project runs manifests W id_of hash_of list_sealed_signals writers hook d now q run
        ≡ ok (e, u)
      → (transition id_of run projecting none ≡ ok u)
        × HasManifest e.manifest_rows u.publication_run_id q
  unfolding project
  project_ok d e now q run u g =
      let ((d1, v), e1, g1) =
        bind_ok
          (save runs manifests W id_of hash_of list_sealed_signals writers hook d run projecting
            "projecting" none)
          _ (e, u) g in
      let (d2, e2, g2) =
        bind_ok
          (write runs manifests W id_of hash_of list_sealed_signals writers hook (write_snapshot q)
            d1)
          _ (e, u) g1 in
      let (rows, e3, g3) =
        bind_ok (lift (save_manifest manifests d2.manifest_rows v q.manifest (hash_of q) now)) _
          (e, u) g2 in
      let (_, e4, g4) = bind_ok (hook "snapshot") _ (e, u) g3 in
      let p : record d2 { manifest_rows = rows } ≡ e = cc in
      let w : v ≡ u = cc in
      (
        (save_ok d d1 run v projecting "projecting" none e1).0 ∙ ap ok w,
        subst₂ (λ x y. HasManifest x y q) (ap (λ x. x.manifest_rows) p)
            (ap (λ x. x.publication_run_id) w)
            (save_manifest-once manifests d2.manifest_rows rows v q.manifest (hash_of q) now
              (lift_ok _ rows e3)).0,
      )

  seal_signals_ok :
      (d e : Database runs manifests W) (q : Request) (run u : ContentPublicationRun)
      → seal_signals runs manifests W id_of hash_of list_sealed_signals writers hook d q run
        ≡ ok (e, u)
      → (transition id_of run sealing none ≡ ok u) × (e.manifest_rows ≡ d.manifest_rows)
  unfolding seal_signals
  seal_signals_ok d e q run u g =
      let ((d1, v), e1, g1) =
        bind_ok
          (save runs manifests W id_of hash_of list_sealed_signals writers hook d run sealing
            "sealing" none)
          _ (e, u) g in
      let (d2, e2, g2) =
        bind_ok
          (write runs manifests W id_of hash_of list_sealed_signals writers hook
            (write_signals q v.publication_run_id) d1)
          _ (e, u) g1 in
      let (_, e3, g3) = bind_ok (hook "signals") _ (e, u) g2 in
      let p : d2 ≡ e = cc in
      let w : v ≡ u = cc in
      let (moved_to, same, _) = save_ok d d1 run v sealing "sealing" none e1 in
      (
        moved_to ∙ ap ok w,
        ap (λ x. x.manifest_rows) (sym p)
            ∙ (write_ok d1 d2 (write_signals q v.publication_run_id) e2).1
            ∙ same,
      )

  make_ready_ok :
      (d e : Database runs manifests W) (q : Request) (run u : ContentPublicationRun)
      → make_ready runs manifests W id_of hash_of list_sealed_signals writers hook d q run
        ≡ ok (e, u)
      → (transition id_of run ready (some (hash_of q)) ≡ ok u)
        × (e.manifest_rows ≡ d.manifest_rows)
        × IsSaved runs e.run_rows u
  unfolding make_ready
  make_ready_ok d e q run u g =
      let (d1, e1, g1) =
        bind_ok
          (write runs manifests W id_of hash_of list_sealed_signals writers hook (write_outbox q) d)
          _ (e, u) g in
      let (_, e2, g2) = bind_ok (hook "outbox") _ (e, u) g1 in
      let (moved_to, same, saved) = save_ok d1 e run u ready "ready" (some (hash_of q)) g2 in
      (moved_to, same ∙ (write_ok d d1 (write_outbox q) e1).1, saved)

  -- A publication that is ready under its identifier, with the hash and the manifest of its request.
  pub record IsPublished (d : Database runs manifests W) (run : ContentPublicationRun) (q : Request)
      : Type 0 where
    pub saved : IsSaved runs d.run_rows run
    pub state : run.state ≡ ready
    pub hash : run.manifest_hash ≡ some (hash_of q)
    pub manifest : HasManifest d.manifest_rows run.publication_run_id q

  step_ok :
      (run u : ContentPublicationRun) (target : PublicationState) (h : Option String)
      → IsNamed id_of run
      → transition id_of run target h ≡ ok u
      → (u.publication_run_id ≡ run.publication_run_id)
        × IsNamed id_of u
        × (u ≡ moved id_of run target h)
  step_ok run u target h n e =
      let (_, _, w) = transition-ok id_of run u target h n e in
      (ap (λ x. x.publication_run_id) w, rw w n, w)

  first_of-filled :
      (h : String) (o : Option String) → filled h ≡ true → first_of (some h) o ≡ some h
  first_of-filled h o f = rw f refl

  row_fresh :
      (d t : Database runs manifests W) (now : ℕ) (q : Request) (new run : ContentPublicationRun)
      → filled (hash_of q) ≡ true
      → IsNamed id_of new
      → publish_row runs manifests W id_of hash_of list_sealed_signals writers hook d now q new none
        ≡ ok (t, run)
      → IsPublished t run q
  unfolding publish_row
  row_fresh d t now q new run f n h =
      let ((d1, r1), e1, h1) =
        bind_ok
          (project runs manifests W id_of hash_of list_sealed_signals writers hook d now q new) _
          (t, run) h in
      let ((d2, r2), e2, e3) =
        bind_ok
          (seal_signals runs manifests W id_of hash_of list_sealed_signals writers hook d1 q r1) _
          (t, run) h1 in
      let (t1, m1) = project_ok d d1 now q new r1 e1 in
      let (t2, m2) = seal_signals_ok d1 d2 q r1 r2 e2 in
      let (t3, m3, saved) = make_ready_ok d2 t q r2 run e3 in
      let (_, n1, _) = step_ok new r1 projecting none n t1 in
      let (i2, n2, _) = step_ok r1 r2 sealing none n1 t2 in
      let (i3, _, w) = step_ok r2 run ready (some (hash_of q)) n2 t3 in
      record {
        saved = saved;
        state = ap (λ x. x.state) w;
        hash = ap (λ x. x.manifest_hash) w ∙ first_of-filled (hash_of q) r2.manifest_hash f;
        manifest = subst₂ (λ x y. HasManifest x y q) (sym (m3 ∙ m2)) (sym (i3 ∙ i2)) m1;
      }

  -- A publication of a new identity that returns leaves its run ready in the table, under its identifier,
  -- with the hash of the request, and the manifest of the request stored for it, where neither the
  -- identifiers nor the hash are empty.
  pub publish_new :
      (d t : Database runs manifests W) (now : ℕ) (q : Request) (run : ContentPublicationRun)
      → ((a b c : String) → filled (id_of a b c) ≡ true)
      → filled (hash_of q) ≡ true
      → runs.scalar (λ r. identified q r) d.run_rows ≡ none
      → publish_once runs manifests W id_of hash_of list_sealed_signals writers hook d now q
        ≡ ok (t, run)
      → IsPublished t run q
  publish_new d t now q run ids f e h =
      let (new, made, g) =
        once_ok runs manifests W id_of hash_of list_sealed_signals writers hook d t now q run h in
      row_fresh d t now q new run f
        (fresh-facts id_of q.content_snapshot_id q.query_hash q.signal_policy_version new
          (ids q.content_snapshot_id q.query_hash q.signal_policy_version) made).0
        (subst
          (λ o.
            publish_row runs manifests W id_of hash_of list_sealed_signals writers hook d now q new
              o
            ≡ ok (t, run))
          e g)
