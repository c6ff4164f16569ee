-- ===== src/Publication/Returns.antt =====
-- When a publication of a new identity returns.
use stock_content.Prelude.{
  ℕ, ◌≡◌, refl, ◌∙◌, arith, String, true, Option, none, some, List, filled, ok, Outcome, eq_refl,
}
use stock_content.Prelude.Table.{Table}
use stock_content.Publication.{
  PublicationState, assembling, projecting, sealing, ready, ContentPublicationRun, transition,
  save_in_session, ManifestRow, save_manifest, manifest_row, Payload, same_identity,
}
use stock_content.Publication.Sealing.{get-put_same}
use stock_content.Publication.UnitOfWork.{
  PublishError, Request, identified, Writers, Database, save, write, snapshot_of, signals_of,
  outbox_of, project, seal_signals, make_ready, publish_row, publish_once,
}
use stock_content.Publication.Fresh.{IsPublished, publish_new}
use stock_content.Publication.Request.{
  IsComplete, run_id, run_at, new_run_returns, transition_returns, save_fresh, save_over,
}

-- a writer that returns, or none
abbrev pub Returns : {W : Type 0} → Option (W → Outcome PublishError W) → Type 0
Returns none = Unit
Returns {W} (some f) = (w : W) → (w' : W) × (f w ≡ ok w')

module _ (runs : Table ContentPublicationRun) (manifests : Table ManifestRow) (W : Type 0)
    (id_of : String → String → String → String) (hash_of : Request → String)
    (list_sealed_signals : W → String → List Payload) (writers : Writers W)
    (hook : String → Outcome PublishError (Unit {0})) where
  save_returns :
      (d : Database runs manifests W) (run u : ContentPublicationRun) (rows : runs.State)
      (target : PublicationState) (name : String) (h : Option String)
      → transition id_of run target h ≡ ok u
      → hook name ≡ ok tt
      → save_in_session runs d.run_rows u ≡ ok rows
      → save runs manifests W id_of hash_of list_sealed_signals writers hook d run target name h
        ≡ ok (record d { run_rows = rows }, u)
  unfolding save
  save_returns d run u rows target name h t k s = rw (t, k, s) refl

  write_returns :
      (d : Database runs manifests W) (f : Option (W → Outcome PublishError W))
      → Returns f
      → (w : W) × (write runs manifests W id_of hash_of list_sealed_signals writers hook f d
          ≡ ok (record d { rest = w }))
  write_returns d none r = (d.rest, refl)
  write_returns d (some f) r = let (w, e) = r d.rest in (w, rw e refl)

  -- the writers of the request return
  pub record AllReturn (q : Request) : Type 0 where
    pub snapshot :
        Returns (snapshot_of runs manifests W id_of hash_of list_sealed_signals writers hook q)
    pub signals :
        (id : String)
        → Returns (signals_of runs manifests W id_of hash_of list_sealed_signals writers hook q id)
    pub outbox :
        Returns (outbox_of runs manifests W id_of hash_of list_sealed_signals writers hook q)

  module _ (q : Request) (c : IsComplete hash_of q) (named : filled (run_id id_of hash_of q) ≡ true)
      (hooked : (name : String) → hook name ≡ ok tt) (fine : AllReturn q) where
    abbrev at : PublicationState → Option String → ℕ → ContentPublicationRun
    at = run_at id_of hash_of q

    same_run :
        (a b : PublicationState) (g h : Option String) (n m : ℕ)
        → same_identity (at a g n) (at b h m) ≡ true
    same_run a b g h n m =
        rw (eq_refl q.content_snapshot_id, eq_refl q.query_hash, eq_refl q.signal_policy_version)
          refl

    project_returns :
        (d : Database runs manifests W) (now : ℕ)
        → runs.get d.run_rows (run_id id_of hash_of q) ≡ none
        → runs.scalar (λ r. identified q r) d.run_rows ≡ none
        → manifests.get d.manifest_rows (run_id id_of hash_of q) ≡ none
        → (e : Database runs manifests W) × (project runs manifests W id_of hash_of
              list_sealed_signals writers hook d now q
              (at assembling none 1)
            ≡ ok (e, at projecting none 2))
          × (runs.get e.run_rows (run_id id_of hash_of q) ≡ some (at projecting none 2))
    unfolding project save_manifest
    project_returns d now g n m =
        let u = at projecting none 2 in
        let rows = runs.put d.run_rows (run_id id_of hash_of q) u in
        let (w, p) =
          write_returns (record d { run_rows = rows })
            (snapshot_of runs manifests W id_of hash_of list_sealed_signals writers hook q)
            fine.snapshot in
        (
          record {
            run_rows = rows;
            manifest_rows =
                manifests.put d.manifest_rows (run_id id_of hash_of q)
                  (manifest_row u q.manifest (hash_of q) now);
            rest = w;
          },
          rw
              (
                save_returns d (at assembling none 1) u rows projecting "projecting" none
                    (transition_returns id_of hash_of q assembling projecting none 1 c named
                      (omega arith) refl refl)
                    (hooked "projecting") (save_fresh runs d.run_rows u g n),
                p,
                save_manifest,
                m,
                hooked "snapshot",
              )
              refl,
          get-put_same runs d.run_rows (run_id id_of hash_of q) u,
        )

    seal_signals_returns :
        (d : Database runs manifests W)
        → runs.get d.run_rows (run_id id_of hash_of q) ≡ some (at projecting none 2)
        → (e : Database runs manifests W) × (seal_signals runs manifests W id_of hash_of
              list_sealed_signals writers hook d q
              (at projecting none 2)
            ≡ ok (e, at sealing none 3))
          × (runs.get e.run_rows (run_id id_of hash_of q) ≡ some (at sealing none 3))
    unfolding seal_signals
    seal_signals_returns d g =
        let u = at sealing none 3 in
        let rows = runs.put d.run_rows (run_id id_of hash_of q) u in
        let (w, p) =
          write_returns (record d { run_rows = rows })
            (signals_of runs manifests W id_of hash_of list_sealed_signals writers hook q
              (run_id id_of hash_of q))
            (fine.signals (run_id id_of hash_of q)) in
        (
          record d { run_rows = rows; rest = w },
          rw
              (
                save_returns d (at projecting none 2) u rows sealing "sealing" none
                    (transition_returns id_of hash_of q projecting sealing none 2 c named
                      (omega arith) refl refl)
                    (hooked "sealing")
                    (save_over runs d.run_rows u (at projecting none 2) g
                      (same_run projecting sealing none none 2 3) refl),
                p,
                hooked "signals",
              )
              refl,
          get-put_same runs d.run_rows (run_id id_of hash_of q) u,
        )

    make_ready_returns :
        (d : Database runs manifests W)
        → runs.get d.run_rows (run_id id_of hash_of q) ≡ some (at sealing none 3)
        → (e : Database runs manifests W) × (make_ready runs manifests W id_of hash_of
              list_sealed_signals writers hook d q
              (at sealing none 3)
            ≡ ok (e, at ready (some (hash_of q)) 4))
    unfolding make_ready
    make_ready_returns d g =
        let h = some (hash_of q) in
        let u = at ready h 4 in
        let rows = runs.put d.run_rows (run_id id_of hash_of q) u in
        let (w, p) =
          write_returns d
            (outbox_of runs manifests W id_of hash_of list_sealed_signals writers hook q)
            fine.outbox in
        (
          record d { run_rows = rows; rest = w },
          rw (p, hooked "outbox")
              (save_returns (record d { rest = w }) (at sealing none 3) u rows ready "ready" h
                (transition_returns id_of hash_of q sealing ready h 3 c named (omega arith) refl
                    c.hash
                  ∙ (rw c.hash refl))
                (hooked "ready")
                (save_over runs d.run_rows u (at sealing none 3) g
                  (same_run sealing ready none h 3 4) refl)),
        )

  -- A publication of a new identity returns, and leaves its run ready in the table with the hash and the
  -- manifest of the request, where neither a run nor a manifest has its identifier yet, the hook and the
  -- writers return, and no identifier, hash or part of the identity is empty.
  pub publish_returns :
      (d : Database runs manifests W) (now : ℕ) (q : Request)
      → ((a b c : String) → filled (id_of a b c) ≡ true)
      → IsComplete hash_of q
      → ((name : String) → hook name ≡ ok tt)
      → AllReturn q
      → runs.get d.run_rows (run_id id_of hash_of q) ≡ none
      → runs.scalar (λ r. identified q r) d.run_rows ≡ none
      → manifests.get d.manifest_rows (run_id id_of hash_of q) ≡ none
      → (t : Database runs manifests W) × (run : ContentPublicationRun) × (publish_once runs
            manifests W id_of hash_of list_sealed_signals writers hook d now q
          ≡ ok (t, run))
        × IsPublished runs manifests W id_of hash_of list_sealed_signals writers hook t run q
  unfolding publish_once publish_row
  publish_returns d now q ids c hooked fine g n m =
      let named = ids q.content_snapshot_id q.query_hash q.signal_policy_version in
      let (d1, e1, g1) = project_returns q c named hooked fine d now g n m in
      let (d2, e2, g2) = seal_signals_returns q c named hooked fine d1 g1 in
      let (d3, e3) = make_ready_returns q c named hooked fine d2 g2 in
      let run = run_at id_of hash_of q ready (some (hash_of q)) 4 in
      let done : publish_once runs manifests W id_of hash_of list_sealed_signals writers hook d now
            q
          ≡ ok (d3, run) =
        rw (publish_once, new_run_returns id_of hash_of q c, n, e1, e2) e3 in
      (
        d3,
        run,
        done,
        publish_new runs manifests W id_of hash_of list_sealed_signals writers hook d d3 now q run
            ids c.hash n done,
      )
