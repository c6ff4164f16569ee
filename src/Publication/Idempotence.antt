-- ===== src/Publication/Idempotence.antt =====
-- What the publication unit of work answers to a publication that is there, and what it leaves of a
-- new one.
use stock_content.Prelude.{
  ℕ, ◌≡◌, subst, String, true, Option, none, some, List, arith, opt_eq, eq_iff, Outcome, ok, raised,
  ◌>>◌, found, require, bind_ok, require_ok,
}
use stock_content.Prelude.Table.{Table}
use stock_content.Prelude.Same.{opt_eq→≡}
use stock_content.Publication.{
  ContentPublicationRun, PublicationError, new_run, ManifestRow, Payload,
}
use stock_content.Publication.UnitOfWork.{
  PublishError, publication_conflict, lift, Request, identified, signal_keyed_set, same_dict,
  Writers, Database, verify_sealed, publish_row, publish_once,
}

pub lift_ok : {A : Type 0} (m : Outcome PublicationError A) (a : A) → lift m ≡ ok a → m ≡ ok a
lift_ok (ok b) a h = ground arith
lift_ok (raised e) a h = cc

found_ok :
    {A : Type 0} (o : Option A) (e : PublicationError) (a : A) → found o e ≡ ok a → o ≡ some a
found_ok none e a h = cc
found_ok (some b) e a h = ground arith

module _ (runs : Table ContentPublicationRun) (manifests : Table ManifestRow) (W : Type 0)
    (id_of : String → String → String → String) (hash_of : Request → String)
    (list_sealed_signals : W → String → List Payload) where
  -- The sealed projection of the run is that of the request: its manifest, its signals by identifier, and
  -- the hash of both.
  pub record SealedAs (d : Database runs manifests W) (run : ContentPublicationRun) (q : Request)
      : Type 0 where
    pub row : ManifestRow
    pub there : manifests.get d.manifest_rows run.publication_run_id ≡ some row
    pub manifest : row.manifest ≡ q.manifest
    pub stored : List (String × Payload)
    pub given : List (String × Payload)
    pub stored_signals :
        signal_keyed_set (list_sealed_signals d.rest run.publication_run_id) ≡ ok stored
    pub given_signals : signal_keyed_set q.signals ≡ ok given
    pub signals : same_dict stored given ≡ true
    pub hash : run.manifest_hash ≡ some (hash_of q)

  verify_sealed-SealedAs :
      (d : Database runs manifests W) (run : ContentPublicationRun) (q : Request)
      → verify_sealed runs manifests W id_of hash_of list_sealed_signals d run q (hash_of q) ≡ ok tt
      → SealedAs d run q
  unfolding verify_sealed
  verify_sealed-SealedAs d run q h =
      let (row, e1, h1) = bind_ok _ _ tt h in
      let (_, e2, h2) = bind_ok _ _ tt h1 in
      let (stored, e3, h3) = bind_ok _ _ tt h2 in
      let (given, e4, h4) = bind_ok _ _ tt h3 in
      let (_, e5, e6) = bind_ok _ _ tt h4 in
      record {
        row = row;
        there = found_ok _ _ row e1;
        manifest = (eq_iff row.manifest q.manifest).0 (require_ok _ _ e2);
        stored = stored;
        given = given;
        stored_signals = e3;
        given_signals = e4;
        signals = require_ok _ _ e5;
        hash = opt_eq→≡ run.manifest_hash (some (hash_of q)) (require_ok _ _ e6);
      }

  module _ (writers : Writers W) (hook : String → Outcome PublishError (Unit {0})) where
    -- the transaction of a request that returns
    pub once_ok :
        (d t : Database runs manifests W) (now : ℕ) (q : Request) (run : ContentPublicationRun)
        → publish_once runs manifests W id_of hash_of list_sealed_signals writers hook d now q
          ≡ ok (t, run)
        → (new : ContentPublicationRun) × (new_run id_of q.content_snapshot_id q.query_hash
              q.signal_policy_version
            ≡ ok new)
          × (publish_row runs manifests W id_of hash_of list_sealed_signals writers hook d now q new
                (runs.scalar (λ row. identified q row) d.run_rows)
              ≡ ok (t, run))
    unfolding publish_once
    once_ok d t now q run h =
        let (new, e, g) =
          bind_ok (lift (new_run id_of q.content_snapshot_id q.query_hash q.signal_policy_version))
            (λ new.
              publish_row runs manifests W id_of hash_of list_sealed_signals writers hook d now q
                new (runs.scalar (λ row. identified q row) d.run_rows))
            (t, run) h in
        (new, lift_ok _ new e, g)

    row_again :
        (d t : Database runs manifests W) (now : ℕ) (q : Request) (k : String)
        (new row run : ContentPublicationRun)
        → publish_row runs manifests W id_of hash_of list_sealed_signals writers hook d now q new
            (some (k, row))
          ≡ ok (t, run)
        → (t ≡ d) × (run ≡ row) × SealedAs d row q
    unfolding publish_row
    row_again d t now q k new row run h =
        let verified =
          lift (
            verify_sealed runs manifests W id_of hash_of list_sealed_signals d row q (hash_of q)) in
        let same : Outcome PublishError (Unit {0}) =
          require (opt_eq row.manifest_hash (some (hash_of q))) publication_conflict in
        let (_, _, h1) = bind_ok same (λ _. verified >> ok (d, row)) (t, run) h in
        let (_, v, h2) = bind_ok verified (λ _. ok (d, row)) (t, run) h1 in
        (
          (let p : t ≡ d = cc in p),
          (let p : run ≡ row = cc in p),
          verify_sealed-SealedAs d row q (lift_ok _ tt v),
        )

    -- A publication whose identity is there is answered by the run that is there, or refused: it returns
    -- only where the sealed projection is that of the request, and it changes nothing.
    pub publish_again :
        (d t : Database runs manifests W) (now : ℕ) (q : Request) (k : String)
        (row run : ContentPublicationRun)
        → runs.scalar (λ r. identified q r) d.run_rows ≡ some (k, row)
        → publish_once runs manifests W id_of hash_of list_sealed_signals writers hook d now q
          ≡ ok (t, run)
        → (t ≡ d) × (run ≡ row) × SealedAs d row q
    publish_again d t now q k row run e h =
        let (new, _, g) = once_ok d t now q run h in
        row_again d t now q k new row run (
          subst
            (λ o.
              publish_row runs manifests W id_of hash_of list_sealed_signals writers hook d now q
                new o
              ≡ ok (t, run))
            e g)
