-- ===== src/Examples/Publication/UnitOfWork.antt =====
-- A publication of a new identity, and the same publication again.
use stock_content.Prelude.{◌≡◌, refl, String, none, some, List, [], ◌∷◌, Outcome, ok}
use stock_content.Prelude.Table.{assoc_table}
use stock_content.Publication.{
  PublicationState, save_manifest, ContentPublicationRun, ManifestRow, Payload, post_init, new_run,
  transition, save_in_session,
}
use stock_content.Publication.UnitOfWork.{
  PublishError, Request, Writers, Database, signal_keyed_set, verify_sealed, save, project,
  seal_signals, make_ready, publish_row, publish_once,
}
use stock_content.Publication.Idempotence.{SealedAs, publish_again}
use stock_content.Publication.Fresh.{IsPublished, publish_new}
use stock_content.Publication.Returns.{publish_returns}

abbrev one_signal : Payload
one_signal = record {
  signal_id = some "signal";
  claim_id = none;
  signal_schema_version = none;
  schema_version = none;
  rest = "{}";
}

abbrev request : Request
request = record {
  content_snapshot_id = "s";
  query_hash = "q";
  signal_policy_version = "p";
  manifest = "{}";
  signals = one_signal ∷ [];
  outbox_events = [];
}

abbrev hash_of : Request → String
hash_of q = "sealed"

-- the other tables are the sealed signals
abbrev listed : List Payload → String → List Payload
listed w run_id = w

abbrev writers : Writers (List Payload)
writers = record {
  snapshot_writer = none;
  signal_writer = some (λ payloads run_id w. ok payloads);
  outbox_writer = some (λ events w. ok w);
}

abbrev hook : String → Outcome PublishError (Unit {0})
hook name = ok tt

abbrev empty : Database (assoc_table ContentPublicationRun) (assoc_table ManifestRow) (List Payload)
empty = record { run_rows = []; manifest_rows = []; rest = [] }

abbrev published_run : ContentPublicationRun
published_run = record {
  content_snapshot_id = "s";
  query_hash = "q";
  signal_policy_version = "p";
  state = PublicationState.ready;
  manifest_hash = some "sealed";
  version = 4;
  publication_run_id = "run";
}

abbrev published_database :
    Database (assoc_table ContentPublicationRun) (assoc_table ManifestRow) (List Payload)
published_database = record {
  run_rows = ("run", published_run) ∷ [];
  manifest_rows =
      (
        "run",
        record {
          publication_run_id = "run";
          content_snapshot_id = "s";
          query_hash = "q";
          signal_policy_version = "p";
          manifest_hash = "sealed";
          manifest = "{}";
          created_at = 7;
        },
      )
      ∷ [];
  rest = one_signal ∷ [];
}

abbrev run_id_of : String → String → String → String
run_id_of a b c = "run"

published_first :
    publish_once
      (assoc_table ContentPublicationRun)
      (assoc_table ManifestRow)
      (List Payload)
      run_id_of
      hash_of
      listed
      writers
      hook
      empty
      7
      request
    ≡ ok (published_database, published_run)
unfolding publish_once publish_row project seal_signals make_ready save save_in_session
    save_manifest transition new_run post_init
published_first = refl

publish_new_example :
    IsPublished
      (assoc_table ContentPublicationRun)
      (assoc_table ManifestRow)
      (List Payload)
      run_id_of
      hash_of
      listed
      writers
      hook
      published_database
      published_run
      request
publish_new_example =
    publish_new (assoc_table ContentPublicationRun) (assoc_table ManifestRow) (List Payload)
      run_id_of hash_of listed writers hook empty published_database 7 request published_run
      (λ a b c. refl) refl refl published_first

published_again :
    publish_once
      (assoc_table ContentPublicationRun)
      (assoc_table ManifestRow)
      (List Payload)
      run_id_of
      hash_of
      listed
      writers
      hook
      published_database
      9
      request
    ≡ ok (published_database, published_run)
unfolding publish_once publish_row verify_sealed signal_keyed_set new_run post_init
published_again = refl

publish_again_example :
    (published_database ≡ published_database)
    × (published_run ≡ published_run)
    × SealedAs
        (assoc_table ContentPublicationRun)
        (assoc_table ManifestRow)
        (List Payload)
        run_id_of
        hash_of
        listed
        published_database
        published_run
        request
publish_again_example =
    publish_again (assoc_table ContentPublicationRun) (assoc_table ManifestRow) (List Payload)
      run_id_of hash_of listed writers hook published_database published_database 9 request "run"
      published_run published_run refl published_again

publish_returns_example :
    (t : Database (assoc_table ContentPublicationRun) (assoc_table ManifestRow) (List Payload))
    × (run : ContentPublicationRun) × (publish_once
          (assoc_table ContentPublicationRun)
          (assoc_table ManifestRow)
          (List Payload)
          run_id_of
          hash_of
          listed
          writers
          hook
          empty
          7
          request
        ≡ ok (t, run))
    × IsPublished
        (assoc_table ContentPublicationRun)
        (assoc_table ManifestRow)
        (List Payload)
        run_id_of
        hash_of
        listed
        writers
        hook
        t
        run
        request
publish_returns_example =
    publish_returns (assoc_table ContentPublicationRun) (assoc_table ManifestRow) (List Payload)
      run_id_of hash_of listed writers hook empty 7 request (λ a b c. refl)
      (record { snapshot = refl; query = refl; policy = refl; hash = refl }) (λ name. refl)
      (record { snapshot = tt; signals = λ id w. (one_signal ∷ [], refl); outbox = λ w. (w, refl) })
      refl refl refl
