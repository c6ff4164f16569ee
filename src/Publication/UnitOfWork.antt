-- ===== src/Publication/UnitOfWork.antt =====
-- The publication unit of work: src/stock_content/application/publication_unit_of_work.py over the SQL
-- repository, with its check of a sealed projection. The writers and the hook are arguments; a writer
-- acts on the tables other than those of the runs and of the manifests, from which the sealed signals
-- of a run are listed. The transaction commits where `publish` returns and rolls back where it raises.
use stock_content.Prelude.{
  ℕ, String, Bool, true, false, ◌&&◌, not, Option, none, some, List, [], ◌∷◌, opt_eq, filled,
  is_some, ◌==◌, Outcome, ok, raised, ◌>>=◌, ◌>>◌, found, require,
}
use stock_content.Prelude.Table.{Table}
use stock_content.Prelude.Text.{dict_get}
use stock_content.Publication.{
  PublicationState, projecting, sealing, ready, ContentPublicationRun, PublicationError,
  value_error, integrity_error, new_run, transition, save_in_session, ManifestRow, save_manifest,
  Payload, same_payload, id_text,
}

pub data PublishError : Type 0 where
  repository_error : PublicationError → PublishError
  publication_conflict : PublishError
  callback_error : String → PublishError

abbrev pub lift {ℓ} : {A : Type ℓ} → Outcome PublicationError A → Outcome PublishError A
lift (ok a) = ok a
lift (raised e) = raised (repository_error e)

pub record Request : Type 0 where
  pub content_snapshot_id : String
  pub query_hash : String
  pub signal_policy_version : String
  pub manifest : String
  pub signals : List Payload
  pub outbox_events : List String

-- the query of `get_by_identity_in_session`
abbrev pub identified : Request → ContentPublicationRun → Bool
identified q row =
    row.content_snapshot_id == q.content_snapshot_id
    && row.query_hash == q.query_hash
    && row.signal_policy_version == q.signal_policy_version

-- `_signal_keyed_set`
unfoldable pub signal_keyed_set : List Payload → Outcome PublicationError (List (String × Payload))
signal_keyed_set [] = ok []
signal_keyed_set (p ∷ ps) = do
  rest ← signal_keyed_set ps
  require (filled (id_text p)) value_error
  require (not (is_some (dict_get rest (id_text p)))) value_error
  ok ((id_text p, p) ∷ rest)

abbrev pub is_payload : Option Payload → Payload → Bool
is_payload none p = false
is_payload (some q) p = same_payload q p

abbrev pub all_in : List (String × Payload) → List (String × Payload) → Bool
all_in [] d = true
all_in ((k, p) ∷ l) d = is_payload (dict_get d k) p && all_in l d

-- equality of dictionaries
abbrev pub same_dict : List (String × Payload) → List (String × Payload) → Bool
same_dict a b = all_in a b && all_in b a

-- the writers of the unit of work, over the other tables `W`
pub record Writers (W : Type 0) : Type 0 where
  pub snapshot_writer : Option (String → String → W → Outcome PublishError W)
  pub signal_writer : Option (List Payload → String → W → Outcome PublishError W)
  pub outbox_writer : Option (List String → W → Outcome PublishError W)

module _ (runs : Table ContentPublicationRun) (manifests : Table ManifestRow) (W : Type 0) where
  pub record Database : Type 0 where
    pub run_rows : runs.State
    pub manifest_rows : manifests.State
    pub rest : W

  module _ (id_of : String → String → String → String) (hash_of : Request → String)
      (list_sealed_signals : W → String → List Payload) where
    -- `verify_sealed_in_session`
    unfoldable pub verify_sealed :
        Database → ContentPublicationRun → Request → String → Outcome PublicationError (Unit {0})
    verify_sealed d run q sealed_hash = do
      row ← found (manifests.get d.manifest_rows run.publication_run_id) value_error
      require (row.manifest == q.manifest) value_error
      stored ← signal_keyed_set (list_sealed_signals d.rest run.publication_run_id)
      given ← signal_keyed_set q.signals
      require (same_dict stored given) value_error
      require (opt_eq run.manifest_hash (some sealed_hash)) value_error

    module _ (writers : Writers W) (hook : String → Outcome PublishError (Unit {0})) where
      -- `_save`
      unfoldable pub save :
          Database
          → ContentPublicationRun
          → PublicationState
          → String
          → Option String
          → Outcome PublishError (Database × ContentPublicationRun)
      save d run state name manifest_hash = do
        updated ← lift (transition id_of run state manifest_hash)
        hook name
        rows ← lift (save_in_session runs d.run_rows updated)
        ok (record d { run_rows = rows }, updated)

      abbrev pub write :
          Option (W → Outcome PublishError W) → Database → Outcome PublishError Database
      write none d = ok d
      write (some f) d = f d.rest >>= λ w. ok (record d { rest = w })

      abbrev pub snapshot_of : Request → Option (W → Outcome PublishError W)
      snapshot_of q = elim writers.snapshot_writer [
        | none ↦ none
        | some f ↦ some (f q.content_snapshot_id q.manifest)
      ]

      abbrev pub signals_of : Request → String → Option (W → Outcome PublishError W)
      signals_of q run_id = elim writers.signal_writer [
        | none ↦ none
        | some f ↦ some (f q.signals run_id)
      ]

      abbrev pub outbox_of : Request → Option (W → Outcome PublishError W)
      outbox_of q = elim writers.outbox_writer [ none ↦ none | some f ↦ some (f q.outbox_events) ]

      -- the three parts of the transaction of a new run
      unfoldable pub project :
          Database
          → ℕ
          → Request
          → ContentPublicationRun
          → Outcome PublishError (Database × ContentPublicationRun)
      project d now q run = do
        r ← save d run projecting "projecting" none
        e ← write (snapshot_of q) r.0
        rows ← lift (save_manifest manifests e.manifest_rows r.1 q.manifest (hash_of q) now)
        hook "snapshot"
        ok (record e { manifest_rows = rows }, r.1)

      unfoldable pub seal_signals :
          Database
          → Request
          → ContentPublicationRun
          → Outcome PublishError (Database × ContentPublicationRun)
      seal_signals d q run = do
        r ← save d run sealing "sealing" none
        e ← write (signals_of q r.1.publication_run_id) r.0
        hook "signals"
        ok (e, r.1)

      unfoldable pub make_ready :
          Database
          → Request
          → ContentPublicationRun
          → Outcome PublishError (Database × ContentPublicationRun)
      make_ready d q run = do
        e ← write (outbox_of q) d
        hook "outbox"
        save e run ready "ready" (some (hash_of q))

      -- what the transaction does with what its query returned
      unfoldable pub publish_row :
          Database
          → ℕ
          → Request
          → ContentPublicationRun
          → Option (String × ContentPublicationRun)
          → Outcome PublishError (Database × ContentPublicationRun)
      publish_row d now q run (some (_, existing)) =
          require (opt_eq existing.manifest_hash (some (hash_of q))) publication_conflict
          >> (lift (verify_sealed d existing q (hash_of q)) >> ok (d, existing))
      publish_row d now q run none =
          project d now q run >>= λ r. (seal_signals r.0 q r.1 >>= λ t. make_ready t.0 q t.1)

      -- `publish` up to its handlers
      unfoldable pub publish_once :
          Database → ℕ → Request → Outcome PublishError (Database × ContentPublicationRun)
      publish_once d now q = do
        run ← lift (new_run id_of q.content_snapshot_id q.query_hash q.signal_policy_version)
        publish_row d now q run (runs.scalar (λ row. identified q row) d.run_rows)

      -- the handler of an `IntegrityError`, where `seen` is the database after the rollback
      abbrev pub recover :
          Database
          → Request
          → Option (String × ContentPublicationRun)
          → Outcome PublishError (Database × ContentPublicationRun)
      recover seen q none = raised (repository_error integrity_error)
      recover seen q (some (_, existing)) =
          require (opt_eq existing.manifest_hash (some (hash_of q))) publication_conflict
          >> ok (seen, existing)

      -- the result of the transaction, with the handler
      abbrev pub handled :
          Database
          → Request
          → Outcome PublishError (Database × ContentPublicationRun)
          → Outcome PublishError (Database × ContentPublicationRun)
      handled seen q (ok r) = ok r
      handled seen q (raised (repository_error integrity_error)) =
          recover seen q (runs.scalar (λ row. identified q row) seen.run_rows)
      handled seen q (raised e) = raised e

      unfoldable pub publish :
          Database
          → Database
          → ℕ
          → Request
          → Outcome PublishError (Database × ContentPublicationRun)
      publish d seen now q = handled seen q (publish_once d now q)
