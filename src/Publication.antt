-- ===== src/Publication.antt =====
-- Publication runs: src/stock_content/domain/publication_run.py and
-- src/stock_content/adapters/postgres/repositories/publication_repository.py. Manifests and
-- payloads that are only stored and compared are texts; the SHA-256 identities are parameters. The
-- proofs are in the modules below.
pub mod History
pub mod Sealing
pub mod Sealable
pub mod UnitOfWork
pub mod Idempotence
pub mod Fresh
pub mod Request
pub mod Returns
use stock_content.Prelude.{
  ℕ, ◌+◌, String, Bool, true, false, ◌&&◌, ◌||◌, not, Option, none, some, List, [], ◌∷◌, leb,
  if◌then◌else◌, opt_eq, filled, is_some, or_else, ◌==◌, Outcome, ok, raised, ◌>>=◌, ◌>>◌, found,
  require,
}
use stock_content.Prelude.Table.{Table}

pub data PublicationState : Type 0 where
  assembling projecting sealing ready publishing published failed_retryable failed_terminal :
      PublicationState

pub record ContentPublicationRun : Type 0 where
  pub content_snapshot_id : String
  pub query_hash : String
  pub signal_policy_version : String
  pub state : PublicationState
  pub manifest_hash : Option String
  pub version : ℕ
  pub publication_run_id : String

pub data PublicationError : Type 0 where
  value_error integrity_error : PublicationError

-- `target in _TRANSITIONS[state]`
abbrev pub leads_to : PublicationState → PublicationState → Bool
leads_to assembling projecting = true
leads_to assembling failed_retryable = true
leads_to assembling failed_terminal = true
leads_to projecting sealing = true
leads_to projecting failed_retryable = true
leads_to projecting failed_terminal = true
leads_to sealing ready = true
leads_to sealing failed_retryable = true
leads_to sealing failed_terminal = true
leads_to ready publishing = true
leads_to ready failed_retryable = true
leads_to publishing published = true
leads_to publishing failed_retryable = true
leads_to failed_retryable assembling = true
leads_to failed_retryable projecting = true
leads_to failed_retryable sealing = true
leads_to failed_retryable publishing = true
leads_to failed_retryable failed_terminal = true
leads_to _ _ = false

abbrev pub same_state : PublicationState → PublicationState → Bool
same_state assembling assembling = true
same_state projecting projecting = true
same_state sealing sealing = true
same_state ready ready = true
same_state publishing publishing = true
same_state published published = true
same_state failed_retryable failed_retryable = true
same_state failed_terminal failed_terminal = true
same_state _ _ = false

abbrev pub is_ready : PublicationState → Bool
is_ready ready = true
is_ready _ = false

-- the truth value of an optional text
abbrev pub present : Option String → Bool
present none = false
present (some s) = filled s

-- `a or b` of optional texts
abbrev pub first_of : Option String → Option String → Option String
first_of a b = if present a then a else b

abbrev pub count : Bool → ℕ
count true = 1
count false = 0

-- `a is not None and b is not None and a != b`
abbrev pub conflicting : Option String → Option String → Bool
conflicting none b = false
conflicting (some a) none = false
conflicting (some a) (some b) = not (a == b)

module _ (id_of : String → String → String → String) where
  abbrev expected : ContentPublicationRun → String
  expected run = id_of run.content_snapshot_id run.query_hash run.signal_policy_version

  -- `__post_init__`
  unfoldable pub post_init : ContentPublicationRun → Outcome PublicationError ContentPublicationRun
  post_init run = do
    require
        (filled run.content_snapshot_id
          && filled run.query_hash
          && filled run.signal_policy_version)
        value_error
    require (not (filled run.publication_run_id) || run.publication_run_id == expected run)
        value_error
    require (leb 1 run.version) value_error
    ok (record run {
      publication_run_id =
          if filled run.publication_run_id then run.publication_run_id else expected run;
    })

  -- `ContentPublicationRun(snapshot_id, query_hash, policy)`
  unfoldable pub new_run : String → String → String → Outcome PublicationError ContentPublicationRun
  new_run snapshot_id query_hash policy = post_init (record {
    content_snapshot_id = snapshot_id;
    query_hash = query_hash;
    signal_policy_version = policy;
    state = assembling;
    manifest_hash = none;
    version = 1;
    publication_run_id = "";
  })

  unfoldable pub transition :
      ContentPublicationRun
      → PublicationState
      → Option String
      → Outcome PublicationError ContentPublicationRun
  transition run target manifest_hash = do
    require (same_state target run.state || leads_to run.state target) value_error
    require (not (is_ready target) || present manifest_hash || present run.manifest_hash)
        value_error
    post_init (record run {
      state = target;
      manifest_hash = first_of manifest_hash run.manifest_hash;
      version = run.version + count (not (same_state target run.state));
    })

pub record ManifestRow : Type 0 where
  pub publication_run_id : String
  pub content_snapshot_id : String
  pub query_hash : String
  pub signal_policy_version : String
  pub manifest_hash : String
  pub manifest : String
  pub created_at : ℕ

-- The keys that the repository reads of a signal, and the rest of it as text.
pub record Payload : Type 0 where
  pub signal_id : Option String
  pub claim_id : Option String
  pub signal_schema_version : Option String
  pub schema_version : Option String
  pub rest : String

pub record SealedSignalRow : Type 0 where
  pub sealed_signal_id : String
  pub publication_run_id : String
  pub signal_id : String
  pub content_snapshot_id : String
  pub claim_id : Option String
  pub schema_version : String
  pub payload : Payload
  pub created_at : ℕ

abbrev pub same_payload : Payload → Payload → Bool
same_payload a b =
    opt_eq a.signal_id b.signal_id
    && opt_eq a.claim_id b.claim_id
    && opt_eq a.signal_schema_version b.signal_schema_version
    && opt_eq a.schema_version b.schema_version
    && a.rest == b.rest

abbrev pub same_identity : ContentPublicationRun → ContentPublicationRun → Bool
same_identity row run =
    row.content_snapshot_id == run.content_snapshot_id
    && row.query_hash == run.query_hash
    && row.signal_policy_version == run.signal_policy_version

-- the unique columns of a sealed signal
abbrev pub sealed_for : ContentPublicationRun → String → SealedSignalRow → Bool
sealed_for run signal_id row =
    row.publication_run_id == run.publication_run_id && row.signal_id == signal_id

-- `str(payload.get("signal_id") or "")`
abbrev pub id_text : Payload → String
id_text payload = or_else payload.signal_id ""

-- A row of `ContentPublicationRunRow` has the fields of a run.
module _ (runs : Table ContentPublicationRun) where
  unfoldable pub save_in_session :
      runs.State → ContentPublicationRun → Outcome PublicationError runs.State
  save_in_session s run = elim (runs.get s run.publication_run_id) [
    | none ↦
        if is_some (runs.scalar (λ row. same_identity row run) s)
        then raised integrity_error
        else ok (runs.put s run.publication_run_id run)
    | some row ↦
        require (same_identity row run) value_error
        >> (require (not (conflicting row.manifest_hash run.manifest_hash)) value_error
            >> ok (
                runs.put s run.publication_run_id (record row {
                  state = run.state;
                  manifest_hash = run.manifest_hash;
                  version = run.version;
                })))
  ]

abbrev pub manifest_row : ContentPublicationRun → String → String → ℕ → ManifestRow
manifest_row run manifest sealed_hash now = record {
  publication_run_id = run.publication_run_id;
  content_snapshot_id = run.content_snapshot_id;
  query_hash = run.query_hash;
  signal_policy_version = run.signal_policy_version;
  manifest_hash = sealed_hash;
  manifest = manifest;
  created_at = now;
}

module _ (manifests : Table ManifestRow) where
  unfoldable pub save_manifest :
      manifests.State
      → ContentPublicationRun
      → String
      → String
      → ℕ
      → Outcome PublicationError manifests.State
  save_manifest s run manifest sealed_hash now = elim (manifests.get s run.publication_run_id) [
    | none ↦ ok (manifests.put s run.publication_run_id (manifest_row run manifest sealed_hash now))
    | some row ↦
        require (row.manifest_hash == sealed_hash && row.manifest == manifest) value_error >> ok s
  ]

abbrev pub sealed_row : String → ContentPublicationRun → Payload → ℕ → SealedSignalRow
sealed_row sealed_id run payload now = record {
  sealed_signal_id = sealed_id;
  publication_run_id = run.publication_run_id;
  signal_id = id_text payload;
  content_snapshot_id = run.content_snapshot_id;
  claim_id = payload.claim_id;
  schema_version = or_else (first_of payload.signal_schema_version payload.schema_version) "";
  payload = payload;
  created_at = now;
}

module _ (signals : Table SealedSignalRow) (sealed_id_of : String → String → String) where
  -- the body of the loop of `save_sealed_signals_in_session`
  unfoldable pub seal :
      signals.State → ContentPublicationRun → ℕ → Payload → Outcome PublicationError signals.State
  seal s run now payload = do
    require (filled (id_text payload)) value_error
    let sealed_id = sealed_id_of run.publication_run_id (id_text payload) in
        elim (signals.get s sealed_id) [
          | none ↦
              if is_some (signals.scalar (λ row. sealed_for run (id_text payload) row) s)
              then raised integrity_error
              else ok (signals.put s sealed_id (sealed_row sealed_id run payload now))
          | some row ↦ require (same_payload row.payload payload) value_error >> ok s
        ]

  unfoldable pub save_sealed_signals :
      signals.State
      → ContentPublicationRun
      → ℕ
      → List Payload
      → Outcome PublicationError signals.State
  save_sealed_signals s run now [] = ok s
  save_sealed_signals s run now (p ∷ ps) =
      seal s run now p >>= λ t. save_sealed_signals t run now ps
