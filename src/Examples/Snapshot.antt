-- ===== src/Examples/Snapshot.antt =====
-- A snapshot of a claim artifact with its source, and the head of its source.
use mathlib.Core.List.{Memᴰ}
use mathlib.Core.List.Memᴰ.{head, tail, cases_cons, not-nil}
use stock_content.Prelude.{
  ◌⊎◌, ◌≡◌, ◌↔◌, ◌≢◌, refl, String, Bool, true, false, none, some, List, [], ◌∷◌, ◌++◌, map, ◌==◌,
  arith, Outcome, ok, inl, inr,
}
use stock_content.Prelude.Table.{assoc_table}
use stock_content.Prelude.Text.{dict_get}
use stock_content.Lifecycle.{text_lt}
use stock_content.Lifecycle.Order.{text_lt_asym, text_lt_between, text_lt_connected}
use stock_content.Snapshot.Closure.{
  ContentArtifactRow, Tables, out_of_fuel, edges_of, has_edge, edges_within, offer_all, from_keys,
  all_parents, keys, each, validate_closure, check_edges, visit, visit_all, load,
  validate_snapshot_artifacts,
}
use stock_content.Snapshot.Closure.Sound.{
  IsSound, validate_snapshot_artifacts_total, validate_snapshot_artifacts_iff,
}
use stock_content.Snapshot.Heads.{
  TextOrder, ContentSourceHeadRow, HeadValues, is_newer, update_latest, upsert,
}
use stock_content.Snapshot.Heads.Latest.{Writer, saves, verifies, run, latest, run_order}
use stock_content.Snapshot.Heads.Verified.{verified, verified_order}
use stock_content.Snapshot.Json.{
  Json, null, text, literal, array, object, Fields, field_get, fields_of,
}
use stock_content.Snapshot.Provenance.{
  v1_schema_version, normalize_producer_manifest, validate_provenance_alignment,
}
use stock_content.Snapshot.Provenance.Alignment.{validate-normalize}
use stock_content.Snapshot.Identity.{
  Columns, has_schema, redundant_values, agrees, validate_identity_against_values,
}
use stock_content.Snapshot.Identity.Reflexive.{IsDict}
use stock_content.Snapshot.Save.{
  ContentSnapshot, SnapshotError, row_of, members_of, has_triple, triples_within, no_repeats,
  validate_snapshot_members, validate_snapshot_row, insert_members, save_row, save_in_session,
}
use stock_content.Snapshot.Save.Again.{S, saving, save_again}
use stock_content.Snapshot.Save.Immutable.{save-Immutable, SameIdentity}

abbrev intact : ContentArtifactRow String → Bool
intact row = true

abbrev edge_id_of : String → String → String
edge_id_of id parent = id

abbrev tables : Tables String
tables = record {
  artifacts =
      ("claims", record { parent_artifact_ids = "source" ∷ []; payload = "claims" })
      ∷ ("source", record { parent_artifact_ids = []; payload = "source" })
      ∷ [];
  edges =
      record {
        edge_id = "claims";
        artifact_id = "claims";
        parent_artifact_id = "source";
        relation = "PARENT";
      }
      ∷ [];
}

abbrev roots : List String
roots = "claims" ∷ "source" ∷ []

accepted : validate_snapshot_artifacts intact edge_id_of false tables roots ≡ ok tt
unfolding validate_snapshot_artifacts load visit_all visit check_edges edges_of edges_within
    has_edge offer_all from_keys all_parents keys each validate_closure
accepted = refl

validate_snapshot_artifacts_iff_example :
    (validate_snapshot_artifacts intact edge_id_of false tables roots ≡ ok tt)
    ↔ ((x : String) → Memᴰ x roots → IsSound intact edge_id_of tables x)
validate_snapshot_artifacts_iff_example =
    validate_snapshot_artifacts_iff intact edge_id_of tables roots

validate_snapshot_artifacts_total_example :
    validate_snapshot_artifacts intact edge_id_of true tables ("claims" ∷ "lost" ∷ [])
    ≢ Outcome.raised out_of_fuel
validate_snapshot_artifacts_total_example =
    validate_snapshot_artifacts_total intact edge_id_of tables ("claims" ∷ "lost" ∷ []) true

abbrev code_points : TextOrder text_lt
code_points = record {
  asym = text_lt_asym;
  between = text_lt_between;
  connected = text_lt_connected;
}

abbrev first : HeadValues
first = record {
  source_identity_hash = "src";
  snapshot_id = "s1";
  verified_snapshot_id = some "s1";
  updated_at = 1;
}

abbrev second : HeadValues
second = record {
  source_identity_hash = "src";
  snapshot_id = "s2";
  verified_snapshot_id = some "s2";
  updated_at = 2;
}

abbrev third : HeadValues
third = record {
  source_identity_hash = "src";
  snapshot_id = "s3";
  verified_snapshot_id = none;
  updated_at = 3;
}

abbrev writes : List (Writer × HeadValues)
writes = (saves, third) ∷ (verifies, first) ∷ []

abbrev writes' : List (Writer × HeadValues)
writes' = (verifies, first) ∷ (saves, third) ∷ []

swap : (c a b : Writer × HeadValues) → Memᴰ c (a ∷ b ∷ []) → Memᴰ c (b ∷ a ∷ [])
swap c a b m = elim (cases_cons m) [
  | inl e ↦ tail (head e)
  | inr t ↦ elim (cases_cons t) [ inl e ↦ head e | inr u ↦ absurd (not-nil u) ]
]

same_writes : (c : Writer × HeadValues) → Memᴰ c writes ↔ Memᴰ c writes'
same_writes c = (swap c (saves, third) (verifies, first), swap c (verifies, first) (saves, third))

run_order_example :
    latest text_lt code_points
      (assoc_table ContentSourceHeadRow)
      "src"
      (dict_get (run text_lt code_points (assoc_table ContentSourceHeadRow) "src" [] writes) "src")
    ≡ latest text_lt code_points (assoc_table ContentSourceHeadRow) "src" (
        dict_get
          (run text_lt code_points (assoc_table ContentSourceHeadRow) "src" [] writes')
          "src")
run_order_example =
    run_order text_lt code_points (assoc_table ContentSourceHeadRow) "src" [] writes writes' refl
      same_writes

verified_order_example :
    let after = λ (calls : List HeadValues).
      (assoc_table ContentSourceHeadRow).get
        (run text_lt code_points
          (assoc_table ContentSourceHeadRow)
          "src"
          []
          (map (λ v. (verifies, v)) calls))
        "src" in
    (verified (after (third ∷ second ∷ first ∷ [])) ≡ some "s2")
    × (verified (after (second ∷ third ∷ first ∷ [])) ≡ some "s1")
verified_order_example =
    verified_order text_lt first third second "s1" "s2" refl refl refl (omega arith) (omega arith)
      code_points (assoc_table ContentSourceHeadRow) "src" [] refl refl refl refl

-- a printing that shows the scalars
abbrev shown : Json → String
shown null = "null"
shown (text s) = s
shown (literal s) = s
shown (array _) = "[]"
shown (object _) = "{}"

abbrev manifest : Json
manifest = object (
    fields_of (
      ("code_sha", text "c")
      ∷ ("configs", object (fields_of (("config_hash", text "h") ∷ [])))
      ∷ []))

normalized :
    normalize_producer_manifest shown
      (object (fields_of []))
      (some (text "c"))
      none
      (ok "unknown")
      "h"
    ≡ ok ("c", "h", manifest)
unfolding normalize_producer_manifest
normalized = refl

validate-normalize_example :
    validate_provenance_alignment shown "c" "h" manifest "content.snapshot.v2" ≡ ok tt
validate-normalize_example =
    validate-normalize shown (λ s. refl) (object (fields_of [])) (some (text "c")) none
      (ok "unknown") "h" "content.snapshot.v2" "c" "h" manifest normalized

abbrev columns : Columns
columns = record {
  source_type = "video";
  source_ref = "v1";
  source_content_hash = "hash";
  artifact_ids = ("claims", "claims") ∷ [];
  quant_market_snapshot_ids = [];
  pipeline_version = "pipeline.v3";
  schema_version = "content.snapshot.v2";
  code_sha = "c";
  config_hash = "h";
  source_artifact_id = "source";
  artifact_root_hash = "root";
  snapshot_kind = "INITIAL";
  parent_snapshot_id = none;
  supersedes_snapshot_id = none;
  producer_manifest = manifest;
}

abbrev stored_identity : Fields
unfolding redundant_values
stored_identity = fields_of (
    redundant_values columns
    ++ map (λ k. (k, null))
        ("content_snapshot_id" ∷ "parser_version" ∷ "asr_model" ∷ "asr_model_version"
          ∷ "vision_model" ∷ "llm_model" ∷ "prompt_bundle_version" ∷ "entity_alias_version"
          ∷ "verification_policy_version" ∷ "model_versions" ∷ "prompt_versions" ∷ "configuration"
          ∷ "external_snapshots" ∷ "policy_versions" ∷ []))

abbrev snapshot : ContentSnapshot
unfolding redundant_values
snapshot = record {
  content_snapshot_id = "s1";
  columns = columns;
  identity = stored_identity;
  created_at = 1;
}

abbrev root_hash_of : List (String × String) → String
root_hash_of l = "root"

abbrev member_id_of : String → String → String → String
member_id_of id slot artifact_id = slot

abbrev source_hash_of : String → String → String
source_hash_of source_type source_ref = source_ref

abbrev upper : String → String
upper s = s

abbrev Saved : Type 0
Saved =
    S intact edge_id_of shown shown root_hash_of member_id_of source_hash_of upper text_lt
      (assoc_table ContentSourceHeadRow)

abbrev empty_session : Saved
empty_session = record { artifacts = tables; snapshots = []; members = []; heads = [] }

abbrev save : Saved → ContentSnapshot → Outcome SnapshotError Saved
save =
    saving intact edge_id_of shown shown root_hash_of member_id_of source_hash_of upper text_lt
      (assoc_table ContentSourceHeadRow)

abbrev after_save : Saved
unfolding redundant_values
after_save = record {
  artifacts = tables;
  snapshots = ("s1", row_of snapshot) ∷ [];
  members =
      (
        "claims",
        record {
          content_snapshot_id = "s1";
          artifact_id = "claims";
          slot = "claims";
          artifact_role = "claims";
        },
      )
      ∷ [];
  heads =
      (
        "v1",
        record { latest_snapshot_id = "s1"; latest_verified_snapshot_id = none; updated_at = 1 },
      )
      ∷ [];
}

is_dict : IsDict snapshot.identity
unfolding redundant_values snapshot stored_identity
is_dict = ground arith

saves_once : save empty_session snapshot ≡ ok after_save
unfolding redundant_values save_in_session save_row validate_snapshot_row
    validate_identity_against_values agrees validate_provenance_alignment validate_snapshot_members
    members_of has_triple triples_within no_repeats insert_members upsert update_latest is_newer
    validate_snapshot_artifacts load visit_all visit check_edges edges_of edges_within has_edge
    offer_all from_keys all_parents keys each validate_closure
saves_once = refl

save_again_example : save after_save snapshot ≡ ok after_save
save_again_example =
    save_again intact edge_id_of shown shown root_hash_of member_id_of source_hash_of upper text_lt
      (assoc_table ContentSourceHeadRow) empty_session after_save snapshot is_dict saves_once

second_version :
    has_schema (field_get (row_of snapshot).identity "schema_version") v1_schema_version ≡ false
unfolding redundant_values snapshot stored_identity
second_version = refl

stored : dict_get after_save.snapshots snapshot.content_snapshot_id ≡ some (row_of snapshot)
unfolding after_save snapshot
stored = refl

save-Immutable_example :
    (dict_get after_save.snapshots snapshot.content_snapshot_id ≡ some (row_of snapshot))
    × ((snapshot.content_snapshot_id == snapshot.content_snapshot_id ≡ false)
        ⊎ ((has_schema (field_get (row_of snapshot).identity "schema_version") v1_schema_version
              ≡ true)
            ⊎ SameIdentity intact edge_id_of shown shown root_hash_of member_id_of source_hash_of
                upper text_lt
                (assoc_table ContentSourceHeadRow)
                (row_of snapshot)
                snapshot))
save-Immutable_example =
    save-Immutable intact edge_id_of shown shown root_hash_of member_id_of source_hash_of upper
      text_lt (assoc_table ContentSourceHeadRow) after_save after_save snapshot
      snapshot.content_snapshot_id (row_of snapshot) save_again_example stored
