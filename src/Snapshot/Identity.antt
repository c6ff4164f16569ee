-- ===== src/Snapshot/Identity.antt =====
-- The identity of a snapshot and its redundant columns: `_validate_identity_against_values`,
-- `_compare_existing_identity` and `_compare_candidate_to_existing_row` of snapshot_repository.py.
-- `canonical_json`, the hash of the artifact identifiers and `str` of a value of JSON are parameters.
pub mod Reflexive
use stock_content.Prelude.{
  String, Bool, true, false, ◌&&◌, not, ◌||◌, Option, none, some, List, [], ◌∷◌, ◌++◌, map,
  if◌then◌else◌, one_of, filled, ◌==◌, is_some, or_else, Outcome, ok, raised, ◌>>=◌, ◌>>◌, require,
}
use stock_content.Prelude.Text.{dict_get}
use stock_content.Snapshot.Json.{
  Json, null, text, array, object, Items, empty, item, Fields, no_fields, field, field_get,
  fields_of,
}
use stock_content.Snapshot.Provenance.{
  IdentityError, schema_differs, unsupported_schema, fields_missing, id_differs, field_disagrees,
  source_differs, root_differs, different_payload, column_omitted, column_changed,
  v1_schema_version, validate_provenance_alignment,
}

-- the columns of `_ROW_IDENTITY_FIELDS`
pub record Columns : Type 0 where
  pub source_type : String
  pub source_ref : String
  pub source_content_hash : String
  pub artifact_ids : List (String × String)
  pub quant_market_snapshot_ids : List String
  pub pipeline_version : String
  pub schema_version : String
  pub code_sha : String
  pub config_hash : String
  pub source_artifact_id : String
  pub artifact_root_hash : String
  pub snapshot_kind : String
  pub parent_snapshot_id : Option String
  pub supersedes_snapshot_id : Option String
  pub producer_manifest : Json

abbrev pub text_map : List (String × String) → Json
text_map l = object (fields_of (map (λ (p : String × String). (p.0, text p.1)) l))

abbrev pub text_items : List String → Items
text_items [] = empty
text_items (s ∷ l) = item (text s) (text_items l)

abbrev pub text_or_null : Option String → Json
text_or_null none = null
text_or_null (some s) = text s

-- `_row_redundant_values`
unfoldable pub redundant_values : Columns → List (String × Json)
redundant_values c =
    ("source_type", text c.source_type)
    ∷ ("source_ref", text c.source_ref)
    ∷ ("source_content_hash", text c.source_content_hash)
    ∷ ("artifact_ids", text_map c.artifact_ids)
    ∷ ("quant_market_snapshot_ids", array (text_items c.quant_market_snapshot_ids))
    ∷ ("pipeline_version", text c.pipeline_version)
    ∷ ("schema_version", text c.schema_version)
    ∷ ("code_sha", text c.code_sha)
    ∷ ("config_hash", text c.config_hash)
    ∷ ("source_artifact_id", text c.source_artifact_id)
    ∷ ("artifact_root_hash", text c.artifact_root_hash)
    ∷ ("snapshot_kind", text c.snapshot_kind)
    ∷ ("parent_snapshot_id", text_or_null c.parent_snapshot_id)
    ∷ ("supersedes_snapshot_id", text_or_null c.supersedes_snapshot_id)
    ∷ ("producer_manifest", c.producer_manifest)
    ∷ []

abbrev pub v2_schema_version : String
v2_schema_version = "content.snapshot.v2"

abbrev pub additive_identity_fields : List String
additive_identity_fields =
    "source_artifact_id" ∷ "artifact_root_hash" ∷ "snapshot_kind" ∷ "parent_snapshot_id"
    ∷ "supersedes_snapshot_id" ∷ "producer_manifest" ∷ "model_versions" ∷ "prompt_versions"
    ∷ "configuration" ∷ "external_snapshots" ∷ "policy_versions" ∷ []

abbrev pub core_identity_fields : List String
core_identity_fields =
    "content_snapshot_id" ∷ "source_type" ∷ "source_ref" ∷ "source_content_hash" ∷ "artifact_ids"
    ∷ "quant_market_snapshot_ids" ∷ "pipeline_version" ∷ "schema_version" ∷ "code_sha"
    ∷ "config_hash" ∷ "parser_version" ∷ "asr_model" ∷ "asr_model_version" ∷ "vision_model"
    ∷ "llm_model" ∷ "prompt_bundle_version" ∷ "entity_alias_version" ∷ "verification_policy_version"
    ∷ []

abbrev pub has_all : Fields → List String → Bool
has_all d [] = true
has_all d (k ∷ l) = is_some (field_get d k) && has_all d l

-- the schema that a dictionary names
abbrev pub has_schema : Option Json → String → Bool
has_schema (some (text s)) v = s == v
has_schema _ v = false

abbrev pub required_fields : String → Outcome IdentityError (List String)
required_fields v =
    if v == v1_schema_version
    then ok core_identity_fields
    else if v == v2_schema_version
    then ok (core_identity_fields ++ additive_identity_fields)
    else raised unsupported_schema

module _ (str_of : Json → String) (canonical_json : Json → String)
    (root_hash_of : List (String × String) → String) where
  abbrev pub canonical_equal : Json → Json → Bool
  canonical_equal a b = canonical_json a == canonical_json b

  abbrev pub agree_at : Option Json → Json → Bool
  agree_at none v = true
  agree_at (some w) v = canonical_equal w v

  -- the loop over the redundant values; a key that the identity omits is passed over
  unfoldable pub agrees : Fields → List (String × Json) → Bool
  agrees identity [] = true
  agrees identity ((k, v) ∷ values) = agree_at (field_get identity k) v && agrees identity values

  abbrev pub id_matches : Option Json → String → Bool
  id_matches none id = true
  id_matches (some null) id = true
  id_matches (some v) id = str_of v == id

  -- `_validate_identity_against_values`
  unfoldable pub validate_identity_against_values :
      Fields → Columns → String → Outcome IdentityError (Unit {0})
  validate_identity_against_values identity c snapshot_id = do
    require (has_schema (field_get identity "schema_version") c.schema_version) schema_differs
    required ← required_fields c.schema_version
    require (has_all identity required) fields_missing
    require (id_matches (field_get identity "content_snapshot_id") snapshot_id) id_differs
    require (agrees identity (redundant_values c)) field_disagrees
    require
        (not (
          filled c.source_artifact_id
          && (filled (or_else (dict_get c.artifact_ids "source") "")
              && not (c.source_artifact_id == or_else (dict_get c.artifact_ids "source") ""))))
        source_differs
    require
        (not (
          filled c.artifact_root_hash && not (c.artifact_root_hash == root_hash_of c.artifact_ids)))
        root_differs
    validate_provenance_alignment str_of c.code_sha c.config_hash c.producer_manifest
        c.schema_version

  abbrev pub matches : Bool → String → Json → Option Json → Bool
  matches legacy k v none = legacy && one_of k additive_identity_fields
  matches legacy k v (some w) = canonical_equal v w

  -- the loop of `_compare_existing_identity` over the fields that are stored
  unfoldable pub compare_fields : Bool → Fields → Fields → Outcome IdentityError (Unit {0})
  compare_fields legacy no_fields candidate = ok tt
  compare_fields legacy (field k v existing) candidate = do
    require (k == "created_at" || matches legacy k v (field_get candidate k)) different_payload
    compare_fields legacy existing candidate

  unfoldable pub compare_existing_identity : Fields → Fields → Outcome IdentityError (Unit {0})
  compare_existing_identity existing candidate =
      compare_fields (has_schema (field_get existing "schema_version") v1_schema_version) existing
        candidate

  -- the loop of `_compare_candidate_to_existing_row` over the two lists of redundant values
  unfoldable pub compare_columns :
      Bool → Fields → List (String × Json) → List (String × Json) → Outcome IdentityError (Unit {0})
  compare_columns legacy existing ((k, v) ∷ candidate) ((_, w) ∷ stored) = do
    require (is_some (field_get existing k) || (legacy && one_of k additive_identity_fields))
        column_omitted
    require (not (is_some (field_get existing k)) || canonical_equal v w) column_changed
    compare_columns legacy existing candidate stored
  compare_columns legacy existing _ _ = ok tt

  unfoldable pub compare_candidate_to_existing_row :
      Columns → Columns → Fields → Outcome IdentityError (Unit {0})
  compare_candidate_to_existing_row candidate row existing =
      compare_columns (has_schema (field_get existing "schema_version") v1_schema_version) existing
        (redundant_values candidate) (redundant_values row)
