-- ===== src/Snapshot/Provenance.antt =====
-- The release provenance of a snapshot: `_is_present`, `default_code_sha` and
-- `normalize_producer_manifest` of src/stock_content/domain/lineage.py and
-- `_validate_provenance_alignment` of snapshot_repository.py. `str` of a value of JSON and the hash of a
-- configuration are parameters.
pub mod Alignment
use stock_content.Prelude.{
  String, Bool, true, false, ◌&&◌, ◌||◌, not, Option, none, some, List, [], ◌∷◌, if◌then◌else◌,
  one_of, filled, ◌==◌, or_else, Outcome, ok, raised, ◌>>=◌, ◌>>◌, require,
}
use stock_content.Snapshot.Json.{
  Json, null, text, object, Fields, no_fields, field, field_get, field_set,
}

-- the messages of SnapshotIntegrityError and of ValueError
pub data IdentityError : Type 0 where
  schema_differs unsupported_schema fields_missing id_differs field_disagrees source_differs
        root_differs :
      IdentityError
  manifest_not_object configs_not_object commit_unset code_sha_disagrees config_hash_disagrees :
      IdentityError
  different_payload column_omitted column_changed : IdentityError

abbrev pub v1_schema_version : String
v1_schema_version = "content.snapshot.v1"

-- `value is not None and value != ""`
abbrev pub is_present : Option Json → Bool
is_present none = false
is_present (some null) = false
is_present (some (text s)) = filled s
is_present (some _) = true

-- `a or b` of two texts
abbrev pub first_filled : String → String → String
first_filled a b = if filled a then a else b

-- `default_code_sha`, from the three variables of the environment
unfoldable pub default_code_sha :
    (String → String) → Option String → Option String → Option String → Outcome IdentityError String
default_code_sha lower commit content_env environment =
    let value = or_else commit "unknown" in
    let named = lower (
      first_filled (or_else content_env "")
        (first_filled (or_else environment "") "development")) in
    if one_of named ("production" ∷ "prod" ∷ [])
      && one_of value ("" ∷ "unknown" ∷ "none" ∷ "null" ∷ [])
    then raised commit_unset
    else ok value

-- an object, or nothing
abbrev pub object_or : Option Json → IdentityError → Outcome IdentityError Fields
object_or none e = ok no_fields
object_or (some null) e = ok no_fields
object_or (some (object d)) e = ok d
object_or (some _) e = raised e

-- both empty, or both filled and equal
abbrev pub aligned : String → String → Bool
aligned a b = not (filled a || filled b) || (filled a && filled b && a == b)

abbrev pub is_empty : Fields → Bool
is_empty no_fields = true
is_empty (field _ _ _) = false

module _ (str_of : Json → String) where
  -- `"" if value is None else str(value)`
  abbrev pub text_of : Option Json → String
  text_of none = ""
  text_of (some null) = ""
  text_of (some v) = str_of v

  -- `_validate_provenance_alignment`
  unfoldable pub validate_provenance_alignment :
      String → String → Json → String → Outcome IdentityError (Unit {0})
  validate_provenance_alignment code_sha config_hash producer_manifest schema_version = do
    manifest ← object_or (some producer_manifest) manifest_not_object
    configs ← object_or (field_get manifest "configs") configs_not_object
    let legacy = schema_version == v1_schema_version && is_empty manifest
    require (legacy || aligned code_sha (text_of (field_get manifest "code_sha")))
        code_sha_disagrees
    require (legacy || aligned config_hash (text_of (field_get configs "config_hash")))
        config_hash_disagrees

  -- `str(a if _is_present(a) else b if _is_present(b) else c)`
  abbrev pub first_present :
      Option Json → Option Json → Outcome IdentityError String → Outcome IdentityError String
  first_present a b c =
      if is_present a then ok (text_of a) else if is_present b then ok (text_of b) else c

  -- with what `default_code_sha` and `compute_config_hash` return
  unfoldable pub normalize_producer_manifest :
      Json
      → Option Json
      → Option Json
      → Outcome IdentityError String
      → String
      → Outcome IdentityError (String × String × Json)
  normalize_producer_manifest producer_manifest code_sha config_hash default_code computed_hash = do
    manifest ← object_or (some producer_manifest) manifest_not_object
    effective_code_sha ← first_present code_sha (field_get manifest "code_sha") default_code
    configs ← object_or (field_get manifest "configs") configs_not_object
    effective_config_hash ←
        first_present config_hash (field_get configs "config_hash") (ok computed_hash)
    ok (
      effective_code_sha,
      effective_config_hash,
      object (
          field_set (field_set manifest "code_sha" (text effective_code_sha)) "configs"
            (object (field_set configs "config_hash" (text effective_config_hash)))),
    )
