-- ===== src/Snapshot/Provenance/Alignment.antt =====
-- What `normalize_producer_manifest` returns, beside the check of the alignment.
use stock_content.Prelude.{
  ◌≡◌, refl, subst, String, true, ◌&&◌, Option, some, arith, if◌then◌else◌, filled, ◌==◌, eq_iff,
  eq_refl, Outcome, ok, bind_ok, ok-inj, Bool-cases, inl, inr,
}
use stock_content.Snapshot.Json.{Json, text, object, Fields, no_fields, field, field_get, field_set}
use stock_content.Snapshot.Provenance.{
  IdentityError, manifest_not_object, configs_not_object, v1_schema_version, aligned, first_present,
  is_empty, object_or, normalize_producer_manifest, validate_provenance_alignment,
}

field_get-field_set :
    (d : Fields) (k j : String) (v : Json)
    → field_get (field_set d k v) j ≡ (if k == j then some v else field_get d j)
field_get-field_set no_fields k j v = refl
field_get-field_set (field i w d) k j v =
    ground (arith, eq_iff k j, eq_iff i k, eq_iff i j, field_get-field_set d k j v)

aligned_self : (s : String) → aligned s s ≡ true
aligned_self s = elim (Bool-cases (filled s)) [ inl e ↦ rw (e, eq_refl s) refl | inr e ↦ rw e refl ]

module _ (str_of : Json → String) (str_text : (s : String) → str_of (text s) ≡ s) where
  written : Fields → Fields → String → String → Fields
  written m d c g =
      field_set (field_set m "code_sha" (text c)) "configs"
        (object (field_set d "config_hash" (text g)))

  validate-written :
      (m d : Fields) (c g schema_version : String)
      → validate_provenance_alignment str_of c g (object (written m d c g)) schema_version ≡ ok tt
  unfolding validate_provenance_alignment written
  validate-written m d c g schema_version =
      let e =
        field_get-field_set (field_set m "code_sha" (text c)) "configs" "configs"
          (object (field_set d "config_hash" (text g))) in
      let f =
        field_get-field_set (field_set m "code_sha" (text c)) "configs" "code_sha"
          (object (field_set d "config_hash" (text g))) in
      rw
        (
          e,
          f,
          field_get-field_set m "code_sha" "code_sha" (text c),
          field_get-field_set d "config_hash" "config_hash" (text g),
          str_text c,
          str_text g,
          aligned_self c,
          aligned_self g,
        )
        (elim (Bool-cases (schema_version == v1_schema_version && is_empty (written m d c g))) [
          | inl q ↦ rw q refl
          | inr q ↦ rw q refl
        ])

  -- The code SHA, the hash of the configuration and the manifest that the normalisation returns pass the
  -- alignment check of the repository, whatever was given and for every version of the schema, where
  -- `str` leaves a text as it is.
  pub validate-normalize :
      (producer_manifest : Json) (code_sha config_hash : Option Json)
      (default_code : Outcome IdentityError String)
      (computed_hash schema_version code hash : String) (manifest : Json)
      → normalize_producer_manifest str_of producer_manifest code_sha config_hash default_code
          computed_hash
        ≡ ok (code, hash, manifest)
      → validate_provenance_alignment str_of code hash manifest schema_version ≡ ok tt
  unfolding normalize_producer_manifest written
  validate-normalize producer_manifest code_sha config_hash default_code computed_hash
        schema_version code hash manifest h =
      let (m, _, t) = bind_ok (object_or (some producer_manifest) manifest_not_object) _ _ h in
      let (c, _, u) =
        bind_ok (first_present str_of code_sha (field_get m "code_sha") default_code) _ _ t in
      let (d, _, w) = bind_ok (object_or (field_get m "configs") configs_not_object) _ _ u in
      let (g, _, r) =
        bind_ok (first_present str_of config_hash (field_get d "config_hash") (ok computed_hash)) _
          _ w in
      let e : (c, g, object (written m d c g)) ≡ (code, hash, manifest) = ok-inj r in
      subst
        (λ (y : String × String × Json).
          validate_provenance_alignment str_of y.0 y.1 y.2 schema_version ≡ ok tt)
        e (validate-written m d c g schema_version)
