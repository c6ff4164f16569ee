-- ===== src/Snapshot/Identity/Reflexive.antt =====
-- An identity and its columns, compared with themselves.
use stock_content.Prelude.{
  ◌≡◌, refl, sym, subst, String, Bool, true, false, ◌&&◌, ◌||◌, Option, none, some, List, [], ◌∷◌,
  ◌++◌, arith, ◌==◌, eq_iff, eq_refl, is_some, one_of, Outcome, ok, raised, require, bind_ok,
  then_ok, require_ok, ok-inj, Bool-cases, inl, inr,
}
use stock_content.Snapshot.Json.{Json, Fields, no_fields, field, field_get}
use stock_content.Snapshot.Provenance.{
  IdentityError, schema_differs, fields_missing, unsupported_schema, v1_schema_version,
}
use stock_content.Snapshot.Identity.{
  Columns, redundant_values, v2_schema_version, additive_identity_fields, core_identity_fields,
  has_all, has_schema, required_fields, validate_identity_against_values, compare_fields,
  compare_existing_identity, compare_columns, compare_candidate_to_existing_row,
}

-- a dictionary has each key once
abbrev pub IsDict : Fields → Type 0
IsDict no_fields = Unit
IsDict (field k v d) = (field_get d k ≡ none) × IsDict d

-- each of the keys is in the dictionary, or may be missing in an old one
abbrev Held : Bool → Fields → List (String × Json) → Type 0
Held legacy d [] = Unit
Held legacy d ((k, _) ∷ values) =
    ((is_some (field_get d k) || (legacy && one_of k additive_identity_fields)) ≡ true)
    × Held legacy d values

both_true : (a b : Bool) → (a && b) ≡ true → (a ≡ true) × (b ≡ true)
both_true a b h = ground arith

second_true : (a b c : Bool) → a ≡ false → (a || b) ≡ true → (c || b) ≡ true
second_true a b c e h = ground arith

module _ (str_of : Json → String) (canonical_json : Json → String)
    (root_hash_of : List (String × String) → String) where
  abbrev Part : Fields → Fields → Type 0
  Part no_fields d = Unit
  Part (field k v r) d = (field_get d k ≡ some v) × Part r d

  compare_fields_self :
      (legacy : Bool) (r d : Fields)
      → Part r d
      → compare_fields str_of canonical_json root_hash_of legacy r d ≡ ok tt
  unfolding compare_fields
  compare_fields_self legacy no_fields d h = refl
  compare_fields_self legacy (field k v r) d (e, h) =
      rw (e, eq_refl (canonical_json v))
        (elim (Bool-cases (k == "created_at")) [
          | inl c ↦ rw c (compare_fields_self legacy r d h)
          | inr c ↦ rw c (compare_fields_self legacy r d h)
        ])

  Part-field :
      (r d : Fields) (k : String) (v : Json)
      → field_get r k ≡ none
      → Part r d
      → Part r (field k v d)
  Part-field no_fields d k v h p = tt
  Part-field (field j w r) d k v h (e, p) = elim (Bool-cases (j == k)) [
    | inl same ↦ absurd (let t : ◌≡◌ {A = Option Json} (some w) none = rw same at h in cc)
    | inr other ↦
        let back : k == j ≡ false = ground (arith, eq_iff j k, eq_iff k j) in
        (rw back e, Part-field r d k v (rw other at h) p)
  ]

  Part-refl : (d : Fields) → IsDict d → Part d d
  Part-refl no_fields h = tt
  Part-refl (field k v d) (e, h) = (rw (eq_refl k) refl, Part-field d d k v e (Part-refl d h))

  compare_columns_self :
      (legacy : Bool) (d : Fields) (values : List (String × Json))
      → Held legacy d values
      → compare_columns str_of canonical_json root_hash_of legacy d values values ≡ ok tt
  unfolding compare_columns
  compare_columns_self legacy d [] h = refl
  compare_columns_self legacy d ((k, v) ∷ values) (e, h) =
      let ih = compare_columns_self legacy d values h in
      rw (e, eq_refl (canonical_json v))
        (elim (Bool-cases (is_some (field_get d k))) [ inl c ↦ rw c ih | inr c ↦ rw c ih ])

  has_all-get :
      (d : Fields) (l : List String) (k : String)
      → has_all d l ≡ true
      → one_of k l ≡ true
      → is_some (field_get d k) ≡ true
  has_all-get d [] k h m = cc
  has_all-get d (j ∷ l) k h m = elim (Bool-cases (k == j)) [
    | inl e ↦ rw ((eq_iff k j).0 e) (ground arith)
    | inr e ↦ has_all-get d l k (ground arith) (rw e at m)
  ]

  -- each key is one that is required, or may be missing
  abbrev keys_in : Bool → List String → List (String × Json) → Bool
  keys_in legacy l [] = true
  keys_in legacy l ((k, _) ∷ values) =
      (one_of k l || (legacy && one_of k additive_identity_fields)) && keys_in legacy l values

  Held-keys_in :
      (legacy : Bool) (d : Fields) (l : List String) (values : List (String × Json))
      → has_all d l ≡ true
      → keys_in legacy l values ≡ true
      → Held legacy d values
  Held-keys_in legacy d l [] h q = tt
  Held-keys_in legacy d l ((k, v) ∷ values) h q =
      let (this, rest) =
        both_true (one_of k l || (legacy && one_of k additive_identity_fields))
          (keys_in legacy l values) q in
      (
        elim (Bool-cases (one_of k l)) [
          | inl m ↦ rw (has_all-get d l k h m) refl
          | inr m ↦
              second_true (one_of k l) (legacy && one_of k additive_identity_fields)
                (is_some (field_get d k)) m this
        ],
        Held-keys_in legacy d l values h rest,
      )

  Held-columns :
      (d : Fields) (c : Columns) (id : String)
      → validate_identity_against_values str_of canonical_json root_hash_of d c id ≡ ok tt
      → Held (has_schema (field_get d "schema_version") v1_schema_version) d (redundant_values c)
  unfolding validate_identity_against_values redundant_values
  Held-columns d c id h =
      let (schema, t) =
        then_ok
          (require (has_schema (field_get d "schema_version") c.schema_version) schema_differs) _ tt
          h in
      let (required, r, u) = bind_ok (required_fields c.schema_version) _ tt t in
      let (all, _) = then_ok (require (has_all d required) fields_missing) _ tt u in
      elim (Bool-cases (c.schema_version == v1_schema_version)) [
        | inl first ↦
            let same : core_identity_fields ≡ required = ok-inj (rw first at r) in
            let old : has_schema (field_get d "schema_version") v1_schema_version ≡ true =
              subst (λ v. has_schema (field_get d "schema_version") v ≡ true)
                ((eq_iff c.schema_version v1_schema_version).0 first) (require_ok _ _ schema) in
            rw old (
              Held-keys_in true d core_identity_fields (redundant_values c)
                (subst (λ l. has_all d l ≡ true) (sym same) (require_ok _ _ all)) refl)
        | inr later ↦ elim (Bool-cases (c.schema_version == v2_schema_version)) [
          | inl second ↦
              let same : core_identity_fields ++ additive_identity_fields ≡ required =
                ok-inj (rw second at (rw later at r)) in
              Held-keys_in _ d (core_identity_fields ++ additive_identity_fields)
                (redundant_values c)
                (subst (λ l. has_all d l ≡ true) (sym same) (require_ok _ _ all)) refl
          | inr neither ↦ absurd (
              let q : ◌≡◌ {A = Outcome IdentityError (List String)} (raised unsupported_schema)
                  (ok required) =
                rw neither at (rw later at r) in
              cc)
        ]
      ]

  pub compare_existing_identity_self :
      (d : Fields)
      → IsDict d
      → compare_existing_identity str_of canonical_json root_hash_of d d ≡ ok tt
  unfolding compare_existing_identity
  compare_existing_identity_self d h = compare_fields_self _ d d (Part-refl d h)

  pub compare_candidate_self :
      (d : Fields) (c : Columns) (id : String)
      → validate_identity_against_values str_of canonical_json root_hash_of d c id ≡ ok tt
      → compare_candidate_to_existing_row str_of canonical_json root_hash_of c c d ≡ ok tt
  unfolding compare_candidate_to_existing_row
  compare_candidate_self d c id h =
      compare_columns_self _ d (redundant_values c) (Held-columns d c id h)
