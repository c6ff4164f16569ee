-- ===== src/Conflict/Service.antt =====
-- The register of conflicts: src/stock_content/application/conflict_service.py. Both dictionaries keep
-- their entries in order of insertion.
use stock_content.Prelude.{
  String, Bool, true, false, ◌&&◌, not, Option, none, some, List, [], ◌∷◌, if◌then◌else◌, one_of,
  Outcome, ok, raised, ◌>>=◌, ◌>>◌, found, require,
}
use stock_content.Prelude.Text.{dict_get, dict_set}
use stock_content.Conflict.{
  FinancialClaim, ConflictStatus, unresolved, manual_resolved, superseded, KnowledgeConflict,
  ConflictError, manual_review, detect_conflicts, auto_resolve,
}

pub data ServiceError : Type 0 where
  key_error value_error : ServiceError

abbrev pub Conflicts : Type 0
Conflicts = List (String × KnowledgeConflict)

abbrev pub is_open : ConflictStatus → Bool
is_open unresolved = true
is_open _ = false

-- `resolution_status in {"MANUAL_RESOLVED", "SUPERSEDED"}`
abbrev pub is_settled : ConflictStatus → Bool
is_settled manual_resolved = true
is_settled superseded = true
is_settled _ = false

abbrev pub set_conflict : Conflicts → KnowledgeConflict → Conflicts
set_conflict d k = dict_set d k.conflict_id k

-- the dictionary after the body of the loop of `register_claims`, and whether the conflict is in the list
-- that it returns
abbrev pub place : Conflicts → KnowledgeConflict → Option KnowledgeConflict → Conflicts × Bool
place d k none = (set_conflict d k, true)
place d k (some existing) =
    if is_open existing.resolution_status && not (is_open k.resolution_status)
    then (set_conflict d k, true)
    else (d, false)

abbrev pub with_created : Bool → KnowledgeConflict → List KnowledgeConflict → List KnowledgeConflict
with_created true k l = k ∷ l
with_created false k l = l

module _ {C : Type 0} (less : C → C → Bool) (leads : C → C → Bool)
    (sorted : List String → List String) (conflict_id_of : String → List String → String) where
  -- the loop; where the resolution raises, the dictionary stays as it is then
  unfoldable pub register_groups :
      Conflicts
      → List String
      → List (List (FinancialClaim C))
      → Conflicts × Outcome ConflictError (List KnowledgeConflict)
  register_groups d verified [] = (d, ok [])
  register_groups d verified (group ∷ groups) =
      elim (auto_resolve less leads sorted conflict_id_of group verified) [
        | raised e ↦ (d, raised e)
        | ok k ↦
            let r = place d k (dict_get d k.conflict_id) in
            let rest = register_groups r.0 verified groups in
            (rest.0, rest.1 >>= λ created. ok (with_created r.1 k created))
      ]

  abbrev pub add_claims :
      List (String × FinancialClaim C) → List (FinancialClaim C) → List (String × FinancialClaim C)
  add_claims d [] = d
  add_claims d (c ∷ claims) = add_claims (dict_set d c.claim_id c) claims

  abbrev pub all_values : List (String × FinancialClaim C) → List (FinancialClaim C)
  all_values [] = []
  all_values ((_, c) ∷ d) = c ∷ all_values d

  pub record ConflictService : Type 0 where
    pub claims : List (String × FinancialClaim C)
    pub conflicts : Conflicts

  unfoldable pub register_claims :
      ConflictService
      → List (FinancialClaim C)
      → List String
      → ConflictService × Outcome ConflictError (List KnowledgeConflict)
  register_claims s claims verified =
      let known = add_claims s.claims claims in
      let r = register_groups s.conflicts verified (detect_conflicts (all_values known)) in
      (record { claims = known; conflicts = r.0 }, r.1)

-- `manual_resolve`, whose evidence is left out
unfoldable pub manual_resolve : Conflicts → String → String → Outcome ServiceError Conflicts
manual_resolve d conflict_id preferred_claim_id = do
  k ← found (dict_get d conflict_id) key_error
  require (not (is_settled k.resolution_status)) value_error
  require (one_of preferred_claim_id k.claim_ids) value_error
  ok (
      dict_set d conflict_id (record k {
        resolution_status = manual_resolved;
        preferred_claim_id = some preferred_claim_id;
        resolution_policy = manual_review;
      }))

unfoldable pub supersede : Conflicts → String → Outcome ServiceError Conflicts
supersede d conflict_id = do
  k ← found (dict_get d conflict_id) key_error
  ok (dict_set d conflict_id (record k { resolution_status = superseded }))
