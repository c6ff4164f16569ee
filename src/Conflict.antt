-- ===== src/Conflict.antt =====
-- Conflicts of claims: src/stock_content/domain/conflict.py. A claim is its identifier, the text of
-- its value, its conflict keys, for the window of the detection and for the default window of
-- `auto_resolve`, and its confidence. Confidences are a type with the two tests that the code makes
-- of them, `<` and `a - b >= 0.1`. The SHA-256 behind the identifier of a conflict is a parameter,
-- and so is the order of the claim identifiers in it. The evidence and the creation time of a
-- conflict are left out. The proofs are in the modules below.
pub mod Detection
pub mod Ranking
pub mod Resolution
pub mod Service
pub mod Progress
use stock_content.Prelude.{
  ℕ, ◌+◌, String, Bool, true, false, ◌&&◌, not, Option, none, some, List, [], ◌∷◌, ◌++◌, map,
  if◌then◌else◌, ltb, one_of, ◌==◌, Outcome, ok, raised,
}

pub record FinancialClaim (C : Type 0) : Type 0 where
  pub claim_id : String
  pub value : String
  pub conflict_key : String
  pub default_key : String
  pub source_confidence : C

abbrev pub count {ℓ} : {A : Type ℓ} → List A → ℕ
count [] = 0
count (_ ∷ l) = 1 + count l

-- `set` of texts, as its elements
abbrev pub distinct : List String → List String
distinct [] = []
distinct (x ∷ xs) = let rest = distinct xs in if one_of x rest then rest else x ∷ rest

-- `CONFLICT_STATUSES`
pub data ConflictStatus : Type 0 where
  unresolved auto_resolved manual_resolved superseded : ConflictStatus

pub data ResolutionPolicy : Type 0 where
  higher_source_confidence external_verification_wins latest_published manual_review :
      ResolutionPolicy

pub record KnowledgeConflict : Type 0 where
  pub conflict_id : String
  pub claim_ids : List String
  pub conflict_key : String
  pub resolution_status : ConflictStatus
  pub preferred_claim_id : Option String
  pub resolution_policy : ResolutionPolicy

pub data ConflictError : Type 0 where
  index_error : ConflictError

module _ {C : Type 0} where
  -- `groups.setdefault(key, []).append(claim)`
  abbrev pub add_to :
      String
      → FinancialClaim C
      → List (String × List (FinancialClaim C))
      → List (String × List (FinancialClaim C))
  add_to key claim [] = (key, claim ∷ []) ∷ []
  add_to key claim ((k, group) ∷ groups) =
      if k == key then (k, group ++ claim ∷ []) ∷ groups else (k, group) ∷ add_to key claim groups

  unfoldable pub group_all :
      List (String × List (FinancialClaim C))
      → List (FinancialClaim C)
      → List (String × List (FinancialClaim C))
  group_all groups [] = groups
  group_all groups (claim ∷ claims) = group_all (add_to claim.conflict_key claim groups) claims

  abbrev pub values : List (FinancialClaim C) → List String
  values = map (λ (c : FinancialClaim C). c.value)

  abbrev pub is_conflict : List (FinancialClaim C) → Bool
  is_conflict group = ltb 1 (count group) && ltb 1 (count (distinct (values group)))

  abbrev pub conflicting : List (String × List (FinancialClaim C)) → List (List (FinancialClaim C))
  conflicting [] = []
  conflicting ((_, group) ∷ groups) =
      let rest = conflicting groups in if is_conflict group then group ∷ rest else rest

  unfoldable pub detect_conflicts : List (FinancialClaim C) → List (List (FinancialClaim C))
  detect_conflicts claims = conflicting (group_all [] claims)

  module _ (less : C → C → Bool) (leads : C → C → Bool) (sorted : List String → List String)
      (conflict_id_of : String → List String → String) where
    -- `max` by confidence, from the second claim on: the first of the greatest
    unfoldable pub top_of : FinancialClaim C → List (FinancialClaim C) → FinancialClaim C
    top_of best [] = best
    top_of best (c ∷ claims) =
        top_of (if less best.source_confidence c.source_confidence then c else best) claims

    abbrev pub place : FinancialClaim C → List (FinancialClaim C) → List (FinancialClaim C)
    place c [] = c ∷ []
    place c (d ∷ l) =
        let rest = place c l in
        if less c.source_confidence d.source_confidence then d ∷ rest else c ∷ d ∷ l

    -- `sorted` by confidence with `reverse=True`, which keeps equals in order
    unfoldable pub descending : List (FinancialClaim C) → List (FinancialClaim C)
    descending [] = []
    descending (c ∷ claims) = place c (descending claims)

    abbrev pub second : List (FinancialClaim C) → Outcome ConflictError (FinancialClaim C)
    second (_ ∷ c ∷ _) = ok c
    second _ = raised index_error

    abbrev pub verified_in : List String → List (FinancialClaim C) → List (FinancialClaim C)
    verified_in verified [] = []
    verified_in verified (c ∷ claims) =
        let rest = verified_in verified claims in
        if one_of c.claim_id verified then c ∷ rest else rest

    abbrev pub conflict :
        List (FinancialClaim C)
        → String
        → ConflictStatus
        → Option String
        → ResolutionPolicy
        → KnowledgeConflict
    conflict group key status preferred policy =
        let ids = sorted (map (λ (c : FinancialClaim C). c.claim_id) group) in
        record {
          conflict_id = conflict_id_of key ids;
          claim_ids = ids;
          conflict_key = key;
          resolution_status = status;
          preferred_claim_id = preferred;
          resolution_policy = policy;
        }

    -- the choice by confidence
    abbrev pub by_confidence :
        List (FinancialClaim C) → String → FinancialClaim C → FinancialClaim C → KnowledgeConflict
    by_confidence group key top runner_up =
        if leads top.source_confidence runner_up.source_confidence
        then conflict group key auto_resolved (some top.claim_id) higher_source_confidence
        else conflict group key unresolved none manual_review

    -- what is done with the verified claims of the group
    abbrev pub resolve :
        List (FinancialClaim C)
        → String
        → FinancialClaim C
        → Outcome ConflictError (FinancialClaim C)
        → List (FinancialClaim C)
        → Outcome ConflictError KnowledgeConflict
    resolve group key top runner_up (v ∷ []) =
        ok (conflict group key auto_resolved (some v.claim_id) external_verification_wins)
    resolve group key top (raised e) _ = raised e
    resolve group key top (ok runner_up) _ = ok (by_confidence group key top runner_up)

    -- `auto_resolve`
    unfoldable pub auto_resolve :
        List (FinancialClaim C) → List String → Outcome ConflictError KnowledgeConflict
    auto_resolve [] verified = raised index_error
    auto_resolve (c ∷ claims) verified =
        resolve (c ∷ claims) c.default_key (top_of c claims) (second (descending (c ∷ claims)))
          (verified_in verified (c ∷ claims))
