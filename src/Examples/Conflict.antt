-- ===== src/Examples/Conflict.antt =====
-- Two values of one price.
use mathlib.Core.List.{Memᴰ}
use mathlib.Core.List.Memᴰ.{head, tail}
use stock_content.Prelude.{
  ℕ, ◌+◌, ◌≡◌, ◌≢◌, refl, String, Bool, some, none, List, [], ◌∷◌, arith, ok, ltb, leb, eq_iff,
}
use stock_content.Conflict.{
  FinancialClaim, unresolved, auto_resolved, manual_review, KnowledgeConflict,
  higher_source_confidence, group_all, detect_conflicts, top_of, descending, auto_resolve,
}
use stock_content.Conflict.Detection.{detect_conflicts_complete}
use stock_content.Conflict.Ranking.{IsConfidence}
use stock_content.Conflict.Resolution.{Justified, auto_resolve-Justified}
use stock_content.Prelude.Text.{dict_get}
use stock_content.Conflict.Service.{ConflictService}
use stock_content.Conflict.Progress.{AtLeast, registers, resolves_manually, run, never_falls_back}

-- confidences in percent
abbrev leads : ℕ → ℕ → Bool
leads a b = leb (b + 10) a

abbrev first : FinancialClaim ℕ
first = record {
  claim_id = "a";
  value = "10";
  conflict_key = "k";
  default_key = "k";
  source_confidence = 60;
}

abbrev second : FinancialClaim ℕ
second = record {
  claim_id = "b";
  value = "12";
  conflict_key = "k";
  default_key = "k";
  source_confidence = 90;
}

abbrev other : FinancialClaim ℕ
other = record {
  claim_id = "c";
  value = "12";
  conflict_key = "l";
  default_key = "l";
  source_confidence = 90;
}

abbrev claims : List (FinancialClaim ℕ)
claims = first ∷ other ∷ second ∷ []

abbrev pair : List (FinancialClaim ℕ)
pair = first ∷ second ∷ []

detected : detect_conflicts claims ≡ pair ∷ []
unfolding detect_conflicts group_all
detected = refl

values_differ : first.value ≢ second.value
values_differ e = let t = (eq_iff first.value second.value).1 e in ground arith

detect_conflicts_complete_example :
    (group : List (FinancialClaim ℕ)) × Memᴰ group (detect_conflicts claims)
    × Memᴰ first group
    × Memᴰ second group
detect_conflicts_complete_example =
    detect_conflicts_complete claims first second (head refl) (tail (tail (head refl))) refl
      values_differ

pair_detected : Memᴰ pair (detect_conflicts claims)
unfolding detect_conflicts group_all
pair_detected = head refl

abbrev ids : List String → List String
ids l = l

abbrev id_of : String → List String → String
id_of key l = key

abbrev resolved : KnowledgeConflict
resolved = record {
  conflict_id = "k";
  claim_ids = "a" ∷ "b" ∷ [];
  conflict_key = "k";
  resolution_status = auto_resolved;
  preferred_claim_id = some "b";
  resolution_policy = higher_source_confidence;
}

resolves : auto_resolve ltb leads ids id_of pair [] ≡ ok resolved
unfolding auto_resolve top_of descending
resolves = refl

percents : IsConfidence ltb leads
percents = record {
  asym = λ a b h. ground arith;
  trans = λ a b c h g. ground arith;
  between = λ a b c h g. ground arith;
  wider = λ a b c h g. ground arith;
}

auto_resolve-Justified_example :
    (k : KnowledgeConflict) × (auto_resolve ltb leads ids id_of pair [] ≡ ok k)
    × Justified ltb leads ids id_of pair [] k
auto_resolve-Justified_example =
    auto_resolve-Justified ltb leads ids id_of percents first second [] []

abbrev open_one : KnowledgeConflict
open_one = record resolved {
  resolution_status = unresolved;
  preferred_claim_id = none;
  resolution_policy = manual_review;
}

abbrev service : ConflictService ltb leads ids id_of
service = record {
  claims = [];
  conflicts = ("k", record open_one { resolution_status = auto_resolved }) ∷ [];
}

never_falls_back_example : AtLeast 1 (
    dict_get
      (run ltb leads ids id_of service (
        registers claims []
        ∷ resolves_manually "k" "a"
        ∷ registers claims ("a" ∷ [])
        ∷ [])).conflicts
      "k")
never_falls_back_example =
    never_falls_back ltb leads ids id_of service
      (registers claims [] ∷ resolves_manually "k" "a" ∷ registers claims ("a" ∷ []) ∷ []) "k" 1
      (omega arith)
