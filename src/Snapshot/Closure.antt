-- ===== src/Snapshot/Closure.antt =====
-- `_validate_snapshot_artifacts`: the artifacts that a snapshot refers to and all their parents are
-- loaded in batches and validated, then the parent relation is searched for a cycle. Deserialising a
-- payload and comparing it with its row is one test of the row, `intact`, and the SHA-256 behind the
-- identifier of an edge is a function of its two ends; both are parameters. `visiting` is handed
-- down with each call: what `remove` leaves of it is what was there before. The fuel is shown to be
-- enough.
pub mod Edges
pub mod Offer
pub mod Load
pub mod Fuel
pub mod Walk
pub mod Sound
use stock_content.Prelude.{
  ℕ, zero, suc, ◌+◌, String, Bool, true, false, ◌&&◌, not, Option, none, some, List, [], ◌∷◌, ◌++◌,
  map, if◌then◌else◌, one_of, ◌==◌, Outcome, ok, raised, ◌>>=◌, ◌>>◌, require,
}
use stock_content.Prelude.Text.{dict_get, dict_set}
use stock_content.Prelude.Members.{length, take, drop}

-- the columns that are read here; the rest of a row is its payload
pub record ContentArtifactRow (P : Type 0) : Type 0 where
  pub parent_artifact_ids : List String
  pub payload : P

pub record ContentArtifactEdgeRow : Type 0 where
  pub edge_id : String
  pub artifact_id : String
  pub parent_artifact_id : String
  pub relation : String

-- the two tables that the validation reads, the artifacts under their primary key
pub record Tables (P : Type 0) : Type 0 where
  pub artifacts : List (String × ContentArtifactRow P)
  pub edges : List ContentArtifactEdgeRow

-- the messages of SnapshotIntegrityError
pub data ClosureError : Type 0 where
  missing_artifact invalid_artifact edges_inconsistent edges_missing parent_cycle : ClosureError
  out_of_fuel : ClosureError

-- `pending`, `queued` and `parents_by_artifact`
pub record Loading : Type 0 where
  pub pending : List String
  pub queued : List String
  pub parents : List (String × List String)

-- `_SNAPSHOT_ARTIFACT_VALIDATION_BATCH_SIZE`
abbrev pub batch_size : ℕ
batch_size = 500

abbrev pub has_some {ℓ} : {A : Type ℓ} → List A → Bool
has_some [] = false
has_some (_ ∷ _) = true

-- `edges_by_artifact.get(artifact_id, [])`
unfoldable pub edges_of : List ContentArtifactEdgeRow → String → List ContentArtifactEdgeRow
edges_of [] id = []
edges_of (e ∷ edges) id =
    let rest = edges_of edges id in if e.artifact_id == id then e ∷ rest else rest

abbrev pub same_edge : ContentArtifactEdgeRow → ContentArtifactEdgeRow → Bool
same_edge a b =
    a.edge_id == b.edge_id
    && (a.artifact_id == b.artifact_id
        && (a.parent_artifact_id == b.parent_artifact_id && a.relation == b.relation))

unfoldable pub has_edge : ContentArtifactEdgeRow → List ContentArtifactEdgeRow → Bool
has_edge a [] = false
has_edge a (e ∷ edges) = if same_edge a e then true else has_edge a edges

unfoldable pub edges_within : List ContentArtifactEdgeRow → List ContentArtifactEdgeRow → Bool
edges_within [] edges = true
edges_within (e ∷ l) edges = has_edge e edges && edges_within l edges

-- the loop over `parent_ids`
abbrev pub offer : Loading → String → Loading
offer l p =
    if one_of p l.queued
    then l
    else record l { pending = l.pending ++ p ∷ []; queued = p ∷ l.queued }

unfoldable pub offer_all : Loading → List String → Loading
offer_all l [] = l
offer_all l (p ∷ parents) = offer_all (offer l p) parents

-- `dict.fromkeys`
unfoldable pub from_keys : List String → List String → List String
from_keys seen [] = []
from_keys seen (x ∷ l) =
    let rest = from_keys (x ∷ seen) l in if one_of x seen then rest else x ∷ rest

unfoldable pub all_parents : {P : Type 0} → List (String × ContentArtifactRow P) → List String
all_parents [] = []
all_parents ((_, row) ∷ artifacts) = row.parent_artifact_ids ++ all_parents artifacts

-- the texts under which a dictionary has values
unfoldable pub keys : {A : Type 0} → List (String × A) → List String
keys [] = []
keys ((k, _) ∷ d) = k ∷ keys d

-- a loop whose body may raise
unfoldable pub each :
    (List String → String → Outcome ClosureError (List String))
    → List String
    → List String
    → Outcome ClosureError (List String)
each f v [] = ok v
each f v (p ∷ l) = f v p >>= λ w. each f w l

-- `validate_closure`, with the set `validated` as its result
unfoldable pub validate_closure :
    ℕ
    → List (String × List String)
    → List String
    → List String
    → String
    → Outcome ClosureError (List String)
validate_closure zero d visiting validated id = raised out_of_fuel
validate_closure (suc n) d visiting validated id =
    if one_of id validated then ok validated else elim (dict_get d id) [
      | none ↦ ok validated
      | some parents ↦
          if one_of id visiting
          then raised parent_cycle
          else each (validate_closure n d (id ∷ visiting)) validated parents >>= λ v. ok (id ∷ v)
    ]

module _ {P : Type 0} (intact : ContentArtifactRow P → Bool) (edge_id_of : String → String → String)
    (legacy : Bool) where
  abbrev pub expected_edge : String → String → ContentArtifactEdgeRow
  expected_edge id p = record {
    edge_id = edge_id_of id p;
    artifact_id = id;
    parent_artifact_id = p;
    relation = "PARENT";
  }

  unfoldable pub check_edges :
      List ContentArtifactEdgeRow → List ContentArtifactEdgeRow → Outcome ClosureError (Unit {0})
  check_edges edges expected = do
    require
        (not (has_some edges && not (edges_within edges expected && edges_within expected edges)))
        edges_inconsistent
    require (not (not (has_some edges) && (not legacy && has_some expected))) edges_missing

  -- the body of the loop over a batch
  unfoldable pub visit : Tables P → Loading → String → Outcome ClosureError Loading
  visit s l id = elim (dict_get s.artifacts id) [
    | none ↦ if legacy then ok l else raised missing_artifact
    | some row ↦ do
      require (intact row) invalid_artifact
      check_edges (edges_of s.edges id) (map (expected_edge id) row.parent_artifact_ids)
      ok (
          offer_all (record l { parents = dict_set l.parents id row.parent_artifact_ids })
            row.parent_artifact_ids)
  ]

  unfoldable pub visit_all : Tables P → Loading → List String → Outcome ClosureError Loading
  visit_all s l [] = ok l
  visit_all s l (id ∷ batch) = visit s l id >>= λ m. visit_all s m batch

  -- the `while` loop
  unfoldable pub load : ℕ → Tables P → Loading → Outcome ClosureError (List (String × List String))
  load zero s l = elim l.pending [ [] ↦ ok l.parents | _ ∷ _ ↦ raised out_of_fuel ]
  load (suc n) s l = elim l.pending [
    | [] ↦ ok l.parents
    | p ∷ rest ↦
        visit_all s (record l { pending = drop batch_size (p ∷ rest) }) (take batch_size (p ∷ rest))
        >>= load n s
  ]

  abbrev pub start : List String → Loading
  start roots = record { pending = from_keys [] roots; queued = from_keys [] roots; parents = [] }

  -- `artifact_ids.values()` are the roots
  unfoldable pub validate_snapshot_artifacts :
      Tables P → List String → Outcome ClosureError (Unit {0})
  validate_snapshot_artifacts s roots = do
    d ← load (length (roots ++ all_parents s.artifacts) + length roots) s (start roots)
    _ ← each (validate_closure (suc (length (keys d))) d []) [] roots
    ok tt
