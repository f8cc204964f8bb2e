-- ===== src/Connectors/VectorDb.antt =====
-- src/backend/core/vector_db.py: `VectorDB`, on the points of one collection. A failing service
-- raises at a command.
use text.Mathlib.Text.{◌==◌ as str_eq}
use crucible.Base.{
  ℕ, String, Bool, true, false, List, [], ◌∷◌, Option, none, some, ◌==◌, ◌&&◌, map, take, filter,
  any, if◌then◌else◌,
}
use crucible.Db.Run.{Exn}
use crucible.Db.Table.{delete}
use crucible.Worker.Result.{Result, ok, raised}

-- a point with its payload
pub record Point (F : Type 0) : Type 0 where
  pub id : ℕ
  pub vector : List F
  pub tenant_id : ℕ
  pub run_id : ℕ
  pub embedding_model_version : String
  pub scenario_id : ℕ

pub record BaselineVector (F : Type 0) : Type 0 where
  pub id : ℕ
  pub vector : List F
  pub scenario_id : ℕ

module _ {F : Type 0} where
  -- an upsert replaces the point with its id; `fault` is what the service raises
  unfoldable pub upsert_trace_embedding :
      (fault : Option Exn) → Point F → List (Point F) → Result (Unit {0}) × List (Point F)
  upsert_trace_embedding none point points = (ok tt, point ∷ delete (λ p. p.id == point.id) points)
  upsert_trace_embedding (some e) point points = (raised e, points)

  -- the three conditions of the filter
  abbrev pub matches : (tenant_id run_id : ℕ) (model_version : String) → Point F → Bool
  matches tenant_id run_id model_version p =
      p.tenant_id == tenant_id
      && p.run_id == run_id
      && str_eq p.embedding_model_version model_version

  -- `if record.vector`
  abbrev pub has_vector : Point F → Bool
  has_vector p = elim p.vector [ [] ↦ false | _ ∷ _ ↦ true ]

  abbrev pub vector_of : Point F → BaselineVector F
  vector_of p = record { id = p.id; vector = p.vector; scenario_id = p.scenario_id }

  -- one page of 1000 points; where the service raises, no vectors
  unfoldable pub get_baseline_vectors :
      (fault : Option Exn) (tenant_id baseline_run_id : ℕ) (model_version : String)
      → List (Point F)
      → List (BaselineVector F)
  get_baseline_vectors none tenant_id baseline_run_id model_version points = map vector_of (
      filter has_vector
        (take 1000 (filter (matches tenant_id baseline_run_id model_version) points)))
  get_baseline_vectors (some _) tenant_id baseline_run_id model_version points = []

-- `init_collection`: `listed` are the collections, or what the service raises; a failure is logged
unfoldable pub init_collection :
    (collection_name : String)
    → (listed : Result (List String)) → (create_fault : Option Exn) → List String
    → List String
init_collection collection_name (raised _) create_fault collections = collections
init_collection collection_name (ok names) create_fault collections =
    if any (str_eq collection_name) names
    then collections
    else elim create_fault [ some _ ↦ collections | none ↦ collection_name ∷ collections ]
