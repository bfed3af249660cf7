-- ===== src/Shared/Qdrant.antt =====
-- What the services call of the Qdrant client, over the server's state. A call that writes
-- answers the state that it leaves, also where it raises, and whether it returned: a write that timed out may have
-- been applied.
use intelligent_multi_camera.Prelude.{ℕ, String, Bool, List, Option}
use intelligent_multi_camera.Prelude.Dict.{Dict}
use intelligent_multi_camera.Shared.VectorIds.{PointId}

abbrev pub Payload : Type 0
Payload = Dict String String

-- A point of an answer to a search.
pub record ScoredPoint (F : Type 0) : Type 0 where
  pub id : PointId
  pub score : F
  pub payload : Payload

pub record Client (Q F : Type 0) : Type 0 where
  pub get_collections : Q → Option (List String)
  -- The name and the size of its vectors.
  pub create_collection : String → ℕ → Q → Q × Bool
  pub upsert : String → PointId → List F → Payload → Q → Q × Bool
  -- The query, the limit and the score threshold.
  pub query_points : String → List F → ℕ → F → Q → Option (List (ScoredPoint F))
  pub delete : String → List PointId → Q → Q × Bool
