-- ===== src/Shared/VectorStore/Plain.antt =====
-- A Qdrant that is the list of its points, on which the definitions run: a search answers the last one.
use intelligent_multi_camera.Prelude.{
  ◌≡◌, refl, subst, Bool, true, not, List, [], ◌∷◌, some, arith, contains, keep, All,
}
use intelligent_multi_camera.Prelude.Int.{ℤ, pos}
use intelligent_multi_camera.Prelude.Dict.{contains-keep}
use intelligent_multi_camera.Shared.VectorIds.{PointId, point_eq}
use intelligent_multi_camera.Shared.Qdrant.{ScoredPoint, Client}
use intelligent_multi_camera.Shared.VectorStore.{collection_name}
use intelligent_multi_camera.Shared.VectorStore.Collection.{KeepsPoints}

abbrev pub scored : PointId → ScoredPoint ℤ
scored id = record { id = id; score = pos 90; payload = [] }

abbrev last_point : List PointId → List (ScoredPoint ℤ)
last_point [] = []
last_point (id ∷ ids) = scored id ∷ []

abbrev pub plain : Client (List PointId) ℤ
plain = record {
  get_collections = λ q. some (collection_name ∷ []);
  create_collection = λ name size q. (q, true);
  upsert = λ name id embedding payload q. (id ∷ q, true);
  query_points = λ name embedding limit threshold q. some (last_point q);
  delete = λ name ids q. (keep (λ id. not (contains ids id)) q, true);
}

abbrev pub holds : List PointId → PointId → Bool
holds q id = contains q id

holds_first : (id : PointId) (q : List PointId) → holds (id ∷ q) id ≡ true
holds_first id q = elim (point_eq.dec id id) [
  | yes same ↦ ground arith
  | no differ ↦ absurd (differ refl)
]

last_point_held :
    (q : List PointId) (points : List (ScoredPoint ℤ))
    → last_point q ≡ points
    → All (λ (p : ScoredPoint ℤ). holds q p.id ≡ true) points
last_point_held [] points e =
    subst (λ ps. All (λ (p : ScoredPoint ℤ). holds [] p.id ≡ true) ps) e tt
last_point_held (id ∷ q) points e =
    subst (λ ps. All (λ (p : ScoredPoint ℤ). holds (id ∷ q) p.id ≡ true) ps) e
      (holds_first id q, tt)

pub plain-KeepsPoints : KeepsPoints plain holds
plain-KeepsPoints = record {
  created_keeps = λ q id. refl;
  upsert_adds = λ q id other embedding payload e. refl;
  upsert_raised = λ q id other embedding payload e. absurd (ground arith);
  delete_removes = λ q ids id e. contains-keep (λ p. not (contains ids p)) id q;
  delete_raised = λ q ids id e. absurd (ground arith);
  query_answers = λ q embedding limit threshold points e. last_point_held q points (ground arith);
}
