-- ===== src/Shared/VectorStore/Tests.antt =====
-- Runs of the shared store, and its theorems at concrete calls.
use intelligent_multi_camera.Prelude.{
  ◌≡◌, refl, arith, nat_eq, string_eq, true, false, List, [], ◌∷◌,
}
use intelligent_multi_camera.Prelude.Int.{ℤ, pos}
use intelligent_multi_camera.Shared.VectorIds.{
  PointId, point_eq, uuid, shared_point_id, matched_person,
}
use intelligent_multi_camera.Shared.VectorStore.{
  QdrantVectorStore, ensure_collection, upsert_embedding, search_similar, delete_embeddings,
}
use intelligent_multi_camera.Shared.VectorStore.Collection.{Persons, Represents}
use intelligent_multi_camera.Shared.VectorStore.Persons.{
  StoreCall, upserting, searching, deleting, run, run-Represents,
}
use intelligent_multi_camera.Shared.VectorStore.Plain.{plain, holds, plain-KeepsPoints}

program : Unit {0}
unfolding point_eq run ensure_collection upsert_embedding search_similar delete_embeddings
    shared_point_id matched_person nat_eq string_eq
program = tt

abbrev fresh : QdrantVectorStore (List PointId)
fresh = record { client = []; collection_checked = false }

abbrev nobody : Persons
nobody = ([], [])

fresh-Represents : Represents plain holds [] nobody fresh.client
fresh-Represents = record {
  held = λ p h. absurd (ground arith);
  known = λ p h. absurd (ground arith);
  numbers = λ n. refl;
}

abbrev calls : List (StoreCall ℤ)
calls = upserting 5 [] [] ∷ upserting 6 [] [] ∷ searching [] 5 (pos 70) ∷ deleting (5 ∷ []) ∷ []

runs :
    run plain calls fresh nobody
    ≡ (record { client = uuid 6 ∷ []; collection_checked = true }, (6 ∷ [], 6 ∷ []))
unfolding program
runs = refl

run-Represents_example :
    Represents plain holds []
      (run plain calls fresh nobody).1
      (run plain calls fresh nobody).0.client
run-Represents_example =
    run-Represents plain holds plain-KeepsPoints [] calls fresh nobody fresh-Represents
