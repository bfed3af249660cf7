-- ===== src/Shared/VectorStore.antt =====
-- packages/shared/vector/qdrant.py, class QdrantVectorStore, over the Qdrant client. A method that raises is none
-- beside the store that it leaves.
pub mod Collection
pub mod Persons
pub mod Plain
mod Tests
use intelligent_multi_camera.Prelude.{
  ℕ, String, string_eq, Bool, true, false, List, [], ◌∷◌, map, Option, none, some, contains,
  if◌then◌else◌,
}
use intelligent_multi_camera.Shared.VectorIds.{PointId, shared_point_id, matched_person}
use intelligent_multi_camera.Shared.Qdrant.{Payload, ScoredPoint, Client}

pub record QdrantVectorStore (Q : Type 0) : Type 0 where
  pub client : Q
  pub collection_checked : Bool

abbrev pub collection_name : String
collection_name = "person_embeddings"

abbrev pub vector_size : ℕ
vector_size = 512

pub record Match (F : Type 0) : Type 0 where
  pub person_id : ℕ
  pub score : F
  pub payload : Payload

-- The store after a call, and what the call returns, if it does not raise.
abbrev pub Outcome : Type 0 → Type 0 → Type 0
Outcome Q A = QdrantVectorStore Q × Option A

module _ {Q F : Type 0} (api : Client Q F) where
  abbrev checked : Q → QdrantVectorStore Q
  checked client = record { client = client; collection_checked = true }

  abbrev pub created : QdrantVectorStore Q → Q × Bool → Outcome Q (Unit {0})
  created store (client, false) = (record store { client = client }, none)
  created store (client, true) = (checked client, some tt)

  abbrev pub listed : QdrantVectorStore Q → Option (List String) → Outcome Q (Unit {0})
  listed store none = (store, none)
  listed store (some names) =
      if contains names collection_name
      then (checked store.client, some tt)
      else created store (api.create_collection collection_name vector_size store.client)

  unfoldable pub ensure_collection : QdrantVectorStore Q → Outcome Q (Unit {0})
  ensure_collection store =
      if store.collection_checked
      then (store, some tt)
      else listed store (api.get_collections store.client)

  abbrev pub written : QdrantVectorStore Q → Q × Bool → Outcome Q (Unit {0})
  written store (client, returned) =
      (record store { client = client }, if returned then some tt else none)

  abbrev pub upserted : ℕ → List F → Payload → Outcome Q (Unit {0}) → Outcome Q (Unit {0})
  upserted person_id embedding metadata (store, none) = (store, none)
  upserted person_id embedding metadata (store, some _) =
      written store
        (api.upsert collection_name (shared_point_id person_id) embedding metadata store.client)

  unfoldable pub upsert_embedding :
      ℕ → List F → Payload → QdrantVectorStore Q → Outcome Q (Unit {0})
  upsert_embedding person_id embedding metadata store =
      upserted person_id embedding metadata (ensure_collection store)

  abbrev pub to_match : ScoredPoint F → Match F
  to_match res = record {
    person_id = matched_person res.id;
    score = res.score;
    payload = res.payload;
  }

  abbrev pub matches : Option (List (ScoredPoint F)) → List (Match F)
  matches none = []
  matches (some points) = map to_match points

  abbrev pub searched : List F → ℕ → F → Outcome Q (Unit {0}) → Outcome Q (List (Match F))
  searched embedding limit score_threshold (store, none) = (store, none)
  searched embedding limit score_threshold (store, some _) = (
    store,
    some (matches (api.query_points collection_name embedding limit score_threshold store.client)),
  )

  -- A failed query has no matches.
  unfoldable pub search_similar : List F → ℕ → F → QdrantVectorStore Q → Outcome Q (List (Match F))
  search_similar embedding limit score_threshold store =
      searched embedding limit score_threshold (ensure_collection store)

  abbrev pub removed : List ℕ → Outcome Q (Unit {0}) → Outcome Q (Unit {0})
  removed person_ids (store, none) = (store, none)
  removed person_ids (store, some _) =
      written store (api.delete collection_name (map shared_point_id person_ids) store.client)

  unfoldable pub delete_embeddings : List ℕ → QdrantVectorStore Q → Outcome Q (Unit {0})
  delete_embeddings person_ids store = removed person_ids (ensure_collection store)
