-- ===== src/AiService/GalleryManager.antt =====
-- apps/ai-service/src/reid/gallery_manager.py over the Qdrant client. The manager is its client, or none where
-- Qdrant could not be reached; `parse_uuid` is the number of `uuid.UUID(text)`.
use intelligent_multi_camera.Prelude.{
  ◌>>=◌, ℕ, String, string_eq, Bool, false, List, [], ◌∷◌, map, Option, none, some, contains,
  if◌then◌else◌,
}
use intelligent_multi_camera.Prelude.Dict.{lookup, insert}
use intelligent_multi_camera.Shared.VectorIds.{gallery_point_id}
use intelligent_multi_camera.Shared.Qdrant.{Payload, ScoredPoint, Client}

abbrev pub PersonGalleryManager : Type 0 → Type 0
PersonGalleryManager Q = Option Q

abbrev pub vector_size : ℕ
vector_size = 512

-- `{"person_id": person_uuid, **payload}`
abbrev merged : Payload → Payload → Payload
merged d [] = d
merged d ((k, v) ∷ payload) = merged (insert k v d) payload

pub record Hit (F : Type 0) : Type 0 where
  pub person_id : Option String
  pub score : F

module _ {Q F : Type 0} (api : Client Q F) where
  abbrev finished : Q × Bool → Option Q
  finished (client, returned) = if returned then some client else none

  abbrev created : String → Q → List String → Option Q
  created collection client collections =
      if contains collections collection
      then some client
      else finished (api.create_collection collection vector_size client)

  unfoldable pub ensure_collection : String → Q → Option Q
  ensure_collection collection client = do
    collections ← api.get_collections client
    created collection client collections

  -- The constructor, given a client that may not connect, or none where the collection cannot be made out or
  -- created.
  unfoldable pub init : String → Option Q → PersonGalleryManager Q
  init collection none = none
  init collection (some client) = ensure_collection collection client

  abbrev reported : Q → Option (Q × Bool) → PersonGalleryManager Q × Bool
  reported client none = (some client, false)
  reported client (some (after, returned)) = (some after, returned)

  module _ (parse_uuid : String → Option ℕ) (collection : String) where
    unfoldable pub upsert_embedding :
        String → List F → Payload → PersonGalleryManager Q → PersonGalleryManager Q × Bool
    upsert_embedding person_uuid embedding payload none = (none, false)
    upsert_embedding person_uuid embedding payload (some client) = reported client (do
      person ← parse_uuid person_uuid
      some (
          api.upsert collection (gallery_point_id person) embedding
            (merged (("person_id", person_uuid) ∷ []) payload) client))

    abbrev hit : ScoredPoint F → Hit F
    hit r = record { person_id = lookup "person_id" r.payload; score = r.score }

    abbrev hits : Option (List (ScoredPoint F)) → List (Hit F)
    hits none = []
    hits (some points) = map hit points

    unfoldable pub search_similar : List F → ℕ → F → PersonGalleryManager Q → List (Hit F)
    search_similar embedding limit score_threshold none = []
    search_similar embedding limit score_threshold (some client) =
        hits (api.query_points collection embedding limit score_threshold client)

    unfoldable pub delete_person : String → PersonGalleryManager Q → PersonGalleryManager Q × Bool
    delete_person person_uuid none = (none, false)
    delete_person person_uuid (some client) = reported client (do
      person ← parse_uuid person_uuid
      some (api.delete collection (gallery_point_id person ∷ []) client))
