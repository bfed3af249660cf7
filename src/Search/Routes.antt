-- ===== src/Search/Routes.antt =====
-- apps/search-service/src/api/search_routes.py and src/services/search_service.py, and the request of
-- packages/contracts/dto/search.py. `text_of` prints a UUID. The route raises where the vector store does.
pub mod Answers
mod Tests
use intelligent_multi_camera.Prelude.{
  ℕ, nat_eq, String, Bool, true, false, not, ◌&&◌, List, [], ◌∷◌, map, Option, none, some, leb, ltb,
  ◌==◌, if◌then◌else◌, length,
}
use intelligent_multi_camera.Prelude.Int.{ℤ, pos, negsuc}
use intelligent_multi_camera.Prelude.Float.{Float, float, ◌<?◌, ◌≤?◌}
use intelligent_multi_camera.Shared.Http.{Result, ok, failed, Headers}
use intelligent_multi_camera.Shared.Security.{Role, admin, operator, require_roles}
use intelligent_multi_camera.Shared.Qdrant.{Payload, Client}
use intelligent_multi_camera.Shared.VectorStore.{QdrantVectorStore, Match, Outcome, search_similar}

-- The body of a request, before validation.
pub record SearchByImageRequest (F : Type 0) : Type 0 where
  pub embedding : List F
  pub limit : Option ℤ
  pub threshold : Option F

pub record SearchResult (F : Type 0) : Type 0 where
  pub person_id : String
  pub score : F
  pub payload : Payload

-- `limit`: `Field(5, ge=1, le=50)`.
unfoldable pub valid_limit : Option ℤ → Option (Option ℕ)
valid_limit none = some none
valid_limit (some (pos n)) = if leb 1 n && leb n 50 then some (some n) else none
valid_limit (some (negsuc n)) = none

abbrev pub limit_or_default : Option ℕ → ℕ
limit_or_default none = 5
limit_or_default (some n) = n

module _ {F : Type 0} ⦃fl : Float F⦄ where
  -- `threshold`: `Field(0.70, ge=0.0, le=1.0)`.
  unfoldable pub valid_threshold : Option F → Bool
  valid_threshold none = true
  valid_threshold (some t) = float 0 ≤? t && t ≤? float 1

  abbrev pub threshold_or_default : Option F → F
  threshold_or_default none = fl.ratio 70 100
  threshold_or_default (some t) = t

  abbrev pub to_result : (ℕ → String) → Match F → SearchResult F
  to_result text_of m = record {
    person_id = text_of m.person_id;
    score = m.score;
    payload = m.payload;
  }

  module _ {Q : Type 0} (api : Client Q F) (text_of : ℕ → String) where
    -- `SearchService`.
    unfoldable pub search_by_image_embedding :
        List F → ℕ → F → QdrantVectorStore Q → Outcome Q (List (Match F))
    search_by_image_embedding embedding limit threshold store =
        if not (length embedding == 512)
        then (store, some [])
        else search_similar api embedding limit threshold store

    abbrev pub answer :
        Outcome Q (List (Match F)) → QdrantVectorStore Q × Result (List (SearchResult F))
    answer (store, none) = (store, failed 500)
    answer (store, some matches) = (store, ok (map (to_result text_of) matches))

    -- The handler, of a validated request.
    unfoldable pub search_by_image :
        List F
        → Option ℕ
        → Option F
        → QdrantVectorStore Q
        → QdrantVectorStore Q × Result (List (SearchResult F))
    search_by_image embedding limit threshold store =
        if not (length embedding == 512)
        then (store, failed 422)
        else if threshold_or_default threshold <? fl.ratio 50 100
        then (store, failed 400)
        else answer (
            search_by_image_embedding embedding (limit_or_default limit)
              (threshold_or_default threshold) store)

    abbrev pub validated :
        SearchByImageRequest F
        → Option (Option ℕ)
        → QdrantVectorStore Q
        → QdrantVectorStore Q × Result (List (SearchResult F))
    validated body none store = (store, failed 422)
    validated body (some limit) store =
        if length body.embedding == 512 && valid_threshold body.threshold
        then search_by_image body.embedding limit body.threshold store
        else (store, failed 422)

    module _ (get : String → Headers → Option String) (expected_key : String) where
      unfoldable pub handle :
          Headers
          → SearchByImageRequest F
          → QdrantVectorStore Q
          → QdrantVectorStore Q × Result (List (SearchResult F))
      handle lines body store =
          elim (require_roles get expected_key (admin ∷ operator ∷ []) lines) [
            | failed status ↦ (store, failed status)
            | ok user ↦ validated body (valid_limit body.limit) store
          ]
