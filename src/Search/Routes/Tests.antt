-- ===== src/Search/Routes/Tests.antt =====
-- Runs of the search route, and its theorem at a concrete request.
use intelligent_multi_camera.Prelude.{
  ℕ, zero, suc, ◌≡◌, refl, nat_eq, string_eq, String, true, List, [], ◌∷◌, some, none,
}
use intelligent_multi_camera.Prelude.Float.{hundredths}
use intelligent_multi_camera.Prelude.Int.{ℤ, pos}
use intelligent_multi_camera.Prelude.Text.{same_name, strip, int_of}
use intelligent_multi_camera.Shared.Http.{failed, first_value, Headers}
use intelligent_multi_camera.Shared.Security.{
  parse_role, role_of, require_internal_user, require_roles,
}
use intelligent_multi_camera.Shared.VectorIds.{PointId, uuid, shared_point_id, matched_person}
use intelligent_multi_camera.Shared.VectorStore.{
  QdrantVectorStore, ensure_collection, search_similar,
}
use intelligent_multi_camera.Shared.VectorStore.Plain.{plain}
use intelligent_multi_camera.Search.Routes.{
  SearchByImageRequest, SearchResult, valid_limit, valid_threshold, search_by_image_embedding,
  search_by_image, handle,
}

program : Unit {0}
unfolding same_name strip int_of first_value parse_role role_of require_internal_user require_roles
    ensure_collection search_similar shared_point_id matched_person valid_limit valid_threshold
    search_by_image_embedding search_by_image handle nat_eq string_eq
program = tt

abbrev zeros : ℕ → List ℤ
zeros zero = []
zeros (suc n) = pos 0 ∷ zeros n

abbrev body : SearchByImageRequest ℤ
body = record { embedding = zeros 512; limit = none; threshold = some (pos 60) }

abbrev store : QdrantVectorStore (List PointId)
store = record { client = uuid 5 ∷ []; collection_checked = true }

abbrev lines : Headers
lines = ("X-Internal-Service-Key", "k") ∷ ("X-User-Id", "u") ∷ ("X-User-Role", "2") ∷ []

abbrev text_of : ℕ → String
text_of p = "person"

abbrev results : List (SearchResult ℤ)
results = record { person_id = "person"; score = pos 90; payload = [] } ∷ []

low_threshold :
    handle plain text_of first_value "k" lines (record body { threshold = some (pos 40) }) store
    ≡ (store, failed 400)
unfolding program
low_threshold = refl
