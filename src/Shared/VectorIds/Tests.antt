-- ===== src/Shared/VectorIds/Tests.antt =====
-- The ids of one random UUID.
use intelligent_multi_camera.Prelude.{ℕ, ◌*◌, ◌+◌, ◌^◌, ◌≡◌, ◌≢◌, refl}
use intelligent_multi_camera.Shared.VectorIds.{
  shared_point_id, gallery_point_id, matched_person, stored_by_gallery_lost,
}

abbrev person : ℕ
person = 4 * 2 ^ 76 + 12345

stored_by_gallery_lost_example :
    (matched_person (shared_point_id person) ≡ person)
    × (matched_person (gallery_point_id person) ≢ person)
    × ((other : ℕ) → gallery_point_id person ≢ shared_point_id other)
stored_by_gallery_lost_example = stored_by_gallery_lost person refl
