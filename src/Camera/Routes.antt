-- ===== src/Camera/Routes.antt =====
-- apps/camera-service/src/api/camera_routes.py over the cameras' table. `parse_uuid` is the canonical text of
-- `uuid.UUID(text)`, and `isoformat` that of a time. A request that raises before its commit leaves the rows as they
-- were, and a commit that raises is left out. `refreshes` says whether what follows the commit, the refresh of the
-- camera and its mapping to a response, returns.
pub mod Creation
pub mod Changes
use intelligent_multi_camera.Prelude.{
  ℕ, zero, suc, ◌-◌, nat_eq, ◌<>◌, String, Bool, true, false, not, ◌&&◌, List, [], ◌∷◌, map, Option,
  none, some, leb, ◌==◌, if◌then◌else◌,
}
use intelligent_multi_camera.Prelude.Int.{ℤ, pos, negsuc}
use intelligent_multi_camera.Shared.Http.{Result, ok, failed, Headers}
use intelligent_multi_camera.Shared.Security.{Role, admin, operator, require_roles}
use intelligent_multi_camera.Camera.Service.{
  Camera, Flushed, stored, integrity_error, data_error, new_camera, put_row, with_settings,
  get_by_id, get_by_rtsp_url, list_all_cameras, get_status_counts, create_camera as create_row,
  update_camera as update_row, delete_camera as delete_row,
}
use intelligent_multi_camera.Camera.Validation.{
  ParseResult, CameraCreate, CameraUpdate, CreateBody, UpdateBody, validate_create, validate_update,
  validate_url,
}
use intelligent_multi_camera.Camera.Upload.{Accepted, test_video_file}

pub record CameraResponse : Type 0 where
  pub id : String
  pub name : String
  pub rtsp_url : String
  pub location : Option String
  pub status : String
  pub fps : ℕ
  pub created_at : String

pub record Summary : Type 0 where
  pub total : ℕ
  pub online : ℕ
  pub offline : ℕ

abbrev pub Answer : Type 0 → Type 0
Answer A = Result A × List Camera

-- `data.fps or 30`
abbrev pub fps_or_default : Option ℕ → ℕ
fps_or_default none = 30
fps_or_default (some fps) = if fps == 0 then 30 else fps

unfoldable pub get_status_summary : List Camera → Summary
get_status_summary rows =
    let (total, online) = get_status_counts rows in
    record { total = total; online = online; offline = total - online }

abbrev pub refreshed : Bool → Result CameraResponse → Result CameraResponse
refreshed refreshes response = if refreshes then response else failed 500

module _ (isoformat : ℕ → String) where
  unfoldable pub to_response_dto : Camera → CameraResponse
  to_response_dto camera = record {
    id = camera.id;
    name = camera.name;
    rtsp_url = camera.rtsp_url;
    location = camera.location;
    status = camera.status;
    fps = camera.fps;
    created_at = isoformat camera.created_at <> "Z";
  }

  abbrev pub created : Bool → Camera → List Camera → Flushed → Answer CameraResponse
  created refreshes camera rows (stored after) =
      (refreshed refreshes (ok (to_response_dto camera)), after)
  created refreshes camera rows integrity_error = (failed 409, rows)
  created refreshes camera rows data_error = (failed 500, rows)

  abbrev pub checked_create :
      Bool → CameraCreate → String → ℕ → List Camera → Option Camera → Answer CameraResponse
  checked_create refreshes given new_id now rows (some existing) = (failed 409, rows)
  checked_create refreshes given new_id now rows none =
      let fps = fps_or_default given.fps in
      created refreshes (new_camera new_id now given.name given.rtsp_url given.location fps) rows
        (create_row new_id now given.name given.rtsp_url given.location fps rows)

  -- `seen` are the rows when the handler looks for the URL, and `rows` those when it inserts.
  unfoldable pub create_camera :
      Bool → CameraCreate → String → ℕ → List Camera → List Camera → Answer CameraResponse
  create_camera refreshes given new_id now seen rows =
      checked_create refreshes given new_id now rows (get_by_rtsp_url given.rtsp_url seen)

  abbrev pub found : Option Camera → Result CameraResponse
  found none = failed 404
  found (some camera) = ok (to_response_dto camera)

  abbrev pub stored_update : Bool → String → List Camera → Option Flushed → Answer CameraResponse
  stored_update refreshes camera_id rows none = (failed 404, rows)
  stored_update refreshes camera_id rows (some (stored after)) =
      (refreshed refreshes (found (get_by_id camera_id after)), after)
  stored_update refreshes camera_id rows (some integrity_error) = (failed 500, rows)
  stored_update refreshes camera_id rows (some data_error) = (failed 500, rows)

  abbrev pub stored_delete : Bool × List Camera → List Camera → Answer Unit
  stored_delete (deleted, after) rows = if deleted then (ok tt, after) else (failed 404, rows)

  module _ (parse_uuid : String → Option String) where
    unfoldable pub get_camera : String → List Camera → Result CameraResponse
    get_camera camera_id rows = elim (parse_uuid camera_id) [
      | none ↦ failed 400
      | some c_uuid ↦ found (get_by_id c_uuid rows)
    ]

    unfoldable pub update_camera :
        Bool → String → CameraUpdate → List Camera → Answer CameraResponse
    update_camera refreshes camera_id given rows = elim (parse_uuid camera_id) [
      | none ↦ (failed 400, rows)
      | some c_uuid ↦
          stored_update refreshes c_uuid rows
            (update_row c_uuid given.name given.location given.fps rows)
    ]

    unfoldable pub delete_camera : String → List Camera → Answer (Unit {0})
    delete_camera camera_id rows = elim (parse_uuid camera_id) [
      | none ↦ (failed 400, rows)
      | some c_uuid ↦ stored_delete (delete_row c_uuid rows) rows
    ]
