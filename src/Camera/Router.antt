-- ===== src/Camera/Router.antt =====
-- The router of apps/camera-service/src/api/camera_routes.py: each request with its dependency on the user's
-- role, the validation of its parameters, and its handler.
pub mod Access
pub mod Atomic
use intelligent_multi_camera.Prelude.{
  ℕ, zero, suc, String, Bool, List, [], ◌∷◌, map, Option, none, some, leb, ◌&&◌, if◌then◌else◌,
}
use intelligent_multi_camera.Prelude.Int.{ℤ, pos, negsuc}
use intelligent_multi_camera.Shared.Http.{Result, ok, failed, Headers}
use intelligent_multi_camera.Shared.Security.{Role, admin, operator, require_roles}
use intelligent_multi_camera.Camera.Service.{Camera, list_all_cameras}
use intelligent_multi_camera.Camera.Validation.{
  ParseResult, CreateBody, UpdateBody, validate_create, validate_update, validate_url,
}
use intelligent_multi_camera.Camera.Upload.{Accepted, test_video_file}
use intelligent_multi_camera.Camera.Routes.{
  CameraResponse, Summary, Answer, get_status_summary, to_response_dto, create_camera, get_camera,
  update_camera, delete_camera,
}

-- The requests of the router, their parameters before validation. `create` carries the fresh id and the
-- time, and a change of a camera begins with whether it is refreshed after its commit.
pub data Call : Type 0 where
  create : Bool → CreateBody → String → ℕ → List Camera → Call
  list : ℤ → ℤ → Call
  summary : Call
  test_url : String → Call
  test_video : Option String → Option String → ℕ → Call
  get_one : String → Call
  update : Bool → String → UpdateBody → Call
  delete : String → Call

pub data Reply : Type 0 where
  camera : CameraResponse → Reply
  cameras : List CameraResponse → Reply
  counts : Summary → Reply
  url_accepted : String → Reply
  video_accepted : Accepted → Reply
  no_content : Reply

-- What the handlers use of the settings and of other libraries.
pub record Server : Type 0 where
  pub get : String → Headers → Option String
  pub expected_key : String
  pub urlparse : String → Option ParseResult
  pub parse_uuid : String → Option String
  pub isoformat : ℕ → String
  pub before : String → String → Bool
  pub name_of : String → String
  pub suffix_of : String → String
  pub camera_list_max_limit : ℕ

abbrev pub replied : {A : Type 0} → (A → Reply) → Result A → Result Reply
replied f (ok a) = ok (f a)
replied f (failed status) = failed status

abbrev pub answered : {A : Type 0} → (A → Reply) → Answer A → Answer Reply
answered f (r, rows) = (replied f r, rows)

-- A body that is refused is answered by 422.
abbrev pub with_body : {A : Type 0} → Option A → List Camera → (A → Answer Reply) → Answer Reply
with_body none rows handler = (failed 422, rows)
with_body (some a) rows handler = handler a

-- `Query(ge=1, le=limit)` and `Query(ge=0)`
abbrev natural : ℤ → Option ℕ
natural (pos n) = some n
natural (negsuc n) = none

abbrev within : ℕ → Option ℕ → Option ℕ
within most none = none
within most (some n) = if leb 1 n && leb n most then some n else none

-- Running out of fuel, which does not happen, is a failure.
abbrev settled : Option (Result Accepted) → Result Accepted
settled none = failed 500
settled (some r) = r

abbrev pub require_admin : List Role
require_admin = admin ∷ []

abbrev pub require_operator : List Role
require_operator = admin ∷ operator ∷ []

abbrev pub role_required : Call → List Role
role_required (create refreshes body new_id now seen) = require_admin
role_required (update refreshes camera_id body) = require_admin
role_required (delete camera_id) = require_admin
role_required (list limit offset) = require_operator
role_required summary = require_operator
role_required (test_url url) = require_operator
role_required (test_video filename content_type size) = require_operator
role_required (get_one camera_id) = require_operator

module _ (s : Server) where
  abbrev page : List Camera → Option ℕ → Option ℕ → Result Reply
  page rows none offset = failed 422
  page rows (some limit) none = failed 422
  page rows (some limit) (some offset) = ok (
      cameras
        (map (to_response_dto s.isoformat) (list_all_cameras s.before (some limit) offset rows)))

  abbrev accept_url : Option String → Result Reply
  accept_url none = failed 422
  accept_url (some url) = ok (url_accepted url)

  -- A request of an admitted user.
  unfoldable pub serve : Call → List Camera → Answer Reply
  serve (create refreshes body new_id now seen) rows =
      with_body (validate_create s.urlparse body) rows
        (λ given. answered camera (create_camera s.isoformat refreshes given new_id now seen rows))
  serve (list limit offset) rows =
      (page rows (within s.camera_list_max_limit (natural limit)) (natural offset), rows)
  serve summary rows = (ok (counts (get_status_summary rows)), rows)
  serve (test_url url) rows = (accept_url (validate_url s.urlparse url), rows)
  serve (test_video filename content_type size) rows = (
    replied video_accepted
        (settled (test_video_file s.name_of s.suffix_of filename content_type size)),
    rows,
  )
  serve (get_one camera_id) rows =
      (replied camera (get_camera s.isoformat s.parse_uuid camera_id rows), rows)
  serve (update refreshes camera_id body) rows = with_body (validate_update body) rows (λ given.
      answered camera (update_camera s.isoformat s.parse_uuid refreshes camera_id given rows))
  serve (delete camera_id) rows =
      answered (λ _. no_content) (delete_camera s.isoformat s.parse_uuid camera_id rows)

  -- The dependency on the user's role runs before the handler and before the body is validated.
  unfoldable pub handle : Headers → Call → List Camera → Answer Reply
  handle lines call rows = elim (require_roles s.get s.expected_key (role_required call) lines) [
    | failed status ↦ (failed status, rows)
    | ok user ↦ serve call rows
  ]
