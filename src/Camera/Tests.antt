-- ===== src/Camera/Tests.antt =====
-- Runs of the camera service, and its theorems at concrete requests.
use intelligent_multi_camera.Prelude.{
  ℕ, nat_eq, ◌≡◌, refl, String, string_eq, Bool, true, false, not, ◌||◌, ◌⊎◌, List, [], ◌∷◌, Option,
  none, some, arith, ltb, ◌==◌, if◌then◌else◌, length, keep,
}
use intelligent_multi_camera.Prelude.Int.{pos}
use intelligent_multi_camera.Prelude.Text.{same_name, strip, int_of}
use intelligent_multi_camera.Shared.Http.{ok, failed, first_value, Headers}
use intelligent_multi_camera.Shared.Security.{
  parse_role, role_of, require_internal_user, require_roles,
}
use intelligent_multi_camera.Camera.Service.{
  Camera, fits, satisfies, not_blank, no_space, after, has_scheme, first_camera, write_row,
  create_camera as create_row, get_by_id, get_by_rtsp_url, put_row, update_camera as update_row,
  update_status, delete_camera as delete_row, get_status_counts, comes_first, insert_row, order_by,
  list_all_cameras, is_some, clash,
}
use intelligent_multi_camera.Camera.Service.Table.{
  IsTable, Operation, create, update, delete, set_status, operate_all,
}
use intelligent_multi_camera.Camera.Service.Pages.{IsNewestFirst, read_pages, read_pages_complete}
use intelligent_multi_camera.Camera.Validation.{
  ParseResult, no_port, CreateBody, CameraCreate, CameraUpdate, has_space, validate_name,
  validate_location, validate_fps, validate_rtsp_url, validate_create, validate_update,
}
use intelligent_multi_camera.Camera.Upload.{
  video_upload_max_bytes, allowed_extension, allowed_content_type, read_chunks, test_video_file,
  test_video_file_by_size,
}
use intelligent_multi_camera.Camera.Routes.{
  refreshed, to_response_dto, create_camera, get_camera, update_camera, delete_camera,
}
use intelligent_multi_camera.Camera.Routes.Creation.{row_of, create_camera_decides}
use intelligent_multi_camera.Camera.Routes.Changes.{update_camera_found}
use Prim.Native.String.{count}
use intelligent_multi_camera.Camera.Router
use intelligent_multi_camera.Camera.Router.{Call, Server, Reply, handle, serve, require_admin}
use intelligent_multi_camera.Camera.Router.Access.{changes_need_admin}
use intelligent_multi_camera.Camera.Router.Atomic.{refreshing, failed_changes_nothing}

program : Unit {0}
unfolding same_name strip int_of first_value parse_role role_of require_internal_user require_roles
    fits satisfies not_blank no_space after has_scheme first_camera write_row create_row get_by_id
    get_by_rtsp_url put_row update_row update_status delete_row get_status_counts comes_first
    insert_row order_by list_all_cameras has_space validate_name validate_location validate_fps
    validate_rtsp_url validate_create validate_update allowed_extension allowed_content_type
    read_chunks test_video_file to_response_dto create_camera get_camera update_camera delete_camera
    handle serve string_eq nat_eq
program = tt

abbrev hall : Camera
hall = record {
  id = "a";
  name = "Hall";
  rtsp_url = "rtsp://h/1";
  location = none;
  status = "DISCONNECTED";
  fps = 30;
  created_at = 5;
}

abbrev gate : Camera
gate = record hall { id = "b"; name = "Gate"; rtsp_url = "RTSP://h/2"; created_at = 7 }

abbrev table : List Camera
table = hall ∷ gate ∷ []

table-IsTable : IsTable table
unfolding program
table-IsTable = (refl, refl, (refl, refl, tt))

abbrev operations : List Operation
operations =
    create "c" 9 "Yard" "rtsp://h/1" none 25
    ∷ create "c" 9 "Yard" "rtsp://h/3" none 25
    ∷ update "a" (some "Lobby") none none
    ∷ set_status "b" "BROKEN"
    ∷ delete "b"
    ∷ []

-- The first creation clashes and the status is not allowed.
operates :
    operate_all table operations
    ≡ record hall { id = "c"; name = "Yard"; rtsp_url = "rtsp://h/3"; fps = 25; created_at = 9 }
      ∷ record hall { name = "Lobby" }
      ∷ []
unfolding program
operates = refl

abbrev before : String → String → Bool
before s t = s == "a" || t == "b"

abbrev is_gate : Camera → Bool
is_gate c = c.id == "b"

pages : read_pages before 1 2 0 table ≡ gate ∷ hall ∷ []
unfolding program
pages = refl

read_pages_complete_example :
    (length (keep is_gate (read_pages before 1 3 0 table)) ≡ length (keep is_gate table))
    × IsNewestFirst (read_pages before 1 3 0 table)
read_pages_complete_example = read_pages_complete before 1 3 table is_gate (omega arith)

-- A file is named by its extension.
abbrev same_text : String → String
same_text s = s

accepts :
    test_video_file same_text same_text (some ".MP4") (some "video/mp4") 3000000
    ≡ some (ok (record { filename = ".MP4"; size_bytes = 3000000 }))
unfolding program
accepts = refl

abbrev too_many : ℕ
too_many = 262144001

test_video_file_by_size_example :
    test_video_file same_text same_text (some ".avi") (some "video/mp4") too_many
    ≡ some (
        if not (allowed_extension ".avi") || not (allowed_content_type (some "video/mp4"))
        then failed 415
        else if ltb video_upload_max_bytes too_many
        then failed 413
        else if too_many == 0
        then failed 422
        else ok (record { filename = ".avi"; size_bytes = too_many }))
test_video_file_by_size_example =
    test_video_file_by_size same_text same_text (some ".avi") (some "video/mp4") too_many

abbrev parsed : ParseResult
parsed = record {
  scheme = "rtsp";
  netloc = "h";
  hostname = some "h";
  fragment = "";
  port_of = no_port;
}

abbrev urlparse : String → Option ParseResult
urlparse url = some parsed

abbrev isoformat : ℕ → String
isoformat t = "t"

abbrev parse_uuid : String → Option String
parse_uuid text = if text == "bad" then none else some text

abbrev server : Server
server = record {
  get = first_value;
  expected_key = "k";
  urlparse = urlparse;
  parse_uuid = parse_uuid;
  isoformat = isoformat;
  before = before;
  name_of = same_text;
  suffix_of = same_text;
  camera_list_max_limit = 100;
}

abbrev body : CreateBody
body = record { name = " Yard "; rtsp_url = "rtsp://h/3"; location = none; fps = some (pos 25) }

abbrev given : CameraCreate
given = record { name = "Yard"; rtsp_url = "rtsp://h/3"; location = none; fps = some 25 }

create_camera_decides_example : create_camera isoformat true given "c" 9 table table ≡ (
    if is_some (get_by_rtsp_url given.rtsp_url table)
    then (failed 409, table)
    else if ltb 255 (count given.rtsp_url)
    then (failed 500, table)
    else if is_some (first_camera (clash (row_of given "c" 9)) table)
    then (failed 409, table)
    else (
      refreshed true (ok (to_response_dto isoformat (row_of given "c" 9))),
      row_of given "c" 9 ∷ table,
    ))
unfolding program
create_camera_decides_example =
    create_camera_decides isoformat urlparse true body given "c" 9 table table refl refl

abbrev renamed : CameraUpdate
renamed = record { name = some "Lobby"; location = none; fps = none }

abbrev lobby : Camera
lobby = record hall { name = "Lobby" }

update_camera_found_example :
    (get_camera isoformat parse_uuid "a" (lobby ∷ gate ∷ []) ≡ ok (to_response_dto isoformat lobby))
    × (get_camera isoformat parse_uuid "b" (lobby ∷ gate ∷ [])
        ≡ get_camera isoformat parse_uuid "b" table)
unfolding program
update_camera_found_example =
    update_camera_found isoformat parse_uuid true renamed "a" "a" "b" "b" table (lobby ∷ gate ∷ [])
      (to_response_dto isoformat lobby) refl refl refl refl

abbrev headers_of : String → Headers
headers_of role = ("X-Internal-Service-Key", "k") ∷ ("X-User-Id", "u") ∷ ("X-User-Role", role) ∷ []

abbrev deletion : Call
deletion = Router.delete "a"

operator_refused : handle server (headers_of "2") deletion table ≡ (failed 403, table)
unfolding program
operator_refused = refl

admin_deletes : handle server (headers_of "1") deletion table ≡ (ok Router.no_content, gate ∷ [])
unfolding program
admin_deletes = refl

changes_need_admin_example : (handle server (headers_of "2") deletion table).1 ≡ table
unfolding program
changes_need_admin_example = changes_need_admin server (headers_of "2") deletion table 403 refl

-- The URL is taken by the time of the insertion.
abbrev creation : Call
creation = Router.create true (record body { rtsp_url = "rtsp://h/1" }) "c" 9 []

conflict : handle server (headers_of "1") creation table ≡ (failed 409, table)
unfolding program
conflict = refl

-- The camera is stored, and its refresh fails.
abbrev unrefreshed : Call
unrefreshed = Router.create false body "c" 9 []

failed_changes_nothing_example :
    let status : ℕ = 500 in
    let left = (handle server (headers_of "1") unrefreshed table).1 in
    (left ≡ table)
    ⊎ ((false ≡ false)
        × (status ≡ 500)
        × ((r : Router.Reply) × (handle server (headers_of "1") (refreshing unrefreshed) table
              ≡ (ok r, left))))
unfolding program
failed_changes_nothing_example =
    failed_changes_nothing server (headers_of "1") unrefreshed table 500 refl
