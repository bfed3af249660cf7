-- ===== src/Camera/Routes/Creation.antt =====
-- How the creation of a camera ends, and what is read of it afterwards.
use intelligent_multi_camera.Prelude.{
  ℕ, ◌≡◌, refl, sym, ◌∙◌, ap, inl, inr, String, string_eq, Bool, true, List, ◌∷◌, Option, none,
  some, arith, ltb, leb, ◌==◌, Option-cases, if◌then◌else◌,
}
use intelligent_multi_camera.Shared.Http.{ok, failed}
use intelligent_multi_camera.Camera.Service.{
  Camera, fits, satisfies, has_scheme, first_camera, clash, new_camera, is_some, get_by_id,
  get_by_rtsp_url, write_row, create_camera as create_row,
}
use intelligent_multi_camera.Camera.Service.Lookup.{write_row-cases}
use intelligent_multi_camera.Camera.Validation.{
  ParseResult, CreateBody, CameraCreate, validate_create,
}
use intelligent_multi_camera.Camera.Validation.Facts.{
  validated_create, validated_name, validated_location, validated_fps,
}
use intelligent_multi_camera.Camera.Routes.{
  refreshed, fps_or_default, to_response_dto, CameraResponse, Answer, create_camera, get_camera,
  checked_create,
}
use Prim.Native.String.{count}

-- The row of a validated request.
abbrev pub row_of : CameraCreate → String → ℕ → Camera
row_of given new_id now =
    new_camera new_id now given.name given.rtsp_url given.location (fps_or_default given.fps)

row_satisfies :
    (urlparse : String → Option ParseResult) (body : CreateBody) (given : CameraCreate)
    (new_id : String) (now : ℕ)
    → validate_create urlparse body ≡ some given
    → has_scheme given.rtsp_url ≡ true
    → satisfies (row_of given new_id now) ≡ true
unfolding satisfies string_eq
row_satisfies urlparse body given new_id now valid scheme =
    let (n, l, f) = validated_create urlparse body given valid in
    let (narrow, filled) = validated_name body.name given.name n in
    let (low, high) = validated_fps body.fps given.fps f in
    rw filled (rw scheme (rw low (rw high refl)))

row_fits :
    (urlparse : String → Option ParseResult) (body : CreateBody) (given : CameraCreate)
    (new_id : String) (now : ℕ)
    → validate_create urlparse body ≡ some given
    → fits (row_of given new_id now) ≡ leb (count given.rtsp_url) 255
unfolding fits
row_fits urlparse body given new_id now valid =
    let (n, l, f) = validated_create urlparse body given valid in
    let (narrow, filled) = validated_name body.name given.name n in
    let short = validated_location body.location given.location l in
    rw narrow (rw short (ground arith))

-- A request to create a camera that passed validation, with a URL behind rtsp:// or rtsps://, ends in one of four
-- ways: a conflict when the URL is seen, a server error when it is longer than its column, a conflict when the id
-- or the URL has been taken since, and otherwise the new camera, with a server error as the answer where its refresh
-- after the commit fails.
pub create_camera_decides :
    (isoformat : ℕ → String) (urlparse : String → Option ParseResult) (refreshes : Bool)
    (body : CreateBody) (given : CameraCreate) (new_id : String) (now : ℕ) (seen rows : List Camera)
    → validate_create urlparse body ≡ some given
    → has_scheme given.rtsp_url ≡ true
    → let camera = row_of given new_id now in
      create_camera isoformat refreshes given new_id now seen rows ≡ (
        if is_some (get_by_rtsp_url given.rtsp_url seen)
        then (failed 409, rows)
        else if ltb 255 (count given.rtsp_url)
        then (failed 500, rows)
        else if is_some (first_camera (clash camera) rows)
        then (failed 409, rows)
        else (refreshed refreshes (ok (to_response_dto isoformat camera)), camera ∷ rows))
unfolding create_camera create_row write_row
create_camera_decides isoformat urlparse refreshes body given new_id now seen rows valid scheme =
    let camera = row_of given new_id now in
    let good = row_satisfies urlparse body given new_id now valid scheme in
    let wide = row_fits urlparse body given new_id now valid in
    elim (Option-cases (get_by_rtsp_url given.rtsp_url seen)) [
      | inr (c, taken) ↦ rw (taken, create_camera) refl
      | inl free ↦ rw (free, create_camera) (rw good (rw wide (ground arith)))
    ]

-- What the handler does when the URL is not seen.
abbrev stored_create :
    (ℕ → String) → Bool → CameraCreate → String → ℕ → List Camera → Answer CameraResponse
stored_create isoformat refreshes given new_id now rows =
    checked_create isoformat refreshes given new_id now rows none

stored_create_found :
    (isoformat : ℕ → String) (parse_uuid : String → Option String) (refreshes : Bool)
    (given : CameraCreate) (text new_id : String) (now : ℕ) (rows after : List Camera)
    (r : CameraResponse)
    → parse_uuid text ≡ some new_id
    → stored_create isoformat refreshes given new_id now rows ≡ (ok r, after)
    → get_camera isoformat parse_uuid text after ≡ ok r
unfolding create_row get_camera get_by_id first_camera
stored_create_found isoformat parse_uuid refreshes given text new_id now rows after r parsed done =
    let camera = row_of given new_id now in
    let taken = is_some (first_camera (clash camera) rows) in
    elim (write_row-cases camera taken (camera ∷ rows)) [
      | inl good ↦
          let e : stored_create isoformat refreshes given new_id now rows
              ≡ (refreshed refreshes (ok (to_response_dto isoformat camera)), camera ∷ rows) =
            rw good refl in
          let same_rows : after ≡ camera ∷ rows = ground arith in
          let same : r ≡ to_response_dto isoformat camera = ground arith in
          let here : (new_id == new_id) ≡ true = ground arith in
          rw (parsed, get_camera) (rw (same_rows, get_by_id) (rw here (ap ok (sym same))))
      | inr (inl bad) ↦
          let e : stored_create isoformat refreshes given new_id now rows ≡ (failed 409, rows) =
            rw bad refl in
          absurd (ground arith)
      | inr (inr bad) ↦
          let e : stored_create isoformat refreshes given new_id now rows ≡ (failed 500, rows) =
            rw bad refl in
          absurd (ground arith)
    ]

-- A camera that was created is read back by its id as the creation answered.
pub created_camera_found :
    (isoformat : ℕ → String) (parse_uuid : String → Option String) (refreshes : Bool)
    (given : CameraCreate) (text new_id : String) (now : ℕ) (seen rows after : List Camera)
    (r : CameraResponse)
    → parse_uuid text ≡ some new_id
    → create_camera isoformat refreshes given new_id now seen rows ≡ (ok r, after)
    → get_camera isoformat parse_uuid text after ≡ ok r
unfolding create_camera
created_camera_found isoformat parse_uuid refreshes given text new_id now seen rows after r parsed
      done =
    elim (Option-cases (get_by_rtsp_url given.rtsp_url seen)) [
      | inr (c, taken) ↦
          let e : create_camera isoformat refreshes given new_id now seen rows
              ≡ (failed 409, rows) =
            rw (taken, create_camera) refl in
          absurd (ground arith)
      | inl free ↦
          let e : create_camera isoformat refreshes given new_id now seen rows
              ≡ stored_create isoformat refreshes given new_id now rows =
            rw (free, create_camera) refl in
          stored_create_found isoformat parse_uuid refreshes given text new_id now rows after r
            parsed (sym e ∙ done)
    ]
