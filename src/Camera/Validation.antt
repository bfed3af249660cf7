-- ===== src/Camera/Validation.antt =====
-- packages/contracts/dto/camera.py, and `VideoUrlTestRequest` of apps/camera-service/src/api/camera_routes.py.
-- `urlparse` is a parameter.
pub mod Facts
use intelligent_multi_camera.Prelude.{
  ◌>>=◌, ℕ, zero, suc, String, string_eq, Bool, true, false, not, ◌&&◌, ◌||◌, List, [], ◌∷◌, Option,
  none, some, leb, contains, ◌==◌, if◌then◌else◌,
}
use intelligent_multi_camera.Prelude.Int.{ℤ, pos, negsuc}
use intelligent_multi_camera.Prelude.Text.{is_empty, is_space, same_name, strip}
use Prim.Native.String.{String as Text, count}
use Prim.Native.Char.{code}

-- The port of a parsed URL, which raises where it is no port.
pub data Port : Type 0 where
  no_port bad_port : Port
  port : ℕ → Port

pub record ParseResult : Type 0 where
  pub scheme : String
  pub netloc : String
  pub hostname : Option String
  pub fragment : String
  pub port_of : Port

unfoldable pub has_space : String → Bool
has_space Text.[] = false
has_space (Text.◌∷◌ c s) = is_space (code c) || has_space s

-- A value that a validator returns, or `none` where it raises.
abbrev nonblank : String → Option String
nonblank stripped = if is_empty stripped then none else some stripped

-- `name`: its length, then `strip_text_fields`.
unfoldable pub validate_name : String → Option String
validate_name v = if leb 1 (count v) && leb (count v) 100 then nonblank (strip v) else none

abbrev pub given {ℓ} : {A : Type ℓ} → Option A → Option (Option A)
given none = none
given (some a) = some (some a)

unfoldable pub validate_location : Option String → Option (Option String)
validate_location none = some none
validate_location (some v) = if leb (count v) 255 then given (nonblank (strip v)) else none

-- `Field(ge=1, le=120)`
unfoldable pub validate_fps : Option ℤ → Option (Option ℕ)
validate_fps none = some none
validate_fps (some (pos n)) = if leb 1 n && leb n 120 then some (some n) else none
validate_fps (some (negsuc n)) = none

abbrev has_host : Option String → Bool
has_host none = false
has_host (some h) = not (is_empty h)

abbrev good_port : Port → Bool
good_port no_port = true
good_port bad_port = false
good_port (port n) = leb 1 n && leb n 65535

abbrev one_of : List String → String → Bool
one_of [] scheme = false
one_of (s ∷ schemes) scheme = same_name scheme s || one_of schemes scheme

module _ (urlparse : String → Option ParseResult) where
  abbrev checked_rtsp_url : String → Option ParseResult → Option String
  checked_rtsp_url v none = none
  checked_rtsp_url v (some parsed) =
      if one_of ("rtsp" ∷ "rtsps" ∷ []) parsed.scheme
        && has_host parsed.hostname
        && is_empty parsed.fragment
        && good_port parsed.port_of
      then some v
      else none

  unfoldable pub validate_rtsp_url : String → Option String
  validate_rtsp_url v =
      if leb (count v) 500 && not (has_space (strip v))
      then checked_rtsp_url (strip v) (urlparse (strip v))
      else none

  abbrev checked_video_url : String → Option ParseResult → Option String
  checked_video_url normalized none = none
  checked_video_url normalized (some parsed) =
      if one_of ("rtsp" ∷ "http" ∷ "https" ∷ []) parsed.scheme
        && not (is_empty parsed.netloc)
        && not (has_space normalized)
      then some normalized
      else none

  -- `VideoUrlTestRequest.url`
  unfoldable pub validate_url : String → Option String
  validate_url value =
      if leb 1 (count value) && leb (count value) 2048
      then checked_video_url (strip value) (urlparse (strip value))
      else none

pub record CameraCreate : Type 0 where
  pub name : String
  pub rtsp_url : String
  pub location : Option String
  pub fps : Option ℕ

pub record CameraUpdate : Type 0 where
  pub name : Option String
  pub location : Option String
  pub fps : Option ℕ

-- The body of a request to create a camera; a field `fps` that is left out is 30.
pub record CreateBody : Type 0 where
  pub name : String
  pub rtsp_url : String
  pub location : Option String
  pub fps : Option ℤ

pub record UpdateBody : Type 0 where
  pub name : Option String
  pub location : Option String
  pub fps : Option ℤ

unfoldable pub validate_create : (String → Option ParseResult) → CreateBody → Option CameraCreate
validate_create urlparse body = do
  name ← validate_name body.name
  rtsp_url ← validate_rtsp_url urlparse body.rtsp_url
  location ← validate_location body.location
  fps ← validate_fps body.fps
  some (record { name = name; rtsp_url = rtsp_url; location = location; fps = fps })

abbrev validate_given_name : Option String → Option (Option String)
validate_given_name none = some none
validate_given_name (some v) = given (validate_name v)

unfoldable pub validate_update : UpdateBody → Option CameraUpdate
validate_update body = do
  name ← validate_given_name body.name
  location ← validate_location body.location
  fps ← validate_fps body.fps
  some (record { name = name; location = location; fps = fps })
