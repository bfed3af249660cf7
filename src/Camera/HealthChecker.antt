-- ===== src/Camera/HealthChecker.antt =====
-- apps/camera-service/src/services/health_checker.py. `netloc_of` is the netloc that `urlparse` gives, `none` where
-- it raises, and `connects` whether a connection is opened in time. Times are seconds.
pub mod Results
pub mod Batch
pub mod Freshness
mod Tests
use intelligent_multi_camera.Prelude.{
  ℕ, zero, suc, ◌+◌, ◌-◌, nat_eq, string_eq, String, Bool, true, false, not, ◌&&◌, List, [], ◌∷◌,
  map, Option, none, some, ltb, leb, ◌==◌, ◌>>=◌, if◌then◌else◌,
}
use intelligent_multi_camera.Prelude.Int.{ℤ, pos}
use intelligent_multi_camera.Prelude.Text.{is_empty, int_of}
use intelligent_multi_camera.Camera.Service.{
  Camera, Flushed, stored, integrity_error, data_error, connected, disconnected, list_all_cameras,
  update_status,
}
use Prim.Native.String.{String as Text, count}
use Prim.Native.Char.{code}

-- `s.split(c)` for a character, as its first part and the others.
unfoldable pub parts : ℕ → String → String × List String
parts c Text.[] = ("", [])
parts c (Text.◌∷◌ d s) =
    let (w, ws) = parts c s in if code d == c then ("", w ∷ ws) else (Text.◌∷◌ d w, ws)

abbrev starts_with : String → String → Bool
starts_with Text.[] s = true
starts_with (Text.◌∷◌ d p) Text.[] = false
starts_with (Text.◌∷◌ d p) (Text.◌∷◌ c s) = code c == code d && starts_with p s

-- `s.split(separator)`, with the characters of a separator that are yet to be passed over.
unfoldable pub text_parts : String → ℕ → String → String × List String
text_parts separator skip Text.[] = ("", [])
text_parts separator (suc skip) (Text.◌∷◌ c s) = text_parts separator skip s
text_parts separator zero (Text.◌∷◌ c s) =
    let found = text_parts separator (count separator - 1) s in
    let other = text_parts separator zero s in
    if starts_with separator (Text.◌∷◌ c s)
    then ("", found.0 ∷ found.1)
    else (Text.◌∷◌ c other.0, other.1)

-- `rtsp_url.split("rtsp://")[1].split("/")[0]`, if the URL has that text.
abbrev after_scheme : String → List String → String
after_scheme netloc [] = netloc
after_scheme netloc (w ∷ ws) = (parts 47 w).0

unfoldable pub netloc_or_rest : String → String → String
netloc_or_rest netloc rtsp_url =
    if is_empty netloc then after_scheme netloc (text_parts "rtsp://" 0 rtsp_url).1 else netloc

-- `netloc.split("@")[1]` if there is an "@".
unfoldable pub without_credentials : String → String
without_credentials netloc = elim ((parts 64 netloc).1) [ [] ↦ netloc | ◌∷◌ w ws ↦ w ]

-- The host and the port, where unpacking the parts or `int` may raise.
abbrev host_port : String × List String → Option (String × ℤ)
host_port (host, []) = some (host, pos 554)
host_port (host, port_str ∷ []) = do port ← int_of port_str; some (host, port)
host_port (host, port_str ∷ more ∷ rest) = none

abbrev or_nothing : Option (String × ℤ) → String × ℤ
or_nothing none = ("", pos 554)
or_nothing (some address) = address

-- An address that raises is empty, with the default port.
unfoldable pub parse_rtsp_host_port : (String → Option String) → String → String × ℤ
parse_rtsp_host_port netloc_of rtsp_url = or_nothing (do
  netloc ← netloc_of rtsp_url
  host_port (parts 58 (without_credentials (netloc_or_rest netloc rtsp_url))))

module _ (netloc_of : String → Option String) (connects : String → ℤ → Bool) where
  unfoldable pub probe_socket : String → ℤ → Bool
  probe_socket host port = not (is_empty host) && connects host port

  unfoldable pub probe_camera_status : Camera → Camera × String
  probe_camera_status camera =
      let (host, port) = parse_rtsp_host_port netloc_of camera.rtsp_url in
      (camera, if probe_socket host port then connected else disconnected)

  unfoldable pub probe_all : List Camera → List (Camera × String)
  probe_all cameras = map probe_camera_status cameras

-- The rows after `update_status`; `none` where the flush raises.
abbrev pub flushed : List Camera → Option Flushed → Option (List Camera)
flushed rows none = some rows
flushed rows (some (stored after)) = some after
flushed rows (some integrity_error) = none
flushed rows (some data_error) = none

-- The loop over the results.
unfoldable pub apply_results : List (Camera × String) → List Camera → Option (List Camera)
apply_results [] rows = some rows
apply_results ((camera, new_status) ∷ results) rows =
    let same = apply_results results rows in
    if camera.status == new_status then same else do
      after ← flushed rows (update_status camera.id new_status rows)
      apply_results results after

-- `_camera_cache` is none where a rollback has expired its objects, and `_camera_cache_expires_at`.
pub record RtspHealthChecker : Type 0 where
  pub camera_cache : Option (List Camera)
  pub camera_cache_expires_at : ℕ

abbrev pub max_ℕ : ℕ → ℕ → ℕ
max_ℕ a b = if ltb a b then b else a

abbrev assigned : Camera × String → Camera
assigned (camera, new_status) = record camera { status = new_status }

-- After a batch over rows that were just read, whose objects are those of the cache.
abbrev pub remembered :
    RtspHealthChecker → List (Camera × String) → Option (List Camera) → RtspHealthChecker
remembered checker results none = record checker { camera_cache = none }
remembered checker results (some after) = record checker {
  camera_cache = some (map assigned results);
}

abbrev pub or_rows : List Camera → Option (List Camera) → List Camera
or_rows rows none = rows
or_rows rows (some after) = after

module _ (before : String → String → Bool)
    (camera_list_max_limit health_check_interval_seconds : ℕ) where
  module _ (netloc_of : String → Option String) (connects : String → ℤ → Bool) where
    abbrev pub cached_batch :
        RtspHealthChecker → List Camera → Option (List Camera) → RtspHealthChecker × List Camera
    cached_batch checker rows none = (checker, rows)
    cached_batch checker rows (some cameras) =
        (checker, or_rows rows (apply_results (probe_all netloc_of connects cameras) rows))

    -- The batch over the rows as they are.
    unfoldable pub fresh_batch : List Camera → List Camera
    fresh_batch rows =
        let cameras = list_all_cameras before (some camera_list_max_limit) 0 rows in
        or_rows rows (apply_results (probe_all netloc_of connects cameras) rows)

    -- One round of `start_monitoring` at a time `now`, with the `_load_cameras` of its batch.
    unfoldable pub check : ℕ → RtspHealthChecker → List Camera → RtspHealthChecker × List Camera
    check now checker rows =
        let cameras = list_all_cameras before (some camera_list_max_limit) 0 rows in
        let results = probe_all netloc_of connects cameras in
        let loaded : RtspHealthChecker = record {
          camera_cache = some cameras;
          camera_cache_expires_at = now + max_ℕ health_check_interval_seconds 1;
        } in
        if ltb now checker.camera_cache_expires_at
        then cached_batch checker rows checker.camera_cache
        else (remembered loaded results (apply_results results rows), fresh_batch rows)
