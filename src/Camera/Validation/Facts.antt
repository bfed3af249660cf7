-- ===== src/Camera/Validation/Facts.antt =====
-- What the validators of the camera requests grant of the values that they pass.
use intelligent_multi_camera.Prelude.{
  ℕ, ◌≤◌, ◌≡◌, sym, String, true, false, Option, none, some, arith, leb,
}
use intelligent_multi_camera.Prelude.Int.{ℤ, pos, negsuc}
use intelligent_multi_camera.Prelude.Text.{is_empty, left_strip, right_strip, strip}
use intelligent_multi_camera.Camera.Service.{not_blank, length_of}
use intelligent_multi_camera.Camera.Validation.{
  ParseResult, CreateBody, CameraCreate, validate_name, validate_location, validate_fps,
  validate_create,
}
use intelligent_multi_camera.Camera.Routes.{fps_or_default}
use Prim.Native.String.{String as Text, count as size_of}
use Prim.Native.String.count

count-right_strip-le : (s : String) → size_of (right_strip s) ≤ size_of s
count-right_strip-le Text.[] = omega arith
count-right_strip-le (Text.◌∷◌ c s) =
    ground (arith, count-right_strip-le s, count.cons c s, count.cons c (right_strip s), count.nil)

count-left_strip-le : (s : String) → size_of (left_strip s) ≤ size_of s
count-left_strip-le Text.[] = omega arith
count-left_strip-le (Text.◌∷◌ c s) = ground (arith, count-left_strip-le s, count.cons c s)

-- Stripping does not lengthen a text.
pub count-strip-le : (s : String) → size_of (strip s) ≤ size_of s
unfolding strip
count-strip-le s = ground (arith, count-left_strip-le (right_strip s), count-right_strip-le s)

left_strip-not_blank :
    (s : String) → is_empty (left_strip s) ≡ false → not_blank (left_strip s) ≡ true
unfolding not_blank
left_strip-not_blank Text.[] h = absurd (ground arith)
left_strip-not_blank (Text.◌∷◌ c s) h = ground (arith, left_strip-not_blank s)

-- A stripped text that is not empty is not blank.
pub strip-not_blank : (s : String) → is_empty (strip s) ≡ false → not_blank (strip s) ≡ true
unfolding strip
strip-not_blank s h = left_strip-not_blank (right_strip s) h

pub validated_name :
    (v name : String)
    → validate_name v ≡ some name
    → (leb (size_of name) 100 ≡ true) × (not_blank name ≡ true)
unfolding validate_name
validated_name v name h =
    let e : strip v ≡ name = ground arith in
    rw (sym e) (ground (arith, count-strip-le v), strip-not_blank v (ground arith))

pub validated_location :
    (v location : Option String)
    → validate_location v ≡ some location
    → leb (length_of location) 255 ≡ true
unfolding validate_location
validated_location none location h = ground arith
validated_location (some v) location h = ground (arith, count-strip-le v)

pub validated_fps :
    (v : Option ℤ) (fps : Option ℕ)
    → validate_fps v ≡ some fps
    → (leb 1 (fps_or_default fps) ≡ true) × (leb (fps_or_default fps) 120 ≡ true)
unfolding validate_fps
validated_fps none fps h = ground arith
validated_fps (some (pos n)) fps h = ground arith
validated_fps (some (negsuc n)) fps h = absurd (ground arith)

-- The fields of a validated body.
pub validated_create :
    (urlparse : String → Option ParseResult) (body : CreateBody) (given : CameraCreate)
    → validate_create urlparse body ≡ some given
    → (validate_name body.name ≡ some given.name)
      × (validate_location body.location ≡ some given.location)
      × (validate_fps body.fps ≡ some given.fps)
unfolding validate_create
validated_create urlparse body given h = ground arith
