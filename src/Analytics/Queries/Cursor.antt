-- ===== src/Analytics/Queries/Cursor.antt =====
-- The timestamps of listed events as bounds of the next request.
use intelligent_multi_camera.Prelude.{ℕ, nat_eq, ◌<>◌, ◌≡◌, String, false}
use intelligent_multi_camera.Analytics.Tracking.Rejected.{has_z}
use Prim.Native.String.{String as Text}
use Prim.Native.String.append

-- What is assumed of `isoformat`, for a time with the offset of UTC: the local part holds no Z, and the offset
-- stands behind it.
pub record WritesOffset (isoformat local : ℕ → String) : Type 0 where
  pub behind : (t : ℕ) → isoformat t ≡ local t <> "+00:00"
  pub plain : (t : ℕ) → has_z (local t) ≡ false
