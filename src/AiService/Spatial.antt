-- ===== src/AiService/Spatial.antt =====
-- apps/ai-service/src/reid/spatial_constraints.py. The functions of `math` and the arithmetic of datetimes are
-- parameters; `none` is an exception. The greatest speed is taken not to be 0, by which Python does not divide.
pub mod Feasible
mod Tests
use intelligent_multi_camera.Prelude.{
  ℕ, ◌*◌, String, string_eq, Bool, true, false, List, [], ◌∷◌, Option, none, some, ◌==◌,
  if◌then◌else◌,
}
use intelligent_multi_camera.Prelude.Dict.{Dict, lookup, insert}
use intelligent_multi_camera.Prelude.Float.{Float, float, ◌⊕◌, ◌⊖◌, ◌⊗◌, ◌⊘◌, ◌<?◌, ◌≤?◌}
use intelligent_multi_camera.Analytics.Tracking.{replace_z}

-- `CameraLocation`, less the building and the floor, which nothing reads.
pub record CameraLocation (F : Type 0) : Type 0 where
  pub camera_id : String
  pub lat : F
  pub lon : F

pub record SpatialConstraintValidator (F : Type 0) : Type 0 where
  pub locations : Dict String (CameraLocation F)
  pub max_speed_mps : F

pub record Math (F : Type 0) : Type 0 where
  pub radians : F → F
  pub sin : F → F
  pub cos : F → F
  pub asin : F → F
  pub sqrt : F → F
  -- `x ** 2`
  pub square : F → F

-- `datetime.fromisoformat`, and `(t2 - t1).total_seconds()`, which raises if only one of them has an offset.
pub record Clock (F T : Type 0) : Type 0 where
  pub fromisoformat : String → Option T
  pub seconds_between : T → T → Option F

unfoldable pub register_camera :
    {F : Type 0} → CameraLocation F → SpatialConstraintValidator F → SpatialConstraintValidator F
register_camera location v = record v { locations = insert location.camera_id location v.locations }

module _ {F T : Type 0} ⦃f : Float F⦄ (math : Math F) (clock : Clock F T) where
  abbrev pub abs : F → F
  abs x = if x <? float 0 then f.neg x else x

  unfoldable pub haversine_m : F → F → F → F → F
  haversine_m lat1 lon1 lat2 lon2 =
      let phi1 = math.radians lat1 in
      let phi2 = math.radians lat2 in
      let dphi = math.radians (lat2 ⊖ lat1) in
      let dlambda = math.radians (lon2 ⊖ lon1) in
      let a =
        math.square (math.sin (dphi ⊘ float 2))
        ⊕ math.cos phi1 ⊗ math.cos phi2 ⊗ math.square (math.sin (dlambda ⊘ float 2)) in
      float (2 * 6371000) ⊗ math.asin (math.sqrt a)

  abbrev pub elapsed_between : Option T → Option T → Option F
  elapsed_between (some t1) (some t2) = elim (clock.seconds_between t1 t2) [
    | none ↦ none
    | some s ↦ some (abs s)
  ]
  elapsed_between _ _ = none

  -- The `try` block: the seconds between two timestamps.
  unfoldable pub elapsed : String → String → Option F
  elapsed from_timestamp to_timestamp =
      elapsed_between (clock.fromisoformat (replace_z from_timestamp))
        (clock.fromisoformat (replace_z to_timestamp))

  abbrev pub min_travel : SpatialConstraintValidator F → CameraLocation F → CameraLocation F → F
  min_travel v a b = haversine_m a.lat a.lon b.lat b.lon ⊘ v.max_speed_mps

  -- `elapsed_s >= min_travel_s`, and true where a time could not be read.
  abbrev pub in_time : F → Option F → Bool
  in_time travel none = true
  in_time travel (some elapsed_s) = travel ≤? elapsed_s

  abbrev pub between_places :
      SpatialConstraintValidator F
      → Option F
      → Option (CameraLocation F)
      → Option (CameraLocation F)
      → Bool
  between_places v time (some a) (some b) = in_time (min_travel v a b) time
  between_places v time _ _ = true

  unfoldable pub is_feasible :
      SpatialConstraintValidator F → String → String → String → String → Bool
  is_feasible v from_camera from_timestamp to_camera to_timestamp =
      let time = elapsed from_timestamp to_timestamp in
      let answer =
        between_places v time (lookup from_camera v.locations) (lookup to_camera v.locations) in
      if from_camera == to_camera then true else answer
