-- ===== src/AiService/Spatial/Feasible.antt =====
-- When a transition between two cameras is refused.
use intelligent_multi_camera.Prelude.{
  ◌≡◌, ◌≢◌, refl, ◌↔◌, String, string_eq, false, Option, none, some, arith,
}
use intelligent_multi_camera.Prelude.Dict.{lookup}
use intelligent_multi_camera.Prelude.Float.{Float, ◌≤?◌}
use intelligent_multi_camera.AiService.Spatial.{
  CameraLocation, SpatialConstraintValidator, Math, Clock, elapsed, min_travel, is_feasible,
  between_places,
}

module _ {F T : Type 0} ⦃f : Float F⦄ (math : Math F) (clock : Clock F T) where
  -- Why a transition is refused: both cameras have a place, both times can be read, and the time between them is
  -- less than the way takes.
  abbrev pub TooFast :
      SpatialConstraintValidator F
      → Option F
      → Option (CameraLocation F)
      → Option (CameraLocation F)
      → Type 0
  TooFast v time from_place to_place =
      (a : CameraLocation F) × (b : CameraLocation F) × (s : F) × (from_place ≡ some a)
      × (to_place ≡ some b)
      × (time ≡ some s)
      × ((min_travel math clock v a b ≤? s) ≡ false)

  between_places_refuses :
      (v : SpatialConstraintValidator F) (time : Option F)
      (from_place to_place : Option (CameraLocation F))
      → (between_places math clock v time from_place to_place ≡ false)
        ↔ TooFast v time from_place to_place
  between_places_refuses v time none to_place =
      (λ h. absurd (ground arith), λ (a, b, s, e, _, _, _). absurd (ground arith))
  between_places_refuses v time (some a) none =
      (λ h. absurd (ground arith), λ (a', b, s, _, e, _, _). absurd (ground arith))
  between_places_refuses v none (some a) (some b) =
      (λ h. absurd (ground arith), λ (a', b', s, _, _, e, _). absurd (ground arith))
  between_places_refuses v (some s) (some a) (some b) =
      (λ h. (a, b, s, refl, refl, refl, h), λ (a', b', s', ea, eb, es, slow). ground arith)

  -- A transition is refused exactly when it is between two different cameras that both have a place, its times
  -- can be read, and the time between them is less than the distance takes at the greatest speed.
  pub is_feasible_refuses :
      (v : SpatialConstraintValidator F)
      (from_camera from_timestamp to_camera to_timestamp : String)
      → (is_feasible math clock v from_camera from_timestamp to_camera to_timestamp ≡ false) ↔ (
          (from_camera ≢ to_camera)
          × TooFast v
              (elapsed math clock from_timestamp to_timestamp)
              (lookup from_camera v.locations)
              (lookup to_camera v.locations))
  unfolding is_feasible
  is_feasible_refuses v from_camera from_timestamp to_camera to_timestamp =
      let time = elapsed math clock from_timestamp to_timestamp in
      let core =
        between_places_refuses v time (lookup from_camera v.locations)
          (lookup to_camera v.locations) in
      (
        λ h. ((λ same. absurd (ground arith)), core.0 (ground arith)),
        λ (differ, fast). let slow = core.1 fast in ground arith,
      )
