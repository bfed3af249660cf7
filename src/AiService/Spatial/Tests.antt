-- ===== src/AiService/Spatial/Tests.antt =====
-- Runs of the spatial check on whole hundredths, and its theorem at concrete cameras.
use intelligent_multi_camera.Prelude.{
  ◌≡◌, refl, string_eq, nat_eq, true, false, [], ◌∷◌, none, some, ◌==◌, if◌then◌else◌,
}
use intelligent_multi_camera.Prelude.Int.{ℤ, pos, ◌+ℤ◌, ◌-ℤ◌, ◌*ℤ◌}
use intelligent_multi_camera.Prelude.Dict.{lookup, insert}
use intelligent_multi_camera.Prelude.Float.{hundredths}
use intelligent_multi_camera.Analytics.Tracking.{replace_z}
use intelligent_multi_camera.AiService.Spatial.{
  CameraLocation, SpatialConstraintValidator, Math, Clock, register_camera, haversine_m, elapsed,
  is_feasible,
}

program : Unit {0}
unfolding lookup insert replace_z register_camera haversine_m elapsed is_feasible ◌+ℤ◌ ◌-ℤ◌ ◌*ℤ◌
    string_eq nat_eq
program = tt

-- Angles small enough for their sines to be themselves.
abbrev flat : Math ℤ
flat = record {
  radians = λ x. x;
  sin = λ x. x;
  cos = λ x. pos 100;
  asin = λ x. x;
  sqrt = λ x. x;
  square = λ x. x;
}

-- Two times can be read.
abbrev clock : Clock ℤ ℤ
clock = record {
  fromisoformat =
      λ s. if s == "t0" then some (pos 0) else if s == "t1" then some (pos 1000) else none;
  seconds_between = λ t1 t2. some (t2 -ℤ t1);
}

abbrev gate : CameraLocation ℤ
gate = record { camera_id = "gate"; lat = pos 0; lon = pos 0 }

abbrev yard : CameraLocation ℤ
yard = record { camera_id = "yard"; lat = pos 100; lon = pos 0 }

abbrev validator : SpatialConstraintValidator ℤ
validator = record { locations = ("gate", gate) ∷ ("yard", yard) ∷ []; max_speed_mps = pos 300 }

registers :
    register_camera yard (record { locations = ("gate", gate) ∷ []; max_speed_mps = pos 300 })
    ≡ validator
unfolding program
registers = refl

too_fast : is_feasible flat clock validator "gate" "t0" "yard" "t1" ≡ false
unfolding program
too_fast = refl

unread : is_feasible flat clock validator "gate" "t0" "yard" "t2" ≡ true
unfolding program
unread = refl

unknown : is_feasible flat clock validator "gate" "t0" "roof" "t1" ≡ true
unfolding program
unknown = refl
