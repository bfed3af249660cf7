-- ===== src/AiService/Boxes/Tests.antt =====
-- Runs of the box functions on whole hundredths, and their theorems at concrete boxes.
use intelligent_multi_camera.Prelude.{◌≡◌, refl, some, arith}
use intelligent_multi_camera.Prelude.Int.{ℤ, pos, negsuc, ◌+ℤ◌, ◌-ℤ◌, ◌*ℤ◌}
use intelligent_multi_camera.Prelude.Float.{hundredths}
use intelligent_multi_camera.AiService.Boxes.{
  Pixels, Rect, Corners, clip_bbox, crop_region, bbox_iou, bbox_area, bbox_center,
}

program : Unit {0}
unfolding clip_bbox crop_region bbox_iou bbox_area bbox_center ◌+ℤ◌ ◌-ℤ◌ ◌*ℤ◌
program = tt

-- A box that hangs over the left edge of a frame of 64 by 48 pixels.
abbrev box : Rect ℤ
box = record { left = negsuc 249; top = pos 150; width = pos 1000; height = pos 2000 }

abbrev region : Pixels
region = record { x_min = pos 0; y_min = pos 1; x_max = pos 7; y_max = pos 21 }

crops : crop_region box (pos 64) (pos 48) ≡ some region
unfolding program
crops = refl

abbrev beyond : Rect ℤ
beyond = record { left = pos 7000; top = pos 0; width = pos 1000; height = pos 1000 }

abbrev corners : Corners ℤ
corners = record { x1 = pos 0; y1 = pos 0; x2 = pos 200; y2 = pos 200 }

abbrev shifted : Corners ℤ
shifted = record { x1 = pos 100; y1 = pos 0; x2 = pos 300; y2 = pos 200 }

third : bbox_iou corners shifted ≡ pos 33
unfolding program
third = refl

add_comm : (x y : ℤ) → x +ℤ y ≡ y +ℤ x
unfolding ◌+ℤ◌
add_comm x y = ground arith
