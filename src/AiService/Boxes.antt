-- ===== src/AiService/Boxes.antt =====
-- apps/ai-service/src/utils/bbox.py, and the crop of `_crop_encode_upload` in
-- apps/ai-service/src/storage/crop_saver.py. Coordinates are floats, pixels are integers.
pub mod Overlap
pub mod Crop
mod Tests
use intelligent_multi_camera.Prelude.{ℕ, Bool, true, false, ◌||◌, Option, none, some, if◌then◌else◌}
use intelligent_multi_camera.Prelude.Int.{ℤ, pos, ltb_ℤ, leb_ℤ}
use intelligent_multi_camera.Prelude.Float.{Float, float, ◌⊕◌, ◌⊖◌, ◌⊗◌, ◌⊘◌, ◌<?◌, ◌≤?◌, max, min}

-- `max` and `min` of two integers.
abbrev pub max_ℤ : ℤ → ℤ → ℤ
max_ℤ a b = if ltb_ℤ a b then b else a

abbrev pub min_ℤ : ℤ → ℤ → ℤ
min_ℤ a b = if ltb_ℤ b a then b else a

-- x_min, y_min, x_max, y_max.
pub record Pixels : Type 0 where
  pub x_min : ℤ
  pub y_min : ℤ
  pub x_max : ℤ
  pub y_max : ℤ

pub record Rect (F : Type 0) : Type 0 where
  pub left : F
  pub top : F
  pub width : F
  pub height : F

pub record Corners (F : Type 0) : Type 0 where
  pub x1 : F
  pub y1 : F
  pub x2 : F
  pub y2 : F

module _ {F : Type 0} ⦃f : Float F⦄ where
  unfoldable pub clip_bbox : Rect F → ℤ → ℤ → Pixels
  clip_bbox r frame_w frame_h = record {
    x_min = max_ℤ (pos 0) (f.trunc r.left);
    y_min = max_ℤ (pos 0) (f.trunc r.top);
    x_max = min_ℤ frame_w (f.trunc (r.left ⊕ r.width));
    y_max = min_ℤ frame_h (f.trunc (r.top ⊕ r.height));
  }

  -- The part of the frame that is encoded, and `none` where the box is refused.
  unfoldable pub crop_region : Rect F → ℤ → ℤ → Option Pixels
  crop_region bbox w h =
      let x_min = max_ℤ (pos 0) (f.trunc bbox.left) in
      let y_min = max_ℤ (pos 0) (f.trunc bbox.top) in
      let x_max = min_ℤ w (f.trunc (bbox.left ⊕ bbox.width)) in
      let y_max = min_ℤ h (f.trunc (bbox.top ⊕ bbox.height)) in
      if leb_ℤ x_max x_min || leb_ℤ y_max y_min
      then none
      else some (record { x_min = x_min; y_min = y_min; x_max = x_max; y_max = y_max })

  abbrev pub corner_area : Corners F → F
  corner_area c = (c.x2 ⊖ c.x1) ⊗ (c.y2 ⊖ c.y1)

  unfoldable pub bbox_iou : Corners F → Corners F → F
  bbox_iou a b =
      let inter_x1 = max a.x1 b.x1 in
      let inter_y1 = max a.y1 b.y1 in
      let inter_x2 = min a.x2 b.x2 in
      let inter_y2 = min a.y2 b.y2 in
      let inter_area = (inter_x2 ⊖ inter_x1) ⊗ (inter_y2 ⊖ inter_y1) in
      let union = corner_area a ⊕ corner_area b ⊖ inter_area in
      if (inter_x2 ≤? inter_x1) || (inter_y2 ≤? inter_y1)
      then float 0
      else if float 0 <? union
      then inter_area ⊘ union
      else float 0

  unfoldable pub bbox_area : Rect F → F
  bbox_area r = max (float 0) r.width ⊗ max (float 0) r.height

  unfoldable pub bbox_center : Rect F → F × F
  bbox_center r = (r.left ⊕ (r.width ⊘ float 2), r.top ⊕ (r.height ⊘ float 2))
