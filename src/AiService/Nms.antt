-- ===== src/AiService/Nms.antt =====
-- apps/ai-service/src/utils/nms.py, function nms. numpy's `argsort` is a parameter; `none` is a raised
-- exception: an index out of range.
pub mod Greedy
pub mod Soft
mod Tests
use intelligent_multi_camera.Prelude.{
  ◌>>=◌, ℕ, zero, suc, ◌^◌, Bool, List, [], ◌∷◌, map, Option, none, some, keep, length,
}
use intelligent_multi_camera.Prelude.Float.{Float, float, ◌⊕◌, ◌⊖◌, ◌⊗◌, ◌⊘◌, ◌≤?◌, max, min}
use mathlib.Core.List.{reverse}

-- x_min, y_min, x_max, y_max
pub record Corners (F : Type 0) : Type 0 where
  pub x1 : F
  pub y1 : F
  pub x2 : F
  pub y2 : F

abbrev pub get_elem? {ℓ} : {A : Type ℓ} → List A → ℕ → Option A
get_elem? [] i = none
get_elem? (x ∷ xs) zero = some x
get_elem? (x ∷ xs) (suc i) = get_elem? xs i

-- A box with its index.
abbrev pub Row : Type 0 → Type 0
Row F = ℕ × Corners F

-- `x1[order]`, `y1[order]` and so on.
unfoldable pub gather : {F : Type 0} → List (Corners F) → List ℕ → Option (List (Row F))
gather boxes [] = some []
gather boxes (i ∷ order) = do b ← get_elem? boxes i; rows ← gather boxes order; some ((i, b) ∷ rows)

module _ {F : Type 0} ⦃fl : Float F⦄ where
  abbrev pub area : Corners F → F
  area b = (b.x2 ⊖ b.x1) ⊗ (b.y2 ⊖ b.y1)

  -- The IoU of the loop's body, its denominator padded by 1e-9.
  unfoldable pub iou : Corners F → Corners F → F
  iou a b =
      let inter_w = max (float 0) (min a.x2 b.x2 ⊖ max a.x1 b.x1) in
      let inter_h = max (float 0) (min a.y2 b.y2 ⊖ max a.y1 b.y1) in
      let inter_area = inter_w ⊗ inter_h in
      inter_area ⊘ (area a ⊕ area b ⊖ inter_area ⊕ fl.ratio 1 (10 ^ 9))

  -- `iou <= iou_threshold`
  abbrev pub survives : F → Row F → Row F → Bool
  survives iou_threshold kept r = iou kept.1 r.1 ≤? iou_threshold

  -- The `while order.size > 0`: one box is kept in a round, and the fuel bounds the rounds.
  unfoldable pub nms_loop : F → ℕ → List (Row F) → Option (List (Row F))
  nms_loop iou_threshold fuel [] = some []
  nms_loop iou_threshold zero (i ∷ order) = none
  nms_loop iou_threshold (suc fuel) (i ∷ order) = do
    kept ← nms_loop iou_threshold fuel (keep (survives iou_threshold i) order)
    some (i ∷ kept)

  module _ (argsort : List F → List ℕ) where
    -- The loop's fuel is the number of boxes.
    unfoldable pub nms : List (Corners F) → List F → F → Option (List ℕ)
    nms [] scores iou_threshold = some []
    nms (b ∷ boxes) scores iou_threshold = do
      order ← gather (b ∷ boxes) (reverse (argsort scores))
      kept ← nms_loop iou_threshold (length order) order
      some (map (λ (r : Row F). r.0) kept)
