-- ===== src/AiService/Boxes/Overlap.antt =====
-- The overlap of two boxes.
use intelligent_multi_camera.Prelude.{◌≡◌, refl, arith}
use intelligent_multi_camera.Prelude.Float.{Float, IsOrdered, IsNumber, ◌⊕◌, max, min}
use intelligent_multi_camera.AiService.Boxes.{Corners, corner_area, bbox_iou}

module _ {F : Type 0} ⦃f : Float F⦄ (ord : IsOrdered F) where
  max_comm : (x y : F) → IsNumber x → IsNumber y → max x y ≡ max y x
  max_comm x y nx ny = ground (
    arith,
    ord.lt-eq-not-le x y nx ny,
    ord.lt-eq-not-le y x ny nx,
    ord.le_antisymm x y,
    ord.le_total x y nx ny,
  )

  min_comm : (x y : F) → IsNumber x → IsNumber y → min x y ≡ min y x
  min_comm x y nx ny = ground (
    arith,
    ord.lt-eq-not-le x y nx ny,
    ord.lt-eq-not-le y x ny nx,
    ord.le_antisymm x y,
    ord.le_total x y nx ny,
  )

  abbrev pub AreNumbers : Corners F → Type 0
  AreNumbers c = IsNumber c.x1 × IsNumber c.y1 × IsNumber c.x2 × IsNumber c.y2

  -- The overlap of two boxes does not depend on their order, if no coordinate is NaN and the addition of floats
  -- is commutative, as that of IEEE 754 is.
  pub bbox_iou_comm :
      (add_comm : (x y : F) → x ⊕ y ≡ y ⊕ x) (a b : Corners F)
      → AreNumbers a
      → AreNumbers b
      → bbox_iou a b ≡ bbox_iou b a
  unfolding bbox_iou
  bbox_iou_comm add_comm a b (ax1, ay1, ax2, ay2) (bx1, by1, bx2, by2) =
      rw
        (
          max_comm a.x1 b.x1 ax1 bx1,
          max_comm a.y1 b.y1 ay1 by1,
          min_comm a.x2 b.x2 ax2 bx2,
          min_comm a.y2 b.y2 ay2 by2,
          add_comm (corner_area a) (corner_area b),
        )
        refl
