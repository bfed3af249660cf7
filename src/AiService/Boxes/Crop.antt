-- ===== src/AiService/Boxes/Crop.antt =====
-- Which pixels a crop takes.
use intelligent_multi_camera.Prelude.{
  ◌≡◌, refl, true, false, some, arith, subst, Bool-cases, inl, inr,
}
use intelligent_multi_camera.Prelude.Int.{ℤ, pos, ltb_ℤ, leb_ℤ}
use intelligent_multi_camera.Prelude.Float.{Float, ◌⊕◌}
use intelligent_multi_camera.AiService.Boxes.{max_ℤ, min_ℤ, Pixels, Rect, clip_bbox, crop_region}

-- Pixels of a frame, at least one of them.
pub record IsInside (w h : ℤ) (p : Pixels) : Type 0 where
  pub left : leb_ℤ (pos 0) p.x_min ≡ true
  pub top : leb_ℤ (pos 0) p.y_min ≡ true
  pub right : leb_ℤ p.x_max w ≡ true
  pub bottom : leb_ℤ p.y_max h ≡ true
  pub wide : ltb_ℤ p.x_min p.x_max ≡ true
  pub high : ltb_ℤ p.y_min p.y_max ≡ true

max_ℤ_lower : (a b : ℤ) → leb_ℤ a (max_ℤ a b) ≡ true
max_ℤ_lower a b = ground arith

min_ℤ_upper : (a b : ℤ) → leb_ℤ (min_ℤ a b) a ≡ true
min_ℤ_upper a b = ground arith

not_leb : (a b : ℤ) → leb_ℤ b a ≡ false → ltb_ℤ a b ≡ true
not_leb a b h = ground arith

module _ {F : Type 0} ⦃f : Float F⦄ where
  -- The crop that is uploaded is what `clip_bbox` answers, and is a region of the frame that is not empty.
  pub crop_region-IsInside :
      (r : Rect F) (w h : ℤ) (p : Pixels)
      → crop_region r w h ≡ some p
      → (p ≡ clip_bbox r w h) × IsInside w h p
  unfolding crop_region clip_bbox
  crop_region-IsInside r w h p e =
      let q = clip_bbox r w h in
      elim (Bool-cases (leb_ℤ q.x_max q.x_min)) [
        | inl narrow ↦ absurd (ground arith)
        | inr wide ↦ elim (Bool-cases (leb_ℤ q.y_max q.y_min)) [
          | inl flat ↦ absurd (ground arith)
          | inr high ↦
              let same : q ≡ p = ground arith in
              subst (λ k. (k ≡ q) × IsInside w h k) same
                (
                  refl,
                  record {
                    left = max_ℤ_lower (pos 0) (f.trunc r.left);
                    top = max_ℤ_lower (pos 0) (f.trunc r.top);
                    right = min_ℤ_upper w (f.trunc (r.left ⊕ r.width));
                    bottom = min_ℤ_upper h (f.trunc (r.top ⊕ r.height));
                    wide = not_leb q.x_min q.x_max wide;
                    high = not_leb q.y_min q.y_max high;
                  },
                )
        ]
      ]

  -- Alone, `clip_bbox` does not stay within the image: a box that begins to the right of it keeps its left edge,
  -- and the right edge lies before the left one.
  pub clip_bbox_outside :
      (r : Rect F) (w h : ℤ)
      → ltb_ℤ w (f.trunc r.left) ≡ true
      → let p = clip_bbox r w h in (ltb_ℤ w p.x_min ≡ true) × (ltb_ℤ p.x_max p.x_min ≡ true)
  unfolding clip_bbox
  clip_bbox_outside r w h beyond = ground arith
