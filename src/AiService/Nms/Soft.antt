-- ===== src/AiService/Nms/Soft.antt =====
-- apps/ai-service/src/utils/nms.py, function soft_nms. numpy's `argmax` and `exp` are parameters; `none` is a
-- raised exception: an index out of range.
pub mod Distinct
mod Tests
use intelligent_multi_camera.Prelude.{
  ◌>>=◌, ℕ, zero, suc, nat_eq, ◌^◌, Bool, List, [], ◌∷◌, map, Option, none, some, length, ◌==◌,
  if◌then◌else◌,
}
use intelligent_multi_camera.Prelude.Float.{Float, float, ◌⊕◌, ◌⊖◌, ◌⊗◌, ◌⊘◌, ◌<?◌, max, min}
use intelligent_multi_camera.AiService.Nms.{Corners, get_elem?, area}

-- `indices.remove(j)`, the first occurrence. An absent one, at which Python raises, is not removed in the loop.
unfoldable pub remove : ℕ → List ℕ → List ℕ
remove j [] = []
remove j (i ∷ is) = if j == i then is else i ∷ remove j is

-- `indices.pop(n)`: what is left. The loop has read the entry `n` before.
unfoldable pub pop : ℕ → List ℕ → List ℕ
pop n [] = []
pop zero (i ∷ is) = is
pop (suc n) (i ∷ is) = i ∷ pop n is

unfoldable pub set_at {ℓ} : {A : Type ℓ} → ℕ → A → List A → List A
set_at n x [] = []
set_at zero x (y ∷ ys) = x ∷ ys
set_at (suc n) x (y ∷ ys) = y ∷ set_at n x ys

-- `scores_arr[indices]`
unfoldable pub gather_scores : {F : Type 0} → List F → List ℕ → Option (List F)
gather_scores scores [] = some []
gather_scores scores (i ∷ is) = do
  x ← get_elem? scores i
  xs ← gather_scores scores is
  some (x ∷ xs)

-- `list(range(n))`, from a start on.
unfoldable pub range : ℕ → ℕ → List ℕ
range start zero = []
range start (suc n) = start ∷ range (suc start) n

module _ {F : Type 0} ⦃fl : Float F⦄ (exp : F → F) (argmax : List F → ℕ)
    (sigma score_threshold : F) where
  -- The factor for the box `b`, where `a` is kept.
  unfoldable pub decay : Corners F → Corners F → F
  decay a b =
      let inter =
        max (float 0) (min a.x2 b.x2 ⊖ max a.x1 b.x1)
        ⊗ max (float 0) (min a.y2 b.y2 ⊖ max a.y1 b.y1) in
      let iou = inter ⊘ (area a ⊕ area b ⊖ inter ⊕ fl.ratio 1 (10 ^ 9)) in
      exp (fl.neg (iou ⊗ iou) ⊘ sigma)

  -- The `for j in list(indices)`, over what is left of the copy, with the scores and the indices.
  unfoldable pub weigh_down :
      List (Corners F) → Corners F → List ℕ → List F → List ℕ → Option (List F × List ℕ)
  weigh_down boxes a [] scores indices = some (scores, indices)
  weigh_down boxes a (j ∷ js) scores indices = do
    b ← get_elem? boxes j
    score ← get_elem? scores j
    let lowered = score ⊗ decay a b
    weigh_down boxes a js (set_at j lowered scores)
        (if lowered <? score_threshold then remove j indices else indices)

  -- The `while len(indices) > 0`: one index is popped in a round, and the fuel bounds the rounds.
  unfoldable pub soft_loop : List (Corners F) → ℕ → List F → List ℕ → Option (List ℕ)
  soft_loop boxes fuel scores [] = some []
  soft_loop boxes zero scores (i ∷ is) = none
  soft_loop boxes (suc fuel) scores (i ∷ is) = do
    current ← gather_scores scores (i ∷ is)
    let max_idx = argmax current
    best ← get_elem? (i ∷ is) max_idx
    a ← get_elem? boxes best
    let left = pop max_idx (i ∷ is)
    (lowered, indices) ← weigh_down boxes a left scores left
    kept ← soft_loop boxes fuel lowered indices
    some (best ∷ kept)

  -- The loop's fuel is the number of boxes.
  unfoldable pub soft_nms : List (Corners F) → List F → Option (List ℕ)
  soft_nms boxes scores = soft_loop boxes (length boxes) scores (range 0 (length boxes))
