-- ===== src/AiService/Nms/Soft/Tests.antt =====
-- Runs of `soft_nms` on hundredths, with a factor that is 0 where boxes overlap and 1 where they do not, and its
-- theorem at these boxes.
use intelligent_multi_camera.Prelude.{
  ℕ, nat_eq, ◌+◌, ◌<◌, ◌≡◌, refl, List, [], ◌∷◌, none, some, length, All, suc, if◌then◌else◌, arith,
}
use intelligent_multi_camera.Prelude.Int.{ℤ, pos, ◌+ℤ◌, ◌-ℤ◌, ◌*ℤ◌, ltb_ℤ}
use intelligent_multi_camera.Prelude.Float.{hundredths}
use intelligent_multi_camera.AiService.Nms.{Corners}
use intelligent_multi_camera.AiService.Nms.Soft.{
  remove, pop, set_at, gather_scores, decay, weigh_down, soft_loop, range, soft_nms,
}
use intelligent_multi_camera.AiService.Nms.Soft.Distinct.{Distinct, soft_nms-Distinct}

program : Unit {0}
unfolding remove pop set_at gather_scores decay weigh_down soft_loop range soft_nms nat_eq ◌+ℤ◌ ◌-ℤ◌
    ◌*ℤ◌
program = tt

abbrev square : ℕ → Corners ℤ
square x = record { x1 = pos x; y1 = pos 0; x2 = pos (x + 1000); y2 = pos 1000 }

-- The second box covers most of the first, the third stands apart.
abbrev boxes : List (Corners ℤ)
boxes = square 0 ∷ square 100 ∷ square 5000 ∷ []

abbrev scores : List ℤ
scores = pos 80 ∷ pos 90 ∷ pos 50 ∷ []

abbrev exp : ℤ → ℤ
exp x = if ltb_ℤ x (pos 0) then pos 0 else pos 100

-- The position of the greatest, behind the best so far with its position.
abbrev argmax_from : ℤ → ℕ → ℕ → List ℤ → ℕ
argmax_from best at next [] = at
argmax_from best at next (x ∷ xs) =
    if ltb_ℤ best x then argmax_from x next (suc next) xs else argmax_from best at (suc next) xs

abbrev argmax : List ℤ → ℕ
argmax [] = 0
argmax (x ∷ xs) = argmax_from x 0 1 xs

argmax_from-bound :
    (best : ℤ) (at next : ℕ) (xs : List ℤ)
    → at < next
    → argmax_from best at next xs < next + length xs
argmax_from-bound best at next [] h = omega arith
argmax_from-bound best at next (x ∷ xs) h =
    ground (arith, argmax_from-bound x next (suc next) xs, argmax_from-bound best at (suc next) xs)

argmax_bound : (xs : List ℤ) → 0 < length xs → argmax xs < length xs
argmax_bound [] h = absurd (omega arith)
argmax_bound (x ∷ xs) h = (let below = argmax_from-bound x 0 1 xs (omega arith) in omega arith)

soft_nms_runs : soft_nms exp argmax (pos 50) (pos 1) boxes scores ≡ some (1 ∷ 2 ∷ [])
unfolding program
soft_nms_runs = refl

missing_scores : soft_nms exp argmax (pos 50) (pos 1) boxes [] ≡ none
unfolding program
missing_scores = refl

soft_nms-Distinct_example :
    (kept : List ℕ) × (soft_nms exp argmax (pos 50) (pos 1) boxes scores ≡ some kept)
    × Distinct kept
    × All (λ i. i < length boxes) kept
soft_nms-Distinct_example =
    soft_nms-Distinct exp argmax (pos 50) (pos 1) argmax_bound boxes scores refl
