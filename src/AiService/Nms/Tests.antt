-- ===== src/AiService/Nms/Tests.antt =====
-- Runs of `nms` on hundredths, and its theorems at concrete inputs.
use intelligent_multi_camera.Prelude.{ℕ, ◌+◌, ◌≡◌, refl, List, [], ◌∷◌, none, some, length}
use intelligent_multi_camera.Prelude.Int.{ℤ, pos, ◌+ℤ◌, ◌-ℤ◌, ◌*ℤ◌}
use intelligent_multi_camera.Prelude.Float.{hundredths}
use intelligent_multi_camera.AiService.Nms.{Corners, Row, gather, iou, nms_loop, nms}
use intelligent_multi_camera.AiService.Nms.Greedy.{greedy, nms_loop-eq-greedy}

program : Unit {0}
unfolding gather iou nms_loop nms ◌+ℤ◌ ◌-ℤ◌ ◌*ℤ◌
program = tt

abbrev square : ℕ → Corners ℤ
square x = record { x1 = pos x; y1 = pos 0; x2 = pos (x + 1000); y2 = pos 1000 }

-- The second box covers most of the first, the third stands apart.
abbrev boxes : List (Corners ℤ)
boxes = square 0 ∷ square 100 ∷ square 5000 ∷ []

abbrev by_score : List ℤ → List ℕ
by_score scores = 2 ∷ 0 ∷ 1 ∷ []

abbrev rows : List (Row ℤ)
rows = (1, square 100) ∷ (0, square 0) ∷ (2, square 5000) ∷ []

nms_runs : nms by_score boxes (pos 80 ∷ pos 90 ∷ pos 50 ∷ []) (pos 45) ≡ some (1 ∷ 2 ∷ [])
unfolding program
nms_runs = refl

nms_out_of_range : nms (λ s. 3 ∷ []) boxes [] (pos 45) ≡ none
unfolding program
nms_out_of_range = refl

nms_loop-eq-greedy_example : nms_loop (pos 45) (length rows) rows ≡ some (greedy (pos 45) [] rows)
nms_loop-eq-greedy_example = nms_loop-eq-greedy (pos 45) rows
