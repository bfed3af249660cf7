-- ===== src/AiService/Embedding/Plain.antt =====
-- A numpy on hundredths, on which the definitions run: exact sums, and the sum of the absolute values
-- for the norm.
use intelligent_multi_camera.Prelude.{
  ◌>>=◌, ℕ, suc, ◌≡◌, refl, ap, ◌∙◌, List, [], ◌∷◌, map, Option, none, some, arith, if◌then◌else◌,
  length, All,
}
use intelligent_multi_camera.Prelude.Int.{ℤ, pos, ◌+ℤ◌, ◌-ℤ◌, ◌*ℤ◌, div_ℤ, ltb_ℤ}
use intelligent_multi_camera.AiService.Embedding.{Numpy, KeepsShape}

unfoldable pub add_vectors : List ℤ → List ℤ → Option (List ℤ)
add_vectors [] [] = some []
add_vectors (x ∷ xs) (y ∷ ys) = do zs ← add_vectors xs ys; some ((x +ℤ y) ∷ zs)
add_vectors _ _ = none

unfoldable pub dot_vectors : List ℤ → List ℤ → Option ℤ
dot_vectors [] [] = some (pos 0)
dot_vectors (x ∷ xs) (y ∷ ys) = do z ← dot_vectors xs ys; some (div_ℤ (x *ℤ y) (pos 100) +ℤ z)
dot_vectors _ _ = none

unfoldable pub sum_vectors : List ℤ → List (List ℤ) → Option (List ℤ)
sum_vectors v [] = some v
sum_vectors v (w ∷ ws) = do s ← add_vectors v w; sum_vectors s ws

unfoldable pub norm_1 : List ℤ → ℤ
norm_1 [] = pos 0
norm_1 (x ∷ xs) = (if ltb_ℤ x (pos 0) then pos 0 -ℤ x else x) +ℤ norm_1 xs

abbrev pub divide_all : List ℤ → ℤ → List ℤ
divide_all v s = map (λ x. div_ℤ (x *ℤ pos 100) s) v

unfoldable pub mean_vectors : List (List ℤ) → Option (List ℤ)
mean_vectors [] = none
mean_vectors (v ∷ vs) = do s ← sum_vectors v vs; some (map (λ x. div_ℤ x (pos (length (v ∷ vs)))) s)

abbrev pub plain : Numpy ℤ
plain = record {
  array = λ v. v;
  norm = norm_1;
  over = divide_all;
  dot = dot_vectors;
  mean = mean_vectors;
  minus = λ v w. add_vectors v (map (λ x. pos 0 -ℤ x) w);
}

length-map : (f : ℤ → ℤ) (v : List ℤ) → length (map f v) ≡ length v
length-map f [] = refl
length-map f (x ∷ v) = ap suc (length-map f v)

add_defined :
    (v w : List ℤ)
    → length v ≡ length w
    → (s : List ℤ) × (add_vectors v w ≡ some s) × (length s ≡ length v)
unfolding add_vectors
add_defined [] [] h = ([], refl, refl)
add_defined [] (y ∷ w) h = absurd (omega arith)
add_defined (x ∷ v) [] h = absurd (omega arith)
add_defined (x ∷ v) (y ∷ w) h =
    let (s, e, l) = add_defined v w (omega arith) in ((x +ℤ y) ∷ s, rw e, omega arith)

dot_defined : (v w : List ℤ) → length v ≡ length w → (s : ℤ) × (dot_vectors v w ≡ some s)
unfolding dot_vectors
dot_defined [] [] h = (pos 0, refl)
dot_defined [] (y ∷ w) h = absurd (omega arith)
dot_defined (x ∷ v) [] h = absurd (omega arith)
dot_defined (x ∷ v) (y ∷ w) h =
    let (s, e) = dot_defined v w (omega arith) in (div_ℤ (x *ℤ y) (pos 100) +ℤ s, rw e)

sum_defined :
    (n : ℕ) (v : List ℤ) (vs : List (List ℤ))
    → length v ≡ n
    → All (λ w. length w ≡ n) vs
    → (s : List ℤ) × (sum_vectors v vs ≡ some s) × (length s ≡ n)
unfolding sum_vectors
sum_defined n v [] h a = (v, refl, h)
sum_defined n v (w ∷ ws) h a =
    let (s, e, l) = add_defined v w (omega arith) in
    let (t, f, m) = sum_defined n s ws (omega arith) a.1 in (t, rw e f, m)

mean_defined :
    (n : ℕ) (v : List ℤ) (vs : List (List ℤ))
    → All (λ w. length w ≡ n) (v ∷ vs)
    → (s : List ℤ) × (mean_vectors (v ∷ vs) ≡ some s) × (length s ≡ n)
unfolding mean_vectors
mean_defined n v vs h =
    let (s, e, l) = sum_defined n v vs h.0 h.1 in
    let scale : ℤ → ℤ = λ x. div_ℤ x (pos (length (v ∷ vs))) in
    (map scale s, rw e, length-map scale s ∙ l)

pub plain-KeepsShape : KeepsShape plain
plain-KeepsShape = record {
  length-array = λ v. refl;
  length-over = λ v s. length-map (λ x. div_ℤ (x *ℤ pos 100) s) v;
  dot_defined = dot_defined;
  mean_defined = mean_defined;
}
