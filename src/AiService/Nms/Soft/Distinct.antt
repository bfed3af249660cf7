-- ===== src/AiService/Nms/Soft/Distinct.antt =====
-- `soft_nms` ends, and answers distinct indices of boxes.
use intelligent_multi_camera.Prelude.{
  ℕ, zero, suc, nat_eq, ◌+◌, ◌≤◌, ◌<◌, ◌≡◌, ◌≢◌, refl, sym, ap, subst, ◌∙◌, Bool, true, false, List,
  [], ◌∷◌, some, length, arith, All, ◌==◌, if◌then◌else◌,
}
use intelligent_multi_camera.Prelude.Float.{Float, ◌<?◌, ◌⊗◌}
use intelligent_multi_camera.AiService.Nms.{Corners, get_elem?}
use intelligent_multi_camera.AiService.Nms.Soft.{
  remove, pop, set_at, gather_scores, decay, weigh_down, soft_loop, range, soft_nms,
}

abbrev pub Distinct : List ℕ → Type 0
Distinct [] = Unit
Distinct (i ∷ is) = All (λ j. j ≢ i) is × Distinct is

-- What `xs` keeps of `ys`, from which it is thinned.
record IsThinned (xs ys : List ℕ) : Type 1 where
  all : (P : ℕ → Type 0) → All P ys → All P xs
  distinct : Distinct ys → Distinct xs
  shorter : length xs ≤ length ys

IsThinned-same : (xs : List ℕ) → IsThinned xs xs
IsThinned-same xs = record { all = λ P h. h; distinct = λ h. h; shorter = ground arith }

IsThinned-twice : (xs ys zs : List ℕ) → IsThinned xs ys → IsThinned ys zs → IsThinned xs zs
IsThinned-twice xs ys zs s t = record {
  all = λ P h. s.all P (t.all P h);
  distinct = λ h. s.distinct (t.distinct h);
  shorter = (let a = s.shorter in let b = t.shorter in omega arith);
}

IsThinned-cons : (i : ℕ) (xs ys : List ℕ) → IsThinned xs ys → IsThinned (i ∷ xs) (i ∷ ys)
IsThinned-cons i xs ys s = record {
  all = λ P (h, hs). (h, s.all P hs);
  distinct = λ (h, hs). (s.all (λ j. j ≢ i) h, s.distinct hs);
  shorter = (let a = s.shorter in omega arith);
}

IsThinned-tail : (i : ℕ) (is : List ℕ) → IsThinned is (i ∷ is)
IsThinned-tail i is = record { all = λ P h. h.1; distinct = λ h. h.1; shorter = omega arith }

IsThinned-either :
    (same : Bool) (i : ℕ) (rest is : List ℕ)
    → IsThinned rest is
    → IsThinned (if same then is else i ∷ rest) (i ∷ is)
IsThinned-either true i rest is s = IsThinned-tail i is
IsThinned-either false i rest is s = IsThinned-cons i rest is s

IsThinned-remove : (j : ℕ) (is : List ℕ) → IsThinned (remove j is) is
unfolding remove
IsThinned-remove j [] = IsThinned-same []
IsThinned-remove j (i ∷ is) = IsThinned-either (j == i) i (remove j is) is (IsThinned-remove j is)

IsThinned-if : (low : Bool) (j : ℕ) (is : List ℕ) → IsThinned (if low then remove j is else is) is
IsThinned-if true j is = IsThinned-remove j is
IsThinned-if false j is = IsThinned-same is

-- The index that is popped, and those that are left.
record IsPopped (n : ℕ) (is : List ℕ) (i : ℕ) : Type 1 where
  found : get_elem? is n ≡ some i
  thinned : IsThinned (pop n is) is
  one_less : suc (length (pop n is)) ≡ length is
  apart : Distinct is → All (λ j. j ≢ i) (pop n is)
  one : (P : ℕ → Type 0) → All P is → P i

popped : (n : ℕ) (is : List ℕ) → n < length is → (i : ℕ) × IsPopped n is i
unfolding pop
popped n [] h = absurd (omega arith)
popped zero (i ∷ is) h = (
  i,
  record {
    found = refl;
    thinned = IsThinned-tail i is;
    one_less = refl;
    apart = λ d. d.0;
    one = λ P ps. ps.0;
  },
)
popped (suc n) (i ∷ is) h =
    let (k, p) = popped n is (omega arith) in
    (
      k,
      record {
        found = p.found;
        thinned = IsThinned-cons i (pop n is) is p.thinned;
        one_less = ap suc p.one_less;
        apart = λ d. ((λ same. p.one (λ j. j ≢ i) d.0 (sym same)), p.apart d.1);
        one = λ P ps. p.one P ps.1;
      },
    )

get_elem?-defined {ℓ} :
    {A : Type ℓ} (xs : List A) (n : ℕ) → n < length xs → (x : A) × (get_elem? xs n ≡ some x)
get_elem?-defined [] n h = absurd (omega arith)
get_elem?-defined (x ∷ xs) zero h = (x, refl)
get_elem?-defined (x ∷ xs) (suc n) h = get_elem?-defined xs n (omega arith)

length-set_at {ℓ} : {A : Type ℓ} (n : ℕ) (x : A) (xs : List A) → length (set_at n x xs) ≡ length xs
unfolding set_at
length-set_at n x [] = refl
length-set_at zero x (y ∷ ys) = refl
length-set_at (suc n) x (y ∷ ys) = ap suc (length-set_at n x ys)

length-gather_scores :
    {F : Type 0} (scores : List F) (is : List ℕ)
    → All (λ i. i < length scores) is
    → (xs : List F) × (gather_scores scores is ≡ some xs) × (length xs ≡ length is)
unfolding gather_scores
length-gather_scores scores [] h = ([], refl, refl)
length-gather_scores scores (i ∷ is) (h, hs) =
    let (x, found) = get_elem?-defined scores i h in
    let (xs, rest, same) = length-gather_scores scores is hs in
    (x ∷ xs, rw found (rw rest refl), ap suc same)

length-range : (start n : ℕ) → length (range start n) ≡ n
unfolding range
length-range start zero = refl
length-range start (suc n) = ap suc (length-range (suc start) n)

range-below : (start n end : ℕ) → start + n ≤ end → All (λ i. i < end) (range start n)
unfolding range
range-below start zero end h = tt
range-below start (suc n) end h = (omega arith, range-below (suc start) n end (omega arith))

range-above : (low start n : ℕ) → low < start → All (λ i. i ≢ low) (range start n)
unfolding range
range-above low start zero h = tt
range-above low start (suc n) h =
    ((λ same. absurd (omega arith)), range-above low (suc start) n (omega arith))

range-Distinct : (start n : ℕ) → Distinct (range start n)
unfolding range
range-Distinct start zero = tt
range-Distinct start (suc n) =
    (range-above start (suc start) n (omega arith), range-Distinct (suc start) n)

module _ {F : Type 0} ⦃fl : Float F⦄ (exp : F → F) (argmax : List F → ℕ)
    (sigma score_threshold : F) where
  weigh_down-thins :
      (boxes : List (Corners F)) (a : Corners F) (js : List ℕ) (scores : List F) (indices : List ℕ)
      → length scores ≡ length boxes
      → All (λ j. j < length boxes) js
      → (lowered : List F) × (left : List ℕ) × (weigh_down exp argmax sigma score_threshold boxes a
            js scores indices
          ≡ some (lowered, left))
        × (length lowered ≡ length boxes)
        × IsThinned left indices
  unfolding weigh_down
  weigh_down-thins boxes a [] scores indices same h =
      (scores, indices, refl, same, IsThinned-same indices)
  weigh_down-thins boxes a (j ∷ js) scores indices same (h, hs) =
      let (b, box) = get_elem?-defined boxes j h in
      let (score, scored) = get_elem?-defined scores j (omega arith) in
      let new = score ⊗ decay exp argmax sigma score_threshold a b in
      let low = new <? score_threshold in
      let some_left = if low then remove j indices else indices in
      let (lowered, left, run, size, thin) =
        weigh_down-thins boxes a js (set_at j new scores) some_left
          (length-set_at j new scores ∙ same) hs in
      (
        lowered,
        left,
        rw box (rw scored run),
        size,
        IsThinned-twice left some_left indices thin (IsThinned-if low j indices),
      )

  module _ (argmax_bound : (xs : List F) → 0 < length xs → argmax xs < length xs) where
    soft_loop-Distinct :
        (boxes : List (Corners F)) (fuel : ℕ) (scores : List F) (indices : List ℕ)
        → length scores ≡ length boxes
        → length indices ≤ fuel
        → All (λ i. i < length boxes) indices
        → Distinct indices
        → (kept : List ℕ) × (soft_loop exp argmax sigma score_threshold boxes fuel scores indices
            ≡ some kept)
          × Distinct kept
          × ((P : ℕ → Type 0) → All P indices → All P kept)
    unfolding soft_loop
    soft_loop-Distinct boxes fuel scores [] same enough inside d = ([], refl, tt, λ P h. tt)
    soft_loop-Distinct boxes zero scores (i ∷ is) same enough inside d = absurd (omega arith)
    soft_loop-Distinct boxes (suc fuel) scores (i ∷ is) same enough inside d =
        let all_inside = subst (λ n. All (λ i. i < n) (i ∷ is)) (sym same) inside in
        let (xs, gathered, size) = length-gather_scores scores (i ∷ is) all_inside in
        let bound = argmax_bound xs (omega arith) in
        let (best, p) = popped (argmax xs) (i ∷ is) (omega arith) in
        let (a, box) = get_elem?-defined boxes best (p.one (λ i. i < length boxes) inside) in
        let left = pop (argmax xs) (i ∷ is) in
        let left_inside = p.thinned.all (λ i. i < length boxes) inside in
        let (lowered, later, run, sized, thin) =
          weigh_down-thins boxes a left scores left same left_inside in
        let fewer = thin.shorter in
        let one_less = p.one_less in
        let (kept, rest, kept_distinct, kept_all) =
          soft_loop-Distinct boxes fuel lowered later sized (omega arith)
            (thin.all (λ i. i < length boxes) left_inside) (thin.distinct (p.thinned.distinct d)) in
        (
          best ∷ kept,
          rw gathered (rw p.found (rw box (rw run (rw rest refl)))),
          (kept_all (λ j. j ≢ best) (thin.all (λ j. j ≢ best) (p.apart d)), kept_distinct),
          λ P ps. (p.one P ps, kept_all P (thin.all P (p.thinned.all P ps))),
        )

    -- With as many scores as boxes, and an argmax that answers a position of the list, `soft_nms` ends without an
    -- exception, and the indices that it keeps are distinct indices of boxes.
    pub soft_nms-Distinct :
        (boxes : List (Corners F)) (scores : List F)
        → length scores ≡ length boxes
        → (kept : List ℕ) × (soft_nms exp argmax sigma score_threshold boxes scores ≡ some kept)
          × Distinct kept
          × All (λ i. i < length boxes) kept
    unfolding soft_nms
    soft_nms-Distinct boxes scores same =
        let n = length boxes in
        let (kept, run, d, all) =
          soft_loop-Distinct boxes n scores (range 0 n) same (rw (length-range 0 n) (omega arith))
            (range-below 0 n n (omega arith)) (range-Distinct 0 n) in
        (kept, run, d, all (λ i. i < n) (range-below 0 n n (omega arith)))
