-- ===== src/AiService/Nms/Greedy.antt =====
-- `nms` against its description: go through the boxes by falling score, and keep a box exactly when it
-- survives each box that is kept already.
use intelligent_multi_camera.Prelude.{
  ℕ, zero, suc, ◌≤◌, ◌<◌, ◌≡◌, ◌≢◌, refl, sym, ap, subst, ◌∙◌, ◌⊎◌, inl, inr, Bool, true, false,
  ◌&&◌, List, [], ◌∷◌, ◌++◌, map, some, arith, Bool-cases, if◌then◌else◌, keep, length, All,
  length-keep-le,
}
use intelligent_multi_camera.Prelude.Float.{Float}
use intelligent_multi_camera.AiService.Nms.{
  Corners, Row, get_elem?, gather, survives, nms_loop, nms,
}
use mathlib.Core.List.{reverse, append_assoc}

module _ {F : Type 0} ⦃fl : Float F⦄ (iou_threshold : F) where
  -- The row survives every kept one.
  abbrev pub all_survive : List (Row F) → Row F → Bool
  all_survive [] r = true
  all_survive (k ∷ kept) r = survives iou_threshold k r && all_survive kept r

  abbrev pub greedy : List (Row F) → List (Row F) → List (Row F)
  greedy kept [] = []
  greedy kept (r ∷ rows) =
      let taken = r ∷ greedy (kept ++ (r ∷ [])) rows in
      let left = greedy kept rows in if all_survive kept r then taken else left

  all_survive-append :
      (kept : List (Row F)) (k r : Row F)
      → all_survive (kept ++ (k ∷ [])) r ≡ (survives iou_threshold k r && all_survive kept r)
  all_survive-append [] k r = refl
  all_survive-append (j ∷ kept) k r = ground (arith, all_survive-append kept k r)

  keep-append :
      (kept : List (Row F)) (k : Row F) (rows : List (Row F))
      → keep (survives iou_threshold k) (keep (all_survive kept) rows)
        ≡ keep (all_survive (kept ++ (k ∷ []))) rows
  keep-append kept k [] = refl
  keep-append kept k (r ∷ rows) =
      ground (arith, all_survive-append kept k r, keep-append kept k rows)

  loop-greedy :
      (fuel : ℕ) (kept rows : List (Row F))
      → length (keep (all_survive kept) rows) ≤ fuel
      → nms_loop iou_threshold fuel (keep (all_survive kept) rows) ≡ some (greedy kept rows)
  unfolding nms_loop
  loop-greedy fuel kept [] h = refl
  loop-greedy zero kept (r ∷ rows) h = elim (Bool-cases (all_survive kept r)) [
    | inr hit ↦ rw hit (loop-greedy zero kept rows (ground arith))
    | inl free ↦ absurd (ground arith)
  ]
  loop-greedy (suc fuel) kept (r ∷ rows) h = elim (Bool-cases (all_survive kept r)) [
    | inr hit ↦ rw hit (loop-greedy (suc fuel) kept rows (ground arith))
    | inl free ↦
        let e = keep-append kept r rows in
        let shorter : length (keep (all_survive (kept ++ (r ∷ []))) rows) ≤ fuel =
          ground
            (arith, e, length-keep-le (survives iou_threshold r) (keep (all_survive kept) rows)) in
        rw (free, e, loop-greedy fuel (kept ++ (r ∷ [])) rows shorter)
  ]

  keep_all : (rows : List (Row F)) → keep (all_survive []) rows ≡ rows
  keep_all [] = refl
  keep_all (r ∷ rows) = rw (keep_all rows)

  -- With as much fuel as there are boxes the loop ends, and its result is `greedy`: go through the boxes in order
  -- and keep each one that survives all those kept before it.
  pub nms_loop-eq-greedy :
      (rows : List (Row F)) → nms_loop iou_threshold (length rows) rows ≡ some (greedy [] rows)
  nms_loop-eq-greedy rows =
      rw keep_all at (loop-greedy (length rows) [] rows (ground (arith, keep_all rows)))

  -- Every box survives the boxes before it.
  abbrev pub Separated : List (Row F) → Type 0
  Separated [] = Unit
  Separated (r ∷ rows) = All (λ s. survives iou_threshold r s ≡ true) rows × Separated rows

  abbrev AllSurvive : List (Row F) → List (Row F) → Type 0
  AllSurvive kept rows = All (λ r. all_survive kept r ≡ true) rows

  survive_fewer :
      (kept : List (Row F)) (k : Row F) (rows : List (Row F))
      → AllSurvive (kept ++ (k ∷ [])) rows
      → AllSurvive kept rows × All (λ s. survives iou_threshold k s ≡ true) rows
  survive_fewer kept k [] h = (tt, tt)
  survive_fewer kept k (r ∷ rows) h =
      let (a, b) = survive_fewer kept k rows h.1 in
      let both : (survives iou_threshold k r && all_survive kept r) ≡ true =
        sym (all_survive-append kept k r) ∙ h.0 in
      ((ground arith, a), (ground arith, b))

  greedy-AllSurvive : (kept rows : List (Row F)) → AllSurvive kept (greedy kept rows)
  greedy-AllSurvive kept [] = tt
  greedy-AllSurvive kept (r ∷ rows) = elim (Bool-cases (all_survive kept r)) [
    | inl free ↦
        rw free (free, (survive_fewer kept r _ (greedy-AllSurvive (kept ++ (r ∷ [])) rows)).0)
    | inr hit ↦ rw hit (greedy-AllSurvive kept rows)
  ]

  greedy-Separated : (kept rows : List (Row F)) → Separated (greedy kept rows)
  greedy-Separated kept [] = tt
  greedy-Separated kept (r ∷ rows) = elim (Bool-cases (all_survive kept r)) [
    | inl free ↦ rw free (
      (survive_fewer kept r _ (greedy-AllSurvive (kept ++ (r ∷ [])) rows)).1,
      greedy-Separated (kept ++ (r ∷ [])) rows,
    )
    | inr hit ↦ rw hit (greedy-Separated kept rows)
  ]

  -- The row is one of the list's.
  abbrev pub In : Row F → List (Row F) → Type 0
  In r [] = ⊥
  In r (s ∷ rows) = (r ≡ s) ⊎ In r rows

  -- Kept, or not surviving some kept row.
  abbrev pub Settled : List (Row F) → List (Row F) → Row F → Type 0
  Settled kept out r = In r out ⊎ (all_survive (kept ++ out) r ≡ false)

  blocked_more :
      (kept out : List (Row F)) (r : Row F)
      → all_survive kept r ≡ false
      → all_survive (kept ++ out) r ≡ false
  blocked_more [] out r h = cc
  blocked_more (k ∷ kept) out r h = ground (arith, blocked_more kept out r)

  Settled-cons :
      (kept out : List (Row F)) (k : Row F) (rows : List (Row F))
      → All (Settled (kept ++ (k ∷ [])) out) rows
      → All (Settled kept (k ∷ out)) rows
  Settled-cons kept out k [] h = tt
  Settled-cons kept out k (r ∷ rows) h = (one h.0, Settled-cons kept out k rows h.1)
    where
      one : Settled (kept ++ (k ∷ [])) out r → Settled kept (k ∷ out) r
      one (inl m) = inl (inr m)
      one (inr b) = inr (rw append_assoc at b)

  greedy-Settled : (kept rows : List (Row F)) → All (Settled kept (greedy kept rows)) rows
  greedy-Settled kept [] = tt
  greedy-Settled kept (r ∷ rows) = elim (Bool-cases (all_survive kept r)) [
    | inl free ↦
        let rest = greedy (kept ++ (r ∷ [])) rows in
        let e : greedy kept (r ∷ rows) ≡ r ∷ rest = rw free in
        subst (λ out. All (Settled kept out) (r ∷ rows)) (sym e)
          (inl (inl refl), Settled-cons kept rest r rows (greedy-Settled (kept ++ (r ∷ [])) rows))
    | inr hit ↦
        let e : greedy kept (r ∷ rows) ≡ greedy kept rows = rw hit in
        subst (λ out. All (Settled kept out) (r ∷ rows)) (sym e)
          (inr (blocked_more kept (greedy kept rows) r hit), greedy-Settled kept rows)
  ]

  -- The loop ends, no kept box overlaps an earlier kept one by more than the threshold, and every box
  -- that is not kept overlaps a kept one by more than that.
  pub nms_loop_selects :
      (rows : List (Row F))
      → (kept : List (Row F)) × (nms_loop iou_threshold (length rows) rows ≡ some kept)
        × Separated kept
        × All (λ r. In r kept ⊎ (all_survive kept r ≡ false)) rows
  nms_loop_selects rows =
      (greedy [] rows, nms_loop-eq-greedy rows, greedy-Separated [] rows, greedy-Settled [] rows)

get_elem?_defined {ℓ} :
    {A : Type ℓ} (xs : List A) (i : ℕ) → i < length xs → (x : A) × (get_elem? xs i ≡ some x)
get_elem?_defined [] i h = absurd (omega arith)
get_elem?_defined (x ∷ xs) zero h = (x, refl)
get_elem?_defined (x ∷ xs) (suc i) h = get_elem?_defined xs i (omega arith)

gather_defined :
    {F : Type 0} (boxes : List (Corners F)) (order : List ℕ)
    → All (λ i. i < length boxes) order
    → (rows : List (Row F)) × (gather boxes order ≡ some rows)
      × (map (λ (r : Row F). r.0) rows ≡ order)
unfolding gather
gather_defined boxes [] h = ([], refl, refl)
gather_defined boxes (i ∷ order) h =
    let (b, e) = get_elem?_defined boxes i h.0 in
    let (rows, g, m) = gather_defined boxes order h.1 in ((i, b) ∷ rows, rw (e, g), ap (◌∷◌ i) m)

-- If `argsort` returns indices of boxes, `nms` does not raise: it returns the indices of the boxes that
-- the description keeps, which goes through them in the reverse of the order of `argsort`.
pub nms_defined :
    {F : Type 0} ⦃fl : Float F⦄ (argsort : List F → List ℕ) (boxes : List (Corners F))
    (scores : List F) (iou_threshold : F)
    → All (λ i. i < length boxes) (reverse (argsort scores))
    → boxes ≢ []
    → (rows : List (Row F)) × (map (λ (r : Row F). r.0) rows ≡ reverse (argsort scores))
      × (nms argsort boxes scores iou_threshold
          ≡ some (map (λ (r : Row F). r.0) (greedy iou_threshold [] rows)))
unfolding nms
nms_defined argsort [] scores t h ne = absurd (ne refl)
nms_defined argsort (b ∷ boxes) scores t h ne =
    let (rows, g, m) = gather_defined (b ∷ boxes) (reverse (argsort scores)) h in
    (rows, m, rw g (rw (nms_loop-eq-greedy t rows)))
