-- ===== src/Camera/Service/Pages.antt =====
-- The pages of `list_all_cameras`: what a client reads that asks for one after the other.
use intelligent_multi_camera.Prelude.{
  ℕ, zero, suc, ◌+◌, ◌-◌, ◌*◌, ◌≤◌, ◌≡◌, refl, sym, ◌∙◌, ap, subst, String, Bool, true, List, [],
  ◌∷◌, ◌++◌, some, arith, length, take, drop, keep, All, Bool-cases, if_both, inl, inr,
}
use intelligent_multi_camera.Camera.Service.{
  Camera, comes_first, insert_row, order_by, list_all_cameras,
}

module _ {ℓ} {A : Type ℓ} where
  take-append-drop : (n : ℕ) (xs : List A) → take n xs ++ drop n xs ≡ xs
  take-append-drop zero xs = refl
  take-append-drop (suc n) [] = refl
  take-append-drop (suc n) (x ∷ xs) = ap (λ ys. x ∷ ys) (take-append-drop n xs)

  length-drop : (n : ℕ) (xs : List A) → length (drop n xs) ≡ length xs - n
  length-drop zero xs = omega arith
  length-drop (suc n) [] = omega arith
  length-drop (suc n) (x ∷ xs) = omega (arith, length-drop n xs)

  drop_none : (n : ℕ) → drop {A = A} n [] ≡ []
  drop_none zero = refl
  drop_none (suc n) = refl

  drop-drop : (m n k : ℕ) (xs : List A) → k ≡ m + n → drop n (drop m xs) ≡ drop k xs
  drop-drop zero n k xs e = ap (λ j. drop j xs) (omega arith)
  drop-drop (suc m) n zero xs e = absurd (omega arith)
  drop-drop (suc m) n (suc k) [] e = drop_none n
  drop-drop (suc m) n (suc k) (x ∷ xs) e = drop-drop m n k xs (omega arith)

  nothing_left : (xs : List A) → length xs ≤ 0 → xs ≡ []
  nothing_left [] h = refl
  nothing_left (x ∷ xs) h = absurd (omega arith)

-- No row is newer than one before it.
abbrev pub IsNewestFirst : List Camera → Type 0
IsNewestFirst [] = Unit
IsNewestFirst (c ∷ rows) =
    All (λ (d : Camera). d.created_at ≤ c.created_at) rows × IsNewestFirst rows

module _ (before : String → String → Bool) where
  -- The pages of one size from an offset on.
  abbrev pub read_pages : ℕ → ℕ → ℕ → List Camera → List Camera
  read_pages limit zero offset rows = []
  read_pages limit (suc pages) offset rows =
      list_all_cameras before (some limit) offset rows
      ++ read_pages limit pages (offset + limit) rows

  read_pages_rest :
      (limit pages offset : ℕ) (rows : List Camera)
      → length (drop offset (order_by before rows)) ≤ pages * limit
      → read_pages limit pages offset rows ≡ drop offset (order_by before rows)
  unfolding list_all_cameras
  read_pages_rest limit zero offset rows h =
      let rest = drop offset (order_by before rows) in
      sym (nothing_left rest (subst (λ k. length rest ≤ k) (omega arith) h))
  read_pages_rest limit (suc pages) offset rows h =
      let rest = drop offset (order_by before rows) in
      let next = drop-drop offset limit (offset + limit) (order_by before rows) refl in
      let shorter : length (drop (offset + limit) (order_by before rows)) ≤ pages * limit =
        rw (sym next) (rw (length-drop limit rest) (omega arith)) in
      rw (read_pages_rest limit pages (offset + limit) rows shorter)
        (rw (sym next) (take-append-drop limit rest))

  count_insert_row :
      (p : Camera → Bool) (c : Camera) (rows : List Camera)
      → length (keep p (insert_row before c rows)) ≡ length (keep p (c ∷ rows))
  unfolding insert_row
  count_insert_row p c [] = refl
  count_insert_row p c (d ∷ rows) = ground (arith, count_insert_row p c rows)

  count_order_by :
      (p : Camera → Bool) (rows : List Camera)
      → length (keep p (order_by before rows)) ≡ length (keep p rows)
  unfolding order_by
  count_order_by p [] = refl
  count_order_by p (c ∷ rows) =
      ground (arith, count_insert_row p c (order_by before rows), count_order_by p rows)

  insert_row_older :
      (n : ℕ) (c : Camera) (rows : List Camera)
      → c.created_at ≤ n
      → All (λ (d : Camera). d.created_at ≤ n) rows
      → All (λ (d : Camera). d.created_at ≤ n) (insert_row before c rows)
  unfolding insert_row
  insert_row_older n c [] here older = (here, tt)
  insert_row_older n c (d ∷ rows) here (first, older) =
      if_both (λ xs. All (λ (e : Camera). e.created_at ≤ n) xs) (comes_first before c d)
        (c ∷ d ∷ rows) (d ∷ insert_row before c rows) (here, (first, older))
        (first, insert_row_older n c rows here older)

  All_older :
      (m n : ℕ) (rows : List Camera)
      → m ≤ n
      → All (λ (d : Camera). d.created_at ≤ m) rows
      → All (λ (d : Camera). d.created_at ≤ n) rows
  All_older m n [] le older = tt
  All_older m n (d ∷ rows) le (first, older) = (omega arith, All_older m n rows le older)

  insert_row-IsNewestFirst :
      (c : Camera) (rows : List Camera)
      → IsNewestFirst rows
      → IsNewestFirst (insert_row before c rows)
  unfolding insert_row comes_first
  insert_row-IsNewestFirst c [] newest = (tt, tt)
  insert_row-IsNewestFirst c (d ∷ rows) (older, newest) =
      elim (Bool-cases (comes_first before c d)) [
        | inl first ↦
            let le : d.created_at ≤ c.created_at = ground arith in
            rw first ((le, All_older d.created_at c.created_at rows le older), (older, newest))
        | inr second ↦ rw second (
          insert_row_older d.created_at c rows (ground arith) older,
          insert_row-IsNewestFirst c rows newest,
        )
      ]

  order_by-IsNewestFirst : (rows : List Camera) → IsNewestFirst (order_by before rows)
  unfolding order_by
  order_by-IsNewestFirst [] = tt
  order_by-IsNewestFirst (c ∷ rows) =
      insert_row-IsNewestFirst c (order_by before rows) (order_by-IsNewestFirst rows)

  keep-true : (rows : List Camera) → length (keep (λ _. true) rows) ≡ length rows
  keep-true [] = refl
  keep-true (c ∷ rows) = ap suc (keep-true rows)

  length-order_by : (rows : List Camera) → length (order_by before rows) ≡ length rows
  length-order_by rows =
      sym (keep-true (order_by before rows)) ∙ count_order_by (λ _. true) rows ∙ keep-true rows

  -- A client that reads enough pages of one size gets every row of the table, as often as it stands there, the
  -- newest first.
  pub read_pages_complete :
      (limit pages : ℕ) (rows : List Camera) (p : Camera → Bool)
      → length rows ≤ pages * limit
      → (length (keep p (read_pages limit pages 0 rows)) ≡ length (keep p rows))
        × IsNewestFirst (read_pages limit pages 0 rows)
  read_pages_complete limit pages rows p enough =
      let whole : read_pages limit pages 0 rows ≡ order_by before rows =
        read_pages_rest limit pages 0 rows (rw (length-order_by rows) enough) in
      rw whole (count_order_by p rows, order_by-IsNewestFirst rows)
