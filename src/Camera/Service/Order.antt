-- ===== src/Camera/Service/Order.antt =====
-- The listed cameras are rows of the table, none of them twice.
use intelligent_multi_camera.Prelude.{
  ℕ, zero, suc, ◌≡◌, refl, sym, ◌∙◌, String, string_eq, Bool, true, false, ◌&&◌, List, [], ◌∷◌,
  none, some, arith, if_both, take, All,
}
use intelligent_multi_camera.Camera.Service.{
  Camera, fits, satisfies, first_camera, clash, get_by_id, comes_first, insert_row, order_by,
}
use intelligent_multi_camera.Camera.Service.Table.{IsTable}

clash_sym : (c d : Camera) → clash c d ≡ clash d c
clash_sym c d = ground arith

-- Every row that is listed is found by its id.
abbrev pub Found : List Camera → List Camera → Type 0
Found rows = All (λ (c : Camera). get_by_id c.id rows ≡ some c)

module _ (before : String → String → Bool) where
  first_camera-insert_row :
      (p : Camera → Bool) (c : Camera) (rows : List Camera)
      → p c ≡ false
      → first_camera p rows ≡ none
      → first_camera p (insert_row before c rows) ≡ none
  unfolding insert_row first_camera
  first_camera-insert_row p c [] other fresh = ground arith
  first_camera-insert_row p c (d ∷ rows) other fresh =
      ground (arith, first_camera-insert_row p c rows other)

  insert_row-IsTable :
      (c : Camera) (rows : List Camera)
      → (fits c && satisfies c) ≡ true
      → first_camera (clash c) rows ≡ none
      → IsTable rows
      → IsTable (insert_row before c rows)
  unfolding insert_row first_camera
  insert_row-IsTable c [] good fresh valid = (good, refl, tt)
  insert_row-IsTable c (d ∷ rows) good fresh (good_d, fresh_d, valid) =
      let apart : clash c d ≡ false = ground arith in
      let fresh_rest : first_camera (clash c) rows ≡ none = ground arith in
      if_both IsTable (comes_first before c d) (c ∷ d ∷ rows) (d ∷ insert_row before c rows)
        (good, fresh, (good_d, fresh_d, valid))
        (
          good_d,
          first_camera-insert_row (clash d) c rows (sym (clash_sym c d) ∙ apart) fresh_d,
          insert_row-IsTable c rows good fresh_rest valid,
        )

  first_camera-order_by :
      (p : Camera → Bool) (rows : List Camera)
      → first_camera p rows ≡ none
      → first_camera p (order_by before rows) ≡ none
  unfolding order_by first_camera
  first_camera-order_by p [] fresh = refl
  first_camera-order_by p (c ∷ rows) fresh =
      first_camera-insert_row p c (order_by before rows) (ground arith)
        (first_camera-order_by p rows (ground arith))

  pub order_by-IsTable : (rows : List Camera) → IsTable rows → IsTable (order_by before rows)
  unfolding order_by
  order_by-IsTable [] valid = tt
  order_by-IsTable (c ∷ rows) (good, fresh, valid) =
      insert_row-IsTable c (order_by before rows) good (first_camera-order_by (clash c) rows fresh)
        (order_by-IsTable rows valid)

  insert_row-Found :
      (rows : List Camera) (c : Camera) (listed : List Camera)
      → get_by_id c.id rows ≡ some c
      → Found rows listed
      → Found rows (insert_row before c listed)
  unfolding insert_row
  insert_row-Found rows c [] here found = (here, tt)
  insert_row-Found rows c (d ∷ listed) here (first, found) =
      if_both (Found rows) (comes_first before c d) (c ∷ d ∷ listed)
        (d ∷ insert_row before c listed) (here, (first, found))
        (first, insert_row-Found rows c listed here found)

  -- A further row of another id hides none of them.
  cons-Found :
      (c : Camera) (rows listed : List Camera)
      → first_camera (clash c) listed ≡ none
      → Found rows listed
      → Found (c ∷ rows) listed
  unfolding first_camera get_by_id
  cons-Found c rows [] fresh found = tt
  cons-Found c rows (d ∷ listed) fresh (first, found) =
      (ground arith, cons-Found c rows listed (ground arith) found)

  pub order_by-Found : (rows : List Camera) → IsTable rows → Found rows (order_by before rows)
  unfolding order_by first_camera get_by_id
  order_by-Found [] valid = tt
  order_by-Found (c ∷ rows) (good, fresh, valid) =
      insert_row-Found (c ∷ rows) c (order_by before rows) (ground arith) (
        cons-Found c rows (order_by before rows) (first_camera-order_by (clash c) rows fresh)
          (order_by-Found rows valid))

first_camera-take :
    (p : Camera → Bool) (n : ℕ) (rows : List Camera)
    → first_camera p rows ≡ none
    → first_camera p (take n rows) ≡ none
unfolding first_camera
first_camera-take p zero rows fresh = refl
first_camera-take p (suc n) [] fresh = refl
first_camera-take p (suc n) (c ∷ rows) fresh = ground (arith, first_camera-take p n rows)

pub take-IsTable : (n : ℕ) (rows : List Camera) → IsTable rows → IsTable (take n rows)
take-IsTable zero rows valid = tt
take-IsTable (suc n) [] valid = tt
take-IsTable (suc n) (c ∷ rows) (good, fresh, valid) =
    (good, first_camera-take (clash c) n rows fresh, take-IsTable n rows valid)

pub take-All {κ} :
    (P : Camera → Type κ) (n : ℕ) (rows : List Camera) → All P rows → All P (take n rows)
take-All P zero rows all = tt
take-All P (suc n) [] all = tt
take-All P (suc n) (c ∷ rows) (here, all) = (here, take-All P n rows all)
