-- ===== src/Camera/Service/Lookup.antt =====
-- What `get_by_id` finds after the operations of the service.
use intelligent_multi_camera.Prelude.{
  ◌≡◌, refl, ap, ◌⊎◌, inl, inr, String, string_eq, Bool, true, false, not, List, [], ◌∷◌, none,
  some, arith, ◌==◌, Bool-cases, if◌then◌else◌, keep,
}
use intelligent_multi_camera.Camera.Service.{
  Camera, stored, integrity_error, data_error, first_camera, get_by_id, put_row, write_row,
}

abbrev pub KeepsId : (Camera → Camera) → Type 0
KeepsId f = (c : Camera) → (f c).id ≡ c.id

-- A row that was changed is found with its change.
pub get_by_id-put_row :
    (f : Camera → Camera) (camera_id : String) (rows : List Camera) (c : Camera)
    → KeepsId f
    → get_by_id camera_id rows ≡ some c
    → get_by_id camera_id (put_row f camera_id rows) ≡ some (f c)
unfolding get_by_id first_camera put_row
get_by_id-put_row f camera_id [] c keeps found = absurd (ground arith)
get_by_id-put_row f camera_id (d ∷ rows) c keeps found = elim (Bool-cases (d.id == camera_id)) [
  | inl same ↦
      let e : d ≡ c = ground arith in
      let kept : ((f d).id == camera_id) ≡ true = rw (keeps d) same in
      rw same (rw kept (ap (λ x. some (f x)) e))
  | inr other ↦ rw other (rw other (get_by_id-put_row f camera_id rows c keeps (ground arith)))
]

-- Other rows are found as before.
pub get_by_id-put_row_other :
    (f : Camera → Camera) (camera_id other_id : String) (rows : List Camera)
    → KeepsId f
    → (other_id == camera_id) ≡ false
    → get_by_id other_id (put_row f camera_id rows) ≡ get_by_id other_id rows
unfolding get_by_id first_camera put_row
get_by_id-put_row_other f camera_id other_id [] keeps differ = refl
get_by_id-put_row_other f camera_id other_id (d ∷ rows) keeps differ =
    ground (arith, keeps d, get_by_id-put_row_other f camera_id other_id rows keeps differ)

-- A row that was deleted is not found, and the others are.
pub get_by_id-delete :
    (camera_id other_id : String) (rows : List Camera)
    → get_by_id other_id (keep (λ c. not (c.id == camera_id)) rows)
      ≡ (if other_id == camera_id then none else get_by_id other_id rows)
unfolding get_by_id first_camera
get_by_id-delete camera_id other_id [] = ground arith
get_by_id-delete camera_id other_id (d ∷ rows) =
    ground (arith, get_by_id-delete camera_id other_id rows)

-- The three ends of a flush.
pub write_row-cases :
    (c : Camera) (taken : Bool) (rows : List Camera)
    → (write_row c taken rows ≡ stored rows)
      ⊎ ((write_row c taken rows ≡ integrity_error) ⊎ (write_row c taken rows ≡ data_error))
unfolding write_row
write_row-cases c taken rows = ground arith
