-- ===== src/Camera/Service/Table.antt =====
-- The keys and the constraints of the cameras' table under the operations of the service.
use intelligent_multi_camera.Prelude.{
  ℕ, ◌≡◌, refl, subst, inl, inr, String, string_eq, Bool, true, false, not, ◌&&◌, List, [], ◌∷◌,
  Option, none, some, arith, ◌==◌, Bool-cases, Option-cases, if_both, keep,
}
use intelligent_multi_camera.Camera.Service.{
  Camera, fits, satisfies, Flushed, stored, integrity_error, data_error, first_camera, clash,
  write_row, changed, create_camera, get_by_id, put_row, new_camera, is_some, with_settings,
  with_status, update_camera, update_status, deleted, delete_camera,
}

-- No two rows share an id or a URL, and each fits its columns and satisfies the constraints.
abbrev pub IsTable : List Camera → Type 0
IsTable [] = Unit
IsTable (c ∷ rows) =
    ((fits c && satisfies c) ≡ true) × (first_camera (clash c) rows ≡ none) × IsTable rows

-- The same of what a flush leaves.
abbrev pub IsStored : Flushed → Type 0
IsStored (stored rows) = IsTable rows
IsStored integrity_error = Unit
IsStored data_error = Unit

abbrev pub IsChanged : Option Flushed → Type 0
IsChanged none = Unit
IsChanged (some flushed) = IsStored flushed

write_row-IsStored :
    (c : Camera) (taken : Bool) (rows : List Camera)
    → ((fits c && satisfies c) ≡ true → taken ≡ false → IsTable rows)
    → IsStored (write_row c taken rows)
unfolding write_row
write_row-IsStored c taken rows valid = elim (Bool-cases (fits c)) [
  | inr wide ↦ rw wide tt
  | inl narrow ↦ elim (Bool-cases (satisfies c)) [
    | inr bad ↦ rw narrow (rw bad tt)
    | inl good ↦ elim (Bool-cases taken) [
      | inl here ↦ rw narrow (rw good (rw here tt))
      | inr free ↦ rw narrow (rw good (rw free (valid (ground arith) free)))
    ]
  ]
]

is_some-none {ℓ} : {A : Type ℓ} (o : Option A) → is_some o ≡ false → o ≡ none
is_some-none none e = refl
is_some-none (some a) e = absurd (ground arith)

create_camera-IsStored :
    (new_id : String) (now : ℕ) (name rtsp_url : String) (location : Option String) (fps : ℕ)
    (rows : List Camera)
    → IsTable rows
    → IsStored (create_camera new_id now name rtsp_url location fps rows)
unfolding create_camera
create_camera-IsStored new_id now name rtsp_url location fps rows valid =
    let camera = new_camera new_id now name rtsp_url location fps in
    let taken = first_camera (clash camera) rows in
    write_row-IsStored camera (is_some taken) (camera ∷ rows)
      (λ good free. (good, is_some-none taken free, valid))

-- A change of a row keeps its id and its URL.
abbrev pub KeepsKeys : (Camera → Camera) → Type 0
KeepsKeys f = (c : Camera) → ((f c).id ≡ c.id) × ((f c).rtsp_url ≡ c.rtsp_url)

put_row_fresh :
    (f : Camera → Camera) (camera_id : String) (c : Camera) (rows : List Camera)
    → KeepsKeys f
    → first_camera (clash c) rows ≡ none
    → first_camera (clash c) (put_row f camera_id rows) ≡ none
unfolding put_row first_camera
put_row_fresh f camera_id c [] keeps fresh = refl
put_row_fresh f camera_id c (d ∷ rows) keeps fresh =
    ground (arith, put_row_fresh f camera_id c rows keeps, keeps d)

fresh_for_same :
    (c d : Camera) (rows : List Camera)
    → d.id ≡ c.id
    → d.rtsp_url ≡ c.rtsp_url
    → first_camera (clash c) rows ≡ none
    → first_camera (clash d) rows ≡ none
unfolding first_camera
fresh_for_same c d [] same_id same_url fresh = refl
fresh_for_same c d (e ∷ rows) same_id same_url fresh =
    ground (arith, fresh_for_same c d rows same_id same_url)

pub put_row-IsTable :
    (f : Camera → Camera) (camera_id : String) (c : Camera) (rows : List Camera)
    → KeepsKeys f
    → get_by_id camera_id rows ≡ some c
    → (fits (f c) && satisfies (f c)) ≡ true
    → IsTable rows
    → IsTable (put_row f camera_id rows)
unfolding put_row first_camera get_by_id
put_row-IsTable f camera_id c [] keeps found good valid = tt
put_row-IsTable f camera_id c (d ∷ rows) keeps found good (here, fresh, valid) =
    elim (Bool-cases (d.id == camera_id)) [
      | inl same ↦
          let e : c ≡ d = ground arith in
          rw same (
            subst (λ x. (fits (f x) && satisfies (f x)) ≡ true) e good,
            fresh_for_same d (f d) rows (keeps d).0 (keeps d).1 fresh,
            valid,
          )
      | inr other ↦
          let rest = put_row-IsTable f camera_id c rows keeps (ground arith) good valid in
          rw other (here, put_row_fresh f camera_id d rows keeps fresh, rest)
    ]

changed-IsChanged :
    (f : Camera → Camera) (camera_id : String) (rows : List Camera)
    → KeepsKeys f
    → IsTable rows
    → IsChanged (changed f camera_id rows (get_by_id camera_id rows))
changed-IsChanged f camera_id rows keeps valid = elim (Option-cases (get_by_id camera_id rows)) [
  | inl missing ↦ rw missing tt
  | inr (c, found) ↦ rw found (
      write_row-IsStored (f c) false (put_row f camera_id rows)
        (λ good _. put_row-IsTable f camera_id c rows keeps found good valid))
]

keep_fresh :
    (p : Camera → Bool) (c : Camera) (rows : List Camera)
    → first_camera (clash c) rows ≡ none
    → first_camera (clash c) (keep p rows) ≡ none
unfolding first_camera
keep_fresh p c [] fresh = refl
keep_fresh p c (d ∷ rows) fresh = ground (arith, keep_fresh p c rows)

keep-IsTable : (p : Camera → Bool) (rows : List Camera) → IsTable rows → IsTable (keep p rows)
keep-IsTable p [] valid = tt
keep-IsTable p (c ∷ rows) (good, fresh, valid) =
    let rest = keep-IsTable p rows valid in
    if_both IsTable (p c) (c ∷ keep p rows) (keep p rows) (good, keep_fresh p c rows fresh, rest)
      rest

-- The operations of the service that write.
pub data Operation : Type 0 where
  create : String → ℕ → String → String → Option String → ℕ → Operation
  update : String → Option String → Option String → Option ℕ → Operation
  set_status : String → String → Operation
  delete : String → Operation

-- The rows after a flush; one that raises is rolled back.
abbrev pub rows_after : List Camera → Flushed → List Camera
rows_after rows (stored after) = after
rows_after rows integrity_error = rows
rows_after rows data_error = rows

abbrev pub rows_after_change : List Camera → Option Flushed → List Camera
rows_after_change rows none = rows
rows_after_change rows (some flushed) = rows_after rows flushed

abbrev pub operate : List Camera → Operation → List Camera
operate rows (create new_id now name rtsp_url location fps) =
    rows_after rows (create_camera new_id now name rtsp_url location fps rows)
operate rows (update camera_id name location fps) =
    rows_after_change rows (update_camera camera_id name location fps rows)
operate rows (set_status camera_id status) =
    rows_after_change rows (update_status camera_id status rows)
operate rows (delete camera_id) = (delete_camera camera_id rows).1

abbrev pub operate_all : List Camera → List Operation → List Camera
operate_all rows [] = rows
operate_all rows (o ∷ operations) = operate_all (operate rows o) operations

rows_after-IsTable :
    (rows : List Camera) (x : Flushed) → IsTable rows → IsStored x → IsTable (rows_after rows x)
rows_after-IsTable rows (stored after) valid h = h
rows_after-IsTable rows integrity_error valid h = valid
rows_after-IsTable rows data_error valid h = valid

rows_after_change-IsTable :
    (rows : List Camera) (x : Option Flushed)
    → IsTable rows
    → IsChanged x
    → IsTable (rows_after_change rows x)
rows_after_change-IsTable rows none valid h = valid
rows_after_change-IsTable rows (some x) valid h = rows_after-IsTable rows x valid h

deleted-IsTable :
    (camera_id : String) (rows : List Camera) (found : Option Camera)
    → IsTable rows
    → IsTable (deleted camera_id rows found).1
deleted-IsTable camera_id rows none valid = valid
deleted-IsTable camera_id rows (some c) valid =
    keep-IsTable (λ d. not (d.id == camera_id)) rows valid

operate-IsTable : (rows : List Camera) (o : Operation) → IsTable rows → IsTable (operate rows o)
unfolding update_camera update_status delete_camera
operate-IsTable rows (create new_id now name rtsp_url location fps) valid =
    rows_after-IsTable rows (create_camera new_id now name rtsp_url location fps rows) valid
      (create_camera-IsStored new_id now name rtsp_url location fps rows valid)
operate-IsTable rows (update camera_id name location fps) valid =
    let f = with_settings name location fps in
    rows_after_change-IsTable rows (changed f camera_id rows (get_by_id camera_id rows)) valid
      (changed-IsChanged f camera_id rows (λ c. (refl, refl)) valid)
operate-IsTable rows (set_status camera_id status) valid =
    let f = with_status status in
    rows_after_change-IsTable rows (changed f camera_id rows (get_by_id camera_id rows)) valid
      (changed-IsChanged f camera_id rows (λ c. (refl, refl)) valid)
operate-IsTable rows (delete camera_id) valid =
    deleted-IsTable camera_id rows (get_by_id camera_id rows) valid

-- Whatever operations run on a table of cameras, no two rows share an id or an RTSP URL, and every row fits its
-- columns and satisfies the constraints.
pub operate_all-IsTable :
    (rows : List Camera) (operations : List Operation)
    → IsTable rows
    → IsTable (operate_all rows operations)
operate_all-IsTable rows [] valid = valid
operate_all-IsTable rows (o ∷ operations) valid =
    operate_all-IsTable (operate rows o) operations (operate-IsTable rows o valid)
