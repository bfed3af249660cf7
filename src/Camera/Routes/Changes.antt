-- ===== src/Camera/Routes/Changes.antt =====
-- What is read of the cameras after one of them is updated or deleted.
use intelligent_multi_camera.Prelude.{
  ℕ, ◌≡◌, refl, sym, ◌∙◌, ap, inl, inr, String, string_eq, Bool, false, List, Option, some, arith,
  ◌==◌, Option-cases,
}
use intelligent_multi_camera.Shared.Http.{ok, failed}
use intelligent_multi_camera.Camera.Service.{
  Camera, get_by_id, write_row, put_row, with_settings, update_camera as update_row,
}
use intelligent_multi_camera.Camera.Service.Lookup.{
  get_by_id-put_row, get_by_id-put_row_other, write_row-cases,
}
use intelligent_multi_camera.Camera.Validation.{CameraUpdate}
use intelligent_multi_camera.Camera.Routes.{
  refreshed, CameraResponse, found, to_response_dto, get_camera, update_camera, stored_update,
}

module _ (isoformat : ℕ → String) (parse_uuid : String → Option String) where
  get_camera_of :
      (text id : String) (rows : List Camera)
      → parse_uuid text ≡ some id
      → get_camera isoformat parse_uuid text rows ≡ found isoformat (get_by_id id rows)
  unfolding get_camera
  get_camera_of text id rows parsed = rw (parsed, get_camera) refl

  -- What a stored update leaves.
  stored_update_found :
      (refreshes : Bool) (f : Camera → Camera) (id : String) (c : Camera) (rows after : List Camera)
      (r : CameraResponse)
      → ((d : Camera) → (f d).id ≡ d.id)
      → get_by_id id rows ≡ some c
      → stored_update isoformat refreshes id rows (some (write_row (f c) false (put_row f id rows)))
        ≡ (ok r, after)
      → (after ≡ put_row f id rows) × (r ≡ to_response_dto isoformat (f c))
  stored_update_found refreshes f id c rows after r keeps here done =
      elim (write_row-cases (f c) false (put_row f id rows)) [
        | inl good ↦
            let e : stored_update isoformat refreshes id rows
                  (some (write_row (f c) false (put_row f id rows)))
                ≡ (refreshed refreshes (ok (to_response_dto isoformat (f c))), put_row f id rows) =
              rw good (rw (get_by_id-put_row f id rows c keeps here) refl) in
            ground arith
        | inr (inl bad) ↦ absurd (ground arith)
        | inr (inr bad) ↦ absurd (ground arith)
      ]

  -- An update that is answered with a camera is read back as it was answered, and a camera of another id is read
  -- as before.
  pub update_camera_found :
      (refreshes : Bool) (given : CameraUpdate) (text id other other_id : String)
      (rows after : List Camera) (r : CameraResponse)
      → parse_uuid text ≡ some id
      → parse_uuid other ≡ some other_id
      → (other_id == id) ≡ false
      → update_camera isoformat parse_uuid refreshes text given rows ≡ (ok r, after)
      → (get_camera isoformat parse_uuid text after ≡ ok r)
        × (get_camera isoformat parse_uuid other after ≡ get_camera isoformat parse_uuid other rows)
  unfolding update_camera update_row
  update_camera_found refreshes given text id other other_id rows after r parsed parsed_other differ
        done =
      elim (Option-cases (get_by_id id rows)) [
        | inl missing ↦
            let e : update_camera isoformat parse_uuid refreshes text given rows
                ≡ (failed 404, rows) =
              rw (parsed, update_camera) (rw (missing, update_row) refl) in
            absurd (ground arith)
        | inr (c, here) ↦
            let f = with_settings given.name given.location given.fps in
            let e : update_camera isoformat parse_uuid refreshes text given rows
                ≡ stored_update isoformat refreshes id rows
                    (some (write_row (f c) false (put_row f id rows))) =
              rw (parsed, update_camera) (rw (here, update_row) refl) in
            let (same_rows, same) =
              stored_update_found refreshes f id c rows after r (λ d. refl) here (sym e ∙ done) in
            rw same_rows (
              get_camera_of text id (put_row f id rows) parsed
                  ∙ rw (get_by_id-put_row f id rows c (λ d. refl) here) (ap ok (sym same)),
              get_camera_of other other_id (put_row f id rows) parsed_other
                  ∙ ap (found isoformat)
                      (get_by_id-put_row_other f id other_id rows (λ d. refl) differ)
                  ∙ sym (get_camera_of other other_id rows parsed_other),
            )
      ]
