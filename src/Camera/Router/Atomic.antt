-- ===== src/Camera/Router/Atomic.antt =====
-- Which requests to the camera service that fail leave its table as it was.
use intelligent_multi_camera.Prelude.{
  ℕ, ◌≡◌, refl, ap, ◌⊎◌, inl, inr, String, Bool, true, false, List, Option, none, some, arith,
  Option-cases,
}
use intelligent_multi_camera.Shared.Http.{Result, ok, failed, Headers, Result-cases}
use intelligent_multi_camera.Shared.Security.{require_roles}
use intelligent_multi_camera.Camera.Service.{
  Camera, Flushed, stored, integrity_error, data_error, get_by_id, get_by_rtsp_url, write_row,
  put_row, with_settings, deleted, update_camera as update_row, delete_camera as delete_row,
}
use intelligent_multi_camera.Camera.Service.Lookup.{get_by_id-put_row, write_row-cases}
use intelligent_multi_camera.Camera.Validation.{CameraCreate, CameraUpdate}
use intelligent_multi_camera.Camera.Routes.{
  Answer, CameraResponse, refreshed, to_response_dto, create_camera, update_camera, delete_camera,
  created, checked_create, stored_update, stored_delete,
}
use intelligent_multi_camera.Camera.Router.{
  Call, create, list, summary, test_url, test_video, get_one, update, delete, Reply, Server, serve,
  handle, role_required, answered, with_body,
}

-- An answer that fails leaves these rows, or it is the one whose refresh failed: then it leaves what the answer of the
-- same request with a refresh leaves.
abbrev IsAtomic : {A : Type 0} → Bool → List Camera → Answer A → Answer A → Type 0
IsAtomic {A} refreshes rows x y =
    (status : ℕ)
    → x.0 ≡ failed status
    → (x.1 ≡ rows) ⊎ ((refreshes ≡ false) × (status ≡ 500) × ((r : A) × (y ≡ (ok r, x.1))))

unchanged-IsAtomic :
    {A : Type 0} (refreshes : Bool) (rows : List Camera) (r : Result A) (y : Answer A)
    → IsAtomic refreshes rows (r, rows) y
unchanged-IsAtomic refreshes rows r y status h = inl refl

answered-IsAtomic :
    {A : Type 0} (f : A → Reply) (refreshes : Bool) (rows : List Camera) (x y : Answer A)
    → IsAtomic refreshes rows x y
    → IsAtomic refreshes rows (answered f x) (answered f y)
answered-IsAtomic f refreshes rows (ok a, after) y atomic status h = absurd (ground arith)
answered-IsAtomic f refreshes rows (failed s, after) y atomic status h =
    elim (atomic status (ground arith)) [
      | inl same ↦ inl same
      | inr (off, code, (r, e)) ↦ inr (off, code, (f r, ap (answered f) e))
    ]

with_body-IsAtomic :
    {A : Type 0} (refreshes : Bool) (o : Option A) (rows : List Camera)
    (handler refreshing : A → Answer Reply)
    → ((a : A) → IsAtomic refreshes rows (handler a) (refreshing a))
    → IsAtomic refreshes rows (with_body o rows handler) (with_body o rows refreshing)
with_body-IsAtomic refreshes none rows handler refreshing atomic =
    unchanged-IsAtomic refreshes rows (failed 422) _
with_body-IsAtomic refreshes (some a) rows handler refreshing atomic = atomic a

-- What is stored, answered after a refresh or not.
stored-IsAtomic :
    (refreshes : Bool) (rows after : List Camera) (r : CameraResponse)
    → IsAtomic refreshes rows (refreshed refreshes (ok r), after) (refreshed true (ok r), after)
stored-IsAtomic true rows after r status h = absurd (ground arith)
stored-IsAtomic false rows after r status h = inr (refl, ground arith, (r, refl))

created-IsAtomic :
    (isoformat : ℕ → String) (refreshes : Bool) (camera : Camera) (rows : List Camera) (x : Flushed)
    → IsAtomic refreshes rows
        (created isoformat refreshes camera rows x)
        (created isoformat true camera rows x)
created-IsAtomic isoformat refreshes camera rows (stored after) =
    stored-IsAtomic refreshes rows after (to_response_dto isoformat camera)
created-IsAtomic isoformat refreshes camera rows integrity_error =
    unchanged-IsAtomic refreshes rows (failed 409) _
created-IsAtomic isoformat refreshes camera rows data_error =
    unchanged-IsAtomic refreshes rows (failed 500) _

checked_create-IsAtomic :
    (isoformat : ℕ → String) (refreshes : Bool) (given : CameraCreate) (new_id : String) (now : ℕ)
    (rows : List Camera) (o : Option Camera)
    → IsAtomic refreshes rows
        (checked_create isoformat refreshes given new_id now rows o)
        (checked_create isoformat true given new_id now rows o)
checked_create-IsAtomic isoformat refreshes given new_id now rows none =
    created-IsAtomic isoformat refreshes _ rows _
checked_create-IsAtomic isoformat refreshes given new_id now rows (some c) =
    unchanged-IsAtomic refreshes rows (failed 409) _

-- What an update stores is found.
stored_update-IsAtomic :
    (isoformat : ℕ → String) (refreshes : Bool) (camera_id : String) (rows after : List Camera)
    (c : Camera) (taken : Bool) (d : Camera)
    → get_by_id camera_id after ≡ some c
    → IsAtomic refreshes rows
        (stored_update isoformat refreshes camera_id rows (some (write_row d taken after)))
        (stored_update isoformat true camera_id rows (some (write_row d taken after)))
stored_update-IsAtomic isoformat refreshes camera_id rows after c taken d here =
    elim (write_row-cases d taken after) [
      | inl good ↦
          rw good (rw here (stored-IsAtomic refreshes rows after (to_response_dto isoformat c)))
      | inr (inl bad) ↦ rw bad (unchanged-IsAtomic refreshes rows (failed 500) _)
      | inr (inr bad) ↦ rw bad (unchanged-IsAtomic refreshes rows (failed 500) _)
    ]

update_camera-IsAtomic :
    (isoformat : ℕ → String) (parse_uuid : String → Option String) (refreshes : Bool)
    (camera_id : String) (given : CameraUpdate) (rows : List Camera)
    → IsAtomic refreshes rows
        (update_camera isoformat parse_uuid refreshes camera_id given rows)
        (update_camera isoformat parse_uuid true camera_id given rows)
unfolding update_camera update_row
update_camera-IsAtomic isoformat parse_uuid refreshes camera_id given rows =
    elim (Option-cases (parse_uuid camera_id)) [
      | inl bad ↦ rw (bad, update_camera) (unchanged-IsAtomic refreshes rows (failed 400) _)
      | inr (c_uuid, good) ↦ elim (Option-cases (get_by_id c_uuid rows)) [
        | inl missing ↦
            rw (good, update_camera)
              (rw (missing, update_row) (unchanged-IsAtomic refreshes rows (failed 404) _))
        | inr (c, here) ↦
            let f = with_settings given.name given.location given.fps in
            rw (good, update_camera)
              (rw (here, update_row)
                (stored_update-IsAtomic isoformat refreshes c_uuid rows (put_row f c_uuid rows)
                  (f c) false (f c) (get_by_id-put_row f c_uuid rows c (λ d. refl) here)))
      ]
    ]

stored_delete-IsAtomic :
    (isoformat : ℕ → String) (camera_id : String) (rows : List Camera) (o : Option Camera)
    → let x = stored_delete isoformat (deleted camera_id rows o) rows in IsAtomic true rows x x
stored_delete-IsAtomic isoformat camera_id rows none = unchanged-IsAtomic true rows (failed 404) _
stored_delete-IsAtomic isoformat camera_id rows (some c) = λ status h. absurd (ground arith)

delete_camera-IsAtomic :
    (isoformat : ℕ → String) (parse_uuid : String → Option String) (camera_id : String)
    (rows : List Camera)
    → let x = delete_camera isoformat parse_uuid camera_id rows in IsAtomic true rows x x
unfolding delete_camera delete_row
delete_camera-IsAtomic isoformat parse_uuid camera_id rows =
    elim (Option-cases (parse_uuid camera_id)) [
      | inl bad ↦ rw (bad, delete_camera) (unchanged-IsAtomic true rows (failed 400) _)
      | inr (c_uuid, good) ↦
          rw (good, delete_camera)
            (stored_delete-IsAtomic isoformat c_uuid rows (get_by_id c_uuid rows))
    ]

-- Whether a request is refreshed after its commit, where it is refreshed at all.
abbrev pub refreshes_of : Call → Bool
refreshes_of (create refreshes body new_id now seen) = refreshes
refreshes_of (update refreshes camera_id body) = refreshes
refreshes_of _ = true

-- The same request, refreshed.
abbrev pub refreshing : Call → Call
refreshing (create refreshes body new_id now seen) = create true body new_id now seen
refreshing (update refreshes camera_id body) = update true camera_id body
refreshing call = call

serve-IsAtomic :
    (s : Server) (call : Call) (rows : List Camera)
    → IsAtomic (refreshes_of call) rows (serve s call rows) (serve s (refreshing call) rows)
unfolding serve create_camera
serve-IsAtomic s (create refreshes body new_id now seen) rows =
    with_body-IsAtomic refreshes _ rows _ _ (λ given. answered-IsAtomic _ refreshes rows _ _ (
      checked_create-IsAtomic s.isoformat refreshes given new_id now rows
        (get_by_rtsp_url given.rtsp_url seen)))
serve-IsAtomic s (update refreshes camera_id body) rows =
    with_body-IsAtomic refreshes _ rows _ _ (λ given.
      answered-IsAtomic _ refreshes rows _ _
        (update_camera-IsAtomic s.isoformat s.parse_uuid refreshes camera_id given rows))
serve-IsAtomic s (delete camera_id) rows =
    answered-IsAtomic _ true rows _ _
      (delete_camera-IsAtomic s.isoformat s.parse_uuid camera_id rows)
serve-IsAtomic s (list limit offset) rows = unchanged-IsAtomic true rows _ _
serve-IsAtomic s summary rows = unchanged-IsAtomic true rows _ _
serve-IsAtomic s (test_url url) rows = unchanged-IsAtomic true rows _ _
serve-IsAtomic s (test_video filename content_type size) rows = unchanged-IsAtomic true rows _ _
serve-IsAtomic s (get_one camera_id) rows = unchanged-IsAtomic true rows _ _

-- The role that a request needs does not depend on its refresh.
same_role : (call : Call) → role_required (refreshing call) ≡ role_required call
same_role (create refreshes body new_id now seen) = refl
same_role (update refreshes camera_id body) = refl
same_role (delete camera_id) = refl
same_role (list limit offset) = refl
same_role summary = refl
same_role (test_url url) = refl
same_role (test_video filename content_type size) = refl
same_role (get_one camera_id) = refl

-- A request that is answered with an error, at any stage up to its commit, leaves the table of cameras as it was. The
-- one exception is a creation or an update whose refresh or mapping fails after the commit: it is answered 500, and
-- the table is left as by the same request with a refresh that succeeds, which is answered without an error.
pub failed_changes_nothing :
    (s : Server) (lines : Headers) (call : Call) (rows : List Camera) (status : ℕ)
    → (handle s lines call rows).0 ≡ failed status
    → ((handle s lines call rows).1 ≡ rows)
      ⊎ ((refreshes_of call ≡ false)
          × (status ≡ 500)
          × ((r : Reply) × (handle s lines (refreshing call) rows
                ≡ (ok r, (handle s lines call rows).1))))
unfolding handle
failed_changes_nothing s lines call rows =
    elim (Result-cases (require_roles s.get s.expected_key (role_required call) lines)) [
      | inl (user, admitted) ↦ rw (same_role call, admitted, handle) (serve-IsAtomic s call rows)
      | inr (status, refused) ↦
          rw (refused, handle) (unchanged-IsAtomic (refreshes_of call) rows (failed status) _)
    ]
