-- ===== src/Camera/Router/Access.antt =====
-- Who can change the cameras' table, and that a request that fails does not.
use intelligent_multi_camera.Prelude.{ℕ, ◌≡◌, refl, inl, inr, List}
use intelligent_multi_camera.Shared.Http.{failed, Headers, Result-cases}
use intelligent_multi_camera.Shared.Security.{require_roles}
use intelligent_multi_camera.Camera.Service.{Camera}
use intelligent_multi_camera.Camera.Router.{
  Call, create, list, summary, test_url, test_video, get_one, update, delete, Server, serve, handle,
  role_required, require_admin,
}

admitted_reads :
    (s : Server) (lines : Headers) (call : Call) (rows : List Camera)
    → ((serve s call rows).1 ≡ rows)
    → (handle s lines call rows).1 ≡ rows
unfolding handle
admitted_reads s lines call rows reads =
    elim (Result-cases (require_roles s.get s.expected_key (role_required call) lines)) [
      | inl (user, admitted) ↦ rw (admitted, handle) reads
      | inr (status, refused) ↦ rw (refused, handle) refl
    ]

-- A request that is not admitted as an administrator's leaves the table of cameras as it is, whatever it asks.
pub changes_need_admin :
    (s : Server) (lines : Headers) (call : Call) (rows : List Camera) (status : ℕ)
    → require_roles s.get s.expected_key require_admin lines ≡ failed status
    → (handle s lines call rows).1 ≡ rows
unfolding handle serve
changes_need_admin s lines (create refreshes body new_id now seen) rows status refused =
    rw (refused, handle) refl
changes_need_admin s lines (update refreshes camera_id body) rows status refused =
    rw (refused, handle) refl
changes_need_admin s lines (delete camera_id) rows status refused = rw (refused, handle) refl
changes_need_admin s lines (list limit offset) rows status refused =
    admitted_reads s lines (list limit offset) rows refl
changes_need_admin s lines summary rows status refused = admitted_reads s lines summary rows refl
changes_need_admin s lines (test_url url) rows status refused =
    admitted_reads s lines (test_url url) rows refl
changes_need_admin s lines (test_video filename content_type size) rows status refused =
    admitted_reads s lines (test_video filename content_type size) rows refl
changes_need_admin s lines (get_one camera_id) rows status refused =
    admitted_reads s lines (get_one camera_id) rows refl
