-- ===== src/Camera/HealthChecker/Results.antt =====
-- The loop of the health checker over the results of its probes.
use intelligent_multi_camera.Prelude.{
  ◌≡◌, refl, ◌∙◌, String, string_eq, true, false, ◌&&◌, ◌||◌, List, [], ◌∷◌, none, some, arith, leb,
  ◌==◌,
}
use intelligent_multi_camera.Camera.Service.{
  Camera, fits, satisfies, first_camera, clash, get_by_id, put_row, with_status, connected,
  disconnected, write_row, stored, update_status,
}
use intelligent_multi_camera.Camera.Service.Lookup.{get_by_id-put_row_other}
use intelligent_multi_camera.Camera.Service.Order.{Found}
use intelligent_multi_camera.Camera.HealthChecker.{apply_results}
use Prim.Native.String.{count}

pub with_status_good :
    (c : Camera) (status : String)
    → leb (count status) 50 ≡ true
    → (status == connected || status == disconnected) ≡ true
    → (fits c && satisfies c) ≡ true
    → (fits (with_status status c) && satisfies (with_status status c)) ≡ true
unfolding fits satisfies
with_status_good c status short known good = ground arith

pub is_known :
    ((connected == connected || connected == disconnected) ≡ true)
    × ((disconnected == connected || disconnected == disconnected) ≡ true)
unfolding string_eq
is_known = (refl, refl)

-- A status that the constraints allow is stored.
pub update_status_stored :
    (id status : String) (rows : List Camera) (c : Camera)
    → get_by_id id rows ≡ some c
    → (fits (with_status status c) && satisfies (with_status status c)) ≡ true
    → update_status id status rows ≡ some (stored (put_row (with_status status) id rows))
unfolding update_status write_row
update_status_stored id status rows c here good =
    let narrow : fits (with_status status c) ≡ true = ground arith in
    let allowed : satisfies (with_status status c) ≡ true = ground arith in
    rw (here, update_status) (rw narrow (rw allowed refl))

-- The loop at a camera whose status is as probed, and at one that changes.
pub apply_results_same :
    (c : Camera) (status : String) (results : List (Camera × String)) (rows : List Camera)
    → (c.status == status) ≡ true
    → apply_results ((c, status) ∷ results) rows ≡ apply_results results rows
unfolding apply_results
apply_results_same c status results rows same = rw same refl

pub apply_results_changed :
    (c : Camera) (status : String) (results : List (Camera × String)) (rows rows_then : List Camera)
    → (c.status == status) ≡ false
    → update_status c.id status rows ≡ some (stored rows_then)
    → apply_results ((c, status) ∷ results) rows ≡ apply_results results rows_then
unfolding apply_results
apply_results_changed c status results rows rows_then differ written = rw differ (rw written refl)

pub fresh_id :
    (c : Camera) (cameras : List Camera)
    → first_camera (clash c) cameras ≡ none
    → get_by_id c.id cameras ≡ none
unfolding first_camera get_by_id
fresh_id c [] fresh = refl
fresh_id c (d ∷ cameras) fresh = ground (arith, fresh_id c cameras)

-- A change of one row leaves the others as they were found.
pub put_row-Found :
    (f : Camera → Camera) (c : Camera) (rows cameras : List Camera)
    → ((d : Camera) → (f d).id ≡ d.id)
    → first_camera (clash c) cameras ≡ none
    → Found rows cameras
    → Found (put_row f c.id rows) cameras
unfolding first_camera
put_row-Found f c rows [] keeps fresh found = tt
put_row-Found f c rows (d ∷ cameras) keeps fresh (here, found) = (
  get_by_id-put_row_other f c.id d.id rows keeps (ground arith) ∙ here,
  put_row-Found f c rows cameras keeps (ground arith) found,
)
