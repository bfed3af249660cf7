-- ===== src/Camera/HealthChecker/Batch.antt =====
-- What one batch of the health checker does to the cameras' table.
use intelligent_multi_camera.Prelude.{
  ℕ, ◌≡◌, refl, sym, ◌∙◌, ap, subst, String, string_eq, Bool, true, false, ◌&&◌, List, [], ◌∷◌,
  Option, none, some, arith, ◌==◌, if_both, if◌then◌else◌, take,
}
use intelligent_multi_camera.Prelude.Int.{ℤ}
use intelligent_multi_camera.Camera.Service.{
  Camera, fits, satisfies, first_camera, clash, get_by_id, put_row, with_status, connected,
  disconnected, is_some, list_all_cameras, order_by,
}
use intelligent_multi_camera.Camera.Service.Table.{IsTable, put_row-IsTable}
use intelligent_multi_camera.Camera.Service.Lookup.{get_by_id-put_row, get_by_id-put_row_other}
use intelligent_multi_camera.Camera.Service.Order.{
  Found, order_by-IsTable, order_by-Found, take-IsTable, take-All,
}
use intelligent_multi_camera.Camera.HealthChecker.{
  parse_rtsp_host_port, probe_socket, probe_camera_status, probe_all, apply_results, fresh_batch,
}
use intelligent_multi_camera.Camera.HealthChecker.Results.{
  with_status_good, is_known, update_status_stored, apply_results_same, apply_results_changed,
  put_row-Found, fresh_id,
}

module _ (netloc_of : String → Option String) (connects : String → ℤ → Bool) where
  abbrev status_of : Camera → String
  status_of c = (probe_camera_status netloc_of connects c).1

  -- A row after a batch over these cameras, when it was found before.
  abbrev pub probed : String → List Camera → Option Camera → Option Camera
  probed id cameras none = none
  probed id cameras (some c) =
      some (if is_some (get_by_id id cameras) then with_status (status_of c) c else c)

  -- The statuses that a probe gives are in the table's constraints.
  probed_good :
      (c : Camera)
      → (fits c && satisfies c) ≡ true
      → (fits (with_status (status_of c) c) && satisfies (with_status (status_of c) c)) ≡ true
  unfolding probe_camera_status
  probed_good c good =
      let (host, port) = parse_rtsp_host_port netloc_of c.rtsp_url in
      if_both (λ status. (fits (with_status status c) && satisfies (with_status status c)) ≡ true)
        (probe_socket netloc_of connects host port) connected disconnected
        (with_status_good c connected refl (is_known.0) good)
        (with_status_good c disconnected refl (is_known.1) good)

  probed_nothing : (id : String) (o : Option Camera) → probed id [] o ≡ o
  unfolding get_by_id first_camera
  probed_nothing id none = refl
  probed_nothing id (some c) = refl

  probed_other :
      (id : String) (c : Camera) (cameras : List Camera) (o : Option Camera)
      → (c.id == id) ≡ false
      → probed id cameras o ≡ probed id (c ∷ cameras) o
  unfolding get_by_id first_camera
  probed_other id c cameras none differ = refl
  probed_other id c cameras (some d) differ = rw differ refl

  probed_once :
      (id : String) (cameras : List Camera) (d : Camera)
      → get_by_id id cameras ≡ none
      → probed id cameras (some d) ≡ some d
  probed_once id cameras d fresh = rw fresh refl

  probed_head :
      (id : String) (c : Camera) (cameras : List Camera)
      → (c.id == id) ≡ true
      → probed id (c ∷ cameras) (some c) ≡ some (with_status (status_of c) c)
  unfolding get_by_id first_camera
  probed_head id c cameras same = rw same refl

  -- The rows after the results of a list of cameras.
  record Applied (cameras rows : List Camera) : Type 0 where
    after : List Camera
    applied : apply_results (probe_all netloc_of connects cameras) rows ≡ some after
    read : (id : String) → get_by_id id after ≡ probed id cameras (get_by_id id rows)

  probe_all_cons :
      (c : Camera) (cameras : List Camera)
      → probe_all netloc_of connects (c ∷ cameras)
        ≡ (c, status_of c) ∷ probe_all netloc_of connects cameras
  unfolding probe_all probe_camera_status
  probe_all_cons c cameras = refl

  -- From the rows after the first result to those before it.
  cons-Applied :
      (c : Camera) (cameras rows rows_then : List Camera) (a : Applied cameras rows_then)
      → apply_results ((c, status_of c) ∷ probe_all netloc_of connects cameras) rows
        ≡ apply_results (probe_all netloc_of connects cameras) rows_then
      → first_camera (clash c) cameras ≡ none
      → get_by_id c.id rows ≡ some c
      → get_by_id c.id rows_then ≡ some (with_status (status_of c) c)
      → ((id : String) → (id == c.id) ≡ false → get_by_id id rows_then ≡ get_by_id id rows)
      → Applied (c ∷ cameras) rows
  cons-Applied c cameras rows rows_then a first fresh here here_then others = record {
    after = a.after;
    applied =
        ap (λ results. apply_results results rows) (probe_all_cons c cameras) ∙ first ∙ a.applied;
    read = λ id. elim (string_eq.dec c.id id) [
      | yes same ↦
          subst (λ x. get_by_id x a.after ≡ probed x (c ∷ cameras) (get_by_id x rows)) same
            (a.read c.id
              ∙ ap (probed c.id cameras) here_then
              ∙ probed_once c.id cameras (with_status (status_of c) c) (fresh_id c cameras fresh)
              ∙ sym (probed_head c.id c cameras (ground arith))
              ∙ sym (ap (probed c.id (c ∷ cameras)) here))
      | no differ ↦
          a.read id
          ∙ ap (probed id cameras) (others id (ground arith))
          ∙ probed_other id c cameras (get_by_id id rows) (ground arith)
    ];
  }

  apply_results-Applied :
      (cameras rows : List Camera)
      → IsTable cameras
      → IsTable rows
      → Found rows cameras
      → Applied cameras rows
  unfolding probe_all apply_results
  apply_results-Applied [] rows valid table found = record {
    after = rows;
    applied = refl;
    read = λ id. sym (probed_nothing id (get_by_id id rows));
  }
  apply_results-Applied (c ∷ cameras) rows (good, fresh, valid) table (here, found) =
      let f = with_status (status_of c) in
      elim (string_eq.dec c.status (status_of c)) [
        | yes same ↦
            let step : (c.status == status_of c) ≡ true = ground arith in
            let kept : c ≡ f c = ap (λ status. with_status status c) same in
            cons-Applied c cameras rows rows (apply_results-Applied cameras rows valid table found)
              (apply_results_same c (status_of c) (probe_all netloc_of connects cameras) rows step)
              fresh here (here ∙ ap some kept) (λ id differ. refl)
        | no differ ↦
            let step : (c.status == status_of c) ≡ false = ground arith in
            let good_then = probed_good c good in
            let rows_then = put_row f c.id rows in
            let table_then =
              put_row-IsTable f c.id c rows (λ d. (refl, refl)) here good_then table in
            let found_then = put_row-Found f c rows cameras (λ d. refl) fresh found in
            let written = update_status_stored c.id (status_of c) rows c here good_then in
            cons-Applied c cameras rows rows_then
              (apply_results-Applied cameras rows_then valid table_then found_then)
              (apply_results_changed c (status_of c) (probe_all netloc_of connects cameras) rows
                rows_then step written)
              fresh here (get_by_id-put_row f c.id rows c (λ d. refl) here)
              (λ id other. get_by_id-put_row_other f c.id id rows (λ d. refl) other)
      ]

-- A batch gives each camera that it lists, of those with the highest creation times up to the limit, the status
-- that its probe found, and leaves every other camera as it was.
pub fresh_batch_probes :
    (before : String → String → Bool) (limit interval : ℕ) (netloc_of : String → Option String)
    (connects : String → ℤ → Bool) (rows : List Camera) (id : String)
    → IsTable rows
    → get_by_id id (fresh_batch before limit interval netloc_of connects rows)
      ≡ probed netloc_of connects id
          (list_all_cameras before (some limit) 0 rows)
          (get_by_id id rows)
unfolding fresh_batch list_all_cameras
fresh_batch_probes before limit interval netloc_of connects rows id table =
    let listed = take limit (order_by before rows) in
    let a =
      apply_results-Applied netloc_of connects listed rows
        (take-IsTable limit (order_by before rows) (order_by-IsTable before rows table)) table
        (take-All (λ c. get_by_id c.id rows ≡ some c) limit (order_by before rows)
          (order_by-Found before rows table)) in
    rw (a.applied) (a.read id)
