-- ===== src/Camera/HealthChecker/Freshness.antt =====
-- The checker's rounds and its cache.
use intelligent_multi_camera.Prelude.{
  ℕ, ◌+◌, ◌≤◌, ◌≡◌, refl, ap, sym, subst, String, Bool, false, List, [], ◌∷◌, map, Option, none,
  some, arith, ltb,
}
use intelligent_multi_camera.Prelude.Int.{ℤ}
use intelligent_multi_camera.Camera.Service.{Camera, list_all_cameras}
use intelligent_multi_camera.Camera.HealthChecker.{
  RtspHealthChecker, remembered, max_ℕ, probe_all, apply_results, check, fresh_batch,
}

-- A round of the loop: its time, the rows that its session sees, and what connects.
pub record Round : Type 0 where
  pub now : ℕ
  pub rows : List Camera
  pub connects : String → ℤ → Bool

-- The loop sleeps for the interval after each round.
abbrev pub IsSpaced : ℕ → ℕ → List Round → Type 0
IsSpaced interval earliest [] = Unit
IsSpaced interval earliest (r ∷ rounds) =
    (earliest ≤ r.now) × IsSpaced interval (r.now + interval) rounds

remembered_expiry :
    (checker : RtspHealthChecker) (results : List (Camera × String)) (o : Option (List Camera))
    → (remembered checker results o).camera_cache_expires_at ≡ checker.camera_cache_expires_at
remembered_expiry checker results none = refl
remembered_expiry checker results (some after) = refl

module _ (before : String → String → Bool) (limit interval : ℕ)
    (netloc_of : String → Option String) where
  -- The rows that each round leaves.
  abbrev pub start_monitoring : RtspHealthChecker → List Round → List (List Camera)
  start_monitoring checker [] = []
  start_monitoring checker (r ∷ rounds) =
      let step = check before limit interval netloc_of r.connects r.now checker r.rows in
      step.1 ∷ start_monitoring step.0 rounds

  check_expired :
      (r : Round) (checker : RtspHealthChecker)
      → 1 ≤ interval
      → checker.camera_cache_expires_at ≤ r.now
      → let step = check before limit interval netloc_of r.connects r.now checker r.rows in
        (step.1 ≡ fresh_batch before limit interval netloc_of r.connects r.rows)
        × (step.0.camera_cache_expires_at ≤ r.now + interval)
  unfolding check
  check_expired r checker positive expired =
      let late : ltb r.now checker.camera_cache_expires_at ≡ false = ground arith in
      let cameras = list_all_cameras before (some limit) 0 r.rows in
      let results = probe_all netloc_of r.connects cameras in
      let loaded : RtspHealthChecker = record {
        camera_cache = some cameras;
        camera_cache_expires_at = r.now + max_ℕ interval 1;
      } in
      rw late (
        refl,
        subst (λ t. t ≤ r.now + interval)
            (sym (remembered_expiry loaded results (apply_results results r.rows))) (ground arith),
      )

  rounds_from :
      (checker : RtspHealthChecker) (earliest : ℕ) (rounds : List Round)
      → 1 ≤ interval
      → checker.camera_cache_expires_at ≤ earliest
      → IsSpaced interval earliest rounds
      → start_monitoring checker rounds
        ≡ map (λ (r : Round). fresh_batch before limit interval netloc_of r.connects r.rows) rounds
  rounds_from checker earliest [] positive expired spaced = refl
  rounds_from checker earliest (r ∷ rounds) positive expired (late, spaced) =
      let step = check before limit interval netloc_of r.connects r.now checker r.rows in
      let (fresh, soon) = check_expired r checker positive (omega arith) in
      rw fresh (
        ap (λ rest. fresh_batch before limit interval netloc_of r.connects r.rows ∷ rest)
          (rounds_from step.0 (r.now + interval) rounds positive soon spaced))

  -- With an interval of a second or more, every round reads the cameras anew: it does to the rows what a checker
  -- without a cache would do.
  pub rounds_read_anew :
      (checker : RtspHealthChecker) (rounds : List Round)
      → 1 ≤ interval
      → IsSpaced interval checker.camera_cache_expires_at rounds
      → start_monitoring checker rounds
        ≡ map (λ (r : Round). fresh_batch before limit interval netloc_of r.connects r.rows) rounds
  rounds_read_anew checker rounds positive spaced =
      rounds_from checker checker.camera_cache_expires_at rounds positive (omega arith) spaced
