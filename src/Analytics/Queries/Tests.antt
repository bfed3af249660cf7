-- ===== src/Analytics/Queries/Tests.antt =====
-- Runs of the tracking routes, and their theorems at concrete rows.
use intelligent_multi_camera.Prelude.{
  ℕ, nat_eq, ◌<>◌, ◌≡◌, refl, String, string_eq, Bool, ◌&&◌, List, [], ◌∷◌, Option, none, some,
  ◌==◌, length, keep,
}
use intelligent_multi_camera.Prelude.Int.{ℤ, pos}
use intelligent_multi_camera.Analytics.Tracking.{replace_z}
use intelligent_multi_camera.Analytics.Queries.{
  TrackingEventRow, insert_by, order_by, is_person, get_trail_by_person_id, get_recent_events,
  trail_of, get_recent_tracking_events, get_person_trail,
}
use intelligent_multi_camera.Analytics.Queries.Trail.{IsChronological, trail_complete}

program : Unit {0}
unfolding insert_by order_by get_trail_by_person_id get_recent_events get_recent_tracking_events
    get_person_trail replace_z nat_eq string_eq
program = tt

abbrev seen_at : ℕ → TrackingEventRow ℤ
seen_at t = record {
  id = "e";
  person_id = some "p";
  camera_id = "c";
  bbox = record { left = pos 0; top = pos 0; width = pos 1; height = pos 1 };
  confidence = pos 90;
  crop_path = none;
  timestamp = t;
}

abbrev rows : List (TrackingEventRow ℤ)
rows = seen_at 5 ∷ seen_at 9 ∷ record (seen_at 7) { person_id = none } ∷ seen_at 3 ∷ []

abbrev isoformat : ℕ → String
isoformat t = "t" <> "+00:00"

-- No text is a date.
abbrev parse_time : String → Option ℕ
parse_time s = none

newest :
    get_recent_events 2 (some 9) rows ≡ record (seen_at 7) { person_id = none } ∷ seen_at 5 ∷ []
unfolding program
newest = refl

trail : get_trail_by_person_id "p" rows ≡ seen_at 3 ∷ seen_at 5 ∷ seen_at 9 ∷ []
unfolding program
trail = refl

abbrev early : TrackingEventRow ℤ → Bool
early e = e.timestamp == 3

trail_complete_example :
    IsChronological (get_trail_by_person_id "p" rows)
    × (length (keep early (get_trail_by_person_id "p" rows))
        ≡ length (keep (λ (e : TrackingEventRow ℤ). is_person e.person_id "p" && early e) rows))
    × (get_person_trail isoformat (λ s. some s) "p" rows
        ≡ trail_of isoformat (get_trail_by_person_id "p" rows))
trail_complete_example = trail_complete isoformat (λ s. some s) "p" "p" rows early refl
