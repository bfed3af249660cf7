-- ===== src/Analytics/Queries.antt =====
-- apps/analytics-service/src/presentation/api/v1/tracking_routes.py over the queries of
-- src/infrastructure/persistence/sqlalchemy_tracking_repo.py. A row's timestamp counts microseconds in UTC.
pub mod Trail
pub mod Cursor
mod Tests
use intelligent_multi_camera.Prelude.{
  ℕ, nat_eq, string_eq, ◌<>◌, String, Bool, true, false, ◌&&◌, List, [], ◌∷◌, map, Option, none,
  some, ltb, leb, ◌==◌, if◌then◌else◌, keep, take,
}
use intelligent_multi_camera.Prelude.Int.{ℤ, pos, negsuc}
use intelligent_multi_camera.Prelude.Text.{is_empty}
use intelligent_multi_camera.Shared.Http.{Result, ok, failed}
use intelligent_multi_camera.Analytics.Tracking.{BoundingBox, replace_z}

-- A row of tracking_events, and the entity that it is read as.
pub record TrackingEventRow (F : Type 0) : Type 0 where
  pub id : String
  pub person_id : Option String
  pub camera_id : String
  pub bbox : BoundingBox F
  pub confidence : F
  pub crop_path : Option String
  pub timestamp : ℕ

pub record TrackingEventResponse (F : Type 0) : Type 0 where
  pub id : String
  pub person_id : Option String
  pub camera_id : String
  pub confidence : F
  pub bbox : BoundingBox F
  pub crop_path : Option String
  pub timestamp : String

pub record TrailPoint (F : Type 0) : Type 0 where
  pub event_id : String
  pub camera_id : String
  pub timestamp : String
  pub bbox : BoundingBox F
  pub crop_path : Option String

abbrev pub is_person : Option String → String → Bool
is_person none person_id = false
is_person (some id) person_id = id == person_id

module _ {F : Type 0} where
  -- `ORDER BY timestamp`, ascending where `ascending`, over rows that are added one by one.
  unfoldable pub insert_by :
      Bool → TrackingEventRow F → List (TrackingEventRow F) → List (TrackingEventRow F)
  insert_by ascending e [] = e ∷ []
  insert_by ascending e (d ∷ rows) =
      let rest = insert_by ascending e rows in
      if (if ascending then leb e.timestamp d.timestamp else leb d.timestamp e.timestamp)
      then e ∷ d ∷ rows
      else d ∷ rest

  unfoldable pub order_by : Bool → List (TrackingEventRow F) → List (TrackingEventRow F)
  order_by ascending [] = []
  order_by ascending (e ∷ rows) = insert_by ascending e (order_by ascending rows)

  unfoldable pub get_trail_by_person_id :
      String → List (TrackingEventRow F) → List (TrackingEventRow F)
  get_trail_by_person_id person_id rows =
      order_by true (keep (λ (e : TrackingEventRow F). is_person e.person_id person_id) rows)

  abbrev pub earlier : Option ℕ → List (TrackingEventRow F) → List (TrackingEventRow F)
  earlier none rows = rows
  earlier (some before) rows = keep (λ (e : TrackingEventRow F). ltb e.timestamp before) rows

  unfoldable pub get_recent_events :
      ℕ → Option ℕ → List (TrackingEventRow F) → List (TrackingEventRow F)
  get_recent_events limit before rows = take limit (order_by false (earlier before rows))

  module _ (isoformat : ℕ → String) where
    abbrev pub to_response : TrackingEventRow F → TrackingEventResponse F
    to_response ev = record {
      id = ev.id;
      person_id = ev.person_id;
      camera_id = ev.camera_id;
      confidence = ev.confidence;
      bbox = ev.bbox;
      crop_path = ev.crop_path;
      timestamp = isoformat ev.timestamp <> "Z";
    }

    abbrev pub to_point : TrackingEventRow F → TrailPoint F
    to_point ev = record {
      event_id = ev.id;
      camera_id = ev.camera_id;
      timestamp = isoformat ev.timestamp <> "Z";
      bbox = ev.bbox;
      crop_path = ev.crop_path;
    }

    abbrev pub recent :
        ℕ → Option ℕ → List (TrackingEventRow F) → Result (List (TrackingEventResponse F))
    recent limit before rows = ok (map to_response (get_recent_events limit before rows))

    abbrev pub recent_before :
        ℕ → List (TrackingEventRow F) → Option ℕ → Result (List (TrackingEventResponse F))
    recent_before limit rows none = failed 400
    recent_before limit rows (some before_dt) = recent limit (some before_dt) rows

    -- `datetime.fromisoformat`, none where it raises.
    module _ (parse_time : String → Option ℕ) where
      abbrev pub recent_of :
          ℕ → Option String → List (TrackingEventRow F) → Result (List (TrackingEventResponse F))
      recent_of limit none rows = recent limit none rows
      recent_of limit (some before) rows =
          if is_empty before
          then recent limit none rows
          else recent_before limit rows (parse_time (replace_z before))

      -- The handler, with the `Query(ge=1, le=100)` of its limit.
      unfoldable pub get_recent_tracking_events :
          ℤ → Option String → List (TrackingEventRow F) → Result (List (TrackingEventResponse F))
      get_recent_tracking_events (pos limit) before rows =
          if leb 1 limit && leb limit 100 then recent_of limit before rows else failed 422
      get_recent_tracking_events (negsuc n) before rows = failed 422

    abbrev pub trail_of : List (TrackingEventRow F) → Result (List (TrailPoint F))
    trail_of [] = failed 404
    trail_of (e ∷ trail) = ok (map to_point (e ∷ trail))

    unfoldable pub get_person_trail :
        (String → Option String) → String → List (TrackingEventRow F) → Result (List (TrailPoint F))
    get_person_trail parse_uuid person_id rows = elim (parse_uuid person_id) [
      | none ↦ failed 400
      | some p_uuid ↦ trail_of (get_trail_by_person_id p_uuid rows)
    ]
