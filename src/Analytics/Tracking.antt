-- ===== src/Analytics/Tracking.antt =====
-- apps/analytics-service/src/application/use_cases/process_tracking_event.py, the repositories that it calls,
-- packages/domain/entities, and the transaction around it in apps/analytics-service/src/main.py. Ids are texts;
-- the vector store, `uuid.UUID` and `datetime.fromisoformat` are parameters, and `none` is an exception.
pub mod Counts
pub mod Transaction
pub mod Rejected
mod Tests
use intelligent_multi_camera.Prelude.{
  ℕ, nat_eq, suc, ◌+◌, String, string_eq, Bool, true, false, ◌||◌, not, List, [], ◌∷◌, Option, none,
  some, ltb, ◌==◌, if◌then◌else◌, length,
}
use intelligent_multi_camera.Prelude.Dict.{Dict, lookup, insert}
use Prim.Native.String.{String as Text, ◌++◌ as ◌<>◌}
use Prim.Native.Char.{code}

-- packages/domain/entities/person.py
pub record Person : Type 0 where
  pub id : String
  pub display_name : Option String
  pub first_seen : ℕ
  pub last_seen : ℕ
  pub total_appearances : ℕ

unfoldable pub update_appearance : ℕ → Person → Person
update_appearance timestamp p = record p {
  first_seen = if ltb timestamp p.first_seen then timestamp else p.first_seen;
  last_seen = if ltb p.last_seen timestamp then timestamp else p.last_seen;
  total_appearances = p.total_appearances + 1;
}

abbrev pub appeared : String → ℕ → Person
appeared id timestamp = record {
  id = id;
  display_name = none;
  first_seen = timestamp;
  last_seen = timestamp;
  total_appearances = 1;
}

-- packages/domain/entities/tracking_event.py, over the floats F, less an event's own id.
pub record BoundingBox (F : Type 0) : Type 0 where
  pub left : F
  pub top : F
  pub width : F
  pub height : F

pub record TrackingEvent (F : Type 0) : Type 0 where
  pub person_id : String
  pub camera_id : String
  pub confidence : F
  pub bbox : BoundingBox F
  pub crop_path : Option String
  pub timestamp : ℕ

-- The alert of a fire, less its fixed texts.
pub record Alert (F : Type 0) : Type 0 where
  pub camera_id : String
  pub confidence : F
  pub crop_path : Option String
  pub timestamp : ℕ

-- A message of the topic detection-events, with every key that the use case reads.
pub record Detection (F : Type 0) : Type 0 where
  pub camera_id : String
  pub timestamp : String
  pub object_type : String
  pub confidence : F
  pub crop_path : Option String
  pub bbox : BoundingBox F
  pub embedding : List F

-- The tables, the vector index and the alerts sent.
pub record World (F I : Type 0) : Type 0 where
  pub persons : Dict String Person
  pub events : List (TrackingEvent F)
  pub index : I
  pub alerts : List (Alert F)

-- The repositories: the row of a person is inserted or overwritten, an event is added.
unfoldable pub upsert_person : {F I : Type 0} → Person → World F I → World F I
upsert_person p w = record w { persons = insert p.id p w.persons }

unfoldable pub save_event : {F I : Type 0} → TrackingEvent F → World F I → World F I
save_event e w = record w { events = e ∷ w.events }

-- `s.replace("Z", "+00:00")`
unfoldable pub replace_z : String → String
replace_z Text.[] = ""
replace_z (Text.◌∷◌ c s) =
    let rest = replace_z s in if code c == 90 then "+00:00" <> rest else Text.◌∷◌ c rest

-- The vector store: the best person above the threshold, and an upsert.
pub record VectorStore (F I : Type 0) : Type 0 where
  pub search_similar : I → List F → Option (Option String)
  pub upsert_embedding : I → String → List F → Option I

module _ {F I : Type 0} (store : VectorStore F I) where
  -- The first step of `_handle_person_detection`: `embedding and len(embedding) == 512`.
  unfoldable pub match_person : I → List F → Option (Option String)
  match_person index embedding =
      if length embedding == 512 then store.search_similar index embedding else some none

  -- The row of a person that the index names, which the tables may not have.
  unfoldable pub see_known : String → ℕ → World F I → World F I
  see_known id timestamp w = elim (lookup id w.persons) [
    | some person ↦ upsert_person (update_appearance timestamp person) w
    | none ↦ upsert_person (appeared id timestamp) w
  ]

  unfoldable pub see_new : String → ℕ → List F → World F I → Option (World F I)
  see_new id timestamp embedding w =
      let w₁ = upsert_person (appeared id timestamp) w in
      let indexed = store.upsert_embedding w.index id embedding in
      if length embedding == 512
      then elim indexed [ none ↦ none | some index ↦ some (record w₁ { index = index }) ]
      else some w₁

  abbrev log_event : String → String → ℕ → Detection F → World F I → World F I
  log_event id camera_id timestamp d w =
      save_event
        (record {
          person_id = id;
          camera_id = camera_id;
          confidence = d.confidence;
          bbox = d.bbox;
          crop_path = d.crop_path;
          timestamp = timestamp;
        })
        w

  -- `new_id` is the id of a new person.
  unfoldable pub handle_person_detection :
      String → String → ℕ → Detection F → World F I → Option (World F I)
  handle_person_detection new_id camera_id timestamp d w = elim (match_person w.index d.embedding) [
    | none ↦ none
    | some none ↦ elim (see_new new_id timestamp d.embedding w) [
      | none ↦ none
      | some w₁ ↦ some (log_event new_id camera_id timestamp d w₁)
    ]
    | some (some id) ↦ some (log_event id camera_id timestamp d (see_known id timestamp w))
  ]

  unfoldable pub handle_fire_detection : String → ℕ → Detection F → World F I → World F I
  handle_fire_detection camera_id timestamp d w = record w {
    alerts =
        (record {
          camera_id = camera_id;
          confidence = d.confidence;
          crop_path = d.crop_path;
          timestamp = timestamp;
        })
        ∷ w.alerts;
  }

  abbrev dispatch : String → String → ℕ → Detection F → World F I → Option (World F I)
  dispatch new_id camera_id timestamp d w =
      if d.object_type == "fire" || d.object_type == "smoke"
      then some (handle_fire_detection camera_id timestamp d w)
      else if d.object_type == "person"
      then handle_person_detection new_id camera_id timestamp d w
      else some w

  module _ (parse_uuid : String → Option String) (parse_time : String → Option ℕ) where
    abbrev with_time : String → String → Detection F → Option ℕ → World F I → Option (World F I)
    with_time new_id camera_id d none w = none
    with_time new_id camera_id d (some timestamp) w = dispatch new_id camera_id timestamp d w

    unfoldable pub execute : String → Detection F → World F I → Option (World F I)
    execute new_id d w = elim (parse_uuid d.camera_id) [
      | none ↦ none
      | some camera_id ↦ with_time new_id camera_id d (parse_time (replace_z d.timestamp)) w
    ]

    -- `process_message_callback`: the tables change only if the use case returns and the commit succeeds. A
    -- failed use case leaves the index as it was, but an index that was written is not rolled back.
    unfoldable pub process_message : Bool → String → Detection F → World F I → World F I × Bool
    process_message commits new_id d w = elim (execute new_id d w) [
      | none ↦ (w, false)
      | some w₁ ↦
          if commits
          then (w₁, true)
          else (record w₁ { persons = w.persons; events = w.events }, false)
    ]
