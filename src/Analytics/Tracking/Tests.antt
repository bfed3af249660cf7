-- ===== src/Analytics/Tracking/Tests.antt =====
-- Runs of the use case, and its theorems at concrete events.
use intelligent_multi_camera.Prelude.{
  ℕ, nat_eq, ◌≡◌, refl, String, string_eq, true, false, List, [], ◌∷◌, Option, none, some, ◌==◌,
  arith, if◌then◌else◌,
}
use intelligent_multi_camera.Prelude.Int.{ℤ, pos}
use intelligent_multi_camera.Prelude.Dict.{lookup, insert}
use intelligent_multi_camera.Shared.Kafka.{Message, Group}
use intelligent_multi_camera.Analytics.Tracking.{
  Detection, World, VectorStore, update_appearance, upsert_person, save_event, replace_z,
  match_person, see_known, see_new, handle_person_detection, handle_fire_detection, execute,
  process_message,
}
use intelligent_multi_camera.Analytics.Tracking.Counts.{IsConsistent}
use intelligent_multi_camera.Analytics.Tracking.Transaction.{process_message-IsConsistent}
use intelligent_multi_camera.Analytics.Tracking.Rejected.{probe_timestamp}
use Prim.Native.String.{String as Text}
use Prim.Native.String.append
use Prim.Native.Char.{code}

program : Unit {0}
unfolding lookup insert update_appearance upsert_person save_event replace_z match_person see_known
    see_new handle_person_detection handle_fire_detection execute process_message probe_timestamp
    string_eq nat_eq
program = tt

-- An index that holds one person; a timestamp is a single character.
abbrev store : VectorStore ℤ (List String)
store = record {
  search_similar = λ index e. elim index [ [] ↦ some none | id ∷ _ ↦ some (some id) ];
  upsert_embedding = λ index id e. some (id ∷ index);
}

parse_time : String → Option ℕ
parse_time (Text.◌∷◌ c Text.[]) = some (code c)
parse_time _ = none

abbrev parse_uuid : String → Option String
parse_uuid s = if s == "0" then none else some s

abbrev detection : Detection ℤ
detection = record {
  camera_id = "cam";
  timestamp = "5";
  object_type = "person";
  confidence = pos 90;
  crop_path = none;
  bbox = record { left = pos 0; top = pos 0; width = pos 10; height = pos 20 };
  embedding = pos 1 ∷ [];
}

abbrev empty : World ℤ (List String)
empty = record { persons = []; events = []; index = []; alerts = [] }

sees :
    (process_message store parse_uuid parse_time true "p" detection empty).0.persons
    ≡ (
      "p",
      record {
        id = "p";
        display_name = none;
        first_seen = 53;
        last_seen = 53;
        total_appearances = 1;
      },
    )
      ∷ []
unfolding program parse_time
sees = refl

rolls_back : process_message store parse_uuid parse_time false "p" detection empty ≡ (empty, false)
unfolding program parse_time
rolls_back = refl

alarms :
    (process_message store parse_uuid parse_time true "p"
      (record detection { object_type = "smoke" })
      empty).0.alerts
    ≡ record { camera_id = "cam"; confidence = pos 90; crop_path = none; timestamp = 53 } ∷ []
unfolding program parse_time
alarms = refl

empty-IsConsistent : IsConsistent empty
unfolding program
empty-IsConsistent = record {
  keyed = λ id p found. absurd (ground arith);
  counted = λ id. refl;
  within = λ id p found. tt;
}

process_message-IsConsistent_example :
    IsConsistent (process_message store parse_uuid parse_time true "p" detection empty).0
unfolding lookup
process_message-IsConsistent_example =
    process_message-IsConsistent store parse_uuid parse_time true "p" detection empty
      empty-IsConsistent refl

abbrev from_probe : Detection ℤ
from_probe = record detection { camera_id = "1"; timestamp = "2026-01-01T00:00:00+00:00Z" }

abbrev start : Group (World ℤ (List String))
start = record { committed = 0; dead = []; world = empty }

abbrev event : Message ℕ
event = record { offset = 4; value = 1 }
