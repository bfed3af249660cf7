-- ===== src/Scheduler/Cleanup/Tests.antt =====
-- Runs of the cleanup, and its theorems at concrete tables.
use intelligent_multi_camera.Prelude.{
  nat_eq, ◌≡◌, refl, String, string_eq, true, List, [], ◌∷◌, ◌++◌, Option, none, some, arith, All,
}
use intelligent_multi_camera.Prelude.Dict.{lookup, erase}
use intelligent_multi_camera.Scheduler.Cleanup.{
  Tables, crops, split_once, object_of, erase_persons, expired_persons, delete_rows,
  execute_cleanup_job, delete_crops,
}
use intelligent_multi_camera.Scheduler.Cleanup.References.{Stays, delete_rows_stay}

program : Unit {0}
unfolding lookup erase crops split_once object_of erase_persons expired_persons delete_rows
    execute_cleanup_job delete_crops string_eq nat_eq
program = tt

abbrev tables : Tables
tables = record {
  tracking_events =
      record { id = "1"; person_id = "p"; crop_path = some "crops/person/1.jpg"; timestamp = 5 }
      ∷ record { id = "2"; person_id = "q"; crop_path = none; timestamp = 20 }
      ∷ [];
  fire_events = record { id = "3"; crop_path = some "3.jpg"; timestamp = 7 } ∷ [];
  persons = ("p", 6) ∷ ("q", 21) ∷ [];
  alerts = 3 ∷ 30 ∷ [];
}

abbrev delete_object : List (String × String) → String → String → Option (List (String × String))
delete_object o b n = some ((b, n) ∷ o)

abbrev delete_embeddings : List String → List String → Option (List String)
delete_embeddings v ids = some (ids ++ v)

-- The objects record what was deleted.
cleans : execute_cleanup_job delete_object delete_embeddings true 10 "default" tables [] [] ≡ (
  record {
    tracking_events = record { id = "2"; person_id = "q"; crop_path = none; timestamp = 20 } ∷ [];
    fire_events = [];
    persons = ("q", 21) ∷ [];
    alerts = 30 ∷ [];
  },
  ("default", "3.jpg") ∷ ("crops", "person/1.jpg") ∷ [],
  "p" ∷ [],
)
unfolding program
cleans = refl

delete_rows_stay_example :
    All (Stays 10 (delete_rows 10 tables).persons) (delete_rows 10 tables).tracking_events
unfolding lookup string_eq
delete_rows_stay_example =
    delete_rows_stay 10 tables (refl, (refl, tt))
      ((6, refl, omega arith), ((21, refl, omega arith), tt))
