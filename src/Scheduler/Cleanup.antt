-- ===== src/Scheduler/Cleanup.antt =====
-- `execute_cleanup_job` of apps/scheduler-service/src/jobs/cleanup_job.py. The vector store and the object store
-- are parameters, which raise where they answer `none`; a row has the columns that the job reads.
pub mod References
pub mod Objects
mod Tests
use intelligent_multi_camera.Prelude.{
  ℕ, nat_eq, String, string_eq, Bool, true, false, not, List, [], ◌∷◌, ◌++◌, Option, none, some,
  ltb, ◌==◌, contains, map, keep, if◌then◌else◌,
}
use intelligent_multi_camera.Prelude.Dict.{Dict, lookup, erase}
use intelligent_multi_camera.Prelude.Text.{is_empty}
use Prim.Native.String.{String as Text}
use Prim.Native.Char.{code}

pub record EventRow : Type 0 where
  pub id : String
  pub person_id : String
  pub crop_path : Option String
  pub timestamp : ℕ

pub record FireRow : Type 0 where
  pub id : String
  pub crop_path : Option String
  pub timestamp : ℕ

-- The persons' table holds when each was last seen, that of the alerts their times.
pub record Tables : Type 0 where
  pub tracking_events : List EventRow
  pub fire_events : List FireRow
  pub persons : Dict String ℕ
  pub alerts : List ℕ

-- `[row for row in rows if row.crop_path]`
unfoldable pub crops : List (Option String) → List String
crops [] = []
crops (none ∷ rows) = crops rows
crops (some path ∷ rows) = let rest = crops rows in if is_empty path then rest else path ∷ rest

-- `crop_path.split("/", 1)`
unfoldable pub split_once : String → String × Option String
split_once Text.[] = ("", none)
split_once (Text.◌∷◌ c s) =
    let (first, rest) = split_once s in
    if code c == 47 then ("", some s) else (Text.◌∷◌ c first, rest)

-- The bucket and the name of a crop.
unfoldable pub object_of : String → String → String × String
object_of default_bucket crop_path =
    let (first, rest) = split_once crop_path in
    elim rest [ none ↦ (default_bucket, first) | some name ↦ (first, name) ]

unfoldable pub erase_persons : List String → Dict String ℕ → Dict String ℕ
erase_persons [] persons = persons
erase_persons (id ∷ ids) persons = erase_persons ids (erase id persons)

-- `SELECT id FROM persons WHERE last_seen < :cutoff`
unfoldable pub expired_persons : ℕ → Dict String ℕ → List String
expired_persons cutoff [] = []
expired_persons cutoff ((id, last_seen) ∷ persons) =
    let rest = expired_persons cutoff persons in if ltb last_seen cutoff then id ∷ rest else rest

abbrev pub expired_events : ℕ → Tables → List EventRow
expired_events cutoff t = keep (λ row. ltb row.timestamp cutoff) t.tracking_events

abbrev pub expired_fires : ℕ → Tables → List FireRow
expired_fires cutoff t = keep (λ row. ltb row.timestamp cutoff) t.fire_events

-- The deletions of one transaction.
unfoldable pub delete_rows : ℕ → Tables → Tables
delete_rows cutoff t =
    let event_ids = map (λ row. row.id) (expired_events cutoff t) in
    let fire_ids = map (λ row. row.id) (expired_fires cutoff t) in
    record {
      tracking_events = keep (λ row. not (contains event_ids row.id)) t.tracking_events;
      fire_events = keep (λ row. not (contains fire_ids row.id)) t.fire_events;
      persons = erase_persons (expired_persons cutoff t.persons) t.persons;
      alerts = keep (λ time. not (ltb time cutoff)) t.alerts;
    }

module _ {O V : Type 0} (delete_object : O → String → String → Option O)
    (delete_embeddings : V → List String → Option V) where
  abbrev or_same {ℓ} : {A : Type ℓ} → A → Option A → A
  or_same a none = a
  or_same a (some b) = b

  -- An object that cannot be deleted is skipped.
  unfoldable pub delete_crops : String → List String → O → O
  delete_crops bucket [] objects = objects
  delete_crops bucket (path ∷ paths) objects =
      let (b, name) = object_of bucket path in
      delete_crops bucket paths (or_same objects (delete_object objects b name))

  abbrev delete_vectors : List String → V → V
  delete_vectors [] vectors = vectors
  delete_vectors (id ∷ ids) vectors = or_same vectors (delete_embeddings vectors (id ∷ ids))

  -- The tables, the objects and the vectors after a run; `commits` says whether the transaction succeeds, and
  -- objects and vectors do not come back if it does not.
  unfoldable pub execute_cleanup_job : Bool → ℕ → String → Tables → O → V → Tables × O × V
  execute_cleanup_job commits cutoff bucket t objects vectors =
      let paths =
        crops (map (λ row. row.crop_path) (expired_events cutoff t))
        ++ crops (map (λ row. row.crop_path) (expired_fires cutoff t)) in
      (
        if commits then delete_rows cutoff t else t,
        delete_crops bucket paths objects,
        delete_vectors (expired_persons cutoff t.persons) vectors,
      )
