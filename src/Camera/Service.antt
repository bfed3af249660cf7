-- ===== src/Camera/Service.antt =====
-- apps/camera-service/src/services/camera_service.py over the cameras' table of src/models/camera.py, as the
-- list of its rows in any order. `updated_at`, which nothing reads, is left out.
pub mod Table
pub mod Pages
pub mod Lookup
pub mod Order
use intelligent_multi_camera.Prelude.{
  ℕ, ◌+◌, nat_eq, String, string_eq, Bool, true, false, not, ◌&&◌, ◌||◌, List, [], ◌∷◌, Option,
  none, some, ltb, leb, ◌==◌, if◌then◌else◌, length, keep, take, drop,
}
use Prim.Native.String.{String as Text, count}
use Prim.Native.Char.{code}

pub record Camera : Type 0 where
  pub id : String
  pub name : String
  pub rtsp_url : String
  pub location : Option String
  pub status : String
  pub fps : ℕ
  pub created_at : ℕ

abbrev pub length_of : Option String → ℕ
length_of none = 0
length_of (some s) = count s

-- The widths of the columns.
unfoldable pub fits : Camera → Bool
fits c =
    leb (count c.name) 100
    && leb (count c.rtsp_url) 255
    && leb (length_of c.location) 255
    && leb (count c.status) 50

-- `length(trim(name)) > 0`, where `trim` removes spaces alone.
unfoldable pub not_blank : String → Bool
not_blank Text.[] = false
not_blank (Text.◌∷◌ c s) = not (code c == 32) || not_blank s

unfoldable pub no_space : String → Bool
no_space Text.[] = true
no_space (Text.◌∷◌ c s) = not (code c == 32 || (leb 9 (code c) && leb (code c) 13)) && no_space s

abbrev same_letter : ℕ → ℕ → Bool
same_letter c d = c == d || c + 32 == d

-- What stands after the letters of a text, whatever their case, when a text begins with them.
unfoldable pub after : String → String → Option String
after Text.[] s = some s
after (Text.◌∷◌ d p) Text.[] = none
after (Text.◌∷◌ d p) (Text.◌∷◌ c s) =
    let rest = after p s in if same_letter (code c) (code d) then rest else none

abbrev nonempty_address : Option String → Bool
nonempty_address none = false
nonempty_address (some Text.[]) = false
nonempty_address (some (Text.◌∷◌ c s)) = no_space (Text.◌∷◌ c s)

-- `rtsp_url ~* '^rtsps?://[^[:space:]]+$'`
unfoldable pub has_scheme : String → Bool
has_scheme url = nonempty_address (after "rtsp://" url) || nonempty_address (after "rtsps://" url)

abbrev pub connected : String
connected = "CONNECTED"

abbrev pub disconnected : String
disconnected = "DISCONNECTED"

-- The check constraints of the table.
unfoldable pub satisfies : Camera → Bool
satisfies c =
    not_blank c.name
    && has_scheme c.rtsp_url
    && (leb 1 c.fps && leb c.fps 120)
    && (c.status == connected || c.status == disconnected)

-- How a flush ends: the rows afterwards, or the exception of the database.
pub data Flushed : Type 0 where
  stored : List Camera → Flushed
  integrity_error data_error : Flushed

unfoldable pub first_camera : (Camera → Bool) → List Camera → Option Camera
first_camera p [] = none
first_camera p (c ∷ rows) = let rest = first_camera p rows in if p c then some c else rest

-- The primary key and the unique column.
abbrev pub clash : Camera → Camera → Bool
clash c d = d.id == c.id || d.rtsp_url == c.rtsp_url

unfoldable pub write_row : Camera → Bool → List Camera → Flushed
write_row camera taken rows =
    if not (fits camera)
    then data_error
    else if not (satisfies camera) || taken
    then integrity_error
    else stored rows

abbrev pub is_some {ℓ} : {A : Type ℓ} → Option A → Bool
is_some none = false
is_some (some _) = true

abbrev pub new_camera : String → ℕ → String → String → Option String → ℕ → Camera
new_camera new_id now name rtsp_url location fps = record {
  id = new_id;
  name = name;
  rtsp_url = rtsp_url;
  location = location;
  status = disconnected;
  fps = fps;
  created_at = now;
}

unfoldable pub create_camera :
    String → ℕ → String → String → Option String → ℕ → List Camera → Flushed
create_camera new_id now name rtsp_url location fps rows =
    let camera = new_camera new_id now name rtsp_url location fps in
    write_row camera (is_some (first_camera (clash camera) rows)) (camera ∷ rows)

unfoldable pub get_by_id : String → List Camera → Option Camera
get_by_id camera_id rows = first_camera (λ c. c.id == camera_id) rows

unfoldable pub get_by_rtsp_url : String → List Camera → Option Camera
get_by_rtsp_url rtsp_url rows = first_camera (λ c. c.rtsp_url == rtsp_url) rows

-- The rows with the change of an object that was read from them.
unfoldable pub put_row : (Camera → Camera) → String → List Camera → List Camera
put_row f camera_id [] = []
put_row f camera_id (c ∷ rows) =
    let rest = put_row f camera_id rows in if c.id == camera_id then f c ∷ rows else c ∷ rest

abbrev pub or_else {ℓ} : {A : Type ℓ} → Option A → A → A
or_else none a = a
or_else (some b) a = b

abbrev or_kept : Option String → Option String → Option String
or_kept none a = a
or_kept (some b) a = some b

-- The assignments of `update_camera`.
abbrev pub with_settings : Option String → Option String → Option ℕ → Camera → Camera
with_settings name location fps c = record c {
  name = or_else name c.name;
  location = or_kept location c.location;
  fps = or_else fps c.fps;
}

-- A camera that is not found is `none`.
abbrev pub changed : (Camera → Camera) → String → List Camera → Option Camera → Option Flushed
changed f camera_id rows none = none
changed f camera_id rows (some c) = some (write_row (f c) false (put_row f camera_id rows))

unfoldable pub update_camera :
    String → Option String → Option String → Option ℕ → List Camera → Option Flushed
update_camera camera_id name location fps rows =
    changed (with_settings name location fps) camera_id rows (get_by_id camera_id rows)

abbrev pub with_status : String → Camera → Camera
with_status status c = record c { status = status }

unfoldable pub update_status : String → String → List Camera → Option Flushed
update_status camera_id status rows =
    changed (with_status status) camera_id rows (get_by_id camera_id rows)

abbrev pub deleted : String → List Camera → Option Camera → Bool × List Camera
deleted camera_id rows none = (false, rows)
deleted camera_id rows (some _) = (true, keep (λ c. not (c.id == camera_id)) rows)

unfoldable pub delete_camera : String → List Camera → Bool × List Camera
delete_camera camera_id rows = deleted camera_id rows (get_by_id camera_id rows)

-- The rows in all, and those whose status is connected.
unfoldable pub get_status_counts : List Camera → ℕ × ℕ
get_status_counts rows = (length rows, length (keep (λ c. c.status == connected) rows))

-- `before` is the database's order of ids.
module _ (before : String → String → Bool) where
  -- `ORDER BY created_at DESC, id`
  unfoldable pub comes_first : Camera → Camera → Bool
  comes_first c d =
      ltb d.created_at c.created_at || (c.created_at == d.created_at && before c.id d.id)

  unfoldable pub insert_row : Camera → List Camera → List Camera
  insert_row c [] = c ∷ []
  insert_row c (d ∷ rows) =
      let rest = insert_row c rows in if comes_first c d then c ∷ d ∷ rows else d ∷ rest

  unfoldable pub order_by : List Camera → List Camera
  order_by [] = []
  order_by (c ∷ rows) = insert_row c (order_by rows)

  abbrev limited : Option ℕ → List Camera → List Camera
  limited none rows = rows
  limited (some limit) rows = take limit rows

  unfoldable pub list_all_cameras : Option ℕ → ℕ → List Camera → List Camera
  list_all_cameras limit offset rows = limited limit (drop offset (order_by rows))
