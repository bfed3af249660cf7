-- ===== src/AiService/Streams.antt =====
-- apps/ai-service/src/stream/rtsp_source.py and the sources of src/stream/stream_manager.py, with one scan of its
-- watchdog while no other task changes the sources. `urlparse` gives the hostname and the port of a URI, none
-- where it raises.
pub mod Scan
mod Tests
use intelligent_multi_camera.Prelude.{
  ℕ, String, string_eq, Bool, true, false, List, [], ◌∷◌, Option, none, some, if◌then◌else◌,
}
use intelligent_multi_camera.Prelude.Dict.{Dict, lookup, insert, erase}
use intelligent_multi_camera.Prelude.Text.{is_empty}

pub data Status : Type 0 where
  unknown : Status
  invalid_uri : Status
  connected : Status
  offline : Status

pub record Source : Type 0 where
  pub camera_id : String
  pub uri : String
  pub name : String
  pub is_active : Bool
  pub last_status : Status
  pub host : Option String
  pub port : ℕ

-- How `socket.create_connection` ends: with a socket, an `OSError`, or another exception, as for a host that has
-- no encoding.
pub data Attempt : Type 0 where
  opened : Attempt
  os_error : Attempt
  other_error : Attempt

-- Hostname and port.
abbrev pub Netloc : Type 0
Netloc = Option String × Option ℕ

module _ (urlparse : String → Option Netloc) where
  unfoldable pub parse_uri : String → Option String × ℕ
  parse_uri uri = elim (urlparse uri) [
    | none ↦ (none, 554)
    | some (host, none) ↦ (host, 554)
    | some (host, some port) ↦ (host, port)
  ]

  unfoldable pub new_source : String → String → String → Source
  new_source camera_id uri name =
      let (host, port) = parse_uri uri in
      record {
        camera_id = camera_id;
        uri = uri;
        name = name;
        is_active = true;
        last_status = unknown;
        host = host;
        port = port;
      }

  unfoldable pub register_source :
      String → String → String → Dict String Source → Dict String Source
  register_source camera_id uri name sources =
      insert camera_id (new_source camera_id uri name) sources

-- The source that is removed, and those that are left.
unfoldable pub deregister_source : String → Dict String Source → Option Source × Dict String Source
deregister_source camera_id sources = (lookup camera_id sources, erase camera_id sources)

abbrev pub with_status : Status → Source → Source
with_status status s = record {
  camera_id = s.camera_id;
  uri = s.uri;
  name = s.name;
  is_active = s.is_active;
  last_status = status;
  host = s.host;
  port = s.port;
}

module _ (create_connection : String → ℕ → Attempt) where
  abbrev concluded : Source → Attempt → Option Bool × Source
  concluded s opened = (some true, with_status connected s)
  concluded s os_error = (some false, with_status offline s)
  concluded s other_error = (none, s)

  -- `if not self.host` holds of the empty text too. The first part is none where the method raises.
  unfoldable pub check_connectivity : Source → Option Bool × Source
  check_connectivity s = elim s.host [
    | none ↦ (some false, with_status invalid_uri s)
    | some host ↦
        if is_empty host
        then (some false, with_status invalid_uri s)
        else concluded s (create_connection host s.port)
  ]

  -- One scan: the sources that it leaves, and the cameras for which the callback is called, whose exceptions are
  -- caught. A check that raises ends the scan.
  unfoldable pub scan : Dict String Source → Dict String Source × List String
  scan [] = ([], [])
  scan ((camera_id, source) ∷ sources) =
      let (later, called) = scan sources in
      let (up, s) = check_connectivity source in
      if source.is_active
      then elim up [
        | none ↦ ((camera_id, s) ∷ sources, [])
        | some true ↦ ((camera_id, s) ∷ later, called)
        | some false ↦ ((camera_id, s) ∷ later, camera_id ∷ called)
      ]
      else ((camera_id, source) ∷ later, called)
