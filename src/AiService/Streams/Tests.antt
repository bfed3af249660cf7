-- ===== src/AiService/Streams/Tests.antt =====
-- Runs of the watchdog's scan over registered cameras, and its theorem at a concrete input.
use intelligent_multi_camera.Prelude.{
  ℕ, String, string_eq, ◌≡◌, refl, [], ◌∷◌, ◌++◌, Option, none, some, ◌==◌, contains, if◌then◌else◌,
  arith,
}
use intelligent_multi_camera.Prelude.Dict.{Dict, lookup, insert, erase, keys}
use intelligent_multi_camera.AiService.Streams.{
  Source, Attempt, opened, os_error, other_error, Netloc, parse_uri, new_source, register_source,
  deregister_source, check_connectivity, scan,
}
use intelligent_multi_camera.AiService.Streams.Scan.{scan_cut_short}

program : Unit {0}
unfolding string_eq lookup insert erase parse_uri new_source register_source deregister_source
    check_connectivity scan
program = tt

-- A parser that knows a host by its first letter, and one URI that it refuses.
abbrev urlparse : String → Option Netloc
urlparse uri = if uri == "rtsp://[" then none else some (some uri, none)

abbrev create_connection : String → ℕ → Attempt
create_connection host port =
    if contains ("gate" ∷ []) host
    then opened
    else if contains ("label-too-long" ∷ []) host
    then other_error
    else os_error

abbrev gate : Source
gate = new_source urlparse "1" "gate" "Gate"

abbrev yard : Source
yard = new_source urlparse "2" "yard" "Yard"

abbrev odd : Source
odd = new_source urlparse "3" "label-too-long" "Odd"

abbrev lobby : Source
lobby = new_source urlparse "4" "lobby" "Lobby"

abbrev before : Dict String Source
before = ("1", gate) ∷ ("2", yard) ∷ []

abbrev after : Dict String Source
after = ("4", lobby) ∷ []

default_port : parse_uri urlparse "yard" ≡ (some "yard", 554)
unfolding program
default_port = refl

no_host : parse_uri urlparse "rtsp://[" ≡ (none, 554)
unfolding program
no_host = refl

registered_twice :
    keys
      (register_source urlparse "1" "yard" "Gate" (register_source urlparse "1" "gate" "Gate" []))
    ≡ ("1" ∷ [])
unfolding program
registered_twice = refl

deregistered : (deregister_source "1" before).0 ≡ some gate
unfolding program
deregistered = refl

both_down : (scan create_connection (("2", yard) ∷ ("4", lobby) ∷ [])).1 ≡ ("2" ∷ "4" ∷ [])
unfolding program
both_down = refl

-- The lobby is down too, and is not reported.
lobby_missed : (scan create_connection (before ++ (("3", odd) ∷ after))).1 ≡ ("2" ∷ [])
unfolding program
lobby_missed = refl

scan_cut_short_example :
    scan create_connection (before ++ (("3", odd) ∷ after))
    ≡ ((scan create_connection before).0 ++ (("3", odd) ∷ after), "2" ∷ [])
unfolding program
scan_cut_short_example =
    scan_cut_short create_connection before after "3" odd
      ((λ _ h. ground arith), ((λ _ h. ground arith), tt)) refl refl
