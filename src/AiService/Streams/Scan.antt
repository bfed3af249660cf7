-- ===== src/AiService/Streams/Scan.antt =====
-- Which cameras a scan of the watchdog reports.
use intelligent_multi_camera.Prelude.{
  ℕ, String, ◌≡◌, ◌≢◌, refl, Bool, true, false, not, ◌&&◌, [], ◌∷◌, ◌++◌, Option, none, some, arith,
  keep, All,
}
use intelligent_multi_camera.Prelude.Dict.{Dict, keys}
use intelligent_multi_camera.AiService.Streams.{Source, Attempt, check_connectivity, scan}

module _ (create_connection : String → ℕ → Attempt) where
  abbrev pub reachable : Source → Option Bool
  reachable s = (check_connectivity create_connection s).0

  -- The check of an active source does not raise.
  abbrev pub IsChecked : String × Source → Type 0
  IsChecked (camera_id, s) = s.is_active ≡ true → reachable s ≢ none

  abbrev reports : Option Bool → Bool
  reports none = false
  reports (some up) = not up

  -- An active source whose check says that it is not reachable.
  abbrev pub is_down : String × Source → Bool
  is_down (camera_id, s) = s.is_active && reports (reachable s)

  -- A check that raises leaves the source as it was.
  raised-keeps : (s : Source) → reachable s ≡ none → (check_connectivity create_connection s).1 ≡ s
  unfolding check_connectivity
  raised-keeps s h = ground arith

  -- A scan in which no check raises calls the callback for exactly the active sources that are not reachable, in
  -- the order of their registration.
  pub scan_reports :
      (sources : Dict String Source)
      → All IsChecked sources
      → (scan create_connection sources).1 ≡ keys (keep is_down sources)
  unfolding scan
  scan_reports [] h = refl
  scan_reports ((camera_id, s) ∷ sources) (h, hs) = ground (arith, scan_reports sources hs)

  -- Where the check of an active source raises and no check before it does, the scan ends: this source and those
  -- behind it stay as they were and are not reported, and those before it are left as by a scan of their own, which
  -- reports exactly the active ones that are not reachable, in order.
  pub scan_cut_short :
      (before after : Dict String Source) (camera_id : String) (s : Source)
      → All IsChecked before
      → s.is_active ≡ true
      → reachable s ≡ none
      → scan create_connection (before ++ ((camera_id, s) ∷ after)) ≡ (
        (scan create_connection before).0 ++ ((camera_id, s) ∷ after),
        keys (keep is_down before),
      )
  unfolding scan
  scan_cut_short [] after camera_id s h active raised = ground (arith, raised-keeps s raised)
  scan_cut_short (b ∷ before) after camera_id s (h, hs) active raised =
      ground (arith, scan_cut_short before after camera_id s hs active raised)
