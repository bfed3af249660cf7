-- ===== src/Shared/Startup/Tests.antt =====
-- Runs of the wait for the database, and its theorem at concrete attempts.
use intelligent_multi_camera.Prelude.{ℕ, ◌<◌, ◌≡◌, refl, ◌↔◌, Bool, true, none, some, leb}
use intelligent_multi_camera.Shared.Startup.{attempts, wait_for_db, all_fail, wait_for_db_first}

program : Unit {0}
unfolding attempts wait_for_db
program = tt

-- The third attempt is the first to succeed.
abbrev third : ℕ → Bool
third n = leb 3 n

ready : wait_for_db third 20 ≡ record { ready = some 3; engines_created = 3; engines_disposed = 3 }
unfolding program
ready = refl

too_few : (wait_for_db third 2).ready ≡ none
unfolding program
too_few = refl

wait_for_db_first_example :
    (((wait_for_db third 20).ready ≡ some 3)
      ↔ ((2 < 20) × (third 3 ≡ true) × (all_fail third 2 1 ≡ true)))
    × ((wait_for_db third 20).engines_created ≡ (wait_for_db third 20).engines_disposed)
wait_for_db_first_example = wait_for_db_first third 20 2
