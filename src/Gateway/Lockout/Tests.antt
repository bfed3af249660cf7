-- ===== src/Gateway/Lockout/Tests.antt =====
-- Runs of the lockout, and its theorem at a concrete record of logins.
use intelligent_multi_camera.Prelude.{
  ◌≡◌, refl, ◌+◌, string_eq, true, false, ◌&&◌, List, [], ◌∷◌, ltb, leb,
}
use intelligent_multi_camera.Prelude.Dict.{lookup, insert, erase}
use intelligent_multi_camera.Gateway.Lockout.{
  entry_of, is_locked, login_succeeded, login_failed, max_attempts, lock_time,
}
use intelligent_multi_camera.Gateway.Lockout.Streak.{
  Event, failed, succeeded, audit, replay, streak, last_failure, is_locked-replay,
}

program : Unit {0}
unfolding entry_of is_locked login_succeeded login_failed audit replay lookup insert erase string_eq
program = tt

-- Five failures of "a" after a success, with one of "b" between.
abbrev logins : List Event
logins =
    record { ip = "a"; time = 60; login = failed }
    ∷ record { ip = "a"; time = 50; login = failed }
    ∷ record { ip = "b"; time = 45; login = failed }
    ∷ record { ip = "a"; time = 40; login = failed }
    ∷ record { ip = "a"; time = 30; login = failed }
    ∷ record { ip = "a"; time = 20; login = failed }
    ∷ record { ip = "a"; time = 10; login = succeeded }
    ∷ []

locks : is_locked 900000059 "a" (replay logins) ≡ true
unfolding program
locks = refl

lets_go : is_locked 900000060 "a" (replay logins) ≡ false
unfolding program
lets_go = refl

is_locked-replay_example :
    is_locked 100 "a" (replay logins)
    ≡ (leb max_attempts (streak "a" logins) && ltb 100 (last_failure "a" logins + lock_time))
is_locked-replay_example = is_locked-replay 100 "a" logins
