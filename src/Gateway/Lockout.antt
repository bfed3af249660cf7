-- ===== src/Gateway/Lockout.antt =====
-- The login lockout of apps/gateway/src/main.py, kept in `gateway_lockouts` when Redis is not in use:
-- client IP → (failed attempts, end of the lock). Times are in whole microseconds.
pub mod Streak
mod Tests
use intelligent_multi_camera.Prelude.{
  ℕ, ◌+◌, ◌*◌, String, string_eq, Bool, true, false, ◌&&◌, List, [], ◌∷◌, Option, none, some, ltb,
  leb, if◌then◌else◌,
}
use intelligent_multi_camera.Prelude.Dict.{Dict, lookup, insert, erase}
use intelligent_multi_camera.Gateway.RateLimiter.{second}

abbrev pub Lockouts : Type 0
Lockouts = Dict String (ℕ × ℕ)

abbrev pub max_attempts : ℕ
max_attempts = 5

abbrev pub lock_time : ℕ
lock_time = 900 * second

-- `gateway_lockouts.get(client_ip, (0, 0.0))`
unfoldable pub entry_of : String → Lockouts → ℕ × ℕ
entry_of ip d = elim (lookup ip d) [ none ↦ (0, 0) | some e ↦ e ]

-- `attempts >= 5 and time.time() < lock_until`
unfoldable pub is_locked : ℕ → String → Lockouts → Bool
is_locked now ip d =
    let (attempts, lock_until) = entry_of ip d in leb max_attempts attempts && ltb now lock_until

-- After a 200 from the auth service.
unfoldable pub login_succeeded : String → Lockouts → Lockouts
login_succeeded ip d = erase ip d

-- After a 401.
unfoldable pub login_failed : ℕ → String → Lockouts → Lockouts
login_failed now ip d =
    let (attempts, _) = entry_of ip d in
    insert ip (attempts + 1, if leb max_attempts (attempts + 1) then now + lock_time else 0) d
