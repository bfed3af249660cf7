-- ===== src/Gateway/Lockout/Streak.antt =====
-- The lockout against the record of logins: a client is locked for 15 minutes after its latest failure
-- when that is at least the fifth in a row.
use intelligent_multi_camera.Prelude.{
  ℕ, ◌+◌, ◌≤◌, ◌≡◌, refl, String, string_eq, ◌&&◌, List, [], ◌∷◌, arith, ltb, leb, ◌==◌,
  if◌then◌else◌,
}
use intelligent_multi_camera.Prelude.Dict.{lookup, insert, erase, lookup-insert, lookup-erase}
use intelligent_multi_camera.Gateway.Lockout.{
  Lockouts, max_attempts, lock_time, entry_of, is_locked, login_succeeded, login_failed,
}

-- What the auth service answered to a login; other answers change nothing.
pub data Login : Type 0 where
  succeeded failed other : Login

pub record Event : Type 0 where
  pub ip : String
  pub time : ℕ
  pub login : Login

unfoldable pub audit : Lockouts → Event → Lockouts
audit d e = elim e.login [
  | succeeded ↦ login_succeeded e.ip d
  | failed ↦ login_failed e.time e.ip d
  | other ↦ d
]

-- The table after the events, the latest of which stands first.
unfoldable pub replay : List Event → Lockouts
replay [] = []
replay (e ∷ es) = audit (replay es) e

-- The failures of a client since its last success.
abbrev pub streak : String → List Event → ℕ
streak ip [] = 0
streak ip (e ∷ es) =
    let before = streak ip es in
    if ip == e.ip
    then elim e.login [ succeeded ↦ 0 | failed ↦ before + 1 | other ↦ before ]
    else before

-- The time of its latest failure.
abbrev pub last_failure : String → List Event → ℕ
last_failure ip [] = 0
last_failure ip (e ∷ es) =
    let before = last_failure ip es in
    if ip == e.ip
    then elim e.login [ succeeded ↦ before | failed ↦ e.time | other ↦ before ]
    else before

entry_of-insert :
    (ip j : String) (v : ℕ × ℕ) (d : Lockouts)
    → entry_of ip (insert j v d) ≡ (if ip == j then v else entry_of ip d)
unfolding entry_of
entry_of-insert ip j v d = ground (arith, lookup-insert ip j v d)

entry_of-erase :
    (ip j : String) (d : Lockouts)
    → entry_of ip (erase j d) ≡ (if ip == j then (0, 0) else entry_of ip d)
unfolding entry_of
entry_of-erase ip j d = ground (arith, lookup-erase ip j d)

-- What the table holds of a client, against the streak and the time of the latest failure.
unfoldable Tells : String → List Event → ℕ × ℕ → Type 0
Tells ip es (attempts, lock_until) =
    (attempts ≡ streak ip es)
    × (max_attempts ≤ streak ip es → lock_until ≡ last_failure ip es + lock_time)

audit-Tells :
    (ip j : String) (time : ℕ) (login : Login) (es : List Event) (d : Lockouts)
    → Tells ip es (entry_of ip d)
    → let e : Event = record { ip = j; time = time; login = login } in
      Tells ip (e ∷ es) (entry_of ip (audit d e))
unfolding Tells audit login_succeeded login_failed
audit-Tells ip j time succeeded es d h = ground (arith, h.0, h.1, entry_of-erase ip j d)
audit-Tells ip j time failed es d h =
    let attempts = (entry_of j d).0 + 1 in
    let after : ℕ × ℕ = (attempts, if leb max_attempts attempts then time + lock_time else 0) in
    ground (arith, h.0, h.1, entry_of-insert ip j after d)
audit-Tells ip j time other es d h = ground (arith, h.0, h.1)

replay-Tells : (ip : String) (es : List Event) → Tells ip es (entry_of ip (replay es))
unfolding replay entry_of lookup Tells
replay-Tells ip [] = (refl, λ h. absurd (omega arith))
replay-Tells ip (e ∷ es) = audit-Tells ip e.ip e.time e.login es (replay es) (replay-Tells ip es)

-- Where logins are counted in memory, with no Redis, the login gate refuses a client at `now`, after any logins,
-- exactly when its last successful login was followed by at least five failures and fewer than 15 minutes have gone
-- by since the latest failure.
pub is_locked-replay :
    (now : ℕ) (ip : String) (es : List Event)
    → is_locked now ip (replay es)
      ≡ (leb max_attempts (streak ip es) && ltb now (last_failure ip es + lock_time))
unfolding is_locked Tells
is_locked-replay now ip es = ground (arith, replay-Tells ip es)
