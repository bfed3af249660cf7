-- ===== src/Gateway/RateLimiter.antt =====
-- apps/gateway/src/middleware/rate_limiter.py. `time.time()` is an argument, in whole microseconds. Redis
-- is a parameter: its pipeline answers the count of the window and the new server, or raises (`none`).
pub mod Window
pub mod Eviction
mod Tests
use intelligent_multi_camera.Prelude.{
  ℕ, ◌+◌, ◌*◌, ◌/◌, String, string_eq, Bool, true, false, not, List, [], ◌∷◌, ◌++◌, Option, none,
  some, ltb, leb, if◌then◌else◌, keep, length, take,
}
use intelligent_multi_camera.Prelude.Dict.{Dict, keys, lookup, insert, erase}

abbrev pub max_in_memory_entries : ℕ
max_in_memory_entries = 10000

abbrev pub second : ℕ
second = 1000000

abbrev pub window : ℕ
window = 60 * second

abbrev pub Log : Type 0
Log = Dict String (List ℕ)

pub record RateLimiter (R : Type 0) : Type 0 where
  pub redis_client : Option R
  pub in_memory_db : Log
  pub enabled : Bool

-- `self.in_memory_db.get(client_ip, [])`
unfoldable pub times_of : String → Log → List ℕ
times_of ip db = elim (lookup ip db) [ none ↦ [] | some ts ↦ ts ]

-- `max(ts) if ts else 0`
unfoldable pub latest : List ℕ → ℕ
latest [] = 0
latest (t ∷ ts) = let m = latest ts in if ltb t m then m else t

-- `sorted(..., key=...)`, which is stable.
unfoldable pub insert_sorted : (String → ℕ) → String → List String → List String
insert_sorted rank x [] = x ∷ []
insert_sorted rank x (y ∷ ys) =
    let later = y ∷ insert_sorted rank x ys in if ltb (rank y) (rank x) then later else x ∷ y ∷ ys

unfoldable pub sort_by : (String → ℕ) → List String → List String
sort_by rank [] = []
sort_by rank (x ∷ xs) = insert_sorted rank x (sort_by rank xs)

-- `for ip in ips: del self.in_memory_db[ip]`
unfoldable pub erase_ips : List String → Log → Log
erase_ips [] db = db
erase_ips (ip ∷ ips) db = erase_ips ips (erase ip db)

-- The keys that `_garbage_collect_in_memory` evicts from a dict that is too large.
unfoldable pub evicted : Log → List String
evicted db =
    let sorted_ips = sort_by (λ ip. latest (times_of ip db)) (keys db) in
    take (length sorted_ips / 2) sorted_ips

unfoldable pub garbage_collect_in_memory : Log → Log
garbage_collect_in_memory db =
    let smaller = erase_ips (evicted db) db in
    if leb (length db) max_in_memory_entries then db else smaller

-- `t > now - window_seconds`
abbrev pub is_recent : ℕ → ℕ → Bool
is_recent now t = ltb now (t + window)

-- The local path, under its lock.
unfoldable pub check_in_memory : ℕ → ℕ → String → Log → Bool × Log
check_in_memory limit now client_ip db₀ =
    let db = garbage_collect_in_memory db₀ in
    let valid_timestamps = keep (is_recent now) (times_of client_ip db) in
    if leb limit (length valid_timestamps)
    then (false, insert client_ip valid_timestamps db)
    else (true, insert client_ip (valid_timestamps ++ (now ∷ [])) db)

module _ {R : Type 0} (pipeline : R → String → ℕ → Option (ℕ × R)) where
  abbrev local : ℕ → ℕ → String → RateLimiter R → Bool × RateLimiter R
  local limit now client_ip s =
      let (ok, db) = check_in_memory limit now client_ip s.in_memory_db in
      (ok, record s { in_memory_db = db })

  -- `results[1]` against the limit; a Redis error drops the client for good.
  abbrev counted : ℕ → ℕ → String → RateLimiter R → Option (ℕ × R) → Bool × RateLimiter R
  counted limit now client_ip s (some (current_requests, r)) =
      (not (leb limit current_requests), record s { redis_client = some r })
  counted limit now client_ip s none = local limit now client_ip (record s { redis_client = none })

  abbrev remote : ℕ → ℕ → String → RateLimiter R → Option R → Bool × RateLimiter R
  remote limit now client_ip s none = local limit now client_ip s
  remote limit now client_ip s (some r) = counted limit now client_ip s (pipeline r client_ip now)

  unfoldable pub check_rate_limit : ℕ → ℕ → String → RateLimiter R → Bool × RateLimiter R
  check_rate_limit limit now client_ip s =
      if s.enabled then remote limit now client_ip s s.redis_client else (true, s)
