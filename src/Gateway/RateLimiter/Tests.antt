-- ===== src/Gateway/RateLimiter/Tests.antt =====
-- Runs of the limiter, and its theorems at concrete inputs.
use intelligent_multi_camera.Prelude.{
  ℕ, zero, suc, ap, ◌≤◌, ◌≡◌, refl, String, string_eq, true, false, List, [], ◌∷◌, none, some,
  arith, length,
}
use intelligent_multi_camera.Prelude.Dict.{lookup, insert, erase}
use intelligent_multi_camera.Gateway.RateLimiter.{
  RateLimiter, Log, times_of, latest, insert_sorted, sort_by, erase_ips, evicted,
  garbage_collect_in_memory, check_in_memory, check_rate_limit,
}
use intelligent_multi_camera.Gateway.RateLimiter.Window.{serve, in_window, serve_bounded}

program : Unit {0}
unfolding times_of latest insert_sorted sort_by erase_ips evicted garbage_collect_in_memory
    check_in_memory check_rate_limit serve lookup insert erase string_eq
program = tt

abbrev requests : List (String × ℕ)
requests = ("a", 100) ∷ ("a", 200) ∷ ("b", 200) ∷ ("a", 300) ∷ ("a", 60000150) ∷ []

-- The third request of "a" is refused; a minute after the first one there is room again.
serve_runs : serve 2 requests [] [] ≡ (
  ("a", 200 ∷ 60000150 ∷ []) ∷ ("b", 200 ∷ []) ∷ [],
  ("a", 100) ∷ ("a", 200) ∷ ("b", 200) ∷ ("a", 60000150) ∷ [],
)
unfolding program
serve_runs = refl

-- Redis counts one more request than the limit allows; when it fails, the local log takes over.
abbrev local_only : RateLimiter ℕ
local_only = record { redis_client = none; in_memory_db = ("a", 5 ∷ []) ∷ []; enabled = true }

redis_refuses :
    check_rate_limit (λ r ip now. some (2, r)) 2 7 "a" (record local_only { redis_client = some 0 })
    ≡ (false, record local_only { redis_client = some 0 })
unfolding program
redis_refuses = refl

redis_fails :
    check_rate_limit (λ r ip now. none) 2 7 "a" (record local_only { redis_client = some 0 })
    ≡ (true, record local_only { in_memory_db = ("a", 5 ∷ 7 ∷ []) ∷ [] })
unfolding program
redis_fails = refl

sorts :
    sort_by
      (λ ip. latest (times_of ip (("a", 9 ∷ []) ∷ ("b", 3 ∷ 4 ∷ []) ∷ ("c", []) ∷ [])))
      ("a" ∷ "b" ∷ "c" ∷ [])
    ≡ "c" ∷ "b" ∷ "a" ∷ []
unfolding program
sorts = refl

serve_bounded_example : in_window 60000200 "a" (serve 2 requests [] []).1 ≤ 2
serve_bounded_example =
    serve_bounded 2 requests "a" 60000200 (omega arith) (omega arith) (omega arith)

-- A dict that is too large.
copies : ℕ → Log
copies zero = []
copies (suc n) = ("a", 5 ∷ []) ∷ copies n

length-copies : (n : ℕ) → length (copies n) ≡ n
unfolding copies
length-copies zero = refl
length-copies (suc n) = ap suc (length-copies n)
