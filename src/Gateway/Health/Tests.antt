-- ===== src/Gateway/Health/Tests.antt =====
-- Health reports of a gateway with two services, and the theorem at one of them.
use intelligent_multi_camera.Prelude.{
  ℕ, String, string_eq, ◌≡◌, refl, true, false, [], ◌∷◌, Option, none, some, ◌==◌, if◌then◌else◌,
  ◌↔◌, ◌<>◌, All,
}
use intelligent_multi_camera.Prelude.Dict.{Dict}
use intelligent_multi_camera.Gateway.Health.{
  Redis, redis_status, any_not_healthy, upstream_status, ask_upstreams, health_check, RedisServes,
  Serves, health_check_healthy, degraded,
}

program : Unit {0}
unfolding redis_status any_not_healthy upstream_status ask_upstreams health_check string_eq
program = tt

abbrev services : Dict String String
services = ("auth", "http://auth") ∷ ("search", "http://search") ∷ []

abbrev redis_off : Redis
redis_off = record { enabled = false; redis_client = none }

abbrev answer : String → Option ℕ
answer url = if url == "http://auth/health" then some 200 else some 404

-- A missing health route counts as healthy, and an error of the server does not.
all_healthy : (health_check services redis_off (some answer)).is_degraded ≡ false
unfolding program
all_healthy = refl

one_degraded :
    (health_check services redis_off (some (λ url. some 503))).upstreams
    ≡ (("auth", degraded) ∷ ("search", degraded) ∷ [])
unfolding program
one_degraded = refl

lost_redis :
    (health_check services (record { enabled = true; redis_client = none }) none).is_degraded ≡ true
unfolding program
lost_redis = refl

health_check_healthy_example :
    (health_check services redis_off (some answer)).is_degraded ≡ false ↔ (
      RedisServes redis_off
      × All (λ (name, base_url). Serves (answer (base_url <> "/health"))) services)
health_check_healthy_example = health_check_healthy services redis_off answer
