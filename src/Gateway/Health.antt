-- ===== src/Gateway/Health.antt =====
-- `health_check` of apps/gateway/src/main.py. `answer` is the status of an upstream's response at a URL, none where
-- the request raises.
mod Tests
use intelligent_multi_camera.Prelude.{
  ℕ, String, ◌<>◌, Bool, true, false, not, ◌||◌, ◌&&◌, List, [], ◌∷◌, map, Option, none, some, ltb,
  ◌≡◌, refl, ◌↔◌, ◌<◌, All, arith, if◌then◌else◌,
}
use intelligent_multi_camera.Prelude.Dict.{Dict}

pub data RedisStatus : Type 0 where
  disabled : RedisStatus
  unavailable : RedisStatus
  connected : RedisStatus

pub data Upstream : Type 0 where
  healthy : Upstream
  degraded : Upstream
  unreachable : Upstream

-- The limiter's client, or none, with whether it answers a ping.
pub record Redis : Type 0 where
  pub enabled : Bool
  pub redis_client : Option Bool

pub record Report : Type 0 where
  pub is_degraded : Bool
  pub redis : RedisStatus
  pub upstreams : Dict String Upstream

unfoldable pub redis_status : Redis → RedisStatus
redis_status r =
    if r.enabled
    then elim r.redis_client [
      | none ↦ unavailable
      | some pong ↦ if pong then connected else unavailable
    ]
    else disabled

abbrev is_unavailable : RedisStatus → Bool
is_unavailable disabled = false
is_unavailable unavailable = true
is_unavailable connected = false

abbrev is_not_healthy : Upstream → Bool
is_not_healthy healthy = false
is_not_healthy degraded = true
is_not_healthy unreachable = true

-- `any(status_value != "healthy" for status_value in upstreams.values())`
unfoldable pub any_not_healthy : Dict String Upstream → Bool
any_not_healthy [] = false
any_not_healthy ((name, u) ∷ us) = is_not_healthy u || any_not_healthy us

unfoldable pub upstream_status : Option ℕ → Upstream
upstream_status none = unreachable
upstream_status (some status_code) = if ltb status_code 500 then healthy else degraded

module _ (service_mapping : Dict String String) where
  -- The client is none before the gateway has started: then no upstream is asked.
  unfoldable pub ask_upstreams : Option (String → Option ℕ) → Dict String Upstream
  ask_upstreams none = []
  ask_upstreams (some answer) =
      map (λ (name, base_url). (name, upstream_status (answer (base_url <> "/health"))))
        service_mapping

  unfoldable pub health_check : Redis → Option (String → Option ℕ) → Report
  health_check r async_client =
      let status = redis_status r in
      let upstreams = ask_upstreams async_client in
      record {
        is_degraded = is_unavailable status || any_not_healthy upstreams;
        redis = status;
        upstreams = upstreams;
      }

-- Redis is off, or its client answers.
abbrev pub RedisServes : Redis → Type 0
RedisServes r = if r.enabled then r.redis_client ≡ some true else Unit

-- The response came, with a status below 500.
abbrev pub Serves : Option ℕ → Type 0
Serves none = ⊥
Serves (some status_code) = status_code < 500

redis_status-serves : (r : Redis) → is_unavailable (redis_status r) ≡ false ↔ RedisServes r
unfolding redis_status
redis_status-serves r = ground arith

upstreams-serve :
    (answer : String → Option ℕ) (service_mapping : Dict String String)
    → any_not_healthy (ask_upstreams service_mapping (some answer)) ≡ false
      ↔ All (λ (name, base_url). Serves (answer (base_url <> "/health"))) service_mapping
unfolding any_not_healthy ask_upstreams upstream_status
upstreams-serve answer [] = ground arith
upstreams-serve answer ((name, base_url) ∷ services) =
    ground (arith, upstreams-serve answer services)

-- The gateway that has started reports itself healthy exactly when Redis is off or answers, and each of its services
-- answers its health route with a status below 500.
pub health_check_healthy :
    (service_mapping : Dict String String) (r : Redis) (answer : String → Option ℕ)
    → (health_check service_mapping r (some answer)).is_degraded ≡ false ↔ (
        RedisServes r
        × All (λ (name, base_url). Serves (answer (base_url <> "/health"))) service_mapping)
unfolding health_check
health_check_healthy service_mapping r answer =
    ground (arith, redis_status-serves r, upstreams-serve answer service_mapping)
