-- ===== src/Gateway/Proxy.antt =====
-- `proxy_request`, `get_client_ip` and `limit_request_payload_size` of apps/gateway/src/main.py. Redis, the JWT
-- decoder and the HTTP client are parameters; times are in whole microseconds.
pub mod Identity
pub mod Privilege
pub mod Routing
mod Tests
use intelligent_multi_camera.Prelude.{
  ℕ, nat_eq, String, string_eq, ◌+◌, ◌*◌, Bool, true, false, not, ◌&&◌, ◌||◌, List, [], ◌∷◌, Option,
  none, some, ltb, leb, ◌==◌, contains, if◌then◌else◌, map,
}
use intelligent_multi_camera.Prelude.Int.{ℤ, pos, negsuc, ltb_ℤ}
use intelligent_multi_camera.Prelude.Text.{is_empty, strip, fields, int_of}
use intelligent_multi_camera.Prelude.Dict.{Dict, lookup, insert, erase, has}
use intelligent_multi_camera.Shared.Http.{Result, ok, failed, Headers}
use intelligent_multi_camera.Gateway.RateLimiter.{RateLimiter, check_rate_limit}
use intelligent_multi_camera.Gateway.Lockout.{
  Lockouts, is_locked, login_succeeded, login_failed, max_attempts,
}
use intelligent_multi_camera.Gateway.Token.{
  Claim, null, text, Claims, Decoded, claim, str_of_claim, verify_token,
}

-- The header names of a request are in lower case, as Starlette's `dict(request.headers)` has them.
pub record Request : Type 0 where
  pub service : String
  pub path : String
  pub client : Option String
  pub headers : Dict String String

-- `{p.strip() for p in os.getenv("TRUSTED_PROXY_IPS", "").split(",") if p.strip()}`
abbrev stripped : List String → List String
stripped [] = []
stripped (p ∷ ps) = let rest = stripped ps in if is_empty (strip p) then rest else strip p ∷ rest

unfoldable pub trusted_proxies : String → List String
trusted_proxies variable = let (p, ps) = fields variable in stripped (p ∷ ps)

abbrev pub or_else {ℓ} : {A : Type ℓ} → A → Option A → A
or_else a none = a
or_else a (some b) = b

unfoldable pub get_client_ip : String → Request → String
get_client_ip variable request =
    let direct_ip = or_else "unknown" request.client in
    let first_hop = strip (fields (or_else "" (lookup "x-forwarded-for" request.headers))).0 in
    if contains (trusted_proxies variable) direct_ip && not (is_empty first_hop)
    then first_hop
    else direct_ip

-- `limit_request_payload_size`: whether the request is let through.
unfoldable pub within_limit : Bool → Option String → Bool
within_limit is_upload_route none = true
within_limit is_upload_route (some content_length) = elim (int_of content_length) [
  | none ↦ true
  | some n ↦ not (ltb_ℤ (pos (if is_upload_route then 250 * 1024 * 1024 else 2 * 1024 * 1024)) n)
]

-- What Redis does with a client's count of failed logins. Each operation can raise (`none`).
pub record Redis (R : Type 0) : Type 0 where
  pub pipeline : R → String → ℕ → Option (ℕ × R)
  -- `int(get(lockout_key))`, 0 without a key
  pub attempts : R → String → Option ℕ
  -- `delete(lockout_key)`
  pub forget : R → String → Option R
  -- `incr(lockout_key)` and `expire(lockout_key, 900)`
  pub count : R → String → Option R

pub record Gateway (R : Type 0) : Type 0 where
  pub limiter : RateLimiter R
  pub lockouts : Lockouts

-- What the downstream service answers: its status, or `httpx.RequestError`.
pub data Answer : Type 0 where
  unreachable : Answer
  status : ℕ → Answer

-- The reply to the client, and the headers sent downstream, if any.
pub record Reply : Type 0 where
  pub code : ℕ
  pub sent : Option Headers

abbrev pub refuse : ℕ → Reply
refuse code = record { code = code; sent = none }

unfoldable pub is_login : Request → Bool
is_login request = request.service == "auth" && request.path == "login"

unfoldable pub is_public : Request → Bool
is_public request =
    request.service == "auth"
    && contains ("login" ∷ "register" ∷ "verify" ∷ "refresh" ∷ []) request.path

-- The headers as the client sent them, less its host, and with a correlation id.
unfoldable pub client_headers : String → Request → Headers
client_headers fresh_id request =
    let headers = erase "host" request.headers in
    if has "x-request-id" headers then headers else insert "x-request-id" fresh_id headers

-- The identity that the gateway has verified. A subject that is no text is refused by the HTTP client, by an
-- error that is not a `RequestError`.
unfoldable pub with_identity : String → Claims → Headers → Result Headers
with_identity service_key payload headers = elim (claim "sub" payload) [
  | text user ↦ ok (
      insert "X-Internal-Service-Key" service_key (
        insert "X-User-Role" (str_of_claim (claim "role_id" payload))
          (insert "X-User-Id" user headers)))
  | _ ↦ failed 500
]

module _ (decode : String → Decoded) where
  unfoldable pub outgoing : String → String → Request → Result Headers
  outgoing service_key fresh_id request =
      let headers = client_headers fresh_id request in
      if is_public request
      then ok headers
      else elim (verify_token decode (lookup "authorization" request.headers)) [
        | failed e ↦ failed e
        | ok payload ↦ with_identity service_key payload headers
      ]

module _ {R : Type 0} (redis : Redis R) where
  -- The lockout check of a login. An error of Redis lets the client through.
  unfoldable pub locked_out : ℕ → String → Gateway R → Bool
  locked_out now ip g = elim g.limiter.redis_client [
    | none ↦ is_locked now ip g.lockouts
    | some r ↦ elim (redis.attempts r ip) [ none ↦ false | some n ↦ leb max_attempts n ]
  ]

  -- The lockout's account of a login that the auth service has answered.
  abbrev replace_redis : Gateway R → Option R → Gateway R
  replace_redis g none = g
  replace_redis g (some r) = record g { limiter = record g.limiter { redis_client = some r } }

  unfoldable pub audit_login : ℕ → String → ℕ → Gateway R → Gateway R
  audit_login now ip code g = elim g.limiter.redis_client [
    | none ↦
        if code == 200
        then record g { lockouts = login_succeeded ip g.lockouts }
        else if code == 401
        then record g { lockouts = login_failed now ip g.lockouts }
        else g
    | some r ↦
        if code == 200
        then replace_redis g (redis.forget r ip)
        else if code == 401
        then replace_redis g (redis.count r ip)
        else g
  ]

  -- The call of the downstream service; `ready` says that the HTTP client exists.
  unfoldable pub forward :
      Bool → (Headers → Answer) → ℕ → String → Request → Headers → Gateway R → Reply × Gateway R
  forward ready send now ip request headers g =
      if not ready then (refuse 503, g) else elim (send headers) [
        | unreachable ↦ (record { code = 502; sent = some headers }, g)
        | status code ↦ (
          record { code = code; sent = some headers },
          if is_login request then audit_login now ip code g else g,
        )
      ]

-- The settings that a request meets.
pub record Config : Type 0 where
  pub services : Dict String String
  pub trusted : String
  pub service_key : String
  pub limit : ℕ
  pub ready : Bool

module _ {R : Type 0} (redis : Redis R) (decode : String → Decoded) where
  -- The handler after the rate limiter has let the request through.
  unfoldable pub admitted :
      Config → (Headers → Answer) → ℕ → String → String → Request → Gateway R → Reply × Gateway R
  admitted config send now fresh_id ip request g =
      if is_login request && locked_out redis now ip g
      then (refuse 423, g)
      else elim (outgoing decode config.service_key fresh_id request) [
        | failed e ↦ (refuse e, g)
        | ok headers ↦ forward redis config.ready send now ip request headers g
      ]

  unfoldable pub proxy_request :
      Config → (String → Headers → Answer) → ℕ → String → Request → Gateway R → Reply × Gateway R
  proxy_request config send now fresh_id request g =
      let ip = get_client_ip config.trusted request in
      let (allowed, limiter) = check_rate_limit redis.pipeline config.limit now ip g.limiter in
      let g₁ : Gateway R = record g { limiter = limiter } in
      let base_url = or_else "" (lookup request.service config.services) in
      let reply = admitted config (send base_url) now fresh_id ip request g₁ in
      if not (has request.service config.services)
      then (refuse 404, g)
      else if allowed
      then reply
      else (refuse 429, g₁)
