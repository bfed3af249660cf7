-- ===== src/Gateway/Proxy/Routing.antt =====
-- What the gateway sends downstream, and for whom.
use intelligent_multi_camera.Prelude.{
  ℕ, ◌≡◌, refl, ap, String, string_eq, Bool, true, false, some, ◌⊎◌, inl, inr, arith, Bool-cases,
}
use intelligent_multi_camera.Prelude.Dict.{lookup, has}
use intelligent_multi_camera.Shared.Http.{Result, ok, failed, Headers}
use intelligent_multi_camera.Gateway.RateLimiter.{check_rate_limit}
use intelligent_multi_camera.Gateway.Token.{Claims, Decoded, verify_token}
use intelligent_multi_camera.Gateway.Proxy.{
  Request, Redis, Gateway, Answer, Reply, get_client_ip, is_login, is_public, client_headers,
  with_identity, locked_out, outgoing, forward, Config, admitted, proxy_request, refuse, or_else,
}

module _ (decode : String → Decoded) where
  -- The headers of a public login route, or those of a request whose token has been verified.
  abbrev pub IsEntitled : String → String → Request → Headers → Type 0
  IsEntitled service_key fresh_id request headers =
      ((is_public request ≡ true) × (headers ≡ client_headers fresh_id request))
      ⊎ ((payload : Claims) × (verify_token decode (lookup "authorization" request.headers)
            ≡ ok payload)
          × (with_identity service_key payload (client_headers fresh_id request) ≡ ok headers))

  verified-IsEntitled :
      (service_key fresh_id : String) (request : Request) (headers : Headers)
      (checked : Result Claims)
      → verify_token decode (lookup "authorization" request.headers) ≡ checked
      → (elim checked [
        | failed e ↦ failed e
        | ok p ↦ with_identity service_key p (client_headers fresh_id request)
      ])
        ≡ ok headers
      → IsEntitled service_key fresh_id request headers
  verified-IsEntitled service_key fresh_id request headers (failed e) verified h =
      absurd (ground arith)
  verified-IsEntitled service_key fresh_id request headers (ok payload) verified h =
      inr (payload, verified, h)

  outgoing-IsEntitled :
      (service_key fresh_id : String) (request : Request) (headers : Headers)
      → outgoing decode service_key fresh_id request ≡ ok headers
      → IsEntitled service_key fresh_id request headers
  unfolding outgoing
  outgoing-IsEntitled service_key fresh_id request headers h =
      elim (Bool-cases (is_public request)) [
        | inl public ↦ inl (public, ground arith)
        | inr private ↦
            let checked = verify_token decode (lookup "authorization" request.headers) in
            verified-IsEntitled service_key fresh_id request headers checked refl (ground arith)
      ]

module _ {R : Type 0} (redis : Redis R) where
  forward_sent :
      (ready : Bool) (send : Headers → Answer) (now : ℕ) (ip : String) (request : Request)
      (out headers : Headers) (g : Gateway R)
      → (forward redis ready send now ip request out g).0.sent ≡ some headers
      → (ready ≡ true) × (out ≡ headers)
  unfolding forward
  forward_sent ready send now ip request out headers g h = ground arith

module _ {R : Type 0} (redis : Redis R) (decode : String → Decoded) where
  answered_sent :
      (config : Config) (send : Headers → Answer) (now : ℕ) (ip : String) (request : Request)
      (g : Gateway R) (headers : Headers) (out : Result Headers)
      → (elim out as (λ _. Reply × Gateway R) [
        | failed e ↦ (refuse e, g)
        | ok hs ↦ forward redis config.ready send now ip request hs g
      ]).0.sent
        ≡ some headers
      → out ≡ ok headers
  answered_sent config send now ip request g headers (failed e) h = absurd (ground arith)
  answered_sent config send now ip request g headers (ok hs) h =
      ap ok (forward_sent redis config.ready send now ip request hs headers g h).1

  admitted_sent :
      (config : Config) (send : Headers → Answer) (now : ℕ) (fresh_id ip : String)
      (request : Request) (g : Gateway R) (headers : Headers)
      → (admitted redis decode config send now fresh_id ip request g).0.sent ≡ some headers
      → (is_login request ≡ true → locked_out redis now ip g ≡ false)
        × (outgoing decode config.service_key fresh_id request ≡ ok headers)
  unfolding admitted
  admitted_sent config send now fresh_id ip request g headers h =
      let out = outgoing decode config.service_key fresh_id request in
      (ground arith, answered_sent config send now ip request g headers out (ground arith))

  -- The gateway sends a request downstream only if the service is registered, the rate limiter let the client
  -- through, a login comes from a client that is not locked out, and either the route is public and the
  -- client's own headers are sent, or the token was verified and its subject and role stand in the headers.
  pub proxy_request_sent :
      (config : Config) (send : String → Headers → Answer) (now : ℕ) (fresh_id : String)
      (request : Request) (g : Gateway R) (headers : Headers)
      → (proxy_request redis decode config send now fresh_id request g).0.sent ≡ some headers
      → let ip = get_client_ip config.trusted request in
        let limited = check_rate_limit redis.pipeline config.limit now ip g.limiter in
        (has request.service config.services ≡ true)
        × (limited.0 ≡ true)
        × (is_login request ≡ true
            → locked_out redis now ip (record g { limiter = limited.1 }) ≡ false)
        × IsEntitled decode config.service_key fresh_id request headers
  unfolding proxy_request
  proxy_request_sent config send now fresh_id request g headers h =
      let ip = get_client_ip config.trusted request in
      let limited = check_rate_limit redis.pipeline config.limit now ip g.limiter in
      let base_url = or_else "" (lookup request.service config.services) in
      let (unlocked, out) =
        admitted_sent config (send base_url) now fresh_id ip request
          (record g { limiter = limited.1 }) headers (ground arith) in
      (
        ground arith,
        ground arith,
        unlocked,
        outgoing-IsEntitled decode config.service_key fresh_id request headers out,
      )
