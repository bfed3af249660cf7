-- ===== src/Gateway/Proxy/Tests.antt =====
-- Runs of the proxy, and its theorems at concrete requests.
use intelligent_multi_camera.Prelude.{
  ℕ, nat_eq, ◌≡◌, refl, String, string_eq, true, false, if◌then◌else◌, [], ◌∷◌, none, some, ◌==◌,
  arith,
}
use intelligent_multi_camera.Prelude.Int.{pos}
use intelligent_multi_camera.Prelude.Dict.{lookup, insert, erase, has}
use intelligent_multi_camera.Prelude.Text.{same_name, split, strip, fields, int_of, str_of}
use intelligent_multi_camera.Shared.Http.{ok, Headers, first_value, first_value-ReadsFirst}
use intelligent_multi_camera.Shared.Security.{admin, operator, role_of, require_roles}
use intelligent_multi_camera.Gateway.RateLimiter.{
  check_rate_limit, check_in_memory, garbage_collect_in_memory, times_of,
}
use intelligent_multi_camera.Gateway.Lockout.{entry_of, is_locked, login_failed, login_succeeded}
use intelligent_multi_camera.Gateway.Token.{
  Claims, Decoded, claims, expired, claim, text, integer, role_of_claim, str_of_claim,
  check_payload, check_decoded, check_parts, verify_token,
}
use intelligent_multi_camera.Gateway.Proxy.{
  Request, Redis, Gateway, Config, Answer, status, trusted_proxies, get_client_ip, within_limit,
  is_login, is_public, client_headers, with_identity, locked_out, outgoing, audit_login, forward,
  admitted, proxy_request,
}
use intelligent_multi_camera.Gateway.Proxy.Privilege.{admitted_as_token, client_role_wins}
use intelligent_multi_camera.Gateway.Proxy.Routing.{IsEntitled, proxy_request_sent}

program : Unit {0}
unfolding lookup insert erase same_name split strip fields int_of str_of role_of claim role_of_claim
    str_of_claim check_payload check_decoded check_parts verify_token check_rate_limit
    check_in_memory garbage_collect_in_memory times_of entry_of is_locked login_failed
    login_succeeded trusted_proxies get_client_ip within_limit is_login is_public client_headers
    with_identity locked_out outgoing audit_login forward admitted proxy_request string_eq nat_eq
program = tt

abbrev payload : Claims
payload = ("sub", text "u") ∷ ("type", text "access") ∷ ("role_id", integer (pos 2)) ∷ []

abbrev decode : String → Decoded
decode token = if token == "good" then claims payload else expired

abbrev redis : Redis ℕ
redis = record {
  pipeline = λ r ip now. some (1, r);
  attempts = λ r ip. some 0;
  forget = λ r ip. some r;
  count = λ r ip. some r;
}

abbrev gateway : Gateway ℕ
gateway = record {
  limiter = record { redis_client = none; in_memory_db = []; enabled = true };
  lockouts = [];
}

abbrev config : Config
config = record {
  services = ("auth", "http://auth") ∷ ("cameras", "http://cameras") ∷ [];
  trusted = "10.0.0.1, 10.0.0.2";
  service_key = "k";
  limit = 100;
  ready = true;
}

abbrev lines : Headers
lines = ("authorization", "Bearer good") ∷ ("x-request-id", "7") ∷ []

abbrev request : Request
request = record { service = "cameras"; path = "1"; client = some "1.2.3.4"; headers = lines }

abbrev out : Headers
out =
    ("authorization", "Bearer good")
    ∷ ("x-request-id", "7")
    ∷ ("X-User-Id", "u")
    ∷ ("X-User-Role", "2")
    ∷ ("X-Internal-Service-Key", "k")
    ∷ []

abbrev send : String → Headers → Answer
send url headers = status 200

forwards :
    (proxy_request redis decode config send 5 "id" request gateway).0
    ≡ record { code = 200; sent = some out }
unfolding program
forwards = refl

unknown_service :
    proxy_request redis decode config send 5 "id" (record request { service = "x" }) gateway
    ≡ (record { code = 404; sent = none }, gateway)
unfolding program
unknown_service = refl

behind_a_proxy :
    get_client_ip config.trusted (record request {
      client = some "10.0.0.2";
      headers = ("x-forwarded-for", " 9.9.9.9, 8.8.8.8") ∷ [];
    })
    ≡ "9.9.9.9"
unfolding program
behind_a_proxy = refl

too_large : within_limit false (some "2097153") ≡ false
unfolding program
too_large = refl

proxy_request_sent_example :
    let ip = get_client_ip config.trusted request in
    let limited = check_rate_limit redis.pipeline config.limit 5 ip gateway.limiter in
    (has request.service config.services ≡ true)
    × (limited.0 ≡ true)
    × (is_login request ≡ true
        → locked_out redis 5 ip (record gateway { limiter = limited.1 }) ≡ false)
    × IsEntitled decode config.service_key "id" request out
unfolding program
proxy_request_sent_example =
    proxy_request_sent redis decode config send 5 "id" request gateway out refl

admitted_as_token_example :
    require_roles first_value "k" (operator ∷ []) out
    ≡ ok (record { user_id = "u"; role = operator })
unfolding program
admitted_as_token_example =
    admitted_as_token first_value first_value-ReadsFirst "k" "u" operator payload lines out
      (operator ∷ [])
      (
        (
          (λ h. absurd (ground arith), (λ h. absurd (ground arith), tt)),
          (λ h. absurd (ground arith), (λ h. absurd (ground arith), tt)),
          (λ h. absurd (ground arith), (λ h. absurd (ground arith), tt)),
        ),
        refl,
        (pos 2, refl, refl),
        refl,
        refl,
        refl,
        refl,
      )
      refl refl refl

abbrev spoofed : Headers
spoofed = ("x-user-role", "1") ∷ []

client_role_wins_example :
    require_roles first_value "k" (admin ∷ []) (
      ("x-user-role", "1")
      ∷ ("X-User-Id", "u")
      ∷ ("X-User-Role", "2")
      ∷ ("X-Internal-Service-Key", "k")
      ∷ [])
    ≡ ok (record { user_id = "u"; role = admin })
unfolding program
client_role_wins_example =
    client_role_wins first_value first_value-ReadsFirst "k" "u" operator payload spoofed
      (("x-user-role", "1")
        ∷ ("X-User-Id", "u")
        ∷ ("X-User-Role", "2")
        ∷ ("X-Internal-Service-Key", "k")
        ∷ [])
      (
        ((λ h. absurd (ground arith), tt), (λ h. refl, tt), (λ h. absurd (ground arith), tt)),
        refl,
        (pos 2, refl, refl),
        refl,
        refl,
        refl,
        refl,
      )
      refl refl
