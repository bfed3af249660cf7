-- ===== src/Gateway/Sockets/Tests.antt =====
-- Runs of the connections, and their theorems at concrete clients.
use intelligent_multi_camera.Prelude.{
  ℕ, nat_eq, ◌≡◌, refl, String, string_eq, Bool, not, List, [], ◌∷◌, none, some, ◌==◌,
  if◌then◌else◌,
}
use intelligent_multi_camera.Prelude.Int.{pos}
use intelligent_multi_camera.Prelude.Dict.{lookup}
use intelligent_multi_camera.Shared.Http.{ok, failed}
use intelligent_multi_camera.Shared.Security.{role_of}
use intelligent_multi_camera.Gateway.Token.{
  Claims, Decoded, claims, expired, claim, text, integer, role_of_claim, check_payload,
  check_decoded, check_websocket_token,
}
use intelligent_multi_camera.Gateway.Sockets.{
  can_accept, connect, disconnect, disconnect_all, broadcast, open_socket, publish_alert,
}

program : Unit {0}
unfolding lookup role_of claim role_of_claim check_payload check_decoded check_websocket_token
    can_accept connect disconnect disconnect_all broadcast open_socket publish_alert string_eq
    nat_eq
program = tt

abbrev payload : Claims
payload = ("sub", text "u") ∷ ("type", text "access") ∷ ("role_id", integer (pos 2)) ∷ []

abbrev decode : String → Decoded
decode token = if token == "good" then claims payload else expired

-- Client 2 is gone.
abbrev takes : ℕ → Bool
takes c = not (c == 2)

publishes : publish_alert "k" (some "k") takes (1 ∷ 2 ∷ 3 ∷ []) ≡ (ok 2, 1 ∷ 3 ∷ [])
unfolding program
publishes = refl

refuses : publish_alert "k" none takes (1 ∷ 2 ∷ []) ≡ (failed 403, 1 ∷ 2 ∷ [])
unfolding program
refuses = refl

abbrev after : List ℕ
after = 1 ∷ 7 ∷ []
