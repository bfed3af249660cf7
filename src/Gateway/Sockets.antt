-- ===== src/Gateway/Sockets.antt =====
-- apps/gateway/src/websocket/manager.py and `publish_alert` of apps/gateway/src/main.py. A connection is named by
-- a number; whether it takes a message is a parameter.
pub mod Broadcast
mod Tests
use intelligent_multi_camera.Prelude.{
  ℕ, nat_eq, String, string_eq, Bool, true, false, not, List, [], ◌∷◌, ◌++◌, Option, none, some,
  ltb, ◌==◌, contains, keep, length, if◌then◌else◌,
}
use intelligent_multi_camera.Shared.Http.{Result, ok, failed}
use intelligent_multi_camera.Gateway.Token.{Claims, Decoded, check_websocket_token}

abbrev pub max_connections : ℕ
max_connections = 500

unfoldable pub can_accept : List ℕ → Bool
can_accept active = ltb (length active) max_connections

unfoldable pub connect : ℕ → List ℕ → List ℕ
connect socket active = active ++ (socket ∷ [])

-- `list.remove`, which removes the first, if there is one.
unfoldable pub disconnect : ℕ → List ℕ → List ℕ
disconnect socket [] = []
disconnect socket (c ∷ active) =
    let rest = disconnect socket active in if socket == c then active else c ∷ rest

unfoldable pub disconnect_all : List ℕ → List ℕ → List ℕ
disconnect_all [] active = active
disconnect_all (c ∷ stale) active = disconnect_all stale (disconnect c active)

-- The connections that stay after `broadcast`.
unfoldable pub broadcast : (ℕ → Bool) → List ℕ → List ℕ
broadcast takes active = disconnect_all (keep (λ c. not (takes c)) active) active

-- `websocket_endpoint` up to its loop: the closing code, or the connections with the new one.
unfoldable pub open_socket : (String → Decoded) → Option String → ℕ → List ℕ → Result (List ℕ)
open_socket decode token socket active = elim (check_websocket_token decode token) [
  | failed code ↦ failed code
  | ok _ ↦ if can_accept active then ok (connect socket active) else failed 4002
]

-- `publish_alert`: the number of clients that it reports, and the connections that stay.
unfoldable pub publish_alert : String → Option String → (ℕ → Bool) → List ℕ → Result ℕ × List ℕ
publish_alert service_key none takes active = (failed 403, active)
publish_alert service_key (some key) takes active =
    let active₁ = broadcast takes active in
    if key == service_key then (ok (length active₁), active₁) else (failed 403, active)
