-- ===== src/Notification/Alerts/Tests.antt =====
-- Runs of the alert loop, and its theorems at concrete alerts.
use intelligent_multi_camera.Prelude.{
  ℕ, nat_eq, suc, ◌≡◌, ◌<◌, refl, Bool, true, List, [], ◌∷◌, Option, none, some, ◌==◌, arith,
  if◌then◌else◌,
}
use intelligent_multi_camera.Shared.Kafka.{Message, Poll, nothing, message, Group}
use intelligent_multi_camera.Notification.Alerts.{
  Parsed, no_json, no_object, alert, forward_alert, send_to_dlq, conclude, handle_alert,
  consume_alerts,
}
use intelligent_multi_camera.Notification.Alerts.Loss.{unreachable_alert_lost}

program : Unit {0}
unfolding forward_alert send_to_dlq conclude handle_alert consume_alerts nat_eq
program = tt

-- Alerts are numbers, of which 0 is no JSON and 9 is no object; the world counts posts.
abbrev parse : ℕ → Parsed ℕ
parse v = if v == 0 then no_json else if v == 9 then no_object else alert v

-- The gateway answers the third post only.
abbrev third_time : ℕ → ℕ → ℕ × Option ℕ
third_time p n = (suc n, some (if n == 2 then 200 else 503))

-- The first post finds no gateway.
abbrev first_down : ℕ → ℕ → ℕ × Option ℕ
first_down p n = (suc n, if n == 0 then none else some 200)

abbrev takes : Message ℕ → Bool
takes m = true

abbrev polls : List (Poll ℕ)
polls =
    message (record { offset = 0; value = 7 })
    ∷ nothing
    ∷ message (record { offset = 1; value = 0 })
    ∷ message (record { offset = 2; value = 8 })
    ∷ []

abbrev first : Message ℕ
first = record { offset = 0; value = 7 }

abbrev start : Group ℕ
start = record { committed = 0; dead = []; world = 0 }

passes_over :
    consume_alerts parse third_time takes (message (record { offset = 0; value = 9 }) ∷ []) start
    ≡ start
unfolding program
passes_over = refl

retries :
    consume_alerts parse third_time takes polls start
    ≡ record { committed = 3; dead = 2 ∷ 1 ∷ []; world = 6 }
unfolding program
retries = refl

unreachable_alert_lost_example :
    let g' =
      consume_alerts parse first_down takes
        (message (record { offset = 0; value = 7 })
          ∷ message (record { offset = 1; value = 8 })
          ∷ [])
        start in
    (0 < g'.committed) × (g'.dead ≡ [])
unfolding program
unreachable_alert_lost_example =
    unreachable_alert_lost parse first_down takes (record { offset = 0; value = 7 })
      (record { offset = 1; value = 8 }) 7 8 start refl refl refl refl (omega arith)
