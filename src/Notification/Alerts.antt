-- ===== src/Notification/Alerts.antt =====
-- `consume_alerts` of apps/notification-service/src/main.py. The parser, the HTTP client and the dead-letter
-- producer, which takes a message in its queue or raises, are parameters: a post answers a status or raises (`none`), and changes the world.
pub mod Loss
pub mod Delivery
mod Tests
use intelligent_multi_camera.Prelude.{
  ℕ, nat_eq, zero, suc, Bool, true, false, List, [], ◌∷◌, Option, none, some, ◌==◌, if◌then◌else◌,
}
use intelligent_multi_camera.Shared.Kafka.{
  Message, Poll, nothing, end_of_partition, broken, message, Group, commit, to_dead_letters,
}

-- What a value parses to: no JSON, JSON that is no object, at which `alert_data.get` raises, or an alert.
pub data Parsed (P : Type 0) : Type 0 where
  no_json no_object : Parsed P
  alert : P → Parsed P

-- How the attempts to forward an alert end; `raised` leaves the body of the loop by an exception.
pub data Forwarding : Type 0 where
  forwarded refused raised : Forwarding

module _ {V P W : Type 0} (parse : V → Parsed P) (post : P → W → W × Option ℕ)
    (produce : Message V → Bool) where
  unfoldable pub forward_alert : ℕ → P → W → W × Forwarding
  forward_alert zero p w = (w, refused)
  forward_alert (suc attempts) p w =
      let (w₁, response) = post p w in
      let rest = forward_alert attempts p w₁ in
      elim response [
        | none ↦ (w₁, raised)
        | some status ↦ if status == 200 then (w₁, forwarded) else rest
      ]

  -- `produce`, `flush`, whose result is ignored, and `commit`; where the producer raises, the loop goes on with
  -- nothing committed.
  unfoldable pub send_to_dlq : Message V → Group W → Group W
  send_to_dlq m g = if produce m then commit m (to_dead_letters m g) else g

  unfoldable pub conclude : Message V → Group W → Forwarding → Group W
  conclude m g forwarded = commit m g
  conclude m g refused = send_to_dlq m g
  conclude m g raised = g

  -- The loop goes on after every exception.
  unfoldable pub handle_alert : Message V → Group W → Group W
  handle_alert m g = elim (parse m.value) [
    | no_json ↦ send_to_dlq m g
    | no_object ↦ g
    | alert p ↦ let (w, how) = forward_alert 3 p g.world in conclude m (record g { world = w }) how
  ]

  unfoldable pub consume_alerts : List (Poll V) → Group W → Group W
  consume_alerts [] g = g
  consume_alerts (message m ∷ polls) g = consume_alerts polls (handle_alert m g)
  consume_alerts (_ ∷ polls) g = consume_alerts polls g
