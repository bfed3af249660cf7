-- ===== src/Analytics/Consumer.antt =====
-- apps/analytics-service/src/infrastructure/messaging/kafka_consumer.py. The parser, the callback and the
-- dead-letter producer are parameters: the callback answers the new world and whether it returned, the
-- producer whether it took the message in its queue (else it raises).
pub mod Delivery
mod Tests
use intelligent_multi_camera.Prelude.{
  ℕ, zero, suc, Bool, true, false, List, [], ◌∷◌, Option, none, some, if◌then◌else◌,
}
use intelligent_multi_camera.Shared.Kafka.{
  Message, Poll, nothing, end_of_partition, broken, message, Group, commit, to_dead_letters,
}

module _ {V P W : Type 0} (parse : V → Option P) (callback : P → W → W × Bool)
    (produce : Message V → Bool) where
  -- The attempts that are left.
  unfoldable pub try_callback : ℕ → P → W → W × Bool
  try_callback zero p w = (w, false)
  try_callback (suc attempts) p w =
      let (w₁, processed) = callback p w in
      let rest = try_callback attempts p w₁ in if processed then (w₁, true) else rest

  -- `_send_to_dlq`, which ignores what `flush` answers, and `commit`; `false` where the producer raises, which ends the loop.
  unfoldable pub send_to_dlq : Message V → Group W → Group W × Bool
  send_to_dlq m g = if produce m then (commit m (to_dead_letters m g), true) else (g, false)

  unfoldable pub handle_parsed : ℕ → Message V → P → Group W → Group W × Bool
  handle_parsed max_attempts m p g =
      let (w, processed) = try_callback max_attempts p g.world in
      let g₁ : Group W = record g { world = w } in
      if processed then (commit m g₁, true) else send_to_dlq m g₁

  -- One message, and whether the loop goes on.
  unfoldable pub handle : ℕ → Message V → Group W → Group W × Bool
  handle max_attempts m g = elim (parse m.value) [
    | none ↦ send_to_dlq m g
    | some p ↦ handle_parsed max_attempts m p g
  ]

  -- The loop of `start_listening`, over what `poll` answers.
  unfoldable pub listen : ℕ → List (Poll V) → Group W → Group W
  listen max_attempts [] g = g
  listen max_attempts (nothing ∷ polls) g = listen max_attempts polls g
  listen max_attempts (end_of_partition ∷ polls) g = listen max_attempts polls g
  listen max_attempts (broken ∷ polls) g = g
  listen max_attempts (message m ∷ polls) g =
      let r = handle max_attempts m g in
      let rest = listen max_attempts polls r.0 in if r.1 then rest else r.0
