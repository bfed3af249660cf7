-- ===== src/Analytics/Consumer/Tests.antt =====
-- Runs of the consumer, and its theorem at concrete messages.
use intelligent_multi_camera.Prelude.{
  ℕ, nat_eq, suc, ◌≡◌, refl, Bool, true, false, List, [], ◌∷◌, ◌++◌, Option, none, some, ◌==◌,
  arith, if◌then◌else◌,
}
use intelligent_multi_camera.Shared.Kafka.{Message, Poll, nothing, message, Group}
use intelligent_multi_camera.Analytics.Consumer.{
  try_callback, send_to_dlq, handle_parsed, handle, listen,
}
use intelligent_multi_camera.Analytics.Consumer.Delivery.{IsSettled, listen_settles}

program : Unit {0}
unfolding try_callback send_to_dlq handle_parsed handle listen nat_eq
program = tt

-- Events are numbers, of which 0 cannot be parsed and 9 always raises; the world counts calls.
abbrev parse : ℕ → Option ℕ
parse v = if v == 0 then none else some v

abbrev callback : ℕ → ℕ → ℕ × Bool
callback p n = (suc n, if p == 9 then false else true)

-- The dead-letter producer fails at offset 3.
abbrev produce : Message ℕ → Bool
produce m = if m.offset == 3 then false else true

abbrev first : List (Poll ℕ)
first = message (record { offset = 0; value = 7 }) ∷ []

abbrev second : Message ℕ
second = record { offset = 1; value = 9 }

abbrev later : List (Poll ℕ)
later =
    nothing
    ∷ message (record { offset = 2; value = 0 })
    ∷ message (record { offset = 3; value = 0 })
    ∷ message (record { offset = 4; value = 5 })
    ∷ []

abbrev polls : List (Poll ℕ)
polls = first ++ (message second ∷ later)

abbrev start : Group ℕ
start = record { committed = 0; dead = []; world = 0 }

stops :
    listen parse callback produce 3 polls start
    ≡ record { committed = 3; dead = 2 ∷ 1 ∷ []; world = 4 }
unfolding program
stops = refl

listen_settles_example :
    IsSettled parse callback produce 3 later second
      (listen parse callback produce 3 first start)
      (listen parse callback produce 3 polls start)
unfolding program
listen_settles_example =
    listen_settles parse callback produce 3 first later second start
      (omega arith, (omega arith, (omega arith, (omega arith, (omega arith, tt))))) (omega arith)
