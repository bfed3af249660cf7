-- ===== src/Notification/Alerts/Loss.antt =====
-- When alerts are lost.
use intelligent_multi_camera.Prelude.{
  ℕ, nat_eq, ◌<◌, ◌≡◌, refl, Bool, List, [], ◌∷◌, Option, none, some, arith,
}
use intelligent_multi_camera.Shared.Kafka.{Message, Poll, message, Group, commit}
use intelligent_multi_camera.Notification.Alerts.{
  Parsed, no_object, alert, forwarded, raised, forward_alert, conclude, handle_alert,
  consume_alerts,
}

module _ {V P W : Type 0} (parse : V → Parsed P) (post : P → W → W × Option ℕ)
    (produce : Message V → Bool) where
  -- The gateway takes the alert within three attempts, refuses it three times, or cannot be reached.
  forward_alert_raised :
      (p : P) (w : W)
      → (post p w).1 ≡ none
      → forward_alert parse post produce 3 p w ≡ ((post p w).0, raised)
  unfolding forward_alert
  forward_alert_raised p w h = ground arith

  forward_alert_taken :
      (p : P) (w : W)
      → (post p w).1 ≡ some 200
      → forward_alert parse post produce 3 p w ≡ ((post p w).0, forwarded)
  unfolding forward_alert nat_eq
  forward_alert_taken p w h = ground arith

  -- An alert whose value is JSON but no object is passed over: it is neither posted nor committed nor handed to the
  -- dead-letter producer.
  no_object_passed_over :
      (m : Message V) (polls : List (Poll V)) (g : Group W)
      → parse m.value ≡ no_object
      → consume_alerts parse post produce (message m ∷ polls) g
        ≡ consume_alerts parse post produce polls g
  unfolding consume_alerts handle_alert
  no_object_passed_over m polls g e = rw (e, handle_alert) refl

  -- When the gateway cannot be reached for one alert and takes the next, the first is lost: its offset is
  -- committed with the second's, and it is not handed to the dead-letter producer.
  pub unreachable_alert_lost :
      (m n : Message V) (p q : P) (g : Group W)
      → parse m.value ≡ alert p
      → parse n.value ≡ alert q
      → (post p g.world).1 ≡ none
      → (post q (post p g.world).0).1 ≡ some 200
      → m.offset < n.offset
      → let g' = consume_alerts parse post produce (message m ∷ message n ∷ []) g in
        (m.offset < g'.committed) × (g'.dead ≡ g.dead)
  unfolding consume_alerts handle_alert conclude
  unreachable_alert_lost m n p q g mp nq down up before =
      let w = (post p g.world).0 in
      let first : handle_alert parse post produce m g ≡ record g { world = w } =
        ground (arith, forward_alert_raised p g.world down) in
      let taken = forward_alert_taken q w up in
      let second : handle_alert parse post produce n (record g { world = w })
          ≡ commit n (record g { world = (post q w).0 }) =
        ground (arith, taken) in
      rw (first, second) (omega arith, refl)
