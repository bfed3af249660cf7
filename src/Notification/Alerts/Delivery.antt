-- ===== src/Notification/Alerts/Delivery.antt =====
-- When every alert reaches the gateway or the dead-letter producer.
use intelligent_multi_camera.Prelude.{ℕ, ◌≡◌, ◌≢◌, Bool, Option, some}
use intelligent_multi_camera.Shared.Kafka.{Message, Group, commit}
use intelligent_multi_camera.Notification.Alerts.{Parsed, alert}

module _ {V P W : Type 0} (parse : V → Parsed P) (post : P → W → W × Option ℕ)
    (produce : Message V → Bool) where
  -- Posts of an alert, from the first world to the last, of which the last alone is answered with 200.
  pub data IsPosted (p : P) : W → W → Type 0 where
    taken : (w : W) → (post p w).1 ≡ some 200 → IsPosted p w (post p w).0
    again :
        (w last : W) (status : ℕ)
        → (post p w).1 ≡ some status
        → status ≢ 200
        → IsPosted p (post p w).0 last
        → IsPosted p w last

  -- The message is an alert that is posted in this group's world until it is answered with 200, and the group that
  -- is left is this one, with the message committed.
  pub record IsForwarded (m : Message V) (g after : Group W) : Type 0 where
    pub p : P
    pub last : W
    pub parsed : parse m.value ≡ alert p
    pub posted : IsPosted p g.world last
    pub left : after ≡ commit m (record g { world = last })
