-- ===== src/Analytics/Consumer/Delivery.antt =====
-- No message is passed over: a committed offset is past only what was processed or set aside.
use intelligent_multi_camera.Prelude.{
  ℕ, zero, suc, ◌≤◌, ◌<◌, ◌≡◌, refl, ◌⊎◌, inl, inr, Bool, true, false, List, [], ◌∷◌, ◌++◌, Option,
  some, arith, Bool-cases, Option-cases, if_both, subst, sym,
}
use intelligent_multi_camera.Shared.Kafka.{
  Message, Poll, nothing, end_of_partition, broken, message, Group, Rising, commit, IsDead,
}
use intelligent_multi_camera.Analytics.Consumer.{
  try_callback, send_to_dlq, handle_parsed, handle, listen,
}

module _ {V P W : Type 0} (parse : V → Option P) (callback : P → W → W × Bool)
    (produce : Message V → Bool) where
  -- Calls for one payload, from the first world to the last, of which the last alone returns.
  pub data IsCalled (p : P) : W → W → Type 0 where
    returns : (w : W) → (callback p w).1 ≡ true → IsCalled p w (callback p w).0
    again :
        (w last : W)
        → (callback p w).1 ≡ false
        → IsCalled p (callback p w).0 last
        → IsCalled p w last

  -- The message is handled by the callback in this group's world, and the group that is left is this one with the
  -- world that the callback leaves and the message committed.
  pub record IsProcessed (m : Message V) (g after : Group W) : Type 0 where
    pub p : P
    pub last : W
    pub parsed : parse m.value ≡ some p
    pub called : IsCalled p g.world last
    pub left : after ≡ commit m (record g { world = last })

  try_callback-IsCalled :
      (attempts : ℕ) (p : P) (w : W)
      → (try_callback parse callback produce attempts p w).1 ≡ true
      → IsCalled p w (try_callback parse callback produce attempts p w).0
  unfolding try_callback
  try_callback-IsCalled zero p w h = absurd (ground arith)
  try_callback-IsCalled (suc attempts) p w h = elim (Bool-cases (callback p w).1) [
    | inl processed ↦ rw processed (returns w processed)
    | inr raised ↦
        rw raised
          (again w _ raised (try_callback-IsCalled attempts p (callback p w).0 (ground arith)))
  ]

  -- What one message does to the group: it is settled and committed, or the loop ends with nothing committed.
  record IsHandled (m : Message V) (g : Group W) (r : Group W × Bool) : Type 0 where
    kept : (o : ℕ) → IsDead o g.dead → IsDead o r.0.dead
    settled : r.1 ≡ true → IsProcessed m g r.0 ⊎ IsDead m.offset r.0.dead
    committed : r.1 ≡ true → r.0.committed ≡ suc m.offset
    stopped : r.1 ≡ false → r.0.committed ≡ g.committed

  send_to_dlq-IsHandled :
      (m : Message V) (g : Group W) (w : W)
      → IsHandled m g (send_to_dlq parse callback produce m (record g { world = w }))
  unfolding send_to_dlq
  send_to_dlq-IsHandled m g w = elim (Bool-cases (produce m)) [
    | inl taken ↦ rw taken (record {
      kept = λ o d. inr d;
      settled = λ h. inr (inl refl);
      committed = λ h. refl;
      stopped = λ h. absurd (ground arith);
    })
    | inr raised ↦ rw raised (record {
      kept = λ o d. d;
      settled = λ h. absurd (ground arith);
      committed = λ h. absurd (ground arith);
      stopped = λ h. refl;
    })
  ]

  handle_parsed-IsHandled :
      (max_attempts : ℕ) (m : Message V) (p : P) (g : Group W)
      → parse m.value ≡ some p
      → IsHandled m g (handle_parsed parse callback produce max_attempts m p g)
  unfolding handle_parsed
  handle_parsed-IsHandled max_attempts m p g parsed =
      let tried = try_callback parse callback produce max_attempts p g.world in
      elim (Bool-cases tried.1) [
        | inl processed ↦
            let called = try_callback-IsCalled max_attempts p g.world processed in
            rw processed (record {
              kept = λ o d. d;
              settled = λ h.
                  inl (record {
                    p = p;
                    last = tried.0;
                    parsed = parsed;
                    called = called;
                    left = refl;
                  });
              committed = λ h. refl;
              stopped = λ h. absurd (ground arith);
            })
        | inr failed ↦ rw failed (send_to_dlq-IsHandled m g tried.0)
      ]

  handle-IsHandled :
      (max_attempts : ℕ) (m : Message V) (g : Group W)
      → IsHandled m g (handle parse callback produce max_attempts m g)
  unfolding handle
  handle-IsHandled max_attempts m g = elim (Option-cases (parse m.value)) [
    | inl none_parsed ↦ rw (none_parsed, handle) (send_to_dlq-IsHandled m g g.world)
    | inr (p, parsed) ↦ rw (parsed, handle) (handle_parsed-IsHandled max_attempts m p g parsed)
  ]

  listen_kept :
      (max_attempts : ℕ) (polls : List (Poll V)) (g : Group W) (o : ℕ)
      → IsDead o g.dead
      → IsDead o (listen parse callback produce max_attempts polls g).dead
  unfolding listen
  listen_kept max_attempts [] g o d = d
  listen_kept max_attempts (nothing ∷ polls) g o d = listen_kept max_attempts polls g o d
  listen_kept max_attempts (end_of_partition ∷ polls) g o d = listen_kept max_attempts polls g o d
  listen_kept max_attempts (broken ∷ polls) g o d = d
  listen_kept max_attempts (message m ∷ polls) g o d =
      let r = handle parse callback produce max_attempts m g in
      let d₁ = (handle-IsHandled max_attempts m g).kept o d in
      if_both (λ k. IsDead o k.dead) r.1 (listen parse callback produce max_attempts polls r.0) r.0
        (listen_kept max_attempts polls r.0 o d₁) d₁

  -- The offset of a message that comes later.
  Rising-offset :
      (next : ℕ) (before after : List (Poll V)) (m : Message V)
      → Rising next (before ++ (message m ∷ after))
      → next ≤ m.offset
  Rising-offset next [] after m r = r.0
  Rising-offset next (nothing ∷ before) after m r = Rising-offset next before after m r
  Rising-offset next (end_of_partition ∷ before) after m r = Rising-offset next before after m r
  Rising-offset next (broken ∷ before) after m r = Rising-offset next before after m r
  Rising-offset next (message n ∷ before) after m (here, r) =
      let later = Rising-offset (suc n.offset) before after m r in omega arith

  -- What a run does with one of its messages, where `reached` is the group before it.
  abbrev pub IsSettled : ℕ → List (Poll V) → Message V → Group W → Group W → Type 0
  IsSettled max_attempts after m reached g' =
      let next = (handle parse callback produce max_attempts m reached).0 in
      (g' ≡ listen parse callback produce max_attempts after next)
      × (IsProcessed m reached next ⊎ IsDead m.offset next.dead)
      × ((o : ℕ) → IsDead o next.dead → IsDead o g'.dead)

  -- However the listener ends, every message below the offset that it leaves committed is settled, if it began at
  -- its committed offset and offsets rise: from the group that the messages before it leave, either the callback is
  -- called until it returns and the run goes on in the world that it leaves, or the message is handed to the
  -- dead-letter producer, which the group remembers to the end.
  pub listen_settles :
      (max_attempts : ℕ) (before after : List (Poll V)) (m : Message V) (g : Group W)
      → Rising g.committed (before ++ (message m ∷ after))
      → m.offset
        < (listen parse callback produce max_attempts (before ++ (message m ∷ after)) g).committed
      → IsSettled max_attempts after m
          (listen parse callback produce max_attempts before g)
          (listen parse callback produce max_attempts (before ++ (message m ∷ after)) g)
  unfolding listen
  listen_settles max_attempts [] after m g (here, r) below =
      let first = handle parse callback produce max_attempts m g in
      let handled = handle-IsHandled max_attempts m g in
      elim (Bool-cases first.1) [
        | inl on ↦
            rw on (refl, handled.settled on, λ o d. listen_kept max_attempts after first.0 o d)
        | inr off ↦ let same = handled.stopped off in absurd (ground arith)
      ]
  listen_settles max_attempts (nothing ∷ before) after m g r below =
      listen_settles max_attempts before after m g r below
  listen_settles max_attempts (end_of_partition ∷ before) after m g r below =
      listen_settles max_attempts before after m g r below
  listen_settles max_attempts (broken ∷ before) after m g r below =
      let later = Rising-offset g.committed before after m r in absurd (omega arith)
  listen_settles max_attempts (message n ∷ before) after m g (here, r) below =
      let first = handle parse callback produce max_attempts n g in
      let handled = handle-IsHandled max_attempts n g in
      let later = Rising-offset (suc n.offset) before after m r in
      elim (Bool-cases first.1) [
        | inl on ↦
            let rising =
              subst (λ k. Rising k (before ++ (message m ∷ after))) (sym (handled.committed on))
                r in
            rw on (listen_settles max_attempts before after m first.0 rising (ground arith))
        | inr off ↦ let same = handled.stopped off in absurd (ground arith)
      ]
