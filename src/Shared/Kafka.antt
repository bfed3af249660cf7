-- ===== src/Shared/Kafka.antt =====
-- A Kafka partition as its consumers see it. The broker is not part of the program: what `poll` answers is a
-- sequence, and of the group's state only the committed offset is kept, which is where a restart begins.
use intelligent_multi_camera.Prelude.{ℕ, suc, ◌≡◌, ◌⊎◌, ◌≤◌, List, [], ◌∷◌}

pub record Message (V : Type 0) : Type 0 where
  pub offset : ℕ
  pub value : V

pub data Poll (V : Type 0) : Type 0 where
  nothing end_of_partition broken : Poll V
  message : Message V → Poll V

-- What a consumer keeps: the committed offset, the offsets that it handed to its dead-letter producer, and the world
-- that it acts on. `produce` puts a message in the producer's queue, and the services ignore what `flush` answers:
-- nothing is said of what the topic holds.
pub record Group (W : Type 0) : Type 0 where
  pub committed : ℕ
  pub dead : List ℕ
  pub world : W

-- `commit(message=msg)`
abbrev pub commit : {V W : Type 0} → Message V → Group W → Group W
commit m g = record g { committed = suc m.offset }

abbrev pub to_dead_letters : {V W : Type 0} → Message V → Group W → Group W
to_dead_letters m g = record g { dead = m.offset ∷ g.dead }

-- The offsets rise, from `next` on.
abbrev pub Rising : {V : Type 0} → ℕ → List (Poll V) → Type 0
Rising next [] = Unit
Rising next (message m ∷ polls) = (next ≤ m.offset) × Rising (suc m.offset) polls
Rising next (_ ∷ polls) = Rising next polls

-- An offset that was handed to the dead-letter producer.
abbrev pub IsDead : ℕ → List ℕ → Type 0
IsDead o [] = ⊥
IsDead o (d ∷ dead) = (o ≡ d) ⊎ IsDead o dead
