-- ===== src/Analytics/Tracking/Counts.antt =====
-- The persons' rows against the log of tracking events.
use intelligent_multi_camera.Prelude.{
  ℕ, nat_eq, suc, ◌+◌, ◌≤◌, ◌≡◌, refl, sym, subst, inl, inr, String, string_eq, true, List, [], ◌∷◌,
  none, some, arith, ◌==◌, Option-cases, Bool-cases, if◌then◌else◌, length, All,
}
use intelligent_multi_camera.Prelude.Dict.{Dict, lookup, lookup-insert}
use intelligent_multi_camera.Analytics.Tracking.{
  Person, update_appearance, appeared, TrackingEvent, Detection, World, upsert_person, save_event,
  VectorStore, see_known, see_new, log_event,
}

abbrev pub appearances : String → Dict String Person → ℕ
appearances id persons = elim (lookup id persons) [ none ↦ 0 | some p ↦ p.total_appearances ]

-- How many events of a person are logged.
abbrev pub seen : {F : Type 0} → String → List (TrackingEvent F) → ℕ
seen id [] = 0
seen id (e ∷ events) = let rest = seen id events in if id == e.person_id then suc rest else rest

-- The events of a person lie between its first and its last appearance.
abbrev pub Within : {F : Type 0} → String → Person → List (TrackingEvent F) → Type 0
Within id p =
    All
      (λ e. (id == e.person_id) ≡ true → (p.first_seen ≤ e.timestamp) × (e.timestamp ≤ p.last_seen))

pub record IsConsistent {F I : Type 0} (w : World F I) : Type 0 where
  pub keyed : (id : String) (p : Person) → lookup id w.persons ≡ some p → p.id ≡ id
  pub counted : (id : String) → appearances id w.persons ≡ seen id w.events
  pub within : (id : String) (p : Person) → lookup id w.persons ≡ some p → Within id p w.events

Within-wider :
    {F : Type 0} (id : String) (p q : Person) (events : List (TrackingEvent F))
    → q.first_seen ≤ p.first_seen
    → p.last_seen ≤ q.last_seen
    → Within id p events
    → Within id q events
Within-wider id p q [] first last h = tt
Within-wider id p q (e ∷ events) first last (here, rest) = (
  λ same. let (a, b) = here same in (omega arith, omega arith),
  Within-wider id p q events first last rest,
)

none_seen :
    {F : Type 0} (id : String) (p : Person) (events : List (TrackingEvent F))
    → seen id events ≡ 0
    → Within id p events
none_seen id p [] h = tt
none_seen id p (e ∷ events) h =
    (λ same. absurd (ground arith), none_seen id p events (ground arith))

module _ {F I : Type 0} (store : VectorStore F I) where
  -- One more event of a person, whose row is brought up to date with it.
  see-IsConsistent :
      (id camera_id : String) (timestamp : ℕ) (d : Detection F) (index : I) (p : Person)
      (w : World F I)
      → IsConsistent w
      → p.id ≡ id
      → p.total_appearances ≡ appearances id w.persons + 1
      → (p.first_seen ≤ timestamp) × (timestamp ≤ p.last_seen)
      → Within id p w.events
      → IsConsistent
          (log_event store id camera_id timestamp d (record (upsert_person p w) { index = index }))
  unfolding upsert_person save_event
  see-IsConsistent id camera_id timestamp d index p w ok_w same total span within = record {
    keyed = λ j q found. ground (arith, lookup-insert j p.id p w.persons, ok_w.keyed j q);
    counted =
        λ j. ground (arith, lookup-insert j p.id p w.persons, ok_w.counted j, ok_w.counted id);
    within = λ j q found. elim (string_eq.dec j id) [
      | yes here ↦
          let is_p : p ≡ q = ground (arith, lookup-insert j p.id p w.persons) in
          (
            λ _. subst (λ k. (k.first_seen ≤ timestamp) × (timestamp ≤ k.last_seen)) is_p span,
            subst (λ k. Within k q w.events) (sym here)
                (subst (λ k. Within id k w.events) is_p within),
          )
      | no there ↦ (
        λ logged. absurd (ground arith),
        ok_w.within j q (ground (arith, lookup-insert j p.id p w.persons)),
      )
    ];
  }

  pub see_known-IsConsistent :
      (id camera_id : String) (timestamp : ℕ) (d : Detection F) (w : World F I)
      → IsConsistent w
      → IsConsistent (log_event store id camera_id timestamp d (see_known store id timestamp w))
  unfolding see_known update_appearance upsert_person
  see_known-IsConsistent id camera_id timestamp d w ok_w =
      elim (Option-cases (lookup id w.persons)) [
        | inl missing ↦
            let p = appeared id timestamp in
            let e : see_known store id timestamp w ≡ upsert_person p w =
              rw (missing, see_known) refl in
            subst (λ k. IsConsistent (log_event store id camera_id timestamp d k)) (sym e)
              (see-IsConsistent id camera_id timestamp d w.index p w ok_w refl (ground arith)
                (omega arith, omega arith)
                (none_seen id p w.events (ground (arith, ok_w.counted id))))
        | inr (p, found) ↦
            let q = update_appearance timestamp p in
            let e : see_known store id timestamp w ≡ upsert_person q w =
              rw (found, see_known) refl in
            subst (λ k. IsConsistent (log_event store id camera_id timestamp d k)) (sym e)
              (see-IsConsistent id camera_id timestamp d w.index q w ok_w (ok_w.keyed id p found)
                (ground arith) (ground arith)
                (Within-wider id p q w.events (ground arith) (ground arith)
                  (ok_w.within id p found)))
      ]

  -- What a new person changes.
  see_new_only :
      (id : String) (timestamp : ℕ) (embedding : List F) (w after : World F I)
      → see_new store id timestamp embedding w ≡ some after
      → after ≡ record (upsert_person (appeared id timestamp) w) { index = after.index }
  unfolding see_new upsert_person
  see_new_only id timestamp embedding w after h =
      let w₁ = upsert_person (appeared id timestamp) w in
      let only : (i : I)
          → record w₁ { index = i } ≡ after
          → after ≡ record w₁ { index = after.index } =
        λ i e. subst (λ k. k ≡ record w₁ { index = k.index }) e refl in
      elim (Bool-cases (length embedding == 512)) [
        | inr short ↦ only w.index (ground arith)
        | inl full ↦ elim (Option-cases (store.upsert_embedding w.index id embedding)) [
          | inl raised ↦ absurd (ground arith)
          | inr (i, indexed) ↦ only i (ground arith)
        ]
      ]

  pub see_new-IsConsistent :
      (id camera_id : String) (timestamp : ℕ) (d : Detection F) (w after : World F I)
      → IsConsistent w
      → lookup id w.persons ≡ none
      → see_new store id timestamp d.embedding w ≡ some after
      → IsConsistent (log_event store id camera_id timestamp d after)
  see_new-IsConsistent id camera_id timestamp d w after ok_w fresh h =
      let p = appeared id timestamp in
      subst (λ k. IsConsistent (log_event store id camera_id timestamp d k))
        (sym (see_new_only id timestamp d.embedding w after h))
        (see-IsConsistent id camera_id timestamp d after.index p w ok_w refl (ground arith)
          (omega arith, omega arith) (none_seen id p w.events (ground (arith, ok_w.counted id))))
