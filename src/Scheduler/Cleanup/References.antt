-- ===== src/Scheduler/Cleanup/References.antt =====
-- What remains after a cleanup.
use intelligent_multi_camera.Prelude.{
  ℕ, ◌≤◌, ◌≡◌, refl, sym, subst, String, string_eq, Bool, true, false, not, List, [], ◌∷◌, none,
  some, arith, ltb, contains, map, keep, All, Bool-cases, inl, inr, if◌then◌else◌,
}
use intelligent_multi_camera.Prelude.Dict.{Dict, lookup, erase, lookup-erase, NodupKeys}
use intelligent_multi_camera.Scheduler.Cleanup.{
  EventRow, Tables, erase_persons, expired_persons, expired_events, delete_rows,
}

-- Every event names a person of the table, who was last seen no earlier than the event.
abbrev pub Refers : Dict String ℕ → EventRow → Type 0
Refers persons e = (last : ℕ) × (lookup e.person_id persons ≡ some last) × (e.timestamp ≤ last)

lookup-erase_persons :
    (id : String) (ids : List String) (persons : Dict String ℕ)
    → lookup id (erase_persons ids persons) ≡ (if contains ids id then none else lookup id persons)
unfolding erase_persons
lookup-erase_persons id [] persons = refl
lookup-erase_persons id (i ∷ ids) persons =
    ground (arith, lookup-erase_persons id ids (erase i persons), lookup-erase id i persons)

contains-expired_persons :
    (cutoff : ℕ) (id : String) (persons : Dict String ℕ)
    → NodupKeys persons
    → contains (expired_persons cutoff persons) id
      ≡ elim (lookup id persons) as (λ _. Bool) [ none ↦ false | some last ↦ ltb last cutoff ]
unfolding expired_persons lookup
contains-expired_persons cutoff id [] u = refl
contains-expired_persons cutoff id ((j, l) ∷ persons) (fresh, u) =
    ground (arith, contains-expired_persons cutoff id persons u)

abbrev old : ℕ → EventRow → Bool
old cutoff row = ltb row.timestamp cutoff

abbrev ids_of : List EventRow → List String
ids_of = map (λ row. row.id)

more_ids :
    (ids : List String) (i : String) (cutoff : ℕ) (rows : List EventRow)
    → All (λ r. old cutoff r ≡ true → contains ids r.id ≡ true) rows
    → All (λ r. old cutoff r ≡ true → contains (i ∷ ids) r.id ≡ true) rows
more_ids ids i cutoff [] h = tt
more_ids ids i cutoff (row ∷ rows) (here, rest) =
    (λ o. ground (arith, here o), more_ids ids i cutoff rows rest)

listed :
    (cutoff : ℕ) (rows : List EventRow)
    → All (λ r. old cutoff r ≡ true → contains (ids_of (keep (old cutoff) rows)) r.id ≡ true) rows
listed cutoff [] = tt
listed cutoff (row ∷ rows) = elim (Bool-cases (old cutoff row)) [
  | inl is_old ↦
      let ids = ids_of (keep (old cutoff) rows) in
      let e : ids_of (keep (old cutoff) (row ∷ rows)) ≡ row.id ∷ ids = rw is_old refl in
      subst (λ is. All (λ r. old cutoff r ≡ true → contains is r.id ≡ true) (row ∷ rows)) (sym e)
        (λ _. ground arith, more_ids ids row.id cutoff rows (listed cutoff rows))
  | inr recent ↦
      let ids = ids_of (keep (old cutoff) rows) in
      let e : ids_of (keep (old cutoff) (row ∷ rows)) ≡ ids = rw recent refl in
      subst (λ is. All (λ r. old cutoff r ≡ true → contains is r.id ≡ true) (row ∷ rows)) (sym e)
        (λ o. absurd (ground arith), listed cutoff rows)
]

-- What a row that stays must satisfy.
abbrev pub Stays : ℕ → Dict String ℕ → EventRow → Type 0
Stays cutoff persons e = (cutoff ≤ e.timestamp) × Refers persons e

stays :
    (cutoff : ℕ) (persons : Dict String ℕ) (e : EventRow)
    → NodupKeys persons
    → cutoff ≤ e.timestamp
    → Refers persons e
    → Stays cutoff (erase_persons (expired_persons cutoff persons) persons) e
stays cutoff persons e u recent (last, found, seen) = (
  recent,
  (
    last,
    ground (
      arith,
      lookup-erase_persons e.person_id (expired_persons cutoff persons) persons,
      contains-expired_persons cutoff e.person_id persons u,
    ),
    seen,
  ),
)

kept_stay :
    (cutoff : ℕ) (persons : Dict String ℕ) (ids : List String) (rows : List EventRow)
    → NodupKeys persons
    → All (λ r. old cutoff r ≡ true → contains ids r.id ≡ true) rows
    → All (Refers persons) rows
    → All
        (Stays cutoff (erase_persons (expired_persons cutoff persons) persons))
        (keep (λ r. not (contains ids r.id)) rows)
kept_stay cutoff persons ids [] u h refers = tt
kept_stay cutoff persons ids (row ∷ rows) u (here, rest) (refer, refers) =
    let tail = kept_stay cutoff persons ids rows u rest refers in
    elim (Bool-cases (contains ids row.id)) [
      | inl gone ↦ rw gone tail
      | inr remains ↦ rw remains (stays cutoff persons row u (ground arith) refer, tail)
    ]

-- A cleanup leaves only tracking events that are not older than the cutoff, and deletes no person to whom one of
-- them refers, if before it every event named a person who was last seen no earlier than the event.
pub delete_rows_stay :
    (cutoff : ℕ) (t : Tables)
    → NodupKeys t.persons
    → All (Refers t.persons) t.tracking_events
    → let t' = delete_rows cutoff t in All (Stays cutoff t'.persons) t'.tracking_events
unfolding delete_rows
delete_rows_stay cutoff t u refers =
    kept_stay cutoff t.persons (ids_of (expired_events cutoff t)) t.tracking_events u
      (listed cutoff t.tracking_events) refers
