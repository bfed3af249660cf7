-- ===== src/Analytics/Queries/Trail.antt =====
-- What the trail of a person holds.
use intelligent_multi_camera.Prelude.{
  ℕ, ◌≤◌, ◌≡◌, refl, ◌∙◌, inl, inr, String, string_eq, Bool, true, ◌&&◌, List, [], ◌∷◌, Option,
  some, leb, arith, if_both, Bool-cases, length, keep, All,
}
use intelligent_multi_camera.Analytics.Queries.{
  TrackingEventRow, insert_by, order_by, is_person, get_trail_by_person_id, trail_of,
  get_person_trail,
}

module _ {F : Type 0} where
  -- No row is older than one before it.
  abbrev pub IsChronological : List (TrackingEventRow F) → Type 0
  IsChronological [] = Unit
  IsChronological (e ∷ rows) =
      All (λ (d : TrackingEventRow F). e.timestamp ≤ d.timestamp) rows × IsChronological rows

  insert_by_later :
      (n : ℕ) (e : TrackingEventRow F) (rows : List (TrackingEventRow F))
      → n ≤ e.timestamp
      → All (λ (d : TrackingEventRow F). n ≤ d.timestamp) rows
      → All (λ (d : TrackingEventRow F). n ≤ d.timestamp) (insert_by true e rows)
  unfolding insert_by
  insert_by_later n e [] here later = (here, tt)
  insert_by_later n e (d ∷ rows) here (first, later) =
      if_both (All (λ (x : TrackingEventRow F). n ≤ x.timestamp)) (leb e.timestamp d.timestamp)
        (e ∷ d ∷ rows) (d ∷ insert_by true e rows) (here, (first, later))
        (first, insert_by_later n e rows here later)

  All_later :
      (m n : ℕ) (rows : List (TrackingEventRow F))
      → m ≤ n
      → All (λ (d : TrackingEventRow F). n ≤ d.timestamp) rows
      → All (λ (d : TrackingEventRow F). m ≤ d.timestamp) rows
  All_later m n [] le later = tt
  All_later m n (d ∷ rows) le (first, later) = (omega arith, All_later m n rows le later)

  insert_by-IsChronological :
      (e : TrackingEventRow F) (rows : List (TrackingEventRow F))
      → IsChronological rows
      → IsChronological (insert_by true e rows)
  unfolding insert_by
  insert_by-IsChronological e [] c = (tt, tt)
  insert_by-IsChronological e (d ∷ rows) (later, c) =
      elim (Bool-cases (leb e.timestamp d.timestamp)) [
        | inl first ↦
            let le : e.timestamp ≤ d.timestamp = ground arith in
            rw first ((le, All_later e.timestamp d.timestamp rows le later), (later, c))
        | inr second ↦ rw second (
          insert_by_later d.timestamp e rows (ground arith) later,
          insert_by-IsChronological e rows c,
        )
      ]

  order_by-IsChronological :
      (rows : List (TrackingEventRow F)) → IsChronological (order_by true rows)
  unfolding order_by
  order_by-IsChronological [] = tt
  order_by-IsChronological (e ∷ rows) =
      insert_by-IsChronological e (order_by true rows) (order_by-IsChronological rows)

  count_insert_by :
      (p : TrackingEventRow F → Bool) (ascending : Bool) (e : TrackingEventRow F)
      (rows : List (TrackingEventRow F))
      → length (keep p (insert_by ascending e rows)) ≡ length (keep p (e ∷ rows))
  unfolding insert_by
  count_insert_by p ascending e [] = refl
  count_insert_by p ascending e (d ∷ rows) = ground (arith, count_insert_by p ascending e rows)

  count_order_by :
      (p : TrackingEventRow F → Bool) (ascending : Bool) (rows : List (TrackingEventRow F))
      → length (keep p (order_by ascending rows)) ≡ length (keep p rows)
  unfolding order_by
  count_order_by p ascending [] = refl
  count_order_by p ascending (e ∷ rows) = ground (
    arith,
    count_insert_by p ascending e (order_by ascending rows),
    count_order_by p ascending rows,
  )

  count_both :
      (p q : TrackingEventRow F → Bool) (rows : List (TrackingEventRow F))
      → length (keep p (keep q rows)) ≡ length (keep (λ e. q e && p e) rows)
  count_both p q [] = refl
  count_both p q (e ∷ rows) = ground (arith, count_both p q rows)

  -- The trail of a person is chronological, and holds the events of that person and no other, each as often as it
  -- is logged; the route answers its points in that order, and 404 exactly when it is empty.
  pub trail_complete :
      (isoformat : ℕ → String) (parse_uuid : String → Option String) (text person : String)
      (rows : List (TrackingEventRow F)) (p : TrackingEventRow F → Bool)
      → parse_uuid text ≡ some person
      → let trail = get_trail_by_person_id person rows in
        IsChronological trail
        × (length (keep p trail)
            ≡ length (keep (λ (e : TrackingEventRow F). is_person e.person_id person && p e) rows))
        × (get_person_trail isoformat parse_uuid text rows ≡ trail_of isoformat trail)
  unfolding get_trail_by_person_id get_person_trail
  trail_complete isoformat parse_uuid text person rows p parsed =
      let own = λ (e : TrackingEventRow F). is_person e.person_id person in
      (
        order_by-IsChronological (keep own rows),
        count_order_by p true (keep own rows) ∙ count_both p own rows,
        rw (parsed, get_person_trail) refl,
      )
