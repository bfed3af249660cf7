-- ===== src/Gateway/RateLimiter/Eviction.antt =====
-- What `_garbage_collect_in_memory` evicts: the older half of the clients.
use intelligent_multi_camera.Prelude.{
  ℕ, zero, suc, ◌/◌, ◌≤◌, ◌<◌, ◌≡◌, refl, String, string_eq, true, ◌||◌, List, [], ◌∷◌, none, arith,
  Bool-cases, inl, inr, ltb, ◌==◌, contains, if◌then◌else◌, length, take, drop, All,
}
use intelligent_multi_camera.Prelude.Dict.{keys, has, lookup, erase, lookup-erase, contains-keys}
use intelligent_multi_camera.Gateway.RateLimiter.{
  Log, max_in_memory_entries, times_of, latest, insert_sorted, sort_by, erase_ips, evicted,
  garbage_collect_in_memory,
}

module _ (rank : String → ℕ) where
  abbrev Sorted : List String → Type 0
  Sorted [] = Unit
  Sorted (x ∷ xs) = All (λ y. rank x ≤ rank y) xs × Sorted xs

  All-insert_sorted :
      (n : ℕ) (x : String) (ys : List String)
      → n ≤ rank x
      → All (λ y. n ≤ rank y) ys
      → All (λ y. n ≤ rank y) (insert_sorted rank x ys)
  unfolding insert_sorted
  All-insert_sorted n x [] h a = (h, tt)
  All-insert_sorted n x (y ∷ ys) h a = elim (Bool-cases (ltb (rank y) (rank x))) [
    | inl after ↦ rw after (a.0, All-insert_sorted n x ys h a.1)
    | inr before ↦ rw before (h, a)
  ]

  All-weaker :
      (m n : ℕ) (ys : List String) → m ≤ n → All (λ y. n ≤ rank y) ys → All (λ y. m ≤ rank y) ys
  All-weaker m n [] h a = tt
  All-weaker m n (y ∷ ys) h a = (omega arith, All-weaker m n ys h a.1)

  insert_sorted-Sorted :
      (x : String) (ys : List String) → Sorted ys → Sorted (insert_sorted rank x ys)
  unfolding insert_sorted
  insert_sorted-Sorted x [] s = (tt, tt)
  insert_sorted-Sorted x (y ∷ ys) s = elim (Bool-cases (ltb (rank y) (rank x))) [
    | inl after ↦
        rw after (All-insert_sorted (rank y) x ys (ground arith) s.0, insert_sorted-Sorted x ys s.1)
    | inr before ↦
        let low : rank x ≤ rank y = ground arith in
        rw before ((low, All-weaker (rank x) (rank y) ys low s.0), s)
  ]

  sort_by-Sorted : (xs : List String) → Sorted (sort_by rank xs)
  unfolding sort_by
  sort_by-Sorted [] = tt
  sort_by-Sorted (x ∷ xs) = insert_sorted-Sorted x (sort_by rank xs) (sort_by-Sorted xs)

  contains-insert_sorted :
      (x j : String) (ys : List String)
      → contains (insert_sorted rank x ys) j ≡ (j == x || contains ys j)
  unfolding insert_sorted
  contains-insert_sorted x j [] = refl
  contains-insert_sorted x j (y ∷ ys) = ground (arith, contains-insert_sorted x j ys)

  contains-sort_by : (j : String) (xs : List String) → contains (sort_by rank xs) j ≡ contains xs j
  unfolding sort_by
  contains-sort_by j [] = refl
  contains-sort_by j (x ∷ xs) =
      ground (arith, contains-insert_sorted x j (sort_by rank xs), contains-sort_by j xs)

  All-contains :
      (n : ℕ) (j : String) (ys : List String)
      → All (λ y. n ≤ rank y) ys
      → contains ys j ≡ true
      → n ≤ rank j
  All-contains n j [] a h = cc
  All-contains n j (y ∷ ys) a h = ground (arith, All-contains n j ys a.1)

  Sorted-split :
      (n : ℕ) (i j : String) (xs : List String)
      → Sorted xs
      → contains (take n xs) i ≡ true
      → contains (drop n xs) j ≡ true
      → rank i ≤ rank j
  Sorted-split zero i j xs s hi hj = cc
  Sorted-split (suc n) i j [] s hi hj = cc
  Sorted-split (suc n) i j (x ∷ xs) s hi hj = ground (
    arith,
    Sorted-split n i j xs s.1,
    All-contains (rank x) j xs s.0 (contains_of_drop n j xs hj),
  )
    where
      contains_of_drop :
          (n : ℕ) (j : String) (xs : List String)
          → contains (drop n xs) j ≡ true
          → contains xs j ≡ true
      contains_of_drop zero j xs h = h
      contains_of_drop (suc n) j [] h = h
      contains_of_drop (suc n) j (x ∷ xs) h = ground (arith, contains_of_drop n j xs)

contains-take-drop :
    (n : ℕ) (j : String) (xs : List String)
    → contains xs j ≡ (contains (take n xs) j || contains (drop n xs) j)
contains-take-drop zero j xs = refl
contains-take-drop (suc n) j [] = refl
contains-take-drop (suc n) j (x ∷ xs) = ground (arith, contains-take-drop n j xs)

lookup-erase_ips :
    (j : String) (ips : List String) (db : Log)
    → lookup j (erase_ips ips db) ≡ (if contains ips j then none else lookup j db)
unfolding erase_ips
lookup-erase_ips j [] db = refl
lookup-erase_ips j (ip ∷ ips) db =
    ground (arith, lookup-erase_ips j ips (erase ip db), lookup-erase j ip db)

-- Eviction forgets some clients and keeps the others' logs; the last request of a forgotten client
-- is no later than the last request of any client that is kept.
pub evict_oldest :
    (db : Log)
    → max_in_memory_entries < length db
    → (j : String)
    → (lookup j (garbage_collect_in_memory db)
        ≡ (if contains (evicted db) j then none else lookup j db))
      × ((i : String)
          → contains (evicted db) i ≡ true
          → has j (garbage_collect_in_memory db) ≡ true
          → latest (times_of i db) ≤ latest (times_of j db))
unfolding garbage_collect_in_memory evicted
evict_oldest db large j = (gone, order)
  where
    rank : String → ℕ
    rank ip = latest (times_of ip db)

    sorted_ips : List String
    sorted_ips = sort_by rank (keys db)

    half : ℕ
    half = length sorted_ips / 2

    gone :
        lookup j (garbage_collect_in_memory db)
        ≡ (if contains (evicted db) j then none else lookup j db)
    gone = ground (arith, lookup-erase_ips j (evicted db) db)

    later : has j (garbage_collect_in_memory db) ≡ true → contains (drop half sorted_ips) j ≡ true
    later h = ground (
      arith,
      gone,
      contains-take-drop half j sorted_ips,
      contains-sort_by rank j (keys db),
      contains-keys j db,
    )

    order :
        (i : String)
        → contains (evicted db) i ≡ true
        → has j (garbage_collect_in_memory db) ≡ true
        → rank i ≤ rank j
    order i hi hj =
        Sorted-split rank half i j sorted_ips (sort_by-Sorted rank (keys db)) hi (later hj)
