-- ===== src/Shared/VectorStore/Collection.antt =====
-- What the shared store keeps in its collection.
use intelligent_multi_camera.Prelude.{
  ℕ, ◌≡◌, refl, sym, ◌∙◌, inl, inr, String, string_eq, nat_eq, Bool, true, false, not, ◌&&◌, ◌||◌,
  List, [], ◌∷◌, map, Option, none, some, ◌==◌, contains, keep, arith, Bool-cases, if_both, All,
}
use intelligent_multi_camera.Prelude.Dict.{contains-keep}
use intelligent_multi_camera.Shared.VectorIds.{
  PointId, uuid, number, point_eq, same_uuid, number_no_uuid, shared_point_id,
}
use intelligent_multi_camera.Shared.Qdrant.{Payload, ScoredPoint, Client}
use intelligent_multi_camera.Shared.VectorStore.{
  QdrantVectorStore, Outcome, collection_name, vector_size, created, listed, ensure_collection,
  written, upserted, removed,
}

-- What a client of the store can tell of its persons after calls that may have raised: those that it surely holds,
-- and those that it possibly holds.
abbrev pub Persons : Type 0
Persons = List ℕ × List ℕ

abbrev pub without : List ℕ → List ℕ → List ℕ
without ids persons = keep (λ p. not (contains ids p)) persons

abbrev pub noted_upsert : ℕ → Option (Unit {0}) → Persons → Persons
noted_upsert person none (sure, possible) = (sure, person ∷ possible)
noted_upsert person (some _) (sure, possible) = (person ∷ sure, person ∷ possible)

abbrev pub noted_delete : List ℕ → Option (Unit {0}) → Persons → Persons
noted_delete ids none (sure, possible) = (without ids sure, possible)
noted_delete ids (some _) (sure, possible) = (without ids sure, without ids possible)

module _ {Q F : Type 0} (api : Client Q F) (holds : Q → PointId → Bool) where
  -- What is assumed of Qdrant, of the points that the collection holds: an upsert adds its point, a deletion
  -- removes the points that it names, either may or may not be applied where the call raises, to create the
  -- collection keeps the points, and a search answers points that it holds.
  pub record KeepsPoints : Type 0 where
    pub created_keeps :
        (q : Q) (id : PointId)
        → holds (api.create_collection collection_name vector_size q).0 id ≡ holds q id
    pub upsert_adds :
        (q : Q) (id other : PointId) (embedding : List F) (payload : Payload)
        → (api.upsert collection_name id embedding payload q).1 ≡ true
        → holds (api.upsert collection_name id embedding payload q).0 other
          ≡ (other == id || holds q other)
    pub upsert_raised :
        (q : Q) (id other : PointId) (embedding : List F) (payload : Payload)
        → (api.upsert collection_name id embedding payload q).1 ≡ false
        → let after = (api.upsert collection_name id embedding payload q).0 in
          (holds q other ≡ true → holds after other ≡ true)
          × (holds after other ≡ true → (other == id || holds q other) ≡ true)
    pub delete_removes :
        (q : Q) (ids : List PointId) (id : PointId)
        → (api.delete collection_name ids q).1 ≡ true
        → holds (api.delete collection_name ids q).0 id ≡ (holds q id && not (contains ids id))
    pub delete_raised :
        (q : Q) (ids : List PointId) (id : PointId)
        → (api.delete collection_name ids q).1 ≡ false
        → let after = (api.delete collection_name ids q).0 in
          ((holds q id && not (contains ids id)) ≡ true → holds after id ≡ true)
          × (holds after id ≡ true → holds q id ≡ true)
    pub query_answers :
        (q : Q) (embedding : List F) (limit : ℕ) (threshold : F) (points : List (ScoredPoint F))
        → api.query_points collection_name embedding limit threshold q ≡ some points
        → All (λ (p : ScoredPoint F). holds q p.id ≡ true) points

  -- The collection holds the sure persons under their UUIDs, and no UUIDs but of possible ones; of the points with
  -- a number for their id, it holds those that it held at the start.
  pub record Represents (start : Q) (persons : Persons) (q : Q) : Type 0 where
    pub held : (p : ℕ) → contains persons.0 p ≡ true → holds q (uuid p) ≡ true
    pub known : (p : ℕ) → holds q (uuid p) ≡ true → contains persons.1 p ≡ true
    pub numbers : (n : ℕ) → holds q (number n) ≡ holds start (number n)

  module _ (qdrant : KeepsPoints) where
    created_keeps_all :
        (store : QdrantVectorStore Q) (r : Q × Bool) (id : PointId)
        → holds r.0 id ≡ holds store.client id
        → holds (created api store r).0.client id ≡ holds store.client id
    created_keeps_all store (client, true) id h = h
    created_keeps_all store (client, false) id h = h

    listed_keeps :
        (store : QdrantVectorStore Q) (o : Option (List String)) (id : PointId)
        → holds (listed api store o).0.client id ≡ holds store.client id
    listed_keeps store none id = refl
    listed_keeps store (some names) id = elim (Bool-cases (contains names collection_name)) [
      | inl here ↦ rw here refl
      | inr absent ↦ rw absent (created_keeps_all store _ id (qdrant.created_keeps store.client id))
    ]

    -- The check of the collection keeps the points, however it ends.
    pub ensure_keeps :
        (store : QdrantVectorStore Q) (id : PointId)
        → holds (ensure_collection api store).0.client id ≡ holds store.client id
    unfolding ensure_collection
    ensure_keeps store id =
        if_both (λ (x : Outcome Q (Unit {0})). holds x.0.client id ≡ holds store.client id)
          store.collection_checked (store, some tt)
          (listed api store (api.get_collections store.client)) refl
          (listed_keeps store (api.get_collections store.client) id)

    pub ensure-Represents :
        (start : Q) (persons : Persons) (store : QdrantVectorStore Q)
        → Represents start persons store.client
        → Represents start persons (ensure_collection api store).0.client
    ensure-Represents start persons store r = record {
      held = λ p h. ensure_keeps store (uuid p) ∙ r.held p h;
      known = λ p h. r.known p (sym (ensure_keeps store (uuid p)) ∙ h);
      numbers = λ n. ensure_keeps store (number n) ∙ r.numbers n;
    }

    contains-uuid :
        (ids : List ℕ) (p : ℕ) → contains (map shared_point_id ids) (uuid p) ≡ contains ids p
    unfolding shared_point_id
    contains-uuid [] p = refl
    contains-uuid (id ∷ ids) p = rw (same_uuid p id) (rw (contains-uuid ids p) refl)

    contains-number : (ids : List ℕ) (n : ℕ) → contains (map shared_point_id ids) (number n) ≡ false
    unfolding shared_point_id
    contains-number [] n = refl
    contains-number (id ∷ ids) n = rw (number_no_uuid n id) (contains-number ids n)

    written_upsert :
        (start : Q) (persons : Persons) (person : ℕ) (embedding : List F) (payload : Payload)
        (store : QdrantVectorStore Q)
        → Represents start persons store.client
        → let x =
            written api store (
              api.upsert collection_name (shared_point_id person) embedding payload store.client) in
          Represents start (noted_upsert person x.1 persons) x.0.client
    unfolding shared_point_id
    written_upsert start persons person embedding payload store r =
        let q = store.client in
        elim (Bool-cases (api.upsert collection_name (uuid person) embedding payload q).1) [
          | inl returned ↦
              let adds : (id : PointId)
                  → holds (api.upsert collection_name (uuid person) embedding payload q).0 id
                    ≡ (id == uuid person || holds q id) =
                λ id. qdrant.upsert_adds q (uuid person) id embedding payload returned in
              rw returned (record {
                held = λ p h. ground (arith, adds (uuid p), same_uuid p person, r.held p);
                known = λ p h. ground (arith, adds (uuid p), same_uuid p person, r.known p);
                numbers = λ n. adds (number n) ∙ rw (number_no_uuid n person) (r.numbers n);
              })
          | inr raised ↦
              let either = λ (id : PointId).
                qdrant.upsert_raised q (uuid person) id embedding payload raised in
              rw raised (record {
                held = λ p h. (either (uuid p)).0 (r.held p h);
                known = λ p h. ground (arith, either (uuid p), same_uuid p person, r.known p);
                numbers =
                    λ n. ground (arith, either (number n), number_no_uuid n person, r.numbers n);
              })
        ]

    written_delete :
        (start : Q) (persons : Persons) (ids : List ℕ) (store : QdrantVectorStore Q)
        → Represents start persons store.client
        → let x =
            written api store (api.delete collection_name (map shared_point_id ids) store.client) in
          Represents start (noted_delete ids x.1 persons) x.0.client
    written_delete start persons ids store r =
        let q = store.client in
        let points = map shared_point_id ids in
        let sure = λ (p : ℕ). contains-keep (λ (q : ℕ). not (contains ids q)) p persons.0 in
        let possible = λ (p : ℕ). contains-keep (λ (q : ℕ). not (contains ids q)) p persons.1 in
        elim (Bool-cases (api.delete collection_name points q).1) [
          | inl returned ↦
              let removes = λ (id : PointId). qdrant.delete_removes q points id returned in
              rw returned (record {
                held =
                    λ p h. ground (arith, removes (uuid p), contains-uuid ids p, sure p, r.held p);
                known = λ p h.
                    ground (arith, removes (uuid p), contains-uuid ids p, possible p, r.known p);
                numbers =
                    λ n. ground (arith, removes (number n), contains-number ids n, r.numbers n);
              })
          | inr raised ↦
              let either = λ (id : PointId). qdrant.delete_raised q points id raised in
              rw raised (record {
                held =
                    λ p h. ground (arith, either (uuid p), contains-uuid ids p, sure p, r.held p);
                known = λ p h. r.known p ((either (uuid p)).1 h);
                numbers =
                    λ n. ground (arith, either (number n), contains-number ids n, r.numbers n);
              })
        ]

    -- Writes behind the check of the collection, which may have raised.
    pub upserted-Represents :
        (start : Q) (persons : Persons) (person : ℕ) (embedding : List F) (payload : Payload)
        (x : Outcome Q (Unit {0}))
        → Represents start persons x.0.client
        → let after = upserted api person embedding payload x in
          Represents start (noted_upsert person after.1 persons) after.0.client
    upserted-Represents start persons person embedding payload (store, none) r = record {
      held = r.held;
      known = λ p h. ground (arith, r.known p);
      numbers = r.numbers;
    }
    upserted-Represents start persons person embedding payload (store, some _) r =
        written_upsert start persons person embedding payload store r

    pub removed-Represents :
        (start : Q) (persons : Persons) (ids : List ℕ) (x : Outcome Q (Unit {0}))
        → Represents start persons x.0.client
        → let after = removed api ids x in
          Represents start (noted_delete ids after.1 persons) after.0.client
    removed-Represents start persons ids (store, none) r = record {
      held = λ p h.
          ground (arith, contains-keep (λ (q : ℕ). not (contains ids q)) p persons.0, r.held p);
      known = r.known;
      numbers = r.numbers;
    }
    removed-Represents start persons ids (store, some _) r =
        written_delete start persons ids store r
