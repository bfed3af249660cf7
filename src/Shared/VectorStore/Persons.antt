-- ===== src/Shared/VectorStore/Persons.antt =====
-- Sequences of calls of the shared store against the persons that it surely and possibly holds, and what a search
-- answers.
use intelligent_multi_camera.Prelude.{
  ℕ, ◌≡◌, refl, subst, Bool, true, List, [], ◌∷◌, map, Option, none, some, nat_eq, arith, All,
}
use intelligent_multi_camera.Shared.VectorIds.{PointId, matched_person}
use intelligent_multi_camera.Shared.Qdrant.{Payload, ScoredPoint, Client}
use intelligent_multi_camera.Shared.VectorStore.{
  QdrantVectorStore, Match, Outcome, to_match, collection_name, upsert_embedding, matches, searched,
  search_similar, delete_embeddings,
}
use intelligent_multi_camera.Shared.VectorStore.Collection.{
  Persons, KeepsPoints, Represents, noted_upsert, noted_delete, ensure-Represents,
  upserted-Represents, removed-Represents,
}

pub data StoreCall (F : Type 0) : Type 0 where
  upserting : ℕ → List F → Payload → StoreCall F
  searching : List F → ℕ → F → StoreCall F
  deleting : List ℕ → StoreCall F

module _ {Q F : Type 0} (api : Client Q F) where
  -- The store after calls, each of which may raise, and the persons that their outcomes tell of.
  unfoldable pub run :
      List (StoreCall F) → QdrantVectorStore Q → Persons → QdrantVectorStore Q × Persons
  run [] store persons = (store, persons)
  run (upserting person embedding payload ∷ calls) store persons =
      let after = upsert_embedding api person embedding payload store in
      run calls after.0 (noted_upsert person after.1 persons)
  run (searching embedding limit threshold ∷ calls) store persons =
      run calls (search_similar api embedding limit threshold store).0 persons
  run (deleting ids ∷ calls) store persons =
      let after = delete_embeddings api ids store in
      run calls after.0 (noted_delete ids after.1 persons)

  module _ (holds : Q → PointId → Bool) (qdrant : KeepsPoints api holds) where
    searched-Represents :
        (start : Q) (persons : Persons) (embedding : List F) (limit : ℕ) (threshold : F)
        (x : Outcome Q (Unit {0}))
        → Represents api holds start persons x.0.client
        → Represents api holds start persons (searched api embedding limit threshold x).0.client
    searched-Represents start persons embedding limit threshold (store, none) r = r
    searched-Represents start persons embedding limit threshold (store, some _) r = r

    -- Through any calls of the shared store, of which those that raise may have been applied or not, as long as Qdrant
    -- keeps its points: the collection holds every person whose upsert returned and whom no later call asked to
    -- delete; every person that it holds under a UUID was there or asked for, with no deletion since that returned; and it holds
    -- under numbers, as the AI service stores them, exactly the points that it held before.
    pub run-Represents :
        (start : Q) (calls : List (StoreCall F)) (store : QdrantVectorStore Q) (persons : Persons)
        → Represents api holds start persons store.client
        → let after = run calls store persons in Represents api holds start after.1 after.0.client
    unfolding run upsert_embedding search_similar delete_embeddings
    run-Represents start [] store persons r = r
    run-Represents start (upserting person embedding payload ∷ calls) store persons r =
        run-Represents start calls _ _ (
          upserted-Represents api holds qdrant start persons person embedding payload _
            (ensure-Represents api holds qdrant start persons store r))
    run-Represents start (searching embedding limit threshold ∷ calls) store persons r =
        run-Represents start calls _ _ (
          searched-Represents start persons embedding limit threshold _
            (ensure-Represents api holds qdrant start persons store r))
    run-Represents start (deleting ids ∷ calls) store persons r = run-Represents start calls _ _ (
        removed-Represents api holds qdrant start persons ids _
          (ensure-Represents api holds qdrant start persons store r))

    -- A match that names the person of a point that is held.
    abbrev pub IsHeld : Q → Match F → Type 0
    IsHeld q m = (id : PointId) × (m.person_id ≡ matched_person id) × (holds q id ≡ true)

    to_match-IsHeld :
        (q : Q) (points : List (ScoredPoint F))
        → All (λ (p : ScoredPoint F). holds q p.id ≡ true) points
        → All (IsHeld q) (map (to_match api) points)
    to_match-IsHeld q [] h = tt
    to_match-IsHeld q (p ∷ points) (here, h) = ((p.id, refl, here), to_match-IsHeld q points h)

    matches-IsHeld :
        (q : Q) (o : Option (List (ScoredPoint F))) (embedding : List F) (limit : ℕ) (threshold : F)
        → api.query_points collection_name embedding limit threshold q ≡ o
        → All (IsHeld q) (matches api o)
    matches-IsHeld q none embedding limit threshold e = tt
    matches-IsHeld q (some points) embedding limit threshold e =
        to_match-IsHeld q points (qdrant.query_answers q embedding limit threshold points e)

    pub searched-IsHeld :
        (embedding : List F) (limit : ℕ) (threshold : F) (x : Outcome Q (Unit {0}))
        (found : List (Match F))
        → (searched api embedding limit threshold x).1 ≡ some found
        → All (IsHeld x.0.client) found
    searched-IsHeld embedding limit threshold (store, none) found e = absurd (ground arith)
    searched-IsHeld embedding limit threshold (store, some _) found e =
        let o = api.query_points collection_name embedding limit threshold store.client in
        let same : matches api o ≡ found = ground arith in
        subst (All (IsHeld store.client)) same
          (matches-IsHeld store.client o embedding limit threshold refl)
