-- ===== src/AiService/Associator/Race.antt =====
-- Two threads that resolve one track at a time: the cache check and the write are separate sections.
use intelligent_multi_camera.Prelude.{
  ℕ, ◌≡◌, ◌≢◌, inl, inr, Bool, true, false, List, [], ◌∷◌, some, arith, Eq, Bool-cases, string_eq,
  nat_eq, pair_eq,
}
use intelligent_multi_camera.Prelude.Dict.{Dict, lookup, insert, lookup-insert}
use intelligent_multi_camera.Prelude.Float.{Float, float, ◌≤?◌, ◌<?◌}
use intelligent_multi_camera.AiService.Embedding.{Numpy}
use intelligent_multi_camera.AiService.Gallery.{
  PersonGallery, similarity, best_match, settle, match_or_create, create,
}
use intelligent_multi_camera.AiService.Associator.{TrackKey}
use intelligent_multi_camera.AiService.Associator.Threads.{
  missed, matched, returned, World, at, Step, Reach,
}

module _ {F Uid : Type 0} ⦃fl : Float F⦄ ⦃eq : Eq Uid⦄ (np : Numpy F) where
  first_person :
      (a : Uid) (e : List F) (g : PersonGallery F Uid)
      → g.gallery ≡ []
      → match_or_create np a e g ≡ some (create a e g)
  unfolding match_or_create best_match settle
  first_person a e g empty = rw (empty, best_match)

  second_person :
      (a b : Uid) (e f : List F) (x : F) (g : PersonGallery F Uid)
      → g.gallery ≡ (a, e ∷ []) ∷ []
      → similarity np f (e ∷ []) ≡ some x
      → (g.threshold ≤? x) ≡ false
      → match_or_create np b f g ≡ some (create b f g)
  unfolding match_or_create best_match settle
  second_person a b e f x g one sim low = elim (Bool-cases (fl.neg (float 1) <? x)) [
    | inl up ↦ ground arith
    | inr down ↦ ground arith
  ]

  module _ (n : ℕ) where
    -- Two threads that both missed the cache for one track, on an empty gallery, with embeddings whose
    -- similarity is below the threshold: an interleaving gives each of them a new person of its own,
    -- and the cache keeps the one that was written last.
    pub race_two_persons :
        (t u : ℕ) (key : TrackKey) (e f : List F) (a b : Uid) (x : F) (w : World F Uid)
        → t ≢ u
        → w.phase t ≡ missed key e
        → w.phase u ≡ missed key f
        → w.shared.gallery.gallery ≡ []
        → similarity np f (e ∷ []) ≡ some x
        → (w.shared.gallery.threshold ≤? x) ≡ false
        → (w' : World F Uid) × Reach np n w w'
          × (w'.phase t ≡ returned a true)
          × (w'.phase u ≡ returned b true)
          × (lookup key w'.shared.track_to_person ≡ some b)
    unfolding insert
    race_two_persons t u key e f a b x w tu pt pu empty sim low =
        let r1 : PersonGallery F Uid × Uid × Bool = create a e w.shared.gallery in
        let r2 : PersonGallery F Uid × Uid × Bool = create b f r1.0 in
        let w1 : World F Uid = record {
          shared = record { gallery = r1.0; track_to_person = w.shared.track_to_person };
          phase = at t (matched key a true) w;
        } in
        let w2 : World F Uid = record {
          shared = record { gallery = r2.0; track_to_person = w.shared.track_to_person };
          phase = at u (matched key b true) w1;
        } in
        let d3 : Dict TrackKey Uid = insert key a w.shared.track_to_person in
        let w3 : World F Uid = record {
          shared = record { gallery = r2.0; track_to_person = d3 };
          phase = at t (returned a true) w2;
        } in
        let w4 : World F Uid = record {
          shared = record { gallery = r2.0; track_to_person = insert key b d3 };
          phase = at u (returned b true) w3;
        } in
        let s1 : Step np n w w1 =
          Step.match t key e a r1 pt (first_person a e w.shared.gallery empty) in
        let s2 : Step np n w1 w2 =
          Step.match u key f b r2 (ground arith)
            (second_person a b e f x r1.0 (ground arith) sim low) in
        let s3 : Step np n w2 w3 = Step.store t key a true (ground arith) in
        let s4 : Step np n w3 w4 = Step.store u key b true (ground arith) in
        (
          w4,
          Reach.next (Reach.next (Reach.next (Reach.next Reach.here s1) s2) s3) s4,
          ground arith,
          ground arith,
          ground (arith, lookup-insert key key b d3),
        )
