-- ===== src/AiService/Gallery/Decision.antt =====
-- When `match_or_create` re-identifies a person, and when it makes a new one.
use intelligent_multi_camera.Prelude.{
  ◌≡◌, ◌⊎◌, inl, inr, Bool, true, false, List, [], ◌∷◌, Option, none, some, arith, Eq, Bool-cases,
  Option-cases,
}
use intelligent_multi_camera.Prelude.Dict.{Dict, lookup, insert, NodupKeys, AllValues}
use intelligent_multi_camera.Prelude.Float.{Float, float, IsOrdered, ◌≤?◌, ◌<?◌, le-lt_trans}
use intelligent_multi_camera.AiService.Embedding.{Numpy}
use intelligent_multi_camera.AiService.Gallery.{
  PersonGallery, similarity, best_match, settle, match_or_create, create, push_window, none_yet,
}
use intelligent_multi_camera.AiService.Gallery.Best.{
  AtMost, Below, Comparable, IsBest, best_match-IsBest,
}

module _ {F Uid : Type 0} ⦃fl : Float F⦄ ⦃eq : Eq Uid⦄ (np : Numpy F) (emb : List F) where
  -- A new person, since all known ones are below the threshold.
  pub record IsCreated (new_id : Uid) (g : PersonGallery F Uid)
      (r : PersonGallery F Uid × Uid × Bool) : Type 0 where
    pub result : r ≡ create new_id emb g
    pub all_below : AllValues (Below np emb g.threshold) g.gallery

  -- A known person, whose similarity reaches the threshold and is the largest.
  pub record IsReidentified (g : PersonGallery F Uid) (r : PersonGallery F Uid × Uid × Bool)
      : Type 0 where
    pub samples : List (List F)
    pub sim : F
    pub known : lookup r.1 g.gallery ≡ some samples
    pub similar : similarity np emb samples ≡ some sim
    pub reaches : (g.threshold ≤? sim) ≡ true
    pub largest : AllValues (AtMost np emb sim) g.gallery
    pub result :
        r ≡ (record g { gallery = insert r.1 (push_window emb samples) g.gallery }, r.1, false)

  module _ (ord : IsOrdered F) where
    Below-AllValues :
        (s t : F) (d : Dict Uid (List (List F)))
        → (s <? t) ≡ true
        → AllValues (AtMost np emb s) d
        → AllValues (Below np emb t) d
    Below-AllValues s t [] h a = tt
    Below-AllValues s t (e ∷ d) h a =
        (λ x q. le-lt_trans ord x s t (a.0 x q) h, Below-AllValues s t d h a.1)

    settle_decides :
        (new_id : Uid) (g : PersonGallery F Uid) (b : Option Uid × F)
        {r : PersonGallery F Uid × Uid × Bool}
        → (fl.neg (float 1) <? g.threshold) ≡ true
        → IsBest np emb g.gallery none_yet b
        → settle new_id emb g b ≡ some r
        → IsCreated new_id g r ⊎ IsReidentified g r
    unfolding settle
    settle_decides new_id g (none, s) low best h = elim best.origin [
      | inl kept ↦ inl (record {
        result = ground arith;
        all_below = Below-AllValues s g.threshold g.gallery (ground arith) best.bound;
      })
      | inr (p, es, l, e, m, gt) ↦ absurd (ground arith)
    ]
    settle_decides new_id g (some p, s) {r = r} low best h = elim best.origin [
      | inl kept ↦ absurd (ground arith)
      | inr (q, es, l, e, m, gt) ↦ elim (Bool-cases (g.threshold ≤? s)) [
        | inl high ↦
            let same : r
                ≡ (record g { gallery = insert q (push_window emb es) g.gallery }, q, false) =
              ground arith in
            inr (record {
              samples = es;
              sim = s;
              known = ground arith;
              similar = m;
              reaches = high;
              largest = best.bound;
              result = ground arith;
            })
        | inr under ↦ inl (record {
          result = ground arith;
          all_below = Below-AllValues s g.threshold g.gallery (below s under gt) best.bound;
        })
      ]
    ]
      where
        below :
            (x : F)
            → (g.threshold ≤? x) ≡ false
            → (fl.neg (float 1) <? x) ≡ true
            → (x <? g.threshold) ≡ true
        below x under gt = ground (
          arith,
          ord.lt-eq-not-le x g.threshold ((ord.number_of_lt _ _ gt).1)
              ((ord.number_of_lt _ _ low).1),
        )

    -- For a threshold above -1 and similarities that are numbers, a call that returns has either made
    -- the new person, every known one being strictly below the threshold, or added the embedding to a
    -- known person whose similarity is the largest and is above the threshold or equal to it; at equality
    -- the code re-identifies, where its documentation asks for a similarity above the threshold.
    pub match_or_create_decides :
        (new_id : Uid) (g : PersonGallery F Uid) {r : PersonGallery F Uid × Uid × Bool}
        → NodupKeys g.gallery
        → AllValues (Comparable np emb) g.gallery
        → (fl.neg (float 1) <? g.threshold) ≡ true
        → match_or_create np new_id emb g ≡ some r
        → IsCreated new_id g r ⊎ IsReidentified g r
    unfolding match_or_create
    match_or_create_decides new_id g u c low h =
        elim (Option-cases (best_match np emb g.gallery none_yet)) [
          | inl undefined ↦ absurd (ground arith)
          | inr (b, e) ↦
              settle_decides new_id g b low
                (best_match-IsBest np emb ord g.gallery none_yet u c ((ord.number_of_lt _ _ low).0)
                  e)
                (ground arith)
        ]
