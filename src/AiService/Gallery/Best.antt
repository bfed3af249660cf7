-- ===== src/AiService/Gallery/Best.antt =====
-- The loop of `match_or_create` finds the most similar person.
use intelligent_multi_camera.Prelude.{
  ◌≡◌, ◌⊎◌, inl, inr, true, List, [], ◌∷◌, Option, some, arith, Eq, Bool-cases, Option-cases, All,
}
use intelligent_multi_camera.Prelude.Dict.{Dict, lookup, NodupKeys, AllValues}
use intelligent_multi_camera.Prelude.Float.{Float, IsOrdered, IsNumber, ◌≤?◌, ◌<?◌, le-lt_trans}
use intelligent_multi_camera.AiService.Embedding.{Numpy}
use intelligent_multi_camera.AiService.Gallery.{similarity, best_match, better}

module _ {F : Type 0} ⦃fl : Float F⦄ (np : Numpy F) (emb : List F) where
  -- The similarity to a person, where it is defined, is at most `s`; or is a number.
  abbrev pub AtMost : F → List (List F) → Type 0
  AtMost s es = (x : F) → similarity np emb es ≡ some x → (x ≤? s) ≡ true

  abbrev pub Comparable : List (List F) → Type 0
  Comparable es = (x : F) → similarity np emb es ≡ some x → IsNumber x

  abbrev pub Below : F → List (List F) → Type 0
  Below s es = (x : F) → similarity np emb es ≡ some x → (x <? s) ≡ true

  module _ (ord : IsOrdered F) where
    pub AtMost-AllValues :
        {Uid : Type 0} (s t : F) (d : Dict Uid (List (List F)))
        → (s ≤? t) ≡ true
        → All (λ (e : Uid × List (List F)). AtMost s e.1) d
        → All (λ (e : Uid × List (List F)). AtMost t e.1) d
    AtMost-AllValues s t [] h a = tt
    AtMost-AllValues s t (e ∷ d) h a =
        (λ x q. ord.le_trans x s t (a.0 x q) h, AtMost-AllValues s t d h a.1)

module _ {F Uid : Type 0} ⦃fl : Float F⦄ ⦃eq : Eq Uid⦄ (np : Numpy F) (emb : List F) where
  -- `b` is what the search over `d` that starts at `start` should find.
  pub record IsBest (d : Dict Uid (List (List F))) (start b : Option Uid × F) : Type 0 where
    pub above : (start.1 ≤? b.1) ≡ true
    pub bound : AllValues (AtMost np emb b.1) d
    pub origin :
        (b ≡ start)
        ⊎ ((p : Uid) × (es : List (List F)) × (lookup p d ≡ some es)
            × (b.0 ≡ some p)
            × (similarity np emb es ≡ some b.1)
            × ((start.1 <? b.1) ≡ true))

  module _ (ord : IsOrdered F) where
    -- One round: the candidate rises to the similarity if that is larger.
    better_le :
        (q : Uid) (x : F) (best : Option Uid × F)
        → IsNumber x
        → IsNumber best.1
        → ((best.1 ≤? (better q x best).1) ≡ true) × ((x ≤? (better q x best).1) ≡ true)
    better_le q x best hx hs =
        ground (arith, ord.lt-eq-not-le best.1 x hs hx, ord.le_total best.1 x hs hx)

    -- The search finds the first of the most similar persons, or keeps its start if none is better.
    pub best_match-IsBest :
        (d : Dict Uid (List (List F))) (start : Option Uid × F) {b : Option Uid × F}
        → NodupKeys d
        → AllValues (Comparable np emb) d
        → IsNumber start.1
        → best_match np emb d start ≡ some b
        → IsBest d start b
    unfolding best_match lookup
    best_match-IsBest [] start u c hs h = record {
      above = ground arith;
      bound = tt;
      origin = inl (ground arith);
    }
    best_match-IsBest ((q, es) ∷ d) start {b} u c hs h =
        elim (Option-cases (similarity np emb es)) [
          | inl undefined ↦ absurd (ground arith)
          | inr (x, e) ↦
              let start' = better q x start in
              let (up, top) = better_le q x start (c.0 x e) hs in
              let rest =
                best_match-IsBest d start' {b = b} u.1 c.1 ((ord.number_of_le _ _ up).1)
                  (ground arith) in
              record {
                above = ord.le_trans start.1 start'.1 b.1 up rest.above;
                bound = (λ y k. ord.le_trans y start'.1 b.1 (ground arith) rest.above, rest.bound);
                origin = elim rest.origin [
                  | inl kept ↦ elim (Bool-cases (start.1 <? x)) [
                    | inl up' ↦ inr (q, es, ground arith, ground arith, ground arith, ground arith)
                    | inr same ↦ inl (ground arith)
                  ]
                  | inr (p, es', l, bp, sim, gt) ↦
                      inr
                        (p, es', ground arith, bp, sim, le-lt_trans ord start.1 start'.1 b.1 up gt)
                ];
              }
        ]
