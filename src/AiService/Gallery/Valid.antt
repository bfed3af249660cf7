-- ===== src/AiService/Gallery/Valid.antt =====
-- The gallery's invariant: distinct persons, each with one to ten embeddings of one dimension.
use intelligent_multi_camera.Prelude.{
  ℕ, ◌≤◌, ◌<◌, ◌≡◌, refl, ◌⊎◌, inl, inr, Bool, true, false, List, [], ◌∷◌, ◌++◌, Option, none, some,
  arith, Eq, Option-cases, Bool-cases, if_both, length, All, All-append, length-append, ltb,
}
use intelligent_multi_camera.Prelude.Dict.{
  Dict, lookup, insert, has, NodupKeys, AllValues, insert-NodupKeys, insert-AllValues,
  lookup-insert, lookup-AllValues,
}
use intelligent_multi_camera.Prelude.Float.{Float, ◌≤?◌}
use intelligent_multi_camera.AiService.Embedding.{
  Numpy, KeepsShape, average_defined, cosine_defined,
}
use intelligent_multi_camera.AiService.Gallery.{
  PersonGallery, push_window, similarity, best_match, settle, match_or_create, better, none_yet,
  create,
}

module _ {F : Type 0} (n : ℕ) where
  -- The embeddings of one person.
  pub record IsEntry (es : List (List F)) : Type 0 where
    pub nonempty : 0 < length es
    pub bounded : length es ≤ 10
    pub dimension : All (λ v. length v ≡ n) es

  pub push_window-IsEntry :
      (e : List F) (es : List (List F)) → length e ≡ n → IsEntry es → IsEntry (push_window e es)
  push_window-IsEntry e [] h v = record {
    nonempty = omega arith;
    bounded = omega arith;
    dimension = (h, tt);
  }
  push_window-IsEntry e (x ∷ es) h v =
      let all : All (λ w. length w ≡ n) (es ++ (e ∷ [])) =
        All-append (λ w. length w ≡ n) es (e ∷ []) (v.dimension.1) (h, tt) in
      record {
        nonempty = ground (arith, length-append es (e ∷ []));
        bounded = ground (arith, length-append es (e ∷ []), v.bounded);
        dimension =
            if_both (All (λ w. length w ≡ n)) (ltb 10 (length (x ∷ es ++ e ∷ []))) (es ++ (e ∷ []))
              (x ∷ (es ++ (e ∷ []))) all (v.dimension.0, all);
      }

module _ {F : Type 0} ⦃fl : Float F⦄ (n : ℕ) (np : Numpy F) (shape : KeepsShape np) where
  pub similarity_defined :
      (emb : List F) (es : List (List F))
      → length emb ≡ n
      → IsEntry n es
      → (x : F) × (similarity np emb es ≡ some x)
  unfolding similarity
  similarity_defined emb [] h v = absurd (omega arith)
  similarity_defined emb (e ∷ es) h v =
      let (m, am, lm) = average_defined np shape n e es (v.dimension) in
      let (x, c) = cosine_defined np shape emb m (omega arith) in (x, rw am c)

module _ {F Uid : Type 0} ⦃fl : Float F⦄ ⦃eq : Eq Uid⦄ (n : ℕ) where
  pub record IsValid (g : PersonGallery F Uid) : Type 0 where
    pub distinct : NodupKeys g.gallery
    pub entries : AllValues (IsEntry n) g.gallery

  -- What a call that found or made `r.1` has left behind.
  pub record Knows (g : PersonGallery F Uid) (r : PersonGallery F Uid × Uid × Bool) : Type 0 where
    pub valid : IsValid r.0
    pub present : has r.1 r.0.gallery ≡ true
    pub kept : (p : Uid) → has p g.gallery ≡ true → has p r.0.gallery ≡ true
    pub same_threshold : r.0.threshold ≡ g.threshold

  insert-Knows :
      (p : Uid) (es : List (List F)) (b : Bool) (g : PersonGallery F Uid)
      → IsEntry n es
      → IsValid g
      → Knows g (record g { gallery = insert p es g.gallery }, p, b)
  insert-Knows p es b g h v = record {
    valid = record {
      distinct = insert-NodupKeys p es g.gallery v.distinct;
      entries = insert-AllValues (IsEntry n) p es g.gallery h v.entries;
    };
    present = ground (arith, lookup-insert p p es g.gallery);
    kept = λ q k. ground (arith, lookup-insert q p es g.gallery);
    same_threshold = refl;
  }

  module _ (np : Numpy F) (shape : KeepsShape np) where
    -- A candidate is the one given, or a person of the gallery.
    pub best_match_defined :
        (emb : List F) (d : Dict Uid (List (List F))) (best : Option Uid × F)
        → length emb ≡ n
        → AllValues (IsEntry n) d
        → (b : Option Uid × F) × (best_match np emb d best ≡ some b)
          × ((p : Uid) → b.0 ≡ some p → (best.0 ≡ some p) ⊎ (has p d ≡ true))
    unfolding best_match lookup
    best_match_defined emb [] best h v = (best, refl, λ p e. inl e)
    best_match_defined emb ((q, es) ∷ d) best h v =
        let (x, s) = similarity_defined n np shape emb es h v.0 in
        let (b, found, from) = best_match_defined emb d (better q x best) h v.1 in
        (b, rw s found, λ p e. ground (arith, from p e))

    settle-Knows :
        (new_id : Uid) (emb : List F) (g : PersonGallery F Uid) (b : Option Uid × F)
        → length emb ≡ n
        → IsValid g
        → ((p : Uid) → b.0 ≡ some p → has p g.gallery ≡ true)
        → (r : PersonGallery F Uid × Uid × Bool) × (settle new_id emb g b ≡ some r) × Knows g r
    unfolding settle
    settle-Knows new_id emb g (none, s) h v c =
        (create new_id emb g, refl, insert-Knows new_id (emb ∷ []) true g (omega arith) v)
    settle-Knows new_id emb g (some p, s) h v c = elim (Bool-cases (g.threshold ≤? s)) [
      | inr low ↦
          (create new_id emb g, rw low, insert-Knows new_id (emb ∷ []) true g (omega arith) v)
      | inl high ↦ elim (Option-cases (lookup p g.gallery)) [
        | inl missing ↦ absurd (ground (arith, c p refl))
        | inr (es, found) ↦ (
          (record g { gallery = insert p (push_window emb es) g.gallery }, p, false),
          rw (high, found),
          insert-Knows p (push_window emb es) false g
              (push_window-IsEntry n emb es h
                (lookup-AllValues (IsEntry n) p es g.gallery v.entries found))
              v,
        )
      ]
    ]

    -- On a valid gallery and an embedding of its dimension `match_or_create` does not raise. It
    -- leaves a valid gallery that holds the returned person and everyone that it held before.
    pub match_or_create-Knows :
        (new_id : Uid) (emb : List F) (g : PersonGallery F Uid)
        → length emb ≡ n
        → IsValid g
        → (r : PersonGallery F Uid × Uid × Bool) × (match_or_create np new_id emb g ≡ some r)
          × Knows g r
    unfolding match_or_create
    match_or_create-Knows new_id emb g h v =
        let (b, found, from) = best_match_defined emb g.gallery none_yet h v.entries in
        let (r, e, k) = settle-Knows new_id emb g b h v (λ p q. ground (arith, from p q)) in
        (r, rw found e, k)
