-- ===== src/AiService/Embedding.antt =====
-- apps/ai-service/src/utils/embedding.py. numpy is a parameter; `none` is a raised exception, as for
-- vectors of different lengths.
pub mod Plain
use intelligent_multi_camera.Prelude.{
  ◌>>=◌, ℕ, ◌^◌, suc, ◌≡◌, refl, Bool, List, [], ◌∷◌, map, Option, none, some, arith, if◌then◌else◌,
  length, All,
}
use intelligent_multi_camera.Prelude.Float.{Float, ◌<?◌}

pub record Numpy (F : Type 0) : Type 0 where
  -- `np.array(v, dtype=np.float32)`
  pub array : List F → List F
  -- `np.linalg.norm(v)`
  pub norm : List F → F
  -- `v / s`
  pub over : List F → F → List F
  -- `np.dot(v, w)`
  pub dot : List F → List F → Option F
  -- `np.array(vs).mean(axis=0)`
  pub mean : List (List F) → Option (List F)
  -- `v - w`
  pub minus : List F → List F → Option (List F)

-- numpy keeps the shape of a vector, and works elementwise on vectors of one length.
pub record KeepsShape {F : Type 0} (np : Numpy F) : Type 0 where
  pub length-array : (v : List F) → length (np.array v) ≡ length v
  pub length-over : (v : List F) (s : F) → length (np.over v s) ≡ length v
  pub dot_defined : (v w : List F) → length v ≡ length w → (x : F) × (np.dot v w ≡ some x)
  pub mean_defined :
      (n : ℕ) (v : List F) (vs : List (List F))
      → All (λ w. length w ≡ n) (v ∷ vs)
      → (m : List F) × (np.mean (v ∷ vs) ≡ some m) × (length m ≡ n)

module _ {F : Type 0} ⦃fl : Float F⦄ where
  -- The literal 1e-12.
  abbrev pub tiny : F
  tiny = fl.ratio 1 (10 ^ 12)

  module _ (np : Numpy F) where
    unfoldable pub l2_normalize : List F → List F
    l2_normalize embedding =
        let vec = np.array embedding in
        let norm = np.norm vec in if norm <? tiny then embedding else np.over vec norm

    unfoldable pub cosine_similarity : List F → List F → Option F
    cosine_similarity a b = np.dot (np.array a) (np.array b)

    abbrev scale_mean : List F → List F
    scale_mean mean_vec =
        let norm = np.norm mean_vec in if norm <? tiny then mean_vec else np.over mean_vec norm

    unfoldable pub average_embeddings : List (List F) → Option (List F)
    average_embeddings [] = some []
    average_embeddings (e ∷ es) = do
      mean_vec ← np.mean (map np.array (e ∷ es))
      some (scale_mean mean_vec)

    unfoldable pub embedding_distance : List F → List F → Option F
    embedding_distance a b = do d ← np.minus (np.array a) (np.array b); some (np.norm d)

    module _ (shape : KeepsShape np) where
      pub length-l2_normalize : (v : List F) → length (l2_normalize v) ≡ length v
      unfolding l2_normalize
      length-l2_normalize v =
          ground
            (arith, shape.length-array v, shape.length-over (np.array v) (np.norm (np.array v)))

      All-array :
          (n : ℕ) (vs : List (List F))
          → All (λ w. length w ≡ n) vs
          → All (λ w. length w ≡ n) (map np.array vs)
      All-array n [] h = tt
      All-array n (v ∷ vs) h = (rw (shape.length-array v) (h.0), All-array n vs h.1)

      pub average_defined :
          (n : ℕ) (v : List F) (vs : List (List F))
          → All (λ w. length w ≡ n) (v ∷ vs)
          → (m : List F) × (average_embeddings (v ∷ vs) ≡ some m) × (length m ≡ n)
      unfolding average_embeddings
      average_defined n v vs h =
          let (m, e, l) =
            shape.mean_defined n (np.array v) (map np.array vs) (All-array n (v ∷ vs) h) in
          (scale_mean m, rw e, ground (arith, shape.length-over m (np.norm m)))

      pub cosine_defined :
          (a b : List F) → length a ≡ length b → (x : F) × (cosine_similarity a b ≡ some x)
      unfolding cosine_similarity
      cosine_defined a b h =
          shape.dot_defined (np.array a) (np.array b)
            (rw (shape.length-array a, shape.length-array b) h)
